-- ===== src/Registers.antt =====
-- Register sizes, access modes and byte order (pciedev_io.h).
pub mod Swap
use upciedev.Prelude.{ℕ, ◌*◌, ◌/◌, ◌%◌, ◌^◌, bit_and, bit_or, leb, ◌==◌, if◌then◌else◌}

-- The codes of a register size.
abbrev pub rw_d8 : ℕ
rw_d8 = 0x0

abbrev pub rw_d16 : ℕ
rw_d16 = 0x1

abbrev pub rw_d32 : ℕ
rw_d32 = 0x2

abbrev pub mtca_max_rw : ℕ
mtca_max_rw = 3

-- The access modes that the driver knows.
abbrev pub mtca_simple_read : ℕ
mtca_simple_read = 0

abbrev pub mtca_locked_read : ℕ
mtca_locked_read = 1

abbrev pub mt_read_to_extra_buffer : ℕ
mt_read_to_extra_buffer = 2

abbrev pub mtca_simple_write : ℕ
mtca_simple_write = 5

abbrev pub mtca_set_bits : ℕ
mtca_set_bits = 6

abbrev pub mtca_swap_bits : ℕ
mtca_swap_bits = 7

-- The macro CORRECT_REGISTER_SIZE on an unsigned mode: its test for a negative one is never met.
-- A negative `int16_t` or `int` is a mode from 2 ^ 15 on here, which takes the default too.
unfoldable pub correct_register_size : ℕ → ℕ → ℕ
correct_register_size mode default_mode = if leb mtca_max_rw mode then default_mode else mode

unfoldable pub get_register_size_in_bytes : ℕ → ℕ → ℕ
unfolding correct_register_size
get_register_size_in_bytes mode default_mode = 2 ^ correct_register_size mode default_mode

-- A shift to the right, and one to the left at 32 bits.
abbrev pub shr : ℕ → ℕ → ℕ
shr x k = x / 2 ^ k

abbrev pub shl32 : ℕ → ℕ → ℕ
shl32 x k = x * 2 ^ k % 2 ^ 32

unfoldable pub upciedev_swapl : ℕ → ℕ
upciedev_swapl x =
    bit_or
      (bit_or (bit_or (bit_and (shr x 24) 0x000000ff) (bit_and (shr x 8) 0x0000ff00))
        (bit_and (shl32 x 8) 0x00ff0000))
      (bit_and (shl32 x 24) 0xff000000)

unfoldable pub upciedev_swaps : ℕ → ℕ
upciedev_swaps x = bit_or (bit_and (shr x 8) 0x00ff) (bit_and (shl32 x 8) 0xff00)

unfoldable pub upciedev_swap_tot : ℕ → ℕ → ℕ
upciedev_swap_tot size x =
    if size == 1 then x else if size == 2 then upciedev_swaps x else upciedev_swapl x
