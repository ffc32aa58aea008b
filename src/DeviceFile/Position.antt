-- ===== src/DeviceFile/Position.antt =====
-- The position of the device file that names a register (pciedev_rw_exp.c, PRW_* of pciedev_io.h).
use upciedev.Prelude.{ℕ, ◌+◌, ◌*◌, ◌/◌, ◌%◌, ◌^◌, ◌<◌, ◌≡◌, arith}
use upciedev.Prelude.Bits.{bit_and-low_mask, bit_and-shifted}
use upciedev.DeviceFile.{prw_reg_size, prw_bar, prw_offset}

pub prw_reg_size_lem : (position : ℕ) → prw_reg_size position ≡ position / 2 ^ 60 % 16
unfolding prw_reg_size
prw_reg_size_lem p = omega (arith, bit_and-shifted 60 15 p, bit_and-low_mask 4 (p / 2 ^ 60))

pub prw_bar_lem : (position : ℕ) → prw_bar position ≡ position / 2 ^ 56 % 16
unfolding prw_bar
prw_bar_lem p = omega (arith, bit_and-shifted 56 15 p, bit_and-low_mask 4 (p / 2 ^ 56))

pub prw_offset_lem : (position : ℕ) → prw_offset position ≡ position % 2 ^ 32
unfolding prw_offset
prw_offset_lem p = omega (arith, bit_and-low_mask 56 p)

-- A position that is put together of a register size and a BAR of four bits each, and an offset of
-- 32 bits, is decoded into these three.
pub prw_fields :
    (reg_size bar offset : ℕ)
    → reg_size < 16
    → bar < 16
    → offset < 2 ^ 32
    → let position = reg_size * 2 ^ 60 + bar * 2 ^ 56 + offset in
      (prw_reg_size position ≡ reg_size) × (prw_bar position ≡ bar) × (prw_offset position ≡ offset)
prw_fields r b o hr hb ho =
    let position = r * 2 ^ 60 + b * 2 ^ 56 + o in
    (
      omega (arith, prw_reg_size_lem position),
      omega (arith, prw_bar_lem position),
      omega (arith, prw_offset_lem position),
    )
