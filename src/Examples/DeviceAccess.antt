-- ===== src/Examples/DeviceAccess.antt =====
-- Register access on a device that is a plain memory.
use upciedev.Prelude.{
  ℕ, true, ◌+◌, ◌*◌, ◌%◌, ◌^◌, ◌≤◌, ◌<◌, false, [], ◌∷◌, ◌==◌, if◌then◌else◌, none, some, ◌≡◌, ◌↔◌,
  refl, ◌⊎◌, inr, arith, pos,
}
use upciedev.Prelude.Bits.{bit}
use upciedev.Registers.{
  mtca_simple_read, mtca_simple_write, mtca_set_bits, mtca_swap_bits, get_register_size_in_bytes,
  upciedev_swap_tot, upciedev_swapl,
}
use upciedev.Registers.Swap.{swap_tot-swap_tot}
use upciedev.Kernel.{Kernel, returned, efault}
use upciedev.Device.{PciedevDev, IsDevice}
use upciedev.Access.{
  access_bits, served_count, read_write_private, pciedev_read_inline, pciedev_write_inline,
  read_loop, read_round,
}
use upciedev.Access.Bounds.{served_registers}
use upciedev.Access.Rounds.{Returns, Keeps, KeepsAccess, Keeps-KeepsAccess, CountTo, IsDead, Never}
use upciedev.Access.BitModes.{IsRegister, set_bits-merges, swap_bits-inverts}
use upciedev.Access.Reading.{read_inline-stays_in_bar}
use upciedev.Access.Writing.{write_inline-stays_in_bar}
use upciedev.Access.Faults.{}

abbrev pub Memory : Type 0
Memory = ℕ → ℕ

-- Each address has a register of its own; the user's data are the addresses they stand at.
abbrev pub memory : Kernel
memory = record {
  World = Memory;
  ioread = λ bits a w. (w a % 2 ^ bits, w);
  iowrite = λ bits a v w b. if b == a then v else w b;
  copy_to_user = λ a n v w. (false, w);
  copy_from_user = λ a n w. some a;
}

-- One BAR of 16 bytes, mapped at 0x1000.
abbrev pub board : PciedevDev
board = record {
  mem_base = 0x100 ∷ 0 ∷ 0 ∷ 0 ∷ 0 ∷ 0 ∷ [];
  mem_base_end = 0x10f ∷ 0 ∷ 0 ∷ 0 ∷ 0 ∷ 0 ∷ [];
  memmory_base = 0x1000 ∷ 0 ∷ 0 ∷ 0 ∷ 0 ∷ 0 ∷ [];
  dev_sts = true;
  register_size = 2;
  swap = false;
  scratch_bar = 0;
  scratch_offset = 0;
}

pub board-IsDevice : IsDevice board
board-IsDevice = record { starts = refl; ends = refl; mapped = refl; known_size = omega arith }

-- The register at 0x2000, which is behind the BAR, holds 7.
abbrev Neighbour : Memory → Type 0
Neighbour w = w 0x2000 ≡ 7

abbrev sevens : Memory
sevens a = 7

Neighbour-kept : Keeps memory board 2 0x1000 0x100f Neighbour
Neighbour-kept = record {
  reads = λ a w p q h. h;
  writes = λ a v w p q h. let away : (0x2000 == a) ≡ false = ground arith in rw away h;
  scratch = λ base w e h. h;
  delivers = λ a n v w h. h;
}

Neighbour-unwritten : KeepsAccess memory 2 0x1000 0x100f Neighbour
Neighbour-unwritten = Keeps-KeepsAccess memory board 2 0x1000 0x100f Neighbour Neighbour-kept

read_two :
    pciedev_read_inline memory board (λ i. 0) 2 mtca_simple_read 0 0 1 2 sevens
    ≡ returned (pos 8) sevens
unfolding pciedev_read_inline read_loop read_round read_write_private served_count
    get_register_size_in_bytes
read_two = refl

-- The last register of the 16 bytes is not served.
read_all :
    pciedev_read_inline memory board (λ i. 0) 2 mtca_simple_read 0 0 1 9 sevens
    ≡ returned (pos 12) sevens
unfolding pciedev_read_inline read_loop read_round read_write_private served_count
    get_register_size_in_bytes
read_all = refl

read_inline-stays_in_bar_example :
    Returns
      (λ r w'. (w' 0x2000 ≡ 7) × ((r ≡ efault) ⊎ (CountTo IsDead 8 r × CountTo IsDead 15 r)))
      (pciedev_read_inline memory board (λ i. 0) 2 mtca_simple_read 0 0 1 2 sevens)
unfolding get_register_size_in_bytes
read_inline-stays_in_bar_example =
    read_inline-stays_in_bar memory board (λ i. 0) 2 mtca_simple_read 0 0 1 2 0x1000 0x100 0x10f
      sevens Neighbour board-IsDevice (omega arith) (omega arith) refl refl refl Neighbour-kept refl

write_inline-stays_in_bar_example :
    Returns
      (λ r w'. (w' 0x2000 ≡ 7) × ((r ≡ efault) ⊎ (CountTo Never 8 r × CountTo Never 15 r)))
      (pciedev_write_inline memory board 0 2 mtca_simple_write 0 0 1 0 2 sevens)
unfolding get_register_size_in_bytes
write_inline-stays_in_bar_example =
    write_inline-stays_in_bar memory board 0 2 mtca_simple_write 0 0 1 0 2 0x1000 0x100 0x10f sevens
      Neighbour board-IsDevice (omega arith) refl refl refl Neighbour-unwritten refl

low_word : (v : ℕ) → v % 2 ^ 32 < 2 ^ 32
low_word v = omega arith

-- The register at 0x1004, of 32 bits, while what stands there fits.
abbrev Fitting : Type 0
Fitting = (v : ℕ) × (v < 2 ^ 32)

abbrev register : Kernel
register = record {
  World = Fitting;
  ioread = λ bits a w. (w.0 % 2 ^ 32, w);
  iowrite = λ bits a v w. (v % 2 ^ 32, low_word v);
  copy_to_user = λ a n v w. (false, w);
  copy_from_user = λ a n w. none;
}

register-IsRegister : IsRegister register (access_bits 2) 0x1004
unfolding access_bits
register-IsRegister = record { fits = λ w. omega arith; holds = λ v w h. omega arith }

abbrev holding : Fitting
holding = (0x0f0f, omega arith)

set_bits-merges_example :
    bit 4
      (register.ioread
        (access_bits 2)
        0x1004
        (read_write_private register 2 mtca_set_bits 0x1004 0xffff 0x00f0 holding).1).0
    ≡ 1
set_bits-merges_example =
    set_bits-merges register 2 0x1004 register-IsRegister 0xffff 0x00f0 holding 4
      (unfold access_bits in omega arith)

swap_bits-inverts_example :
    bit 0
      (register.ioread
        (access_bits 2)
        0x1004
        (read_write_private register 2 mtca_swap_bits 0x1004 0 0x0001 holding).1).0
    ≡ 0
swap_bits-inverts_example =
    swap_bits-inverts register 2 0x1004 register-IsRegister 0 0x0001 holding 0
      (unfold access_bits in omega arith)

served_registers_example :
    (served_count 0x100 0x10f 4 4 9 ≤ 9)
    × ((2 < served_count 0x100 0x10f 4 4 9) ↔ (0x100 + 4 + (2 + 1) * 4 ≤ 0x10f))
served_registers_example =
    let bounds = served_registers 0x100 0x10f 4 4 9 (omega arith) (omega arith) (omega arith) in
    (bounds.0, bounds.1 2 (omega arith))

swapl_bytes : upciedev_swapl 0x11223344 ≡ 0x44332211
unfolding upciedev_swapl
swapl_bytes = refl

swap_tot-swap_tot_example : upciedev_swap_tot 4 (upciedev_swap_tot 4 0x11223344) ≡ 0x11223344
swap_tot-swap_tot_example = swap_tot-swap_tot 4 0x11223344 (inr (inr refl)) (omega arith)

-- A board of 8-bit registers on a dead bus.
abbrev narrow_board : PciedevDev
narrow_board = record board { register_size = 0 }

abbrev dead : Memory
dead a = 0xff
