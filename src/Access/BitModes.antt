-- ===== src/Access/BitModes.antt =====
-- The bitwise write modes of `Read_Write_Private` (read_write_inline.h), bit by bit.
use upciedev.Prelude.{
  ℕ, ◌-◌, ◌%◌, ◌^◌, ◌≤◌, ◌<◌, bit_and, bit_or, ◌≡◌, ◌∙◌, ap, arith, ◌⊎◌, inl, inr, ◌==◌,
  if◌then◌else◌,
}
use upciedev.Prelude.Bits.{bit, bit-bit_and, bit-bit_or, bit-le_one, bit-complement, bit-mod}
use upciedev.Registers.{mtca_set_bits, mtca_swap_bits}
use upciedev.Kernel.{Kernel}
use upciedev.Access.{access_bits, complement32, set_bits, swap_bits, read_write_private}

-- A register of the device that keeps what is written to it and fits its width.
pub record IsRegister (k : Kernel) (bits address : ℕ) : Type 0 where
  pub fits : (w : k.World) → (k.ioread bits address w).0 < 2 ^ bits
  pub holds :
      (v : ℕ) (w : k.World)
      → v < 2 ^ bits
      → (k.ioread bits address (k.iowrite bits address v w)).0 ≡ v

pub access_bits-cases :
    (s : ℕ) → (access_bits s ≡ 8) ⊎ ((access_bits s ≡ 16) ⊎ (access_bits s ≡ 32))
unfolding access_bits
access_bits-cases s = ground arith

pub pow-access_bits : (s : ℕ) → 2 ^ access_bits s ≤ 2 ^ 32
pow-access_bits s = elim (access_bits-cases s) [
  | inl e ↦ rw e (omega arith)
  | inr (inl e) ↦ rw e (omega arith)
  | inr (inr e) ↦ rw e (omega arith)
]

mod-lt_pow : (s x : ℕ) → x % 2 ^ access_bits s < 2 ^ access_bits s
mod-lt_pow s x = elim (access_bits-cases s) [
  | inl e ↦ rw e (omega arith)
  | inr (inl e) ↦ rw e (omega arith)
  | inr (inr e) ↦ rw e (omega arith)
]

-- The merge of two words under a mask, as both modes compute it.
module _ (s i mask : ℕ) (h : i < access_bits s) where
  bit-mask_complement : bit i (complement32 (mask % 2 ^ access_bits s)) ≡ 1 - bit i mask
  bit-mask_complement =
      bit-complement 32 i (mask % 2 ^ access_bits s) (omega (arith, access_bits-cases s))
        (omega (arith, pow-access_bits s, mod-lt_pow s mask))
      ∙ ap (λ (t : ℕ). 1 - t) (bit-mod (access_bits s) i mask h)

  bit-merge :
      (x prev : ℕ)
      → bit i (
          bit_or
            (bit_and x (mask % 2 ^ access_bits s))
            (bit_and prev (complement32 (mask % 2 ^ access_bits s)))
          % 2 ^ access_bits s)
        ≡ (if bit i mask == 1 then bit i x else bit i prev)
  bit-merge x prev =
      rw (bit-mod (access_bits s) i (bit_or kept_in kept_out) h, bit-bit_or i kept_in kept_out)
        (ground (
          arith,
          bit-bit_and i x (mask % 2 ^ access_bits s),
          bit-bit_and i prev (complement32 (mask % 2 ^ access_bits s)),
          bit-mod (access_bits s) i mask h,
          bit-mask_complement,
          bit-le_one i mask,
          bit-le_one i x,
          bit-le_one i prev,
        ))
    where
      kept_in : ℕ
      kept_in = bit_and x (mask % 2 ^ access_bits s)

      kept_out : ℕ
      kept_out = bit_and prev (complement32 (mask % 2 ^ access_bits s))

module _ (k : Kernel) (s address : ℕ) (reg : IsRegister k (access_bits s) address) where
  open k use {World, ioread}

  abbrev old_value : World → ℕ
  old_value w = (ioread (access_bits s) address w).0

  -- Setting bits of a register that keeps what is written to it: each bit of its width is the
  -- user's bit where the mask has a one, and the old bit elsewhere.
  pub set_bits-merges :
      (value mask : ℕ) (w : World) (i : ℕ)
      → i < access_bits s
      → bit i (old_value (read_write_private k s mtca_set_bits address value mask w).1)
        ≡ (if bit i mask == 1 then bit i value else bit i (old_value w))
  unfolding read_write_private set_bits
  set_bits-merges value mask w i h = rw (
    reg.holds (set_bits (access_bits s) value mask (old_value w))
        (ioread (access_bits s) address w).1 (mod-lt_pow s _),
    bit-merge s i mask h (value % 2 ^ access_bits s) (old_value w),
    bit-mod (access_bits s) i value h,
  )

  -- Swapping bits of a register that keeps what is written to it: each bit of its width is inverted
  -- where the mask has a one, and the old bit elsewhere.
  pub swap_bits-inverts :
      (value mask : ℕ) (w : World) (i : ℕ)
      → i < access_bits s
      → bit i (old_value (read_write_private k s mtca_swap_bits address value mask w).1)
        ≡ (if bit i mask == 1 then 1 - bit i (old_value w) else bit i (old_value w))
  unfolding read_write_private swap_bits
  swap_bits-inverts value mask w i h = rw (
    reg.holds (swap_bits (access_bits s) mask (old_value w)) (ioread (access_bits s) address w).1
        (mod-lt_pow s _),
    bit-merge s i mask h (complement32 (old_value w)) (old_value w),
    bit-complement 32 i (old_value w) (omega (arith, access_bits-cases s))
        (omega (arith, reg.fits w, pow-access_bits s)),
  )
