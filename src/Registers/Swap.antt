-- ===== src/Registers/Swap.antt =====
-- Byte order: UPCIEDEV_SWAPL, UPCIEDEV_SWAPS and UPCIEDEV_SWAP_TOT of pciedev_io.h.
use upciedev.Prelude.{
  ℕ, zero, suc, ◌+◌, ◌*◌, ◌/◌, ◌%◌, ◌^◌, ◌≤◌, ◌<◌, ◌≡◌, refl, ◌⊎◌, inl, inr, arith,
}
use upciedev.Prelude.Bits.{bit_and-low_mask, bit_and-byte, bit_or-fields_low}
use upciedev.Registers.{
  shr, shl32, get_register_size_in_bytes, upciedev_swapl, upciedev_swaps, upciedev_swap_tot,
}

small_powers : (d : ℕ) → d < 3 → (2 ^ d ≡ 1) ⊎ ((2 ^ d ≡ 2) ⊎ (2 ^ d ≡ 4))
small_powers zero h = inl refl
small_powers (suc zero) h = inr (inl refl)
small_powers (suc (suc zero)) h = inr (inr refl)
small_powers (suc (suc (suc d))) h = absurd (omega arith)

-- The number of bytes of a register is that of its mode if it is a known one, else that of the
-- default, so it is one of 1, 2 and 4 if the default is a known mode.
pub register_size_bytes :
    (mode default_mode : ℕ)
    → default_mode < 3
    → let n = get_register_size_in_bytes mode default_mode in
      ((mode < 3 → n ≡ 2 ^ mode) × (3 ≤ mode → n ≡ 2 ^ default_mode))
      × ((n ≡ 1) ⊎ ((n ≡ 2) ⊎ (n ≡ 4)))
unfolding get_register_size_in_bytes
register_size_bytes mode d h = ground (arith, small_powers mode, small_powers d h)

abbrev swapl_sum : ℕ → ℕ
swapl_sum x =
    x % 256 * 2 ^ 24 + x / 2 ^ 8 % 256 * 2 ^ 16 + x / 2 ^ 16 % 256 * 2 ^ 8 + x / 2 ^ 24 % 256

swaps_as_sum : (x : ℕ) → upciedev_swaps x ≡ x % 256 * 2 ^ 8 + x / 2 ^ 8 % 256
unfolding upciedev_swaps
swaps_as_sum x =
    rw (bit_and-low_mask 8 (shr x 8), bit_and-byte 8 (shl32 x 8))
      (rw (bit_or-fields_low 8 (shl32 x 8 / 2 ^ 8 % 256) (shr x 8 % 256) (omega arith))
        (omega arith))

swapl_as_sum : (x : ℕ) → upciedev_swapl x ≡ swapl_sum x
unfolding upciedev_swapl
swapl_as_sum x =
    rw
      (
        bit_and-low_mask 8 (shr x 24),
        bit_and-byte 8 (shr x 8),
        bit_and-byte 16 (shl32 x 8),
        bit_and-byte 24 (shl32 x 24),
      )
      (rw
        (
          bit_or-fields_low 8 b1 b0 (omega arith),
          bit_or-fields_low 16 b2 (b1 * 256 + b0) (omega arith),
          bit_or-fields_low 24 b3 (b2 * 65536 + (b1 * 256 + b0)) (omega arith),
        )
        (omega arith))
  where
    b0 : ℕ
    b0 = shr x 24 % 256

    b1 : ℕ
    b1 = shr x 8 / 256 % 256

    b2 : ℕ
    b2 = shl32 x 8 / 65536 % 256

    b3 : ℕ
    b3 = shl32 x 24 / 16777216 % 256

swaps-swaps : (x : ℕ) → x < 2 ^ 16 → upciedev_swaps (upciedev_swaps x) ≡ x
swaps-swaps x h = omega (arith, swaps_as_sum x, swaps_as_sum (upciedev_swaps x))

swapl-swapl : (x : ℕ) → x < 2 ^ 32 → upciedev_swapl (upciedev_swapl x) ≡ x
swapl-swapl x h = omega (arith, swapl_as_sum x, swapl_as_sum (upciedev_swapl x))

-- Swapping the bytes of a register value twice gives the value back, for each size that a register
-- can have, when the value fits the register.
pub swap_tot-swap_tot :
    (size x : ℕ)
    → (size ≡ 1) ⊎ ((size ≡ 2) ⊎ (size ≡ 4))
    → x < 2 ^ (8 * size)
    → upciedev_swap_tot size (upciedev_swap_tot size x) ≡ x
unfolding upciedev_swap_tot
swap_tot-swap_tot size x (inl e) h = rw e refl
swap_tot-swap_tot size x (inr (inl e)) h = rw e (swaps-swaps x (rw e at h))
swap_tot-swap_tot size x (inr (inr e)) h = rw e (swapl-swapl x (rw e at h))
