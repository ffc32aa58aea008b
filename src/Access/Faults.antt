-- ===== src/Access/Faults.antt =====
-- Requests that `pciedev_read_inline`, `pciedev_write_inline` and `pciedev_check_scratch`
-- (read_write_inline.h) do not guard against.
use upciedev.Prelude.{
  ℕ, zero, suc, ◌+◌, ◌-◌, ◌%◌, ◌^◌, ◌≤◌, ◌<◌, ◌≡◌, ◌≢◌, arith, inl, inr, false, ltb, ◌==◌,
  if◌then◌else◌, some, get_elem?, get_elem?-out_of_range, length,
}
use native.Mathlib.Nat.{div-eq_of_lt}
use upciedev.Kernel.{Kernel, undefined}
use upciedev.Device.{PciedevDev}
use upciedev.Access.{
  access_bits, store_low, served_count, read_write_private, check_scratch, find_window,
  pciedev_read_inline, pciedev_write_inline,
}
use upciedev.Access.BitModes.{access_bits-cases}

-- A BAR number behind the array of mapped addresses is not refused: both functions index the array
-- out of its bounds, whatever the rest of the request is.
pub unknown_bar_undefined :
    (k : Kernel) (dev : PciedevDev) (junk : ℕ → ℕ)
    (reg_size mode bar offset user_data0 user_mask0 count : ℕ) (w : k.World)
    → ¬ (bar < length dev.memmory_base)
    → (pciedev_read_inline k dev junk reg_size mode bar offset user_data0 count w ≡ undefined)
      × (pciedev_write_inline k dev (junk 0) reg_size mode bar offset user_data0 user_mask0 count w
          ≡ undefined)
unfolding pciedev_read_inline pciedev_write_inline
unknown_bar_undefined k dev junk reg_size mode bar offset user_data0 user_mask0 count w h =
    let e = get_elem?-out_of_range dev.memmory_base bar h in
    (rw (e, pciedev_read_inline, find_window), rw (e, pciedev_write_inline, find_window))

-- The kernel's end of a BAR is its last byte, so a BAR of `size` bytes at `start` ends at
-- `start + size - 1`. A request for the last register of such a BAR is served nothing, at any count.
last_register_unserved :
    (start size bytes count : ℕ)
    → 0 < bytes
    → bytes ≤ size
    → start + size ≤ 2 ^ 32
    → served_count start (start + size - 1) (size - bytes) bytes count ≡ 0
unfolding served_count
last_register_unserved start size bytes count pos_bytes fits low =
    let total : (start + size - 1 + 2 ^ 32 - start) % 2 ^ 32 ≡ size - 1 = omega arith in
    let rest : (if ltb (size - bytes) (size - 1) then size - 1 - (size - bytes) else 0)
        ≡ bytes - 1 =
      ground arith in
    rw total (rw rest (rw (div-eq_of_lt {n = bytes - 1} {m = bytes} (omega arith)) (ground arith)))

store_low_ge :
    (s v junk : ℕ) → 2 ^ access_bits s ≤ junk → 2 ^ access_bits s ≤ store_low (access_bits s) v junk
unfolding store_low
store_low_ge s v junk h = elim (access_bits-cases s) [
  | inl e ↦ rw e (omega (arith, rw e at h))
  | inr (inl e) ↦ rw e (omega (arith, rw e at h))
  | inr (inr e) ↦ rw e (omega (arith, rw e at h))
]

-- The value that the check compares with: all ones at the register's width.
narrow_ones :
    (s v junk : ℕ)
    → s < 2
    → 2 ^ access_bits s ≤ junk
    → (store_low (access_bits s) v junk
        == (if s == 0 then 0xff else if s == 1 then 0xffff else 0xffffffff))
      ≡ false
unfolding access_bits
narrow_ones zero v junk h g = ground (arith, store_low_ge 0 v junk g)
narrow_ones (suc zero) v junk h g = ground (arith, store_low_ge 1 v junk g)
narrow_ones (suc (suc s)) v junk h g = absurd (omega arith)

-- A scratch check at 8 or 16 bits whose uninitialised variable has a one above that width reports
-- a live bus, whatever the device answers.
check_scratch-stale :
    (k : Kernel) (dev : PciedevDev) (junk base : ℕ) (w : k.World)
    → dev.register_size < 2
    → get_elem? dev.memmory_base dev.scratch_bar ≡ some base
    → base ≢ 0
    → 2 ^ access_bits dev.register_size ≤ junk
    → check_scratch k dev junk w
      ≡ some (false, (k.ioread (access_bits dev.register_size) (base + dev.scratch_offset) w).1)
unfolding check_scratch read_write_private
check_scratch-stale k dev junk base w small e mapped stale =
    let live : (base == 0) ≡ false = ground arith in
    rw (e, check_scratch) (rw (live, narrow_ones dev.register_size _ junk small stale))
