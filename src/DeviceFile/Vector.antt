-- ===== src/DeviceFile/Vector.antt =====
-- The ioctl command that goes through a vector of requests: PCIEDEV_VECTOR_RW (pciedev_ioctl_exp.c).
pub mod Single
use upciedev.Prelude.{
  ℕ, zero, suc, ◌+◌, ◌^◌, ◌≤◌, ◌<◌, Bool, true, false, none, some, ℤ, pos, ◌*◌, ◌+ℤ◌, zero_add, ltb,
  if◌then◌else◌, ◌≡◌, refl, ◌⊎◌, inl, inr,
}
use upciedev.Registers.{mtca_simple_write, mtca_set_bits}
use upciedev.Kernel.{Kernel, Outcome, returned, undefined, efault}
use upciedev.Device.{PciedevDev, number_of_bars}
use upciedev.Access.{pciedev_read_inline, pciedev_write_inline}
use upciedev.DeviceFile.{FileRun, completed, blocked}
use upciedev.DeviceFile.Ioctl.{
  DeviceIocRw, copy_request, sizeof_device_ioc_rw, ioc_field, leave, ioctl_set_bits,
}

-- `device_vector_rw`, of two fields of 64 bits; the number of requests is made an `int`, and a
-- negative one is none.
abbrev pub sizeof_device_vector_rw : ℕ
sizeof_device_vector_rw = 16

unfoldable pub number_of_requests : ℕ → ℕ
number_of_requests reading = let low = ioc_field 0 32 reading in if ltb low (2 ^ 31) then low else 0

pub Outcome-cases :
    {W : Type 0} (o : Outcome W) → ((r : ℤ) × (w : W) × (o ≡ returned r w)) ⊎ (o ≡ undefined)
Outcome-cases (returned r w) = inl (r, w, refl)
Outcome-cases undefined = inr refl

module _ (k : Kernel) (dev : PciedevDev) (junk_read : ℕ → ℕ) (junk_write : ℕ) where
  open k use {World, copy_from_user}

  -- One request; a mode from MTCA_SIMPLE_WRITE on is a write.
  unfoldable pub access_request : DeviceIocRw → World → Outcome World
  access_request q w =
      if ltb q.rw_access_mode mtca_simple_write
      then pciedev_read_inline k dev junk_read q.register_size q.rw_access_mode q.barx_rw
          q.offset_rw q.data_ptr q.count_rw w
      else pciedev_write_inline k dev junk_write q.register_size q.rw_access_mode q.barx_rw
          q.offset_rw q.data_ptr q.mask_ptr q.count_rw w

  -- The loop, with `n` requests left, the next one at the address `arg`, and the sum of the results so
  -- far. A request that cannot be copied ends it.
  unfoldable pub vector_loop : ℕ → ℕ → ℤ → World → Outcome World
  unfolding copy_request access_request
  vector_loop zero arg total w = returned total w
  vector_loop (suc n) arg total w = elim (copy_request k dev arg w) [
    | none ↦ returned total w
    | some q ↦ elim (access_request q w) [
      | returned r w' ↦ vector_loop n (arg + sizeof_device_ioc_rw) (total +ℤ r) w'
      | undefined ↦ undefined
    ]
  ]

  unfoldable pub ioctl_vector_rw : Bool → ℕ → World → FileRun World
  unfolding number_of_requests vector_loop
  ioctl_vector_rw held arg w = elim (copy_from_user arg sizeof_device_vector_rw w) [
    | none ↦ completed efault held w
    | some reading ↦
        if held
        then blocked
        else leave false
            (vector_loop (number_of_requests reading) (ioc_field 64 64 reading) (pos 0) w)
  ]

  -- The first `j` requests of the vector at `start` have been copied and have returned, with the sum
  -- `total` of their results, and have left the world `v`.
  pub data Passed (start : ℕ) (w : World) : ℕ → ℤ → World → Type 0 where
    at_start : Passed start w 0 (pos 0) w
    one_more :
        {j : ℕ} {total r : ℤ} {v v' : World} (q : DeviceIocRw)
        → Passed start w j total v
        → copy_request k dev (start + j * sizeof_device_ioc_rw) v ≡ some q
        → access_request q v ≡ returned r v'
        → Passed start w (j + 1) (total +ℤ r) v'

  -- Behind these requests the vector ends: it has `n` requests, or the next one cannot be copied.
  abbrev pub IsLast : ℕ → ℕ → ℕ → World → Type 0
  IsLast n start j v = (j ≡ n) ⊎ (copy_request k dev (start + j * sizeof_device_ioc_rw) v ≡ none)

  -- The next request is one of the vector and names no BAR.
  abbrev pub NextIsBad : ℕ → ℕ → ℕ → World → Type 0
  NextIsBad n start j v =
      (j < n)
      × (q : DeviceIocRw) × (copy_request k dev (start + j * sizeof_device_ioc_rw) v ≡ some q)
      × (number_of_bars ≤ q.barx_rw)

  -- How a run over `n` requests ends.
  abbrev pub Ends : ℕ → ℕ → World → (World → ℤ → Type 0) → Type 0 → Type 0
  Ends n start w done out =
      (j : ℕ) × (total : ℤ) × (v : World) × Passed start w j total v
      × (j ≤ n)
      × ((done v total × IsLast n start j v) ⊎ (out × NextIsBad n start j v))
