-- ===== src/DeviceFile/Vector/Single.antt =====
-- A vector of one request (PCIEDEV_VECTOR_RW of pciedev_ioctl_exp.c).
use upciedev.Prelude.{ℕ, Bool, true, false, some, ℤ, pos, zero_add, ◌≡◌, refl, ap, inl, inr}
use upciedev.Registers.{mtca_set_bits}
use upciedev.Kernel.{Kernel, Outcome, returned}
use upciedev.Device.{PciedevDev}
use upciedev.Access.{pciedev_write_inline}
use upciedev.Access.Rounds.{}
use upciedev.Access.Reading.{}
use upciedev.Access.Writing.{}
use upciedev.DeviceFile.{}
use upciedev.DeviceFile.Lock.{}
use upciedev.DeviceFile.Ioctl.{DeviceIocRw, copy_request, ioc_field, leave, ioctl_set_bits}
use upciedev.DeviceFile.Vector.{
  sizeof_device_vector_rw, number_of_requests, Outcome-cases, access_request, vector_loop,
  ioctl_vector_rw,
}

module _ (k : Kernel) (dev : PciedevDev) (junk_read : ℕ → ℕ) (junk_write : ℕ) where
  open k use {World, copy_from_user}

  loop_of_one :
      (arg : ℕ) (w : World) (q : DeviceIocRw)
      → copy_request k dev arg w ≡ some q
      → vector_loop k dev junk_read junk_write 1 arg (pos 0) w
        ≡ access_request k dev junk_read junk_write q w
  unfolding vector_loop
  loop_of_one arg w q e = elim (Outcome-cases (access_request k dev junk_read junk_write q w)) [
    | inl (r, w', acc) ↦ rw (e, vector_loop) (rw acc (ap (λ (x : ℤ). returned x w') (zero_add r)))
    | inr acc ↦ rw (e, vector_loop) (rw acc refl)
  ]

  access_set_bits :
      (q : DeviceIocRw) (w : World)
      → q.rw_access_mode ≡ mtca_set_bits
      → access_request k dev junk_read junk_write q w
        ≡ pciedev_write_inline k dev junk_write q.register_size mtca_set_bits q.barx_rw q.offset_rw
            q.data_ptr q.mask_ptr q.count_rw w
  unfolding access_request
  access_set_bits q w mode = rw mode refl

  -- A vector of one request that sets bits does what PCIEDEV_SET_BITS does with the same request,
  -- with the mutex free or held.
  vector_of_one :
      (held : Bool) (arg reading : ℕ) (w : World) (q : DeviceIocRw)
      → copy_from_user arg sizeof_device_vector_rw w ≡ some reading
      → number_of_requests reading ≡ 1
      → copy_request k dev (ioc_field 64 64 reading) w ≡ some q
      → q.rw_access_mode ≡ mtca_set_bits
      → ioctl_vector_rw k dev junk_read junk_write held arg w
        ≡ ioctl_set_bits k dev junk_write held (ioc_field 64 64 reading) w
  unfolding ioctl_vector_rw ioctl_set_bits
  vector_of_one true arg reading w q e one copied mode = rw (e, ioctl_vector_rw) refl
  vector_of_one false arg reading w q e one copied mode =
      rw (e, ioctl_vector_rw)
        (rw (one, loop_of_one (ioc_field 64 64 reading) w q copied)
          (rw (copied, ioctl_set_bits)
            (ap (λ (o : Outcome World). leave false o) (access_set_bits q w mode))))
