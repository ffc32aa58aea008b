-- ===== src/Boards/Ioctl/Mutex.antt =====
-- Which ioctl commands give the mutex back.
use upciedev.Prelude.{
  ℕ, Bool, false, some, ◌≡◌, ◌≢◌, refl, if-both, option-both, Bool-cases, Option-cases, get_elem?,
  ◌==◌, inl, inr, not,
}
use upciedev.Kernel.{Kernel, Outcome, returned, undefined}
use upciedev.Device.{PciedevDev}
use upciedev.DeviceFile.{FileRun, completed, blocked, out_of_array}
use upciedev.DeviceFile.Ioctl.{
  copy_request, leave, ioctl_set_bits, ioctl_swap_bits, ioctl_locked_read,
}
use upciedev.DeviceFile.Vector.{ioctl_vector_rw}
use upciedev.DeviceFile.Settings.{
  DeviceIoctrlData, ioctrl_data, sizeof_device_ioctrl_data, sizeof_int, answer, read_scratch,
  ioctl_scratch_reg, ioctl_set_swap, ioctl_get_swap, ioctl_get_status, ioctl_lock,
  ioctl_get_register_size, ioctl_set_register_size,
}
use upciedev.Boards.{Board}
use upciedev.Boards.Ioctl.{
  Command, physical_slot, driver_version, udriver_version, firmware_version, get_status,
  scratch_reg, set_swap, get_swap, lock_device, unlock_device, set_bits, swap_bits, locked_read,
  vector_rw, get_register_size, set_register_size, single_ioc_access, get_shapi_devinfo,
  get_shapi_modinfo, other, Versions, Junk, report, ioctl_physical_slot, ioctl_version,
  ioctl_firmware_version, ioctl_shapi_devinfo, ioctl_shapi_modinfo, perform, pciedev_ioctl_exp,
}

-- A command that has not waited, and has not kept the mutex if it has ended.
pub Frees : {W : Type 0} → FileRun W → Type 0
Frees (completed r held w) = held ≡ false
Frees blocked = ⊥
Frees out_of_array = Unit

leave-Frees : {W : Type 0} (o : Outcome W) → Frees (leave false o)
unfolding Frees
leave-Frees (returned r w) = refl
leave-Frees undefined = tt

read_scratch-Frees :
    (k : Kernel) (dev : PciedevDev) (arg : ℕ) (d : DeviceIoctrlData) (w : k.World)
    → Frees (read_scratch k dev arg d w)
unfolding read_scratch answer Frees
read_scratch-Frees k dev arg d w =
    option-both Frees (get_elem? dev.memmory_base dev.scratch_bar) _ _ tt λ address.
      if-both Frees (address == 0) refl (
        if-both Frees (dev.register_size == 0) refl (
          if-both Frees (dev.register_size == 1) refl
            (if-both Frees (dev.register_size == 2) refl refl)))

-- What PCIEDEV_SCRATCH_REG does with a command that is at hand.
scratch-Frees :
    (k : Kernel) (dev : PciedevDev) (arg reading : ℕ) (w : k.World)
    → k.copy_from_user arg sizeof_device_ioctrl_data w ≡ some reading
    → Frees (ioctl_scratch_reg k dev false arg w).0
unfolding ioctl_scratch_reg answer Frees
scratch-Frees k dev arg reading w e =
    let d = ioctrl_data reading in
    elim (Bool-cases (d.cmd == 1)) [
      | inl get ↦ rw (e, ioctl_scratch_reg) (rw get refl)
      | inr no_get ↦ elim (Bool-cases (d.cmd == 0)) [
        | inl set ↦ rw (e, ioctl_scratch_reg) (rw (no_get, set) refl)
        | inr neither ↦ elim (Bool-cases (d.cmd == 2)) [
          | inl read ↦
              rw (e, ioctl_scratch_reg)
                (rw (no_get, neither, read) (read_scratch-Frees k dev arg d w))
          | inr none_of_them ↦ rw (e, ioctl_scratch_reg) (rw (no_get, neither, none_of_them) refl)
        ]
      ]
    ]

module _ (k : Kernel) (b : Board) (versions : Versions) (junk : Junk) (slot_command : ℕ) where
  open k use {World}

  perform-Frees :
      (command : Command) (arg : ℕ) (w : World)
      → command ≢ single_ioc_access
      → Frees (perform k b versions junk slot_command command false arg w).0
  unfolding perform Frees ioctl_physical_slot answer ioctl_version ioctl_firmware_version
      ioctl_get_status ioctl_shapi_devinfo ioctl_shapi_modinfo report ioctl_get_swap ioctl_lock
      ioctl_get_register_size ioctl_set_register_size ioctl_set_swap ioctl_scratch_reg
      ioctl_set_bits ioctl_swap_bits ioctl_locked_read ioctl_vector_rw read_scratch
  perform-Frees physical_slot arg w ne =
      option-both Frees (k.copy_from_user arg 16 w) _ _ refl (λ r. refl)
  perform-Frees driver_version arg w ne = refl
  perform-Frees udriver_version arg w ne = refl
  perform-Frees firmware_version arg w ne = refl
  perform-Frees get_status arg w ne = refl
  perform-Frees scratch_reg arg w ne =
      elim (Option-cases (k.copy_from_user arg sizeof_device_ioctrl_data w)) [
        | inl e ↦ rw (e, ioctl_scratch_reg) refl
        | inr (reading, e) ↦ scratch-Frees k b.dev arg reading w e
      ]
  perform-Frees set_swap arg w ne = elim (Option-cases (k.copy_from_user arg sizeof_int w)) [
    | inl e ↦ rw (e, ioctl_set_swap) refl
    | inr (reading, e) ↦ rw (e, ioctl_set_swap) refl
  ]
  perform-Frees get_swap arg w ne = refl
  perform-Frees lock_device arg w ne = refl
  perform-Frees unlock_device arg w ne = refl
  perform-Frees set_bits arg w ne =
      option-both Frees (copy_request k b.dev arg w) _ _ refl (λ q. leave-Frees _)
  perform-Frees swap_bits arg w ne =
      option-both Frees (copy_request k b.dev arg w) _ _ refl (λ q. leave-Frees _)
  perform-Frees locked_read arg w ne =
      option-both Frees (copy_request k b.dev arg w) _ _ refl (λ q. leave-Frees _)
  perform-Frees vector_rw arg w ne =
      option-both Frees (k.copy_from_user arg 16 w) _ _ refl (λ q. leave-Frees _)
  perform-Frees get_register_size arg w ne = refl
  perform-Frees set_register_size arg w ne =
      elim (Option-cases (k.copy_from_user arg sizeof_int w)) [
        | inl e ↦ rw (e, ioctl_set_register_size) refl
        | inr (reading, e) ↦ rw (e, ioctl_set_register_size) refl
      ]
  perform-Frees single_ioc_access arg w ne = absurd (ne refl)
  perform-Frees get_shapi_devinfo arg w ne = refl
  perform-Frees get_shapi_modinfo arg w ne =
      option-both Frees (k.copy_from_user arg 72 w) _ _ refl (λ r. refl)
  perform-Frees other arg w ne = refl

  perform_held-Frees :
      (held : Bool) (command : Command) (arg : ℕ) (w : World)
      → held ≡ false
      → command ≢ single_ioc_access
      → Frees (perform k b versions junk slot_command command held arg w).0
  perform_held-Frees held command arg w free ne = rw free (perform-Frees command arg w ne)

  -- Every ioctl command but PCIEDEV_SINGLE_IOC_ACCESS, with the mutex free and whatever the user sends,
  -- does not wait, and if it ends it gives the mutex back.
  pub pciedev_ioctl_exp-Frees :
      (accessible : Bool) (command : Command) (arg : ℕ) (w : World)
      → b.dev_mut ≡ false
      → command ≢ single_ioc_access
      → Frees (pciedev_ioctl_exp k b versions junk slot_command accessible command arg w).0
  unfolding pciedev_ioctl_exp Frees
  pciedev_ioctl_exp-Frees accessible command arg w free ne =
      if-both {A = FileRun World × PciedevDev} (λ t. Frees t.0) (not b.dev.dev_sts) free
        (if-both {A = FileRun World × PciedevDev} (λ t. Frees t.0) (not accessible) free
          (perform_held-Frees b.dev_mut command arg w free ne))
