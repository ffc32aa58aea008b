-- ===== src/Boards/Stuck/Commands.antt =====
-- An ioctl command with the mutex held does not give it back.
use upciedev.Prelude.{ℕ, Bool, true, not, ◌≡◌, refl, if-both, option-both}
use upciedev.Kernel.{Kernel}
use upciedev.Device.{PciedevDev}
use upciedev.DeviceFile.{FileRun, completed, blocked, out_of_array}
use upciedev.DeviceFile.Ioctl.{
  copy_request, ioctl_set_bits, ioctl_swap_bits, ioctl_locked_read, ioctl_single_access,
}
use upciedev.DeviceFile.Vector.{ioctl_vector_rw}
use upciedev.DeviceFile.Settings.{
  sizeof_int, ioctl_scratch_reg, ioctl_set_swap, ioctl_get_swap, ioctl_get_status, ioctl_lock,
  ioctl_get_register_size, ioctl_set_register_size,
}
use upciedev.Boards.{Board}
use upciedev.Boards.Ioctl.{
  Command, physical_slot, driver_version, udriver_version, firmware_version, get_status,
  scratch_reg, set_swap, get_swap, lock_device, unlock_device, set_bits, swap_bits, locked_read,
  vector_rw, get_register_size, set_register_size, single_ioc_access, get_shapi_devinfo,
  get_shapi_modinfo, other, Versions, Junk, ioctl_physical_slot, ioctl_version,
  ioctl_firmware_version, ioctl_shapi_devinfo, ioctl_shapi_modinfo, perform, pciedev_ioctl_exp,
}

-- A call that has ended with the mutex still held.
abbrev pub KeepsHeld : {W : Type 0} → FileRun W → Type 0
KeepsHeld (completed r held w) = held ≡ true
KeepsHeld blocked = Unit
KeepsHeld out_of_array = Unit

module _ (k : Kernel) (b : Board) (versions : Versions) (junk : Junk) (slot_command : ℕ) where
  open k use {World}

  perform-KeepsHeld :
      (command : Command) (arg : ℕ) (w : World)
      → KeepsHeld (perform k b versions junk slot_command command true arg w).0
  unfolding perform ioctl_physical_slot ioctl_version ioctl_firmware_version ioctl_get_status
      ioctl_shapi_devinfo ioctl_shapi_modinfo ioctl_get_swap ioctl_lock ioctl_get_register_size
      ioctl_set_register_size ioctl_set_swap ioctl_scratch_reg ioctl_set_bits ioctl_swap_bits
      ioctl_locked_read ioctl_vector_rw ioctl_single_access
  perform-KeepsHeld physical_slot arg w = tt
  perform-KeepsHeld driver_version arg w = tt
  perform-KeepsHeld udriver_version arg w = tt
  perform-KeepsHeld firmware_version arg w = tt
  perform-KeepsHeld get_status arg w = tt
  perform-KeepsHeld scratch_reg arg w = tt
  perform-KeepsHeld set_swap arg w = tt
  perform-KeepsHeld get_swap arg w = refl
  perform-KeepsHeld lock_device arg w = refl
  perform-KeepsHeld unlock_device arg w = refl
  perform-KeepsHeld set_bits arg w = tt
  perform-KeepsHeld swap_bits arg w = tt
  perform-KeepsHeld locked_read arg w =
      option-both KeepsHeld (copy_request k b.dev arg w) _ _ refl (λ q. tt)
  perform-KeepsHeld vector_rw arg w =
      option-both KeepsHeld (k.copy_from_user arg 16 w) _ _ refl (λ r. tt)
  perform-KeepsHeld get_register_size arg w = refl
  perform-KeepsHeld set_register_size arg w =
      option-both {B = FileRun World × PciedevDev} (λ t. KeepsHeld t.0)
        (k.copy_from_user arg sizeof_int w) _ _ refl (λ r. refl)
  perform-KeepsHeld single_ioc_access arg w = tt
  perform-KeepsHeld get_shapi_devinfo arg w = tt
  perform-KeepsHeld get_shapi_modinfo arg w = tt
  perform-KeepsHeld other arg w = refl

  held-KeepsHeld :
      (held : Bool) (command : Command) (arg : ℕ) (w : World)
      → held ≡ true
      → KeepsHeld (perform k b versions junk slot_command command held arg w).0
  held-KeepsHeld held command arg w h = rw h (perform-KeepsHeld command arg w)

  -- Whatever command a user sends to a board with the mutex held, it waits or leaves the mutex held.
  pub ioctl-KeepsHeld :
      (accessible : Bool) (command : Command) (arg : ℕ) (w : World)
      → b.dev_mut ≡ true
      → KeepsHeld (pciedev_ioctl_exp k b versions junk slot_command accessible command arg w).0
  unfolding pciedev_ioctl_exp
  ioctl-KeepsHeld accessible command arg w h =
      if-both {A = FileRun World × PciedevDev} (λ t. KeepsHeld t.0) (not b.dev.dev_sts) h
        (if-both {A = FileRun World × PciedevDev} (λ t. KeepsHeld t.0) (not accessible) h
          (held-KeepsHeld b.dev_mut command arg w h))
