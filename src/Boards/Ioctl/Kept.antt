-- ===== src/Boards/Ioctl/Kept.antt =====
-- What the ioctl commands leave of a board's device.
use upciedev.Prelude.{ℕ, Bool, not, refl, if-both}
use upciedev.Kernel.{Kernel}
use upciedev.Device.{PciedevDev, IsDevice}
use upciedev.DeviceFile.{FileRun}
use upciedev.DeviceFile.Settings.{}
use upciedev.DeviceFile.Settings.Kept.{SettingsKept, settings-kept}
use upciedev.Boards.{Board}
use upciedev.Boards.Ioctl.{
  Command, physical_slot, driver_version, udriver_version, firmware_version, get_status,
  scratch_reg, set_swap, get_swap, lock_device, unlock_device, set_bits, swap_bits, locked_read,
  vector_rw, get_register_size, set_register_size, single_ioc_access, get_shapi_devinfo,
  get_shapi_modinfo, other, Versions, Junk, perform, pciedev_ioctl_exp,
}

module _ (k : Kernel) (b : Board) (versions : Versions) (junk : Junk) (slot_command : ℕ)
    (device : IsDevice b.dev) where
  open k use {World}

  same : SettingsKept b.dev b.dev
  same = record { device = device; there = refl; mapped = refl }

  perform-SettingsKept :
      (command : Command) (held : Bool) (arg : ℕ) (w : World)
      → SettingsKept b.dev (perform k b versions junk slot_command command held arg w).1
  unfolding perform
  perform-SettingsKept scratch_reg held arg w = (settings-kept k b.dev device held arg w).0
  perform-SettingsKept set_swap held arg w = (settings-kept k b.dev device held arg w).1
  perform-SettingsKept set_register_size held arg w = (settings-kept k b.dev device held arg w).2
  perform-SettingsKept physical_slot held arg w = same
  perform-SettingsKept driver_version held arg w = same
  perform-SettingsKept udriver_version held arg w = same
  perform-SettingsKept firmware_version held arg w = same
  perform-SettingsKept get_status held arg w = same
  perform-SettingsKept get_swap held arg w = same
  perform-SettingsKept lock_device held arg w = same
  perform-SettingsKept unlock_device held arg w = same
  perform-SettingsKept set_bits held arg w = same
  perform-SettingsKept swap_bits held arg w = same
  perform-SettingsKept locked_read held arg w = same
  perform-SettingsKept vector_rw held arg w = same
  perform-SettingsKept get_register_size held arg w = same
  perform-SettingsKept single_ioc_access held arg w = same
  perform-SettingsKept get_shapi_devinfo held arg w = same
  perform-SettingsKept get_shapi_modinfo held arg w = same
  perform-SettingsKept other held arg w = same

  -- Whatever command a user sends, the device stays in order and as it is mapped.
  pub ioctl-SettingsKept :
      (accessible : Bool) (command : Command) (arg : ℕ) (w : World)
      → SettingsKept b.dev
          (pciedev_ioctl_exp k b versions junk slot_command accessible command arg w).1
  unfolding pciedev_ioctl_exp
  ioctl-SettingsKept accessible command arg w =
      if-both {A = FileRun World × PciedevDev} (λ t. SettingsKept b.dev t.1) (not b.dev.dev_sts)
        same
        (if-both {A = FileRun World × PciedevDev} (λ t. SettingsKept b.dev t.1) (not accessible)
          same (perform-SettingsKept command b.dev_mut arg w))
