-- ===== src/Boards/Ioctl.antt =====
-- The ioctl commands of a board: the reports of its slot, of versions and of its SHAPI headers, and
-- the switch over all commands, pciedev_ioctl_exp (pciedev_ioctl_exp.c).
pub mod Mutex
pub mod Modinfo
pub mod Kept
use upciedev.Prelude.{
  ℕ, zero, suc, ◌+◌, ◌*◌, ◌/◌, ◌%◌, ◌^◌, Bool, true, false, not, List, [], ◌∷◌, ◌++◌, map,
  replicate, Option, none, some, ℤ, pos, negsuc, ◌==◌, if◌then◌else◌,
}
use upciedev.Kernel.{Kernel, efault}
use upciedev.Device.{PciedevDev}
use upciedev.DeviceFile.{FileRun, completed, blocked, out_of_array}
use upciedev.DeviceFile.Ioctl.{
  ioc_field, ioctl_set_bits, ioctl_swap_bits, ioctl_locked_read, ioctl_single_access,
}
use upciedev.DeviceFile.Vector.{ioctl_vector_rw}
use upciedev.DeviceFile.Settings.{
  DeviceIoctrlData, sizeof_device_ioctrl_data, ioctrl_data, answer, ioctl_scratch_reg,
  ioctl_set_swap, ioctl_get_swap, ioctl_get_status, ioctl_lock, ioctl_get_register_size,
  ioctl_set_register_size,
}
use upciedev.BoardInfo.{ShapiDeviceInfo, ShapiModuleInfo}
use upciedev.Boards.{Board}

-- The commands, whose numbers the kernel's macros make; `other` is any other number.
pub data Command : Type 0 where
  physical_slot driver_version udriver_version firmware_version get_status scratch_reg : Command
  set_swap get_swap lock_device unlock_device set_bits swap_bits locked_read vector_rw : Command
  get_register_size set_register_size single_ioc_access : Command
  get_shapi_devinfo get_shapi_modinfo : Command
  other : Command

-- The version numbers in `pciedev_cdev`.
pub record Versions : Type 0 where
  pub drv_ver_maj : ℕ
  pub drv_ver_min : ℕ
  pub upciedev_ver_maj : ℕ
  pub upciedev_ver_min : ℕ

abbrev pub enotty : ℤ
enotty = negsuc 24

-- Fields, each with its bits, in little-endian order.
unfoldable pub packed : List (ℕ × ℕ) → ℕ
packed [] = 0
packed ((bits, value) ∷ fields) = value % 2 ^ bits + 2 ^ bits * packed fields

abbrev pub words : List ℕ → List (ℕ × ℕ)
words = map (λ v. (32, v))

abbrev pub chars : List ℕ → List (ℕ × ℕ)
chars = map (λ c. (8, c))

-- `strncpy`: up to the first zero, and zeros behind it.
unfoldable pub strncpy : ℕ → List ℕ → List ℕ
strncpy zero src = []
strncpy (suc n) [] = replicate (suc n) 0
strncpy (suc n) (c ∷ cs) =
    let rest = strncpy n cs in if c == 0 then replicate (suc n) 0 else c ∷ rest

-- `picmg_shapi_device_info`, of 84 bytes; `pad` stands between the name and the count. The hardware
-- ids that are reported are those of the firmware.
abbrev pub sizeof_shapi_device_info : ℕ
sizeof_shapi_device_info = 84

unfoldable pub shapi_device_bytes : ShapiDeviceInfo → ℕ → ℕ → ℕ
unfolding packed strncpy
shapi_device_bytes d modules pad = packed (
    words (
      d.shapi_version ∷ d.first_module_address ∷ d.fw_ids ∷ d.fw_ids ∷ d.fw_version ∷ d.fw_timestamp
      ∷ [])
    ++ words d.name_words
    ++ words (
        d.device_cap ∷ d.device_status ∷ d.device_control ∷ d.irq_mask ∷ d.irq_flag ∷ d.irq_active
        ∷ d.scratch_register ∷ [])
    ++ chars (strncpy 13 d.fw_name)
    ++ ((24, pad) ∷ (32, modules) ∷ []))

-- `picmg_shapi_module_info`, of 72 bytes, with the number of the module at the byte 68.
abbrev pub sizeof_shapi_module_info : ℕ
sizeof_shapi_module_info = 72

unfoldable pub asked_module : ℕ → ℕ
asked_module reading = ioc_field 544 32 reading

unfoldable pub shapi_module_bytes : ShapiModuleInfo → ℕ → ℕ
unfolding packed strncpy asked_module
shapi_module_bytes s reading = packed (
    words (s.shapi_version ∷ s.next_module_address ∷ s.module_fw_ids ∷ s.module_version ∷ [])
    ++ words s.name_words
    ++ words (
        s.module_cap ∷ s.module_status ∷ s.module_control ∷ s.irq_id ∷ s.irq_flag_clear ∷ s.irq_mask
        ∷ s.irq_flag ∷ s.irq_active ∷ [])
    ++ chars (strncpy 9 s.module_name)
    ++ ((24, ioc_field 520 24 reading) ∷ (32, asked_module reading) ∷ []))

-- The loop over the modules: each one with the number that was asked for overwrites the answer.
unfoldable pub module_answer : List ShapiModuleInfo → ℕ → ℕ → ℕ
unfolding shapi_module_bytes asked_module
module_answer [] reading found = found
module_answer (s ∷ ms) reading found =
    module_answer ms reading
      (if s.module_num == asked_module reading then shapi_module_bytes s reading else found)

module _ (k : Kernel) (b : Board) where
  open k use {World, copy_to_user, copy_from_user}

  -- A report of a size that is copied to the user.
  unfoldable pub report : ℕ → ℕ → ℕ → World → FileRun World
  report arg size bytes w =
      let (failed, w') = copy_to_user arg size bytes w in
      completed (if failed then efault else pos 0) false w'

  -- `number` is that of the command PCIEDEV_PHYSICAL_SLOT.
  unfoldable pub ioctl_physical_slot : ℕ → Bool → ℕ → World → FileRun World
  unfolding ioctrl_data answer
  ioctl_physical_slot number held arg w =
      if held then blocked else elim (copy_from_user arg sizeof_device_ioctrl_data w) [
        | none ↦ completed efault false w
        | some reading ↦
            answer k b.dev arg
              (record (ioctrl_data reading) { data_word = b.slot_num; cmd = number }) w
      ]

  -- The reports of two version numbers, and of the version of the firmware.
  unfoldable pub ioctl_version : ℕ → ℕ → DeviceIoctrlData → Bool → ℕ → World → FileRun World
  unfolding answer
  ioctl_version major minor junk held arg w =
      if held
      then blocked
      else answer k b.dev arg (record junk { data_word = major; offset = minor }) w

  unfoldable pub ioctl_firmware_version : DeviceIoctrlData → Bool → ℕ → World → FileRun World
  unfolding answer
  ioctl_firmware_version junk held arg w =
      if held
      then blocked
      else answer k b.dev arg (record junk { data_word = b.info.brd_info.board_version }) w

  unfoldable pub ioctl_shapi_devinfo : ℕ → Bool → ℕ → World → FileRun World
  unfolding shapi_device_bytes report
  ioctl_shapi_devinfo pad held arg w =
      if held
      then blocked
      else report arg sizeof_shapi_device_info
          (shapi_device_bytes b.info.device_info b.info.shapi_module_num pad) w

  unfoldable pub ioctl_shapi_modinfo : Bool → ℕ → World → FileRun World
  unfolding module_answer report
  ioctl_shapi_modinfo held arg w =
      if held then blocked else elim (copy_from_user arg sizeof_shapi_module_info w) [
        | none ↦ completed efault false w
        | some reading ↦
            report arg sizeof_shapi_module_info (module_answer b.info.module_list reading reading) w
      ]

-- What uninitialised variables hold.
pub record Junk : Type 0 where
  pub reads : ℕ → ℕ
  pub writes : ℕ
  pub answers : DeviceIoctrlData
  pub pad : ℕ

module _ (k : Kernel) (b : Board) (versions : Versions) (junk : Junk) (slot_command : ℕ) where
  open k use {World}

  -- A command that leaves the device as it is.
  abbrev unchanged : FileRun World → FileRun World × PciedevDev
  unchanged run = (run, b.dev)

  -- The cases of the switch, with the settings of the device that they leave.
  unfoldable pub perform : Command → Bool → ℕ → World → FileRun World × PciedevDev
  unfolding ioctl_physical_slot ioctl_version ioctl_firmware_version ioctl_shapi_devinfo
      ioctl_shapi_modinfo
  perform physical_slot held arg w = unchanged (ioctl_physical_slot k b slot_command held arg w)
  perform driver_version held arg w =
      unchanged
        (ioctl_version k b versions.drv_ver_maj versions.drv_ver_min junk.answers held arg w)
  perform udriver_version held arg w = unchanged (
      ioctl_version k b versions.upciedev_ver_maj versions.upciedev_ver_min junk.answers held arg w)
  perform firmware_version held arg w =
      unchanged (ioctl_firmware_version k b junk.answers held arg w)
  perform get_status held arg w = unchanged (ioctl_get_status k b.dev junk.answers held arg w)
  perform scratch_reg held arg w = ioctl_scratch_reg k b.dev held arg w
  perform set_swap held arg w = ioctl_set_swap k b.dev held arg w
  perform get_swap held arg w = unchanged (ioctl_get_swap k b.dev held w)
  perform lock_device held arg w = unchanged (ioctl_lock k b.dev held w)
  perform unlock_device held arg w = unchanged (ioctl_lock k b.dev held w)
  perform set_bits held arg w = unchanged (ioctl_set_bits k b.dev junk.writes held arg w)
  perform swap_bits held arg w = unchanged (ioctl_swap_bits k b.dev junk.writes held arg w)
  perform locked_read held arg w = unchanged (ioctl_locked_read k b.dev junk.reads held arg w)
  perform vector_rw held arg w =
      unchanged (ioctl_vector_rw k b.dev junk.reads junk.writes held arg w)
  perform get_register_size held arg w = unchanged (ioctl_get_register_size k b.dev held w)
  perform set_register_size held arg w = ioctl_set_register_size k b.dev held arg w
  perform single_ioc_access held arg w =
      unchanged (ioctl_single_access k b.dev junk.reads junk.writes held arg w)
  perform get_shapi_devinfo held arg w = unchanged (ioctl_shapi_devinfo k b junk.pad held arg w)
  perform get_shapi_modinfo held arg w = unchanged (ioctl_shapi_modinfo k b held arg w)
  perform other held arg w = unchanged (completed enotty held w)

  -- `accessible` is whether the kernel grants the memory that the command names.
  unfoldable pub pciedev_ioctl_exp : Bool → Command → ℕ → World → FileRun World × PciedevDev
  unfolding perform
  pciedev_ioctl_exp accessible command arg w =
      if not b.dev.dev_sts
      then (completed efault b.dev_mut w, b.dev)
      else if not accessible
      then (completed efault b.dev_mut w, b.dev)
      else perform command b.dev_mut arg w
