-- ===== src/DeviceFile/Settings.antt =====
-- The ioctl commands that read and change a device's settings: PCIEDEV_SCRATCH_REG, PCIEDEV_SET_SWAP,
-- PCIEDEV_GET_SWAP, PCIEDEV_GET_STATUS, PCIEDEV_SET_REGISTER_SIZE, PCIEDEV_GET_REGISTER_SIZE and the
-- two locks (pciedev_ioctl_exp.c).
pub mod Kept
use upciedev.Prelude.{
  ℕ, ◌+◌, ◌*◌, ◌/◌, ◌%◌, ◌^◌, ◌≤◌, ◌<◌, Bool, true, false, not, Option, none, some, ℤ, pos, negsuc,
  ◌==◌, if◌then◌else◌, ◌≡◌, refl, arith, ◌⊎◌, inl, inr, get_elem?, get_elem?-out_of_range, if-both,
}
use upciedev.Registers.{rw_d8, rw_d16, rw_d32, correct_register_size}
use upciedev.Kernel.{Kernel, efault}
use upciedev.CritRegion.{not_implemented}
use upciedev.Device.{PciedevDev, IsDevice, number_of_bars}
use upciedev.DeviceFile.{FileRun, completed, blocked, out_of_array}
use upciedev.DeviceFile.Ioctl.{ioc_field}
use upciedev.DeviceFile.Lock.{correct_register_size-known}

-- `device_ioctrl_data`: four fields of 32 bits.
pub record DeviceIoctrlData : Type 0 where
  pub offset : ℕ
  pub data_word : ℕ
  pub cmd : ℕ
  pub reserved : ℕ

abbrev pub sizeof_device_ioctrl_data : ℕ
sizeof_device_ioctrl_data = 16

unfoldable pub ioctrl_data : ℕ → DeviceIoctrlData
ioctrl_data reading = record {
  offset = ioc_field 0 32 reading;
  data_word = ioc_field 32 32 reading;
  cmd = ioc_field 64 32 reading;
  reserved = ioc_field 96 32 reading;
}

unfoldable pub ioctrl_bytes : DeviceIoctrlData → ℕ
ioctrl_bytes d = d.offset + d.data_word * 2 ^ 32 + d.cmd * 2 ^ 64 + d.reserved * 2 ^ 96

-- `sizeof(int)`.
abbrev pub sizeof_int : ℕ
sizeof_int = 4

module _ (k : Kernel) (dev : PciedevDev) where
  open k use {World, ioread, copy_to_user, copy_from_user}

  -- The answer is copied to the user and the mutex given back.
  unfoldable pub answer : ℕ → DeviceIoctrlData → World → FileRun World
  unfolding ioctrl_bytes
  answer arg d w =
      let (failed, w') = copy_to_user arg sizeof_device_ioctrl_data (ioctrl_bytes d) w in
      completed (if failed then efault else pos 0) false w'

  -- The three commands of PCIEDEV_SCRATCH_REG: 2 reads the scratch register, 1 and 0 read and set its
  -- place. The device is returned with its settings; another size of registers reads nothing.
  unfoldable pub read_scratch : ℕ → DeviceIoctrlData → World → FileRun World
  unfolding answer
  read_scratch arg d w = elim (get_elem? dev.memmory_base dev.scratch_bar) [
    | none ↦ out_of_array
    | some address ↦
        if address == 0
        then completed efault false w
        else let at = address + dev.scratch_offset in
          let (v8, w8) = ioread 8 at w in
          let (v16, w16) = ioread 16 at w in
          let (v32, w32) = ioread 32 at w in
          if dev.register_size == rw_d8
          then answer arg (record d { data_word = v8 }) w8
          else if dev.register_size == rw_d16
          then answer arg (record d { data_word = v16 }) w16
          else if dev.register_size == rw_d32
          then answer arg (record d { data_word = v32 }) w32
          else answer arg d w
  ]

  unfoldable pub ioctl_scratch_reg : Bool → ℕ → World → FileRun World × PciedevDev
  unfolding ioctrl_data read_scratch
  ioctl_scratch_reg held arg w =
      if held then (blocked, dev) else elim (copy_from_user arg sizeof_device_ioctrl_data w) [
        | none ↦ (completed efault false w, dev)
        | some reading ↦
            let d = ioctrl_data reading in
            if d.cmd == 1
            then (
              answer arg (record d { data_word = dev.scratch_bar; offset = dev.scratch_offset }) w,
              dev,
            )
            else if d.cmd == 0
            then (
              answer arg d w,
              record dev { scratch_bar = d.data_word; scratch_offset = d.offset },
            )
            else if d.cmd == 2
            then (read_scratch arg d w, dev)
            else (answer arg d w, dev)
      ]

  unfoldable pub ioctl_set_swap : Bool → ℕ → World → FileRun World × PciedevDev
  ioctl_set_swap held arg w =
      if held then (blocked, dev) else elim (copy_from_user arg sizeof_int w) [
        | none ↦ (completed efault false w, dev)
        | some reading ↦
            (completed (pos 0) false w, record dev { swap = not (reading % 2 ^ 32 == 0) })
      ]

  unfoldable pub ioctl_get_swap : Bool → World → FileRun World
  ioctl_get_swap held w = completed (pos (if dev.swap then 1 else 0)) held w

  -- The other fields of the answer are what `data` holds.
  unfoldable pub ioctl_get_status : DeviceIoctrlData → Bool → ℕ → World → FileRun World
  unfolding answer
  ioctl_get_status junk held arg w =
      if held
      then blocked
      else answer arg (record junk { data_word = if dev.dev_sts then 1 else 0 }) w

  unfoldable pub ioctl_lock : Bool → World → FileRun World
  ioctl_lock held w = completed not_implemented held w

  unfoldable pub ioctl_get_register_size : Bool → World → FileRun World
  ioctl_get_register_size held w = completed (pos dev.register_size) held w

  -- The size is set without the mutex.
  unfoldable pub ioctl_set_register_size : Bool → ℕ → World → FileRun World × PciedevDev
  unfolding correct_register_size
  ioctl_set_register_size held arg w = elim (copy_from_user arg sizeof_int w) [
    | none ↦ (completed efault held w, dev)
    | some reading ↦ (
      completed (pos 0) held w,
      record dev { register_size = correct_register_size (reading % 2 ^ 32) rw_d32 },
    )
  ]
