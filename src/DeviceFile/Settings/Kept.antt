-- ===== src/DeviceFile/Settings/Kept.antt =====
-- What the settings commands keep, and what they let in.
use upciedev.Prelude.{
  ℕ, ◌%◌, ◌^◌, ◌≤◌, ◌<◌, Bool, true, false, some, ◌==◌, ◌≡◌, refl, arith, length, Bool-cases,
  Option-cases, inl, inr, get_elem?-out_of_range,
}
use upciedev.Registers.{rw_d32}
use upciedev.Kernel.{Kernel}
use upciedev.Device.{PciedevDev, IsDevice, number_of_bars}
use upciedev.DeviceFile.{FileRun, out_of_array}
use upciedev.DeviceFile.Lock.{correct_register_size-known}
use upciedev.DeviceFile.Settings.{
  ioctrl_data, sizeof_device_ioctrl_data, sizeof_int, read_scratch, ioctl_scratch_reg,
  ioctl_set_swap, ioctl_set_register_size,
}

-- The arrays are still in order, and what is there and mapped is the same.
pub record SettingsKept (dev dev' : PciedevDev) : Type 0 where
  pub device : IsDevice dev'
  pub there : dev'.dev_sts ≡ dev.dev_sts
  pub mapped : dev'.memmory_base ≡ dev.memmory_base

scratch-outside :
    (k : Kernel) (dev : PciedevDev) (arg reading : ℕ) (w : k.World)
    → ¬ (dev.scratch_bar < length dev.memmory_base)
    → k.copy_from_user arg sizeof_device_ioctrl_data w ≡ some reading
    → (ioctrl_data reading).cmd ≡ 2
    → (ioctl_scratch_reg k dev false arg w).0 ≡ out_of_array
unfolding ioctl_scratch_reg
scratch-outside k dev arg reading w outside e read =
    rw (e, ioctl_scratch_reg)
      (rw read
        (rw (get_elem?-out_of_range dev.memmory_base dev.scratch_bar outside, read_scratch) refl))

module _ (k : Kernel) (dev : PciedevDev) (device : IsDevice dev) where
  open k use {World}

  abbrev IsKept : FileRun World × PciedevDev → Type 0
  IsKept t = SettingsKept dev t.1

  unchanged : SettingsKept dev dev
  unchanged = record { device = device; there = refl; mapped = refl }

  placed :
      (bar offset : ℕ)
      → SettingsKept dev (record dev { scratch_bar = bar; scratch_offset = offset })
  placed bar offset = record {
    device = record {
      starts = device.starts;
      ends = device.ends;
      mapped = device.mapped;
      known_size = device.known_size;
    };
    there = refl;
    mapped = refl;
  }

  scratch-kept :
      (held : Bool) (arg : ℕ) (w : World) → SettingsKept dev (ioctl_scratch_reg k dev held arg w).1
  unfolding ioctl_scratch_reg
  scratch-kept true arg w = unchanged
  scratch-kept false arg w =
      elim (Option-cases (k.copy_from_user arg sizeof_device_ioctrl_data w)) [
        | inl e ↦ rw (e, ioctl_scratch_reg) unchanged
        | inr (reading, e) ↦
            rw (e, ioctl_scratch_reg)
              (elim (Bool-cases ((ioctrl_data reading).cmd == 1)) [
                | inl get ↦ rw get unchanged
                | inr other ↦ elim (Bool-cases ((ioctrl_data reading).cmd == 0)) [
                  | inl set ↦ rw (other, set) (placed _ _)
                  | inr neither ↦ elim (Bool-cases ((ioctrl_data reading).cmd == 2)) [
                    | inl read ↦ rw (other, neither, read) unchanged
                    | inr none_of_them ↦ rw (other, neither, none_of_them) unchanged
                  ]
                ]
              ])
      ]

  swap-kept :
      (held : Bool) (arg : ℕ) (w : World) → SettingsKept dev (ioctl_set_swap k dev held arg w).1
  unfolding ioctl_set_swap
  swap-kept true arg w = unchanged
  swap-kept false arg w = elim (Option-cases (k.copy_from_user arg sizeof_int w)) [
    | inl e ↦ rw (e, ioctl_set_swap) unchanged
    | inr (reading, e) ↦
        rw (e, ioctl_set_swap)
          (record {
            device = record {
              starts = device.starts;
              ends = device.ends;
              mapped = device.mapped;
              known_size = device.known_size;
            };
            there = refl;
            mapped = refl;
          })
  ]

  size-kept :
      (held : Bool) (arg : ℕ) (w : World)
      → SettingsKept dev (ioctl_set_register_size k dev held arg w).1
  unfolding ioctl_set_register_size
  size-kept held arg w = elim (Option-cases (k.copy_from_user arg sizeof_int w)) [
    | inl e ↦ rw (e, ioctl_set_register_size) unchanged
    | inr (reading, e) ↦
        rw (e, ioctl_set_register_size)
          (record {
            device = record {
              starts = device.starts;
              ends = device.ends;
              mapped = device.mapped;
              known_size = correct_register_size-known (reading % 2 ^ 32) rw_d32 (omega arith);
            };
            there = refl;
            mapped = refl;
          })
  ]

  -- Whatever the user sends, the three commands that change settings leave a device in order, with a
  -- known default register size, and neither map nor remove anything.
  pub settings-kept :
      (held : Bool) (arg : ℕ) (w : World)
      → SettingsKept dev (ioctl_scratch_reg k dev held arg w).1
        × SettingsKept dev (ioctl_set_swap k dev held arg w).1
        × SettingsKept dev (ioctl_set_register_size k dev held arg w).1
  settings-kept held arg w = (scratch-kept held arg w, swap-kept held arg w, size-kept held arg w)

  scratch-set :
      (arg reading : ℕ) (w : World)
      → k.copy_from_user arg sizeof_device_ioctrl_data w ≡ some reading
      → (ioctrl_data reading).cmd ≡ 0
      → (ioctl_scratch_reg k dev false arg w).1 ≡ record dev {
        scratch_bar = (ioctrl_data reading).data_word;
        scratch_offset = (ioctrl_data reading).offset;
      }
  unfolding ioctl_scratch_reg
  scratch-set arg reading w e set = rw (e, ioctl_scratch_reg) (rw set refl)

  -- A scratch BAR from 6 on that a user has set, with the mutex free, is not refused: reading the scratch
  -- register afterwards leaves the array of BARs.
  scratch_bar_unchecked :
      (arg arg' reading reading' : ℕ) (w w' : World)
      → k.copy_from_user arg sizeof_device_ioctrl_data w ≡ some reading
      → (ioctrl_data reading).cmd ≡ 0
      → number_of_bars ≤ (ioctrl_data reading).data_word
      → k.copy_from_user arg' sizeof_device_ioctrl_data w' ≡ some reading'
      → (ioctrl_data reading').cmd ≡ 2
      → (ioctl_scratch_reg k (ioctl_scratch_reg k dev false arg w).1 false arg' w').0 ≡ out_of_array
  scratch_bar_unchecked arg arg' reading reading' w w' e set outside e' read =
      rw (scratch-set arg reading w e set) (
        scratch-outside k
          (record dev {
            scratch_bar = (ioctrl_data reading).data_word;
            scratch_offset = (ioctrl_data reading).offset;
          })
          arg' reading' w' (λ h. omega (arith, device.mapped)) e' read)
