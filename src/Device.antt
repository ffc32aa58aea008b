-- ===== src/Device.antt =====
-- A device (`struct pciedev_dev` of pciedev_ufn.h): the fields that register access uses.
use upciedev.Prelude.{ℕ, ◌<◌, ◌≡◌, List, length, Bool}

abbrev pub number_of_bars : ℕ
number_of_bars = 6

-- Arrays are lists; an address of 0 in `memmory_base` is the null pointer, and `dev_sts`
-- is whether the device is there.
pub record PciedevDev : Type 0 where
  pub mem_base : List ℕ
  pub mem_base_end : List ℕ
  pub memmory_base : List ℕ
  pub dev_sts : Bool
  pub register_size : ℕ
  pub swap : Bool
  pub scratch_bar : ℕ
  pub scratch_offset : ℕ

-- The arrays have an entry for each BAR, and the default register size is a known one.
pub record IsDevice (dev : PciedevDev) : Type 0 where
  pub starts : length dev.mem_base ≡ number_of_bars
  pub ends : length dev.mem_base_end ≡ number_of_bars
  pub mapped : length dev.memmory_base ≡ number_of_bars
  pub known_size : dev.register_size < 3
