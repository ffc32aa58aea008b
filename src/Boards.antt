-- ===== src/Boards.antt =====
-- The table of boards: `struct pciedev_cdev`, the boards `struct pciedev_dev` in it and the table of
-- physical addresses (pciedev_ufn.h), with the files that are open on the boards.
pub mod Init
pub mod Cleanup
pub mod Files
pub mod Probe
pub mod Remove
pub mod Steps
pub mod Consistent
pub mod Loops
pub mod Lists
pub mod Information
pub mod Kept
pub mod Reached
pub mod Stuck
pub mod Removal
pub mod Binding
pub mod Closing
pub mod Ioctl
pub mod Mmap
pub mod Interrupts
pub mod Queries
use upciedev.Prelude.{
  ℕ, zero, suc, ◌+◌, Bool, true, false, List, [], ◌∷◌, Option, none, some, set, get_elem?, ℤ, pos,
  negsuc, ◌==◌, ◌||◌, if◌then◌else◌,
}
use upciedev.Device.{PciedevDev}
use upciedev.BoardInfo.{Info}

abbrev pub pciedev_nr_devs : ℕ
pciedev_nr_devs = 15

abbrev pub number_of_slots : ℕ
number_of_slots = 15

-- What the configuration space of a device says.
pub record Identity : Type 0 where
  pub vendor_id : ℕ
  pub device_id : ℕ
  pub subvendor_id : ℕ
  pub subdevice_id : ℕ
  pub class_code : ℕ
  pub revision : ℕ
  pub irq_line : ℕ
  pub irq_pin : ℕ

-- A file that a process has opened: the board that `private_data` points to, as its index.
pub record File : Type 0 where
  pub private_data : ℕ
  pub f_pos : ℕ

-- A board; the fields of register access are in `dev`, those of board information in `info`.
-- `dev_mut` is whether the mutex is held, `files` the list `dev_file_list`, newest first, and
-- `pci_dev` the device it is bound to, as a number; `dev_str` is a pointer of another driver.
pub record Board : Type 0 where
  pub dev : PciedevDev
  pub info : Info
  pub dev_mut : Bool
  pub binded : Bool
  pub null_dev : Bool
  pub brd_num : ℕ
  pub dev_minor : ℕ
  pub dev_file_ref : ℤ
  pub files : List ℕ
  pub pci_dev : ℕ
  pub slot_num : ℕ
  pub bus_func : ℕ
  pub identity : Identity
  pub mem_base_flag : List ℕ
  pub rw_off : List ℕ
  pub pciedev_all_mems : ℕ
  pub dev_dma_64mask : Bool
  pub msi : Bool
  pub msi_num : ℤ
  pub irq_mode : ℕ
  pub enbl_irq_num : ℕ
  pub pci_dev_irq : ℕ
  pub dev_str : ℕ

pub record BarAddress : Type 0 where
  pub res_start : ℕ
  pub res_end : ℕ
  pub res_flag : ℕ

pub record PhysAddress : Type 0 where
  pub slot_num : ℕ
  pub dev_stst : Bool
  pub bars : List BarAddress
  pub slot_bus : ℕ
  pub slot_device : ℕ

-- `drvdata` is what the kernel keeps for each device, as the index of a board; `open_files` are the
-- files that are open.
pub record Driver : Type 0 where
  pub boards : List Board
  pub dev_phys_addresses : List PhysAddress
  pub module_num : ℤ
  pub drvdata : ℕ → Option ℕ
  pub open_files : ℕ → Option File

-- The end of an operation: it returns, it waits for a mutex that is held, it leaves an array or
-- follows a null pointer, or its fuel has run out.
pub data Run {ℓ} (A : Type ℓ) : Type ℓ where
  returned : ℤ → A → Run A
  blocked : Run A
  undefined : Run A
  out_of_fuel : Run A

-- Writes to the two maps.
abbrev pub assign {ℓ} : {A : Type ℓ} → ℕ → Option A → (ℕ → Option A) → ℕ → Option A
assign key v m x = if x == key then v else m x

abbrev pub elem : ℕ → List ℕ → Bool
elem x [] = false
elem x (y ∷ ys) = x == y || elem x ys

abbrev pub increment : ℤ → ℤ
increment (pos n) = pos (suc n)
increment (negsuc zero) = pos zero
increment (negsuc (suc n)) = negsuc n

abbrev pub decrement : ℤ → ℤ
decrement (pos zero) = negsuc zero
decrement (pos (suc n)) = pos n
decrement (negsuc n) = negsuc (suc n)

abbrev pub is_zero : ℤ → Bool
is_zero (pos n) = n == 0
is_zero (negsuc n) = false

-- A pointer to a board is its index; one behind the array is not followed.
abbrev pub with_board {ℓ} : {A : Type ℓ} → Driver → ℕ → (Board → Run A) → Run A
with_board d i f = elim (get_elem? d.boards i) [ none ↦ undefined | some b ↦ f b ]

abbrev pub put_board : ℕ → Board → Driver → Driver
put_board i b d = record d { boards = set d.boards i b }
