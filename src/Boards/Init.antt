-- ===== src/Boards/Init.antt =====
-- The start of the driver: upciedev_init_module_exp (pciedev_ufn.c), and of the base driver:
-- pciedev_init_module (upciedev_drv.c), which clears the table of physical addresses.
use upciedev.Prelude.{
  ℕ, zero, suc, ◌+◌, Bool, false, List, [], ◌∷◌, ◌++◌, none, ℤ, pos, ◌==◌, replicate, if◌then◌else◌,
}
use upciedev.Device.{PciedevDev, number_of_bars}
use upciedev.BoardInfo.{Info}
use upciedev.Boards.{pciedev_nr_devs, number_of_slots, Board, PhysAddress, Driver, is_zero}

-- Memory from `kzalloc` is zero.
abbrev pub no_info : Info
no_info = record {
  startup_brd = false;
  startup_prj_num = 0;
  brd_info = record {
    board_id = 0;
    board_version = 0;
    board_date = 0;
    hw_version = 0;
    proj_next = 0;
  };
  prj_list = [];
  shapi_brd = false;
  shapi_module_num = 0;
  device_info = record {
    shapi_version = 0;
    first_module_address = 0;
    hw_ids = 0;
    fw_ids = 0;
    fw_version = 0;
    fw_timestamp = 0;
    name_words = replicate 3 0;
    device_cap = 0;
    device_status = 0;
    device_control = 0;
    irq_mask = 0;
    irq_flag = 0;
    irq_active = 0;
    scratch_register = 0;
    fw_name = replicate 13 0;
  };
  module_list = [];
  device_irq_num = 0;
}

abbrev pub no_device : PciedevDev
no_device = record {
  mem_base = replicate number_of_bars 0;
  mem_base_end = replicate number_of_bars 0;
  memmory_base = replicate number_of_bars 0;
  dev_sts = false;
  register_size = 0;
  swap = false;
  scratch_bar = 0;
  scratch_offset = 0;
}

-- Board `i`; the last one is the null device, which is always bound.
unfoldable pub init_board : ℕ → Board
init_board i = record {
  dev = no_device;
  info = no_info;
  dev_mut = false;
  binded = i == pciedev_nr_devs;
  null_dev = i == pciedev_nr_devs;
  brd_num = i;
  dev_minor = i;
  dev_file_ref = pos 0;
  files = [];
  pci_dev = 0;
  slot_num = 0;
  bus_func = 0;
  identity = record {
    vendor_id = 0;
    device_id = 0;
    subvendor_id = 0;
    subdevice_id = 0;
    class_code = 0;
    revision = 0;
    irq_line = 0;
    irq_pin = 0;
  };
  mem_base_flag = replicate number_of_bars 0;
  rw_off = replicate number_of_bars 0;
  pciedev_all_mems = 0;
  dev_dma_64mask = false;
  msi = false;
  msi_num = pos 0;
  irq_mode = 0;
  enbl_irq_num = 0;
  pci_dev_irq = 0;
  dev_str = 0;
}

abbrev pub empty_slot : PhysAddress
empty_slot = record {
  slot_num = 0;
  dev_stst = false;
  bars = replicate number_of_bars (record { res_start = 0; res_end = 0; res_flag = 0 });
  slot_bus = 0;
  slot_device = 0;
}

-- The start ends with the table, with -ENOMEM and all boards freed, or with 1 and the boards that
-- were ready before the kernel refused one.
pub data Started : Type 0 where
  ready : Driver → Started
  no_memory : Started
  refused : List Board → Started

abbrev pub driver_with : List Board → Driver
driver_with bs = record {
  boards = bs;
  dev_phys_addresses = replicate number_of_slots empty_slot;
  module_num = pos 0;
  drvdata = λ p. none;
  open_files = λ f. none;
}

-- `kzalloc i` is whether board `i` gets memory, `cdev_add i` what the kernel says of its device
-- file; `n` boards are to be made, from board `i` on, and `made` are ready.
module _ (kzalloc : ℕ → Bool) (cdev_add : ℕ → ℤ) where
  unfoldable pub init_boards : ℕ → ℕ → List Board → Started
  unfolding init_board
  init_boards zero i made = ready (driver_with made)
  init_boards (suc n) i made =
      let rest = init_boards n (suc i) (made ++ (init_board i ∷ [])) in
      if kzalloc i then (if is_zero (cdev_add i) then rest else refused made) else no_memory

  unfoldable pub upciedev_init_module_exp : Started
  unfolding init_boards
  upciedev_init_module_exp = init_boards (pciedev_nr_devs + 1) 0 []
