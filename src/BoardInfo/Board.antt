-- ===== src/BoardInfo/Board.antt =====
-- The kind of a board: pciedev_get_brdinfo (pciedev_ufn.c), and what the probe does with it.
use upciedev.BoardInfo.Prj.{pciedev_get_prjinfo}
use upciedev.BoardInfo.Modules.{pciedev_get_shapi_module_info}
use upciedev.Prelude.{
  ℕ, ◌+◌, ◌/◌, ◌%◌, ◌^◌, true, false, ◌||◌, [], ◌∷◌, Option, some, ◌==◌, if◌then◌else◌,
}
use upciedev.Kernel.{Kernel}
use upciedev.Device.{PciedevDev}
use upciedev.BoardInfo.{
  Info, ascii_board_magic_num, ascii_board_magic_num_l, shapi_magic_device_num, put_chars, Reads,
  ◌>>=◌, return, first_base, word_scratch_register, with_device, ioread32,
}

module _ (k : Kernel) where
  open k use {World}

  -- The two kinds of board.
  unfoldable pub read_brd_info : ℕ → Info → Reads World Info
  read_brd_info base info = do
    id ← ioread32 k (base + 0x04)
    version ← ioread32 k (base + 0x08)
    date ← ioread32 k (base + 0x0C)
    hw_version ← ioread32 k (base + 0x10)
    next ← ioread32 k (base + 0x18)
    return (record info {
      startup_brd = true;
      brd_info = record {
        board_id = id;
        board_version = version;
        board_date = date;
        hw_version = hw_version;
        proj_next = next;
      };
    })

  unfoldable pub read_device_info : ℕ → Info → Reads World Info
  unfolding put_chars
  read_device_info base info = do
    version ← ioread32 k (base + 0x00)
    first ← ioread32 k (base + 0x04)
    hw_ids ← ioread32 k (base + 0x08)
    fw_ids ← ioread32 k (base + 0x0C)
    fw_version ← ioread32 k (base + 0x10)
    fw_timestamp ← ioread32 k (base + 0x14)
    device_cap ← ioread32 k (base + 0x24)
    status ← ioread32 k (base + 0x28)
    control ← ioread32 k (base + 0x2C)
    irq_mask ← ioread32 k (base + 0x30)
    irq_flag ← ioread32 k (base + 0x34)
    irq_active ← ioread32 k (base + 0x38)
    scratch ← ioread32 k (base + word_scratch_register)
    name0 ← ioread32 k (base + 0x18)
    name1 ← ioread32 k (base + 0x1C)
    name2 ← ioread32 k (base + 0x20)
    return (record info {
      startup_brd = false;
      shapi_brd = true;
      shapi_module_num = if first == 0 then info.shapi_module_num else 1;
      device_info = record {
        shapi_version = version % 2 ^ 16;
        first_module_address = first;
        hw_ids = hw_ids;
        fw_ids = fw_ids;
        fw_version = fw_version;
        fw_timestamp = fw_timestamp;
        name_words = name0 ∷ name1 ∷ name2 ∷ [];
        device_cap = device_cap;
        device_status = status;
        device_control = control;
        irq_mask = irq_mask;
        irq_flag = irq_flag;
        irq_active = irq_active;
        scratch_register = scratch;
        fw_name =
            put_chars 4 0 8 name2
              (put_chars 4 0 4 name1 (put_chars 4 0 0 name0 info.device_info.fw_name));
      };
    })

  -- The result is 1 for a board of DESY, 2 for a SHAPI board and 0 for another one.
  unfoldable pub pciedev_get_brdinfo : PciedevDev → Info → World → ℕ × PciedevDev × Info × World
  unfolding read_brd_info read_device_info
  pciedev_get_brdinfo dev info w =
      let base = first_base dev.memmory_base in
      let info0 = record info { startup_brd = false; shapi_brd = false; shapi_module_num = 0 } in
      let (magic, w1) = ioread32 k base w in
      let (desy, w2) = read_brd_info base info0 w1 in
      let (shapi, w3) = read_device_info base info0 w1 in
      if base == 0
      then (0, dev, info0, w)
      else if magic == ascii_board_magic_num || magic == ascii_board_magic_num_l
      then (1, dev, desy, w2)
      else if magic / 2 ^ 16 == shapi_magic_device_num
      then (2, record dev { scratch_bar = 0; scratch_offset = word_scratch_register }, shapi, w3)
      else (0, dev, info0, w1)

  -- What the probe does with these: all that a board says of itself.
  unfoldable pub board_info : ℕ → PciedevDev → Info → World → Option (PciedevDev × Info × World)
  unfolding pciedev_get_brdinfo pciedev_get_prjinfo pciedev_get_shapi_module_info
  board_info fuel dev info w =
      let (kind, dev', info', w') = pciedev_get_brdinfo dev info w in
      if kind == 1
      then with_device dev' (pciedev_get_prjinfo k fuel dev' info' w')
      else if kind == 2
      then with_device dev' (pciedev_get_shapi_module_info k fuel dev' info' w')
      else some (dev', info', w')
