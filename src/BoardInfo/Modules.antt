-- ===== src/BoardInfo/Modules.antt =====
-- The modules of a SHAPI board: pciedev_fill_shapi_module__info and
-- pciedev_get_shapi_module_info (pciedev_ufn.c).
pub mod Chain
use upciedev.Prelude.{
  ℕ, ◌+◌, ◌/◌, ◌%◌, ◌^◌, bit_or, [], ◌∷◌, Option, ◌==◌, if◌then◌else◌, replicate,
}
use upciedev.Kernel.{Kernel}
use upciedev.Device.{PciedevDev}
use upciedev.BoardInfo.{
  Info, shapi_magic_module_num, collect, put_chars, Reads, ◌>>=◌, return, ioread32,
}

module _ (k : Kernel) where
  open k use {World}

  unfoldable pub pciedev_fill_shapi_module_info : ℕ → Info → Reads World (ℕ × Info)
  unfolding put_chars
  pciedev_fill_shapi_module_info address info = do
    magic ← ioread32 k address
    if magic / 2 ^ 16 == shapi_magic_module_num
        then (do
          version ← ioread32 k (address + 0x00)
          ids ← ioread32 k (address + 0x08)
          module_version ← ioread32 k (address + 0x0C)
          module_cap ← ioread32 k (address + 0x18)
          status ← ioread32 k (address + 0x1C)
          control ← ioread32 k (address + 0x20)
          irq_id ← ioread32 k (address + 0x24)
          irq_clear ← ioread32 k (address + 0x28)
          irq_mask ← ioread32 k (address + 0x2C)
          irq_flag ← ioread32 k (address + 0x30)
          irq_active ← ioread32 k (address + 0x34)
          name0 ← ioread32 k (address + 0x10)
          name1 ← ioread32 k (address + 0x14)
          next ← ioread32 k (address + 0x04)
          return (
            next,
            record info {
              shapi_module_num = info.shapi_module_num + 1;
              device_irq_num = bit_or info.device_irq_num irq_id;
              module_list =
                  record {
                    module_num = info.shapi_module_num + 1;
                    shapi_version = version % 2 ^ 16;
                    next_module_address = next;
                    module_fw_ids = ids;
                    module_version = module_version;
                    name_words = name0 ∷ name1 ∷ [];
                    module_cap = module_cap;
                    module_status = status;
                    module_control = control;
                    irq_id = irq_id;
                    irq_flag_clear = irq_clear;
                    irq_mask = irq_mask;
                    irq_flag = irq_flag;
                    irq_active = irq_active;
                    module_name = put_chars 4 0 4 name1 (put_chars 4 0 0 name0 (replicate 9 0));
                  }
                  ∷ info.module_list;
            },
          ))
        else return (0, info)

  unfoldable pub pciedev_get_shapi_module_info :
      ℕ → PciedevDev → Info → World → Option (Info × World)
  unfolding collect pciedev_fill_shapi_module_info
  pciedev_get_shapi_module_info fuel dev info w =
      collect pciedev_fill_shapi_module_info fuel info.device_info.first_module_address dev
        (record info { shapi_module_num = 0 }) w
