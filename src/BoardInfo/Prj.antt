-- ===== src/BoardInfo/Prj.antt =====
-- The projects of a board: pciedev_fill_prj_info and pciedev_get_prjinfo (pciedev_ufn.c).
pub mod Chain
use upciedev.Prelude.{
  ℕ, zero, suc, ◌+◌, ◌-◌, ◌*◌, ◌/◌, ◌%◌, ◌^◌, bit_or, Bool, true, false, ◌||◌, List, [], ◌∷◌,
  Option, none, some, ltb, ◌==◌, if◌then◌else◌, drop, replicate, set,
}
use upciedev.Kernel.{Kernel}
use upciedev.Device.{PciedevDev}
use upciedev.BoardInfo.{
  BrdInfo, PrjInfo, ShapiDeviceInfo, ShapiModuleInfo, Info, ascii_board_magic_num,
  ascii_board_magic_num_l, ascii_proj_magic_num, shapi_magic_device_num, shapi_magic_module_num,
  collect, put_chars, Reads, ◌>>=◌, return, first_base, word_scratch_register, with_device,
  ioread32,
}

module _ (k : Kernel) where
  open k use {World}

  -- The result is the link to the next project, 0 if there is no project here.
  unfoldable pub pciedev_fill_prj_info : ℕ → Info → Reads World (ℕ × Info)
  pciedev_fill_prj_info address info = do
    magic ← ioread32 k address
    if magic == ascii_proj_magic_num
        then (do
          id ← ioread32 k (address + 0x04)
          version ← ioread32 k (address + 0x08)
          date ← ioread32 k (address + 0x0C)
          reserved ← ioread32 k (address + 0x10)
          next ← ioread32 k (address + 0x18)
          return (
            next,
            record info {
              startup_prj_num = info.startup_prj_num + 1;
              brd_info = record info.brd_info { proj_next = 0 };
              prj_list =
                  record {
                    proj_id = id;
                    proj_version = version;
                    proj_date = date;
                    proj_reserved = reserved;
                    proj_next = next;
                  }
                  ∷ info.prj_list;
            },
          ))
        else return (0, info)

  unfoldable pub pciedev_get_prjinfo : ℕ → PciedevDev → Info → World → Option (Info × World)
  unfolding collect pciedev_fill_prj_info
  pciedev_get_prjinfo fuel dev info w =
      collect (pciedev_fill_prj_info) fuel info.brd_info.proj_next dev
        (record info { startup_prj_num = 0 }) w
