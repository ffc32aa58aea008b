-- ===== src/Boards/Queries.antt =====
-- What other drivers ask of a board and of the table of physical addresses: the access functions of
-- pciedev_ufn.c.
pub mod Probed
use upciedev.Prelude.{
  ℕ, ◌-◌, ◌^◌, Bool, true, false, Option, none, some, ℤ, pos, negsuc, ◌==◌, get_elem?,
  if◌then◌else◌,
}
use upciedev.Device.{PciedevDev}
use upciedev.Boards.{
  Board, BarAddress, PhysAddress, Driver, Run, returned, undefined, with_board, put_board,
}

-- `struct device_phys_address`, of unsigned ints.
pub record DevicePhysAddress : Type 0 where
  pub slot : ℕ
  pub bar : ℕ
  pub offset : ℕ
  pub phs_address : ℕ
  pub phs_end : ℕ
  pub phs_flag : ℕ
  pub reserved : ℕ
  pub sts : ℕ

-- A pointer to a board is its index.
unfoldable pub pciedev_get_pciedata : ℕ → Driver → Option ℕ
pciedev_get_pciedata p d = d.drvdata p

-- A null pointer to a board is `none`, and a null pointer to data is 0.
unfoldable pub pciedev_set_drvdata : Option ℕ → ℕ → Driver → Run Driver
pciedev_set_drvdata none data_address d = returned (pos 1) d
pciedev_set_drvdata (some i) data_address d =
    with_board d i λ b. returned (pos 0) (put_board i (record b { dev_str = data_address }) d)

unfoldable pub pciedev_get_drvdata : Option ℕ → Driver → Run ℕ
pciedev_get_drvdata none d = returned (pos 0) 0
pciedev_get_drvdata (some i) d = with_board d i λ b. returned (pos 0) b.dev_str

unfoldable pub pciedev_get_brdnum : ℕ → Driver → Run ℕ
pciedev_get_brdnum p d = elim (d.drvdata p) [
  | none ↦ undefined
  | some i ↦ with_board d i λ b. returned (pos 0) b.brd_num
]

unfoldable pub pciedev_get_baraddress : ℕ → PciedevDev → Run ℕ
pciedev_get_baraddress br_num dev = elim (get_elem? dev.memmory_base br_num) [
  | none ↦ undefined
  | some address ↦ returned (pos 0) address
]

-- The entry of the table for the slot and the BAR that are asked for.
unfoldable pub find_address : DevicePhysAddress → Driver → Option (PhysAddress × BarAddress)
find_address q d = elim (get_elem? d.dev_phys_addresses q.slot) [
  | none ↦ none
  | some phys ↦ elim (get_elem? phys.bars q.bar) [ none ↦ none | some bar ↦ some (phys, bar) ]
]

abbrev pub with_address : DevicePhysAddress → BarAddress → DevicePhysAddress
with_address q bar = record q {
  phs_address = bar.res_start;
  phs_end = bar.res_end;
  phs_flag = bar.res_flag;
}

-- The result is a u_int, so -1 is its largest value.
unfoldable pub pciedev_get_physical_address : DevicePhysAddress → Driver → Run DevicePhysAddress
unfolding find_address
pciedev_get_physical_address q d =
    if q.slot == 0 then returned (pos (2 ^ 32 - 1)) q else elim (find_address q d) [
      | none ↦ undefined
      | some (phys, bar) ↦ returned (pos bar.res_start) (with_address q bar)
    ]

abbrev pub as_int : Bool → ℕ
as_int true = 1
as_int false = 0

unfoldable pub pciedev_get_slot_pciedevp : DevicePhysAddress → Driver → Run DevicePhysAddress
unfolding find_address
pciedev_get_slot_pciedevp q d =
    if q.slot == 0 then returned (negsuc 0) q else elim (find_address q d) [
      | none ↦ undefined
      | some (phys, bar) ↦ returned (pos (as_int phys.dev_stst)) (record (with_address q bar) {
        offset = phys.slot_bus;
        reserved = phys.slot_device;
        sts = as_int phys.dev_stst;
      })
    ]
