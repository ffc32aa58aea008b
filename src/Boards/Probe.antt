-- ===== src/Boards/Probe.antt =====
-- A device is bound to a board: pciedev_probe_exp (pciedev_probe_exp.c).
use upciedev.Prelude.{
  ℕ, zero, suc, ◌+◌, ◌-◌, ◌*◌, ◌/◌, ◌%◌, ◌^◌, Bool, true, false, not, ◌&&◌, List, [], ◌∷◌, none,
  some, ℤ, pos, negsuc, ◌==◌, get_elem?, set, if◌then◌else◌,
}
use upciedev.Kernel.{Kernel}
use upciedev.Device.{PciedevDev, number_of_bars}
use upciedev.BoardInfo.{Info}
use upciedev.BoardInfo.Board.{board_info}
use upciedev.Boards.{
  pciedev_nr_devs, Identity, Board, BarAddress, PhysAddress, Driver, Run, returned, undefined,
  out_of_fuel, assign, increment, is_zero, with_board, put_board,
}

-- What the kernel says of a device, and how its functions end when they are called for it: the
-- results of `pci_enable_device` and `pci_request_regions`, the slot capabilities of the bridge above
-- it and the one above that, its resources, the addresses that `pci_iomap` maps them to, whether
-- `pci_set_dma_mask` and `pci_set_consistent_dma_mask` take a mask, and the result of
-- `pci_alloc_irq_vectors`.
pub record PciDevice : Type 0 where
  pub id : ℕ
  pub enabled : ℤ
  pub regions : ℤ
  pub devfn : ℕ
  pub bus_number : ℕ
  pub slot_cap : ℕ
  pub parent_slot_cap : ℕ
  pub resource_start : ℕ → ℕ
  pub resource_end : ℕ → ℕ
  pub resource_flags : ℕ → ℕ
  pub iomap : ℕ → ℕ → ℕ
  pub takes_dma_mask : ℕ → Bool
  pub takes_consistent_dma_mask : ℕ → Bool
  pub identity : Identity
  pub irq_vectors : ℤ
  pub irq : ℕ

-- The first board that is not bound, or their number.
unfoldable pub first_unbound : List Board → ℕ
first_unbound [] = 0
first_unbound (b ∷ bs) = let rest = first_unbound bs in if b.binded then suc rest else 0

-- `parent` is what `*brd_num` holds: 1 for a device behind a second bridge, 2 for an NTB device.
unfoldable pub slot_number : PciDevice → ℕ → ℕ
slot_number pci parent =
    if parent == 2
    then 13
    else if parent == 1
    then pci.parent_slot_cap % 2 ^ 32 / 2 ^ 19
    else pci.slot_cap % 2 ^ 32 / 2 ^ 19

-- `PCI_SLOT` is the upper five of the eight bits.
abbrev pub pci_slot : ℕ → ℕ
pci_slot devfn = devfn / 2 ^ 3 % 2 ^ 5

unfoldable pub dma_64mask : PciDevice → Bool → Bool
dma_64mask pci old =
    if pci.takes_dma_mask 64 && pci.takes_consistent_dma_mask 64
    then true
    else if not (pci.takes_dma_mask 32) && not (pci.takes_consistent_dma_mask 32)
    then old
    else false

-- One round of the loop over the BARs: the board, and the physical addresses of its slot.
unfoldable pub setup_bar : PciDevice → ℕ → ℕ → Board → List BarAddress → Board × List BarAddress
setup_bar pci i to_add b bars =
    let start = pci.resource_start i % 2 ^ 32 in
    let last = pci.resource_end i % 2 ^ 32 in
    let flags = pci.resource_flags i % 2 ^ 32 in
    let size = (last + 2 ^ 32 - start) % 2 ^ 32 in
    let dev = record b.dev {
      mem_base = set b.dev.mem_base i start;
      mem_base_end = set b.dev.mem_base_end i last;
      memmory_base = set b.dev.memmory_base i (if start == 0 then 0 else pci.iomap i size);
    } in
    (
      record b {
        dev = dev;
        mem_base_flag = set b.mem_base_flag i flags;
        rw_off = set b.rw_off i (if start == 0 then 0 else size);
        pciedev_all_mems = if start == 0 then b.pciedev_all_mems else b.pciedev_all_mems + to_add;
      },
      if start == 0
          then bars
          else set bars i (record { res_start = start; res_end = last; res_flag = flags }),
    )

unfoldable pub setup_bars :
    PciDevice → ℕ → ℕ → ℕ → Board → List BarAddress → Board × List BarAddress
unfolding setup_bar
setup_bars pci zero i to_add b bars = (b, bars)
setup_bars pci (suc n) i to_add b bars =
    let (b', bars') = setup_bar pci i to_add b bars in
    setup_bars pci n (suc i) (to_add * 2) b' bars'

-- The board before its BARs are set up, in the slot `slot`.
unfoldable pub claim : PciDevice → ℕ → Board → Board
unfolding dma_64mask
claim pci slot b = record b {
  dev = record b.dev { swap = false; scratch_bar = 0; scratch_offset = 0 };
  slot_num = slot;
  bus_func = pci.bus_number % 2 ^ 8 * 2 ^ 8 + pci_slot pci.devfn;
  pci_dev = pci.id;
  identity = pci.identity;
  dev_dma_64mask = dma_64mask pci b.dev_dma_64mask;
  pciedev_all_mems = 0;
}

-- What is left to do when the board has said what it is: `msi_num` below 0 is an error.
unfoldable pub present : PciDevice → PciedevDev → Info → Board → Board
present pci dev info b = record b {
  dev = record dev { dev_sts = true; register_size = 2 };
  info = info;
  enbl_irq_num = 0;
  msi = elim pci.irq_vectors [ pos n ↦ true | negsuc n ↦ false ];
  msi_num = pci.irq_vectors;
  pci_dev_irq = pci.irq;
  irq_mode = 0;
}

-- What is written when all has gone well: board `m` becomes `b`, in the slot `slot`.
abbrev pub attached : PciDevice → ℕ → ℕ → Board → PhysAddress → Driver → Driver
attached pci m slot b phys d = record d {
  boards = set d.boards m b;
  dev_phys_addresses = set d.dev_phys_addresses slot phys;
  drvdata = assign pci.id (some m) d.drvdata;
  module_num = increment d.module_num;
}

module _ (k : Kernel) (fuel : ℕ) (pci : PciDevice) where
  open k use {World}

  -- The regions are taken: board `m`, which is bound, is set up in the slot `slot`.
  unfoldable pub setup_board : ℕ → ℕ → Board → Driver → World → Run (Driver × ℕ × World)
  unfolding claim setup_bars board_info present
  setup_board m slot b d w = elim (get_elem? d.dev_phys_addresses slot) [
    | none ↦ undefined
    | some phys ↦
        let (mapped, bars) = setup_bars pci number_of_bars 0 1 (claim pci slot b) phys.bars in
        elim (board_info k fuel mapped.dev (record mapped.info { device_irq_num = 0 }) w) [
          | none ↦ out_of_fuel
          | some (dev, info, w') ↦ returned (pos 0) (
            attached pci m slot (present pci dev info mapped)
                (record phys {
                  dev_stst = true;
                  slot_num = slot;
                  slot_bus = pci.bus_number % 2 ^ 32;
                  slot_device = pci_slot pci.devfn;
                  bars = bars;
                })
                d,
            m,
            w',
          )
        ]
  ]

  -- The result comes with `*brd_num`. The search ends at the null device, which is bound, so a full
  -- table gives the index behind the array.
  unfoldable pub pciedev_probe_exp : ℕ → Driver → World → Run (Driver × ℕ × World)
  unfolding first_unbound slot_number setup_board
  pciedev_probe_exp parent d w =
      let m = first_unbound d.boards in
      if m == pciedev_nr_devs
      then returned (negsuc 0) (d, 0, w)
      else with_board d m λ b.
        if not (is_zero pci.enabled)
        then returned pci.enabled (put_board m (record b { binded = true }) d, m, w)
        else if not (is_zero pci.regions)
        then returned pci.regions (
          record d {
            boards = set d.boards m (record b { binded = false });
            drvdata = assign pci.id none d.drvdata;
          },
          m,
          w,
        )
        else setup_board m (slot_number pci parent) (record b { binded = true }) d w
