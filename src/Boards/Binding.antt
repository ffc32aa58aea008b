-- ===== src/Boards/Binding.antt =====
-- Which board a device gets (pciedev_probe_exp.c), and that one that was removed can come back.
use upciedev.Prelude.{
  ℕ, suc, ◌+◌, ◌%◌, ◌^◌, ◌≤◌, ◌<◌, ◌≡◌, ◌≢◌, refl, ap, ◌∙◌, true, false, List, [], ◌∷◌, some, pos,
  ◌==◌, length, get_elem?, ltb, Bool-cases, arith, inl, inr, get_elem?-in_range,
  get_elem?-some_in_range, get_elem?-out_of_range, get_elem?-set_self, get_elem?-set_ne,
}
use upciedev.Kernel.{Kernel}
use upciedev.Device.{PciedevDev, IsDevice, number_of_bars}
use upciedev.BoardInfo.{Info}
use upciedev.BoardInfo.Board.{board_info}
use upciedev.Boards.{
  pciedev_nr_devs, number_of_slots, Board, BarAddress, PhysAddress, Driver, returned, undefined,
  is_zero, with_board,
}
use upciedev.Boards.Probe.{
  PciDevice, pci_slot, first_unbound, slot_number, claim, setup_bars, present, attached,
  setup_board, pciedev_probe_exp,
}
use upciedev.Boards.Remove.{pciedev_remove_exp}
use upciedev.Boards.Steps.{forget_device}
use upciedev.Boards.Consistent.{IsConsistent}
use upciedev.Boards.Loops.{setup_bars-KeepsBoard}
use upciedev.Boards.Lists.{first_unbound-free, first_unbound-least}
use upciedev.Boards.Kept.Unbound.{free-low}
use upciedev.Boards.Kept.OnRemove.{remove-IsConsistent}
use upciedev.Boards.Removal.{==-self, remove_hands_over}

first_unbound-none :
    (bs : List Board)
    → ((j : ℕ) (b : Board) → get_elem? bs j ≡ some b → b.binded ≡ true)
    → first_unbound bs ≡ length bs
unfolding first_unbound
first_unbound-none [] all = refl
first_unbound-none (b ∷ bs) all =
    rw (all 0 b refl) (ap suc (first_unbound-none bs (λ j c at. all (suc j) c at)))

first_unbound-le :
    (bs : List Board) (j : ℕ) (b : Board)
    → get_elem? bs j ≡ some b
    → b.binded ≡ false
    → first_unbound bs ≤ j
first_unbound-le bs j b at free = elim (Bool-cases (ltb j (first_unbound bs))) [
  | inl before ↦ let bound = first_unbound-least bs j b (ground arith) at in cc
  | inr behind ↦ ground arith
]

module _ (k : Kernel) (fuel : ℕ) (pci : PciDevice) where
  open k use {World}

  -- When all boards are bound, a probe leaves the array of boards, whatever the device is.
  pub probe_full :
      (d : Driver) (parent : ℕ) (w : World)
      → IsConsistent d
      → ((j : ℕ) (b : Board) → get_elem? d.boards j ≡ some b → b.binded ≡ true)
      → pciedev_probe_exp k fuel pci parent d w ≡ undefined
  unfolding pciedev_probe_exp
  probe_full d parent w v all =
      let behind : first_unbound d.boards ≡ pciedev_nr_devs + 1 =
        first_unbound-none d.boards all ∙ v.size in
      let outside = get_elem?-out_of_range d.boards 16 (λ h. omega (arith, v.size)) in
      rw (behind) (rw (outside, with_board) refl)

  -- The board `b` with the device's BARs, in a slot.
  abbrev pub set_up : ℕ → Board → List BarAddress → Board
  set_up slot b bars = (setup_bars pci number_of_bars 0 1 (claim pci slot b) bars).0

  -- A device that the kernel enables and gives its regions, in a slot of the table and with board
  -- information that ends whichever board it is put on.
  pub record IsWorking (parent : ℕ) (w : World) : Type 0 where
    pub enables : pci.enabled ≡ pos 0
    pub regions : pci.regions ≡ pos 0
    pub slot : slot_number pci parent < number_of_slots
    pub says :
        (b : Board) (bars : List BarAddress) (info : Info)
        → IsDevice b.dev
        → (t : PciedevDev × Info × World) × (board_info k fuel
              (set_up (slot_number pci parent) b bars).dev
              info
              w
            ≡ some t)

  -- The board `m` that a device has got.
  pub record IsBound (d e : Driver) (m : ℕ) : Type 0 where
    pub before : Board
    pub after : Board
    pub was : get_elem? d.boards m ≡ some before
    pub free : before.binded ≡ false
    pub is : get_elem? e.boards m ≡ some after
    pub bound : after.binded ≡ true
    pub there : after.dev.dev_sts ≡ true
    pub drvdata : e.drvdata pci.id ≡ some m
    pub least : (j : ℕ) (b : Board) → j < m → get_elem? d.boards j ≡ some b → b.binded ≡ true
    pub others : (j : ℕ) → m ≢ j → get_elem? e.boards j ≡ get_elem? d.boards j

  setup_returns :
      (m slot : ℕ) (b : Board) (d : Driver) (w : World)
      → slot < length d.dev_phys_addresses
      → ((bars : List BarAddress) (info : Info)
          → (t : PciedevDev × Info × World) × (board_info k fuel (set_up slot b bars).dev info w
              ≡ some t))
      → b.binded ≡ true
      → (c : Board) × (phys : PhysAddress) × (w' : World) × (setup_board k fuel pci m slot b d w
          ≡ returned (pos 0) (attached pci m slot c phys d, m, w'))
        × (c.binded ≡ true)
        × (c.dev.dev_sts ≡ true)
  unfolding setup_board present claim
  setup_returns m slot b d w inside says bound =
      let (old, is) = get_elem?-in_range d.dev_phys_addresses slot inside in
      let (mapped, bars) = setup_bars pci number_of_bars 0 1 (claim pci slot b) old.bars in
      let keeps = setup_bars-KeepsBoard pci number_of_bars 0 1 (claim pci slot b) old.bars in
      let ((dev, info, w'), h) = says old.bars (record mapped.info { device_irq_num = 0 }) in
      let phys = record old {
        dev_stst = true;
        slot_num = slot;
        slot_bus = pci.bus_number % 2 ^ 32;
        slot_device = pci_slot pci.devfn;
        bars = bars;
      } in
      (
        present pci dev info mapped,
        phys,
        w',
        rw (is, setup_board) (rw h refl),
        keeps.bound ∙ bound,
        refl,
      )

  -- A probe of a working device, when board `j` is not bound, ends with 0 and the number of the first
  -- board that is not bound, which is then bound with its device there and in the device's driver
  -- data; the other boards are as before.
  pub probe_takes_first :
      (d : Driver) (parent j : ℕ) (b : Board) (w : World)
      → IsConsistent d
      → IsWorking parent w
      → get_elem? d.boards j ≡ some b
      → b.binded ≡ false
      → (e : Driver) × (m : ℕ) × (w' : World) × (pciedev_probe_exp k fuel pci parent d w
          ≡ returned (pos 0) (e, m, w'))
        × (m ≤ j)
        × IsBound d e m
  unfolding pciedev_probe_exp setup_board present claim
  probe_takes_first d parent j b w v works at free =
      let m = first_unbound d.boards in
      let before = first_unbound-le d.boards j b at free in
      let low = free-low d j b v at free in
      let (first, here) = get_elem?-in_range d.boards m (omega (arith, v.size)) in
      let (c, phys, w', run, bound, there) =
        setup_returns m (slot_number pci parent) (record first { binded = true }) d w
          (rw v.slots works.slot)
          (λ bars info.
            works.says (record first { binded = true }) bars info (v.boards m first here).device)
          refl in
      let other : (m == pciedev_nr_devs) ≡ false = ground arith in
      let enables : is_zero pci.enabled ≡ true = rw works.enables refl in
      let regions : is_zero pci.regions ≡ true = rw works.regions refl in
      (
        attached pci m (slot_number pci parent) c phys d,
        m,
        w',
        rw other (rw (here, with_board) (rw (enables, regions) run)),
        before,
        record {
          before = first;
          after = c;
          was = here;
          free = first_unbound-free d.boards first here;
          is = get_elem?-set_self d.boards m c (get_elem?-some_in_range d.boards m first here);
          bound = bound;
          there = there;
          drvdata = rw (==-self pci.id) refl;
          least = λ l x less at. first_unbound-least d.boards l x less at;
          others = λ l differs. get_elem?-set_ne d.boards m l c differs;
        },
      )

  -- A device that was attached to board `i`, with the mutex free, is removed, and the kernel forgets
  -- it; a probe of a working device then ends with 0 and attaches it to a board, the number of which
  -- is at most `i`.
  pub probe-remove :
      (d : Driver) (p i parent : ℕ) (b : Board) (w : World)
      → IsConsistent d
      → d.drvdata p ≡ some i
      → get_elem? d.boards i ≡ some b
      → b.dev_mut ≡ false
      → IsWorking parent w
      → (e e' : Driver) × (m : ℕ) × (w' : World) × (pciedev_remove_exp p d
          ≡ returned (pos 0) (e, some b.slot_num))
        × (pciedev_probe_exp k fuel pci parent (forget_device p e) w ≡ returned (pos 0) (e', m, w'))
        × (m ≤ i)
        × IsBound (forget_device p e) e' m
  probe-remove d p i parent b w v has at free works =
      let (e, gone, over) = remove_hands_over d p i b v has at free in
      let v' = remove-IsConsistent d e p (some b.slot_num) v gone in
      let (e', m, w', run, low, ends) =
        probe_takes_first (forget_device p e) parent i over.board w v' works over.is over.unbound in
      (e, e', m, w', gone, run, low, ends)
