-- ===== src/Boards/Kept/OnProbe.antt =====
-- Probing a device keeps the table of boards right.
use upciedev.Prelude.{
  ℕ, ◌≡◌, refl, sym, ap, ◌∙◌, Bool, true, false, not, Option, none, some, ℤ, ◌==◌, ==_iff,
  length-set, get_elem?, set, inl, inr, get_elem?-set_self, get_elem?-some_in_range,
}
use upciedev.Kernel.{Kernel}
use upciedev.Device.{PciedevDev, number_of_bars}
use upciedev.BoardInfo.{Info}
use upciedev.BoardInfo.Board.{board_info}
use upciedev.Boards.{pciedev_nr_devs, Board, PhysAddress, Driver, returned, assign, is_zero}
use upciedev.Boards.Probe.{
  PciDevice, first_unbound, slot_number, claim, setup_bars, present, attached, setup_board,
  pciedev_probe_exp,
}
use upciedev.Boards.Consistent.{IsConsistent}
use upciedev.Boards.Loops.{KeepsBoard, setup_bars-KeepsBoard}
use upciedev.Boards.Information.{SameBars, board_info-bars}
use upciedev.Boards.Lists.{first_unbound-free}
use upciedev.Boards.Kept.{found, if_cases, looked_up, result, assign_cases}
use upciedev.Boards.Kept.Unbound.{
  free-absent, free-low, binded-IsBoard, replaced-IsConsistent, present-IsBoard,
}

cleared :
    (p : ℕ) (drvdata : ℕ → Option ℕ) (q j : ℕ)
    → assign p none drvdata q ≡ some j
    → drvdata q ≡ some j
cleared p drvdata q j e = elim (assign_cases p none drvdata q e) [
  | inl (_, it) ↦ cc
  | inr (_, it) ↦ it
]

abbrev owner : Option ℕ → ℕ
owner none = 0
owner (some i) = i

module _ (k : Kernel) (fuel : ℕ) (pci : PciDevice) where
  open k use {World}

  -- What a probe that has returned has done: nothing, it has taken a board or cleared the driver
  -- data, or it has set up the first board that was not bound.
  pub data ProbeEnd (d d' : Driver) (m : ℕ) : Type 0 where
    no_board : first_unbound d.boards ≡ pciedev_nr_devs → d' ≡ d → ProbeEnd d d' m
    refused :
        (b : Board) (drvdata : ℕ → Option ℕ) (bound : Bool)
        → get_elem? d.boards m ≡ some b
        → b.binded ≡ false
        → ((q j : ℕ) → drvdata q ≡ some j → d.drvdata q ≡ some j)
        → d' ≡ record d { boards = set d.boards m (record b { binded = bound }); drvdata = drvdata }
        → ProbeEnd d d' m
    set_up :
        (b mapped : Board) (dev : PciedevDev) (info : Info) (slot : ℕ) (old phys : PhysAddress)
        → get_elem? d.boards m ≡ some b
        → b.binded ≡ false
        → get_elem? d.dev_phys_addresses slot ≡ some old
        → KeepsBoard (claim pci slot (record b { binded = true })) mapped
        → SameBars mapped.dev dev
        → d' ≡ attached pci m slot (present pci dev info mapped) phys d
        → ProbeEnd d d' m

  setup-ProbeEnd :
      (d d' : Driver) (m m' slot : ℕ) (b : Board) {r : ℤ} (w w' : World)
      → get_elem? d.boards m ≡ some b
      → b.binded ≡ false
      → setup_board k fuel pci m slot (record b { binded = true }) d w ≡ returned r (d', m', w')
      → (m ≡ m') × ProbeEnd d d' m
  unfolding setup_board
  setup-ProbeEnd d d' m m' slot b w w' at free e =
      let (old, e0, e1) = found (get_elem? d.dev_phys_addresses slot) _ e in
      let (mapped, bars) =
        setup_bars pci number_of_bars 0 1 (claim pci slot (record b { binded = true })) old.bars in
      elim (looked_up (board_info k fuel mapped.dev (record mapped.info { device_irq_num = 0 }) w) _
        _ e1) [
          | inl (_, h) ↦ cc
          | inr ((dev, info, w1), h, e2) ↦
              let it = result e2 in
              (
                ap (λ (x : Driver × ℕ × World). x.1) it,
                set_up b mapped dev info slot old _ at free e0
                    (setup_bars-KeepsBoard pci number_of_bars 0 1 _ old.bars)
                    (board_info-bars k fuel mapped.dev dev
                      (record mapped.info { device_irq_num = 0 }) info w w1 h)
                    (ap (λ (x : Driver × ℕ × World). x.0) (sym it)),
              )
        ]

  pub probe-ProbeEnd :
      (parent : ℕ) (d d' : Driver) (m : ℕ) {r : ℤ} (w w' : World)
      → pciedev_probe_exp k fuel pci parent d w ≡ returned r (d', m, w')
      → ProbeEnd d d' (first_unbound d.boards)
  unfolding pciedev_probe_exp
  probe-ProbeEnd parent d d' m w w' e =
      let first = first_unbound d.boards in
      elim (if_cases (first == pciedev_nr_devs) _ _ e) [
        | inl (last, e1) ↦
            no_board ((==_iff _ _).0 last) (ap (λ (x : Driver × ℕ × World). x.0) (sym (result e1)))
        | inr (_, e1) ↦
            let (b, at, e2) = found (get_elem? d.boards first) _ e1 in
            let free = first_unbound-free d.boards b at in
            elim (if_cases (not (is_zero pci.enabled)) _ _ e2) [
              | inl (_, e3) ↦
                  refused b d.drvdata true at free (λ q j h. h)
                    (ap (λ (x : Driver × ℕ × World). x.0) (sym (result e3)))
              | inr (_, e3) ↦ elim (if_cases (not (is_zero pci.regions)) _ _ e3) [
                | inl (_, e4) ↦
                    refused b (assign pci.id none d.drvdata) false at free
                      (cleared pci.id d.drvdata)
                      (ap (λ (x : Driver × ℕ × World). x.0) (sym (result e4)))
                | inr (_, e4) ↦
                    (setup-ProbeEnd d d' first m (slot_number pci parent) b w w' at free e4).1
              ]
            ]
      ]

  pub ProbeEnd-IsConsistent :
      (d d' : Driver) (m : ℕ) → IsConsistent d → ProbeEnd d d' m → IsConsistent d'
  unfolding present claim
  ProbeEnd-IsConsistent d d' m v (no_board last same) = rw same v
  ProbeEnd-IsConsistent d d' m v (refused b drvdata bound at free less it) =
      let absent = free-absent d.open_files m b (v.boards m b at) free in
      rw it (
        replaced-IsConsistent d m b (record b { binded = bound }) drvdata d.dev_phys_addresses
          d.module_num v at absent
          (binded-IsBoard d.open_files m b bound (free-low d m b v at free) absent
            (v.boards m b at))
          v.slots λ q j e. inl (less q j e))
  ProbeEnd-IsConsistent d d' m v (set_up b mapped dev info slot old phys at free is keeps same it) =
      let low = free-low d m b v at free in
      let absent = free-absent d.open_files m b (v.boards m b at) free in
      let new =
        present-IsBoard pci d.open_files m slot b mapped dev info low
          (rw v.slots at (get_elem?-some_in_range d.dev_phys_addresses slot old is))
          (v.boards m b at) keeps same in
      rw it (
        replaced-IsConsistent d m b (present pci dev info mapped) (assign pci.id (some m) d.drvdata)
          (set d.dev_phys_addresses slot phys) _ v at absent new
          (length-set d.dev_phys_addresses slot phys ∙ v.slots)
          λ q j e. elim (assign_cases pci.id (some m) d.drvdata q e) [
            | inl (own, here) ↦
                let to : m ≡ j = ap owner here in
                inr (
                  rw (← to, own)
                    (
                      present pci dev info mapped,
                      get_elem?-set_self d.boards m _ (get_elem?-some_in_range d.boards m b at),
                      low,
                      refl,
                      keeps.pci,
                    ))
            | inr (_, old) ↦ inl old
          ])
