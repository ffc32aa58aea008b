-- ===== src/Boards/Queries/Probed.antt =====
-- What the table of physical addresses says of a device that has been probed.
use upciedev.Prelude.{
  ℕ, zero, suc, ◌+◌, ◌*◌, ◌%◌, ◌^◌, ◌<◌, ◌≤◌, ◌≡◌, ◌≢◌, refl, sym, ap, ◌∙◌, true, false, not, List,
  some, ℤ, pos, ◌==◌, ==_iff, ==-no, length, length-set, get_elem?, set, get_elem?-set_self,
  get_elem?-set_ne, get_elem?-some_in_range, Bool-cases, if-both, inl, inr, arith,
}
use upciedev.Kernel.{Kernel}
use upciedev.Device.{number_of_bars}
use upciedev.Boards.{pciedev_nr_devs, Board, BarAddress, PhysAddress, Driver, returned, is_zero}
use upciedev.BoardInfo.Board.{board_info}
use upciedev.Boards.Probe.{
  PciDevice, pci_slot, first_unbound, slot_number, claim, setup_bar, setup_bars, setup_board,
  pciedev_probe_exp,
}
use upciedev.Boards.Kept.{found, if_cases, looked_up, result}
use upciedev.Boards.Queries.{
  DevicePhysAddress, with_address, as_int, find_address, pciedev_get_slot_pciedevp,
}

code {ℓ} : {A : Type ℓ} {r s : ℤ} {a b : A} → returned r a ≡ returned s b → r ≡ s
code e = cc

not_zero : (r : ℤ) → not (is_zero r) ≡ true → r ≢ pos 0
not_zero r failed e = cc

same_value : {x y : PhysAddress} → some x ≡ some y → x ≡ y
same_value e = cc

-- What a round of the loop writes for a BAR that the device has.
abbrev bar_of : PciDevice → ℕ → BarAddress
bar_of pci i = record {
  res_start = pci.resource_start i % 2 ^ 32;
  res_end = pci.resource_end i % 2 ^ 32;
  res_flag = pci.resource_flags i % 2 ^ 32;
}

module _ (pci : PciDevice) where
  setup_bar-bars :
      (i to_add : ℕ) (b : Board) (bars : List BarAddress) (j : ℕ) (bar : BarAddress)
      → i ≢ j
      → get_elem? bars j ≡ some bar
      → get_elem? (setup_bar pci i to_add b bars).1 j ≡ some bar
  unfolding setup_bar
  setup_bar-bars i to_add b bars j bar differs at =
      elim (Bool-cases (pci.resource_start i % 2 ^ 32 == 0)) [
        | inl none_there ↦ rw none_there at
        | inr there ↦ rw there (get_elem?-set_ne bars i j _ differs ∙ at)
      ]

  setup_bars-later :
      (n i to_add : ℕ) (b : Board) (bars : List BarAddress) (j : ℕ) (bar : BarAddress)
      → j < i
      → get_elem? bars j ≡ some bar
      → get_elem? (setup_bars pci n i to_add b bars).1 j ≡ some bar
  unfolding setup_bars
  setup_bars-later zero i to_add b bars j bar before at = at
  setup_bars-later (suc n) i to_add b bars j bar before at =
      setup_bars-later n (suc i) (to_add * 2) _ _ j bar (omega arith)
        (setup_bar-bars i to_add b bars j bar (omega arith) at)

  setup_bar-length :
      (i to_add : ℕ) (b : Board) (bars : List BarAddress)
      → length (setup_bar pci i to_add b bars).1 ≡ length bars
  unfolding setup_bar
  setup_bar-length i to_add b bars =
      if-both {A = List BarAddress} (λ x. length x ≡ length bars)
        (pci.resource_start i % 2 ^ 32 == 0) refl (length-set bars i _)

  setup_bar-own :
      (i to_add : ℕ) (b : Board) (bars : List BarAddress)
      → pci.resource_start i % 2 ^ 32 ≢ 0
      → i < length bars
      → get_elem? (setup_bar pci i to_add b bars).1 i ≡ some (bar_of pci i)
  unfolding setup_bar
  setup_bar-own i to_add b bars used inside =
      let there : (pci.resource_start i % 2 ^ 32 == 0) ≡ false = ==-no used in
      rw there (get_elem?-set_self bars i _ inside)

  setup_bars-entry :
      (n i to_add : ℕ) (b : Board) (bars : List BarAddress) (j : ℕ)
      → i ≤ j
      → j < i + n
      → j < length bars
      → pci.resource_start j % 2 ^ 32 ≢ 0
      → get_elem? (setup_bars pci n i to_add b bars).1 j ≡ some (bar_of pci j)
  unfolding setup_bars
  setup_bars-entry zero i to_add b bars j from to inside used = absurd (omega arith)
  setup_bars-entry (suc n) i to_add b bars j from to inside used = elim (Bool-cases (i == j)) [
    | inl same ↦
        let it = (==_iff i j).0 same in
        setup_bars-later n (suc i) (to_add * 2) _ _ j _ (omega (arith, it))
          (rw (sym it) (setup_bar-own i to_add b bars (rw it used) (omega (arith, it))))
    | inr other ↦
        setup_bars-entry n (suc i) (to_add * 2) _ _ j (ground arith) (omega arith)
          (omega (arith, setup_bar-length i to_add b bars)) used
  ]

-- The query of a BAR, as the probe of the device leaves it.
abbrev answered : PciDevice → DevicePhysAddress → DevicePhysAddress
answered pci q = record {
  slot = q.slot;
  bar = q.bar;
  offset = pci.bus_number % 2 ^ 32;
  phs_address = pci.resource_start q.bar % 2 ^ 32;
  phs_end = pci.resource_end q.bar % 2 ^ 32;
  phs_flag = pci.resource_flags q.bar % 2 ^ 32;
  reserved = pci_slot pci.devfn;
  sts = 1;
}

set_at :
    (xs : List PhysAddress) {i j : ℕ} {v : PhysAddress}
    → j ≡ i
    → i < length xs
    → get_elem? (set xs i v) j ≡ some v
set_at xs {i} {j} {v} same inside = rw same (get_elem?-set_self xs i v inside)

found_entry :
    (q : DevicePhysAddress) (e : Driver) {phys : PhysAddress} {bar : BarAddress}
    → (q.slot == 0) ≡ false
    → get_elem? e.dev_phys_addresses q.slot ≡ some phys
    → get_elem? phys.bars q.bar ≡ some bar
    → pciedev_get_slot_pciedevp q e
      ≡ returned (pos (as_int phys.dev_stst)) (record (with_address q bar) {
        offset = phys.slot_bus;
        reserved = phys.slot_device;
        sts = as_int phys.dev_stst;
      })
unfolding pciedev_get_slot_pciedevp find_address
found_entry q e real at at_bar = rw (real, at, at_bar) refl

module _ (k : Kernel) (fuel : ℕ) (pci : PciDevice) where
  open k use {World}

  setup_board-query :
      (d e : Driver) (m m' slot : ℕ) (b : Board) (w w' : World) (old : PhysAddress)
      (q : DevicePhysAddress)
      → get_elem? d.dev_phys_addresses slot ≡ some old
      → length old.bars ≡ number_of_bars
      → q.slot ≡ slot
      → slot ≢ 0
      → q.bar < number_of_bars
      → pci.resource_start q.bar % 2 ^ 32 ≢ 0
      → setup_board k fuel pci m slot b d w ≡ returned (pos 0) (e, m', w')
      → pciedev_get_slot_pciedevp q e ≡ returned (pos 1) (answered pci q)
  unfolding setup_board pciedev_get_slot_pciedevp find_address
  setup_board-query d e m m' slot b w w' old q at six is real low used run =
      let (old', at', run1) = found (get_elem? d.dev_phys_addresses slot) _ run in
      let entries : length old'.bars ≡ number_of_bars = rw (same_value (sym at' ∙ at)) six in
      let (mapped, bars) = setup_bars pci number_of_bars 0 1 (claim pci slot b) old'.bars in
      elim (looked_up (board_info k fuel mapped.dev (record mapped.info { device_irq_num = 0 }) w) _
        _ run1) [
          | inl (_, endless) ↦ absurd cc
          | inr ((dev, info, w1), h, run2) ↦
              let it = ap (λ (x : Driver × ℕ × World). x.0) (sym (result run2)) in
              let entry =
                setup_bars-entry pci number_of_bars 0 1 (claim pci slot b) old'.bars q.bar
                  (omega arith) (omega arith) (omega (arith, entries)) used in
              let zero_not : (q.slot == 0) ≡ false = ==-no (λ z. real (sym is ∙ z)) in
              found_entry q e zero_not
                (ap (λ (x : Driver). get_elem? x.dev_phys_addresses q.slot) it
                  ∙ set_at d.dev_phys_addresses is
                      (get_elem?-some_in_range d.dev_phys_addresses slot old at))
                entry
        ]

  -- The probe of a device that ends with 0, in a slot other than 0 whose entry in the table has all its
  -- BARs. A query of that slot, for a BAR whose start is not 0, then ends with 1 and gives the bus
  -- number, the PCI slot and the start, end and flags of that BAR as the kernel says them, cut to 32
  -- bits.
  pub slot_query-probe :
      (d e : Driver) (parent m : ℕ) (w w' : World) (old : PhysAddress) (q : DevicePhysAddress)
      → get_elem? d.dev_phys_addresses q.slot ≡ some old
      → length old.bars ≡ number_of_bars
      → q.slot ≡ slot_number pci parent
      → slot_number pci parent ≢ 0
      → q.bar < number_of_bars
      → pci.resource_start q.bar % 2 ^ 32 ≢ 0
      → pciedev_probe_exp k fuel pci parent d w ≡ returned (pos 0) (e, m, w')
      → pciedev_get_slot_pciedevp q e ≡ returned (pos 1) (answered pci q)
  unfolding pciedev_probe_exp
  slot_query-probe d e parent m w w' old q at six is real low used run =
      elim (if_cases (first_unbound d.boards == pciedev_nr_devs) _ _ run) [
        | inl (_, run1) ↦ absurd cc
        | inr (_, run1) ↦
            let (b, here, run2) = found (get_elem? d.boards (first_unbound d.boards)) _ run1 in
            elim (if_cases (not (is_zero pci.enabled)) _ _ run2) [
              | inl (failed, run3) ↦ absurd (not_zero pci.enabled failed (code run3))
              | inr (_, run3) ↦ elim (if_cases (not (is_zero pci.regions)) _ _ run3) [
                | inl (failed, run4) ↦ absurd (not_zero pci.regions failed (code run4))
                | inr (_, run4) ↦
                    setup_board-query d e (first_unbound d.boards) m (slot_number pci parent)
                      (record b { binded = true }) w w' old q
                      (ap (get_elem? d.dev_phys_addresses) (sym is) ∙ at) six is real low used run4
              ]
            ]
      ]
