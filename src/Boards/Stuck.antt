-- ===== src/Boards/Stuck.antt =====
-- A board whose mutex dev_mut is never given back.
pub mod Commands
pub mod Forever
use upciedev.Prelude.{
  ℕ, ◌≡◌, refl, sym, ap, ◌∙◌, Bool, true, false, List, not, Option, none, some, ℤ, ◌==◌, ==_iff,
  Bool-cases, ltb, inl, inr, get_elem?, set, get_elem?-set_self, get_elem?-set_ne,
  get_elem?-some_in_range, if◌then◌else◌,
}
use upciedev.Kernel.{Kernel, eio, enodev, efault}
use upciedev.Device.{PciedevDev}
use upciedev.DeviceFile.{
  FileRun, completed, blocked, pcied_fpos, sizeof_device_rw, pciedev_read_exp, pciedev_write_exp,
  decode_request,
}
use upciedev.Boards.{pciedev_nr_devs, File, Board, Driver, Run, returned, is_zero, put_board}
use upciedev.Boards.Files.{pciedev_open_exp, pciedev_release_exp}
use upciedev.Boards.Probe.{PciDevice, claim, present, attached}
use upciedev.Boards.Remove.{absent, removed, pciedev_remove_exp}
use upciedev.Boards.Interrupts.{pciedev_setup_interrupt, irq_line}
use upciedev.Boards.Queries.{pciedev_set_drvdata}
use upciedev.Boards.Kept.{found, looked_up, if_cases, unblocked, result}
use upciedev.Boards.Kept.OnProbe.{ProbeEnd, no_board, refused, set_up, probe-ProbeEnd}
use upciedev.Boards.Steps.{
  Step, opens, closes, probes, removes, reads, writes, commands, sets_up_interrupt, stores, Steps,
  stays, then_step,
}
use upciedev.Boards.Stuck.Commands.{KeepsHeld, ioctl-KeepsHeld}

-- The mutex of board `h` is held.
abbrev pub HeldIn : List Board → ℕ → Type 0
HeldIn bs h = (b : Board) × (get_elem? bs h ≡ some b) × (b.dev_mut ≡ true)

-- A board may be written if its mutex is not given back.
set-HeldIn :
    (bs : List Board) (i h : ℕ) (b c : Board)
    → get_elem? bs i ≡ some b
    → (b.dev_mut ≡ true → c.dev_mut ≡ true)
    → HeldIn bs h
    → HeldIn (set bs i c) h
set-HeldIn bs i h b c at kept (a, here, held) = elim (Bool-cases (i == h)) [
  | inl same ↦
      let index : i ≡ h = (==_iff i h).0 same in
      let its : b ≡ a =
        let both : some b ≡ some a = sym at ∙ ap (λ (j : ℕ). get_elem? bs j) index ∙ here in cc in
      (
        c,
        ap (λ (j : ℕ). get_elem? (set bs i c) j) (sym index)
            ∙ get_elem?-set_self bs i c (get_elem?-some_in_range bs i b at),
        kept (ap (λ (x : Board). x.dev_mut) its ∙ held),
      )
  | inr away ↦
      (a, get_elem?-set_ne bs i h c (λ e. absurd (let yes = (==_iff i h).1 e in cc)) ∙ here, held)
]

-- A read or a write that finds the mutex held does not end, or leaves it held.
access-KeepsHeld :
    (k : Kernel) (b : Board) (junk' : ℕ → ℕ) (junk position f_pos buf count : ℕ) (w : k.World)
    → b.dev_mut ≡ true
    → KeepsHeld (pciedev_read_exp k b.dev junk' b.dev_mut position f_pos buf count w)
      × KeepsHeld (pciedev_write_exp k b.dev junk b.dev_mut position f_pos buf count w)
unfolding pciedev_read_exp pciedev_write_exp
access-KeepsHeld k b junk' junk position f_pos buf count w h =
    elim (Bool-cases (not b.dev.dev_sts)) [
      | inl gone ↦ rw gone (h, h)
      | inr there ↦ rw there (rw h (tt, tt))
    ]

interrupt-mutex :
    (b b' : Board) (request_irq : ℕ → ℤ) (num : ℕ) (r : ℤ)
    → pciedev_setup_interrupt request_irq num b ≡ returned r b'
    → b'.dev_mut ≡ b.dev_mut
unfolding pciedev_setup_interrupt
interrupt-mutex b b' request_irq num r e =
    elim (if_cases (is_zero (request_irq (irq_line b num))) _ _ e) [
      | inl (_, e1) ↦ elim (if_cases (ltb num 32) _ _ e1) [
        | inl (_, e2) ↦ ap (λ (x : Board). x.dev_mut) (sym (result e2))
        | inr (_, e2) ↦ absurd cc
      ]
      | inr (_, e1) ↦ ap (λ (x : Board). x.dev_mut) (sym (result e1))
    ]

-- Opening and closing a file and removing a device write no board whose mutex is held, and give no
-- mutex back.
open-HeldIn :
    (d d' : Driver) (i filp h : ℕ) (kzalloc : Bool) {r : ℤ}
    → pciedev_open_exp i filp kzalloc d ≡ returned r d'
    → HeldIn d.boards h
    → HeldIn d'.boards h
unfolding pciedev_open_exp
open-HeldIn d d' i filp h kzalloc e held =
    let (b, at, e1) = found (get_elem? d.boards i) _ e in
    let (free, e2) = unblocked b.dev_mut _ e1 in
    elim (if_cases kzalloc _ _ e2) [
      | inl (_, e3) ↦ rw (sym (result e3)) (set-HeldIn d.boards i h b _ at (λ m. m) held)
      | inr (_, e3) ↦ absurd cc
    ]

close-HeldIn :
    (d d' : Driver) (filp h : ℕ) {r : ℤ}
    → pciedev_release_exp filp d ≡ returned r d'
    → HeldIn d.boards h
    → HeldIn d'.boards h
unfolding pciedev_release_exp
close-HeldIn d d' filp h e held =
    let (file, is, e1) = found (d.open_files filp) _ e in
    let (b, at, e2) = found (get_elem? d.boards file.private_data) _ e1 in
    let (free, e3) = unblocked b.dev_mut _ e2 in
    rw (sym (result e3)) (set-HeldIn d.boards file.private_data h b _ at (λ m. m) held)

remove-HeldIn :
    (d d' : Driver) (p h : ℕ) (slot : Option ℕ) {r : ℤ}
    → pciedev_remove_exp p d ≡ returned r (d', slot)
    → HeldIn d.boards h
    → HeldIn d'.boards h
unfolding pciedev_remove_exp
remove-HeldIn d d' p h slot e held = elim (looked_up (d.drvdata p) _ _ e) [
  | inl (_, e1) ↦ rw (sym (ap (λ (x : Driver × Option ℕ). x.0) (result e1))) held
  | inr (i, is, e1) ↦
      let (b, at, e2) = found (get_elem? d.boards i) _ e1 in
      let (phys, in_slot, e3) = found (get_elem? d.dev_phys_addresses b.slot_num) _ e2 in
      let (free, e4) = unblocked b.dev_mut _ e3 in
      let (null, last, e5) = found (get_elem? (set d.boards i (absent b)) pciedev_nr_devs) _ e4 in
      let without_device = set-HeldIn d.boards i h b (absent b) at (λ m. absurd cc) held in
      rw (sym (ap (λ (x : Driver × Option ℕ). x.0) (result e5))) (
        set-HeldIn (set d.boards i (absent b)) pciedev_nr_devs h null _ last (λ m. m)
          without_device)
]

probe-HeldIn :
    (k : Kernel) (fuel : ℕ) (pci : PciDevice) (d d' : Driver) (m h : ℕ)
    → ProbeEnd k fuel pci d d' m
    → HeldIn d.boards h
    → HeldIn d'.boards h
unfolding claim present
probe-HeldIn k fuel pci d d' m h (no_board last same) held = rw same held
probe-HeldIn k fuel pci d d' m h (refused b drvdata bound at free less it) held =
    rw it (set-HeldIn d.boards m h b _ at (λ x. x) held)
probe-HeldIn k fuel pci d d' m h (set_up b mapped dev info slot old phys at free is keeps same it)
      held =
    rw it (set-HeldIn d.boards m h b _ at (λ x. keeps.mutex ∙ x) held)

store-HeldIn :
    (d d' : Driver) (h : ℕ) (board : Option ℕ) (data_address : ℕ) (r : ℤ)
    → pciedev_set_drvdata board data_address d ≡ returned r d'
    → HeldIn d.boards h
    → HeldIn d'.boards h
unfolding pciedev_set_drvdata
store-HeldIn d d' h none data_address r e held = rw (sym (result e)) held
store-HeldIn d d' h (some i) data_address r e held =
    let (b, at, e1) = found (get_elem? d.boards i) _ e in
    rw (sym (result e1)) (set-HeldIn d.boards i h b _ at (λ x. x) held)

-- A call that has been made keeps a mutex held that was held.
module _ (k : Kernel) where
  open k use {World}

  run-mutex :
      {r : ℤ} {held : Bool} {w : World} (b : Board) (o : FileRun World)
      → o ≡ completed r held w
      → (b.dev_mut ≡ true → KeepsHeld o)
      → b.dev_mut ≡ true
      → held ≡ true
  run-mutex b o e keeps h = rw e at (keeps h)

  Step-HeldIn : {d d' : Driver} (h : ℕ) → Step k d d' → HeldIn d.boards h → HeldIn d'.boards h
  Step-HeldIn {d} {d'} h (opens i filp kzalloc r fresh e) held =
      open-HeldIn d d' i filp h kzalloc e held
  Step-HeldIn {d} h (closes filp r e done it) held = rw it (close-HeldIn d e filp h done held)
  Step-HeldIn {d} {d'} h (probes fuel pci parent m r w w' fresh done) held =
      probe-HeldIn k fuel pci d d' _ h (probe-ProbeEnd k fuel pci parent d d' m w w' done) held
  Step-HeldIn {d} h (removes p r e slot done it) held = rw it (remove-HeldIn d e p h slot done held)
  Step-HeldIn {d} h (reads filp file b junk position f_pos buf count r m w w' is at done it) held =
      rw it (
        set-HeldIn d.boards file.private_data h b _ at
          (run-mutex b _ done (λ x. (access-KeepsHeld k b junk 0 position f_pos buf count w x).0))
          held)
  Step-HeldIn {d} h (writes filp file b junk position f_pos buf count r m w w' is at done it) held =
      rw it (
        set-HeldIn d.boards file.private_data h b _ at
          (run-mutex b _ done
            (λ x. (access-KeepsHeld k b (λ i. 0) junk position f_pos buf count w x).1))
          held)
  Step-HeldIn {d} h
        (commands filp file b versions junk slot_command accessible command arg dev r m w w' is at
          done it)
        held =
      rw it (
        set-HeldIn d.boards file.private_data h b _ at
          (run-mutex b _ (ap (λ (x : FileRun World × PciedevDev). x.0) done)
            (ioctl-KeepsHeld k b versions junk slot_command accessible command arg w))
          held)
  Step-HeldIn {d} h (sets_up_interrupt i num b b' request_irq r at done it) held =
      rw it (
        set-HeldIn d.boards i h b b' at (λ x. interrupt-mutex b b' request_irq num r done ∙ x) held)
  Step-HeldIn {d} {d'} h (stores board data_address r done) held =
      store-HeldIn d d' h board data_address r done held

  pub Steps-HeldIn : {d d' : Driver} (h : ℕ) → Steps k d d' → HeldIn d.boards h → HeldIn d'.boards h
  Steps-HeldIn h stays held = held
  Steps-HeldIn h (then_step before s) held = Step-HeldIn h s (Steps-HeldIn h before held)
