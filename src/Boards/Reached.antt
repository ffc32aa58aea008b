-- ===== src/Boards/Reached.antt =====
-- What holds of every state that the driver comes to.
use upciedev.Prelude.{
  sym, ℕ, ◌≡◌, refl, ◌∙◌, Bool, Option, none, some, ℤ, ltb, bit_or, ◌^◌, inl, inr, get_elem?,
  length-set,
}
use upciedev.Kernel.{Kernel}
use upciedev.Device.{PciedevDev, IsDevice}
use upciedev.DeviceFile.Settings.Kept.{SettingsKept}
use upciedev.Boards.Ioctl.Kept.{ioctl-SettingsKept}
use upciedev.Boards.Interrupts.{pciedev_setup_interrupt, irq_line}
use upciedev.Boards.Queries.{pciedev_set_drvdata}
use upciedev.Boards.Kept.{found, if_cases, result}
use upciedev.Boards.{Board, Driver, returned, is_zero, put_board}
use upciedev.Boards.Steps.{
  commands, sets_up_interrupt, stores, Step, opens, closes, probes, removes, reads, writes, Reach,
  starts, next,
}
use upciedev.Boards.Consistent.{IsConsistent, set-AllBoards, set-IsAttached}
use upciedev.Boards.Kept.OnStart.{start-IsConsistent}
use upciedev.Boards.Kept.OnFiles.{open-IsConsistent, close-IsConsistent}
use upciedev.Boards.Kept.OnProbe.{probe-ProbeEnd, ProbeEnd-IsConsistent}
use upciedev.Boards.Kept.OnRemove.{remove-IsConsistent}

-- A change of a board that leaves alone what the table of boards is about.
record SameBoard (b c : Board) : Type 0 where
  device : IsDevice c.dev
  there : c.dev.dev_sts ≡ b.dev.dev_sts
  mapped : c.dev.memmory_base ≡ b.dev.memmory_base
  number : c.brd_num ≡ b.brd_num
  bound : c.binded ≡ b.binded
  slot : c.slot_num ≡ b.slot_num
  files : c.files ≡ b.files
  refs : c.dev_file_ref ≡ b.dev_file_ref
  null : c.null_dev ≡ b.null_dev
  pci : c.pci_dev ≡ b.pci_dev

SameBoard-IsConsistent :
    (d : Driver) (i : ℕ) (b c : Board)
    → IsConsistent d
    → get_elem? d.boards i ≡ some b
    → SameBoard b c
    → IsConsistent (put_board i c d)
SameBoard-IsConsistent d i b c v at kept =
    let h = v.boards i b at in
    record {
      size = length-set d.boards i _ ∙ v.size;
      slots = v.slots;
      boards =
          set-AllBoards d.open_files d.open_files d.boards i _ v.boards
            (record {
              device = kept.device;
              number = kept.number ∙ h.number;
              bound = λ there. kept.bound ∙ h.bound (sym kept.there ∙ there);
              in_slot = λ there. rw kept.slot (h.in_slot (sym kept.there ∙ there));
              unmapped =
                  λ absent j low. rw kept.mapped (h.unmapped (sym kept.there ∙ absent) j low);
              listed = λ low f. rw kept.files (h.listed low f);
              counted = λ low. rw (kept.refs, kept.files) (h.counted low);
              null = λ last. (
                kept.bound ∙ (h.null last).0,
                kept.null ∙ (h.null last).1,
                kept.there ∙ (h.null last).2,
              );
            })
            λ j c other h. h;
      attached =
          λ p j e. set-IsAttached d.boards i b _ p j at kept.there kept.pci (v.attached p j e);
      owned = v.owned;
    }

-- A device that is left in order, and a mutex that is taken or given back.
kept-SameBoard :
    (b : Board) (dev : PciedevDev) (held : Bool)
    → SettingsKept b.dev dev
    → SameBoard b (record b { dev = dev; dev_mut = held })
kept-SameBoard b dev held kept = record {
  device = kept.device;
  there = kept.there;
  mapped = kept.mapped;
  number = refl;
  bound = refl;
  slot = refl;
  files = refl;
  refs = refl;
  null = refl;
  pci = refl;
}

mutex-SameBoard :
    (b : Board) (held : Bool) → IsDevice b.dev → SameBoard b (record b { dev_mut = held })
mutex-SameBoard b held device =
    kept-SameBoard b b.dev held (record { device = device; there = refl; mapped = refl })

-- Lines of interrupts and pointers of other drivers are nothing of the table's.
fields-SameBoard :
    (b : Board) (mode lines data_address : ℕ)
    → IsDevice b.dev
    → SameBoard b (record b { irq_mode = mode; enbl_irq_num = lines; dev_str = data_address })
fields-SameBoard b mode lines data_address device = record {
  device = device;
  there = refl;
  mapped = refl;
  number = refl;
  bound = refl;
  slot = refl;
  files = refl;
  refs = refl;
  null = refl;
  pci = refl;
}

interrupt-SameBoard :
    (b b' : Board) (request_irq : ℕ → ℤ) (num : ℕ) (r : ℤ)
    → IsDevice b.dev
    → pciedev_setup_interrupt request_irq num b ≡ returned r b'
    → SameBoard b b'
unfolding pciedev_setup_interrupt
interrupt-SameBoard b b' request_irq num r device e =
    elim (if_cases (is_zero (request_irq (irq_line b num))) _ _ e) [
      | inl (_, e1) ↦ elim (if_cases (ltb num 32) _ _ e1) [
        | inl (_, e2) ↦
            rw (sym (result e2))
              (fields-SameBoard b 1 (bit_or b.enbl_irq_num (2 ^ num)) b.dev_str device)
        | inr (_, e2) ↦ absurd cc
      ]
      | inr (_, e1) ↦ rw (sym (result e1)) (fields-SameBoard b 0 b.enbl_irq_num b.dev_str device)
    ]

stores-IsConsistent :
    (d d' : Driver) (board : Option ℕ) (data_address : ℕ) (r : ℤ)
    → IsConsistent d
    → pciedev_set_drvdata board data_address d ≡ returned r d'
    → IsConsistent d'
unfolding pciedev_set_drvdata
stores-IsConsistent d d' none data_address r v e = rw (sym (result e)) v
stores-IsConsistent d d' (some i) data_address r v e =
    let (b, at, e1) = found (get_elem? d.boards i) _ e in
    rw (sym (result e1)) (
      SameBoard-IsConsistent d i b _ v at
        (fields-SameBoard b b.irq_mode b.enbl_irq_num data_address (v.boards i b at).device))

module _ (k : Kernel) where
  Step-IsConsistent : {d d' : Driver} → Step k d d' → IsConsistent d → IsConsistent d'
  Step-IsConsistent {d} {d'} (opens i filp kzalloc r fresh e) v =
      open-IsConsistent d d' i filp kzalloc v fresh e
  Step-IsConsistent {d} (closes filp r e done it) v = rw it (close-IsConsistent d e filp v done)
  Step-IsConsistent {d} {d'} (probes fuel pci parent m r w w' fresh done) v =
      ProbeEnd-IsConsistent k fuel pci d d' _ v (probe-ProbeEnd k fuel pci parent d d' m w w' done)
  Step-IsConsistent {d} (removes p r e slot done it) v =
      rw it (remove-IsConsistent d e p slot v done)
  Step-IsConsistent {d} (reads filp file b junk position f_pos buf count r held w w' is at done it)
        v =
      rw it (
        SameBoard-IsConsistent d file.private_data b _ v at
          (mutex-SameBoard b held (v.boards file.private_data b at).device))
  Step-IsConsistent {d} (writes filp file b junk position f_pos buf count r held w w' is at done it)
        v =
      rw it (
        SameBoard-IsConsistent d file.private_data b _ v at
          (mutex-SameBoard b held (v.boards file.private_data b at).device))
  Step-IsConsistent {d}
        (commands filp file b versions junk slot_command accessible command arg dev r held w w' is
          at done it)
        v =
      let kept =
        ioctl-SettingsKept k b versions junk slot_command (v.boards file.private_data b at).device
          accessible command arg w in
      rw it (
        SameBoard-IsConsistent d file.private_data b _ v at
          (kept-SameBoard b dev held (rw done at kept)))
  Step-IsConsistent {d} (sets_up_interrupt i num b b' request_irq r at done it) v = rw it (
      SameBoard-IsConsistent d i b b' v at
        (interrupt-SameBoard b b' request_irq num r (v.boards i b at).device done))
  Step-IsConsistent {d} {d'} (stores board data_address r done) v =
      stores-IsConsistent d d' board data_address r v done

  -- Whatever files are opened, closed, read and written, whatever devices are probed and removed,
  -- whatever ioctl commands are sent, interrupts set up and data stored after the driver has started, the table of boards stays consistent: it has 16 boards, the last one the null device; a board whose device is there is
  -- bound, has a slot of the table and arrays with an entry for each BAR; one without a device has
  -- nothing mapped; each of the other 15 lists exactly the files that belong to it and counts at
  -- least these; and a device with driver data is the one its board is bound to.
  pub Reach-IsConsistent : {d : Driver} → Reach k d → IsConsistent d
  Reach-IsConsistent {d} (starts kzalloc cdev_add e) = start-IsConsistent kzalloc cdev_add d e
  Reach-IsConsistent (next r s) = Step-IsConsistent s (Reach-IsConsistent r)
