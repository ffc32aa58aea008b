-- ===== src/Boards/Removal.antt =====
-- What the removal of a device does to the files that are open (pciedev_remove_exp.c, and the
-- functions of pciedev_rw_exp.c on the null device).
use upciedev.Prelude.{
  ℕ, ◌<◌, ◌≡◌, ◌≢◌, refl, sym, ap, ◌∙◌, Bool, true, false, Option, none, some, ℤ, pos, ◌==◌,
  get_elem?, set, if◌then◌else◌, arith, get_elem?-in_range, get_elem?-some_in_range,
  get_elem?-set_self, get_elem?-set_ne, inl, inr,
}
use upciedev.Kernel.{Kernel, enodev, efault}
use upciedev.DeviceFile.{completed, pciedev_read_exp, pciedev_write_exp}
use upciedev.Boards.{pciedev_nr_devs, File, Board, Driver, returned, with_board}
use upciedev.Boards.Remove.{absent, removed, redirect, redirect_file, pciedev_remove_exp}
use upciedev.Boards.Consistent.{IsBoard, IsConsistent}
use upciedev.Boards.Lists.{redirect_lem}
use upciedev.Boards.Kept.OnRemove.{remove_cases}

-- What the function finds: a board that is not the null device, in a slot, and the null device.
found_all :
    (d : Driver) (p i : ℕ) (b : Board)
    → IsConsistent d
    → d.drvdata p ≡ some i
    → get_elem? d.boards i ≡ some b
    → (i < pciedev_nr_devs)
      × (b.slot_num < pciedev_nr_devs)
      × (null : Board) × (get_elem? d.boards pciedev_nr_devs ≡ some null)
      × (get_elem? (set d.boards i (absent b)) pciedev_nr_devs ≡ some null)
found_all d p i b v has at =
    let (a, at', low, there, of) = v.attached p i has in
    let same : a ≡ b = cc in
    let (null, at_null) = get_elem?-in_range d.boards pciedev_nr_devs (omega (arith, v.size)) in
    let differs : i ≢ pciedev_nr_devs = (λ e. omega (arith, low)) in
    (
      low,
      (v.boards i b at).in_slot (ap (λ (x : Board). x.dev.dev_sts) (sym same) ∙ there),
      null,
      at_null,
      get_elem?-set_ne d.boards i pciedev_nr_devs (absent b) differs ∙ at_null,
    )

-- Where a file belongs after the removal of the device of board `i`.
abbrev pub handed_over : ℕ → File → File
handed_over i file =
    if file.private_data == i then record file { private_data = pciedev_nr_devs } else file

redirect-handed_over :
    (fs : ℕ → Option File) (i : ℕ) (b : Board) (count : ℤ) (filp : ℕ) (file : File)
    → IsBoard fs i b
    → i < pciedev_nr_devs
    → fs filp ≡ some file
    → (redirect b.files count fs).1 filp ≡ some (handed_over i file)
redirect-handed_over fs i b count filp file h low is =
    redirect_lem b.files count fs filp
    ∙ rw (h.listed low filp, is) (chosen (file.private_data == i))
  where
    chosen :
        (c : Bool)
        → (if c then redirect_file (some file) else some file)
          ≡ some (if c then record file { private_data = pciedev_nr_devs } else file)
    chosen true = refl
    chosen false = refl

abbrev number : Option ℕ → ℕ
number none = 0
number (some n) = n

pub ==-self : (n : ℕ) → (n == n) ≡ true
==-self n = ground arith

absent-gone : (b : Board) → ((absent b).dev.dev_sts ≡ false) × ((absent b).binded ≡ false)
unfolding absent
absent-gone b = (refl, refl)

-- The driver `e` after the device of board `i` has been removed from `d`: the board is not bound and
-- its device not there, the other boards but the null device are as before, and each file that was
-- open belongs to the board it belonged to, or to the null device if that was board `i`.
pub record HandedOver (d e : Driver) (i : ℕ) : Type 0 where
  pub board : Board
  pub is : get_elem? e.boards i ≡ some board
  pub gone : board.dev.dev_sts ≡ false
  pub unbound : board.binded ≡ false
  pub others : (j : ℕ) → i ≢ j → j ≢ pciedev_nr_devs → get_elem? e.boards j ≡ get_elem? d.boards j
  pub files :
      (filp : ℕ) (file : File)
      → d.open_files filp ≡ some file
      → e.open_files filp ≡ some (handed_over i file)

-- The removal of a device that is attached to a board, with the board's mutex free, ends with 0 and
-- the number of the slot. The board is then not bound and its device not there, the other boards
-- but the null device are as before, and each file that was open belongs to the board it belonged
-- to, or to the null device if that was this one.
pub remove_hands_over :
    (d : Driver) (p i : ℕ) (b : Board)
    → IsConsistent d
    → d.drvdata p ≡ some i
    → get_elem? d.boards i ≡ some b
    → b.dev_mut ≡ false
    → (e : Driver) × (pciedev_remove_exp p d ≡ returned (pos 0) (e, some b.slot_num))
      × HandedOver d e i
unfolding pciedev_remove_exp
remove_hands_over d p i b v has at free =
    let (low, inside, null, _, at_null) = found_all d p i b v has at in
    let (phys, is) = get_elem?-in_range d.dev_phys_addresses b.slot_num (rw v.slots inside) in
    let (gone, unbound) = absent-gone b in
    let there =
      get_elem?-set_self d.boards i (absent b) (get_elem?-some_in_range d.boards i b at) in
    (
      removed i b null d,
      rw (has, pciedev_remove_exp)
          (rw (at, with_board) (rw is (rw free (rw (at_null, with_board) refl)))),
      record {
        board = absent b;
        is = get_elem?-set_ne _ pciedev_nr_devs i _ (λ h. omega (arith, low)) ∙ there;
        gone = gone;
        unbound = unbound;
        others = λ j other last.
            get_elem?-set_ne _ pciedev_nr_devs j _ (λ h. last (sym h))
            ∙ get_elem?-set_ne d.boards i j _ other;
        files = λ filp file h.
            redirect-handed_over d.open_files i b null.dev_file_ref filp file (v.boards i b at) low
              h;
      },
    )

-- A file whose board's device has been removed, with whatever it is used for: the file is open on
-- the null device, and every read and every write through it ends at once with an error, and
-- neither takes the mutex nor touches the world.
pub removed_files_refuse :
    (k : Kernel) (d e : Driver) (p i filp : ℕ) (file : File) (slot : Option ℕ) (r : ℤ)
    → IsConsistent d
    → d.drvdata p ≡ some i
    → d.open_files filp ≡ some file
    → file.private_data ≡ i
    → pciedev_remove_exp p d ≡ returned r (e, slot)
    → (null : Board) × (e.open_files filp ≡ some (record file { private_data = pciedev_nr_devs }))
      × (get_elem? e.boards pciedev_nr_devs ≡ some null)
      × ((junk : ℕ → ℕ) (held : Bool) (position f_pos buf count : ℕ) (w : k.World)
          → (pciedev_read_exp k null.dev junk held position f_pos buf count w
              ≡ completed enodev held w)
            × (pciedev_write_exp k null.dev (junk 0) held position f_pos buf count w
                ≡ completed efault held w))
unfolding pciedev_read_exp pciedev_write_exp
removed_files_refuse k d e p i filp file slot r v has is on done =
    elim (remove_cases p d e slot done) [
      | inl (free, _) ↦ cc
      | inr (i', b, null, has', at, at_null, it) ↦
          let same : i ≡ i' = ap number (sym has ∙ has') in
          let (low, _, null', at_null', found_null) = found_all d p i' b v has' at in
          let kept : handed_over i' file ≡ record file { private_data = pciedev_nr_devs } =
            rw (← same, on, ==-self i) refl in
          let it_is : null' ≡ null = cc in
          let gone : null.dev.dev_sts ≡ false =
            ap (λ (x : Board). x.dev.dev_sts) (sym it_is)
            ∙ ((v.boards pciedev_nr_devs null' at_null').null refl).2 in
          rw it (
            record null { dev_file_ref = (redirect b.files null.dev_file_ref d.open_files).0 },
            redirect-handed_over d.open_files i' b null.dev_file_ref filp file (v.boards i' b at)
                  low is
                ∙ ap some kept,
            get_elem?-set_self (set d.boards i' (absent b)) pciedev_nr_devs _
                (get_elem?-some_in_range _ pciedev_nr_devs null at_null),
            λ junk held position f_pos buf count w. (rw gone refl, rw gone refl),
          )
    ]
