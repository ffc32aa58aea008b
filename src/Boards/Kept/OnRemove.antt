-- ===== src/Boards/Kept/OnRemove.antt =====
-- Removing a device keeps the table of boards right.
use upciedev.Prelude.{
  ℕ, ◌+◌, ◌<◌, ◌≡◌, ◌≢◌, refl, sym, ap, ◌∙◌, Bool, true, false, List, Option, none, some, ℤ, length,
  length-set, get_elem?, set, if◌then◌else◌, arith, ◌⊎◌, inl, inr,
}
use upciedev.Device.{number_of_bars}
use upciedev.Boards.{pciedev_nr_devs, File, Board, Driver, returned, elem}
use upciedev.Boards.Remove.{redirect, redirect_file, absent, removed, pciedev_remove_exp}
use upciedev.Boards.Steps.{forget_device}
use upciedev.Boards.Consistent.{
  points, IsBoard, AllBoards, IsConsistent, set-AllBoards, set-IsAttached, set-IsAttached_other,
}
use upciedev.Boards.Loops.{unmap_bars_lem}
use upciedev.Boards.Lists.{redirect_lem}
use upciedev.Boards.Kept.{
  found, looked_up, unblocked, result, IsBoard-files, assign_cases, Covers-zero,
}

-- The files after a removal, with the board `b` at index `i` and the files `fs` before.
abbrev pub files_after : List ℕ → ℤ → (ℕ → Option File) → ℕ → Option File
files_after files count fs = (redirect files count fs).1

points-redirect_file :
    (o : Option File) (j : ℕ) → j < pciedev_nr_devs → points (redirect_file o) j ≡ false
points-redirect_file none j low = refl
points-redirect_file (some file) j low = ground arith

-- A file of the board belongs to the null device afterwards, another one to the same board as before.
pub points-files_after :
    (fs : ℕ → Option File) (i j : ℕ) (b : Board) (count : ℤ) (g : ℕ)
    → IsBoard fs i b
    → i < pciedev_nr_devs
    → j < pciedev_nr_devs
    → points (files_after b.files count fs g) j
      ≡ (if points (fs g) i then false else points (fs g) j)
points-files_after fs i j b count g h low low' =
    ap (λ (o : Option File). points o j) (redirect_lem b.files count fs g)
    ∙ rw (h.listed low g) (chosen (points (fs g) i))
  where
    chosen :
        (c : Bool)
        → points (if c then redirect_file (fs g) else fs g) j
          ≡ (if c then false else points (fs g) j)
    chosen true = points-redirect_file (fs g) j low'
    chosen false = refl

abbrev owner : Option File → ℕ
owner none = 0
owner (some file) = file.private_data

if_self : (c : Bool) → (if c then false else c) ≡ false
if_self true = refl
if_self false = refl

-- No file belongs to two boards.
points-one :
    (o : Option File) (i j : ℕ) → i ≢ j → (if points o i then false else points o j) ≡ points o j
points-one none i j ne = refl
points-one (some file) i j ne = ground arith

absent-IsBoard :
    (fs : ℕ → Option File) (i : ℕ) (b : Board) (count : ℤ)
    → i < pciedev_nr_devs
    → IsBoard fs i b
    → IsBoard (files_after b.files count fs) i (absent b)
unfolding absent
absent-IsBoard fs i b count low h =
    let (keeps, _, gone) = unmap_bars_lem number_of_bars 0 b (omega (arith, h.device.mapped)) in
    record {
      device = record {
        starts = keeps.starts ∙ h.device.starts;
        ends = keeps.ends ∙ h.device.ends;
        mapped = keeps.mapped ∙ h.device.mapped;
        known_size = rw keeps.size h.device.known_size;
      };
      number = keeps.number ∙ h.number;
      bound = λ e. cc;
      in_slot = λ e. cc;
      unmapped = λ e j inside. gone j (omega arith) inside;
      listed =
          λ low g. sym (points-files_after fs i i b count g h low low ∙ if_self (points (fs g) i));
      counted = λ low. rw keeps.refs (Covers-zero b.dev_file_ref (length b.files) (h.counted low));
      null = λ e. absurd (omega arith);
    }

-- What the null device keeps: it only counts more files.
null-IsBoard :
    (fs gs : ℕ → Option File) (b : Board) (count : ℤ)
    → IsBoard fs pciedev_nr_devs b
    → IsBoard gs pciedev_nr_devs (record b { dev_file_ref = count })
null-IsBoard fs gs b count h = record {
  device = h.device;
  number = h.number;
  bound = h.bound;
  in_slot = h.in_slot;
  unmapped = h.unmapped;
  listed = λ low. absurd (omega arith);
  counted = λ low. absurd (omega arith);
  null = h.null;
}

owned-redirect :
    (o : Option File) (file : File) (c : Bool)
    → (o ≡ some file → file.private_data < pciedev_nr_devs + 1)
    → (if c then redirect_file o else o) ≡ some file
    → file.private_data < pciedev_nr_devs + 1
owned-redirect o file false h e = h e
owned-redirect none file true h e = cc
owned-redirect (some old) file true h e =
    let last : pciedev_nr_devs ≡ file.private_data = ap owner e in omega (arith, last)

pub removed-IsConsistent :
    (d : Driver) (p i : ℕ) (b null : Board)
    → IsConsistent d
    → d.drvdata p ≡ some i
    → get_elem? d.boards i ≡ some b
    → get_elem? (set d.boards i (absent b)) pciedev_nr_devs ≡ some null
    → IsConsistent (forget_device p (removed i b null d))
removed-IsConsistent d p i b null v has at at_null =
    let (a, at', low, there, of) = v.attached p i has in
    let same : a ≡ b = cc in
    let others : AllBoards (files_after b.files null.dev_file_ref d.open_files)
        (set d.boards i (absent b)) =
      set-AllBoards d.open_files _ d.boards i (absent b) v.boards
        (absent-IsBoard d.open_files i b null.dev_file_ref low (v.boards i b at))
        λ j c other h.
          IsBoard-files d.open_files _ j c
            (λ low' g.
              points-files_after d.open_files i j b null.dev_file_ref g (v.boards i b at) low low'
              ∙ points-one (d.open_files g) i j other)
            h in
    record {
      size = length-set _ pciedev_nr_devs _ ∙ length-set d.boards i _ ∙ v.size;
      slots = length-set d.dev_phys_addresses b.slot_num _ ∙ v.slots;
      boards =
          set-AllBoards _ _ (set d.boards i (absent b)) pciedev_nr_devs _ others
            (null-IsBoard _ _ null _ (others pciedev_nr_devs null at_null)) λ j c other h. h;
      attached = λ q j e. elim (assign_cases p none d.drvdata q e) [
        | inl (_, it) ↦ cc
        | inr (other, it) ↦ set-IsAttached _ pciedev_nr_devs null _ q j at_null refl refl (
            set-IsAttached_other d.boards i b (absent b) q j at
              (λ h. other (sym h.1 ∙ ap (λ (x : Board). x.pci_dev) (sym same) ∙ of))
              (v.attached q j it))
      ];
      owned = λ g file e.
          owned-redirect (d.open_files g) file (elem g b.files) (v.owned g file)
            (sym (redirect_lem b.files null.dev_file_ref d.open_files g) ∙ e);
    }

-- The kernel forgets the driver data of a device.
forget_device-IsConsistent :
    (d : Driver) (p : ℕ) → IsConsistent d → IsConsistent (forget_device p d)
forget_device-IsConsistent d p v = record {
  size = v.size;
  slots = v.slots;
  boards = v.boards;
  attached = λ q j e. elim (assign_cases p none d.drvdata q e) [
    | inl (_, it) ↦ cc
    | inr (_, it) ↦ v.attached q j it
  ];
  owned = v.owned;
}

-- What a removal that has returned has done.
pub remove_cases :
    (p : ℕ) (d e : Driver) (slot : Option ℕ) {r : ℤ}
    → pciedev_remove_exp p d ≡ returned r (e, slot)
    → ((d.drvdata p ≡ none) × (e ≡ d))
      ⊎ ((i : ℕ) × (b : Board) × (null : Board) × (d.drvdata p ≡ some i)
          × (get_elem? d.boards i ≡ some b)
          × (get_elem? (set d.boards i (absent b)) pciedev_nr_devs ≡ some null)
          × (e ≡ removed i b null d))
unfolding pciedev_remove_exp
remove_cases p d e slot h = elim (looked_up (d.drvdata p) _ _ h) [
  | inl (free, same) ↦ inl (free, ap (λ (x : Driver × Option ℕ). x.0) (sym (result same)))
  | inr (i, has, h1) ↦
      let (b, at, h2) = found (get_elem? d.boards i) _ h1 in
      let (phys, _, h3) = found (get_elem? d.dev_phys_addresses b.slot_num) _ h2 in
      let (_, h4) = unblocked b.dev_mut _ h3 in
      let (null, at_null, h5) =
        found (get_elem? (set d.boards i (absent b)) pciedev_nr_devs) _ h4 in
      inr (i, b, null, has, at, at_null, ap (λ (x : Driver × Option ℕ). x.0) (sym (result h5)))
]

pub remove-IsConsistent :
    (d e : Driver) (p : ℕ) (slot : Option ℕ) {r : ℤ}
    → IsConsistent d
    → pciedev_remove_exp p d ≡ returned r (e, slot)
    → IsConsistent (forget_device p e)
remove-IsConsistent d e p slot v h = elim (remove_cases p d e slot h) [
  | inl (_, same) ↦ rw same (forget_device-IsConsistent d p v)
  | inr (i, b, null, has, at, at_null, gone) ↦
      rw gone (removed-IsConsistent d p i b null v has at at_null)
]
