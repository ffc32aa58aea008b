-- ===== src/Boards/Kept/OnFiles.antt =====
-- Opening and closing files keeps the table of boards right.
use upciedev.Prelude.{
  ℕ, ◌≡◌, ◌≢◌, refl, sym, ap, ◌∙◌, Bool, true, false, ◌∷◌, Option, none, some, ℤ, pos, ◌==◌, ==_iff,
  length, length-set, get_elem?, if◌then◌else◌, Bool-cases, arith, inl, inr,
  get_elem?-some_in_range,
}
use upciedev.DeviceFile.{pcied_fpos}
use upciedev.Boards.{File, Board, Driver, returned, undefined, assign, increment, decrement}
use upciedev.Boards.Files.{opened, without, pciedev_open_exp, pciedev_release_exp}
use upciedev.Boards.Steps.{forget_file}
use upciedev.Boards.Consistent.{points, IsBoard, IsConsistent, set-AllBoards, set-IsAttached}
use upciedev.Boards.Lists.{elem-without, length-without}
use upciedev.Boards.Kept.{
  found, unblocked, result, IsBoard-files, assign_cases, Covers-increment, Covers-decrement,
}

==-refl : (n : ℕ) → (n == n) ≡ true
==-refl n = ground arith

==-other : {m n : ℕ} → m ≢ n → (m == n) ≡ false
==-other ne = ground arith

-- A file that one board gains or loses is none of another board's.
points_other :
    (fs : ℕ → Option File) (o : Option File) (filp j g : ℕ)
    → points o j ≡ points (fs filp) j
    → points (assign filp o fs g) j ≡ points (fs g) j
points_other fs o filp j g e = elim (Bool-cases (g == filp)) [
  | inl same ↦ rw same (e ∙ ap (λ (x : ℕ). points (fs x) j) (sym ((==_iff g filp).0 same)))
  | inr other ↦ rw other refl
]

abbrev file_on : ℕ → Option File
file_on i = some (record { private_data = i; f_pos = pcied_fpos })

abbrev owner : Option File → ℕ
owner none = 0
owner (some file) = file.private_data

opened-IsBoard :
    (fs : ℕ → Option File) (i filp : ℕ) (b : Board)
    → IsBoard fs i b
    → IsBoard (assign filp (file_on i) fs) i (record b {
      dev_minor = i;
      dev_file_ref = increment b.dev_file_ref;
      files = filp ∷ b.files;
    })
opened-IsBoard fs i filp b h = record {
  device = h.device;
  number = h.number;
  bound = h.bound;
  in_slot = h.in_slot;
  unmapped = h.unmapped;
  listed = λ low g. elim (Bool-cases (g == filp)) [
    | inl same ↦ rw (same, ==-refl i) refl
    | inr other ↦ rw other (h.listed low g)
  ];
  counted = λ low. Covers-increment b.dev_file_ref (length b.files) (h.counted low);
  null = h.null;
}

pub open-IsConsistent :
    (d d' : Driver) (i filp : ℕ) (kzalloc : Bool) {r : ℤ}
    → IsConsistent d
    → d.open_files filp ≡ none
    → pciedev_open_exp i filp kzalloc d ≡ returned r d'
    → IsConsistent d'
unfolding pciedev_open_exp
open-IsConsistent d d' i filp kzalloc v fresh e =
    let (b, at, e1) = found (get_elem? d.boards i) _ e in
    let (free, e2) = unblocked b.dev_mut _ e1 in rw (← made kzalloc b e2) (opened-IsConsistent b at)
  where
    made :
        (m : Bool) (b : Board) {r : ℤ}
        → (if m then returned (pos 0) (opened i filp b d) else undefined) ≡ returned r d'
        → opened i filp b d ≡ d'
    made true b e = cc
    made false b e = cc

    opened-IsConsistent :
        (b : Board) → get_elem? d.boards i ≡ some b → IsConsistent (opened i filp b d)
    opened-IsConsistent b at = record {
      size = length-set d.boards i _ ∙ v.size;
      slots = v.slots;
      boards =
          set-AllBoards d.open_files (assign filp (file_on i) d.open_files) d.boards i _ v.boards
            (opened-IsBoard d.open_files i filp b (v.boards i b at))
            λ j c other h.
              IsBoard-files d.open_files _ j c
                (λ low g.
                  points_other d.open_files (file_on i) filp j g
                    (==-other other ∙ ap (λ (o : Option File). points o j) (sym fresh)))
                h;
      attached = λ p j e. set-IsAttached d.boards i b _ p j at refl refl (v.attached p j e);
      owned = λ g file e. elim (assign_cases filp (file_on i) d.open_files g e) [
        | inl (same, it) ↦
            let here : i ≡ file.private_data = ap owner it in
            rw (← here) (rw v.size at (get_elem?-some_in_range d.boards i b at))
        | inr (other, it) ↦ v.owned g file it
      ];
    }

released-IsBoard :
    (fs : ℕ → Option File) (filp : ℕ) (file : File) (b : Board)
    → fs filp ≡ some file
    → IsBoard fs file.private_data b
    → IsBoard
        (assign filp none fs)
        file.private_data
        (record b { dev_file_ref = decrement b.dev_file_ref; files = without filp b.files })
released-IsBoard fs filp file b is h = record {
  device = h.device;
  number = h.number;
  bound = h.bound;
  in_slot = h.in_slot;
  unmapped = h.unmapped;
  listed = λ low g. elem-without filp g b.files ∙ elim (Bool-cases (g == filp)) [
    | inl same ↦ rw same refl
    | inr other ↦ rw other (h.listed low g)
  ];
  counted = λ low.
      Covers-decrement b.dev_file_ref _ (length b.files)
        (length-without filp b.files (h.listed low filp ∙ rw is (==-refl file.private_data)))
        (h.counted low);
  null = h.null;
}

pub close-IsConsistent :
    (d d' : Driver) (filp : ℕ) {r : ℤ}
    → IsConsistent d
    → pciedev_release_exp filp d ≡ returned r d'
    → IsConsistent (forget_file filp d')
unfolding pciedev_release_exp
close-IsConsistent d d' filp v e =
    let (file, is, e1) = found (d.open_files filp) _ e in
    let (b, at, e2) = found (get_elem? d.boards file.private_data) _ e1 in
    let (free, e3) = unblocked b.dev_mut _ e2 in
    rw (← result e3) record {
      size = length-set d.boards file.private_data _ ∙ v.size;
      slots = v.slots;
      boards =
          set-AllBoards d.open_files (assign filp none d.open_files) d.boards file.private_data _
            v.boards
            (released-IsBoard d.open_files filp file b is (v.boards file.private_data b at))
            λ j c other h.
              IsBoard-files d.open_files _ j c
                (λ low g.
                  points_other d.open_files none filp j g
                    (sym (ap (λ (o : Option File). points o j) is ∙ ==-other other)))
                h;
      attached = λ p j e.
          set-IsAttached d.boards file.private_data b _ p j at refl refl (v.attached p j e);
      owned = λ g other e. elim (assign_cases filp none d.open_files g e) [
        | inl (same, it) ↦ cc
        | inr (differs, it) ↦ v.owned g other it
      ];
    }
