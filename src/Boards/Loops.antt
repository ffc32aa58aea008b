-- ===== src/Boards/Loops.antt =====
-- The loops over BARs, in the functions that change the table of boards.
use upciedev.Prelude.{
  ℕ, zero, suc, ◌+◌, ◌*◌, ◌≤◌, ◌<◌, ◌≡◌, refl, ap, ◌∙◌, true, false, List, [], ◌∷◌, some, ◌==◌,
  ==_iff, length, length-set, get_elem?, set, Bool-cases, arith, inl, inr, get_elem?-set_self,
  get_elem?-in_range,
}
use upciedev.Device.{}
use upciedev.Kernel.{}
use upciedev.BoardInfo.{}
use upciedev.BoardInfo.Prj.{}
use upciedev.BoardInfo.Modules.{}
use upciedev.BoardInfo.Board.{}
use upciedev.Boards.{Board, BarAddress}
use upciedev.Boards.Files.{}
use upciedev.Boards.Probe.{PciDevice, setup_bar, setup_bars}
use upciedev.Boards.Remove.{unmap_bar, unmap_bars}

-- What a loop over the BARs leaves alone: the sizes of the arrays, and the rest of the board.
pub record KeepsBoard (b c : Board) : Type 0 where
  pub starts : length c.dev.mem_base ≡ length b.dev.mem_base
  pub ends : length c.dev.mem_base_end ≡ length b.dev.mem_base_end
  pub mapped : length c.dev.memmory_base ≡ length b.dev.memmory_base
  pub sts : c.dev.dev_sts ≡ b.dev.dev_sts
  pub size : c.dev.register_size ≡ b.dev.register_size
  pub number : c.brd_num ≡ b.brd_num
  pub files : c.files ≡ b.files
  pub refs : c.dev_file_ref ≡ b.dev_file_ref
  pub bound : c.binded ≡ b.binded
  pub null : c.null_dev ≡ b.null_dev
  pub slot : c.slot_num ≡ b.slot_num
  pub pci : c.pci_dev ≡ b.pci_dev
  pub mutex : c.dev_mut ≡ b.dev_mut

KeepsBoard-refl : (b : Board) → KeepsBoard b b
KeepsBoard-refl b = record {
  starts = refl;
  ends = refl;
  mapped = refl;
  sts = refl;
  size = refl;
  number = refl;
  files = refl;
  refs = refl;
  bound = refl;
  null = refl;
  slot = refl;
  pci = refl;
  mutex = refl;
}

KeepsBoard-trans : (a b c : Board) → KeepsBoard a b → KeepsBoard b c → KeepsBoard a c
KeepsBoard-trans a b c h g = record {
  starts = g.starts ∙ h.starts;
  ends = g.ends ∙ h.ends;
  mapped = g.mapped ∙ h.mapped;
  sts = g.sts ∙ h.sts;
  size = g.size ∙ h.size;
  number = g.number ∙ h.number;
  files = g.files ∙ h.files;
  refs = g.refs ∙ h.refs;
  bound = g.bound ∙ h.bound;
  null = g.null ∙ h.null;
  slot = g.slot ∙ h.slot;
  pci = g.pci ∙ h.pci;
  mutex = g.mutex ∙ h.mutex;
}

pub setup_bars-KeepsBoard :
    (pci : PciDevice) (n i to_add : ℕ) (b : Board) (bars : List BarAddress)
    → KeepsBoard b (setup_bars pci n i to_add b bars).0
unfolding setup_bars setup_bar
setup_bars-KeepsBoard pci zero i to_add b bars = KeepsBoard-refl b
setup_bars-KeepsBoard pci (suc n) i to_add b bars =
    KeepsBoard-trans b (setup_bar pci i to_add b bars).0 _
      (record {
        starts = length-set _ i _;
        ends = length-set _ i _;
        mapped = length-set _ i _;
        sts = refl;
        size = refl;
        number = refl;
        files = refl;
        refs = refl;
        bound = refl;
        null = refl;
        slot = refl;
        pci = refl;
        mutex = refl;
      })
      (setup_bars-KeepsBoard pci n (suc i) (to_add * 2) _ _)

zeros-set : (xs : List ℕ) (i j : ℕ) → get_elem? xs j ≡ some 0 → get_elem? (set xs i 0) j ≡ some 0
zeros-set [] i j e = e
zeros-set (x ∷ xs) zero zero e = refl
zeros-set (x ∷ xs) zero (suc j) e = e
zeros-set (x ∷ xs) (suc i) zero e = e
zeros-set (x ∷ xs) (suc i) (suc j) e = zeros-set xs i j e

abbrev pub IsUnmapped : Board → ℕ → Type 0
IsUnmapped b j = get_elem? b.dev.memmory_base j ≡ some 0

abbrev unmapped_at : ℕ → Board → Board
unmapped_at i b = record b {
  dev = record b.dev {
    memmory_base = set b.dev.memmory_base i 0;
    mem_base = set b.dev.mem_base i 0;
    mem_base_end = set b.dev.mem_base_end i 0;
  };
  mem_base_flag = set b.mem_base_flag i 0;
  rw_off = set b.rw_off i 0;
}

unmapped_at-KeepsBoard : (i : ℕ) (b : Board) → KeepsBoard b (unmapped_at i b)
unmapped_at-KeepsBoard i b = record {
  starts = length-set _ i _;
  ends = length-set _ i _;
  mapped = length-set _ i _;
  sts = refl;
  size = refl;
  number = refl;
  files = refl;
  refs = refl;
  bound = refl;
  null = refl;
  slot = refl;
  pci = refl;
  mutex = refl;
}

unmap_bar-used :
    (i a : ℕ) (b : Board)
    → get_elem? b.dev.memmory_base i ≡ some a
    → (a == 0) ≡ false
    → unmap_bar i b ≡ unmapped_at i b
unfolding unmap_bar
unmap_bar-used i a b at used = rw (at, unmap_bar) (rw used refl)

unmap_bar-free :
    (i a : ℕ) (b : Board)
    → get_elem? b.dev.memmory_base i ≡ some a
    → (a == 0) ≡ true
    → unmap_bar i b ≡ b
unfolding unmap_bar
unmap_bar-free i a b at free = rw (at, unmap_bar) (rw free refl)

-- A round that unmaps a BAR: nothing is mapped there any more, and elsewhere nothing new is.
abbrev IsRound : ℕ → Board → Board → Type 0
IsRound i b c = KeepsBoard b c × IsUnmapped c i × ((j : ℕ) → IsUnmapped b j → IsUnmapped c j)

unmap_bar-IsRound :
    (i : ℕ) (b : Board) → i < length b.dev.memmory_base → IsRound i b (unmap_bar i b)
unmap_bar-IsRound i b inside =
    let (a, at) = get_elem?-in_range b.dev.memmory_base i inside in
    elim (Bool-cases (a == 0)) [
      | inl zero_there ↦
          let it : a ≡ 0 = (==_iff a 0).0 zero_there in
          rw (unmap_bar-free i a b at zero_there) (KeepsBoard-refl b, at ∙ ap some it, λ j h. h)
      | inr used ↦ rw (unmap_bar-used i a b at used) (
        unmapped_at-KeepsBoard i b,
        get_elem?-set_self _ i 0 inside,
        zeros-set b.dev.memmory_base i,
      )
    ]

-- The whole loop: from BAR `i` on, `n` BARs are unmapped.
pub unmap_bars_lem :
    (n i : ℕ) (b : Board)
    → i + n ≤ length b.dev.memmory_base
    → KeepsBoard b (unmap_bars n i b)
      × ((j : ℕ) → IsUnmapped b j → IsUnmapped (unmap_bars n i b) j)
      × ((j : ℕ) → i ≤ j → j < i + n → IsUnmapped (unmap_bars n i b) j)
unfolding unmap_bars
unmap_bars_lem zero i b inside =
    (KeepsBoard-refl b, λ j h. h, λ j (low : i ≤ j) (high : j < i + 0). absurd (omega arith))
unmap_bars_lem (suc n) i b inside =
    let (keeps, here, elsewhere) = unmap_bar-IsRound i b (omega arith) in
    let (keeps', elsewhere', there) =
      unmap_bars_lem n (suc i) (unmap_bar i b) (omega (arith, keeps.mapped)) in
    (
      KeepsBoard-trans b (unmap_bar i b) _ keeps keeps',
      λ j h. elsewhere' j (elsewhere j h),
      λ j (low : i ≤ j) (high : j < i + suc n). elim (Bool-cases (j == i)) [
        | inl same ↦ let it : j ≡ i = (==_iff j i).0 same in elsewhere' j (rw it here)
        | inr other ↦ let above : suc i ≤ j = ground arith in there j above (omega arith)
      ],
    )
