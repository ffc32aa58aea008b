-- ===== src/Boards/Consistent.antt =====
-- What holds of the table of boards between two calls.
use upciedev.Prelude.{
  ℕ, ◌+◌, ◌≤◌, ◌<◌, ◌≡◌, ◌≢◌, Bool, true, false, List, Option, none, some, ℤ, pos, negsuc, length,
  get_elem?, set, ◌==◌, ap, sym, ◌∙◌, inl, inr, get_elem?-set_cases, get_elem?-set_split,
}
use upciedev.Device.{IsDevice, number_of_bars}
use upciedev.Boards.{pciedev_nr_devs, number_of_slots, File, Board, Driver, elem}

-- Whether a file belongs to a board.
abbrev pub points : Option File → ℕ → Bool
points none i = false
points (some file) i = file.private_data == i

-- A count that is at least a number.
abbrev pub Covers : ℤ → ℕ → Type 0
Covers (pos r) n = n ≤ r
Covers (negsuc r) n = ⊥

-- Board `i`. The first 15 list the files that belong to them, and count at least these; a board whose
-- device is there is bound and has a slot; one whose device is not there has nothing mapped; and
-- the last board is the null device.
pub record IsBoard (open_files : ℕ → Option File) (i : ℕ) (b : Board) : Type 0 where
  pub device : IsDevice b.dev
  pub number : b.brd_num ≡ i
  pub bound : b.dev.dev_sts ≡ true → b.binded ≡ true
  pub in_slot : b.dev.dev_sts ≡ true → b.slot_num < number_of_slots
  pub unmapped :
      b.dev.dev_sts ≡ false → (j : ℕ) → j < number_of_bars → get_elem? b.dev.memmory_base j ≡ some 0
  pub listed : i < pciedev_nr_devs → (filp : ℕ) → elem filp b.files ≡ points (open_files filp) i
  pub counted : i < pciedev_nr_devs → Covers b.dev_file_ref (length b.files)
  pub null : i ≡ pciedev_nr_devs → (b.binded ≡ true) × (b.null_dev ≡ true) × (b.dev.dev_sts ≡ false)

-- All boards; a device that the kernel has given driver data is the one its board is bound to.
abbrev pub AllBoards : (ℕ → Option File) → List Board → Type 0
AllBoards open_files boards =
    (i : ℕ) (b : Board) → get_elem? boards i ≡ some b → IsBoard open_files i b

abbrev pub IsAttached : List Board → ℕ → ℕ → Type 0
IsAttached boards p i =
    (b : Board) × (get_elem? boards i ≡ some b)
    × (i < pciedev_nr_devs)
    × (b.dev.dev_sts ≡ true)
    × (b.pci_dev ≡ p)

pub record IsConsistent (d : Driver) : Type 0 where
  pub size : length d.boards ≡ pciedev_nr_devs + 1
  pub slots : length d.dev_phys_addresses ≡ number_of_slots
  pub boards : AllBoards d.open_files d.boards
  pub attached : (p i : ℕ) → d.drvdata p ≡ some i → IsAttached d.boards p i
  pub owned :
      (filp : ℕ) (file : File)
      → d.open_files filp ≡ some file
      → file.private_data < pciedev_nr_devs + 1

-- One board is replaced, and the files may change so that the other boards are still right.
pub set-AllBoards :
    (fs gs : ℕ → Option File) (bs : List Board) (i : ℕ) (b : Board)
    → AllBoards fs bs
    → IsBoard gs i b
    → ((j : ℕ) (c : Board) → i ≢ j → IsBoard fs j c → IsBoard gs j c)
    → AllBoards gs (set bs i b)
set-AllBoards fs gs bs i b all new others j c e = elim (get_elem?-set_cases bs i j b e) [
  | inl (same, it) ↦ rw (← same, it) new
  | inr (other, old) ↦ others j c other (all j c old)
]

-- A board is replaced by one that has the same device, and the device is still there.
pub set-IsAttached :
    (bs : List Board) (i : ℕ) (b c : Board) (p j : ℕ)
    → get_elem? bs i ≡ some b
    → c.dev.dev_sts ≡ b.dev.dev_sts
    → c.pci_dev ≡ b.pci_dev
    → IsAttached bs p j
    → IsAttached (set bs i c) p j
set-IsAttached bs i b c p j here sts pci (a, at, low, there, of) =
    elim (get_elem?-set_split bs i j c here at) [
      | inl (same, it, new) ↦ (
        c,
        new,
        low,
        sts ∙ ap (λ (x : Board). x.dev.dev_sts) (sym it) ∙ there,
        pci ∙ ap (λ (x : Board). x.pci_dev) (sym it) ∙ of,
      )
      | inr (other, old) ↦ (a, old, low, there, of)
    ]

-- A board is replaced that no device is attached to, or not this one.
pub set-IsAttached_other :
    (bs : List Board) (i : ℕ) (b c : Board) (p j : ℕ)
    → get_elem? bs i ≡ some b
    → ¬ ((b.dev.dev_sts ≡ true) × (b.pci_dev ≡ p))
    → IsAttached bs p j
    → IsAttached (set bs i c) p j
set-IsAttached_other bs i b c p j here absent (a, at, low, there, of) =
    elim (get_elem?-set_split bs i j c here at) [
      | inl (same, it, new) ↦ absurd (
          absent (
            ap (λ (x : Board). x.dev.dev_sts) (sym it) ∙ there,
            ap (λ (x : Board). x.pci_dev) (sym it) ∙ of,
          ))
      | inr (other, old) ↦ (a, old, low, there, of)
    ]
