-- ===== src/Boards/Kept/OnStart.antt =====
-- The table of boards is right when the driver has started.
use upciedev.Prelude.{
  ℕ, zero, suc, ◌+◌, ◌<◌, ◌≡◌, refl, sym, ap, ◌∙◌, Bool, true, List, [], ◌∷◌, ◌++◌, none, some, ℤ,
  ◌==◌, length, length-append, get_elem?, replicate, arith, ◌⊎◌, inl, inr,
}
use upciedev.Device.{number_of_bars}
use upciedev.Boards.{pciedev_nr_devs, Board, Driver, is_zero}
use upciedev.Boards.Init.{init_board, init_boards, driver_with, ready, upciedev_init_module_exp}
use upciedev.Boards.Consistent.{IsBoard, AllBoards, IsConsistent}
use upciedev.Boards.Kept.{if_cases}

get_elem?-snoc {ℓ} :
    {A : Type ℓ} (xs : List A) (x : A) (j : ℕ) {c : A}
    → get_elem? (xs ++ (x ∷ [])) j ≡ some c
    → (get_elem? xs j ≡ some c) ⊎ ((j ≡ length xs) × (c ≡ x))
get_elem?-snoc [] x zero e = inr (refl, cc)
get_elem?-snoc [] x (suc j) e = cc
get_elem?-snoc (y ∷ ys) x zero e = inl e
get_elem?-snoc (y ∷ ys) x (suc j) e = elim (get_elem?-snoc ys x j e) [
  | inl there ↦ inl there
  | inr (last, it) ↦ inr (ap suc last, it)
]

zeros : (n j : ℕ) → j < n → get_elem? {A = ℕ} (replicate n 0) j ≡ some 0
zeros zero j h = absurd (omega arith)
zeros (suc n) zero h = refl
zeros (suc n) (suc j) h = zeros n j (omega arith)

pub init_board-IsBoard : (i : ℕ) → IsBoard (λ f. none) i (init_board i)
unfolding init_board
init_board-IsBoard i = record {
  device = record { starts = refl; ends = refl; mapped = refl; known_size = omega arith };
  number = refl;
  bound = λ e. cc;
  in_slot = λ e. cc;
  unmapped = λ e j inside. zeros number_of_bars j inside;
  listed = λ low g. refl;
  counted = λ low. omega arith;
  null = λ last. let yes : (i == pciedev_nr_devs) ≡ true = ground arith in (yes, yes, refl);
}

driver_of_ready : {a b : Driver} → ready a ≡ ready b → a ≡ b
driver_of_ready e = cc

init_boards-lem :
    (kzalloc : ℕ → Bool) (cdev_add : ℕ → ℤ) (n i : ℕ) (made : List Board) (d : Driver)
    → length made ≡ i
    → AllBoards (λ f. none) made
    → init_boards kzalloc cdev_add n i made ≡ ready d
    → (boards : List Board) × (d ≡ driver_with boards)
      × (length boards ≡ n + i)
      × AllBoards (λ f. none) boards
unfolding init_boards
init_boards-lem kzalloc cdev_add zero i made d l all e =
    (made, sym (driver_of_ready e), omega (arith, l), all)
init_boards-lem kzalloc cdev_add (suc n) i made d l all e = elim (if_cases (kzalloc i) _ _ e) [
  | inl (_, e1) ↦ elim (if_cases (is_zero (cdev_add i)) _ _ e1) [
    | inl (_, e2) ↦
        let (boards, it, size, right) =
          init_boards-lem kzalloc cdev_add n (suc i) (made ++ (init_board i ∷ [])) d
            (length-append made (init_board i ∷ []) ∙ omega (arith, l))
            (λ j c at. elim (get_elem?-snoc made (init_board i) j at) [
              | inl there ↦ all j c there
              | inr (last, new) ↦ rw (new, last, l) (init_board-IsBoard i)
            ])
            e2 in
        (boards, it, omega (arith, size), right)
    | inr (_, e2) ↦ cc
  ]
  | inr (_, e1) ↦ cc
]

pub start-IsConsistent :
    (kzalloc : ℕ → Bool) (cdev_add : ℕ → ℤ) (d : Driver)
    → upciedev_init_module_exp kzalloc cdev_add ≡ ready d
    → IsConsistent d
unfolding upciedev_init_module_exp
start-IsConsistent kzalloc cdev_add d e =
    let (boards, it, size, all) =
      init_boards-lem kzalloc cdev_add (pciedev_nr_devs + 1) 0 [] d refl (λ j c h. cc) e in
    rw it record {
      size = size;
      slots = refl;
      boards = all;
      attached = λ p i h. cc;
      owned = λ filp file h. cc;
    }
