-- ===== src/Prelude/Lists.antt =====
-- Lists measured and indexed by native numbers, under the library's names.
use Prim.Native.Nat.{ℕ, zero, suc, ◌+◌, ◌<◌}
use mathlib.Core.Path.{◌≡◌, refl, ap}
use mathlib.Core.Logic.{◌≢◌, ◌⊎◌, inl, inr}
use mathlib.Core.List.{List, [], ◌∷◌, ◌++◌, map}
use mathlib.Core.Option.{Option, none, some}
use native.Mathlib.Omega.{arith}

module _ {ℓ} {A : Type ℓ} where
  abbrev pub length : List A → ℕ
  length [] = 0
  length (x ∷ xs) = suc (length xs)

  abbrev pub get_elem? : List A → ℕ → Option A
  get_elem? [] i = none
  get_elem? (x ∷ xs) zero = some x
  get_elem? (x ∷ xs) (suc i) = get_elem? xs i

  -- A write out of bounds changes nothing.
  abbrev pub set : List A → ℕ → A → List A
  set [] i v = []
  set (x ∷ xs) zero v = v ∷ xs
  set (x ∷ xs) (suc i) v = x ∷ set xs i v

  abbrev pub replicate : ℕ → A → List A
  replicate zero a = []
  replicate (suc n) a = a ∷ replicate n a

  abbrev pub take : ℕ → List A → List A
  take zero xs = []
  take (suc n) [] = []
  take (suc n) (x ∷ xs) = x ∷ take n xs

  abbrev pub drop : ℕ → List A → List A
  drop zero xs = xs
  drop (suc n) [] = []
  drop (suc n) (x ∷ xs) = drop n xs

  pub length-append : (xs ys : List A) → length (xs ++ ys) ≡ length xs + length ys
  length-append [] ys = omega arith
  length-append (x ∷ xs) ys = omega (arith, length-append xs ys)

  pub length-set : (xs : List A) (i : ℕ) (v : A) → length (set xs i v) ≡ length xs
  length-set [] i v = refl
  length-set (x ∷ xs) zero v = refl
  length-set (x ∷ xs) (suc i) v = ap suc (length-set xs i v)

  pub get_elem?-set_self :
      (xs : List A) (i : ℕ) (v : A) → i < length xs → get_elem? (set xs i v) i ≡ some v
  get_elem?-set_self [] i v h = absurd (omega arith)
  get_elem?-set_self (x ∷ xs) zero v h = refl
  get_elem?-set_self (x ∷ xs) (suc i) v h = get_elem?-set_self xs i v (omega arith)

  pub get_elem?-set_ne :
      (xs : List A) (i j : ℕ) (v : A) → i ≢ j → get_elem? (set xs i v) j ≡ get_elem? xs j
  get_elem?-set_ne [] i j v ne = refl
  get_elem?-set_ne (x ∷ xs) zero zero v ne = absurd (ne refl)
  get_elem?-set_ne (x ∷ xs) zero (suc j) v ne = refl
  get_elem?-set_ne (x ∷ xs) (suc i) zero v ne = refl
  get_elem?-set_ne (x ∷ xs) (suc i) (suc j) v ne = get_elem?-set_ne xs i j v (λ e. ne (ap suc e))

  -- An index is in range exactly when there is an element.
  pub get_elem?-in_range :
      (xs : List A) (i : ℕ) → i < length xs → (a : A) × (get_elem? xs i ≡ some a)
  get_elem?-in_range [] i h = absurd (omega arith)
  get_elem?-in_range (x ∷ xs) zero h = (x, refl)
  get_elem?-in_range (x ∷ xs) (suc i) h = get_elem?-in_range xs i (omega arith)

  pub get_elem?-out_of_range : (xs : List A) (i : ℕ) → ¬ (i < length xs) → get_elem? xs i ≡ none
  get_elem?-out_of_range [] i h = refl
  get_elem?-out_of_range (x ∷ xs) zero h = absurd (h (omega arith))
  get_elem?-out_of_range (x ∷ xs) (suc i) h =
      get_elem?-out_of_range xs i (λ (l : i < length xs). h (omega arith))

pub get_elem?-map {ℓ κ} :
    {A : Type ℓ} {B : Type κ} (f : A → B) (xs : List A) (i : ℕ) {a : A}
    → get_elem? xs i ≡ some a
    → get_elem? (map f xs) i ≡ some (f a)
get_elem?-map f [] i h = cc
get_elem?-map f (x ∷ xs) zero h = cc
get_elem?-map f (x ∷ xs) (suc i) h = get_elem?-map f xs i h

pub get_elem?-some_in_range {ℓ} :
    {A : Type ℓ} (xs : List A) (i : ℕ) (v : A) → get_elem? xs i ≡ some v → i < length xs
get_elem?-some_in_range [] i v e = cc
get_elem?-some_in_range (x ∷ xs) zero v e = omega arith
get_elem?-some_in_range (x ∷ xs) (suc i) v e = omega (arith, get_elem?-some_in_range xs i v e)

-- Of two writes to one place the second stays, and a write of what is there changes nothing.
pub set-set {ℓ} : {A : Type ℓ} (xs : List A) (i : ℕ) (u v : A) → set (set xs i u) i v ≡ set xs i v
set-set [] i u v = refl
set-set (x ∷ xs) zero u v = refl
set-set (x ∷ xs) (suc i) u v = ap (λ ys. x ∷ ys) (set-set xs i u v)

pub set-get_elem? {ℓ} :
    {A : Type ℓ} (xs : List A) (i : ℕ) (v : A) → get_elem? xs i ≡ some v → set xs i v ≡ xs
set-get_elem? [] i v e = refl
set-get_elem? (x ∷ xs) zero v e = let same : x ≡ v = cc in rw same
set-get_elem? (x ∷ xs) (suc i) v e = ap (λ ys. x ∷ ys) (set-get_elem? xs i v e)

-- What stands at an index of a list with a new entry: the entry, or what stood there.
pub get_elem?-set_cases {ℓ} :
    {A : Type ℓ} (xs : List A) (i j : ℕ) (v : A) {c : A}
    → get_elem? (set xs i v) j ≡ some c
    → ((i ≡ j) × (c ≡ v)) ⊎ ((i ≢ j) × (get_elem? xs j ≡ some c))
get_elem?-set_cases [] i j v e = cc
get_elem?-set_cases (x ∷ xs) zero zero v e = inl (refl, cc)
get_elem?-set_cases (x ∷ xs) zero (suc j) v e = inr (λ (h : 0 ≡ suc j). omega arith, e)
get_elem?-set_cases (x ∷ xs) (suc i) zero v e = inr (λ (h : suc i ≡ 0). omega arith, e)
get_elem?-set_cases (x ∷ xs) (suc i) (suc j) v e = elim (get_elem?-set_cases xs i j v e) [
  | inl (same, new) ↦ inl (ap suc same, new)
  | inr (other, old) ↦ inr (λ (h : suc i ≡ suc j). other (omega arith), old)
]

pub get_elem?-set_split {ℓ} :
    {A : Type ℓ} (xs : List A) (i j : ℕ) (v : A) {a b : A}
    → get_elem? xs i ≡ some b
    → get_elem? xs j ≡ some a
    → ((i ≡ j) × (a ≡ b) × (get_elem? (set xs i v) j ≡ some v))
      ⊎ ((i ≢ j) × (get_elem? (set xs i v) j ≡ some a))
get_elem?-set_split [] i j v here there = cc
get_elem?-set_split (x ∷ xs) zero zero v here there = inl (refl, cc, refl)
get_elem?-set_split (x ∷ xs) zero (suc j) v here there = inr (λ (h : 0 ≡ suc j). omega arith, there)
get_elem?-set_split (x ∷ xs) (suc i) zero v here there = inr (λ (h : suc i ≡ 0). omega arith, there)
get_elem?-set_split (x ∷ xs) (suc i) (suc j) v here there =
    elim (get_elem?-set_split xs i j v here there) [
      | inl (same, a, new) ↦ inl (ap suc same, a, new)
      | inr (other, old) ↦ inr (λ (h : suc i ≡ suc j). other (omega arith), old)
    ]
