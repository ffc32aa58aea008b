-- ===== src/Boards/Kept.antt =====
-- What the proofs that the table of boards stays right share.
pub mod OnStart
pub mod OnFiles
pub mod Unbound
pub mod OnProbe
pub mod OnRemove
use upciedev.Prelude.{
  ℕ, zero, suc, ◌≤◌, ◌<◌, ◌≡◌, ◌≢◌, refl, sym, ◌∙◌, Bool, true, false, Option, none, some, ℤ, pos,
  negsuc, if◌then◌else◌, arith, ◌⊎◌, inl, inr, ◌==◌, ==_iff, Bool-cases,
}
use upciedev.Boards.{
  pciedev_nr_devs, File, Board, Run, returned, blocked, undefined, increment, decrement, assign,
}
use upciedev.Boards.Consistent.{points, Covers, IsBoard}

-- What an operation that has returned has found on its way.
pub found {ℓ κ} :
    {B : Type ℓ} {A : Type κ} (o : Option B) (f : B → Run A) {r : ℤ} {a : A}
    → elim o as (λ _. Run A) [ none ↦ undefined | some b ↦ f b ] ≡ returned r a
    → (b : B) × (o ≡ some b) × (f b ≡ returned r a)
found none f e = cc
found (some b) f e = (b, refl, e)

pub looked_up {ℓ κ} :
    {B : Type ℓ} {A : Type κ} (o : Option B) (x : A) (f : B → A) {a : A}
    → elim o as (λ _. A) [ none ↦ x | some b ↦ f b ] ≡ a
    → ((o ≡ none) × (x ≡ a)) ⊎ ((b : B) × (o ≡ some b) × (f b ≡ a))
looked_up none x f e = inl (refl, e)
looked_up (some b) x f e = inr (b, refl, e)

pub if_cases {ℓ} :
    {A : Type ℓ} (c : Bool) (x y : A) {z : A}
    → (if c then x else y) ≡ z
    → ((c ≡ true) × (x ≡ z)) ⊎ ((c ≡ false) × (y ≡ z))
if_cases true x y e = inl (refl, e)
if_cases false x y e = inr (refl, e)

pub unblocked {ℓ} :
    {A : Type ℓ} (held : Bool) (run : Run A) {r : ℤ} {a : A}
    → (if held then blocked else run) ≡ returned r a
    → (held ≡ false) × (run ≡ returned r a)
unblocked true run e = cc
unblocked false run e = (refl, e)

pub result {ℓ} : {A : Type ℓ} {r s : ℤ} {a b : A} → returned r a ≡ returned s b → a ≡ b
result e = cc

-- A board that is left alone while the files of others change.
pub IsBoard-files :
    (fs gs : ℕ → Option File) (j : ℕ) (c : Board)
    → (j < pciedev_nr_devs → (g : ℕ) → points (gs g) j ≡ points (fs g) j)
    → IsBoard fs j c
    → IsBoard gs j c
IsBoard-files fs gs j c same h = record {
  device = h.device;
  number = h.number;
  bound = h.bound;
  in_slot = h.in_slot;
  unmapped = h.unmapped;
  listed = λ low g. h.listed low g ∙ sym (same low g);
  counted = h.counted;
  null = h.null;
}

pub Covers-increment : (r : ℤ) (n : ℕ) → Covers r n → Covers (increment r) (suc n)
Covers-increment (pos r) n h = omega arith
Covers-increment (negsuc r) n h = absurd h

pub Covers-decrement : (r : ℤ) (m n : ℕ) → m < n → Covers r n → Covers (decrement r) m
Covers-decrement (pos zero) m n low h = absurd (omega arith)
Covers-decrement (pos (suc r)) m n low h = omega arith
Covers-decrement (negsuc r) m n low h = absurd h

pub Covers-zero : (r : ℤ) (n : ℕ) → Covers r n → Covers r 0
Covers-zero (pos r) n h = omega arith
Covers-zero (negsuc r) n h = absurd h

-- What a map with a new entry holds.
pub assign_cases {ℓ} :
    {A : Type ℓ} (key : ℕ) (v : Option A) (m : ℕ → Option A) (x : ℕ) {a : A}
    → assign key v m x ≡ some a
    → ((x ≡ key) × (v ≡ some a)) ⊎ ((x ≢ key) × (m x ≡ some a))
assign_cases key v m x e = elim (Bool-cases (x == key)) [
  | inl same ↦ inl ((==_iff x key).0 same, rw same at e)
  | inr other ↦ inr (λ h. absurd (let yes = (==_iff x key).1 h in cc), rw other at e)
]
