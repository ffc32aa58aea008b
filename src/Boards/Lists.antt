-- ===== src/Boards/Lists.antt =====
-- The loops over the files of a board and over the boards.
use upciedev.Prelude.{
  ℕ, zero, suc, ◌≤◌, ◌<◌, ◌≡◌, refl, ◌∙◌, Bool, true, false, not, ◌&&◌, List, [], ◌∷◌, Option, none,
  some, ℤ, ◌==◌, ==_iff, length, get_elem?, if◌then◌else◌, Bool-cases, arith, inl, inr,
}
use upciedev.Device.{}
use upciedev.Kernel.{}
use upciedev.BoardInfo.{}
use upciedev.BoardInfo.Prj.{}
use upciedev.BoardInfo.Modules.{}
use upciedev.BoardInfo.Board.{}
use upciedev.Boards.{File, Board, assign, elem, increment}
use upciedev.Boards.Files.{without}
use upciedev.Boards.Probe.{first_unbound}
use upciedev.Boards.Remove.{redirect, redirect_file}

redirect_file_twice : (o : Option File) → redirect_file (redirect_file o) ≡ redirect_file o
redirect_file_twice none = refl
redirect_file_twice (some file) = refl

-- Exactly the files of the list are redirected.
pub redirect_lem :
    (files : List ℕ) (count : ℤ) (fs : ℕ → Option File) (g : ℕ)
    → (redirect files count fs).1 g ≡ (if elem g files then redirect_file (fs g) else fs g)
unfolding redirect
redirect_lem [] count fs g = refl
redirect_lem (f ∷ files) count fs g =
    let rest = redirect_lem files (increment count) (assign f (redirect_file (fs f)) fs) g in
    elim (Bool-cases (g == f)) [
      | inl same ↦
          let eq : g ≡ f = (==_iff g f).0 same in rest ∙ rw (same, ← eq) (both (elem g files))
      | inr other ↦ rest ∙ rw other refl
    ]
  where
    both :
        (b : Bool)
        → (if b then redirect_file (redirect_file (fs g)) else redirect_file (fs g))
          ≡ redirect_file (fs g)
    both true = redirect_file_twice (fs g)
    both false = refl

pub elem-without :
    (filp g : ℕ) (fs : List ℕ) → elem g (without filp fs) ≡ (not (g == filp) && elem g fs)
unfolding without
elem-without filp g [] = ground arith
elem-without filp g (f ∷ fs) = let ih = elem-without filp g fs in ground (arith, ih)

length-without_le : (filp : ℕ) (fs : List ℕ) → length (without filp fs) ≤ length fs
unfolding without
length-without_le filp [] = omega arith
length-without_le filp (f ∷ fs) = ground (arith, length-without_le filp fs)

pub length-without :
    (filp : ℕ) (fs : List ℕ) → elem filp fs ≡ true → length (without filp fs) < length fs
unfolding without
length-without filp [] e = cc
length-without filp (f ∷ fs) e = ground (arith, length-without_le filp fs, length-without filp fs)

pub first_unbound-free :
    (bs : List Board) (b : Board) → get_elem? bs (first_unbound bs) ≡ some b → b.binded ≡ false
unfolding first_unbound
first_unbound-free [] b e = cc
first_unbound-free (c ∷ bs) b e = elim (Bool-cases c.binded) [
  | inl bound ↦ first_unbound-free bs b (rw bound at e)
  | inr free ↦ let it : c ≡ b = cc in rw (← it) free
]

pub first_unbound-least :
    (bs : List Board) (j : ℕ) (b : Board)
    → j < first_unbound bs
    → get_elem? bs j ≡ some b
    → b.binded ≡ true
unfolding first_unbound
first_unbound-least [] j b low e = cc
first_unbound-least (c ∷ bs) zero b low e = elim (Bool-cases c.binded) [
  | inl bound ↦ let it : c ≡ b = cc in rw (← it) bound
  | inr free ↦ absurd (omega (arith, rw free at low))
]
first_unbound-least (c ∷ bs) (suc j) b low e = elim (Bool-cases c.binded) [
  | inl bound ↦ first_unbound-least bs j b (omega (arith, rw bound at low)) e
  | inr free ↦ absurd (omega (arith, rw free at low))
]
