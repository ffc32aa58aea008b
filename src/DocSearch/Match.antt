-- ===== src/DocSearch/Match.antt =====
-- `convertToId` and the test of a row (Doc/html/search/search.js): the rows shown are those whose
-- name begins with the word that is looked for.
use upciedev.Prelude.{
  ℕ, ◌/◌, ◌%◌, ◌<◌, Bool, true, false, ◌&&◌, [], ◌∷◌, ◌++◌, ◌==◌, if◌then◌else◌, ◌≡◌, refl, ◌∙◌,
  sym, ap, arith, Bool-cases, inl, inr,
}
use mathlib.Core.List.{append_assoc, append-nil}
use upciedev.DocSearch.Text.{
  Text, lower_char, to_lower_case, is_plain, hex_digit, convert_char, convert_loop, convert_to_id,
  row_matches,
}

-- `s` is the beginning of `t`.
abbrev pub is_prefix : Text → Text → Bool
is_prefix [] t = true
is_prefix (c ∷ s) [] = false
is_prefix (c ∷ s) (d ∷ t) = c == d && is_prefix s t

row_matches-eq-is_prefix : (s t : Text) → row_matches s t ≡ is_prefix s t
unfolding row_matches
row_matches-eq-is_prefix [] t = ground arith
row_matches-eq-is_prefix (c ∷ s) [] = ground arith
row_matches-eq-is_prefix (c ∷ s) (d ∷ t) = ground (arith, row_matches-eq-is_prefix s t)

-- All characters have one byte.
abbrev pub IsBytes : Text → Type 0
IsBytes [] = Unit
IsBytes (c ∷ s) = (c < 256) × IsBytes s

convert_loop-append : (r s : Text) → convert_loop r s ≡ r ++ convert_loop [] s
unfolding convert_loop
convert_loop-append r [] = simp append-nil
convert_loop-append r (c ∷ s) =
    convert_loop-append (r ++ convert_char c) s
    ∙ append_assoc r (convert_char c) (convert_loop [] s)
    ∙ ap (λ t. r ++ t) (sym (convert_loop-append (convert_char c) s))

convert_char_byte :
    (c : ℕ)
    → c < 256
    → convert_char c
      ≡ (if is_plain c then c ∷ [] else b'_' ∷ hex_digit (c / 16) ∷ hex_digit (c % 16) ∷ [])
unfolding convert_char
convert_char_byte c h = ground arith

convert-cons : (c : ℕ) (s : Text) → convert_to_id (c ∷ s) ≡ convert_char c ++ convert_to_id s
unfolding convert_to_id
convert-cons c s = convert_loop-append (convert_char c) s

hex_digit-injective : (a b : ℕ) → a < 16 → b < 16 → hex_digit a ≡ hex_digit b → a ≡ b
unfolding hex_digit
hex_digit-injective a b h g e = ground arith

plain-ne : (c : ℕ) → is_plain c ≡ true → (c == b'_') ≡ false
unfolding is_plain
plain-ne c h = ground arith

-- The codes of characters are told apart at their first difference.
convert_char-is_prefix :
    (c d : ℕ) (s t : Text)
    → c < 256
    → d < 256
    → is_prefix (convert_char c ++ s) (convert_char d ++ t) ≡ (c == d && is_prefix s t)
convert_char-is_prefix c d s t hc hd =
    rw (convert_char_byte c hc, convert_char_byte d hd)
      (elim (Bool-cases (is_plain c)) [
        | inl p ↦ elim (Bool-cases (is_plain d)) [
          | inl q ↦ rw (p, q)
          | inr q ↦ rw (p, q) (ground (arith, plain-ne c p))
        ]
        | inr p ↦ elim (Bool-cases (is_plain d)) [
          | inl q ↦ rw (p, q) (ground (arith, plain-ne d q))
          | inr q ↦
              rw (p, q)
                (ground (
                  arith,
                  hex_digit-injective (c / 16) (d / 16),
                  hex_digit-injective (c % 16) (d % 16),
                ))
        ]
      ])

pub convert-nil : convert_to_id [] ≡ []
unfolding convert_to_id convert_loop
convert-nil = refl

convert_char-ne-nil : (c : ℕ) (s : Text) → c < 256 → is_prefix (convert_char c ++ s) [] ≡ false
convert_char-ne-nil c s h =
    rw (convert_char_byte c h) (elim (Bool-cases (is_plain c)) [ inl p ↦ rw p | inr p ↦ rw p ])

convert_to_id-is_prefix :
    (s t : Text)
    → IsBytes s
    → IsBytes t
    → is_prefix (convert_to_id s) (convert_to_id t) ≡ is_prefix s t
convert_to_id-is_prefix [] t hs ht = rw convert-nil
convert_to_id-is_prefix (c ∷ s) [] hs ht =
    rw (convert-cons c s, convert-nil) (convert_char-ne-nil c (convert_to_id s) hs.0)
convert_to_id-is_prefix (c ∷ s) (d ∷ t) hs ht =
    rw (convert-cons c s, convert-cons d t)
      (convert_char-is_prefix c d (convert_to_id s) (convert_to_id t) hs.0 ht.0
        ∙ ap (λ b. c == d && b) (convert_to_id-is_prefix s t hs.1 ht.1))

-- The ids of two words of one-byte characters begin alike exactly when the words do, so the ids
-- neither lose a difference between two words nor add a match.
pub convert_to_id-row_matches :
    (search name : Text)
    → IsBytes search
    → IsBytes name
    → row_matches (convert_to_id search) (convert_to_id name) ≡ is_prefix search name
convert_to_id-row_matches search name hs hn =
    row_matches-eq-is_prefix (convert_to_id search) (convert_to_id name)
    ∙ convert_to_id-is_prefix search name hs hn

-- An id is in lower case already.
lower_char-hex_digit : (d : ℕ) → d < 16 → lower_char (hex_digit d) ≡ hex_digit d
unfolding lower_char hex_digit
lower_char-hex_digit d h = ground arith

lower_char-plain : (c : ℕ) → is_plain c ≡ true → lower_char c ≡ c
unfolding lower_char is_plain
lower_char-plain c h = ground arith

lower-append : (s t : Text) → to_lower_case (s ++ t) ≡ to_lower_case s ++ to_lower_case t
unfolding to_lower_case
lower-append [] t = refl
lower-append (c ∷ s) t = ap (λ (r : Text). lower_char c ∷ r) (lower-append s t)

lower-convert_char : (c : ℕ) → c < 256 → to_lower_case (convert_char c) ≡ convert_char c
unfolding to_lower_case
lower-convert_char c h = rw (convert_char_byte c h) (elim (Bool-cases (is_plain c)) [
  | inl p ↦ rw p (rw (lower_char-plain c p))
  | inr p ↦ rw p (
      rw (lower_char-hex_digit (c / 16) (omega arith), lower_char-hex_digit (c % 16) (omega arith)))
])

pub lower-convert_to_id : (s : Text) → IsBytes s → to_lower_case (convert_to_id s) ≡ convert_to_id s
lower-convert_to_id [] h = rw convert-nil (unfold to_lower_case in refl)
lower-convert_to_id (c ∷ s) h =
    rw (convert-cons c s, lower-append, lower-convert_char c h.0, lower-convert_to_id s h.1)
