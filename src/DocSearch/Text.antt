-- ===== src/DocSearch/Text.antt =====
-- The text functions of Doc/html/search/search.js. A JavaScript string is the list of its char
-- codes, each below 2 ^ 16.
use upciedev.Prelude.{
  ℕ, zero, suc, ◌+◌, ◌/◌, ◌%◌, Bool, true, false, ◌&&◌, ◌||◌, List, [], ◌∷◌, ◌++◌, ltb, leb, ◌==◌,
  if◌then◌else◌, length, take,
}
use mathlib.Core.List.{reverse}
use Prim.Native.String.{String}
use Prim.Native.Char.{code}

abbrev pub Text : Type 0
Text = List ℕ

-- The char codes of a literal.
abbrev pub codes : String → Text
codes String.[] = []
codes (String.◌∷◌ c s) = code c ∷ codes s

-- `c.match(/[a-z0-9]/)`
unfoldable pub is_plain : ℕ → Bool
is_plain c = (leb b'a' c && leb c b'z') || (leb b'0' c && leb c b'9')

unfoldable pub hex_digit : ℕ → ℕ
hex_digit d = if ltb d 10 then b'0' + d else 87 + d

-- `n.toString(16)` with at most `fuel` digits; a char code has four.
unfoldable pub to_hex : ℕ → ℕ → Text
to_hex zero n = []
to_hex (suc fuel) n =
    let rest = to_hex fuel (n / 16) in
    if ltb n 16 then hex_digit n ∷ [] else rest ++ hex_digit (n % 16) ∷ []

-- What one character adds to `result`.
unfoldable pub convert_char : ℕ → Text
unfolding is_plain to_hex hex_digit
convert_char cn =
    if is_plain cn
    then cn ∷ []
    else if ltb cn 16
    then b'_' ∷ b'0' ∷ to_hex 4 cn
    else b'_' ∷ to_hex 4 cn

-- The loop of `convertToId`.
unfoldable pub convert_loop : Text → Text → Text
convert_loop result [] = result
convert_loop result (c ∷ search) = convert_loop (result ++ convert_char c) search

unfoldable pub convert_to_id : Text → Text
unfolding convert_loop
convert_to_id search = convert_loop [] search

-- `toLowerCase()` on the letters that C identifiers are written in.
unfoldable pub lower_char : ℕ → ℕ
lower_char c = if leb b'A' c && leb c b'Z' then c + 32 else c

unfoldable pub to_lower_case : Text → Text
unfolding lower_char
to_lower_case [] = []
to_lower_case (c ∷ s) = lower_char c ∷ to_lower_case s

-- `replace(/^ +/, "")` and `replace(/ +$/, "")`
unfoldable pub strip_leading : Text → Text
strip_leading [] = []
strip_leading (c ∷ s) = if c == b' ' then strip_leading s else c ∷ s

unfoldable pub strip_trailing : Text → Text
unfolding strip_leading
strip_trailing s = reverse (strip_leading (reverse s))

-- `replace(/^sr\d*_/, '')`
strip_digits : Text → Text → Text
strip_digits whole [] = whole
strip_digits whole (c ∷ s) =
    if leb b'0' c && leb c b'9' then strip_digits whole s else if c == b'_' then s else whole

unfoldable pub strip_sr : Text → Text
unfolding strip_digits
strip_sr (s ∷ (r ∷ rest)) =
    if s == b's' && r == b'r' then strip_digits (s ∷ r ∷ rest) rest else s ∷ r ∷ rest
strip_sr s = s

-- `==` on strings.
unfoldable pub text_eq : Text → Text → Bool
text_eq [] [] = true
text_eq [] (c ∷ t) = false
text_eq (c ∷ s) [] = false
text_eq (c ∷ s) (d ∷ t) = c == d && text_eq s t

-- The test of a row: `search.length<=name.length && name.substr(0, search.length)==search`.
unfoldable pub row_matches : Text → Text → Bool
unfolding text_eq
row_matches search name =
    leb (length search) (length name) && text_eq (take (length search) name) search
