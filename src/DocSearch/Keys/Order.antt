-- ===== src/DocSearch/Keys/Order.antt =====
-- Where the arrow keys lead among the displayed rows (Doc/html/search/search.js).
use upciedev.Prelude.{
  ℕ, zero, suc, ◌+◌, ◌-◌, ◌≤◌, ◌<◌, true, false, List, length, get_elem?-out_of_range, Option, none,
  some, ◌≡◌, ◌≢◌, refl, sym, ap, subst, ◌∙◌, arith, inl, inr, Bool-cases, ◌==◌, if◌then◌else◌, ltb,
  ◌&&◌,
}
use upciedev.DocSearch.Keys.{
  Row, Focus, item, child, search_field, Keyboard, key_down, key_press, key_up, is_shown,
  is_expanded, children_of, exists, nav_next_loop, nav_next, nav_prev, process_keys, last_child,
  last_child_loop, nav_up, child_exists,
}

missing_hidden : (rows : List Row) (i : ℕ) → length rows ≤ i → is_shown rows i ≡ false
missing_hidden rows i h = rw (get_elem?-out_of_range rows i (omega arith), is_shown)

-- `o` is the first displayed row from `index` on, if there is one.
abbrev pub IsNext : List Row → ℕ → Option ℕ → Type 0
IsNext rows index none = (m : ℕ) → index ≤ m → is_shown rows m ≡ false
IsNext rows index (some j) =
    (index ≤ j) × (is_shown rows j ≡ true) × ((m : ℕ) → index ≤ m → m < j → is_shown rows m ≡ false)

-- `o` is the last displayed row below `index`, if there is one.
abbrev IsPrev : List Row → ℕ → Option ℕ → Type 0
IsPrev rows index none = (m : ℕ) → m < index → is_shown rows m ≡ false
IsPrev rows index (some j) =
    (j < index) × (is_shown rows j ≡ true) × ((m : ℕ) → j < m → m < index → is_shown rows m ≡ false)

-- What holds at `index` and from `index + 1` on holds from `index` on.
from_next :
    (rows : List Row) (index m : ℕ)
    → is_shown rows index ≡ false
    → index ≤ m
    → (index + 1 ≤ m → is_shown rows m ≡ false)
    → is_shown rows m ≡ false
from_next rows index m hidden h f = elim (Bool-cases (m == index)) [
  | inl e ↦ let same : m ≡ index = ground arith in rw same hidden
  | inr e ↦ f (ground arith)
]

below_next :
    (rows : List Row) (index m : ℕ)
    → is_shown rows index ≡ false
    → m < suc index
    → (m < index → is_shown rows m ≡ false)
    → is_shown rows m ≡ false
below_next rows index m hidden h f = elim (Bool-cases (m == index)) [
  | inl e ↦ let same : m ≡ index = ground arith in rw same hidden
  | inr e ↦ f (ground arith)
]

IsNext-suc :
    (rows : List Row) (index : ℕ) (o : Option ℕ)
    → is_shown rows index ≡ false
    → IsNext rows (index + 1) o
    → IsNext rows index o
IsNext-suc rows index none hidden h = λ m p. from_next rows index m hidden p (λ q. h m q)
IsNext-suc rows index (some j) hidden h =
    (omega (arith, h.0), h.1, λ m p q. from_next rows index m hidden p (λ r. h.2 m r q))

IsPrev-suc :
    (rows : List Row) (index : ℕ) (o : Option ℕ)
    → is_shown rows index ≡ false
    → IsPrev rows index o
    → IsPrev rows (suc index) o
IsPrev-suc rows index none hidden h = λ m p. below_next rows index m hidden p (λ q. h m q)
IsPrev-suc rows index (some j) hidden h =
    (omega (arith, h.0), h.1, λ m p q. below_next rows index m hidden q (λ r. h.2 m p r))

nav_next_loop-IsNext :
    (fuel : ℕ) (rows : List Row) (index : ℕ)
    → length rows ≤ index + fuel
    → (o : Option ℕ) × (nav_next_loop (suc fuel) rows index ≡ some o) × IsNext rows index o
unfolding nav_next_loop
nav_next_loop-IsNext zero rows index h =
    let gone : exists rows index ≡ false = ground arith in
    rw gone (none, refl, λ m p. missing_hidden rows m (omega arith))
nav_next_loop-IsNext (suc fuel) rows index h = elim (Bool-cases (exists rows index)) [
  | inr e ↦ rw e (none, refl, λ m p. missing_hidden rows m (ground arith))
  | inl e ↦ elim (Bool-cases (is_shown rows index)) [
    | inl s ↦ rw (e, s) (some index, refl, (omega arith, s, λ m p q. absurd (omega arith)))
    | inr s ↦
        let (o, ends, first) = nav_next_loop-IsNext fuel rows (index + 1) (omega arith) in
        rw (e, s) (o, ends, IsNext-suc rows index o s first)
  ]
]

-- The outcome of a loop that has ended.
abbrev found_in : Option (Option ℕ) → Option ℕ
found_in none = none
found_in (some found) = found

-- `NavNext` ends, whatever the page and the index: as many rounds as there are rows and one more are
-- enough. It ends with the first displayed row from the index on, or with nothing if there is none.
pub nav_next-IsNext :
    (rows : List Row) (index : ℕ)
    → (nav_next_loop (suc (length rows)) rows index ≡ some (nav_next rows index))
      × IsNext rows index (nav_next rows index)
unfolding nav_next
nav_next-IsNext rows index =
    let (o, ends, first) = nav_next_loop-IsNext (length rows) rows index (omega arith) in
    let found : o ≡ nav_next rows index = ap found_in (sym ends) in
    (
      ends ∙ ap (λ (x : Option ℕ). some x) found,
      subst (λ (x : Option ℕ). IsNext rows index x) found first,
    )

-- The search for the previous displayed row, from an item that stands at most behind the last row,
-- ends with the last displayed row above the item, or with nothing if there is none.
nav_prev-IsPrev :
    (rows : List Row) (item_index : ℕ)
    → item_index ≤ length rows
    → IsPrev rows item_index (nav_prev rows item_index)
unfolding nav_prev
nav_prev-IsPrev rows zero h = λ m p. absurd (omega arith)
nav_prev-IsPrev rows (suc index) h =
    let e : exists rows index ≡ true = ground arith in
    elim (Bool-cases (is_shown rows index)) [
      | inl s ↦ rw (e, s) (omega arith, s, λ m p q. absurd (omega arith))
      | inr s ↦ rw (e, s) (IsPrev-suc rows index _ s (nav_prev-IsPrev rows index (omega arith)))
    ]

shown_in_range : (rows : List Row) (i : ℕ) → is_shown rows i ≡ true → i < length rows
shown_in_range rows i h = elim (Bool-cases (exists rows i)) [
  | inl e ↦ ground arith
  | inr e ↦ let gone = missing_hidden rows i (ground arith) in cc
]

IsPrev-unique :
    (rows : List Row) (i j : ℕ) (o : Option ℕ)
    → i < j
    → is_shown rows i ≡ true
    → ((m : ℕ) → i < m → m < j → is_shown rows m ≡ false)
    → IsPrev rows j o
    → o ≡ some i
IsPrev-unique rows i j none p shown hidden h = let gone = h i p in cc
IsPrev-unique rows i j (some k) p shown hidden h = elim (Bool-cases (ltb k i)) [
  | inl below ↦ let gone = h.2 i (ground arith) p in cc
  | inr high ↦ elim (Bool-cases (ltb i k)) [
    | inl above ↦ let gone = hidden k (ground arith) h.0 in let there = h.1 in cc
    | inr low ↦ let same : k ≡ i = ground arith in rw same
  ]
]

-- The up arrow undoes the down arrow: the displayed row above the next one is the row one came from.
nav_prev-nav_next :
    (rows : List Row) (i j : ℕ)
    → is_shown rows i ≡ true
    → nav_next rows (i + 1) ≡ some j
    → nav_prev rows j ≡ some i
nav_prev-nav_next rows i j h e =
    let (above, shown, between) = rw e at (nav_next-IsNext rows (i + 1)).1 in
    let inside = shown_in_range rows j shown in
    IsPrev-unique rows i j (nav_prev rows j) (omega arith) h (λ m p q. between m (omega arith) q)
      (nav_prev-IsPrev rows j (omega arith))

child_exists-eq-ltb :
    (rows : List Row) (i n : ℕ) → child_exists rows i n ≡ ltb n (children_of rows i)
unfolding child_exists
child_exists-eq-ltb rows i n = ground arith

last_child_loop_lem :
    (fuel : ℕ) (rows : List Row) (i n : ℕ) (found : Focus)
    → children_of rows i < n + fuel
    → last_child_loop fuel rows i n found
      ≡ (if ltb n (children_of rows i) then child i (children_of rows i - 1) else found)
unfolding last_child_loop
last_child_loop_lem zero rows i n found h = ground arith
last_child_loop_lem (suc fuel) rows i n found h = ground (
  arith,
  child_exists-eq-ltb rows i n,
  last_child_loop_lem fuel rows i (n + 1) (child i n) (omega arith),
)

last_child_lem :
    (rows : List Row) (i : ℕ) (found : Focus)
    → last_child rows i found
      ≡ (if ltb 0 (children_of rows i) then child i (children_of rows i - 1) else found)
unfolding last_child
last_child_lem rows i found =
    last_child_loop_lem (suc (children_of rows i)) rows i 0 found (omega arith)

-- Where the up arrow leads from an item: to the search field if no row above is displayed; else to
-- the last displayed row above, or, if that row is expanded and the row directly above the item has
-- children, to the last of these.
nav_up_focus :
    (item_index : ℕ) (s : Keyboard)
    → let rows = s.rows in
      (nav_up item_index s).focus ≡ elim (nav_prev rows item_index) [
        | none ↦ search_field
        | some found ↦
            if is_expanded rows found && ltb 0 (children_of rows (item_index - 1))
            then child (item_index - 1) (children_of rows (item_index - 1) - 1)
            else item found
      ]
unfolding nav_up
nav_up_focus item_index s = target (nav_prev s.rows item_index)
  where
    target :
        (o : Option ℕ)
        → elim o as (λ _. Focus) [
          | none ↦ search_field
          | some found ↦
              if is_expanded s.rows found
              then last_child s.rows (item_index - 1) (item found)
              else item found
        ]
          ≡ elim o as (λ _. Focus) [
            | none ↦ search_field
            | some found ↦
                if is_expanded s.rows found && ltb 0 (children_of s.rows (item_index - 1))
                then child (item_index - 1) (children_of s.rows (item_index - 1) - 1)
                else item found
          ]
    target none = refl
    target (some found) =
        rw (last_child_lem s.rows (item_index - 1) (item found))
          (elim (Bool-cases (is_expanded s.rows found)) [ inl e ↦ rw e | inr e ↦ rw e ])

-- An arrow up from below a row that is hidden but has children, with an expanded row displayed
-- above it, puts the focus on a child of the hidden row.
nav_up_hidden_child :
    (s : Keyboard) (hidden found : ℕ)
    → is_shown s.rows hidden ≡ false
    → 0 < children_of s.rows hidden
    → nav_prev s.rows (suc hidden) ≡ some found
    → is_expanded s.rows found ≡ true
    → (nav_up (suc hidden) s).focus ≡ child hidden (children_of s.rows hidden - 1)
nav_up_hidden_child s hidden found away some_children e open_now =
    let here : suc hidden - 1 ≡ hidden = omega arith in
    let several : ltb 0 (children_of s.rows hidden) ≡ true = ground arith in
    nav_up_focus (suc hidden) s ∙ rw (e, here) (rw (open_now, several))

-- A key that is held down: its first press is passed over, and every later press is acted on, with
-- the key's code kept, until it is released.
pub process_keys_repeat :
    (c p q : ℕ) (s : Keyboard)
    → c ≢ 0
    → let down = (process_keys (key_down c) s).0 in
      let first = process_keys (key_press p) down in
      let later = process_keys (key_press q) first.0 in
      (first.1 ≡ false)
      × (later.1 ≡ true)
      × (later.0 ≡ first.0)
      × (later.0.last_key ≡ c)
      × ((process_keys (key_up q) later.0).0.last_key ≡ 0)
unfolding process_keys
process_keys_repeat c p q s h = ground arith
