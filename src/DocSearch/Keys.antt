-- ===== src/DocSearch/Keys.antt =====
-- Walking through the results by keys: `NavNext`, `NavPrev`, `ProcessKeys`, `Toggle`, `Nav` and
-- `NavChild` of `SearchResults` (Doc/html/search/search.js).
pub mod Order
use upciedev.Prelude.{
  ℕ, zero, suc, ◌+◌, ◌-◌, ◌<◌, Bool, true, false, ◌&&◌, ◌||◌, not, List, ltb, ◌==◌, if◌then◌else◌,
  length, get_elem?, set, Option, none, some,
}

-- A row of the page as `createResults` builds it: whether its element is displayed as a block, how
-- many children it has (a single result has none, and no `SRChildren` element), and whether that
-- element is displayed as a block.
pub record Row : Type 0 where
  pub shown : Bool
  pub children : ℕ
  pub expanded : Bool

-- What has the keyboard's focus.
pub data Focus : Type 0 where
  item : ℕ → Focus
  child : ℕ → ℕ → Focus
  search_field : Focus

-- `results_open` is whether the popup of the results is open in the parent frame.
pub record Keyboard : Type 0 where
  pub rows : List Row
  pub last_key : ℕ
  pub repeat_on : Bool
  pub focus : Focus
  pub results_open : Bool

pub data KeyEvent : Type 0 where
  key_down : ℕ → KeyEvent
  key_press : ℕ → KeyEvent
  key_up : ℕ → KeyEvent

abbrev pub key_code : KeyEvent → ℕ
key_code (key_down c) = c
key_code (key_press c) = c
key_code (key_up c) = c

abbrev pub is_shown : List Row → ℕ → Bool
is_shown rows i = elim (get_elem? rows i) [ none ↦ false | some r ↦ r.shown ]

-- Whether the element `Item<i>` exists.
abbrev pub exists : List Row → ℕ → Bool
exists rows i = ltb i (length rows)

-- The loop of `NavNext`. One round takes one unit of fuel; `none` outside stands for a loop that goes
-- on when the fuel is used up.
unfoldable pub nav_next_loop : ℕ → List Row → ℕ → Option (Option ℕ)
nav_next_loop zero rows index = none
nav_next_loop (suc fuel) rows index =
    let rest = nav_next_loop fuel rows (index + 1) in
    if exists rows index && is_shown rows index
    then some (some index)
    else if not (exists rows index)
    then some none
    else rest

-- The first displayed row from `index` on.
unfoldable pub nav_next : List Row → ℕ → Option ℕ
unfolding nav_next_loop
nav_next rows index = elim (nav_next_loop (suc (length rows)) rows index) [
  | none ↦ none
  | some found ↦ found
]

-- `NavPrev(index)` for `index` one below the argument; there is no `Item-1`.
unfoldable pub nav_prev : List Row → ℕ → Option ℕ
nav_prev rows zero = none
nav_prev rows (suc index) =
    let rest = nav_prev rows index in
    if exists rows index && is_shown rows index
    then some index
    else if not (exists rows index)
    then none
    else rest

-- Auto-repeat: the first key press after a key went down is ignored.
unfoldable pub process_keys : KeyEvent → Keyboard → Keyboard × Bool
process_keys (key_down c) s = (record s { repeat_on = false; last_key = c }, not (c == 0))
process_keys (key_press c) s =
    if not s.repeat_on
    then (if not (s.last_key == 0) then record s { repeat_on = true } else s, false)
    else (s, not (s.last_key == 0))
process_keys (key_up c) s = (record s { last_key = 0; repeat_on = false }, false)

-- The `SRChildren` element of a row: `none` if the row has none, else whether it is displayed.
unfoldable pub child_display : List Row → ℕ → Option Bool
child_display rows i = elim (get_elem? rows i) [
  | none ↦ none
  | some r ↦ if r.children == 0 then none else some r.expanded
]

unfoldable pub child_exists : List Row → ℕ → ℕ → Bool
child_exists rows i c = elim (get_elem? rows i) [ none ↦ false | some r ↦ ltb c r.children ]

abbrev pub is_expanded : List Row → ℕ → Bool
is_expanded rows i = elim (child_display rows i) [ none ↦ false | some open_now ↦ open_now ]

-- The loop that looks for the last child: `n` is the next one, `found` the element so far.
last_child_loop : ℕ → List Row → ℕ → ℕ → Focus → Focus
unfolding child_exists
last_child_loop zero rows i n found = found
last_child_loop (suc fuel) rows i n found =
    let rest = last_child_loop fuel rows i (n + 1) (child i n) in
    if child_exists rows i n then rest else found

abbrev pub children_of : List Row → ℕ → ℕ
children_of rows i = elim (get_elem? rows i) [ none ↦ 0 | some r ↦ r.children ]

unfoldable pub last_child : List Row → ℕ → Focus → Focus
unfolding last_child_loop
last_child rows i found = last_child_loop (suc (children_of rows i)) rows i 0 found

-- The children of row `i` are shown or hidden, if it has any.
unfoldable pub set_expanded : Bool → ℕ → List Row → List Row
set_expanded b i rows = elim (get_elem? rows i) [
  | none ↦ rows
  | some r ↦ if r.children == 0 then rows else set rows i (record r { expanded = b })
]

-- `Toggle`
unfoldable pub toggle : ℕ → List Row → List Row
unfolding child_display set_expanded
toggle i rows = elim (child_display rows i) [
  | none ↦ rows
  | some open_now ↦ set_expanded (not open_now) i rows
]

-- The up arrow on item `item_index`. The search for the last child goes by `item_index - 1`, also
-- where the row that was found is another.
unfoldable pub nav_up : ℕ → Keyboard → Keyboard
unfolding nav_prev last_child child_display
nav_up item_index s = record s {
  focus = elim (nav_prev s.rows item_index) [
    | none ↦ search_field
    | some found ↦
        if is_expanded s.rows found
        then last_child s.rows (item_index - 1) (item found)
        else item found
  ];
}

-- Focus on a row from `index` on, if one is displayed.
unfoldable pub focus_next : ℕ → Keyboard → Keyboard
unfolding nav_next
focus_next index s = elim (nav_next s.rows index) [
  | none ↦ s
  | some found ↦ record s { focus = item found }
]

unfoldable pub nav_down : ℕ → Keyboard → Keyboard
unfolding focus_next child_exists child_display
nav_down item_index s =
    if is_expanded s.rows item_index && child_exists s.rows item_index 0
    then record s { focus = child item_index 0 }
    else focus_next (item_index + 1) s

-- `Nav`: the new state, and whether the browser goes on with the event. Of `CloseResultsWindow`,
-- which is `close_results_window` of Box, it is kept here that the popup is closed.
unfoldable pub nav : KeyEvent → ℕ → Keyboard → Keyboard × Bool
unfolding process_keys nav_up nav_down set_expanded
nav e item_index s =
    if key_code e == 13
    then (s, true)
    else let (s', go) = process_keys e s in
      if not go
      then (s', false)
      else if s'.last_key == 38
      then (nav_up item_index s', false)
      else if s'.last_key == 40
      then (nav_down item_index s', false)
      else if s'.last_key == 39
      then (record s' { rows = set_expanded true item_index s'.rows }, false)
      else if s'.last_key == 37
      then (record s' { rows = set_expanded false item_index s'.rows }, false)
      else if s'.last_key == 27
      then (record s' { results_open = false; focus = search_field }, false)
      else (s', s'.last_key == 13)

-- `NavChild` on child `child_index` of item `item_index`.
unfoldable pub nav_child : KeyEvent → ℕ → ℕ → Keyboard → Keyboard × Bool
unfolding process_keys focus_next child_exists
nav_child e item_index child_index s =
    if key_code e == 13
    then (s, true)
    else let (s', go) = process_keys e s in
      if not go
      then (s', false)
      else if s'.last_key == 38
      then (
        if ltb 0 child_index
            then record s' { focus = child item_index (child_index - 1) }
            else record s' { focus = item item_index },
        false,
      )
      else if s'.last_key == 40
      then (
        if child_exists s'.rows item_index (child_index + 1)
            then record s' { focus = child item_index (child_index + 1) }
            else focus_next (item_index + 1) s',
        false,
      )
      else if s'.last_key == 27
      then (record s' { results_open = false; focus = search_field }, false)
      else (s', s'.last_key == 13)
