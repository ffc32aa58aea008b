-- ===== src/DocSearch/Box.antt =====
-- `SearchBox` of Doc/html/search/search.js: the search field, its timers and the popup of results.
pub mod Timers
pub mod Selection
pub mod Items
use upciedev.Prelude.{
  ℕ, zero, suc, ◌+◌, ◌-◌, Bool, true, false, ◌&&◌, ◌||◌, not, List, [], ◌∷◌, ◌++◌, ltb, ◌==◌,
  if◌then◌else◌, Option, none, some, get_elem?,
}
use upciedev.DocSearch.Text.{Text, codes, to_hex, lower_char, strip_leading, text_eq}

-- What a timer calls when it is due.
pub data Action : Type 0 where
  run_search : Action
  close_selection : Action

-- The browser's pending timers: `setTimeout` gives out the ids 1, 2, 3 …
pub record Timer : Type 0 where
  pub id : ℕ
  pub action : Action

pub data BoxFocus : Type 0 where
  field_focus : BoxFocus
  selection_focus : BoxFocus
  results_focus : BoxFocus
  elsewhere : BoxFocus

-- The members of a SearchBox, then what it reads and writes of the document: the field's text, what
-- is displayed, the number of selection items and the marked one, the address in the results frame,
-- whether that frame has a displayed result, and the focus.
pub record SearchBox : Type 0 where
  pub key_timeout : ℕ
  pub hide_timeout : ℕ
  pub search_index : ℕ
  pub search_active : Bool
  pub last_search_value : Text
  pub last_results_page : Text
  pub search_label : Text
  pub results_path : Text
  pub field : Text
  pub box_active : Bool
  pub results_shown : Bool
  pub close_shown : Bool
  pub selection_shown : Bool
  pub select_items : ℕ
  pub marked_item : Option ℕ
  pub frame_location : Text
  pub frame_has_result : Bool
  pub focus : BoxFocus
  pub timers : List Timer
  pub next_timer : ℕ

-- A handler runs to its end, or throws with what it has done so far.
pub data Run : Type 0 where
  done : SearchBox → Run
  threw : SearchBox → Run

infixl 5 ◌>>=◌
abbrev pub ◌>>=◌ : Run → (SearchBox → Run) → Run
done s >>= f = f s
threw s >>= f = threw s

-- The letters of a section's string in `indexSectionsWithContent`: the codes at which it has a `1`.
abbrev section_letters : List Text
section_letters =
    codes "abcdefimnoprsuvw"
    ∷ codes "dpu"
    ∷ codes "pu"
    ∷ codes "empru"
    ∷ codes "bcdfimnoprsuv"
    ∷ codes "dpu"
    ∷ codes "abdiprw"
    ∷ []

-- `indexSectionNames`
abbrev section_names : List Text
section_names =
    codes "all"
    ∷ codes "classes"
    ∷ codes "files"
    ∷ codes "functions"
    ∷ codes "variables"
    ∷ codes "typedefs"
    ∷ codes "defines"
    ∷ []

abbrev pub contains : ℕ → Text → Bool
contains c [] = false
contains c (d ∷ s) = c == d || contains c s

-- `indexSectionsWithContent[section].charAt(code) == '1'`; `none` where there is no such section,
-- which throws.
unfoldable pub has_content : ℕ → ℕ → Option Bool
has_content section c = elim (get_elem? section_letters section) [
  | none ↦ none
  | some letters ↦ some (contains c letters)
]

-- `CloseSelectionWindow`
unfoldable pub close_selection_window : SearchBox → SearchBox
close_selection_window s = record s { selection_shown = false }

-- `Activate`
unfoldable pub activate : Bool → SearchBox → SearchBox
activate is_active s =
    if is_active || s.results_shown
    then (if text_eq s.field s.search_label
        then record s { box_active = true; field = []; search_active = true }
        else record s { box_active = true })
    else record s {
      box_active = false;
      field = s.search_label;
      search_active = false;
      last_search_value = [];
      last_results_page = [];
    }

-- `OnSearchFieldFocus`
unfoldable pub on_search_field_focus : Bool → SearchBox → SearchBox
unfolding activate
on_search_field_focus is_active s = activate is_active s

-- `CloseResultsWindow`
unfoldable pub close_results_window : SearchBox → SearchBox
unfolding activate
close_results_window s = activate false (record s { results_shown = false; close_shown = false })

-- `clearTimeout`
unfoldable pub clear_timeout : ℕ → List Timer → List Timer
clear_timeout id [] = []
clear_timeout id (t ∷ ts) = let rest = clear_timeout id ts in if t.id == id then rest else t ∷ rest

-- `OnSearchSelectShow`, but for the window's place on the screen.
unfoldable pub on_search_select_show : SearchBox → SearchBox
unfolding clear_timeout
on_search_select_show s =
    if s.hide_timeout == 0 then record s { selection_shown = true } else record s {
      selection_shown = true;
      timers = clear_timeout s.hide_timeout s.timers;
      hide_timeout = 0;
    }

-- `OnSearchSelectHide`
unfoldable pub on_search_select_hide : SearchBox → SearchBox
on_search_select_hide s = record s {
  hide_timeout = s.next_timer;
  timers = record { id = s.next_timer; action = close_selection } ∷ s.timers;
  next_timer = s.next_timer + 1;
}

-- `SelectItemSet`: the bullet stands at item `id`, or nowhere if there is no such item.
unfoldable pub select_item_set : ℕ → SearchBox → SearchBox
select_item_set id s = record s { marked_item = if ltb id s.select_items then some id else none }

-- `replace(/ +/g, "")`
unfoldable pub strip_all : Text → Text
strip_all [] = []
strip_all (c ∷ s) = let rest = strip_all s in if c == b' ' then rest else c ∷ rest

abbrev pub is_empty : Text → Bool
is_empty [] = true
is_empty (c ∷ s) = false

-- `searchValue.toLowerCase().charCodeAt(0)`. Of the empty string that is no number, and `charAt`
-- reads it as 0, at which no section has content.
abbrev pub first_code : Text → ℕ
first_code [] = 0
first_code (c ∷ s) = lower_char c

-- The page of a section for a letter.
unfoldable pub results_page : Text → Text → ℕ → Text
results_page path name c =
    path
    ++ (codes "/"
        ++ (name
            ++ (codes "_"
                ++ ((if ltb c 16 then codes "0" ++ to_hex 4 c else to_hex 4 c) ++ codes ".html"))))

unfoldable pub no_matches_page : Text → Text
no_matches_page path = path ++ codes "/nomatches.html"

unfoldable pub section_name : ℕ → Text
section_name section = elim (get_elem? section_names section) [ none ↦ [] | some name ↦ name ]

-- `Search`, but for the popup's place on the screen. `escape` is the browser's.
module _ (escape : Text → Text) where
  -- What it does where the section is there, by whether it has content for the letter.
  unfoldable pub search_in : Bool → SearchBox → SearchBox
  unfolding results_page no_matches_page section_name
  search_in content s =
      let value = strip_leading s.field in
      let page =
        if content
        then results_page s.results_path (section_name s.search_index) (first_code value)
        else no_matches_page s.results_path in
      record s {
        key_timeout = 0;
        frame_location = if content then page ++ (codes "?" ++ escape value) else page;
        close_shown = if s.results_shown then s.close_shown else true;
        results_shown = true;
        last_search_value = value;
        last_results_page = page;
      }

  unfoldable pub search : SearchBox → Run
  unfolding has_content search_in
  search s = elim (has_content s.search_index (first_code (strip_leading s.field))) [
    | none ↦ threw (record s { key_timeout = 0 })
    | some content ↦ done (search_in content s)
  ]

  -- `OnSelectItem`
  unfoldable pub on_select_item : ℕ → SearchBox → Run
  unfolding search select_item_set strip_all
  on_select_item id s =
      let s' = select_item_set id (record s { search_index = id }) in
      if not (is_empty (strip_all s'.field)) && s'.search_active then search s' else done s'

  -- `OnSearchSelectKey`
  unfoldable pub on_search_select_key : ℕ → SearchBox → Run
  unfolding on_select_item close_selection_window
  on_search_select_key key s =
      if key == 40 && ltb s.search_index s.select_items
      then on_select_item (s.search_index + 1) s
      else if key == 38 && ltb 0 s.search_index
      then on_select_item (s.search_index - 1) s
      else if key == 13 || key == 27
      then (on_select_item s.search_index s >>= λ s'.
          done (record (close_selection_window s') { focus = field_focus }))
      else done s

  -- A timer that is due.
  unfoldable pub fire : Timer → SearchBox → Run
  unfolding search close_selection_window clear_timeout
  fire t s =
      let s' = record s { timers = clear_timeout t.id s.timers } in
      elim t.action [ run_search ↦ search s' | close_selection ↦ done (close_selection_window s') ]

-- The end of `OnSearchFieldChange`: a changed value is searched for 500 ms later.
unfoldable pub schedule_search : SearchBox → SearchBox
unfolding strip_all
schedule_search s =
    let value = strip_all s.field in
    if text_eq value s.last_search_value
    then s
    else if not (is_empty value)
    then record s {
      key_timeout = s.next_timer;
      timers = record { id = s.next_timer; action = run_search } ∷ s.timers;
      next_timer = s.next_timer + 1;
    }
    else record s { results_shown = false; close_shown = false; last_search_value = [] }

-- `OnSearchFieldChange`
unfoldable pub on_search_field_change : ℕ → Bool → SearchBox → SearchBox
unfolding schedule_search on_search_select_show activate clear_timeout
on_search_field_change key shift s =
    let s0 =
      if s.key_timeout == 0
      then s
      else record s { timers = clear_timeout s.key_timeout s.timers; key_timeout = 0 } in
    if key == 40 || key == 13
    then (if shift
        then (let s1 = on_search_select_show s0 in
            if s1.select_items == 0 then s1 else record s1 { focus = selection_focus })
        else schedule_search
            (if s0.frame_has_result then record s0 { focus = results_focus } else s0))
    else if key == 27
    then activate false (record s0 {
      focus = elsewhere;
      results_shown = false;
      close_shown = false;
      last_search_value = [];
    })
    else schedule_search s0
