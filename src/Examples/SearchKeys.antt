-- ===== src/Examples/SearchKeys.antt =====
-- Keys on a page of three rows, and a search box at work.
use upciedev.Prelude.{ℕ, Bool, true, false, List, [], ◌∷◌, some, ◌≡◌, refl, arith}
use upciedev.DocSearch.Text.{Text}
use upciedev.DocSearch.Keys.{Row, item, Keyboard, nav_next, nav_next_loop}
use upciedev.DocSearch.Keys.Order.{IsNext, nav_next-IsNext}
use upciedev.DocSearch.Box.{
  SearchBox, elsewhere, on_search_field_change, on_search_field_focus, on_search_select_show,
  on_search_select_hide,
}
use upciedev.DocSearch.Box.Timers.{IsTimed, one_pending_search}

-- A displayed and expanded row with a child, a hidden row with two, and a displayed single one.
abbrev rows : List Row
rows =
    record { shown = true; children = 1; expanded = true }
    ∷ record { shown = false; children = 2; expanded = false }
    ∷ record { shown = true; children = 0; expanded = false }
    ∷ []

abbrev keyboard : Keyboard
keyboard = record {
  rows = rows;
  last_key = 0;
  repeat_on = false;
  focus = item 2;
  results_open = true;
}

nav_next-IsNext_example :
    (nav_next_loop 4 rows 1 ≡ some (nav_next rows 1)) × IsNext rows 1 (nav_next rows 1)
nav_next-IsNext_example = nav_next-IsNext rows 1

next_shown : nav_next rows 1 ≡ some 2
unfolding nav_next
next_shown = refl

abbrev pub box : SearchBox
box = record {
  key_timeout = 0;
  hide_timeout = 0;
  search_index = 6;
  search_active = true;
  last_search_value = [];
  last_results_page = [];
  search_label = 83 ∷ [];
  results_path = 115 ∷ [];
  field = 32 ∷ 119 ∷ [];
  box_active = true;
  results_shown = false;
  close_shown = false;
  selection_shown = false;
  select_items = 7;
  marked_item = some 6;
  frame_location = [];
  frame_has_result = false;
  focus = elsewhere;
  timers = [];
  next_timer = 1;
}

abbrev pub same_text : Text → Text
same_text s = s

box-IsTimed : IsTimed box
box-IsTimed = record {
  one = refl;
  given_out = tt;
  key_given_out = omega arith;
  hide_given_out = omega arith;
  apart = λ n. absurd (n refl);
}

one_pending_search_example :
    ((key : ℕ) (shift : Bool) → IsTimed (on_search_field_change key shift box))
    × ((b : Bool) → IsTimed (on_search_field_focus b box))
    × IsTimed (on_search_select_show box)
    × IsTimed (on_search_select_hide box)
one_pending_search_example = one_pending_search box box-IsTimed
