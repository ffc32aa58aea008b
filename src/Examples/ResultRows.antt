-- ===== src/Examples/ResultRows.antt =====
-- A results page that is built of two entries.
use upciedev.Prelude.{ℕ, ◌+◌, true, List, [], ◌∷◌, map, none, ◌≡◌, refl}
use upciedev.DocSearch.Text.{Text, codes}
use upciedev.DocSearch.Keys.{Row, child_display, toggle, is_expanded}
use upciedev.DocSearch.Results.{
  Node, SearchEntry, Target, create_result, create_scope, find_child_element, find_from,
}
use upciedev.DocSearch.Results.Items.{new_row}

abbrev digit : ℕ → Text
digit n = (48 + n) ∷ []

abbrev target : Target
target = record { href = codes "x.html"; scope = codes "x" }

abbrev single : SearchEntry
single = record { id = codes "bar0"; name = codes "BAR0"; targets = target ∷ [] }

abbrev several : SearchEntry
several = record { id = codes "swap"; name = codes "swap"; targets = target ∷ target ∷ [] }

-- With two rounds the search is cut off.
two_rounds : find_child_element 2 (create_result digit 1 several) ≡ none
unfolding find_child_element create_result create_scope find_from
two_rounds = refl

abbrev row : Node
row = create_result digit 1 several

abbrev built : List Row
built = map new_row (single ∷ several ∷ [])

toggled_once : is_expanded (toggle 1 built) 1 ≡ true
unfolding toggle child_display
toggled_once = refl
