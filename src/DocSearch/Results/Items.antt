-- ===== src/DocSearch/Results/Items.antt =====
-- The rows of keyboard navigation as what `createResults` (Doc/html/search/search.js) builds.
use upciedev.Prelude.{
  ℕ, ◌<◌, Bool, true, false, not, List, map, ◌==◌, if◌then◌else◌, length, get_elem?, get_elem?-map,
  Option, none, some, ◌≡◌, refl, arith, Bool-cases, inl, inr, ◌∙◌, set, get_elem?-set_self,
  get_elem?-some_in_range, set-set, set-get_elem?,
}
use upciedev.DocSearch.Text.{Text}
use upciedev.DocSearch.Keys.{Row, child_display, set_expanded, toggle}
use upciedev.DocSearch.Results.{
  Node, SearchEntry, create_result, find_child_element, find_child_element-create_result,
}

-- A row as it is built: it is not displayed as a block yet, and neither are its children.
abbrev pub new_row : SearchEntry → Row
new_row entry = record {
  shown = false;
  children = if length entry.targets == 1 then 0 else length entry.targets;
  expanded = false;
}

abbrev pub finds_children : Option (Option Node) → Bool
finds_children none = false
finds_children (some none) = false
finds_children (some (some n)) = true

abbrev pub is_some : Option Bool → Bool
is_some none = false
is_some (some b) = true

-- On a page that is built of entries with a target each, the rows of keyboard navigation have an
-- element of children exactly where the search for it finds one.
pub child_display-find_child_element :
    (decimal : ℕ → Text) (entries : List SearchEntry) (i : ℕ) (entry : SearchEntry)
    → get_elem? entries i ≡ some entry
    → 0 < length entry.targets
    → is_some (child_display (map new_row entries) i)
      ≡ finds_children (find_child_element 3 (create_result decimal i entry))
unfolding child_display
child_display-find_child_element decimal entries i entry e h =
    rw
      (
        get_elem?-map new_row entries i e,
        child_display,
        find_child_element-create_result decimal 3 i entry (omega arith),
      )
      (elim (Bool-cases (length entry.targets == 1)) [
        | inl single ↦ rw single refl
        | inr many ↦
            let some_children : (length entry.targets == 0) ≡ false = ground arith in
            rw (many, some_children)
      ])

no_toggle : (rows : List Row) (i : ℕ) → child_display rows i ≡ none → toggle i rows ≡ rows
unfolding toggle
no_toggle rows i e = rw (e, toggle)

toggle_turns :
    (rows : List Row) (i : ℕ) (row : Row)
    → get_elem? rows i ≡ some row
    → (row.children == 0) ≡ false
    → toggle i rows ≡ set rows i (record row { expanded = not row.expanded })
unfolding toggle set_expanded child_display
toggle_turns rows i row e h = rw (e, toggle, child_display) (rw h (rw (e, set_expanded) (rw h)))

not-not : (b : Bool) → not (not b) ≡ b
not-not true = refl
not-not false = refl

-- A second click on a row undoes the first: `Toggle` is its own inverse on every row of every page.
pub toggle-toggle : (i : ℕ) (rows : List Row) → toggle i (toggle i rows) ≡ rows
toggle-toggle i rows = by_row (get_elem? rows i) refl
  where
    by_row : (o : Option Row) → get_elem? rows i ≡ o → toggle i (toggle i rows) ≡ rows
    by_row none e =
        let same = no_toggle rows i (unfold child_display in rw (e, child_display)) in
        rw (same, same)
    by_row (some row) e = elim (Bool-cases (row.children == 0)) [
      | inl alone ↦
          let same = no_toggle rows i (unfold child_display in rw (e, child_display) (rw alone)) in
          rw (same, same)
      | inr several ↦
          let turned : Row = record row { expanded = not row.expanded } in
          let there = get_elem?-set_self rows i turned (get_elem?-some_in_range rows i row e) in
          rw (toggle_turns rows i row e several) (
            toggle_turns (set rows i turned) i turned there several
            ∙ set-set rows i turned (record row { expanded = not (not row.expanded) })
            ∙ set-get_elem? rows i (record row { expanded = not (not row.expanded) })
                (rw (not-not row.expanded) e))
    ]
