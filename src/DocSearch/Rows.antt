-- ===== src/DocSearch/Rows.antt =====
-- `SearchResults.Search` of Doc/html/search/search.js: the rows of the results page that it shows.
use upciedev.Prelude.{
  ℕ, ◌+◌, Bool, true, false, ◌&&◌, List, [], ◌∷◌, map, ◌==◌, if◌then◌else◌, drop, get_elem?,
  get_elem?-map, some, ◌≡◌, refl, ◌∙◌, ap, arith,
}
use upciedev.DocSearch.Text.{
  Text, convert_to_id, to_lower_case, lower_char, strip_leading, strip_trailing, strip_sr,
  row_matches,
}
use upciedev.DocSearch.Match.{IsBytes, is_prefix, convert_to_id-row_matches, lower-convert_to_id}

-- A `div` of the page: whether its class is `SRResult`, its id, and whether it is displayed.
pub record Div : Type 0 where
  pub is_result : Bool
  pub id : Text
  pub shown : Bool

-- The page's divs and what a search leaves beside them.
pub record ResultsPage : Type 0 where
  pub divs : List Div
  pub searching_shown : Bool
  pub no_matches_shown : Bool
  pub last_match_count : ℕ

-- The word that is looked for: the argument, or without one what stands behind the `?` of the
-- URL. `unescape` is the browser's.
unfoldable pub search_word : (Text → Text) → Text → Text → Text
search_word unescape search location_search =
    let given = if is_empty search then unescape (drop 1 location_search) else search in
    convert_to_id (to_lower_case (strip_trailing (strip_leading given)))
  where
    is_empty : Text → Bool
    is_empty [] = true
    is_empty (c ∷ s) = false

-- The display of one div after the search, and whether it counts as a match.
unfoldable pub row_hit : Text → Div → Bool
row_hit word row = row_matches word (strip_sr (to_lower_case row.id))

-- The loop over the divs; `matches` is its counter.
unfoldable pub search_rows : Text → List Div → ℕ → List Div × ℕ
unfolding row_hit
search_rows word [] matches = ([], matches)
search_rows word (row ∷ rows) matches =
    let hit = row_hit word row in
    let rest = search_rows word rows (if row.is_result && hit then matches + 1 else matches) in
    ((if row.is_result then record row { shown = hit } else row) ∷ rest.0, rest.1)

unfoldable pub search_results : (Text → Text) → Text → Text → ResultsPage → ResultsPage
unfolding search_rows search_word
search_results unescape search location_search page =
    let (rows, matches) = search_rows (search_word unescape search location_search) page.divs 0 in
    record {
      divs = rows;
      searching_shown = false;
      no_matches_shown = matches == 0;
      last_match_count = matches;
    }

-- The specification: each result row is shown exactly when it is a hit; other divs are left alone.
abbrev pub display_hits : Text → List Div → List Div
display_hits word =
    map (λ row. if row.is_result then record row { shown = row_hit word row } else row)

abbrev pub count_hits : Text → List Div → ℕ
count_hits word [] = 0
count_hits word (row ∷ rows) =
    (if row.is_result && row_hit word row then 1 else 0) + count_hits word rows

search_rows_lem :
    (word : Text) (rows : List Div) (matches : ℕ)
    → search_rows word rows matches ≡ (display_hits word rows, matches + count_hits word rows)
unfolding search_rows
search_rows_lem word [] matches = ground arith
search_rows_lem word (row ∷ rows) matches =
    let matches' = if row.is_result && row_hit word row then matches + 1 else matches in
    rw (search_rows_lem word rows matches')
      (ap (λ (n : ℕ). (display_hits word (row ∷ rows), n)) (ground arith))

-- A search shows exactly the result rows that are hits, leaves the other divs alone, counts the
-- hits, and shows the notice of no matches exactly when there is none.
pub search_results_lem :
    (unescape : Text → Text) (search location_search : Text) (page : ResultsPage)
    → let word = search_word unescape search location_search in
      let after = search_results unescape search location_search page in
      (after.divs ≡ display_hits word page.divs)
      × (after.last_match_count ≡ count_hits word page.divs)
      × (after.no_matches_shown ≡ (count_hits word page.divs == 0))
      × (after.searching_shown ≡ false)
unfolding search_results
search_results_lem unescape search location_search page =
    let word = search_word unescape search location_search in
    let e = search_rows_lem word page.divs 0 in
    let n : 0 + count_hits word page.divs ≡ count_hits word page.divs = omega arith in
    (rw e, rw e n, rw e (rw n), refl)

-- `SR_` before an id.
abbrev pub row_id : Text → Text
row_id name = b'S' ∷ b'R' ∷ b'_' ∷ convert_to_id name

pub row_hit-row_id :
    (word name : Text) (row : Div)
    → IsBytes word
    → IsBytes name
    → row.id ≡ row_id name
    → row_hit (convert_to_id word) row ≡ is_prefix word name
unfolding row_hit
row_hit-row_id word name row hw hn e =
    rw (e, lower_row_id name hn) (convert_to_id-row_matches word name hw hn)
  where
    lower_row_id : (n : Text) → IsBytes n → strip_sr (to_lower_case (row_id n)) ≡ convert_to_id n
    lower_row_id n h =
        unfold to_lower_case lower_char in rw (lower-convert_to_id n h) (unfold strip_sr in refl)

-- On a page whose row `i` is that of the name `name`, a search for `search` shows that row exactly
-- when the name begins with the word that is left of `search` without the spaces around it and in
-- lower case. Both are of one-byte characters, and `search` is not empty.
search_shows_prefixes :
    (unescape : Text → Text) (c : ℕ) (cs location_search : Text) (page : ResultsPage) (i : ℕ)
    (row : Div) (name : Text)
    → get_elem? page.divs i ≡ some row
    → row.is_result ≡ true
    → row.id ≡ row_id name
    → IsBytes name
    → let word = to_lower_case (strip_trailing (strip_leading (c ∷ cs))) in
      IsBytes word
      → get_elem? (search_results unescape (c ∷ cs) location_search page).divs i
        ≡ some (record row { shown = is_prefix word name })
unfolding search_word
search_shows_prefixes unescape c cs location_search page i row name found result named hn hw =
    let word = to_lower_case (strip_trailing (strip_leading (c ∷ cs))) in
    let display =
      λ (r : Div). if r.is_result then record r { shown = row_hit (convert_to_id word) r } else r in
    rw (search_results_lem unescape (c ∷ cs) location_search page).0
      (get_elem?-map display page.divs i found ∙ ap (λ (r : Div). some r) displayed)
  where
    displayed :
        (if row.is_result
          then record row {
            shown =
                row_hit
                  (convert_to_id (to_lower_case (strip_trailing (strip_leading (c ∷ cs)))))
                  row;
          }
          else row)
        ≡ record row {
          shown = is_prefix (to_lower_case (strip_trailing (strip_leading (c ∷ cs)))) name;
        }
    displayed =
        rw
          (row_hit-row_id (to_lower_case (strip_trailing (strip_leading (c ∷ cs)))) name row hw hn
            named)
          (rw result)
