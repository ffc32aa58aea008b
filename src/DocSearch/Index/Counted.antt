-- ===== src/DocSearch/Index/Counted.antt =====
-- What a search of a page of the index reports beside the results (Doc/html/search/search.js).
use upciedev.Prelude.{
  ℕ, false, List, [], ◌∷◌, ◌==◌, length, some, ◌≡◌, refl, ◌∙◌, sym, ap, arith, Bool-cases, inl, inr,
}
use upciedev.DocSearch.Text.{Text, convert_to_id}
use upciedev.DocSearch.Match.{IsBytes}
use upciedev.DocSearch.Rows.{
  Div, display_hits, count_hits, row_hit, search_word, search_results, search_results_lem,
}
use upciedev.DocSearch.Results.{SearchEntry}
use upciedev.DocSearch.Index.Lookup.{search_data}
use upciedev.DocSearch.Index.Shown.{shown_ids, found}
use upciedev.DocSearch.Index.Found.{loaded_page, page_search_shows}

-- The hits are counted as often as results are displayed.
count_hits-length :
    (word : Text) (ds : List Div) → count_hits word ds ≡ length (shown_ids (display_hits word ds))
unfolding row_hit
count_hits-length word [] = refl
count_hits-length word (d ∷ ds) = elim (Bool-cases d.is_result) [
  | inr other_div ↦ rw other_div (omega (arith, count_hits-length word ds))
  | inl result ↦ elim (Bool-cases (row_hit word d)) [
    | inl hit ↦ rw (result, hit) (omega (arith, count_hits-length word ds))
    | inr miss ↦ rw (result, miss) (omega (arith, count_hits-length word ds))
  ]
]

-- On the page of any section and letter, with its data built into results, a search counts the
-- entries whose names begin with the word, in any case; it shows the notice of no matches exactly
-- when there is no such entry, and takes the notice of searching away. The word is what is searched
-- for without the spaces around it and in lower case, and its characters have one byte.
pub page_search_counts :
    (unescape : Text → Text) (decimal : ℕ → Text) (section c : ℕ) (es : List SearchEntry)
    (typed location_search word : Text)
    → search_data section c ≡ some es
    → search_word unescape typed location_search ≡ convert_to_id word
    → IsBytes word
    → let after = search_results unescape typed location_search (loaded_page decimal es) in
      (after.last_match_count ≡ length (found word es))
      × (after.no_matches_shown ≡ (length (found word es) == 0))
      × (after.searching_shown ≡ false)
page_search_counts unescape decimal section c es typed location_search word loads looked_for hw =
    let page = loaded_page decimal es in
    let (rows, count, notice, searching) = search_results_lem unescape typed location_search page in
    let hits : count_hits (search_word unescape typed location_search) page.divs
        ≡ length (found word es) =
      count_hits-length (search_word unescape typed location_search) page.divs
      ∙ ap (λ (ds : List Div). length (shown_ids ds)) (sym rows)
      ∙ ap (λ (ids : List Text). length ids)
          (page_search_shows unescape decimal section c es typed location_search word loads
            looked_for hw) in
    (count ∙ hits, notice ∙ ap (λ (n : ℕ). n == 0) hits, searching)
