-- ===== src/DocSearch/Index/Absent.antt =====
-- What a search opens where the index has no page for the first letter (Doc/html/search/search.js).
use upciedev.Prelude.{
  ℕ, ◌<◌, false, List, ◌∷◌, Option, none, some, ◌≡◌, sym, ◌∙◌, ap, arith, Bool-cases, inl, inr,
}
use mathlib.Core.List.{Memᴰ}
use upciedev.DocSearch.Text.{Text, to_lower_case, lower_char, strip_leading}
use upciedev.DocSearch.Match.{is_prefix}
use upciedev.DocSearch.Results.{SearchEntry}
use upciedev.DocSearch.Box.{SearchBox, done, first_code, has_content, search, no_matches_page}
use upciedev.DocSearch.Box.Selection.{search_done}
use upciedev.DocSearch.Index.Lookup.{search_data, has_content-search_data, is_file}
use upciedev.DocSearch.Index.Found.{every_page_listed, listed-Mem, prefix-same}

-- With a section of the page chosen, something in the field without spaces in front, and no file of
-- the section for its first character in lower case: the search comes to its end and opens the page
-- of no matches, and no name in any data of the section begins with what is in the
-- field, in any case.
pub unlisted_letter :
    (escape : Text → Text) (s : SearchBox) (x : ℕ) (xs : Text)
    → s.search_index < 7
    → s.field ≡ x ∷ xs
    → strip_leading (x ∷ xs) ≡ x ∷ xs
    → search_data s.search_index (lower_char x) ≡ none
    → ((t : SearchBox) × (search escape s ≡ done t)
        × (t.frame_location ≡ no_matches_page s.results_path))
      × ((c : ℕ) (es : List SearchEntry) (entry : SearchEntry)
          → search_data s.search_index c ≡ some es
          → Memᴰ entry es
          → is_prefix (to_lower_case (x ∷ xs)) (to_lower_case entry.name) ≡ false)
unfolding to_lower_case
unlisted_letter escape s x xs section typed leading missing =
    let value : strip_leading s.field ≡ x ∷ xs =
      ap (λ (v : Text). strip_leading v) typed ∙ leading in
    let code : first_code (strip_leading s.field) ≡ lower_char x =
      ap (λ (v : Text). first_code v) value in
    let nothing : has_content s.search_index (lower_char x) ≡ some false =
      has_content-search_data s.search_index (lower_char x) section
      ∙ ap (λ (o : Option (List SearchEntry)). some (is_file o)) missing in
    let (t, ends, timer, shown, kept, opened, no_matches) = search_done escape s section in
    (
      (t, ends, no_matches (ap (λ (d : ℕ). has_content s.search_index d) code ∙ nothing)),
      λ c es entry loads mem.
          elim (Bool-cases (is_prefix (to_lower_case (x ∷ xs)) (to_lower_case entry.name))) [
            | inr differs ↦ differs
            | inl begins ↦
                let listed =
                  listed-Mem c es entry mem (every_page_listed s.search_index c es loads) in
                let letter : lower_char x ≡ c =
                  prefix-same (lower_char x) c (to_lower_case xs) (to_lower_case entry.name) begins
                    (ground arith) in
                let here : search_data s.search_index c ≡ none =
                  ap (λ (d : ℕ). search_data s.search_index d) (sym letter) ∙ missing in
                cc
          ],
    )
