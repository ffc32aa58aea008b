-- ===== src/DocSearch/Index/Found.antt =====
-- The index and the search together: the pages of results (Doc/html/search/search.js and the files of
-- searchData beside it).
use upciedev.Prelude.{
  ℕ, zero, suc, ◌<◌, Bool, true, false, ◌&&◌, List, [], ◌∷◌, ◌++◌, ◌==◌, Option, some, ◌≡◌, refl,
  sym, subst, ◌∙◌, ap, arith, Bool-cases, inl, inr,
}
use mathlib.Core.List.{Memᴰ}
use mathlib.Core.List.Memᴰ
use upciedev.DocSearch.Text.{
  Text, codes, convert_to_id, to_lower_case, lower_char, strip_leading, strip_trailing, text_eq,
  convert_char,
}
use upciedev.DocSearch.Match.{IsBytes, is_prefix}
use upciedev.DocSearch.Rows.{
  Div, ResultsPage, display_hits, row_id, search_word, search_results, search_results_lem,
}
use upciedev.DocSearch.Results.{SearchEntry, create_results}
use upciedev.DocSearch.Box.{
  SearchBox, done, first_code, has_content, search, results_page, section_name,
}
use upciedev.DocSearch.Box.Selection.{search_done}
use upciedev.DocSearch.Index.{IndexPage}
use upciedev.DocSearch.Index.Lookup.{
  find_page, search_data, has_content-search_data, is_file, all_pages, classes_pages, files_pages,
  functions_pages, variables_pages, typedefs_pages, defines_pages,
}
use upciedev.DocSearch.Index.Shown.{
  nodes_divs, shown_ids, found, all_listed, is_listed, is_listed-IsBytes, results_shown,
}

-- A `div` of the page that is not a result.
abbrev other : Text → Bool → Div
other id shown = record { is_result = false; id = id; shown = shown }

-- The page (Doc/html/search/all_70.html and those beside it) once its scripts have run, but for the
-- search.
unfoldable pub loaded_page : (ℕ → Text) → List SearchEntry → ResultsPage
loaded_page decimal es = record {
  divs =
      other (codes "SRIndex") true
      ∷ other (codes "Loading") false
      ∷ other (codes "SRResults") true
      ∷ (nodes_divs (create_results decimal 0 es)
          ++ other (codes "Searching") true ∷ other (codes "NoMatches") false ∷ []);
  searching_shown = true;
  no_matches_shown = false;
  last_match_count = 0;
}

all_pages_listed : List IndexPage → Bool
all_pages_listed [] = true
all_pages_listed (p ∷ ps) = all_listed p.letter p.entries && all_pages_listed ps

find_page-listed :
    (c : ℕ) (ps : List IndexPage) (es : List SearchEntry)
    → all_pages_listed ps ≡ true
    → find_page c ps ≡ some es
    → all_listed c es ≡ true
unfolding find_page all_pages_listed
find_page-listed c [] es h e = cc
find_page-listed c (p ∷ ps) es h e = elim (Bool-cases (c == p.letter)) [
  | inl here ↦
      let same : c ≡ p.letter = ground arith in
      let its : some p.entries ≡ some es = rw here at e in
      let entries : p.entries ≡ es = cc in rw (same, sym entries) (ground arith)
  | inr not_here ↦ find_page-listed c ps es (ground arith) (rw not_here at e)
]

pub every_page_listed :
    (section c : ℕ) (es : List SearchEntry)
    → search_data section c ≡ some es
    → all_listed c es ≡ true
unfolding all_pages_listed to_lower_case text_eq convert_to_id convert_char search_data
every_page_listed zero c es e = find_page-listed c all_pages es refl e
every_page_listed (suc zero) c es e = find_page-listed c classes_pages es refl e
every_page_listed (suc (suc zero)) c es e = find_page-listed c files_pages es refl e
every_page_listed (suc (suc (suc zero))) c es e = find_page-listed c functions_pages es refl e
every_page_listed (suc (suc (suc (suc zero)))) c es e = find_page-listed c variables_pages es refl e
every_page_listed (suc (suc (suc (suc (suc zero))))) c es e =
    find_page-listed c typedefs_pages es refl e
every_page_listed (suc (suc (suc (suc (suc (suc zero)))))) c es e =
    find_page-listed c defines_pages es refl e
every_page_listed (suc (suc (suc (suc (suc (suc (suc section))))))) c es e = absurd (cc e)

-- On the page of any section and letter, with its data built into results, a search shows exactly the
-- results whose names begin with the word, in any case, in the order of the data. The word is what is
-- searched for without the spaces around it and in lower case, and its characters have one byte.
pub page_search_shows :
    (unescape : Text → Text) (decimal : ℕ → Text) (section c : ℕ) (es : List SearchEntry)
    (typed location_search word : Text)
    → search_data section c ≡ some es
    → search_word unescape typed location_search ≡ convert_to_id word
    → IsBytes word
    → shown_ids (search_results unescape typed location_search (loaded_page decimal es)).divs
      ≡ found word es
unfolding loaded_page
page_search_shows unescape decimal section c es typed location_search word loads looked_for hw =
    let divs = (loaded_page decimal es).divs in
    ap (λ (ds : List Div). shown_ids ds)
      (search_results_lem unescape typed location_search (loaded_page decimal es)).0
    ∙ ap (λ (w : Text). shown_ids (display_hits w divs)) looked_for
    ∙ results_shown decimal word c 0 es
        (other (codes "Searching") true ∷ other (codes "NoMatches") false ∷ []) hw
        (every_page_listed section c es loads) refl

found-Mem :
    (word : Text) (es : List SearchEntry) (entry : SearchEntry)
    → Memᴰ entry es
    → is_prefix word (to_lower_case entry.name) ≡ true
    → Memᴰ (row_id (to_lower_case entry.name)) (found word es)
found-Mem word [] entry m h = absurd (Memᴰ.not-nil m)
found-Mem word (e ∷ es) entry (Memᴰ.head same) h =
    let here : is_prefix word (to_lower_case e.name) ≡ true = rw same at h in
    rw here (Memᴰ.head (ap (λ (x : SearchEntry). row_id (to_lower_case x.name)) same))
found-Mem word (e ∷ es) entry (Memᴰ.tail m) h =
    elim (Bool-cases (is_prefix word (to_lower_case e.name))) [
      | inl here ↦ rw here (Memᴰ.tail (found-Mem word es entry m h))
      | inr not_here ↦ rw not_here (found-Mem word es entry m h)
    ]

pub listed-Mem :
    (c : ℕ) (es : List SearchEntry) (entry : SearchEntry)
    → Memᴰ entry es
    → all_listed c es ≡ true
    → is_listed c entry ≡ true
listed-Mem c [] entry m h = absurd (Memᴰ.not-nil m)
listed-Mem c (e ∷ es) entry (Memᴰ.head same) h = rw same (ground arith)
listed-Mem c (e ∷ es) entry (Memᴰ.tail m) h = listed-Mem c es entry m (ground arith)

prefix-IsBytes : (s t : Text) → is_prefix s t ≡ true → IsBytes t → IsBytes s
prefix-IsBytes [] t h b = tt
prefix-IsBytes (c ∷ s) [] h b = absurd (cc h)
prefix-IsBytes (c ∷ s) (d ∷ t) h b =
    let same : c ≡ d = ground arith in (rw same b.0, prefix-IsBytes s t (ground arith) b.1)

pub prefix-same :
    (a b : ℕ) (s t : Text) → is_prefix (a ∷ s) t ≡ true → is_prefix (b ∷ []) t ≡ true → a ≡ b
prefix-same a b s [] h g = absurd (cc h)
prefix-same a b s (d ∷ t) h g = ground arith

-- What the field, without spaces around it, searches for behind the `?` of the URL.
word_of_url :
    (escape unescape : Text → Text) (value : Text)
    → unescape (escape value) ≡ value
    → strip_leading value ≡ value
    → strip_trailing value ≡ value
    → search_word unescape [] (codes "?" ++ escape value) ≡ convert_to_id (to_lower_case value)
unfolding search_word
word_of_url escape unescape value back leading trailing =
    ap (λ (v : Text). convert_to_id (to_lower_case (strip_trailing (strip_leading v)))) back
    ∙ ap (λ (v : Text). convert_to_id (to_lower_case (strip_trailing v))) leading
    ∙ ap (λ (v : Text). convert_to_id (to_lower_case v)) trailing

-- Every name in the index is found: with a section of the page chosen and, in the field, the
-- beginning of a name that the section's data has, in any case and without spaces around it, the
-- search comes to its end, the page that it opens is the one that loads this data, and the search of
-- that page then displays the name's result. The browser's `unescape` undoes `escape` on the field.
pub typed_name_found :
    (escape unescape : Text → Text) (decimal : ℕ → Text) (s : SearchBox) (c x : ℕ) (xs : Text)
    (es : List SearchEntry) (entry : SearchEntry)
    → s.search_index < 7
    → s.field ≡ x ∷ xs
    → strip_leading (x ∷ xs) ≡ x ∷ xs
    → strip_trailing (x ∷ xs) ≡ x ∷ xs
    → unescape (escape (x ∷ xs)) ≡ x ∷ xs
    → search_data s.search_index c ≡ some es
    → Memᴰ entry es
    → is_prefix (to_lower_case (x ∷ xs)) (to_lower_case entry.name) ≡ true
    → let query = codes "?" ++ escape (x ∷ xs) in
      (t : SearchBox) × (search escape s ≡ done t)
      × (t.frame_location ≡ results_page s.results_path (section_name s.search_index) c ++ query)
      × Memᴰ
          (row_id (to_lower_case entry.name))
          (shown_ids (search_results unescape [] query (loaded_page decimal es)).divs)
unfolding to_lower_case
typed_name_found escape unescape decimal s c x xs es entry section typed leading trailing back loads
      mem begins =
    let listed = listed-Mem c es entry mem (every_page_listed s.search_index c es loads) in
    let name_bytes = is_listed-IsBytes c entry listed in
    let word_bytes =
      prefix-IsBytes (to_lower_case (x ∷ xs)) (to_lower_case entry.name) begins name_bytes in
    let letter : lower_char x ≡ c =
      prefix-same (lower_char x) c (to_lower_case xs) (to_lower_case entry.name) begins
        (ground arith) in
    let value : strip_leading s.field ≡ x ∷ xs =
      ap (λ (v : Text). strip_leading v) typed ∙ leading in
    let there : has_content s.search_index c ≡ some true =
      has_content-search_data s.search_index c section
      ∙ ap (λ (o : Option (List SearchEntry)). some (is_file o)) loads in
    let code : first_code (strip_leading s.field) ≡ c =
      ap (λ (v : Text). first_code v) value ∙ letter in
    let (t, ends, timer, shown, kept, opened, missing) = search_done escape s section in
    (
      t,
      ends,
      opened (ap (λ (d : ℕ). has_content s.search_index d) code ∙ there) ∙ rw (code, value) refl,
      subst (λ (ids : List Text). Memᴰ (row_id (to_lower_case entry.name)) ids)
          (sym (
            page_search_shows unescape decimal s.search_index c es [] (codes "?" ++ escape (x ∷ xs))
              (to_lower_case (x ∷ xs)) loads
              (word_of_url escape unescape (x ∷ xs) back leading trailing) word_bytes))
          (found-Mem (to_lower_case (x ∷ xs)) es entry mem begins),
    )
