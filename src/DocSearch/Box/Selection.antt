-- ===== src/DocSearch/Box/Selection.antt =====
-- Sections, the page that a search opens, and the selection of a section by keys
-- (Doc/html/search/search.js).
use upciedev.Prelude.{
  ℕ, zero, suc, ◌+◌, ◌≤◌, ◌<◌, Bool, true, false, ◌&&◌, not, [], ◌∷◌, ltb, ◌==◌, if◌then◌else◌,
  none, some, get_elem?-in_range, get_elem?-out_of_range, ap, ◌≡◌, refl, arith, Bool-cases, inl,
  inr, ◌++◌,
}
use upciedev.DocSearch.Text.{Text, codes, strip_leading}
use upciedev.DocSearch.Box.{
  SearchBox, done, threw, contains, section_letters, has_content, first_code, is_empty, strip_all,
  results_page, no_matches_page, section_name, search_in, search, select_item_set, on_select_item,
  on_search_select_key,
}

-- Every code of `xs` is one of `ys`.
subset : Text → Text → Bool
subset [] ys = true
subset (x ∷ xs) ys = contains x ys && subset xs ys

subset_sound :
    (xs ys : Text) (c : ℕ) → subset xs ys ≡ true → contains c xs ≡ true → contains c ys ≡ true
unfolding subset
subset_sound [] ys c h p = cc
subset_sound (x ∷ xs) ys c h p = elim (Bool-cases (c == x)) [
  | inl e ↦ let same : c ≡ x = ground arith in rw same (ground arith)
  | inr e ↦ subset_sound xs ys c (ground arith) (rw e at p)
]

all_letters : Text
all_letters = codes "abcdefimnoprsuvw"

covered :
    (c : ℕ) (letters : Text)
    → subset letters all_letters ≡ true
    → some (contains c letters) ≡ some true
    → some (contains c all_letters) ≡ some true
covered c letters h e = ap (λ (b : Bool). some b) (subset_sound letters all_letters c h (cc e))

-- The section that holds everything has content for a letter if any section has.
pub everything_has_content :
    (section c : ℕ) → has_content section c ≡ some true → has_content 0 c ≡ some true
unfolding has_content subset all_letters covered
everything_has_content zero c h = h
everything_has_content (suc zero) c h = covered c (codes "dpu") refl h
everything_has_content (suc (suc zero)) c h = covered c (codes "pu") refl h
everything_has_content (suc (suc (suc zero))) c h = covered c (codes "empru") refl h
everything_has_content (suc (suc (suc (suc zero)))) c h = covered c (codes "bcdfimnoprsuv") refl h
everything_has_content (suc (suc (suc (suc (suc zero))))) c h = covered c (codes "dpu") refl h
everything_has_content (suc (suc (suc (suc (suc (suc zero)))))) c h =
    covered c (codes "abdiprw") refl h
everything_has_content (suc (suc (suc (suc (suc (suc (suc section))))))) c h = absurd (cc h)

section_there : (section c : ℕ) → section < 7 → (b : Bool) × (has_content section c ≡ some b)
unfolding has_content
section_there section c h =
    let (letters, e) = get_elem?-in_range section_letters section h in
    (contains c letters, rw (e, has_content))

section_missing : (section c : ℕ) → 7 ≤ section → has_content section c ≡ none
unfolding has_content
section_missing section c h =
    rw (
      get_elem?-out_of_range section_letters section (λ (l : section < 7). omega arith),
      has_content,
    )

-- A search in one of the seven sections always comes to its end: it forgets its timer, shows the
-- popup, keeps the value without leading spaces, and opens the section's page for the first letter
-- with the value behind it if the section has content there, and else the page of no matches.
pub search_done :
    (escape : Text → Text) (s : SearchBox)
    → s.search_index < 7
    → let value = strip_leading s.field in
      let letter = first_code value in
      let page = results_page s.results_path (section_name s.search_index) letter in
      (t : SearchBox) × (search escape s ≡ done t)
      × (t.key_timeout ≡ 0)
      × (t.results_shown ≡ true)
      × (t.last_search_value ≡ value)
      × (has_content s.search_index letter ≡ some true
          → t.frame_location ≡ page ++ (codes "?" ++ escape value))
      × (has_content s.search_index letter ≡ some false
          → t.frame_location ≡ no_matches_page s.results_path)
unfolding search_in
search_done escape s h =
    let (b, e) = section_there s.search_index (first_code (strip_leading s.field)) h in
    (
      search_in escape b s,
      unfold search in rw (e, search),
      refl,
      refl,
      refl,
      λ p. let yes_content : b ≡ true = ground arith in rw yes_content,
      λ p. let no_content : b ≡ false = ground arith in rw no_content,
    )

-- A search in a section that is not there throws, and the handlers that call it with it.
search_threw :
    (escape : Text → Text) (s : SearchBox)
    → 7 ≤ s.search_index
    → search escape s ≡ threw (record s { key_timeout = 0 })
unfolding search
search_threw escape s h =
    rw (section_missing s.search_index (first_code (strip_leading s.field)) h, search)

-- On the page's seven sections, an arrow down on the last one goes on to a section that is not
-- there; with a search under way the handler throws there.
pub select_key_overruns :
    (escape : Text → Text) (s : SearchBox)
    → s.select_items ≡ 7
    → s.search_index ≡ 6
    → s.search_active ≡ true
    → is_empty (strip_all s.field) ≡ false
    → (t : SearchBox) × (on_search_select_key escape 40 s ≡ threw t)
      × (t.search_index ≡ 7)
      × (t.marked_item ≡ none)
unfolding on_search_select_key on_select_item select_item_set
select_key_overruns escape s items index active typed =
    let moved : SearchBox = record s {
      search_index = s.search_index + 1;
      marked_item =
          if ltb (s.search_index + 1) s.select_items then some (s.search_index + 1) else none;
    } in
    let going : (not (is_empty (strip_all s.field)) && s.search_active) ≡ true = ground arith in
    let inside : ltb s.search_index s.select_items ≡ true = ground arith in
    (
      record moved { key_timeout = 0 },
      rw inside (rw going (search_threw escape moved (omega arith))),
      omega arith,
      ground arith,
    )
