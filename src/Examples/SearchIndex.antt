-- ===== src/Examples/SearchIndex.antt =====
-- A search for a function in the index of the documentation.
use upciedev.Prelude.{ℕ, true, false, length, ◌==◌, List, [], ◌∷◌, ◌++◌, some, ◌≡◌, refl, arith}
use mathlib.Core.List.{Memᴰ}
use upciedev.DocSearch.Text.{
  Text, codes, to_lower_case, lower_char, strip_leading, strip_trailing, convert_to_id,
  convert_char,
}
use upciedev.DocSearch.Rows.{row_id, search_word, search_results}
use upciedev.DocSearch.Results.{SearchEntry}
use upciedev.DocSearch.Box.{
  SearchBox, done, search, no_matches_page, results_page, section_name, has_content,
}
use upciedev.DocSearch.Box.Items.{Child, select_item_set_loop, mark_loop}
use upciedev.DocSearch.Index.{several, target}
use upciedev.DocSearch.Index.Functions.{functions_70}
use upciedev.DocSearch.Index.Lookup.{find_page, search_data, is_file, has_content-search_data}
use upciedev.DocSearch.Index.Shown.{shown_ids, found, is_bytes-IsBytes}
use upciedev.DocSearch.Index.Found.{loaded_page, page_search_shows, typed_name_found}
use upciedev.DocSearch.Index.Counted.{page_search_counts}
use upciedev.DocSearch.Index.Absent.{unlisted_letter}
use upciedev.DocSearch.Match.{is_prefix}
use upciedev.Examples.SearchKeys.{box, same_text}

-- In the field of a search among the functions, the beginning of the name of one.
abbrev typed : SearchBox
typed = record box { search_index = 3; field = codes "Pciedev_CH" }

abbrev check_scratch : SearchEntry
check_scratch = several "pciedev_5fcheck_5fscratch" "pciedev_check_scratch" (
    target "../pciedev__rw__exp_8c.html#a172e512fecea4c8923a8b2bd11cd9f30"
      "pciedev_check_scratch(struct pciedev_dev *dev, int rmode):&#160;pciedev_rw_exp.c"
    ∷ target "../pciedev__ufn_8h.html#a3a50a2c317ac8543481467429e02b216"
        "pciedev_check_scratch(struct pciedev_dev *, int):&#160;pciedev_rw_exp.c"
    ∷ [])

abbrev no_digits : ℕ → Text
no_digits n = []

found_one : found (codes "pciedev_ch") functions_70 ≡ codes "SR_pciedev_5fcheck_5fscratch" ∷ []
unfolding to_lower_case convert_to_id convert_char
found_one = refl

has_content-search_data_example : has_content 3 b'p' ≡ some (is_file (search_data 3 b'p'))
has_content-search_data_example = has_content-search_data 3 b'p' (omega arith)

page_search_shows_example :
    shown_ids
      (search_results same_text (codes "Pciedev_CH") [] (loaded_page no_digits functions_70)).divs
    ≡ found (codes "pciedev_ch") functions_70
unfolding search_data find_page search_word to_lower_case strip_leading strip_trailing
page_search_shows_example =
    page_search_shows same_text no_digits 3 b'p' functions_70 (codes "Pciedev_CH") []
      (codes "pciedev_ch") refl refl (is_bytes-IsBytes (codes "pciedev_ch") refl)

page_search_counts_example :
    let after =
      search_results same_text (codes "Pciedev_CH") [] (loaded_page no_digits functions_70) in
    (after.last_match_count ≡ length (found (codes "pciedev_ch") functions_70))
    × (after.no_matches_shown ≡ (length (found (codes "pciedev_ch") functions_70) == 0))
    × (after.searching_shown ≡ false)
unfolding search_data find_page search_word to_lower_case strip_leading strip_trailing
page_search_counts_example =
    page_search_counts same_text no_digits 3 b'p' functions_70 (codes "Pciedev_CH") []
      (codes "pciedev_ch") refl refl (is_bytes-IsBytes (codes "pciedev_ch") refl)

-- No function begins with an x.
abbrev strange : SearchBox
strange = record box { search_index = 3; field = codes "Xyz" }

unlisted_letter_example :
    ((t : SearchBox) × (search same_text strange ≡ done t)
      × (t.frame_location ≡ no_matches_page strange.results_path))
    × ((c : ℕ) (es : List SearchEntry) (entry : SearchEntry)
        → search_data 3 c ≡ some es
        → Memᴰ entry es
        → is_prefix (to_lower_case (codes "Xyz")) (to_lower_case entry.name) ≡ false)
unfolding search_data find_page strip_leading lower_char
unlisted_letter_example =
    unlisted_letter same_text strange b'X' (codes "yz") (omega arith) refl refl refl

typed_name_found_example :
    let query = codes "?" ++ same_text (codes "Pciedev_CH") in
    (t : SearchBox) × (search same_text typed ≡ done t)
    × (t.frame_location ≡ results_page typed.results_path (section_name 3) b'p' ++ query)
    × Memᴰ
        (row_id (to_lower_case check_scratch.name))
        (shown_ids (search_results same_text [] query (loaded_page no_digits functions_70)).divs)
unfolding search_data find_page to_lower_case strip_leading strip_trailing
typed_name_found_example =
    typed_name_found same_text same_text no_digits typed b'p' b'P' (codes "ciedev_CH") functions_70
      check_scratch (omega arith) refl refl refl refl refl (Memᴰ.head refl) refl

abbrev items : List Child
items =
    record { is_item = true; is_marked = true }
    ∷ record { is_item = false; is_marked = false }
    ∷ record { is_item = true; is_marked = false }
    ∷ []

second_marked :
    select_item_set_loop 1 items
    ≡ record { is_item = true; is_marked = false }
      ∷ record { is_item = false; is_marked = false }
      ∷ record { is_item = true; is_marked = true }
      ∷ []
unfolding mark_loop
second_marked = refl
