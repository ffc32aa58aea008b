-- ===== src/Examples/SearchPage.antt =====
-- The search over a page of two results.
use upciedev.Prelude.{true, false, [], ◌∷◌, ◌≡◌, refl}
use upciedev.DocSearch.Text.{
  Text, codes, strip_sr, convert_char, convert_to_id, row_matches, to_lower_case, strip_leading,
  strip_trailing,
}
use upciedev.DocSearch.Rows.{Div, ResultsPage, search_results, row_id}

abbrev identity : Text → Text
identity s = s

abbrev read_row : Div
read_row = record { is_result = true; id = row_id (codes "pciedev_read_exp"); shown = false }

abbrev page : ResultsPage
page = record {
  divs =
      record { is_result = false; id = codes "Loading"; shown = true }
      ∷ read_row
      ∷ record { is_result = true; id = row_id (codes "rwsize"); shown = true }
      ∷ [];
  searching_shown = true;
  no_matches_shown = false;
  last_match_count = 0;
}

id_of_name : convert_to_id (codes "a_b") ≡ codes "a_5fb"
unfolding convert_to_id convert_char
id_of_name = refl

one_match : (search_results identity (codes " PCIEDEV_R ") [] page).last_match_count ≡ 1
unfolding search_results convert_to_id convert_char to_lower_case strip_leading strip_trailing
    strip_sr row_matches
one_match = refl
