-- ===== src/DocSearch/Index/Shown.antt =====
-- The results page with the search data of the index in it (Doc/html/search/search.js): which results
-- a search shows of what `createResults` has built.
use upciedev.Prelude.{
  ℕ, ◌+◌, Bool, true, false, ◌&&◌, List, [], ◌∷◌, ◌++◌, ltb, if◌then◌else◌, ◌≡◌, refl, ◌∙◌, ap,
  arith,
}
use mathlib.Core.List.{append_assoc}
use upciedev.DocSearch.Text.{Text, codes, convert_to_id, to_lower_case, text_eq}
use upciedev.DocSearch.Match.{IsBytes, is_prefix}
use upciedev.DocSearch.Rows.{Div, display_hits, row_hit, row_id, row_hit-row_id}
use upciedev.DocSearch.Results.{
  NodeClass, Node, Nodes, SearchEntry, Target, is_div, create_children, create_scope, create_result,
  create_results,
}
use Prim.Native.String.{}

abbrev is_sr_result : NodeClass → Bool
is_sr_result NodeClass.sr_result = true
is_sr_result NodeClass.sr_entry = false
is_sr_result NodeClass.sr_symbol = false
is_sr_result NodeClass.sr_scope = false
is_sr_result NodeClass.sr_children = false
is_sr_result NodeClass.no_class = false

-- The `div`s among nodes, in the order of the document. A result is hidden by the style sheet.
unfoldable mutual
  pub node_divs : Node → List Div
  node_divs (Node.node name class id link children) =
      let inside = nodes_divs children in
      if is_div name
      then record { is_result = is_sr_result class; id = id; shown = false } ∷ inside
      else inside

  pub nodes_divs : Nodes → List Div
  nodes_divs Nodes.no_more = []
  nodes_divs (Nodes.first_then n ns) = node_divs n ++ nodes_divs ns

-- The ids of the results that are displayed.
abbrev pub shown_ids : List Div → List Text
shown_ids [] = []
shown_ids (d ∷ ds) = let rest = shown_ids ds in if d.is_result && d.shown then d.id ∷ rest else rest

-- The specification: the ids of the entries whose names begin with a word, in any case.
abbrev pub found : Text → List SearchEntry → List Text
found word [] = []
found word (e ∷ es) =
    let rest = found word es in
    if is_prefix word (to_lower_case e.name) then row_id (to_lower_case e.name) ∷ rest else rest

module _ (decimal : ℕ → Text) where
  children-divs : (e c : ℕ) (ts : List Target) → nodes_divs (create_children decimal e c ts) ≡ []
  unfolding nodes_divs node_divs create_children
  children-divs e c [] = refl
  children-divs e c (t ∷ ts) = children-divs e (c + 1) ts

  -- Of the elements of an entry only the outermost is a result.
  result_shown :
      (word : Text) (e : ℕ) (entry : SearchEntry) (ds : List Div)
      → shown_ids (display_hits word (node_divs (create_result decimal e entry) ++ ds)) ≡ (
          if row_hit word (record { is_result = true; id = codes "SR_" ++ entry.id; shown = false })
          then (codes "SR_" ++ entry.id) ∷ shown_ids (display_hits word ds)
          else shown_ids (display_hits word ds))
  unfolding nodes_divs node_divs create_result create_scope row_hit
  result_shown word e entry ds = by_targets entry.targets
    where
      by_targets :
          (ts : List Target)
          → shown_ids (
              display_hits word
                (node_divs (create_result decimal e (record entry { targets = ts })) ++ ds))
            ≡ (if row_hit word
                  (record { is_result = true; id = codes "SR_" ++ entry.id; shown = false })
                then (codes "SR_" ++ entry.id) ∷ shown_ids (display_hits word ds)
                else shown_ids (display_hits word ds))
      by_targets [] = refl
      by_targets (t ∷ []) = refl
      by_targets (t ∷ (u ∷ ts)) = rw (children-divs e 0 (t ∷ u ∷ ts)) refl

abbrev pub is_bytes : Text → Bool
is_bytes [] = true
is_bytes (c ∷ s) = ltb c 256 && is_bytes s

pub is_bytes-IsBytes : (s : Text) → is_bytes s ≡ true → IsBytes s
is_bytes-IsBytes [] h = tt
is_bytes-IsBytes (c ∷ s) h = (ground arith, is_bytes-IsBytes s (ground arith))

text_eq-eq : (s t : Text) → text_eq s t ≡ true → s ≡ t
unfolding text_eq
text_eq-eq [] [] h = refl
text_eq-eq [] (c ∷ t) h = cc
text_eq-eq (c ∷ s) [] h = cc
text_eq-eq (c ∷ s) (d ∷ t) h =
    let same : c ≡ d = ground arith in
    let rest : text_eq s t ≡ true = ground arith in rw (same, text_eq-eq s t rest) refl

-- An entry of the page for the letter `c`: its id is that of its name in lower case, which begins
-- with `c`.
abbrev pub is_listed : ℕ → SearchEntry → Bool
is_listed c entry =
    let name = to_lower_case entry.name in
    is_bytes name && (text_eq entry.id (convert_to_id name) && is_prefix (c ∷ []) name)

abbrev pub all_listed : ℕ → List SearchEntry → Bool
all_listed c [] = true
all_listed c (e ∷ es) = is_listed c e && all_listed c es

-- What the two tests on an entry say.
is_listed-id :
    (c : ℕ) (entry : SearchEntry)
    → is_listed c entry ≡ true
    → codes "SR_" ++ entry.id ≡ row_id (to_lower_case entry.name)
is_listed-id c entry h =
    let same : text_eq entry.id (convert_to_id (to_lower_case entry.name)) ≡ true = ground arith in
    rw (text_eq-eq entry.id (convert_to_id (to_lower_case entry.name)) same) refl

pub is_listed-IsBytes :
    (c : ℕ) (entry : SearchEntry) → is_listed c entry ≡ true → IsBytes (to_lower_case entry.name)
is_listed-IsBytes c entry h = is_bytes-IsBytes (to_lower_case entry.name) (ground arith)

module _ (decimal : ℕ → Text) where
  -- A search for a word shows those results on the page whose names begin with it.
  pub results_shown :
      (word : Text) (c e : ℕ) (es : List SearchEntry) (ds : List Div)
      → IsBytes word
      → all_listed c es ≡ true
      → shown_ids (display_hits (convert_to_id word) ds) ≡ []
      → shown_ids
          (display_hits (convert_to_id word) (nodes_divs (create_results decimal e es) ++ ds))
        ≡ found word es
  unfolding nodes_divs create_results
  results_shown word c e [] ds hw h none_behind = none_behind
  results_shown word c e (entry ∷ es) ds hw h none_behind =
      let listed : is_listed c entry ≡ true = ground arith in
      let behind = results_shown word c (e + 1) es ds hw (ground arith) none_behind in
      let row : Div = record { is_result = true; id = codes "SR_" ++ entry.id; shown = false } in
      let hit =
        row_hit-row_id word (to_lower_case entry.name) row hw (is_listed-IsBytes c entry listed)
          (is_listed-id c entry listed) in
      let after = nodes_divs (create_results decimal (e + 1) es) in
      ap (λ (r : List Div). shown_ids (display_hits (convert_to_id word) r))
        (append_assoc (node_divs (create_result decimal e entry)) after ds)
      ∙ result_shown decimal (convert_to_id word) e entry (after ++ ds)
      ∙ rw (hit, behind, is_listed-id c entry listed) refl
