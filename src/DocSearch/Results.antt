-- ===== src/DocSearch/Results.antt =====
-- `createResults` and `FindChildElement` of Doc/html/search/search.js: the page of results as a tree
-- of elements, and the search for the element that holds a row's children.
pub mod Items
use upciedev.Prelude.{
  ℕ, zero, suc, ◌+◌, ◌≤◌, ◌<◌, Bool, true, false, not, ◌&&◌, List, [], ◌∷◌, ◌++◌, ◌==◌,
  if◌then◌else◌, length, Option, none, some, ◌≡◌, refl, arith, Bool-cases, if-both, inl, inr,
}
use upciedev.DocSearch.Text.{Text, codes}

-- The names and classes of the elements that are made; `text` is a text node.
pub data NodeName : Type 0 where
  div : NodeName
  a : NodeName
  span : NodeName
  text : NodeName

pub data NodeClass : Type 0 where
  sr_result : NodeClass
  sr_entry : NodeClass
  sr_symbol : NodeClass
  sr_scope : NodeClass
  sr_children : NodeClass
  no_class : NodeClass

abbrev pub is_div : NodeName → Bool
is_div div = true
is_div a = false
is_div span = false
is_div text = false

abbrev pub is_sr_children : NodeClass → Bool
is_sr_children sr_children = true
is_sr_children sr_result = false
is_sr_children sr_entry = false
is_sr_children sr_symbol = false
is_sr_children sr_scope = false
is_sr_children no_class = false

-- A node has its name, class, id, link and child nodes. The `div`s, which alone have children that
-- the search goes into, are the ones of `createResults`; what `innerHTML` makes of a text is one
-- text node.
mutual
  pub data Node : Type 0 where
    node : NodeName → NodeClass → Text → Text → Nodes → Node

  pub data Nodes : Type 0 where
    no_more : Nodes
    first_then : Node → Nodes → Nodes

-- Where the search stands: at a node with the siblings behind it, and, from the inside out, the
-- siblings behind the elements around it, up to the one that it began in; or it has left that one.
pub data Place : Type 0 where
  left_parent : Place
  at_node : Node → Nodes → List Nodes → Place

-- `element.nextSibling`, or that of the nearest element around that has one.
unfoldable pub next_sibling : Nodes → List Nodes → Place
next_sibling (first_then n behind) around = at_node n behind around
next_sibling no_more [] = left_parent
next_sibling no_more (behind ∷ around) = next_sibling behind around

-- One round of the loop from a node that is not the one looked for: to its first child, if it is a
-- `div` that has one, else to the next sibling.
unfoldable pub next_place : Node → Nodes → List Nodes → Place
unfolding next_sibling
next_place (node name class id link no_more) behind around = next_sibling behind around
next_place (node name class id link (first_then c cs)) behind around =
    if is_div name then at_node c cs (behind ∷ around) else next_sibling behind around

abbrev pub is_found : Node → Bool
is_found (node name class id link children) = is_div name && is_sr_children class

-- `FindChildElement` from a place; `none` in the end is what JavaScript calls undefined, outside
-- stands for a walk that the fuel cuts off.
unfoldable pub find_from : ℕ → Place → Option (Option Node)
unfolding next_place
find_from fuel left_parent = some none
find_from zero (at_node n behind around) = none
find_from (suc fuel) (at_node n behind around) =
    let rest = find_from fuel (next_place n behind around) in
    if is_found n then some (some n) else rest

unfoldable pub find_child_element : ℕ → Node → Option (Option Node)
unfolding find_from
find_child_element fuel (node name class id link no_more) = some none
find_child_element fuel (node name class id link (first_then c cs)) =
    find_from fuel (at_node c cs [])

-- The number of nodes that are ahead of a place.
mutual
  pub node_size : Node → ℕ
  node_size (node name class id link children) = suc (nodes_size children)

  nodes_size : Nodes → ℕ
  nodes_size no_more = 0
  nodes_size (first_then n ns) = node_size n + nodes_size ns

abbrev around_size : List Nodes → ℕ
around_size [] = 0
around_size (ns ∷ around) = nodes_size ns + around_size around

abbrev place_size : Place → ℕ
place_size left_parent = 0
place_size (at_node n behind around) = node_size n + nodes_size behind + around_size around

next_sibling-place_size :
    (behind : Nodes) (around : List Nodes)
    → place_size (next_sibling behind around) ≡ nodes_size behind + around_size around
unfolding next_sibling nodes_size
next_sibling-place_size (first_then n ns) around = refl
next_sibling-place_size no_more [] = refl
next_sibling-place_size no_more (ns ∷ around) = omega (arith, next_sibling-place_size ns around)

next_place-place_size :
    (n : Node) (behind : Nodes) (around : List Nodes)
    → place_size (next_place n behind around) < place_size (at_node n behind around)
unfolding next_place nodes_size node_size
next_place-place_size (node name class id link no_more) behind around =
    omega (arith, next_sibling-place_size behind around)
next_place-place_size (node name class id link (first_then c cs)) behind around =
    let whole = suc (node_size c + nodes_size cs) + nodes_size behind + around_size around in
    if-both (λ (p : Place). place_size p < whole) (is_div name) (omega arith)
      (omega (arith, next_sibling-place_size behind around))

node_size-positive : (n : Node) → 0 < node_size n
unfolding node_size
node_size-positive (node name class id link children) = omega arith

find_from-ends :
    (fuel : ℕ) (p : Place) → place_size p ≤ fuel → (r : Option Node) × (find_from fuel p ≡ some r)
unfolding find_from
find_from-ends fuel left_parent h = (none, refl)
find_from-ends zero (at_node n behind around) h = absurd (omega (arith, node_size-positive n))
find_from-ends (suc fuel) (at_node n behind around) h =
    let ends =
      find_from-ends fuel (next_place n behind around)
        (omega (arith, next_place-place_size n behind around)) in
    if-both (λ (o : Option (Option Node)). (r : Option Node) × (o ≡ some r)) (is_found n)
      (some n, refl) ends

-- The search for the children ends on every tree: as many rounds as the tree has nodes are enough.
find_child_element_ends :
    (fuel : ℕ) (parent : Node)
    → node_size parent ≤ fuel
    → (r : Option Node) × (find_child_element fuel parent ≡ some r)
unfolding find_child_element node_size
find_child_element_ends fuel (node name class id link no_more) h = (none, refl)
find_child_element_ends fuel (node name class id link (first_then c cs)) h =
    find_from-ends fuel (at_node c cs []) (omega arith)

-- An entry of `searchData`: its id, its name, and where it is documented. Whether a link opens in
-- the parent frame is left out.
pub record Target : Type 0 where
  pub href : Text
  pub scope : Text

pub record SearchEntry : Type 0 where
  pub id : Text
  pub name : Text
  pub targets : List Target

-- The decimal digits of an index are a parameter, `decimal`: `'Item'+e`.
module _ (decimal : ℕ → Text) where
  abbrev pub inner_html : Text → Nodes
  inner_html s = first_then (node text no_class [] s no_more) no_more

  -- The loop over the children of item `e`, from `c` on.
  unfoldable pub create_children : ℕ → ℕ → List Target → Nodes
  create_children e c [] = no_more
  create_children e c (t ∷ ts) =
      first_then
        (node a sr_scope (codes "Item" ++ decimal e ++ codes "_c" ++ decimal c) t.href
          (inner_html t.scope))
        (create_children e (c + 1) ts)

  -- The nodes behind the link: the scope of a single result, or the element of the children.
  unfoldable pub create_scope : ℕ → List Target → Node
  unfolding create_children
  create_scope e [] = node div sr_children [] [] no_more
  create_scope e (t ∷ []) = node span sr_scope [] [] (inner_html t.scope)
  create_scope e (t ∷ (u ∷ ts)) = node div sr_children [] [] (create_children e 0 (t ∷ u ∷ ts))

  -- The link of an entry: to its place, or one that calls `Toggle`.
  unfoldable pub entry_link : Text → List Target → Text
  entry_link id [] = codes "javascript:searchResults.Toggle(\"SR_" ++ id ++ codes "\")"
  entry_link id (t ∷ []) = t.href
  entry_link id (t ∷ (u ∷ ts)) = codes "javascript:searchResults.Toggle(\"SR_" ++ id ++ codes "\")"

  -- One round of the loop of `createResults`.
  unfoldable pub create_result : ℕ → SearchEntry → Node
  unfolding create_scope entry_link
  create_result e entry = node div sr_result (codes "SR_" ++ entry.id) [] (
      first_then
        (node div sr_entry [] [] (
          first_then
            (node a sr_symbol (codes "Item" ++ decimal e) (entry_link entry.id entry.targets)
              (inner_html entry.name))
            (first_then (create_scope e entry.targets) no_more)))
        no_more)

  -- The whole page, from item `e` on.
  unfoldable pub create_results : ℕ → List SearchEntry → Nodes
  unfolding create_result
  create_results e [] = no_more
  create_results e (entry ∷ entries) =
      first_then (create_result e entry) (create_results (e + 1) entries)

  -- Three rounds are enough to find a row's children: on a row that has been made of an entry the
  -- search ends with the element of the children, or with nothing if the entry has a single target.
  pub find_child_element-create_result :
      (fuel e : ℕ) (entry : SearchEntry)
      → 3 ≤ fuel
      → find_child_element fuel (create_result e entry)
        ≡ some (if length entry.targets == 1 then none else some (create_scope e entry.targets))
  unfolding find_child_element find_from create_result create_scope
  find_child_element-create_result zero e entry h = absurd (omega arith)
  find_child_element-create_result (suc zero) e entry h = absurd (omega arith)
  find_child_element-create_result (suc (suc zero)) e entry h = absurd (omega arith)
  find_child_element-create_result (suc (suc (suc fuel))) e entry h = by_targets entry.targets
    where
      by_targets :
          (ts : List Target)
          → find_child_element
              (suc (suc (suc fuel)))
              (create_result e (record entry { targets = ts }))
            ≡ some (if length ts == 1 then none else some (create_scope e ts))
      by_targets [] = refl
      by_targets (t ∷ []) = refl
      by_targets (t ∷ (u ∷ ts)) =
          let several : (length (t ∷ u ∷ ts) == 1) ≡ false = ground arith in rw several
