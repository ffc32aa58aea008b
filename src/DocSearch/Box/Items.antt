-- ===== src/DocSearch/Box/Items.antt =====
-- The items of the selection window, one by one (SelectItemCount and SelectItemSet of search.js), and
-- what the search box keeps of them.
use upciedev.Prelude.{
  ℕ, ◌+◌, ◌≡◌, Bool, List, [], ◌∷◌, ltb, ◌==◌, if◌then◌else◌, Option, none, some, Bool-cases, inl,
  inr, arith,
}
use upciedev.DocSearch.Box.{SearchBox, select_item_set}

-- A child of the window: whether its class is SelectItem, and whether its first child is a bullet.
pub record Child : Type 0 where
  pub is_item : Bool
  pub is_marked : Bool

unfoldable pub select_item_count : List Child → ℕ
select_item_count [] = 0
select_item_count (c ∷ cs) = let rest = select_item_count cs in if c.is_item then rest + 1 else rest

-- The loop over the children, `j` being the number of items before.
unfoldable pub mark_loop : ℕ → ℕ → List Child → List Child
mark_loop id j [] = []
mark_loop id j (c ∷ cs) =
    let rest = mark_loop id j cs in
    let behind = mark_loop id (j + 1) cs in
    if c.is_item then record c { is_marked = j == id } ∷ behind else c ∷ rest

abbrev pub select_item_set_loop : ℕ → List Child → List Child
select_item_set_loop id cs = mark_loop id 0 cs

-- The first item with a bullet, `j` being the number of items before.
abbrev pub marked_from : ℕ → List Child → Option ℕ
marked_from j [] = none
marked_from j (c ∷ cs) =
    let rest = marked_from j cs in
    let behind = marked_from (j + 1) cs in
    if c.is_item then (if c.is_marked then some j else behind) else rest

mark_loop-marked :
    (id j : ℕ) (cs : List Child)
    → marked_from j (mark_loop id j cs)
      ≡ (if ltb id j then none else if ltb id (j + select_item_count cs) then some id else none)
unfolding mark_loop select_item_count
mark_loop-marked id j [] = ground arith
mark_loop-marked id j (c ∷ cs) = elim (Bool-cases c.is_item) [
  | inl item ↦ rw item (ground (arith, mark_loop-marked id (j + 1) cs))
  | inr other ↦ rw other (mark_loop-marked id j cs)
]

-- After SelectItemSet the bullet stands at the item `id`, or at none when the window has no such item:
-- what the search box keeps of the window.
select_item_set_loop-marked :
    (id : ℕ) (cs : List Child) (s : SearchBox)
    → s.select_items ≡ select_item_count cs
    → marked_from 0 (select_item_set_loop id cs) ≡ (select_item_set id s).marked_item
unfolding select_item_set
select_item_set_loop-marked id cs s items = rw (items, mark_loop-marked id 0 cs) (ground arith)
