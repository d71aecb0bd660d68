-- ===== src/Index/Children/Tests.antt =====
-- A split of the node in page 3, with the children 5 and 6, to the one in page 4.
use ob_htap.Prelude.{ℕ, ◌≡◌, ◌≢◌, refl, [], ◌∷◌, if◌then◌else◌, ◌==◌, arith, All}
use ob_htap.Prelude.Int.{pos, negsuc}
use ob_htap.Rc.{Rc}
use ob_htap.Clog.Entry.{le_number}
use ob_htap.Index.Node.{Item, blank, recover_insert_items, copy_to}
use ob_htap.Index.Internal.{InternalNode}
use ob_htap.Index.Redo.{
  Tree, TreePage, other_page, leaf, internal, with_page, on_internal, set_parent_page_num,
}
use ob_htap.Index.Children.{child_of, set_parents, insert_items, append_children, move_half}
use ob_htap.Index.Children.Parents.{AreUnder}
use ob_htap.Index.Children.Split.{move_half-AreUnder}

abbrev item : ℕ → Item
item k = record { key = k ∷ []; value = k ∷ 0 ∷ 0 ∷ 0 ∷ [] }

abbrev left : InternalNode
left = record { parent = pos 2; key_num = 2; array = item 5 ∷ item 6 ∷ blank ∷ [] }

abbrev right : InternalNode
right = record { parent = pos 2; key_num = 0; array = blank ∷ blank ∷ blank ∷ [] }

abbrev child : ℕ → TreePage
child parent =
    leaf (record { parent = pos parent; next_brother = negsuc 0; key_num = 0; array = [] })

abbrev tree : Tree
tree = record {
  file_header = [];
  pages = λ q.
      if q == 3
      then internal left
      else if q == 4
      then internal right
      else if q == 5
      then child 3
      else if q == 6
      then child 3
      else other_page;
}

abbrev split : Tree
split = with_page 3 (internal (record left { key_num = 1 })) (
    with_page 6 (child 4) (
      with_page 4 (internal (record right { key_num = 1; array = item 6 ∷ blank ∷ blank ∷ [] }))
        tree))

move_half-AreUnder_example :
    (split.pages 3 ≡ internal (record left { key_num = 1 }))
    × (split.pages 4 ≡ internal (on_internal (recover_insert_items 0 (item 6 ∷ [])) right))
    × AreUnder 4 (item 6 ∷ []) split
    × ((q : ℕ)
        → q ≢ 3
        → q ≢ 4
        → All (λ x. child_of x ≢ q) (item 6 ∷ [])
        → split.pages q ≡ tree.pages q)
unfolding le_number move_half append_children insert_items set_parents set_parent_page_num
    recover_insert_items copy_to
move_half-AreUnder_example =
    move_half-AreUnder (λ q. Rc.success) Rc.success 3 4 left right tree split (omega arith) refl
      refl (omega arith, tt) (omega arith, tt) refl
