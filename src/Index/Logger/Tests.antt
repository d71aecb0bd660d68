-- ===== src/Index/Logger/Tests.antt =====
-- The log of a leaf with one-byte keys and places for three items.
use ob_htap.Prelude.{
  ℕ, ◌≡◌, ◌++◌, refl, List, [], ◌∷◌, none, some, arith, true, replicate, ◌^◌, ◌-◌, ◌⊎◌, ◌==◌,
  if◌then◌else◌,
}
use ob_htap.Prelude.Int.{ℤ, pos, negsuc}
use ob_htap.Rc.{Rc}
use ob_htap.Clog.Entry.{le_bytes, le_number}
use ob_htap.Clog.File.{readn}
use ob_htap.Index.Node.{Item, LeafNode, blank, recover_insert_items, insert_item}
use ob_htap.Index.Log.{
  leaf_set_next_page, node_insert, node_remove, LogEntryHandler, parsed, from_buffer, serialize,
  no_page, read_int32, read_bytes, serialize_body, index_of, deserialize,
}
use ob_htap.Index.Log.Codec.{from_buffer-serialize}
use ob_htap.Index.Redo.{Tree, leaf, other_page, redo_operation, redo_node, set_next_page}
use ob_htap.Index.Logger.{Lsns, redo_loop, serialize_all, set_lsns, redo}
use ob_htap.Index.Redo.Changes.{insert_change, change, log_of, redo_node-log_of}
use ob_htap.Index.Logger.Undo.{touches_items, undone, IsRestored, rollback_node-log_of}
use ob_htap.Index.Logger.Replay.{AreEncodable, redo_entries, redo-serialize_all, redo-redo}

abbrev item : ℕ → List ℕ
item k = k ∷ 0 ∷ 0 ∷ 0 ∷ 0 ∷ 0 ∷ 0 ∷ 0 ∷ k ∷ []

-- A header whose key length is 1.
abbrev header : List ℕ
header = replicate 92 0 ++ (1 ∷ replicate 95 0)

abbrev node : LeafNode
node = record {
  parent = negsuc 0;
  next_brother = negsuc 0;
  key_num = 0;
  array = blank ∷ blank ∷ blank ∷ [];
}

abbrev tree : Tree
tree = record { file_header = header; pages = λ q. if q == 3 then leaf node else other_page }

-- Two items are inserted in page 3, the first is removed, and the page is linked.
abbrev entries : List LogEntryHandler
entries =
    record { page_num = 3; operation = node_insert 0 (item 5 ++ item 7) 2 }
    ∷ record { page_num = 3; operation = node_remove 0 (item 5) 1 }
    ∷ record { page_num = 3; operation = leaf_set_next_page 4 9 }
    ∷ []

abbrev at_hand : ℕ → Rc
at_hand page_num = Rc.success

entries-AreEncodable : AreEncodable at_hand entries
entries-AreEncodable = (
  omega arith,
  (omega arith, omega arith, omega arith),
  refl,
  (
    omega arith,
    (omega arith, omega arith, omega arith),
    refl,
    (omega arith, omega arith, refl, tt),
  ),
)

abbrev low : Lsns
low q = 2

from_buffer-serialize_example :
    from_buffer at_hand
      (serialize (record { page_num = 3; operation = leaf_set_next_page 4 9 }) ++ (1 ∷ []))
    ≡ parsed (record { page_num = 3; operation = leaf_set_next_page 4 no_page }) (1 ∷ [])
from_buffer-serialize_example =
    from_buffer-serialize at_hand (record { page_num = 3; operation = leaf_set_next_page 4 9 })
      (1 ∷ []) (omega arith) (omega arith) refl

redo-serialize_all_example :
    redo at_hand 8 (serialize_all entries) (low, tree) ≡ elim (redo_entries 8 low entries tree) [
      | none ↦ none
      | some (frames, t') ↦ some (Rc.success, set_lsns 8 frames low, t')
    ]
redo-serialize_all_example = redo-serialize_all at_hand 8 low entries tree entries-AreEncodable

-- The tree with one node in page 3.
abbrev with_node : LeafNode → Tree
with_node n = record tree { pages = λ q. if 3 == q then leaf n else tree.pages q }

abbrev linked : Tree
linked = with_node (record node { next_brother = pos 4 })

redo-redo_example :
    redo at_hand 8
      (serialize_all (record { page_num = 3; operation = leaf_set_next_page 4 9 } ∷ []))
      (set_lsns 8 (3 ∷ []) low, linked)
    ≡ some (Rc.success, set_lsns 8 (3 ∷ []) low, linked)
unfolding redo redo_loop from_buffer serialize_all serialize redo_operation redo_node set_next_page
    le_bytes read_int32 read_bytes readn serialize_body le_number index_of deserialize
redo-redo_example =
    redo-redo at_hand 8 low (record { page_num = 3; operation = leaf_set_next_page 4 9 } ∷ []) tree
      (omega arith, omega arith, refl, tt) refl

abbrev five : Item
five = record { key = 5 ∷ []; value = 0 ∷ 0 ∷ 0 ∷ 0 ∷ 0 ∷ 0 ∷ 0 ∷ 5 ∷ [] }

-- The bits of a page number that is negative or small.
abbrev bits : ℤ → ℕ
bits z = elim z [ pos n ↦ n | negsuc n ↦ 2 ^ 32 - 1 - n ]

redo_node-log_of_example :
    redo_node 1 (log_of bits (insert_change 0 five) node) (leaf node)
    ≡ some (leaf (recover_insert_items 0 (five ∷ []) node))
unfolding change insert_item
redo_node-log_of_example =
    redo_node-log_of 1 bits (insert_change 0 five) node ((refl, refl), tt) refl

rollback_node-log_of_example :
    ((touches_items (insert_change 0 five) node ≡ true)
      × (undone 1 bits (insert_change 0 five) node (recover_insert_items 0 (five ∷ []) node)
          ≡ none))
    ⊎ ((m : LeafNode) × (undone 1 bits
            (insert_change 0 five)
            node
            (recover_insert_items 0 (five ∷ []) node)
          ≡ some (leaf m))
        × IsRestored node m)
unfolding change insert_item
rollback_node-log_of_example =
    rollback_node-log_of 1 bits (insert_change 0 five) node refl refl (omega arith) refl
