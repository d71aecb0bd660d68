-- ===== src/Index/Redo/Changes.antt =====
-- The changes of a leaf and their entries.
use ob_htap.Prelude.{
  ℕ, ◌+◌, ◌≡◌, refl, List, [], ◌∷◌, ◌++◌, Option, some, if◌then◌else◌, length, arith, take, drop,
  take-append, drop-append, append_assoc, length-append, sym, All,
}
use ob_htap.Prelude.Int.{ℤ}
use ob_htap.Rc.{Rc, ob_succ}
use ob_htap.Clog.Entry.{signed32}
use ob_htap.Index.Node.{
  Item, LeafNode, items_at, recover_insert_items, append_items, insert_item, remove_item,
}
use ob_htap.Index.Log.{NodeLog, leaf_set_next_page, set_parent_page, node_insert, node_remove}
use ob_htap.Index.Redo.{
  leaf, items_of, leaf_value_size, redo_node, set_next_page, set_parent_page_num,
}

-- The bytes of items in an array.
unfoldable pub item_bytes : List Item → List ℕ
item_bytes [] = []
item_bytes (x ∷ xs) = (x.key ++ x.value) ++ item_bytes xs

-- A change of a leaf.
pub data LeafChange : Type 0 where
  append_change : List Item → LeafChange
  insert_change : ℕ → Item → LeafChange
  remove_change : ℕ → LeafChange
  next_change : ℕ → LeafChange
  parent_change : ℕ → LeafChange

-- What each changes, where the log answers with a code.
unfoldable pub change : Rc → LeafChange → LeafNode → Option (Rc × LeafNode)
change rc (append_change items) n = some (append_items rc items n)
change rc (insert_change index item) n = some (insert_item rc index item n)
change rc (remove_change index) n = remove_item rc index n
change rc (next_change page) n =
    some (if ob_succ rc then (Rc.success, record n { next_brother = signed32 page }) else (rc, n))
change rc (parent_change page) n =
    some (if ob_succ rc then (Rc.success, record n { parent = signed32 page }) else (rc, n))

-- The entry that each has logged before; `pattern` gives the bits of a page number.
unfoldable pub log_of : (ℤ → ℕ) → LeafChange → LeafNode → NodeLog
log_of pattern (append_change items) n = node_insert n.key_num (item_bytes items) (length items)
log_of pattern (insert_change index item) n = node_insert index (item_bytes (item ∷ [])) 1
log_of pattern (remove_change index) n = node_remove index (item_bytes (items_at n.array index 1)) 1
log_of pattern (next_change page) n = leaf_set_next_page page (pattern n.next_brother)
log_of pattern (parent_change page) n = set_parent_page page (pattern n.parent)

-- Items of one size.
abbrev pub AreSized : ℕ → List Item → Type 0
AreSized key_size items =
    All (λ x. (length x.key ≡ key_size) × (length x.value ≡ leaf_value_size)) items

abbrev pub IsSizedChange : ℕ → LeafChange → Type 0
IsSizedChange key_size (append_change items) = AreSized key_size items
IsSizedChange key_size (insert_change index item) = AreSized key_size (item ∷ [])
IsSizedChange key_size (remove_change index) = Unit {0}
IsSizedChange key_size (next_change page) = Unit {0}
IsSizedChange key_size (parent_change page) = Unit {0}

items_of-item_bytes :
    (key_size : ℕ) (xs : List Item)
    → AreSized key_size xs
    → items_of key_size leaf_value_size (length xs) (item_bytes xs) ≡ xs
unfolding items_of item_bytes
items_of-item_bytes k [] s = refl
items_of-item_bytes k (x ∷ xs) ((a, b), s) =
    let rest = item_bytes xs in
    let one : take k ((x.key ++ x.value) ++ rest) ≡ x.key =
      rw (append_assoc x.key x.value rest, take-append x.key (x.value ++ rest) k (sym a)) refl in
    let two : take leaf_value_size (drop k ((x.key ++ x.value) ++ rest)) ≡ x.value =
      rw
        (
          append_assoc x.key x.value rest,
          drop-append x.key (x.value ++ rest) k (sym a),
          take-append x.value rest leaf_value_size (sym b),
        )
        refl in
    let three : drop (k + leaf_value_size) ((x.key ++ x.value) ++ rest) ≡ rest =
      drop-append (x.key ++ x.value) rest (k + leaf_value_size)
        (omega (arith, length-append x.key x.value)) in
    rw (one, two, three, items_of-item_bytes k xs s) refl

-- A change of a leaf that succeeds is made again by the redo of the entry that it has logged.
pub redo_node-log_of :
    (key_size : ℕ) (pattern : ℤ → ℕ) (c : LeafChange) (n : LeafNode) {n' : LeafNode}
    → IsSizedChange key_size c
    → change Rc.success c n ≡ some (Rc.success, n')
    → redo_node key_size (log_of pattern c n) (leaf n) ≡ some (leaf n')
unfolding change log_of redo_node append_items insert_item remove_item set_next_page
    set_parent_page_num
redo_node-log_of k pattern (append_change items) n {n'} s h =
    let e : n' ≡ recover_insert_items n.key_num items n = ground arith in
    rw (items_of-item_bytes k items s, e) refl
redo_node-log_of k pattern (insert_change index item) n {n'} s h =
    let e : n' ≡ recover_insert_items index (item ∷ []) n = ground arith in
    rw (items_of-item_bytes k (item ∷ []) s, e) refl
redo_node-log_of k pattern (remove_change index) n {n'} s h = ground arith
redo_node-log_of k pattern (next_change page) n {n'} s h = ground arith
redo_node-log_of k pattern (parent_change page) n {n'} s h = ground arith
