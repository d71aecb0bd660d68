-- ===== src/Index/Node.antt =====
-- The nodes of src/observer/storage/index/bplus_tree.cpp. The array of a page is a list of items, all
-- of one size; what lies behind the items in use is what was left there. What the log answers to a
-- record is an argument. An assert that fails is `none`.
pub mod Items
pub mod Leaf
pub mod Sorted
use ob_htap.Prelude.{
  ℕ, suc, ◌+◌, ◌-◌, ◌/◌, List, [], ◌∷◌, Bool, Option, none, some, if◌then◌else◌, ltb, length,
  get_or, take, drop, set,
}
use ob_htap.Prelude.Int.{ℤ}
use ob_htap.Rc.{Rc, ob_succ}
use ob_htap.Index.LowerBound.{lower_bound}

-- A key, which ends in the `RID` of its row, and a value.
pub record Item : Type 0 where
  pub key : List ℕ
  pub value : List ℕ

-- `LeafIndexNode`
pub record LeafNode : Type 0 where
  pub parent : ℤ
  pub next_brother : ℤ
  pub key_num : ℕ
  pub array : List Item

-- `memmove` and `memcpy` to the items from `index` on.
unfoldable pub copy_to : List Item → ℕ → List Item → List Item
copy_to array index [] = array
copy_to array index (x ∷ xs) = copy_to (set array index x) (suc index) xs

-- `num` items from `index` on
abbrev pub items_at : List Item → ℕ → ℕ → List Item
items_at array index num = take num (drop index array)

-- `IndexNodeHandler::recover_insert_items`
unfoldable pub recover_insert_items : ℕ → List Item → LeafNode → LeafNode
recover_insert_items index items n =
    let num = length items in
    let moved =
      if ltb index n.key_num
      then copy_to n.array (index + num) (items_at n.array index (n.key_num - index))
      else n.array in
    record n { array = copy_to moved index items; key_num = n.key_num + num }

-- `IndexNodeHandler::recover_remove_items`
unfoldable pub recover_remove_items : ℕ → ℕ → LeafNode → LeafNode
recover_remove_items index num n =
    let moved =
      if ltb index (n.key_num - num)
      then copy_to n.array index (items_at n.array (index + num) (n.key_num - index - num))
      else n.array in
    record n { array = moved; key_num = n.key_num - num }

-- `LeafIndexNodeHandler::append` of items, and `insert`
unfoldable pub append_items : Rc → List Item → LeafNode → Rc × LeafNode
append_items log_rc items n =
    if ob_succ log_rc then (Rc.success, recover_insert_items n.key_num items n) else (log_rc, n)

unfoldable pub insert_item : Rc → ℕ → Item → LeafNode → Rc × LeafNode
insert_item log_rc index item n =
    if ob_succ log_rc then (Rc.success, recover_insert_items index (item ∷ []) n) else (log_rc, n)

-- `LeafIndexNodeHandler::remove` of the item at a place
unfoldable pub remove_item : Rc → ℕ → LeafNode → Option (Rc × LeafNode)
remove_item log_rc index n =
    if ltb index n.key_num
    then some (if ob_succ log_rc then (Rc.success, recover_remove_items index 1 n) else (log_rc, n))
    else none

-- The item behind the end of the array, which no operation reads.
abbrev pub blank : Item
blank = record { key = []; value = [] }

-- `LeafIndexNodeHandler::lookup`
unfoldable pub lookup : (List ℕ → List ℕ → ℤ) → List ℕ → LeafNode → Option (ℕ × Bool)
lookup comparator key n = lower_bound (λ i. comparator (get_or n.array i blank).key key) n.key_num

-- `LeafIndexNodeHandler::remove` of a key, with the number of items removed
unfoldable pub remove_key : (List ℕ → List ℕ → ℤ) → Rc → List ℕ → LeafNode → Option (ℕ × LeafNode)
remove_key comparator log_rc key n = elim (lookup comparator key n) [
  | none ↦ none
  | some (index, found) ↦
      if found
      then elim (remove_item log_rc index n) [ none ↦ none | some (rc, n') ↦ some (1, n') ]
      else some (0, n)
]

-- `LeafIndexNodeHandler::move_half_to`: the answer of the other node's log is not looked at.
unfoldable pub move_half_to : Rc → Rc → LeafNode → LeafNode → Rc × LeafNode × LeafNode
move_half_to append_rc log_rc n other =
    let move_index = n.key_num / 2 in
    let num = n.key_num - move_index in
    let (rc, other') = append_items append_rc (items_at n.array move_index num) other in
    if ob_succ log_rc
    then (Rc.success, recover_remove_items move_index num n, other')
    else (log_rc, n, other')

-- `LeafIndexNodeHandler::move_first_to_end` and `move_last_to_front`
unfoldable pub move_first_to_end : Rc → Rc → LeafNode → LeafNode → Option (Rc × LeafNode × LeafNode)
move_first_to_end append_rc log_rc n other =
    let (rc, other') = append_items append_rc (items_at n.array 0 1) other in
    elim (remove_item log_rc 0 n) [ none ↦ none | some (rc', n') ↦ some (rc', n', other') ]

unfoldable pub move_last_to_front :
    Rc → Rc → LeafNode → LeafNode → Option (Rc × LeafNode × LeafNode)
move_last_to_front insert_rc log_rc n other =
    if ltb 0 n.key_num
    then (let (rc, other') = insert_item insert_rc 0 (get_or n.array (n.key_num - 1) blank) other in
        elim (remove_item log_rc (n.key_num - 1) n) [
          | none ↦ none
          | some (rc', n') ↦ some (Rc.success, n', other')
        ])
    else none

-- `LeafIndexNodeHandler::move_to`: the items are gone whatever the log answers. `next_rc` is what it
-- answers to the other node's next page.
unfoldable pub move_to : Rc → Rc → LeafNode → LeafNode → Rc × LeafNode × LeafNode
move_to append_rc next_rc n other =
    let (rc, other') = append_items append_rc (items_at n.array 0 n.key_num) other in
    let other'' =
      if ob_succ next_rc then record other' { next_brother = n.next_brother } else other' in
    (Rc.success, record n { key_num = 0 }, other'')
