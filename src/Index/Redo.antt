-- ===== src/Index/Redo.antt =====
-- The redo and the rollback of the entries of src/observer/storage/index/bplus_tree_log_entry.cpp. While
-- they run nothing is logged. A page is what its node is known to be; an entry for a
-- page of another kind is outside the model, `none`, as are an assert that fails and an access through a
-- null pointer.
pub mod Changes
use ob_htap.Prelude.{
  ℕ, zero, suc, ◌+◌, ◌-◌, ◌*◌, ◌/◌, List, [], ◌∷◌, ◌++◌, Option, none, some, if◌then◌else◌, ltb,
  ◌==◌, replicate, get_or, take, drop, set,
}
use ob_htap.Prelude.Int.{negsuc}
use ob_htap.Clog.Entry.{le_number, signed32}
use ob_htap.Record.Page.{page_data_size}
use ob_htap.Index.Node.{Item, LeafNode, blank, recover_insert_items, recover_remove_items}
use ob_htap.Index.Internal.{InternalNode}
use ob_htap.Index.Log.{
  NodeLog, init_header_page, update_root_page, set_parent_page, leaf_init_empty, leaf_set_next_page,
  internal_init_empty, internal_create_new_root, internal_update_key, node_insert, node_remove,
  LogEntryHandler, int32,
}

pub data TreePage : Type 0 where
  other_page : TreePage
  header_page : List ℕ → TreePage
  leaf : LeafNode → TreePage
  internal : InternalNode → TreePage

-- `BplusTreeHandler`: its copy of the header, by its bytes, and its pages.
pub record Tree : Type 0 where
  pub file_header : List ℕ
  pub pages : ℕ → TreePage

abbrev pub with_page : ℕ → TreePage → Tree → Tree
with_page page_num page t = record t { pages = λ q. if page_num == q then page else t.pages q }

-- `FIRST_INDEX_PAGE`
abbrev pub first_index_page : ℕ
first_index_page = 1

-- `IndexFileHeader::key_length`
abbrev pub key_length : List ℕ → ℕ
key_length header = le_number (take 4 (drop (4 * (3 + 20)) header))

-- `sizeof(RID)` and `sizeof(PageNum)`
abbrev pub leaf_value_size : ℕ
leaf_value_size = 8

abbrev pub internal_value_size : ℕ
internal_value_size = 4

-- The items in an array of bytes.
unfoldable pub items_of : ℕ → ℕ → ℕ → List ℕ → List Item
items_of key_size value_size zero bytes = []
items_of key_size value_size (suc num) bytes =
    record { key = take key_size bytes; value = take value_size (drop key_size bytes) }
    ∷ items_of key_size value_size num (drop (key_size + value_size) bytes)

-- `IndexFileHeader::root_page` is set.
abbrev pub set_root : ℕ → List ℕ → List ℕ
set_root page_num header = int32 page_num ++ drop 4 header

-- `recover_init_header_page` and `recover_update_root_page`
unfoldable pub recover_init_header_page : ℕ → List ℕ → Tree → Tree
recover_init_header_page page_num header t =
    with_page page_num (header_page header) (record t { file_header = header })

unfoldable pub recover_update_root_page : ℕ → Tree → Option Tree
recover_update_root_page root t = elim (t.pages first_index_page) [
  | header_page header ↦ some (
      with_page first_index_page (header_page (set_root root header))
        (record t { file_header = set_root root t.file_header }))
  | other_page ↦ none
  | leaf n ↦ none
  | internal n ↦ none
]

-- An inner node has the same array and count as a leaf.
abbrev pub on_internal : (LeafNode → LeafNode) → InternalNode → InternalNode
on_internal f n =
    let n' = f (record {
      parent = n.parent;
      next_brother = n.parent;
      key_num = n.key_num;
      array = n.array;
    }) in
    record n { key_num = n'.key_num; array = n'.array }

abbrev pub on_node :
    (LeafNode → LeafNode) → (InternalNode → InternalNode) → TreePage → Option TreePage
on_node f g (leaf n) = some (leaf (f n))
on_node f g (internal n) = some (internal (g n))
on_node f g other_page = none
on_node f g (header_page header) = none

-- `IndexNodeHandler::set_parent_page_num`, and `LeafIndexNodeHandler::set_next_page`
unfoldable pub set_parent_page_num : ℕ → TreePage → Option TreePage
set_parent_page_num page_num =
    on_node (λ n. record n { parent = signed32 page_num })
      (λ n. record n { parent = signed32 page_num })

unfoldable pub set_next_page : ℕ → TreePage → Option TreePage
set_next_page page_num (leaf n) = some (leaf (record n { next_brother = signed32 page_num }))
set_next_page page_num (internal n) = none
set_next_page page_num other_page = none
set_next_page page_num (header_page header) = none

-- The places of an array, as many as fit the page behind the header of the node. Those that are not in use
-- are blank in a node that is laid out again, whatever was left there.
abbrev pub places : ℕ → ℕ → List Item
places header_size item_size = replicate ((page_data_size - header_size) / item_size) blank

-- `LeafIndexNodeHandler::init_empty`, and `InternalIndexNodeHandler::init_empty`
unfoldable pub empty_leaf : ℕ → TreePage
empty_leaf key_size = leaf (record {
  parent = negsuc 0;
  next_brother = negsuc 0;
  key_num = 0;
  array = places 16 (key_size + leaf_value_size);
})

unfoldable pub empty_internal : ℕ → TreePage
empty_internal key_size =
    internal (record {
      parent = negsuc 0;
      key_num = 0;
      array = places 12 (key_size + internal_value_size);
    })

-- `InternalIndexNodeHandler::create_new_root`
unfoldable pub create_new_root : ℕ → ℕ → List ℕ → ℕ → InternalNode → InternalNode
create_new_root key_size first key page n =
    let first_item : Item = record { key = replicate key_size 0; value = int32 first } in
    let second_item : Item = record { key = take key_size key; value = int32 page } in
    record n { array = set (set n.array 0 first_item) 1 second_item; key_num = n.key_num + 2 }

-- `InternalIndexNodeHandler::set_key_at`
unfoldable pub set_key_at : ℕ → ℕ → List ℕ → TreePage → Option TreePage
set_key_at key_size index key (internal n) =
    if ltb index n.key_num
    then some (
        internal (record n {
          array =
              set n.array index (record (get_or n.array index blank) { key = take key_size key });
        }))
    else none
set_key_at key_size index key (leaf n) = none
set_key_at key_size index key other_page = none
set_key_at key_size index key (header_page header) = none

-- `NormalOperationLogEntryHandler::redo`
abbrev pub redo_insert : ℕ → ℕ → List ℕ → ℕ → TreePage → Option TreePage
redo_insert key_size index items num p =
    on_node (recover_insert_items index (items_of key_size leaf_value_size num items))
      (on_internal (recover_insert_items index (items_of key_size internal_value_size num items))) p

abbrev pub redo_remove : ℕ → ℕ → TreePage → Option TreePage
redo_remove index num p =
    on_node (recover_remove_items index num) (on_internal (recover_remove_items index num)) p

-- `redo` of the entry of a node, on its page
unfoldable pub redo_node : ℕ → NodeLog → TreePage → Option TreePage
redo_node key_size (set_parent_page page old) p = set_parent_page_num page p
redo_node key_size leaf_init_empty p = some (empty_leaf key_size)
redo_node key_size (leaf_set_next_page page old) p = set_next_page page p
redo_node key_size internal_init_empty p = some (empty_internal key_size)
redo_node key_size (internal_create_new_root first key page) (internal n) =
    some (internal (create_new_root key_size first key page n))
redo_node key_size (internal_create_new_root first key page) p = none
redo_node key_size (internal_update_key index key old) p = set_key_at key_size index key p
redo_node key_size (node_insert index items num) p = redo_insert key_size index items num p
redo_node key_size (node_remove index items num) p = redo_remove index num p
redo_node key_size (init_header_page header) p = none
redo_node key_size (update_root_page page old) p = none

abbrev pub redo_page : ℕ → NodeLog → Tree → Option Tree
redo_page page_num o t = elim (redo_node (key_length t.file_header) o (t.pages page_num)) [
  | none ↦ none
  | some p ↦ some (with_page page_num p t)
]

-- `redo` of an entry
unfoldable pub redo_operation : ℕ → NodeLog → Tree → Option Tree
redo_operation page_num (init_header_page header) t =
    some (recover_init_header_page page_num header t)
redo_operation page_num (update_root_page page old) t = recover_update_root_page page t
redo_operation page_num (set_parent_page page old) t =
    redo_page page_num (set_parent_page page old) t
redo_operation page_num leaf_init_empty t = redo_page page_num leaf_init_empty t
redo_operation page_num (leaf_set_next_page page old) t =
    redo_page page_num (leaf_set_next_page page old) t
redo_operation page_num internal_init_empty t = redo_page page_num internal_init_empty t
redo_operation page_num (internal_create_new_root first key page) t =
    redo_page page_num (internal_create_new_root first key page) t
redo_operation page_num (internal_update_key index key old) t =
    redo_page page_num (internal_update_key index key old) t
redo_operation page_num (node_insert index items num) t =
    redo_page page_num (node_insert index items num) t
redo_operation page_num (node_remove index items num) t =
    redo_page page_num (node_remove index items num) t

abbrev pub redo_entry : LogEntryHandler → Tree → Option Tree
redo_entry e = redo_operation e.page_num e.operation
