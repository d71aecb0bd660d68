-- ===== src/Index/Logger.antt =====
-- `BplusTreeLogger` of src/observer/storage/index/bplus_tree_log.cpp: the entries of a mini transaction, their
-- commit, their rollback, and the redo of what was logged. What the log answers is an argument, and so is
-- what the buffer pool answers to a page.
pub mod Replay
pub mod Undo
mod Tests
use ob_htap.Prelude.{
  ℕ, zero, suc, ◌-◌, List, [], ◌∷◌, ◌++◌, true, false, Option, none, some, if◌then◌else◌, ltb, leb,
  ◌==◌, length,
}
use ob_htap.Rc.{Rc, ob_succ}
use ob_htap.Index.Log.{
  NodeLog, init_header_page, update_root_page, set_parent_page, leaf_init_empty, leaf_set_next_page,
  internal_init_empty, internal_create_new_root, internal_update_key, node_insert, node_remove,
  LogEntryHandler, failed, raised, parsed, from_buffer, int32, serialize,
}
use ob_htap.Index.Redo.{
  Tree, TreePage, leaf, internal, other_page, header_page, with_page, key_length, redo_entry,
  recover_update_root_page, set_parent_page_num, set_next_page, set_key_at,
}

-- The LSNs of the pages in memory.
abbrev pub Lsns : Type 0
Lsns = ℕ → ℕ

-- `Frame::set_lsn`, for each of some pages.
unfoldable pub set_lsns : ℕ → List ℕ → Lsns → Lsns
set_lsns lsn [] lsns = lsns
set_lsns lsn (p ∷ ps) lsns = set_lsns lsn ps (λ q. if p == q then lsn else lsns q)

-- The entries' bytes, one behind the other.
unfoldable pub serialize_all : List LogEntryHandler → List ℕ
serialize_all [] = []
serialize_all (e ∷ es) = serialize e ++ serialize_all es

abbrev pub pages_of : List LogEntryHandler → List ℕ
pages_of [] = []
pages_of (e ∷ es) = e.page_num ∷ pages_of es

-- `commit`: a code, the entries that are left, the LSNs, and what the log was given. The log answers with a
-- code and an LSN.
unfoldable pub commit :
    Rc × ℕ → ℕ → List LogEntryHandler → Lsns → Rc × List LogEntryHandler × Lsns × Option (List ℕ)
commit answer buffer_pool_id [] lsns = (Rc.success, [], lsns, none)
commit (rc, lsn) buffer_pool_id (e ∷ es) lsns =
    let payload = int32 buffer_pool_id ++ serialize_all (e ∷ es) in
    if ob_succ rc
    then (Rc.success, [], set_lsns lsn (pages_of (e ∷ es)) lsns, some payload)
    else (rc, e ∷ es, lsns, some payload)

-- `NormalOperationLogEntryHandler::rollback` of NODE_INSERT. `IndexNodeHandler` itself has no array:
-- `__item_at` is a null pointer, so that only a removal at the end goes through.
abbrev pub rollback_insert : ℕ → ℕ → TreePage → Option TreePage
rollback_insert index num p = elim p [
  | leaf n ↦
      if ltb index (n.key_num - num)
      then none
      else some (leaf (record n { key_num = n.key_num - num }))
  | internal n ↦
      if ltb index (n.key_num - num)
      then none
      else some (internal (record n { key_num = n.key_num - num }))
  | other_page ↦ none
  | header_page header ↦ none
]

-- `rollback` of a node's entry, on its page. Items cannot be inserted through the null pointer.
unfoldable pub rollback_node : ℕ → NodeLog → TreePage → Option TreePage
rollback_node key_size (set_parent_page page old) p = set_parent_page_num old p
rollback_node key_size (leaf_set_next_page page old) p = set_next_page old p
rollback_node key_size (internal_update_key index key old) p = set_key_at key_size index old p
rollback_node key_size (node_insert index items num) p = rollback_insert index num p
rollback_node key_size (node_remove index items num) p = none
rollback_node key_size leaf_init_empty p = some p
rollback_node key_size internal_init_empty p = some p
rollback_node key_size (internal_create_new_root first key page) p = some p
rollback_node key_size (init_header_page header) p = some p
rollback_node key_size (update_root_page page old) p = some p

-- `rollback` of an entry
unfoldable pub rollback_entry : LogEntryHandler → Tree → Option Tree
rollback_entry e t =
    elim (rollback_node (key_length t.file_header) e.operation (t.pages e.page_num)) [
      | none ↦ none
      | some p ↦ elim e.operation [
        | update_root_page page old ↦ recover_update_root_page old t
        | init_header_page header ↦ some t
        | set_parent_page page old ↦ some (with_page e.page_num p t)
        | leaf_init_empty ↦ some t
        | leaf_set_next_page page old ↦ some (with_page e.page_num p t)
        | internal_init_empty ↦ some t
        | internal_create_new_root first key page ↦ some t
        | internal_update_key index key old ↦ some (with_page e.page_num p t)
        | node_insert index items num ↦ some (with_page e.page_num p t)
        | node_remove index items num ↦ some (with_page e.page_num p t)
      ]
    ]

-- `rollback`: from the last entry to the first.
unfoldable pub rollback_all : List LogEntryHandler → Tree → Option Tree
rollback_all [] t = some t
rollback_all (e ∷ es) t = elim (rollback_all es t) [ none ↦ none | some t' ↦ rollback_entry e t' ]

-- The loop of `__redo`, with the pages it has changed; `none` is also out of fuel, or an exception.
unfoldable pub redo_loop : ℕ → (ℕ → Rc) → ℕ → Lsns → List ℕ → Tree → Option (Rc × List ℕ × Tree)
redo_loop zero frame_getter lsn lsns bs t = none
redo_loop (suc fuel) frame_getter lsn lsns [] t = some (Rc.success, [], t)
redo_loop (suc fuel) frame_getter lsn lsns (b ∷ bs) t = elim (from_buffer frame_getter (b ∷ bs)) [
  | failed rc ↦ some (rc, [], t)
  | raised ↦ none
  | parsed e rest ↦ elim (leb lsn (lsns e.page_num)) [
    | true ↦ redo_loop fuel frame_getter lsn lsns rest t
    | false ↦ elim (redo_entry e t) [
      | none ↦ none
      | some t' ↦ elim (redo_loop fuel frame_getter lsn lsns rest t') [
        | none ↦ none
        | some (rc, frames, t'') ↦ some (rc, e.page_num ∷ frames, t'')
      ]
    ]
  ]
]

-- `__redo`. Its answer is SUCCESS whatever the loop ends with.
unfoldable pub redo : (ℕ → Rc) → ℕ → List ℕ → Lsns × Tree → Option (Rc × Lsns × Tree)
redo frame_getter lsn bs (lsns, t) = elim (redo_loop (suc (length bs)) frame_getter lsn lsns bs t) [
  | none ↦ none
  | some (rc, frames, t') ↦
      some (Rc.success, if ob_succ rc then set_lsns lsn frames lsns else lsns, t')
]
