-- ===== src/Index/Children.antt =====
-- The changes of an inner node in src/observer/storage/index/bplus_tree.cpp, and of the parents in its
-- children. What the log answers is an argument, and so is what the buffer pool answers to a page. A page
-- of another kind than is asked for is outside the model, `none`, as is an assert that fails.
pub mod Parents
pub mod Split
mod Tests
use ob_htap.Prelude.{ℕ, ◌-◌, ◌/◌, List, [], ◌∷◌, Option, none, some, if◌then◌else◌, ltb}
use ob_htap.Prelude.Int.{ℤ}
use ob_htap.Rc.{Rc, ob_succ}
use ob_htap.Clog.Entry.{le_number}
use ob_htap.Index.Node.{Item, items_at, recover_insert_items, recover_remove_items}
use ob_htap.Index.Internal.{InternalNode, lookup_child}
use ob_htap.Index.Log.{int32}
use ob_htap.Index.Redo.{
  Tree, other_page, header_page, leaf, internal, with_page, on_internal, set_parent_page_num,
}

-- The page of a child: the value of its item.
abbrev pub child_of : Item → ℕ
child_of item = le_number item.value

abbrev pub on_page : ℕ → (InternalNode → Option (Rc × Tree)) → Tree → Option (Rc × Tree)
on_page page_num next t = elim (t.pages page_num) [
  | internal n ↦ next n
  | leaf n ↦ none
  | other_page ↦ none
  | header_page header ↦ none
]

-- The loop of `insert_items` over the children.
unfoldable pub set_parents : (ℕ → Rc) → ℕ → List Item → Tree → Option (Rc × Tree)
set_parents get_page this [] t = some (Rc.success, t)
set_parents get_page this (x ∷ xs) t =
    if ob_succ (get_page (child_of x))
    then elim (set_parent_page_num this (t.pages (child_of x))) [
      | none ↦ none
      | some p ↦ set_parents get_page this xs (with_page (child_of x) p t)
    ]
    else some (get_page (child_of x), t)

-- `InternalIndexNodeHandler::insert_items`
unfoldable pub insert_items : (ℕ → Rc) → Rc → ℕ → ℕ → List Item → Tree → Option (Rc × Tree)
insert_items get_page log_rc this index items t =
    on_page this
      (λ n.
        if ob_succ log_rc
        then set_parents get_page this items
            (with_page this (internal (on_internal (recover_insert_items index items) n)) t)
        else some (log_rc, t))
      t

-- `InternalIndexNodeHandler::append`
unfoldable pub append_children : (ℕ → Rc) → Rc → ℕ → List Item → Tree → Option (Rc × Tree)
append_children get_page log_rc this items t =
    on_page this (λ n. insert_items get_page log_rc this n.key_num items t) t

-- `InternalIndexNodeHandler::insert`: the parent of the child is set by the caller.
unfoldable pub insert_child :
    (List ℕ → List ℕ → ℤ) → Rc → ℕ → List ℕ → ℕ → Tree → Option (Rc × Tree)
insert_child comparator log_rc this key page_num t =
    on_page this
      (λ n. elim (lookup_child comparator key n) [
        | none ↦ none
        | some (child, found, position) ↦
            let item : Item = record { key = key; value = int32 page_num } in
            some (
              if ob_succ log_rc
              then (
                Rc.success,
                with_page this
                    (internal (on_internal (recover_insert_items position (item ∷ [])) n)) t,
              )
              else (log_rc, t))
      ])
      t

-- `InternalIndexNodeHandler::remove`; what the log answers is not looked at.
unfoldable pub remove_child : ℕ → ℕ → Tree → Option (Rc × Tree)
remove_child this index t =
    on_page this
      (λ n.
        if ltb index n.key_num
        then some
            (Rc.success, with_page this (internal (on_internal (recover_remove_items index 1) n)) t)
        else none)
      t

-- The node gives up its items from `num` on.
abbrev pub shrink : ℕ → ℕ → Tree → Option (Rc × Tree)
shrink this num t =
    on_page this (λ n. some (Rc.success, with_page this (internal (record n { key_num = num })) t))
      t

-- `InternalIndexNodeHandler::move_half_to`
unfoldable pub move_half : (ℕ → Rc) → Rc → ℕ → ℕ → Tree → Option (Rc × Tree)
move_half get_page append_rc this other t =
    on_page this
      (λ n.
        let move_index = n.key_num / 2 in
        elim (append_children get_page append_rc other
          (items_at n.array move_index (n.key_num - move_index)) t) [
            | none ↦ none
            | some (rc, t') ↦
                let rest = shrink this move_index t' in if ob_succ rc then rest else some (rc, t')
          ])
      t

-- `InternalIndexNodeHandler::move_to`
unfoldable pub move_all : (ℕ → Rc) → Rc → Rc → ℕ → ℕ → Tree → Option (Rc × Tree)
move_all get_page append_rc log_rc this other t =
    on_page this
      (λ n. elim (append_children get_page append_rc other (items_at n.array 0 n.key_num) t) [
        | none ↦ none
        | some (rc, t') ↦
            let rest = if ob_succ log_rc then shrink this 0 t' else some (log_rc, t') in
            if ob_succ rc then rest else some (rc, t')
      ])
      t

-- `InternalIndexNodeHandler::move_first_to_end` and `move_last_to_front`
unfoldable pub move_first_child : (ℕ → Rc) → Rc → ℕ → ℕ → Tree → Option (Rc × Tree)
move_first_child get_page append_rc this other t =
    on_page this
      (λ n. elim (append_children get_page append_rc other (items_at n.array 0 1) t) [
        | none ↦ none
        | some (rc, t') ↦
            let rest = remove_child this 0 t' in if ob_succ rc then rest else some (rc, t')
      ])
      t

unfoldable pub move_last_child : (ℕ → Rc) → Rc → Rc → ℕ → ℕ → Tree → Option (Rc × Tree)
move_last_child get_page insert_rc log_rc this other t =
    on_page this
      (λ n.
        if ltb 0 n.key_num
        then elim (insert_items get_page insert_rc other 0 (items_at n.array (n.key_num - 1) 1) t) [
          | none ↦ none
          | some (rc, t') ↦
              let rest =
                if ob_succ log_rc then shrink this (n.key_num - 1) t' else some (log_rc, t') in
              if ob_succ rc then rest else some (rc, t')
        ]
        else none)
      t
