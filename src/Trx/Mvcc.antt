-- ===== src/Trx/Mvcc.antt =====
-- src/observer/storage/trx/mvcc_trx.cpp and mvcc_trx_log.cpp. An ASSERT that fails ends the process:
-- the result is `none`. What the log handler answers to an append and to a wait is an argument.
pub mod Visibility
pub mod Rollback
pub mod Commit
pub mod Conflict
pub mod Update
use ob_htap.Prelude.{
  ℕ, List, [], ◌∷◌, ◌++◌, Bool, true, false, ◌&&◌, not, Option, none, some, ◌^◌, ◌-◌, if◌then◌else◌,
}
use ob_htap.Prelude.Int.{ℤ, pos, negsuc, neg, ◌+ℤ◌, leb_ℤ, ltb_ℤ, eqb_ℤ}
use ob_htap.Rc.{Rc, ob_succ}
use ob_htap.Trx.Log.{LogRecord, World, append_log, log_change, log_commit}
use ob_htap.Trx.Heap.{Loc, Kind, Operation, Row, Heap, write, visit_row}
use mathlib.Core.List.{reverse}

pub data Mode : Type 0 where
  read_only read_write : Mode

-- `numeric_limits<int32_t>::max()`
abbrev pub max_trx_id : ℤ
max_trx_id = pos (2 ^ 31 - 1)

-- `MvccTrx`
pub record Trx : Type 0 where
  pub trx_id : ℤ
  pub started : Bool
  pub recovering : Bool
  pub operations : List Operation

-- `MvccTrx::visit_record`
unfoldable pub visit_record : ℤ → Mode → Row → Rc
visit_record trx_id mode row =
    if ltb_ℤ (pos 0) row.begin_xid && ltb_ℤ (pos 0) row.end_xid
    then if leb_ℤ row.begin_xid trx_id && leb_ℤ trx_id row.end_xid
      then Rc.success
      else Rc.record_invisible
    else if ltb_ℤ row.begin_xid (pos 0)
    then if eqb_ℤ (neg row.begin_xid) trx_id then Rc.success else Rc.record_invisible
    else if ltb_ℤ row.end_xid (pos 0)
    then elim mode [
      | read_only ↦ if not (eqb_ℤ (neg row.end_xid) trx_id) then Rc.success else Rc.record_invisible
      | read_write ↦
          if not (eqb_ℤ (neg row.end_xid) trx_id)
          then Rc.locked_concurrency_conflict
          else Rc.record_invisible
    ]
    else Rc.success

-- `++current_trx_id_`, which wraps round.
unfoldable pub next_trx_id : ℤ → ℤ
next_trx_id current = if eqb_ℤ current max_trx_id then negsuc (2 ^ 31 - 1) else current +ℤ pos 1

abbrev pub push_operation : Trx → Kind → Loc → Trx
push_operation t kind loc = record t {
  operations = t.operations ++ record { type = kind; loc = loc } ∷ [];
}

-- `MvccTrx::start_if_need`
unfoldable pub start_if_need : Trx → World → Option (Trx × World)
start_if_need t w = if t.started then some (t, w) else elim t.operations [
  | [] ↦
      let id = next_trx_id w.current_trx_id in
      some (record t { trx_id = id; started = true }, record w { current_trx_id = id })
  | op ∷ ops ↦ none
]

-- `MvccTrx::insert_record` at the location that the record carries; `table_rc` is what
-- `Table::insert_record` answers.
unfoldable pub insert_record : Rc → Rc → Loc → List ℕ → Trx → World → Option (Rc × Trx × World)
insert_record table_rc log_rc loc bytes t w =
    let row : Row = record { begin_xid = neg t.trx_id; end_xid = max_trx_id; bytes = bytes } in
    let stored = record w { engine = w.engine ++ (loc.table_id, row) ∷ [] } in
    if ob_succ table_rc
    then elim (log_change log_rc t.trx_id (LogRecord.insert_record t.trx_id loc) stored) [
      | none ↦ none
      | some w' ↦ some (Rc.success, push_operation t Kind.insert loc, w')
    ]
    else some (table_rc, t, w)

-- The visitor of `delete_record`.
unfoldable pub mark_deleted : ℤ → Row → Rc × Option Row
mark_deleted trx_id row =
    let rc = visit_record trx_id Mode.read_write row in
    if ob_succ rc then (Rc.success, some (record row { end_xid = neg trx_id })) else (rc, none)

-- `MvccTrx::delete_record`
unfoldable pub delete_record : Rc → Loc → Trx → World → Option (Rc × Trx × World)
delete_record log_rc loc t w =
    let (rc, delete_result, heap') = visit_row w.heap loc (mark_deleted t.trx_id) in
    let w' = record w { heap = heap' } in
    if not (ob_succ rc)
    then some (rc, t, w')
    else if not (ob_succ delete_result)
    then some (delete_result, t, w')
    else elim (log_change log_rc t.trx_id (LogRecord.delete_record t.trx_id loc) w') [
      | none ↦ none
      | some w'' ↦ some (Rc.success, push_operation t Kind.delete loc, w'')
    ]

-- `MvccTrx::update_record` with the row that the caller has made; `table_rc` is what
-- `Table::update_record` answers. What is set in the record before does not reach the new row.
unfoldable pub update_record : Rc → Rc → Loc → Row → Trx → World → Option (Rc × Trx × World)
update_record table_rc log_rc loc row t w =
    let stored = record w { heap = write w.heap loc (some row) } in
    if ob_succ table_rc
    then elim (log_change log_rc t.trx_id (LogRecord.update_record t.trx_id loc) stored) [
      | none ↦ none
      | some w' ↦ some (Rc.success, push_operation t Kind.insert loc, w')
    ]
    else some (table_rc, t, w)

-- One round of the loop of `commit_with_trx_id`.
unfoldable pub commit_operation : ℤ → Bool → ℤ → Operation → Heap → Option Heap
commit_operation trx_id recovering commit_xid op h = elim (h op.loc) [
  | none ↦ none
  | some row ↦ elim op.type [
    | Kind.insert ↦
        if eqb_ℤ row.begin_xid (neg trx_id) && not recovering
        then some (write h op.loc (some (record row { begin_xid = commit_xid })))
        else none
    | Kind.delete ↦
        if eqb_ℤ row.end_xid (neg trx_id)
        then some (write h op.loc (some (record row { end_xid = commit_xid })))
        else none
    | Kind.update ↦ none
    | Kind.undefined ↦ none
  ]
]

unfoldable pub commit_operations : ℤ → Bool → ℤ → List Operation → Heap → Option Heap
commit_operations trx_id recovering commit_xid [] h = some h
commit_operations trx_id recovering commit_xid (op ∷ ops) h =
    elim (commit_operation trx_id recovering commit_xid op h) [
      | none ↦ none
      | some h' ↦ commit_operations trx_id recovering commit_xid ops h'
    ]

-- `MvccTrx::commit_with_trx_id`
unfoldable pub commit_with_trx_id : Rc → Rc → ℤ → Trx → World → Option (Rc × Trx × World)
commit_with_trx_id log_rc wait_rc commit_xid t w =
    elim (commit_operations t.trx_id t.recovering commit_xid t.operations w.heap) [
      | none ↦ none
      | some h ↦
          let done = record t { started = false; operations = [] } in
          let w' = record w { heap = h } in
          if t.recovering
          then some (Rc.success, done, w')
          else elim (log_commit log_rc wait_rc t.trx_id commit_xid w') [
            | none ↦ none
            | some (rc, w'') ↦ some (rc, done, w'')
          ]
    ]

-- `MvccTrx::commit`
unfoldable pub commit : Rc → Rc → Trx → World → Option (Rc × Trx × World)
commit log_rc wait_rc t w =
    let id = next_trx_id w.current_trx_id in
    commit_with_trx_id log_rc wait_rc id t (record w { current_trx_id = id })

-- One round of the loop of `rollback`; `rc` is what the round before left.
unfoldable pub rollback_operation : ℤ → Bool → Operation → Rc → Heap → Option (Rc × Heap)
rollback_operation trx_id recovering op rc h = elim op.type [
  | Kind.insert ↦ elim (h op.loc) [
    | none ↦ if recovering then some (Rc.record_not_exist, h) else none
    | some row ↦
        if recovering && not (eqb_ℤ row.begin_xid (neg trx_id))
        then some (Rc.success, h)
        else some (Rc.success, write h op.loc none)
  ]
  | Kind.delete ↦
      if ob_succ rc
      then elim (h op.loc) [
        | none ↦ none
        | some row ↦
            if recovering && not (eqb_ℤ row.end_xid (neg trx_id))
            then some (Rc.success, h)
            else if eqb_ℤ row.end_xid (neg trx_id)
            then some (Rc.success, write h op.loc (some (record row { end_xid = max_trx_id })))
            else none
      ]
      else none
  | Kind.update ↦ none
  | Kind.undefined ↦ none
]

unfoldable pub rollback_operations : ℤ → Bool → List Operation → Rc → Heap → Option (Rc × Heap)
rollback_operations trx_id recovering [] rc h = some (rc, h)
rollback_operations trx_id recovering (op ∷ ops) rc h =
    elim (rollback_operation trx_id recovering op rc h) [
      | none ↦ none
      | some (rc', h') ↦ rollback_operations trx_id recovering ops rc' h'
    ]

-- `MvccTrx::rollback`, with `MvccTrxLogHandler::rollback`
unfoldable pub rollback : Rc → Trx → World → Option (Rc × Trx × World)
rollback log_rc t w =
    elim (rollback_operations t.trx_id t.recovering (reverse t.operations) Rc.success w.heap) [
      | none ↦ none
      | some (rc, h) ↦
          let done = record t { started = false; operations = [] } in
          let w' = record w { heap = h } in
          if t.recovering
          then some (rc, done, w')
          else if ltb_ℤ (pos 0) t.trx_id
          then some (
            log_rc,
            done,
            if ob_succ log_rc then append_log w' (LogRecord.rollback t.trx_id) else w',
          )
          else none
    ]
