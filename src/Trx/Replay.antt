-- ===== src/Trx/Replay.antt =====
-- Recovery: `MvccTrx::redo` of src/observer/storage/trx/mvcc_trx.cpp and the replayer of
-- mvcc_trx_log.cpp. Whether the database has a table is an argument.
pub mod Counter
use ob_htap.Prelude.{ℕ, List, [], ◌∷◌, Bool, true, Option, none, some, if◌then◌else◌}
use ob_htap.Prelude.Int.{ℤ, ltb_ℤ, eqb_ℤ}
use ob_htap.Rc.{Rc, ob_succ}
use ob_htap.Trx.Heap.{Kind}
use ob_htap.Trx.Log.{World, LogRecord}
use ob_htap.Trx.Mvcc.{Trx, push_operation, rollback}

-- `find_table` and `MvccTrx::redo`
unfoldable pub redo : (ℕ → Bool) → LogRecord → Trx → Option (Rc × Trx)
redo has_table (LogRecord.insert_record id loc) t =
    if has_table loc.table_id
    then some (Rc.success, push_operation t Kind.insert loc)
    else some (Rc.schema_table_not_exist, t)
redo has_table (LogRecord.delete_record id loc) t =
    if has_table loc.table_id
    then some (Rc.success, push_operation t Kind.delete loc)
    else some (Rc.schema_table_not_exist, t)
redo has_table (LogRecord.update_record id loc) t = none
redo has_table (LogRecord.commit id commit_xid) t = some (Rc.success, t)
redo has_table (LogRecord.rollback id) t = some (Rc.success, t)

-- `header->trx_id`
abbrev pub trx_id_of : LogRecord → ℤ
trx_id_of (LogRecord.insert_record id loc) = id
trx_id_of (LogRecord.delete_record id loc) = id
trx_id_of (LogRecord.update_record id loc) = id
trx_id_of (LogRecord.commit id commit_xid) = id
trx_id_of (LogRecord.rollback id) = id

abbrev pub TrxMap : Type 0
TrxMap = List (ℤ × Trx)

unfoldable pub find : ℤ → TrxMap → Option Trx
find id [] = none
find id ((k, t) ∷ m) = if eqb_ℤ k id then some t else find id m

-- The map holds pointers: what a transaction does to itself shows in the map.
unfoldable pub replace : ℤ → Trx → TrxMap → TrxMap
replace id t [] = []
replace id t ((k, s) ∷ m) = if eqb_ℤ k id then (k, t) ∷ m else (k, s) ∷ replace id t m

unfoldable pub erase : ℤ → TrxMap → TrxMap
erase id [] = []
erase id ((k, t) ∷ m) = if eqb_ℤ k id then m else (k, t) ∷ erase id m

-- The replayer's map, and `current_trx_id_` of the kit.
pub record Replayer : Type 0 where
  pub trx_map : TrxMap
  pub current_trx_id : ℤ

-- `MvccTrxKit::create_trx` with a number: the counter does not fall behind it.
unfoldable pub create_trx : ℤ → ℤ → ℤ × Trx
create_trx id current = (
  if ltb_ℤ current id then id else current,
  record { trx_id = id; started = true; recovering = true; operations = [] },
)

-- A record that ends a transaction takes it from the map.
unfoldable pub finish : LogRecord → TrxMap → TrxMap
finish (LogRecord.insert_record id loc) m = m
finish (LogRecord.delete_record id loc) m = m
finish (LogRecord.update_record id loc) m = m
finish (LogRecord.commit id commit_xid) m = erase id m
finish (LogRecord.rollback id) m = erase id m

-- `MvccTrxLogReplayer::replay`. The entry is `none` if its payload is shorter than a header.
unfoldable pub replay : (ℕ → Bool) → Option LogRecord → Replayer → Option (Rc × Replayer)
replay has_table none r = some (Rc.log_entry_invalid, r)
replay has_table (some e) r = elim (find (trx_id_of e) r.trx_map) [
  | none ↦
      let (current, t) = create_trx (trx_id_of e) r.current_trx_id in
      elim (redo has_table e t) [
        | none ↦ none
        | some (rc, t') ↦
            some (rc, record { trx_map = finish e r.trx_map; current_trx_id = current })
      ]
  | some t ↦ elim (redo has_table e t) [
    | none ↦ none
    | some (rc, t') ↦
        some (rc, record r { trx_map = finish e (replace (trx_id_of e) t' r.trx_map) })
  ]
]

-- The entries of the log in order, until one is refused.
unfoldable pub replay_all : (ℕ → Bool) → List (Option LogRecord) → Replayer → Option (Rc × Replayer)
replay_all has_table [] r = some (Rc.success, r)
replay_all has_table (e ∷ es) r = elim (replay has_table e r) [
  | none ↦ none
  | some (rc, r') ↦
      let rest = replay_all has_table es r' in if ob_succ rc then rest else some (rc, r')
]

unfoldable pub rollback_map : TrxMap → World → Option World
rollback_map [] w = some w
rollback_map ((k, t) ∷ m) w = elim (rollback Rc.success t w) [
  | none ↦ none
  | some (rc, t', w') ↦ rollback_map m w'
]

-- `MvccTrxLogReplayer::on_done`
unfoldable pub on_done : Replayer → World → Option (Replayer × World)
on_done r w = elim (rollback_map r.trx_map w) [
  | none ↦ none
  | some w' ↦ some (record r { trx_map = [] }, w')
]
