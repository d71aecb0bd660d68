-- ===== src/Trx/Tests.antt =====
-- Transactions at work on concrete rows.
use ob_htap.Prelude.{
  ℕ, ◌≡◌, ◌≢◌, ◌<◌, refl, List, [], ◌∷◌, true, false, Option, none, some, if◌then◌else◌, arith, inl,
}
use ob_htap.Prelude.Int.{pos, neg}
use ob_htap.Rc.{Rc}
use ob_htap.Trx.Heap.{Loc, Kind, Row, Heap, same_loc, write, visit_row}
use ob_htap.Trx.Log.{LogRecord, World, append_log, log_change}
use ob_htap.Trx.Mvcc.{
  Mode, max_trx_id, Trx, visit_record, next_trx_id, push_operation, mark_deleted, delete_record,
  rollback, commit, update_record, commit_with_trx_id,
}
use ob_htap.Trx.Mvcc.Visibility.{Version, encode, visit_record-encode}
use ob_htap.Trx.Mvcc.Rollback.{IsActive, IsSettled, delete_records, rollback-delete_records}
use ob_htap.Trx.Mvcc.Commit.{committed, commit-delete_records}
use ob_htap.Trx.Mvcc.Conflict.{rollback_resurrects}
use ob_htap.Trx.Mvcc.Update.{update_record_lost}
use ob_htap.Trx.Replay.{
  Replayer, create_trx, redo, replay, replay_all, find, finish, erase, on_done,
}
use ob_htap.Trx.Replay.Counter.{on_done-replay_all, visit_record-replay_all}

abbrev here : Loc
here = record { table_id = 1; page_num = 2; slot_num = 3 }

-- Created by the commit 4, and not deleted.
abbrev row : Row
row = record { begin_xid = pos 4; end_xid = max_trx_id; bytes = 65 ∷ [] }

abbrev heap : Heap
heap l = if same_loc l here then some row else none

abbrev world : World
world = record { current_trx_id = pos 7; heap = heap; engine = []; log = [] }

-- The transaction `me`, at work.
abbrev trx : ℕ → Trx
trx me = record { trx_id = pos me; started = true; recovering = false; operations = [] }

trx_7-IsActive : IsActive (trx 7) 7
trx_7-IsActive = record { numbered = refl; positive = omega arith; running = refl }

found : (l : Loc) (r : Row) → heap l ≡ some r → r ≡ row
found l r e = ground arith

row-IsSettled : IsSettled 7 row
row-IsSettled = record {
  not_mine = λ e. ground arith;
  created = λ e. ground arith;
  dated = λ e. ground arith;
  gone = inl refl;
}

settled : (l : Loc) (r : Row) → heap l ≡ some r → IsSettled 7 r
settled l r e = rw (found l r e) row-IsSettled

unmarked : (l : Loc) (r : Row) → heap l ≡ some r → r.end_xid ≢ neg (pos 7)
unmarked l r e f = ground (arith, found l r e)

abbrev marked_world : World
marked_world =
    append_log
      (record world { heap = write heap here (some (record row { end_xid = neg (pos 7) })) })
      (LogRecord.delete_record (pos 7) here)

abbrev deleter : Trx
deleter = push_operation (trx 7) Kind.delete here

deleted : delete_records ((Rc.success, here) ∷ []) (trx 7) world ≡ some (deleter, marked_world)
unfolding delete_records delete_record visit_row same_loc mark_deleted visit_record log_change
deleted = refl

visit_record-encode_example :
    visit_record (pos 5) Mode.read_only (encode (Version.dead 4 9) []) ≡ Rc.success
visit_record-encode_example =
    visit_record-encode 5 Mode.read_only (Version.dead 4 9) [] (omega arith) (omega arith)
      (omega arith, omega arith)

rollback-delete_records_example :
    (w : World) × ((rollback Rc.success deleter marked_world
        ≡ some (Rc.success, record deleter { started = false; operations = [] }, w))
      × (w.heap ≡ heap))
rollback-delete_records_example =
    rollback-delete_records ((Rc.success, here) ∷ []) 7 (trx 7) world {t' = deleter}
      {w' = marked_world} trx_7-IsActive refl settled deleted Rc.success

commit-delete_records_example :
    commit_with_trx_id Rc.success Rc.success (pos 8) deleter marked_world
    ≡ some (
      Rc.success,
      record deleter { started = false; operations = [] },
      committed 7 (pos 8) marked_world,
    )
commit-delete_records_example =
    commit-delete_records ((Rc.success, here) ∷ []) 7 (pos 8) (trx 7) world {t' = deleter}
      {w' = marked_world} trx_7-IsActive refl settled unmarked deleted refl Rc.success

-- Created by the commit 4, and deleted by the commit 9.
abbrev dead_row : Row
dead_row = record row { end_xid = pos 9 }

abbrev dead_world : World
dead_world = record world { heap = write heap here (some dead_row) }

dead_found : dead_world.heap here ≡ some dead_row
unfolding write same_loc
dead_found = refl

rollback_resurrects_example :
    (t' : Trx) × (w' : World) × (t'' : Trx) × (w'' : World) × (delete_record Rc.success here
        (trx 7)
        dead_world
      ≡ some (Rc.success, t', w'))
    × (rollback Rc.success t' w' ≡ some (Rc.success, t'', w''))
    × (w''.heap here ≡ some (record dead_row { end_xid = max_trx_id }))
    × (w''.heap here ≢ dead_world.heap here)
rollback_resurrects_example =
    rollback_resurrects 7 4 9 here (trx 7) dead_world dead_row trx_7-IsActive refl dead_found
      (omega arith) refl refl (omega arith) (omega arith) (omega arith)

-- The log of a transaction 3 that inserts a row and commits under 9.
abbrev entries : List (Option LogRecord)
entries = some (LogRecord.insert_record (pos 3) here) ∷ some (LogRecord.commit (pos 3) (pos 9)) ∷ []

abbrev replayer : ℕ → Replayer
replayer current = record { trx_map = []; current_trx_id = pos current }

replayed : replay_all (λ id. true) entries (replayer 0) ≡ some (Rc.success, replayer 3)
unfolding replay_all replay find create_trx redo finish erase
replayed = refl

on_done-replay_all_example : on_done (replayer 3) world ≡ some (replayer 3, world)
on_done-replay_all_example =
    on_done-replay_all (λ id. true) entries 3 0 world {rc = Rc.success} {r' = replayer 3}
      (omega arith) (omega arith, (omega arith, tt)) replayed

visit_record-replay_all_example :
    (next_trx_id (pos 3) ≡ pos 4)
    × ((mode : Mode) (row : Row) (c : ℕ)
        → 4 < c
        → row.begin_xid ≡ pos c
        → row.end_xid ≡ max_trx_id
        → visit_record (next_trx_id (pos 3)) mode row ≡ Rc.record_invisible)
visit_record-replay_all_example =
    visit_record-replay_all (λ id. true) entries 3 {rc = Rc.success} {r' = replayer 3} refl replayed
      refl (omega arith)

-- The row is given other bytes, in a copy that keeps its hidden fields.
update_record_lost_example :
    (t' : Trx) × (w' : World) × (t'' : Trx) × (w'' : World) × (update_record Rc.success Rc.success
        here
        (record row { bytes = 66 ∷ [] })
        (trx 7)
        world
      ≡ some (Rc.success, t', w'))
    × ((log_rc wait_rc : Rc) → commit log_rc wait_rc t' w' ≡ none)
    × (rollback Rc.success t' w' ≡ some (Rc.success, t'', w''))
    × (w''.heap here ≡ none)
update_record_lost_example =
    update_record_lost 7 4 here (record row { bytes = 66 ∷ [] }) (trx 7) world trx_7-IsActive refl
      refl
