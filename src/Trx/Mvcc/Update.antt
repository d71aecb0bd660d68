-- ===== src/Trx/Mvcc/Update.antt =====
-- The update of a row in place.
use ob_htap.Prelude.{ℕ, ◌≡◌, ◌<◌, [], none, some, arith, false}
use ob_htap.Prelude.Int.{ℤ, pos, neg, eqb_ℤ}
use ob_htap.Rc.{Rc}
use ob_htap.Trx.Heap.{Loc, Kind, Row, Heap, write, write_self, write-write}
use ob_htap.Trx.Log.{World, LogRecord, append_log, log_change}
use ob_htap.Trx.Mvcc.{
  Trx, next_trx_id, update_record, commit_operation, commit_operations, commit_with_trx_id, commit,
  push_operation, rollback_operation, rollback_operations, rollback,
}
use ob_htap.Trx.Mvcc.Rollback.{IsActive}

-- The world after an update that is stored and logged.
abbrev pub updated_world : ℕ → Loc → Row → World → World
updated_world me loc row w =
    append_log (record w { heap = write w.heap loc (some row) })
      (LogRecord.update_record (pos me) loc)

update_accepted :
    (me : ℕ) (loc : Loc) (row : Row) (t : Trx) (w : World)
    → IsActive t me
    → update_record Rc.success Rc.success loc row t w
      ≡ some (Rc.success, push_operation t Kind.insert loc, updated_world me loc row w)
unfolding update_record log_change
update_accepted me loc row t w a = ground (arith, a.numbered, a.positive)

foreign : (me c : ℕ) → 0 < me → eqb_ℤ (pos c) (neg (pos me)) ≡ false
foreign me c z = ground arith

commit_one :
    (me c : ℕ) (loc : Loc) (h : Heap) (row : Row) (id : ℤ)
    → 0 < me
    → row.begin_xid ≡ pos c
    → commit_operation
        (pos me)
        false
        id
        (record { type = Kind.insert; loc = loc })
        (write h loc (some row))
      ≡ none
unfolding commit_operation
commit_one me c loc h row id z b =
    rw (write_self, commit_operation) (ground (arith, b, foreign me c z))

commit_fails :
    (me c : ℕ) (loc : Loc) (row : Row) (t : Trx) (w : World) (log_rc wait_rc : Rc)
    → IsActive t me
    → t.operations ≡ []
    → row.begin_xid ≡ pos c
    → commit log_rc wait_rc (push_operation t Kind.insert loc) (updated_world me loc row w) ≡ none
unfolding commit commit_with_trx_id commit_operations
commit_fails me c loc row t w log_rc wait_rc a o b = ground (
  arith,
  a.numbered,
  a.running,
  o,
  commit_one me c loc w.heap row (next_trx_id w.current_trx_id) a.positive b,
)

undo_one :
    (me : ℕ) (loc : Loc) (h : Heap) (row : Row)
    → rollback_operation
        (pos me)
        false
        (record { type = Kind.insert; loc = loc })
        Rc.success
        (write h loc (some row))
      ≡ some (Rc.success, write h loc none)
unfolding rollback_operation
undo_one me loc h row =
    rw (write_self, rollback_operation) (ground (arith, write-write h loc (some row) none))

undo_update :
    (me : ℕ) (loc : Loc) (row : Row) (t : Trx) (w : World)
    → IsActive t me
    → t.operations ≡ []
    → rollback Rc.success (push_operation t Kind.insert loc) (updated_world me loc row w)
      ≡ some (
        Rc.success,
        record t { started = false; operations = [] },
        append_log
            (record (updated_world me loc row w) { heap = write w.heap loc none })
            (LogRecord.rollback (pos me)),
      )
unfolding rollback rollback_operations
undo_update me loc row t w a o =
    ground (arith, a.numbered, a.positive, a.running, o, undo_one me loc w.heap row)

-- An update whose new row has the begin number of a commit, as a copy of a committed row does, can be
-- neither committed nor undone: the commit fails its ASSERT, and the rollback takes the row away.
pub update_record_lost :
    (me c : ℕ) (loc : Loc) (row : Row) (t : Trx) (w : World)
    → IsActive t me
    → t.operations ≡ []
    → row.begin_xid ≡ pos c
    → (t' : Trx) × (w' : World) × (t'' : Trx) × (w'' : World) × (update_record Rc.success Rc.success
          loc row t w
        ≡ some (Rc.success, t', w'))
      × ((log_rc wait_rc : Rc) → commit log_rc wait_rc t' w' ≡ none)
      × (rollback Rc.success t' w' ≡ some (Rc.success, t'', w''))
      × (w''.heap loc ≡ none)
update_record_lost me c loc row t w a o b = (
  push_operation t Kind.insert loc,
  updated_world me loc row w,
  record t { started = false; operations = [] },
  append_log (record (updated_world me loc row w) { heap = write w.heap loc none })
      (LogRecord.rollback (pos me)),
  update_accepted me loc row t w a,
  λ log_rc wait_rc. commit_fails me c loc row t w log_rc wait_rc a o b,
  undo_update me loc row t w a o,
  write_self w.heap loc none,
)
