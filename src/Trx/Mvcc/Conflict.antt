-- ===== src/Trx/Mvcc/Conflict.antt =====
-- Two transactions at one row.
use ob_htap.Prelude.{ℕ, ◌≡◌, ◌≢◌, ◌≤◌, ◌<◌, ◌-◌, ◌^◌, [], ◌∷◌, some, arith, sym, ◌∙◌, true, false}
use ob_htap.Prelude.Int.{pos, neg, eqb_ℤ-refl}
use ob_htap.Rc.{Rc, ob_succ}
use ob_htap.Trx.Heap.{Loc, Kind, Row, Heap, write, visit_row, write_self, write-write}
use ob_htap.Trx.Log.{World, LogRecord, append_log, log_change}
use ob_htap.Trx.Mvcc.{
  Trx, read_write, max_trx_id, visit_record, delete_record, push_operation, rollback_operation,
  rollback_operations, rollback,
}
use mathlib.Core.List.{reverse}
use ob_htap.Trx.Mvcc.Rollback.{IsActive, mark_deleted-accepted}

lost :
    (h : Heap) (loc : Loc) (row : Row) (d : ℕ)
    → h loc ≡ some row
    → row.end_xid ≡ pos d
    → d < 2 ^ 31 - 1
    → some (record row { end_xid = max_trx_id }) ≢ h loc
lost h loc row d m e s p = absurd (ground arith)

-- The world after a deletion that is let through and logged.
abbrev deleted_world : ℕ → Loc → Row → World → World
deleted_world me loc row w =
    append_log (record w { heap = write w.heap loc (some (record row { end_xid = neg (pos me) })) })
      (LogRecord.delete_record (pos me) loc)

delete_accepted :
    (me : ℕ) (loc : Loc) (t : Trx) (w : World) (row : Row)
    → IsActive t me
    → w.heap loc ≡ some row
    → ob_succ (visit_record t.trx_id read_write row) ≡ true
    → delete_record Rc.success loc t w
      ≡ some (Rc.success, push_operation t Kind.delete loc, deleted_world me loc row w)
unfolding delete_record visit_row log_change
delete_accepted me loc t w row a m y =
    ground (arith, mark_deleted-accepted t.trx_id row y, a.numbered, a.positive)

visit_live :
    (me c : ℕ) (row : Row) (d : ℕ)
    → 0 < c
    → row.begin_xid ≡ pos c
    → row.end_xid ≡ pos d
    → c ≤ me
    → me ≤ d
    → ob_succ (visit_record (pos me) read_write row) ≡ true
unfolding visit_record
visit_live me c row d q eb ee l k = ground arith

undo_marked :
    (me : ℕ) (loc : Loc) (h : Heap) (row : Row)
    → rollback_operation
        (pos me)
        false
        (record { type = Kind.delete; loc = loc })
        Rc.success
        (write h loc (some (record row { end_xid = neg (pos me) })))
      ≡ some (Rc.success, write h loc (some (record row { end_xid = max_trx_id })))
unfolding rollback_operation
undo_marked me loc h row =
    rw (write_self, rollback_operation)
      (ground (
        arith,
        eqb_ℤ-refl (neg (pos me)),
        write-write h loc (some (record row { end_xid = neg (pos me) }))
            (some (record row { end_xid = max_trx_id })),
      ))

undo_only :
    (me : ℕ) (loc : Loc) (h : Heap) (row : Row)
    → rollback_operations
        (pos me)
        false
        (reverse (record { type = Kind.delete; loc = loc } ∷ []))
        Rc.success
        (write h loc (some (record row { end_xid = neg (pos me) })))
      ≡ some (Rc.success, write h loc (some (record row { end_xid = max_trx_id })))
unfolding rollback_operations
undo_only me loc h row = ground (arith, undo_marked me loc h row)

rollback_deletion :
    (me : ℕ) (loc : Loc) (t : Trx) (w : World) (row : Row)
    → IsActive t me
    → t.operations ≡ []
    → rollback Rc.success (push_operation t Kind.delete loc) (deleted_world me loc row w)
      ≡ some (
        Rc.success,
        record t { started = false; operations = [] },
        append_log
            (record (deleted_world me loc row w) {
              heap = write w.heap loc (some (record row { end_xid = max_trx_id }));
            })
            (LogRecord.rollback (pos me)),
      )
unfolding rollback
rollback_deletion me loc t w row a o =
    ground (arith, a.numbered, a.positive, a.running, o, undo_only me loc w.heap row)

-- A transaction that began before a deletion was committed is let delete the row once more, and
-- when it rolls that back, the row counts as never deleted: the committed deletion is lost.
pub rollback_resurrects :
    (me c d : ℕ) (loc : Loc) (t : Trx) (w : World) (row : Row)
    → IsActive t me
    → t.operations ≡ []
    → w.heap loc ≡ some row
    → 0 < c
    → row.begin_xid ≡ pos c
    → row.end_xid ≡ pos d
    → c ≤ me
    → me ≤ d
    → d < 2 ^ 31 - 1
    → (t' : Trx) × (w' : World) × (t'' : Trx) × (w'' : World) × (delete_record Rc.success loc t w
        ≡ some (Rc.success, t', w'))
      × (rollback Rc.success t' w' ≡ some (Rc.success, t'', w''))
      × (w''.heap loc ≡ some (record row { end_xid = max_trx_id }))
      × (w''.heap loc ≢ w.heap loc)
rollback_resurrects me c d loc t w row a o m q eb ee l k s = (
  push_operation t Kind.delete loc,
  deleted_world me loc row w,
  _,
  _,
  delete_accepted me loc t w row a m (rw a.numbered (visit_live me c row d q eb ee l k)),
  rollback_deletion me loc t w row a o,
  write_self w.heap loc _,
  λ e. lost w.heap loc row d m ee s (sym (write_self w.heap loc _) ∙ e),
)
