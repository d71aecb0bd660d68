-- ===== src/Trx/Mvcc/Rollback.antt =====
-- What `rollback` undoes, and who may delete a row.
use ob_htap.Prelude.{
  ℕ, ◌≡◌, ◌≢◌, ◌⊎◌, inl, inr, refl, List, [], ◌∷◌, true, false, Option, none, some, arith, ◌<◌,
  if◌then◌else◌, Bool-cases, Option-cases, subst,
}
use ob_htap.Prelude.Int.{ℤ, pos, neg, ltb_ℤ, eqb_ℤ-refl}
use ob_htap.Rc.{Rc, ob_succ}
use ob_htap.Trx.Heap.{
  Loc, Kind, Row, Heap, write, same_loc, visit_row, write_self, write-write, write_same,
}
use ob_htap.Trx.Log.{World, LogRecord, append_log, log_change}
use ob_htap.Trx.Mvcc.{
  Trx, read_write, max_trx_id, visit_record, mark_deleted, delete_record, push_operation,
  rollback_operation, rollback_operations, rollback,
}
use mathlib.Core.List.{reverse, reverse-append}

-- A transaction with a number, at work.
pub record IsActive (t : Trx) (me : ℕ) : Type 0 where
  pub numbered : t.trx_id ≡ pos me
  pub positive : 0 < me
  pub running : t.recovering ≡ false

-- A row that `me` has not inserted, whose deletion, if it is committed, `me` does see.
pub record IsSettled (me : ℕ) (row : Row) : Type 0 where
  pub not_mine : row.begin_xid ≢ neg (pos me)
  pub created : row.begin_xid ≢ pos 0
  pub dated : row.end_xid ≢ pos 0
  pub gone : (row.end_xid ≡ max_trx_id) ⊎ (ltb_ℤ row.end_xid (pos me) ≡ true)

-- A deletion is let through only where the row is not deleted.
visit-undeleted :
    (me : ℕ) (row : Row)
    → 0 < me
    → IsSettled me row
    → ob_succ (visit_record (pos me) read_write row) ≡ true
    → row.end_xid ≡ max_trx_id
unfolding visit_record
visit-undeleted me row hm s e = ground arith

-- Undoing a deletion gives the row back as it was.
undo_delete :
    (t : Trx) (me : ℕ) (loc : Loc) (h : Heap) (row : Row)
    → IsActive t me
    → h loc ≡ some row
    → row.end_xid ≡ max_trx_id
    → rollback_operation t.trx_id t.recovering
        (record { type = Kind.delete; loc = loc })
        Rc.success
        (write h loc (some (record row { end_xid = neg (pos me) })))
      ≡ some (Rc.success, h)
unfolding rollback_operation
undo_delete t me loc h row a e m =
    rw (write_self, rollback_operation)
      (ground (
        arith,
        eqb_ℤ-refl (neg (pos me)),
        write-write h loc (some (record row { end_xid = neg (pos me) })) (some row),
        write_same h loc (some row) e,
      ))

-- One call of `delete_record`: it changes nothing, or it marks the row and notes the operation.
abbrev pub Deleted : ℕ → Loc → Trx → World → Trx → World → Type 0
Deleted me loc t w t' w' =
    ((t' ≡ t) × (w'.heap ≡ w.heap))
    ⊎ ((row : Row) × (w.heap loc ≡ some row)
        × (row.end_xid ≡ max_trx_id)
        × (w'.heap ≡ write w.heap loc (some (record row { end_xid = neg (pos me) })))
        × (t' ≡ push_operation t Kind.delete loc))

pub mark_deleted-refused :
    (id : ℤ) (row : Row)
    → ob_succ (visit_record id read_write row) ≡ false
    → (mark_deleted id row ≡ (visit_record id read_write row, none))
unfolding mark_deleted
mark_deleted-refused id row e = ground arith

pub mark_deleted-accepted :
    (id : ℤ) (row : Row)
    → ob_succ (visit_record id read_write row) ≡ true
    → (mark_deleted id row ≡ (Rc.success, some (record row { end_xid = neg id })))
unfolding mark_deleted
mark_deleted-accepted id row e = ground arith

pub delete_record-Deleted :
    (log_rc : Rc) (loc : Loc) (me : ℕ) (t : Trx) (w : World) {rc : Rc} {t' : Trx} {w' : World}
    → IsActive t me
    → ((l : Loc) (row : Row) → w.heap l ≡ some row → IsSettled me row)
    → delete_record log_rc loc t w ≡ some (rc, t', w')
    → Deleted me loc t w t' w'
unfolding delete_record visit_row log_change
delete_record-Deleted log_rc loc me t w a s e = elim (Option-cases (w.heap loc)) [
  | inl m ↦ inl (ground arith)
  | inr (row, m) ↦ elim (Bool-cases (ob_succ (visit_record t.trx_id read_write row))) [
    | inl y ↦ inr (
      row,
      m,
      visit-undeleted me row a.positive (s loc row m) (rw (← a.numbered) y),
      ground (arith, mark_deleted-accepted t.trx_id row y),
      ground (arith, mark_deleted-accepted t.trx_id row y),
    )
    | inr n ↦ inl (ground (arith, mark_deleted-refused t.trx_id row n))
  ]
]

-- Calls of `delete_record`, one after the other, with what the log answers to each.
unfoldable pub delete_records : List (Rc × Loc) → Trx → World → Option (Trx × World)
delete_records [] t w = some (t, w)
delete_records ((log_rc, loc) ∷ calls) t w = elim (delete_record log_rc loc t w) [
  | none ↦ none
  | some (rc, t', w') ↦ delete_records calls t' w'
]

-- What a state must satisfy for its rollback to lead to the heap `h`.
record Undoes (me : ℕ) (h : Heap) (t : Trx) (now : Heap) : Type 0 where
  active : IsActive t me
  settled : (l : Loc) (row : Row) → now l ≡ some row → IsSettled me row
  back :
      rollback_operations t.trx_id t.recovering (reverse t.operations) Rc.success now
      ≡ some (Rc.success, h)

pub write-IsSettled :
    (me : ℕ) (h : Heap) (loc : Loc) (row : Row)
    → 0 < me
    → h loc ≡ some row
    → ((l : Loc) (r : Row) → h l ≡ some r → IsSettled me r)
    → (l : Loc) (r : Row) → write h loc (some (record row { end_xid = neg (pos me) })) l ≡ some r
    → IsSettled me r
unfolding write
write-IsSettled me h loc row p m s l r e = elim (Bool-cases (same_loc l loc)) [
  | inl y ↦
      let q = s loc row m in
      let e' : record row { end_xid = neg (pos me) } ≡ r = ground arith in
      subst (IsSettled me) e' (record {
        not_mine = q.not_mine;
        created = q.created;
        dated = ground arith;
        gone = inr (ground arith);
      })
  | inr n ↦ s l r (ground arith)
]

Deleted-Undoes :
    (me : ℕ) (h : Heap) (loc : Loc) (t : Trx) (w : World) (t' : Trx) (w' : World)
    → Undoes me h t w.heap
    → Deleted me loc t w t' w'
    → Undoes me h t' w'.heap
unfolding rollback_operations
Deleted-Undoes me h loc t w t' w' u (inl (et, ew)) = rw (et, ew) u
Deleted-Undoes me h loc t w t' w' u (inr (row, m, f, ew, et)) =
    rw (et, ew)
      (record {
        active = record {
          numbered = u.active.numbered;
          positive = u.active.positive;
          running = u.active.running;
        };
        settled = write-IsSettled me w.heap loc row u.active.positive m u.settled;
        back =
            rw (reverse-append t.operations)
              (ground (arith, u.back, undo_delete t me loc w.heap row u.active m f));
      })

delete_records-Undoes :
    (calls : List (Rc × Loc)) (me : ℕ) (h : Heap) (t : Trx) (w : World) {t' : Trx} {w' : World}
    → Undoes me h t w.heap
    → delete_records calls t w ≡ some (t', w')
    → Undoes me h t' w'.heap
unfolding delete_records
delete_records-Undoes [] me h t w {t'} {w'} u e =
    let et : t' ≡ t = ground arith in let ew : w' ≡ w = ground arith in rw (et, ew) u
delete_records-Undoes ((log_rc, loc) ∷ calls) me h t w {t'} {w'} u e =
    elim (Option-cases (delete_record log_rc loc t w)) [
      | inl n ↦ absurd (ground arith)
      | inr ((rc, t₁, w₁), y) ↦
          delete_records-Undoes calls me h t₁ w₁ {t' = t'} {w' = w'}
            (Deleted-Undoes me h loc t w t₁ w₁ u
              (delete_record-Deleted log_rc loc me t w u.active u.settled y))
            (ground arith)
    ]

start-Undoes :
    (me : ℕ) (t : Trx) (w : World)
    → IsActive t me
    → t.operations ≡ []
    → ((l : Loc) (row : Row) → w.heap l ≡ some row → IsSettled me row)
    → Undoes me w.heap t w.heap
unfolding rollback_operations
start-Undoes me t w a o s = record { active = a; settled = s; back = rw o refl }

-- The world that a rollback leaves.
abbrev rolled_back : Rc → Trx → World → Heap → World
rolled_back log_rc t w h =
    if ob_succ log_rc
    then append_log (record w { heap = h }) (LogRecord.rollback t.trx_id)
    else record w { heap = h }

rollback-Undoes :
    (me : ℕ) (h : Heap) (t : Trx) (w : World) (log_rc : Rc)
    → Undoes me h t w.heap
    → (rollback log_rc t w
        ≡ some (log_rc, record t { started = false; operations = [] }, rolled_back log_rc t w h))
      × ((rolled_back log_rc t w h).heap ≡ h)
unfolding rollback
rollback-Undoes me h t w log_rc u = (
  rw (u.back, rollback) (ground (arith, u.active.numbered, u.active.positive, u.active.running)),
  ground arith,
)

-- Whatever rows a transaction has deleted, its rollback succeeds and leaves the heap exactly as it
-- was when the transaction began, and forgets the operations. The rows it met are those of other
-- transactions, and it is shown none whose deletion had been committed.
pub rollback-delete_records :
    (calls : List (Rc × Loc)) (me : ℕ) (t : Trx) (w : World) {t' : Trx} {w' : World}
    → IsActive t me
    → t.operations ≡ []
    → ((l : Loc) (row : Row) → w.heap l ≡ some row → IsSettled me row)
    → delete_records calls t w ≡ some (t', w')
    → (log_rc : Rc)
    → (w'' : World) × ((rollback log_rc t' w'
          ≡ some (log_rc, record t' { started = false; operations = [] }, w''))
        × (w''.heap ≡ w.heap))
rollback-delete_records calls me t w {t'} {w'} a o s e log_rc =
    let u =
      delete_records-Undoes calls me w.heap t w {t' = t'} {w' = w'} (start-Undoes me t w a o s) e in
    (rolled_back log_rc t' w' w.heap, rollback-Undoes me w.heap t' w' log_rc u)
