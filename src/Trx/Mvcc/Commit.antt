-- ===== src/Trx/Mvcc/Commit.antt =====
-- What `commit` leaves in the rows that a transaction has deleted.
use ob_htap.Prelude.{
  ℕ, ◌≡◌, ◌≢◌, inl, inr, refl, List, [], ◌∷◌, ◌++◌, true, false, Option, none, some, arith, ◌<◌,
  if◌then◌else◌, Bool-cases, Option-cases, All, fun_ext, ap, sym, ◌∙◌,
}
use ob_htap.Prelude.Int.{ℤ, pos, neg, ltb_ℤ, eqb_ℤ, eqb_ℤ-refl, eqb_ℤ-eq}
use ob_htap.Rc.{Rc}
use ob_htap.Trx.Heap.{
  Loc, Kind, Operation, Row, Heap, write, same_loc, same_loc-eq, same_loc_refl, write_self,
  write-write,
}
use ob_htap.Trx.Log.{World, LogRecord, append_log, log_commit}
use ob_htap.Trx.Mvcc.{
  Trx, max_trx_id, delete_record, commit_operation, commit_operations, commit_with_trx_id,
}
use ob_htap.Trx.Mvcc.Rollback.{
  IsActive, IsSettled, Deleted, delete_record-Deleted, delete_records, write-IsSettled,
}
use mathlib.Core.Option

-- The commit number in place of the mark of `me`.
abbrev pub stamp_row : ℕ → ℤ → Row → Row
stamp_row me c row = if eqb_ℤ row.end_xid (neg (pos me)) then record row { end_xid = c } else row

abbrev pub stamp : ℕ → ℤ → Heap → Heap
stamp me c h l = elim (h l) [ none ↦ none | some row ↦ some (stamp_row me c row) ]

write-write_ne :
    (h : Heap) (k l : Loc) (r s : Option Row)
    → same_loc k l ≡ false
    → write (write h l r) k s ≡ write (write h k s) l r
unfolding write
write-write_ne h k l r s n = fun_ext λ j. elim (Bool-cases (same_loc j k)) [
  | inl a ↦ elim (Bool-cases (same_loc j l)) [
    | inl b ↦ ground (arith, same_loc-eq j k a, same_loc-eq j l b, same_loc_refl k)
    | inr b ↦ ground arith
  ]
  | inr a ↦ ground arith
]

write_ne : (h : Heap) (k l : Loc) (r : Option Row) → same_loc k l ≡ false → write h l r k ≡ h k
unfolding write
write_ne h k l r n = rw n refl

-- Committing elsewhere does not touch, nor look at, the row at `l`.
commit_operation-write :
    (id : ℤ) (c : ℤ) (op : Operation) (h : Heap) (l : Loc) (r : Option Row)
    → same_loc op.loc l ≡ false
    → commit_operation id false c op (write h l r)
      ≡ Option.map (λ k. write k l r) (commit_operation id false c op h)
unfolding commit_operation
commit_operation-write id c op h l r n = elim (Option-cases (h op.loc)) [
  | inl m ↦ ground (arith, write_ne h op.loc l r n)
  | inr (row, m) ↦ ground (
    arith,
    write_ne h op.loc l r n,
    write-write_ne h op.loc l r (some (record row { begin_xid = c })) n,
    write-write_ne h op.loc l r (some (record row { end_xid = c })) n,
  )
]

commit_operations-write :
    (ops : List Operation) (id : ℤ) (c : ℤ) (h : Heap) (l : Loc) (r : Option Row)
    → All (λ op. same_loc op.loc l ≡ false) ops
    → commit_operations id false c ops (write h l r)
      ≡ Option.map (λ k. write k l r) (commit_operations id false c ops h)
unfolding commit_operations
commit_operations-write [] id c h l r n = refl
commit_operations-write (op ∷ ops) id c h l r n =
    elim (Option-cases (commit_operation id false c op h)) [
      | inl m ↦ ground (arith, commit_operation-write id c op h l r n.0)
      | inr (h', m) ↦ ground (
        arith,
        commit_operation-write id c op h l r n.0,
        commit_operations-write ops id c h' l r n.1,
      )
    ]

commit_operations-append :
    (ops : List Operation) (op : Operation) (id : ℤ) (c : ℤ) (h : Heap) {h' : Heap}
    → commit_operations id false c ops h ≡ some h'
    → commit_operations id false c (ops ++ op ∷ []) h ≡ commit_operation id false c op h'
unfolding commit_operations
commit_operations-append [] op id c h {h'} e = ground arith
commit_operations-append (o ∷ ops) op id c h {h'} e =
    elim (Option-cases (commit_operation id false c o h)) [
      | inl m ↦ absurd (ground arith)
      | inr (k, m) ↦ ground (arith, commit_operations-append ops op id c k {h' = h'})
    ]

-- The operations of a transaction that has only deleted, and what committing them will do.
record Commits (me : ℕ) (c : ℤ) (t : Trx) (now : Heap) : Type 0 where
  active : IsActive t me
  settled : (l : Loc) (row : Row) → now l ≡ some row → IsSettled me row
  marked :
      (l : Loc) (row : Row)
      → now l ≡ some row
      → row.end_xid ≡ max_trx_id
      → All (λ op. same_loc op.loc l ≡ false) t.operations
  stamps : commit_operations (pos me) false c t.operations now ≡ some (stamp me c now)

stamp-write :
    (me : ℕ) (c : ℤ) (h : Heap) (loc : Loc) (row : Row)
    → write (stamp me c h) loc (some (record row { end_xid = c }))
      ≡ stamp me c (write h loc (some (record row { end_xid = neg (pos me) })))
unfolding write
stamp-write me c h loc row = fun_ext λ k. elim (Bool-cases (same_loc k loc)) [
  | inl y ↦ rw (y, write, stamp) (rw eqb_ℤ-refl refl)
  | inr n ↦ rw (n, write, stamp) refl
]

commit_last :
    (me : ℕ) (c : ℤ) (h : Heap) (loc : Loc) (row : Row)
    → commit_operation
        (pos me)
        false
        c
        (record { type = Kind.delete; loc = loc })
        (write h loc (some (record row { end_xid = neg (pos me) })))
      ≡ some (
          write
            (write h loc (some (record row { end_xid = neg (pos me) })))
            loc
            (some (record row { end_xid = c })))
unfolding commit_operation
commit_last me c h loc row =
    rw (write_self, commit_operation) (ground (arith, eqb_ℤ-refl (neg (pos me))))

same_loc_symm : (k l : Loc) → same_loc k l ≡ false → same_loc l k ≡ false
unfolding same_loc
same_loc_symm k l n = ground arith

-- A row that still counts as undeleted after a deletion is not the deleted one.
still_undeleted :
    (me : ℕ) (h : Heap) (loc : Loc) (row : Row) (l : Loc) (r : Row)
    → 0 < me
    → write h loc (some (record row { end_xid = neg (pos me) })) l ≡ some r
    → r.end_xid ≡ max_trx_id
    → (same_loc l loc ≡ false) × (h l ≡ some r)
unfolding write
still_undeleted me h loc row l r p e g = elim (Bool-cases (same_loc l loc)) [
  | inl y ↦ absurd (ground arith)
  | inr n ↦ (n, ground arith)
]

commits_more :
    (me : ℕ) (c : ℤ) (loc : Loc) (row : Row) (ops : List Operation) (h : Heap)
    → All (λ op. same_loc op.loc loc ≡ false) ops
    → commit_operations (pos me) false c ops h ≡ some (stamp me c h)
    → commit_operations
        (pos me)
        false
        c
        (ops ++ record { type = Kind.delete; loc = loc } ∷ [])
        (write h loc (some (record row { end_xid = neg (pos me) })))
      ≡ some (stamp me c (write h loc (some (record row { end_xid = neg (pos me) }))))
commits_more me c loc row ops h n e =
    commit_operations-append ops _ (pos me) c _
      (rw (commit_operations-write ops (pos me) c h loc _ n, e) refl)
    ∙ commit_last me c (stamp me c h) loc row
    ∙ ap some (write-write (stamp me c h) loc _ _ ∙ stamp-write me c h loc row)

All-append_last {ℓ κ} :
    {A : Type ℓ} (P : A → Type κ) (xs : List A) (a : A) → All P xs → P a → All P (xs ++ a ∷ [])
All-append_last P [] a h p = (p, tt)
All-append_last P (x ∷ xs) a h p = (h.0, All-append_last P xs a h.1 p)

Deleted-Commits :
    (me : ℕ) (c : ℤ) (loc : Loc) (t : Trx) (w : World) (t' : Trx) (w' : World)
    → Commits me c t w.heap
    → Deleted me loc t w t' w'
    → Commits me c t' w'.heap
Deleted-Commits me c loc t w t' w' u (inl (et, ew)) = rw (et, ew) u
Deleted-Commits me c loc t w t' w' u (inr (row, m, f, ew, et)) =
    rw (et, ew)
      (record {
        active = record {
          numbered = u.active.numbered;
          positive = u.active.positive;
          running = u.active.running;
        };
        settled = write-IsSettled me w.heap loc row u.active.positive m u.settled;
        marked = λ l r e g.
            let (n, e') = still_undeleted me w.heap loc row l r u.active.positive e g in
            All-append_last (λ op. same_loc op.loc l ≡ false) t.operations _ (u.marked l r e' g)
              (same_loc_symm l loc n);
        stamps = commits_more me c loc row t.operations w.heap (u.marked loc row m f) u.stamps;
      })

delete_records-Commits :
    (calls : List (Rc × Loc)) (me : ℕ) (c : ℤ) (t : Trx) (w : World) {t' : Trx} {w' : World}
    → Commits me c t w.heap
    → delete_records calls t w ≡ some (t', w')
    → Commits me c t' w'.heap
unfolding delete_records
delete_records-Commits [] me c t w {t'} {w'} u e =
    let et : t' ≡ t = ground arith in let ew : w' ≡ w = ground arith in rw (et, ew) u
delete_records-Commits ((log_rc, loc) ∷ calls) me c t w {t'} {w'} u e =
    elim (Option-cases (delete_record log_rc loc t w)) [
      | inl n ↦ absurd (ground arith)
      | inr ((rc, t₁, w₁), y) ↦
          delete_records-Commits calls me c t₁ w₁ {t' = t'} {w' = w'}
            (Deleted-Commits me c loc t w t₁ w₁ u
              (delete_record-Deleted log_rc loc me t w u.active u.settled y))
            (ground arith)
    ]

stamp_row_other :
    (me : ℕ) (c : ℤ) (row : Row) → row.end_xid ≢ neg (pos me) → stamp_row me c row ≡ row
stamp_row_other me c row n = ground (arith, eqb_ℤ-eq row.end_xid (neg (pos me)))

stamp_none :
    (me : ℕ) (c : ℤ) (h : Heap)
    → ((l : Loc) (row : Row) → h l ≡ some row → row.end_xid ≢ neg (pos me))
    → stamp me c h ≡ h
stamp_none me c h s = fun_ext λ l. elim (Option-cases (h l)) [
  | inl m ↦ rw (m, stamp) refl
  | inr (row, m) ↦ rw (m, stamp) (ap some (stamp_row_other me c row (s l row m)))
]

start-Commits :
    (me : ℕ) (c : ℤ) (t : Trx) (w : World)
    → IsActive t me
    → t.operations ≡ []
    → ((l : Loc) (row : Row) → w.heap l ≡ some row → IsSettled me row)
    → ((l : Loc) (row : Row) → w.heap l ≡ some row → row.end_xid ≢ neg (pos me))
    → Commits me c t w.heap
unfolding commit_operations
start-Commits me c t w a o s n = record {
  active = a;
  settled = s;
  marked = λ l row _ _. rw o tt;
  stamps = rw o (ap some (sym (stamp_none me c w.heap n)));
}

-- The world that a commit leaves.
abbrev pub committed : ℕ → ℤ → World → World
committed me c w = append_log (record w { heap = stamp me c w.heap }) (LogRecord.commit (pos me) c)

commit-Commits :
    (me : ℕ) (c : ℤ) (t : Trx) (w : World) (wait_rc : Rc)
    → Commits me c t w.heap
    → ltb_ℤ (pos me) c ≡ true
    → commit_with_trx_id Rc.success wait_rc c t w
      ≡ some (wait_rc, record t { started = false; operations = [] }, committed me c w)
unfolding commit_with_trx_id log_commit
commit-Commits me c t w wait_rc u h =
    ground (arith, u.stamps, u.active.numbered, u.active.positive, u.active.running)

-- A transaction that has done nothing yet is at work on rows of other transactions: each is settled, none
-- is marked by it before, and it is shown none whose deletion had been committed. Whatever of these rows
-- it then deletes, its commit, under a number above its own and where the log takes the record, puts the
-- commit number into the rows that it has marked, leaves every other row as it was, logs the commit, and
-- answers as the wait for the log does.
pub commit-delete_records :
    (calls : List (Rc × Loc)) (me : ℕ) (c : ℤ) (t : Trx) (w : World) {t' : Trx} {w' : World}
    → IsActive t me
    → t.operations ≡ []
    → ((l : Loc) (row : Row) → w.heap l ≡ some row → IsSettled me row)
    → ((l : Loc) (row : Row) → w.heap l ≡ some row → row.end_xid ≢ neg (pos me))
    → delete_records calls t w ≡ some (t', w')
    → ltb_ℤ (pos me) c ≡ true
    → (wait_rc : Rc)
    → commit_with_trx_id Rc.success wait_rc c t' w'
      ≡ some (wait_rc, record t' { started = false; operations = [] }, committed me c w')
commit-delete_records calls me c t w {t'} {w'} a o s n e h wait_rc =
    commit-Commits me c t' w' wait_rc
      (delete_records-Commits calls me c t w {t' = t'} {w' = w'} (start-Commits me c t w a o s n) e)
      h
