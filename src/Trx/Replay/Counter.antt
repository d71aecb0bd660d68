-- ===== src/Trx/Replay/Counter.antt =====
-- What a replay from an empty map leaves: which transactions, and which number comes next.
use ob_htap.Prelude.{
  ℕ, ◌≡◌, ◌≤◌, ◌<◌, ◌+◌, ◌-◌, ◌^◌, refl, List, [], ◌∷◌, Bool, Option, none, some, arith, All, inl,
  inr, Option-cases, Bool-cases, true, false, if◌then◌else◌, ◌∙◌,
}
use ob_htap.Prelude.Int.{ℤ, ltb_ℤ, pos, ◌≤ℤ◌, ◌+ℤ◌}
use ob_htap.Rc.{Rc, ob_succ}
use ob_htap.Trx.Heap.{Row}
use ob_htap.Trx.Log.{World, LogRecord}
use ob_htap.Trx.Mvcc.{Mode, max_trx_id, visit_record, next_trx_id}
use ob_htap.Trx.Replay.{
  redo, trx_id_of, find, erase, Replayer, create_trx, finish, replay, replay_all, rollback_map,
  on_done,
}

abbrev pub IsBelow : ℕ → Option LogRecord → Type 0
IsBelow n none = Unit {0}
IsBelow n (some e) = trx_id_of e ≤ℤ pos n

finish-nil : (e : LogRecord) → finish e [] ≡ []
unfolding finish erase
finish-nil (LogRecord.insert_record id loc) = refl
finish-nil _ = refl

replay_step :
    (has_table : ℕ → Bool) (e : Option LogRecord) (n : ℕ) (r : Replayer) {rc : Rc} {r' : Replayer}
    → r.trx_map ≡ []
    → r.current_trx_id ≤ℤ pos n
    → IsBelow n e
    → replay has_table e r ≡ some (rc, r')
    → (r'.trx_map ≡ []) × (r'.current_trx_id ≤ℤ pos n)
unfolding replay create_trx find
replay_step has_table none n r m c b h = ground arith
replay_step has_table (some e) n r m c b h =
    elim (Option-cases (redo has_table e (create_trx (trx_id_of e) r.current_trx_id).1)) [
      | inl q ↦ absurd (ground arith)
      | inr (q, k) ↦ ground (arith, finish-nil e)
    ]

replay_all_lem :
    (es : List (Option LogRecord)) (has_table : ℕ → Bool) (n : ℕ) (r : Replayer) {rc : Rc}
    {r' : Replayer}
    → r.trx_map ≡ []
    → r.current_trx_id ≤ℤ pos n
    → All (IsBelow n) es
    → replay_all has_table es r ≡ some (rc, r')
    → (r'.trx_map ≡ []) × (r'.current_trx_id ≤ℤ pos n)
unfolding replay_all
replay_all_lem [] has_table n r m c b h = ground arith
replay_all_lem (e ∷ es) has_table n r {rc} {r'} m c b h =
    elim (Option-cases (replay has_table e r)) [
      | inl q ↦ absurd (ground arith)
      | inr ((rc₁, r₁), q) ↦
          let s = replay_step has_table e n r {rc = rc₁} {r' = r₁} m c b.0 q in
          elim (Bool-cases (ob_succ rc₁)) [
            | inl y ↦
                replay_all_lem es has_table n r₁ {rc = rc} {r' = r'} s.0 s.1 b.1 (ground arith)
            | inr f ↦ ground arith
          ]
    ]

-- A replay that starts with no transaction ends with none in its map, whatever the log holds. So
-- what is done when the log is at its end rolls nothing back: the world stays as it is.
pub on_done-replay_all :
    (has_table : ℕ → Bool) (es : List (Option LogRecord)) (n current : ℕ) (w : World) {rc : Rc}
    {r' : Replayer}
    → current ≤ n
    → All (IsBelow n) es
    → replay_all has_table es (record { trx_map = []; current_trx_id = pos current })
      ≡ some (rc, r')
    → on_done r' w ≡ some (r', w)
unfolding on_done rollback_map
on_done-replay_all has_table es n current w {rc} {r'} c b h =
    let s = replay_all_lem es has_table n _ {rc = rc} {r' = r'} refl (omega arith) b h in
    ground (arith, s)

-- The greatest of `n` and the transaction numbers of a log.
abbrev pub greatest : ℤ → List (Option LogRecord) → ℤ
greatest n [] = n
greatest n (none ∷ es) = greatest n es
greatest n (some e ∷ es) = greatest (if ltb_ℤ n (trx_id_of e) then trx_id_of e else n) es

replay-greatest :
    (has_table : ℕ → Bool) (e : LogRecord) (r : Replayer) {rc : Rc} {r' : Replayer}
    → r.trx_map ≡ []
    → replay has_table (some e) r ≡ some (rc, r')
    → (r'.trx_map ≡ [])
      × (r'.current_trx_id
          ≡ (if ltb_ℤ r.current_trx_id (trx_id_of e) then trx_id_of e else r.current_trx_id))
unfolding replay create_trx find
replay-greatest has_table e r m h =
    elim (Option-cases (redo has_table e (create_trx (trx_id_of e) r.current_trx_id).1)) [
      | inl q ↦ absurd (ground arith)
      | inr (q, k) ↦ ground (arith, finish-nil e)
    ]

refused_entry :
    (has_table : ℕ → Bool) (r : Replayer) {rc : Rc} {r' : Replayer}
    → replay has_table none r ≡ some (rc, r')
    → ob_succ rc ≡ false
unfolding replay
refused_entry has_table r h = ground arith

replay_all-greatest :
    (es : List (Option LogRecord)) (has_table : ℕ → Bool) (r : Replayer) {rc : Rc} {r' : Replayer}
    → r.trx_map ≡ []
    → replay_all has_table es r ≡ some (rc, r')
    → ob_succ rc ≡ true
    → r'.current_trx_id ≡ greatest r.current_trx_id es
unfolding replay_all
replay_all-greatest [] has_table r m h y = ground arith
replay_all-greatest (none ∷ es) has_table r {rc} {r'} m h y =
    elim (Option-cases (replay has_table none r)) [
      | inl q ↦ absurd (ground arith)
      | inr ((rc₁, r₁), q) ↦
          absurd (ground (arith, refused_entry has_table r {rc = rc₁} {r' = r₁} q))
    ]
replay_all-greatest (some e ∷ es) has_table r {rc} {r'} m h y =
    elim (Option-cases (replay has_table (some e) r)) [
      | inl q ↦ absurd (ground arith)
      | inr ((rc₁, r₁), q) ↦
          let s = replay-greatest has_table e r {rc = rc₁} {r' = r₁} m q in
          elim (Bool-cases (ob_succ rc₁)) [
            | inl z ↦
                let ih =
                  replay_all-greatest es has_table r₁ {rc = rc} {r' = r'} s.0 (ground arith) y in
                rw (← s.1) ih
            | inr f ↦ absurd (ground arith)
          ]
    ]

-- The greatest transaction number of a log is `n`, or it has none above 0 and `n` is 0. After a replay of
-- the whole log that succeeds the next transaction has the number `n + 1`, whatever the numbers of the
-- commits in the log are, and is not shown a row that was committed under a number above that.
pub visit_record-replay_all :
    (has_table : ℕ → Bool) (es : List (Option LogRecord)) (n : ℕ) {rc : Rc} {r' : Replayer}
    → greatest (pos 0) es ≡ pos n
    → replay_all has_table es (record { trx_map = []; current_trx_id = pos 0 }) ≡ some (rc, r')
    → ob_succ rc ≡ true
    → n + 1 < 2 ^ 31 - 1
    → (next_trx_id r'.current_trx_id ≡ pos (n + 1))
      × ((mode : Mode) (row : Row) (c : ℕ)
          → n + 1 < c
          → row.begin_xid ≡ pos c
          → row.end_xid ≡ max_trx_id
          → visit_record (next_trx_id r'.current_trx_id) mode row ≡ Rc.record_invisible)
unfolding visit_record next_trx_id ◌+ℤ◌
visit_record-replay_all has_table es n {rc} {r'} g h y small =
    let s : r'.current_trx_id ≡ pos n =
      replay_all-greatest es has_table _ {rc = rc} {r' = r'} refl h y ∙ g in
    (ground (arith, s), λ mode row c more eb ee. ground (arith, s))
