-- ===== src/Trx/Mvcc/Visibility.antt =====
-- Which versions of a row `MvccTrx::visit_record` shows to which transaction.
use ob_htap.Prelude.{ℕ, List, ◌≡◌, ◌≤◌, ◌<◌, ◌^◌, ◌-◌, ◌&&◌, arith, ◌==◌, leb, if◌then◌else◌}
use ob_htap.Prelude.Int.{pos, neg}
use ob_htap.Rc.{Rc}
use ob_htap.Trx.Heap.{Row}
use ob_htap.Trx.Mvcc.{Mode, read_only, read_write, max_trx_id, visit_record}

-- What the two hidden fields of a row stand for. The numbers are those of transactions and commits.
pub data Version : Type 0 where
  inserting : ℕ → Version
  live : ℕ → Version
  deleting : ℕ → ℕ → Version
  dead : ℕ → ℕ → Version

abbrev pub encode : Version → List ℕ → Row
encode (inserting t) b = record { begin_xid = neg (pos t); end_xid = max_trx_id; bytes = b }
encode (live c) b = record { begin_xid = pos c; end_xid = max_trx_id; bytes = b }
encode (deleting c t) b = record { begin_xid = pos c; end_xid = neg (pos t); bytes = b }
encode (dead c d) b = record { begin_xid = pos c; end_xid = pos d; bytes = b }

-- Numbers that the counter has given out are positive and fit an `int32_t`.
abbrev pub IsNumbered : Version → Type 0
IsNumbered (inserting t) = 0 < t
IsNumbered (live c) = 0 < c
IsNumbered (deleting c t) = (0 < c) × (0 < t)
IsNumbered (dead c d) = (0 < c) × (0 < d)

-- What the transaction `me` is told of a version.
abbrev pub expected : ℕ → Mode → Version → Rc
expected me mode (inserting t) = if t == me then Rc.success else Rc.record_invisible
expected me mode (live c) = if leb c me then Rc.success else Rc.record_invisible
expected me read_only (deleting c t) = if t == me then Rc.record_invisible else Rc.success
expected me read_write (deleting c t) =
    if t == me then Rc.record_invisible else Rc.locked_concurrency_conflict
expected me mode (dead c d) = if leb c me && leb me d then Rc.success else Rc.record_invisible

-- `visit_record` answers as the version's state says, in both modes, for every transaction that the
-- counter has numbered.
pub visit_record-encode :
    (me : ℕ) (mode : Mode) (v : Version) (b : List ℕ)
    → 0 < me
    → me ≤ 2 ^ 31 - 1
    → IsNumbered v
    → visit_record (pos me) mode (encode v b) ≡ expected me mode v
unfolding visit_record
visit_record-encode me mode (inserting t) b hm hx hv = ground arith
visit_record-encode me mode (live c) b hm hx hv = ground arith
visit_record-encode me read_only (deleting c t) b hm hx hv = ground arith
visit_record-encode me read_write (deleting c t) b hm hx hv = ground arith
visit_record-encode me mode (dead c d) b hm hx hv = ground arith
