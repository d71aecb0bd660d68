-- ===== src/Trx/Log.antt =====
-- src/observer/storage/trx/mvcc_trx_log.h and the handler of mvcc_trx_log.cpp: the log records of a
-- transaction, and what a transaction reads and writes beside its own fields.
use ob_htap.Prelude.{ℕ, List, [], ◌∷◌, ◌++◌, ◌&&◌, Option, none, some, if◌then◌else◌}
use ob_htap.Prelude.Int.{ℤ, pos, ltb_ℤ}
use ob_htap.Rc.{Rc, ob_succ}
use ob_htap.Trx.Heap.{Loc, Row, Heap}

-- The records of mvcc_trx_log.h.
pub data LogRecord : Type 0 where
  insert_record delete_record update_record : ℤ → Loc → LogRecord
  commit : ℤ → ℤ → LogRecord
  rollback : ℤ → LogRecord

-- What a transaction reads and writes beside its own fields. `engine` is the key-value store that
-- `Table::insert_record` writes to; `heap` is what `Table::visit_record` reads.
pub record World : Type 0 where
  pub current_trx_id : ℤ
  pub heap : Heap
  pub engine : List (ℕ × Row)
  pub log : List LogRecord

abbrev pub append_log : World → LogRecord → World
append_log w r = record w { log = w.log ++ r ∷ [] }

-- A log record of a change: `none` if the transaction has no number or the log refuses it.
unfoldable pub log_change : Rc → ℤ → LogRecord → World → Option World
log_change log_rc trx_id r w =
    if ltb_ℤ (pos 0) trx_id && ob_succ log_rc then some (append_log w r) else none

-- `MvccTrxLogHandler::commit`
unfoldable pub log_commit : Rc → Rc → ℤ → ℤ → World → Option (Rc × World)
log_commit log_rc wait_rc trx_id commit_xid w =
    if ltb_ℤ (pos 0) trx_id && ltb_ℤ trx_id commit_xid
    then if ob_succ log_rc
      then some (wait_rc, append_log w (LogRecord.commit trx_id commit_xid))
      else some (log_rc, w)
    else none
