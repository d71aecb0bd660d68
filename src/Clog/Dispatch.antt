-- ===== src/Clog/Dispatch.antt =====
-- src/observer/storage/clog/integrated_log_replayer.cpp: an entry goes to the replayer of its module. The
-- four replayers, those of the buffer pool, the index, the records and the transactions, work on one state:
-- they share the buffer pools.
use ob_htap.Prelude.{ℕ, if◌then◌else◌, ◌==◌}
use ob_htap.Rc.{Rc, ob_succ}
use ob_htap.Clog.Entry.{LogEntry}

-- `LogReplayer`, with the state that it changes.
pub record LogReplayer (S : Type 0) : Type 0 where
  pub replay : LogEntry → S → Rc × S
  pub on_done : S → Rc × S

-- `IntegratedLogReplayer`
pub record IntegratedLogReplayer (S : Type 0) : Type 0 where
  pub buffer_pool_log_replayer : LogReplayer S
  pub bplus_tree_log_replayer : LogReplayer S
  pub record_log_replayer : LogReplayer S
  pub trx_log_replayer : LogReplayer S

-- `LogModule::Id`
abbrev pub buffer_pool : ℕ
buffer_pool = 0

abbrev pub bplus_tree : ℕ
bplus_tree = 1

abbrev pub record_manager : ℕ
record_manager = 2

abbrev pub transaction : ℕ
transaction = 3

module _ {S : Type 0} (i : IntegratedLogReplayer S) where
  -- `IntegratedLogReplayer::replay`
  unfoldable pub dispatch : LogEntry → S → Rc × S
  dispatch e s =
      if e.header.module_id == buffer_pool
      then i.buffer_pool_log_replayer.replay e s
      else if e.header.module_id == record_manager
      then i.record_log_replayer.replay e s
      else if e.header.module_id == bplus_tree
      then i.bplus_tree_log_replayer.replay e s
      else if e.header.module_id == transaction
      then i.trx_log_replayer.replay e s
      else (Rc.invalid_argument, s)

  -- `IntegratedLogReplayer::on_done`
  unfoldable pub all_done : S → Rc × S
  all_done s =
      let (rc₁, s₁) = i.buffer_pool_log_replayer.on_done s in
      let (rc₂, s₂) = i.record_log_replayer.on_done s₁ in
      let (rc₃, s₃) = i.bplus_tree_log_replayer.on_done s₂ in
      if ob_succ rc₁
      then if ob_succ rc₂
        then if ob_succ rc₃ then i.trx_log_replayer.on_done s₃ else (rc₃, s₃)
        else (rc₂, s₂)
      else (rc₁, s₁)
