-- ===== src/Clog/Handler.antt =====
-- src/observer/storage/clog/disk_log_handler.h and disk_log_handler.cpp: replaying the files, and the
-- thread that writes. `none` is an ASSERT that fails, or a wait that goes on.
pub mod Replay
pub mod Rounds
use ob_htap.Prelude.{
  ℕ, List, [], ◌∷◌, Bool, true, false, ◌&&◌, ◌||◌, not, Option, none, some, if◌then◌else◌, ltb, leb,
}
use ob_htap.Prelude.Int.{ℤ, ltb_ℤ}
use ob_htap.Rc.{Rc, ob_succ}
use ob_htap.Clog.Entry.{LogEntry, signed64}
use ob_htap.Clog.File.{LogFileWriter, Answer, iterate}
use ob_htap.Clog.Buffer.{LogEntryBuffer, append, flush, init_buffer}
use ob_htap.Clog.Manager.{LogFileManager, FileSystem, next_file, last_file}
use Prim.Native.String.{String}

-- The state of the thread, and `running_`.
pub record Life : Type 0 where
  pub started : Bool
  pub running : Bool

-- `DiskLogHandler::start`, `stop` and `await_termination`
unfoldable pub start : Life → Rc × Life
start l =
    if l.started then (Rc.internal, l) else (Rc.success, record { started = true; running = true })

unfoldable pub stop : Life → Rc × Life
stop l = if l.started then (Rc.success, record l { running = false }) else (Rc.internal, l)

unfoldable pub await_termination : Life → Rc × Life
await_termination l =
    if l.started
    then if l.running then (Rc.internal, l) else (Rc.success, record l { started = false })
    else (Rc.internal, l)

module _ {S : Type 0} (callback : LogEntry → S → Rc × S) where
  -- The loop of `DiskLogHandler::iterate` over the listed files; `none` is a file that cannot be
  -- opened. Closing a file that is open does not fail.
  unfoldable pub iterate_files : List (Option (List ℕ)) → ℤ → S → Option (Rc × S)
  iterate_files [] start_lsn s = some (Rc.success, s)
  iterate_files (none ∷ files) start_lsn s = some (Rc.file_open, s)
  iterate_files (some bs ∷ files) start_lsn s = elim (iterate callback (some bs) start_lsn s) [
    | none ↦ none
    | some (rc, s') ↦
        let rest = iterate_files files start_lsn s' in if ob_succ rc then rest else some (rc, s')
  ]

-- The callback of `replay`, which keeps the highest LSN that it has seen.
unfoldable pub replay_callback :
    {S : Type 0} → (LogEntry → S → Rc × S) → LogEntry → ℕ × S → Rc × (ℕ × S)
replay_callback replayer e (max_lsn, s) =
    let (rc, s') = replayer e s in
    (rc, (if ltb_ℤ (signed64 max_lsn) (signed64 e.header.lsn) then e.header.lsn else max_lsn, s'))

-- `DiskLogHandler::replay` over the files that `list_files` gives. `init` is called with no limit of
-- bytes, so the limit stays.
unfoldable pub replay :
    {S : Type 0}
    → (LogEntry → S → Rc × S)
    → List (Option (List ℕ))
    → ℤ
    → S
    → LogEntryBuffer
    → Option (Rc × S × LogEntryBuffer)
replay replayer files start_lsn s b =
    elim (iterate_files (replay_callback replayer) files start_lsn (0, s)) [
      | none ↦ none
      | some (rc, (max_lsn, s')) ↦ some (rc, s', if ob_succ rc then init_buffer max_lsn 0 b else b)
    ]

-- `DiskLogHandler::_append`
unfoldable pub append_entry :
    Life → ℕ → List ℕ → ℕ → LogEntryBuffer → Option (Rc × ℕ × LogEntryBuffer)
append_entry l module_id payload lsn b = if l.running then append module_id payload lsn b else none

-- `DiskLogHandler::wait_lsn`, at a moment: it waits on, or answers.
unfoldable pub wait_lsn : Life → LogEntryBuffer → ℕ → Option Rc
wait_lsn l b lsn =
    if l.running && ltb b.flushed_lsn lsn
    then none
    else some (if leb lsn b.flushed_lsn then Rc.success else Rc.internal)

-- What the writing thread holds.
pub record Writing : Type 0 where
  pub rc : Rc
  pub writer : LogFileWriter
  pub manager : LogFileManager
  pub buffer : LogEntryBuffer

-- `rc == RC::LOG_FILE_FULL`
abbrev pub is_file_full : Rc → Bool
is_file_full Rc.log_file_full = true
is_file_full _ = false

-- The part of a round of `thread_func` that opens a file where there is need of one.
unfoldable pub open_file : (ℕ → String) → FileSystem → Writing → Writing
open_file name_of files t =
    if not t.writer.opened || is_file_full t.rc
    then (let (rc, w, m) =
          if is_file_full t.rc
          then next_file name_of files t.writer t.manager
          else last_file name_of files t.writer t.manager in
        record t { rc = rc; writer = w; manager = m })
    else t

-- One round of the loop of `thread_func`: `none` is a failing ASSERT of `flush`. If a file was to be
-- opened and could not be, the round ends there.
unfoldable pub thread_round :
    (ℕ → String) → FileSystem → List (Answer × Answer) → Writing → Option Writing
thread_round name_of files answers t =
    let o = open_file name_of files t in
    if (not t.writer.opened || is_file_full t.rc) && not (ob_succ o.rc)
    then some o
    else elim (flush answers o.writer o.buffer) [
      | none ↦ none
      | some (rc, count, w, b) ↦ some (record o { rc = rc; writer = w; buffer = b })
    ]
