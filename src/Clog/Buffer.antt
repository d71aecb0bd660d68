-- ===== src/Clog/Buffer.antt =====
-- src/observer/storage/clog/log_buffer.h and log_buffer.cpp: the entries that wait to be written.
-- An ASSERT that fails ends the process: the result is `none`. No entry is appended while `flush` is
-- at work. The counters of LSNs do not wrap.
pub mod Order
pub mod Flush
pub mod Durable
use ob_htap.Prelude.{ℕ, suc, List, [], ◌∷◌, ◌++◌, ◌&&◌, Option, none, some, if◌then◌else◌, ltb}
use ob_htap.Prelude.Int.{ℤ, pos, leb_ℤ, ltb_ℤ, ◌+ℤ◌, ◌-ℤ◌}
use ob_htap.Rc.{Rc, ob_succ}
use ob_htap.Clog.Entry.{LogEntry, init, moved_from, total_size, signed32, signed64}
use ob_htap.Clog.File.{LogFileWriter, Answer, write}

-- `LogEntryBuffer`; `bytes` is an `int64_t`.
pub record LogEntryBuffer : Type 0 where
  pub entries : List LogEntry
  pub bytes : ℤ
  pub current_lsn : ℕ
  pub flushed_lsn : ℕ
  pub max_bytes : ℕ

-- `LogEntryBuffer::init`
unfoldable pub init_buffer : ℕ → ℕ → LogEntryBuffer → LogEntryBuffer
init_buffer lsn max_bytes b = record b {
  current_lsn = lsn;
  flushed_lsn = lsn;
  max_bytes = if ltb 0 max_bytes then max_bytes else b.max_bytes;
}

-- `LogEntry::set_lsn`
abbrev pub set_lsn : ℕ → LogEntry → LogEntry
set_lsn lsn e = record e {
  header = record { lsn = lsn; size = e.header.size; module_id = e.header.module_id };
}

-- `LogEntryBuffer::append`, with the LSN that it gives out. `none`: it waits for a flush. The entry
-- is moved into the queue before its size is added up.
unfoldable pub append : ℕ → List ℕ → ℕ → LogEntryBuffer → Option (Rc × ℕ × LogEntryBuffer)
append module_id payload lsn b =
    if leb_ℤ (pos b.max_bytes) b.bytes then none else elim (init lsn module_id payload) [
      | none ↦ some (Rc.invalid_argument, lsn, b)
      | some e ↦
          let next = suc b.current_lsn in
          some (
            Rc.success,
            next,
            record b {
              entries = b.entries ++ set_lsn next e ∷ [];
              bytes = b.bytes +ℤ pos (total_size (moved_from (set_lsn next e)));
              current_lsn = next;
            },
          )
    ]

-- What the disk does to the two writes of each entry; beyond the list all goes well.
abbrev pub next_answer : List (Answer × Answer) → Answer × Answer
next_answer [] = (none, none)
next_answer (a ∷ answers) = a

abbrev pub later_answers : List (Answer × Answer) → List (Answer × Answer)
later_answers [] = []
later_answers (a ∷ answers) = answers

-- The loop of `flush` over the queue; `count` is the number of entries written so far.
unfoldable pub flush_loop :
    List LogEntry
    → List (Answer × Answer)
    → LogFileWriter
    → LogEntryBuffer
    → ℕ
    → Option (Rc × ℕ × LogFileWriter × LogEntryBuffer)
flush_loop [] answers w b count = some (Rc.success, count, w, record b { entries = [] })
flush_loop (e ∷ es) answers w b count =
    let taken : LogEntryBuffer = record b { entries = es; bytes = b.bytes -ℤ pos (total_size e) } in
    let (rc, w') = write (next_answer answers).0 (next_answer answers).1 e w in
    let rest =
      flush_loop es (later_answers answers) w' (record taken { flushed_lsn = e.header.lsn })
        (suc count) in
    if ltb_ℤ (pos 0) (signed64 e.header.lsn) && ltb_ℤ (pos 0) (signed32 e.header.size)
    then if ob_succ rc then rest else some (rc, count, w', record taken { entries = e ∷ es })
    else none

-- `LogEntryBuffer::flush`
unfoldable pub flush :
    List (Answer × Answer)
    → LogFileWriter
    → LogEntryBuffer
    → Option (Rc × ℕ × LogFileWriter × LogEntryBuffer)
flush answers w b = flush_loop b.entries answers w b 0
