-- ===== src/Clog/Tests.antt =====
-- The commit log at work on concrete entries.
use ob_htap.Prelude.{
  ℕ, ◌+◌, ◌≡◌, ◌≤◌, ◌<◌, refl, List, [], ◌∷◌, ◌++◌, true, false, Option, none, some, arith, All,
}
use ob_htap.Prelude.Int.{pos, ◌+ℤ◌}
use Prim.Native.String.{String}
use ob_htap.Rc.{Rc}
use ob_htap.Clog.Entry.{LogEntry, header_bytes, header_of, le_bytes, le_number, init}
use ob_htap.Clog.File.{LogFileWriter, readn, bad_size, skip_loop, entry_of, iterate, iterate_loop}
use ob_htap.Clog.File.RoundTrip.{iterate_total}
use ob_htap.Clog.File.Streams.{IsEntry, stream, feed, iterate-stream}
use ob_htap.Clog.Buffer.{LogEntryBuffer, append, flush, init_buffer}
use ob_htap.Clog.Buffer.Order.{IsOrdered, Appended, append-Appended, append-IsOrdered}
use ob_htap.Clog.Buffer.Flush.{Flushed, flush-Flushed}
use ob_htap.Clog.Buffer.Durable.{iterate-flush}
use ob_htap.Clog.Manager.{LogFileManager, next_lsn, next_file}
use ob_htap.Clog.Manager.Files.{IsSpaced, next_file-IsSpaced}
use ob_htap.Clog.Handler.{iterate_files, replay, replay_callback}
use ob_htap.Clog.Handler.{Writing, thread_round}
use ob_htap.Clog.Handler.Rounds.{Opens, Kept, thread_round-Kept}
use ob_htap.Clog.Handler.Replay.{replay_fresh}

abbrev entry : ℕ → LogEntry
entry lsn = record { header = record { lsn = lsn; size = 2; module_id = 1 }; bytes = 65 ∷ 66 ∷ [] }

abbrev two : List LogEntry
two = entry 1 ∷ entry 2 ∷ []

abbrev collect : LogEntry → List LogEntry → Rc × List LogEntry
collect e es = (Rc.success, es ++ e ∷ [])

entry_1-IsEntry : IsEntry (entry 1)
entry_1-IsEntry = record {
  header_fits = record {
    lsn_fits = omega arith;
    size_fits = omega arith;
    module_fits = omega arith;
  };
  sized = refl;
  small = omega arith;
}

entry_2-IsEntry : IsEntry (entry 2)
entry_2-IsEntry = record {
  header_fits = record {
    lsn_fits = omega arith;
    size_fits = omega arith;
    module_fits = omega arith;
  };
  sized = refl;
  small = omega arith;
}

iterate_total_example :
    (r : Rc × List LogEntry) × (iterate collect (some (1 ∷ 2 ∷ 3 ∷ [])) (pos 0) [] ≡ some r)
iterate_total_example = iterate_total collect (some (1 ∷ 2 ∷ 3 ∷ [])) (pos 0) []

iterate-stream_example :
    iterate collect (some (stream two ++ 7 ∷ [])) (pos 2) [] ≡ some (feed collect (entry 2 ∷ []) [])
iterate-stream_example =
    iterate-stream collect (pos 2) two (7 ∷ []) [] (entry_1-IsEntry, (entry_2-IsEntry, tt))
      (omega arith)

-- A buffer that has flushed nothing, and holds some entries.
abbrev buffer : List LogEntry → ℕ → LogEntryBuffer
buffer es current = record {
  entries = es;
  bytes = pos 0;
  current_lsn = current;
  flushed_lsn = 0;
  max_bytes = 1024;
}

abbrev writer : LogFileWriter
writer = record { opened = true; content = []; last_lsn = pos 0; end_lsn = pos 999 }

append-Appended_example :
    (r : Rc × ℕ × LogEntryBuffer) × (append 1 (65 ∷ 66 ∷ []) 0 (buffer [] 0) ≡ some r)
    × Appended 1 (65 ∷ 66 ∷ []) (buffer [] 0) r
append-Appended_example = append-Appended 1 (65 ∷ 66 ∷ []) 0 (buffer [] 0) refl

abbrev one_queued : LogEntryBuffer
one_queued = record (buffer (entry 1 ∷ []) 1) { bytes = pos 16 }

appended_1 : append 1 (65 ∷ 66 ∷ []) 0 (buffer [] 0) ≡ some (Rc.success, 1, one_queued)
unfolding append init ◌+ℤ◌
appended_1 = refl

append-IsOrdered_example : IsOrdered one_queued
append-IsOrdered_example =
    append-IsOrdered 1 (65 ∷ 66 ∷ []) 0 (buffer [] 0) {r = (Rc.success, 1, one_queued)} appended_1
      (omega arith)

flush-Flushed_example :
    (r : Rc × ℕ × LogFileWriter × LogEntryBuffer) × (flush
        ((none, none) ∷ (some 3, none) ∷ [])
        writer
        (buffer two 2)
      ≡ some r)
    × Flushed two writer 2 0 r
flush-Flushed_example =
    flush-Flushed ((none, none) ∷ (some 3, none) ∷ []) writer (buffer two 2)
      (omega arith, (omega arith, tt))

iterate-flush_example :
    (n : ℕ) × (w' : LogFileWriter) × (b' : LogEntryBuffer) × (flush [] writer (buffer two 2)
      ≡ some (Rc.success, n, w', b'))
    × (iterate collect (some w'.content) (pos 2) [] ≡ some (feed collect (entry 2 ∷ []) []))
    × (b'.entries ≡ [])
    × (n ≡ 2)
iterate-flush_example =
    iterate-flush collect (pos 2) [] writer (buffer two 2) 0 999 []
      (record { opened = refl; last = refl; limit = refl; small = omega arith })
      (omega arith, (omega arith, omega arith)) (omega arith, (omega arith, tt)) tt
      (entry_1-IsEntry, (entry_2-IsEntry, tt)) refl

abbrev lsn_of : String → Option ℕ
lsn_of name = some 1000

abbrev manager : LogFileManager
manager = record { max_entries = 1000; log_files = (0, "clog_0.log") ∷ [] }

next_file-IsSpaced_example :
    let (rc, w', m') = next_file (λ lsn. "clog_next.log") (λ path. (true, [])) writer manager in
    (m'.log_files ≡ (0, "clog_0.log") ∷ (next_lsn manager, "clog_next.log") ∷ [])
    × ((0 + 1000 ≤ next_lsn manager) × Unit {0})
    × IsSpaced m'.max_entries 0 m'.log_files
next_file-IsSpaced_example =
    next_file-IsSpaced (λ lsn. "clog_next.log") (λ path. (true, [])) writer manager (omega arith)
      (omega arith, tt)

replayed :
    replay collect (some (stream two ++ 7 ∷ []) ∷ []) (pos 2) [] (buffer [] 0)
    ≡ some (Rc.success, entry 2 ∷ [], record (buffer [] 2) { flushed_lsn = 2 })
unfolding replay iterate_files iterate skip_loop iterate_loop readn header_of header_bytes le_bytes
    le_number entry_of init bad_size replay_callback init_buffer
replayed = refl

replay_fresh_example :
    All (λ e. e.header.lsn < 3) (entry 2 ∷ [])
    × IsOrdered (record (buffer [] 2) { flushed_lsn = 2 })
replay_fresh_example =
    replay_fresh collect (record { entries = two; tail = 7 ∷ [] } ∷ []) (pos 2) [] (buffer [] 0)
      {rc = Rc.success} {s' = entry 2 ∷ []} {b' = record (buffer [] 2) { flushed_lsn = 2 }}
      (
        ((entry_1-IsEntry, (entry_2-IsEntry, tt)), (omega arith, (omega arith, tt)), omega arith),
        tt,
      )
      refl replayed refl

-- The thread with no file open, and a disk that stops within the first header.
abbrev idle : Writing
idle = record {
  rc = Rc.success;
  writer = record writer { opened = false };
  manager = manager;
  buffer = buffer two 2;
}

thread_round-Kept_example :
    (o : Writing) × (t' : Writing) × (thread_round
        (λ lsn. "clog_next.log")
        (λ path. (true, []))
        ((some 3, none) ∷ [])
        idle
      ≡ some t')
    × Opens (λ lsn. "clog_next.log") (λ path. (true, [])) idle o
    × Kept o t'
    × (o.buffer ≡ idle.buffer)
thread_round-Kept_example =
    thread_round-Kept (λ lsn. "clog_next.log") (λ path. (true, [])) ((some 3, none) ∷ []) idle
      (omega arith, (omega arith, tt))
