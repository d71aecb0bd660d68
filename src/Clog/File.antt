-- ===== src/Clog/File.antt =====
-- src/observer/storage/clog/log_file.h and log_file.cpp: the writer and the reader of a log file.
-- A file is the list of its bytes. What the disk does to each `writen` is an argument: it takes all
-- of the bytes, or fails after some of them. Reads and seeks in an open file do not fail.
pub mod RoundTrip
pub mod Streams
use ob_htap.Prelude.{
  ℕ, zero, suc, ◌%◌, ◌^◌, List, [], ◌++◌, Bool, true, false, ◌||◌, Option, none, some,
  if◌then◌else◌, ltb, length, take, drop,
}
use ob_htap.Prelude.Int.{ℤ, pos, ltb_ℤ, leb_ℤ}
use ob_htap.Rc.{Rc, ob_succ}
use ob_htap.Clog.Entry.{
  LogHeader, LogEntry, header_size, header_of, header_bytes, max_payload_size, init, payload,
  signed32, signed64,
}

-- `LogFileWriter`, with the content of its file. `opened` is `fd_ >= 0`; `last_lsn_` and `end_lsn_`
-- are of type `int`.
pub record LogFileWriter : Type 0 where
  pub opened : Bool
  pub content : List ℕ
  pub last_lsn : ℤ
  pub end_lsn : ℤ

-- Conversion of an LSN to `int`.
abbrev pub to_int : ℕ → ℤ
to_int lsn = signed32 (lsn % 2 ^ 32)

-- `LogFileWriter::open` on a file that holds `content`; `found` is that the file can be opened.
unfoldable pub open_writer : Bool → List ℕ → ℤ → LogFileWriter → Rc × LogFileWriter
open_writer found content end_lsn w =
    if w.opened
    then (Rc.file_open, w)
    else if found
    then (Rc.success, record w { opened = true; content = content; end_lsn = end_lsn })
    else (Rc.file_open, record w { end_lsn = end_lsn })

-- `LogFileWriter::close`
unfoldable pub close_writer : LogFileWriter → Rc × LogFileWriter
close_writer w =
    if w.opened then (Rc.success, record w { opened = false }) else (Rc.file_not_opened, w)

-- `none`: all bytes are written. `some k`: the write fails after `k` bytes.
abbrev pub Answer : Type 0
Answer = Option ℕ

-- `LogFileWriter::write`
unfoldable pub write : Answer → Answer → LogEntry → LogFileWriter → Rc × LogFileWriter
write header_answer payload_answer e w =
    if ltb_ℤ w.end_lsn (signed64 e.header.lsn)
    then (Rc.log_file_full, w)
    else if w.opened
    then if leb_ℤ (signed64 e.header.lsn) w.last_lsn
      then (Rc.invalid_argument, w)
      else elim header_answer [
        | some k ↦
            (Rc.ioerr_write, record w { content = w.content ++ take k (header_bytes e.header) })
        | none ↦ elim payload_answer [
          | some k ↦ (
            Rc.ioerr_write,
            record w { content = w.content ++ (header_bytes e.header ++ take k (payload e)) },
          )
          | none ↦ (
            Rc.success,
            record w {
              content = w.content ++ (header_bytes e.header ++ payload e);
              last_lsn = to_int e.header.lsn;
            },
          )
        ]
      ]
    else (Rc.file_not_opened, w)

-- `LogFileWriter::full`
unfoldable pub full : LogFileWriter → Bool
full w = leb_ℤ w.end_lsn w.last_lsn

-- `readn` of some bytes, from what is left of the file: fewer than that are the end of the file.
unfoldable pub readn : ℕ → List ℕ → Option (List ℕ × List ℕ)
readn n bs = if ltb (length bs) n then none else some (take n bs, drop n bs)

-- `header.size < 0 || header.size > LogEntry::max_payload_size()`
unfoldable pub bad_size : LogHeader → Bool
bad_size h = ltb_ℤ (signed32 h.size) (pos 0) || ltb_ℤ (pos max_payload_size) (signed32 h.size)

-- The loop of `LogFileReader::skip_to`. The result has what is left of the file; on finding the
-- entry it is left from that entry's header on. `none` is out of fuel.
unfoldable pub skip_loop : ℕ → ℤ → List ℕ → Option (Rc × List ℕ)
skip_loop zero start bs = none
skip_loop (suc fuel) start bs = elim (readn header_size bs) [
  | none ↦ some (Rc.success, [])
  | some (hb, rest) ↦
      let h = header_of hb in
      let next = skip_loop fuel start (drop h.size rest) in
      if leb_ℤ start (signed64 h.lsn)
      then some (Rc.success, bs)
      else if bad_size h
      then some (Rc.ioerr_read, rest)
      else next
]

-- The entry that `LogEntry::init` makes of a header and a payload that were read; a failing `init`
-- leaves an entry with LSN 0 and no payload.
unfoldable pub entry_of : LogHeader → List ℕ → LogEntry
entry_of h bs = elim (init h.lsn h.module_id bs) [
  | none ↦ record { header = record { lsn = 0; size = 0; module_id = 0 }; bytes = [] }
  | some e ↦ e
]

module _ {S : Type 0} (callback : LogEntry → S → Rc × S) where
  -- The loop of `LogFileReader::iterate`.
  unfoldable pub iterate_loop : ℕ → List ℕ → S → Option (Rc × S)
  iterate_loop zero bs s = none
  iterate_loop (suc fuel) bs s = elim (readn header_size bs) [
    | none ↦ some (Rc.success, s)
    | some (hb, rest) ↦
        let h = header_of hb in
        if bad_size h then some (Rc.ioerr_read, s) else elim (readn h.size rest) [
          | none ↦ some (Rc.ioerr_read, s)
          | some (bs', rest') ↦
              let (rc, s') = callback (entry_of h bs') s in
              let next = iterate_loop fuel rest' s' in if ob_succ rc then next else some (rc, s')
        ]
  ]

  -- `LogFileReader::iterate` on an open file, and on a reader with none (`none`). Each round of a
  -- loop reads a header, so the number of bytes is fuel enough.
  unfoldable pub iterate : Option (List ℕ) → ℤ → S → Option (Rc × S)
  iterate none start s = some (Rc.file_not_opened, s)
  iterate (some bs) start s = elim (skip_loop (suc (length bs)) start bs) [
    | none ↦ none
    | some (rc, rest) ↦
        let go = iterate_loop (suc (length bs)) rest s in if ob_succ rc then go else some (rc, s)
  ]
