-- ===== src/Clog/Handler/Rounds.antt =====
-- The writing thread loses no entry, and writes to the file that it should.
use ob_htap.Prelude.{
  ℕ, ◌+◌, ◌-◌, ◌≡◌, refl, List, ◌++◌, [], true, false, ◌&&◌, ◌||◌, not, none, some, arith,
  Bool-cases, Option-cases, inl, inr, All, sym, append-nil, take,
}
use Prim.Native.String.{String}
use ob_htap.Rc.{ob_succ}
use ob_htap.Clog.Entry.{LogEntry}
use ob_htap.Clog.File.{Answer, to_int, open_writer, close_writer}
use ob_htap.Clog.File.Streams.{stream}
use ob_htap.Clog.Buffer.Flush.{IsWritable, first_bytes, flush-Flushed}
use ob_htap.Clog.Manager.{FileSystem, emplace, last_item, next_lsn, next_file, last_file}
use ob_htap.Clog.Handler.{Writing, is_file_full, open_file, thread_round}

module _ (name_of : ℕ → String) (files : FileSystem) (t : Writing) where
  -- The file that is to be opened: a new one behind the others, where the one before is full; otherwise
  -- the last one, or a first one where there is none. A new file is listed then.
  pub data Chosen (lsn : ℕ) (path : String) (o : Writing) : Type 0 where
    behind :
        is_file_full t.rc ≡ true
        → lsn ≡ next_lsn t.manager
        → path ≡ name_of lsn
        → o.manager.log_files ≡ emplace lsn path t.manager.log_files
        → Chosen lsn path o
    newest :
        is_file_full t.rc ≡ false
        → last_item t.manager.log_files ≡ some (lsn, path)
        → o.manager ≡ t.manager
        → Chosen lsn path o
    first :
        is_file_full t.rc ≡ false
        → last_item t.manager.log_files ≡ none
        → lsn ≡ 0
        → path ≡ name_of 0
        → o.manager.log_files ≡ emplace 0 path t.manager.log_files
        → Chosen lsn path o

  -- Where the file can be opened the writer has it, with what it holds and its limit; otherwise the
  -- writer has no file, and the round has failed.
  pub record Reached (lsn : ℕ) (path : String) (o : Writing) : Type 0 where
    pub found :
        (files path).0 ≡ true
        → o.writer ≡ record {
          opened = true;
          content = (files path).1;
          last_lsn = t.writer.last_lsn;
          end_lsn = to_int (lsn + t.manager.max_entries - 1);
        }
    pub missing : (files path).0 ≡ false → (o.writer.opened ≡ false) × (ob_succ o.rc ≡ false)

  -- A file is opened where the one before is full or none is open, and only then.
  pub data Opens (o : Writing) : Type 0 where
    stays : t.writer.opened ≡ true → is_file_full t.rc ≡ false → o ≡ t → Opens o
    opens :
        (lsn : ℕ) (path : String)
        → (not t.writer.opened || is_file_full t.rc) ≡ true
        → Chosen lsn path o
        → Reached lsn path o
        → Opens o

  next_file-Reached :
      (lsn : ℕ)
      → lsn ≡ next_lsn t.manager
      → let (rc, w, m) = next_file name_of files t.writer t.manager in
        Reached lsn (name_of lsn) (record t { rc = rc; writer = w; manager = m })
  unfolding next_file open_writer close_writer
  next_file-Reached lsn e = rw e (record { found = λ f. ground arith; missing = λ n. ground arith })

  open_last-Reached :
      (lsn : ℕ) (path : String)
      → last_item t.manager.log_files ≡ some (lsn, path)
      → let (rc, w, m) = last_file name_of files t.writer t.manager in
        Reached lsn path (record t { rc = rc; writer = w; manager = m })
  unfolding last_file open_writer close_writer
  open_last-Reached lsn path e =
      rw (e, last_file) (record { found = λ f. ground arith; missing = λ n. ground arith })

  open_file-Opens : Opens (open_file name_of files t)
  unfolding open_file last_file next_file next_lsn open_writer close_writer
  open_file-Opens = elim (Bool-cases (not t.writer.opened || is_file_full t.rc)) [
    | inr n ↦ stays (ground arith) (ground arith) (rw n refl)
    | inl y ↦ elim (Bool-cases (is_file_full t.rc)) [
      | inl f ↦
          opens (next_lsn t.manager) (name_of (next_lsn t.manager)) y
            (behind f refl refl (rw (y, f, next_file) refl))
            (rw (y, f) (next_file-Reached (next_lsn t.manager) refl))
      | inr f ↦ elim (Option-cases (last_item t.manager.log_files)) [
        | inl e ↦
            opens 0 (name_of 0) y
              (first f e refl refl (rw (y, f, e, last_file, next_file) (rw (e, next_lsn) refl)))
              (rw (y, f, e, last_file) (next_file-Reached 0 (rw (e, next_lsn) refl)))
        | inr ((lsn, path), e) ↦
            opens lsn path y (newest f e (rw (y, f, e, last_file) refl))
              (rw (y, f) (open_last-Reached lsn path e))
      ]
    ]
  ]

-- What a round has done to the queue and to the file that is open when it writes: it has put a first
-- part of the queue into the file, each entry once and whole, and the rest is still queued. Behind these
-- the file has at most the first so many bytes of the entry that is the first of the queue then.
pub record Kept (o t : Writing) : Type 0 where
  pub moved : List LogEntry
  pub torn : List ℕ
  pub reach : ℕ
  pub torn_first : torn ≡ take reach (first_bytes t.buffer.entries)
  pub queue : o.buffer.entries ≡ moved ++ t.buffer.entries
  pub content : t.writer.content ≡ o.writer.content ++ (stream moved ++ torn)

open_file-buffer :
    (name_of : ℕ → String) (files : FileSystem) (t : Writing)
    → (open_file name_of files t).buffer ≡ t.buffer
unfolding open_file
open_file-buffer name_of files t = elim (Bool-cases (not t.writer.opened || is_file_full t.rc)) [
  | inl y ↦ rw y refl
  | inr n ↦ rw n refl
]

-- The queued entries carry LSNs and payloads of a size that `init` lets through. Then a round of the
-- writing thread comes to an end, whether or not a file can be opened and whatever the disk does. A file
-- is opened just where the one before is full or none is open: the next file behind all others where
-- it is full, and otherwise the last one, or a first one where there is none; a new file is listed. Each entry that was queued
-- has been written whole, once and in order to that file, or is still queued; the file ends in at most a
-- first part of the bytes of the first entry that is queued.
pub thread_round-Kept :
    (name_of : ℕ → String) (files : FileSystem) (answers : List (Answer × Answer)) (t : Writing)
    → All IsWritable t.buffer.entries
    → (o : Writing) × (t' : Writing) × (thread_round name_of files answers t ≡ some t')
      × Opens name_of files t o
      × Kept o t'
      × (o.buffer ≡ t.buffer)
unfolding thread_round
thread_round-Kept name_of files answers t v =
    let o = open_file name_of files t in
    let same = open_file-buffer name_of files t in
    let v' : All IsWritable o.buffer.entries = rw same v in
    elim (Bool-cases ((not t.writer.opened || is_file_full t.rc) && not (ob_succ o.rc))) [
      | inl y ↦ (
        o,
        o,
        rw y refl,
        open_file-Opens name_of files t,
        record {
          moved = [];
          torn = [];
          reach = 0;
          torn_first = refl;
          queue = refl;
          content = sym (append-nil o.writer.content);
        },
        same,
      )
      | inr n ↦
          let ((rc, count, w, b), e, f) = flush-Flushed answers o.writer o.buffer v' in
          (
            o,
            record o { rc = rc; writer = w; buffer = b },
            rw (n, e, thread_round) refl,
            open_file-Opens name_of files t,
            record {
              moved = f.written;
              torn = f.torn;
              reach = f.reach;
              torn_first = f.torn_first;
              queue = f.split;
              content = f.content;
            },
            same,
          )
    ]
