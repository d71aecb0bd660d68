-- ===== src/Clog/Buffer/Flush.antt =====
-- What `flush` takes from the queue, and what it puts into the file.
use ob_htap.Prelude.{
  ℕ, suc, ◌+◌, ◌≡◌, ◌<◌, ◌^◌, refl, sym, ap, List, [], ◌∷◌, ◌++◌, true, false, ◌&&◌, none, some,
  arith, length, take, take-all, min, ◌≤◌, zero, Bool-cases, inl, inr, ◌⊎◌, append_assoc,
  append-nil, All,
}
use ob_htap.Prelude.Int.{pos, leb_ℤ, ltb_ℤ, ◌-ℤ◌}
use ob_htap.Rc.{Rc, ob_succ}
use ob_htap.Clog.Entry.{
  LogEntry, header_bytes, payload, entry_bytes, max_payload_size, total_size, signed32, signed64,
}
use ob_htap.Clog.File.{LogFileWriter, Answer, to_int, write}
use ob_htap.Clog.File.Streams.{stream}
use ob_htap.Clog.Buffer.{LogEntryBuffer, next_answer, later_answers, flush_loop, flush}

take-append_more : (xs ys : List ℕ) (k : ℕ) → take (length xs + k) (xs ++ ys) ≡ xs ++ take k ys
take-append_more [] ys k = let e : 0 + k ≡ k = omega arith in rw e refl
take-append_more (x ∷ xs) ys k =
    let e : length (x ∷ xs) + k ≡ suc (length xs + k) = omega arith in
    rw e (ap (◌∷◌ x) (take-append_more xs ys k))

take-append_min : (k : ℕ) (xs ys : List ℕ) → take k xs ≡ take (min k (length xs)) (xs ++ ys)
take-append_min zero xs ys = let e : min 0 (length xs) ≡ 0 = omega arith in rw e refl
take-append_min (suc k) [] ys = let e : min (suc k) 0 ≡ 0 = omega arith in rw e refl
take-append_min (suc k) (x ∷ xs) ys =
    let e : min (suc k) (length (x ∷ xs)) ≡ suc (min k (length xs)) = omega arith in
    rw e (ap (◌∷◌ x) (take-append_min k xs ys))

-- The part of `write` after its tests.
abbrev put : Answer → Answer → LogEntry → LogFileWriter → Rc × LogFileWriter
put (some k) pa e w =
    (Rc.ioerr_write, record w { content = w.content ++ take k (header_bytes e.header) })
put none (some k) e w = (
  Rc.ioerr_write,
  record w { content = w.content ++ (header_bytes e.header ++ take k (payload e)) },
)
put none none e w =
    (Rc.success, record w { content = w.content ++ entry_bytes e; last_lsn = to_int e.header.lsn })

-- The tests of `write` refuse the entry and leave the file, or let it through.
write_cases :
    (ha pa : Answer) (e : LogEntry) (w : LogFileWriter)
    → ((rc : Rc) × (ob_succ rc ≡ false) × (write ha pa e w ≡ (rc, w)))
      ⊎ ((write ha pa e w ≡ put ha pa e w)
          × (w.opened ≡ true)
          × (ltb_ℤ w.last_lsn (signed64 e.header.lsn) ≡ true))
unfolding write
write_cases ha pa e w = elim (Bool-cases (ltb_ℤ w.end_lsn (signed64 e.header.lsn))) [
  | inl y ↦ inl (Rc.log_file_full, refl, rw y refl)
  | inr n ↦ elim (Bool-cases w.opened) [
    | inr c ↦ inl (Rc.file_not_opened, refl, rw (n, c) refl)
    | inl o ↦ elim (Bool-cases (leb_ℤ (signed64 e.header.lsn) w.last_lsn)) [
      | inl b ↦ inl (Rc.invalid_argument, refl, rw (n, o, b) refl)
      | inr g ↦ inr (accepted ha pa n o g, o, ground arith)
    ]
  ]
]
  where
    accepted :
        (ha pa : Answer)
        → ltb_ℤ w.end_lsn (signed64 e.header.lsn) ≡ false
        → w.opened ≡ true
        → leb_ℤ (signed64 e.header.lsn) w.last_lsn ≡ false
        → write ha pa e w ≡ put ha pa e w
    accepted none none n o g = rw (n, o, g) refl
    accepted none (some k) n o g = rw (n, o, g) refl
    accepted (some k) pa n o g = rw (n, o, g) refl

-- What a write does to the file: all of the entry, or some first part of its bytes.
record Wrote (e : LogEntry) (w : LogFileWriter) (r : Rc × LogFileWriter) : Type 0 where
  part : List ℕ
  content : r.1.content ≡ w.content ++ part
  reach : ℕ
  first : part ≡ take reach (entry_bytes e)
  whole : ob_succ r.0 ≡ true → part ≡ entry_bytes e

put-Wrote : (ha pa : Answer) (e : LogEntry) (w : LogFileWriter) → Wrote e w (put ha pa e w)
put-Wrote none none e w = record {
  part = entry_bytes e;
  content = refl;
  reach = length (entry_bytes e);
  first = sym (take-all (length (entry_bytes e)) (entry_bytes e) (omega arith));
  whole = λ _. refl;
}
put-Wrote none (some k) e w = record {
  part = header_bytes e.header ++ take k (payload e);
  content = refl;
  reach = length (header_bytes e.header) + k;
  first = sym (take-append_more (header_bytes e.header) (payload e) k);
  whole = λ s. cc;
}
put-Wrote (some k) pa e w = record {
  part = take k (header_bytes e.header);
  content = refl;
  reach = min k (length (header_bytes e.header));
  first = take-append_min k (header_bytes e.header) (payload e);
  whole = λ s. cc;
}

write-Wrote : (ha pa : Answer) (e : LogEntry) (w : LogFileWriter) → Wrote e w (write ha pa e w)
write-Wrote ha pa e w = elim (write_cases ha pa e w) [
  | inl (rc, f, q) ↦ rw q (record {
    part = [];
    content = sym (append-nil w.content);
    reach = 0;
    first = refl;
    whole = λ s. cc;
  })
  | inr (q, o, a) ↦ rw q (put-Wrote ha pa e w)
]

-- The bytes of the first entry of a queue.
abbrev pub first_bytes : List LogEntry → List ℕ
first_bytes [] = []
first_bytes (e ∷ es) = entry_bytes e

-- What a flush of the queue `es` does. It writes a first part of the queue, each entry once, whole and
-- in order, and keeps the rest in the queue; behind these the file has at most the first so many bytes
-- of the first entry that is kept. If it succeeds the queue is empty and there are no such bytes. It
-- counts what it has written, and gives out no LSN.
pub record Flushed (es : List LogEntry) (w : LogFileWriter) (current count : ℕ)
    (r : Rc × ℕ × LogFileWriter × LogEntryBuffer) : Type 0 where
  pub written : List LogEntry
  pub torn : List ℕ
  pub reach : ℕ
  pub torn_first : torn ≡ take reach (first_bytes r.3.entries)
  pub split : es ≡ written ++ r.3.entries
  pub counted : r.1 ≡ count + length written
  pub content : r.2.content ≡ w.content ++ (stream written ++ torn)
  pub finished : ob_succ r.0 ≡ true → (r.3.entries ≡ []) × (torn ≡ [])
  pub kept : r.3.current_lsn ≡ current

-- An entry that `flush` can take without failing an ASSERT, of a size that `init` lets through.
abbrev pub IsWritable : LogEntry → Type 0
IsWritable e =
    (0 < e.header.lsn)
    × (e.header.lsn < 2 ^ 63)
    × (0 < e.header.size)
    × (e.header.size ≤ max_payload_size)

writable_test :
    (e : LogEntry)
    → IsWritable e
    → (ltb_ℤ (pos 0) (signed64 e.header.lsn) && ltb_ℤ (pos 0) (signed32 e.header.size)) ≡ true
writable_test e v = ground arith

content-append :
    (a p s t c d : List ℕ) (b : List ℕ)
    → c ≡ d ++ (s ++ t)
    → d ≡ a ++ p
    → p ≡ b
    → c ≡ a ++ ((b ++ s) ++ t)
content-append a p s t c d b h k m = rw (h, k, m) (simp append_assoc)

flush_loop-Flushed :
    (es : List LogEntry) (answers : List (Answer × Answer)) (w : LogFileWriter) (b : LogEntryBuffer)
    (count : ℕ)
    → All IsWritable es
    → (r : Rc × ℕ × LogFileWriter × LogEntryBuffer) × (flush_loop es answers w b count ≡ some r)
      × Flushed es w b.current_lsn count r
unfolding flush_loop
flush_loop-Flushed [] answers w b count v = (
  _,
  refl,
  record {
    written = [];
    torn = [];
    reach = 0;
    torn_first = refl;
    split = refl;
    counted = omega arith;
    content = sym (append-nil w.content);
    finished = λ _. (refl, refl);
    kept = refl;
  },
)
flush_loop-Flushed (e ∷ es) answers w b count v =
    let a = next_answer answers in
    let p = write-Wrote a.0 a.1 e w in
    let (rc, w') = write a.0 a.1 e w in
    let b' : LogEntryBuffer = record b { entries = es; bytes = b.bytes -ℤ pos (total_size e) } in
    elim (Bool-cases (ob_succ rc)) [
      | inl y ↦
          let (r, q, f) =
            flush_loop-Flushed es (later_answers answers) w'
              (record b' { flushed_lsn = e.header.lsn }) (suc count) v.1 in
          (
            r,
            rw (writable_test e v.0, y) q,
            record {
              written = e ∷ f.written;
              torn = f.torn;
              reach = f.reach;
              torn_first = f.torn_first;
              split = ap (◌∷◌ e) f.split;
              counted = omega (arith, f.counted);
              content =
                  content-append w.content p.part (stream f.written) f.torn _ w'.content
                    (entry_bytes e) f.content p.content (p.whole y);
              finished = f.finished;
              kept = f.kept;
            },
          )
      | inr n ↦ (
        (rc, count, w', record b' { entries = e ∷ es }),
        rw (writable_test e v.0, n) refl,
        record {
          written = [];
          torn = p.part;
          reach = p.reach;
          torn_first = p.first;
          split = refl;
          counted = omega arith;
          content = p.content;
          finished = λ s. cc;
          kept = refl;
        },
      )
    ]

-- A flush of entries with LSNs and payloads, each payload of a size that `init` lets through, comes to
-- an end whatever the disk does. It has appended a first part of the queue to the file, each entry once,
-- whole and in order, and the queue is the rest. Behind the entries that were written the file has at
-- most the first so many bytes of the entry that is then the first of the queue. If the flush succeeds
-- the queue is empty, and no such bytes are in the file.
pub flush-Flushed :
    (answers : List (Answer × Answer)) (w : LogFileWriter) (b : LogEntryBuffer)
    → All IsWritable b.entries
    → (r : Rc × ℕ × LogFileWriter × LogEntryBuffer) × (flush answers w b ≡ some r)
      × Flushed b.entries w b.current_lsn 0 r
unfolding flush
flush-Flushed answers w b v = flush_loop-Flushed b.entries answers w b 0 v
