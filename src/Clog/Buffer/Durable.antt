-- ===== src/Clog/Buffer/Durable.antt =====
-- What is flushed without a fault is read back.
use ob_htap.Prelude.{
  ℕ, suc, ◌≡◌, ◌≤◌, ◌<◌, ◌^◌, refl, sym, ap, ◌∙◌, List, [], ◌∷◌, ◌++◌, true, none, some, arith,
  length, append_assoc, append-nil, All, All-append, subst,
}
use ob_htap.Prelude.Int.{ℤ, pos, ◌-ℤ◌}
use ob_htap.Rc.{Rc, ob_succ}
use ob_htap.Clog.Entry.{LogEntry, entry_bytes, total_size, max_payload_size}
use ob_htap.Clog.File.{LogFileWriter, write, iterate}
use ob_htap.Clog.File.Streams.{IsEntry, stream, drop_below, feed, iterate-stream}
use ob_htap.Clog.Buffer.{LogEntryBuffer, flush_loop, flush}
use ob_htap.Clog.Buffer.Order.{IsAscending}
use ob_htap.Clog.Buffer.Flush.{Flushed, IsWritable, flush-Flushed}

stream-append : (es ds : List LogEntry) → stream (es ++ ds) ≡ stream es ++ stream ds
stream-append [] ds = refl
stream-append (e ∷ es) ds =
    rw (stream-append es ds) (sym (append_assoc (entry_bytes e) (stream es) (stream ds)))

-- A writer that has written up to `lo` and may write up to `hi`.
pub record IsReady (w : LogFileWriter) (lo hi : ℕ) : Type 0 where
  pub opened : w.opened ≡ true
  pub last : w.last_lsn ≡ pos lo
  pub limit : w.end_lsn ≡ pos hi
  pub small : hi < 2 ^ 31

abbrev pub HasPayload : LogEntry → Type 0
HasPayload e = (0 < e.header.size) × (e.header.size ≤ max_payload_size)

IsAscending-le : (lo : ℕ) (es : List LogEntry) (hi : ℕ) → IsAscending lo es hi → lo ≤ hi
IsAscending-le lo [] hi a = a
IsAscending-le lo (e ∷ es) hi a = omega (arith, a.0, IsAscending-le e.header.lsn es hi a.1)

write_accepted :
    (e : LogEntry) (w : LogFileWriter) (lo hi : ℕ)
    → IsReady w lo hi
    → lo < e.header.lsn
    → e.header.lsn ≤ hi
    → write none none e w
      ≡ (Rc.success, record w { content = w.content ++ entry_bytes e; last_lsn = pos e.header.lsn })
unfolding write
write_accepted e w lo hi r l h = ground (arith, r.opened, r.last, r.limit, r.small)

flush_loop_succeeds :
    (es : List LogEntry) (w : LogFileWriter) (b : LogEntryBuffer) (count lo hi : ℕ)
    → IsReady w lo hi
    → IsAscending lo es hi
    → All HasPayload es
    → (n : ℕ) × (w' : LogFileWriter) × (b' : LogEntryBuffer) × (flush_loop es [] w b count
        ≡ some (Rc.success, n, w', b'))
unfolding flush_loop
flush_loop_succeeds [] w b count lo hi r a p = (count, w, record b { entries = [] }, refl)
flush_loop_succeeds (e ∷ es) w b count lo hi r a p =
    let le = IsAscending-le e.header.lsn es hi a.1 in
    let w' : LogFileWriter = record w {
      content = w.content ++ entry_bytes e;
      last_lsn = pos e.header.lsn;
    } in
    let (n, w'', b'', q) =
      flush_loop_succeeds es w'
        (record b {
          entries = es;
          bytes = b.bytes -ℤ pos (total_size e);
          flushed_lsn = e.header.lsn;
        })
        (suc count) e.header.lsn hi
        (record { opened = r.opened; last = refl; limit = r.limit; small = r.small }) a.1 p.1 in
    (n, w'', b'', ground (arith, write_accepted e w lo hi r a.0 le, q, r.small, le, a.0, p.0))

-- From the order and the bound an entry has what `flush` asserts.
IsAscending-IsWritable :
    (lo : ℕ) (es : List LogEntry) (hi : ℕ)
    → IsAscending lo es hi
    → hi < 2 ^ 31
    → All HasPayload es
    → All IsWritable es
IsAscending-IsWritable lo [] hi a h p = tt
IsAscending-IsWritable lo (e ∷ es) hi a h p =
    let le = IsAscending-le e.header.lsn es hi a.1 in
    (
      (omega (arith, a.0), omega arith, p.0.0, p.0.1),
      IsAscending-IsWritable e.header.lsn es hi a.1 h p.1,
    )

module _ {S : Type 0} (callback : LogEntry → S → Rc × S) where
  read_back :
      (start : ℤ) (old es : List LogEntry) (w : LogFileWriter) (current : ℕ) (s : S)
      (r : Rc × ℕ × LogFileWriter × LogEntryBuffer)
      → All IsEntry old
      → All IsEntry es
      → w.content ≡ stream old
      → ob_succ r.0 ≡ true
      → Flushed es w current 0 r
      → (iterate callback (some r.2.content) start s
          ≡ some (feed callback (drop_below start (old ++ es)) s))
        × (r.3.entries ≡ [])
        × (r.1 ≡ length es)
  read_back start old es w current s r vo ve c y f =
      let e : es ≡ f.written =
        f.split ∙ ap (◌++◌ f.written) (f.finished y).0 ∙ append-nil f.written in
      let h : r.2.content ≡ stream (old ++ es) ++ [] =
        f.content ∙ rw ((f.finished y).1, c, ← e, stream-append old es) (simp append-nil) in
      (
        rw h (
            iterate-stream callback start (old ++ es) [] s (All-append IsEntry old es vo ve)
              (omega arith)),
        (f.finished y).0,
        f.counted ∙ rw (← e) (omega arith),
      )

  -- The writer is open, has written up to the LSN `lo` and may write up to `hi`, which is below
  -- 2 ^ 31; the LSNs of the queue rise from above `lo` up to `hi` at most, its entries carry
  -- payloads, and they and those in the file are as `init` makes them. Where the disk makes no
  -- fault, a flush then succeeds and empties the queue, and reading the file afterwards gives what
  -- was in the file before, then the whole queue in order: the callback is handed each of these
  -- entries from the first one on whose LSN is not below the start.
  pub iterate-flush :
      (start : ℤ) (old : List LogEntry) (w : LogFileWriter) (b : LogEntryBuffer) (lo hi : ℕ) (s : S)
      → IsReady w lo hi
      → IsAscending lo b.entries hi
      → All HasPayload b.entries
      → All IsEntry old
      → All IsEntry b.entries
      → w.content ≡ stream old
      → (n : ℕ) × (w' : LogFileWriter) × (b' : LogEntryBuffer) × (flush [] w b
          ≡ some (Rc.success, n, w', b'))
        × (iterate callback (some w'.content) start s
            ≡ some (feed callback (drop_below start (old ++ b.entries)) s))
        × (b'.entries ≡ [])
        × (n ≡ length b.entries)
  unfolding flush
  iterate-flush start old w b lo hi s r a p vo ve c =
      let (n, w', b', q) = flush_loop_succeeds b.entries w b 0 lo hi r a p in
      let (t, q', f) = flush-Flushed [] w b (IsAscending-IsWritable lo b.entries hi a r.small p) in
      let e : t ≡ (Rc.success, n, w', b') = cc in
      let back =
        read_back start old b.entries w b.current_lsn s (Rc.success, n, w', b') vo ve c refl
          (subst (Flushed b.entries w b.current_lsn 0) e f) in
      (n, w', b', q, back.0, back.1, back.2)
