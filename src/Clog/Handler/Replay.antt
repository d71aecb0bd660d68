-- ===== src/Clog/Handler/Replay.antt =====
-- After a replay no LSN is given out twice.
use ob_htap.Prelude.{
  ℕ, suc, ◌≡◌, ◌≤◌, ◌<◌, ◌^◌, List, [], ◌∷◌, ◌++◌, true, false, some, map, arith, Option, length,
  All, Option-cases, Bool-cases, inl, inr, sym, subst,
}
use ob_htap.Prelude.Int.{ℤ, leb_ℤ}
use ob_htap.Rc.{Rc, ob_succ}
use ob_htap.Clog.Entry.{LogEntry, header_size, signed64}
use ob_htap.Clog.File.{iterate}
use ob_htap.Clog.File.Streams.{
  IsEntry, stream, drop_below, feed, feed_accepted, feed_refused, iterate-stream,
}
use ob_htap.Clog.Buffer.{LogEntryBuffer, init_buffer}
use ob_htap.Clog.Buffer.Order.{IsOrdered}
use ob_htap.Clog.Handler.{iterate_files, replay_callback, replay}

-- A file: its entries, and the bytes behind them.
pub record LogFile : Type 0 where
  pub entries : List LogEntry
  pub tail : List ℕ

abbrev pub file_bytes : LogFile → Option (List ℕ)
file_bytes f = some (stream f.entries ++ f.tail)

abbrev pub IsSmall : LogEntry → Type 0
IsSmall e = e.header.lsn < 2 ^ 63

-- The entries are as `init` makes them, with LSNs that are not negative; behind them there is less than
-- a header.
abbrev pub IsLog : LogFile → Type 0
IsLog f = All IsEntry f.entries × All IsSmall f.entries × (length f.tail < header_size)

refused_not_ok : (rc : Rc) → ob_succ rc ≡ false → ob_succ rc ≡ true → ⊥
refused_not_ok rc n y = cc

module _ {S : Type 0} (replayer : LogEntry → S → Rc × S) where
  callback_max :
      (e : LogEntry) (m : ℕ) (s : S)
      → e.header.lsn < 2 ^ 63
      → m < 2 ^ 63
      → (m ≤ (replay_callback replayer e (m, s)).1.0)
        × (e.header.lsn ≤ (replay_callback replayer e (m, s)).1.0)
        × ((replay_callback replayer e (m, s)).1.0 < 2 ^ 63)
  unfolding replay_callback
  callback_max e m s h k = ground arith

  -- The highest LSN so far is `m` or above, and not below that of any of the entries.
  abbrev Covers : ℕ → List LogEntry → Rc × (ℕ × S) → Type 0
  Covers m es r = (m ≤ r.1.0) × All (λ e. e.header.lsn ≤ r.1.0) es × (r.1.0 < 2 ^ 63)

  feed_max :
      (es : List LogEntry) (m : ℕ) (s : S)
      → All IsSmall es
      → m < 2 ^ 63
      → ob_succ (feed (replay_callback replayer) es (m, s)).0 ≡ true
      → Covers m es (feed (replay_callback replayer) es (m, s))
  feed_max [] m s v h y = unfold feed in (omega arith, tt, h)
  feed_max (e ∷ es) m s v h y =
      let f = replay_callback replayer in
      let c = callback_max e m s v.0 h in
      elim (Bool-cases (ob_succ (f e (m, s)).0)) [
        | inl g ↦
            let q = feed_accepted f e es (m, s) g in
            let ih = feed_max es (f e (m, s)).1.0 (f e (m, s)).1.1 v.1 c.2 (rw q at y) in
            subst (Covers m (e ∷ es)) (sym q)
              (omega (arith, c.0, ih.0), (omega (arith, c.1, ih.0), ih.1), ih.2)
        | inr n ↦ absurd (refused_not_ok (f e (m, s)).0 n (rw (feed_refused f e es (m, s) n) at y))
      ]

  All-mono :
      (es : List LogEntry) (a b : ℕ)
      → a ≤ b
      → All (λ e. e.header.lsn ≤ a) es
      → All (λ e. e.header.lsn ≤ b) es
  All-mono [] a b h v = tt
  All-mono (e ∷ es) a b h v = (omega (arith, v.0), All-mono es a b h v.1)

  All-append :
      (es ds : List LogEntry) (a : ℕ)
      → All (λ e. e.header.lsn ≤ a) es
      → All (λ e. e.header.lsn ≤ a) ds
      → All (λ e. e.header.lsn ≤ a) (es ++ ds)
  All-append [] ds a v u = u
  All-append (e ∷ es) ds a v u = (v.0, All-append es ds a v.1 u)

  drop_below-IsSmall :
      (start : ℤ) (es : List LogEntry) → All IsSmall es → All IsSmall (drop_below start es)
  drop_below-IsSmall start [] v = tt
  drop_below-IsSmall start (e ∷ es) v = elim (Bool-cases (leb_ℤ start (signed64 e.header.lsn))) [
    | inl f ↦ rw f v
    | inr g ↦ rw g (drop_below-IsSmall start es v.1)
  ]

  one_file :
      (start : ℤ) (f : LogFile) (st : ℕ × S)
      → IsLog f
      → iterate (replay_callback replayer) (file_bytes f) start st
        ≡ some (feed (replay_callback replayer) (drop_below start f.entries) st)
  one_file start f st v =
      iterate-stream (replay_callback replayer) start f.entries f.tail st v.0 v.2

-- What a replay from `start` hands on of the files.
abbrev pub handed : ℤ → List LogFile → List LogEntry
handed start [] = []
handed start (f ∷ files) = drop_below start f.entries ++ handed start files

All-lt :
    (es : List LogEntry) (a b : ℕ)
    → b ≡ a
    → All (λ e. e.header.lsn ≤ a) es
    → All (λ e. e.header.lsn < suc b) es
All-lt [] a b z v = tt
All-lt (e ∷ es) a b z v = (omega (arith, v.0), All-lt es a b z v.1)

module _ {S : Type 0} (replayer : LogEntry → S → Rc × S) where
  iterate_files_max :
      (files : List LogFile) (start : ℤ) (m : ℕ) (s : S) {rc : Rc} {r : ℕ × S}
      → All IsLog files
      → m < 2 ^ 63
      → iterate_files (replay_callback replayer) (map file_bytes files) start (m, s) ≡ some (rc, r)
      → ob_succ rc ≡ true
      → Covers replayer m (handed start files) (rc, r)
  unfolding iterate_files
  iterate_files_max [] start m s {rc} {r} v h e y =
      let z : m ≡ r.0 = ground arith in (omega (arith, z), tt, omega (arith, z, h))
  iterate_files_max (d ∷ files) start m s {rc} {r} v h e y =
      let f = replay_callback replayer in
      let q = one_file replayer start d (m, s) v.0 in
      elim (Bool-cases (ob_succ (feed f (drop_below start d.entries) (m, s)).0)) [
        | inl g ↦
            let c =
              feed_max replayer (drop_below start d.entries) m s
                (drop_below-IsSmall replayer start d.entries v.0.1) h g in
            let ih =
              iterate_files_max files start (feed f (drop_below start d.entries) (m, s)).1.0
                (feed f (drop_below start d.entries) (m, s)).1.1 {rc = rc} {r = r} v.1 c.2
                (ground arith) y in
            (
              omega (arith, c.0, ih.0),
              All-append replayer (drop_below start d.entries) (handed start files) r.0
                  (All-mono replayer (drop_below start d.entries) _ r.0 ih.0 c.1) ih.1,
              ih.2,
            )
        | inr n ↦ absurd (ground arith)
      ]

  -- The files hold entries as `init` makes them, with LSNs below 2 ^ 63, and each may end in a part of one
  -- more header; the queue is empty. After a replay of them that succeeds the buffer stands above every
  -- entry that was handed on, with its queue in order: the next append gives out an LSN that none of
  -- them carries.
  pub replay_fresh :
      (files : List LogFile) (start : ℤ) (s : S) (b : LogEntryBuffer) {rc : Rc} {s' : S}
      {b' : LogEntryBuffer}
      → All IsLog files
      → b.entries ≡ []
      → replay replayer (map file_bytes files) start s b ≡ some (rc, s', b')
      → ob_succ rc ≡ true
      → All (λ e. e.header.lsn < suc b'.current_lsn) (handed start files) × IsOrdered b'
  unfolding replay init_buffer
  replay_fresh files start s b {rc} {s'} {b'} v n e y =
      elim (Option-cases
        (iterate_files (replay_callback replayer) (map file_bytes files) start (0, s))) [
          | inl x ↦ absurd (ground arith)
          | inr ((rc₁, r), x) ↦
              let ok : ob_succ rc₁ ≡ true = ground arith in
              let c = iterate_files_max files start 0 s {rc = rc₁} {r = r} v (omega arith) x ok in
              let z : b'.current_lsn ≡ r.0 = ground arith in
              let q : b' ≡ init_buffer r.0 0 b = ground arith in
              (All-lt (handed start files) r.0 b'.current_lsn z c.1, rw (q, n) (omega arith))
        ]
