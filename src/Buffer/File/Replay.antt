-- ===== src/Buffer/File/Replay.antt =====
-- A frame that catches up with a run of operations by replaying their entries.
use ob_htap.Prelude.{
  ℕ, ◌≤◌, ◌<◌, ◌≡◌, refl, ap, ◌∙◌, [], ◌∷◌, ◌++◌, Bool, true, false, leb, ltb, arith, Bool-cases,
  inl, inr, All, All-append, All-mono, append-nil,
}
use ob_htap.Rc.{Rc, ob_succ}
use ob_htap.Buffer.File.{
  FileHeader, HdrFrame, PoolLog, Entries, take_bit, free_bit, extended, max_page_num, allocate,
  deallocate, unknown, replay, replay_all, redo_allocate_page, redo_deallocate_page,
}
use ob_htap.Buffer.File.Valid.{IsValid, bits-take}
use ob_htap.Buffer.File.Steps.{Seen, Passed, Seen-replay, Step, idle, took, grew, gave}

module _ (data_size : ℕ) where
  -- A frame that a replay has brought to the header of the run, with an LSN that is not above the
  -- run's, and with nothing left to do in the entries so far.
  pub data Caught (f : HdrFrame) (past : Entries) : HdrFrame → Type 0 where
    caught :
        (l : ℕ) (d : Bool)
        → l ≤ f.lsn
        → All (Seen (record { lsn = l; dirty = d; header = f.header })) past
        → All (Passed f.lsn) past
        → Caught f past (record { lsn = l; dirty = d; header = f.header })

  pub Passed-Seen :
      (g : HdrFrame) (hi : ℕ) → hi ≤ g.lsn → (e : ℕ × PoolLog) → Passed hi e → Seen g e
  Passed-Seen g hi l (lsn, allocate p) a = inl (omega arith)
  Passed-Seen g hi l (lsn, deallocate p) a = omega arith
  Passed-Seen g hi l (lsn, unknown p) a = absurd a

  pub Passed-weaken : (lo hi : ℕ) → lo ≤ hi → (e : ℕ × PoolLog) → Passed lo e → Passed hi e
  Passed-weaken lo hi l (lsn, allocate p) a = omega arith
  Passed-weaken lo hi l (lsn, deallocate p) a = omega arith
  Passed-weaken lo hi l (lsn, unknown p) a = absurd a

  -- Taking a page leaves nothing to do where nothing was.
  pub take_bit-Seen :
      (l : ℕ) (d d' : Bool) (h : FileHeader) (i : ℕ)
      → IsValid h
      → i < h.page_count
      → (e : ℕ × PoolLog) → Seen (record { lsn = l; dirty = d; header = h }) e
      → Seen (record { lsn = l; dirty = d'; header = take_bit h i }) e
  take_bit-Seen l d d' h i v li (lsn, allocate p) (inl a) = inl a
  take_bit-Seen l d d' h i v li (lsn, allocate p) (inr (a, b)) =
      inr (a, bits-take h v i li p ∙ ground arith)
  take_bit-Seen l d d' h i v li (lsn, deallocate p) a = a
  take_bit-Seen l d d' h i v li (lsn, unknown p) a = absurd a

  -- A frame at the LSN of the last entry is caught up.
  pub Caught-up :
      (lo lsn : ℕ) (d : Bool) (h : FileHeader) (past es : Entries)
      → lo ≤ lsn
      → All (Passed lo) past
      → All (Passed lsn) es
      → Caught
          (record { lsn = lsn; dirty = true; header = h })
          (past ++ es)
          (record { lsn = lsn; dirty = d; header = h })
  Caught-up lo lsn d h past es l a b =
      let all =
        All-append (Passed lsn) past es
          (All-mono (Passed lo) (Passed lsn) past (Passed-weaken lo lsn l) a) b in
      caught lsn d (omega arith)
        (All-mono (Passed lsn) (Seen (record { lsn = lsn; dirty = d; header = h })) (past ++ es)
          (Passed-Seen (record { lsn = lsn; dirty = d; header = h }) lsn (omega arith)) all)
        all

  -- A step, replayed.
  pub Step-Caught :
      {lsn : ℕ} {f f' g : HdrFrame} {past es : Entries}
      → IsValid f.header
      → f.lsn < lsn
      → Step data_size lsn f f' es
      → Caught f past g
      → (g' : HdrFrame) × (replay_all data_size es g ≡ (Rc.success, g')) × Caught f' (past ++ es) g'
  unfolding replay_all replay redo_allocate_page redo_deallocate_page
  Step-Caught {past} v r idle c = (_, refl, rw (append-nil past) c)
  Step-Caught {lsn} {f} {past} v r (took i l e) (caught k d le a b) =
      let late : leb lsn k ≡ false = ground arith in
      let there : ltb i f.header.page_count ≡ true = ground arith in
      (
        record { lsn = k; dirty = true; header = take_bit f.header i },
        rw (late, there, e) refl,
        caught k true (omega arith)
            (All-append _ past ((lsn, allocate i) ∷ [])
              (All-mono _ _ past (take_bit-Seen k d true f.header i v l) a)
              (inr (l, bits-take f.header v i l i ∙ ground arith), tt))
            (All-append (Passed lsn) past ((lsn, allocate i) ∷ [])
              (All-mono (Passed f.lsn) (Passed lsn) past (Passed-weaken f.lsn lsn (omega arith)) b)
              (omega arith, tt)),
      )
  Step-Caught {lsn} {f} {past} v r (grew room below) (caught k d le a b) =
      let late : leb lsn k ≡ false = ground arith in
      let n₁ : ltb f.header.page_count f.header.page_count ≡ false = ground arith in
      let n₂ : leb (max_page_num data_size) f.header.page_count ≡ false = ground arith in
      (
        record { lsn = lsn; dirty = true; header = extended f.header },
        rw (late, n₁, n₂) refl,
        Caught-up f.lsn lsn true (extended f.header) past _ (omega arith) b (omega arith, tt),
      )
  Step-Caught {lsn} {f} {past} v r (gave i l e n) (caught k d le a b) =
      let late : leb lsn k ≡ false = ground arith in
      let there : leb f.header.page_count i ≡ false = ground arith in
      (
        record { lsn = lsn; dirty = true; header = free_bit f.header i },
        rw (late, there, e) refl,
        Caught-up f.lsn lsn true (free_bit f.header i) past _ (omega arith) b (omega arith, tt),
      )

  -- Entries in which nothing is left to do.
  pub Seen-replay_all :
      (es : Entries) (g : HdrFrame) → All (Seen g) es → replay_all data_size es g ≡ (Rc.success, g)
  unfolding replay_all
  Seen-replay_all [] g a = refl
  Seen-replay_all ((lsn, e) ∷ es) g (s, a) =
      rw (replay_all, Seen-replay data_size lsn e g s) (Seen-replay_all es g a)

  pub replay_all-append :
      (es es' : Entries) (g : HdrFrame) {g' : HdrFrame}
      → replay_all data_size es g ≡ (Rc.success, g')
      → replay_all data_size (es ++ es') g ≡ replay_all data_size es' g'
  unfolding replay_all
  replay_all-append [] es' g h = ap (λ r. replay_all data_size es' r.1) h
  replay_all-append ((lsn, e) ∷ es) es' g h =
      elim (Bool-cases (ob_succ (replay data_size lsn e g).0)) [
        | inl y ↦
            rw (replay_all, y) (replay_all-append es es' (replay data_size lsn e g).1 (rw y at h))
        | inr n ↦
            let t : ob_succ (replay data_size lsn e g).0 ≡ true =
              ap (λ r. ob_succ r.0) (rw n at h) in
            absurd (ground arith)
      ]
