-- ===== src/Buffer/Frames/Allocate.antt =====
-- A caller that asks for a frame for a page gets one.
use ob_htap.Prelude.{
  ℕ, suc, ◌≡◌, ◌≢◌, ◌⊎◌, refl, ap, ◌∙◌, List, [], ◌∷◌, ◌++◌, Bool, true, false, ◌||◌, Option, none,
  some, arith, All, Bool-cases, Option-cases, inl, inr,
}
use ob_htap.Prelude.Int.{eqb_ℤ-eq}
use ob_htap.Rc.{Rc}
use ob_htap.Buffer.Lru.{
  find, get, put, remove, AreDistinct, find-append_new, find-append_none, find-without,
  IsNew_removed,
}
use ob_htap.Buffer.Frames.{
  FrameId, same_id, Frame, Manager, write, write_used, pin, can_purge, get_internal, alloc, fresh,
  purge_frames, allocate_frame,
}
use ob_htap.Buffer.Frames.Purge.{same_id_refl, write_self, purge_frames-oldest, without, purged}

same_id-eq : (a b : FrameId) → same_id a b ≡ true → a ≡ b
same_id-eq a b h = grind (arith, eqb_ℤ-eq)

module _ {P : Type 0} where
  -- No page is held twice, a frame knows its page, and a frame that is free is not pinned.
  pub record IsCoherent (m : Manager P) : Type 0 where
    pub distinct : AreDistinct same_id m.frames
    pub named : All (λ e. ((m.memory e.1).frame_id ≡ e.0) × (m.used e.1 ≡ true)) m.frames
    pub unpinned : All (λ i. can_purge (m.memory i) ≡ true) m.frees

  -- Some frame that holds a page is not pinned.
  unfoldable pub some_unpinned : List (FrameId × ℕ) → (ℕ → Frame P) → Bool
  some_unpinned [] memory = false
  some_unpinned (e ∷ es) memory = can_purge (memory e.1) || some_unpinned es memory

  -- The least recently used of them.
  data Oldest (memory : ℕ → Frame P) : List (FrameId × ℕ) → Type 0 where
    oldest :
        (older : List (FrameId × ℕ)) (e : FrameId × ℕ) (newer : List (FrameId × ℕ))
        → All (λ x. can_purge (memory x.1) ≡ false) older
        → can_purge (memory e.1) ≡ true
        → Oldest memory (older ++ e ∷ newer)

  some_unpinned-Oldest :
      (es : List (FrameId × ℕ)) (memory : ℕ → Frame P)
      → some_unpinned es memory ≡ true
      → Oldest memory es
  unfolding some_unpinned
  some_unpinned-Oldest [] memory h = absurd (ground arith)
  some_unpinned-Oldest (e ∷ es) memory h = elim (Bool-cases (can_purge (memory e.1))) [
    | inl y ↦ oldest [] e es tt y
    | inr n ↦ further (some_unpinned-Oldest es memory (rw n at h)) n
  ]
    where
      further :
          {es : List (FrameId × ℕ)}
          → Oldest memory es
          → can_purge (memory e.1) ≡ false
          → Oldest memory (e ∷ es)
      further (oldest older f newer ps u) n = oldest (e ∷ older) f newer (n, ps) u

  -- A frame that is given to a caller: it holds the page and is pinned, and the other frames that are
  -- pinned are as they were.
  pub record IsGiven (id : FrameId) (m : Manager P) (i : ℕ) (m' : Manager P) : Type 0 where
    pub held : find same_id id m'.frames ≡ some i
    pub is_pinned : can_purge (m'.memory i) ≡ false
    pub kept : (j : ℕ) → can_purge (m.memory j) ≡ false → i ≢ j → m'.memory j ≡ m.memory j

  write_ne : (memory : ℕ → Frame P) {i j : ℕ} (f : Frame P) → i ≢ j → write memory i f j ≡ memory j
  unfolding write
  write_ne memory f h = ground arith

  pinned_more : (f : Frame P) → can_purge (pin f) ≡ false
  pinned_more f = ground arith

  -- What `alloc` does with the answer of `get_internal`.
  abbrev answered : FrameId → Option ℕ × Manager P → Option (Option ℕ × Manager P)
  answered id r = elim r.0 [ none ↦ fresh id r.1 r.1.frees | some i ↦ some (some i, r.1) ]

  abbrev touched : FrameId → ℕ → Manager P → Manager P
  touched id i m = record m {
    frames = remove same_id id m.frames ++ (id, i) ∷ [];
    memory = write m.memory i (pin (m.memory i));
  }

  module _ (id : FrameId) (m : Manager P) where
    -- What `get_internal` does with the answer of the cache.
    abbrev looked_up : Option ℕ × List (FrameId × ℕ) → Option ℕ × Manager P
    looked_up r = elim r.0 [
      | none ↦ (none, m)
      | some i ↦ (some i, record m { frames = r.1; memory = write m.memory i (pin (m.memory i)) })
    ]

    get_internal-hit :
        {i : ℕ} → find same_id id m.frames ≡ some i → get_internal id m ≡ (some i, touched id i m)
    unfolding get_internal get
    get_internal-hit {i} h =
        let e : get same_id id m.frames ≡ (some i, remove same_id id m.frames ++ (id, i) ∷ []) =
          rw (get, h) refl in
        ap looked_up e

    get_internal_miss : find same_id id m.frames ≡ none → get_internal id m ≡ (none, m)
    unfolding get_internal get
    get_internal_miss h =
        let e : get same_id id m.frames ≡ (none, m.frames) = rw (get, h) refl in ap looked_up e

    -- Where the page has a frame, that frame is given.
    alloc-hit :
        {i : ℕ}
        → AreDistinct same_id m.frames
        → find same_id id m.frames ≡ some i
        → (alloc id m ≡ some (some i, touched id i m)) × IsGiven id m i (touched id i m)
    unfolding alloc find
    alloc-hit {i} d h = (
      ap (answered id) (get_internal-hit h),
      record {
        held =
            find-append_new same_id id (remove same_id id m.frames) ((id, i) ∷ [])
              (IsNew_removed same_id same_id-eq id m.frames d)
            ∙ rw (find, same_id_refl id) refl;
        is_pinned =
            ap can_purge (write_self m.memory i (pin (m.memory i))) ∙ pinned_more (m.memory i);
        kept = λ j p n. write_ne m.memory (pin (m.memory i)) n;
      },
    )

    abbrev taken : ℕ → List ℕ → Manager P
    taken i frees = record {
      frames = m.frames ++ (id, i) ∷ [];
      memory = write m.memory i (pin (record (m.memory i) { frame_id = id }));
      frees = frees;
      used = write_used m.used i true;
    }

    -- Where it has none, a free frame is given.
    alloc_fresh :
        (i : ℕ) (frees : List ℕ)
        → find same_id id m.frames ≡ none
        → m.frees ≡ i ∷ frees
        → can_purge (m.memory i) ≡ true
        → (alloc id m ≡ some (some i, taken i frees)) × IsGiven id m i (taken i frees)
    unfolding alloc find put
    alloc_fresh i frees h f u =
        let p : put same_id id i m.frames ≡ m.frames ++ (id, i) ∷ [] = rw (put, h) refl in
        (
          ap (answered id) (get_internal_miss h) ∙ ap (fresh id m) f ∙ rw (u, p) refl,
          record {
            held =
                find-append_none same_id id m.frames ((id, i) ∷ []) h
                ∙ rw (find, same_id_refl id) refl;
            is_pinned =
                ap can_purge (write_self m.memory i (pin (record (m.memory i) { frame_id = id })))
                ∙ pinned_more (record (m.memory i) { frame_id = id });
            kept = λ j p n. write_ne m.memory (pin (record (m.memory i) { frame_id = id })) n;
          },
        )

    alloc_exhausted : find same_id id m.frames ≡ none → m.frees ≡ [] → alloc id m ≡ some (none, m)
    unfolding alloc
    alloc_exhausted h f = ap (answered id) (get_internal_miss h) ∙ ap (fresh id m) f

module _ {P W : Type 0} (purger : Frame P → W → Rc × Frame P × W) where
  allocate_frame_once :
      (rounds : ℕ) (id : FrameId) (w : W) (m : Manager P) {i : ℕ} {m' : Manager P}
      → alloc id m ≡ some (some i, m')
      → allocate_frame purger (suc rounds) id w m ≡ some (i, w, m')
  unfolding allocate_frame
  allocate_frame_once rounds id w m h = rw (allocate_frame, h) refl

  allocate_frame_again :
      (rounds : ℕ) (id : FrameId) (w w' : W) (m m' : Manager P) {freed : ℕ}
      → alloc id m ≡ some (none, m)
      → purge_frames purger 1 w m ≡ some (freed, w', m')
      → allocate_frame purger (suc rounds) id w m ≡ allocate_frame purger rounds id w' m'
  unfolding allocate_frame
  allocate_frame_again rounds id w w' m m' h k = rw (allocate_frame, h, k) refl

  -- What the caller is promised.
  abbrev Allocates : FrameId → W → Manager P → Type 0
  Allocates id w m =
      (i : ℕ) × (w' : W) × (m' : Manager P) × (allocate_frame purger 2 id w m ≡ some (i, w', m'))
      × IsGiven id m i m'

  module _ (id : FrameId) (w : W) (memory : ℕ → Frame P) (used : ℕ → Bool)
      (ok : (f : Frame P) → (purger f w).0 ≡ Rc.success) where
    abbrev holding : List (FrameId × ℕ) → List ℕ → Manager P
    holding frames frees = record { frames = frames; memory = memory; frees = frees; used = used }

    evicted :
        {frames : List (FrameId × ℕ)}
        → Oldest memory frames
        → find same_id id frames ≡ none
        → IsCoherent (holding frames [])
        → Allocates id w (holding frames [])
    evicted (oldest older e newer ps u) h c =
        let (n, is_used) = all_at e older newer c.named in
        let f = purged older newer e c.distinct purger w [] used is_used (pin (memory e.1)) in
        let m₁ = without older newer e c.distinct memory [] used f in
        let purge =
          purge_frames-oldest older newer e c.distinct purger w [] used is_used memory ps u n
            (ok (pin (memory e.1))) in
        let (a, g) =
          alloc_fresh id m₁ e.1 [] (find-without same_id id older e newer h) refl
            (ap can_purge (write_self memory e.1 _)) in
        (
          e.1,
          (purger (pin (memory e.1)) w).2,
          taken id m₁ e.1 [],
          allocate_frame_again 1 id w _ (holding (older ++ e ∷ newer) []) m₁
                (alloc_exhausted id (holding (older ++ e ∷ newer) []) h refl) purge
              ∙ allocate_frame_once 0 id _ m₁ a,
          record {
            held = g.held;
            is_pinned = g.is_pinned;
            kept = λ j p d.
                let same = write_ne memory _ d in g.kept j (ap can_purge same ∙ p) d ∙ same;
          },
        )
      where
        all_at :
            (e : FrameId × ℕ) (older newer : List (FrameId × ℕ))
            → All (λ e. ((memory e.1).frame_id ≡ e.0) × (used e.1 ≡ true)) (older ++ e ∷ newer)
            → ((memory e.1).frame_id ≡ e.0) × (used e.1 ≡ true)
        all_at e [] newer a = a.0
        all_at e (x ∷ older) newer a = all_at e older newer a.1

    missed :
        (frames : List (FrameId × ℕ)) (frees : List ℕ)
        → find same_id id frames ≡ none
        → IsCoherent (holding frames frees)
        → frees ≢ [] ⊎ (some_unpinned frames memory ≡ true)
        → Allocates id w (holding frames frees)
    missed frames (i ∷ frees) h c s =
        let (a, g) = alloc_fresh id (holding frames (i ∷ frees)) i frees h refl c.unpinned.0 in
        (i, w, _, allocate_frame_once 1 id w (holding frames (i ∷ frees)) a, g)
    missed frames [] h c (inl n) = absurd (n refl)
    missed frames [] h c (inr u) = evicted (some_unpinned-Oldest frames memory u) h c

  -- The frames are coherent, a frame is free or one that holds a page is not pinned, and the purger
  -- succeeds. Then two rounds of the loop give the caller a frame: it holds the page and is pinned, and the
  -- other frames that are pinned are as they were.
  pub allocate_frame-IsGiven :
      (id : FrameId) (w : W) (m : Manager P)
      → IsCoherent m
      → m.frees ≢ [] ⊎ (some_unpinned m.frames m.memory ≡ true)
      → ((f : Frame P) → (purger f w).0 ≡ Rc.success)
      → (i : ℕ) × (w' : W) × (m' : Manager P) × (allocate_frame purger 2 id w m ≡ some (i, w', m'))
        × IsGiven id m i m'
  allocate_frame-IsGiven id w m c some_frame ok = elim (Option-cases (find same_id id m.frames)) [
    | inr (i, h) ↦
        let (e, g) = alloc-hit id m c.distinct h in
        (i, w, touched id i m, allocate_frame_once 1 id w m e, g)
    | inl h ↦ missed id w m.memory m.used ok m.frames m.frees h c some_frame
  ]
