-- ===== src/Buffer/Frames/Purge.antt =====
-- The frame that a purge takes, and why a caller that asks for a frame gets one.
use ob_htap.Prelude.{
  ℕ, ◌≡◌, refl, ap, ◌∙◌, fun_ext, List, [], ◌∷◌, ◌++◌, Bool, true, false, Option, some, ◌==◌, arith,
  All, append-nil, append_assoc,
}
use ob_htap.Prelude.Int.{eqb_ℤ-refl}
use ob_htap.Rc.{Rc}
use ob_htap.Buffer.Lru.{
  find, get, remove, IsNew, AreDistinct, AreDistinct-before, find-append_new, remove-append_new,
}
use ob_htap.Buffer.Frames.{
  FrameId, same_id, Frame, Manager, write, write_used, pin, can_purge, emptied, free_internal,
  find_victims, purge_found, purge_frames,
}

pub same_id_refl : (a : FrameId) → same_id a a ≡ true
same_id_refl a = rw (eqb_ℤ-refl a.buffer_pool_id, eqb_ℤ-refl a.page_num) refl

same_id_sym : (a b : FrameId) → same_id a b ≡ same_id b a
same_id_sym a b = ground arith

module _ (older newer : List (FrameId × ℕ)) (e : FrameId × ℕ)
    (distinct : AreDistinct same_id (older ++ e ∷ newer)) where
  before : IsNew same_id e.0 older
  before = AreDistinct-before same_id same_id_sym older e newer distinct

  after : IsNew same_id e.0 newer
  after = at_entry older distinct
    where
      at_entry :
          (es : List (FrameId × ℕ))
          → AreDistinct same_id (es ++ e ∷ newer)
          → IsNew same_id e.0 newer
      at_entry [] d = d.0
      at_entry (x ∷ es) d = at_entry es d.1

  find-entry : find same_id e.0 (older ++ e ∷ newer) ≡ some e.1
  unfolding find
  find-entry =
      find-append_new same_id e.0 older (e ∷ newer) before ∙ rw (find, same_id_refl e.0) refl

  remove-entry : remove same_id e.0 (older ++ e ∷ newer) ≡ older ++ newer
  unfolding remove
  remove-entry =
      remove-append_new same_id e.0 older (e ∷ newer) before
      ∙ ap (λ es. older ++ es) (rw (remove, same_id_refl e.0) refl)

  -- Looked up, and so moved to the front, and then removed.
  remove-get :
      remove same_id e.0 (remove same_id e.0 (older ++ e ∷ newer) ++ (e.0, e.1) ∷ [])
      ≡ older ++ newer
  unfolding remove
  remove-get =
      ap (λ es. remove same_id e.0 (es ++ (e.0, e.1) ∷ [])) remove-entry
      ∙ ap (remove same_id e.0) (append_assoc older newer ((e.0, e.1) ∷ []))
      ∙ remove-append_new same_id e.0 older (newer ++ (e.0, e.1) ∷ []) before
      ∙ ap (λ es. older ++ es)
          (remove-append_new same_id e.0 newer ((e.0, e.1) ∷ []) after
            ∙ ap (λ es. newer ++ es) (rw (remove, same_id_refl e.0) refl)
            ∙ append-nil newer)

  get-entry :
      get same_id e.0 (older ++ e ∷ newer)
      ≡ (some e.1, remove same_id e.0 (older ++ e ∷ newer) ++ (e.0, e.1) ∷ [])
  unfolding get
  get-entry = rw (get, find-entry) refl

  found-entry : (get same_id e.0 (older ++ e ∷ newer)).0 ≡ some e.1
  found-entry = ap (λ r. r.0) get-entry

  remove-touched : remove same_id e.0 (get same_id e.0 (older ++ e ∷ newer)).1 ≡ older ++ newer
  remove-touched = ap (λ r. remove same_id e.0 r.1) get-entry ∙ remove-get

module _ {P : Type 0} where
  pub write_self : (memory : ℕ → Frame P) (i : ℕ) (f : Frame P) → write memory i f i ≡ f
  unfolding write
  write_self memory i f = ground arith

  write-write :
      (memory : ℕ → Frame P) (i : ℕ) (f g : Frame P)
      → write (write memory i f) i g ≡ write memory i g
  unfolding write
  write-write memory i f g = fun_ext λ j. ground arith

  -- The walk passes over frames that are pinned, and stops at one that is not.
  find_victims-oldest :
      (older : List (FrameId × ℕ)) (e : FrameId × ℕ) (newer : List (FrameId × ℕ))
      (memory : ℕ → Frame P)
      → All (λ x. can_purge (memory x.1) ≡ false) older
      → can_purge (memory e.1) ≡ true
      → find_victims 1 (older ++ e ∷ newer) [] memory
        ≡ (e.1 ∷ [], write memory e.1 (pin (memory e.1)))
  unfolding find_victims
  find_victims-oldest [] e newer memory h u = rw (find_victims, u) refl
  find_victims-oldest (x ∷ older) e newer memory (h, hs) u =
      rw (find_victims, h) (find_victims-oldest older e newer memory hs u)

  module _ (older newer : List (FrameId × ℕ)) (e : FrameId × ℕ)
      (distinct : AreDistinct same_id (older ++ e ∷ newer)) (memory : ℕ → Frame P) (frees : List ℕ)
      (used : ℕ → Bool) where
    abbrev pub manager : Manager P
    manager = record { frames = older ++ e ∷ newer; memory = memory; frees = frees; used = used }

    -- The manager after the frame is freed.
    abbrev pub without : Frame P → Manager P
    without f = record {
      frames = older ++ newer;
      memory = write memory e.1 (emptied f);
      frees = frees ++ e.1 ∷ [];
      used = write_used used e.1 false;
    }

    free_internal-entry :
        (f : Frame P)
        → memory e.1 ≡ f
        → f.pin_count ≡ 1
        → used e.1 ≡ true
        → free_internal e.0 e.1 manager ≡ some (Rc.success, without f)
    unfolding free_internal
    free_internal-entry f h p u =
        let s : (e.1 == e.1) ≡ true = ground arith in
        rw
          (
            free_internal,
            found-entry older newer e distinct,
            s,
            h,
            p,
            u,
            remove-touched older newer e distinct,
          )
          refl

module _ (older newer : List (FrameId × ℕ)) (e : FrameId × ℕ)
    (distinct : AreDistinct same_id (older ++ e ∷ newer)) {P W : Type 0}
    (purger : Frame P → W → Rc × Frame P × W) (w : W) (frees : List ℕ) (used : ℕ → Bool)
    (is_used : used e.1 ≡ true) where
  -- What a purge keeps of what the purger makes of a frame: whether it is dirty, and the page.
  abbrev pub purged : Frame P → Frame P
  purged f = record f { dirty = (purger f w).1.dirty; page = (purger f w).1.page }

  purge_found-one :
      (memory : ℕ → Frame P)
      → (memory e.1).pin_count ≡ 1
      → (memory e.1).frame_id ≡ e.0
      → (purger (memory e.1) w).0 ≡ Rc.success
      → purge_found purger (e.1 ∷ []) 0 w (manager older newer e distinct memory frees used)
        ≡ some (
          1,
          (purger (memory e.1) w).2,
          without older newer e distinct memory frees used (purged (memory e.1)),
        )
  unfolding purge_found
  purge_found-one memory p n ok =
      let f = purged (memory e.1) in
      let step =
        ap
          (λ id.
            free_internal id e.1 (manager older newer e distinct (write memory e.1 f) frees used))
          n
        ∙ free_internal-entry older newer e distinct (write memory e.1 f) frees used f
            (write_self memory e.1 f) p is_used in
      rw (purge_found, ok, step)
        (ap
          (λ mem. some (
            1,
            (purger (memory e.1) w).2,
            record {
              frames = older ++ newer;
              memory = mem;
              frees = frees ++ e.1 ∷ [];
              used = write_used used e.1 false;
            },
          ))
          (write-write memory e.1 f (emptied f)))

  -- A purge for one frame, of frames of which no page is held twice: it takes the least recently used
  -- frame that is not pinned. If the purger succeeds, that frame is free and the others are as they were,
  -- in their order.
  pub purge_frames-oldest :
      (memory : ℕ → Frame P)
      → All (λ x. can_purge (memory x.1) ≡ false) older
      → can_purge (memory e.1) ≡ true
      → (memory e.1).frame_id ≡ e.0
      → (purger (pin (memory e.1)) w).0 ≡ Rc.success
      → purge_frames purger 1 w (manager older newer e distinct memory frees used)
        ≡ some (
          1,
          (purger (pin (memory e.1)) w).2,
          without older newer e distinct memory frees used (purged (pin (memory e.1))),
        )
  unfolding purge_frames
  purge_frames-oldest memory pinned free n ok =
      let f = pin (memory e.1) in
      let here = write_self memory e.1 f in
      let at : (ℕ → Frame P) → Frame P → Option (ℕ × W × Manager P) = λ mem g.
        some (1, (purger g w).2, without older newer e distinct mem frees used (purged g)) in
      rw (purge_frames, find_victims-oldest older e newer memory pinned free)
        (purge_found-one (write memory e.1 f) (ap (λ g. g.pin_count) here ∙ ground arith)
            (ap (λ g. g.frame_id) here ∙ n) (ap (λ g. (purger g w).0) here ∙ ok)
          ∙ ap (at (write memory e.1 f)) here
          ∙ ap
              (λ mem. some (
                1,
                (purger f w).2,
                record {
                  frames = older ++ newer;
                  memory = mem;
                  frees = frees ++ e.1 ∷ [];
                  used = write_used used e.1 false;
                },
              ))
              (write-write memory e.1 f (emptied (purged f))))
