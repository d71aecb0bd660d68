-- ===== src/Buffer/Frames.antt =====
-- frame.h, frame.cpp and the part of disk_buffer_pool.cpp that manages the frames of all files:
-- `BPFrameManager` and `DiskBufferPool::allocate_frame`, with `MemPoolSimple` of
-- deps/common/mm/mem_pool.h, which is not extended. A frame is its place in memory. An ASSERT that fails
-- ends the process: `none`. The lists of latches of a frame are left aside. `P` is what a page holds.
pub mod Purge
pub mod Allocate
use ob_htap.Prelude.{
  ℕ, zero, suc, ◌+◌, ◌-◌, List, [], ◌∷◌, ◌++◌, Bool, true, false, ◌&&◌, not, Option, none, some,
  if◌then◌else◌, leb, ◌==◌, length,
}
use ob_htap.Prelude.Int.{ℤ, negsuc, eqb_ℤ}
use ob_htap.Rc.{Rc, ob_succ}
use mathlib.Core.List.{reverse}
use ob_htap.Buffer.Lru.{find, get, put, remove}

-- `FrameId`
pub record FrameId : Type 0 where
  pub buffer_pool_id : ℤ
  pub page_num : ℤ

-- `FrameId::equal_to`
abbrev pub same_id : FrameId → FrameId → Bool
same_id a b = eqb_ℤ a.buffer_pool_id b.buffer_pool_id && eqb_ℤ a.page_num b.page_num

-- `Frame`
pub record Frame (P : Type 0) : Type 0 where
  pub dirty : Bool
  pub pin_count : ℕ
  pub frame_id : FrameId
  pub page : P

-- `BPFrameManager` with its allocator: the cache, the memory of the frames, the frames that are free in
-- the order in which they are given out, and those that are used.
pub record Manager (P : Type 0) : Type 0 where
  pub frames : List (FrameId × ℕ)
  pub memory : ℕ → Frame P
  pub frees : List ℕ
  pub used : ℕ → Bool

abbrev pub write_used : (ℕ → Bool) → ℕ → Bool → ℕ → Bool
write_used used i b j = if i == j then b else used j

module _ {P : Type 0} where
  unfoldable pub write : (ℕ → Frame P) → ℕ → Frame P → ℕ → Frame P
  write memory i f j = if i == j then f else memory j

  -- `Frame::pin`
  abbrev pub pin : Frame P → Frame P
  pin f = record f { pin_count = f.pin_count + 1 }

  -- `Frame::unpin`
  abbrev pub unpin : Frame P → Option (Frame P)
  unpin f = if leb f.pin_count 0 then none else some (record f { pin_count = f.pin_count - 1 })

  -- `Frame::can_purge`
  abbrev pub can_purge : Frame P → Bool
  can_purge f = f.pin_count == 0

  -- `BPFrameManager::get_internal`
  unfoldable pub get_internal : FrameId → Manager P → Option ℕ × Manager P
  get_internal id m =
      let (found, frames) = get same_id id m.frames in
      elim found [
        | none ↦ (none, m)
        | some i ↦
            (some i, record m { frames = frames; memory = write m.memory i (pin (m.memory i)) })
      ]

  -- A frame of the allocator, for a page that no frame holds.
  abbrev pub fresh : FrameId → Manager P → List ℕ → Option (Option ℕ × Manager P)
  fresh id m [] = some (none, m)
  fresh id m (i ∷ frees) =
      if can_purge (m.memory i)
      then some (
        some i,
        record {
          frames = put same_id id i m.frames;
          memory = write m.memory i (pin (record (m.memory i) { frame_id = id }));
          frees = frees;
          used = write_used m.used i true;
        },
      )
      else none

  -- `BPFrameManager::alloc`
  unfoldable pub alloc : FrameId → Manager P → Option (Option ℕ × Manager P)
  alloc id m =
      let (found, m') = get_internal id m in
      elim found [ none ↦ fresh id m' m'.frees | some i ↦ some (some i, m') ]

  -- `MemPoolSimple::free`
  abbrev pub give_back : ℕ → Manager P → Manager P
  give_back i m =
      if m.used i
      then record m { frees = m.frees ++ i ∷ []; used = write_used m.used i false }
      else m

  -- A frame that no page lies in.
  abbrev pub emptied : Frame P → Frame P
  emptied f = record f { pin_count = 0; frame_id = record f.frame_id { page_num = negsuc 0 } }

  -- `BPFrameManager::free_internal`
  unfoldable pub free_internal : FrameId → ℕ → Manager P → Option (Rc × Manager P)
  free_internal id i m =
      let (found, frames) = get same_id id m.frames in
      elim found [
        | none ↦ none
        | some source ↦
            if source == i && ((m.memory i).pin_count == 1)
            then some (
              Rc.success,
              give_back i (record m {
                frames = remove same_id id frames;
                memory = write m.memory i (emptied (m.memory i));
              }),
            )
            else none
      ]

  -- The walk of `purge_frames` from the least recently used frame on: the frames that are found, and the
  -- memory, in which they are pinned.
  unfoldable pub find_victims :
      ℕ → List (FrameId × ℕ) → List ℕ → (ℕ → Frame P) → List ℕ × (ℕ → Frame P)
  find_victims count [] found memory = (found, memory)
  find_victims count (e ∷ es) found memory =
      let found' = found ++ e.1 ∷ [] in
      let memory' = write memory e.1 (pin (memory e.1)) in
      let further = find_victims count es found' memory' in
      let rest = find_victims count es found memory in
      if can_purge (memory e.1)
      then if leb count (length found') then (found', memory') else further
      else rest

  module _ {W : Type 0} (purger : Frame P → W → Rc × Frame P × W) where
    -- The loop over the frames that were found. The purger writes a frame to disk: of the frame it
    -- changes whether it is dirty and the page.
    unfoldable pub purge_found : List ℕ → ℕ → W → Manager P → Option (ℕ × W × Manager P)
    purge_found [] freed w m = some (freed, w, m)
    purge_found (i ∷ is) freed w m =
        let (rc, f, w') = purger (m.memory i) w in
        let f' = record (m.memory i) { dirty = f.dirty; page = f.page } in
        let m' = record m { memory = write m.memory i f' } in
        if ob_succ rc
        then elim (free_internal f'.frame_id i m') [
          | none ↦ none
          | some (rc', m'') ↦ purge_found is (freed + 1) w' m''
        ]
        else elim (unpin f') [
          | none ↦ none
          | some f'' ↦ purge_found is freed w' (record m { memory = write m.memory i f'' })
        ]

    -- `BPFrameManager::purge_frames`
    unfoldable pub purge_frames : ℕ → W → Manager P → Option (ℕ × W × Manager P)
    purge_frames count w m =
        let (found, memory) = find_victims (if count == 0 then 1 else count) m.frames [] m.memory in
        purge_found found 0 w (record m { memory = memory })

    -- `DiskBufferPool::allocate_frame`, with the rounds that are left: `none` is also that none is.
    unfoldable pub allocate_frame : ℕ → FrameId → W → Manager P → Option (ℕ × W × Manager P)
    allocate_frame zero id w m = none
    allocate_frame (suc rounds) id w m = elim (alloc id m) [
      | none ↦ none
      | some (some i, m') ↦ some (i, w, m')
      | some (none, m') ↦ elim (purge_frames 1 w m') [
        | none ↦ none
        | some (freed, w', m'') ↦ allocate_frame rounds id w' m''
      ]
    ]

  -- The walk of `find_list`, from the most recently used frame on: the frames of a pool, each pinned.
  unfoldable pub pin_pool : ℤ → List (FrameId × ℕ) → (ℕ → Frame P) → List ℕ × (ℕ → Frame P)
  pin_pool buffer_pool_id [] memory = ([], memory)
  pin_pool buffer_pool_id (e ∷ es) memory =
      let pinned = pin_pool buffer_pool_id es (write memory e.1 (pin (memory e.1))) in
      let rest = pin_pool buffer_pool_id es memory in
      if eqb_ℤ buffer_pool_id e.0.buffer_pool_id then (e.1 ∷ pinned.0, pinned.1) else rest

  -- `BPFrameManager::find_list`
  unfoldable pub find_list : ℤ → Manager P → List ℕ × Manager P
  find_list buffer_pool_id m =
      let (found, memory) = pin_pool buffer_pool_id (reverse m.frames) m.memory in
      (found, record m { memory = memory })
