-- ===== src/Buffer/File.antt =====
-- The pages of one file: `BPFileHeader`, the parts of disk_buffer_pool.cpp that allocate and dispose of
-- pages, and buffer_pool_log.cpp. What the log answers to an append, an LSN with it, is an argument, and
-- so is BP_PAGE_DATA_SIZE, the bytes of a page's data. A write past the bitmap is not defined: `none`.
pub mod Valid
pub mod Allocate
pub mod Steps
pub mod Replay
pub mod Recovery
use ob_htap.Prelude.{
  ℕ, zero, suc, ◌+◌, ◌-◌, ◌*◌, ◌/◌, List, [], ◌∷◌, Bool, true, false, Option, none, some,
  if◌then◌else◌, leb, ltb, ◌==◌, length,
}
use ob_htap.Prelude.Int.{ℤ, pos, ◌+ℤ◌, ◌-ℤ◌, ltb_ℤ}
use ob_htap.Rc.{Rc, ob_succ}
use ob_htap.Record.Bitmap.{get_bit, set_bit, clear_bit}

-- `BPFileHeader`
pub record FileHeader : Type 0 where
  pub page_count : ℕ
  pub allocated_pages : ℤ
  pub bitmap : List ℕ

-- `hdr_frame_`: the LSN that the header page was changed under at last, whether it is to be written, and
-- the header.
pub record HdrFrame : Type 0 where
  pub lsn : ℕ
  pub dirty : Bool
  pub header : FileHeader

-- `BPFileHeader::MAX_PAGE_NUM`
abbrev pub max_page_num : ℕ → ℕ
max_page_num data_size = (data_size - 4 - 4) * 8

-- `BufferPoolOperation` with the page, of a `BufferPoolLogEntry`
pub data PoolLog : Type 0 where
  allocate deallocate unknown : ℕ → PoolLog

-- What the log answers to `append_log`: a code and an LSN.
abbrev pub Answer : Type 0
Answer = Rc × ℕ

abbrev pub Entries : Type 0
Entries = List (ℕ × PoolLog)

-- An LSN that the log has not set is 0.
abbrev pub answered : Answer → ℕ
answered (rc, lsn) = if ob_succ rc then lsn else 0

abbrev pub logged : Answer → PoolLog → Entries
logged (rc, lsn) e = if ob_succ rc then (lsn, e) ∷ [] else []

abbrev pub free_bit : FileHeader → ℕ → FileHeader
free_bit h i = record h {
  allocated_pages = h.allocated_pages -ℤ pos 1;
  bitmap = clear_bit h.bitmap i;
}

abbrev pub take_bit : FileHeader → ℕ → FileHeader
take_bit h i = record h {
  allocated_pages = h.allocated_pages +ℤ pos 1;
  bitmap = set_bit h.bitmap i;
}

-- One page more, which is taken.
abbrev pub extended : FileHeader → FileHeader
extended h = record {
  page_count = h.page_count + 1;
  allocated_pages = h.allocated_pages +ℤ pos 1;
  bitmap = set_bit h.bitmap h.page_count;
}

-- The loop of `allocate_page` over the pages of the file, with the rounds that are left.
unfoldable pub free_loop : List ℕ → ℕ → ℕ → Option ℕ
free_loop bitmap i zero = none
free_loop bitmap i (suc rounds) =
    let rest = free_loop bitmap (suc i) rounds in if get_bit bitmap i then rest else some i

-- `DiskBufferPool::allocate_page`: the header, and the page that was found for the caller.
unfoldable pub allocate_page : ℕ → Answer → HdrFrame → Option (Rc × Option ℕ × HdrFrame × Entries)
allocate_page data_size answer f =
    let h = f.header in
    elim (if ltb_ℤ h.allocated_pages (pos h.page_count)
      then free_loop h.bitmap 0 h.page_count
      else none) [
        | some i ↦ some (
          Rc.success,
          some i,
          record { lsn = answered answer; dirty = true; header = take_bit h i },
          logged answer (allocate i),
        )
        | none ↦
            if leb (max_page_num data_size) h.page_count
            then some (Rc.bufferpool_nobuf, none, f, [])
            else if leb (length h.bitmap) (h.page_count / 8)
            then none
            else some (
              Rc.success,
              some h.page_count,
              record { lsn = answered answer; dirty = true; header = extended h },
              logged answer (allocate h.page_count),
            )
      ]

-- `DiskBufferPool::dispose_page`, for a page that no frame holds
unfoldable pub dispose_page : Answer → ℕ → HdrFrame → Option (Rc × HdrFrame × Entries)
dispose_page answer page_num f =
    if page_num == 0
    then some (Rc.internal, f, [])
    else if leb (length f.header.bitmap) (page_num / 8)
    then none
    else some (
      Rc.success,
      record { lsn = answered answer; dirty = true; header = free_bit f.header page_num },
      logged answer (deallocate page_num),
    )

-- `DiskBufferPool::check_page_num`
unfoldable pub check_page_num : FileHeader → ℕ → Rc
check_page_num h page_num =
    if leb h.page_count page_num
    then Rc.bufferpool_invalid_page_num
    else if get_bit h.bitmap page_num
    then Rc.success
    else Rc.bufferpool_invalid_page_num

-- `DiskBufferPool::redo_allocate_page`
unfoldable pub redo_allocate_page : ℕ → ℕ → ℕ → HdrFrame → Rc × HdrFrame
redo_allocate_page data_size lsn page_num f =
    let h = f.header in
    if leb lsn f.lsn
    then (Rc.success, f)
    else if ltb page_num h.page_count
    then if get_bit h.bitmap page_num
      then (Rc.success, f)
      else (Rc.success, record f { dirty = true; header = take_bit h page_num })
    else if ltb h.page_count page_num
    then (Rc.internal, f)
    else if leb (max_page_num data_size) h.page_count
    then (Rc.internal, f)
    else (Rc.success, record { lsn = lsn; dirty = true; header = extended h })

-- `DiskBufferPool::redo_deallocate_page`
unfoldable pub redo_deallocate_page : ℕ → ℕ → HdrFrame → Rc × HdrFrame
redo_deallocate_page lsn page_num f =
    let h = f.header in
    if leb lsn f.lsn
    then (Rc.success, f)
    else if leb h.page_count page_num
    then (Rc.internal, f)
    else if get_bit h.bitmap page_num
    then (Rc.success, record { lsn = lsn; dirty = true; header = free_bit h page_num })
    else (Rc.internal, f)

-- `BufferPoolLogReplayer::replay`, for an entry whose pool is open
unfoldable pub replay : ℕ → ℕ → PoolLog → HdrFrame → Rc × HdrFrame
replay data_size lsn (allocate page_num) f = redo_allocate_page data_size lsn page_num f
replay data_size lsn (deallocate page_num) f = redo_deallocate_page lsn page_num f
replay data_size lsn (unknown page_num) f = (Rc.internal, f)

-- The entries in order, up to one that fails.
unfoldable pub replay_all : ℕ → Entries → HdrFrame → Rc × HdrFrame
replay_all data_size [] f = (Rc.success, f)
replay_all data_size ((lsn, e) ∷ es) f =
    let (rc, f') = replay data_size lsn e f in
    let rest = replay_all data_size es f' in if ob_succ rc then rest else (rc, f')
