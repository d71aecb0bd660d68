-- ===== src/Record/Page.antt =====
-- `RecordPageHandler` and `RowRecordPageHandler` of src/observer/storage/record/record_manager.cpp, for
-- pages of rows that are open for writing. A slot stands for the `record_real_size` bytes that begin at
-- `get_record_data`; one that has not been written since the page was laid out is [].
pub mod Layout
pub mod Rows
use ob_htap.Prelude.{
  ℕ, zero, suc, ◌+◌, ◌-◌, ◌*◌, ◌/◌, ◌^◌, List, [], Bool, Option, none, some, if◌then◌else◌, ltb,
  leb, ◌==◌, get_or, set, take, replicate,
}
use ob_htap.Rc.{Rc}
use ob_htap.Record.Bitmap.{get_bit, set_bit, clear_bit, next_unsetted_bit}

-- `PageHeader`, and what follows it in the page.
pub record Page : Type 0 where
  pub record_num : ℕ
  pub record_real_size : ℕ
  pub record_size : ℕ
  pub record_capacity : ℕ
  pub col_idx_offset : ℕ
  pub data_offset : ℕ
  pub bitmap : List ℕ
  pub slots : List (List ℕ)

-- `BP_PAGE_DATA_SIZE`: a page without its number, its LSN and its check sum
abbrev pub page_data_size : ℕ
page_data_size = 2 ^ 15 - 4 - 8 - 4

abbrev pub page_header_size : ℕ
page_header_size = 28

abbrev pub align8 : ℕ → ℕ
align8 size = (size + 7) / 8 * 8

-- `(page_size - PAGE_HEADER_SIZE - fixed_size - 1) / (record_size + 0.125)`, rounded down, where no
-- space is fixed.
abbrev pub page_record_capacity : ℕ → ℕ
page_record_capacity record_size =
    (page_data_size - page_header_size - 1) * 8 / (record_size * 8 + 1)

abbrev pub page_bitmap_size : ℕ → ℕ
page_bitmap_size record_capacity = (record_capacity + 7) / 8

-- The loop of `fix_record_capacity`
unfoldable pub fix_record_capacity : ℕ → ℕ → ℕ → ℕ
fix_record_capacity data_offset record_size zero = zero
fix_record_capacity data_offset record_size (suc capacity) =
    let rest = fix_record_capacity data_offset record_size capacity in
    if ltb page_data_size (data_offset + suc capacity * record_size) then rest else suc capacity

-- `init_empty_page`, with its ASSERT, up to the log.
unfoldable pub init_page : ℕ → Option Page
init_page record_real_size =
    let record_size = align8 record_real_size in
    let planned = page_record_capacity record_size in
    let data_offset = align8 (page_header_size + page_bitmap_size planned) in
    let record_capacity = fix_record_capacity data_offset record_size planned in
    if leb (data_offset + record_capacity * record_size) page_data_size
    then some (record {
      record_num = 0;
      record_real_size = record_real_size;
      record_size = record_size;
      record_capacity = record_capacity;
      col_idx_offset = data_offset;
      data_offset = data_offset;
      bitmap = replicate (page_bitmap_size record_capacity) 0;
      slots = replicate record_capacity [];
    })
    else none

abbrev pub is_full : Page → Bool
is_full p = leb p.record_capacity p.record_num

-- The copying of a record into its slot.
abbrev pub put_data : ℕ → List ℕ → Page → Page
put_data index bytes p = record p { slots = set p.slots index (take p.record_real_size bytes) }

-- `RowRecordPageHandler::insert_record` without its log record, with the slot that it has chosen; `none`
-- is a page that is not full and has no slot free.
unfoldable pub insert_row : List ℕ → Page → Option (Rc × Option ℕ × Page)
insert_row bytes p =
    if p.record_num == p.record_capacity
    then some (Rc.record_nomem, none, p)
    else elim (next_unsetted_bit p.record_capacity p.bitmap 0) [
      | none ↦ none
      | some index ↦ some (
        Rc.success,
        some index,
        put_data index bytes
            (record p { bitmap = set_bit p.bitmap index; record_num = p.record_num + 1 }),
      )
    ]

-- `RowRecordPageHandler::recover_insert_record`
unfoldable pub recover_insert_row : List ℕ → ℕ → Page → Rc × Page
recover_insert_row bytes slot p =
    if leb p.record_capacity slot then (Rc.record_invalid_rid, p) else (
      Rc.success,
      put_data slot bytes (
          if get_bit p.bitmap slot
          then p
          else record p { bitmap = set_bit p.bitmap slot; record_num = p.record_num + 1 }),
    )

-- `RowRecordPageHandler::delete_record` without its log record
unfoldable pub delete_row : ℕ → Page → Rc × Page
delete_row slot p =
    if get_bit p.bitmap slot
    then (Rc.success, record p { bitmap = clear_bit p.bitmap slot; record_num = p.record_num - 1 })
    else (Rc.record_not_exist, p)

-- `RowRecordPageHandler::update_record` without its log record
unfoldable pub update_row : ℕ → List ℕ → Page → Rc × Page
update_row slot bytes p =
    if leb p.record_capacity slot
    then (Rc.invalid_argument, p)
    else if get_bit p.bitmap slot
    then (Rc.success, put_data slot bytes p)
    else (Rc.record_not_exist, p)

-- `RowRecordPageHandler::get_record`
unfoldable pub get_row : ℕ → Page → Rc × Option (List ℕ)
get_row slot p =
    if leb p.record_capacity slot
    then (Rc.record_invalid_rid, none)
    else if get_bit p.bitmap slot
    then (Rc.success, some (get_or p.slots slot []))
    else (Rc.record_not_exist, none)
