-- ===== src/Record/Tests.antt =====
-- A page of rows of two bytes, with a place for three.
use ob_htap.Prelude.{ℕ, ◌≡◌, ◌<◌, refl, [], ◌∷◌, false, none, some, arith, ◌⊎◌}
use ob_htap.Rc.{Rc}
use ob_htap.Record.Bitmap.{bit, find_loop, bytes, get_bit, set_bit, clear_bit, next_loop, next_bit}
use ob_htap.Record.Bitmap.Search.{Searched, next_bit-Searched}
use ob_htap.Record.Page.{Page, init_page, insert_row, delete_row, update_row}
use ob_htap.Record.Page.Layout.{IsValid, init_page-IsValid}
use ob_htap.Record.Page.Rows.{rows, put, insert_row-rows, delete_row-rows, update_row-rows}
use ob_htap.Record.Log.{
  Frame, insert, delete, update, replay_all, insert_record, delete_record, update_record,
}
use ob_htap.Record.Log.Changes.{put_row, drop_row, set_row, perform, perform_all}
use ob_htap.Record.Log.Recovery.{recovery}

-- The slots 0 and 2 are taken.
abbrev page : Page
page = record {
  record_num = 2;
  record_real_size = 2;
  record_size = 8;
  record_capacity = 3;
  col_idx_offset = 32;
  data_offset = 32;
  bitmap = 5 ∷ [];
  slots = (1 ∷ 2 ∷ []) ∷ [] ∷ (3 ∷ 4 ∷ []) ∷ [];
}

page-IsValid : IsValid page
unfolding get_bit bit
page-IsValid = record {
  fits = omega arith;
  bitmap_fits = omega arith;
  roomy = omega arith;
  bits = refl;
  are_bytes = (omega arith, tt);
  slotted = refl;
  counted = refl;
}

next_bit-Searched_example : Searched false (get_bit (5 ∷ [])) 0 3 (some 1)
unfolding next_bit next_loop bytes find_loop bit
next_bit-Searched_example = next_bit-Searched false 3 (5 ∷ []) 0 (omega arith)

init_page-IsValid_example :
    (p : Page) × (init_page 20 ≡ some p)
    × IsValid p
    × (p.record_real_size ≡ 20)
    × (p.record_num ≡ 0)
    × ((j : ℕ) → get_bit p.bitmap j ≡ false)
init_page-IsValid_example = init_page-IsValid 20

insert_row-rows_example :
    ((page.record_num ≡ page.record_capacity)
      × (insert_row (7 ∷ 8 ∷ []) page ≡ some (Rc.record_nomem, none, page)))
    ⊎ ((slot : ℕ) × (p' : Page) × (insert_row (7 ∷ 8 ∷ []) page ≡ some (Rc.success, some slot, p'))
        × (slot < 3)
        × (rows page slot ≡ none)
        × ((k : ℕ) → rows p' k ≡ put slot (some (7 ∷ 8 ∷ [])) (rows page) k)
        × IsValid p')
insert_row-rows_example = insert_row-rows (7 ∷ 8 ∷ []) page page-IsValid

delete_row-rows_example :
    let (rc, p') = delete_row 1 page in
    (rc ≡ Rc.record_not_exist) × ((k : ℕ) → rows p' k ≡ put 1 none (rows page) k) × IsValid p'
unfolding rows get_bit bit
delete_row-rows_example = delete_row-rows 1 page page-IsValid (omega arith)

update_row-rows_example :
    let (rc, p') = update_row 2 (9 ∷ 9 ∷ []) page in
    (rc ≡ Rc.success) × ((k : ℕ) → rows p' k ≡ put 2 (some (9 ∷ 9 ∷ [])) (rows page) k) × IsValid p'
unfolding rows get_bit bit
update_row-rows_example = update_row-rows 2 (9 ∷ 9 ∷ []) page page-IsValid

abbrev frame : Frame
frame = record { lsn = 4; page = page }

-- The page on disk, after two of four changes, and at the end.
abbrev disk : Frame
disk = record {
  lsn = 6;
  page = record page { bitmap = 6 ∷ []; slots = (1 ∷ 2 ∷ []) ∷ (7 ∷ 8 ∷ []) ∷ (3 ∷ 4 ∷ []) ∷ [] };
}

abbrev at_end : Frame
at_end = record {
  lsn = 9;
  page = record page {
    record_num = 3;
    bitmap = 7 ∷ [];
    slots = (1 ∷ 1 ∷ []) ∷ (9 ∷ 9 ∷ []) ∷ (3 ∷ 4 ∷ []) ∷ [];
  };
}

recovery_example :
    replay_all
      ((5, insert 1 (7 ∷ 8 ∷ []))
        ∷ (6, delete 0)
        ∷ (8, update 1 (9 ∷ 9 ∷ []))
        ∷ (9, insert 0 (1 ∷ 1 ∷ []))
        ∷ [])
      disk
    ≡ some (Rc.success, at_end)
unfolding perform_all perform insert_record delete_record update_record insert_row delete_row
    update_row next_bit next_loop bytes find_loop get_bit set_bit clear_bit bit
recovery_example =
    recovery ((5, put_row (7 ∷ 8 ∷ [])) ∷ (6, drop_row 0) ∷ [])
      ((8, set_row 1 (9 ∷ 9 ∷ [])) ∷ (9, put_row (1 ∷ 1 ∷ [])) ∷ []) frame
      (omega arith, (omega arith, (omega arith, (omega arith, tt)))) refl refl
