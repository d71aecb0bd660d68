-- ===== src/Record/Page/Layout.antt =====
-- How a page is laid out: its records fit the page, and its bitmap its records.
use ob_htap.Prelude.{
  ℕ, zero, suc, ◌+◌, ◌*◌, ◌/◌, ◌≤◌, ◌<◌, ◌≡◌, refl, [], true, false, some, leb, length, get_or,
  replicate, arith, sym, ◌%◌,
}
use ob_htap.Record.Bitmap.{get_bit, bit}
use ob_htap.Record.Bitmap.Bits.{AreBytes}
use ob_htap.Record.Bitmap.Search.{count, count_none}
use ob_htap.Record.Page.{
  Page, page_data_size, page_header_size, align8, page_record_capacity, page_bitmap_size,
  fix_record_capacity, init_page,
}

-- A page whose header, bitmap and slots agree with each other, and which fits its space.
pub record IsValid (p : Page) : Type 0 where
  pub fits : p.data_offset + p.record_capacity * p.record_size ≤ page_data_size
  pub bitmap_fits : page_header_size + length p.bitmap ≤ p.data_offset
  pub roomy : p.record_real_size ≤ p.record_size
  pub bits : length p.bitmap ≡ page_bitmap_size p.record_capacity
  pub are_bytes : AreBytes p.bitmap
  pub slotted : length p.slots ≡ p.record_capacity
  pub counted : p.record_num ≡ count (get_bit p.bitmap) p.record_capacity

fix_record_capacity-le :
    (offset size capacity : ℕ)
    → offset ≤ page_data_size
    → (fix_record_capacity offset size capacity ≤ capacity)
      × (offset + fix_record_capacity offset size capacity * size ≤ page_data_size)
unfolding fix_record_capacity
fix_record_capacity-le offset size zero h = ground arith
fix_record_capacity-le offset size (suc capacity) h =
    let ih = fix_record_capacity-le offset size capacity h in ground (arith, ih)

length-replicate {ℓ} : {A : Type ℓ} (n : ℕ) (a : A) → length (replicate n a) ≡ n
length-replicate zero a = refl
length-replicate (suc n) a = omega (arith, length-replicate n a)

zeros-AreBytes : (n : ℕ) → AreBytes (replicate n 0)
zeros-AreBytes zero = tt
zeros-AreBytes (suc n) = (omega arith, zeros-AreBytes n)

get_or-zeros : (n i : ℕ) → get_or {A = ℕ} (replicate n 0) i 0 ≡ 0
get_or-zeros zero i = refl
get_or-zeros (suc n) zero = refl
get_or-zeros (suc n) (suc i) = get_or-zeros n i

no_bit : (j : ℕ) → j < 8 → bit 0 j ≡ false
unfolding bit
no_bit zero h = refl
no_bit (suc zero) h = refl
no_bit (suc (suc zero)) h = refl
no_bit (suc (suc (suc zero))) h = refl
no_bit (suc (suc (suc (suc zero)))) h = refl
no_bit (suc (suc (suc (suc (suc zero))))) h = refl
no_bit (suc (suc (suc (suc (suc (suc zero)))))) h = refl
no_bit (suc (suc (suc (suc (suc (suc (suc zero))))))) h = refl
no_bit (suc (suc (suc (suc (suc (suc (suc (suc j)))))))) h = absurd (omega arith)

get_bit-zeros : (n j : ℕ) → get_bit (replicate n 0) j ≡ false
unfolding get_bit
get_bit-zeros n j = rw (get_or-zeros n (j / 8)) (no_bit (j % 8) (omega arith))

-- The planned number of records leaves room for the bitmap.
planned_fits :
    (size : ℕ)
    → align8 (page_header_size + page_bitmap_size (page_record_capacity size)) ≤ page_data_size
planned_fits size = grind arith

-- Laying out a page never fails its assertion, however large the records are: the page is valid, holds
-- no record, and has no bit set.
pub init_page-IsValid :
    (record_real_size : ℕ)
    → (p : Page) × (init_page record_real_size ≡ some p)
      × IsValid p
      × (p.record_real_size ≡ record_real_size)
      × (p.record_num ≡ 0)
      × ((j : ℕ) → get_bit p.bitmap j ≡ false)
unfolding init_page
init_page-IsValid real =
    let size = align8 real in
    let planned = page_record_capacity size in
    let offset = align8 (page_header_size + page_bitmap_size planned) in
    let capacity = fix_record_capacity offset size planned in
    let f = fix_record_capacity-le offset size planned (planned_fits size) in
    let fits : leb (offset + capacity * size) page_data_size ≡ true = ground (arith, f) in
    let n_bits = length-replicate {A = ℕ} (page_bitmap_size capacity) 0 in
    (
      record {
        record_num = 0;
        record_real_size = real;
        record_size = size;
        record_capacity = capacity;
        col_idx_offset = offset;
        data_offset = offset;
        bitmap = replicate (page_bitmap_size capacity) 0;
        slots = replicate capacity [];
      },
      rw fits refl,
      record {
        fits = f.1;
        bitmap_fits = omega (arith, n_bits, f.0);
        roomy = omega arith;
        bits = n_bits;
        are_bytes = zeros-AreBytes (page_bitmap_size capacity);
        slotted = length-replicate capacity [];
        counted = sym (count_none _ capacity (λ j h. get_bit-zeros (page_bitmap_size capacity) j));
      },
      refl,
      refl,
      get_bit-zeros (page_bitmap_size capacity),
    )
