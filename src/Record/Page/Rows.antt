-- ===== src/Record/Page/Rows.antt =====
-- The rows of a page: what each operation does to them, on every branch.
use ob_htap.Prelude.{
  ℕ, ◌+◌, ◌-◌, ◌/◌, ◌<◌, ◌≡◌, ◌≢◌, refl, ◌∙◌, List, [], true, false, Option, none, some,
  if◌then◌else◌, ltb, leb, ◌==◌, length, get_or, set, take, arith, Bool-cases, inl, inr, ◌⊎◌,
  length-set, get_or-set_self, get_or-set_ne,
}
use ob_htap.Rc.{Rc}
use ob_htap.Record.Bitmap.{get_bit, set_bit, clear_bit, next_unsetted_bit}
use ob_htap.Record.Bitmap.Bits.{
  set_bit-AreBytes, clear_bit-AreBytes, get_bit-set_bit, get_bit-clear_bit, length-set_bit,
  length-clear_bit,
}
use ob_htap.Record.Bitmap.Search.{
  Searched, found, absent, next_bit-Searched, count_all, count_set, count_clear,
}
use ob_htap.Record.Page.{Page, put_data, insert_row, delete_row, update_row, get_row}
use ob_htap.Record.Page.Layout.{IsValid}

-- The rows of a page, by their slots.
unfoldable pub rows : Page → ℕ → Option (List ℕ)
rows p slot =
    if ltb slot p.record_capacity
    then if get_bit p.bitmap slot then some (get_or p.slots slot []) else none
    else none

-- `get_row` gives the row, and says why there is none.
pub get_row-rows :
    (slot : ℕ) (p : Page)
    → get_row slot p ≡ (
        if leb p.record_capacity slot then (Rc.record_invalid_rid, none) else elim (rows p slot) [
          | none ↦ (Rc.record_not_exist, none)
          | some row ↦ (Rc.success, some row)
        ])
unfolding get_row rows
get_row-rows slot p = ground arith

-- One row is changed, the others stay.
abbrev pub put : ℕ → Option (List ℕ) → (ℕ → Option (List ℕ)) → ℕ → Option (List ℕ)
put slot row f k = if slot == k then row else f k

in_bitmap : (p : Page) (i : ℕ) → IsValid p → i < p.record_capacity → i / 8 < length p.bitmap
in_bitmap p i v h = omega (arith, v.bits)

module _ (p : Page) (v : IsValid p) (slot : ℕ) (h : slot < p.record_capacity) where
  bits-set :
      (j : ℕ) → get_bit (set_bit p.bitmap slot) j ≡ (if slot == j then true else get_bit p.bitmap j)
  bits-set j = get_bit-set_bit p.bitmap slot j v.are_bytes (in_bitmap p slot v h)

  bits-clear :
      (j : ℕ)
      → get_bit (clear_bit p.bitmap slot) j ≡ (if slot == j then false else get_bit p.bitmap j)
  bits-clear j = get_bit-clear_bit p.bitmap slot j v.are_bytes (in_bitmap p slot v h)

  put_data-IsValid : (bytes : List ℕ) → IsValid (put_data slot bytes p)
  put_data-IsValid bytes = record {
    fits = v.fits;
    bitmap_fits = v.bitmap_fits;
    roomy = v.roomy;
    bits = v.bits;
    are_bytes = v.are_bytes;
    slotted = length-set p.slots slot (take p.record_real_size bytes) ∙ v.slotted;
    counted = v.counted;
  }

  -- The data of the slot is read back, and that of the others stays.
  slots-put :
      (bytes : List ℕ) (j : ℕ)
      → get_or (set p.slots slot bytes) j [] ≡ (if slot == j then bytes else get_or p.slots j [])
  slots-put bytes j = elim (Bool-cases (slot == j)) [
    | inl y ↦
        let e : j ≡ slot = ground arith in
        rw (y, e) (get_or-set_self p.slots slot bytes [] (omega (arith, v.slotted)))
    | inr n ↦
        let e : slot ≢ j = ground arith in
        rw n (get_or-set_ne p.slots {i = slot} {j = j} bytes [] e)
  ]

  abbrev taken_page : Page
  taken_page = record p { bitmap = set_bit p.bitmap slot; record_num = p.record_num + 1 }

  taken_page-IsValid : get_bit p.bitmap slot ≡ false → IsValid taken_page
  taken_page-IsValid e = record {
    fits = v.fits;
    bitmap_fits = omega (arith, v.bitmap_fits, length-set_bit p.bitmap slot);
    roomy = v.roomy;
    bits = length-set_bit p.bitmap slot ∙ v.bits;
    are_bytes = set_bit-AreBytes p.bitmap slot v.are_bytes;
    slotted = v.slotted;
    counted = omega (
      arith,
      v.counted,
      count_set (get_bit p.bitmap) (get_bit (set_bit p.bitmap slot)) slot p.record_capacity h e
          bits-set,
    );
  }

  abbrev freed_page : Page
  freed_page = record p { bitmap = clear_bit p.bitmap slot; record_num = p.record_num - 1 }

  freed_page-IsValid : get_bit p.bitmap slot ≡ true → IsValid freed_page
  freed_page-IsValid e = record {
    fits = v.fits;
    bitmap_fits = omega (arith, v.bitmap_fits, length-clear_bit p.bitmap slot);
    roomy = v.roomy;
    bits = length-clear_bit p.bitmap slot ∙ v.bits;
    are_bytes = clear_bit-AreBytes p.bitmap slot v.are_bytes;
    slotted = v.slotted;
    counted = omega (
      arith,
      v.counted,
      count_clear (get_bit p.bitmap) (get_bit (clear_bit p.bitmap slot)) slot p.record_capacity h e
          bits-clear,
    );
  }

  rows-taken :
      (bytes : List ℕ) (k : ℕ)
      → rows (put_data slot bytes taken_page) k
        ≡ put slot (some (take p.record_real_size bytes)) (rows p) k
  unfolding rows
  rows-taken bytes k = ground (arith, bits-set k, slots-put (take p.record_real_size bytes) k)

  rows-freed : (k : ℕ) → rows freed_page k ≡ put slot none (rows p) k
  unfolding rows
  rows-freed k = ground (arith, bits-clear k)

  rows-put :
      get_bit p.bitmap slot ≡ true
      → (bytes : List ℕ) (k : ℕ)
      → rows (put_data slot bytes p) k ≡ put slot (some (take p.record_real_size bytes)) (rows p) k
  unfolding rows
  rows-put e bytes k = ground (arith, slots-put (take p.record_real_size bytes) k)

-- A page that is not full has a slot free.
free_slot :
    (p : Page) (r : Option ℕ)
    → IsValid p
    → p.record_num ≢ p.record_capacity
    → Searched false (get_bit p.bitmap) 0 p.record_capacity r
    → (slot : ℕ) × (r ≡ some slot) × (slot < p.record_capacity) × (get_bit p.bitmap slot ≡ false)
free_slot p r v n (found slot a b e f) = (slot, refl, b, e)
free_slot p r v n (absent f) =
    absurd
      (n (v.counted ∙ count_all (get_bit p.bitmap) p.record_capacity (λ j h. f j (omega arith) h)))

empty_slot : (p : Page) (slot : ℕ) → get_bit p.bitmap slot ≡ false → rows p slot ≡ none
unfolding rows
empty_slot p slot b = ground arith

-- Inserting a row never finds a page without a free slot that is not full. A full page refuses the row
-- and stays; any other keeps the row, cut to the size of its records, in a slot that was empty, and
-- all its other rows; it stays valid.
pub insert_row-rows :
    (bytes : List ℕ) (p : Page)
    → IsValid p
    → ((p.record_num ≡ p.record_capacity) × (insert_row bytes p ≡ some (Rc.record_nomem, none, p)))
      ⊎ ((slot : ℕ) × (p' : Page) × (insert_row bytes p ≡ some (Rc.success, some slot, p'))
          × (slot < p.record_capacity)
          × (rows p slot ≡ none)
          × ((k : ℕ) → rows p' k ≡ put slot (some (take p.record_real_size bytes)) (rows p) k)
          × IsValid p')
unfolding insert_row
insert_row-rows bytes p v = elim (Bool-cases (p.record_num == p.record_capacity)) [
  | inl y ↦ inl (ground arith, rw y refl)
  | inr n ↦
      let (slot, e, h, b) =
        free_slot p (next_unsetted_bit p.record_capacity p.bitmap 0) v (ground arith)
          (next_bit-Searched false p.record_capacity p.bitmap 0 (omega arith)) in
      let t = taken_page p v slot h in
      inr (
        slot,
        put_data slot bytes t,
        rw (n, e) refl,
        h,
        empty_slot p slot b,
        rows-taken p v slot h bytes,
        put_data-IsValid t (taken_page-IsValid p v slot h b) slot h bytes,
      )
]

-- Deleting a row takes that row away and no other; where there is none, nothing changes and the answer
-- says so. The page stays valid.
pub delete_row-rows :
    (slot : ℕ) (p : Page)
    → IsValid p
    → slot < p.record_capacity
    → let (rc, p') = delete_row slot p in
      (rc ≡ elim (rows p slot) [ none ↦ Rc.record_not_exist | some row ↦ Rc.success ])
      × ((k : ℕ) → rows p' k ≡ put slot none (rows p) k)
      × IsValid p'
unfolding delete_row rows
delete_row-rows slot p v h = elim (Bool-cases (get_bit p.bitmap slot)) [
  | inl y ↦ rw y (ground arith, rows-freed p v slot h, freed_page-IsValid p v slot h y)
  | inr n ↦ rw n (ground arith, λ k. ground arith, v)
]

-- Updating a row changes that row and no other, and only where there is one; a slot beyond the page is
-- refused. The page stays valid.
pub update_row-rows :
    (slot : ℕ) (bytes : List ℕ) (p : Page)
    → IsValid p
    → let (rc, p') = update_row slot bytes p in
      (rc ≡ (
        if leb p.record_capacity slot
        then Rc.invalid_argument
        else elim (rows p slot) [ none ↦ Rc.record_not_exist | some row ↦ Rc.success ]))
      × ((k : ℕ)
          → rows p' k ≡ elim (rows p slot) [
            | none ↦ rows p k
            | some row ↦ put slot (some (take p.record_real_size bytes)) (rows p) k
          ])
      × IsValid p'
unfolding update_row rows
update_row-rows slot bytes p v = elim (Bool-cases (leb p.record_capacity slot)) [
  | inl y ↦ ground arith
  | inr n ↦ elim (Bool-cases (get_bit p.bitmap slot)) [
    | inl y ↦
        let h : slot < p.record_capacity = ground arith in
        rw (n, y)
          (
            ground arith,
            λ k. rows-put p v slot h y bytes k ∙ ground arith,
            put_data-IsValid p v slot h bytes,
          )
    | inr m ↦ rw (n, m) (ground arith, λ k. ground arith, v)
  ]
]
