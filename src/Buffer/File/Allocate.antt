-- ===== src/Buffer/File/Allocate.antt =====
-- What the allocation and the disposal of a page do to the header, on all branches.
use ob_htap.Prelude.{
  ℕ, zero, suc, ◌*◌, ◌/◌, ◌≤◌, ◌<◌, ◌≡◌, ◌≢◌, refl, ◌∙◌, [], Bool, true, false, Option, none, some,
  if◌then◌else◌, leb, ◌==◌, length, arith, Bool-cases, inl, inr, Option-cases,
}
use ob_htap.Prelude.Int.{pos, ltb_ℤ}
use ob_htap.Rc.{Rc}
use ob_htap.Record.Bitmap.{get_bit}
use ob_htap.Record.Bitmap.Search.{count, count-le}
use ob_htap.Buffer.File.{
  FileHeader, HdrFrame, Answer, Entries, take_bit, free_bit, extended, free_loop, allocate_page,
  dispose_page, check_page_num, max_page_num, allocate, deallocate, logged, answered,
}
use ob_htap.Buffer.File.Valid.{
  IsValid, take_bit-IsValid, free_bit-IsValid, extended-IsValid, bits-take, bits-free,
  bits-extended, free_loop-found, free_loop-none,
}

-- All pages of the file are taken.
abbrev pub IsFull : FileHeader → Type 0
IsFull h = (j : ℕ) → j < h.page_count → get_bit h.bitmap j ≡ true

count_full : (at : ℕ → Bool) (n : ℕ) → n ≤ count at n → (j : ℕ) → j < n → at j ≡ true
count_full at zero h j l = absurd (omega arith)
count_full at (suc n) h j l = elim (Bool-cases (at n)) [
  | inl y ↦ elim (Bool-cases (j == n)) [
    | inl s ↦ let e : j ≡ n = ground arith in rw e y
    | inr d ↦
        let k : n ≤ count at n = omega (arith, rw y at h) in count_full at n k j (ground arith)
  ]
  | inr e ↦ absurd (omega (arith, rw e at h, count-le at n))
]

-- The pages that are allocated after a page is: that one, and those that were.
abbrev pub Gained : FileHeader → ℕ → FileHeader → Type 0
Gained h p h' =
    (check_page_num h p ≡ Rc.bufferpool_invalid_page_num)
    × (check_page_num h' p ≡ Rc.success)
    × ((j : ℕ) → p ≢ j → check_page_num h' j ≡ check_page_num h j)

module _ (h : FileHeader) (v : IsValid h) where
  take_bit-Gained :
      (i : ℕ) → i < h.page_count → get_bit h.bitmap i ≡ false → Gained h i (take_bit h i)
  unfolding check_page_num
  take_bit-Gained i l e =
      let other : (j : ℕ) → i ≢ j → get_bit (take_bit h i).bitmap j ≡ get_bit h.bitmap j =
        λ j n. bits-take h v i l j ∙ ground arith in
      (ground arith, rw (bits-take h v i l i) (ground arith), λ j n. rw (other j n) refl)

  extended-Gained : h.page_count < 8 * length h.bitmap → Gained h h.page_count (extended h)
  unfolding check_page_num
  extended-Gained room =
      let other : (j : ℕ) → h.page_count ≢ j → get_bit (extended h).bitmap j ≡ get_bit h.bitmap j =
        λ j n. bits-extended h v room j ∙ ground arith in
      (
        ground arith,
        rw (bits-extended h v room h.page_count) (ground arith),
        λ j n. rw (other j n) (ground arith),
      )

module _ (data_size : ℕ) (answer : Answer) (f : HdrFrame) where
  -- The header after a page is taken, stamped with the LSN.
  abbrev pub stamped : FileHeader → HdrFrame
  stamped h' = record { lsn = answered answer; dirty = true; header = h' }

  pub data Allocated : Option (Rc × Option ℕ × HdrFrame × Entries) → Type 0 where
    got :
        (p : ℕ) (h' : FileHeader)
        → IsValid h'
        → Gained f.header p h'
        → Allocated (some (Rc.success, some p, stamped h', logged answer (allocate p)))
    full :
        IsFull f.header
        → max_page_num data_size ≤ f.header.page_count
        → Allocated (some (Rc.bufferpool_nobuf, none, f, []))
    overrun :
        IsFull f.header
        → f.header.page_count ≡ 8 * length f.header.bitmap
        → f.header.page_count < max_page_num data_size
        → Allocated none

  module _ (v : IsValid f.header) where
    -- What is searched for where the count says that a page is free.
    abbrev searched : Option ℕ
    searched =
        if ltb_ℤ f.header.allocated_pages (pos f.header.page_count)
        then free_loop f.header.bitmap 0 f.header.page_count
        else none

    searched-none-IsFull : searched ≡ none → IsFull f.header
    searched-none-IsFull e =
        elim (Bool-cases (ltb_ℤ f.header.allocated_pages (pos f.header.page_count))) [
          | inl y ↦ λ j l.
              free_loop-none f.header.bitmap 0 f.header.page_count (rw y at e) j (omega arith)
                (omega arith)
          | inr n ↦
              count_full (get_bit f.header.bitmap) f.header.page_count
                (ground (arith, rw v.counted at n))
        ]

    searched-free :
        {i : ℕ}
        → searched ≡ some i
        → (i < f.header.page_count) × (get_bit f.header.bitmap i ≡ false)
    searched-free {i} e =
        elim (Bool-cases (ltb_ℤ f.header.allocated_pages (pos f.header.page_count))) [
          | inl y ↦
              let (l, free) =
                free_loop-found f.header.bitmap 0 f.header.page_count {r = i} (rw y at e) in
              (omega arith, free)
          | inr n ↦ absurd (ground (arith, rw n at e))
        ]

    -- The branches of an allocation.
    pub data Branch : Option (Rc × Option ℕ × HdrFrame × Entries) → Type 0 where
      reused :
          (i : ℕ)
          → i < f.header.page_count
          → get_bit f.header.bitmap i ≡ false
          → Branch
              (some (Rc.success, some i, stamped (take_bit f.header i), logged answer (allocate i)))
      grown :
          f.header.page_count < 8 * length f.header.bitmap
          → f.header.page_count < max_page_num data_size
          → Branch (
              some (
                Rc.success,
                some f.header.page_count,
                stamped (extended f.header),
                logged answer (allocate f.header.page_count),
              ))
      refused :
          IsFull f.header
          → max_page_num data_size ≤ f.header.page_count
          → Branch (some (Rc.bufferpool_nobuf, none, f, []))
      outside :
          IsFull f.header
          → f.header.page_count ≡ 8 * length f.header.bitmap
          → f.header.page_count < max_page_num data_size
          → Branch none

    pub allocate_page-Branch : Branch (allocate_page data_size answer f)
    unfolding allocate_page
    allocate_page-Branch = elim (Option-cases searched) [
      | inr (i, e) ↦ let (l, free) = searched-free e in rw (allocate_page, e) (reused i l free)
      | inl e ↦ elim (Bool-cases (leb (max_page_num data_size) f.header.page_count)) [
        | inl y ↦ rw (allocate_page, e, y) (refused (searched-none-IsFull e) (ground arith))
        | inr n ↦ elim (Bool-cases (leb (length f.header.bitmap) (f.header.page_count / 8))) [
          | inl y ↦
              rw (allocate_page, e, n, y)
                (outside (searched-none-IsFull e) (ground (arith, v.fits)) (ground arith))
          | inr m ↦ rw (allocate_page, e, n, m) (grown (ground arith) (ground arith))
        ]
      ]
    ]

    branch-Allocated : {r : Option (Rc × Option ℕ × HdrFrame × Entries)} → Branch r → Allocated r
    branch-Allocated (reused i l free) =
        got i (take_bit f.header i) (take_bit-IsValid f.header v i l free)
          (take_bit-Gained f.header v i l free)
    branch-Allocated (grown room below) =
        got f.header.page_count (extended f.header) (extended-IsValid f.header v room)
          (extended-Gained f.header v room)
    branch-Allocated (refused all at_most) = full all at_most
    branch-Allocated (outside all at below) = overrun all at below

    -- On a valid header, an allocation either takes a page that was not allocated, and only that
    -- page, or refuses because all pages up to the greatest number are taken, or writes past the end
    -- of the bitmap: that happens where all the pages that the bitmap has bits for are taken, and the
    -- greatest number is not reached.
    pub allocate_page-Allocated : Allocated (allocate_page data_size answer f)
    allocate_page-Allocated = branch-Allocated allocate_page-Branch

-- The pages that are allocated after a page is disposed of: those that were, without that one.
abbrev pub Lost : FileHeader → ℕ → FileHeader → Type 0
Lost h p h' =
    (check_page_num h' p ≡ Rc.bufferpool_invalid_page_num)
    × ((j : ℕ) → p ≢ j → check_page_num h' j ≡ check_page_num h j)

pub check_page_num-success :
    (h : FileHeader) (p : ℕ)
    → check_page_num h p ≡ Rc.success
    → (p < h.page_count) × (get_bit h.bitmap p ≡ true)
unfolding check_page_num
check_page_num-success h p e = (ground arith, ground arith)

-- A page other than the first, which is allocated, is disposed of: that page and no other is free then,
-- the header stays valid, and the disposal is logged.
pub dispose_page-Lost :
    (answer : Answer) (p : ℕ) (f : HdrFrame)
    → IsValid f.header
    → p ≢ 0
    → check_page_num f.header p ≡ Rc.success
    → (dispose_page answer p f
        ≡ some (Rc.success, stamped 0 answer f (free_bit f.header p), logged answer (deallocate p)))
      × IsValid (free_bit f.header p)
      × Lost f.header p (free_bit f.header p)
unfolding dispose_page check_page_num
dispose_page-Lost answer p f v n c =
    let (l, e) = check_page_num-success f.header p c in
    let room : leb (length f.header.bitmap) (p / 8) ≡ false = ground (arith, v.fits) in
    let first : (p == 0) ≡ false = ground arith in
    let other : (j : ℕ)
        → p ≢ j
        → get_bit (free_bit f.header p).bitmap j ≡ get_bit f.header.bitmap j =
      λ j n. bits-free f.header v p l j ∙ ground arith in
    (
      rw (first, room) refl,
      free_bit-IsValid f.header v p l e n,
      (rw (bits-free f.header v p l p) (ground arith), λ j n. rw (other j n) refl),
    )
