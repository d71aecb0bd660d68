-- ===== src/Buffer/File/Valid.antt =====
-- The header of a file of pages: its count agrees with its bitmap, whatever is allocated or disposed of.
use ob_htap.Prelude.{
  ℕ, zero, suc, ◌+◌, ◌*◌, ◌/◌, ◌≤◌, ◌<◌, ◌≡◌, ◌≢◌, refl, sym, ap, ◌∙◌, List, true, false, none,
  some, if◌then◌else◌, ◌==◌, length, arith, Bool-cases, inl, inr,
}
use ob_htap.Prelude.Int.{pos, ◌+ℤ◌, ◌-ℤ◌}
use ob_htap.Record.Bitmap.{get_bit, set_bit, clear_bit}
use ob_htap.Record.Bitmap.Bits.{
  AreBytes, set_bit-AreBytes, clear_bit-AreBytes, get_bit-set_bit, get_bit-clear_bit,
  length-set_bit, length-clear_bit,
}
use ob_htap.Record.Bitmap.Search.{count, count_same, count_set, count_clear}
use ob_htap.Buffer.File.{FileHeader, take_bit, free_bit, extended, free_loop}

pub record IsValid (h : FileHeader) : Type 0 where
  pub fits : h.page_count ≤ 8 * length h.bitmap
  pub are_bytes : AreBytes h.bitmap
  pub header_page : (0 < h.page_count) × (get_bit h.bitmap 0 ≡ true)
  pub counted : h.allocated_pages ≡ pos (count (get_bit h.bitmap) h.page_count)

inc : (n : ℕ) → pos n +ℤ pos 1 ≡ pos (suc n)
unfolding ◌+ℤ◌
inc n = ground arith

dec : (n : ℕ) → pos (suc n) -ℤ pos 1 ≡ pos n
unfolding ◌-ℤ◌
dec n = ground arith

module _ (h : FileHeader) (v : IsValid h) where
  module _ (i : ℕ) (l : i < h.page_count) where
    pub inside : i / 8 < length h.bitmap
    inside = omega (arith, v.fits)

    pub bits-take :
        (j : ℕ) → get_bit (set_bit h.bitmap i) j ≡ (if i == j then true else get_bit h.bitmap j)
    bits-take j = get_bit-set_bit h.bitmap i j v.are_bytes inside

    pub bits-free :
        (j : ℕ) → get_bit (clear_bit h.bitmap i) j ≡ (if i == j then false else get_bit h.bitmap j)
    bits-free j = get_bit-clear_bit h.bitmap i j v.are_bytes inside

    pub take_bit-IsValid : get_bit h.bitmap i ≡ false → IsValid (take_bit h i)
    take_bit-IsValid e = record {
      fits = omega (arith, v.fits, length-set_bit h.bitmap i);
      are_bytes = set_bit-AreBytes h.bitmap i v.are_bytes;
      header_page = (v.header_page.0, bits-take 0 ∙ ground (arith, v.header_page.1));
      counted =
          ap (λ z. z +ℤ pos 1) v.counted
          ∙ inc (count (get_bit h.bitmap) h.page_count)
          ∙ ap pos (
              sym (
                count_set (get_bit h.bitmap) (get_bit (set_bit h.bitmap i)) i h.page_count l e
                  bits-take));
    }

    pub free_bit-IsValid : get_bit h.bitmap i ≡ true → i ≢ 0 → IsValid (free_bit h i)
    free_bit-IsValid e n = record {
      fits = omega (arith, v.fits, length-clear_bit h.bitmap i);
      are_bytes = clear_bit-AreBytes h.bitmap i v.are_bytes;
      header_page = (v.header_page.0, bits-free 0 ∙ ground (arith, v.header_page.1));
      counted =
          ap (λ z. z -ℤ pos 1)
            (v.counted
              ∙ ap pos (
                  sym (
                    count_clear (get_bit h.bitmap) (get_bit (clear_bit h.bitmap i)) i h.page_count l
                      e bits-free)))
          ∙ dec (count (get_bit (clear_bit h.bitmap i)) h.page_count);
    }

  module _ (room : h.page_count < 8 * length h.bitmap) where
    pub inside_next : h.page_count / 8 < length h.bitmap
    inside_next = omega arith

    pub bits-extended :
        (j : ℕ)
        → get_bit (extended h).bitmap j ≡ (if h.page_count == j then true else get_bit h.bitmap j)
    bits-extended j = get_bit-set_bit h.bitmap h.page_count j v.are_bytes inside_next

    count-extended :
        count (get_bit (extended h).bitmap) (h.page_count + 1)
        ≡ suc (count (get_bit h.bitmap) h.page_count)
    count-extended =
        let here : get_bit (extended h).bitmap h.page_count ≡ true =
          bits-extended h.page_count ∙ ground arith in
        let below = count_same (get_bit h.bitmap) (get_bit (extended h).bitmap) h.page_count (λ j l.
          let d : (h.page_count == j) ≡ false = ground arith in bits-extended j ∙ rw d refl) in
        ap (count (get_bit (extended h).bitmap)) (plus_one h.page_count)
        ∙ rw here (omega (arith, below))
      where
        plus_one : (n : ℕ) → n + 1 ≡ suc n
        plus_one n = omega arith

    pub extended-IsValid : IsValid (extended h)
    extended-IsValid = record {
      fits = omega (arith, length-set_bit h.bitmap h.page_count);
      are_bytes = set_bit-AreBytes h.bitmap h.page_count v.are_bytes;
      header_page = (omega arith, bits-extended 0 ∙ ground (arith, v.header_page.1));
      counted =
          ap (λ z. z +ℤ pos 1) v.counted
          ∙ inc (count (get_bit h.bitmap) h.page_count)
          ∙ ap pos (sym count-extended);
    }

-- What the search for a free page finds: the first that is free, or none is.
pub free_loop-found :
    (bitmap : List ℕ) (i rounds : ℕ) {r : ℕ}
    → free_loop bitmap i rounds ≡ some r
    → (r < i + rounds) × (get_bit bitmap r ≡ false)
unfolding free_loop
free_loop-found bitmap i zero h = absurd (ground arith)
free_loop-found bitmap i (suc rounds) {r = r} h = elim (Bool-cases (get_bit bitmap i)) [
  | inl y ↦
      let rest = free_loop-found bitmap (suc i) rounds {r = r} (ground arith) in
      (omega arith, rest.1)
  | inr n ↦ let e : r ≡ i = ground arith in (omega arith, rw e n)
]

pub free_loop-none :
    (bitmap : List ℕ) (i rounds : ℕ)
    → free_loop bitmap i rounds ≡ none
    → (j : ℕ) → i ≤ j
    → j < i + rounds
    → get_bit bitmap j ≡ true
unfolding free_loop
free_loop-none bitmap i zero h j lo hi = absurd (omega arith)
free_loop-none bitmap i (suc rounds) h j lo hi = elim (Bool-cases (get_bit bitmap i)) [
  | inl y ↦ elim (Bool-cases (i == j)) [
    | inl s ↦ let e : j ≡ i = ground arith in rw e y
    | inr d ↦ free_loop-none bitmap (suc i) rounds (ground arith) j (ground arith) (omega arith)
  ]
  | inr n ↦ absurd (ground arith)
]
