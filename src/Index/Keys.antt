-- ===== src/Index/Keys.antt =====
-- The comparison of keys: `AttrComparator` and `KeyComparator` of src/observer/storage/index/bplus_tree.h,
-- the comparisons of deps/common/lang/comparator.cpp, and `RID::compare` of
-- src/observer/storage/record/record.h. What `compare_float` tests of two values is an argument. A field of
-- another type than these ends the process; no index is made over one here.
pub mod Order
pub mod Search
mod Tests
use ob_htap.Prelude.{
  ℕ, zero, suc, ◌+◌, ◌-◌, ◌%◌, ◌^◌, List, [], ◌∷◌, Bool, if◌then◌else◌, ltb, ◌==◌, take, drop,
  get_or,
}
use ob_htap.Prelude.Int.{ℤ, pos, negsuc, ltb_ℤ, eqb_ℤ}
use ob_htap.Clog.Entry.{le_number, signed32}

-- `AttrType`, of the types that `compare_key` takes
pub data AttrType : Type 0 where
  ints dates floats chars : AttrType

-- A field of a key: its type and its length.
pub record Field : Type 0 where
  pub type : AttrType
  pub size : ℕ

-- The bits of the `int32_t` at a place.
unfoldable pub word_at : ℕ → List ℕ → ℕ
word_at offset bytes = le_number (take 4 (drop offset bytes))

-- `compare_int`
unfoldable pub compare_int : ℤ → ℤ → ℤ
compare_int v1 v2 = if ltb_ℤ v2 v1 then pos 1 else if ltb_ℤ v1 v2 then negsuc 0 else pos 0

-- `strncmp`: the bytes up to the first that differ, a zero, or the limit. A byte that is not there is
-- read as zero.
unfoldable pub strncmp : ℕ → List ℕ → List ℕ → ℤ
strncmp zero s1 s2 = pos 0
strncmp (suc n) s1 s2 =
    let rest = strncmp n (drop 1 s1) (drop 1 s2) in
    if ltb (get_or s1 0 0) (get_or s2 0 0)
    then negsuc 0
    else if ltb (get_or s2 0 0) (get_or s1 0 0)
    then pos 1
    else if get_or s1 0 0 == 0
    then pos 0
    else rest

-- `compare_string` of two values of one length
unfoldable pub compare_string : ℕ → List ℕ → List ℕ → ℤ
compare_string size s1 s2 =
    let result = strncmp size s1 s2 in
    if eqb_ℤ result (pos 0) then pos 0 else if ltb_ℤ result (pos 0) then negsuc 0 else pos 1

-- A difference of two `int32_t`, as the machine has it.
unfoldable pub minus32 : ℕ → ℕ → ℤ
minus32 a b = signed32 ((a + 2 ^ 32 - b) % 2 ^ 32)

-- `RID::compare`, of the identifiers at a place
unfoldable pub compare_rid : ℕ → List ℕ → List ℕ → ℤ
compare_rid offset v1 v2 =
    let page_diff = minus32 (word_at offset v1) (word_at offset v2) in
    if eqb_ℤ page_diff (pos 0)
    then minus32 (word_at (offset + 4) v1) (word_at (offset + 4) v2)
    else page_diff

-- `total_attr_length_`
unfoldable pub total_attr_length : List Field → ℕ
total_attr_length [] = 0
total_attr_length (f ∷ fields) = f.size + total_attr_length fields

-- The two tests of `compare_float`: the difference of the values is above EPSILON, or below -EPSILON.
module _ (above below : List ℕ → List ℕ → Bool) where
  -- `AttrComparator::compare_key`, of the values at a place
  unfoldable pub compare_key : AttrType → ℕ → ℕ → List ℕ → List ℕ → ℤ
  compare_key ints size offset v1 v2 =
      compare_int (signed32 (word_at offset v1)) (signed32 (word_at offset v2))
  compare_key dates size offset v1 v2 =
      compare_int (signed32 (word_at offset v1)) (signed32 (word_at offset v2))
  compare_key floats size offset v1 v2 =
      if above (drop offset v1) (drop offset v2)
      then pos 1
      else if below (drop offset v1) (drop offset v2)
      then negsuc 0
      else pos 0
  compare_key chars size offset v1 v2 = compare_string size (drop offset v1) (drop offset v2)

  -- The loop of `AttrComparator::operator()`, from the field at `offset` on
  unfoldable pub compare_attrs : List Field → ℕ → List ℕ → List ℕ → ℤ
  compare_attrs [] offset v1 v2 = pos 0
  compare_attrs (f ∷ fields) offset v1 v2 =
      let result = compare_key f.type f.size offset v1 v2 in
      let rest = compare_attrs fields (offset + f.size) v1 v2 in
      if eqb_ℤ result (pos 0) then rest else result

  -- `KeyComparator::operator()`
  unfoldable pub compare_keys : List Field → List ℕ → List ℕ → ℤ
  compare_keys fields v1 v2 =
      let result = compare_attrs fields 0 v1 v2 in
      if eqb_ℤ result (pos 0) then compare_rid (total_attr_length fields) v1 v2 else result
