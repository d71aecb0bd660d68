-- ===== src/Trx/Heap.antt =====
-- The rows that a transaction visits: src/observer/storage/record/record.h (`RID`), the operations of
-- src/observer/storage/trx/trx.h, and `RecordFileHandler::visit_record`. A heap gives the row at
-- each location, if there is one; the pages below it are not visible to a transaction.
use ob_htap.Prelude.{
  ℕ, ◌≡◌, fun_ext, List, Bool, true, ◌&&◌, Option, none, some, arith, ◌==◌, if◌then◌else◌,
  Bool-cases, inl, inr,
}
use ob_htap.Prelude.Int.{ℤ}
use ob_htap.Rc.{Rc}

-- A row's location: its table and its `RID`.
pub record Loc : Type 0 where
  pub table_id : ℕ
  pub page_num : ℕ
  pub slot_num : ℕ

pub data Kind : Type 0 where
  insert update delete undefined : Kind

-- `Operation`
pub record Operation : Type 0 where
  pub type : Kind
  pub loc : Loc

-- The two hidden fields, and the row's own bytes.
pub record Row : Type 0 where
  pub begin_xid : ℤ
  pub end_xid : ℤ
  pub bytes : List ℕ

abbrev pub Heap : Type 0
Heap = Loc → Option Row

-- `RID::operator==`, with the table.
unfoldable pub same_loc : Loc → Loc → Bool
same_loc a b = a.table_id == b.table_id && a.page_num == b.page_num && a.slot_num == b.slot_num

unfoldable pub write : Heap → Loc → Option Row → Heap
write h l r k = if same_loc k l then r else h k

-- `RecordFileHandler::visit_record`: the visitor sees a copy of the row; with the row it gives back,
-- if it gives one back, the heap is updated. The visitor's own code is handed on beside.
unfoldable pub visit_row : Heap → Loc → (Row → Rc × Option Row) → Rc × Rc × Heap
visit_row h l visitor = elim (h l) [
  | none ↦ (Rc.record_not_exist, Rc.success, h)
  | some row ↦
      let (rc, updated) = visitor row in
      elim updated [
        | none ↦ (Rc.success, rc, h)
        | some row' ↦ (Rc.success, rc, write h l (some row'))
      ]
]

pub same_loc-eq : (a b : Loc) → same_loc a b ≡ true → a ≡ b
unfolding same_loc
same_loc-eq a b h = ground arith

pub same_loc_refl : (a : Loc) → same_loc a a ≡ true
unfolding same_loc
same_loc_refl a = ground arith

pub write_self : (h : Heap) (l : Loc) (r : Option Row) → write h l r l ≡ r
unfolding write
write_self h l r = ground (arith, same_loc_refl l)

-- Writing twice at one place is writing once.
pub write-write : (h : Heap) (l : Loc) (r s : Option Row) → write (write h l r) l s ≡ write h l s
unfolding write
write-write h l r s = fun_ext λ k. ground arith

-- Writing what is there changes nothing.
pub write_same : (h : Heap) (l : Loc) (r : Option Row) → h l ≡ r → write h l r ≡ h
unfolding write
write_same h l r e = fun_ext λ k. elim (Bool-cases (same_loc k l)) [
  | inl p ↦ ground (arith, same_loc-eq k l p)
  | inr p ↦ ground arith
]
