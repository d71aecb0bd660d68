-- ===== src/Index/Internal.antt =====
-- `InternalIndexNodeHandler::lookup` of src/observer/storage/index/bplus_tree.cpp: which child of an
-- inner node to descend to. The key of the first item is not used.
use ob_htap.Prelude.{
  ℕ, zero, suc, ◌+◌, ◌-◌, ◌≡◌, ◌≤◌, ◌<◌, refl, ap, List, Bool, true, false, Option, none, some,
  if◌then◌else◌, leb, ◌==◌, ◌||◌, get_or, arith, Bool-cases, inl, inr,
}
use ob_htap.Prelude.Int.{ℤ, pos, eqb_ℤ, ltb_ℤ}
use ob_htap.Index.LowerBound.{lower_bound, lower_bound-Bound, Bound, IsSearchable}
use ob_htap.Index.Node.{Item, blank}

-- `InternalIndexNode`: the value of an item is the page of a child.
pub record InternalNode : Type 0 where
  pub parent : ℤ
  pub key_num : ℕ
  pub array : List Item

abbrev pub key_of : InternalNode → ℕ → List ℕ
key_of n i = (get_or n.array i blank).key

-- The child, whether the key is there, and where a key would be inserted.
unfoldable pub lookup_child : (List ℕ → List ℕ → ℤ) → List ℕ → InternalNode → Option (ℕ × Bool × ℕ)
lookup_child comparator key n =
    if n.key_num == 0
    then some (0, false, 1)
    else elim (lower_bound (λ i. comparator (key_of n (suc i)) key) (n.key_num - 1)) [
      | none ↦ none
      | some (iter, found) ↦
          let ret = iter + 1 in
          some (
            if leb n.key_num ret || ltb_ℤ (comparator key (key_of n ret)) (pos 0)
                then ret - 1
                else ret,
            found,
            ret,
          )
    ]

-- The child to descend to: no key up to its own is above the key that is looked for, and all the
-- keys of the children behind it are.
pub record IsChild (comparator : List ℕ → List ℕ → ℤ) (key : List ℕ) (n : InternalNode) (child : ℕ)
    : Type 0 where
  pub inside : child < n.key_num
  pub upto : (i : ℕ) → 0 < i → i ≤ child → ltb_ℤ (pos 0) (comparator (key_of n i) key) ≡ false
  pub behind :
      (i : ℕ) → child < i → i < n.key_num → ltb_ℤ (pos 0) (comparator (key_of n i) key) ≡ true

below_not_above : (c : ℤ) → ltb_ℤ c (pos 0) ≡ true → ltb_ℤ (pos 0) c ≡ false
below_not_above c h = ground arith

above_not_equal : (c : ℤ) → ltb_ℤ (pos 0) c ≡ true → eqb_ℤ c (pos 0) ≡ false
above_not_equal c h = ground arith

module _ (comparator : List ℕ → List ℕ → ℤ) where
  -- Comparing the key with those of the node the other way round gives the opposite answer.
  abbrev pub IsOpposed : List ℕ → InternalNode → Type 0
  IsOpposed key n =
      (i : ℕ)
      → 0 < i
      → i < n.key_num
      → ltb_ℤ (comparator key (key_of n i)) (pos 0) ≡ ltb_ℤ (pos 0) (comparator (key_of n i) key)

  -- The keys from the second one on are sorted and differ from each other.
  abbrev pub HasSorted : List ℕ → InternalNode → Type 0
  HasSorted key n = IsSearchable (λ i. comparator (key_of n (suc i)) key) (n.key_num - 1)

  module _ (key : List ℕ) (n : InternalNode) (s : HasSorted key n) (place : ℕ) (found : Bool)
      (b : Bound (λ i. comparator (key_of n (suc i)) key) 0 (n.key_num - 1) place found) where
    before : (i : ℕ) → 0 < i → i ≤ place → ltb_ℤ (pos 0) (comparator (key_of n i) key) ≡ false
    before zero p l = absurd (omega arith)
    before (suc i) p l = below_not_above _ (b.below i (omega arith) (omega arith))

    last-IsChild : 0 < n.key_num → n.key_num ≤ suc place → IsChild comparator key n place
    last-IsChild z l = record {
      inside = omega (arith, b.upto);
      upto = before;
      behind = λ i f g. absurd (omega arith);
    }

    at_place :
        suc place < n.key_num
        → ltb_ℤ (pos 0) (comparator (key_of n (suc place)) key) ≡ true
        → IsChild comparator key n place
    at_place l a = elim (Bool-cases found) [
      | inl y ↦ absurd (ground (arith, (b.hit y).1, above_not_equal _ a))
      | inr m ↦ record { inside = omega arith; upto = before; behind = all m }
    ]
      where
        all :
            found ≡ false
            → (i : ℕ) → place < i
            → i < n.key_num
            → ltb_ℤ (pos 0) (comparator (key_of n i) key) ≡ true
        all m zero f g = absurd (omega arith)
        all m (suc i) f g = b.miss m i (omega arith) (omega arith)

    behind_place :
        suc place < n.key_num
        → ltb_ℤ (pos 0) (comparator (key_of n (suc place)) key) ≡ false
        → IsChild comparator key n (suc place)
    behind_place l a = record { inside = l; upto = up; behind = all }
      where
        up : (i : ℕ) → 0 < i → i ≤ suc place → ltb_ℤ (pos 0) (comparator (key_of n i) key) ≡ false
        up i p h = elim (Bool-cases (leb i place)) [
          | inl y ↦ before i p (ground arith)
          | inr m ↦ let e : i ≡ suc place = ground arith in rw e a
        ]

        all :
            (i : ℕ)
            → suc place < i
            → i < n.key_num
            → ltb_ℤ (pos 0) (comparator (key_of n i) key) ≡ true
        all zero f g = absurd (omega arith)
        all (suc i) f g = elim (Bool-cases (ltb_ℤ (pos 0) (comparator (key_of n (suc i)) key))) [
          | inl y ↦ y
          | inr m ↦ absurd (
              ground (
                arith,
                s place i (omega arith) (omega arith) m,
                b.above place (omega arith) (omega arith),
              ))
        ]

  -- A look-up in an inner node that has a child and whose keys are sorted comes to an end, and gives
  -- the child to descend to.
  pub lookup_child-IsChild :
      (key : List ℕ) (n : InternalNode)
      → IsOpposed key n
      → HasSorted key n
      → 0 < n.key_num
      → (child : ℕ) × (found : Bool) × (position : ℕ) × (lookup_child comparator key n
          ≡ some (child, found, position))
        × IsChild comparator key n child
  unfolding lookup_child
  lookup_child-IsChild key n o s z =
      let (place, found, e, b) =
        lower_bound-Bound (λ i. comparator (key_of n (suc i)) key) (n.key_num - 1) s in
      let some_child : (n.key_num == 0) ≡ false = ground arith in
      let next : place + 1 ≡ suc place = omega arith in
      elim (Bool-cases (leb n.key_num (suc place))) [
        | inl y ↦ (
          place,
          found,
          suc place,
          rw (some_child, e, next, y) (ap (λ k. some (k, found, suc place)) (omega arith)),
          last-IsChild key n s place found b z (ground arith),
        )
        | inr m ↦ elim (Bool-cases (ltb_ℤ (comparator key (key_of n (suc place))) (pos 0))) [
          | inl y ↦ (
            place,
            found,
            suc place,
            rw (some_child, e, next, m, y) (ap (λ k. some (k, found, suc place)) (omega arith)),
            at_place key n s place found b (ground arith)
                (rw (← o (suc place) (omega arith) (ground arith)) y),
          )
          | inr f ↦ (
            suc place,
            found,
            suc place,
            rw (some_child, e, next, m, f) refl,
            behind_place key n s place found b (ground arith)
                (rw (← o (suc place) (omega arith) (ground arith)) f),
          )
        ]
      ]
