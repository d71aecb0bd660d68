-- ===== src/Index/Keys/Tests.antt =====
-- Keys of one text of two bytes, and the page and the slot of their rows.
use ob_htap.Prelude.{
  ℕ, zero, suc, ◌≡◌, ◌<◌, refl, List, [], ◌∷◌, ◌++◌, Bool, true, false, some, length, arith, All,
  ◌⊎◌,
}
use ob_htap.Prelude.Int.{pos, negsuc, eqb_ℤ}
use ob_htap.Rc.{Rc}
use ob_htap.Clog.Entry.{le_number}
use ob_htap.Index.Node.{Item, LeafNode, blank, lookup, insert_item, remove_key}
use ob_htap.Index.Node.Items.{Holds}
use ob_htap.Index.Node.Sorted.{IsBelow, IsSorted, Split}
use ob_htap.Index.Internal.{InternalNode, key_of, lookup_child, IsChild}
use ob_htap.Index.Keys.{
  Field, chars, word_at, strncmp, compare_string, minus32, compare_rid, total_attr_length,
  compare_key, compare_attrs, compare_keys,
}
use ob_htap.Index.Keys.Order.{IsKey}
use ob_htap.Index.Keys.Search.{
  insert_item-compare_keys, remove_key-compare_keys, AreSeparators, lookup_child-compare_keys,
}

abbrev fields : List Field
fields = record { type = chars; size = 2 } ∷ []

-- No field is a floating-point number.
abbrev never : List ℕ → List ℕ → Bool
never a b = false

-- The row in slot `k` of page 1, under the text of one letter.
abbrev key : ℕ → List ℕ
key k = 65 ∷ 0 ∷ 1 ∷ 0 ∷ 0 ∷ 0 ∷ k ∷ 0 ∷ 0 ∷ 0 ∷ []

abbrev row : ℕ → Item
row k = record { key = key k; value = [] }

abbrev leaf_of : List Item → LeafNode
leaf_of xs = record {
  parent = negsuc 0;
  next_brother = negsuc 0;
  key_num = length xs;
  array = xs ++ (blank ∷ blank ∷ blank ∷ []);
}

leaf_of-Holds : (xs : List Item) → Holds (leaf_of xs) xs 3
leaf_of-Holds xs = record {
  rest = blank ∷ blank ∷ blank ∷ [];
  stored = refl;
  counted = refl;
  spare = refl;
}

abbrev two_rows : List Item
two_rows = row 3 ∷ row 7 ∷ []

key-IsKey : (k : ℕ) → k < 256 → IsKey fields (key k)
unfolding IsKey word_at le_number total_attr_length
key-IsKey k h = (omega arith, omega arith)

key_3-lt : IsBelow (compare_keys never never fields) (IsKey fields) (key 3) (key 7)
unfolding compare_keys compare_attrs compare_key compare_string strncmp compare_rid minus32 word_at
    le_number total_attr_length
key_3-lt = refl

two_rows-IsSorted : IsSorted (compare_keys never never fields) (IsKey fields) two_rows
two_rows-IsSorted = ((key_3-lt, tt), (tt, tt, key-IsKey 7 (omega arith)), key-IsKey 3 (omega arith))

insert_item-compare_keys_example :
    (index : ℕ) × (found : Bool) × (pre : List Item) × (post : List Item) × (n' : LeafNode)
    × (lookup (compare_keys never never fields) (key 5) (leaf_of two_rows) ≡ some (index, found))
    × (insert_item Rc.success index (row 5) (leaf_of two_rows) ≡ (Rc.success, n'))
    × Holds n' (pre ++ row 5 ∷ post) 2
    × Split (compare_keys never never fields) (IsKey fields) (key 5) two_rows pre post found
insert_item-compare_keys_example =
    insert_item-compare_keys never never fields (row 5) two_rows (leaf_of two_rows) 2 (refl, tt)
      (key-IsKey 5 (omega arith)) (leaf_of-Holds two_rows) two_rows-IsSorted

remove_key-compare_keys_example :
    ((pre : List Item) × (x : Item) × (post : List Item) × (n' : LeafNode) × (two_rows
        ≡ pre ++ x ∷ post)
      × (eqb_ℤ (compare_keys never never fields x.key (key 7)) (pos 0) ≡ true)
      × (remove_key (compare_keys never never fields) Rc.success (key 7) (leaf_of two_rows)
          ≡ some (1, n'))
      × Holds n' (pre ++ post) 4)
    ⊎ ((remove_key (compare_keys never never fields) Rc.success (key 7) (leaf_of two_rows)
          ≡ some (0, leaf_of two_rows))
        × All (λ x. eqb_ℤ (compare_keys never never fields x.key (key 7)) (pos 0) ≡ false) two_rows)
remove_key-compare_keys_example =
    remove_key-compare_keys never never fields (key 7) two_rows (leaf_of two_rows) 3 (refl, tt)
      (key-IsKey 7 (omega arith)) (leaf_of-Holds two_rows) two_rows-IsSorted

-- Three children; the keys between them are those of the slots 3 and 7.
abbrev inner : InternalNode
inner = record { parent = negsuc 0; key_num = 3; array = blank ∷ row 3 ∷ row 7 ∷ [] }

inner-AreSeparators : AreSeparators never never fields inner
inner-AreSeparators = record { valid = valid; rising = rising }
  where
    valid : (i : ℕ) → 0 < i → i < 3 → IsKey fields (key_of inner i)
    valid zero p l = absurd (omega arith)
    valid (suc zero) p l = key-IsKey 3 (omega arith)
    valid (suc (suc zero)) p l = key-IsKey 7 (omega arith)
    valid (suc (suc (suc i))) p l = absurd (omega arith)

    rising :
        (i j : ℕ)
        → 0 < i
        → i < j
        → j < 3
        → IsBelow (compare_keys never never fields) (IsKey fields) (key_of inner i) (key_of inner j)
    rising zero j p l h = absurd (omega arith)
    rising (suc zero) (suc (suc zero)) p l h = key_3-lt
    rising (suc zero) (suc (suc (suc j))) p l h = absurd (omega arith)
    rising (suc zero) (suc zero) p l h = absurd (omega arith)
    rising (suc zero) zero p l h = absurd (omega arith)
    rising (suc (suc i)) j p l h = absurd (omega arith)

lookup_child-compare_keys_example :
    (child : ℕ) × (found : Bool) × (position : ℕ) × (lookup_child
        (compare_keys never never fields)
        (key 5)
        inner
      ≡ some (child, found, position))
    × IsChild (compare_keys never never fields) (key 5) inner child
lookup_child-compare_keys_example =
    lookup_child-compare_keys never never fields (key 5) inner (refl, tt)
      (key-IsKey 5 (omega arith)) inner-AreSeparators (omega arith)
