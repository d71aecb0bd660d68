-- ===== src/Index/Keys/Search.antt =====
-- The searches in the nodes of an index, by the comparison of its keys. No field of a key is a
-- floating-point number, and the page and the slot at the end of a key are not negative.
use ob_htap.Prelude.{ℕ, suc, ◌≡◌, ◌<◌, List, ◌∷◌, ◌++◌, Bool, true, false, some, arith, All, ◌⊎◌}
use ob_htap.Prelude.Int.{pos, eqb_ℤ}
use ob_htap.Rc.{Rc}
use ob_htap.Index.Node.{Item, LeafNode, lookup, insert_item, remove_key}
use ob_htap.Index.Node.Items.{Holds}
use ob_htap.Index.Node.Sorted.{IsBelow, IsSorted, Split, insert_item-lookup, remove_key-Holds}
use ob_htap.Index.Internal.{
  InternalNode, key_of, lookup_child, IsChild, HasSorted, lookup_child-IsChild,
}
use ob_htap.Index.Keys.{Field, compare_keys}
use ob_htap.Index.Keys.Order.{AreExact, IsKey, compare_keys-IsPreorder, IsPreorder-IsOrder}

module _ (above below : List ℕ → List ℕ → Bool) (fields : List Field) where
  -- The items of a leaf have keys of these fields, none of them a floating-point number, with a
  -- page and a slot that are not negative, and each is below all those behind it; the leaf has
  -- room. Inserting an item at the place that a look-up of its key has given, with the log taking
  -- the record, puts it between the items that are below its key and those that are not.
  pub insert_item-compare_keys :
      (item : Item) (xs : List Item) (n : LeafNode) (room : ℕ)
      → AreExact fields
      → IsKey fields item.key
      → Holds n xs (suc room)
      → IsSorted (compare_keys above below fields) (IsKey fields) xs
      → (index : ℕ) × (found : Bool) × (pre : List Item) × (post : List Item) × (n' : LeafNode)
        × (lookup (compare_keys above below fields) item.key n ≡ some (index, found))
        × (insert_item Rc.success index item n ≡ (Rc.success, n'))
        × Holds n' (pre ++ item ∷ post) room
        × Split (compare_keys above below fields) (IsKey fields) item.key xs pre post found
  insert_item-compare_keys item xs n room e k h s =
      insert_item-lookup (compare_keys above below fields) (IsKey fields) item xs n room
        (IsPreorder-IsOrder (compare_keys-IsPreorder above below fields e)) k h s

  -- The items of a leaf have keys of these fields, none of them a floating-point number, with a
  -- page and a slot that are not negative, and each is below all those behind it. Removing a key
  -- that a look-up finds, with the log taking the record, takes the one item with that key away
  -- and leaves all others as they are; where the key is not there nothing changes.
  pub remove_key-compare_keys :
      (key : List ℕ) (xs : List Item) (n : LeafNode) (room : ℕ)
      → AreExact fields
      → IsKey fields key
      → Holds n xs room
      → IsSorted (compare_keys above below fields) (IsKey fields) xs
      → ((pre : List Item) × (x : Item) × (post : List Item) × (n' : LeafNode) × (xs
            ≡ pre ++ x ∷ post)
          × (eqb_ℤ (compare_keys above below fields x.key key) (pos 0) ≡ true)
          × (remove_key (compare_keys above below fields) Rc.success key n ≡ some (1, n'))
          × Holds n' (pre ++ post) (suc room))
        ⊎ ((remove_key (compare_keys above below fields) Rc.success key n ≡ some (0, n))
            × All (λ x. eqb_ℤ (compare_keys above below fields x.key key) (pos 0) ≡ false) xs)
  remove_key-compare_keys key xs n room e k h s =
      remove_key-Holds (compare_keys above below fields) (IsKey fields) key xs n room
        (IsPreorder-IsOrder (compare_keys-IsPreorder above below fields e)) k h s

  -- The keys of an inner node from the second one on: each is a key, and is below all those behind
  -- it.
  pub record AreSeparators (n : InternalNode) : Type 0 where
    pub valid : (i : ℕ) → 0 < i → i < n.key_num → IsKey fields (key_of n i)
    pub rising :
        (i j : ℕ)
        → 0 < i
        → i < j
        → j < n.key_num
        → IsBelow (compare_keys above below fields) (IsKey fields) (key_of n i) (key_of n j)

  AreSeparators-HasSorted :
      (key : List ℕ) (n : InternalNode)
      → AreExact fields
      → IsKey fields key
      → AreSeparators n
      → HasSorted (compare_keys above below fields) key n
  AreSeparators-HasSorted key n e k s i j l g b =
      IsPreorder-IsOrder (compare_keys-IsPreorder above below fields e) (key_of n (suc i))
        (key_of n (suc j)) key (s.valid (suc i) (omega arith) (omega arith))
        (s.valid (suc j) (omega arith) (omega arith)) k
        (s.rising (suc i) (suc j) (omega arith) (omega arith) (omega arith)) b

  -- The keys of an inner node are of these fields, none of them a floating-point number, with a
  -- page and a slot that are not negative, and from the second one on each is below all those
  -- behind it; the node has a child. A look-up of a key comes to an end, and gives the child to
  -- descend to: no key up to that child's own is above the one that is looked for, and the keys of
  -- all the children behind it are.
  pub lookup_child-compare_keys :
      (key : List ℕ) (n : InternalNode)
      → AreExact fields
      → IsKey fields key
      → AreSeparators n
      → 0 < n.key_num
      → (child : ℕ) × (found : Bool) × (position : ℕ) × (lookup_child
            (compare_keys above below fields)
            key
            n
          ≡ some (child, found, position))
        × IsChild (compare_keys above below fields) key n child
  lookup_child-compare_keys key n e k s z =
      let u = compare_keys-IsPreorder above below fields e in
      lookup_child-IsChild (compare_keys above below fields) key n
        (λ i p l. u.opposed key (key_of n i) k (s.valid i p l))
        (AreSeparators-HasSorted key n e k s) z
