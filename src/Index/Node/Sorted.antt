-- ===== src/Index/Node/Sorted.antt =====
-- Looking a key up in a leaf node whose items are sorted, inserting and removing it.
use ob_htap.Prelude.{
  ℕ, zero, suc, ◌+◌, ◌≡◌, ◌≤◌, ◌<◌, refl, ap, sym, ◌∙◌, subst, List, [], ◌∷◌, ◌++◌, Bool, true,
  false, some, arith, length, take, drop, get_or, ltb, All, length-take, length-append,
  take-append-drop, ◌⊎◌, inl, inr, Bool-cases,
}
use ob_htap.Prelude.Int.{ℤ, pos, eqb_ℤ, ltb_ℤ}
use ob_htap.Rc.{Rc}
use ob_htap.Index.LowerBound.{lower_bound-Bound, IsSearchable}
use ob_htap.Index.Node.{
  Item, LeafNode, blank, lookup, insert_item, remove_item, remove_key, recover_insert_items,
  recover_remove_items,
}
use ob_htap.Index.Node.Items.{Holds, recover_insert_items-Holds, recover_remove_items-Holds}

module _ (comparator : List ℕ → List ℕ → ℤ) (IsKey : List ℕ → Type 0) where
  abbrev pub IsBelow : List ℕ → List ℕ → Type 0
  IsBelow a b = ltb_ℤ (comparator a b) (pos 0) ≡ true

  -- Among keys, what is below one is below all that are not below that one.
  abbrev pub IsOrder : Type 0
  IsOrder =
      (a b c : List ℕ)
      → IsKey a
      → IsKey b
      → IsKey c
      → IsBelow a b
      → ltb_ℤ (pos 0) (comparator b c) ≡ false
      → IsBelow a c

  -- Each item has a key, and is below all those behind it.
  abbrev pub IsSorted : List Item → Type 0
  IsSorted [] = Unit {0}
  IsSorted (x ∷ xs) = All (λ y. IsBelow x.key y.key) xs × IsSorted xs × IsKey x.key

  key_at :
      (xs : List Item) (rest : List Item) (i : ℕ)
      → IsSorted xs
      → i < length xs
      → IsKey (get_or (xs ++ rest) i blank).key
  key_at [] rest i s h = absurd (omega arith)
  key_at (x ∷ xs) rest zero s h = s.2
  key_at (x ∷ xs) rest (suc i) s h = key_at xs rest i s.1 (omega arith)

  at_sorted :
      (xs : List Item) (rest : List Item) (i j : ℕ)
      → IsSorted xs
      → i < j
      → j < length xs
      → IsBelow (get_or (xs ++ rest) i blank).key (get_or (xs ++ rest) j blank).key
  at_sorted [] rest i j s l h = absurd (omega arith)
  at_sorted (x ∷ xs) rest i zero s l h = absurd (omega arith)
  at_sorted (x ∷ xs) rest zero (suc j) s l h = each xs j s.0 (omega arith)
    where
      each :
          (ys : List Item) (k : ℕ)
          → All (λ y. IsBelow x.key y.key) ys
          → k < length ys
          → IsBelow x.key (get_or (ys ++ rest) k blank).key
      each [] k a h = absurd (omega arith)
      each (y ∷ ys) zero a h = a.0
      each (y ∷ ys) (suc k) a h = each ys k a.1 (omega arith)
  at_sorted (x ∷ xs) rest (suc i) (suc j) s l h =
      at_sorted xs rest i j s.1 (omega arith) (omega arith)

  -- Where the search in a node ends: the items before and behind the place.
  pub record Split (key : List ℕ) (xs pre post : List Item) (found : Bool) : Type 0 where
    pub whole : xs ≡ pre ++ post
    pub below : All (λ x. IsBelow x.key key) pre
    pub not_below : All (λ x. ltb_ℤ (comparator x.key key) (pos 0) ≡ false) post
    pub hit :
        found ≡ true
        → (x : Item) × (more : List Item) × (post ≡ x ∷ more)
          × (eqb_ℤ (comparator x.key key) (pos 0) ≡ true)
    pub miss : found ≡ false → All (λ x. ltb_ℤ (pos 0) (comparator x.key key) ≡ true) post

  split_before :
      (P : List ℕ → Type 0) (xs rest : List Item) (place : ℕ)
      → place ≤ length xs
      → ((i : ℕ) → i < place → P (get_or (xs ++ rest) i blank).key)
      → All (λ x. P x.key) (take place xs)
  split_before P xs rest zero l f = tt
  split_before P [] rest (suc place) l f = tt
  split_before P (x ∷ xs) rest (suc place) l f = (
    f 0 (omega arith),
    split_before P xs rest place (omega arith) (λ i h. f (suc i) (omega arith)),
  )

  split_behind :
      (P : List ℕ → Type 0) (xs rest : List Item) (place : ℕ)
      → ((i : ℕ) → place ≤ i → i < length xs → P (get_or (xs ++ rest) i blank).key)
      → All (λ x. P x.key) (drop place xs)
  split_behind P [] rest zero f = tt
  split_behind P [] rest (suc place) f = tt
  split_behind P (x ∷ xs) rest zero f = (
    f 0 (omega arith) (omega arith),
    split_behind P xs rest zero (λ i a b. f (suc i) (omega arith) (omega arith)),
  )
  split_behind P (x ∷ xs) rest (suc place) f =
      split_behind P xs rest place (λ i a b. f (suc i) (omega arith) (omega arith))

  split_at :
      (P : List ℕ → Type 0) (xs rest : List Item) (place : ℕ)
      → place < length xs
      → P (get_or (xs ++ rest) place blank).key
      → (x : Item) × (more : List Item) × (drop place xs ≡ x ∷ more) × P x.key
  split_at P [] rest place l p = absurd (omega arith)
  split_at P (x ∷ xs) rest zero l p = (x, xs, refl, p)
  split_at P (x ∷ xs) rest (suc place) l p = split_at P xs rest place (omega arith) p

  -- A look-up in a node whose items are sorted comes to an end. It gives the number of items that are
  -- below the key, none of those behind them is, and it says whether the first of these is equal.
  pub lookup-Split :
      (key : List ℕ) (xs : List Item) (n : LeafNode) (room : ℕ)
      → IsOrder
      → IsKey key
      → Holds n xs room
      → IsSorted xs
      → (pre : List Item) × (post : List Item) × (found : Bool) × (lookup comparator key n
          ≡ some (length pre, found))
        × Split key xs pre post found
  unfolding lookup
  lookup-Split key xs n room o d h s =
      let at : ℕ → ℤ = λ i. comparator (get_or (xs ++ h.rest) i blank).key key in
      let searchable : IsSearchable at (length xs) = λ i j l g b.
        o _ _ _ (key_at xs h.rest i s (omega arith)) (key_at xs h.rest j s g) d
          (at_sorted xs h.rest i j s l g) b in
      let (place, found, e, b) = lower_bound-Bound at (length xs) searchable in
      let count : place ≡ length (take place xs) = omega (arith, length-take place xs, b.upto) in
      (
        take place xs,
        drop place xs,
        found,
        rw (h.stored, h.counted) (e ∙ ap (λ k. some (k, found)) count),
        record {
          whole = sym (take-append-drop place xs);
          below =
              split_before (λ k. IsBelow k key) xs h.rest place b.upto
                (λ i l. b.below i (omega arith) l);
          not_below =
              split_behind (λ k. ltb_ℤ (comparator k key) (pos 0) ≡ false) xs h.rest place b.above;
          hit = λ y.
              split_at (λ k. eqb_ℤ (comparator k key) (pos 0) ≡ true) xs h.rest place (b.hit y).0
                (b.hit y).1;
          miss = λ m.
              split_behind (λ k. ltb_ℤ (pos 0) (comparator k key) ≡ true) xs h.rest place
                (b.miss m);
        },
      )

  -- Inserting an item at the place that a look-up of its key has given, with the log taking the
  -- record, puts it between the items that are below its key and those that are not.
  pub insert_item-lookup :
      (item : Item) (xs : List Item) (n : LeafNode) (room : ℕ)
      → IsOrder
      → IsKey item.key
      → Holds n xs (suc room)
      → IsSorted xs
      → (index : ℕ) × (found : Bool) × (pre : List Item) × (post : List Item) × (n' : LeafNode)
        × (lookup comparator item.key n ≡ some (index, found))
        × (insert_item Rc.success index item n ≡ (Rc.success, n'))
        × Holds n' (pre ++ item ∷ post) room
        × Split item.key xs pre post found
  unfolding insert_item
  insert_item-lookup item xs n room o d h s =
      let (pre, post, found, e, p) = lookup-Split item.key xs n (suc room) o d h s in
      let h' : Holds n (pre ++ post) (length (item ∷ []) + room) =
        subst (Holds n (pre ++ post)) (omega arith) (subst (λ l. Holds n l (suc room)) p.whole h) in
      (
        length pre,
        found,
        pre,
        post,
        recover_insert_items (length pre) (item ∷ []) n,
        e,
        refl,
        recover_insert_items-Holds pre post (item ∷ []) n room h',
        p,
      )

  -- Removing a key that a look-up finds, with the log taking the record, takes the one item with that
  -- key away and leaves all others as they are; where the key is not there nothing changes.
  pub remove_key-Holds :
      (key : List ℕ) (xs : List Item) (n : LeafNode) (room : ℕ)
      → IsOrder
      → IsKey key
      → Holds n xs room
      → IsSorted xs
      → ((pre : List Item) × (x : Item) × (post : List Item) × (n' : LeafNode) × (xs
            ≡ pre ++ x ∷ post)
          × (eqb_ℤ (comparator x.key key) (pos 0) ≡ true)
          × (remove_key comparator Rc.success key n ≡ some (1, n'))
          × Holds n' (pre ++ post) (suc room))
        ⊎ ((remove_key comparator Rc.success key n ≡ some (0, n))
            × All (λ x. eqb_ℤ (comparator x.key key) (pos 0) ≡ false) xs)
  unfolding remove_key remove_item
  remove_key-Holds key xs n room o d h s =
      let (pre, post, found, e, p) = lookup-Split key xs n room o d h s in
      elim (Bool-cases found) [
        | inl y ↦
            let (x, more, q, same) = p.hit y in
            let w : xs ≡ pre ++ x ∷ more = p.whole ∙ ap (◌++◌ pre) q in
            let h' : Holds n (pre ++ (x ∷ [] ++ more)) room = subst (λ l. Holds n l room) w h in
            let inside : ltb (length pre) n.key_num ≡ true =
              ground (arith, h'.counted, length-append pre (x ∷ more)) in
            inl (
              pre,
              x,
              more,
              recover_remove_items (length pre) 1 n,
              w,
              same,
              rw (e, y, inside, remove_key) refl,
              subst (Holds (recover_remove_items (length pre) 1 n) (pre ++ more)) (omega arith)
                  (recover_remove_items-Holds pre (x ∷ []) more n room h'),
            )
        | inr m ↦
            inr (rw (e, m, remove_key) refl, rw p.whole (unequal key pre post p.below (p.miss m)))
      ]
    where
      unequal :
          (key : List ℕ) (pre post : List Item)
          → All (λ x. IsBelow x.key key) pre
          → All (λ x. ltb_ℤ (pos 0) (comparator x.key key) ≡ true) post
          → All (λ x. eqb_ℤ (comparator x.key key) (pos 0) ≡ false) (pre ++ post)
      unequal key [] [] a b = tt
      unequal key [] (x ∷ post) a b = (ground (arith, b.0), unequal key [] post tt b.1)
      unequal key (x ∷ pre) post a b = (ground (arith, a.0), unequal key pre post a.1 b)
