-- ===== src/Index/Logger/Undo.antt =====
-- The rollback of the changes of a leaf.
use ob_htap.Prelude.{
  ℕ, zero, suc, ◌+◌, ◌-◌, ◌≡◌, ◌≤◌, refl, ap, List, [], ◌∷◌, Bool, true, false, Option, none, some,
  ltb, length, arith, take, set, Bool-cases, inl, inr, ◌∙◌, ◌⊎◌,
}
use ob_htap.Prelude.Int.{ℤ}
use ob_htap.Rc.{Rc}
use ob_htap.Clog.Entry.{signed32}
use ob_htap.Index.Node.{
  Item, LeafNode, items_at, copy_to, recover_insert_items, append_items, insert_item, remove_item,
}
use ob_htap.Index.Redo.{TreePage, leaf, set_next_page, set_parent_page_num}
use ob_htap.Index.Redo.Changes.{
  LeafChange, append_change, insert_change, remove_change, next_change, parent_change, change,
  log_of,
}
use ob_htap.Index.Logger.{rollback_node}

-- Whether the rollback of a change reads or writes items that the page has: that of every removal does,
-- and that of an insertion before an item.
abbrev pub touches_items : LeafChange → LeafNode → Bool
touches_items (append_change items) n = false
touches_items (insert_change index item) n = ltb index n.key_num
touches_items (remove_change index) n = true
touches_items (next_change page) n = false
touches_items (parent_change page) n = false

-- The place of an insertion is not behind the items.
abbrev pub IsInside : LeafChange → LeafNode → Type 0
IsInside (append_change items) n = Unit {0}
IsInside (insert_change index item) n = index ≤ n.key_num
IsInside (remove_change index) n = Unit {0}
IsInside (next_change page) n = Unit {0}
IsInside (parent_change page) n = Unit {0}

-- Two nodes have the same items in use and the same neighbours.
pub record IsRestored (n m : LeafNode) : Type 0 where
  pub parent_same : m.parent ≡ n.parent
  pub next_same : m.next_brother ≡ n.next_brother
  pub count_same : m.key_num ≡ n.key_num
  pub items_same : items_at m.array 0 m.key_num ≡ items_at n.array 0 n.key_num

take-set : (n i : ℕ) (xs : List Item) (x : Item) → n ≤ i → take n (set xs i x) ≡ take n xs
take-set zero i xs x h = refl
take-set (suc n) i [] x h = refl
take-set (suc n) zero (y ∷ xs) x h = absurd (omega arith)
take-set (suc n) (suc i) (y ∷ xs) x h = ap (◌∷◌ y) (take-set n i xs x (omega arith))

take-copy_to : (n i : ℕ) (array xs : List Item) → n ≤ i → take n (copy_to array i xs) ≡ take n array
unfolding copy_to
take-copy_to n i array [] h = refl
take-copy_to n i array (x ∷ xs) h =
    take-copy_to n (suc i) (set array i x) xs (omega arith) ∙ take-set n i array x h

module _ (key_size : ℕ) (pattern : ℤ → ℕ) (c : LeafChange) (n : LeafNode) where
  abbrev pub undone : LeafNode → Option TreePage
  undone n' = rollback_node key_size (log_of pattern c n) (leaf n')

-- Items that were put behind the others are taken away again.
cut_back : LeafNode → List Item → LeafNode
cut_back n items = record n { array = copy_to n.array n.key_num items; key_num = n.key_num }

cut_back-IsRestored : (n : LeafNode) (items : List Item) → IsRestored n (cut_back n items)
unfolding cut_back
cut_back-IsRestored n items = record {
  parent_same = refl;
  next_same = refl;
  count_same = refl;
  items_same = take-copy_to n.key_num n.key_num n.array items (omega arith);
}

-- The number of the next page and that of the parent are read back as they were written, and an insertion
-- was not behind the end. A change of a leaf that has succeeded is rolled back. A removal, of the last item
-- too, or an insertion before an item ends in an access through a null pointer. After any other change
-- the leaf has the items and the neighbours that it had before.
pub rollback_node-log_of :
    (key_size : ℕ) (pattern : ℤ → ℕ) (c : LeafChange) (n : LeafNode) {n' : LeafNode}
    → signed32 (pattern n.parent) ≡ n.parent
    → signed32 (pattern n.next_brother) ≡ n.next_brother
    → IsInside c n
    → change Rc.success c n ≡ some (Rc.success, n')
    → ((touches_items c n ≡ true) × (undone key_size pattern c n n' ≡ none))
      ⊎ ((m : LeafNode) × (undone key_size pattern c n n' ≡ some (leaf m)) × IsRestored n m)
unfolding change log_of rollback_node append_items insert_item remove_item set_next_page
    set_parent_page_num recover_insert_items cut_back
rollback_node-log_of k pattern (append_change items) n {n'} p q i h =
    let e : n' ≡ recover_insert_items n.key_num items n = ground arith in
    let back : ltb n.key_num (n.key_num + length items - length items) ≡ false = ground arith in
    let same : n.key_num + length items - length items ≡ n.key_num = omega arith in
    inr (cut_back n items, rw (e) (ground arith), cut_back-IsRestored n items)
rollback_node-log_of k pattern (insert_change index item) n {n'} p q i h =
    elim (Bool-cases (ltb index n.key_num)) [
      | inl y ↦ inl (y, ground arith)
      | inr m ↦ inr (cut_back n (item ∷ []), ground arith, cut_back-IsRestored n (item ∷ []))
    ]
rollback_node-log_of k pattern (remove_change index) n {n'} p q i h = inl (refl, refl)
rollback_node-log_of k pattern (next_change page) n {n'} p q i h = inr (
  n,
  ground arith,
  record { parent_same = refl; next_same = refl; count_same = refl; items_same = refl },
)
rollback_node-log_of k pattern (parent_change page) n {n'} p q i h = inr (
  n,
  ground arith,
  record { parent_same = refl; next_same = refl; count_same = refl; items_same = refl },
)
