-- ===== src/Index/Node/Leaf.antt =====
-- Moving items between leaf nodes, as splits and merges do.
use ob_htap.Prelude.{
  ℕ, suc, ◌+◌, ◌-◌, ◌/◌, ◌≡◌, refl, ap, sym, ◌∙◌, subst, List, [], ◌∷◌, ◌++◌, true, some, arith,
  length, take, drop, get_or, ltb, length-append, append_assoc, append-nil, length-take,
  length-drop, take-append-drop,
}
use ob_htap.Rc.{Rc}
use ob_htap.Index.Node.{
  Item, LeafNode, blank, items_at, append_items, insert_item, remove_item, recover_insert_items,
  recover_remove_items, move_half_to, move_first_to_end, move_last_to_front, move_to,
}
use ob_htap.Index.Node.Items.{
  Holds, items_at_middle, recover_insert_items-Holds, recover_remove_items-Holds,
}

-- Items at the end, and items gone from the end.
appended-Holds :
    (ys items : List Item) (n : LeafNode) (room : ℕ)
    → Holds n ys (length items + room)
    → Holds (recover_insert_items n.key_num items n) (ys ++ items) room
appended-Holds ys items n room h =
    let h' : Holds n (ys ++ []) (length items + room) = rw (append-nil ys) h in
    let q : Holds (recover_insert_items (length ys) items n) (ys ++ (items ++ [])) room =
      recover_insert_items-Holds ys [] items n room h' in
    subst (λ k. Holds (recover_insert_items k items n) (ys ++ items) room) (sym h.counted)
      (subst (λ l. Holds (recover_insert_items (length ys) items n) (ys ++ l) room)
        (append-nil items) q)

cut-Holds :
    (front back : List Item) (n : LeafNode) (room : ℕ)
    → Holds n (front ++ back) room
    → Holds (recover_remove_items (length front) (length back) n) front (length back + room)
cut-Holds front back n room h =
    let h' : Holds n (front ++ (back ++ [])) room = rw (append-nil back) h in
    subst (λ l. Holds (recover_remove_items (length front) (length back) n) l (length back + room))
      (append-nil front) (recover_remove_items-Holds front back [] n room h')

-- What stands between two places of a node.
items_at-Holds :
    (pre xs post : List Item) (n : LeafNode) (room : ℕ)
    → Holds n (pre ++ (xs ++ post)) room
    → items_at n.array (length pre) (length xs) ≡ xs
items_at-Holds pre xs post n room h =
    rw (h.stored, append_assoc pre (xs ++ post) h.rest, append_assoc xs post h.rest)
      (items_at_middle pre xs (post ++ h.rest))

split_lem :
    (front back ys : List Item) (n other : LeafNode) (room room' : ℕ)
    → Holds n (front ++ back) room
    → Holds other ys (length back + room')
    → n.key_num / 2 ≡ length front
    → n.key_num - n.key_num / 2 ≡ length back
    → (move_half_to Rc.success Rc.success n other ≡ (
      Rc.success,
      recover_remove_items (length front) (length back) n,
      recover_insert_items other.key_num back other,
    ))
unfolding move_half_to append_items
split_lem front back ys n other room room' h o f b =
    let z : Holds n (front ++ (back ++ [])) room = rw (append-nil back) h in
    rw (f, ap (λ k. n.key_num - k) (sym f) ∙ b, items_at-Holds front back [] n room z) refl

-- A node whose upper half is moved, with the log taking each record, keeps the lower half; the upper
-- half stands in the same order behind the items of the other node, if that has room for it.
pub move_half_to-Holds :
    (xs ys : List Item) (n other : LeafNode) (room room' : ℕ)
    → Holds n xs room
    → Holds other ys (length xs - length xs / 2 + room')
    → let lower = take (length xs / 2) xs in
      let upper = drop (length xs / 2) xs in
      (n' : LeafNode) × (other' : LeafNode) × (move_half_to Rc.success Rc.success n other
        ≡ (Rc.success, n', other'))
      × Holds n' lower (length upper + room)
      × Holds other' (ys ++ upper) room'
move_half_to-Holds xs ys n other room room' h o =
    let lower = take (length xs / 2) xs in
    let upper = drop (length xs / 2) xs in
    let n_lower : length lower ≡ length xs / 2 = omega (arith, length-take (length xs / 2) xs) in
    let n_upper : length upper ≡ length xs - length xs / 2 = length-drop (length xs / 2) xs in
    let h' : Holds n (lower ++ upper) room = rw (take-append-drop (length xs / 2) xs) h in
    let o' : Holds other ys (length upper + room') = rw n_upper o in
    (
      recover_remove_items (length lower) (length upper) n,
      recover_insert_items other.key_num upper other,
      split_lem lower upper ys n other room room' h' o' (omega (arith, h.counted, n_lower))
          (omega (arith, h.counted, n_upper)),
      cut-Holds lower upper n room h',
      appended-Holds ys upper other room' o',
    )

-- The first item of a node, moved with the log taking each record, stands behind the items of the
-- other node.
pub move_first_to_end-Holds :
    (x : Item) (xs ys : List Item) (n other : LeafNode) (room room' : ℕ)
    → Holds n (x ∷ xs) room
    → Holds other ys (suc room')
    → (n' : LeafNode) × (other' : LeafNode) × (move_first_to_end Rc.success Rc.success n other
        ≡ some (Rc.success, n', other'))
      × Holds n' xs (suc room)
      × Holds other' (ys ++ x ∷ []) room'
unfolding move_first_to_end append_items remove_item
move_first_to_end-Holds x xs ys n other room room' h o =
    let o' : Holds other ys (length (x ∷ []) + room') = subst (Holds other ys) (omega arith) o in
    let some_item : ltb 0 n.key_num ≡ true = ground (arith, h.counted) in
    let first : items_at n.array 0 1 ≡ x ∷ [] = items_at-Holds [] (x ∷ []) xs n room h in
    (
      recover_remove_items 0 1 n,
      recover_insert_items other.key_num (x ∷ []) other,
      rw (some_item, first, move_first_to_end) refl,
      subst (Holds (recover_remove_items 0 1 n) xs) (omega arith)
          (recover_remove_items-Holds [] (x ∷ []) xs n room h),
      appended-Holds ys (x ∷ []) other room' o',
    )

last_at :
    (xs : List Item) (x : Item) (rest : List Item) → get_or (xs ++ (x ∷ rest)) (length xs) blank ≡ x
last_at [] x rest = refl
last_at (y ∷ xs) x rest = last_at xs x rest

-- The last item of a node, moved with the log taking each record, stands before the items of the
-- other node.
pub move_last_to_front-Holds :
    (x : Item) (xs ys : List Item) (n other : LeafNode) (room room' : ℕ)
    → Holds n (xs ++ x ∷ []) room
    → Holds other ys (suc room')
    → (n' : LeafNode) × (other' : LeafNode) × (move_last_to_front Rc.success Rc.success n other
        ≡ some (Rc.success, n', other'))
      × Holds n' xs (suc room)
      × Holds other' (x ∷ ys) room'
unfolding move_last_to_front insert_item remove_item
move_last_to_front-Holds x xs ys n other room room' h o =
    let o' : Holds other ys (length (x ∷ []) + room') = subst (Holds other ys) (omega arith) o in
    let count : n.key_num ≡ suc (length xs) =
      h.counted ∙ omega (arith, length-append xs (x ∷ [])) in
    let place : n.key_num - 1 ≡ length xs = omega arith in
    let some_item : ltb 0 n.key_num ≡ true = ground arith in
    let inside : ltb (length xs) n.key_num ≡ true = ground arith in
    let last : get_or n.array (length xs) blank ≡ x =
      rw (h.stored, append_assoc xs (x ∷ []) h.rest) (last_at xs x h.rest) in
    (
      recover_remove_items (length xs) 1 n,
      recover_insert_items 0 (x ∷ []) other,
      rw (some_item, place, inside, place, last) refl,
      subst (Holds (recover_remove_items (length xs) 1 n) xs) (omega arith)
          (cut-Holds xs (x ∷ []) n room h),
      recover_insert_items-Holds [] ys (x ∷ []) other room' o',
    )

-- A node all of whose items are moved, with the log taking each record, is empty; the items stand in
-- the same order behind those of the other node, which now leads to the same next page.
pub move_to-Holds :
    (xs ys : List Item) (n other : LeafNode) (room room' : ℕ)
    → Holds n xs room
    → Holds other ys (length xs + room')
    → (n' : LeafNode) × (other' : LeafNode) × (move_to Rc.success Rc.success n other
        ≡ (Rc.success, n', other'))
      × Holds n' [] (length xs + room)
      × Holds other' (ys ++ xs) room'
      × (other'.next_brother ≡ n.next_brother)
unfolding move_to append_items
move_to-Holds xs ys n other room room' h o =
    let h' : Holds n ([] ++ (xs ++ [])) room = rw (append-nil xs) h in
    let all : items_at n.array 0 n.key_num ≡ xs =
      ap (λ k. items_at n.array 0 k) h.counted ∙ items_at-Holds [] xs [] n room h' in
    let moved = recover_insert_items other.key_num xs other in
    let q = appended-Holds ys xs other room' o in
    (
      record n { key_num = 0 },
      record moved { next_brother = n.next_brother },
      ap
          (λ items. (
            Rc.success,
            record n { key_num = 0 },
            record (recover_insert_items other.key_num items other) {
              next_brother = n.next_brother;
            },
          ))
          all,
      record {
        rest = xs ++ h.rest;
        stored = h.stored;
        counted = refl;
        spare = omega (arith, length-append xs h.rest, h.spare);
      },
      record { rest = q.rest; stored = q.stored; counted = q.counted; spare = q.spare },
      refl,
    )
