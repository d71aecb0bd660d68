-- ===== src/Index/Node/Items.antt =====
-- Inserting and removing items in the array of a node.
use ob_htap.Prelude.{
  ℕ, suc, ◌+◌, ◌-◌, ◌≡◌, refl, ap, sym, ◌∙◌, List, [], ◌∷◌, ◌++◌, true, false, if◌then◌else◌, ltb,
  arith, length, take, drop, set, length-append, append_assoc, length-take, length-drop,
  take-append-drop,
}
use ob_htap.Index.Node.{
  Item, LeafNode, copy_to, items_at, recover_insert_items, recover_remove_items,
}

copy_behind :
    (a : Item) (array : List Item) (index : ℕ) (xs : List Item)
    → copy_to (a ∷ array) (suc index) xs ≡ a ∷ copy_to array index xs
unfolding copy_to
copy_behind a array index [] = refl
copy_behind a array index (x ∷ xs) = copy_behind a (set array index x) (suc index) xs

-- Copying over as many items.
copy_over :
    (pre old rest xs : List Item)
    → length old ≡ length xs
    → copy_to (pre ++ (old ++ rest)) (length pre) xs ≡ pre ++ (xs ++ rest)
unfolding copy_to
copy_over [] [] rest [] h = refl
copy_over [] [] rest (x ∷ xs) h = absurd (omega arith)
copy_over [] (o ∷ old) rest [] h = absurd (omega arith)
copy_over [] (o ∷ old) rest (x ∷ xs) h =
    copy_behind x (old ++ rest) 0 xs ∙ ap (◌∷◌ x) (copy_over [] old rest xs (omega arith))
copy_over (p ∷ pre) old rest xs h =
    copy_behind p (pre ++ (old ++ rest)) (length pre) xs ∙ ap (◌∷◌ p) (copy_over pre old rest xs h)

pub items_at_middle :
    (pre xs rest : List Item) → items_at (pre ++ (xs ++ rest)) (length pre) (length xs) ≡ xs
items_at_middle [] [] rest = refl
items_at_middle [] (x ∷ xs) rest = ap (◌∷◌ x) (items_at_middle [] xs rest)
items_at_middle (p ∷ pre) xs rest = items_at_middle pre xs rest

-- The items of a node, and how many more it has room for.
pub record Holds (n : LeafNode) (xs : List Item) (room : ℕ) : Type 0 where
  pub rest : List Item
  pub stored : n.array ≡ xs ++ rest
  pub counted : n.key_num ≡ length xs
  pub spare : length rest ≡ room

-- Making a gap of the size of `items` behind `pre`, and filling it.
insert_array :
    (pre post gap rest items : List Item)
    → length gap ≡ length items
    → copy_to
        (copy_to (pre ++ (post ++ (gap ++ rest))) (length pre + length items) post)
        (length pre)
        items
      ≡ pre ++ (items ++ (post ++ rest))
insert_array pre post gap rest items h =
    let body = post ++ gap in
    let before = take (length items) body in
    let behind = drop (length items) body in
    let len = length-append post gap in
    let n_before : length before ≡ length items =
      omega (arith, length-take (length items) body, len) in
    let n_behind : length behind ≡ length post =
      omega (arith, length-drop (length items) body, len) in
    let shape : pre ++ (post ++ (gap ++ rest)) ≡ (pre ++ before) ++ (behind ++ rest) =
      ap (◌++◌ pre) (
        sym (append_assoc post gap rest)
        ∙ ap (λ b. b ++ rest) (sym (take-append-drop (length items) body))
        ∙ append_assoc before behind rest)
      ∙ sym (append_assoc pre before (behind ++ rest)) in
    let at : length pre + length items ≡ length (pre ++ before) =
      omega (arith, length-append pre before, n_before) in
    let moved : copy_to (pre ++ (post ++ (gap ++ rest))) (length pre + length items) post
        ≡ pre ++ (before ++ (post ++ rest)) =
      ap (λ a. copy_to a (length pre + length items) post) shape
      ∙ ap (λ i. copy_to ((pre ++ before) ++ (behind ++ rest)) i post) at
      ∙ copy_over (pre ++ before) behind rest post n_behind
      ∙ append_assoc pre before (post ++ rest) in
    ap (λ a. copy_to a (length pre) items) moved
    ∙ copy_over pre before (post ++ rest) items n_before

-- Closing the gap that `gone` leaves.
remove_array :
    (pre gone post rest : List Item)
    → (left : List Item) × (copy_to (pre ++ (gone ++ (post ++ rest))) (length pre) post
        ≡ pre ++ (post ++ (left ++ rest)))
      × (length left ≡ length gone)
remove_array pre gone post rest =
    let body = gone ++ post in
    let before = take (length post) body in
    let behind = drop (length post) body in
    let len = length-append gone post in
    let n_before : length before ≡ length post =
      omega (arith, length-take (length post) body, len) in
    let n_behind : length behind ≡ length gone =
      omega (arith, length-drop (length post) body, len) in
    let shape : pre ++ (gone ++ (post ++ rest)) ≡ pre ++ (before ++ (behind ++ rest)) =
      ap (◌++◌ pre) (
        sym (append_assoc gone post rest)
        ∙ ap (λ b. b ++ rest) (sym (take-append-drop (length post) body))
        ∙ append_assoc before behind rest) in
    (
      behind,
      ap (λ a. copy_to a (length pre) post) shape
          ∙ copy_over pre before (behind ++ rest) post n_before,
      n_behind,
    )

-- Items that are inserted stand behind those before the place, and before all the others.
pub recover_insert_items-Holds :
    (pre post items : List Item) (n : LeafNode) (room : ℕ)
    → Holds n (pre ++ post) (length items + room)
    → Holds (recover_insert_items (length pre) items n) (pre ++ (items ++ post)) room
unfolding recover_insert_items copy_to
recover_insert_items-Holds pre post items n room h =
    let gap = take (length items) h.rest in
    let rest = drop (length items) h.rest in
    let n_gap : length gap ≡ length items =
      omega (arith, length-take (length items) h.rest, h.spare) in
    let array : n.array ≡ pre ++ (post ++ (gap ++ rest)) =
      h.stored
      ∙ append_assoc pre post h.rest
      ∙ ap (λ r. pre ++ (post ++ r)) (sym (take-append-drop (length items) h.rest)) in
    let some_post : n.key_num ≡ length pre + length post = h.counted ∙ length-append pre post in
    record {
      rest = rest;
      stored =
          ap (λ a. copy_to a (length pre) items)
            (moved_lem pre post gap rest items n array some_post)
          ∙ insert_array pre post gap rest items n_gap
          ∙ ap (◌++◌ pre) (sym (append_assoc items post rest))
          ∙ sym (append_assoc pre (items ++ post) rest);
      counted =
          omega (arith, some_post, length-append pre (items ++ post), length-append items post);
      spare = omega (arith, length-drop (length items) h.rest, h.spare);
    }
  where
    moved_lem :
        (pre post gap rest items : List Item) (n : LeafNode)
        → n.array ≡ pre ++ (post ++ (gap ++ rest))
        → n.key_num ≡ length pre + length post
        → (if ltb (length pre) n.key_num
            then copy_to n.array
                (length pre + length items)
                (items_at n.array (length pre) (n.key_num - length pre))
            else n.array)
          ≡ copy_to (pre ++ (post ++ (gap ++ rest))) (length pre + length items) post
    moved_lem pre [] gap rest items n a k =
        let z : ltb (length pre) n.key_num ≡ false = ground arith in rw z a
    moved_lem pre (p ∷ post) gap rest items n a k =
        let z : ltb (length pre) n.key_num ≡ true = ground arith in
        let c : n.key_num - length pre ≡ length (p ∷ post) = omega arith in
        rw (z, a, c, items_at_middle pre (p ∷ post) (gap ++ rest)) refl

-- Items that are removed are those behind the ones before the place; the others keep their order.
pub recover_remove_items-Holds :
    (pre gone post : List Item) (n : LeafNode) (room : ℕ)
    → Holds n (pre ++ (gone ++ post)) room
    → Holds (recover_remove_items (length pre) (length gone) n) (pre ++ post) (length gone + room)
unfolding recover_remove_items copy_to
recover_remove_items-Holds pre gone post n room h =
    let (left, closed, n_left) = remove_array pre gone post h.rest in
    let array : n.array ≡ pre ++ (gone ++ (post ++ h.rest)) =
      h.stored
      ∙ append_assoc pre (gone ++ post) h.rest
      ∙ ap (◌++◌ pre) (append_assoc gone post h.rest) in
    let count : n.key_num ≡ length pre + (length gone + length post) =
      h.counted ∙ omega (arith, length-append pre (gone ++ post), length-append gone post) in
    record {
      rest = left ++ h.rest;
      stored =
          moved_lem pre gone post h.rest n array count
          ∙ closed
          ∙ sym (append_assoc pre post (left ++ h.rest));
      counted = omega (arith, count, length-append pre post);
      spare = omega (arith, length-append left h.rest, n_left, h.spare);
    }
  where
    moved_lem :
        (pre gone post rest : List Item) (n : LeafNode)
        → n.array ≡ pre ++ (gone ++ (post ++ rest))
        → n.key_num ≡ length pre + (length gone + length post)
        → (if ltb (length pre) (n.key_num - length gone)
            then copy_to n.array
                (length pre)
                (items_at n.array (length pre + length gone) (n.key_num - length pre - length gone))
            else n.array)
          ≡ copy_to (pre ++ (gone ++ (post ++ rest))) (length pre) post
    moved_lem pre gone [] rest n a k =
        let z : ltb (length pre) (n.key_num - length gone) ≡ false = ground arith in rw z a
    moved_lem pre gone (p ∷ post) rest n a k =
        let z : ltb (length pre) (n.key_num - length gone) ≡ true = ground arith in
        let c : n.key_num - length pre - length gone ≡ length (p ∷ post) = omega arith in
        let at : length pre + length gone ≡ length (pre ++ gone) = sym (length-append pre gone) in
        rw
          (
            z,
            a,
            c,
            at,
            ← append_assoc pre gone ((p ∷ post) ++ rest),
            items_at_middle (pre ++ gone) (p ∷ post) rest,
          )
          refl
