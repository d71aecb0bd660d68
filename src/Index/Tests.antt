-- ===== src/Index/Tests.antt =====
-- Nodes at work on concrete items.
use ob_htap.Prelude.{ℕ, ◌≡◌, refl, List, [], ◌∷◌, ◌++◌, length}
use ob_htap.Prelude.Int.{negsuc}
use ob_htap.Rc.{Rc}
use ob_htap.Index.Node.{Item, LeafNode, blank, move_half_to}
use ob_htap.Index.Node.Items.{Holds}
use ob_htap.Index.Node.Leaf.{move_half_to-Holds}

abbrev item : ℕ → Item
item k = record { key = k ∷ []; value = [] }

abbrev node : List Item → LeafNode
node xs = record {
  parent = negsuc 0;
  next_brother = negsuc 0;
  key_num = length xs;
  array = xs ++ (blank ∷ blank ∷ blank ∷ []);
}

node-Holds : (xs : List Item) → Holds (node xs) xs 3
node-Holds xs = record {
  rest = blank ∷ blank ∷ blank ∷ [];
  stored = refl;
  counted = refl;
  spare = refl;
}

abbrev two : List Item
two = item 3 ∷ item 7 ∷ []

move_half_to-Holds_example :
    (n' : LeafNode) × (other' : LeafNode) × (move_half_to Rc.success Rc.success
        (node two)
        (node (item 1 ∷ []))
      ≡ (Rc.success, n', other'))
    × Holds n' (item 3 ∷ []) 4
    × Holds other' (item 1 ∷ item 7 ∷ []) 2
move_half_to-Holds_example =
    move_half_to-Holds two (item 1 ∷ []) (node two) (node (item 1 ∷ [])) 3 2 (node-Holds two)
      (node-Holds (item 1 ∷ []))
