-- ===== src/Index/Children/Split.antt =====
-- A split of an inner node.
use ob_htap.Prelude.{
  ℕ, ◌-◌, ◌/◌, ◌≡◌, ◌≢◌, refl, ap, sym, ◌∙◌, List, [], ◌∷◌, true, false, Option, none, some,
  if◌then◌else◌, ◌==◌, arith, Bool-cases, Option-cases, inl, inr, All,
}
use ob_htap.Rc.{Rc, ob_succ}
use ob_htap.Index.Node.{Item, items_at, recover_insert_items}
use ob_htap.Index.Internal.{InternalNode}
use ob_htap.Index.Redo.{Tree, TreePage, internal, with_page, on_internal}
use ob_htap.Index.Children.{child_of, insert_items, append_children, move_half, shrink}
use ob_htap.Index.Children.Parents.{
  AreUnder, insert_items-AreUnder, on_page-internal, same_page, some_tree, same_result,
}

with_page-AreUnder :
    (above this : ℕ) (items : List Item) (p : TreePage) (t : Tree)
    → All (λ x. child_of x ≢ this) items
    → AreUnder above items t
    → AreUnder above items (with_page this p t)
with_page-AreUnder above this [] p t d u = tt
with_page-AreUnder above this (x ∷ xs) p t (n, d) (u, us) =
    let other : (this == child_of x) ≡ false = ground (arith, n) in
    (rw (other) u, with_page-AreUnder above this xs p t d us)

ob_succ_lem : (rc : Rc) → ob_succ rc ≡ true → rc ≡ Rc.success
ob_succ_lem rc h = ground arith

move_half-after :
    (get_page : ℕ → Rc) (append_rc : Rc) (this other : ℕ) (n m : InternalNode) (t t' : Tree)
    → t.pages this ≡ internal n
    → t.pages other ≡ internal m
    → move_half get_page append_rc this other t ≡ some (Rc.success, t')
    → (t₁ : Tree) × (insert_items get_page append_rc other m.key_num
          (items_at n.array (n.key_num / 2) (n.key_num - n.key_num / 2))
          t
        ≡ some (Rc.success, t₁))
      × (shrink this (n.key_num / 2) t₁ ≡ some (Rc.success, t'))
unfolding move_half append_children
move_half-after get_page append_rc this other n m t t' a b h =
    let items = items_at n.array (n.key_num / 2) (n.key_num - n.key_num / 2) in
    let next : InternalNode → Option (Rc × Tree) = λ k.
      elim (append_children get_page append_rc other
        (items_at k.array (k.key_num / 2) (k.key_num - k.key_num / 2)) t) [
          | none ↦ none
          | some (rc, t₁) ↦
              let rest = shrink this (k.key_num / 2) t₁ in
              if ob_succ rc then rest else some (rc, t₁)
        ] in
    let first : move_half get_page append_rc this other t ≡ next n =
      on_page-internal this next n t a in
    let second : append_children get_page append_rc other items t
        ≡ insert_items get_page append_rc other m.key_num items t =
      on_page-internal other (λ k. insert_items get_page append_rc other k.key_num items t) m t b in
    elim (Option-cases (append_children get_page append_rc other items t)) [
      | inl e ↦
          let nothing : next n ≡ none = rw (e) refl in
          let same = sym nothing ∙ sym first ∙ h in absurd (ground arith)
      | inr ((rc, t₁), e) ↦ elim (Bool-cases (ob_succ rc)) [
        | inl y ↦
            let ok = ob_succ_lem rc y in
            let r : next n ≡ shrink this (n.key_num / 2) t₁ = rw (e, y) refl in
            (t₁, sym second ∙ e ∙ ap (λ c. some (c, t₁)) ok, sym r ∙ sym first ∙ h)
        | inr f ↦
            let left : Option (Rc × Tree) = some (rc, t₁) in
            let r : next n ≡ left = rw (e, f) refl in
            let same : left ≡ some (Rc.success, t') = sym r ∙ sym first ∙ h in absurd (ground arith)
      ]
    ]

-- A split of an inner node that succeeds, where the children that move are other pages than the two nodes:
-- the node keeps the lower half of its items, the other node has the upper half behind its own, every
-- child that has moved has the other node as its parent, and all other pages are as they were.
pub move_half-AreUnder :
    (get_page : ℕ → Rc) (append_rc : Rc) (this other : ℕ) (n m : InternalNode) (t t' : Tree)
    → this ≢ other
    → t.pages this ≡ internal n
    → t.pages other ≡ internal m
    → let moved = items_at n.array (n.key_num / 2) (n.key_num - n.key_num / 2) in
      All (λ x. child_of x ≢ this) moved
      → All (λ x. child_of x ≢ other) moved
      → move_half get_page append_rc this other t ≡ some (Rc.success, t')
      → (t'.pages this ≡ internal (record n { key_num = n.key_num / 2 }))
        × (t'.pages other ≡ internal (on_internal (recover_insert_items m.key_num moved) m))
        × AreUnder other moved t'
        × ((q : ℕ)
            → q ≢ this
            → q ≢ other
            → All (λ x. child_of x ≢ q) moved
            → t'.pages q ≡ t.pages q)
unfolding some_tree
move_half-AreUnder get_page append_rc this other n m t t' ne a b d₁ d₂ h =
    let moved = items_at n.array (n.key_num / 2) (n.key_num - n.key_num / 2) in
    let (t₁, inserted, shrunk) = move_half-after get_page append_rc this other n m t t' a b h in
    let (under, stored, same) =
      insert_items-AreUnder get_page append_rc other m.key_num moved m t b d₂ inserted in
    let still : t₁.pages this ≡ internal n = same this ne d₁ ∙ a in
    let next : InternalNode → Option (Rc × Tree) =
      λ k. some (Rc.success, with_page this (internal (record k { key_num = n.key_num / 2 })) t₁) in
    let half = internal (record n { key_num = n.key_num / 2 }) in
    let result : t' ≡ with_page this half t₁ =
      same_result (sym (on_page-internal this next n t₁ still) ∙ shrunk) in
    let off : (this == other) ≡ false = ground (arith, ne) in
    rw (result) (
      rw (same_page this) refl,
      rw (off) stored,
      with_page-AreUnder other this moved half t₁ d₁ under,
      λ q f g e. let away : (this == q) ≡ false = ground (arith, f) in rw (away) (same q g e),
    )
