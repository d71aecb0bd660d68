-- ===== src/Index/Children/Parents.antt =====
-- The children that an inner node takes have it as their parent.
use ob_htap.Prelude.{
  ℕ, ◌≡◌, ◌≢◌, refl, ap, sym, ◌∙◌, List, [], ◌∷◌, true, false, Option, none, some, if◌then◌else◌,
  ◌==◌, arith, Bool-cases, Option-cases, inl, inr, All,
}
use ob_htap.Rc.{Rc, ob_succ}
use ob_htap.Clog.Entry.{signed32}
use ob_htap.Index.Node.{Item, recover_insert_items}
use ob_htap.Index.Internal.{InternalNode}
use ob_htap.Index.Redo.{
  Tree, TreePage, other_page, header_page, leaf, internal, with_page, on_internal,
  set_parent_page_num,
}
use ob_htap.Index.Children.{on_page, child_of, set_parents, insert_items}

-- A page with a node whose parent is the page given.
abbrev pub IsUnder : ℕ → TreePage → Type 0
IsUnder this (leaf n) = n.parent ≡ signed32 this
IsUnder this (internal n) = n.parent ≡ signed32 this
IsUnder this other_page = ⊥
IsUnder this (header_page header) = ⊥

abbrev pub AreUnder : ℕ → List Item → Tree → Type 0
AreUnder this items t = All (λ x. IsUnder this (t.pages (child_of x))) items

set_parent_page_num-IsUnder :
    (this : ℕ) (p : TreePage) {p' : TreePage}
    → set_parent_page_num this p ≡ some p'
    → IsUnder this p'
unfolding set_parent_page_num
set_parent_page_num-IsUnder this (leaf n) {p'} h =
    let e : p' ≡ leaf (record n { parent = signed32 this }) = ground arith in rw (e) refl
set_parent_page_num-IsUnder this (internal n) {p'} h =
    let e : p' ≡ internal (record n { parent = signed32 this }) = ground arith in rw (e) refl
set_parent_page_num-IsUnder this other_page h = absurd (ground arith)
set_parent_page_num-IsUnder this (header_page header) h = absurd (ground arith)

pub same_page : (q : ℕ) → (q == q) ≡ true
same_page q = ground arith

-- A child that is there stays one.
with_page-IsUnder :
    (this q c : ℕ) (p : TreePage) (t : Tree)
    → IsUnder this p
    → IsUnder this (t.pages q)
    → IsUnder this ((with_page c p t).pages q)
with_page-IsUnder this q c p t u h = elim (Bool-cases (c == q)) [
  | inl y ↦ rw (y) u
  | inr n ↦ rw (n) h
]

result : Tree → Option (Rc × Tree) → Tree
result t none = t
result t (some (rc, t')) = t'

unfoldable pub some_tree : Tree → Option (Rc × Tree)
some_tree t = some (Rc.success, t)

pub same_result : {t t' : Tree} → some_tree t ≡ some_tree t' → t' ≡ t
unfolding result some_tree
same_result {t} e = sym (ap (result t) e)

-- One round of the loop, for a child that can be had.
set_parents_round :
    (get_page : ℕ → Rc) (this : ℕ) (x : Item) (xs : List Item) (t : Tree) {t' : Tree}
    → set_parents get_page this (x ∷ xs) t ≡ some (Rc.success, t')
    → (p : TreePage) × IsUnder this p
      × (set_parents get_page this xs (with_page (child_of x) p t) ≡ some (Rc.success, t'))
unfolding set_parents
set_parents_round get_page this x xs t {t'} h =
    elim (Bool-cases (ob_succ (get_page (child_of x)))) [
      | inr n ↦ absurd (ground arith)
      | inl y ↦ elim (Option-cases (set_parent_page_num this (t.pages (child_of x)))) [
        | inl n ↦ absurd (ground arith)
        | inr (p, e) ↦
            let step : set_parents get_page this (x ∷ xs) t
                ≡ set_parents get_page this xs (with_page (child_of x) p t) =
              rw (set_parents, y, e) refl in
            (p, set_parent_page_num-IsUnder this (t.pages (child_of x)) e, sym step ∙ h)
      ]
    ]

set_parents_keeps :
    (get_page : ℕ → Rc) (this : ℕ) (items : List Item) (t : Tree) {t' : Tree} (q : ℕ)
    → IsUnder this (t.pages q)
    → set_parents get_page this items t ≡ some (Rc.success, t')
    → IsUnder this (t'.pages q)
unfolding set_parents some_tree
set_parents_keeps get_page this [] t {t'} q u h = let e : t' ≡ t = same_result h in rw (e) u
set_parents_keeps get_page this (x ∷ xs) t q u h =
    let (p, v, r) = set_parents_round get_page this x xs t h in
    set_parents_keeps get_page this xs (with_page (child_of x) p t) q
      (with_page-IsUnder this q (child_of x) p t v u) r

set_parents-AreUnder :
    (get_page : ℕ → Rc) (this : ℕ) (items : List Item) (t : Tree) {t' : Tree}
    → set_parents get_page this items t ≡ some (Rc.success, t')
    → AreUnder this items t'
set_parents-AreUnder get_page this [] t h = tt
set_parents-AreUnder get_page this (x ∷ xs) t h =
    let (p, v, r) = set_parents_round get_page this x xs t h in
    (
      set_parents_keeps get_page this xs (with_page (child_of x) p t) (child_of x)
          (rw (same_page (child_of x)) v) r,
      set_parents-AreUnder get_page this xs (with_page (child_of x) p t) r,
    )

-- A page that is no child stays as it is.
set_parents_others :
    (get_page : ℕ → Rc) (this : ℕ) (items : List Item) (t : Tree) {t' : Tree} (q : ℕ)
    → All (λ x. child_of x ≢ q) items
    → set_parents get_page this items t ≡ some (Rc.success, t')
    → t'.pages q ≡ t.pages q
unfolding set_parents some_tree
set_parents_others get_page this [] t {t'} q d h =
    let e : t' ≡ t = same_result h in ap (λ u. u.pages q) e
set_parents_others get_page this (x ∷ xs) t q (n, d) h =
    let (p, v, r) = set_parents_round get_page this x xs t h in
    let other : (child_of x == q) ≡ false = ground (arith, n) in
    set_parents_others get_page this xs (with_page (child_of x) p t) q d r ∙ rw (other) refl

pub on_page-internal :
    (this : ℕ) (next : InternalNode → Option (Rc × Tree)) (n : InternalNode) (t : Tree)
    → t.pages this ≡ internal n
    → on_page this next t ≡ next n
on_page-internal this next n t a =
    ap
      (λ p. elim p as (λ x. Option (Rc × Tree)) [
        | internal m ↦ next m
        | leaf m ↦ none
        | other_page ↦ none
        | header_page header ↦ none
      ])
      a

-- Where items are inserted into an inner node and that succeeds, the node has the items, every child
-- among them has the node as its parent, and the pages that are neither the node nor such a child are as
-- they were.
pub insert_items-AreUnder :
    (get_page : ℕ → Rc) (log_rc : Rc) (this index : ℕ) (items : List Item) (n : InternalNode)
    (t : Tree) {t' : Tree}
    → t.pages this ≡ internal n
    → All (λ x. child_of x ≢ this) items
    → insert_items get_page log_rc this index items t ≡ some (Rc.success, t')
    → AreUnder this items t'
      × (t'.pages this ≡ internal (on_internal (recover_insert_items index items) n))
      × ((q : ℕ) → q ≢ this → All (λ x. child_of x ≢ q) items → t'.pages q ≡ t.pages q)
unfolding insert_items
insert_items-AreUnder get_page log_rc this index items n t {t'} a d h =
    let page = internal (on_internal (recover_insert_items index items) n) in
    let t₁ = with_page this page t in
    let next : InternalNode → Option (Rc × Tree) = λ m.
      if ob_succ log_rc
      then set_parents get_page this items
          (with_page this (internal (on_internal (recover_insert_items index items) m)) t)
      else some (log_rc, t) in
    let first : insert_items get_page log_rc this index items t ≡ next n =
      on_page-internal this next n t a in
    elim (Bool-cases (ob_succ log_rc)) [
      | inr f ↦
          let left : Option (Rc × Tree) = some (log_rc, t) in
          let refused : next n ≡ left = rw (f) refl in
          let same : left ≡ some (Rc.success, t') = sym refused ∙ sym first ∙ h in
          absurd (ground arith)
      | inl y ↦
          let accepted : next n ≡ set_parents get_page this items t₁ = rw (y) refl in
          let r = sym accepted ∙ sym first ∙ h in
          (
            set_parents-AreUnder get_page this items t₁ r,
            set_parents_others get_page this items t₁ this d r ∙ rw (same_page this) refl,
            λ q ne e.
                let other : (this == q) ≡ false = ground (arith, ne) in
                set_parents_others get_page this items t₁ q e r ∙ rw (other) refl,
          )
    ]
