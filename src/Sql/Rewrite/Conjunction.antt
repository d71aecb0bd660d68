-- ===== src/Sql/Rewrite/Conjunction.antt =====
-- The conjunction rule keeps the truth of a conjunction where no constant decides it, and what it does
-- where one does.
use ob_htap.Prelude.{
  ◌≡◌, refl, sym, ap, ◌∙◌, Bool, true, false, not, ◌&&◌, ◌||◌, Option, none, some, Bool-cases, inl,
  inr, arith, Option-cases,
}
use ob_htap.Sql.Expr.{
  Value, Expr, Exprs, Kind, Row, Outcome, ok, fail, value, conjunction, nil, cons, and, or,
  booleans, get_value, get_children, get_boolean, child_or, decides, default_value, truth,
}
use ob_htap.Sql.Rewrite.{
  Scanned, replaced, kept, keep, front, scan, bool_constant, rebuilt, rewrite_conjunction,
}

-- No child is a constant that decides.
unfoldable pub undecided : Kind → Exprs → Bool
undecided kind nil = true
undecided kind (cons e es) = elim (bool_constant e) [
  | none ↦ undecided kind es
  | some b ↦ not (decides kind b) && undecided kind es
]

-- Some child is no constant.
unfoldable pub some_left : Exprs → Bool
some_left nil = false
some_left (cons e es) = elim (bool_constant e) [ none ↦ true | some b ↦ some_left es ]

constant-value : (e : Expr) {b : Bool} → bool_constant e ≡ some b → e ≡ value (booleans b)
constant-value (value (booleans c)) {b} h = let s : c ≡ b = ground arith in rw s refl
constant-value _ h = absurd (ground arith)

module _ (row : Row) (kind : Kind) where
  -- A constant that does not decide is passed over.
  get_children-constant :
      (e : Expr) {b : Bool} (es : Exprs)
      → bool_constant e ≡ some b
      → decides kind b ≡ false
      → get_children row kind (cons e es) ≡ get_children row kind es
  unfolding get_value get_boolean child_or
  get_children-constant e {b} es c d = rw (constant-value e c) (rw d refl)

  -- One that decides gives the value, where the loop reaches it.
  get_children-decided :
      (e : Expr) {b : Bool} (es : Exprs)
      → bool_constant e ≡ some b
      → decides kind b ≡ true
      → get_children row kind (cons e es) ≡ ok (booleans b)
  unfolding get_value get_boolean child_or
  get_children-decided e {b} es c d = rw (constant-value e c) (rw d refl)

  get_children-cons :
      (e : Expr) (es es' : Exprs)
      → get_children row kind es' ≡ get_children row kind es
      → get_children row kind (cons e es') ≡ get_children row kind (cons e es)
  unfolding get_value
  get_children-cons e es es' h = ap (child_or row kind (get_value row e)) h

  -- What the loop keeps has the value of what it was given.
  abbrev Keeps : Exprs → Scanned → Type 0
  Keeps es (replaced x) = Unit
  Keeps es (kept es') = get_children row kind es' ≡ get_children row kind es

  keep-Keeps : (e : Expr) (es : Exprs) (s : Scanned) → Keeps es s → Keeps (cons e es) (keep e s)
  keep-Keeps e es (replaced x) k = tt
  keep-Keeps e es (kept es') k = get_children-cons e es es' k

  shift-Keeps :
      (es es' : Exprs) (s : Scanned)
      → get_children row kind es' ≡ get_children row kind es
      → Keeps es s
      → Keeps es' s
  shift-Keeps es es' (replaced x) h k = tt
  shift-Keeps es es' (kept es'') h k = k ∙ sym h

  scan-Keeps : (first : Option Expr) (es : Exprs) → Keeps es (scan kind first es)
  unfolding scan
  scan-Keeps first nil = refl
  scan-Keeps first (cons e es) = elim (Option-cases (bool_constant e)) [
    | inl n ↦ rw (scan, n) (keep-Keeps e es _ (scan-Keeps (some (front first e)) es))
    | inr (b, c) ↦ elim (Bool-cases (decides kind b)) [
      | inl y ↦ rw (scan, c, y) tt
      | inr n ↦
          rw (scan, c, n)
            (shift-Keeps es (cons e es) (scan kind first es) (get_children-constant e es c n)
              (scan-Keeps first es))
    ]
  ]

  -- The loop keeps the children that are no constants, unless one decides.
  abbrev KeptAll : Exprs → Scanned → Type 0
  KeptAll es (replaced x) = undecided kind es ≡ false
  KeptAll es (kept nil) = some_left es ≡ false
  KeptAll es (kept (cons e es')) = some_left es ≡ true

  scan-KeptAll : (first : Option Expr) (es : Exprs) → KeptAll es (scan kind first es)
  unfolding scan undecided some_left
  scan-KeptAll first nil = refl
  scan-KeptAll first (cons e es) = elim (Option-cases (bool_constant e)) [
    | inl n ↦ rw (scan, n) (with_child e es _ n (scan-KeptAll (some (front first e)) es))
    | inr (b, c) ↦ elim (Bool-cases (decides kind b)) [
      | inl y ↦ rw (scan, c, y) (rw (undecided, c, y) refl)
      | inr d ↦ rw (scan, c, d) (passed e es _ c d (scan-KeptAll first es))
    ]
  ]
    where
      with_child :
          (e : Expr) (es : Exprs) (s : Scanned)
          → bool_constant e ≡ none
          → KeptAll es s
          → KeptAll (cons e es) (keep e s)
      with_child e es (replaced x) n k = rw (undecided, n) k
      with_child e es (kept es') n k = rw (some_left, n) refl

      passed :
          (e : Expr) (es : Exprs) (s : Scanned) {b : Bool}
          → bool_constant e ≡ some b
          → decides kind b ≡ false
          → KeptAll es s
          → KeptAll (cons e es) s
      passed e es (replaced x) c d k = rw (undecided, c, d) k
      passed e es (kept nil) c d k = rw (some_left, c) k
      passed e es (kept (cons x es')) c d k = rw (some_left, c) k

  single-truth :
      (o : Outcome Value)
      → truth row (child_or row kind o (ok (booleans (default_value kind)))) ≡ truth row o
  unfolding child_or get_boolean
  single-truth (fail rc) = refl
  single-truth (ok v) = elim (Bool-cases (decides kind (get_boolean row v))) [
    | inl y ↦ rw y refl
    | inr n ↦ rw n (ap ok (sym (undecided_default kind (get_boolean row v) n)))
  ]
    where
      undecided_default : (kind : Kind) (b : Bool) → decides kind b ≡ false → b ≡ default_value kind
      undecided_default and true h = refl
      undecided_default and false h = absurd (ground arith)
      undecided_default or true h = absurd (ground arith)
      undecided_default or false h = refl

  -- The test for a conjunction without children agrees with the loop, but for an OR.
  whole-children :
      (es : Exprs)
      → default_value kind || some_left es ≡ true
      → get_value row (conjunction kind es) ≡ get_children row kind es
  unfolding get_value some_left
  whole-children nil h = ap (λ b. ok (booleans b)) (sym (only_and kind h))
    where
      only_and : (kind : Kind) → default_value kind || false ≡ true → default_value kind ≡ true
      only_and kind h = ground arith
  whole-children (cons e es) h = refl

  rebuilt-truth :
      (es : Exprs) (s : Scanned)
      → undecided kind es ≡ true
      → default_value kind || some_left es ≡ true
      → Keeps es s
      → KeptAll es s
      → truth row (get_value row (rebuilt kind s).0)
        ≡ truth row (get_value row (conjunction kind es))
  unfolding get_value
  rebuilt-truth es (replaced x) u w k a = absurd (ground arith)
  rebuilt-truth es (kept nil) u w k a =
      let d : default_value kind ≡ true = ground arith in
      ap (truth row) (ap (λ b. ok (booleans b)) (sym d) ∙ k ∙ sym (whole-children es w))
  rebuilt-truth es (kept (cons e nil)) u w k a =
      sym (single-truth (get_value row e)) ∙ ap (truth row) (k ∙ sym (whole-children es w))
  rebuilt-truth es (kept (cons e (cons e' es'))) u w k a =
      ap (truth row) (k ∙ sym (whole-children es w))

-- Where no child of a conjunction is a constant that decides it, and the conjunction is an AND or has a
-- child that is no constant, the conjunction rule keeps its truth on every row, errors included.
pub rewrite_conjunction-truth :
    (row : Row) (kind : Kind) (es : Exprs)
    → undecided kind es ≡ true
    → default_value kind || some_left es ≡ true
    → truth row (get_value row (rewrite_conjunction (conjunction kind es)).0)
      ≡ truth row (get_value row (conjunction kind es))
unfolding rewrite_conjunction
rewrite_conjunction-truth row kind es u w =
    rebuilt-truth row kind es (scan kind none es) u w (scan-Keeps row kind none es)
      (scan-KeptAll row kind none es)

-- Where a constant decides a conjunction and stands after a first child that is none, the rule gives the
-- first child, not the constant: on a row on which the first child does not decide, the conjunction is
-- the constant, and what the rule gives is the opposite.
pub rewrite_conjunction_decided :
    (row : Row) (kind : Kind) (e : Expr) (b : Bool) (es : Exprs) (v : Value)
    → bool_constant e ≡ none
    → decides kind b ≡ true
    → get_value row e ≡ ok v
    → decides kind (get_boolean row v) ≡ false
    → (truth row (get_value row (conjunction kind (cons e (cons (value (booleans b)) es)))) ≡ ok b)
      × (truth row (
            get_value row
              (rewrite_conjunction (conjunction kind (cons e (cons (value (booleans b)) es)))).0)
          ≡ ok (not b))
unfolding rewrite_conjunction scan get_value child_or get_boolean
rewrite_conjunction_decided row kind e b es v n d h k = (
  rw (h, k, d) refl,
  rw (rewrite_conjunction, scan, n, d, h) (ap ok (other_one kind b (get_boolean row v) d k)),
)
  where
    other_one :
        (kind : Kind) (b c : Bool) → decides kind b ≡ true → decides kind c ≡ false → c ≡ not b
    other_one and true c d k = absurd (ground arith)
    other_one and false c d k = ground arith
    other_one or true c d k = ground arith
    other_one or false c d k = absurd (ground arith)

-- An OR whose children are constants that are false is false; the rule erases them all, and what it leaves
-- is true on every row.
pub rewrite_conjunction_erased :
    (row : Row) (e : Expr) (es : Exprs)
    → undecided or (cons e es) ≡ true
    → some_left (cons e es) ≡ false
    → (truth row (get_value row (conjunction or (cons e es))) ≡ ok false)
      × (truth row (get_value row (rewrite_conjunction (conjunction or (cons e es))).0) ≡ ok true)
unfolding rewrite_conjunction get_value get_boolean
rewrite_conjunction_erased row e es u l =
    erased (scan or none (cons e es)) (scan-Keeps row or none (cons e es))
      (scan-KeptAll row or none (cons e es))
  where
    erased :
        (s : Scanned)
        → Keeps row or (cons e es) s
        → KeptAll row or (cons e es) s
        → (truth row (get_value row (conjunction or (cons e es))) ≡ ok false)
          × (truth row (get_value row (rebuilt or s).0) ≡ ok true)
    erased (replaced x) k a = absurd (ground arith)
    erased (kept nil) k a = (ap (truth row) (sym k), refl)
    erased (kept (cons x es')) k a = absurd (ground arith)
