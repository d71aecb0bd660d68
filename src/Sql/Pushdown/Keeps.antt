-- ===== src/Sql/Pushdown/Keeps.antt =====
-- Pushing predicates down to a scan keeps the rows that pass.
use ob_htap.Prelude.{
  ◌≡◌, refl, sym, ap, ◌∙◌, List, [], ◌∷◌, ◌++◌, Bool, true, false, ◌&&◌, ◌||◌, Option, none, some,
  Bool-cases, inl, inr, arith, All, All-append,
}
use ob_htap.Rc.{Rc, ob_succ}
use ob_htap.Sql.Expr.{
  Value, Expr, Exprs, Row, Outcome, ok, fail, comparison, conjunction, nil, cons, and, or,
  get_value, get_children, get_boolean, child_or, truth,
}
use ob_htap.Sql.Pushdown.{
  is_field, can_pushdown, without_moved, get_exprs_can_pushdown, push_children, true_if_empty,
  predicate, table_get, and_oper, no_opers, set_predicates, rewrite, filter, filter_and,
  let_through, passes,
}

-- The two tests on the sides of a comparison come to one: a side is a field. The second test refuses
-- nothing that the first has let through, whatever the other side is.
pub can_pushdown-is_field :
    (left right : Expr) → can_pushdown left right ≡ (is_field left || is_field right)
unfolding can_pushdown
can_pushdown-is_field left right = ground arith

-- Whether a row passes a predicate, the children of an AND taken one by one.
abbrev is_true : Row → Outcome Value → Bool
is_true row (ok v) = get_boolean row v
is_true row (fail rc) = false

unfoldable mutual
  holds : Row → Expr → Bool
  holds row (conjunction and es) = all_hold row es
  holds row e = is_true row (get_value row e)

  all_hold : Row → Exprs → Bool
  all_hold row nil = true
  all_hold row (cons e es) = holds row e && all_hold row es

-- A value, not an error.
abbrev IsOk : Outcome Value → Type 0
IsOk (ok v) = Unit
IsOk (fail rc) = ⊥

-- The predicate has a value on the row, and so have the children of an AND, one by one.
abbrev mutual
  pub Evaluates : Row → Expr → Type 0
  Evaluates row (conjunction and es) = AllEvaluate row es
  Evaluates row e = IsOk (get_value row e)

  pub AllEvaluate : Row → Exprs → Type 0
  AllEvaluate row nil = Unit
  AllEvaluate row (cons e es) = Evaluates row e × AllEvaluate row es

module _ (row : Row) where
  IsOk-truth : (o : Outcome Value) → IsOk o → truth row o ≡ ok (is_true row o)
  IsOk-truth (ok v) h = refl
  IsOk-truth (fail rc) h = absurd h

  child_or-truth :
      (o rest : Outcome Value) {b c : Bool}
      → truth row o ≡ ok b
      → truth row rest ≡ ok c
      → truth row (child_or row and o rest) ≡ ok (b && c)
  unfolding child_or get_boolean
  child_or-truth (fail rc) rest h k = absurd (ground arith)
  child_or-truth (ok v) rest {b} {c} h k =
      let e : get_boolean row v ≡ b = ground arith in
      elim (Bool-cases b) [ inl y ↦ rw (e, y) k | inr n ↦ rw (e, n) refl ]

  mutual
    unfolding holds get_value get_boolean

    holds-truth : (e : Expr) → Evaluates row e → truth row (get_value row e) ≡ ok (holds row e)
    holds-truth (conjunction and nil) h = refl
    holds-truth (conjunction and (cons e es)) h = all_hold-truth (cons e es) h
    holds-truth e h = IsOk-truth (get_value row e) h

    all_hold-truth :
        (es : Exprs)
        → AllEvaluate row es
        → truth row (get_children row and es) ≡ ok (all_hold row es)
    all_hold-truth nil h = refl
    all_hold-truth (cons e es) h =
        child_or-truth (get_value row e) (get_children row and es) (holds-truth e h.0)
          (all_hold-truth es h.1)

  abbrev list_holds : List Expr → Bool
  list_holds [] = true
  list_holds (e ∷ es) = holds row e && list_holds es

  list_holds-append : (ps qs : List Expr) → list_holds (ps ++ qs) ≡ (list_holds ps && list_holds qs)
  list_holds-append [] qs = refl
  list_holds-append (e ∷ ps) qs = ground (arith, list_holds-append ps qs)

  filter_and-truth :
      (o : Outcome Value) (rest : Outcome Bool) {b c : Bool}
      → truth row o ≡ ok b
      → rest ≡ ok c
      → filter_and row o rest ≡ ok (b && c)
  filter_and-truth (fail rc) rest h k = absurd (ground arith)
  filter_and-truth (ok v) rest {b} {c} h k =
      let e : get_boolean row v ≡ b = ground arith in
      elim (Bool-cases b) [ inl y ↦ rw (e, y) k | inr n ↦ rw (e, n) refl ]

  filter-list_holds : (ps : List Expr) → All (Evaluates row) ps → filter row ps ≡ ok (list_holds ps)
  unfolding filter
  filter-list_holds [] h = refl
  filter-list_holds (e ∷ ps) (h, hs) =
      filter_and-truth (get_value row e) (filter row ps) (holds-truth e h) (filter-list_holds ps hs)

  abbrev option_holds : Option Expr → Bool
  option_holds none = true
  option_holds (some e) = holds row e

  abbrev OptionEvaluates : Option Expr → Type 0
  OptionEvaluates none = Unit
  OptionEvaluates (some e) = Evaluates row e

  -- What is pushed and what is left hold together where what was given does.
  abbrev Split : Bool → List Expr → Rc × Option Expr × List Expr → Type 0
  Split whole ps (rc, e', ps') =
      ob_succ rc ≡ true
      → ((list_holds ps' && option_holds e') ≡ (list_holds ps && whole))
        × All (Evaluates row) ps'
        × OptionEvaluates e'

  abbrev SplitAll : Bool → List Expr → Rc × Exprs × List Expr → Type 0
  SplitAll whole ps (rc, es', ps') =
      ob_succ rc ≡ true
      → ((list_holds ps' && all_hold row es') ≡ (list_holds ps && whole))
        × All (Evaluates row) ps'
        × AllEvaluate row es'

  without_moved-holds :
      (e : Option Expr) (es : Exprs)
      → all_hold row (without_moved e es) ≡ (option_holds e && all_hold row es)
  unfolding holds
  without_moved-holds none es = refl
  without_moved-holds (some e) es = refl

  without_moved-Evaluate :
      (e : Option Expr) (es : Exprs)
      → OptionEvaluates e
      → AllEvaluate row es
      → AllEvaluate row (without_moved e es)
  without_moved-Evaluate none es h k = k
  without_moved-Evaluate (some e) es h k = (h, k)

  kept_whole :
      (e : Expr) (ps : List Expr)
      → All (Evaluates row) ps
      → Evaluates row e
      → Split (holds row e) ps (Rc.success, some e, ps)
  kept_whole e ps a h s = (refl, a, h)

  pushed_one :
      (ps : List Expr) (e : Expr)
      → list_holds (ps ++ e ∷ []) && true ≡ (list_holds ps && holds row e)
  pushed_one ps e = ground (arith, list_holds-append ps (e ∷ []))

  joined :
      (before between after child rest left whole e : Bool)
      → (between && child) ≡ (before && e)
      → (after && rest) ≡ (between && left)
      → whole ≡ (child && rest)
      → (after && whole) ≡ (before && (e && left))
  joined before between after child rest left whole e h k w = ground arith

  mutual
    unfolding holds get_exprs_can_pushdown

    pushdown-Split :
        (e : Expr) (ps : List Expr)
        → All (Evaluates row) ps
        → Evaluates row e
        → Split (holds row e) ps (get_exprs_can_pushdown e ps)
    pushdown-Split (conjunction or es) ps a h = λ s. absurd (ground arith)
    pushdown-Split (conjunction and es) ps a h = push_children-Split es ps a h
    pushdown-Split (comparison comp l r) ps a h = elim (Bool-cases (can_pushdown l r)) [
      | inl y ↦
          rw (get_exprs_can_pushdown, y)
            (λ s. (
              pushed_one ps (comparison comp l r),
              All-append (Evaluates row) ps (comparison comp l r ∷ []) a (h, tt),
              tt,
            ))
      | inr n ↦ rw (get_exprs_can_pushdown, n) (kept_whole (comparison comp l r) ps a h)
    ]
    pushdown-Split e ps a h = kept_whole e ps a h

    push_children-Split :
        (es : Exprs) (ps : List Expr)
        → All (Evaluates row) ps
        → AllEvaluate row es
        → SplitAll (all_hold row es) ps (push_children es ps)
    push_children-Split nil ps a h = λ s. (refl, a, tt)
    push_children-Split (cons e es) ps a (h, hs) =
        let first = get_exprs_can_pushdown e ps in
        let split = pushdown-Split e ps a h in
        elim (Bool-cases (ob_succ first.0)) [
          | inl y ↦
              let (eq, a', h') = split y in
              rw (push_children, y)
                (λ s.
                  let (eq', a'', hs') = push_children-Split es first.2 a' hs s in
                  (
                    joined _ _ _ _ _ _ _ (holds row e) eq eq'
                        (without_moved-holds first.1 (push_children es first.2).1),
                    a'',
                    without_moved-Evaluate first.1 (push_children es first.2).1 h' hs',
                  ))
          | inr n ↦ rw (push_children, n) (λ s. absurd (ground arith))
        ]

  through-both :
      (ps : List Expr) (e : Expr)
      → All (Evaluates row) ps
      → Evaluates row e
      → let_through (filter row ps) (truth row (get_value row e))
        ≡ ok (list_holds ps && holds row e)
  through-both ps e a h =
      rw (filter-list_holds ps a, holds-truth e h)
        (elim (Bool-cases (list_holds ps)) [ inl y ↦ rw y refl | inr n ↦ rw n refl ])

  true_if_empty-holds : (e : Option Expr) → holds row (true_if_empty e) ≡ option_holds e
  unfolding holds get_value get_boolean
  true_if_empty-holds none = refl
  true_if_empty-holds (some (conjunction and nil)) = refl
  true_if_empty-holds (some (conjunction or nil)) = refl
  true_if_empty-holds (some (conjunction kind (cons e es))) = refl
  true_if_empty-holds (some e) = refl

  true_if_empty-Evaluates : (e : Option Expr) → OptionEvaluates e → Evaluates row (true_if_empty e)
  unfolding get_value
  true_if_empty-Evaluates none h = tt
  true_if_empty-Evaluates (some (conjunction and nil)) h = tt
  true_if_empty-Evaluates (some (conjunction or nil)) h = tt
  true_if_empty-Evaluates (some (conjunction kind (cons e es))) h = h
  true_if_empty-Evaluates (some e) h = h

-- A predicate above a scan that has none has a value on a row, and so have the children of its ANDs. Where
-- the rewrite succeeds, the row passes the rewritten operators, some of the predicates pushed down to the
-- scan, exactly if it has passed the operators as they were.
pub rewrite-passes :
    (row : Row) (e : Expr)
    → Evaluates row e
    → ob_succ (rewrite (predicate (e ∷ []) (and_oper (table_get []) no_opers))).0 ≡ true
    → passes row (rewrite (predicate (e ∷ []) (and_oper (table_get []) no_opers))).1
      ≡ passes row (predicate (e ∷ []) (and_oper (table_get []) no_opers))
unfolding rewrite passes filter
rewrite-passes row e h s = elim (Bool-cases (ob_succ (get_exprs_can_pushdown e []).0)) [
  | inl y ↦
      let (eq, a, k) = pushdown-Split row e [] tt h y in
      let pushed = (get_exprs_can_pushdown e []).2 in
      let left = true_if_empty (get_exprs_can_pushdown e []).1 in
      rw y (
        ap (λ ps. let_through (filter row ps) (truth row (get_value row left))) (given pushed)
        ∙ through-both row pushed left a
            (true_if_empty-Evaluates row (get_exprs_can_pushdown e []).1 k)
        ∙ ap (λ b. ok (list_holds row pushed && b))
            (true_if_empty-holds row (get_exprs_can_pushdown e []).1)
        ∙ ap ok eq
        ∙ sym (holds-truth row e h))
  | inr n ↦ absurd (ground arith)
]
  where
    given : (ps : List Expr) → set_predicates [] ps ≡ ps
    given [] = refl
    given (p ∷ ps) = refl
