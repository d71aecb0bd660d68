-- ===== src/Sql/Rewrite/Comparison.antt =====
-- The comparison rule keeps the value of a comparison of two constants.
use ob_htap.Prelude.{◌≡◌, refl, Bool, true, false, Bool-cases, inl, inr, arith}
use ob_htap.Rc.{Rc, ob_succ}
use ob_htap.Sql.Expr.{
  Value, Expr, CompOp, Row, ok, value, comparison, booleans, get_value, compare_value, compare_by,
  boolean_or, in_valuelist, not_in_valuelist, like_op, not_like_op,
}
use ob_htap.Sql.Rewrite.{rewrite_comparison}

-- The comparisons that `get_value` makes as `try_get_value` does: the others look into a list or match
-- a pattern.
abbrev pub compares_once : CompOp → Bool
compares_once in_valuelist = false
compares_once not_in_valuelist = false
compares_once like_op = false
compares_once not_like_op = false
compares_once _ = true

module _ (row : Row) where
  compare_by-once :
      (comp : CompOp) (l r : Value)
      → compares_once comp ≡ true
      → compare_by row comp l r ≡ compare_value row comp l r
  unfolding compare_by
  compare_by-once in_valuelist l r h = absurd (ground arith)
  compare_by-once not_in_valuelist l r h = absurd (ground arith)
  compare_by-once like_op l r h = absurd (ground arith)
  compare_by-once not_like_op l r h = absurd (ground arith)
  compare_by-once _ l r h = refl

  succeeded : (a : Rc × Bool) → ob_succ a.0 ≡ true → boolean_or a ≡ ok (booleans a.1)
  succeeded (Rc.success, b) h = refl
  succeeded (_, b) h = absurd (ground arith)

  constants :
      (comp : CompOp) (l r : Value)
      → compares_once comp ≡ true
      → get_value row (rewrite_comparison row (comparison comp (value l) (value r))).0
        ≡ get_value row (comparison comp (value l) (value r))
  unfolding get_value rewrite_comparison
  constants comp l r h = elim (Bool-cases (ob_succ (compare_value row comp l r).0)) [
    | inl y ↦
        rw
          (
            rewrite_comparison,
            y,
            compare_by-once comp l r h,
            succeeded (compare_value row comp l r) y,
          )
          refl
    | inr n ↦ rw (rewrite_comparison, n) refl
  ]

  -- A comparison that `get_value` makes by one comparison of the two values has the same value on every
  -- row after the comparison rule, whatever its two sides are.
  pub rewrite_comparison-value :
      (comp : CompOp) (left right : Expr)
      → compares_once comp ≡ true
      → get_value row (rewrite_comparison row (comparison comp left right)).0
        ≡ get_value row (comparison comp left right)
  unfolding rewrite_comparison
  rewrite_comparison-value comp (value l) (value r) h = constants comp l r h
  rewrite_comparison-value comp _ _ h = refl
