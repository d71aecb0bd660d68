-- ===== src/Sql/Rewrite.antt =====
-- src/observer/sql/optimizer: comparison_simplification_rule.cpp, conjunction_simplification_rule.cpp and
-- `ExpressionRewriter::rewrite_expression` of expression_rewriter.cpp. A rule gives the expression and
-- whether it has changed it.
pub mod Conjunction
pub mod Comparison
use ob_htap.Prelude.{Bool, true, false, ◌||◌, Option, none, some, if◌then◌else◌}
use ob_htap.Rc.{Rc, ob_succ}
use ob_htap.Sql.Expr.{
  Value, Expr, Exprs, Kind, Row, field, value, cast, comparison, conjunction, other, nil, cons, and,
  or, booleans, compare_value, decides,
}

-- `ComparisonExpr::try_get_value`
unfoldable pub rewrite_comparison : Row → Expr → Expr × Bool
rewrite_comparison row (comparison comp (value l) (value r)) =
    let (rc, result) = compare_value row comp l r in
    if ob_succ rc
    then (value (booleans result), true)
    else (comparison comp (value l) (value r), false)
rewrite_comparison row e = (e, false)

-- `try_to_get_bool_constant`
abbrev pub bool_constant : Expr → Option Bool
bool_constant (value (booleans b)) = some b
bool_constant _ = none

-- What the loop of `ConjunctionSimplificationRule::rewrite` leaves: one child, or the children that it
-- has not erased.
pub data Scanned : Type 0 where
  replaced : Expr → Scanned
  kept : Exprs → Scanned

abbrev pub keep : Expr → Scanned → Scanned
keep e (replaced x) = replaced x
keep e (kept es) = kept (cons e es)

-- The first of the children: one that was kept before, or the one that is looked at.
abbrev pub front : Option Expr → Expr → Expr
front none e = e
front (some x) e = x

unfoldable pub scan : Kind → Option Expr → Exprs → Scanned
scan kind first nil = kept nil
scan kind first (cons e es) = elim (bool_constant e) [
  | none ↦ keep e (scan kind (some (front first e)) es)
  | some b ↦
      let rest = scan kind first es in if decides kind b then replaced (front first e) else rest
]

-- What becomes of the conjunction then.
abbrev pub rebuilt : Kind → Scanned → Expr × Bool
rebuilt kind (replaced x) = (x, false)
rebuilt kind (kept nil) = (conjunction kind nil, false)
rebuilt kind (kept (cons e nil)) = (e, true)
rebuilt kind (kept (cons e (cons e' es))) = (conjunction kind (cons e (cons e' es)), false)

-- `ConjunctionSimplificationRule::rewrite`
unfoldable pub rewrite_conjunction : Expr → Expr × Bool
rewrite_conjunction (conjunction kind es) = rebuilt kind (scan kind none es)
rewrite_conjunction e = (e, false)

-- The rules in their order.
abbrev pub apply_rules : Row → Expr → Expr × Bool
apply_rules row e =
    let (e₁, changed₁) = rewrite_comparison row e in
    let (e₂, changed₂) = rewrite_conjunction e₁ in (e₂, changed₁ || changed₂)
