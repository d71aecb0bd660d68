-- ===== src/Sql/Pushdown.antt =====
-- src/observer/sql/optimizer/predicate_pushdown_rewriter.cpp, and where the predicates are used then:
-- `TableScanPhysicalOperator::filter`. A `unique_ptr` that has been moved from is `none`.
pub mod Keeps
use ob_htap.Prelude.{
  ℕ, List, [], ◌∷◌, ◌++◌, Bool, true, false, not, ◌&&◌, Option, none, some, if◌then◌else◌,
}
use ob_htap.Rc.{Rc, ob_succ}
use ob_htap.Sql.Expr.{
  Value, Expr, Exprs, Row, Outcome, ok, fail, field, value, comparison, conjunction, nil, cons, and,
  or, booleans, get_value, get_boolean, truth,
}

abbrev pub is_field : Expr → Bool
is_field (field i) = true
is_field _ = false

abbrev pub is_value : Expr → Bool
is_value (value v) = true
is_value _ = false

-- The two tests on the sides of a comparison.
unfoldable pub can_pushdown : Expr → Expr → Bool
can_pushdown left right =
    if not (is_field left) && not (is_field right)
    then false
    else if not (is_field left)
        && not (is_value left)
        && not (is_field right)
        && not (is_value right)
    then false
    else true

-- A child that has been moved from is erased.
abbrev pub without_moved : Option Expr → Exprs → Exprs
without_moved none es = es
without_moved (some e) es = cons e es

-- `PredicatePushdownRewriter::get_exprs_can_pushdown`, and its loop over the children.
unfoldable mutual
  pub get_exprs_can_pushdown : Expr → List Expr → Rc × Option Expr × List Expr
  get_exprs_can_pushdown (conjunction or es) pushed =
      (Rc.unimplemented, some (conjunction or es), pushed)
  get_exprs_can_pushdown (conjunction and es) pushed =
      let (rc, es', pushed') = push_children es pushed in (rc, some (conjunction and es'), pushed')
  get_exprs_can_pushdown (comparison comp left right) pushed =
      if can_pushdown left right
      then (Rc.success, none, pushed ++ comparison comp left right ∷ [])
      else (Rc.success, some (comparison comp left right), pushed)
  get_exprs_can_pushdown e pushed = (Rc.success, some e, pushed)

  pub push_children : Exprs → List Expr → Rc × Exprs × List Expr
  push_children nil pushed = (Rc.success, nil, pushed)
  push_children (cons e es) pushed =
      let (rc, e', pushed') = get_exprs_can_pushdown e pushed in
      let (rc', es', pushed'') = push_children es pushed' in
      if ob_succ rc
      then (rc', without_moved e' es', pushed'')
      else (rc, without_moved e' es, pushed')

-- `PredicatePushdownRewriter::is_empty_predicate`, and the constant that takes its place.
abbrev pub true_if_empty : Option Expr → Expr
true_if_empty none = value (booleans true)
true_if_empty (some (conjunction kind nil)) = value (booleans true)
true_if_empty (some e) = e

abbrev pub unmoved : Expr → Option Expr → Expr
unmoved e none = e
unmoved e (some e') = e'

-- `LogicalOperator`: a predicate, the scan of a table with the predicates that it is given, and the others.
mutual
  pub data Oper : Type 0 where
    predicate : List Expr → Opers → Oper
    table_get : List Expr → Oper
    other_oper : ℕ → List Expr → Opers → Oper

  pub data Opers : Type 0 where
    no_opers : Opers
    and_oper : Oper → Opers → Opers

-- `TableGetLogicalOperator::set_predicates`, where there are some.
abbrev pub set_predicates : List Expr → List Expr → List Expr
set_predicates old [] = old
set_predicates old (e ∷ es) = e ∷ es

abbrev pub is_some_pushed : List Expr → Bool
is_some_pushed [] = false
is_some_pushed (e ∷ es) = true

-- `PredicatePushdownRewriter::rewrite`
unfoldable pub rewrite : Oper → Rc × Oper × Bool
rewrite (predicate (e ∷ []) (and_oper (table_get old) no_opers)) =
    let (rc, e', pushed) = get_exprs_can_pushdown e [] in
    if ob_succ rc
    then (
      Rc.success,
      predicate (true_if_empty e' ∷ []) (and_oper (table_get (set_predicates old pushed)) no_opers),
      is_some_pushed pushed,
    )
    else (rc, predicate (unmoved e e' ∷ []) (and_oper (table_get old) no_opers), false)
rewrite oper = (Rc.success, oper, false)

-- A round of the loop of `TableScanPhysicalOperator::filter`: the value of a predicate, and what the
-- rest gives.
abbrev pub filter_and : Row → Outcome Value → Outcome Bool → Outcome Bool
filter_and row (fail rc) rest = fail rc
filter_and row (ok v) rest = if get_boolean row v then rest else ok false

-- `TableScanPhysicalOperator::filter`
unfoldable pub filter : Row → List Expr → Outcome Bool
filter row [] = ok true
filter row (e ∷ es) = let rest = filter row es in filter_and row (get_value row e) rest

-- A predicate above a scan looks at the rows that the scan lets through.
abbrev pub let_through : Outcome Bool → Outcome Bool → Outcome Bool
let_through (fail rc) above = fail rc
let_through (ok false) above = ok false
let_through (ok true) above = above

-- Whether a row of the table comes out of a scan, or of a scan and the predicate above it, as in
-- `PredicatePhysicalOperator::next`.
unfoldable pub passes : Row → Oper → Outcome Bool
passes row (predicate (e ∷ []) (and_oper (table_get ps) no_opers)) =
    let_through (filter row ps) (truth row (get_value row e))
passes row (table_get ps) = filter row ps
passes row _ = ok true
