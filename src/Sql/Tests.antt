-- ===== src/Sql/Tests.antt =====
-- A row with two fields, and predicates over them.
use ob_htap.Prelude.{ℕ, ◌≡◌, refl, [], ◌∷◌, true, false}
use ob_htap.Prelude.Int.{pos}
use ob_htap.Rc.{ob_succ}
use ob_htap.Sql.Expr.{
  Value, Expr, Row, ok, field, value, comparison, conjunction, other, nil, cons, and, equal_to,
  bytes, booleans, get_value, compare_by, compare_value,
}
use ob_htap.Sql.Pushdown.{
  predicate, table_get, and_oper, no_opers, rewrite, passes, get_exprs_can_pushdown, can_pushdown,
}
use ob_htap.Sql.Pushdown.Keeps.{Evaluates, rewrite-passes}

-- Values of type 1 with one byte; the field `i` holds `i`.
abbrev number : ℕ → Value
number k = bytes 1 (k ∷ [])

abbrev row : Row
row = record {
  compare = λ a b. pos 0;
  bytes_boolean = λ type data_bytes. true;
  str_like = λ a b. false;
  cast_to = λ v type. ok v;
  field_value = λ i. ok (number i);
  other_value = λ i. ok (booleans true);
}

-- A comparison of a field with a constant, and another expression.
abbrev both : Expr
both =
    conjunction and (cons (comparison equal_to (field 3) (value (number 3))) (cons (other 0) nil))

both-Evaluates : Evaluates row both
unfolding get_value compare_by compare_value
both-Evaluates = (tt, (tt, tt))

both_rewritten :
    ob_succ (rewrite (predicate (both ∷ []) (and_oper (table_get []) no_opers))).0 ≡ true
unfolding rewrite get_exprs_can_pushdown can_pushdown
both_rewritten = refl

rewrite-passes_example :
    passes row (rewrite (predicate (both ∷ []) (and_oper (table_get []) no_opers))).1
    ≡ passes row (predicate (both ∷ []) (and_oper (table_get []) no_opers))
rewrite-passes_example = rewrite-passes row both both-Evaluates both_rewritten
