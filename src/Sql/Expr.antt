-- ===== src/Sql/Expr.antt =====
-- src/observer/sql/expr/expression.h and expression.cpp: constants, fields, casts, comparisons and
-- conjunctions, and their value on a row. How two values of one type compare, read as a Boolean or are
-- cast (src/observer/common/type), and the kinds of expression beside these, are arguments.
use ob_htap.Prelude.{
  ℕ, zero, suc, ◌-◌, ◌^◌, List, Bool, true, false, not, ◌||◌, Option, none, some, if◌then◌else◌,
  ◌==◌,
}
use ob_htap.Prelude.Int.{ℤ, pos, negsuc, leb_ℤ, ltb_ℤ, eqb_ℤ}
use ob_htap.Rc.{Rc}

-- `AttrType`; a type with bytes of its own is `bytes`, with its number.
pub data AttrType : Type 0 where
  booleans_type nulls_type values_lists_type : AttrType
  bytes_type : ℕ → AttrType

-- `Value`, and the list of a VALUESLISTS value
mutual
  pub data Value : Type 0 where
    booleans : Bool → Value
    nulls : Value
    values_list : Values → Value
    bytes : ℕ → List ℕ → Value

  pub data Values : Type 0 where
    no_values : Values
    and_value : Value → Values → Values

pub data CompOp : Type 0 where
  equal_to less_equal not_equal less_than great_equal great_than is_null is_not like_op in_valuelist
        not_in_valuelist not_like_op no_op :
      CompOp

-- `ConjunctionExpr::Type`
pub data Kind : Type 0 where
  and or : Kind

-- `Expression`. An expression of another kind carries its number.
mutual
  pub data Expr : Type 0 where
    field : ℕ → Expr
    value : Value → Expr
    cast : Expr → AttrType → Expr
    comparison : CompOp → Expr → Expr → Expr
    conjunction : Kind → Exprs → Expr
    other : ℕ → Expr

  pub data Exprs : Type 0 where
    nil : Exprs
    cons : Expr → Exprs → Exprs

-- A value, or the code of the error.
pub data Outcome (A : Type 0) : Type 0 where
  ok : A → Outcome A
  fail : Rc → Outcome A

-- What the types and the rows answer: `DataType::compare`, `Value::get_boolean` of a value with bytes,
-- `Value::str_like`, `Value::cast_to`, and the value of a field or of another expression on the row.
pub record Row : Type 0 where
  pub compare : Value → Value → ℤ
  pub bytes_boolean : ℕ → List ℕ → Bool
  pub str_like : Value → Value → Bool
  pub cast_to : Value → AttrType → Outcome Value
  pub field_value : ℕ → Outcome Value
  pub other_value : ℕ → Outcome Value

abbrev pub is_null_value : Value → Bool
is_null_value nulls = true
is_null_value _ = false

abbrev pub attr_type : Value → AttrType
attr_type (booleans b) = booleans_type
attr_type nulls = nulls_type
attr_type (values_list vs) = values_lists_type
attr_type (bytes type data_bytes) = bytes_type type

abbrev pub same_type : AttrType → AttrType → Bool
same_type booleans_type booleans_type = true
same_type nulls_type nulls_type = true
same_type values_lists_type values_lists_type = true
same_type (bytes_type a) (bytes_type b) = a == b
same_type _ _ = false

abbrev pub values_size : Values → ℕ
values_size no_values = 0
values_size (and_value v vs) = suc (values_size vs)

-- The size of a values list.
abbrev pub list_size : Value → Option ℕ
list_size (values_list vs) = some (values_size vs)
list_size _ = none

-- `Value::get_boolean`
unfoldable pub get_boolean : Row → Value → Bool
get_boolean row (booleans b) = b
get_boolean row (bytes type data_bytes) = row.bytes_boolean type data_bytes
get_boolean row _ = false

-- What a list on the left decides that has not one value.
abbrev left_list : CompOp → Option ℕ → Option (Rc × Bool)
left_list comp none = none
left_list comp (some (suc zero)) = none
left_list not_equal (some zero) = some (Rc.error, false)
left_list comp (some zero) = some (Rc.success, false)
left_list comp (some (suc (suc n))) = some (Rc.error, false)

abbrev right_list : CompOp → Option ℕ → Option (Rc × Bool)
right_list comp none = none
right_list comp (some (suc zero)) = none
right_list not_in_valuelist (some zero) = some (Rc.success, true)
right_list not_equal (some zero) = some (Rc.error, false)
right_list comp (some zero) = some (Rc.success, false)
right_list comp (some (suc (suc n))) = some (Rc.error, false)

-- What a NULL on the left or on the right decides.
abbrev null_case : CompOp → Bool → Bool → Option (Rc × Bool)
null_case comp false false = none
null_case is_not true true = some (Rc.success, false)
null_case is_not false true = some (Rc.success, true)
null_case is_not true false = none
null_case is_null true true = some (Rc.success, true)
null_case is_null false true = some (Rc.success, false)
null_case is_null true false = none
null_case comp _ _ = some (Rc.success, false)

abbrev by_order : CompOp → ℤ → Rc × Bool
by_order equal_to c = (Rc.success, eqb_ℤ c (pos 0))
by_order in_valuelist c = (Rc.success, eqb_ℤ c (pos 0))
by_order less_equal c = (Rc.success, leb_ℤ c (pos 0))
by_order not_in_valuelist c = (Rc.success, not (eqb_ℤ c (pos 0)))
by_order not_equal c = (Rc.success, not (eqb_ℤ c (pos 0)))
by_order less_than c = (Rc.success, ltb_ℤ c (pos 0))
by_order great_equal c = (Rc.success, leb_ℤ (pos 0) c)
by_order great_than c = (Rc.success, ltb_ℤ (pos 0) c)
by_order is_null c = (Rc.success, eqb_ℤ c (pos 0))
by_order is_not c = (Rc.success, not (eqb_ℤ c (pos 0)))
by_order _ c = (Rc.internal, false)

-- The first that decides.
abbrev or_else {ℓ} : {A : Type ℓ} → Option A → A → A
or_else none a = a
or_else (some a) _ = a

-- `ComparisonExpr::compare_value`; INT32_MAX stands for values that do not compare.
unfoldable pub compare_value : Row → CompOp → Value → Value → Rc × Bool
compare_value row comp left right =
    let c = row.compare left right in
    or_else (left_list comp (list_size left)) (
      or_else (right_list comp (list_size right)) (
        or_else (null_case comp (is_null_value left) (is_null_value right)) (
          if eqb_ℤ c (pos (2 ^ 31 - 1)) || eqb_ℤ c (negsuc (2 ^ 31 - 2))
          then (Rc.success, false)
          else by_order comp c)))

-- The loops of `ComparisonExpr::get_value` over a list, up to a value that decides: for IN the first
-- for which the comparison is true, for NOT IN the first for which it is false. The code and the
-- answer are those of the last comparison.
unfoldable pub compare_values : Row → CompOp → Bool → Value → Values → Rc × Bool → Rc × Bool
compare_values row comp decided left no_values last = last
compare_values row comp decided left (and_value v vs) last =
    let (rc, result) = compare_value row comp left v in
    let rest = compare_values row comp decided left vs (rc, result) in
    if (if decided then result else not result) then (rc, result) else rest

abbrev pub is_empty_list : Values → Bool
is_empty_list no_values = true
is_empty_list _ = false

-- The switch of `ComparisonExpr::get_value`
unfoldable pub compare_by : Row → CompOp → Value → Value → Rc × Bool
compare_by row in_valuelist left (values_list vs) =
    compare_values row in_valuelist true left vs (Rc.success, false)
compare_by row in_valuelist left right = (Rc.unsupported, false)
compare_by row not_in_valuelist left (values_list vs) =
    compare_values row not_in_valuelist false left vs (Rc.success, is_empty_list vs)
compare_by row not_in_valuelist left right = (Rc.unsupported, false)
compare_by row like_op left right = (Rc.success, row.str_like left right)
compare_by row not_like_op left right = (Rc.success, not (row.str_like left right))
compare_by row comp left right = compare_value row comp left right

abbrev pub boolean_or : Rc × Bool → Outcome Value
boolean_or (Rc.success, b) = ok (booleans b)
boolean_or (rc, b) = fail rc

-- `CastExpr::cast`
unfoldable pub cast_value : Row → AttrType → Value → Outcome Value
cast_value row type v = if same_type type (attr_type v) then ok v else row.cast_to v type

-- What a conjunction is where no child decides.
abbrev pub default_value : Kind → Bool
default_value and = true
default_value or = false

-- Whether a child of this value decides.
abbrev pub decides : Kind → Bool → Bool
decides and b = not b
decides or b = b

-- A round of the loop of `ConjunctionExpr::get_value`: the child's value, or what the rest gives.
unfoldable pub child_or : Row → Kind → Outcome Value → Outcome Value → Outcome Value
child_or row kind (fail rc) rest = fail rc
child_or row kind (ok v) rest =
    if decides kind (get_boolean row v) then ok (booleans (get_boolean row v)) else rest

-- `get_value` of the expressions. `get_children` is the loop of `ConjunctionExpr::get_value`; its test
-- for a conjunction without children stands before it.
unfoldable mutual
  pub get_value : Row → Expr → Outcome Value
  get_value row (field i) = row.field_value i
  get_value row (value v) = ok v
  get_value row (cast child type) = elim (get_value row child) [
    | fail rc ↦ fail rc
    | ok v ↦ cast_value row type v
  ]
  get_value row (comparison comp left right) = elim (get_value row left) [
    | fail rc ↦ fail rc
    | ok l ↦ elim (get_value row right) [
      | fail rc ↦ fail rc
      | ok r ↦ boolean_or (compare_by row comp l r)
    ]
  ]
  get_value row (conjunction kind nil) = ok (booleans true)
  get_value row (conjunction kind (cons e es)) = get_children row kind (cons e es)
  get_value row (other i) = row.other_value i

  pub get_children : Row → Kind → Exprs → Outcome Value
  get_children row kind nil = ok (booleans (default_value kind))
  get_children row kind (cons e es) =
      let rest = get_children row kind es in child_or row kind (get_value row e) rest

-- What a predicate keeps of a value: whether the row passes.
abbrev pub truth : Row → Outcome Value → Outcome Bool
truth row (ok v) = ok (get_boolean row v)
truth row (fail rc) = fail rc
