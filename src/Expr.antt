-- ===== src/Expr.antt =====
-- src/expr: the logic expressions of ExprLogic.h, on the values of ExprData.h, BaseExpr.h and ExprType.h:
-- their results and how a WHERE condition gives its conditions on an index away. Constants, parameters
-- and fields are modelled as they are; any other ExprData is a function with its IsConstValue. A null
-- pointer is none, and so is what happens when one is followed. A vector is a function of the position.
pub mod Logic
pub mod Members
pub mod Turned
pub mod Pick
pub mod Picked
pub mod Given
pub mod Ended
pub mod Where
mod Examples
use rapid_db.Common.{
  ℕ, zero, suc, ◌+◌, ◌-◌, List, [], ◌∷◌, ◌++◌, reverse, Option, none, some, Bool, true, false, ◌&&◌,
  ◌||◌, not, ltb, leb, ◌==◌, if◌then◌else◌, Ordering,
}
use rapid_db.Common.Int.{ℤ, pos, negsuc, compare_ℤ}
use rapid_db.Value.{
  DataValue, is_null, is_lt, is_gt, equal, greater, greater_equal, unequal, less, less_equal,
  able_compare,
}

pub data TriBool : Type 0 where
  error : TriBool
  no : TriBool
  ok : TriBool

pub data CompType : Type 0 where
  eq : CompType
  gt : CompType
  ge : CompType
  lt : CompType
  le : CompType
  ne : CompType

-- VectorDataValue.
abbrev pub Vector : Type 0
Vector = ℕ → DataValue

pub data Data : Type 0 where
  const_value : DataValue → Data
  parameter : ℕ → Data
  field : ℕ → Data
  other : Bool → (Vector → Vector → Option DataValue) → Data

unfoldable pub calc_data : Data → Vector → Vector → Option DataValue
calc_data (const_value v) paras row = some v
calc_data (parameter p) paras row = some (paras p)
calc_data (field p) paras row = some (row p)
calc_data (other c f) paras row = f paras row

abbrev pub is_const_value : Data → Bool
is_const_value (const_value v) = true
is_const_value (parameter p) = true
is_const_value (field p) = false
is_const_value (other c f) = c

abbrev pub as_field : Data → Option ℕ
as_field (const_value v) = none
as_field (parameter p) = none
as_field (field p) = some p
as_field (other c f) = none

abbrev pub is_field : Data → Bool
is_field (const_value v) = false
is_field (parameter p) = false
is_field (field p) = true
is_field (other c f) = false

-- ExprArray: a set ordered by `<`, with AddElem and Exist.
unfoldable pub add_elem : DataValue → List DataValue → List DataValue
add_elem dv [] = dv ∷ []
add_elem dv (e ∷ es) =
    let rest = add_elem dv es in
    if less e dv then e ∷ rest else if less dv e then dv ∷ e ∷ es else e ∷ es

unfoldable pub exist : DataValue → List DataValue → Bool
exist dv [] = false
exist dv (e ∷ es) = let rest = exist dv es in if less e dv then rest else not (less dv e)

-- The expressions, with the vectors of children as lists of their own.
mutual
  pub data Expr : Type 0 where
    comp : CompType → Data → Data → Expr
    in_not : Data → List DataValue → Bool → Expr
    is_null_not : Data → Bool → Expr
    between : Data → Data → Data → Expr
    like : Data → DataValue → Bool → Expr
    not_expr : Expr → Expr
    and_expr : Exprs → Expr
    or_expr : Exprs → Expr

  pub data Exprs : Type 0 where
    nil : Exprs
    cons : Expr → Exprs → Exprs

abbrev pub of_bool : Bool → TriBool
of_bool b = if b then TriBool.ok else TriBool.no

unfoldable pub holds : CompType → DataValue → DataValue → Bool
holds CompType.eq v w = equal v w
holds CompType.gt v w = greater v w
holds CompType.ge v w = greater_equal v w
holds CompType.lt v w = less v w
holds CompType.le v w = less_equal v w
holds CompType.ne v w = unequal v w

-- ExprComp::Calc follows a null pointer when both sides are null pointers.
unfoldable pub calc_comp : CompType → Option DataValue → Option DataValue → Option TriBool
unfolding holds
calc_comp t none none = none
calc_comp t none (some w) = some TriBool.error
calc_comp t (some v) none = some TriBool.error
calc_comp t (some v) (some w) =
    some (if able_compare v w then of_bool (holds t v w) else TriBool.error)

abbrev pub calc_in_not : Option DataValue → List DataValue → Bool → Option TriBool
unfolding exist
calc_in_not none arr b_in = some TriBool.error
calc_in_not (some v) arr true = some (of_bool (exist v arr))
calc_in_not (some v) arr false = some (of_bool (not (exist v arr)))

abbrev pub calc_is_null_not : Option DataValue → Bool → Option TriBool
calc_is_null_not none b_null = some TriBool.error
calc_is_null_not (some v) true = some (of_bool (is_null v))
calc_is_null_not (some v) false = some (of_bool (not (is_null v)))

unfoldable pub calc_between :
    Option DataValue → Option DataValue → Option DataValue → Option TriBool
calc_between (some v) (some l) (some r) = some (
    if able_compare v l && able_compare v r
    then of_bool (greater_equal v l && less_equal v r)
    else TriBool.error)
calc_between _ _ _ = some TriBool.error

abbrev pub calc_not : Option TriBool → Option TriBool
calc_not none = none
calc_not (some TriBool.error) = some TriBool.error
calc_not (some TriBool.no) = some TriBool.ok
calc_not (some TriBool.ok) = some TriBool.no

-- One round of each loop, before the rest.
abbrev pub and_then : Option TriBool → Option TriBool → Option TriBool
and_then none rest = none
and_then (some TriBool.error) rest = some TriBool.error
and_then (some TriBool.no) rest = some TriBool.no
and_then (some TriBool.ok) rest = rest

abbrev pub or_else : Option TriBool → Option TriBool → Option TriBool
or_else none rest = none
or_else (some TriBool.error) rest = some TriBool.error
or_else (some TriBool.no) rest = rest
or_else (some TriBool.ok) rest = some TriBool.ok

unfoldable mutual
  unfolding calc_data calc_comp calc_between exist

  pub calc : Expr → Vector → Vector → Option TriBool
  calc (comp t l r) paras row = calc_comp t (calc_data l paras row) (calc_data r paras row)
  calc (in_not d arr b_in) paras row = calc_in_not (calc_data d paras row) arr b_in
  calc (is_null_not d b_null) paras row = calc_is_null_not (calc_data d paras row) b_null
  calc (between d l r) paras row =
      calc_between (calc_data d paras row) (calc_data l paras row) (calc_data r paras row)
  calc (like d pattern_value b_like) paras row = some TriBool.no
  calc (not_expr e) paras row = calc_not (calc e paras row)
  calc (and_expr es) paras row = calc_all es paras row
  calc (or_expr es) paras row = calc_any es paras row

  pub calc_all : Exprs → Vector → Vector → Option TriBool
  calc_all nil paras row = some TriBool.ok
  calc_all (cons e es) paras row =
      let rest = calc_all es paras row in and_then (calc e paras row) rest

  pub calc_any : Exprs → Vector → Vector → Option TriBool
  calc_any nil paras row = some TriBool.no
  calc_any (cons e es) paras row =
      let rest = calc_any es paras row in or_else (calc e paras row) rest

-- Reverse.
unfoldable pub turned : CompType → CompType
turned CompType.eq = CompType.eq
turned CompType.gt = CompType.lt
turned CompType.ge = CompType.le
turned CompType.lt = CompType.gt
turned CompType.le = CompType.ge
turned CompType.ne = CompType.ne

unfoldable pub reverse_comp : CompType → Data → Data → Expr
unfolding turned
reverse_comp t l r = comp (turned t) r l
