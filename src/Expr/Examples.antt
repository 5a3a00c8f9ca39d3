-- ===== src/Expr/Examples.antt =====
-- A WHERE condition, and the theorems of this part at it.
use rapid_db.Common.{
  ◌≡◌, ◌↔◌, inr, refl, [], ◌∷◌, All, none, some, true, false, ◌==◌, if◌then◌else◌, arith,
}
use rapid_db.Common.Int.{pos}
use rapid_db.Value.{DataType, DataValue, digit, equal, IsTyped, is_digital, code, width}
use rapid_db.Expr.{
  TriBool, CompType, Vector, const_value, field, Expr, Exprs, comp, and_expr, or_expr, nil, cons,
  calc, calc_data, turned, reverse_comp, add_elem, exist,
}
use rapid_db.Expr.Members.{OfType, Sorted, exist-add_elem}
use rapid_db.Expr.Turned.{calc-reverse_comp}
use rapid_db.Expr.Pick.{
  Table, Pick, pick_index_condition, and_loop, pick_comp, pick_turned, and_round, keep,
  take_conditions, chosen, unchosen,
}
use rapid_db.Expr.Picked.{ExprTyped}
use rapid_db.Expr.Given.{IsTrue, pick_index_condition-Splits}
use rapid_db.Expr.Ended.{Safe, SafeChildren, pick_index_condition_ends}
use rapid_db.Expr.Where.{preprocess, split_where, preprocess-BothTrue}

abbrev seven : DataValue
seven = digit DataType.int false 7

-- Every field and parameter is the INT 7.
abbrev sevens : Vector
sevens i = seven

-- Field 1 is the first of index 0.
abbrev table : Table
table f = if f == 1 then some 0 else none

-- 7 <= field 1 AND field 0 < 7.
abbrev known : Expr
known = comp CompType.le (const_value seven) (field 1)

abbrev less_field : Expr
less_field = comp CompType.lt (field 0) (const_value seven)

abbrev children : Exprs
children = cons known (cons less_field nil)

abbrev turned_known : Expr
turned_known = comp CompType.ge (field 1) (const_value seven)

seven-IsTyped : IsTyped seven
unfolding IsTyped is_digital code width
seven-IsTyped = (refl, omega arith)

children-ExprTyped : ExprTyped sevens sevens (and_expr children)
unfolding ExprTyped calc_data
children-ExprTyped = ((seven-IsTyped, seven-IsTyped), ((seven-IsTyped, seven-IsTyped), tt))

preprocess-BothTrue_example :
    IsTrue sevens sevens (and_expr children)
    ↔ (IsTrue sevens sevens turned_known × IsTrue sevens sevens less_field)
unfolding preprocess split_where pick_index_condition and_loop pick_comp pick_turned turned
    and_round keep take_conditions chosen unchosen
preprocess-BothTrue_example =
    preprocess-BothTrue sevens sevens table (and_expr children)
      (record { index_search = some (turned_known, pos 0); expr_logic = some less_field })
      children-ExprTyped refl

pick_index_condition-Splits_example : IsTrue sevens sevens (and_expr children) ↔ (
    All (IsTrue sevens sevens) (turned_known ∷ [])
    × IsTrue sevens sevens (and_expr (cons less_field nil)))
unfolding pick_index_condition and_loop pick_comp pick_turned turned and_round keep take_conditions
    chosen unchosen
pick_index_condition-Splits_example =
    pick_index_condition-Splits sevens sevens table children
      (record {
        result = TriBool.ok;
        idx_pos = pos 0;
        vct_expr = turned_known ∷ [];
        after = and_expr (cons less_field nil);
      })
      children-ExprTyped refl

calc-reverse_comp_example : calc turned_known sevens sevens ≡ calc known sevens sevens
unfolding reverse_comp turned calc_data
calc-reverse_comp_example =
    calc-reverse_comp CompType.le (const_value seven) (field 1) sevens sevens seven-IsTyped
      seven-IsTyped

pick_index_condition_ends_example :
    ((k : Pick) × (pick_index_condition table (and_expr children) true ≡ some k))
    × ((k : Pick) × (pick_index_condition table (or_expr children) false ≡ some k))
unfolding Safe SafeChildren
pick_index_condition_ends_example =
    pick_index_condition_ends table children (or_expr children) (inr tt, (inr tt, tt))
      (tt, (tt, tt))

-- The set of 5, and 7 put into it.
abbrev five : DataValue
five = digit DataType.int false 5

five-OfType : OfType (code DataType.int) five
unfolding IsTyped is_digital code width
five-OfType = ((refl, omega arith), refl)

exist-add_elem_example :
    Sorted (add_elem seven (five ∷ []))
    × All (OfType (code DataType.int)) (add_elem seven (five ∷ []))
    × (exist seven (add_elem seven (five ∷ []))
        ≡ (if equal seven seven then true else exist seven (five ∷ [])))
exist-add_elem_example =
    exist-add_elem (code DataType.int) seven seven (five ∷ []) (seven-IsTyped, refl)
      (seven-IsTyped, refl) (five-OfType, tt) (tt, tt)
