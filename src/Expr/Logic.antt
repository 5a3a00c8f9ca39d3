-- ===== src/Expr/Logic.antt =====
-- What AND, OR and NOT mean, and BETWEEN.
use rapid_db.Common.{◌≡◌, ◌↔◌, refl, ap, ◌∙◌, Option, none, some, arith}
use rapid_db.Value.{DataValue}
use rapid_db.Expr.{
  TriBool, CompType, Vector, Data, Exprs, comp, between, not_expr, and_expr, or_expr, nil, cons,
  calc, calc_all, calc_any, calc_data, calc_comp, calc_between, holds, calc_not, and_then, or_else,
}

-- Each of the expressions negated.
abbrev pub each_not : Exprs → Exprs
each_not nil = nil
each_not (cons e es) = cons (not_expr e) (each_not es)

-- Every expression is true.
abbrev pub AllTrue : Exprs → Vector → Vector → Type 0
AllTrue nil paras row = Unit
AllTrue (cons e es) paras row = (calc e paras row ≡ some TriBool.ok) × AllTrue es paras row

not-and_then : (o p : Option TriBool) → calc_not (and_then o p) ≡ or_else (calc_not o) (calc_not p)
not-and_then o p = ground arith

not-or_else : (o p : Option TriBool) → calc_not (or_else o p) ≡ and_then (calc_not o) (calc_not p)
not-or_else o p = ground arith

not_all :
    (es : Exprs) (paras row : Vector)
    → calc_not (calc_all es paras row) ≡ calc_any (each_not es) paras row
unfolding calc calc_all calc_any
not_all nil paras row = refl
not_all (cons e es) paras row =
    not-and_then (calc e paras row) (calc_all es paras row)
    ∙ ap (or_else (calc_not (calc e paras row))) (not_all es paras row)

not_any :
    (es : Exprs) (paras row : Vector)
    → calc_not (calc_any es paras row) ≡ calc_all (each_not es) paras row
unfolding calc calc_all calc_any
not_any nil paras row = refl
not_any (cons e es) paras row =
    not-or_else (calc e paras row) (calc_any es paras row)
    ∙ ap (and_then (calc_not (calc e paras row))) (not_any es paras row)

-- NOT of an AND is the OR of the NOTs, and NOT of an OR the AND of the NOTs, errors and the order in
-- which the children are looked at included.
pub calc-not_expr :
    (es : Exprs) (paras row : Vector)
    → (calc (not_expr (and_expr es)) paras row ≡ calc (or_expr (each_not es)) paras row)
      × (calc (not_expr (or_expr es)) paras row ≡ calc (and_expr (each_not es)) paras row)
unfolding calc
calc-not_expr es paras row = (not_all es paras row, not_any es paras row)

and_then_true :
    (o p : Option TriBool)
    → (and_then o p ≡ some TriBool.ok) ↔ ((o ≡ some TriBool.ok) × (p ≡ some TriBool.ok))
and_then_true none p = ((λ e. absurd (ground (arith, e))), λ e. absurd (ground (arith, e.0)))
and_then_true (some TriBool.error) p =
    ((λ e. absurd (ground (arith, e))), λ e. absurd (ground (arith, e.0)))
and_then_true (some TriBool.no) p =
    ((λ e. absurd (ground (arith, e))), λ e. absurd (ground (arith, e.0)))
and_then_true (some TriBool.ok) p = ((λ e. (refl, e)), λ e. e.1)

-- An AND is true exactly when each of its children is.
pub calc-and_expr :
    (es : Exprs) (paras row : Vector)
    → (calc (and_expr es) paras row ≡ some TriBool.ok) ↔ AllTrue es paras row
unfolding calc calc_all
calc-and_expr nil paras row = ((λ e. tt), λ e. refl)
calc-and_expr (cons e es) paras row =
    let (to, from) = and_then_true (calc e paras row) (calc_all es paras row) in
    let (all, back) = calc-and_expr es paras row in
    ((λ h. ((to h).0, all (to h).1)), λ h. from (h.0, back h.1))

between_true :
    (o l r : Option DataValue)
    → (calc_between o l r ≡ some TriBool.ok) ↔ (
        (calc_comp CompType.ge o l ≡ some TriBool.ok)
        × (calc_comp CompType.le o r ≡ some TriBool.ok))
unfolding calc_between calc_comp holds
between_true o l r = ground arith

-- BETWEEN is true exactly when >= its lower and <= its upper bound are.
pub calc-between :
    (d l r : Data) (paras row : Vector)
    → (calc (between d l r) paras row ≡ some TriBool.ok) ↔ (
        calc (and_expr (cons (comp CompType.ge d l) (cons (comp CompType.le d r) nil))) paras row
        ≡ some TriBool.ok)
unfolding calc calc_all
calc-between d l r paras row =
    let (to, from) =
      between_true (calc_data d paras row) (calc_data l paras row) (calc_data r paras row) in
    let (all, back) =
      calc-and_expr (cons (comp CompType.ge d l) (cons (comp CompType.le d r) nil)) paras row in
    ((λ h. back ((to h).0, ((to h).1, tt))), λ h. from ((all h).0, (all h).1.0))
