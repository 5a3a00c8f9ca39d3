-- ===== src/Expr/Turned.antt =====
-- ExprComp::Reverse, which turns a comparison round.
use rapid_db.Common.{◌≡◌, inl, inr, refl, ap, ◌∙◌, Option, none, some, Bool, not, arith, Bool-cases}
use rapid_db.Value.{
  DataValue, greater, greater_equal, unequal, less, less_equal, able_compare, IsTyped,
}
use rapid_db.Expr.{
  CompType, Vector, Data, comp, calc, calc_data, calc_comp, holds, turned, reverse_comp,
}
use rapid_db.Value.Mirror.{Mirrors, able_compare-Mirrors, able_compare-sym}

turned-holds : (t : CompType) (v w : DataValue) → Mirrors v w → holds (turned t) w v ≡ holds t v w
unfolding holds turned Mirrors less less_equal unequal
turned-holds CompType.eq v w (e, g, h) = e
turned-holds CompType.gt v w (e, g, h) = ap not h ∙ twice (greater v w)
  where
    twice : (b : Bool) → not (not b) ≡ b
    twice b = ground arith
turned-holds CompType.ge v w (e, g, h) = ap not g ∙ twice (greater_equal v w)
  where
    twice : (b : Bool) → not (not b) ≡ b
    twice b = ground arith
turned-holds CompType.lt v w (e, g, h) = g
turned-holds CompType.le v w (e, g, h) = h
turned-holds CompType.ne v w (e, g, h) = ap not e

-- A value that may be a null pointer has its type.
abbrev pub OptionTyped : Option DataValue → Type 0
OptionTyped none = Unit
OptionTyped (some v) = IsTyped v

turned-comp :
    (t : CompType) (o p : Option DataValue)
    → OptionTyped o
    → OptionTyped p
    → calc_comp (turned t) p o ≡ calc_comp t o p
unfolding calc_comp
turned-comp t none none a b = refl
turned-comp t none (some w) a b = refl
turned-comp t (some v) none a b = refl
turned-comp t (some v) (some w) a b = elim (Bool-cases (able_compare v w)) [
  | inl e ↦ rw (able_compare-sym v w, e, turned-holds t v w (able_compare-Mirrors v w a b e)) refl
  | inr e ↦ rw (able_compare-sym v w, e) refl
]

-- A comparison turned round by Reverse has the result it had, on any two values of their types, errors
-- included.
pub calc-reverse_comp :
    (t : CompType) (l r : Data) (paras row : Vector)
    → OptionTyped (calc_data l paras row)
    → OptionTyped (calc_data r paras row)
    → calc (reverse_comp t l r) paras row ≡ calc (comp t l r) paras row
unfolding calc reverse_comp
calc-reverse_comp t l r paras row a b =
    turned-comp t (calc_data l paras row) (calc_data r paras row) a b
