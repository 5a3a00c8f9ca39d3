-- ===== src/Value/Order.antt =====
-- The operators on two values against one order of values.
use rapid_db.Common.{
  ℕ, ◌^◌, ◌<◌, ◌≡◌, ◌≢◌, ◌⊎◌, inl, inr, refl, sym, ap, subst, ◌∙◌, List, Bool, true, false, ◌&&◌,
  not, ◌==◌, if◌then◌else◌, Ordering, length, bit_and, arith, Bool-cases,
}
use rapid_db.Common.Int.{compare_ℤ, sign}
use rapid_db.Bytes.{bytes_compare}
use rapid_db.Bytes.Lex.{lex, lex-eq}
use rapid_db.Bytes.Compare.{bytes_compare-lex}
use rapid_db.Value.{
  DataType, DataValue, digit, chars, null_literal, get_data_type, code, width, is_signed,
  is_digital, is_array_type, number, is_lt, is_eq, is_gt, null_eq, null_gt, null_ge, value_eq,
  value_gt, value_lt, equal, greater, greater_equal, unequal, less, less_equal, IsTyped,
  digital_type, array_type,
}

-- All six operators say that two values stand in one order.
pub record Compares (o : Ordering) (dv1 dv2 : DataValue) : Type 0 where
  pub eq : equal dv1 dv2 ≡ is_eq o
  pub gt : greater dv1 dv2 ≡ is_gt o
  pub ge : greater_equal dv1 dv2 ≡ not (is_lt o)
  pub ne : unequal dv1 dv2 ≡ not (is_eq o)
  pub lt : less dv1 dv2 ≡ is_lt o
  pub le : less_equal dv1 dv2 ≡ not (is_gt o)

-- Nulls first, and equal to each other.
abbrev pub nulls_first : Bool → Bool → Ordering → Ordering
nulls_first true true o = Ordering.eq
nulls_first true false o = Ordering.lt
nulls_first false true o = Ordering.gt
nulls_first false false o = o

-- The order of values of one type: nulls, then by the number or by the bytes.
unfoldable pub order : DataValue → DataValue → Ordering
unfolding number
order (digit dt n1 v1) (digit dt2 n2 v2) =
    nulls_first n1 n2 (compare_ℤ (number dt v1) (number dt v2))
order (chars dt n1 b1 m1) (chars dt2 n2 b2 m2) = nulls_first n1 n2 (lex b1 b2)
order null_literal dv2 = Ordering.eq
order dv1 dv2 = Ordering.eq

pub by_three :
    {dv1 dv2 : DataValue} (o : Ordering)
    → equal dv1 dv2 ≡ is_eq o
    → greater dv1 dv2 ≡ is_gt o
    → greater_equal dv1 dv2 ≡ not (is_lt o)
    → Compares o dv1 dv2
unfolding unequal less less_equal
by_three o e g h = record {
  eq = e;
  gt = g;
  ge = h;
  ne = ap not e;
  lt = ground (arith, h);
  le = ap not g;
}

same_eq :
    (dv1 dv2 : DataValue)
    → code (get_data_type dv1) ≡ code (get_data_type dv2)
    → equal dv1 dv2 ≡ value_eq dv1 dv2
unfolding equal
same_eq dv1 dv2 e = ground (arith, e)

same_gt :
    (dv1 dv2 : DataValue)
    → code (get_data_type dv1) ≡ code (get_data_type dv2)
    → greater dv1 dv2 ≡ value_gt dv1 dv2
unfolding greater
same_gt dv1 dv2 e = ground (arith, e)

pub same_ge :
    (dv1 dv2 : DataValue)
    → code (get_data_type dv1) ≡ code (get_data_type dv2)
    → greater_equal dv1 dv2 ≡ not (value_lt dv1 dv2)
unfolding greater_equal
same_ge dv1 dv2 e = ground (arith, e)

-- Bit patterns are equal when their numbers are.
number_eq :
    (dt : DataType) (v w : ℕ)
    → v < 256 ^ width dt
    → w < 256 ^ width dt
    → (v == w) ≡ is_eq (compare_ℤ (number dt v) (number dt w))
unfolding number width is_signed
number_eq dt v w p q = ground arith

-- The enumeration's values differ.
abbrev type_of : ℕ → DataType
unfolding code
type_of c =
    if c == code DataType.char
    then DataType.char
    else if c == code DataType.short
    then DataType.short
    else if c == code DataType.int
    then DataType.int
    else if c == code DataType.long
    then DataType.long
    else if c == code DataType.byte
    then DataType.byte
    else if c == code DataType.ushort
    then DataType.ushort
    else if c == code DataType.uint
    then DataType.uint
    else if c == code DataType.ulong
    then DataType.ulong
    else if c == code DataType.fixchar
    then DataType.fixchar
    else if c == code DataType.varchar
    then DataType.varchar
    else if c == code DataType.bool
    then DataType.bool
    else DataType.val_null

type_of-code : (dt : DataType) → type_of (code dt) ≡ dt
unfolding code
type_of-code DataType.char = refl
type_of-code DataType.short = refl
type_of-code DataType.int = refl
type_of-code DataType.long = refl
type_of-code DataType.byte = refl
type_of-code DataType.ushort = refl
type_of-code DataType.uint = refl
type_of-code DataType.ulong = refl
type_of-code DataType.fixchar = refl
type_of-code DataType.varchar = refl
type_of-code DataType.bool = refl
type_of-code DataType.val_null = refl

pub code_injective : (d1 d2 : DataType) → code d1 ≡ code d2 → d1 ≡ d2
code_injective d1 d2 e = sym (type_of-code d1) ∙ ap type_of e ∙ type_of-code d2

-- The types of digits, of strings and of the NULL literal differ.
pub digital-not_array : (dt : DataType) → is_digital dt ≡ true → is_array_type dt ≡ false
unfolding is_digital is_array_type code
digital-not_array DataType.char e = refl
digital-not_array DataType.short e = refl
digital-not_array DataType.int e = refl
digital-not_array DataType.long e = refl
digital-not_array DataType.byte e = refl
digital-not_array DataType.ushort e = refl
digital-not_array DataType.uint e = refl
digital-not_array DataType.ulong e = refl
digital-not_array DataType.fixchar e = cc
digital-not_array DataType.varchar e = cc
digital-not_array DataType.bool e = refl
digital-not_array DataType.val_null e = refl

pub same_digital : (d1 d2 : DataType) → code d1 ≡ code d2 → is_digital d1 ≡ is_digital d2
unfolding is_digital
same_digital d1 d2 e = ap (λ c. bit_and c digital_type == digital_type) e

pub same_array : (d1 d2 : DataType) → code d1 ≡ code d2 → is_array_type d1 ≡ is_array_type d2
unfolding is_array_type
same_array d1 d2 e = ap (λ c. bit_and c array_type == array_type) e

pub apart_types :
    (d1 d2 : DataType) → is_digital d1 ≡ true → is_array_type d2 ≡ true → code d1 ≢ code d2
apart_types d1 d2 p q e = absurd (ground (arith, digital-not_array d1 p, same_array d1 d2 e, q))

pub null_not_digital : is_digital DataType.val_null ≡ false
unfolding is_digital code
null_not_digital = refl

pub null_not_array : is_array_type DataType.val_null ≡ false
unfolding is_array_type code
null_not_array = refl

pub not_null :
    (dt : DataType)
    → (is_digital dt ≡ true) ⊎ (is_array_type dt ≡ true)
    → code dt ≢ code DataType.val_null
not_null dt (inl d) e =
    absurd (ground (arith, same_digital dt DataType.val_null e, null_not_digital, d))
not_null dt (inr d) e =
    absurd (ground (arith, same_array dt DataType.val_null e, null_not_array, d))

-- The parts of the operators for one class, given that the contents compare so.
null_first_eq :
    (n1 n2 b : Bool) (o : Ordering) → b ≡ is_eq o → null_eq n1 n2 b ≡ is_eq (nulls_first n1 n2 o)
null_first_eq n1 n2 b o e = ground (arith, e)

null_first_gt :
    (n1 n2 b : Bool) (o : Ordering) → b ≡ is_gt o → null_gt n1 n2 b ≡ is_gt (nulls_first n1 n2 o)
null_first_gt n1 n2 b o e = ground (arith, e)

null_first_ge :
    (n1 n2 b : Bool) (o : Ordering)
    → b ≡ not (is_lt o)
    → not (not (null_ge n1 n2 b)) ≡ not (is_lt (nulls_first n1 n2 o))
null_first_ge n1 n2 b o e = ground (arith, e)

lex-length : (xs ys : List ℕ) → (length xs == length ys) ≡ false → is_eq (lex xs ys) ≡ false
lex-length xs ys e = elim (Bool-cases (is_eq (lex xs ys))) [
  | inl h ↦ absurd (differ (lex-eq xs ys (is_eq-eq (lex xs ys) h)))
  | inr h ↦ h
]
  where
    is_eq-eq : (o : Ordering) → is_eq o ≡ true → o ≡ Ordering.eq
    is_eq-eq Ordering.lt h = cc
    is_eq-eq Ordering.eq h = refl
    is_eq-eq Ordering.gt h = cc

    differ : xs ≢ ys
    differ p = ground (arith, e, ap length p)

string_eq :
    (c : Bool) (xs ys : List ℕ)
    → sign (bytes_compare xs ys) ≡ lex xs ys
    → (if c && not (length xs == length ys) then false else is_eq (sign (bytes_compare xs ys)))
      ≡ is_eq (lex xs ys)
string_eq c xs ys e = ground (arith, e, lex-length xs ys)

-- Two values of one type: the six operators agree on their order, which has nulls first and equal, then
-- goes by the number of a digit and by the bytes of a string. Strings are shorter than 2 ^ 31 bytes.
pub same_type-Compares :
    (dv1 dv2 : DataValue)
    → IsTyped dv1
    → IsTyped dv2
    → code (get_data_type dv1) ≡ code (get_data_type dv2)
    → Compares (order dv1 dv2) dv1 dv2
unfolding IsTyped order value_eq value_gt value_lt code
same_type-Compares (digit dt n1 v1) (digit dt2 n2 v2) (d1, b1) (d2, b2) e =
    by_three _
      (same_eq (digit dt n1 v1) (digit dt2 n2 v2) e
        ∙ null_first_eq n1 n2 _ _ (
            number_eq dt v1 v2 b1
              (subst (λ t. v2 < 256 ^ width t) (sym (code_injective dt dt2 e)) b2)))
      (same_gt (digit dt n1 v1) (digit dt2 n2 v2) e ∙ null_first_gt n1 n2 _ _ refl)
      (same_ge (digit dt n1 v1) (digit dt2 n2 v2) e ∙ null_first_ge n1 n2 _ _ refl)
same_type-Compares (digit dt n1 v1) (chars dt2 n2 b2 m2) (d1, b1) (d2, l2, k2, h2) e =
    absurd (apart_types dt dt2 d1 d2 e)
same_type-Compares (digit dt n1 v1) null_literal (d1, b1) h2 e = absurd (not_null dt (inl d1) e)
same_type-Compares (chars dt n1 b1 m1) (digit dt2 n2 v2) (d1, l1, k1, h1) (d2, b2) e =
    absurd (apart_types dt2 dt d2 d1 (sym e))
same_type-Compares (chars dt n1 b1 m1) (chars dt2 n2 b2 m2) (d1, l1, k1, h1) (d2, l2, k2, h2) e =
    let s = bytes_compare-lex b1 b2 h1 h2 (omega arith) (omega arith) in
    by_three _
      (same_eq (chars dt n1 b1 m1) (chars dt2 n2 b2 m2) e
        ∙ null_first_eq n1 n2 _ _ (string_eq _ b1 b2 s))
      (same_gt (chars dt n1 b1 m1) (chars dt2 n2 b2 m2) e ∙ null_first_gt n1 n2 _ _ (ap is_gt s))
      (same_ge (chars dt n1 b1 m1) (chars dt2 n2 b2 m2) e
        ∙ null_first_ge n1 n2 _ _ (ap (λ o. not (is_lt o)) s))
same_type-Compares (chars dt n1 b1 m1) null_literal (d1, l1, k1, h1) h2 e =
    absurd (not_null dt (inr d1) e)
same_type-Compares null_literal (digit dt2 n2 v2) h1 (d2, b2) e =
    absurd (not_null dt2 (inl d2) (sym e))
same_type-Compares null_literal (chars dt2 n2 b2 m2) h1 (d2, l2, k2, h2) e =
    absurd (not_null dt2 (inr d2) (sym e))
same_type-Compares null_literal null_literal h1 h2 e =
    by_three _ (same_eq null_literal null_literal e) (same_gt null_literal null_literal e)
      (same_ge null_literal null_literal e)
