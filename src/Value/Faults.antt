-- ===== src/Value/Faults.antt =====
-- Where the operators on values of different types disagree with the values.
use rapid_db.Common.{
  ℕ, ◌^◌, ◌<◌, ◌≤◌, ◌≡◌, ◌≢◌, ◌↔◌, ◌⊎◌, inl, inr, refl, ap, ◌∙◌, List, [], ◌∷◌, true, false, not,
  Ordering, length, arith, Bool-cases,
}
use rapid_db.Common.Int.{ℤ, pos, compare_ℤ}
use rapid_db.Bytes.{bytes_equal}
use rapid_db.Bytes.Words.{IsBytes}
use rapid_db.Bytes.Lex.{lex}
use rapid_db.Bytes.Compare.{bytes_compare-lex, bytes_equal_iff}
use rapid_db.Value.{
  DataType, digit, chars, null_literal, code, width, is_signed, is_digital, is_array_type,
  is_auto_primary_key, number, get_long, get_buff, is_eq, is_gt, equal, greater, less, IsTyped,
  value_lt,
}
use rapid_db.Value.Order.{same_ge}
use rapid_db.Value.Integers.{by_long}

number_zero : (dt : DataType) → number dt 0 ≡ pos 0
unfolding number is_signed width
number_zero DataType.char = refl
number_zero DataType.short = refl
number_zero DataType.int = refl
number_zero DataType.long = refl
number_zero DataType.byte = refl
number_zero DataType.ushort = refl
number_zero DataType.uint = refl
number_zero DataType.ulong = refl
number_zero DataType.fixchar = refl
number_zero DataType.varchar = refl
number_zero DataType.bool = refl
number_zero DataType.val_null = refl

prefix-gt : (xs : List ℕ) → 0 < length xs → lex xs [] ≡ Ordering.gt
unfolding lex
prefix-gt [] p = absurd (omega arith)
prefix-gt (x ∷ xs) p = refl

-- A null of one integer type equals a zero of another integer type, though a null is less than a zero
-- of its own type.
pub null_equals_zero :
    (d1 d2 : DataType) (v : ℕ)
    → is_auto_primary_key d1 ≡ true
    → is_auto_primary_key d2 ≡ true
    → code d1 ≢ code d2
    → (equal (digit d1 true v) (digit d2 false 0) ≡ true)
      × (less (digit d2 true v) (digit d2 false 0) ≡ true)
unfolding get_long less value_lt
null_equals_zero d1 d2 v p q ne = (
  (by_long d1 d2 true false v 0 p q ne).eq ∙ ground (arith, number_zero d2),
  ap not (same_ge (digit d2 true v) (digit d2 false 0) refl),
)

compare_self : (z : ℤ) → is_eq (compare_ℤ z z) ≡ true
compare_self z = ground arith

-- A LONG below 0 equals the ULONG with the same bits.
pub ulong_equals_negative :
    (v : ℕ)
    → 2 ^ 63 ≤ v
    → v < 2 ^ 64
    → (equal (digit DataType.long false v) (digit DataType.ulong false v) ≡ true)
      × (number DataType.long v ≢ number DataType.ulong v)
unfolding get_long number is_signed width code is_auto_primary_key
ulong_equals_negative v l h = (
  (by_long DataType.long DataType.ulong false false v v refl refl
        (λ e. absurd (omega (arith, e)))).eq
      ∙ compare_self (get_long (digit DataType.long false v)),
  (λ e. absurd (ground (arith, e))),
)

-- == of a VARCHAR and a FIXCHAR, neither null: true exactly if their bytes differ.
pub equal_strings_inverted :
    (xs ys : List ℕ) (m1 m2 : ℕ)
    → IsBytes xs
    → IsBytes ys
    → (equal (chars DataType.varchar false xs m1) (chars DataType.fixchar false ys m2) ≡ true)
      ↔ (xs ≢ ys)
unfolding equal get_buff code is_auto_primary_key is_digital is_array_type
equal_strings_inverted xs ys m1 m2 a b = (
  (λ e f. absurd (ground (arith, e, (bytes_equal_iff xs ys a b).1 f))),
  λ n. different (Bool-cases (bytes_equal xs ys)) n,
)
  where
    different :
        (bytes_equal xs ys ≡ true) ⊎ (bytes_equal xs ys ≡ false)
        → xs ≢ ys
        → not (bytes_equal xs ys) ≡ true
    different (inl e) n = absurd (n ((bytes_equal_iff xs ys a b).0 e))
    different (inr e) n = ap not e

-- Each of a string and the NULL literal is greater than the other, for a string of at least one byte
-- that is not null.
pub greater_both_ways :
    (xs : List ℕ) (m : ℕ)
    → IsTyped (chars DataType.varchar false xs m)
    → 0 < length xs
    → (greater null_literal (chars DataType.varchar false xs m) ≡ true)
      × (greater (chars DataType.varchar false xs m) null_literal ≡ true)
unfolding greater get_buff code is_auto_primary_key is_digital is_array_type IsTyped lex
greater_both_ways xs m (d, l, k, b) p = (
  refl,
  ap is_gt (bytes_compare-lex xs [] b tt (omega arith) (omega arith)) ∙ ap is_gt (prefix-gt xs p),
)
