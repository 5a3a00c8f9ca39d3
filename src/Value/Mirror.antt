-- ===== src/Value/Mirror.antt =====
-- The operators with their two values changed round.
use rapid_db.Common.{
  ℕ, ◌^◌, ◌<◌, ◌≡◌, ◌≢◌, inl, inr, refl, sym, ap, ◌∙◌, List, length, Bool, true, false, ◌&&◌, not,
  arith, Bool-cases, Ordering, ℕ_discrete,
}
use rapid_db.Common.Int.{ℤ, compare_ℤ, sign}
use rapid_db.Bytes.{bytes_compare, bytes_equal}
use rapid_db.Bytes.Words.{IsBytes}
use rapid_db.Bytes.Lex.{lex, lex-flip, flip}
use rapid_db.Bytes.Compare.{bytes_compare-lex, bytes_equal_iff}
use rapid_db.Value.{
  DataType, DataValue, digit, chars, null_literal, get_data_type, code, number, get_long,
  get_double, get_buff, is_eq, is_gt, is_lt, equal, greater, greater_equal, less, less_equal,
  able_compare, IsTyped, is_auto_primary_key, is_digital, is_array_type,
}
use rapid_db.Value.Order.{
  Compares, order, same_type-Compares, code_injective, nulls_first, digital-not_array, not_null,
  apart_types, null_not_digital, null_not_array,
}
use rapid_db.Value.Integers.{by_long, by_double}

-- All the operators agree on the order of two values either way round.
unfoldable pub Mirrors : DataValue → DataValue → Type 0
Mirrors v w =
    (equal w v ≡ equal v w) × (greater w v ≡ less v w) × (greater_equal w v ≡ less_equal v w)

flip_eq : (o : Ordering) → is_eq (flip o) ≡ is_eq o
flip_eq o = ground arith

flip_gt : (o : Ordering) → is_gt (flip o) ≡ is_lt o
flip_gt o = ground arith

flip_ge : (o : Ordering) → not (is_lt (flip o)) ≡ not (is_gt o)
flip_ge o = ground arith

mirrored :
    (o p : Ordering) (v w : DataValue) → Compares o v w → Compares p w v → p ≡ flip o → Mirrors v w
unfolding Mirrors
mirrored o p v w c d e = (
  d.eq ∙ ap is_eq e ∙ flip_eq o ∙ sym c.eq,
  d.gt ∙ ap is_gt e ∙ flip_gt o ∙ sym c.lt,
  d.ge ∙ ap (λ q. not (is_lt q)) e ∙ flip_ge o ∙ sym c.le,
)

ints_flip : (a b : ℤ) → compare_ℤ b a ≡ flip (compare_ℤ a b)
ints_flip a b = ground arith

nulls_flip :
    (n1 n2 : Bool) (o p : Ordering) → p ≡ flip o → nulls_first n2 n1 p ≡ flip (nulls_first n1 n2 o)
nulls_flip n1 n2 o p e = ground (arith, e)

pub order-flip :
    (v w : DataValue)
    → IsTyped v
    → IsTyped w
    → code (get_data_type v) ≡ code (get_data_type w)
    → order w v ≡ flip (order v w)
unfolding order IsTyped
order-flip (digit d1 n1 v1) (digit d2 n2 v2) a b e =
    ap (λ t. nulls_first n2 n1 (compare_ℤ (number t v2) (number t v1)))
      (sym (code_injective d1 d2 e))
    ∙ nulls_flip n1 n2 (compare_ℤ (number d1 v1) (number d1 v2))
        (compare_ℤ (number d1 v2) (number d1 v1)) (ints_flip (number d1 v1) (number d1 v2))
order-flip (digit d1 n1 v1) (chars d2 n2 b2 m2) a b e = refl
order-flip (digit d1 n1 v1) null_literal a b e = refl
order-flip (chars d1 n1 b1 m1) (digit d2 n2 v2) a b e = refl
order-flip (chars d1 n1 b1 m1) (chars d2 n2 b2 m2) a b e = ground (arith, lex-flip b1 b2)
order-flip (chars d1 n1 b1 m1) null_literal a b e = refl
order-flip null_literal (digit d2 n2 v2) a b e = refl
order-flip null_literal (chars d2 n2 b2 m2) a b e = refl
order-flip null_literal null_literal a b e = refl

same_type :
    (v w : DataValue)
    → IsTyped v
    → IsTyped w
    → code (get_data_type v) ≡ code (get_data_type w)
    → Mirrors v w
same_type v w a b e =
    mirrored _ _ v w (same_type-Compares v w a b e) (same_type-Compares w v b a (sym e))
      (order-flip v w a b e)

digits :
    (d1 d2 : DataType) (n1 n2 : Bool) (v1 v2 : ℕ)
    → IsTyped (digit d1 n1 v1)
    → IsTyped (digit d2 n2 v2)
    → Mirrors (digit d1 n1 v1) (digit d2 n2 v2)
unfolding IsTyped
digits d1 d2 n1 n2 v1 v2 a b = elim (ℕ_discrete (code d1) (code d2)) [
  | yes e ↦ same_type (digit d1 n1 v1) (digit d2 n2 v2) a b e
  | no ne ↦ elim (Bool-cases (is_auto_primary_key d1 && is_auto_primary_key d2)) [
    | inl e ↦
        mirrored _ _ (digit d1 n1 v1) (digit d2 n2 v2)
          (by_long d1 d2 n1 n2 v1 v2 (ground (arith, e)) (ground (arith, e)) ne)
          (by_long d2 d1 n2 n1 v2 v1 (ground (arith, e)) (ground (arith, e)) (λ q. ne (sym q)))
          (ints_flip (get_long (digit d1 n1 v1)) (get_long (digit d2 n2 v2)))
    | inr e ↦
        mirrored _ _ (digit d1 n1 v1) (digit d2 n2 v2) (by_double d1 d2 n1 n2 v1 v2 a.0 b.0 e ne)
          (by_double d2 d1 n2 n1 v2 v1 b.0 a.0 (ground (arith, e)) (λ q. ne (sym q)))
          (ints_flip (get_double (digit d1 n1 v1)) (get_double (digit d2 n2 v2)))
  ]
]

array-not_auto : (dt : DataType) → is_array_type dt ≡ true → is_auto_primary_key dt ≡ false
unfolding is_auto_primary_key is_array_type code
array-not_auto DataType.char e = cc
array-not_auto DataType.short e = cc
array-not_auto DataType.int e = cc
array-not_auto DataType.long e = cc
array-not_auto DataType.byte e = cc
array-not_auto DataType.ushort e = cc
array-not_auto DataType.uint e = cc
array-not_auto DataType.ulong e = cc
array-not_auto DataType.fixchar e = refl
array-not_auto DataType.varchar e = refl
array-not_auto DataType.bool e = refl
array-not_auto DataType.val_null e = refl

array-not_digital : (dt : DataType) → is_array_type dt ≡ true → is_digital dt ≡ false
unfolding is_digital is_array_type code
array-not_digital DataType.char e = cc
array-not_digital DataType.short e = cc
array-not_digital DataType.int e = cc
array-not_digital DataType.long e = cc
array-not_digital DataType.byte e = cc
array-not_digital DataType.ushort e = cc
array-not_digital DataType.uint e = cc
array-not_digital DataType.ulong e = cc
array-not_digital DataType.fixchar e = refl
array-not_digital DataType.varchar e = refl
array-not_digital DataType.bool e = cc
array-not_digital DataType.val_null e = refl

-- Two types of strings.
by_bytes :
    (d1 d2 : DataType) (n1 n2 : Bool) (b1 b2 : List ℕ) (m1 m2 : ℕ)
    → is_array_type d1 ≡ true
    → code d1 ≢ code d2
    → (equal (chars d1 n1 b1 m1) (chars d2 n2 b2 m2)
        ≡ not (bytes_equal (get_buff (chars d1 n1 b1 m1)) (get_buff (chars d2 n2 b2 m2))))
      × (greater (chars d1 n1 b1 m1) (chars d2 n2 b2 m2)
          ≡ is_gt
              (sign (bytes_compare (get_buff (chars d1 n1 b1 m1)) (get_buff (chars d2 n2 b2 m2)))))
      × (greater_equal (chars d1 n1 b1 m1) (chars d2 n2 b2 m2)
          ≡ not (
              is_lt (
                sign
                  (bytes_compare (get_buff (chars d1 n1 b1 m1)) (get_buff (chars d2 n2 b2 m2))))))
unfolding equal greater greater_equal
by_bytes d1 d2 n1 n2 b1 b2 m1 m2 a ne = (
  ground (arith, a, ne, array-not_auto d1 a, array-not_digital d1 a),
  ground (arith, a, ne, array-not_auto d1 a, array-not_digital d1 a),
  ground (arith, a, ne, array-not_auto d1 a, array-not_digital d1 a),
)

bytes_equal-sym : (xs ys : List ℕ) → IsBytes xs → IsBytes ys → bytes_equal ys xs ≡ bytes_equal xs ys
bytes_equal-sym xs ys a b =
    both (bytes_equal xs ys) (bytes_equal ys xs)
      (λ e. (bytes_equal_iff ys xs b a).1 (sym ((bytes_equal_iff xs ys a b).0 e)))
      (λ e. (bytes_equal_iff xs ys a b).1 (sym ((bytes_equal_iff ys xs b a).0 e)))
  where
    both : (p q : Bool) → (p ≡ true → q ≡ true) → (q ≡ true → p ≡ true) → q ≡ p
    both true true f g = refl
    both true false f g = f refl
    both false true f g = sym (g refl)
    both false false f g = refl

buff-IsBytes :
    (dt : DataType) (n : Bool) (bys : List ℕ) (max : ℕ)
    → IsTyped (chars dt n bys max)
    → IsBytes (get_buff (chars dt n bys max)) × (length (get_buff (chars dt n bys max)) < 2 ^ 31)
unfolding IsTyped get_buff
buff-IsBytes dt true bys max (a, l, k, b) = (tt, omega arith)
buff-IsBytes dt false bys max (a, l, k, b) = (b, omega arith)

strings :
    (d1 d2 : DataType) (n1 n2 : Bool) (b1 b2 : List ℕ) (m1 m2 : ℕ)
    → IsTyped (chars d1 n1 b1 m1)
    → IsTyped (chars d2 n2 b2 m2)
    → Mirrors (chars d1 n1 b1 m1) (chars d2 n2 b2 m2)
unfolding IsTyped Mirrors less less_equal
strings d1 d2 n1 n2 b1 b2 m1 m2 a b = elim (ℕ_discrete (code d1) (code d2)) [
  | yes e ↦ same_type (chars d1 n1 b1 m1) (chars d2 n2 b2 m2) a b e
  | no ne ↦
      let (i1, l1) = buff-IsBytes d1 n1 b1 m1 a in
      let (i2, l2) = buff-IsBytes d2 n2 b2 m2 b in
      let (e1, g1, h1) = by_bytes d1 d2 n1 n2 b1 b2 m1 m2 a.0 ne in
      let (e2, g2, h2) = by_bytes d2 d1 n2 n1 b2 b1 m2 m1 b.0 (λ q. ne (sym q)) in
      let xs = get_buff (chars d1 n1 b1 m1) in
      let ys = get_buff (chars d2 n2 b2 m2) in
      let there = bytes_compare-lex xs ys i1 i2 l1 l2 in
      let back = bytes_compare-lex ys xs i2 i1 l2 l1 ∙ lex-flip xs ys in
      (
        e2 ∙ ap not (bytes_equal-sym xs ys i1 i2) ∙ sym e1,
        g2
            ∙ ap is_gt back
            ∙ flip_gt (lex xs ys)
            ∙ twice (is_lt (lex xs ys))
            ∙ sym (ap not (h1 ∙ ap (λ o. not (is_lt o)) there)),
        h2
            ∙ ap (λ o. not (is_lt o)) back
            ∙ flip_ge (lex xs ys)
            ∙ sym (ap not (g1 ∙ ap is_gt there)),
      )
]
  where
    twice : (b : Bool) → b ≡ not (not b)
    twice b = ground arith

incomparable :
    (v w : DataValue)
    → code (get_data_type v) ≢ code (get_data_type w)
    → (is_digital (get_data_type v) && is_digital (get_data_type w)) ≡ false
    → (is_array_type (get_data_type v) && is_array_type (get_data_type w)) ≡ false
    → able_compare v w ≡ true
    → ⊥
unfolding able_compare
incomparable v w ne d a e = ground (arith, ne, d, a, e)

-- Two values that AbleCompare lets pass.
pub able_compare-Mirrors :
    (v w : DataValue) → IsTyped v → IsTyped w → able_compare v w ≡ true → Mirrors v w
unfolding IsTyped
able_compare-Mirrors (digit d1 n1 v1) (digit d2 n2 v2) a b e = digits d1 d2 n1 n2 v1 v2 a b
able_compare-Mirrors (digit d1 n1 v1) (chars d2 n2 b2 m2) a b e = absurd (
    incomparable (digit d1 n1 v1) (chars d2 n2 b2 m2) (apart_types d1 d2 a.0 b.0)
      (ground (arith, array-not_digital d2 b.0)) (ground (arith, digital-not_array d1 a.0)) e)
able_compare-Mirrors (digit d1 n1 v1) null_literal a b e = absurd (
    incomparable (digit d1 n1 v1) null_literal (not_null d1 (inl a.0))
      (ground (arith, null_not_digital)) (ground (arith, null_not_array)) e)
able_compare-Mirrors (chars d1 n1 b1 m1) (digit d2 n2 v2) a b e = absurd (
    incomparable (chars d1 n1 b1 m1) (digit d2 n2 v2) (λ q. apart_types d2 d1 b.0 a.0 (sym q))
      (ground (arith, array-not_digital d1 a.0)) (ground (arith, digital-not_array d2 b.0)) e)
able_compare-Mirrors (chars d1 n1 b1 m1) (chars d2 n2 b2 m2) a b e =
    strings d1 d2 n1 n2 b1 b2 m1 m2 a b
able_compare-Mirrors (chars d1 n1 b1 m1) null_literal a b e = absurd (
    incomparable (chars d1 n1 b1 m1) null_literal (not_null d1 (inr a.0))
      (ground (arith, null_not_digital)) (ground (arith, null_not_array)) e)
able_compare-Mirrors null_literal (digit d2 n2 v2) a b e = absurd (
    incomparable null_literal (digit d2 n2 v2) (λ q. not_null d2 (inl b.0) (sym q))
      (ground (arith, null_not_digital)) (ground (arith, null_not_array)) e)
able_compare-Mirrors null_literal (chars d2 n2 b2 m2) a b e = absurd (
    incomparable null_literal (chars d2 n2 b2 m2) (λ q. not_null d2 (inr b.0) (sym q))
      (ground (arith, null_not_digital)) (ground (arith, null_not_array)) e)
able_compare-Mirrors null_literal null_literal a b e = same_type null_literal null_literal a b refl

pub able_compare-sym : (v w : DataValue) → able_compare w v ≡ able_compare v w
unfolding able_compare
able_compare-sym v w = ground arith
