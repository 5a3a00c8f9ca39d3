-- ===== src/Value/Integers.antt =====
-- The operators on integers and BOOLs of any types against the order of the integers.
use rapid_db.Common.{
  ℕ, ◌^◌, ◌<◌, ◌≡◌, ◌≢◌, inl, inr, refl, ap, subst, Bool, true, false, ◌&&◌, arith, Bool-cases, ap₂,
  ℕ_discrete,
}
use rapid_db.Common.Int.{compare_ℤ}
use rapid_db.Value.{
  DataType, digit, code, width, is_signed, is_digital, is_auto_primary_key, number, get_long,
  get_double, equal, greater, greater_equal, IsTyped,
}
use rapid_db.Value.Order.{Compares, order, by_three, same_type-Compares, code_injective}

-- Integers of two types go by GetLong.
pub by_long :
    (d1 d2 : DataType) (n1 n2 : Bool) (v1 v2 : ℕ)
    → is_auto_primary_key d1 ≡ true
    → is_auto_primary_key d2 ≡ true
    → code d1 ≢ code d2
    → Compares
        (compare_ℤ (get_long (digit d1 n1 v1)) (get_long (digit d2 n2 v2)))
        (digit d1 n1 v1)
        (digit d2 n2 v2)
unfolding equal greater greater_equal
by_long d1 d2 n1 n2 v1 v2 p q ne =
    by_three _ (ground (arith, p, q, ne)) (ground (arith, p, q, ne)) (ground (arith, p, q, ne))

pub by_double :
    (d1 d2 : DataType) (n1 n2 : Bool) (v1 v2 : ℕ)
    → is_digital d1 ≡ true
    → is_digital d2 ≡ true
    → (is_auto_primary_key d1 && is_auto_primary_key d2) ≡ false
    → code d1 ≢ code d2
    → Compares
        (compare_ℤ (get_double (digit d1 n1 v1)) (get_double (digit d2 n2 v2)))
        (digit d1 n1 v1)
        (digit d2 n2 v2)
unfolding equal greater greater_equal
by_double d1 d2 n1 n2 v1 v2 p q a ne =
    by_three _ (ground (arith, p, q, a, ne)) (ground (arith, p, q, a, ne))
      (ground (arith, p, q, a, ne))

-- A ULONG is one that a LONG can hold.
abbrev pub FitsLong : DataType → ℕ → Type 0
FitsLong dt v = code dt ≡ code DataType.ulong → v < 2 ^ 63

fits_long : (dt : DataType) (v : ℕ) → FitsLong dt v → get_long (digit dt false v) ≡ number dt v
unfolding get_long number code is_signed width
fits_long DataType.ulong v h = ground (arith, h refl)
fits_long DataType.char v h = refl
fits_long DataType.short v h = refl
fits_long DataType.int v h = refl
fits_long DataType.long v h = refl
fits_long DataType.byte v h = refl
fits_long DataType.ushort v h = refl
fits_long DataType.uint v h = refl
fits_long DataType.fixchar v h = refl
fits_long DataType.varchar v h = refl
fits_long DataType.bool v h = refl
fits_long DataType.val_null v h = refl

same_order :
    (d1 d2 : DataType) (v1 v2 : ℕ)
    → code d1 ≡ code d2
    → order (digit d1 false v1) (digit d2 false v2) ≡ compare_ℤ (number d1 v1) (number d2 v2)
unfolding order
same_order d1 d2 v1 v2 e = ap (λ t. compare_ℤ (number d1 v1) (number t v2)) (code_injective d1 d2 e)

-- Two values of integer types or BOOL, of one type or of two, neither null, and a ULONG below 2 ^ 63:
-- the six operators agree with the order of the integers that they stand for.
pub integers-Compares :
    (d1 d2 : DataType) (v1 v2 : ℕ)
    → IsTyped (digit d1 false v1)
    → IsTyped (digit d2 false v2)
    → FitsLong d1 v1
    → FitsLong d2 v2
    → Compares (compare_ℤ (number d1 v1) (number d2 v2)) (digit d1 false v1) (digit d2 false v2)
unfolding IsTyped get_double
integers-Compares d1 d2 v1 v2 t1 t2 f1 f2 = elim (ℕ_discrete (code d1) (code d2)) [
  | yes e ↦
      subst (λ o. Compares o (digit d1 false v1) (digit d2 false v2)) (same_order d1 d2 v1 v2 e)
        (same_type-Compares (digit d1 false v1) (digit d2 false v2) t1 t2 e)
  | no ne ↦ elim (Bool-cases (is_auto_primary_key d1)) [
    | inl a ↦ elim (Bool-cases (is_auto_primary_key d2)) [
      | inl b ↦
          subst (λ o. Compares o (digit d1 false v1) (digit d2 false v2))
            (ap₂ compare_ℤ (fits_long d1 v1 f1) (fits_long d2 v2 f2))
            (by_long d1 d2 false false v1 v2 a b ne)
      | inr b ↦ by_double d1 d2 false false v1 v2 t1.0 t2.0 (ground (arith, b)) ne
    ]
    | inr a ↦ by_double d1 d2 false false v1 v2 t1.0 t2.0 (ground (arith, a)) ne
  ]
]
