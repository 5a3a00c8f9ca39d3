-- ===== src/Value/Keys.antt =====
-- The key bytes of values against the operators on them.
use rapid_db.Common.{
  ℕ, ◌+◌, ◌^◌, ◌<◌, ◌≤◌, ◌≡◌, ◌≢◌, inl, inr, refl, sym, ap₂, subst, ◌∙◌, List, [], ◌∷◌, ◌++◌, true,
  false, ltb, if◌then◌else◌, length, arith, Bool-cases, length-append, All, All-append,
}
use rapid_db.Common.Int.{pos, compare_ℤ, sign}
use rapid_db.Bytes.{bytes_compare}
use rapid_db.Bytes.Words.{IsBytes}
use rapid_db.Bytes.Lex.{lex, and_then, lex-append}
use rapid_db.Bytes.Compare.{bytes_compare-lex}
use rapid_db.Bytes.Keys.{int_key-order, uint_key-order}
use rapid_db.Value.{
  DataType, DataValue, digit, chars, null_literal, get_data_type, code, width, number, is_signed,
  IsTyped,
}
use rapid_db.Value.Stored.{SavePosition, digital_to_bytes, is_fixchar, write_data}
use rapid_db.Value.Returned.{Fits, length-digital_to_bytes}
use rapid_db.Value.Order.{order, code_injective, apart_types}

-- A string without a zero byte.
abbrev pub NoZero : List ℕ → Type 0
NoZero bys = All (λ b. 0 < b) bys

-- The terminator of a key is less than any byte of a longer string.
terminated :
    (xs ys : List ℕ) (s t : List ℕ)
    → NoZero xs
    → NoZero ys
    → lex ((xs ++ (0 ∷ [])) ++ s) ((ys ++ (0 ∷ [])) ++ t) ≡ and_then (lex xs ys) (lex s t)
unfolding lex
terminated [] [] s t p q = ground arith
terminated [] (y ∷ ys) s t p q = ground (arith, q.0)
terminated (x ∷ xs) [] s t p q = ground (arith, p.0)
terminated (x ∷ xs) (y ∷ ys) s t p q = ground (arith, terminated xs ys s t p.1 q.1)

-- A string of the maximal length has no terminator, and differs within the shorter one's length.
longer :
    (xs ys : List ℕ) (s t : List ℕ)
    → NoZero xs
    → length ys < length xs
    → lex (xs ++ s) ((ys ++ (0 ∷ [])) ++ t) ≡ and_then (lex xs ys) (lex s t)
unfolding lex
longer [] ys s t p h = absurd (omega arith)
longer (x ∷ xs) [] s t p h = ground (arith, p.0)
longer (x ∷ xs) (y ∷ ys) s t p h = ground (arith, longer xs ys s t p.1 (omega arith))

shorter :
    (xs ys : List ℕ) (s t : List ℕ)
    → NoZero ys
    → length xs < length ys
    → lex ((xs ++ (0 ∷ [])) ++ s) (ys ++ t) ≡ and_then (lex xs ys) (lex s t)
unfolding lex
shorter xs [] s t p h = absurd (omega arith)
shorter [] (y ∷ ys) s t p h = ground (arith, p.0)
shorter (x ∷ xs) (y ∷ ys) s t p h = ground (arith, shorter xs ys s t p.1 (omega arith))

-- A value that may stand in a key: not null, and a VARCHAR without a zero byte.
unfoldable pub IsKey : DataValue → Type 0
unfolding Fits code
IsKey (digit dt null v) = Fits (digit dt null v) × (null ≡ false)
IsKey (chars dt null bys max) =
    Fits (chars dt null bys max) × (null ≡ false) × (is_fixchar dt ≡ false → NoZero bys)
IsKey null_literal = ⊥

-- GetMaxLength.
unfoldable pub get_max_length : DataValue → ℕ
unfolding width
get_max_length (digit dt null v) = width dt
get_max_length (chars dt null bys max) = max
get_max_length null_literal = 0

varchar_key :
    (xs ys : List ℕ) (max : ℕ) (s t : List ℕ)
    → NoZero xs
    → NoZero ys
    → length xs ≤ max
    → length ys ≤ max
    → lex
        ((if ltb (length xs) max then xs ++ (0 ∷ []) else xs) ++ s)
        ((if ltb (length ys) max then ys ++ (0 ∷ []) else ys) ++ t)
      ≡ and_then (lex xs ys) (lex s t)
varchar_key xs ys max s t p q l m = elim (Bool-cases (ltb (length xs) max)) [
  | inl a ↦ elim (Bool-cases (ltb (length ys) max)) [
    | inl b ↦ rw (a, b, terminated xs ys s t p q) refl
    | inr b ↦ rw (a, b, shorter xs ys s t q (ground (arith, a, b))) refl
  ]
  | inr a ↦ elim (Bool-cases (ltb (length ys) max)) [
    | inl b ↦ rw (a, b, longer xs ys s t p (ground (arith, a, b))) refl
    | inr b ↦ rw (a, b, lex-append xs ys s t (ground (arith, a, b))) refl
  ]
]

contradictory : true ≢ false
contradictory e = cc

byte_key :
    (v1 v2 : ℕ) (s t : List ℕ)
    → v1 < 256
    → v2 < 256
    → IsBytes s
    → IsBytes t
    → 1 + length s < 2 ^ 31
    → 1 + length t < 2 ^ 31
    → sign (bytes_compare (v1 ∷ s) (v2 ∷ t)) ≡ and_then (compare_ℤ (pos v1) (pos v2)) (lex s t)
unfolding lex
byte_key v1 v2 s t h1 h2 bs bt l1 l2 =
    bytes_compare-lex (v1 ∷ s) (v2 ∷ t) (h1, bs) (h2, bt) (omega arith) (omega arith) ∙ ground arith

by_type :
    (dt : DataType) (v1 v2 : ℕ) (s t : List ℕ)
    → IsBytes s
    → IsBytes t
    → v1 < 256 ^ width dt
    → v2 < 256 ^ width dt
    → width dt + length s < 2 ^ 31
    → width dt + length t < 2 ^ 31
    → sign (bytes_compare (digital_to_bytes dt v1 true ++ s) (digital_to_bytes dt v2 true ++ t))
      ≡ and_then (compare_ℤ (number dt v1) (number dt v2)) (lex s t)
unfolding digital_to_bytes number width is_signed code
by_type DataType.bool v1 v2 s t bs bt a b c d = byte_key v1 v2 s t a b bs bt c d
by_type DataType.char v1 v2 s t bs bt a b c d = int_key-order 0 v1 v2 s t a b bs bt c d
by_type DataType.short v1 v2 s t bs bt a b c d = int_key-order 1 v1 v2 s t a b bs bt c d
by_type DataType.int v1 v2 s t bs bt a b c d = int_key-order 3 v1 v2 s t a b bs bt c d
by_type DataType.long v1 v2 s t bs bt a b c d = int_key-order 7 v1 v2 s t a b bs bt c d
by_type DataType.byte v1 v2 s t bs bt a b c d =
    ground (arith, uint_key-order 1 v1 v2 s t a b bs bt c d)
by_type DataType.ushort v1 v2 s t bs bt a b c d =
    ground (arith, uint_key-order 2 v1 v2 s t a b bs bt c d)
by_type DataType.uint v1 v2 s t bs bt a b c d =
    ground (arith, uint_key-order 4 v1 v2 s t a b bs bt c d)
by_type DataType.ulong v1 v2 s t bs bt a b c d =
    ground (arith, uint_key-order 8 v1 v2 s t a b bs bt c d)
by_type DataType.fixchar v1 v2 s t bs bt a b c d =
    ground (arith, uint_key-order 1 v1 v2 s t a b bs bt c d)
by_type DataType.varchar v1 v2 s t bs bt a b c d =
    ground (arith, uint_key-order 1 v1 v2 s t a b bs bt c d)
by_type DataType.val_null v1 v2 s t bs bt a b c d =
    ground (arith, uint_key-order 1 v1 v2 s t a b bs bt c d)

digit_key :
    (dt : DataType) (v1 v2 : ℕ) (s t : List ℕ)
    → v1 < 256 ^ width dt
    → v2 < 256 ^ width dt
    → IsBytes s
    → IsBytes t
    → length (digital_to_bytes dt v1 true ++ s) < 2 ^ 31
    → length (digital_to_bytes dt v2 true ++ t) < 2 ^ 31
    → sign (bytes_compare (digital_to_bytes dt v1 true ++ s) (digital_to_bytes dt v2 true ++ t))
      ≡ and_then (compare_ℤ (number dt v1) (number dt v2)) (lex s t)
digit_key dt v1 v2 s t h1 h2 bs bt l1 l2 =
    by_type dt v1 v2 s t bs bt h1 h2 (shorten v1 s l1) (shorten v2 t l2)
  where
    shorten :
        (v : ℕ) (r : List ℕ)
        → length (digital_to_bytes dt v true ++ r) < 2 ^ 31
        → width dt + length r < 2 ^ 31
    shorten v r l =
        omega (
          arith,
          l,
          length-append (digital_to_bytes dt v true) r,
          length-digital_to_bytes dt v true,
        )

terminated-IsBytes :
    (xs s : List ℕ) (max : ℕ)
    → IsBytes xs
    → IsBytes s
    → IsBytes ((if ltb (length xs) max then xs ++ (0 ∷ []) else xs) ++ s)
terminated-IsBytes xs s max a b = elim (Bool-cases (ltb (length xs) max)) [
  | inl e ↦ rw e (
      All-append (λ b. b < 256) (xs ++ (0 ∷ [])) s
        (All-append (λ b. b < 256) xs (0 ∷ []) a (omega arith, tt)) b)
  | inr e ↦ rw e (All-append (λ b. b < 256) xs s a b)
]

digits_key :
    (d1 d2 : DataType) (v1 v2 : ℕ) (s t : List ℕ)
    → d1 ≡ d2
    → v1 < 256 ^ width d1
    → v2 < 256 ^ width d2
    → IsBytes s
    → IsBytes t
    → length (digital_to_bytes d1 v1 true ++ s) < 2 ^ 31
    → length (digital_to_bytes d2 v2 true ++ t) < 2 ^ 31
    → sign (bytes_compare (digital_to_bytes d1 v1 true ++ s) (digital_to_bytes d2 v2 true ++ t))
      ≡ and_then (compare_ℤ (number d1 v1) (number d1 v2)) (lex s t)
digits_key d1 d2 v1 v2 s t e h1 h2 bs bt l1 l2 =
    subst
      (λ d.
        v2 < 256 ^ width d
        → length (digital_to_bytes d v2 true ++ t) < 2 ^ 31
        → sign (bytes_compare (digital_to_bytes d1 v1 true ++ s) (digital_to_bytes d v2 true ++ t))
          ≡ and_then (compare_ℤ (number d1 v1) (number d1 v2)) (lex s t))
      e (λ h l. digit_key d1 v1 v2 s t h1 h bs bt l1 l) h2 l2

-- A string as a key.
abbrev string_bytes : DataType → List ℕ → ℕ → List ℕ
string_bytes d xs m = write_data (chars d false xs m) SavePosition.key

string_key :
    (d : DataType) (xs ys : List ℕ) (m : ℕ) (s t : List ℕ)
    → Fits (chars d false xs m)
    → Fits (chars d false ys m)
    → (is_fixchar d ≡ false → NoZero xs)
    → (is_fixchar d ≡ false → NoZero ys)
    → IsBytes s
    → IsBytes t
    → length (string_bytes d xs m ++ s) < 2 ^ 31
    → length (string_bytes d ys m ++ t) < 2 ^ 31
    → sign (bytes_compare (string_bytes d xs m ++ s) (string_bytes d ys m ++ t))
      ≡ and_then (lex xs ys) (lex s t)
unfolding write_data Fits IsTyped
string_key d xs ys m s t ((a1, b1, c1, i1), f1) ((a2, b2, c2, i2), f2) z1 z2 bs bt l1 l2 =
    elim (Bool-cases (is_fixchar d)) [
      | inl x ↦
          bytes_compare-lex (string_bytes d xs m ++ s) (string_bytes d ys m ++ t)
            (rw x (All-append (λ b. b < 256) xs s i1 bs))
            (rw x (All-append (λ b. b < 256) ys t i2 bt)) l1 l2
          ∙ rw x (lex-append xs ys s t (f1 x ∙ sym (f2 x)))
      | inr x ↦
          bytes_compare-lex (string_bytes d xs m ++ s) (string_bytes d ys m ++ t)
            (rw x (terminated-IsBytes xs s m i1 bs)) (rw x (terminated-IsBytes ys t m i2 bt)) l1 l2
          ∙ rw x (varchar_key xs ys m s t (z1 x) (z2 x) b1 b2)
    ]

strings_key :
    (d1 d2 : DataType) (xs ys : List ℕ) (m1 m2 : ℕ) (s t : List ℕ)
    → d1 ≡ d2
    → m1 ≡ m2
    → Fits (chars d1 false xs m1)
    → Fits (chars d2 false ys m2)
    → (is_fixchar d1 ≡ false → NoZero xs)
    → (is_fixchar d2 ≡ false → NoZero ys)
    → IsBytes s
    → IsBytes t
    → length (string_bytes d1 xs m1 ++ s) < 2 ^ 31
    → length (string_bytes d2 ys m2 ++ t) < 2 ^ 31
    → sign (bytes_compare (string_bytes d1 xs m1 ++ s) (string_bytes d2 ys m2 ++ t))
      ≡ and_then (lex xs ys) (lex s t)
strings_key d1 d2 xs ys m1 m2 s t e w h1 h2 z1 z2 bs bt l1 l2 =
    subst {A = DataType × ℕ}
      (λ c.
        Fits (chars c.0 false ys c.1)
        → (is_fixchar c.0 ≡ false → NoZero ys)
        → length (string_bytes c.0 ys c.1 ++ t) < 2 ^ 31
        → sign (bytes_compare (string_bytes d1 xs m1 ++ s) (string_bytes c.0 ys c.1 ++ t))
          ≡ and_then (lex xs ys) (lex s t))
      (ap₂ (λ a b. (a, b)) e w) (λ h z l. string_key d1 xs ys m1 s t h1 h z1 z bs bt l1 l) h2 z2 l2

-- The key bytes of two values of one column, then further bytes, compare as the values do and then as
-- the further bytes: neither value is null, a VARCHAR has no zero byte, and the keys are shorter than
-- 2 ^ 31 bytes.
pub write_data-order :
    (dv1 dv2 : DataValue) (s t : List ℕ)
    → IsKey dv1
    → IsKey dv2
    → code (get_data_type dv1) ≡ code (get_data_type dv2)
    → get_max_length dv1 ≡ get_max_length dv2
    → IsBytes s
    → IsBytes t
    → length (write_data dv1 SavePosition.key ++ s) < 2 ^ 31
    → length (write_data dv2 SavePosition.key ++ t) < 2 ^ 31
    → sign (
        bytes_compare (write_data dv1 SavePosition.key ++ s) (write_data dv2 SavePosition.key ++ t))
      ≡ and_then (order dv1 dv2) (lex s t)
unfolding IsKey Fits IsTyped write_data order get_max_length
write_data-order (digit d1 true v1) (digit d2 n2 v2) s t k1 k2 e w bs bt l1 l2 =
    absurd (contradictory k1.1)
write_data-order (digit d1 false v1) (digit d2 true v2) s t k1 k2 e w bs bt l1 l2 =
    absurd (contradictory k2.1)
write_data-order (digit d1 false v1) (digit d2 false v2) s t k1 k2 e w bs bt l1 l2 =
    digits_key d1 d2 v1 v2 s t (code_injective d1 d2 e) k1.0.0.1 k2.0.0.1 bs bt l1 l2
write_data-order (digit d1 n1 v1) (chars d2 n2 b2 m2) s t k1 k2 e w bs bt l1 l2 =
    absurd (apart_types d1 d2 k1.0.0.0 k2.0.0.0 e)
write_data-order (digit d1 n1 v1) null_literal s t k1 k2 e w bs bt l1 l2 = absurd k2
write_data-order (chars d1 n1 b1 m1) (digit d2 n2 v2) s t k1 k2 e w bs bt l1 l2 =
    absurd (apart_types d2 d1 k2.0.0.0 k1.0.0.0 (sym e))
write_data-order (chars d1 true b1 m1) (chars d2 n2 b2 m2) s t k1 k2 e w bs bt l1 l2 =
    absurd (contradictory k1.1)
write_data-order (chars d1 false b1 m1) (chars d2 true b2 m2) s t k1 k2 e w bs bt l1 l2 =
    absurd (contradictory k2.1)
write_data-order (chars d1 false b1 m1) (chars d2 false b2 m2) s t k1 k2 e w bs bt l1 l2 =
    strings_key d1 d2 b1 b2 m1 m2 s t (code_injective d1 d2 e) w k1.0 k2.0 k1.2 k2.2 bs bt l1 l2
write_data-order (chars d1 n1 b1 m1) null_literal s t k1 k2 e w bs bt l1 l2 = absurd k2
write_data-order null_literal dv2 s t k1 k2 e w bs bt l1 l2 = absurd k1
