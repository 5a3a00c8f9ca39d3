-- ===== src/Bytes/Doubles.antt =====
-- Doubles as key bytes: the round trip, the order that holds, and the order that does not.
use rapid_db.Common.{
  ℕ, ◌+◌, ◌-◌, ◌*◌, ◌/◌, ◌%◌, ◌^◌, ◌≤◌, ◌<◌, ◌≡◌, ◌≢◌, ap, ap₂, ◌∙◌, List, ◌++◌, take, compare,
  Ordering, arith, ltb, if◌then◌else◌, Bool, true, false, bit_xor, dec_lt, ℕ_discrete,
}
use rapid_db.Common.Bits.{xor_top_clear, xor_top_set, and_top_clear, and_top_set, xor_mask}
use rapid_db.Bytes.{
  to_le, from_le, bswap, double_key, double_unkey, double_to_bytes, double_from_bytes, sign_bit,
  sign_and_fraction,
}
use rapid_db.Bytes.Words.{
  to_be, lex-to_be, to_le-bswap, bswap-to_be, length-to_be, length-to_le, from_le-to_le,
  take-append,
}
use rapid_db.Bytes.Lex.{lex, flip}

-- The exponent field and the fraction field of a bit pattern; the exponent is read with the sign.
abbrev exponent : ℕ → ℕ
exponent p = p / 2 ^ 52

abbrev fraction : ℕ → ℕ
fraction p = p % 2 ^ 52

xor-fraction :
    (p : ℕ)
    → bit_xor p sign_and_fraction
      ≡ bit_xor (exponent p) (2 ^ 11) * 2 ^ 52 + (2 ^ 52 - 1 - fraction p)
xor-fraction p =
    ap (λ (t : ℕ). bit_xor t sign_and_fraction) cut
    ∙ xor_mask 52 (exponent p) (2 ^ 11) (fraction p) (omega arith)
  where
    cut : p ≡ exponent p * 2 ^ 52 + fraction p
    cut = omega arith

-- The key of a double in closed form.
double_key-pos : (p : ℕ) → p < 2 ^ 63 → double_key p ≡ p + 2 ^ 63
unfolding double_key
double_key-pos p h = ground (arith, and_top_clear 63 p, xor_top_clear 63 p)

double_key-neg :
    (p : ℕ)
    → 2 ^ 63 ≤ p
    → p < 2 ^ 64
    → double_key p ≡ (exponent p - 2 ^ 11) * 2 ^ 52 + (2 ^ 52 - 1 - fraction p)
unfolding double_key
double_key-neg p h l = ground (arith, and_top_set 63 p, xor-fraction p, xor_top_set 11 (exponent p))

double_key-lt : (p : ℕ) → p < 2 ^ 64 → double_key p < 256 ^ 8
double_key-lt p h = elim (dec_lt p (2 ^ 63)) [
  | yes low ↦ omega (arith, double_key-pos p low)
  | no high ↦ omega (arith, double_key-neg p (omega arith) h)
]

double_unkey-key : (p : ℕ) → p < 2 ^ 64 → double_unkey (double_key p) ≡ p
unfolding double_unkey
double_unkey-key p h = elim (dec_lt p (2 ^ 63)) [
  | yes low ↦
      ground (arith, double_key-pos p low, and_top_set 63 (p + 2 ^ 63), xor_top_set 63 (p + 2 ^ 63))
  | no high ↦ ground (
    arith,
    double_key-neg p (omega arith) h,
    and_top_clear 63 (double_key p),
    xor-fraction (double_key p),
    xor_top_clear 11 (exponent (double_key p)),
  )
]

double_to_bytes-key : (p : ℕ) → double_to_bytes p true ≡ to_be 8 (double_key p)
unfolding double_to_bytes
double_to_bytes-key p = to_le-bswap 8 (double_key p)

-- A double written and read back, as a value or as a key, whatever bytes follow: the same bits.
pub double_from_bytes-to_bytes :
    (p : ℕ) (bkey : Bool) (rest : List ℕ)
    → p < 2 ^ 64
    → double_from_bytes (double_to_bytes p bkey ++ rest) bkey ≡ p
unfolding double_to_bytes double_from_bytes
double_from_bytes-to_bytes p false rest h =
    ap from_le (take-append 8 (to_le 8 p) rest (length-to_le 8 p)) ∙ from_le-to_le 8 p h
double_from_bytes-to_bytes p true rest h =
    ap double_unkey (
      ap (λ (xs : List ℕ). bswap 8 (from_le (take 8 (xs ++ rest)))) (to_le-bswap 8 (double_key p))
      ∙ ap (λ (xs : List ℕ). bswap 8 (from_le xs))
          (take-append 8 (to_be 8 (double_key p)) rest (length-to_be 8 (double_key p)))
      ∙ bswap-to_be 8 (double_key p) (double_key-lt p h))
    ∙ double_unkey-key p h

-- The order of the doubles that two bit patterns stand for, -0 before +0 and NaN left aside:
-- the patterns without the sign are ordered as the magnitudes.
abbrev pub double_order : ℕ → ℕ → Ordering
double_order p q =
    if ltb p sign_bit
    then if ltb q sign_bit then compare p q else Ordering.gt
    else if ltb q sign_bit
    then Ordering.lt
    else compare q p

-- Both doubles are negative, and their exponents differ.
abbrev pub IsMisordered : ℕ → ℕ → Type 0
IsMisordered p q = (sign_bit ≤ p) × (sign_bit ≤ q) × (p / 2 ^ 52 ≢ q / 2 ^ 52)

key-double_order :
    (p q : ℕ)
    → p < 2 ^ 64
    → q < 2 ^ 64
    → ¬ IsMisordered p q
    → compare (double_key p) (double_key q) ≡ double_order p q
key-double_order p q hp hq fine = elim (dec_lt p (2 ^ 63)) [
  | yes low ↦ elim (dec_lt q (2 ^ 63)) [
    | yes low' ↦ ground (arith, double_key-pos p low, double_key-pos q low')
    | no high' ↦ ground (arith, double_key-pos p low, double_key-neg q (omega arith) hq)
  ]
  | no high ↦ elim (dec_lt q (2 ^ 63)) [
    | yes low' ↦ ground (arith, double_key-neg p (omega arith) hp, double_key-pos q low')
    | no high' ↦ elim (ℕ_discrete (p / 2 ^ 52) (q / 2 ^ 52)) [
      | yes same ↦
          ground (arith, double_key-neg p (omega arith) hp, double_key-neg q (omega arith) hq)
      | no different ↦ absurd (fine (omega arith, omega arith, different))
    ]
  ]
]

-- Unless two doubles are both negative with different exponents, the bytes of their keys are in
-- the order of the doubles.
pub double_key-order :
    (p q : ℕ)
    → p < 2 ^ 64
    → q < 2 ^ 64
    → ¬ IsMisordered p q
    → lex (double_to_bytes p true) (double_to_bytes q true) ≡ double_order p q
double_key-order p q hp hq fine =
    ap₂ lex (double_to_bytes-key p) (double_to_bytes-key q)
    ∙ lex-to_be 8 (double_key p) (double_key q) (double_key-lt p hp) (double_key-lt q hq)
    ∙ key-double_order p q hp hq fine

-- Two negative doubles with different exponents have their keys in the opposite of their order:
-- the mask that turns the bits of a negative key round leaves the exponent out.
pub double_key-misordered :
    (p q : ℕ)
    → p < 2 ^ 64
    → q < 2 ^ 64
    → IsMisordered p q
    → lex (double_to_bytes p true) (double_to_bytes q true) ≡ flip (double_order p q)
double_key-misordered p q hp hq (np, nq, different) =
    ap₂ lex (double_to_bytes-key p) (double_to_bytes-key q)
    ∙ lex-to_be 8 (double_key p) (double_key q) (double_key-lt p hp) (double_key-lt q hq)
    ∙ ground (arith, double_key-neg p (omega arith) hp, double_key-neg q (omega arith) hq)
