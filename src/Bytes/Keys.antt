-- ===== src/Bytes/Keys.antt =====
-- Integers as key bytes: the round trip, and the order of the keys.
use native.Mathlib.Nat.{pow-suc}
use rapid_db.Common.{
  ℕ, zero, suc, ◌+◌, ◌-◌, ◌*◌, ◌^◌, ◌<◌, ◌≡◌, refl, sym, ap, ap₂, ◌∙◌, List, ◌++◌, length,
  length-append, take, All-append, compare, arith, ltb, if◌then◌else◌, Bool, true, false, bit_xor,
}
use rapid_db.Common.Bits.{xor_top_clear, xor_top_set}
use rapid_db.Common.Int.{ℤ, pos, negsuc, sign, compare_ℤ}
use rapid_db.Bytes.{
  to_le, from_le, bswap, int_to_bytes, int_from_bytes, uint_to_bytes, uint_from_bytes,
  bytes_compare,
}
use rapid_db.Bytes.Words.{
  IsBytes, to_be, lex-to_be, to_le-bswap, bswap-to_be, to_be-IsBytes, length-to_be, length-to_le,
  from_le-to_le, take-append,
}
use rapid_db.Bytes.Lex.{lex, lex-append, and_then}
use rapid_db.Bytes.Compare.{bytes_compare-lex}

-- The top bit of an n-byte word, and the wrap of the word.
abbrev half : ℕ → ℕ
half n = 2 ^ (8 * n - 1)

eight_doublings : (m : ℕ) → 2 ^ suc (suc (suc (suc (suc (suc (suc (suc m))))))) ≡ 256 * 2 ^ m
eight_doublings m = omega (
  arith,
  pow-suc 2 m,
  pow-suc 2 (suc m),
  pow-suc 2 (suc (suc m)),
  pow-suc 2 (suc (suc (suc m))),
  pow-suc 2 (suc (suc (suc (suc m)))),
  pow-suc 2 (suc (suc (suc (suc (suc m))))),
  pow-suc 2 (suc (suc (suc (suc (suc (suc m)))))),
  pow-suc 2 (suc (suc (suc (suc (suc (suc (suc m))))))),
)

pow-bytes : (n : ℕ) → 256 ^ n ≡ 2 ^ (8 * n)
pow-bytes zero = refl
pow-bytes (suc n) =
    let e : 8 * suc n ≡ suc (suc (suc (suc (suc (suc (suc (suc (8 * n)))))))) = omega arith in
    omega (arith, pow-suc 256 n, pow-bytes n, eight_doublings (8 * n), ap (λ (k : ℕ). 2 ^ k) e)

half-double : (n : ℕ) → 256 ^ suc n ≡ 2 * half (suc n)
half-double n =
    let e : 8 * suc n ≡ suc (8 * suc n - 1) = omega arith in
    omega (arith, pow-bytes (suc n), ap (λ (k : ℕ). 2 ^ k) e, pow-suc 2 (8 * suc n - 1))

-- The key form of a word: the sign turned round.
biased : ℕ → ℕ → ℕ
biased n v = if ltb v (half n) then v + half n else v - half n

xor-biased : (n v : ℕ) → v < 256 ^ suc n → bit_xor v (half (suc n)) ≡ biased (suc n) v
unfolding biased
xor-biased n v h = ground (
  arith,
  half-double n,
  pow-suc 2 (8 * suc n - 1),
  xor_top_clear (8 * suc n - 1) v,
  xor_top_set (8 * suc n - 1) v,
)

biased-lt : (n v : ℕ) → v < 256 ^ suc n → biased (suc n) v < 256 ^ suc n
unfolding biased
biased-lt n v h = ground (arith, half-double n)

biased-biased : (n v : ℕ) → v < 256 ^ suc n → biased (suc n) (biased (suc n) v) ≡ v
unfolding biased
biased-biased n v h = ground (arith, half-double n)

-- The integer that a word stands for in two's complement.
abbrev pub signed : ℕ → ℕ → ℤ
signed n v = if ltb v (2 ^ (8 * n - 1)) then pos v else negsuc (256 ^ n - v - 1)

biased-signed :
    (n a b : ℕ)
    → a < 256 ^ suc n
    → b < 256 ^ suc n
    → compare (biased (suc n) a) (biased (suc n) b)
      ≡ compare_ℤ (signed (suc n) a) (signed (suc n) b)
unfolding biased
biased-signed n a b ha hb = ground (arith, half-double n)

int_key :
    (n v : ℕ) → v < 256 ^ suc n → int_to_bytes (suc n) v true ≡ to_be (suc n) (biased (suc n) v)
unfolding int_to_bytes
int_key n v h = to_le-bswap (suc n) _ ∙ ap (to_be (suc n)) (xor-biased n v h)

-- A word of n + 1 bytes written as a signed integer and read back, as a value or as a key, is the
-- same word, whatever bytes follow.
pub int_from_bytes-to_bytes :
    (n v : ℕ) (bkey : Bool) (rest : List ℕ)
    → v < 256 ^ suc n
    → int_from_bytes (suc n) (int_to_bytes (suc n) v bkey ++ rest) bkey ≡ v
unfolding int_to_bytes int_from_bytes
int_from_bytes-to_bytes n v false rest h =
    ap from_le (take-append (suc n) (to_le (suc n) v) rest (length-to_le (suc n) v))
    ∙ from_le-to_le (suc n) v h
int_from_bytes-to_bytes n v true rest h =
    ap (λ (w : ℕ). bit_xor w (half (suc n)))
      (ap (λ (xs : List ℕ). bswap (suc n) (from_le (take (suc n) (xs ++ rest))))
          (to_le-bswap (suc n) _ ∙ ap (to_be (suc n)) (xor-biased n v h))
        ∙ ap (λ (xs : List ℕ). bswap (suc n) (from_le xs))
            (take-append (suc n) (to_be (suc n) b) rest (length-to_be (suc n) b))
        ∙ bswap-to_be (suc n) b (biased-lt n v h))
    ∙ xor-biased n b (biased-lt n v h)
    ∙ biased-biased n v h
  where
    b : ℕ
    b = biased (suc n) v

-- The same for the unsigned words.
pub uint_from_bytes-to_bytes :
    (n v : ℕ) (bkey : Bool) (rest : List ℕ)
    → v < 256 ^ n
    → uint_from_bytes n (uint_to_bytes n v bkey ++ rest) bkey ≡ v
unfolding uint_to_bytes uint_from_bytes
uint_from_bytes-to_bytes n v false rest h =
    ap from_le (take-append n (to_le n v) rest (length-to_le n v)) ∙ from_le-to_le n v h
uint_from_bytes-to_bytes n v true rest h =
    ap (λ (xs : List ℕ). bswap n (from_le (take n (xs ++ rest)))) (to_le-bswap n v)
    ∙ ap (λ (xs : List ℕ). bswap n (from_le xs)) (take-append n (to_be n v) rest (length-to_be n v))
    ∙ bswap-to_be n v h

-- A column of fixed width at the front of two keys decides, and where it ties the rest does.
module _ (n v w : ℕ) (s t : List ℕ) where
  front :
      v < 256 ^ n
      → w < 256 ^ n
      → IsBytes s
      → IsBytes t
      → n + length s < 2 ^ 31
      → n + length t < 2 ^ 31
      → sign (bytes_compare (to_be n v ++ s) (to_be n w ++ t)) ≡ and_then (compare v w) (lex s t)
  front hv hw bs bt ls lt =
      bytes_compare-lex (to_be n v ++ s) (to_be n w ++ t)
        (All-append (λ b. b < 256) (to_be n v) s (to_be-IsBytes n v) bs)
        (All-append (λ b. b < 256) (to_be n w) t (to_be-IsBytes n w) bt)
        (omega (arith, length-append (to_be n v) s, length-to_be n v))
        (omega (arith, length-append (to_be n w) t, length-to_be n w))
      ∙ lex-append (to_be n v) (to_be n w) s t (length-to_be n v ∙ sym (length-to_be n w))
      ∙ ap (λ o. and_then o (lex s t)) (lex-to_be n v w hv hw)

-- Keys that begin with a signed integer of n + 1 bytes are ordered by that integer first, and by
-- the remaining bytes where the integers are equal: the bias makes byte order the signed order.
-- The remaining bytes are bytes, and each key is shorter than 2 ^ 31 bytes.
pub int_key-order :
    (n v w : ℕ) (s t : List ℕ)
    → v < 256 ^ suc n
    → w < 256 ^ suc n
    → IsBytes s
    → IsBytes t
    → suc n + length s < 2 ^ 31
    → suc n + length t < 2 ^ 31
    → sign (bytes_compare (int_to_bytes (suc n) v true ++ s) (int_to_bytes (suc n) w true ++ t))
      ≡ and_then (compare_ℤ (signed (suc n) v) (signed (suc n) w)) (lex s t)
int_key-order n v w s t hv hw bs bt ls lt =
    ap₂ (λ xs ys. sign (bytes_compare (xs ++ s) (ys ++ t))) (int_key n v hv) (int_key n w hw)
    ∙ front (suc n) (biased (suc n) v) (biased (suc n) w) s t (biased-lt n v hv) (biased-lt n w hw)
        bs bt ls lt
    ∙ ap (λ o. and_then o (lex s t)) (biased-signed n v w hv hw)

-- The same for an unsigned integer of n bytes, by its value.
pub uint_key-order :
    (n v w : ℕ) (s t : List ℕ)
    → v < 256 ^ n
    → w < 256 ^ n
    → IsBytes s
    → IsBytes t
    → n + length s < 2 ^ 31
    → n + length t < 2 ^ 31
    → sign (bytes_compare (uint_to_bytes n v true ++ s) (uint_to_bytes n w true ++ t))
      ≡ and_then (compare v w) (lex s t)
unfolding uint_to_bytes
uint_key-order n v w s t hv hw bs bt ls lt =
    ap₂ (λ xs ys. sign (bytes_compare (xs ++ s) (ys ++ t))) (to_le-bswap n v) (to_le-bswap n w)
    ∙ front n v w s t hv hw bs bt ls lt
