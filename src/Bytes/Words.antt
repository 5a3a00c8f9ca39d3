-- ===== src/Bytes/Words.antt =====
-- A word is its bytes: loads, stores and byte swaps of any width.
use mathlib.Core.List.{reverse-reverse, reverse-cons}
use native.Mathlib.Nat.{pow-suc}
use rapid_db.Common.{
  ℕ, zero, suc, ◌-◌, ◌*◌, ◌/◌, ◌%◌, ◌^◌, ◌<◌, ◌≡◌, refl, sym, ap, ap₂, ◌∙◌, List, [], ◌∷◌, ◌++◌,
  reverse, length, length-append, All, All-append, arith, compare, take, drop, Bool, true, false,
  bit_xor,
}
use rapid_db.Bytes.{to_le, from_le, bswap, int_to_bytes, uint_to_bytes}
use rapid_db.Bytes.Lex.{lex, lex-append, lex_refl, lex-singleton, and_then, compare-digits}

abbrev pub IsBytes : List ℕ → Type 0
IsBytes = All (λ b. b < 256)

pub length-to_le : (n v : ℕ) → length (to_le n v) ≡ n
unfolding to_le
length-to_le zero v = refl
length-to_le (suc n) v = ap suc (length-to_le n (v / 256))

pub to_le-IsBytes : (n v : ℕ) → IsBytes (to_le n v)
unfolding to_le
to_le-IsBytes zero v = tt
to_le-IsBytes (suc n) v = (omega arith, to_le-IsBytes n (v / 256))

pub from_le-to_le : (n v : ℕ) → v < 256 ^ n → from_le (to_le n v) ≡ v
unfolding from_le to_le
from_le-to_le zero v h = omega arith
from_le-to_le (suc n) v h = omega (arith, from_le-to_le n (v / 256) (omega (arith, pow-suc 256 n)))

pub to_le-from_le : (xs : List ℕ) → IsBytes xs → to_le (length xs) (from_le xs) ≡ xs
unfolding from_le to_le
to_le-from_le [] h = refl
to_le-from_le (x ∷ xs) h =
    ap₂ ◌∷◌ (omega arith) (ap (to_le (length xs)) (omega arith) ∙ to_le-from_le xs h.1)

pub from_le-lt : (xs : List ℕ) → IsBytes xs → from_le xs < 256 ^ length xs
unfolding from_le
from_le-lt [] h = omega arith
from_le-lt (x ∷ xs) h = omega (arith, from_le-lt xs h.1, pow-suc 256 (length xs))

pub length-reverse : (xs : List ℕ) → length (reverse xs) ≡ length xs
length-reverse [] = refl
length-reverse (x ∷ xs) =
    omega
      (arith, ap length (reverse-cons x xs), length-append (reverse xs) (x ∷ []), length-reverse xs)

pub reverse-IsBytes : (xs : List ℕ) → IsBytes xs → IsBytes (reverse xs)
reverse-IsBytes [] h = h
reverse-IsBytes (x ∷ xs) h =
    rw (reverse-cons x xs)
      (All-append (λ b. b < 256) (reverse xs) (x ∷ []) (reverse-IsBytes xs h.1) (h.0, tt))

-- The bytes of a number, highest first.
pub to_be : ℕ → ℕ → List ℕ
to_be n v = reverse (to_le n v)

pub length-to_be : (n v : ℕ) → length (to_be n v) ≡ n
unfolding to_be
length-to_be n v = length-reverse (to_le n v) ∙ length-to_le n v

-- A store of the swapped word.
pub to_le-bswap : (n v : ℕ) → to_le n (bswap n v) ≡ to_be n v
unfolding bswap to_be
to_le-bswap n v =
    let xs = reverse (to_le n v) in
    ap (λ (k : ℕ). to_le k (from_le xs)) (sym (length-reverse (to_le n v) ∙ length-to_le n v))
    ∙ to_le-from_le xs (reverse-IsBytes (to_le n v) (to_le-IsBytes n v))

-- A swap of the loaded word.
pub bswap-from_le :
    (n : ℕ) (xs : List ℕ) → IsBytes xs → length xs ≡ n → bswap n (from_le xs) ≡ from_le (reverse xs)
unfolding bswap
bswap-from_le n xs h e =
    ap (λ (ys : List ℕ). from_le (reverse ys))
      (ap (λ (k : ℕ). to_le k (from_le xs)) (sym e) ∙ to_le-from_le xs h)

pub bswap-to_be : (n v : ℕ) → v < 256 ^ n → bswap n (from_le (to_be n v)) ≡ v
unfolding to_be
bswap-to_be n v h =
    bswap-from_le n (reverse (to_le n v)) (reverse-IsBytes (to_le n v) (to_le-IsBytes n v))
      (length-reverse (to_le n v) ∙ length-to_le n v)
    ∙ ap from_le (reverse-reverse (to_le n v))
    ∙ from_le-to_le n v h

-- A byte string is the bytes of the number that it spells, highest first.
pub to_be-from_le :
    (n : ℕ) (xs : List ℕ) → IsBytes xs → length xs ≡ n → to_be n (from_le (reverse xs)) ≡ xs
unfolding to_be
to_be-from_le n xs h e =
    ap reverse (
      ap (λ (k : ℕ). to_le k (from_le (reverse xs))) (sym (length-reverse xs ∙ e))
      ∙ to_le-from_le (reverse xs) (reverse-IsBytes xs h))
    ∙ reverse-reverse xs

-- Byte strings of one width, highest byte first, are ordered as the numbers.
pub lex-to_be : (n v w : ℕ) → v < 256 ^ n → w < 256 ^ n → lex (to_be n v) (to_be n w) ≡ compare v w
unfolding to_be to_le
lex-to_be zero v w hv hw = lex_refl [] ∙ ground arith
lex-to_be (suc n) v w hv hw =
    rw (reverse-cons (v % 256) (to_le n (v / 256)), reverse-cons (w % 256) (to_le n (w / 256)))
      (lex-append (to_be n (v / 256)) (to_be n (w / 256)) (v % 256 ∷ []) (w % 256 ∷ [])
          (length-to_be n (v / 256) ∙ sym (length-to_be n (w / 256)))
        ∙ ap₂ and_then
            (lex-to_be n (v / 256) (w / 256) (omega (arith, pow-suc 256 n))
              (omega (arith, pow-suc 256 n)))
            (lex-singleton (v % 256) (w % 256))
        ∙ compare-digits v w)

pub to_be-IsBytes : (n v : ℕ) → IsBytes (to_be n v)
unfolding to_be
to_be-IsBytes n v = reverse-IsBytes (to_le n v) (to_le-IsBytes n v)

pub take-append : (n : ℕ) (xs ys : List ℕ) → length xs ≡ n → take n (xs ++ ys) ≡ xs
take-append zero [] ys e = refl
take-append zero (x ∷ xs) ys e = absurd (omega arith)
take-append (suc n) [] ys e = absurd (omega arith)
take-append (suc n) (x ∷ xs) ys e = ap (◌∷◌ x) (take-append n xs ys (omega arith))

pub drop-append : (n : ℕ) (xs ys : List ℕ) → length xs ≡ n → drop n (xs ++ ys) ≡ ys
drop-append n [] ys e = ap (λ (m : ℕ). drop m ys) (sym e)
drop-append zero (x ∷ xs) ys e = absurd (omega (arith, e))
drop-append (suc n) (x ∷ xs) ys e = drop-append n xs ys (omega (arith, e))

pub from_le_nil : from_le [] ≡ 0
unfolding from_le
from_le_nil = refl

pub from_le_one : (v : ℕ) → from_le (v ∷ []) ≡ v
unfolding from_le
from_le_one v = omega arith

pub length-int_to_bytes : (n v : ℕ) (bkey : Bool) → length (int_to_bytes n v bkey) ≡ n
unfolding int_to_bytes
length-int_to_bytes n v true = length-to_le n (bswap n (bit_xor v (2 ^ (8 * n - 1))))
length-int_to_bytes n v false = length-to_le n v

pub length-uint_to_bytes : (n v : ℕ) (bkey : Bool) → length (uint_to_bytes n v bkey) ≡ n
unfolding uint_to_bytes
length-uint_to_bytes n v true = length-to_le n (bswap n v)
length-uint_to_bytes n v false = length-to_le n v
