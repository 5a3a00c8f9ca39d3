-- ===== src/Bytes/Compare.antt =====
-- BytesCompare and BytesEqual against the plain definitions.
use rapid_db.Common.{
  ℕ, zero, suc, ◌+◌, ◌-◌, ◌*◌, ◌/◌, ◌%◌, ◌^◌, ◌≤◌, ◌<◌, min, ◌≡◌, refl, sym, subst, ap₂, ◌∙◌, List,
  [], ◌∷◌, length, take, drop, take-append-drop, length-take, length-drop, All-take, All-drop,
  compare, Ordering, arith, ◌==◌, ltb, ◌↔◌, true, inl, inr, Bool-cases, ==_iff, if◌then◌else◌,
  reverse,
}
use rapid_db.Common.Int.{ℤ, pos, negsuc, sub_ℕ, sign}
use rapid_db.Bytes.{
  to_le, from_le, bswap, byte_loop, word_loop, to_int, bytes_compare, equal_bytes, equal_words,
  bytes_equal,
}
use rapid_db.Bytes.Words.{
  IsBytes, from_le-lt, to_le-from_le, length-reverse, reverse-IsBytes, lex-to_be, bswap-from_le,
  to_be-from_le,
}
use rapid_db.Bytes.Lex.{lex, lex-append, and_then}

sign-sub : (a b : ℕ) → sign (sub_ℕ a b) ≡ compare a b
sign-sub a b = ground arith

-- The result after both loops is the order of the lengths: the strings agree so far.
sign-to_int :
    (a b : ℕ) → a < 2 ^ 31 → b < 2 ^ 31 → sign (to_int ((a + 2 ^ 64 - b) % 2 ^ 64)) ≡ compare a b
unfolding to_int
sign-to_int a b ha hb = ground arith

byte_loop-lex :
    (n : ℕ) (xs ys : List ℕ) (last : ℤ)
    → n ≡ min (length xs) (length ys)
    → sign last ≡ compare (length xs) (length ys)
    → sign (byte_loop n xs ys last) ≡ lex xs ys
unfolding byte_loop lex
byte_loop-lex zero [] [] last e h = ground arith
byte_loop-lex zero [] (y ∷ ys) last e h = ground arith
byte_loop-lex zero (x ∷ xs) [] last e h = ground arith
byte_loop-lex zero (x ∷ xs) (y ∷ ys) last e h = absurd (omega arith)
byte_loop-lex (suc n) [] ys last e h = absurd (omega arith)
byte_loop-lex (suc n) (x ∷ xs) [] last e h = absurd (omega arith)
byte_loop-lex (suc n) (x ∷ xs) (y ∷ ys) last e h =
    ground (arith, sign-sub x y, byte_loop-lex n xs ys last)

-- One round of the first loop, in terms of the orders of the two halves.
round-sign :
    (v w : ℕ) (rest : ℤ) (o o' : Ordering)
    → compare v w ≡ o
    → sign rest ≡ o'
    → sign (if v == w then rest else if ltb w v then pos 1 else negsuc 0) ≡ and_then o o'
round-sign v w rest o o' e f = ground arith

abbrev IsWord : List ℕ → Type 0
IsWord xs = IsBytes xs × (length xs ≡ 8)

take-IsWord : (xs : List ℕ) → IsBytes xs → 8 ≤ length xs → IsWord (take 8 xs)
take-IsWord xs b l = (All-take (λ b. b < 256) 8 xs b, omega (arith, length-take 8 xs))

spelled-lt : (us : List ℕ) → IsWord us → from_le (reverse us) < 256 ^ 8
spelled-lt us (b, l) =
    subst (λ (n : ℕ). from_le (reverse us) < 256 ^ n) (length-reverse us ∙ l)
      (from_le-lt (reverse us) (reverse-IsBytes us b))

eight-compare :
    (us vs : List ℕ)
    → IsWord us
    → IsWord vs
    → compare (bswap 8 (from_le us)) (bswap 8 (from_le vs)) ≡ lex us vs
eight-compare us vs (bu, lu) (bv, lv) =
    ap₂ compare (bswap-from_le 8 us bu lu) (bswap-from_le 8 vs bv lv)
    ∙ sym (
        lex-to_be 8 (from_le (reverse us)) (from_le (reverse vs)) (spelled-lt us (bu, lu))
          (spelled-lt vs (bv, lv)))
    ∙ ap₂ lex (to_be-from_le 8 us bu lu) (to_be-from_le 8 vs bv lv)

lex-split :
    (n : ℕ) (xs ys : List ℕ)
    → n ≤ length xs
    → n ≤ length ys
    → lex xs ys ≡ and_then (lex (take n xs) (take n ys)) (lex (drop n xs) (drop n ys))
lex-split n xs ys hx hy =
    sym (ap₂ lex (take-append-drop n xs) (take-append-drop n ys))
    ∙ lex-append (take n xs) (take n ys) (drop n xs) (drop n ys)
        (omega (arith, length-take n xs, length-take n ys))

word_loop-lex :
    (n r : ℕ) (xs ys : List ℕ) (last : ℤ)
    → n * 8 + r ≡ min (length xs) (length ys)
    → IsBytes xs
    → IsBytes ys
    → sign last ≡ compare (length xs) (length ys)
    → sign (word_loop n r xs ys last) ≡ lex xs ys
unfolding word_loop
word_loop-lex zero r xs ys last e bx b_y h = byte_loop-lex r xs ys last (omega arith) h
word_loop-lex (suc n) r xs ys last e bx b_y h =
    round-sign _ _ _ _ _
      (eight-compare (take 8 xs) (take 8 ys) (take-IsWord xs bx (omega arith))
        (take-IsWord ys b_y (omega arith)))
      (word_loop-lex n r (drop 8 xs) (drop 8 ys) last
        (omega (arith, length-drop 8 xs, length-drop 8 ys)) (All-drop (λ b. b < 256) 8 xs bx)
        (All-drop (λ b. b < 256) 8 ys b_y) (h ∙ ground (arith, length-drop 8 xs, length-drop 8 ys)))
    ∙ sym (lex-split 8 xs ys (omega arith) (omega arith))

-- BytesCompare is negative, zero or positive as the first byte string is before, equal to or after
-- the second in lexicographic order, for strings of less than 2 ^ 31 bytes: the comparison of
-- eight bytes at a time agrees with the one of a byte at a time.
pub bytes_compare-lex :
    (xs ys : List ℕ)
    → IsBytes xs
    → IsBytes ys
    → length xs < 2 ^ 31
    → length ys < 2 ^ 31
    → sign (bytes_compare xs ys) ≡ lex xs ys
unfolding bytes_compare
bytes_compare-lex xs ys bx b_y hx hy =
    word_loop-lex (min (length xs) (length ys) / 8) (min (length xs) (length ys) % 8) xs ys _
      (omega arith) bx b_y (sign-to_int (length xs) (length ys) hx hy)

-- The same loops, for equality.
equal_bytes-eq :
    (n : ℕ) (xs ys : List ℕ)
    → length xs ≡ n
    → length ys ≡ n
    → (equal_bytes n xs ys ≡ true) ↔ (xs ≡ ys)
unfolding equal_bytes
equal_bytes-eq zero [] [] e f = (λ _. refl, λ _. refl)
equal_bytes-eq zero [] (y ∷ ys) e f = absurd (omega arith)
equal_bytes-eq zero (x ∷ xs) ys e f = absurd (omega arith)
equal_bytes-eq (suc n) [] ys e f = absurd (omega arith)
equal_bytes-eq (suc n) (x ∷ xs) [] e f = absurd (omega arith)
equal_bytes-eq (suc n) (x ∷ xs) (y ∷ ys) e f =
    ground (arith, equal_bytes-eq n xs ys (omega arith) (omega arith))

from_le-eq : (us vs : List ℕ) → IsWord us → IsWord vs → from_le us ≡ from_le vs → us ≡ vs
from_le-eq us vs (bu, lu) (bv, lv) e =
    sym (to_le-from_le us bu) ∙ ap₂ to_le (lu ∙ sym lv) e ∙ to_le-from_le vs bv

equal_words-eq :
    (n r : ℕ) (xs ys : List ℕ)
    → length xs ≡ n * 8 + r
    → length ys ≡ n * 8 + r
    → IsBytes xs
    → IsBytes ys
    → (equal_words n r xs ys ≡ true) ↔ (xs ≡ ys)
unfolding equal_words
equal_words-eq zero r xs ys e f bx b_y = equal_bytes-eq r xs ys (omega arith) (omega arith)
equal_words-eq (suc n) r xs ys e f bx b_y = ground (
  arith,
  equal_words-eq n r (drop 8 xs) (drop 8 ys) (omega (arith, length-drop 8 xs))
      (omega (arith, length-drop 8 ys)) (All-drop (λ b. b < 256) 8 xs bx)
      (All-drop (λ b. b < 256) 8 ys b_y),
  from_le-eq (take 8 xs) (take 8 ys) (take-IsWord xs bx (omega arith))
      (take-IsWord ys b_y (omega arith)),
  take-append-drop 8 xs,
  take-append-drop 8 ys,
)

-- BytesEqual is true exactly when the two byte strings are the same.
pub bytes_equal_iff :
    (xs ys : List ℕ) → IsBytes xs → IsBytes ys → (bytes_equal xs ys ≡ true) ↔ (xs ≡ ys)
unfolding bytes_equal
bytes_equal_iff xs ys bx b_y = elim (Bool-cases (length xs == length ys)) [
  | inl same ↦ rw same (
      equal_words-eq (length xs / 8) (length xs % 8) xs ys (omega arith)
        (omega (arith, (==_iff (length xs) (length ys)).0 same)) bx b_y)
  | inr differ ↦ rw differ (λ e. cc, λ e. ground arith)
]
