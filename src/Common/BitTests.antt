-- ===== src/Common/BitTests.antt =====
-- Testing and setting one bit of a word.
use Prim.Native.Nat.{max, bit_or-bitwise}
use native.Mathlib.Nat.{pow-suc}
use rapid_db.Common.{
  ℕ, zero, suc, ◌+◌, ◌*◌, ◌/◌, ◌%◌, ◌^◌, ◌≤◌, ◌≡◌, ◌≢◌, refl, Bool, true, not, ◌==◌, bit_and,
  bit_or, arith,
}
use rapid_db.Common.Bits.{lowest_digit, and_digit, zero-bit_and}

zero-bit_or : (b : ℕ) → bit_or 0 b ≡ b
zero-bit_or b = bit_or-bitwise 0 b

or_digit : (a b : ℕ) → bit_or a b ≡ bit_or (a / 2) (b / 2) * 2 + max (a % 2) (b % 2)
or_digit zero b = omega (arith, zero-bit_or b, zero-bit_or (b / 2))
or_digit (suc a) b = simp bit_or-bitwise (lowest_digit (λ y. y) max a b)

-- Against no bits, by the number of digits left.
against_zero : (n a : ℕ) → a ≤ n → (bit_or a 0 ≡ a) × (bit_and a 0 ≡ 0)
against_zero zero a h = ground (arith, zero-bit_or 0, zero-bit_and 0)
against_zero (suc n) a h =
    ground (arith, or_digit a 0, and_digit a 0, against_zero n (a / 2) (omega arith))

bit_or-zero : (a : ℕ) → bit_or a 0 ≡ a
bit_or-zero a = (against_zero a a (omega arith)).0

pub bit_and-zero : (a : ℕ) → bit_and a 0 ≡ 0
bit_and-zero a = (against_zero a a (omega arith)).1

-- Whether bit `k` is set.
abbrev pub has_bit : ℕ → ℕ → Bool
has_bit x k = not (bit_and x (2 ^ k) == 0)

pub has_bit-bit_or : (j x : ℕ) → has_bit (bit_or x (2 ^ j)) j ≡ true
has_bit-bit_or zero x =
    ground (arith, and_digit (bit_or x 1) 1, or_digit x 1, bit_and-zero (bit_or x 1 / 2))
has_bit-bit_or (suc j) x = ground (
  arith,
  pow-suc 2 j,
  and_digit (bit_or x (2 ^ suc j)) (2 ^ suc j),
  or_digit x (2 ^ suc j),
  has_bit-bit_or j (x / 2),
)

pub has_bit-other : (j k x : ℕ) → j ≢ k → has_bit (bit_or x (2 ^ j)) k ≡ has_bit x k
has_bit-other zero zero x n = absurd (n refl)
has_bit-other zero (suc k) x n = ground (
  arith,
  pow-suc 2 k,
  and_digit (bit_or x 1) (2 ^ suc k),
  and_digit x (2 ^ suc k),
  or_digit x 1,
  bit_or-zero (x / 2),
)
has_bit-other (suc j) zero x n = ground (
  arith,
  pow-suc 2 j,
  and_digit (bit_or x (2 ^ suc j)) 1,
  and_digit x 1,
  bit_and-zero (x / 2),
  bit_and-zero (bit_or x (2 ^ suc j) / 2),
  or_digit x (2 ^ suc j),
)
has_bit-other (suc j) (suc k) x n = ground (
  arith,
  pow-suc 2 j,
  pow-suc 2 k,
  and_digit (bit_or x (2 ^ suc j)) (2 ^ suc k),
  and_digit x (2 ^ suc k),
  or_digit x (2 ^ suc j),
  has_bit-other j k (x / 2),
)
