-- ===== src/Common/Bits.antt =====
-- `bit_xor` and `bit_and` against a mask, at every width, from the recursion on binary digits.
use Prim.Native.Nat.{digits, bitwise, differ, bit_and-bitwise, bit_xor-bitwise}
use native.Mathlib.Nat.{pow-suc}
use rapid_db.Common.{
  ℕ, zero, suc, ◌+◌, ◌-◌, ◌*◌, ◌/◌, ◌%◌, ◌^◌, ◌≤◌, ◌<◌, min, ◌≡◌, refl, ap, bit_and, bit_xor, arith,
}

module _ (z : ℕ → ℕ) (f : ℕ → ℕ → ℕ) where
  more_fuel : (n m a b : ℕ) → a ≤ n → a ≤ m → digits z f n a b ≡ digits z f m a b
  more_fuel zero zero a b p q = refl
  more_fuel zero (suc m) zero b p q = refl
  more_fuel zero (suc m) (suc a) b p q = absurd (omega arith)
  more_fuel (suc n) zero zero b p q = refl
  more_fuel (suc n) zero (suc a) b p q = absurd (omega arith)
  more_fuel (suc n) (suc m) zero b p q = refl
  more_fuel (suc n) (suc m) (suc a) b p q =
      rw (more_fuel n m (suc a / 2) (b / 2) (omega arith) (omega arith))

  pub lowest_digit :
      (a b : ℕ)
      → bitwise z f (suc a) b ≡ bitwise z f (suc a / 2) (b / 2) * 2 + f (suc a % 2) (b % 2)
  lowest_digit a b =
      omega (arith, more_fuel a (suc a / 2) (suc a / 2) (b / 2) (omega arith) (omega arith))

zero-bit_xor : (b : ℕ) → bit_xor 0 b ≡ b
zero-bit_xor b = bit_xor-bitwise 0 b

pub zero-bit_and : (b : ℕ) → bit_and 0 b ≡ 0
zero-bit_and b = bit_and-bitwise 0 b

xor_digit : (a b : ℕ) → bit_xor a b ≡ bit_xor (a / 2) (b / 2) * 2 + differ (a % 2) (b % 2)
xor_digit zero b = omega (arith, zero-bit_xor b, zero-bit_xor (b / 2))
xor_digit (suc a) b = simp bit_xor-bitwise (lowest_digit (λ y. y) differ a b)

pub and_digit : (a b : ℕ) → bit_and a b ≡ bit_and (a / 2) (b / 2) * 2 + min (a % 2) (b % 2)
and_digit zero b = omega (arith, zero-bit_and b, zero-bit_and (b / 2))
and_digit (suc a) b = simp bit_and-bitwise (lowest_digit (λ y. 0) min a b)

differ-zero : (a b : ℕ) → b ≡ 0 → differ a b ≡ a
differ-zero zero b h = h
differ-zero (suc a) b h = rw h

differ-one : (a b : ℕ) → a < 2 → b ≡ 1 → differ a b ≡ 1 - a
differ-one zero b l h = rw h
differ-one (suc zero) b l h = rw h
differ-one (suc (suc a)) b l h = absurd (omega arith)

-- Toggling the top bit of a word adds it or takes it away.
pub xor_top_clear : (k x : ℕ) → x < 2 ^ k → bit_xor x (2 ^ k) ≡ x + 2 ^ k
xor_top_clear zero x h = rw (small) refl
  where
    small : x ≡ 0
    small = omega arith
xor_top_clear (suc k) x h = ground (
  arith,
  pow-suc 2 k,
  xor_digit x (2 ^ suc k),
  differ-zero (x % 2) (2 ^ suc k % 2),
  xor_top_clear k (x / 2),
)

pub xor_top_set : (k x : ℕ) → 2 ^ k ≤ x → x < 2 ^ suc k → bit_xor x (2 ^ k) ≡ x - 2 ^ k
xor_top_set zero x h l = rw (one) refl
  where
    one : x ≡ 1
    one = omega arith
xor_top_set (suc k) x h l = ground (
  arith,
  pow-suc 2 k,
  pow-suc 2 (suc k),
  xor_digit x (2 ^ suc k),
  differ-zero (x % 2) (2 ^ suc k % 2),
  xor_top_set k (x / 2),
)

-- Testing the top bit of a word.
pub and_top_clear : (k x : ℕ) → x < 2 ^ k → bit_and x (2 ^ k) ≡ 0
and_top_clear zero x h = rw (small) refl
  where
    small : x ≡ 0
    small = omega arith
and_top_clear (suc k) x h =
    ground (arith, pow-suc 2 k, and_digit x (2 ^ suc k), and_top_clear k (x / 2))

pub and_top_set : (k x : ℕ) → 2 ^ k ≤ x → x < 2 ^ suc k → bit_and x (2 ^ k) ≡ 2 ^ k
and_top_set zero x h l = rw (one) refl
  where
    one : x ≡ 1
    one = omega arith
and_top_set (suc k) x h l =
    ground (arith, pow-suc 2 k, pow-suc 2 (suc k), and_digit x (2 ^ suc k), and_top_set k (x / 2))

pub double_pow : (q k : ℕ) → q * 2 ^ suc k ≡ 2 * (q * 2 ^ k)
double_pow q k = omega (arith, ap (λ (t : ℕ). q * t) (pow-suc 2 k))

-- A mask whose low bits are all set turns the low bits of a word round.
pub xor_mask :
    (k q p r : ℕ)
    → r < 2 ^ k
    → bit_xor (q * 2 ^ k + r) (p * 2 ^ k + (2 ^ k - 1)) ≡ bit_xor q p * 2 ^ k + (2 ^ k - 1 - r)
xor_mask zero q p r h = ground arith
xor_mask (suc k) q p r h = ground (
  arith,
  pow-suc 2 k,
  double_pow q k,
  double_pow p k,
  double_pow (bit_xor q p) k,
  xor_digit (q * 2 ^ suc k + r) (p * 2 ^ suc k + (2 ^ suc k - 1)),
  differ-one ((q * 2 ^ suc k + r) % 2) ((p * 2 ^ suc k + (2 ^ suc k - 1)) % 2),
  xor_mask k q p (r / 2),
)
