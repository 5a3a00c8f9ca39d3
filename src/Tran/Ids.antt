-- ===== src/Tran/Ids.antt =====
-- The ids of transactions: 40 bits that count, under bits that tell the group.
use rapid_db.Common.{
  ℕ, zero, suc, ◌+◌, ◌-◌, ◌*◌, ◌/◌, ◌%◌, ◌^◌, ◌<◌, ◌≡◌, ◌≢◌, ap, ◌∙◌, bit_and, arith,
}
use rapid_db.Common.Bits.{and_digit, double_pow}
use rapid_db.Common.BitTests.{bit_and-zero}
use native.Mathlib.Nat.{pow-suc}
use rapid_db.Tran.{first_tran_id, next_tran_id}

-- The low bits of a word, and its high bits, by a mask.
and_low : (k q r : ℕ) → r < 2 ^ k → bit_and (q * 2 ^ k + r) (2 ^ k - 1) ≡ r
and_low zero q r h = omega (arith, bit_and-zero (q * 1 + r))
and_low (suc k) q r h = ground (
  arith,
  pow-suc 2 k,
  double_pow q k,
  and_digit (q * 2 ^ suc k + r) (2 ^ suc k - 1),
  and_low k q (r / 2),
)

and_high :
    (k n q r : ℕ)
    → r < 2 ^ k
    → q < 2 ^ n
    → bit_and (q * 2 ^ k + r) ((2 ^ n - 1) * 2 ^ k) ≡ q * 2 ^ k
and_high zero n q r h l = ground (arith, and_low n 0 q l)
and_high (suc k) n q r h l = ground (
  arith,
  pow-suc 2 k,
  double_pow q k,
  double_pow (2 ^ n - 1) k,
  and_digit (q * 2 ^ suc k + r) ((2 ^ n - 1) * 2 ^ suc k),
  and_high k n q (r / 2),
)

-- The id after an id counts its low 40 bits on, from the last value to 0.
pub next_tran_id-counts :
    (q r : ℕ)
    → r < 2 ^ 40
    → q < 2 ^ 24
    → next_tran_id (q * 2 ^ 40 + r) ≡ q * 2 ^ 40 + (r + 1) % 2 ^ 40
unfolding next_tran_id
next_tran_id-counts q r h l = ground (arith, and_low 40 q r h, and_high 40 24 q r h l)

-- The id that is given `n` starts later.
unfoldable pub tran_id_after : ℕ → ℕ → ℕ
unfolding next_tran_id
tran_id_after zero curr = curr
tran_id_after (suc n) curr = next_tran_id (tran_id_after n curr)

tran_id_after-counts :
    (n q r : ℕ)
    → r < 2 ^ 40
    → q < 2 ^ 24
    → tran_id_after n (q * 2 ^ 40 + r) ≡ q * 2 ^ 40 + (r + n) % 2 ^ 40
unfolding tran_id_after
tran_id_after-counts zero q r h l = omega arith
tran_id_after-counts (suc n) q r h l =
    ap next_tran_id (tran_id_after-counts n q r h l)
    ∙ next_tran_id-counts q ((r + n) % 2 ^ 40) (omega arith) l
    ∙ omega arith

first_tran_id-group :
    (node restart group : ℕ)
    → node < 2 ^ 12
    → restart < 16
    → group < 256
    → first_tran_id node restart group ≡ (node * 2 ^ 12 + restart * 2 ^ 8 + group) * 2 ^ 40 + 0
unfolding first_tran_id
first_tran_id-group node restart group h k l = omega arith

-- Transactions of a node in one run have different ids, in the same group if fewer than 2 ^ 40 starts of
-- the group are between them, and in different groups always. There are at most 256 groups.
pub tran_ids_differ :
    (node restart g1 g2 n1 n2 : ℕ)
    → node < 2 ^ 12
    → restart < 16
    → g1 < 256
    → g2 < 256
    → (g1 ≡ g2 → (n1 < n2) × (n2 < n1 + 2 ^ 40))
    → tran_id_after n1 (first_tran_id node restart g1)
      ≢ tran_id_after n2 (first_tran_id node restart g2)
tran_ids_differ node restart g1 g2 n1 n2 h k l1 l2 d e =
    let q1 = node * 2 ^ 12 + restart * 2 ^ 8 + g1 in
    let q2 = node * 2 ^ 12 + restart * 2 ^ 8 + g2 in
    let e1 : tran_id_after n1 (first_tran_id node restart g1) ≡ q1 * 2 ^ 40 + (0 + n1) % 2 ^ 40 =
      ap (tran_id_after n1) (first_tran_id-group node restart g1 h k l1)
      ∙ tran_id_after-counts n1 q1 0 (omega arith) (omega arith) in
    let e2 : tran_id_after n2 (first_tran_id node restart g2) ≡ q2 * 2 ^ 40 + (0 + n2) % 2 ^ 40 =
      ap (tran_id_after n2) (first_tran_id-group node restart g2 h k l2)
      ∙ tran_id_after-counts n2 q2 0 (omega arith) (omega arith) in
    grind (arith, e1, e2, e, d)
