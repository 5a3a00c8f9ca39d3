-- ===== src/Mutex/Threads.antt =====
-- Threads numbered below n, each at a place of its own, and how many stand at given places.
use rapid_db.Common.{ℕ, zero, suc, ◌+◌, ◌≤◌, ◌<◌, ◌≡◌, ◌≢◌, refl, arith, dec_lt, ℕ_discrete}
use mathlib.Core.Logic.{ite}

module _ {P : Type 0} where
  -- Thread i goes on to place p.
  abbrev pub move : (ℕ → P) → ℕ → P → ℕ → P
  move pc i p j = ite (ℕ_discrete i j) p (pc j)

  module _ (weight : P → ℕ) where
    pub count : ℕ → (ℕ → P) → ℕ
    count zero pc = 0
    count (suc n) pc = weight (pc n) + count n pc

    count-move_above :
        (n : ℕ) (pc : ℕ → P) (i : ℕ) (p : P) → n ≤ i → count n (move pc i p) ≡ count n pc
    unfolding count
    count-move_above zero pc i p h = refl
    count-move_above (suc n) pc i p h = ground (arith, count-move_above n pc i p)

    -- A move takes the thread's old weight away and adds the new one.
    pub count-move :
        (n : ℕ) (pc : ℕ → P) (i : ℕ) (p : P)
        → i < n
        → count n (move pc i p) + weight (pc i) ≡ count n pc + weight p
    unfolding count
    count-move zero pc i p h = absurd (omega arith)
    count-move (suc n) pc i p h = elim (ℕ_discrete i n) [
      | yes last ↦ ground (arith, count-move_above n pc i p)
      | no other ↦ ground (arith, count-move n pc i p)
    ]

    -- Each thread counts.
    pub weight-le-count : (n : ℕ) (pc : ℕ → P) (i : ℕ) → i < n → weight (pc i) ≤ count n pc
    unfolding count
    weight-le-count zero pc i h = absurd (omega arith)
    weight-le-count (suc n) pc i h = elim (ℕ_discrete i n) [
      | yes last ↦ ground arith
      | no other ↦ ground (arith, weight-le-count n pc i)
    ]

    -- So do two threads together.
    pub weight_two-le-count :
        (n : ℕ) (pc : ℕ → P) (i j : ℕ)
        → i < n
        → j < n
        → i ≢ j
        → weight (pc i) + weight (pc j) ≤ count n pc
    unfolding count
    weight_two-le-count zero pc i j h k ne = absurd (omega arith)
    weight_two-le-count (suc n) pc i j h k ne = elim (ℕ_discrete i n) [
      | yes last ↦ ground (arith, weight-le-count n pc j)
      | no other ↦ elim (ℕ_discrete j n) [
        | yes last' ↦ ground (arith, weight-le-count n pc i)
        | no other' ↦ ground (arith, weight_two-le-count n pc i j)
      ]
    ]

    pub count-const : (n : ℕ) (p : P) → weight p ≡ 0 → count n (λ _. p) ≡ 0
    unfolding count
    count-const zero p h = refl
    count-const (suc n) p h = omega (arith, h, count-const n p h)

  -- A thread that counts can be named.
  pub count-find :
      (weight : P → ℕ) (n : ℕ) (pc : ℕ → P)
      → 0 < count weight n pc
      → (i : ℕ) × (i < n) × (0 < weight (pc i))
  unfolding count
  count-find weight zero pc h = absurd (omega arith)
  count-find weight (suc n) pc h = elim (dec_lt 0 (weight (pc n))) [
    | yes here ↦ (n, omega arith, here)
    | no not_here ↦
        let (i, below, found) = count-find weight n pc (omega arith) in (i, omega arith, found)
  ]
