-- ===== src/Garbage/Erase.antt =====
-- The removal of a range, and the ranges that stay apart from a gap.
use rapid_db.Common.{
  ℕ, ◌+◌, ◌^◌, ◌≤◌, ◌<◌, ◌≡◌, inr, List, [], ◌∷◌, some, true, ◌&&◌, not, ◌==◌, arith,
}
use rapid_db.Garbage.{Range, erase_range, upper_bound, before_upper_bound}
use rapid_db.Garbage.Ranges.{
  in_range, covers, page_sum, is_at, Ordered, Apart, Ordered-lower, is_at-above, covers-above,
}

pub erase_range-is_at :
    (id num i n lo : ℕ) (rs : List Range)
    → Ordered lo rs
    → is_at rs id num ≡ true
    → is_at (erase_range id rs) i n ≡ (is_at rs i n && not (i == id))
unfolding erase_range
erase_range-is_at id num i n lo [] o e = absurd (ground (arith, e))
erase_range-is_at id num i n lo ((a, m) ∷ rs) (l, k, b, o) e = ground (
  arith,
  e,
  o,
  erase_range-is_at id num i n (a + m) rs o,
  is_at-above i n (a + m) rs o,
  is_at-above id num (a + m) rs o,
)

pub erase_range-covers :
    (id num q lo : ℕ) (rs : List Range)
    → Ordered lo rs
    → is_at rs id num ≡ true
    → covers (erase_range id rs) q ≡ (covers rs q && not (in_range id num q))
unfolding erase_range
erase_range-covers id num q lo [] o e = absurd (ground (arith, e))
erase_range-covers id num q lo ((a, m) ∷ rs) (l, k, b, o) e = ground (
  arith,
  e,
  erase_range-covers id num q (a + m) rs o,
  is_at-above id num (a + m) rs o,
  covers-above q (a + m) rs o,
)

pub erase_range-sum :
    (id num lo : ℕ) (rs : List Range)
    → Ordered lo rs
    → is_at rs id num ≡ true
    → num + page_sum (erase_range id rs) ≡ page_sum rs
unfolding erase_range
erase_range-sum id num lo [] o e = absurd (ground (arith, e))
erase_range-sum id num lo ((a, m) ∷ rs) (l, k, b, o) e =
    ground (arith, e, erase_range-sum id num (a + m) rs o, is_at-above id num (a + m) rs o)

pub erase_range-Ordered :
    (id lo : ℕ) (rs : List Range) → Ordered lo rs → Ordered lo (erase_range id rs)
unfolding erase_range
erase_range-Ordered id lo [] o = o
erase_range-Ordered id lo ((a, m) ∷ rs) (l, k, b, o) =
    ground (arith, Ordered-lower (a + m) lo rs (omega arith) o, erase_range-Ordered id (a + m) rs o)

pub erase_range-Apart :
    (id x k : ℕ) (rs : List Range) → Apart x k rs → Apart x k (erase_range id rs)
unfolding erase_range
erase_range-Apart id x k [] h = h
erase_range-Apart id x k ((a, m) ∷ rs) (y, h) = ground (arith, h, y, erase_range-Apart id x k rs h)

-- All ranges of an ordered list are apart from what ends before its bound.
pub Ordered-Apart : (x k lo : ℕ) (rs : List Range) → Ordered lo rs → x + k ≤ lo → Apart x k rs
Ordered-Apart x k lo [] o h = tt
Ordered-Apart x k lo ((a, m) ∷ rs) (l, p, b, o) h =
    (inr (omega arith), Ordered-Apart x k (a + m) rs o (omega arith))

-- The others are apart from a range of the list.
pub is_at-Apart :
    (id num lo : ℕ) (rs : List Range)
    → Ordered lo rs
    → is_at rs id num ≡ true
    → Apart id num (erase_range id rs)
unfolding erase_range
is_at-Apart id num lo [] o e = absurd (ground (arith, e))
is_at-Apart id num lo ((a, m) ∷ rs) (l, k, b, o) e = ground (
  arith,
  e,
  is_at-Apart id num (a + m) rs o,
  is_at-above id num (a + m) rs o,
  Ordered-Apart a m (a + m) rs o (omega arith),
)

-- Ranges apart from two ranges that touch are apart from both together.
pub Apart-join :
    (x k j lo : ℕ) (rs : List Range)
    → Ordered lo rs
    → Apart x k rs
    → Apart (x + k) j rs
    → Apart x (k + j) rs
Apart-join x k j lo [] o h h' = tt
Apart-join x k j lo ((a, m) ∷ rs) (l, p, b, o) (y, h) (y', h') =
    (ground (arith, y, y'), Apart-join x k j (a + m) rs o h h')

pub Apart-part : (x k j d : ℕ) (rs : List Range) → d + j ≤ k → Apart x k rs → Apart (x + d) j rs
Apart-part x k j d [] h a = tt
Apart-part x k j d ((a, m) ∷ rs) h (y, z) = (ground (arith, y), Apart-part x k j d rs h z)

-- The neighbours are of the list.
pub upper_bound-is_at :
    (id a n : ℕ) (rs : List Range)
    → upper_bound id rs ≡ some (a, n)
    → (is_at rs a n ≡ true) × (id < a)
unfolding upper_bound
upper_bound-is_at id a n [] e = absurd (ground (arith, e))
upper_bound-is_at id a n ((b, m) ∷ rs) e = ground (arith, e, upper_bound-is_at id a n rs)

pub before_upper_bound-is_at :
    (id a n : ℕ) (rs : List Range)
    → before_upper_bound id rs ≡ some (a, n)
    → (is_at rs a n ≡ true) × (a ≤ id)
unfolding before_upper_bound
before_upper_bound-is_at id a n [] e = absurd (ground (arith, e))
before_upper_bound-is_at id a n ((b, m) ∷ rs) e =
    ground (arith, e, before_upper_bound-is_at id a n rs)

pub is_at-small :
    (id n lo : ℕ) (rs : List Range) → Ordered lo rs → is_at rs id n ≡ true → (0 < n) × (n < 2 ^ 16)
is_at-small id n lo [] o e = absurd (ground (arith, e))
is_at-small id n lo ((a, m) ∷ rs) (l, k, b, o) e = ground (arith, e, is_at-small id n (a + m) rs o)

-- A first page has one range.
pub is_at_unique :
    (id n m lo : ℕ) (rs : List Range)
    → Ordered lo rs
    → is_at rs id n ≡ true
    → is_at rs id m ≡ true
    → n ≡ m
is_at_unique id n m lo [] o e f = absurd (ground (arith, e))
is_at_unique id n m lo ((a, k) ∷ rs) (l, p, b, o) e f = ground (
  arith,
  e,
  f,
  is_at_unique id n m (a + k) rs o,
  is_at-above id n (a + k) rs o,
  is_at-above id m (a + k) rs o,
)

pub is_at-covers :
    (id num q : ℕ) (rs : List Range)
    → is_at rs id num ≡ true
    → in_range id num q ≡ true
    → covers rs q ≡ true
is_at-covers id num q [] e f = absurd (ground (arith, e))
is_at-covers id num q ((a, m) ∷ rs) e f = ground (arith, e, f, is_at-covers id num q rs)
