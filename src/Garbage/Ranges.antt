-- ===== src/Garbage/Ranges.antt =====
-- The free ranges as sets of pages, and the state that the operations keep.
use rapid_db.Common.{
  ℕ, ◌+◌, ◌%◌, ◌^◌, ◌≤◌, ◌<◌, ◌≡◌, ◌⊎◌, List, [], ◌∷◌, Bool, true, false, ◌&&◌, ◌||◌, ltb, leb,
  ◌==◌, arith,
}
use rapid_db.Garbage.{Range, GarbageOwner, has_id}

-- Whether a page is of a range, and of one of the ranges.
abbrev pub in_range : ℕ → ℕ → ℕ → Bool
in_range a n q = leb a q && ltb q (a + n)

abbrev pub covers : List Range → ℕ → Bool
covers [] q = false
covers ((a, n) ∷ rs) q = in_range a n q || covers rs q

abbrev pub page_sum : List Range → ℕ
page_sum [] = 0
page_sum ((a, n) ∷ rs) = n + page_sum rs

-- Whether the very range is there.
abbrev pub is_at : List Range → ℕ → ℕ → Bool
is_at [] id n = false
is_at ((a, m) ∷ rs) id n = (id == a && n == m) || is_at rs id n

-- In order from `lo` on, with pages each, fewer than 2^15, and apart from each other.
abbrev pub Ordered : ℕ → List Range → Type 0
Ordered lo [] = Unit
Ordered lo ((a, n) ∷ rs) = (lo ≤ a) × (0 < n) × (n < 2 ^ 16) × Ordered (a + n) rs

-- A range apart from all.
abbrev pub Apart : ℕ → ℕ → List Range → Type 0
Apart id num [] = Unit
Apart id num ((a, n) ∷ rs) = ((a + n ≤ id) ⊎ (id + num ≤ a)) × Apart id num rs

-- The two maps have the same ranges.
pub record IsIndexed (g : GarbageOwner) : Type 0 where
  pub ordered : Ordered 0 g.tree_free_page
  pub indexed : (id n : ℕ) → has_id id (g.range_page n) ≡ is_at g.tree_free_page id n

pub record IsValid (g : GarbageOwner) : Type 0 where
  pub maps : IsIndexed g
  pub total : g.total_garbage_pages ≡ page_sum g.tree_free_page % 2 ^ 32

pub Ordered-lower : (lo lo' : ℕ) (rs : List Range) → lo' ≤ lo → Ordered lo rs → Ordered lo' rs
Ordered-lower lo lo' [] h o = o
Ordered-lower lo lo' ((a, n) ∷ rs) h (l, p, b, o) = (omega arith, p, b, o)

-- What is there begins at the bound or after it, and so does what is covered.
pub is_at-above : (i n lo : ℕ) (rs : List Range) → Ordered lo rs → is_at rs i n ≡ true → lo ≤ i
is_at-above i n lo [] o e = absurd (ground (arith, e))
is_at-above i n lo ((a, m) ∷ rs) (l, k, b, o) e = ground (arith, e, is_at-above i n (a + m) rs o)

pub covers-above : (q lo : ℕ) (rs : List Range) → Ordered lo rs → covers rs q ≡ true → lo ≤ q
covers-above q lo [] o e = absurd (ground (arith, e))
covers-above q lo ((a, m) ∷ rs) (l, k, b, o) e = ground (arith, e, covers-above q (a + m) rs o)
