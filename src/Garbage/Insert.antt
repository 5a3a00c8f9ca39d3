-- ===== src/Garbage/Insert.antt =====
-- The insertion of a range that is apart from the others.
use rapid_db.Common.{
  ℕ, ◌+◌, ◌^◌, ◌≤◌, ◌<◌, ◌≡◌, inl, inr, refl, List, [], ◌∷◌, ◌&&◌, ◌||◌, ◌==◌, arith,
}
use rapid_db.Garbage.{Range, insert_range}
use rapid_db.Garbage.Ranges.{in_range, covers, page_sum, is_at, Ordered, Apart, Ordered-lower}

pub insert_range-covers :
    (id num q lo : ℕ) (rs : List Range)
    → Ordered lo rs
    → 0 < num
    → Apart id num rs
    → covers (insert_range id num rs) q ≡ (in_range id num q || covers rs q)
unfolding insert_range
insert_range-covers id num q lo [] o p ap = refl
insert_range-covers id num q lo ((a, n) ∷ rs) (l, m, b, o) p (x, ap) =
    ground (arith, insert_range-covers id num q (a + n) rs o p ap)

pub insert_range-Ordered :
    (id num lo : ℕ) (rs : List Range)
    → Ordered lo rs
    → 0 < num
    → num < 2 ^ 16
    → lo ≤ id
    → Apart id num rs
    → Ordered lo (insert_range id num rs)
unfolding insert_range
insert_range-Ordered id num lo [] o p b l ap = (l, p, b, tt)
insert_range-Ordered id num lo ((a, n) ∷ rs) (l, m, b, o) p b' l' (inl x, ap) =
    ground (arith, insert_range-Ordered id num (a + n) rs o p b' x ap)
insert_range-Ordered id num lo ((a, n) ∷ rs) (l, m, b, o) p b' l' (inr x, ap) =
    ground (arith, Ordered-lower a (id + num) ((a, n) ∷ rs) x (omega arith, m, b, o))

pub insert_range-sum :
    (id num lo : ℕ) (rs : List Range)
    → Ordered lo rs
    → 0 < num
    → Apart id num rs
    → page_sum (insert_range id num rs) ≡ num + page_sum rs
unfolding insert_range
insert_range-sum id num lo [] o p ap = refl
insert_range-sum id num lo ((a, n) ∷ rs) (l, m, b, o) p (x, ap) =
    ground (arith, insert_range-sum id num (a + n) rs o p ap)

pub insert_range-is_at :
    (id num i n lo : ℕ) (rs : List Range)
    → Ordered lo rs
    → 0 < num
    → Apart id num rs
    → is_at (insert_range id num rs) i n ≡ ((i == id && n == num) || is_at rs i n)
unfolding insert_range
insert_range-is_at id num i n lo [] o p ap = refl
insert_range-is_at id num i n lo ((a, m) ∷ rs) (l, k, b, o) p (x, ap) =
    ground (arith, insert_range-is_at id num i n (a + m) rs o p ap)
