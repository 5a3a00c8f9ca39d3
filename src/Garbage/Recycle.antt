-- ===== src/Garbage/Recycle.antt =====
-- RecyclePage makes its pages free and nothing else.
use rapid_db.Common.{ℕ, ◌+◌, ◌%◌, ◌^◌, ◌<◌, ◌≡◌, refl, ap, ◌∙◌, Option, some, true, ◌||◌, arith}
use rapid_db.Garbage.{
  Range, GarbageOwner, upper_bound, insert_page, right_of, left_of, merge_left, merge_right,
  recycle_page,
}
use rapid_db.Garbage.Ranges.{in_range, covers, page_sum, is_at, Apart, IsValid}
use rapid_db.Garbage.Insert.{insert_range-covers, insert_range-sum}
use rapid_db.Garbage.Maps.{insert_page-IsIndexed}
use rapid_db.Garbage.Merge.{
  Gap, freed, Merged, MergedTo, KeepsRight, AreShort, merge_left-Merged, merge_left-KeepsRight,
  merge_right-Merged, touching_right,
}

-- The insertion of what the merges leave.
inserted :
    (g g' : GarbageOwner) (pid num pid' num' : ℕ)
    → Merged g pid num g' pid' num'
    → g.total_garbage_pages ≡ (num + page_sum g.tree_free_page) % 2 ^ 32
    → IsValid (insert_page g' pid' num')
      × ((q : ℕ) → covers (insert_page g' pid' num').tree_free_page q ≡ freed g pid num q)
unfolding insert_page
inserted g g' pid num pid' num' m t = (
  record {
    maps = insert_page-IsIndexed g' pid' num' m.gap.maps m.gap.some_pages m.gap.bounded m.gap.apart;
    total = omega (
      arith,
      m.total,
      m.sum,
      t,
      insert_range-sum pid' num' 0 g'.tree_free_page m.gap.maps.ordered m.gap.some_pages
          m.gap.apart,
    );
  },
  λ q.
      insert_range-covers pid' num' q 0 g'.tree_free_page m.gap.maps.ordered m.gap.some_pages
        m.gap.apart
      ∙ m.same q,
)

both :
    {g g1 g2 : GarbageOwner} {pid num pid1 num1 pid2 num2 : ℕ}
    → Merged g pid num g1 pid1 num1
    → Merged g1 pid1 num1 g2 pid2 num2
    → Merged g pid num g2 pid2 num2
both m n = record {
  gap = n.gap;
  same = λ q. n.same q ∙ m.same q;
  sum = n.sum ∙ m.sum;
  total = n.total ∙ m.total;
}

-- Recycling the pages of a range apart from the free ones makes exactly them free besides; the ranges
-- stay in order and apart, the two maps alike and the total right. The ranges that are there are
-- shorter than 2 ^ 15 pages.
pub recycle_page-covers :
    (g : GarbageOwner) (pid num : ℕ)
    → IsValid g
    → 0 < num
    → num < 2 ^ 16
    → Apart pid num g.tree_free_page
    → AreShort g.tree_free_page
    → IsValid (recycle_page g pid num)
      × ((q : ℕ)
          → covers (recycle_page g pid num).tree_free_page q
            ≡ (in_range pid num q || covers g.tree_free_page q))
unfolding recycle_page MergedTo KeepsRight right_of
recycle_page-covers g pid num v p b ap s =
    inserted counted (merge_right r.0 r.1 r.2 right).0 pid num r.1 (merge_right r.0 r.1 r.2 right).1
      (both left_merged (merge_right-Merged r.0 r.1 r.2 right neighbour left_merged.gap))
      (omega (arith, v.total))
  where
    counted : GarbageOwner
    counted = record g {
      total_garbage_pages = (g.total_garbage_pages + num) % 2 ^ 32;
      dirty = true;
    }

    right : Option Range
    right = right_of pid num g.tree_free_page

    r : GarbageOwner × ℕ × ℕ
    r = merge_left counted pid num (left_of pid g.tree_free_page)

    gap : Gap counted pid num
    gap = record {
      maps = record { ordered = v.maps.ordered; indexed = v.maps.indexed };
      some_pages = p;
      bounded = b;
      apart = ap;
    }

    left_merged : Merged counted pid num r.0 r.1 r.2
    left_merged = merge_left-Merged counted pid num (left_of pid g.tree_free_page) refl gap s

    kept : KeepsRight counted pid num r
    kept =
        merge_left-KeepsRight counted pid num (left_of pid g.tree_free_page) refl v.maps.ordered s

    neighbour :
        (a n : ℕ)
        → right ≡ some (a, n)
        → (is_at r.0.tree_free_page a n ≡ true) × (r.1 + r.2 ≡ a) × (n < 2 ^ 15)
    neighbour a n e =
        let (there, touch) =
          touching_right pid num g.tree_free_page a n (upper_bound pid g.tree_free_page) refl e in
        (kept.1 a n (omega (arith, touch, p)) there, kept.0 ∙ touch, s a n there)
