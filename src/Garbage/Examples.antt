-- ===== src/Garbage/Examples.antt =====
-- Free pages, and the theorems of this part at them.
use rapid_db.Common.{ℕ, inl, inr, refl, List, [], ◌∷◌, true, false, ◌==◌, if◌then◌else◌, arith}
use rapid_db.Garbage.{GarbageOwner, recycle_page, apply_ovf_page, apply_index_pages}
use rapid_db.Garbage.Ranges.{IsValid}
use rapid_db.Garbage.Taken.{Begins}
use rapid_db.Garbage.Recycle.{recycle_page-covers}
use rapid_db.Garbage.Apply.{
  Applied, IndexApplied, apply_ovf_page-Applied, apply_index_pages-IndexApplied,
}

-- The pages 10 to 14 and 20 to 22.
abbrev two : GarbageOwner
two = record {
  total_garbage_pages = 8;
  tree_free_page = (10, 5) ∷ (20, 3) ∷ [];
  range_page = λ n. if n == 5 then 10 ∷ [] else if n == 3 then 20 ∷ [] else [];
  dirty = false;
}

two-IsValid : IsValid two
two-IsValid = record {
  maps = record {
    ordered = (omega arith, omega arith, omega arith, (omega arith, omega arith, omega arith, tt));
    indexed = λ id n. ground arith;
  };
  total = refl;
}

-- A set's first element is the head of its list.
abbrev first : List ℕ → ℕ
first [] = 0
first (a ∷ l) = a

first-Begins : Begins first
first-Begins a l = ground arith

-- The pages 15 to 19 close the gap.
recycle_page-covers_example : IsValid (recycle_page two 15 5)
recycle_page-covers_example =
    (recycle_page-covers two 15 5 two-IsValid (omega arith) (omega arith)
      (inl (omega arith), (inr (omega arith), tt)) (λ a n e. ground (arith, e))).0

apply_ovf_page-Applied_example : Applied first first-Begins two 4 (apply_ovf_page first two 4 true)
apply_ovf_page-Applied_example =
    (apply_ovf_page-Applied first first-Begins two 4 true two-IsValid (omega arith)).1 refl

apply_index_pages-IndexApplied_example :
    IndexApplied first first-Begins two 2 (apply_index_pages first two 2 true)
apply_index_pages-IndexApplied_example =
    (apply_index_pages-IndexApplied first first-Begins two 2 true two-IsValid (omega arith)
        (omega arith)).1
      refl
