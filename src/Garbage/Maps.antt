-- ===== src/Garbage/Maps.antt =====
-- InsertPage and ErasePage keep the two maps alike.
use rapid_db.Common.{ℕ, ◌^◌, ◌<◌, ◌≡◌, refl, ap, List, [], ◌∷◌, true, ◌&&◌, not, ◌==◌, arith}
use rapid_db.Garbage.{GarbageOwner, has_id, without_id, insert_page, erase_page}
use rapid_db.Garbage.Ranges.{is_at, Apart, IsIndexed}
use rapid_db.Garbage.Insert.{insert_range-Ordered, insert_range-is_at}
use rapid_db.Garbage.Erase.{erase_range-is_at, erase_range-Ordered, is_at_unique}

has_id-without_id :
    (i id : ℕ) (l : List ℕ) → has_id i (without_id id l) ≡ (has_id i l && not (i == id))
has_id-without_id i id [] = refl
has_id-without_id i id (a ∷ l) = ground (arith, has_id-without_id i id l)

pub insert_page-IsIndexed :
    (g : GarbageOwner) (id num : ℕ)
    → IsIndexed g
    → 0 < num
    → num < 2 ^ 16
    → Apart id num g.tree_free_page
    → IsIndexed (insert_page g id num)
unfolding insert_page
insert_page-IsIndexed g id num v p b ap = record {
  ordered = insert_range-Ordered id num 0 g.tree_free_page v.ordered p b (omega arith) ap;
  indexed = λ i n. ground (
    arith,
    v.indexed i n,
    v.indexed id n,
    insert_range-is_at id num i n 0 g.tree_free_page v.ordered p ap,
  );
}

pub erase_page-IsIndexed :
    (g : GarbageOwner) (id num : ℕ)
    → IsIndexed g
    → is_at g.tree_free_page id num ≡ true
    → IsIndexed (erase_page g id num)
unfolding erase_page
erase_page-IsIndexed g id num v e = record {
  ordered = erase_range-Ordered id 0 g.tree_free_page v.ordered;
  indexed = λ i n. ground (
    arith,
    e,
    v.indexed i n,
    has_id-without_id i id (g.range_page n),
    erase_range-is_at id num i n 0 g.tree_free_page v.ordered e,
    is_at_unique id num n 0 g.tree_free_page v.ordered e,
  );
}
