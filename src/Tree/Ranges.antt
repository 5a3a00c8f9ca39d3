-- ===== src/Tree/Ranges.antt =====
-- The range that CalcIndexRange of a record gives.
use rapid_db.Common.{ℕ, ◌-◌, ◌<◌, ◌≡◌, ◌≢◌, Ordering}
use rapid_db.Page.Search.Correct.{IsOrdered, branch_search_record_child}
use rapid_db.Tree.{calc_index_range}

-- Where the last records of the ranges are in order, the record is above the last record of every range
-- before the one given or equal to it, and not above that of the one given unless it is the last range.
pub calc_index_range_bounds :
    (hr : ℕ → Ordering) (num : ℕ)
    → IsOrdered hr num
    → 0 < num
    → (calc_index_range hr num < num)
      × ((i : ℕ) → i < calc_index_range hr num → hr i ≢ Ordering.gt)
      × (hr (calc_index_range hr num) ≡ Ordering.lt → calc_index_range hr num ≡ num - 1)
unfolding calc_index_range
calc_index_range_bounds hr num o h = branch_search_record_child hr num o h
