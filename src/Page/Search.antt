-- ===== src/Page/Search.antt =====
-- The binary searches: SearchRecord and SearchKey of LeafPage and of BranchPage.
pub mod Correct
use rapid_db.Common.{
  ℕ, zero, suc, ◌+◌, ◌-◌, ◌/◌, ◌%◌, Bool, true, false, ltb, leb, ◌&&◌, not, if◌then◌else◌, Ordering,
}

-- The position that a search returns, and its bFind.
pub record Found : Type 0 where
  pub at : ℕ
  pub found : Bool

-- `hr i` is the sign of comparing record i with what is searched: CompareKey for a unique index and
-- for keys, CompareTo otherwise. `start` may be 0 and `end` may be -1, so the interval is kept as
-- `start` and one past `end`; the fuel is the number of rounds left.
module _ (hr : ℕ → Ordering) where
  -- LeafPage::SearchRecord: any record that compares equal, or else the place to insert.
  unfoldable pub search_record : ℕ → ℕ → ℕ → Found
  search_record zero start past = record { at = start; found = false }
  search_record (suc fuel) start past =
      let middle = (start + (past - 1)) / 2 in
      let right = search_record fuel (middle + 1) past in
      let left = search_record fuel start middle in
      if leb past start then record { at = start; found = false } else elim (hr middle) [
        | Ordering.lt ↦ right
        | Ordering.gt ↦ left
        | Ordering.eq ↦ record { at = middle; found = true }
      ]

  abbrev is_eq : Ordering → Bool
  is_eq Ordering.eq = true
  is_eq _ = false

  -- LeafPage::SearchKey: on an index that is not unique, it goes on to the left while the record
  -- before compares equal too.
  unfoldable pub search_key : Bool → ℕ → ℕ → ℕ → Found
  search_key unique zero start past = record { at = start; found = false }
  search_key unique (suc fuel) start past =
      let middle = (start + (past - 1)) / 2 in
      let right = search_key unique fuel (middle + 1) past in
      let left = search_key unique fuel start middle in
      if leb past start then record { at = start; found = false } else elim (hr middle) [
        | Ordering.lt ↦ right
        | Ordering.gt ↦ left
        | Ordering.eq ↦
            if not unique && (ltb start middle && is_eq (hr (middle - 1)))
            then left
            else record { at = middle; found = true }
      ]

-- BranchPage: past the last record the search ends on it.
unfoldable pub branch_search_record : (ℕ → Ordering) → ℕ → ℕ
unfolding search_record
branch_search_record hr record_num =
    let r = search_record hr (suc record_num) 0 record_num in
    if leb record_num r.at then record_num - 1 else r.at

unfoldable pub branch_search_key : (ℕ → Ordering) → Bool → ℕ → ℕ
unfolding search_key
branch_search_key hr unique record_num =
    let r = search_key hr unique (suc record_num) 0 record_num in
    if leb record_num r.at then record_num - 1 else r.at
