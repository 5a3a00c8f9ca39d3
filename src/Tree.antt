-- ===== src/Tree.antt =====
-- src/core/IndexTree.cpp: the numbers that an index tree gives to records, stamps and automatic keys, from
-- the counters of its head page (src/core/HeadPage.h), and the choice of the range for a record. Each
-- operation on a counter of the head page is one step, as fetch_add is.
pub mod Numbers
pub mod Distinct
pub mod Ranges
mod Examples
use rapid_db.Common.{
  ℕ, ◌+◌, ◌%◌, ◌^◌, List, [], ◌∷◌, Option, none, some, Bool, ltb, leb, if◌then◌else◌, length,
  get_elem?, set, Ordering,
}
use rapid_db.Page.Search.{branch_search_record, branch_search_key}

-- STAMP_BATCH and INC_KEY_BATCH.
abbrev pub stamp_batch : ℕ
stamp_batch = 64

abbrev pub inc_key_batch : ℕ
inc_key_batch = 64

-- The start and the end of what a range holds of a counter, and the head page's counter with those of all
-- ranges: `_recordStampStart`, `_recordStampEnd` and `_currRecordStamp`, or the same of the keys.
pub record Batch : Type 0 where
  pub start : ℕ
  pub end : ℕ

pub record Counter : Type 0 where
  pub head : ℕ
  pub ranges : List Batch

pub record IndexTree : Type 0 where
  pub record_stamp : Counter
  pub inc_key : Counter

-- GetAndIncRecordStamp and GetAndIncAutoIncrementKey: the counter before and after.
unfoldable pub get_and_inc : ℕ → ℕ → ℕ × ℕ
get_and_inc head num = (head, (head + num) % 2 ^ 64)

-- A range takes a new batch when it has used up its own.
unfoldable pub refill : ℕ → ℕ → Batch → ℕ × Batch
unfolding get_and_inc
refill batch head r =
    let (first, head') = get_and_inc head batch in
    if leb r.end r.start
    then (head', record { start = first; end = (first + batch) % 2 ^ 64 })
    else (head, r)

-- The next number for a range; none if the assertion on the range fails.
unfoldable pub apply_from : ℕ → ℕ → Counter → ℕ → Option (ℕ × Counter)
unfolding get_and_inc refill
apply_from batch step c i_range =
    if ltb 1 (length c.ranges)
    then elim (get_elem? c.ranges i_range) [
      | none ↦ none
      | some r ↦
          let (head', r') = refill batch c.head r in
          some (
            r'.start,
            record {
              head = head';
              ranges =
                  set c.ranges i_range
                    (record { start = (r'.start + step) % 2 ^ 64; end = r'.end });
            },
          )
    ]
    else let (tmp, head') = get_and_inc c.head step in
      some (tmp, record { head = head'; ranges = c.ranges })

unfoldable pub apply_stamp : IndexTree → ℕ → Option (ℕ × IndexTree)
unfolding apply_from
apply_stamp t i_range = elim (apply_from stamp_batch 1 t.record_stamp i_range) [
  | none ↦ none
  | some (n, c) ↦ some (n, record { record_stamp = c; inc_key = t.inc_key })
]

unfoldable pub apply_auto_inc_key : IndexTree → ℕ → ℕ → Option (ℕ × IndexTree)
unfolding apply_from
apply_auto_inc_key t i_range step = elim (apply_from inc_key_batch step t.inc_key i_range) [
  | none ↦ none
  | some (n, c) ↦ some (n, record { record_stamp = t.record_stamp; inc_key = c })
]

-- CalcIndexRange of a record and of a key: `hr i` is the comparison of the last record of range i with it.
-- It is the search that a branch page does.
unfoldable pub calc_index_range : (ℕ → Ordering) → ℕ → ℕ
unfolding branch_search_record
calc_index_range hr num = branch_search_record hr num

unfoldable pub calc_index_range_key : (ℕ → Ordering) → Bool → ℕ → ℕ
unfolding branch_search_key
calc_index_range_key hr unique num = branch_search_key hr unique num
