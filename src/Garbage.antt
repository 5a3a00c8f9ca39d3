-- ===== src/Garbage.antt =====
-- src/core/GarbageOwner.h and GarbageOwner.cpp: the free pages of an index file, as ranges of pages.
-- `_treeFreePage` is the list of the ranges, first page and number, in the order of the first pages;
-- `_rangePage` is a function from a number to the first pages of the ranges of that many pages, and
-- a number without ranges has the empty list. Which page `begin()` of a hash set is stays open: it
-- is a parameter. Whether `try_lock` succeeds is an argument.
pub mod Ranges
pub mod Insert
pub mod Erase
pub mod Maps
pub mod Merge
pub mod Recycle
pub mod Taken
pub mod Found
pub mod Apply
pub mod Faults
pub mod Table
mod Examples
use rapid_db.Common.{
  ℕ, zero, suc, ◌+◌, ◌-◌, ◌*◌, ◌/◌, ◌%◌, ◌^◌, min, List, [], ◌∷◌, ◌++◌, Option, none, some, Bool,
  true, false, ◌&&◌, ◌||◌, not, ltb, leb, ◌==◌, if◌then◌else◌,
}
use rapid_db.Common.Int.{ℤ, pos, negsuc, neg_part, pos_part}

-- First page and number of pages.
abbrev pub Range : Type 0
Range = ℕ × ℕ

abbrev pub page_null_pointer : ℕ
page_null_pointer = 2 ^ 32 - 1

pub record GarbageOwner : Type 0 where
  pub total_garbage_pages : ℕ
  pub tree_free_page : List Range
  pub range_page : ℕ → List ℕ
  pub dirty : Bool

-- map::insert, which leaves an entry that has the key, erase, and the entries that upper_bound
-- points to and that stand before it.
unfoldable pub insert_range : ℕ → ℕ → List Range → List Range
insert_range id num [] = (id, num) ∷ []
insert_range id num ((a, n) ∷ rs) =
    let rest = insert_range id num rs in
    if ltb id a then (id, num) ∷ (a, n) ∷ rs else if id == a then (a, n) ∷ rs else (a, n) ∷ rest

unfoldable pub erase_range : ℕ → List Range → List Range
erase_range id [] = []
erase_range id ((a, n) ∷ rs) = let rest = erase_range id rs in if id == a then rs else (a, n) ∷ rest

unfoldable pub upper_bound : ℕ → List Range → Option Range
upper_bound id [] = none
upper_bound id ((a, n) ∷ rs) =
    let rest = upper_bound id rs in if ltb id a then some (a, n) else rest

unfoldable pub before_upper_bound : ℕ → List Range → Option Range
before_upper_bound id [] = none
before_upper_bound id ((a, n) ∷ rs) =
    let rest = before_upper_bound id rs in
    if ltb id a then none else elim rest [ none ↦ some (a, n) | some r ↦ some r ]

abbrev pub has_id : ℕ → List ℕ → Bool
has_id id [] = false
has_id id (a ∷ l) = id == a || has_id id l

abbrev pub without_id : ℕ → List ℕ → List ℕ
without_id id [] = []
without_id id (a ∷ l) = let rest = without_id id l in if id == a then rest else a ∷ rest

unfoldable pub insert_page : GarbageOwner → ℕ → ℕ → GarbageOwner
unfolding insert_range
insert_page g id num = record g {
  tree_free_page = insert_range id num g.tree_free_page;
  range_page = λ n.
      if n == num
      then if has_id id (g.range_page n) then g.range_page n else id ∷ g.range_page n
      else g.range_page n;
}

-- ErasePage of a range that is not there would look through the end of `_rangePage`.
unfoldable pub erase_page : GarbageOwner → ℕ → ℕ → GarbageOwner
unfolding erase_range
erase_page g id num = record g {
  tree_free_page = erase_range id g.tree_free_page;
  range_page = λ n. if n == num then without_id id (g.range_page n) else g.range_page n;
}

-- A neighbour's number goes through an int16_t.
abbrev pub to_int16 : ℕ → ℤ
to_int16 n = let w = n % 2 ^ 16 in if ltb w (2 ^ 15) then pos w else negsuc (2 ^ 16 - w - 1)

-- `(int32_t)num + r.num < UINT16_MAX`, and `num + r.num` as a uint16_t.
abbrev pub merges : ℕ → ℤ → Bool
merges num r = ltb (num + pos_part r) (2 ^ 16 - 1 + neg_part r)

abbrev pub add_u16 : ℕ → ℤ → ℕ
add_u16 num r = (num + pos_part r + 2 ^ 16 - neg_part r % 2 ^ 16) % 2 ^ 16

-- The ranges to merge with, if they touch.
abbrev pub if_right : ℕ → Option Range → Option Range
if_right end none = none
if_right end (some (a, n)) = if end == a then some (a, n) else none

abbrev pub if_left : ℕ → Option Range → Option Range
if_left pid none = none
if_left pid (some (a, n)) = if a + n == pid then some (a, n) else none

unfoldable pub right_of : ℕ → ℕ → List Range → Option Range
unfolding upper_bound
right_of pid num rs = if_right (pid + num) (upper_bound pid rs)

unfoldable pub left_of : ℕ → List Range → Option Range
unfolding before_upper_bound
left_of pid rs = if_left pid (before_upper_bound pid rs)

-- The owner and the range to insert, after each merge.
unfoldable pub merge_left : GarbageOwner → ℕ → ℕ → Option Range → GarbageOwner × ℕ × ℕ
unfolding erase_page
merge_left g pid num none = (g, pid, num)
merge_left g pid num (some (a, n)) =
    if merges num (to_int16 n)
    then (erase_page g a n, a, add_u16 num (to_int16 n))
    else (g, pid, num)

unfoldable pub merge_right : GarbageOwner → ℕ → ℕ → Option Range → GarbageOwner × ℕ
unfolding erase_page
merge_right g pid num none = (g, num)
merge_right g pid num (some (a, n)) =
    if merges num (to_int16 n) then (erase_page g a n, add_u16 num (to_int16 n)) else (g, num)

unfoldable pub recycle_page : GarbageOwner → ℕ → ℕ → GarbageOwner
unfolding insert_page right_of left_of merge_left merge_right
recycle_page g pid num =
    let right = right_of pid num g.tree_free_page in
    let left = left_of pid g.tree_free_page in
    let counted = record g {
      total_garbage_pages = (g.total_garbage_pages + num) % 2 ^ 32;
      dirty = true;
    } in
    let (g1, pid1, num1) = merge_left counted pid num left in
    let (g2, num2) = merge_right g1 pid1 num1 right in insert_page g2 pid1 num2

-- `_rangePage.lower_bound(num)`: the least number from `num` on that has ranges.
unfoldable pub lower_bound_in : ℕ → ℕ → (ℕ → List ℕ) → Option ℕ
lower_bound_in zero num rp = none
lower_bound_in (suc fuel) num rp = elim (rp num) [
  | [] ↦ lower_bound_in fuel (suc num) rp
  | a ∷ l ↦ some num
]

unfoldable pub lower_bound : ℕ → (ℕ → List ℕ) → Option ℕ
unfolding lower_bound_in
lower_bound num rp = lower_bound_in (2 ^ 16 - num) num rp

-- `_totalGarbagePages -= num`.
abbrev pub less_pages : GarbageOwner → ℕ → GarbageOwner
less_pages g num = record g {
  total_garbage_pages = (g.total_garbage_pages + 2 ^ 32 - num) % 2 ^ 32;
  dirty = true;
}

-- The ids from `id` on.
abbrev pub ids_from : ℕ → ℕ → List ℕ
ids_from id zero = []
ids_from id (suc n) = id ∷ ids_from (suc id) n

module _ (begin : List ℕ → ℕ) where
  -- The first page of the range that is found, its number, and the owner without the first `num`
  -- of its pages.
  unfoldable pub take_pages : GarbageOwner → ℕ → Option (GarbageOwner × ℕ × ℕ)
  unfolding insert_page erase_page lower_bound
  take_pages g num = elim (lower_bound num g.range_page) [
    | none ↦ none
    | some num2 ↦
        let id = begin (g.range_page num2) in
        let erased = erase_page g id num2 in
        some (if ltb num num2 then insert_page erased (id + num) (num2 - num) else erased, id, num2)
  ]

  unfoldable pub apply_ovf_page : GarbageOwner → ℕ → Bool → GarbageOwner × ℕ
  unfolding take_pages
  apply_ovf_page g num locked =
      if ltb g.total_garbage_pages num || not locked
      then (g, page_null_pointer)
      else elim (take_pages g num) [
        | none ↦ (g, page_null_pointer)
        | some (g', id, num2) ↦ (less_pages g' num, id)
      ]

  -- The loop over `i`, on fuel: each round takes a page at least.
  unfoldable pub index_pages_loop : ℕ → GarbageOwner → ℕ → ℕ → List ℕ → GarbageOwner × List ℕ
  unfolding take_pages
  index_pages_loop zero g num i vct = (g, vct)
  index_pages_loop (suc fuel) g num i vct =
      if ltb i num
      then elim (take_pages g num) [
        | none ↦ (g, vct)
        | some (g', id, num2) ↦
            let taken = min num2 (num - i) in
            index_pages_loop fuel g' num (i + taken) (vct ++ ids_from id taken)
      ]
      else (g, vct)

  unfoldable pub apply_index_pages : GarbageOwner → ℕ → Bool → GarbageOwner × List ℕ
  unfolding index_pages_loop
  apply_index_pages g num locked =
      if g.total_garbage_pages == 0 || not locked
      then (g, [])
      else let (g', vct) = index_pages_loop (suc num) g num 0 [] in (less_pages g' num, vct)
