-- ===== src/Page/Split.antt =====
-- src/core/BranchPage.cpp, SplitPage: how the records of an overlong page go to several pages.
-- The fuel counts the rounds of the loop: a record that no longer fits is taken up a second time, so
-- two rounds for a record are enough.
pub mod Parts
pub mod Pages
use rapid_db.Common.{
  ℕ, zero, suc, ◌+◌, ◌-◌, ◌*◌, ◌/◌, List, [], ◌∷◌, length, take, drop, Option, none, some, true,
  false, ltb, if◌then◌else◌,
}
use rapid_db.Page.{IndexPage, load_factor}
use rapid_db.Page.Branch.{slot_length}

abbrev pub limit_of : ℕ → ℕ
limit_of max_len = max_len * load_factor / 100

-- An entry of vctPos and the one of vctLen beside it.
abbrev pub Part : Type 0
Part = ℕ × ℕ

abbrev pub add_part : Part → Option (List Part) → Option (List Part)
add_part part none = none
add_part part (some parts) = some (part ∷ parts)

module _ {ℓ} {A : Type ℓ} (total_length : A → ℕ) (max_len : ℕ) where
  -- The loop over the records from `pos` on; `len` is what the part has so far.
  unfoldable pub split_loop : ℕ → List A → ℕ → ℕ → Option (List Part)
  split_loop zero rs pos len = none
  split_loop (suc fuel) [] pos len = some (if ltb 0 len then (pos, len) ∷ [] else [])
  split_loop (suc fuel) (r ∷ rs) pos len =
      let len' = len + slot_length total_length r in
      let again = split_loop fuel (r ∷ rs) pos 0 in
      let closed = split_loop fuel rs (suc pos) 0 in
      let next = split_loop fuel rs (suc pos) len' in
      if ltb (limit_of max_len) len'
      then if ltb max_len len'
        then add_part (pos, len' - slot_length total_length r) again
        else add_part (suc pos, len') closed
      else next

  unfoldable pub split_parts : List A → Option (List Part)
  unfolding split_loop
  split_parts rs = split_loop (2 * length rs + 1) rs 0 0

  -- What ApplyIndexPages hands out, with the flags that the loop over the new pages sets.
  abbrev pub new_page : IndexPage A
  new_page = record {
    vct_record = [];
    record_num = 0;
    committed_data_length = 0;
    temp_data_length = 0;
    dirty = true;
    record_updated = true;
  }

  -- The page `p` with the records up to the next position, and new pages with the others.
  unfoldable pub pages_of : IndexPage A → ℕ → List A → List Part → List (IndexPage A)
  pages_of p start rs [] = []
  pages_of p start rs ((pos, len) ∷ parts) =
      record p {
        vct_record = take (pos - start) rs;
        record_num = pos - start;
        committed_data_length = len;
      }
      ∷ pages_of new_page pos (drop (pos - start) rs) parts

  -- `vctLen[0]` is out of range for a page without records.
  unfoldable pub pages_from : IndexPage A → List Part → Option (List (IndexPage A))
  pages_from p [] = none
  pages_from p (part ∷ parts) = some (pages_of p 0 p.vct_record (part ∷ parts))

  unfoldable pub split_page : IndexPage A → Option (List (IndexPage A))
  unfolding split_parts pages_of pages_from
  split_page p = elim (split_parts p.vct_record) [ none ↦ none | some parts ↦ pages_from p parts ]
