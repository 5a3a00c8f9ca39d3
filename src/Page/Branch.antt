-- ===== src/Page/Branch.antt =====
-- src/core/BranchPage.cpp: DeleteRecord, InsertRecord and AppendRecord.
pub mod Counted
use rapid_db.Common.{
  ℕ, zero, suc, ◌+◌, ◌-◌, ◌*◌, ◌/◌, ◌%◌, ◌^◌, ◌≤◌, ◌<◌, ◌≡◌, refl, List, [], ◌∷◌, ◌++◌, length,
  get_elem?, Option, none, some, Bool, true, false, ltb, leb, ◌||◌, if◌then◌else◌, arith,
}
use rapid_db.Page.{
  IndexPage, load_factor, max_data_length_branch, add_u32, sub_u32, insert_at, erase_at, sum_of,
}

module _ {ℓ} {A : Type ℓ} (total_length : A → ℕ) where
  -- A record's bytes and its offset in the page.
  abbrev pub slot_length : A → ℕ
  slot_length r = total_length r + 2

  -- An index past the records is none that the source accepts.
  unfoldable pub delete_record : IndexPage A → ℕ → Option (IndexPage A × A)
  delete_record p index = elim (get_elem? p.vct_record index) [
    | none ↦ none
    | some r ↦ some (
      record {
        vct_record = erase_at index p.vct_record;
        record_num = sub_u32 p.record_num 1;
        committed_data_length = sub_u32 p.committed_data_length (slot_length r);
        temp_data_length = p.temp_data_length;
        dirty = true;
        record_updated = true;
      },
      r,
    )
  ]

  unfoldable pub insert_record : IndexPage A → A → ℕ → IndexPage A
  insert_record p r pos = record {
    vct_record = insert_at pos r p.vct_record;
    record_num = add_u32 p.record_num 1;
    committed_data_length = add_u32 p.committed_data_length (slot_length r);
    temp_data_length = p.temp_data_length;
    dirty = true;
    record_updated = true;
  }

  -- Whether AppendRecord turns the record away.
  unfoldable pub is_full : IndexPage A → A → Bool
  is_full p r =
      ltb (max_data_length_branch * load_factor / 100) p.committed_data_length
      || ltb max_data_length_branch (add_u32 p.committed_data_length (slot_length r))

  abbrev pub appended : IndexPage A → A → IndexPage A
  appended p r = record {
    vct_record = p.vct_record ++ r ∷ [];
    record_num = add_u32 p.record_num 1;
    committed_data_length = add_u32 p.committed_data_length (slot_length r);
    temp_data_length = p.temp_data_length;
    dirty = true;
    record_updated = true;
  }

  unfoldable pub append_record : IndexPage A → A → IndexPage A × Bool
  unfolding is_full
  append_record p r = if is_full p r then (p, false) else (appended p r, true)

  -- The counters say what is in the page.
  pub record IsCounted (p : IndexPage A) : Type 0 where
    pub number : p.record_num ≡ length p.vct_record % 2 ^ 32
    pub committed : p.committed_data_length ≡ sum_of slot_length p.vct_record % 2 ^ 32
