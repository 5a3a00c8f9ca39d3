-- ===== src/Page/Leaf.antt =====
-- src/core/LeafPage.cpp: InsertRecord, DeleteRecord, AppendRecord and UpdateAction.
-- A record of the page is the version in the page with the older ones that it keeps for rollback.
-- UpdateAction gets the place that SearchRecord finds.
pub mod Counted
pub mod Action
pub mod Settled
pub mod Written
pub mod Updates
use rapid_db.Common.{
  ℕ, zero, suc, ◌+◌, ◌-◌, ◌*◌, ◌/◌, ◌%◌, ◌^◌, ◌≡◌, List, [], ◌∷◌, ◌++◌, length, get_elem?, set,
  Option, none, some, Bool, true, false, ltb, ◌&&◌, not, if◌then◌else◌,
}
use rapid_db.Record.{
  ActionType, insert, update, delete, is_action, RecordLock, Version, total_length,
  release_lock_able, is_conflict,
}
use rapid_db.Record.Ops.{Released, release_lock, temp_length, commit_length}
use rapid_db.Page.{
  IndexPage, load_factor, max_data_length_leaf, add_u32, sub_u32, insert_at, erase_at, sum_of,
}

pub record Row : Type 0 where
  pub version : Version
  pub older : List Version

abbrev pub temp_of : Row → ℕ
temp_of r = temp_length r.version

abbrev pub commit_of : Row → ℕ
commit_of r = commit_length r.version r.older

abbrev pub slot_of : Version → ℕ
slot_of v = total_length v + 2

abbrev pub has_lock : Version → Bool
has_lock v = elim v.rec_lock [ none ↦ false | some l ↦ true ]

unfoldable pub insert_record : IndexPage Row → Row → ℕ → IndexPage Row
insert_record p r pos = record {
  vct_record = insert_at pos r p.vct_record;
  record_num = add_u32 p.record_num 1;
  committed_data_length =
      if has_lock r.version
      then p.committed_data_length
      else add_u32 p.committed_data_length (slot_of r.version);
  temp_data_length = add_u32 p.temp_data_length (slot_of r.version);
  dirty = true;
  record_updated = true;
}

-- The new version in front of the old one, which it keeps.
abbrev pub over : Version → Row → Row
over v old = record { version = v; older = old.version ∷ old.older }

-- A position past the records is none that the source accepts.
unfoldable pub delete_record : IndexPage Row → Version → ℕ → Option (IndexPage Row)
delete_record p v pos = elim (get_elem? p.vct_record pos) [
  | none ↦ none
  | some old ↦ some (record {
    vct_record = set p.vct_record pos (over v old);
    record_num = p.record_num;
    committed_data_length = p.committed_data_length;
    temp_data_length = sub_u32 p.temp_data_length (slot_of old.version);
    dirty = true;
    record_updated = true;
  })
]

-- AppendRecord leaves the other length alone.
unfoldable pub append_record : IndexPage Row → Row → Bool → IndexPage Row × Bool
append_record p r full_page =
    let max_len =
      if full_page then max_data_length_leaf else max_data_length_leaf * load_factor / 100 in
    if ltb max_len (add_u32 p.committed_data_length (slot_of r.version)) then (p, false) else (
      record {
        vct_record = p.vct_record ++ r ∷ [];
        record_num = add_u32 p.record_num 1;
        committed_data_length = add_u32 p.committed_data_length (slot_of r.version);
        temp_data_length = p.temp_data_length;
        dirty = true;
        record_updated = true;
      },
      true,
    )
