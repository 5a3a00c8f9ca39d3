-- ===== src/Page/Leaf/Action.antt =====
-- src/core/LeafPage.cpp, UpdateAction: a statement's action on the records of a secondary index.
use rapid_db.Common.{ℕ, ◌+◌, [], ◌∷◌, get_elem?, set, Option, none, some, true, if◌then◌else◌}
use rapid_db.Record.{
  insert, delete, is_action, RecordLock, Version, total_length, release_lock_able, is_conflict,
}
use rapid_db.Record.Ops.{release_lock}
use rapid_db.Page.{IndexPage, add_u32, sub_u32, insert_at, erase_at}
use rapid_db.Page.Leaf.{Row, temp_of, commit_of, slot_of, over}
use rapid_db.Page.Search.{Found}

-- `_errMsg` by its error.
pub data ErrorMsg : Type 0 where
  stmt_duplicate_entry stmt_lock_conflict : ErrorMsg

pub data RecordResult : Type 0 where
  init in_page error : RecordResult

pub record Outcome : Type 0 where
  pub page : IndexPage Row
  pub rec_result : RecordResult
  pub err_msg : Option ErrorMsg

abbrev pub released_row : Row → Row
released_row old =
    let r = release_lock old.version old.older in record { version = r.version; older = r.older }

abbrev pub settled_row : Row → Row
settled_row old = if release_lock_able old.version then released_row old else old

-- The page with another record at the position, and its lengths changed by the difference.
abbrev pub with_row : IndexPage Row → ℕ → Row → Row → IndexPage Row
with_row p pos old new = record p {
  vct_record = set p.vct_record pos new;
  temp_data_length = sub_u32 (p.temp_data_length + temp_of new) (temp_of old);
  committed_data_length = sub_u32 (p.committed_data_length + commit_of new) (commit_of old);
}

abbrev pub without_row : IndexPage Row → ℕ → IndexPage Row
without_row p pos = record p {
  vct_record = erase_at pos p.vct_record;
  record_num = sub_u32 p.record_num 1;
}

-- The first part of UpdateAction: a found record whose lock can go is released, and a deleted one
-- goes; the result is the record that is still found.
unfoldable pub settle : IndexPage Row → Found → IndexPage Row × Option Row
settle p at =
    if at.found
    then elim (get_elem? p.vct_record at.at) [
      | none ↦ (p, none)
      | some old ↦
          let p1 = with_row p at.at old (settled_row old) in
          if (settled_row old).version.is_delete
          then (without_row p1 at.at, none)
          else (p1, some (settled_row old))
    ]
    else (p, none)

abbrev pub touched : IndexPage Row → IndexPage Row
touched p = record p { dirty = true; record_updated = true }

abbrev pub inserted : IndexPage Row → Version → ℕ → IndexPage Row
inserted p v pos = record p {
  vct_record = insert_at pos (record { version = v; older = [] }) p.vct_record;
  record_num = add_u32 p.record_num 1;
  temp_data_length = add_u32 p.temp_data_length (slot_of v);
}

-- The page with the new version over the found one, for DELETE and for UPDATE.
abbrev pub deleted_over : IndexPage Row → Version → ℕ → Row → IndexPage Row
deleted_over p v pos old = record p {
  vct_record = set p.vct_record pos (over v old);
  temp_data_length = sub_u32 p.temp_data_length (slot_of old.version);
}

abbrev pub updated_over : IndexPage Row → Version → ℕ → Row → IndexPage Row
updated_over p v pos old = record p {
  vct_record = set p.vct_record pos (over v old);
  temp_data_length = sub_u32 (p.temp_data_length + total_length v) (total_length old.version);
}

-- `lock->TxID()`, the first transaction of the action's lock.
abbrev pub tx_id : RecordLock → ℕ
tx_id l = elim l.lst_txid [ [] ↦ 0 | t ∷ ts ↦ t ]

-- What the action does to the record that is found, if one is. A DELETE of a record that is not
-- found is asserted away.
unfoldable pub act : IndexPage Row → Option Row → Version → RecordLock → ℕ → Option Outcome
act p none v lock pos =
    if is_action lock.act_type delete
    then none
    else some (record { page = touched (inserted p v pos); rec_result = in_page; err_msg = none })
act p (some old) v lock pos =
    if is_action lock.act_type insert
    then some (record { page = p; rec_result = error; err_msg = some stmt_duplicate_entry })
    else if is_action lock.act_type delete
    then if is_conflict old.version (tx_id lock) lock.act_type
      then some (record { page = p; rec_result = error; err_msg = some stmt_lock_conflict })
      else some (record {
        page = touched (deleted_over p v pos old);
        rec_result = in_page;
        err_msg = none;
      })
    else if is_conflict old.version (tx_id lock) lock.act_type
    then some (record { page = touched p; rec_result = in_page; err_msg = some stmt_lock_conflict })
    else some
        (record { page = touched (updated_over p v pos old); rec_result = in_page; err_msg = none })

unfoldable pub update_action : IndexPage Row → Version → RecordLock → Found → Option Outcome
unfolding settle act
update_action p v lock at = let (p1, found) = settle p at in act p1 found v lock at.at
