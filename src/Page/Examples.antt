-- ===== src/Page/Examples.antt =====
-- Pages with a few records, and the theorems of this part at them.
use rapid_db.Common.{
  ℕ, zero, suc, ◌≡◌, refl, ap, ◌∙◌, List, [], ◌∷◌, All, Option, none, some, Bool, true, false,
  Ordering, arith,
}
use rapid_db.Record.{
  ActionType, insert, update, delete, init, RecordLock, new_lock, Version, read_share, lock_only,
  release_lock_able, is_conflict,
}
use rapid_db.Record.Ops.{temp_length, commit_length, is_changing}
use rapid_db.Page.{IndexPage, max_data_length_branch}
use rapid_db.Page.Search.{Found, search_record, search_key}
use rapid_db.Page.Search.Correct.{
  IsOrdered, Answers, AnswersFirst, search_record-Answers, search_key-AnswersFirst,
}
use rapid_db.Page.Branch.{IsCounted}
use rapid_db.Page.Split.{split_page}
use rapid_db.Page.Split.Parts.{FitsPage}
use rapid_db.Page.Split.Pages.{joined, IsFitting, split_page-IsFitting}
use rapid_db.Page.Leaf.{Row}
use rapid_db.Page.Leaf.Counted as Leaf
use rapid_db.Page.Leaf.Counted.{IsMade}
use rapid_db.Page.Leaf.Settled.{ReleasesClean}
use rapid_db.Page.Leaf.Action.{Outcome, update_action, settle, settled_row}
use rapid_db.Page.Leaf.Updates.{
  Inserts, Deletes, Updates, update_action-insert, update_action-delete, update_action-update,
}

-- Three records: one below the searched one, two equal to it.
abbrev signs : ℕ → Ordering
signs zero = Ordering.lt
signs (suc zero) = Ordering.eq
signs (suc (suc i)) = Ordering.eq

signs-IsOrdered : IsOrdered signs 3
signs-IsOrdered = record {
  below = λ i j h l e. ground (arith, e);
  above = λ i j h l e. ground (arith, e);
}

search_record-Answers_example : Answers signs 3 (search_record signs 4 0 3)
search_record-Answers_example = search_record-Answers signs 3 signs-IsOrdered

search_key-AnswersFirst_example : AnswersFirst signs 3 (search_key signs false 4 0 3)
search_key-AnswersFirst_example = search_key-AnswersFirst signs 3 signs-IsOrdered

-- A branch page of two records, told by their lengths.
abbrev two_records : IndexPage ℕ
two_records = record {
  vct_record = 20 ∷ 30 ∷ [];
  record_num = 2;
  committed_data_length = 54;
  temp_data_length = 0;
  dirty = false;
  record_updated = false;
}

two_records-IsCounted : IsCounted (λ r. r) two_records
two_records-IsCounted = record { number = refl; committed = refl }

-- A record of 8000 bytes, of which two fit a page: the split makes two pages of three.
abbrev three_long : IndexPage ℕ
three_long = record two_records { vct_record = 8000 ∷ 8000 ∷ 8000 ∷ [] }

three_long-FitsPage : All (FitsPage (λ r. r) max_data_length_branch) three_long.vct_record
unfolding FitsPage
three_long-FitsPage = (omega arith, (omega arith, (omega arith, tt)))

split_page-IsFitting_example :
    (pages : List (IndexPage ℕ)) × (split_page (λ r. r) max_data_length_branch three_long
      ≡ some pages)
    × (joined pages ≡ 8000 ∷ 8000 ∷ 8000 ∷ [])
    × All (IsFitting (λ r. r) max_data_length_branch) pages
split_page-IsFitting_example =
    (split_page-IsFitting (λ r. r) max_data_length_branch three_long three_long-FitsPage).0
      (omega arith)

-- A committed record, locked for sharing by transaction 4, and the records of transaction 9.
abbrev version_of : ℕ → Bool → Option RecordLock → Version
version_of len deletes lock = record {
  bys_val = some (record { key = 1 ∷ []; content = 1 ∷ 5 ∷ []; actual_length = len });
  is_delete = deletes;
  overflow_page = none;
  rec_lock = lock;
}

abbrev row : Row
row = record { version = version_of 19 false none; older = [] }

abbrev shared_row : Row
shared_row = record {
  version = version_of 19 false (some (new_lock read_share lock_only false 4));
  older = [];
}

abbrev made : ActionType → Bool → Version
made a deletes = version_of 30 deletes (some (new_lock a init false 9))

abbrev made-IsMade : (a : ActionType) (deletes : Bool) → IsMade (made a deletes) a deletes
made-IsMade a deletes = record {
  lock = new_lock a init false 9;
  locked = refl;
  acts = refl;
  is_deleted = refl;
}

abbrev leaf_of : Row → IndexPage Row
leaf_of r = record {
  vct_record = r ∷ [];
  record_num = 1;
  committed_data_length = 21;
  temp_data_length = 21;
  dirty = false;
  record_updated = false;
}

row-IsCounted : Leaf.IsCounted (leaf_of row)
unfolding temp_length commit_length is_changing
row-IsCounted = record { number = refl; committed = refl; temp = refl }

abbrev here : Found
here = record { at = 0; found = true }

-- Whether the release leaves a deleted record.
abbrev deleted_after : Option Row → Bool
deleted_after none = false
deleted_after (some old) = (settled_row old).version.is_delete

row-ReleasesClean : ReleasesClean (leaf_of row) 0
unfolding release_lock_able
row-ReleasesClean old e d = absurd (ground (arith, ap deleted_after e ∙ d))

update_action-insert_example :
    (o : Outcome) × (update_action
        (leaf_of row)
        (made insert false)
        (new_lock insert init false 9)
        here
      ≡ some o)
    × Leaf.IsCounted o.page
    × Inserts (settle (leaf_of row) here).0 (settle (leaf_of row) here).1 (made insert false) 0 o
update_action-insert_example =
    update_action-insert (leaf_of row) (made insert false) here row-IsCounted
      (made-IsMade insert false) row-ReleasesClean

update_action-delete_example :
    (o : Outcome) × (update_action
        (leaf_of row)
        (made delete true)
        (new_lock delete init false 9)
        here
      ≡ some o)
    × Leaf.IsCounted o.page
    × Deletes
        (settle (leaf_of row) here).0
        row
        (made delete true)
        (new_lock delete init false 9)
        0
        o
unfolding settle release_lock_able is_conflict
update_action-delete_example =
    update_action-delete (leaf_of row) (made delete true) here row row-IsCounted
      (made-IsMade delete true) row-ReleasesClean refl

update_action-update_example :
    (o : Outcome) × (update_action
        (leaf_of row)
        (made update false)
        (new_lock update init false 9)
        here
      ≡ some o)
    × Leaf.IsCounted o.page
    × Updates
        (settle (leaf_of row) here).0
        (settle (leaf_of row) here).1
        (made update false)
        (new_lock update init false 9)
        0
        o
update_action-update_example =
    update_action-update (leaf_of row) (made update false) here row-IsCounted
      (made-IsMade update false) row-ReleasesClean
