-- ===== src/Record/Examples.antt =====
-- A record with versions and locks, and the theorems of this part at it.
use rapid_db.Common.{◌≡◌, refl, [], ◌∷◌, none, some, Bool, true, false, arith}
use rapid_db.Record.{
  ActionType, RecordStatus, read_share, no_action, update, init, lock_only, rollbacked, RecordLock,
  new_lock, Version, txid_null, lock_releasable,
}
use rapid_db.Record.Ops.{release_lock, read_list_value, pages_there}
use rapid_db.Record.Release.{IsEnded, release_lock-rollbacks}
use rapid_db.Record.Isolation.{free_all, update-atomic, share_lock-released}

abbrev base : Version
base = record {
  bys_val = some (record { key = 1 ∷ []; content = 1 ∷ 5 ∷ []; actual_length = 19 });
  is_delete = false;
  overflow_page = none;
  rec_lock = none;
}

-- The lock of a change by transaction 9 that has ended.
abbrev ended : ActionType → RecordStatus → RecordLock
ended a s = record {
  act_type = a;
  rec_status = s;
  gap_lock = false;
  has_stmt = false;
  lst_txid = 9 ∷ [];
}

abbrev changed : ActionType → RecordStatus → Bool → Version
changed a s d = record {
  bys_val = some (record { key = 1 ∷ []; content = 1 ∷ 6 ∷ []; actual_length = 30 });
  is_delete = d;
  overflow_page = some (40, 2);
  rec_lock = some (ended a s);
}

ended-IsEnded : (s : RecordStatus) → IsEnded (changed update s false) (ended update s) s
ended-IsEnded s = record { locked_by = refl; changes = refl; ended = refl }

release_lock-rollbacks_example :
    (release_lock
      (changed update rollbacked false)
      (changed update rollbacked false ∷ base ∷ [])).recycled
    ≡ (40, 2) ∷ (40, 2) ∷ []
release_lock-rollbacks_example =
    (release_lock-rollbacks (changed update rollbacked false) (changed update rollbacked false ∷ [])
      base [] (_, ended-IsEnded rollbacked) ((_, ended-IsEnded rollbacked), tt) refl).3

abbrev open_update : RecordLock
open_update = new_lock update init false 9

abbrev updating : Version
updating = record (changed update init false) { rec_lock = some open_update }

-- A shared lock whose readers have left.
abbrev left : RecordLock
left = record {
  act_type = read_share;
  rec_status = lock_only;
  gap_lock = false;
  has_stmt = false;
  lst_txid = txid_null ∷ txid_null ∷ [];
}

abbrev was_read : Version
was_read = record base { rec_lock = some left }

update-atomic_example : (read_list_value updating (base ∷ []) 4 no_action false).seen ≡ some base
unfolding pages_there
update-atomic_example =
    (update-atomic updating base open_update 9 4 refl refl refl refl refl refl).0

-- A shared lock of the transactions 4 and 5.
abbrev shared : RecordLock
shared = record left { lst_txid = 4 ∷ 5 ∷ [] }

share_lock-released_example : lock_releasable (free_all shared (4 ∷ 5 ∷ [])) ≡ true
share_lock-released_example =
    (share_lock-released shared (4 ∷ 5 ∷ []) 6 [] refl
        ((λ e. absurd (omega (arith, e))), ((λ e. absurd (omega (arith, e))), tt))
        (λ e. absurd (omega (arith, e)))).0
      refl
