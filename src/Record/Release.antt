-- ===== src/Record/Release.antt =====
-- What ReleaseLock leaves of a record after a commit and after a rollback.
use mathlib.Core.List.{append-nil}
use rapid_db.Common.{
  ℕ, ◌≡◌, sym, ap, ◌∙◌, List, [], ◌∷◌, ◌++◌, none, some, true, false, All, arith, if◌then◌else◌,
}
use rapid_db.Record.{
  ActionType, read_share, read_update, delete, is_action, masks, updateable_mask, RecordStatus,
  commited, rollbacked, finished, deleted, RecordLock, Version, total_length,
}
use rapid_db.Record.Ops.{release_lock, page_of, move_from}

-- A version that a statement changed, with the end status of the statement.
pub record IsEnded (v : Version) (l : RecordLock) (s : RecordStatus) : Type 0 where
  pub locked_by : v.rec_lock ≡ some l
  pub changes : masks l.act_type updateable_mask ≡ true
  pub ended : l.rec_status ≡ s

-- A change is no reading lock.
not_reading :
    (a : ActionType)
    → masks a updateable_mask ≡ true
    → (is_action a read_share ≡ false) × (is_action a read_update ≡ false)
not_reading a h = ground arith

-- A commit drops the lock and the older versions, and the record is deleted exactly if the
-- statement was a DELETE.
pub release_lock-commit :
    (v : Version) (older : List Version) (l : RecordLock)
    → IsEnded v l commited
    → let r = release_lock v older in
      (r.version ≡ record v { is_delete = is_action l.act_type delete; rec_lock = none })
      × (r.older ≡ [])
      × (r.result ≡ (if is_action l.act_type delete then deleted else finished))
unfolding release_lock
release_lock-commit v [] l e =
    ground (arith, e.locked_by, e.changes, e.ended, not_reading l.act_type)
release_lock-commit v (u ∷ us) l e =
    ground (arith, e.locked_by, e.changes, e.ended, not_reading l.act_type)

-- A rollback puts the version below in the place of the record, with its own older versions, and
-- gives the pages of the changed version back; the mark of deletion is not put back.
release_lock-rollback :
    (v u : Version) (us : List Version) (l : RecordLock)
    → IsEnded v l rollbacked
    → u.rec_lock ≡ none
    → let r = release_lock v (u ∷ us) in
      (r.version ≡ move_from v u)
      × (r.older ≡ us)
      × (r.result ≡ finished)
      × (r.recycled ≡ page_of v)
unfolding release_lock
release_lock-rollback v u us l e n =
    ground (arith, e.locked_by, e.changes, e.ended, n, not_reading l.act_type)

abbrev pub IsRolled : Version → Type 0
IsRolled v = (l : RecordLock) × IsEnded v l rollbacked

abbrev pub pages_of : List Version → List (ℕ × ℕ)
pages_of [] = []
pages_of (v ∷ vs) = page_of v ++ pages_of vs

-- One round of a rollback over a version that is rolled back too.
release_lock-again :
    (v w : Version) (us : List Version) (l k : RecordLock)
    → IsEnded v l rollbacked
    → IsEnded w k rollbacked
    → release_lock v (w ∷ us) ≡ record (release_lock (move_from v w) us) {
      recycled = page_of v ++ (release_lock (move_from v w) us).recycled;
    }
unfolding release_lock
release_lock-again v w us l k e f = ground (
  arith,
  e.locked_by,
  e.changes,
  e.ended,
  f.locked_by,
  f.changes,
  f.ended,
  not_reading l.act_type,
  not_reading k.act_type,
)

-- However many statements of a transaction changed a record one after the other, rolling all of
-- them back puts the version before the first in its place, with the versions older than that one,
-- and gives the pages of every rolled-back version to the index once.
-- The mark of deletion alone stays that of the newest version.
pub release_lock-rollbacks :
    (v : Version) (vs : List Version) (u : Version) (us : List Version)
    → IsRolled v
    → All IsRolled vs
    → u.rec_lock ≡ none
    → let r = release_lock v (vs ++ u ∷ us) in
      (r.version ≡ move_from v u)
      × (r.older ≡ us)
      × (r.result ≡ finished)
      × (r.recycled ≡ pages_of (v ∷ vs))
release_lock-rollbacks v [] u us (l, e) h n =
    let (a, b, c, d) = release_lock-rollback v u us l e n in
    (a, b, c, d ∙ sym (append-nil (page_of v)))
release_lock-rollbacks v (w ∷ ws) u us (l, e) ((k, f), h) n =
    let (a, b, c, d) =
      release_lock-rollbacks (move_from v w) ws u us
        (k, record { locked_by = f.locked_by; changes = f.changes; ended = f.ended }) h n in
    rw (release_lock-again v w (ws ++ u ∷ us) l k e f) (a, b, c, ap (◌++◌ (page_of v)) d)

-- A rollback of a statement other than DELETE on a record that was not deleted restores the
-- version as it was.
pub release_lock-restores :
    (v u : Version) (us : List Version) (l : RecordLock)
    → IsEnded v l rollbacked
    → u.rec_lock ≡ none
    → v.is_delete ≡ u.is_delete
    → (release_lock v (u ∷ us)).version ≡ u
release_lock-restores v u us l e n d = ground (arith, release_lock-rollback v u us l e n)

-- A rolled-back DELETE leaves the record marked as deleted, with length 0, whatever it was before:
-- ReleaseLock reports it finished, not deleted, and the move assignment does not copy `_bDelete`.
pub rollback_delete-is_delete :
    (v u : Version) (us : List Version) (l : RecordLock)
    → IsEnded v l rollbacked
    → u.rec_lock ≡ none
    → v.is_delete ≡ true
    → let r = release_lock v (u ∷ us) in
      (r.version.is_delete ≡ true)
      × (r.version.bys_val ≡ u.bys_val)
      × (r.result ≡ finished)
      × (total_length r.version ≡ 0)
rollback_delete-is_delete v u us l e n d =
    let (a, b, c, _) = release_lock-rollback v u us l e n in
    (
      ap (λ (w : Version). w.is_delete) a ∙ d,
      ap (λ (w : Version). w.bys_val) a,
      c,
      ap (λ (w : Version). total_length w) a ∙ ground arith,
    )
