-- ===== src/Record/Read.antt =====
-- Which reads are let through, and what they leave of the lock.
use rapid_db.Common.{
  ℕ, ◌≡◌, ◌⊎◌, refl, List, [], ◌∷◌, ◌++◌, none, some, Bool, true, false, ◌||◌, arith, if◌then◌else◌,
  inl, inr,
}
use rapid_db.Record.{
  ActionType, read_share, read_update, is_action, ReadResult, ok_lock, ok_nolock, RecordLock,
  Version, held_by_other,
}
use rapid_db.Record.Ops.{
  Read, Found, see, blocked, read_list_value, find_version, lock_for_read, join_lock, sole_owner,
  has_txid, pages_there,
}

-- A read that finds the record locked changes nothing.
pub read-locked :
    (v : Version) (older : List Version) (txid : ℕ) (atype : ActionType) (gap : Bool)
    → (read_list_value v older txid atype gap).result ≡ ReadResult.locked
    → ((read_list_value v older txid atype gap).record_after ≡ v)
      × ((read_list_value v older txid atype gap).seen ≡ none)
unfolding read_list_value lock_for_read
read-locked v older txid atype gap e = elim (Found-cases (find_version v older txid atype)) [
  | inl b ↦ rw (b, read_list_value) (refl, refl)
  | inr (u, s) ↦ absurd (ground arith)
]
  where
    Found-cases : (f : Found) → (f ≡ blocked) ⊎ ((u : Version) × (f ≡ see u))
    Found-cases blocked = inl refl
    Found-cases (see u) = inr (u, refl)

sole_owner-act :
    (l : RecordLock) (txid : ℕ) (a : ActionType) → (sole_owner l txid a).act_type ≡ l.act_type
unfolding sole_owner
sole_owner-act l txid a = ground arith

-- An exclusive lock that a transaction holds and nobody else does.
pub record IsMine (v : Version) (txid : ℕ) : Type 0 where
  pub lock : RecordLock
  pub is_lock : v.rec_lock ≡ some lock
  pub held : has_txid txid lock.lst_txid ≡ true
  pub mine : held_by_other txid lock.lst_txid ≡ false
  pub exclusive : is_action lock.act_type read_share ≡ false

module _ (v : Version) (older : List Version) (txid : ℕ) (gap : Bool) where
  abbrev for_update : Read
  for_update = read_list_value v older txid read_update gap

join_lock-share :
    (l : RecordLock) (txid : ℕ) (gap : Bool)
    → (join_lock l txid read_share gap).0 ≡ record l {
      gap_lock = l.gap_lock || gap;
      lst_txid = if has_txid txid l.lst_txid then l.lst_txid else l.lst_txid ++ txid ∷ [];
    }
unfolding join_lock
join_lock-share l txid gap = ground arith

-- Shared locks go together: a shared read of a record that is not deleted, and that is free or
-- locked by readers, is let through. It adds its transaction behind the readers, once.
pub read_share-joins :
    (v : Version) (older : List Version) (l : RecordLock) (txid : ℕ) (gap : Bool)
    → v.rec_lock ≡ some l
    → is_action l.act_type read_share ≡ true
    → v.is_delete ≡ false
    → let r = read_list_value v older txid read_share gap in
      (r.seen ≡ some v)
      × (r.result ≡ (if has_txid txid l.lst_txid then ok_nolock else ok_lock))
      × (r.record_after.rec_lock
          ≡ some (record l {
            gap_lock = l.gap_lock || gap;
            lst_txid = if has_txid txid l.lst_txid then l.lst_txid else l.lst_txid ++ txid ∷ [];
          }))
unfolding read_list_value lock_for_read find_version sole_owner join_lock pages_there
read_share-joins v older l txid gap e sh d = ground arith
