-- ===== src/Record/Isolation.antt =====
-- The life of one change, and of the shared locks, from the lock to its release.
use mathlib.Core.List.{append-nil}
use rapid_db.Common.{
  ℕ, ◌+◌, ◌≡◌, ◌≢◌, refl, sym, ap, ◌∙◌, length, List, [], ◌∷◌, ◌++◌, Option, none, some, true,
  false, arith, All, replicate, suc, zero,
}
use rapid_db.Record.{
  no_action, read_share, update, RecordStatus, commited, rollbacked, freeed, is_action, RecordLock,
  Version, lock_releasable, txid_null, all_null,
}
use rapid_db.Record.Ops.{
  read_list_value, find_version, lock_for_read, sole_owner, unchanged, submit_statement,
  submit_lock, clear_first, release_lock, pages_there,
}

-- What a plain read of the record sees after the statement has ended and its lock is released.
abbrev read_after : Version → List Version → ℕ → RecordStatus → ℕ → Option Version
read_after v older txid sts reader =
    let r = release_lock (submit_statement v txid sts) older in
    (read_list_value r.version r.older reader no_action false).seen

-- An UPDATE by a transaction of a record that is not deleted and not locked, where the new version
-- has overflow pages if the old one has: plain reads see the old version until the statement ends; after a commit
-- they see the new one, without its lock, and after a rollback the old one again.
pub update-atomic :
    (v u : Version) (l : RecordLock) (txid reader : ℕ)
    → v.rec_lock ≡ some l
    → l.act_type ≡ update
    → v.is_delete ≡ false
    → u.rec_lock ≡ none
    → u.is_delete ≡ false
    → pages_there u v ≡ true
    → ((read_list_value v (u ∷ []) reader no_action false).seen ≡ some u)
      × (read_after v (u ∷ []) txid commited reader ≡ some (record v { rec_lock = none }))
      × (read_after v (u ∷ []) txid rollbacked reader ≡ some u)
unfolding read_list_value find_version lock_for_read sole_owner unchanged submit_statement
    submit_lock release_lock pages_there
update-atomic v u l txid reader e a d n nd g = (ground arith, ground arith, ground arith)

-- Where the old version has overflow pages and the new one has none, a plain read before the statement
-- ends stops at an assertion.
read-failed :
    (v u : Version) (l : RecordLock) (reader : ℕ) (page : ℕ × ℕ)
    → v.rec_lock ≡ some l
    → l.act_type ≡ update
    → u.rec_lock ≡ none
    → u.is_delete ≡ false
    → u.overflow_page ≡ some page
    → v.overflow_page ≡ none
    → ((read_list_value v (u ∷ []) reader no_action false).failed ≡ true)
      × ((read_list_value v (u ∷ []) reader no_action false).seen ≡ none)
unfolding read_list_value find_version lock_for_read sole_owner unchanged pages_there
read-failed v u l reader page e a n nd g h = (ground arith, ground arith)

-- The shared lock after the statements of the listed transactions have freed it, one by one.
abbrev pub free_all : RecordLock → List ℕ → RecordLock
free_all l [] = l
free_all l (t ∷ ts) = free_all (submit_lock l t freeed) ts

abbrev AreIds : List ℕ → Type 0
AreIds = All (λ t. t ≢ txid_null)

clear_first-nulls :
    (n t : ℕ) (ts : List ℕ)
    → t ≢ txid_null
    → clear_first t (replicate n txid_null ++ t ∷ ts) ≡ replicate n txid_null ++ txid_null ∷ ts
unfolding clear_first
clear_first-nulls zero t ts h = ground arith
clear_first-nulls (suc n) t ts h = ground (arith, clear_first-nulls n t ts h)

replicate-snoc :
    (n : ℕ) (ts : List ℕ)
    → replicate n txid_null ++ txid_null ∷ ts ≡ replicate (suc n) txid_null ++ ts
replicate-snoc zero ts = refl
replicate-snoc (suc n) ts = ap (◌∷◌ txid_null) (replicate-snoc n ts)

free_all-lst :
    (l : RecordLock) (n : ℕ) (us rest : List ℕ)
    → is_action l.act_type read_share ≡ true
    → l.lst_txid ≡ replicate n txid_null ++ (us ++ rest)
    → AreIds us
    → ((free_all l us).lst_txid ≡ replicate (length us + n) txid_null ++ rest)
      × (is_action (free_all l us).act_type read_share ≡ true)
unfolding submit_lock
free_all-lst l n [] rest sh e ids = (ground arith, sh)
free_all-lst l n (t ∷ us) rest sh e ids =
    let (a, b) = free_all-lst (submit_lock l t freeed) (suc n) us rest (ground arith) step ids.1 in
    (a ∙ ap (λ (k : ℕ). replicate k txid_null ++ rest) (omega arith), b)
  where
    step : (submit_lock l t freeed).lst_txid ≡ replicate (suc n) txid_null ++ (us ++ rest)
    step = ground (arith, clear_first-nulls n t (us ++ rest) ids.0, replicate-snoc n (us ++ rest))

all_null-replicate : (n : ℕ) (ts : List ℕ) → all_null (replicate n txid_null ++ ts) ≡ all_null ts
all_null-replicate zero ts = refl
all_null-replicate (suc n) ts = all_null-replicate n ts

-- A shared lock of any number of transactions with ids that are not the null one can be released once
-- all of them have freed it in their order, and not before: with one more of them behind those it cannot.
pub share_lock-released :
    (l : RecordLock) (us : List ℕ) (t : ℕ) (rest : List ℕ)
    → is_action l.act_type read_share ≡ true
    → AreIds us
    → t ≢ txid_null
    → (l.lst_txid ≡ us → lock_releasable (free_all l us) ≡ true)
      × (l.lst_txid ≡ us ++ t ∷ rest → lock_releasable (free_all l us) ≡ false)
share_lock-released l us t rest sh ids ne = (all_free, one_left)
  where
    all_free : l.lst_txid ≡ us → lock_releasable (free_all l us) ≡ true
    all_free e =
        let (a, b) = free_all-lst l 0 us [] sh (e ∙ sym (append-nil us)) ids in
        ground (arith, a, b, all_null-replicate (length us + 0) [])

    one_left : l.lst_txid ≡ us ++ t ∷ rest → lock_releasable (free_all l us) ≡ false
    one_left e =
        let (a, b) = free_all-lst l 0 us (t ∷ rest) sh e ids in
        ground (arith, a, b, all_null-replicate (length us + 0) (t ∷ rest))
