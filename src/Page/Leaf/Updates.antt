-- ===== src/Page/Leaf/Updates.antt =====
-- What UpdateAction does to a page for each action, and that it keeps the page's counters.
use rapid_db.Common.{
  ℕ, ◌≡◌, refl, ap, subst, ◌∙◌, [], set, Option, none, some, Bool, true, false, arith,
}
use rapid_db.Record.{insert, update, delete, RecordLock, Version, is_conflict}
use rapid_db.Page.{IndexPage, insert_at}
use rapid_db.Page.Leaf.{Row, over}
use rapid_db.Page.Leaf.Written.{inserted-IsCounted, deleted_over-IsCounted, updated_over-IsCounted}
use rapid_db.Page.Leaf.Settled.{ReleasesClean, Settled, settle-Settled}
use rapid_db.Page.Leaf.Counted.{IsCounted, IsMade, made-commit}
use rapid_db.Page.Leaf.Action.{
  stmt_duplicate_entry, stmt_lock_conflict, in_page, error, Outcome, settle, touched, inserted,
  deleted_over, updated_over, tx_id, act, update_action,
}
use rapid_db.Page.Search.{Found}

-- What an INSERT comes to, by the record that is found.
abbrev pub Inserts : IndexPage Row → Option Row → Version → ℕ → Outcome → Type 0
Inserts p none v pos o =
    (o.rec_result ≡ in_page)
    × (o.page.vct_record ≡ insert_at pos (record { version = v; older = [] }) p.vct_record)
Inserts p (some old) v pos o =
    (o.rec_result ≡ error) × (o.err_msg ≡ some stmt_duplicate_entry) × (o.page ≡ p)

-- What a DELETE of a found record comes to, by whether its lock is in conflict.
abbrev pub Deletes : IndexPage Row → Row → Version → RecordLock → ℕ → Outcome → Type 0
Deletes p old v lock pos o =
    (is_conflict old.version (tx_id lock) delete ≡ true
      → (o.rec_result ≡ error) × (o.err_msg ≡ some stmt_lock_conflict) × (o.page ≡ p))
    × (is_conflict old.version (tx_id lock) delete ≡ false
        → (o.rec_result ≡ in_page) × (o.page.vct_record ≡ set p.vct_record pos (over v old)))

-- What an UPDATE comes to, by the record that is found and whether its lock is in conflict.
abbrev pub Updates : IndexPage Row → Option Row → Version → RecordLock → ℕ → Outcome → Type 0
Updates p none v lock pos o =
    (o.rec_result ≡ in_page)
    × (o.page.vct_record ≡ insert_at pos (record { version = v; older = [] }) p.vct_record)
Updates p (some old) v lock pos o =
    (is_conflict old.version (tx_id lock) update ≡ false
      → (o.rec_result ≡ in_page) × (o.page.vct_record ≡ set p.vct_record pos (over v old)))
    × (is_conflict old.version (tx_id lock) update ≡ true → o.page.vct_record ≡ p.vct_record)

act-insert :
    (p : IndexPage Row)
    → (found : Option Row) → (v : Version) → (pos : ℕ) → Settled pos (p, found)
    → (m : IsMade v insert false)
    → (o : Outcome) × (act p found v m.lock pos ≡ some o)
      × IsCounted o.page
      × Inserts p found v pos o
unfolding act
act-insert p none v pos s m = (
  record { page = touched (inserted p v pos); rec_result = in_page; err_msg = none },
  rw (act, m.acts),
  inserted-IsCounted p v pos insert s.counted m (made-commit v m refl),
  (refl, refl),
)
act-insert p (some old) v pos s m = (
  record { page = p; rec_result = error; err_msg = some stmt_duplicate_entry },
  rw (act, m.acts),
  s.counted,
  (refl, refl, refl),
)

-- On a page with true counters, where the release of the found record leaves nothing committed with
-- a deleted one, an INSERT keeps the counters true. It either finds no record, and its own goes in
-- at the place that the search gave, or reports a duplicate entry and changes no more of the page
-- than the release did.
pub update_action-insert :
    (p : IndexPage Row)
    → (v : Version) → (at : Found) → IsCounted p
    → (m : IsMade v insert false) → ReleasesClean p at.at
    → (o : Outcome) × (update_action p v m.lock at ≡ some o)
      × IsCounted o.page
      × Inserts (settle p at).0 (settle p at).1 v at.at o
unfolding update_action
update_action-insert p v at c m h =
    act-insert (settle p at).0 (settle p at).1 v at.at (settle-Settled p at.at at.found c h) m

act-delete :
    (p : IndexPage Row)
    → (old : Row) → (v : Version) → (pos : ℕ) → Settled pos (p, some old)
    → (m : IsMade v delete true) → (b : Bool) → is_conflict old.version (tx_id m.lock) delete ≡ b
    → (o : Outcome) × (act p (some old) v m.lock pos ≡ some o)
      × IsCounted o.page
      × Deletes p old v m.lock pos o
unfolding act
act-delete p old v pos s m true e = (
  record { page = p; rec_result = error; err_msg = some stmt_lock_conflict },
  rw (act, m.acts, e),
  s.counted,
  (λ q. (refl, refl, refl), λ q. absurd (ground (arith, e, q))),
)
act-delete p old v pos s m false e = (
  record { page = touched (deleted_over p v pos old); rec_result = in_page; err_msg = none },
  rw (act, m.acts, e),
  deleted_over-IsCounted p v pos old s m,
  (λ q. absurd (ground (arith, e, q)), λ q. (refl, refl)),
)

-- On a page with true counters, where the release of the found record leaves nothing committed with
-- a deleted one, a DELETE of a record that is found and stays keeps the counters true. It puts the
-- deleting version over the record, or reports a conflict with the record's lock and changes no more
-- of the page than the release did.
pub update_action-delete :
    (p : IndexPage Row)
    → (v : Version) → (at : Found) → (old : Row) → IsCounted p
    → (m : IsMade v delete true) → ReleasesClean p at.at
    → (settle p at).1 ≡ some old
    → (o : Outcome) × (update_action p v m.lock at ≡ some o)
      × IsCounted o.page
      × Deletes (settle p at).0 old v m.lock at.at o
unfolding update_action
update_action-delete p v at old c m h e =
    let (o, a, counted, done) =
      act-delete (settle p at).0 old v at.at
        (subst (λ found. Settled at.at ((settle p at).0, found)) e
          (settle-Settled p at.at at.found c h))
        m (is_conflict old.version (tx_id m.lock) delete) refl in
    (o, ap (λ found. act (settle p at).0 found v m.lock at.at) e ∙ a, counted, done)

act-update :
    (p : IndexPage Row)
    → (found : Option Row) → (v : Version) → (pos : ℕ) → Settled pos (p, found)
    → (m : IsMade v update false)
    → (o : Outcome) × (act p found v m.lock pos ≡ some o)
      × IsCounted o.page
      × Updates p found v m.lock pos o
unfolding act
act-update p none v pos s m = (
  record { page = touched (inserted p v pos); rec_result = in_page; err_msg = none },
  rw (act, m.acts),
  inserted-IsCounted p v pos update s.counted m (made-commit v m refl),
  (refl, refl),
)
act-update p (some old) v pos s m = over_found (is_conflict old.version (tx_id m.lock) update) refl
  where
    over_found :
        (b : Bool)
        → is_conflict old.version (tx_id m.lock) update ≡ b
        → (o : Outcome) × (act p (some old) v m.lock pos ≡ some o)
          × IsCounted o.page
          × Updates p (some old) v m.lock pos o
    over_found true e = (
      record { page = touched p; rec_result = in_page; err_msg = some stmt_lock_conflict },
      rw (act, m.acts, e),
      record { number = s.counted.number; committed = s.counted.committed; temp = s.counted.temp },
      (λ q. absurd (ground (arith, e, q)), λ q. refl),
    )
    over_found false e = (
      record { page = touched (updated_over p v pos old); rec_result = in_page; err_msg = none },
      rw (act, m.acts, e),
      updated_over-IsCounted p v pos old s m,
      (λ q. (refl, refl), λ q. absurd (ground (arith, e, q))),
    )

-- On a page with true counters, where the release of the found record leaves nothing committed with
-- a deleted one, an UPDATE keeps the counters true. It puts its record in at the place of the search
-- if none is found, and else over the found one, unless that one's lock is in conflict; then the
-- records are those that the release left.
pub update_action-update :
    (p : IndexPage Row)
    → (v : Version) → (at : Found) → IsCounted p
    → (m : IsMade v update false) → ReleasesClean p at.at
    → (o : Outcome) × (update_action p v m.lock at ≡ some o)
      × IsCounted o.page
      × Updates (settle p at).0 (settle p at).1 v m.lock at.at o
unfolding update_action
update_action-update p v at c m h =
    act-update (settle p at).0 (settle p at).1 v at.at (settle-Settled p at.at at.found c h) m

-- An UPDATE in conflict with the lock of the found record reports the conflict in the message, yet the
-- result says that the record is in the page, while the records are the ones from before.
pub update_action-conflict_in_page :
    (p : IndexPage Row)
    → (v : Version) → (lock : RecordLock) → (at : Found) → (old : Row) → lock.act_type ≡ update
    → (settle p at).1 ≡ some old
    → is_conflict old.version (tx_id lock) update ≡ true
    → (o : Outcome) × (update_action p v lock at ≡ some o)
      × (o.rec_result ≡ in_page)
      × (o.err_msg ≡ some stmt_lock_conflict)
      × (o.page.vct_record ≡ (settle p at).0.vct_record)
unfolding update_action act
update_action-conflict_in_page p v lock at old a e b = (
  record {
    page = touched (settle p at).0;
    rec_result = in_page;
    err_msg = some stmt_lock_conflict;
  },
  ap (λ found. act (settle p at).0 found v lock at.at) e ∙ rw (act, a, b),
  refl,
  refl,
  refl,
)
