-- ===== src/Page/Leaf/Counted.antt =====
-- The leaf page's operations keep its counters: the length with the changes that are not committed,
-- and the length without them.
use rapid_db.Common.{
  ℕ, ◌%◌, ◌^◌, ◌≡◌, refl, [], length, get_elem?, set, some, Bool, true, false, arith,
}
use rapid_db.Record.{ActionType, insert, delete, masks, updateable_mask, RecordLock, Version}
use rapid_db.Record.Ops.{temp_length, commit_length, is_changing}
use rapid_db.Page.{IndexPage, sub_u32, sum_of}
use rapid_db.Page.Records.{length-insert_at, sum_of-insert_at, sum_of-set, length-set}
use rapid_db.Page.Leaf.{
  Row, temp_of, commit_of, slot_of, has_lock, insert_record, over, delete_record,
}

pub record IsCounted (p : IndexPage Row) : Type 0 where
  pub number : p.record_num ≡ length p.vct_record % 2 ^ 32
  pub committed : p.committed_data_length ≡ sum_of commit_of p.vct_record % 2 ^ 32
  pub temp : p.temp_data_length ≡ sum_of temp_of p.vct_record % 2 ^ 32

-- A record that a statement made for an action.
pub record IsMade (v : Version) (act : ActionType) (deletes : Bool) : Type 0 where
  pub lock : RecordLock
  pub locked : v.rec_lock ≡ some lock
  pub acts : lock.act_type ≡ act
  pub is_deleted : v.is_delete ≡ deletes

pub made-temp : (v : Version) → v.is_delete ≡ false → temp_length v ≡ slot_of v
unfolding temp_length
made-temp v e = ground (arith, e)

pub made-changing :
    {a : ActionType} (v : Version)
    → IsMade v a false
    → masks a updateable_mask ≡ true
    → is_changing v ≡ true
unfolding is_changing
made-changing v m e = rw (is_changing, m.locked, m.acts, e)

pub made-lock : {a : ActionType} {d : Bool} (v : Version) → IsMade v a d → has_lock v ≡ true
made-lock v m = rw m.locked

pub made-commit :
    {a : ActionType} (v : Version)
    → IsMade v a false
    → masks a updateable_mask ≡ true
    → commit_length v [] ≡ 0
unfolding commit_length is_changing
made-commit v m e = ground (arith, m.is_deleted, made-changing v m e)

-- Inserting a statement's new record keeps the counters true: its length counts as not committed.
pub insert_record-IsCounted :
    (p : IndexPage Row)
    → (v : Version) → (pos : ℕ) → IsCounted p
    → IsMade v insert false
    → IsCounted (insert_record p (record { version = v; older = [] }) pos)
unfolding insert_record
insert_record-IsCounted p v pos c m = record {
  number =
      omega
        (arith, c.number, length-insert_at pos (record { version = v; older = [] }) p.vct_record);
  committed = ground (
    arith,
    c.committed,
    made-lock v m,
    made-commit v m refl,
    sum_of-insert_at commit_of pos (record { version = v; older = [] }) p.vct_record,
  );
  temp = omega (
    arith,
    c.temp,
    made-temp v m.is_deleted,
    sum_of-insert_at temp_of pos (record { version = v; older = [] }) p.vct_record,
  );
}

pub over-commit :
    {a : ActionType} {d : Bool} (v : Version) (old : Row)
    → IsMade v a d
    → commit_of (over v old) ≡ commit_of old
unfolding commit_length
over-commit v old m = rw (commit_length, m.locked)

pub over-temp : (v : Version) (old : Row) → IsMade v delete true → temp_of (over v old) ≡ 0
unfolding temp_length
over-temp v old m = ground (arith, m.is_deleted)

-- Deleting the record at a position puts the deleting version over it and keeps the counters true:
-- what is not committed loses the old record's length, and what is committed keeps it.
pub delete_record-IsCounted :
    (p : IndexPage Row)
    → (v : Version) → (pos : ℕ) → (old : Row) → IsCounted p
    → IsMade v delete true
    → get_elem? p.vct_record pos ≡ some old
    → old.version.is_delete ≡ false
    → (q : IndexPage Row) × (delete_record p v pos ≡ some q)
      × (q.vct_record ≡ set p.vct_record pos (over v old))
      × IsCounted q
unfolding delete_record
delete_record-IsCounted p v pos old c m e d = (
  record {
    vct_record = set p.vct_record pos (over v old);
    record_num = p.record_num;
    committed_data_length = p.committed_data_length;
    temp_data_length = sub_u32 p.temp_data_length (slot_of old.version);
    dirty = true;
    record_updated = true;
  },
  rw (delete_record, e),
  refl,
  record {
    number = omega (arith, c.number, length-set pos (over v old) p.vct_record);
    committed = omega (
      arith,
      c.committed,
      over-commit v old m,
      sum_of-set commit_of pos old (over v old) p.vct_record e,
    );
    temp = omega (
      arith,
      c.temp,
      made-temp old.version d,
      over-temp v old m,
      sum_of-set temp_of pos old (over v old) p.vct_record e,
    );
  },
)
