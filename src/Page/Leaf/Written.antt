-- ===== src/Page/Leaf/Written.antt =====
-- The pages that UpdateAction writes to keep their counters.
use rapid_db.Common.{ℕ, ◌≡◌, refl, [], some, true, false, arith}
use rapid_db.Record.{ActionType, update, delete, Version}
use rapid_db.Page.{IndexPage}
use rapid_db.Page.Records.{length-insert_at, sum_of-insert_at, sum_of-set, length-set}
use rapid_db.Page.Leaf.{Row, temp_of, commit_of, over}
use rapid_db.Page.Leaf.Settled.{Settled}
use rapid_db.Page.Leaf.Counted.{IsCounted, IsMade, made-temp, over-commit, over-temp}
use rapid_db.Page.Leaf.Action.{touched, inserted, deleted_over, updated_over}

pub inserted-IsCounted :
    (p : IndexPage Row)
    → (v : Version) → (pos : ℕ) → (a : ActionType) → IsCounted p
    → IsMade v a false
    → commit_of (record { version = v; older = [] }) ≡ 0
    → IsCounted (touched (inserted p v pos))
inserted-IsCounted p v pos a c m z = record {
  number =
      omega
        (arith, c.number, length-insert_at pos (record { version = v; older = [] }) p.vct_record);
  committed = omega (
    arith,
    c.committed,
    z,
    sum_of-insert_at commit_of pos (record { version = v; older = [] }) p.vct_record,
  );
  temp = omega (
    arith,
    c.temp,
    made-temp v m.is_deleted,
    sum_of-insert_at temp_of pos (record { version = v; older = [] }) p.vct_record,
  );
}

pub deleted_over-IsCounted :
    (p : IndexPage Row)
    → (v : Version) → (pos : ℕ) → (old : Row) → Settled pos (p, some old)
    → IsMade v delete true
    → IsCounted (touched (deleted_over p v pos old))
deleted_over-IsCounted p v pos old s m = record {
  number = omega (arith, s.counted.number, length-set pos (over v old) p.vct_record);
  committed = omega (
    arith,
    s.counted.committed,
    over-commit v old m,
    sum_of-set commit_of pos old (over v old) p.vct_record (s.present old refl),
  );
  temp = omega (
    arith,
    s.counted.temp,
    made-temp old.version (s.alive old refl),
    over-temp v old m,
    sum_of-set temp_of pos old (over v old) p.vct_record (s.present old refl),
  );
}

pub updated_over-IsCounted :
    (p : IndexPage Row)
    → (v : Version) → (pos : ℕ) → (old : Row) → Settled pos (p, some old)
    → IsMade v update false
    → IsCounted (touched (updated_over p v pos old))
updated_over-IsCounted p v pos old s m = record {
  number = omega (arith, s.counted.number, length-set pos (over v old) p.vct_record);
  committed = omega (
    arith,
    s.counted.committed,
    over-commit v old m,
    sum_of-set commit_of pos old (over v old) p.vct_record (s.present old refl),
  );
  temp = omega (
    arith,
    s.counted.temp,
    made-temp old.version (s.alive old refl),
    made-temp v m.is_deleted,
    sum_of-set temp_of pos old (over v old) p.vct_record (s.present old refl),
  );
}
