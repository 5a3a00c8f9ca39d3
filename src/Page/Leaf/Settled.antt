-- ===== src/Page/Leaf/Settled.antt =====
-- The first part of UpdateAction: the release of the record that is found.
use rapid_db.Common.{
  ℕ, ◌≡◌, refl, subst, ◌∙◌, get_elem?, Option, none, some, Bool, true, false, if◌then◌else◌, arith,
}
use rapid_db.Record.{Version}
use rapid_db.Record.Ops.{temp_length}
use rapid_db.Page.{IndexPage}
use rapid_db.Page.Records.{sum_of-set, length-set, length-erase_at, sum_of-erase_at, get_elem?-set}
use rapid_db.Page.Leaf.{Row, temp_of, commit_of}
use rapid_db.Page.Leaf.Counted.{IsCounted}
use rapid_db.Page.Leaf.Action.{settled_row, with_row, without_row, settle}

-- The release of the found record leaves nothing committed where it leaves a deleted record.
abbrev pub ReleasesClean : IndexPage Row → ℕ → Type 0
ReleasesClean p pos =
    (old : Row)
    → get_elem? p.vct_record pos ≡ some old
    → (settled_row old).version.is_delete ≡ true
    → commit_of (settled_row old) ≡ 0

with_row-IsCounted :
    (p : IndexPage Row)
    → (pos : ℕ) → (old new : Row) → IsCounted p
    → get_elem? p.vct_record pos ≡ some old
    → IsCounted (with_row p pos old new)
with_row-IsCounted p pos old new c e = record {
  number = omega (arith, c.number, length-set pos new p.vct_record);
  committed = omega (arith, c.committed, sum_of-set commit_of pos old new p.vct_record e);
  temp = omega (arith, c.temp, sum_of-set temp_of pos old new p.vct_record e);
}

without_row-IsCounted :
    (p : IndexPage Row)
    → (pos : ℕ) → (old : Row) → IsCounted p
    → get_elem? p.vct_record pos ≡ some old
    → commit_of old ≡ 0
    → temp_of old ≡ 0
    → IsCounted (without_row p pos)
without_row-IsCounted p pos old c e h k = record {
  number = omega (arith, c.number, length-erase_at pos old p.vct_record e);
  committed = omega (arith, c.committed, sum_of-erase_at commit_of pos old p.vct_record e);
  temp = omega (arith, c.temp, sum_of-erase_at temp_of pos old p.vct_record e);
}

deleted-temp : (v : Version) → v.is_delete ≡ true → temp_length v ≡ 0
unfolding temp_length
deleted-temp v e = ground (arith, e)

-- What the first part leaves: a page with true counters, which has the record that is still found.
pub record Settled (pos : ℕ) (r : IndexPage Row × Option Row) : Type 0 where
  pub counted : IsCounted r.0
  pub present : (old : Row) → r.1 ≡ some old → get_elem? r.0.vct_record pos ≡ some old
  pub alive : (old : Row) → r.1 ≡ some old → old.version.is_delete ≡ false

unchanged-Settled : (p : IndexPage Row) (pos : ℕ) → IsCounted p → Settled pos (p, none)
unchanged-Settled p pos c = record {
  counted = c;
  present = λ old e. absurd (ground (arith, e));
  alive = λ old e. absurd (ground (arith, e));
}

abbrev AliveIf : Option Row → Type 0
AliveIf none = Unit
AliveIf (some row) = row.version.is_delete ≡ false

released-Settled :
    (p : IndexPage Row)
    → (pos : ℕ) → (old : Row) → (deleted : Bool) → (settled_row old).version.is_delete ≡ deleted
    → get_elem? p.vct_record pos ≡ some old
    → IsCounted p
    → ReleasesClean p pos
    → Settled pos (
        if deleted
        then (without_row (with_row p pos old (settled_row old)) pos, none)
        else (with_row p pos old (settled_row old), some (settled_row old)))
released-Settled p pos old true d e c h = unchanged-Settled _ pos (
    without_row-IsCounted (with_row p pos old (settled_row old)) pos (settled_row old)
      (with_row-IsCounted p pos old (settled_row old) c e)
      (get_elem?-set pos old (settled_row old) p.vct_record e) (h old e d)
      (deleted-temp (settled_row old).version d))
released-Settled p pos old false d e c h = record {
  counted = with_row-IsCounted p pos old (settled_row old) c e;
  present = λ row f. get_elem?-set pos old (settled_row old) p.vct_record e ∙ f;
  alive = λ row f. subst AliveIf f d;
}

looked_up-Settled :
    (p : IndexPage Row)
    → (pos : ℕ) → (o : Option Row) → get_elem? p.vct_record pos ≡ o
    → IsCounted p
    → ReleasesClean p pos
    → Settled pos (elim o [
      | none ↦ (p, none)
      | some old ↦
          if (settled_row old).version.is_delete
          then (without_row (with_row p pos old (settled_row old)) pos, none)
          else (with_row p pos old (settled_row old), some (settled_row old))
    ])
looked_up-Settled p pos none e c h = unchanged-Settled p pos c
looked_up-Settled p pos (some old) e c h =
    released-Settled p pos old (settled_row old).version.is_delete refl e c h

pub settle-Settled :
    (p : IndexPage Row)
    → (pos : ℕ) → (found : Bool) → IsCounted p
    → ReleasesClean p pos
    → Settled pos (settle p (record { at = pos; found = found }))
unfolding settle
settle-Settled p pos true c h = looked_up-Settled p pos (get_elem? p.vct_record pos) refl c h
settle-Settled p pos false c h = unchanged-Settled p pos c
