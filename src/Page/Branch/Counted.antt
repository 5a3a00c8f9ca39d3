-- ===== src/Page/Branch/Counted.antt =====
-- The branch page's operations keep its counters.
use rapid_db.Common.{
  ℕ, ◌^◌, ◌≤◌, ◌<◌, ◌≡◌, refl, [], ◌∷◌, ◌++◌, length, get_elem?, some, Bool, true, false,
  if◌then◌else◌, arith, length-append,
}
use rapid_db.Page.{IndexPage, add_u32, sub_u32, max_data_length_branch, erase_at}
use rapid_db.Page.Records.{
  length-insert_at, length-erase_at, sum_of-insert_at, sum_of-erase_at, sum_of-append,
  get_elem?-insert_at, erase_at-insert_at,
}
use rapid_db.Page.Branch.{
  slot_length, is_full, appended, delete_record, insert_record, append_record, IsCounted,
}

sub-add : (a b : ℕ) → a < 2 ^ 32 → sub_u32 (add_u32 a b) b ≡ a
sub-add a b h = omega arith

module _ {ℓ} {A : Type ℓ} (total_length : A → ℕ) where
  -- Inserting a record keeps the number and the length that the page counts true to its records.
  pub insert_record-IsCounted :
      (p : IndexPage A)
      → (r : A) → (pos : ℕ) → IsCounted total_length p
      → IsCounted total_length (insert_record total_length p r pos)
  unfolding insert_record
  insert_record-IsCounted p r pos c = record {
    number = omega (arith, c.number, length-insert_at pos r p.vct_record);
    committed =
        omega (arith, c.committed, sum_of-insert_at (slot_length total_length) pos r p.vct_record);
  }

  -- What the page is without the record at the index.
  erased : IndexPage A → ℕ → A → IndexPage A
  erased p index r = record {
    vct_record = erase_at index p.vct_record;
    record_num = sub_u32 p.record_num 1;
    committed_data_length = sub_u32 p.committed_data_length (slot_length total_length r);
    temp_data_length = p.temp_data_length;
    dirty = true;
    record_updated = true;
  }

  delete_record-erased :
      (p : IndexPage A)
      → (index : ℕ) → (r : A) → get_elem? p.vct_record index ≡ some r
      → delete_record total_length p index ≡ some (erased p index r, r)
  unfolding delete_record erased
  delete_record-erased p index r e = rw (delete_record, e)

  erased-IsCounted :
      (p : IndexPage A)
      → (index : ℕ) → (r : A) → IsCounted total_length p
      → get_elem? p.vct_record index ≡ some r
      → IsCounted total_length (erased p index r)
  unfolding erased
  erased-IsCounted p index r c e = record {
    number = omega (arith, c.number, length-erase_at index r p.vct_record e);
    committed =
        omega
          (arith, c.committed, sum_of-erase_at (slot_length total_length) index r p.vct_record e);
  }

  -- Deleting the record at an index of the page returns it, and keeps the number and the length that
  -- the page counts true to its records.
  pub delete_record-IsCounted :
      (p : IndexPage A)
      → (index : ℕ) → (r : A) → IsCounted total_length p
      → get_elem? p.vct_record index ≡ some r
      → (q : IndexPage A) × (delete_record total_length p index ≡ some (q, r))
        × IsCounted total_length q
  delete_record-IsCounted p index r c e =
      (erased p index r, delete_record-erased p index r e, erased-IsCounted p index r c e)

  -- Deleting what was inserted gives the record back and the page its records and counters, with a
  -- place within the page and counters below 2^32.
  pub delete_record-insert_record :
      (p : IndexPage A)
      → (r : A) → (pos : ℕ) → pos ≤ length p.vct_record
      → p.record_num < 2 ^ 32
      → p.committed_data_length < 2 ^ 32
      → delete_record total_length (insert_record total_length p r pos) pos
        ≡ some (record p { dirty = true; record_updated = true }, r)
  unfolding insert_record delete_record
  delete_record-insert_record p r pos h n c = rw (
    delete_record,
    get_elem?-insert_at pos r p.vct_record h,
    erase_at-insert_at pos r p.vct_record h,
    sub-add p.record_num 1 n,
    sub-add p.committed_data_length (slot_length total_length r) c,
  )

  -- What AppendRecord promises of the page and the result that it leaves.
  pub Appends : IndexPage A → A → IndexPage A × Bool → Type ℓ
  Appends p r (q, true) =
      (q.vct_record ≡ p.vct_record ++ r ∷ [])
      × (q.committed_data_length ≤ max_data_length_branch)
      × IsCounted total_length q
  Appends p r (q, false) = q ≡ p

  appended-Appends :
      (p : IndexPage A)
      → (r : A) → (full : Bool) → is_full total_length p r ≡ full
      → IsCounted total_length p
      → Appends p r (if full then (p, false) else (appended total_length p r, true))
  unfolding Appends is_full
  appended-Appends p r true e c = refl
  appended-Appends p r false e c = (
    refl,
    ground (arith, e),
    record {
      number = omega (arith, c.number, length-append p.vct_record (r ∷ []));
      committed =
          omega
            (arith, c.committed, sum_of-append (slot_length total_length) p.vct_record (r ∷ []));
    },
  )

  -- AppendRecord adds the record at the end of a page whose counters are true, which then stays within
  -- the length of a branch page and keeps its counters true; or it leaves the page alone.
  pub append_record-Appends :
      (p : IndexPage A)
      → (r : A) → IsCounted total_length p
      → Appends p r (append_record total_length p r)
  unfolding append_record
  append_record-Appends p r c = appended-Appends p r (is_full total_length p r) refl c
