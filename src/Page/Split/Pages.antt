-- ===== src/Page/Split/Pages.antt =====
-- The pages that the split of a page leaves.
use rapid_db.Common.{
  ℕ, ◌+◌, ◌-◌, ◌*◌, ◌≤◌, ◌<◌, ◌≡◌, refl, sym, ap, List, [], ◌∷◌, ◌++◌, length, drop, none, some,
  arith, All, take-append-drop, length-take,
}
use rapid_db.Page.{IndexPage, sum_of}
use rapid_db.Page.Branch.{slot_length}
use rapid_db.Page.Split.{Part, split_loop, split_parts, new_page, pages_of, pages_from, split_page}
use rapid_db.Page.Split.Parts.{Parts, Splits, FitsPage, split_loop-Splits}

-- The records of all pages, in order.
abbrev pub joined {ℓ} : {A : Type ℓ} → List (IndexPage A) → List A
joined [] = []
joined (q ∷ qs) = q.vct_record ++ joined qs

module _ {ℓ} {A : Type ℓ} (total_length : A → ℕ) (max_len : ℕ) where
  -- A page with records whose counters are true and which is not too long.
  pub record IsFitting (q : IndexPage A) : Type 0 where
    pub number : q.record_num ≡ length q.vct_record
    pub committed : q.committed_data_length ≡ sum_of (slot_length total_length) q.vct_record
    pub nonempty : 0 < length q.vct_record
    pub fits : q.committed_data_length ≤ max_len

  pages_of-joined :
      (parts : List Part)
      → (p : IndexPage A) → (start : ℕ) → (rs : List A) → Parts total_length max_len start rs parts
      → joined (pages_of total_length max_len p start rs parts) ≡ rs
  unfolding pages_of Parts
  pages_of-joined [] p start rs h = sym h
  pages_of-joined ((pos, len) ∷ parts) p start rs (a, b, c, d, h) =
      rw
        (
          pages_of-joined parts (new_page total_length max_len) pos (drop (pos - start) rs) h,
          take-append-drop (pos - start) rs,
        )
        refl

  pages_of-IsFitting :
      (parts : List Part)
      → (p : IndexPage A) → (start : ℕ) → (rs : List A) → Parts total_length max_len start rs parts
      → All IsFitting (pages_of total_length max_len p start rs parts)
  unfolding pages_of Parts
  pages_of-IsFitting [] p start rs h = tt
  pages_of-IsFitting ((pos, len) ∷ parts) p start rs (a, b, c, d, h) = (
    record {
      number = omega (arith, length-take (pos - start) rs);
      committed = sym c;
      nonempty = omega (arith, length-take (pos - start) rs);
      fits = d;
    },
    pages_of-IsFitting parts (new_page total_length max_len) pos (drop (pos - start) rs) h,
  )

  -- A page with records is cut into one part at least.
  pages_from-some :
      (p : IndexPage A) (parts : List Part)
      → 0 < length p.vct_record
      → Parts total_length max_len 0 p.vct_record parts
      → pages_from total_length max_len p parts
        ≡ some (pages_of total_length max_len p 0 p.vct_record parts)
  unfolding pages_from Parts
  pages_from-some p [] l h = absurd (omega (arith, ap length h))
  pages_from-some p (part ∷ parts) l h = refl

  -- Splitting a page with records, none of which is longer than a page by itself, ends, and leaves
  -- pages that have all its records in their order; each has a record, counts its records and their length
  -- right and is at most as long as a page may be. A page without records is not to be split.
  pub split_page-IsFitting :
      (p : IndexPage A)
      → All (FitsPage total_length max_len) p.vct_record
      → (0 < length p.vct_record
          → (pages : List (IndexPage A)) × (split_page total_length max_len p ≡ some pages)
            × (joined pages ≡ p.vct_record)
            × All IsFitting pages)
        × (p.vct_record ≡ [] → split_page total_length max_len p ≡ none)
  unfolding split_page split_parts split_loop pages_from Splits
  split_page-IsFitting p fits =
      let (parts, e, h) =
        split_loop-Splits total_length max_len (2 * length p.vct_record + 1) p.vct_record [] 0 0 0
          (omega arith) refl fits (omega arith) (omega arith) in
      (
        λ l. (
          pages_of total_length max_len p 0 p.vct_record parts,
          rw (split_page, e) (pages_from-some p parts l h),
          pages_of-joined parts p 0 p.vct_record h,
          pages_of-IsFitting parts p 0 p.vct_record h,
        ),
        λ none_there. rw (split_page, none_there) refl,
      )
