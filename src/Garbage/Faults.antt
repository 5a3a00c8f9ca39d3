-- ===== src/Garbage/Faults.antt =====
-- Where the counts of GarbageOwner.cpp go wrong.
use rapid_db.Common.{
  ℕ, ◌+◌, ◌-◌, ◌%◌, ◌^◌, ◌≤◌, ◌<◌, ◌≡◌, inl, inr, subst, ap, ◌∙◌, List, [], ◌∷◌, none, some, true,
  false, ◌==◌, if◌then◌else◌, arith,
}
use rapid_db.Garbage.{
  GarbageOwner, insert_range, erase_range, upper_bound, before_upper_bound, insert_page, erase_page,
  less_pages, apply_index_pages,
}
use rapid_db.Garbage.Ranges.{page_sum, IsValid}
use rapid_db.Garbage.Taken.{Begins}
use rapid_db.Garbage.Apply.{NoneLong, apply_index_pages-IndexApplied}
use rapid_db.Garbage.{
  recycle_page, right_of, left_of, merge_left, merge_right, to_int16, merges, add_u16,
}

miscounted :
    (g : GarbageOwner) (num : ℕ) → IsValid g → 0 < num → num < 2 ^ 16 → ¬ IsValid (less_pages g num)
miscounted g num v p h w = absurd (omega (arith, v.total, w.total))

-- ApplyIndexPages with the lock, when pages are free but no range has as many as it is asked for, at
-- least one and fewer than 2 ^ 16: it gives none, and leaves maps and a total that are not valid together.
apply_index_pages-not-IsValid :
    (begin : List ℕ → ℕ) (g : GarbageOwner) (num : ℕ)
    → Begins begin
    → IsValid g
    → 0 < num
    → num < 2 ^ 16
    → 0 < g.total_garbage_pages
    → NoneLong g num
    → ((apply_index_pages begin g num true).1 ≡ [])
      × (¬ IsValid (apply_index_pages begin g num true).0)
apply_index_pages-not-IsValid begin g num b v p h t none_long =
    elim ((apply_index_pages-IndexApplied begin b g num true v p h).1 (ground (arith, t))) [
      | inl (e, long) ↦
          (ap (λ r. r.1) e, λ w. miscounted g num v p h (subst (λ r. IsValid r.0) e w))
      | inr (id, e, granted) ↦
          let (n, there, enough) = granted.from in
          absurd (omega (arith, enough, none_long id n there))
    ]

-- An owner of one range.
abbrev one_range : ℕ → ℕ → GarbageOwner
one_range a n = record {
  total_garbage_pages = n;
  tree_free_page = (a, n) ∷ [];
  range_page = λ m. if m == n then a ∷ [] else [];
  dirty = false;
}

left_found : (a n : ℕ) → 0 < n → left_of (a + n) ((a, n) ∷ []) ≡ some (a, n)
unfolding left_of before_upper_bound
left_found a n h = ground arith

right_missing : (a n num : ℕ) → 0 < n → right_of (a + n) num ((a, n) ∷ []) ≡ none
unfolding right_of upper_bound
right_missing a n num h = ground arith

merges_over : (n num : ℕ) → 2 ^ 15 ≤ n → n < 2 ^ 16 → num < 2 ^ 16 → merges num (to_int16 n) ≡ true
merges_over n num h k l = ground arith

wraps_over :
    (n num : ℕ)
    → 2 ^ 15 ≤ n
    → n < 2 ^ 16
    → num < 2 ^ 16
    → 2 ^ 16 < n + num
    → add_u16 num (to_int16 n) ≡ n + num - 2 ^ 16
wraps_over n num h k l m = ground arith

wrapped :
    (g : GarbageOwner) (a n num : ℕ)
    → 2 ^ 15 ≤ n
    → n < 2 ^ 16
    → num < 2 ^ 16
    → 2 ^ 16 < n + num
    → merge_left g (a + n) num (some (a, n)) ≡ (erase_page g a n, a, n + num - 2 ^ 16)
unfolding merge_left
wrapped g a n num h k l m =
    ap (λ c. if c then (erase_page g a n, a, add_u16 num (to_int16 n)) else (g, a + n, num))
      (merges_over n num h k l)
    ∙ ap (λ w. (erase_page g a n, a, w)) (wraps_over n num h k l m)

-- In an owner with one range only, recycling the pages behind that range of at least 2 ^ 15 pages, so that both have
-- more than 2 ^ 16 together, loses 2 ^ 16 of them, though the total counts them.
recycle_page_loses :
    (a n num : ℕ)
    → 2 ^ 15 ≤ n
    → n < 2 ^ 16
    → num < 2 ^ 16
    → 2 ^ 16 < n + num
    → (page_sum (recycle_page (one_range a n) (a + n) num).tree_free_page + 2 ^ 16 ≡ n + num)
      × ((recycle_page (one_range a n) (a + n) num).total_garbage_pages ≡ n + num)
unfolding recycle_page insert_page erase_page insert_range erase_range left_of right_of merge_left
    merge_right before_upper_bound upper_bound
recycle_page_loses a n num h k l m =
    rw
      (
        recycle_page,
        right_missing a n num (omega arith),
        left_found a n (omega arith),
        merge_right,
        wrapped counted a n num h k l m,
      )
      (ground arith, omega arith)
  where
    counted : GarbageOwner
    counted = record (one_range a n) { total_garbage_pages = (n + num) % 2 ^ 32; dirty = true }
