-- ===== src/Page/Search/Correct.antt =====
-- What the searches find in a page whose records are in order.
use rapid_db.Common.{
  ℕ, zero, suc, ◌+◌, ◌-◌, ◌/◌, ◌≤◌, ◌<◌, ◌≡◌, ◌≢◌, ◌⊎◌, refl, sym, ap, subst, ◌∙◌, true, false,
  Ordering, arith, dec_lt, inl, inr,
}
use rapid_db.Page.Search.{Found, search_record, search_key, branch_search_record}

-- The records below the searched one come first, then those equal to it, then those above.
pub record IsOrdered (hr : ℕ → Ordering) (n : ℕ) : Type 0 where
  pub below : (i j : ℕ) → i ≤ j → j < n → hr j ≡ Ordering.lt → hr i ≡ Ordering.lt
  pub above : (i j : ℕ) → i ≤ j → j < n → hr i ≡ Ordering.gt → hr j ≡ Ordering.gt

-- What a search promises: a record that compares equal; or the place that has the records below
-- before it and those above from it on.
abbrev pub Answers : (ℕ → Ordering) → ℕ → Found → Type 0
Answers hr n r =
    ((r.found ≡ true) × (r.at < n) × (hr r.at ≡ Ordering.eq))
    ⊎ ((r.found ≡ false)
        × (r.at ≤ n)
        × ((i : ℕ) → i < r.at → hr i ≡ Ordering.lt)
        × ((i : ℕ) → r.at ≤ i → i < n → hr i ≡ Ordering.gt))

-- The record found is the first of those that compare equal.
abbrev pub Leftmost : (ℕ → Ordering) → ℕ → Found → Type 0
Leftmost hr n r =
    (r.found ≡ true)
    × (r.at < n)
    × (hr r.at ≡ Ordering.eq)
    × ((i : ℕ) → i < r.at → hr i ≡ Ordering.lt)

abbrev pub AnswersFirst : (ℕ → Ordering) → ℕ → Found → Type 0
AnswersFirst hr n r =
    Leftmost hr n r
    ⊎ ((r.found ≡ false)
        × (r.at ≤ n)
        × ((i : ℕ) → i < r.at → hr i ≡ Ordering.lt)
        × ((i : ℕ) → r.at ≤ i → i < n → hr i ≡ Ordering.gt))

Ordering-cases : (o : Ordering) → (o ≡ Ordering.lt) ⊎ ((o ≡ Ordering.gt) ⊎ (o ≡ Ordering.eq))
Ordering-cases Ordering.lt = inl refl
Ordering-cases Ordering.gt = inr (inl refl)
Ordering-cases Ordering.eq = inr (inr refl)

Ordering-lt≢eq : Ordering.lt ≢ Ordering.eq
Ordering-lt≢eq e = absurd (ground (arith, e))

module _ (hr : ℕ → Ordering) (n : ℕ) (o : IsOrdered hr n) where
  -- The records outside the interval that is left.
  record Bounds (start past : ℕ) : Type 0 where
    ordered : start ≤ past
    fits : past ≤ n
    left_of : (i : ℕ) → i < start → hr i ≡ Ordering.lt
    right_of : (i : ℕ) → past ≤ i → i < n → hr i ≡ Ordering.gt

  go_right :
      {start past : ℕ}
      → Bounds start past
      → start < past
      → hr ((start + (past - 1)) / 2) ≡ Ordering.lt
      → Bounds ((start + (past - 1)) / 2 + 1) past
  go_right {start} {past} b l e = record {
    ordered = omega arith;
    fits = b.fits;
    left_of = λ i h. o.below i ((start + (past - 1)) / 2) (omega arith) (omega (arith, b.fits)) e;
    right_of = b.right_of;
  }

  go_left :
      {start past : ℕ}
      → Bounds start past
      → start < past
      → hr ((start + (past - 1)) / 2) ≡ Ordering.gt
      → Bounds start ((start + (past - 1)) / 2)
  go_left {start} {past} b l e = record {
    ordered = omega arith;
    fits = omega (arith, b.fits);
    left_of = b.left_of;
    right_of = λ i h k. o.above ((start + (past - 1)) / 2) i h k e;
  }

  whole_page : Bounds 0 n
  whole_page = record {
    ordered = omega arith;
    fits = omega arith;
    left_of = λ i h. absurd (omega arith);
    right_of = λ i h k. absurd (omega arith);
  }

  search_record-step :
      (fuel start past : ℕ)
      → Bounds start past
      → past < fuel + start
      → Answers hr n (search_record hr fuel start past)
  unfolding search_record
  search_record-step zero start past b f = absurd (omega (arith, b.ordered))
  search_record-step (suc fuel) start past b f = elim (dec_lt start past) [
    | no empty ↦ ground (arith, b.fits, b.ordered, b.left_of, b.right_of)
    | yes some_left ↦ elim (Ordering-cases (hr ((start + (past - 1)) / 2))) [
      | inl e ↦ ground (
        arith,
        e,
        search_record-step fuel ((start + (past - 1)) / 2 + 1) past (go_right b some_left e)
            (omega arith),
      )
      | inr (inl e) ↦ ground (
        arith,
        e,
        search_record-step fuel start ((start + (past - 1)) / 2) (go_left b some_left e)
            (omega arith),
      )
      | inr (inr e) ↦ ground (arith, e, b.fits)
    ]
  ]

  before_equal :
      {start middle : ℕ}
      → ((i : ℕ) → i < start → hr i ≡ Ordering.lt)
      → start ≤ middle
      → middle < n
      → hr middle ≡ Ordering.eq
      → (start < middle → hr (middle - 1) ≢ Ordering.eq)
      → (i : ℕ) → i < middle
      → hr i ≡ Ordering.lt
  before_equal {start} {middle} left l m e ne i h = elim (dec_lt start middle) [
    | no k ↦ left i (omega arith)
    | yes k ↦ elim (Ordering-cases (hr (middle - 1))) [
      | inl f ↦ o.below i (middle - 1) (omega arith) (omega arith) f
      | inr (inl f) ↦ absurd (ground (arith, e, o.above (middle - 1) middle (omega arith) m f))
      | inr (inr f) ↦ absurd (ne k f)
    ]
  ]

  before_last : {m l : ℕ} → hr m ≡ Ordering.lt → hr l ≡ Ordering.eq → m ≤ l → m < l
  before_last {m} {l} e f h = elim (dec_lt m l) [
    | yes k ↦ k
    | no k ↦ absurd (Ordering-lt≢eq (sym e ∙ ap hr (omega arith) ∙ f))
  ]

  at_equal :
      (fuel : ℕ)
      → {start past : ℕ} → ((i : ℕ) → i < start → hr i ≡ Ordering.lt)
      → start < past
      → past ≤ n
      → hr ((start + (past - 1)) / 2) ≡ Ordering.eq
      → (start < (start + (past - 1)) / 2
          → hr ((start + (past - 1)) / 2 - 1) ≡ Ordering.eq
          → Leftmost hr n (search_key hr false fuel start ((start + (past - 1)) / 2)))
      → Leftmost hr n (search_key hr false (suc fuel) start past)
  unfolding search_key
  at_equal fuel {start} {past} left l p e again = elim (dec_lt start ((start + (past - 1)) / 2)) [
    | no k ↦ ground (arith, e, before_equal left (omega arith) (omega arith) e (λ h. absurd (k h)))
    | yes k ↦ elim (Ordering-cases (hr ((start + (past - 1)) / 2 - 1))) [
      | inl f ↦ ground (
        arith,
        e,
        f,
        k,
        before_equal left (omega arith) (omega arith) e (λ h. λ g. Ordering-lt≢eq (sym f ∙ g)),
      )
      | inr (inl f) ↦ absurd (
          ground (
            arith,
            e,
            o.above ((start + (past - 1)) / 2 - 1) ((start + (past - 1)) / 2) (omega arith)
                (omega arith) f,
          ))
      | inr (inr f) ↦ ground (arith, e, f, k, again k f)
    ]
  ]

  -- Once a record that compares equal is the last of the interval, the first such one is found.
  search_key-Leftmost :
      (fuel start past : ℕ)
      → ((i : ℕ) → i < start → hr i ≡ Ordering.lt)
      → start < past
      → past ≤ n
      → hr (past - 1) ≡ Ordering.eq
      → past < fuel + start
      → Leftmost hr n (search_key hr false fuel start past)
  unfolding search_key
  search_key-Leftmost zero start past left l p e f = absurd (omega arith)
  search_key-Leftmost (suc fuel) start past left l p e f =
      elim (Ordering-cases (hr ((start + (past - 1)) / 2))) [
        | inl e' ↦ ground (
          arith,
          e',
          search_key-Leftmost fuel ((start + (past - 1)) / 2 + 1) past
              (λ i h. o.below i ((start + (past - 1)) / 2) (omega arith) (omega arith) e')
              (omega (arith, before_last e' e (omega arith))) p e (omega arith),
        )
        | inr (inl e') ↦ absurd (
            ground (
              arith,
              e,
              o.above ((start + (past - 1)) / 2) (past - 1) (omega arith) (omega arith) e',
            ))
        | inr (inr e') ↦ at_equal fuel left l p e' (λ k e2.
            search_key-Leftmost fuel start ((start + (past - 1)) / 2) left k (omega arith) e2
              (omega arith))
      ]

  search_key-step :
      (fuel start past : ℕ)
      → Bounds start past
      → past < fuel + start
      → AnswersFirst hr n (search_key hr false fuel start past)
  unfolding search_key
  search_key-step zero start past b f = absurd (omega (arith, b.ordered))
  search_key-step (suc fuel) start past b f = elim (dec_lt start past) [
    | no empty ↦ ground (arith, b.fits, b.ordered, b.left_of, b.right_of)
    | yes some_left ↦ elim (Ordering-cases (hr ((start + (past - 1)) / 2))) [
      | inl e ↦ ground (
        arith,
        e,
        search_key-step fuel ((start + (past - 1)) / 2 + 1) past (go_right b some_left e)
            (omega arith),
      )
      | inr (inl e) ↦ ground (
        arith,
        e,
        search_key-step fuel start ((start + (past - 1)) / 2) (go_left b some_left e) (omega arith),
      )
      | inr (inr e) ↦ inl (
          at_equal fuel b.left_of some_left b.fits e (λ k e2.
            search_key-Leftmost fuel start ((start + (past - 1)) / 2) b.left_of k
              (omega (arith, b.fits)) e2 (omega arith)))
    ]
  ]

-- On a page of n records in order, SearchRecord of a leaf page returns a record that compares equal
-- or else the place that has the smaller records before it and the larger ones from it on.
pub search_record-Answers :
    (hr : ℕ → Ordering) → (n : ℕ) → IsOrdered hr n → Answers hr n (search_record hr (suc n) 0 n)
search_record-Answers hr n o =
    search_record-step hr n o (suc n) 0 n (whole_page hr n o) (omega arith)

-- On such a page, SearchKey of a leaf page whose index is not unique returns the first record that
-- compares equal, or else the place between the smaller records and the larger ones.
pub search_key-AnswersFirst :
    (hr : ℕ → Ordering)
    → (n : ℕ) → IsOrdered hr n
    → AnswersFirst hr n (search_key hr false (suc n) 0 n)
search_key-AnswersFirst hr n o =
    search_key-step hr n o (suc n) 0 n (whole_page hr n o) (omega arith)

-- For a unique index, SearchKey is SearchRecord.
search_key-search_record :
    (hr : ℕ → Ordering)
    → (fuel start past : ℕ) → search_key hr true fuel start past ≡ search_record hr fuel start past
unfolding search_key search_record
search_key-search_record hr zero start past = refl
search_key-search_record hr (suc fuel) start past = ground (
  arith,
  search_key-search_record hr fuel ((start + (past - 1)) / 2 + 1) past,
  search_key-search_record hr fuel start ((start + (past - 1)) / 2),
)

-- On such a page of a unique index, SearchKey returns a record that compares equal, or else the
-- place between the smaller records and the larger ones.
pub search_key-Answers :
    (hr : ℕ → Ordering) → (n : ℕ) → IsOrdered hr n → Answers hr n (search_key hr true (suc n) 0 n)
search_key-Answers hr n o =
    subst (Answers hr n) (sym (search_key-search_record hr (suc n) 0 n))
      (search_record-Answers hr n o)

not_above :
    (hr : ℕ → Ordering)
    → (n : ℕ) → IsOrdered hr n
    → {j : ℕ} → hr j ≡ Ordering.eq
    → j < n
    → (i : ℕ) → i < j
    → hr i ≢ Ordering.gt
not_above hr n o {j} e l i k g = absurd (ground (arith, e, o.above i j (omega arith) l g))

-- On a branch page of n > 0 records in order, the search returns a record of the page with no
-- larger record before it; it is not smaller itself unless it is the last one.
pub branch_search_record_child :
    (hr : ℕ → Ordering)
    → (n : ℕ) → IsOrdered hr n
    → 0 < n
    → (branch_search_record hr n < n)
      × ((i : ℕ) → i < branch_search_record hr n → hr i ≢ Ordering.gt)
      × (hr (branch_search_record hr n) ≡ Ordering.lt → branch_search_record hr n ≡ n - 1)
unfolding branch_search_record
branch_search_record_child hr n o h = elim (search_record-Answers hr n o) [
  | inl (f, l, e) ↦ ground (arith, l, e, not_above hr n o e l)
  | inr (f, l, smaller, larger) ↦ elim (dec_lt (search_record hr (suc n) 0 n).at n) [
    | yes k ↦
        ground (arith, l, k, smaller, larger (search_record hr (suc n) 0 n).at (omega arith) k)
    | no k ↦ ground (arith, l, k, smaller)
  ]
]
