-- ===== src/Tree/Numbers.antt =====
-- No two records of a tree are given the same stamp or the same automatic key.
use rapid_db.Common.{
  ℕ, zero, suc, ◌+◌, ◌^◌, ◌≤◌, ◌<◌, ◌≡◌, ◌≢◌, ◌⊎◌, refl, sym, ap, subst, ◌∙◌, inl, inr, List, [],
  ◌∷◌, some, ltb, leb, length, get_elem?, set, All, arith, Bool-cases,
}
use rapid_db.Tree.{Batch, Counter, get_and_inc, refill, apply_from}

-- The numbers that a range still holds.
abbrev pub Has : Batch → ℕ → Type 0
Has r x = (r.start ≤ x) × (x < r.end)

-- What was given away is below the head's counter and in no range, and no number is in two ranges.
pub record IsApart (used : List ℕ) (c : Counter) : Type 0 where
  pub given : All (λ x. x < c.head) used
  pub held : (i : ℕ) (r : Batch) → get_elem? c.ranges i ≡ some r → r.end ≤ c.head
  pub unused : (i : ℕ) (r : Batch) → get_elem? c.ranges i ≡ some r → All (λ x. ¬ (Has r x)) used
  pub apart :
      (i j : ℕ) (r s : Batch) (x : ℕ)
      → get_elem? c.ranges i ≡ some r
      → get_elem? c.ranges j ≡ some s
      → Has r x
      → Has s x
      → i ≡ j

get_elem?-set :
    (rs : List Batch) (i j : ℕ) (r s : Batch)
    → get_elem? (set rs i r) j ≡ some s
    → ((i ≡ j) × (s ≡ r)) ⊎ ((i ≢ j) × (get_elem? rs j ≡ some s))
get_elem?-set [] i j r s e = inr ((λ k. absurd (no_range j s e)), e)
  where
    no_range : (j : ℕ) (s : Batch) → get_elem? {A = Batch} [] j ≡ some s → ⊥
    no_range j s e = cc
get_elem?-set (q ∷ rs) zero zero r s e = inl (refl, ground (arith, e))
get_elem?-set (q ∷ rs) zero (suc j) r s e = inr ((λ k. absurd (omega arith)), e)
get_elem?-set (q ∷ rs) (suc i) zero r s e = inr ((λ k. absurd (omega arith)), e)
get_elem?-set (q ∷ rs) (suc i) (suc j) r s e = elim (get_elem?-set rs i j r s e) [
  | inl (k, f) ↦ inl (ap suc k, f)
  | inr (k, f) ↦ inr ((λ d. k (omega arith)), f)
]

module _ {P Q R : ℕ → Type 0} where
  All-both : (xs : List ℕ) → ((x : ℕ) → P x → Q x → R x) → All P xs → All Q xs → All R xs
  All-both [] f p q = tt
  All-both (x ∷ xs) f p q = (f x p.0 q.0, All-both xs f p.1 q.1)

module _ {P R : ℕ → Type 0} where
  All-imp : (xs : List ℕ) → ((x : ℕ) → P x → R x) → All P xs → All R xs
  All-imp [] f p = tt
  All-imp (x ∷ xs) f p = (f x p.0, All-imp xs f p.1)

-- A range is given numbers from the head's counter on besides its own.
module _ (used : List ℕ) (c : Counter) (i head' : ℕ) (r r' : Batch) (h : IsApart used c)
    (is_r : get_elem? c.ranges i ≡ some r) (grows : c.head ≤ head') (bounded : r'.end ≤ head')
    (new : (x : ℕ) → Has r' x → (c.head ≤ x) ⊎ Has r x) where
  -- No other range has one of them.
  elsewhere :
      (j : ℕ) (s : Batch) (x : ℕ) → i ≢ j → get_elem? c.ranges j ≡ some s → Has s x → ¬ (Has r' x)
  elsewhere j s x n e a b = elim (new x b) [
    | inl l ↦ absurd (omega (arith, h.held j s e))
    | inr o ↦ n (h.apart i j r s x is_r e o a)
  ]

  IsApart-set : IsApart used (record { head = head'; ranges = set c.ranges i r' })
  IsApart-set = record {
    given = All-imp used (λ x l. omega arith) h.given;
    held = λ j s e. elim (get_elem?-set c.ranges i j r' s e) [
      | inl (k, f) ↦ rw f bounded
      | inr (k, f) ↦ omega (arith, h.held j s f)
    ];
    unused = λ j s e. elim (get_elem?-set c.ranges i j r' s e) [
      | inl (k, f) ↦ rw f (All-both used fresh h.given (h.unused i r is_r))
      | inr (k, f) ↦ h.unused j s f
    ];
    apart = λ j k s q x e f a b. elim (get_elem?-set c.ranges i j r' s e) [
      | inl (m, g) ↦ elim (get_elem?-set c.ranges i k r' q f) [
        | inl (m', g') ↦ sym m ∙ m'
        | inr (m', g') ↦ absurd (elsewhere k q x m' g' b (subst (λ (t : Batch). Has t x) g a))
      ]
      | inr (m, g) ↦ elim (get_elem?-set c.ranges i k r' q f) [
        | inl (m', g') ↦ absurd (elsewhere j s x m g a (subst (λ (t : Batch). Has t x) g' b))
        | inr (m', g') ↦ h.apart j k s q x g g' a b
      ]
    ];
  }
    where
      fresh : (x : ℕ) → x < c.head → ¬ (Has r x) → ¬ (Has r' x)
      fresh x l n b = elim (new x b) [ inl m ↦ absurd (omega arith) | inr o ↦ n o ]

-- A number that is held by no range and below the counter may be given.
IsApart-give :
    (used : List ℕ) (c : Counter) (n : ℕ)
    → IsApart used c
    → n < c.head
    → ((j : ℕ) (s : Batch) → get_elem? c.ranges j ≡ some s → ¬ (Has s n))
    → IsApart (n ∷ used) c
IsApart-give used c n h l o = record {
  given = (l, h.given);
  held = h.held;
  unused = λ j s e. (o j s e, h.unused j s e);
  apart = h.apart;
}

-- What a refill gives: a number below the end, and only numbers from the counter on besides.
refill-new :
    (batch head : ℕ) (r : Batch)
    → 0 < batch
    → head + batch < 2 ^ 64
    → r.end ≤ head
    → let (head', r') = refill batch head r in
      (r'.start < r'.end)
      × (r'.end ≤ head')
      × (head ≤ head')
      × (head' ≤ head + batch)
      × ((x : ℕ) → Has r' x → (head ≤ x) ⊎ Has r x)
      × ((r'.start ≡ head) ⊎ Has r r'.start)
unfolding refill get_and_inc
refill-new batch head r b l e = elim (Bool-cases (leb r.end r.start)) [
  | inl u ↦
      rw (u, refill)
        (omega arith, omega arith, omega arith, omega arith, (λ x h. inl h.0), inl refl)
  | inr u ↦
      rw (u, refill)
        (ground arith, e, omega arith, omega arith, (λ x h. inr h), inr (omega arith, ground arith))
]

length-set : (rs : List Batch) (i : ℕ) (r : Batch) → length (set rs i r) ≡ length rs
length-set [] i r = refl
length-set (q ∷ rs) zero r = refl
length-set (q ∷ rs) (suc i) r = ap suc (length-set rs i r)

get_elem?-within :
    (rs : List Batch) (i : ℕ) → i < length rs → (r : Batch) × (get_elem? rs i ≡ some r)
get_elem?-within [] i h = absurd (omega arith)
get_elem?-within (r ∷ rs) zero h = (r, refl)
get_elem?-within (r ∷ rs) (suc i) h = get_elem?-within rs i (omega arith)

module _ (batch step : ℕ) (c : Counter) (used : List ℕ) (h : IsApart used c) (b : 0 < batch)
    (p : 0 < step) (l : c.head + batch + step < 2 ^ 64) where
  -- What giving a number promises.
  abbrev pub Given : ℕ → Counter → Type 0
  Given n c' =
      All (λ x. x ≢ n) used
      × IsApart (n ∷ used) c'
      × (length c'.ranges ≡ length c.ranges)
      × (c'.head ≤ c.head + batch + step)

  from_head : Given c.head (record { head = c.head + step; ranges = c.ranges })
  from_head = (
    All-imp used (λ x u q. absurd (omega arith)) h.given,
    IsApart-give used (record { head = c.head + step; ranges = c.ranges }) c.head
        (record {
          given = All-imp used (λ x u. omega arith) h.given;
          held = λ j s e. omega (arith, h.held j s e);
          unused = h.unused;
          apart = h.apart;
        })
        (omega arith) (λ j s e q. absurd (omega (arith, h.held j s e, q.1))),
    refl,
    omega arith,
  )

  from_range :
      (i : ℕ) (r : Batch)
      → get_elem? c.ranges i ≡ some r
      → let (head', r') = refill batch c.head r in
        Given r'.start (record {
          head = head';
          ranges = set c.ranges i (record { start = r'.start + step; end = r'.end });
        })
  from_range i r e =
      let (head', r') = refill batch c.head r in
      let (f1, f2, f3, f4, f5, f6) = refill-new batch c.head r b (omega arith) (h.held i r e) in
      let next : Batch = record { start = r'.start + step; end = r'.end } in
      let after : IsApart used (record { head = head'; ranges = set c.ranges i next }) =
        IsApart-set used c i head' r next h e f3 f2 (λ x q. f5 x (omega (arith, q.0), q.1)) in
      (
        elim f6 [
          | inl m ↦ All-imp used (λ x u q. absurd (omega arith)) h.given
          | inr o ↦ All-imp used (λ x u q. u (subst (Has r) (sym q) o)) (h.unused i r e)
        ],
        IsApart-give used (record { head = head'; ranges = set c.ranges i next }) r'.start after
            (omega arith)
            (λ j s g q. elim (get_elem?-set c.ranges i j next s g) [
              | inl (k, w) ↦ absurd (omega (arith, (subst (λ (t : Batch). Has t r'.start) w q).0))
              | inr (k, w) ↦
                  elsewhere used c i head' r r' h e f3 f2 f5 j s r'.start k w q (omega arith, f1)
            ]),
        length-set c.ranges i next,
        omega arith,
      )

  -- The number that is given was not given before, and the numbers stay apart.
  pub apply_from-Given :
      (i : ℕ)
      → i < length c.ranges
      → (n : ℕ) × (c' : Counter) × (apply_from batch step c i ≡ some (n, c')) × Given n c'
  unfolding apply_from get_and_inc
  apply_from-Given i k =
      let (r, e) = get_elem?-within c.ranges i k in
      let (head', r') = refill batch c.head r in
      let (f1, f2, f3, f4, f5, f6) = refill-new batch c.head r b (omega arith) (h.held i r e) in
      elim (Bool-cases (ltb 1 (length c.ranges))) [
        | inl m ↦ (
          r'.start,
          record {
            head = head';
            ranges = set c.ranges i (record { start = r'.start + step; end = r'.end });
          },
          rw (m, e, apply_from)
              (ap
                (λ (q : ℕ). some (
                  r'.start,
                  record {
                    head = head';
                    ranges = set c.ranges i (record { start = q; end = r'.end });
                  },
                ))
                (omega arith)),
          from_range i r e,
        )
        | inr m ↦ (
          c.head,
          record { head = c.head + step; ranges = c.ranges },
          rw (m, apply_from)
              (ap (λ (q : ℕ). some (c.head, record { head = q; ranges = c.ranges })) (omega arith)),
          from_head,
        )
      ]
