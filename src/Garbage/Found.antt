-- ===== src/Garbage/Found.antt =====
-- The range that pages are taken from, if one is long enough.
use rapid_db.Common.{
  ℕ, ◌+◌, ◌-◌, ◌^◌, ◌≤◌, ◌<◌, ◌≡◌, refl, subst, dec_lt, sym, ◌∙◌, List, Option, none, some, Bool,
  true, false, ltb, if◌then◌else◌, arith,
}
use rapid_db.Garbage.{GarbageOwner, insert_page, erase_page, lower_bound, take_pages}
use rapid_db.Garbage.Ranges.{is_at, IsIndexed}
use rapid_db.Garbage.Erase.{is_at-small}
use rapid_db.Garbage.Taken.{
  Begins, lower_bound_in-found, lower_bound_in-none, Taken, whole_range, range_part,
}

module _ (begin : List ℕ → ℕ) (b : Begins begin) where
  -- Pages are taken from a range, or no range is long enough.
  unfoldable pub TakesFrom : GarbageOwner → ℕ → Option (GarbageOwner × ℕ × ℕ) → Type 0
  TakesFrom g num none = (a n : ℕ) → is_at g.tree_free_page a n ≡ true → n < num
  TakesFrom g num (some (g', id, num2)) = Taken g num g' id num2

  none_long :
      (g : GarbageOwner) (num : ℕ)
      → IsIndexed g
      → lower_bound num g.range_page ≡ none
      → (a n : ℕ) → is_at g.tree_free_page a n ≡ true
      → n < num
  unfolding lower_bound
  none_long g num v e a n there = elim (dec_lt n num) [
    | yes h ↦ h
    | no h ↦ absurd (
        ground (
          arith,
          there,
          v.indexed a n,
          lower_bound_in-none (2 ^ 16 - num) num a n g.range_page e (omega arith)
              (omega (arith, is_at-small a n 0 g.tree_free_page v.ordered there)),
        ))
  ]

  found_at :
      (g : GarbageOwner) (id num num2 : ℕ)
      → IsIndexed g
      → is_at g.tree_free_page id num2 ≡ true
      → num ≤ num2
      → (c : Bool) → ltb num num2 ≡ c
      → Taken g num
          (if c
            then insert_page (erase_page g id num2) (id + num) (num2 - num)
            else erase_page g id num2)
          id
          num2
  found_at g id num num2 v there l true e = range_part g id num num2 v there (ground (arith, e))
  found_at g id num num2 v there l false e =
      subst (λ k. Taken g k (erase_page g id num2) id num2) (ground (arith, e))
        (whole_range g id num2 v there)

  bounded-TakesFrom :
      (g : GarbageOwner) (num : ℕ) (o : Option ℕ)
      → IsIndexed g
      → lower_bound num g.range_page ≡ o
      → TakesFrom g num (elim o [
        | none ↦ none
        | some num2 ↦ some (
          if ltb num num2
              then insert_page
                  (erase_page g (begin (g.range_page num2)) num2)
                  (begin (g.range_page num2) + num)
                  (num2 - num)
              else erase_page g (begin (g.range_page num2)) num2,
          begin (g.range_page num2),
          num2,
        )
      ])
  unfolding TakesFrom lower_bound
  bounded-TakesFrom g num none v e = none_long g num v e
  bounded-TakesFrom g num (some num2) v e =
      let (l, h) = lower_bound_in-found begin (2 ^ 16 - num) num num2 g.range_page b e in
      found_at g (begin (g.range_page num2)) num num2 v
        (sym (v.indexed (begin (g.range_page num2)) num2) ∙ h) l (ltb num num2) refl

  pub take_pages-TakesFrom :
      (g : GarbageOwner) (num : ℕ) → IsIndexed g → TakesFrom g num (take_pages begin g num)
  unfolding take_pages
  take_pages-TakesFrom g num v = bounded-TakesFrom g num (lower_bound num g.range_page) v refl
