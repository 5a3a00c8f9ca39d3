-- ===== src/Garbage/Apply.antt =====
-- ApplyOvfPage and ApplyIndexPages hand out free pages.
use rapid_db.Common.{
  ℕ, zero, suc, ◌+◌, ◌-◌, ◌%◌, ◌^◌, ◌≤◌, ◌<◌, ◌≡◌, ◌⊎◌, inl, inr, refl, subst, lt→ltb, ◌++◌, min,
  sym, ap, ◌∙◌, List, [], Option, none, some, Bool, true, false, ◌&&◌, ◌||◌, not, ltb, ◌==◌,
  if◌then◌else◌, arith,
}
use rapid_db.Garbage.{
  GarbageOwner, take_pages, page_null_pointer, less_pages, apply_ovf_page, ids_from,
  index_pages_loop, apply_index_pages,
}
use rapid_db.Garbage.Ranges.{in_range, covers, is_at, IsValid}
use rapid_db.Garbage.Erase.{is_at-covers}
use rapid_db.Garbage.Taken.{Begins, Taken}
use rapid_db.Garbage.Found.{TakesFrom, take_pages-TakesFrom}

-- The first `num` pages of a range, from `id` on, are given away: they were free, they are not free
-- afterwards, and no other page changes.
pub record IsGranted (g : GarbageOwner) (num : ℕ) (g' : GarbageOwner) (id : ℕ) : Type 0 where
  pub valid : IsValid g'
  pub from : (n : ℕ) × (is_at g.tree_free_page id n ≡ true) × (num ≤ n)
  pub were_free : (q : ℕ) → in_range id num q ≡ true → covers g.tree_free_page q ≡ true
  pub now_free :
      (q : ℕ) → covers g'.tree_free_page q ≡ (covers g.tree_free_page q && not (in_range id num q))

-- All the ranges are shorter than `num` pages.
abbrev pub NoneLong : GarbageOwner → ℕ → Type 0
NoneLong g num = (a n : ℕ) → is_at g.tree_free_page a n ≡ true → n < num

Taken-IsGranted :
    (g g' : GarbageOwner) (num id num2 : ℕ)
    → IsValid g
    → num < 2 ^ 16
    → Taken g num g' id num2
    → IsGranted g num
        (record g' {
          total_garbage_pages = (g'.total_garbage_pages + 2 ^ 32 - num) % 2 ^ 32;
          dirty = true;
        })
        id
Taken-IsGranted g g' num id num2 v h t = record {
  valid = record {
    maps = record { ordered = t.maps.ordered; indexed = t.maps.indexed };
    total = omega (arith, t.total, t.sum, v.total);
  };
  from = (num2, t.there, t.enough);
  were_free = λ q e. ground (arith, e, t.enough, is_at-covers id num2 q g.tree_free_page t.there);
  now_free = t.same;
}

module _ (begin : List ℕ → ℕ) (b : Begins begin) where
  -- ApplyOvfPage with the lock, and pages enough in all, by whether a range is long enough.
  abbrev pub Applied : GarbageOwner → ℕ → GarbageOwner × ℕ → Type 0
  Applied g num r = ((r ≡ (g, page_null_pointer)) × NoneLong g num) ⊎ IsGranted g num r.0 r.1

  applied :
      (g : GarbageOwner) (num : ℕ) (o : Option (GarbageOwner × ℕ × ℕ))
      → IsValid g
      → num < 2 ^ 16
      → TakesFrom begin b g num o
      → Applied g num
          (elim o [ none ↦ (g, page_null_pointer) | some (g', id, num2) ↦ (less_pages g' num, id) ])
  unfolding TakesFrom
  applied g num none v h t = inl (refl, t)
  applied g num (some (g', id, num2)) v h t = inr (Taken-IsGranted g g' num id num2 v h t)

  -- ApplyOvfPage without the lock or for more pages than there are changes nothing and gives the null
  -- page. Else, for fewer than 2 ^ 16 pages, it gives pages of a free range away; it gives the null
  -- page and changes nothing only if no range is long enough.
  pub apply_ovf_page-Applied :
      (g : GarbageOwner) (num : ℕ) (locked : Bool)
      → IsValid g
      → num < 2 ^ 16
      → ((ltb g.total_garbage_pages num || not locked) ≡ true
          → apply_ovf_page begin g num locked ≡ (g, page_null_pointer))
        × ((ltb g.total_garbage_pages num || not locked) ≡ false
            → Applied g num (apply_ovf_page begin g num locked))
  unfolding apply_ovf_page
  apply_ovf_page-Applied g num locked v h = (
    λ e. ap (λ c. if c then (g, page_null_pointer) else granted) e,
    λ e.
        subst (Applied g num) (sym (ap (λ c. if c then (g, page_null_pointer) else granted) e))
          (applied g num (take_pages begin g num) v h (take_pages-TakesFrom begin b g num v.maps)),
  )
    where
      granted : GarbageOwner × ℕ
      granted = elim (take_pages begin g num) [
        | none ↦ (g, page_null_pointer)
        | some (g', id, num2) ↦ (less_pages g' num, id)
      ]

  -- ApplyIndexPages with the lock and with free pages there, by whether a range is long enough.
  abbrev pub IndexApplied : GarbageOwner → ℕ → GarbageOwner × List ℕ → Type 0
  IndexApplied g num r =
      ((r ≡ (less_pages g num, [])) × NoneLong g num)
      ⊎ ((id : ℕ) × (r.1 ≡ ids_from id num) × IsGranted g num r.0 id)

  once :
      (fuel : ℕ) (g : GarbageOwner) (num : ℕ) (vct : List ℕ)
      → index_pages_loop begin fuel g num num vct ≡ (g, vct)
  unfolding index_pages_loop
  once zero g num vct = refl
  once (suc fuel) g num vct = ground arith

  abbrev after_round : GarbageOwner → ℕ → Option (GarbageOwner × ℕ × ℕ) → GarbageOwner × List ℕ
  after_round g num none = (g, [])
  after_round g num (some (g', id, num2)) =
      index_pages_loop begin num g' num (0 + min num2 (num - 0))
        ([] ++ ids_from id (min num2 (num - 0)))

  first_round :
      (g : GarbageOwner) (num : ℕ)
      → 0 < num
      → index_pages_loop begin (suc num) g num 0 [] ≡ after_round g num (take_pages begin g num)
  unfolding index_pages_loop
  first_round g num p =
      ap (λ c. if c then after_round g num (take_pages begin g num) else (g, [])) (lt→ltb 0 num p)

  -- The first round takes all the pages.
  all_taken :
      (g : GarbageOwner) (num id num2 : ℕ)
      → num ≤ num2
      → index_pages_loop begin num g num
          (0 + min num2 (num - 0))
          ([] ++ ids_from id (min num2 (num - 0)))
        ≡ (g, ids_from id num)
  all_taken g num id num2 h =
      ap (λ k. index_pages_loop begin num g num k (ids_from id (min num2 (num - 0)))) (zero_min h)
      ∙ ap (λ k. index_pages_loop begin num g num num (ids_from id k)) (min_le h)
      ∙ once num g num (ids_from id num)
    where
      zero_min : num ≤ num2 → 0 + min num2 (num - 0) ≡ num
      zero_min l = omega arith

      min_le : num ≤ num2 → min num2 (num - 0) ≡ num
      min_le l = omega arith

  round :
      (g : GarbageOwner) (num : ℕ) (o : Option (GarbageOwner × ℕ × ℕ))
      → IsValid g
      → num < 2 ^ 16
      → TakesFrom begin b g num o
      → IndexApplied g num (less_pages (after_round g num o).0 num, (after_round g num o).1)
  unfolding TakesFrom
  round g num none v h t = inl (refl, t)
  round g num (some (g', id, num2)) v h t =
      subst (λ r. IndexApplied g num (less_pages r.0 num, r.1))
        (sym (all_taken g' num id num2 t.enough))
        (inr (id, refl, Taken-IsGranted g g' num id num2 v h t))

  -- ApplyIndexPages without the lock or with no free page changes nothing and gives none. Else, for at
  -- least one and fewer than 2 ^ 16 pages, it gives as many pages that follow each other out of a free
  -- range; it gives none only if no range is long enough, and then the ranges stay as they are but the
  -- total goes down.
  pub apply_index_pages-IndexApplied :
      (g : GarbageOwner) (num : ℕ) (locked : Bool)
      → IsValid g
      → 0 < num
      → num < 2 ^ 16
      → ((g.total_garbage_pages == 0 || not locked) ≡ true
          → apply_index_pages begin g num locked ≡ (g, []))
        × ((g.total_garbage_pages == 0 || not locked) ≡ false
            → IndexApplied g num (apply_index_pages begin g num locked))
  unfolding apply_index_pages index_pages_loop
  apply_index_pages-IndexApplied g num locked v p h = (
    λ e. ap (λ c. if c then (g, []) else granted) e,
    λ e. subst (IndexApplied g num) (sym (ap (λ c. if c then (g, []) else granted) e)) (
        subst (λ r. IndexApplied g num (less_pages r.0 num, r.1)) (sym (first_round g num p))
          (round g num (take_pages begin g num) v h (take_pages-TakesFrom begin b g num v.maps))),
  )
    where
      granted : GarbageOwner × List ℕ
      granted = let r = index_pages_loop begin (suc num) g num 0 [] in (less_pages r.0 num, r.1)
