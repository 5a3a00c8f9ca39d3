-- ===== src/Garbage/Taken.antt =====
-- What lower_bound finds, and the owner after pages are taken from a range.
use rapid_db.Common.{
  ℕ, zero, suc, ◌+◌, ◌-◌, ◌≤◌, ◌<◌, ◌≡◌, refl, subst, ℕ_discrete, sym, ap, List, [], ◌∷◌, Option,
  none, some, true, false, ◌&&◌, not, arith,
}
use rapid_db.Garbage.{
  Range, GarbageOwner, erase_range, has_id, insert_page, erase_page, lower_bound_in,
}
use rapid_db.Garbage.Ranges.{in_range, covers, page_sum, is_at, Ordered, Apart, IsIndexed}
use rapid_db.Garbage.Insert.{insert_range-covers, insert_range-sum}
use rapid_db.Garbage.Erase.{
  erase_range-covers, erase_range-sum, erase_range-Ordered, is_at-Apart, Apart-part, is_at-covers,
  is_at-small,
}
use rapid_db.Garbage.Maps.{insert_page-IsIndexed, erase_page-IsIndexed}

some-injective : {a b : ℕ} → some a ≡ some b → a ≡ b
some-injective {a} {b} e = ground (arith, e)

-- `begin` of a set that is not empty is an element of it.
abbrev pub Begins : (List ℕ → ℕ) → Type 0
Begins begin = (a : ℕ) (l : List ℕ) → has_id (begin (a ∷ l)) (a ∷ l) ≡ true

stop-found :
    (begin : List ℕ → ℕ) (num n : ℕ) (rp : ℕ → List ℕ) (rest : Option ℕ) (l : List ℕ)
    → Begins begin
    → rp num ≡ l
    → (rest ≡ some n → (suc num ≤ n) × (has_id (begin (rp n)) (rp n) ≡ true))
    → (elim l as (λ _. Option ℕ) [ [] ↦ rest | a ∷ l' ↦ some num ]) ≡ some n
    → (num ≤ n) × (has_id (begin (rp n)) (rp n) ≡ true)
stop-found begin num n rp rest [] b f h e = let (x, y) = h e in (omega arith, y)
stop-found begin num n rp rest (a ∷ l) b f h e = (
  omega (arith, some-injective e),
  subst (λ k. has_id (begin (rp k)) (rp k) ≡ true) (some-injective e)
      (subst (λ k. has_id (begin k) k ≡ true) (sym f) (b a l)),
)

-- A set that `lower_bound` stops at has an element.
pub lower_bound_in-found :
    (begin : List ℕ → ℕ) (fuel num n : ℕ) (rp : ℕ → List ℕ)
    → Begins begin
    → lower_bound_in fuel num rp ≡ some n
    → (num ≤ n) × (has_id (begin (rp n)) (rp n) ≡ true)
unfolding lower_bound_in
lower_bound_in-found begin zero num n rp b e = absurd (ground (arith, e))
lower_bound_in-found begin (suc fuel) num n rp b e =
    stop-found begin num n rp (lower_bound_in fuel (suc num) rp) (rp num) b refl
      (lower_bound_in-found begin fuel (suc num) n rp b) e

stop-none :
    (num : ℕ) (rest : Option ℕ) (l : List ℕ)
    → (elim l as (λ _. Option ℕ) [ [] ↦ rest | a ∷ l' ↦ some num ]) ≡ none
    → (l ≡ []) × (rest ≡ none)
stop-none num rest [] e = (refl, e)
stop-none num rest (a ∷ l) e = absurd (ground (arith, e))

-- If it does not stop, no range is long enough.
pub lower_bound_in-none :
    (fuel num a n : ℕ) (rp : ℕ → List ℕ)
    → lower_bound_in fuel num rp ≡ none
    → num ≤ n
    → n < num + fuel
    → has_id a (rp n) ≡ false
unfolding lower_bound_in
lower_bound_in-none zero num a n rp e l k = absurd (omega arith)
lower_bound_in-none (suc fuel) num a n rp e l k = elim (ℕ_discrete num n) [
  | yes same ↦
      subst (λ m. has_id a (rp m) ≡ false) same
        (ap (has_id a) (stop-none num (lower_bound_in fuel (suc num) rp) (rp num) e).0)
  | no later ↦
      lower_bound_in-none fuel (suc num) a n rp
        (stop-none num (lower_bound_in fuel (suc num) rp) (rp num) e).1 (omega (arith, later))
        (omega arith)
]

-- The owner after the first `num` pages of a range are taken away.
pub record Taken (g : GarbageOwner) (num : ℕ) (g' : GarbageOwner) (id num2 : ℕ) : Type 0 where
  pub there : is_at g.tree_free_page id num2 ≡ true
  pub enough : num ≤ num2
  pub maps : IsIndexed g'
  pub same :
      (q : ℕ) → covers g'.tree_free_page q ≡ (covers g.tree_free_page q && not (in_range id num q))
  pub sum : num + page_sum g'.tree_free_page ≡ page_sum g.tree_free_page
  pub total : g'.total_garbage_pages ≡ g.total_garbage_pages

pub whole_range :
    (g : GarbageOwner) (id num : ℕ)
    → IsIndexed g
    → is_at g.tree_free_page id num ≡ true
    → Taken g num (erase_page g id num) id num
unfolding erase_page
whole_range g id num v e = record {
  there = e;
  enough = omega arith;
  maps = erase_page-IsIndexed g id num v e;
  same = λ q. erase_range-covers id num q 0 g.tree_free_page v.ordered e;
  sum = erase_range-sum id num 0 g.tree_free_page v.ordered e;
  total = refl;
}

pub range_part :
    (g : GarbageOwner) (id num num2 : ℕ)
    → IsIndexed g
    → is_at g.tree_free_page id num2 ≡ true
    → num < num2
    → Taken g num (insert_page (erase_page g id num2) (id + num) (num2 - num)) id num2
unfolding erase_page insert_page
range_part g id num num2 v e l = record {
  there = e;
  enough = omega arith;
  maps =
      insert_page-IsIndexed (erase_page g id num2) (id + num) (num2 - num)
        (erase_page-IsIndexed g id num2 v e) (omega arith)
        (omega (arith, is_at-small id num2 0 g.tree_free_page v.ordered e)) apart;
  same = λ q. ground (
    arith,
    l,
    insert_range-covers (id + num) (num2 - num) q 0 erased ordered' (omega arith) apart,
    erase_range-covers id num2 q 0 g.tree_free_page v.ordered e,
    is_at-covers id num2 q g.tree_free_page e,
  );
  sum = omega (
    arith,
    insert_range-sum (id + num) (num2 - num) 0 erased ordered' (omega arith) apart,
    erase_range-sum id num2 0 g.tree_free_page v.ordered e,
  );
  total = refl;
}
  where
    erased : List Range
    erased = erase_range id g.tree_free_page

    ordered' : Ordered 0 erased
    ordered' = erase_range-Ordered id 0 g.tree_free_page v.ordered

    apart : Apart (id + num) (num2 - num) erased
    apart =
        Apart-part id num2 (num2 - num) num erased (omega arith)
          (is_at-Apart id num2 0 g.tree_free_page v.ordered e)
