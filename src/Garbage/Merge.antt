-- ===== src/Garbage/Merge.antt =====
-- The merges of RecyclePage with the ranges beside the recycled one.
use rapid_db.Common.{
  ℕ, ◌+◌, ◌^◌, ◌<◌, ◌≡◌, refl, sym, subst, List, Option, none, some, Bool, true, false, ◌||◌,
  if◌then◌else◌, arith,
}
use rapid_db.Garbage.{
  Range, GarbageOwner, erase_range, upper_bound, before_upper_bound, erase_page, to_int16, merges,
  add_u16, left_of, if_left, if_right, merge_left, merge_right,
}
use rapid_db.Garbage.Ranges.{in_range, covers, page_sum, is_at, Ordered, Apart, IsIndexed}
use rapid_db.Garbage.Erase.{
  erase_range-is_at, erase_range-covers, erase_range-sum, erase_range-Ordered, erase_range-Apart,
  is_at-Apart, Apart-join, upper_bound-is_at, before_upper_bound-is_at, is_at-covers,
}
use rapid_db.Garbage.Maps.{erase_page-IsIndexed}

-- A range that is to be inserted, with the pages that are then free.
pub record Gap (g : GarbageOwner) (pid num : ℕ) : Type 0 where
  pub maps : IsIndexed g
  pub some_pages : 0 < num
  pub bounded : num < 2 ^ 16
  pub apart : Apart pid num g.tree_free_page

abbrev pub freed : GarbageOwner → ℕ → ℕ → ℕ → Bool
freed g pid num q = in_range pid num q || covers g.tree_free_page q

abbrev pub pages : GarbageOwner → ℕ → ℕ
pages g num = num + page_sum g.tree_free_page

-- What a merge with a range keeps; the range touches on the left or on the right.
pub record Merged (g : GarbageOwner) (pid num : ℕ) (g' : GarbageOwner) (pid' num' : ℕ)
    : Type 0 where
  pub gap : Gap g' pid' num'
  pub same : (q : ℕ) → freed g' pid' num' q ≡ freed g pid num q
  pub sum : pages g' num' ≡ pages g num
  pub total : g'.total_garbage_pages ≡ g.total_garbage_pages

unmerged : (g : GarbageOwner) (pid num : ℕ) → Gap g pid num → Merged g pid num g pid num
unmerged g pid num v = record { gap = v; same = λ q. refl; sum = refl; total = refl }

add_comm : (a b : ℕ) → a + b ≡ b + a
add_comm a b = omega arith

joined_left :
    (g : GarbageOwner) (pid num a n : ℕ)
    → Gap g pid num
    → is_at g.tree_free_page a n ≡ true
    → a + n ≡ pid
    → num + n < 2 ^ 16
    → Merged g pid num (erase_page g a n) a (num + n)
unfolding erase_page
joined_left g pid num a n v e t b = record {
  gap = record {
    maps = erase_page-IsIndexed g a n v.maps e;
    some_pages = omega (arith, v.some_pages);
    bounded = b;
    apart =
        subst (λ k. Apart a k (erase_range a g.tree_free_page)) (add_comm n num)
          (Apart-join a n num 0 (erase_range a g.tree_free_page)
            (erase_range-Ordered a 0 g.tree_free_page v.maps.ordered)
            (is_at-Apart a n 0 g.tree_free_page v.maps.ordered e)
            (subst (λ p. Apart p num (erase_range a g.tree_free_page)) (sym t)
              (erase_range-Apart a pid num g.tree_free_page v.apart)));
  };
  same = λ q. ground (
    arith,
    t,
    erase_range-covers a n q 0 g.tree_free_page v.maps.ordered e,
    is_at-covers a n q g.tree_free_page e,
  );
  sum = omega (arith, erase_range-sum a n 0 g.tree_free_page v.maps.ordered e);
  total = refl;
}

joined_right :
    (g : GarbageOwner) (pid num a n : ℕ)
    → Gap g pid num
    → is_at g.tree_free_page a n ≡ true
    → pid + num ≡ a
    → num + n < 2 ^ 16
    → Merged g pid num (erase_page g a n) pid (num + n)
unfolding erase_page
joined_right g pid num a n v e t b = record {
  gap = record {
    maps = erase_page-IsIndexed g a n v.maps e;
    some_pages = omega (arith, v.some_pages);
    bounded = b;
    apart =
        Apart-join pid num n 0 (erase_range a g.tree_free_page)
          (erase_range-Ordered a 0 g.tree_free_page v.maps.ordered)
          (erase_range-Apart a pid num g.tree_free_page v.apart)
          (subst (λ p. Apart p n (erase_range a g.tree_free_page)) (sym t)
            (is_at-Apart a n 0 g.tree_free_page v.maps.ordered e));
  };
  same = λ q. ground (
    arith,
    t,
    erase_range-covers a n q 0 g.tree_free_page v.maps.ordered e,
    is_at-covers a n q g.tree_free_page e,
  );
  sum = omega (arith, erase_range-sum a n 0 g.tree_free_page v.maps.ordered e);
  total = refl;
}

-- No range that could be merged has so many pages that it becomes negative as an int16_t.
abbrev pub AreShort : List Range → Type 0
AreShort rs = (a n : ℕ) → is_at rs a n ≡ true → n < 2 ^ 15

-- A number that fits an int16_t is merged as it is.
short_merge :
    (num n : ℕ)
    → n < 2 ^ 15
    → merges num (to_int16 n) ≡ true
    → (num + n < 2 ^ 16) × (add_u16 num (to_int16 n) ≡ num + n)
short_merge num n h e = ground (arith, e)

touching_left :
    (pid : ℕ) (rs : List Range) (a n : ℕ) (o : Option Range)
    → before_upper_bound pid rs ≡ o
    → if_left pid o ≡ some (a, n)
    → (is_at rs a n ≡ true) × (a + n ≡ pid)
touching_left pid rs a n none e f = absurd (ground (arith, f))
touching_left pid rs a n (some (b, m)) e f =
    ground (arith, f, before_upper_bound-is_at pid b m rs e)

pub touching_right :
    (pid num : ℕ) (rs : List Range) (a n : ℕ) (o : Option Range)
    → upper_bound pid rs ≡ o
    → if_right (pid + num) o ≡ some (a, n)
    → (is_at rs a n ≡ true) × (pid + num ≡ a)
touching_right pid num rs a n none e f = absurd (ground (arith, f))
touching_right pid num rs a n (some (b, m)) e f = ground (arith, f, upper_bound-is_at pid b m rs e)

-- The owner, the first page and the number that a merge leaves.
unfoldable pub MergedTo : GarbageOwner → ℕ → ℕ → GarbageOwner × ℕ × ℕ → Type 0
MergedTo g pid num (g', pid', num') = Merged g pid num g' pid' num'

merge_if :
    (g g' : GarbageOwner) (pid num pid' num' : ℕ) (b : Bool)
    → Gap g pid num
    → (b ≡ true → Merged g pid num g' pid' num')
    → MergedTo g pid num (if b then (g', pid', num') else (g, pid, num))
unfolding MergedTo
merge_if g g' pid num pid' num' true v h = h refl
merge_if g g' pid num pid' num' false v h = unmerged g pid num v

pub merge_left-Merged :
    (g : GarbageOwner) (pid num : ℕ) (o : Option Range)
    → left_of pid g.tree_free_page ≡ o
    → Gap g pid num
    → AreShort g.tree_free_page
    → MergedTo g pid num (merge_left g pid num o)
unfolding merge_left left_of MergedTo
merge_left-Merged g pid num none l v s = unmerged g pid num v
merge_left-Merged g pid num (some (a, n)) l v s =
    let (there, touch) =
      touching_left pid g.tree_free_page a n (before_upper_bound pid g.tree_free_page) refl l in
    merge_if g (erase_page g a n) pid num a (add_u16 num (to_int16 n)) (merges num (to_int16 n)) v
      (λ m.
        let (small, e) = short_merge num n (s a n there) m in
        subst (Merged g pid num (erase_page g a n) a) (sym e)
          (joined_left g pid num a n v there touch small))

-- The merge on the left leaves the neighbour on the right, and the end of the range.
unfoldable pub KeepsRight : GarbageOwner → ℕ → ℕ → GarbageOwner × ℕ × ℕ → Type 0
KeepsRight g pid num (g', pid', num') =
    (pid' + num' ≡ pid + num)
    × ((b m : ℕ) → pid < b → is_at g.tree_free_page b m ≡ true → is_at g'.tree_free_page b m ≡ true)

keep_if :
    (g g' : GarbageOwner) (pid num pid' num' : ℕ) (b : Bool)
    → (b ≡ true → KeepsRight g pid num (g', pid', num'))
    → KeepsRight g pid num (if b then (g', pid', num') else (g, pid, num))
unfolding KeepsRight
keep_if g g' pid num pid' num' true h = h refl
keep_if g g' pid num pid' num' false h = (refl, λ b m l e. e)

pub merge_left-KeepsRight :
    (g : GarbageOwner) (pid num : ℕ) (o : Option Range)
    → left_of pid g.tree_free_page ≡ o
    → Ordered 0 g.tree_free_page
    → AreShort g.tree_free_page
    → KeepsRight g pid num (merge_left g pid num o)
unfolding merge_left left_of KeepsRight erase_page
merge_left-KeepsRight g pid num none l v s = (refl, λ b m h e. e)
merge_left-KeepsRight g pid num (some (a, n)) l v s =
    let (there, touch) =
      touching_left pid g.tree_free_page a n (before_upper_bound pid g.tree_free_page) refl l in
    keep_if g (erase_page g a n) pid num a (add_u16 num (to_int16 n)) (merges num (to_int16 n))
      (λ m.
        let (small, e) = short_merge num n (s a n there) m in
        (
          omega (arith, e, touch),
          λ b k h f.
              ground (arith, f, touch, h, erase_range-is_at a n b k 0 g.tree_free_page v there),
        ))

abbrev pub RightTo : GarbageOwner → ℕ → ℕ → GarbageOwner × ℕ → Type 0
RightTo g pid num r = Merged g pid num r.0 pid r.1

pub merge_right-Merged :
    (g : GarbageOwner) (pid num : ℕ) (o : Option Range)
    → ((a n : ℕ)
        → o ≡ some (a, n)
        → (is_at g.tree_free_page a n ≡ true) × (pid + num ≡ a) × (n < 2 ^ 15))
    → Gap g pid num
    → Merged g pid num (merge_right g pid num o).0 pid (merge_right g pid num o).1
unfolding merge_right
merge_right-Merged g pid num none l v = unmerged g pid num v
merge_right-Merged g pid num (some (a, n)) l v = right_if (merges num (to_int16 n)) refl
  where
    right_if :
        (b : Bool)
        → merges num (to_int16 n) ≡ b
        → RightTo g pid num (if b then (erase_page g a n, add_u16 num (to_int16 n)) else (g, num))
    right_if false e = unmerged g pid num v
    right_if true e =
        let (there, touch, short) = l a n refl in
        let (small, e') = short_merge num n short e in
        subst (Merged g pid num (erase_page g a n) pid) (sym e')
          (joined_right g pid num a n v there touch small)
