-- ===== src/Queue/Rapid.antt =====
-- RapidQueue: one line for each producer, popped in the order of the threads.
use mathlib.Core.List.{append-nil, append_assoc}
use rapid_db.Common.{
  ℕ, zero, suc, ◌+◌, ◌-◌, ◌%◌, ◌^◌, ◌≤◌, ◌≡◌, refl, sym, subst, ap, List, [], ◌∷◌, ◌++◌, Option,
  none, some, Bool, true, ◌&&◌, not, ◌==◌, ltb, if◌then◌else◌, length, get_elem?, set, take, drop,
  arith,
}
use rapid_db.Queue
use rapid_db.Queue.{LineQueue, ele_size, empty}
use rapid_db.Queue.Line.{Rep, pop-Rep}

pub record RapidQueue (A : Type 0) : Type 0 where
  pub max_thread_num : ℕ
  pub curr_alived_threads : ℕ
  pub last_set_threads : ℕ
  pub pop_num : ℕ
  pub lines : List (LineQueue A)

module _ {A : Type 0} where
  abbrev lines_of : ℕ → List (LineQueue A)
  lines_of zero = []
  lines_of (suc n) = empty ∷ lines_of n

  -- The constructor asserts that there are not more threads than the most that there may be, ...
  pub init : ℕ → ℕ → Option (RapidQueue A)
  init max thread_num =
      let n = if thread_num == 0 then max else thread_num in
      if ltb max thread_num
      then none
      else some (record {
        max_thread_num = max;
        curr_alived_threads = n;
        last_set_threads = n;
        pop_num = 0;
        lines = lines_of max;
      })

  -- ... and so does ResetLiveThreadNumber.
  pub reset_live_thread_number : RapidQueue A → ℕ → Option (RapidQueue A)
  reset_live_thread_number q thread_num =
      if ltb q.max_thread_num thread_num
      then none
      else if ltb thread_num q.curr_alived_threads
      then some (record q { last_set_threads = thread_num; pop_num = 5 })
      else some (record q { last_set_threads = thread_num; curr_alived_threads = thread_num })

  -- A push asserts that its thread is one of those last set; a line that is not there is out of range.
  pub push : RapidQueue A → ℕ → A → Bool → Option (RapidQueue A)
  push q tid ele submit =
      if not (ltb tid q.last_set_threads) then none else elim (get_elem? q.lines tid) [
        | none ↦ none
        | some l ↦ some (record q { lines = set q.lines tid (Queue.push l ele submit) })
      ]

  pub submit : RapidQueue A → ℕ → Option (RapidQueue A)
  submit q tid = if not (ltb tid q.last_set_threads) then none else elim (get_elem? q.lines tid) [
    | none ↦ none
    | some l ↦ some (record q { lines = set q.lines tid (Queue.submit l) })
  ]

  abbrev pub all_empty : List (LineQueue A) → Bool
  all_empty [] = true
  all_empty (l ∷ ls) = Queue.is_empty l && all_empty ls

  pub is_empty : RapidQueue A → Bool
  is_empty q = all_empty q.lines

  abbrev pub sum_sizes : List (LineQueue A) → ℕ
  sum_sizes [] = 0
  sum_sizes (l ∷ ls) = (Queue.rough_size l + sum_sizes ls) % 2 ^ 64

  pub rough_size : RapidQueue A → ℕ
  rough_size q = sum_sizes (take q.curr_alived_threads q.lines)

  -- A queue that is not empty is none that Resize accepts.
  pub resize : RapidQueue A → ℕ → Option (RapidQueue A)
  unfolding is_empty
  resize q new_size =
      if not (is_empty q)
      then none
      else if q.max_thread_num == new_size
      then some q
      else some (record {
        max_thread_num = new_size;
        curr_alived_threads = new_size;
        last_set_threads = new_size;
        pop_num = 0;
        lines = take new_size q.lines ++ lines_of (new_size - length q.lines);
      })

  pub pop_lines : ℕ → List (LineQueue A) → List A → Option (List (LineQueue A) × List A)
  pop_lines zero ls lst = some (ls, lst)
  pop_lines (suc n) [] lst = none
  pop_lines (suc n) (l ∷ ls) lst = elim (Queue.pop l lst) [
    | none ↦ none
    | some (l', lst') ↦ elim (pop_lines n ls lst') [
      | none ↦ none
      | some (ls', out) ↦ some (l' ∷ ls', out)
    ]
  ]

  -- After a cut of the threads the old number of lines is popped five times more.
  pub settle : RapidQueue A → RapidQueue A
  settle q =
      if ltb 0 q.pop_num
      then if q.pop_num - 1 == 0
        then record q { pop_num = 0; curr_alived_threads = q.last_set_threads }
        else record q { pop_num = q.pop_num - 1 }
      else q

  pub pop : RapidQueue A → List A → Option (RapidQueue A × List A)
  unfolding pop_lines settle
  pop q lst = elim (pop_lines q.curr_alived_threads q.lines lst) [
    | none ↦ none
    | some (ls, out) ↦ some (settle (record q { lines = ls }), out)
  ]

  -- What each line holds, and how much of it is submitted.
  pub data Reps : List (LineQueue A) → List (List A × ℕ) → Type 0 where
    nil : Reps [] []
    cons :
        {l : LineQueue A} {ls : List (LineQueue A)} {xs : List A} {k : ℕ} {hs : List (List A × ℕ)}
        → Rep l xs k
        → Reps ls hs
        → Reps (l ∷ ls) ((xs, k) ∷ hs)

  -- The submitted elements of the first n lines, thread by thread.
  abbrev pub submitted_of : ℕ → List (List A × ℕ) → List A
  submitted_of zero hs = []
  submitted_of (suc n) [] = []
  submitted_of (suc n) ((xs, k) ∷ hs) = take k xs ++ submitted_of n hs

  -- What is left of them.
  abbrev pub kept_of : ℕ → List (List A × ℕ) → List (List A × ℕ)
  kept_of zero hs = hs
  kept_of (suc n) [] = []
  kept_of (suc n) ((xs, k) ∷ hs) = (drop k xs, 0) ∷ kept_of n hs

  pop_lines-Reps :
      (n : ℕ) (ls : List (LineQueue A)) (hs : List (List A × ℕ)) (lst : List A)
      → Reps ls hs
      → n ≤ length ls
      → (ls' : List (LineQueue A)) × (pop_lines n ls lst ≡ some (ls', lst ++ submitted_of n hs))
        × Reps ls' (kept_of n hs)
  unfolding pop_lines
  pop_lines-Reps zero ls hs lst r h = (ls, rw (append-nil lst), r)
  pop_lines-Reps (suc n) [] hs lst nil h = absurd (omega arith)
  pop_lines-Reps (suc n) (l ∷ ls) hs lst (cons {xs} {k} {hs = hs'} r rs) h =
      let (l', e, r') = pop-Rep l xs lst k r in
      let (ls', es, rs') = pop_lines-Reps n ls hs' (lst ++ take k xs) rs (omega arith) in
      (
        l' ∷ ls',
        rw (e, pop_lines)
            (rw (es, pop_lines)
              (ap (λ o. some (l' ∷ ls', o)) (append_assoc lst (take k xs) (submitted_of n hs')))),
        cons r' rs',
      )

  -- What the count of pops since a cut of the threads does to it and to the number of lines popped.
  settle-counts :
      (q : RapidQueue A)
      → ((settle q).lines ≡ q.lines)
        × ((settle q).pop_num ≡ q.pop_num - 1)
        × ((settle q).curr_alived_threads
            ≡ (if q.pop_num == 1 then q.last_set_threads else q.curr_alived_threads))
        × ((settle q).last_set_threads ≡ q.last_set_threads)
        × ((settle q).max_thread_num ≡ q.max_thread_num)
  unfolding settle
  settle-counts q = (ground arith, ground arith, ground arith, ground arith, ground arith)

  -- Pop, where as many lines are there as threads are popped and each holds fewer than 2 ^ 64 elements, never
  -- fails: it hands over what each of these lines has submitted, thread by thread and each in order, and every line
  -- keeps the rest. A count of pops that are still to go after a cut of the threads goes down by one, and at its last
  -- the number of lines popped becomes the number of threads last set; the other numbers stay.
  pub pop-Reps :
      (q : RapidQueue A) (hs : List (List A × ℕ)) (lst : List A)
      → Reps q.lines hs
      → q.curr_alived_threads ≤ length q.lines
      → (q' : RapidQueue A) × (pop q lst ≡ some (q', lst ++ submitted_of q.curr_alived_threads hs))
        × Reps q'.lines (kept_of q.curr_alived_threads hs)
        × (q'.pop_num ≡ q.pop_num - 1)
        × (q'.curr_alived_threads
            ≡ (if q.pop_num == 1 then q.last_set_threads else q.curr_alived_threads))
        × (q'.last_set_threads ≡ q.last_set_threads)
        × (q'.max_thread_num ≡ q.max_thread_num)
  unfolding pop
  pop-Reps q hs lst r h =
      let (ls, e, r') = pop_lines-Reps q.curr_alived_threads q.lines hs lst r h in
      let (same, c1, c2, c3, c4) = settle-counts (record q { lines = ls }) in
      (
        settle (record q { lines = ls }),
        rw (e, pop) refl,
        subst (λ ls'. Reps ls' (kept_of q.curr_alived_threads hs)) (sym same) r',
        c1,
        c2,
        c3,
        c4,
      )
