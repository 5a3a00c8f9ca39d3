-- ===== src/Queue/Examples.antt =====
-- A line and a queue of two lines at work where the counters wrap, and their theorems there.
use rapid_db.Common.{ℕ, ◌-◌, ◌^◌, ◌≡◌, refl, [], ◌∷◌, some, true, false, arith}
use rapid_db.Queue.{LineQueue, new_block, push, submit, pop}
use rapid_db.Queue.Line.{Rep, push-Rep, submit-Rep, pop-Rep}
use rapid_db.Queue.Rapid
use rapid_db.Queue.Rapid.{RapidQueue, Reps, pop-Reps}

-- A line after 2 ^ 64 - 1 elements, all popped.
abbrev late : LineQueue ℕ
late = record {
  blocks = new_block ∷ [];
  head = 2 ^ 64 - 1;
  submitted = 2 ^ 64 - 1;
  tail = 2 ^ 64 - 1;
}

late-Rep : Rep late [] 0
unfolding new_block
late-Rep = record {
  base = 2 ^ 64 - 1;
  tail_is = refl;
  head_is = refl;
  shown = refl;
  within = omega arith;
  small = omega arith;
  chain = refl;
  full = (refl, tt);
  stored = λ i x e. absurd (cc);
}

-- With 7 the counter of the producer wraps; 8 opens a block and is submitted for that; 9 is not.
abbrev two : LineQueue ℕ
two = push (push (push late 7 false) 8 false) 9 false

two-Rep : Rep two (7 ∷ 8 ∷ 9 ∷ []) 2
unfolding push
two-Rep =
    push-Rep (push (push late 7 false) 8 false) (7 ∷ 8 ∷ []) 2 9 false
      (push-Rep (push late 7 false) (7 ∷ []) 0 8 false
        (push-Rep late [] 0 7 false late-Rep (omega arith)) (omega arith))
      (omega arith)

push-Rep_example : Rep (push two 10 true) (7 ∷ 8 ∷ 9 ∷ 10 ∷ []) 4
unfolding push
push-Rep_example = push-Rep two (7 ∷ 8 ∷ 9 ∷ []) 2 10 true two-Rep (omega arith)

pop-Rep_example :
    (q' : LineQueue ℕ) × (pop two (5 ∷ []) ≡ some (q', 5 ∷ 7 ∷ 8 ∷ [])) × Rep q' (9 ∷ []) 0
pop-Rep_example = pop-Rep two (7 ∷ 8 ∷ 9 ∷ []) (5 ∷ []) 2 two-Rep

-- At the last pop that a cut to one thread waits for.
abbrev twin : RapidQueue ℕ
twin = record {
  max_thread_num = 2;
  curr_alived_threads = 2;
  last_set_threads = 1;
  pop_num = 1;
  lines = two ∷ submit two ∷ [];
}

twin-Reps : Reps twin.lines ((7 ∷ 8 ∷ 9 ∷ [], 2) ∷ (7 ∷ 8 ∷ 9 ∷ [], 3) ∷ [])
twin-Reps = Reps.cons two-Rep (Reps.cons submit-Rep_other Reps.nil)
  where
    submit-Rep_other : Rep (submit two) (7 ∷ 8 ∷ 9 ∷ []) 3
    submit-Rep_other = submit-Rep two (7 ∷ 8 ∷ 9 ∷ []) 2 two-Rep

pop-Reps_example :
    (q' : RapidQueue ℕ) × (Rapid.pop twin [] ≡ some (q', 7 ∷ 8 ∷ 7 ∷ 8 ∷ 9 ∷ []))
    × Reps q'.lines ((9 ∷ [], 0) ∷ ([], 0) ∷ [])
    × (q'.pop_num ≡ 0)
    × (q'.curr_alived_threads ≡ 1)
    × (q'.last_set_threads ≡ 1)
    × (q'.max_thread_num ≡ 2)
pop-Reps_example =
    pop-Reps twin ((7 ∷ 8 ∷ 9 ∷ [], 2) ∷ (7 ∷ 8 ∷ 9 ∷ [], 3) ∷ []) [] twin-Reps (omega arith)
