-- ===== src/Mutex/Examples.antt =====
-- Reachable states of the locks, and their theorems there.
use rapid_db.Common.{◌+◌, ℕ, true, ◌≡◌, ◌≢◌, refl, arith, ℕ_discrete}
use rapid_db.Mutex.Spin
use rapid_db.Mutex.Shared
use rapid_db.Mutex.Shared.Safety
use rapid_db.Mutex.Reentrant
use rapid_db.Mutex.Reentrant.Safety.{reentrant_depth, reentrant_exclusion}

-- Thread 1 is inside the spin lock, and thread 0 has looked at it.
spun : (s : Spin.State) × Spin.Reach 2 s × (s.pc 1 ≡ Spin.Place.inside)
unfolding ℕ_discrete
spun = (
  _,
  Spin.Reach.later
      (Spin.Reach.later
        (Spin.Reach.later Spin.Reach.start
          (Spin.Step.by 1 (omega arith) (Spin.Move.lock_take refl)))
        (Spin.Step.by 1 (omega arith) Spin.Move.own))
      (Spin.Step.by 0 (omega arith) (Spin.Move.try_busy refl)),
  refl,
)

mutual_exclusion_example : ◌≡◌ {A = ℕ} 1 1
unfolding spun ℕ_discrete
mutual_exclusion_example = Spin.mutual_exclusion spun.1 1 1 (omega arith) (omega arith) refl refl

-- Thread 1 has set the flag of the shared lock and writes, after thread 0 read and left.
shared : (s : Shared.State) × Shared.Reach 2 s × (s.pc 1 ≡ Shared.Place.writing)
unfolding ℕ_discrete
shared = (
  _,
  Shared.Reach.later
      (Shared.Reach.later
        (Shared.Reach.later
          (Shared.Reach.later
            (Shared.Reach.later
              (Shared.Reach.later Shared.Reach.start
                (Shared.Step.by 0 (omega arith) Shared.Move.share_add))
              (Shared.Step.by 0 (omega arith) (Shared.Move.share_enter refl)))
            (Shared.Step.by 1 (omega arith) (Shared.Move.lock_flag refl)))
          (Shared.Step.by 0 (omega arith) Shared.Move.unshare))
        (Shared.Step.by 1 (omega arith) (Shared.Move.lock_enter refl)))
      (Shared.Step.by 1 (omega arith) Shared.Move.own),
  refl,
)

readers_excluded_example : shared.0.pc 0 ≢ Shared.Place.reading
unfolding shared ℕ_discrete
readers_excluded_example = Safety.readers_excluded shared.1 1 0 (omega arith) (omega arith) refl

writers_excluded_example : ◌≡◌ {A = ℕ} 1 1
unfolding shared ℕ_discrete
writers_excluded_example =
    Safety.writers_excluded shared.1 1 1 (omega arith) (omega arith) refl refl

-- Thread 1 has locked twice and unlocked once, and thread 0 waits.
abbrev some_ids : ℕ → ℕ
some_ids i = i + 17

some_ids-AreIds : Reentrant.AreIds some_ids 2
some_ids-AreIds = record {
  distinct = λ i j h k e. omega (arith, e);
  nonzero = λ i h e. absurd (omega (arith, e));
}

nested : (s : Reentrant.State) × Reentrant.Reach some_ids 2 s × (s.pc 1 ≡ Reentrant.Place.at 1)
unfolding ℕ_discrete
nested = (
  _,
  Reentrant.Reach.later
      (Reentrant.Reach.later
        (Reentrant.Reach.later
          (Reentrant.Reach.later
            (Reentrant.Reach.later
              (Reentrant.Reach.later
                (Reentrant.Reach.later
                  (Reentrant.Reach.later Reentrant.Reach.start (
                    Reentrant.Step.by 1 (omega arith)
                      (Reentrant.Move.lock_other 0 (λ e. absurd (omega (arith, e))))))
                  (Reentrant.Step.by 1 (omega arith) (Reentrant.Move.lock_take refl)))
                (Reentrant.Step.by 1 (omega arith) Reentrant.Move.own))
              (Reentrant.Step.by 1 (omega arith) Reentrant.Move.first))
            (Reentrant.Step.by 1 (omega arith) (Reentrant.Move.lock_again 1 refl)))
          (Reentrant.Step.by 1 (omega arith) (Reentrant.Move.deeper 1 (omega arith))))
        (Reentrant.Step.by 1 (omega arith)
          (Reentrant.Move.unlock_more 1 (λ e. absurd (omega (arith, e))))))
      (Reentrant.Step.by 0 (omega arith)
        (Reentrant.Move.lock_other 0 (λ e. absurd (omega (arith, e))))),
  refl,
)

reentrant_exclusion_example : ◌≡◌ {A = ℕ} 1 1
unfolding nested ℕ_discrete
reentrant_exclusion_example =
    reentrant_exclusion some_ids-AreIds nested.1 1 1 (omega arith) (omega arith) refl refl

reentrant_depth_example :
    (nested.0.lock.owner ≡ 18) × (nested.0.lock.reen_count ≡ 1) × (nested.0.lock.flag ≡ true)
unfolding nested ℕ_discrete
reentrant_depth_example = (reentrant_depth some_ids-AreIds nested.1 1 0 (omega arith)).0 refl
