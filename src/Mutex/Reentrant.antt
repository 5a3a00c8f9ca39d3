-- ===== src/Mutex/Reentrant.antt =====
-- ReentrantSpinMutex: a flag that is taken by an exchange, the owner, and how many times it has locked.
-- The decrement in unlock and the test of its result are one step, since only the owner changes the count.
-- The ids of the threads, which get_thread_id reads off the text of a thread id, are a parameter.
pub mod Safety
use rapid_db.Common.{
  ℕ, zero, suc, ◌+◌, ◌-◌, ◌^◌, ◌<◌, ◌≡◌, ◌≢◌, ◌⊎◌, inl, inr, refl, sym, ap, ◌∙◌, arith, subst, Bool,
  true, false, ℕ_discrete,
}
use mathlib.Core.Logic.{ite}
use rapid_db.Mutex.Threads.{
  move, count, count-move, weight_two-le-count, weight-le-count, count-const,
}

pub record Lock : Type 0 where
  pub flag : Bool
  pub owner : ℕ
  pub reen_count : ℕ

-- Where a thread stands: at a depth of calls, 0 outside; past the test of the owner, in lock and in
-- try_lock, and past that of the flag; past the exchange, then with the owner written; past the test of
-- the owner at a depth; past the last decrement, and past the reset of the owner.
pub data Place : Type 0 where
  at : ℕ → Place
  waiting trying tested taken marked : Place
  again : ℕ → Place
  ending leaving : Place

-- One access by the thread whose id is `me`. A thread calls unlock inside only, and nests its calls less
-- than 2 ^ 31 deep: the overflow of the int32_t count behind that is not defined.
pub data Move (me : ℕ) (m : Lock) : Place → Lock → Place → Type 0 where
  lock_again : (d : ℕ) → m.owner ≡ me → Move me m (at d) m (again d)
  lock_other : (d : ℕ) → m.owner ≢ me → Move me m (at d) m waiting
  try_other : (d : ℕ) → m.owner ≢ me → Move me m (at d) m trying
  deeper :
      (d : ℕ)
      → m.reen_count + 1 < 2 ^ 31
      → Move me m (again d) (record m { reen_count = m.reen_count + 1 }) (at (suc d))
  lock_busy : m.flag ≡ true → Move me m waiting m waiting
  lock_take : m.flag ≡ false → Move me m waiting (record m { flag = true }) taken
  try_busy : m.flag ≡ true → Move me m trying m (at 0)
  try_free : m.flag ≡ false → Move me m trying m tested
  try_lost : m.flag ≡ true → Move me m tested m (at 0)
  try_take : m.flag ≡ false → Move me m tested (record m { flag = true }) taken
  own : Move me m taken (record m { owner = me }) marked
  first : Move me m marked (record m { reen_count = 1 }) (at 1)
  unlock_more :
      (d : ℕ)
      → m.reen_count - 1 ≢ 0
      → Move me m (at (suc d)) (record m { reen_count = m.reen_count - 1 }) (at d)
  unlock_last :
      (d : ℕ)
      → m.reen_count - 1 ≡ 0
      → Move me m (at (suc d)) (record m { reen_count = m.reen_count - 1 }) ending
  disown : Move me m ending (record m { owner = 0 }) leaving
  release : Move me m leaving (record m { flag = false }) (at 0)

pub record State : Type 0 where
  pub lock : Lock
  pub pc : ℕ → Place

abbrev pub free : State
free = record { lock = record { flag = false; owner = 0; reen_count = 0 }; pc = λ _. at 0 }

-- Thread i has the id `ids i`, whatever it is.
pub data Step (ids : ℕ → ℕ) (n : ℕ) (s : State) : State → Type 0 where
  by :
      (i : ℕ) {m : Lock} {p : Place}
      → i < n
      → Move (ids i) s.lock (s.pc i) m p
      → Step ids n s (record { lock = m; pc = move s.pc i p })

pub data Reach (ids : ℕ → ℕ) (n : ℕ) : State → Type 0 where
  start : Reach ids n free
  later : {s t : State} → Reach ids n s → Step ids n s t → Reach ids n t

-- The first n threads have ids of their own, other than the 0 of no owner.
pub record AreIds (ids : ℕ → ℕ) (n : ℕ) : Type 0 where
  pub distinct : (i j : ℕ) → i < n → j < n → ids i ≡ ids j → i ≡ j
  pub nonzero : (i : ℕ) → i < n → ids i ≢ 0

-- 1 for a thread that holds the flag, and 1 for one whose id the owner is.
abbrev pub holds : Place → ℕ
holds (at zero) = 0
holds (at (suc d)) = 1
holds waiting = 0
holds trying = 0
holds tested = 0
holds taken = 1
holds marked = 1
holds (again d) = 1
holds ending = 1
holds leaving = 1

abbrev pub owns : Place → ℕ
owns (at zero) = 0
owns (at (suc d)) = 1
owns waiting = 0
owns trying = 0
owns tested = 0
owns taken = 0
owns marked = 1
owns (again d) = 1
owns ending = 1
owns leaving = 0

-- How many locks of its own a thread has not given back.
abbrev pub depth : Place → ℕ
depth (at d) = d
depth (again d) = d
depth _ = 0
