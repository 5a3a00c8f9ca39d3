-- ===== src/Mutex/Spin.antt =====
-- SpinMutex: one flag that is taken by an exchange, and the thread that owns it.
use rapid_db.Common.{ℕ, suc, ◌+◌, ◌<◌, ◌≡◌, ◌≢◌, refl, arith, Bool, true, false, ℕ_discrete}
use rapid_db.Mutex.Threads.{
  move, count, count-move, weight_two-le-count, weight-le-count, count-const,
}

pub record Word : Type 0 where
  pub flag : Bool
  pub owner : ℕ

-- Where a thread stands: outside, past the test of try_lock, past the exchange with the owner not
-- yet written, inside, and past the reset of the owner in unlock.
pub data Place : Type 0 where
  outside tested taken inside leaving : Place

-- One access by the thread whose id is `me`.
pub data Move (me : ℕ) (m : Word) : Place → Word → Place → Type 0 where
  lock_busy : m.flag ≡ true → Move me m outside m outside
  lock_take : m.flag ≡ false → Move me m outside (record m { flag = true }) taken
  try_busy : m.flag ≡ true → Move me m outside m outside
  try_free : m.flag ≡ false → Move me m outside m tested
  try_lost : m.flag ≡ true → Move me m tested m outside
  try_take : m.flag ≡ false → Move me m tested (record m { flag = true }) taken
  own : Move me m taken (record m { owner = me }) inside
  disown : Move me m inside (record m { owner = 0 }) leaving
  release : Move me m leaving (record m { flag = false }) outside

pub record State : Type 0 where
  pub word : Word
  pub pc : ℕ → Place

abbrev pub free : State
free = record { word = record { flag = false; owner = 0 }; pc = λ _. outside }

-- Thread i has the id i + 1; 0 is no thread.
pub data Step (n : ℕ) (s : State) : State → Type 0 where
  by :
      (i : ℕ) {m : Word} {p : Place}
      → i < n
      → Move (suc i) s.word (s.pc i) m p
      → Step n s (record { word = m; pc = move s.pc i p })

pub data Reach (n : ℕ) : State → Type 0 where
  start : Reach n free
  later : {s t : State} → Reach n s → Step n s t → Reach n t

-- 1 for a thread that holds the flag.
abbrev pub holds : Place → ℕ
holds outside = 0
holds tested = 0
holds _ = 1

abbrev flag_value : Bool → ℕ
flag_value true = 1
flag_value false = 0

pub record Inv (n : ℕ) (m : Word) (pc : ℕ → Place) : Type 0 where
  pub one : count holds n pc ≡ flag_value m.flag
  pub owned : (i : ℕ) → i < n → pc i ≡ inside → m.owner ≡ suc i

free-Inv : (n : ℕ) → Inv n free.word free.pc
free-Inv n = record { one = count-const holds n outside refl; owned = λ i h e. cc }

-- At most one thread holds the flag.
alone :
    (n : ℕ) (m : Word) (pc : ℕ → Place) (i j : ℕ)
    → Inv n m pc
    → i < n
    → j < n
    → holds (pc i) ≡ 1
    → holds (pc j) ≡ 1
    → i ≡ j
alone n m pc i j v hi hj ei ej = elim (ℕ_discrete i j) [
  | yes same ↦ same
  | no different ↦
      absurd (ground (arith, v.one, weight_two-le-count holds n pc i j hi hj different))
]

module _ {n : ℕ} {m : Word} {pc : ℕ → Place} (v : Inv n m pc) (i : ℕ) (h : i < n) where
  -- A move that neither enters nor changes the owner.
  pass :
      (p : Place) (f : Bool)
      → p ≢ inside
      → flag_value f + holds (pc i) ≡ flag_value m.flag + holds p
      → Inv n (record m { flag = f }) (move pc i p)
  pass p f ne e = record {
    one = omega (arith, v.one, count-move holds n pc i p h);
    owned = λ j hj ej. ground (arith, v.owned j hj);
  }

  Move-Inv : {q p : Place} {m' : Word} → pc i ≡ q → Move (suc i) m q m' p → Inv n m' (move pc i p)
  Move-Inv e (lock_busy f) = pass outside m.flag (λ x. cc) (ground arith)
  Move-Inv e (lock_take f) = pass taken true (λ x. cc) (ground arith)
  Move-Inv e (try_busy f) = pass outside m.flag (λ x. cc) (ground arith)
  Move-Inv e (try_free f) = pass tested m.flag (λ x. cc) (ground arith)
  Move-Inv e (try_lost f) = pass outside m.flag (λ x. cc) (ground arith)
  Move-Inv e (try_take f) = pass taken true (λ x. cc) (ground arith)
  Move-Inv e own = record {
    one = ground (arith, v.one, count-move holds n pc i inside h);
    owned = λ j hj ej. ground (arith, alone n m pc i j v h hj);
  }
  Move-Inv e disown = record {
    one = ground (arith, v.one, count-move holds n pc i leaving h);
    owned = λ j hj ej. ground (arith, alone n m pc i j v h hj);
  }
  Move-Inv e release =
      pass outside false (λ x. cc) (ground (arith, v.one, weight-le-count holds n pc i h))

Reach-Inv : {n : ℕ} {s : State} → Reach n s → Inv n s.word s.pc
Reach-Inv {n} start = free-Inv n
Reach-Inv (later r (by i h mv)) = Move-Inv (Reach-Inv r) i h refl mv

-- In every interleaving of lock, try_lock and unlock by any number of threads, two threads are
-- never between the exchange that took the flag and the store that gives it back.
pub mutual_exclusion :
    {n : ℕ} {s : State}
    → Reach n s
    → (i j : ℕ) → i < n
    → j < n
    → holds (s.pc i) ≡ 1
    → holds (s.pc j) ≡ 1
    → i ≡ j
mutual_exclusion {n} {s} r i j = alone n s.word s.pc i j (Reach-Inv r)

-- In every such interleaving a thread inside the lock finds itself the owner, so the assertion of unlock never fails, and the
-- flag is set, so no other exchange succeeds.
pub inside-owner :
    {n : ℕ} {s : State}
    → Reach n s
    → (i : ℕ) → i < n
    → s.pc i ≡ inside
    → (s.word.owner ≡ suc i) × (s.word.flag ≡ true)
inside-owner {n} {s} r i h e =
    let v = Reach-Inv r in (v.owned i h e, ground (arith, v.one, weight-le-count holds n s.pc i h))
