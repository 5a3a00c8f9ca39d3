-- ===== src/Mutex/Shared.antt =====
-- SharedSpinMutex: a flag for the writer and a count of the readers. A reader counts itself first
-- and looks at the flag after; a writer sets the flag first and waits for the count after.
pub mod Safety
use rapid_db.Common.{ℕ, zero, suc, ◌+◌, ◌-◌, ◌<◌, ◌≡◌, Bool, true, false}
use rapid_db.Mutex.Threads.{move}

pub record Words : Type 0 where
  pub read_count : ℕ
  pub write_flag : Bool
  pub owner : ℕ

pub data Place : Type 0 where
  outside : Place
  flagged : Place  -- lock: the flag is set, the readers are awaited
  saw_none : Place  -- try_lock: no reader seen
  rechecking : Place  -- try_lock: the flag is set
  giving_up : Place  -- try_lock: a reader seen, the flag to be reset
  entering : Place  -- no reader seen under the flag, the owner to be written
  writing : Place
  leaving : Place  -- unlock: the owner reset
  saw_no_flag : Place  -- try_lock_shared: no writer seen
  counted : Place  -- lock_shared, try_lock_shared: counted, the flag to be read
  uncounting : Place  -- a writer seen, the count to be reset
  reading : Place

-- One access by the thread whose id is `me`.
pub data Move (me : ℕ) (m : Words) : Place → Words → Place → Type 0 where
  lock_busy : m.write_flag ≡ true → Move me m outside m outside
  lock_flag : m.write_flag ≡ false → Move me m outside (record m { write_flag = true }) flagged
  lock_wait : 0 < m.read_count → Move me m flagged m flagged
  lock_enter : m.read_count ≡ 0 → Move me m flagged m entering
  try_readers : 0 < m.read_count → Move me m outside m outside
  try_none : m.read_count ≡ 0 → Move me m outside m saw_none
  try_busy : m.write_flag ≡ true → Move me m saw_none m outside
  try_flag : m.write_flag ≡ false → Move me m saw_none (record m { write_flag = true }) rechecking
  try_enter : m.read_count ≡ 0 → Move me m rechecking m entering
  try_give_up : 0 < m.read_count → Move me m rechecking m giving_up
  try_reset : Move me m giving_up (record m { write_flag = false }) outside
  own : Move me m entering (record m { owner = me }) writing
  disown : Move me m writing (record m { owner = 0 }) leaving
  unlock : Move me m leaving (record m { write_flag = false }) outside
  share_add : Move me m outside (record m { read_count = m.read_count + 1 }) counted
  share_try_busy : m.write_flag ≡ true → Move me m outside m outside
  share_try : m.write_flag ≡ false → Move me m outside m saw_no_flag
  share_try_add : Move me m saw_no_flag (record m { read_count = m.read_count + 1 }) counted
  share_enter : m.write_flag ≡ false → Move me m counted m reading
  share_back : m.write_flag ≡ true → Move me m counted m uncounting
  share_sub : Move me m uncounting (record m { read_count = m.read_count - 1 }) outside
  unshare : Move me m reading (record m { read_count = m.read_count - 1 }) outside

pub record State : Type 0 where
  pub words : Words
  pub pc : ℕ → Place

abbrev pub free : State
free = record {
  words = record { read_count = 0; write_flag = false; owner = 0 };
  pc = λ _. outside;
}

-- Thread i has the id i + 1; 0 is no thread.
pub data Step (n : ℕ) (s : State) : State → Type 0 where
  by :
      (i : ℕ) {m : Words} {p : Place}
      → i < n
      → Move (suc i) s.words (s.pc i) m p
      → Step n s (record { words = m; pc = move s.pc i p })

pub data Reach (n : ℕ) : State → Type 0 where
  start : Reach n free
  later : {s t : State} → Reach n s → Step n s t → Reach n t
