-- ===== src/Queue.antt =====
-- src/utils/RapidQueue.h: LineQueue, a queue of one producer and one consumer over linked blocks,
-- and RapidQueue, one line for each producer thread.
-- The nodes from `_endNode` to `_startNode` are a list of blocks; a block that has just been
-- allocated holds nothing. A fault is a null node or an empty slot, which the code asserts against.
pub mod Slots
pub mod Line
pub mod Rapid
mod Examples
use rapid_db.Common.{
  ℕ, zero, suc, ◌+◌, ◌-◌, ◌*◌, ◌/◌, ◌%◌, ◌^◌, List, [], ◌∷◌, ◌++◌, Option, none, some, Bool, true,
  false, ◌&&◌, ◌||◌, not, ltb, ◌==◌, if◌then◌else◌, get_elem?, set, length, replicate,
}

abbrev pub ele_size : ℕ
ele_size = 32

pub record LineQueue (A : Type 0) : Type 0 where
  pub blocks : List (List (Option A))
  pub head : ℕ
  pub submitted : ℕ
  pub tail : ℕ

module _ {A : Type 0} where
  pub new_block : List (Option A)
  new_block = replicate ele_size none

  pub empty : LineQueue A
  empty = record { blocks = new_block ∷ []; head = 0; submitted = 0; tail = 0 }

  -- `_startNode->_block[pos] = ele`: the start node is the last of the chain.
  pub write_last : List (List (Option A)) → ℕ → A → List (List (Option A))
  write_last [] pos ele = []
  write_last (b ∷ []) pos ele = set b pos (some ele) ∷ []
  write_last (b ∷ c ∷ bs) pos ele = b ∷ write_last (c ∷ bs) pos ele

  pub push : LineQueue A → A → Bool → LineQueue A
  unfolding write_last new_block
  push q ele submit =
      let pos = q.head % ele_size in
      let new_node = pos == 0 in
      let chain = if new_node then q.blocks ++ new_block ∷ [] else q.blocks in
      let head' = (q.head + 1) % 2 ^ 64 in
      record q {
        blocks = write_last chain pos ele;
        head = head';
        submitted = if new_node || submit then head' else q.submitted;
      }

  pub submit : LineQueue A → LineQueue A
  submit q = if q.head == q.submitted then q else record q { submitted = q.head }

  -- At a multiple of the block size the consumer frees its node and goes to the next.
  pub next_node : ℕ → List (List (Option A)) → Option (List (List (Option A)))
  next_node pos [] = none
  next_node pos (b ∷ []) = if pos == 0 then none else some (b ∷ [])
  next_node pos (b ∷ c ∷ bs) = if pos == 0 then some (c ∷ bs) else some (b ∷ c ∷ bs)

  pub read_slot : List (List (Option A)) → ℕ → Option A
  read_slot [] pos = none
  read_slot (b ∷ bs) pos = elim (get_elem? b pos) [ none ↦ none | some v ↦ v ]

  -- The body of both loops of Pop.
  pub pop_one : LineQueue A → List A → Option (LineQueue A × List A)
  unfolding next_node read_slot
  pop_one q lst =
      let pos = q.tail % ele_size in
      elim (next_node pos q.blocks) [
        | none ↦ none
        | some bs ↦ elim (read_slot bs pos) [
          | none ↦ none
          | some v ↦ some (record q { blocks = bs; tail = (q.tail + 1) % 2 ^ 64 }, lst ++ v ∷ [])
        ]
      ]

  pub pop_rounds : ℕ → LineQueue A → List A → Option (LineQueue A × List A)
  pop_rounds zero q lst = some (q, lst)
  pop_rounds (suc n) q lst = elim (pop_one q lst) [
    | none ↦ none
    | some (q', lst') ↦ pop_rounds n q' lst'
  ]

  -- The first loop runs only after `_tail` has passed the wrap of the counters that `head` is past.
  pub pop : LineQueue A → List A → Option (LineQueue A × List A)
  unfolding pop_one
  pop q lst =
      let to_wrap = if ltb q.submitted q.tail then 2 ^ 64 - q.tail else 0 in
      elim (pop_rounds to_wrap q lst) [
        | none ↦ none
        | some (q', lst') ↦ pop_rounds (q'.submitted - q'.tail) q' lst'
      ]

  pub is_empty : LineQueue A → Bool
  is_empty q = q.tail == q.submitted && q.head == q.submitted

  pub rough_size : LineQueue A → ℕ
  rough_size q =
      if ltb q.submitted q.tail
      then (q.submitted + (2 ^ 64 - 1 - q.tail + 1)) % 2 ^ 64
      else q.submitted - q.tail
