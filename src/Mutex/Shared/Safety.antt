-- ===== src/Mutex/Shared/Safety.antt =====
-- The invariant of SharedSpinMutex: who holds the flag, who is counted, and who is inside.
use rapid_db.Common.{
  ℕ, suc, ◌+◌, ◌-◌, ◌≤◌, ◌<◌, ◌≡◌, ◌≢◌, refl, arith, Bool, true, false, ℕ_discrete, dec_lt,
}
use rapid_db.Mutex.Threads.{
  move, count, count-move, weight_two-le-count, weight-le-count, count-const, count-find,
}
use rapid_db.Mutex.Shared.{
  Words, Place, outside, flagged, saw_none, rechecking, giving_up, entering, writing, leaving,
  saw_no_flag, counted, uncounting, reading, Move, lock_busy, lock_flag, lock_wait, lock_enter,
  try_readers, try_none, try_busy, try_flag, try_enter, try_give_up, try_reset, own, disown, unlock,
  share_add, share_try_busy, share_try, share_try_add, share_enter, share_back, share_sub, unshare,
  State, free, Reach, start, later, by,
}

-- 1 for a thread that has set the flag.
abbrev flags : Place → ℕ
flags flagged = 1
flags rechecking = 1
flags giving_up = 1
flags entering = 1
flags writing = 1
flags leaving = 1
flags _ = 0

-- 1 for a thread that has counted itself.
abbrev counts : Place → ℕ
counts counted = 1
counts uncounting = 1
counts reading = 1
counts _ = 0

-- 1 for a writer inside.
abbrev pub writes : Place → ℕ
writes entering = 1
writes writing = 1
writes leaving = 1
writes _ = 0

abbrev owns : Place → ℕ
owns writing = 1
owns _ = 0

abbrev flag_value : Bool → ℕ
flag_value true = 1
flag_value false = 0

pub record Inv (n : ℕ) (m : Words) (pc : ℕ → Place) : Type 0 where
  pub one_flag : count flags n pc ≡ flag_value m.write_flag
  pub readers : count counts n pc ≡ m.read_count
  pub apart : (i j : ℕ) → i < n → j < n → writes (pc i) ≡ 1 → pc j ≢ reading
  pub owned : (i : ℕ) → i < n → pc i ≡ writing → m.owner ≡ suc i
  pub unowned : count owns n pc ≡ 0 → m.owner ≡ 0

free-Inv : (n : ℕ) → Inv n free.words free.pc
free-Inv n = record {
  one_flag = count-const flags n outside refl;
  readers = count-const counts n outside refl;
  apart = λ i j hi hj e. cc;
  owned = λ i h e. cc;
  unowned = λ _. refl;
}

writes-le-one : (p : Place) → writes p ≤ 1
writes-le-one p = ground arith

writes-le-flags : (p : Place) → writes p ≤ flags p
writes-le-flags p = ground arith

module _ (pc : ℕ → Place) (i : ℕ) (p : Place) where
  -- A reader or a writer after a move to a place outside was one before.
  move-reading : (k : ℕ) → p ≢ reading → move pc i p k ≡ reading → pc k ≡ reading
  move-reading k ne e = ground arith

  move-writes : (j : ℕ) → writes p ≤ writes (pc i) → writes (move pc i p j) ≡ 1 → writes (pc j) ≡ 1
  move-writes j le e = elim (ℕ_discrete i j) [
    | yes same ↦ ground (arith, writes-le-one (pc i))
    | no other ↦ ground arith
  ]

module _ {n : ℕ} {m : Words} {pc : ℕ → Place} (v : Inv n m pc) (i : ℕ) (h : i < n) where
  -- The move of a thread that does not get inside and was not the owner.
  pass :
      (p : Place) (r : ℕ) (f : Bool)
      → p ≢ reading
      → p ≢ writing
      → writes p ≤ writes (pc i)
      → pc i ≢ writing
      → flag_value f + flags (pc i) ≡ flag_value m.write_flag + flags p
      → r + counts (pc i) ≡ m.read_count + counts p
      → Inv n (record m { read_count = r; write_flag = f }) (move pc i p)
  pass p r f nr nw le nwi ef er = record {
    one_flag = omega (arith, v.one_flag, count-move flags n pc i p h);
    readers = omega (arith, v.readers, count-move counts n pc i p h);
    apart = λ j k hj hk ej ek.
        v.apart j k hj hk (move-writes pc i p j le ej) (move-reading pc i p k nr ek);
    owned = λ j hj ej. ground (arith, v.owned j hj);
    unowned = λ e. v.unowned (ground (arith, count-move owns n pc i p h));
  }

  -- A writer that sees no reader gets inside.
  enter :
      m.read_count ≡ 0
      → flags (pc i) ≡ 1
      → counts (pc i) ≡ 0
      → pc i ≢ writing
      → Inv n m (move pc i entering)
  enter none f c nw = record {
    one_flag = omega (arith, v.one_flag, count-move flags n pc i entering h);
    readers = omega (arith, v.readers, count-move counts n pc i entering h);
    apart = λ j k hj hk ej ek.
        let reader : pc k ≡ reading = move-reading pc i entering k (λ x. cc) ek in
        ground (arith, v.readers, weight-le-count counts n pc k hk);
    owned = λ j hj ej. ground (arith, v.owned j hj);
    unowned = λ e. v.unowned (ground (arith, count-move owns n pc i entering h));
  }

  -- Two threads never have the flag together.
  one_writer : (j : ℕ) → j < n → flags (pc i) ≡ 1 → flags (pc j) ≡ 1 → i ≡ j
  one_writer j hj ei ej = elim (ℕ_discrete i j) [
    | yes same ↦ same
    | no different ↦
        absurd (ground (arith, v.one_flag, weight_two-le-count flags n pc i j h hj different))
  ]

  own-Inv : pc i ≡ entering → Inv n (record m { owner = suc i }) (move pc i writing)
  own-Inv e = record {
    one_flag = ground (arith, v.one_flag, count-move flags n pc i writing h);
    readers = ground (arith, v.readers, count-move counts n pc i writing h);
    apart = λ j k hj hk ej ek.
        v.apart j k hj hk (move-writes pc i writing j (ground arith) ej)
          (move-reading pc i writing k (λ x. cc) ek);
    owned = λ j hj ej. ground (arith, one_writer j hj);
    unowned = λ z. absurd (ground (arith, count-move owns n pc i writing h));
  }

  disown-Inv : pc i ≡ writing → Inv n (record m { owner = 0 }) (move pc i leaving)
  disown-Inv e = record {
    one_flag = ground (arith, v.one_flag, count-move flags n pc i leaving h);
    readers = ground (arith, v.readers, count-move counts n pc i leaving h);
    apart = λ j k hj hk ej ek.
        v.apart j k hj hk (move-writes pc i leaving j (ground arith) ej)
          (move-reading pc i leaving k (λ x. cc) ek);
    owned = λ j hj ej. ground (arith, one_writer j hj);
    unowned = λ z. refl;
  }

  -- A reader that sees no flag gets inside.
  share-Inv : pc i ≡ counted → m.write_flag ≡ false → Inv n m (move pc i reading)
  share-Inv e f = record {
    one_flag = ground (arith, v.one_flag, count-move flags n pc i reading h);
    readers = ground (arith, v.readers, count-move counts n pc i reading h);
    apart = λ j k hj hk ej ek.
        let writer : writes (pc j) ≡ 1 = move-writes pc i reading j (ground arith) ej in
        ground (arith, v.one_flag, weight-le-count flags n pc j hj, writes-le-flags (pc j));
    owned = λ j hj ej. ground (arith, v.owned j hj);
    unowned = λ z. v.unowned (ground (arith, count-move owns n pc i reading h));
  }

  -- Giving the flag back, and leaving the count.
  reset :
      flags (pc i) ≡ 1
      → counts (pc i) ≡ 0
      → pc i ≢ writing
      → Inv n (record m { write_flag = false }) (move pc i outside)
  reset f c nw =
      pass outside m.read_count false (λ x. cc) (λ x. cc) (omega arith) nw
        (ground (arith, v.one_flag, weight-le-count flags n pc i h)) (omega arith)

  uncount :
      flags (pc i) ≡ 0
      → counts (pc i) ≡ 1
      → pc i ≢ writing
      → Inv n (record m { read_count = m.read_count - 1 }) (move pc i outside)
  uncount f c nw =
      pass outside (m.read_count - 1) m.write_flag (λ x. cc) (λ x. cc) (omega arith) nw
        (omega arith) (omega (arith, v.readers, weight-le-count counts n pc i h))

  -- A move between places outside that changes nothing but where the thread stands.
  stay :
      (p : Place)
      → p ≢ reading
      → p ≢ writing
      → writes p ≡ 0
      → pc i ≢ writing
      → flags (pc i) ≡ flags p
      → counts (pc i) ≡ counts p
      → Inv n m (move pc i p)
  stay p nr nw w nwi ef ec =
      pass p m.read_count m.write_flag nr nw (omega arith) nwi (omega arith) (omega arith)

  Move-Inv : {q p : Place} {m' : Words} → pc i ≡ q → Move (suc i) m q m' p → Inv n m' (move pc i p)
  Move-Inv e (lock_busy f) =
      stay outside (λ x. cc) (λ x. cc) refl (λ x. cc) (ground arith) (ground arith)
  Move-Inv e (lock_flag f) =
      pass flagged m.read_count true (λ x. cc) (λ x. cc) (omega arith) (λ x. cc) (ground arith)
        (ground arith)
  Move-Inv e (lock_wait r) =
      stay flagged (λ x. cc) (λ x. cc) refl (λ x. cc) (ground arith) (ground arith)
  Move-Inv e (lock_enter r) = enter r (ground arith) (ground arith) (λ x. cc)
  Move-Inv e (try_readers r) =
      stay outside (λ x. cc) (λ x. cc) refl (λ x. cc) (ground arith) (ground arith)
  Move-Inv e (try_none r) =
      stay saw_none (λ x. cc) (λ x. cc) refl (λ x. cc) (ground arith) (ground arith)
  Move-Inv e (try_busy f) =
      stay outside (λ x. cc) (λ x. cc) refl (λ x. cc) (ground arith) (ground arith)
  Move-Inv e (try_flag f) =
      pass rechecking m.read_count true (λ x. cc) (λ x. cc) (omega arith) (λ x. cc) (ground arith)
        (ground arith)
  Move-Inv e (try_enter r) = enter r (ground arith) (ground arith) (λ x. cc)
  Move-Inv e (try_give_up r) =
      stay giving_up (λ x. cc) (λ x. cc) refl (λ x. cc) (ground arith) (ground arith)
  Move-Inv e try_reset = reset (ground arith) (ground arith) (λ x. cc)
  Move-Inv e own = own-Inv e
  Move-Inv e disown = disown-Inv e
  Move-Inv e unlock = reset (ground arith) (ground arith) (λ x. cc)
  Move-Inv e share_add =
      pass counted (m.read_count + 1) m.write_flag (λ x. cc) (λ x. cc) (omega arith) (λ x. cc)
        (ground arith) (ground arith)
  Move-Inv e (share_try_busy f) =
      stay outside (λ x. cc) (λ x. cc) refl (λ x. cc) (ground arith) (ground arith)
  Move-Inv e (share_try f) =
      stay saw_no_flag (λ x. cc) (λ x. cc) refl (λ x. cc) (ground arith) (ground arith)
  Move-Inv e share_try_add =
      pass counted (m.read_count + 1) m.write_flag (λ x. cc) (λ x. cc) (omega arith) (λ x. cc)
        (ground arith) (ground arith)
  Move-Inv e (share_enter f) = share-Inv e f
  Move-Inv e (share_back f) =
      stay uncounting (λ x. cc) (λ x. cc) refl (λ x. cc) (ground arith) (ground arith)
  Move-Inv e share_sub = uncount (ground arith) (ground arith) (λ x. cc)
  Move-Inv e unshare = uncount (ground arith) (ground arith) (λ x. cc)

owns-writes : (p : Place) → 0 < owns p → writes p ≡ 1
owns-writes p h = ground arith

no_owner :
    {n : ℕ} {m : Words} {pc : ℕ → Place}
    → Inv n m pc
    → (i : ℕ) → i < n
    → pc i ≡ reading
    → count owns n pc ≡ 0
no_owner {n} {pc} v i h e = elim (dec_lt 0 (count owns n pc)) [
  | yes some_owner ↦
      let (j, hj, found) = count-find owns n pc some_owner in
      absurd (v.apart j i hj h (owns-writes (pc j) found) e)
  | no none_owner ↦ omega arith
]

Reach-Inv : {n : ℕ} {s : State} → Reach n s → Inv n s.words s.pc
Reach-Inv {n} start = free-Inv n
Reach-Inv (later r (by i h mv)) = Move-Inv (Reach-Inv r) i h refl mv

-- In every interleaving of lock, try_lock, lock_shared, try_lock_shared and the unlocks by any
-- number of threads, no reader is inside together with a writer.
pub readers_excluded :
    {n : ℕ} {s : State}
    → Reach n s
    → (i j : ℕ) → i < n
    → j < n
    → writes (s.pc i) ≡ 1
    → s.pc j ≢ reading
readers_excluded r i j = (Reach-Inv r).apart i j

-- In every interleaving of the same operations by any number of threads, no two writers are inside
-- together.
pub writers_excluded :
    {n : ℕ} {s : State}
    → Reach n s
    → (i j : ℕ) → i < n
    → j < n
    → writes (s.pc i) ≡ 1
    → writes (s.pc j) ≡ 1
    → i ≡ j
writers_excluded {s} r i j hi hj ei ej =
    one_writer (Reach-Inv r) i hi j hj (ground arith) (ground arith)

-- In every interleaving of those operations, a writer inside is the owner and a reader inside finds no owner, so the assertions of unlock and
-- unlock_shared never fail.
pub assertions_hold :
    {n : ℕ} {s : State}
    → Reach n s
    → (i : ℕ) → i < n
    → (s.pc i ≡ writing → s.words.owner ≡ suc i) × (s.pc i ≡ reading → s.words.owner ≡ 0)
assertions_hold {n} {s} r i h =
    let v = Reach-Inv r in (v.owned i h, λ e. v.unowned (no_owner v i h e))
