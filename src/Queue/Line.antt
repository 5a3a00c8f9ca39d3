-- ===== src/Queue/Line.antt =====
-- A line as a list of elements, oldest first, of which the consumer sees a prefix. The counters are those
-- of the source, which wrap at 2 ^ 64.
use mathlib.Core.List.{append-nil, append_assoc}
use rapid_db.Common.{
  take_add, drop_add, ℕ, zero, suc, ◌+◌, ◌-◌, ◌/◌, ◌%◌, ◌^◌, ◌<◌, ◌≤◌, ◌≡◌, ◌≢◌, refl, sym, ap, ◌∙◌,
  ◌⊎◌, inl, inr, List, [], ◌∷◌, ◌++◌, Option, some, Bool, true, ◌||◌, ◌==◌, if◌then◌else◌, length,
  get_elem?, take, drop, arith, length-append, All-append, replicate, ℕ_discrete, ◌↔◌, Bool-cases,
  ltb, subst,
}
use rapid_db.Queue.{
  LineQueue, empty, push, submit, pop, pop_one, pop_rounds, write_last, new_block, ele_size,
  next_node, read_slot, is_empty, rough_size,
}
use rapid_db.Queue.Slots.{
  IsFull, slot, length-write_last, write_last-IsFull, slot-write_last_self, slot-write_last_ne,
  slot-append,
}

-- The block, counted from the consumer's node, that holds position p; a node that the consumer
-- has used up stays in front until the next element is read.
abbrev pub block_of : ℕ → ℕ → ℕ
block_of tail p = suc (p / 32) - (tail + 31) / 32

-- No position before the head lies where the next element goes.
other_slot :
    (l t p h : ℕ)
    → l + (t + 31) / 32 ≡ suc ((h + 1 + 31) / 32)
    → t ≤ p
    → p < h
    → suc (block_of t p) ≡ l
    → h % 32 ≢ p % 32
other_slot l t p h e le lt g = omega arith

module _ {A : Type 0} where
  -- The line holds xs, fewer than 2 ^ 64 elements, and its first k are submitted; `base` elements
  -- have been popped, however often the counters have wrapped.
  pub record Rep (q : LineQueue A) (xs : List A) (k : ℕ) : Type 0 where
    pub base : ℕ
    pub tail_is : q.tail ≡ base % 2 ^ 64
    pub head_is : q.head ≡ (base + length xs) % 2 ^ 64
    pub shown : q.submitted ≡ (base + k) % 2 ^ 64
    pub within : k ≤ length xs
    pub small : length xs < 2 ^ 64
    pub chain : length q.blocks + (base + 31) / 32 ≡ suc ((base + length xs + 31) / 32)
    pub full : IsFull q.blocks
    pub stored :
        (i : ℕ) (x : A)
        → get_elem? xs i ≡ some x
        → slot q.blocks (block_of base (base + i)) ((base + i) % 32) ≡ some x

  get_elem?-lt : (xs : List A) (i : ℕ) (x : A) → get_elem? xs i ≡ some x → i < length xs
  get_elem?-lt [] i x e = absurd (cc)
  get_elem?-lt (y ∷ xs) zero x e = omega arith
  get_elem?-lt (y ∷ xs) (suc i) x e = omega (arith, get_elem?-lt xs i x e)

  get_elem?-last :
      (xs : List A) (v : A) (i : ℕ) (x : A)
      → get_elem? (xs ++ v ∷ []) i ≡ some x
      → (get_elem? xs i ≡ some x) ⊎ ((i ≡ length xs) × (v ≡ x))
  get_elem?-last [] v zero x e = inr (refl, ground arith)
  get_elem?-last [] v (suc i) x e = absurd (cc)
  get_elem?-last (y ∷ xs) v zero x e = inl e
  get_elem?-last (y ∷ xs) v (suc i) x e = elim (get_elem?-last xs v i x e) [
    | inl h ↦ inl h
    | inr (h, g) ↦ inr (ap suc h, g)
  ]

  length-replicate : (n : ℕ) (a : Option A) → length (replicate n a) ≡ n
  length-replicate zero a = refl
  length-replicate (suc n) a = ap suc (length-replicate n a)

  pub empty-Rep : Rep (empty {A = A}) [] 0
  unfolding empty new_block
  empty-Rep = record {
    base = 0;
    tail_is = refl;
    head_is = refl;
    shown = refl;
    within = omega arith;
    small = omega arith;
    chain = refl;
    full = (refl, tt);
    stored = λ i x e. absurd (cc);
  }

  -- The chain that a push writes to: as before, or with a new node.
  abbrev chain_of : LineQueue A → List (List (Option A))
  chain_of q = if q.head % 32 == 0 then q.blocks ++ new_block ∷ [] else q.blocks

  -- The place in its block of the element that is pushed next.
  head_place :
      (q : LineQueue A) (xs : List A) (k : ℕ) (r : Rep q xs k)
      → q.head % 32 ≡ (r.base + length xs) % 32
  head_place q xs k r = omega (arith, r.head_is)

  chain_of-length :
      (q : LineQueue A) (xs : List A) (k : ℕ)
      → (r : Rep q xs k)
      → length (chain_of q) + (r.base + 31) / 32 ≡ suc ((r.base + length xs + 1 + 31) / 32)
  chain_of-length q xs k r = elim (Bool-cases (q.head % 32 == 0)) [
    | inl new ↦
        rw new
          (ground (arith, length-append q.blocks (new_block ∷ []), r.chain, head_place q xs k r))
    | inr old ↦ rw old (ground (arith, r.chain, head_place q xs k r))
  ]

  chain_of-IsFull : (q : LineQueue A) (xs : List A) (k : ℕ) → Rep q xs k → IsFull (chain_of q)
  unfolding new_block
  chain_of-IsFull q xs k r = elim (Bool-cases (q.head % 32 == 0)) [
    | inl new ↦ rw new (All-append _ q.blocks (new_block ∷ []) r.full (refl, tt))
    | inr old ↦ rw old r.full
  ]

  chain_of-stored :
      (q : LineQueue A) (xs : List A) (k i : ℕ) (x : A)
      → (r : Rep q xs k) → get_elem? xs i ≡ some x
      → slot (chain_of q) (block_of r.base (r.base + i)) ((r.base + i) % 32) ≡ some x
  chain_of-stored q xs k i x r e = elim (Bool-cases (q.head % 32 == 0)) [
    | inl new ↦ rw new (
        slot-append q.blocks new_block _ _ (omega (arith, r.chain, get_elem?-lt xs i x e))
        ∙ r.stored i x e)
    | inr old ↦ rw old (r.stored i x e)
  ]

  -- What a push leaves in the slots: the old elements and the new one behind them.
  push-stored :
      (q : LineQueue A) (xs : List A) (k : ℕ) (v : A) (i : ℕ) (x : A)
      → (r : Rep q xs k) → get_elem? (xs ++ v ∷ []) i ≡ some x
      → slot
          (write_last (chain_of q) ((r.base + length xs) % 32) v)
          (block_of r.base (r.base + i))
          ((r.base + i) % 32)
        ≡ some x
  push-stored q xs k v i x r e = elim (get_elem?-last xs v i x e) [
    | inl old ↦
        slot-write_last_ne (chain_of q) _ _ ((r.base + length xs) % 32) v (
          other_slot _ r.base (r.base + i) (r.base + length xs) (chain_of-length q xs k r)
            (omega arith) (omega (arith, get_elem?-lt xs i x old)))
        ∙ chain_of-stored q xs k i x r old
    | inr (at_end, same) ↦
        let h = r.base + length xs in
        let e : r.base + i ≡ h = omega arith in
        ap (λ (p : ℕ). slot (write_last (chain_of q) (h % 32) v) (block_of r.base p) (p % 32)) e
        ∙ slot-write_last_self (chain_of q) (block_of r.base h) (h % 32) v
            (chain_of-IsFull q xs k r) (omega (arith, chain_of-length q xs k r)) (omega arith)
        ∙ ap some same
  ]

  -- Push to a line of fewer than 2 ^ 64 - 1 elements adds its element behind the others, also where the
  -- counter wraps; it is submitted if asked for, or if it opens a block, and then everything before it is too.
  pub push-Rep :
      (q : LineQueue A) (xs : List A) (k : ℕ) (v : A) (now : Bool)
      → Rep q xs k
      → length xs + 1 < 2 ^ 64
      → Rep
          (push q v now)
          (xs ++ v ∷ [])
          (if q.head % ele_size == 0 || now then suc (length xs) else k)
  unfolding push
  push-Rep q xs k v now r h = record {
    base = r.base;
    tail_is = r.tail_is;
    head_is = ground (arith, length-append xs (v ∷ []), r.head_is);
    shown = ground (arith, r.head_is, r.shown);
    within = ground (arith, length-append xs (v ∷ []), r.within);
    small = ground (arith, length-append xs (v ∷ []));
    chain = ground (
      arith,
      length-write_last (chain_of q) (q.head % 32) v,
      chain_of-length q xs k r,
      length-append xs (v ∷ []),
    );
    full = write_last-IsFull (chain_of q) (q.head % 32) v (chain_of-IsFull q xs k r);
    stored = λ i x e.
        ap
          (λ (j : ℕ).
            slot (write_last (chain_of q) j v) (block_of r.base (r.base + i)) ((r.base + i) % 32))
          (head_place q xs k r)
        ∙ push-stored q xs k v i x r e;
  }

  -- Submit shows the consumer all the elements.
  pub submit-Rep :
      (q : LineQueue A) (xs : List A) (k : ℕ) → Rep q xs k → Rep (submit q) xs (length xs)
  unfolding submit
  submit-Rep q xs k r = elim (Bool-cases (q.head == q.submitted)) [
    | inl none_new ↦ rw none_new (record {
      base = r.base;
      tail_is = r.tail_is;
      head_is = r.head_is;
      shown = ground (arith, r.head_is);
      within = omega arith;
      small = r.small;
      chain = r.chain;
      full = r.full;
      stored = r.stored;
    })
    | inr some_new ↦ rw some_new (record {
      base = r.base;
      tail_is = r.tail_is;
      head_is = r.head_is;
      shown = r.head_is;
      within = omega arith;
      small = r.small;
      chain = r.chain;
      full = r.full;
      stored = r.stored;
    })
  ]

  -- The consumer's chain after it has gone on to the node that holds position t.
  record Advance (bs : List (List (Option A))) (t h : ℕ) : Type 0 where
    after : List (List (Option A))
    goes : next_node (t % 32) bs ≡ some after
    full_after : IsFull after
    chain_after : length after + (t + 1 + 31) / 32 ≡ suc ((h + 31) / 32)
    slots_after :
        (p : ℕ) → t ≤ p → slot after (block_of (t + 1) p) (p % 32) ≡ slot bs (block_of t p) (p % 32)
    read_after : read_slot after (t % 32) ≡ slot bs (block_of t t) (t % 32)

  advance :
      (bs : List (List (Option A))) (t h : ℕ)
      → length bs + (t + 31) / 32 ≡ suc ((h + 31) / 32)
      → t < h
      → IsFull bs
      → Advance bs t h
  unfolding next_node
  advance [] t h e l f = absurd (omega arith)
  advance (b ∷ []) t h e l f = record {
    after = b ∷ [];
    goes = ground arith;
    full_after = f;
    chain_after = omega arith;
    slots_after = λ p q. ap (λ (i : ℕ). slot (b ∷ []) i (p % 32)) (omega arith);
    read_after = ap (λ (i : ℕ). slot (b ∷ []) i (t % 32)) (stays);
  }
    where
      stays : 0 ≡ block_of t t
      stays = omega arith
  advance (b ∷ c ∷ bs) t h e l f = elim (ℕ_discrete (t % 32) 0) [
    | yes full_node ↦ record {
      after = c ∷ bs;
      goes = ground arith;
      full_after = f.1;
      chain_after = omega arith;
      slots_after = λ p q.
          let i : suc (block_of (t + 1) p) ≡ block_of t p = omega arith in
          ap (λ (i : ℕ). slot (b ∷ c ∷ bs) i (p % 32)) i;
      read_after =
          let i : suc 0 ≡ block_of t t = omega arith in
          ap (λ (i : ℕ). slot (b ∷ c ∷ bs) i (t % 32)) i;
    }
    | no more ↦ record {
      after = b ∷ c ∷ bs;
      goes = ground arith;
      full_after = f;
      chain_after = omega arith;
      slots_after = λ p q. ap (λ (i : ℕ). slot (b ∷ c ∷ bs) i (p % 32)) (omega arith);
      read_after =
          let i : 0 ≡ block_of t t = omega arith in ap (λ (i : ℕ). slot (b ∷ c ∷ bs) i (t % 32)) i;
    }
  ]

  -- One round of Pop takes the oldest element.
  pop_one-Rep :
      (q : LineQueue A) (x : A) (xs lst : List A) (k : ℕ)
      → Rep q (x ∷ xs) (suc k)
      → (q' : LineQueue A) × (pop_one q lst ≡ some (q', lst ++ x ∷ []))
        × Rep q' xs k
        × (q'.submitted ≡ q.submitted)
        × (q'.tail ≡ (q.tail + 1) % 2 ^ 64)
  unfolding pop_one
  pop_one-Rep q x xs lst k r = (
    record q { blocks = a.after; tail = (q.tail + 1) % 2 ^ 64 },
    rw (goes, pop_one) (rw (reads, pop_one) refl),
    record {
      base = r.base + 1;
      tail_is = omega (arith, r.tail_is);
      head_is = omega (arith, r.head_is);
      shown = omega (arith, r.shown);
      within = omega (arith, r.within);
      small = omega (arith, r.small);
      chain = a.chain_after ∙ ap (λ (h : ℕ). suc ((h + 31) / 32)) (omega arith);
      full = a.full_after;
      stored = λ i y e.
          ap (λ (p : ℕ). slot a.after (block_of (r.base + 1) p) (p % 32)) (omega arith)
          ∙ a.slots_after (r.base + suc i) (omega arith)
          ∙ r.stored (suc i) y e;
    },
    refl,
    refl,
  )
    where
      a : Advance q.blocks r.base (r.base + length (x ∷ xs))
      a = advance q.blocks r.base (r.base + length (x ∷ xs)) r.chain (omega arith) r.full

      place : q.tail % 32 ≡ r.base % 32
      place = omega (arith, r.tail_is)

      goes : next_node (q.tail % 32) q.blocks ≡ some a.after
      goes = ap (λ (i : ℕ). next_node i q.blocks) place ∙ a.goes

      reads : read_slot a.after (q.tail % 32) ≡ some x
      reads =
          ap (λ (i : ℕ). read_slot a.after i) place
          ∙ a.read_after
          ∙ ap (λ (p : ℕ). slot q.blocks (block_of r.base p) (p % 32)) (omega arith)
          ∙ r.stored 0 x refl

  pop_rounds-Rep :
      (n m : ℕ) (q : LineQueue A) (xs lst : List A)
      → Rep q xs (n + m)
      → (q' : LineQueue A) × (pop_rounds n q lst ≡ some (q', lst ++ take n xs))
        × Rep q' (drop n xs) m
        × (q'.submitted ≡ q.submitted)
        × (q'.tail ≡ (q.tail + n) % 2 ^ 64)
  unfolding pop_rounds
  pop_rounds-Rep zero m q xs lst r =
      (q, rw (append-nil lst), subst (Rep q xs) (omega arith) r, refl, omega (arith, r.tail_is))
  pop_rounds-Rep (suc n) m q [] lst r = absurd (omega (arith, r.within))
  pop_rounds-Rep (suc n) m q (x ∷ xs) lst r =
      let (q1, e1, r1, s1, t1) =
        pop_one-Rep q x xs lst (n + m) (subst (Rep q (x ∷ xs)) (omega arith) r) in
      let (q2, e2, r2, s2, t2) = pop_rounds-Rep n m q1 xs (lst ++ x ∷ []) r1 in
      (
        q2,
        rw (e1, pop_rounds) (e2 ∙ ap (λ l. some (q2, l)) (append_assoc lst (x ∷ []) (take n xs))),
        r2,
        s2 ∙ s1,
        omega (arith, t1, t2),
      )

  -- The rounds of the first loop, which takes the counters past the wrap.
  abbrev to_wrap : LineQueue A → ℕ
  to_wrap q = if ltb q.submitted q.tail then 2 ^ 64 - q.tail else 0

  -- The two loops take all that is submitted.
  pop-rounds :
      (q : LineQueue A) (xs lst : List A) (k : ℕ)
      → (r : Rep q xs k)
      → (m : ℕ) × (k ≡ to_wrap q + m)
        × ((s t : ℕ) → s ≡ q.submitted → t ≡ (q.tail + to_wrap q) % 2 ^ 64 → s - t ≡ m)
  pop-rounds q xs lst k r = elim (Bool-cases (ltb q.submitted q.tail)) [
    | inl past ↦ (
      q.submitted,
      rw past (ground (arith, r.tail_is, r.shown, r.within, r.small)),
      λ s t e f. ground (arith, r.tail_is),
    )
    | inr not_past ↦ (
      q.submitted - q.tail,
      rw not_past (ground (arith, r.tail_is, r.shown, r.within, r.small)),
      λ s t e f. ground (arith, r.tail_is),
    )
  ]

  -- Pop of a line with fewer than 2 ^ 64 elements in it never fails, also where the counters have
  -- wrapped between the oldest element and the submitted ones: it hands over exactly the submitted elements,
  -- oldest first, behind what the list held, and keeps the others.
  pub pop-Rep :
      (q : LineQueue A) (xs lst : List A) (k : ℕ)
      → Rep q xs k
      → (q' : LineQueue A) × (pop q lst ≡ some (q', lst ++ take k xs)) × Rep q' (drop k xs) 0
  unfolding pop
  pop-Rep q xs lst k r =
      let (m, split, rest) = pop-rounds q xs lst k r in
      let n = to_wrap q in
      let (q1, e1, r1, s1, t1) = pop_rounds-Rep n m q xs lst (subst (Rep q xs) split r) in
      let (q2, e2, r2, _, _) =
        pop_rounds-Rep m 0 q1 (drop n xs) (lst ++ take n xs)
          (subst (Rep q1 (drop n xs)) (omega arith) r1) in
      (
        q2,
        rw (e1, pop)
            (ap (λ (i : ℕ). pop_rounds i q1 (lst ++ take n xs)) (rest q1.submitted q1.tail s1 t1)
              ∙ e2
              ∙ ap (λ l. some (q2, l))
                  (append_assoc lst (take n xs) (take m (drop n xs))
                    ∙ ap (λ l. lst ++ l)
                        (sym (take_add n m xs) ∙ ap (λ (i : ℕ). take i xs) (sym split)))),
        subst (λ ys. Rep q2 ys 0) (sym (drop_add n m xs) ∙ ap (λ (i : ℕ). drop i xs) (sym split))
            r2,
      )

  -- IsEmpty holds exactly of the line that holds nothing.
  pub is_empty-Rep :
      (q : LineQueue A) (xs : List A) (k : ℕ) → Rep q xs k → (is_empty q ≡ true) ↔ (xs ≡ [])
  unfolding is_empty
  is_empty-Rep q [] k r = ground (arith, r.tail_is, r.head_is, r.shown, r.within, r.small)
  is_empty-Rep q (x ∷ xs) k r = ground (arith, r.tail_is, r.head_is, r.shown, r.within, r.small)

  -- RoughSize is the number of submitted elements.
  pub rough_size-Rep : (q : LineQueue A) (xs : List A) (k : ℕ) → Rep q xs k → rough_size q ≡ k
  unfolding rough_size
  rough_size-Rep q xs k r = ground (arith, r.tail_is, r.shown, r.within, r.small)
