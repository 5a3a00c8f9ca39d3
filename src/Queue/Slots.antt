-- ===== src/Queue/Slots.antt =====
-- The slots of a chain of blocks, and what a write to the last block changes.
use rapid_db.Common.{
  ℕ, zero, suc, ◌<◌, ◌≡◌, ◌≢◌, refl, ap, List, [], ◌∷◌, ◌++◌, Option, none, some, length, get_elem?,
  set, arith, All,
}
use rapid_db.Queue.{write_last, ele_size, read_slot}

module _ {A : Type 0} where
  -- Every block has its full size.
  abbrev pub IsFull : List (List (Option A)) → Type 0
  IsFull = All (λ b. length b ≡ ele_size)

  -- The element in slot j of block i.
  abbrev pub slot : List (List (Option A)) → ℕ → ℕ → Option A
  slot [] i j = none
  slot (b ∷ bs) zero j = read_slot (b ∷ bs) j
  slot (b ∷ bs) (suc i) j = slot bs i j

  pub length-set : (b : List (Option A)) (i : ℕ) (v : Option A) → length (set b i v) ≡ length b
  length-set [] i v = refl
  length-set (x ∷ b) zero v = refl
  length-set (x ∷ b) (suc i) v = ap suc (length-set b i v)

  get_elem?-set_self :
      (b : List (Option A)) (i : ℕ) (v : Option A) → i < length b → get_elem? (set b i v) i ≡ some v
  get_elem?-set_self [] i v h = absurd (omega arith)
  get_elem?-set_self (x ∷ b) zero v h = refl
  get_elem?-set_self (x ∷ b) (suc i) v h = get_elem?-set_self b i v (omega arith)

  get_elem?-set_ne :
      (b : List (Option A)) (i j : ℕ) (v : Option A)
      → i ≢ j
      → get_elem? (set b i v) j ≡ get_elem? b j
  get_elem?-set_ne [] i j v ne = refl
  get_elem?-set_ne (x ∷ b) zero zero v ne = absurd (ne refl)
  get_elem?-set_ne (x ∷ b) zero (suc j) v ne = refl
  get_elem?-set_ne (x ∷ b) (suc i) zero v ne = refl
  get_elem?-set_ne (x ∷ b) (suc i) (suc j) v ne = get_elem?-set_ne b i j v (λ e. ne (ap suc e))

  pub length-write_last :
      (bs : List (List (Option A))) (pos : ℕ) (v : A) → length (write_last bs pos v) ≡ length bs
  unfolding write_last
  length-write_last [] pos v = refl
  length-write_last (b ∷ []) pos v = refl
  length-write_last (b ∷ c ∷ bs) pos v = ap suc (length-write_last (c ∷ bs) pos v)

  pub write_last-IsFull :
      (bs : List (List (Option A))) (pos : ℕ) (v : A) → IsFull bs → IsFull (write_last bs pos v)
  unfolding write_last
  write_last-IsFull [] pos v h = tt
  write_last-IsFull (b ∷ []) pos v h = (omega (arith, length-set b pos (some v)), tt)
  write_last-IsFull (b ∷ c ∷ bs) pos v h = (h.0, write_last-IsFull (c ∷ bs) pos v h.1)

  pub slot-write_last_self :
      (bs : List (List (Option A))) (i pos : ℕ) (v : A)
      → IsFull bs
      → suc i ≡ length bs
      → pos < ele_size
      → slot (write_last bs pos v) i pos ≡ some v
  unfolding write_last read_slot
  slot-write_last_self [] i pos v h e l = absurd (omega arith)
  slot-write_last_self (b ∷ []) zero pos v h e l = ground (arith, get_elem?-set_self b pos (some v))
  slot-write_last_self (b ∷ []) (suc i) pos v h e l = absurd (omega arith)
  slot-write_last_self (b ∷ c ∷ bs) zero pos v h e l = absurd (omega arith)
  slot-write_last_self (b ∷ c ∷ bs) (suc i) pos v h e l =
      slot-write_last_self (c ∷ bs) i pos v h.1 (omega arith) l

  -- Another slot of the last block, or any slot of an earlier one.
  pub slot-write_last_ne :
      (bs : List (List (Option A))) (i j pos : ℕ) (v : A)
      → (suc i ≡ length bs → pos ≢ j)
      → slot (write_last bs pos v) i j ≡ slot bs i j
  unfolding write_last read_slot
  slot-write_last_ne [] i j pos v h = refl
  slot-write_last_ne (b ∷ []) zero j pos v h =
      ground (arith, get_elem?-set_ne b pos j (some v) (h refl))
  slot-write_last_ne (b ∷ []) (suc i) j pos v h = refl
  slot-write_last_ne (b ∷ c ∷ bs) zero j pos v h = refl
  slot-write_last_ne (b ∷ c ∷ bs) (suc i) j pos v h =
      slot-write_last_ne (c ∷ bs) i j pos v (λ e. h (ap suc e))

  -- A new node leaves the slots of the others alone.
  pub slot-append :
      (bs : List (List (Option A))) (c : List (Option A)) (i j : ℕ)
      → i < length bs
      → slot (bs ++ c ∷ []) i j ≡ slot bs i j
  unfolding read_slot
  slot-append [] c i j h = absurd (omega arith)
  slot-append (b ∷ bs) c zero j h = refl
  slot-append (b ∷ bs) c (suc i) j h = slot-append bs c i j (omega arith)
