-- ===== src/Layout/Bitmap.antt =====
-- The bitmap that FillValueBuff writes tells which fields are null.
use rapid_db.Common.{
  ℕ, zero, suc, ◌+◌, ◌*◌, ◌/◌, ◌%◌, ◌^◌, ◌≤◌, ◌<◌, ◌≡◌, ◌≢◌, refl, ap, ◌∙◌, inl, inr, List, [], ◌∷◌,
  Bool, true, false, bit_or, length, replicate, arith, Bool-cases, ℕ_discrete,
}
use rapid_db.Common.BitTests.{has_bit, has_bit-bit_or, has_bit-other}
use rapid_db.Common.Bits.{zero-bit_and}
use rapid_db.Bytes.Words.{from_le_one, from_le_nil}
use rapid_db.Value.{DataValue, is_null}
use rapid_db.Layout.{store, word}
use rapid_db.Layout.Fields.{set_null}
use rapid_db.Layout.Stores.{store-cons}
use rapid_db.Layout.Filled.{mark, mark_nulls, length-mark}

-- Bit `j` of a bitmap.
unfoldable pub bit : ℕ → List ℕ → Bool
unfolding word
bit j bits = has_bit (word (j / 8) 1 bits) (j % 8)

front : (x : ℕ) (a : List ℕ) → word 0 1 (x ∷ a) ≡ x
unfolding word
front x a = from_le_one x

behind : (k x : ℕ) (a : List ℕ) → word (suc k) 1 (x ∷ a) ≡ word k 1 a
unfolding word
behind k x a = refl

front-store : (x b : ℕ) (a : List ℕ) → store 0 (b ∷ []) (x ∷ a) ≡ b ∷ a
unfolding store
front-store x b a = refl

-- The byte at an offset after a store of one byte.
word-store_same : (k b : ℕ) (a : List ℕ) → k < length a → word k 1 (store k (b ∷ []) a) ≡ b
word-store_same k b [] h = absurd (omega arith)
word-store_same zero b (x ∷ a) h = rw (front-store x b a) (front b a)
word-store_same (suc k) b (x ∷ a) h =
    rw (store-cons k x (b ∷ []) a, behind k x (store k (b ∷ []) a))
      (word-store_same k b a (omega arith))

word-store_other :
    (j k b : ℕ) (a : List ℕ) → j ≢ k → k < length a → word j 1 (store k (b ∷ []) a) ≡ word j 1 a
word-store_other j k b [] n h = absurd (omega arith)
word-store_other zero zero b a n h = absurd (n refl)
word-store_other (suc j) zero b (x ∷ a) n h =
    rw (front-store x b a, behind j b a, behind j x a) refl
word-store_other zero (suc k) b (x ∷ a) n h =
    rw (store-cons k x (b ∷ []) a, front x (store k (b ∷ []) a), front x a) refl
word-store_other (suc j) (suc k) b (x ∷ a) n h =
    rw (store-cons k x (b ∷ []) a, behind j x (store k (b ∷ []) a), behind j x a)
      (word-store_other j k b a (λ e. n (ap suc e)) (omega arith))

module _ (i : ℕ) (bits : List ℕ) (h : i < 8 * length bits) where
  set_null-store :
      set_null 0 i bits ≡ store (i / 8) (bit_or (word (i / 8) 1 bits) (2 ^ (i % 8)) ∷ []) bits
  unfolding set_null
  set_null-store =
      ap (λ (q : ℕ). store q (bit_or (word q 1 bits) (2 ^ (i % 8)) ∷ []) bits) (omega arith)

  bit-set_null : bit i (set_null 0 i bits) ≡ true
  unfolding bit
  bit-set_null =
      let b = bit_or (word (i / 8) 1 bits) (2 ^ (i % 8)) in
      rw (set_null-store, word-store_same (i / 8) b bits (omega arith))
        (has_bit-bit_or (i % 8) (word (i / 8) 1 bits))

  bit-other : (j : ℕ) → j ≢ i → bit j (set_null 0 i bits) ≡ bit j bits
  unfolding bit
  bit-other j n =
      let b = bit_or (word (i / 8) 1 bits) (2 ^ (i % 8)) in
      rw set_null-store (elim (ℕ_discrete (j / 8) (i / 8)) [
        | yes e ↦
            rw (e, word-store_same (i / 8) b bits (omega arith))
              (has_bit-other (i % 8) (j % 8) (word (i / 8) 1 bits) (λ d. n (omega (arith, d, e))))
        | no d ↦ rw (word-store_other (j / 8) (i / 8) b bits d (omega arith)) refl
      ])

bit-mark :
    (dv : DataValue) (i j : ℕ) (bits : List ℕ)
    → i < 8 * length bits
    → j ≢ i
    → bit j (mark dv i bits) ≡ bit j bits
unfolding mark
bit-mark dv i j bits h n = elim (Bool-cases (is_null dv)) [
  | inl e ↦ rw e (bit-other i bits h j n)
  | inr e ↦ rw e refl
]

bit-mark_self :
    (dv : DataValue) (i : ℕ) (bits : List ℕ)
    → i < 8 * length bits
    → bit i bits ≡ false
    → bit i (mark dv i bits) ≡ is_null dv
unfolding mark
bit-mark_self dv i bits h z = elim (Bool-cases (is_null dv)) [
  | inl e ↦ rw e (bit-set_null i bits h)
  | inr e ↦ rw e z
]

-- Fields from `i` on leave the bits below `i`.
bit-mark_nulls :
    (dvs : List DataValue) (i j : ℕ) (bits : List ℕ)
    → i + length dvs ≤ 8 * length bits
    → j < i
    → bit j (mark_nulls dvs i bits) ≡ bit j bits
unfolding mark_nulls
bit-mark_nulls [] i j bits h l = refl
bit-mark_nulls (dv ∷ dvs) i j bits h l =
    bit-mark_nulls dvs (suc i) j (mark dv i bits)
      (omega (arith, length-mark dv i bits (omega arith))) (omega arith)
    ∙ bit-mark dv i j bits (omega arith) (λ e. absurd (omega arith))

-- The bits from `i` on say of each field whether it is null.
unfoldable pub Marks : List DataValue → ℕ → List ℕ → Type 0
unfolding bit
Marks [] i bits = Unit
Marks (dv ∷ dvs) i bits = (bit i bits ≡ is_null dv) × Marks dvs (suc i) bits

pub mark_nulls-Marks :
    (dvs : List DataValue) (i : ℕ) (bits : List ℕ)
    → i + length dvs ≤ 8 * length bits
    → ((j : ℕ) → i ≤ j → bit j bits ≡ false)
    → Marks dvs i (mark_nulls dvs i bits)
unfolding mark_nulls Marks
mark_nulls-Marks [] i bits h z = tt
mark_nulls-Marks (dv ∷ dvs) i bits h z =
    let room : suc i + length dvs ≤ 8 * length (mark dv i bits) =
      omega (arith, length-mark dv i bits (omega arith)) in
    (
      bit-mark_nulls dvs (suc i) i (mark dv i bits) room (omega arith)
          ∙ bit-mark_self dv i bits (omega arith) (z i (omega arith)),
      mark_nulls-Marks dvs (suc i) (mark dv i bits) room (λ j l.
          bit-mark dv i j bits (omega arith) (λ e. absurd (omega arith)) ∙ z j (omega arith)),
    )

nothing : (k : ℕ) → word k 1 [] ≡ 0
unfolding word
nothing zero = from_le_nil
nothing (suc k) = from_le_nil

-- A cleared bitmap.
cleared : (n k : ℕ) → word k 1 (replicate n 0) ≡ 0
cleared zero k = nothing k
cleared (suc n) zero = front 0 (replicate n 0)
cleared (suc n) (suc k) = behind k 0 (replicate n 0) ∙ cleared n k

pub bit-replicate : (n j : ℕ) → bit j (replicate n 0) ≡ false
unfolding bit
bit-replicate n j = rw (cleared n (j / 8)) (ground (arith, zero-bit_and (2 ^ (j % 8))))
