-- ===== src/Layout/Lengths.antt =====
-- The bytes of a record's key, and the lengths of what is written.
use rapid_db.Common.{
  ℕ, zero, suc, ◌+◌, ◌≤◌, ◌≡◌, refl, sym, ap, ◌∙◌, inl, inr, List, [], ◌∷◌, ◌++◌, true, false,
  length, length-append, replicate, All, arith, Bool-cases,
}
use rapid_db.Value.{DataValue, digit, chars, null_literal, IsTyped}
use rapid_db.Value.Stored.{SavePosition, write_data, is_fixchar}
use rapid_db.Value.Returned.{Fits, length-digital_to_bytes}
use rapid_db.Layout.{store, fill_key_buff}
use rapid_db.Layout.Fields.{get_persistence_length, sum_lengths}
use rapid_db.Layout.Stores.{store-store, store_nil, length-store}
use rapid_db.Layout.Filled.{all_values}

-- The bytes of the values of a key.
abbrev pub key_bytes : List DataValue → List ℕ
key_bytes [] = []
key_bytes (dv ∷ dvs) = write_data dv SavePosition.key ++ key_bytes dvs

-- FillKeyBuff stores the key's bytes.
pub fill_key_buff-store :
    (dvs : List DataValue) (bys : ℕ) (buf : List ℕ)
    → bys + length (key_bytes dvs) ≤ length buf
    → fill_key_buff bys dvs buf ≡ store bys (key_bytes dvs) buf
unfolding fill_key_buff
fill_key_buff-store [] bys buf h = sym (store_nil buf bys)
fill_key_buff-store (dv ∷ dvs) bys buf h =
    let bs = write_data dv SavePosition.key in
    let l : length (bs ++ key_bytes dvs) ≡ length bs + length (key_bytes dvs) =
      length-append bs (key_bytes dvs) in
    fill_key_buff-store dvs (bys + length bs) (store bys bs buf)
      (omega (arith, l, length-store buf bs bys (omega (arith, l))))
    ∙ store-store buf bs (key_bytes dvs) bys (omega (arith, l))

pub length-replicate : (n a : ℕ) → length (replicate {A = ℕ} n a) ≡ n
length-replicate zero a = refl
length-replicate (suc n) a = ap suc (length-replicate n a)

-- GetPersistenceLength is the length of what WriteData writes.
pub length-write_data :
    (dv : DataValue) (p : SavePosition)
    → Fits dv
    → length (write_data dv p) ≡ get_persistence_length dv p
unfolding write_data get_persistence_length Fits IsTyped
length-write_data (digit dt true v) SavePosition.key f = length-digital_to_bytes dt 0 true
length-write_data (digit dt false v) SavePosition.key f = length-digital_to_bytes dt v true
length-write_data (digit dt true v) SavePosition.value f = refl
length-write_data (digit dt false v) SavePosition.value f = length-digital_to_bytes dt v false
length-write_data (chars dt null bys max) SavePosition.key (((a, l, m, b), c)) =
    elim (Bool-cases (is_fixchar dt)) [
      | inl x ↦ rw x (ground (arith, c x, length-replicate max 32))
      | inr x ↦ rw x (ground (arith, length-append bys (0 ∷ [])))
    ]
length-write_data (chars dt null bys max) SavePosition.value (((a, l, m, b), c)) =
    elim (Bool-cases (is_fixchar dt)) [
      | inl x ↦ rw x (ground (arith, c x))
      | inr x ↦ rw x (ground arith)
    ]
length-write_data null_literal p f = refl

pub length-key_bytes :
    (dvs : List DataValue)
    → All Fits dvs
    → length (key_bytes dvs) ≡ sum_lengths dvs SavePosition.key
length-key_bytes [] f = refl
length-key_bytes (dv ∷ dvs) (f, fs) = omega (
  arith,
  length-append (write_data dv SavePosition.key) (key_bytes dvs),
  length-write_data dv SavePosition.key f,
  length-key_bytes dvs fs,
)

pub length-all_values :
    (dvs : List DataValue)
    → All Fits dvs
    → length (all_values dvs) ≡ sum_lengths dvs SavePosition.value
length-all_values [] f = refl
length-all_values (dv ∷ dvs) (f, fs) = omega (
  arith,
  length-append (write_data dv SavePosition.value) (all_values dvs),
  length-write_data dv SavePosition.value f,
  length-all_values dvs fs,
)
