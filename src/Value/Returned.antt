-- ===== src/Value/Returned.antt =====
-- A value that is written is read back.
use rapid_db.Common.{
  ℕ, suc, ◌^◌, ◌<◌, ◌≤◌, ◌≡◌, inl, inr, refl, sym, ap, subst, List, [], ◌∷◌, ◌++◌, Option, some,
  Bool, true, false, leb, ◌==◌, if◌then◌else◌, length, arith, Bool-cases, ==_iff,
}
use rapid_db.Bytes.{int_to_bytes, int_from_bytes}
use rapid_db.Bytes.Words.{take-append, from_le_one, length-int_to_bytes, length-uint_to_bytes}
use rapid_db.Value.Order.{code_injective}
use rapid_db.Bytes.Keys.{int_from_bytes-to_bytes, uint_from_bytes-to_bytes}
use rapid_db.Value.{
  DataType, DataValue, digit, chars, null_literal, is_null, code, width, is_signed, IsTyped,
}
use rapid_db.Value.Stored.{
  SavePosition, digital_to_bytes, digital_from_bytes, is_fixchar, write_data, read_data, fresh,
}

-- What a column holds besides: a BOOL is 0 or 1, and a FIXCHAR has its maximal length.
unfoldable pub Fits : DataValue → Type 0
unfolding IsTyped
Fits (digit dt null v) = IsTyped (digit dt null v) × (code dt ≡ code DataType.bool → v < 2)
Fits (chars dt null bys max) =
    IsTyped (chars dt null bys max) × (is_fixchar dt ≡ true → length bys ≡ max)
Fits null_literal = Unit

pub width_positive : (dt : DataType) → (n : ℕ) × (width dt ≡ suc n)
unfolding width
width_positive DataType.char = (0, refl)
width_positive DataType.short = (1, refl)
width_positive DataType.int = (3, refl)
width_positive DataType.long = (7, refl)
width_positive DataType.byte = (0, refl)
width_positive DataType.ushort = (1, refl)
width_positive DataType.uint = (3, refl)
width_positive DataType.ulong = (7, refl)
width_positive DataType.fixchar = (0, refl)
width_positive DataType.varchar = (0, refl)
width_positive DataType.bool = (0, refl)
width_positive DataType.val_null = (0, refl)

int_round :
    (w v : ℕ) (bkey : Bool) (rest : List ℕ)
    → (n : ℕ) × (w ≡ suc n)
    → v < 256 ^ w
    → int_from_bytes w (int_to_bytes w v bkey ++ rest) bkey ≡ v
int_round w v bkey rest (n, e) h =
    subst (λ m. v < 256 ^ m → int_from_bytes m (int_to_bytes m v bkey ++ rest) bkey ≡ v) (sym e)
      (int_from_bytes-to_bytes n v bkey rest) h

-- A digit's bytes, as a key or as a value, are read back to the same digit.
pub digital_from_bytes-to_bytes :
    (dt : DataType) (v : ℕ) (bkey : Bool) (rest : List ℕ)
    → v < 256 ^ width dt
    → (code dt ≡ code DataType.bool → v < 2)
    → digital_from_bytes dt (digital_to_bytes dt v bkey ++ rest) bkey ≡ v
unfolding digital_from_bytes digital_to_bytes
digital_from_bytes-to_bytes dt v bkey rest h b = elim (Bool-cases (code dt == code DataType.bool)) [
  | inl e ↦
      rw (e, take-append 1 (v ∷ []) rest refl, from_le_one v)
        (as_bool v (b ((==_iff (code dt) (code DataType.bool)).0 e)))
  | inr e ↦ rw e (elim (Bool-cases (is_signed dt)) [
    | inl s ↦ rw s (int_round (width dt) v bkey rest (width_positive dt) h)
    | inr s ↦ rw s (uint_from_bytes-to_bytes (width dt) v bkey rest h)
  ])
]
  where
    as_bool : (w : ℕ) → w < 2 → (if w == 0 then 0 else 1) ≡ w
    as_bool w l = ground arith

module _ (dv : DataValue) (rest : List ℕ) where
  -- What reading at a position gives after what was written there.
  abbrev pub reread : SavePosition → Option (DataValue × ℕ)
  reread p = read_data (fresh dv) (write_data dv p ++ rest) (length (write_data dv p)) p

pub length-digital_to_bytes :
    (dt : DataType) (v : ℕ) (bkey : Bool) → length (digital_to_bytes dt v bkey) ≡ width dt
unfolding digital_to_bytes width
length-digital_to_bytes dt v bkey = elim (Bool-cases (code dt == code DataType.bool)) [
  | inl e ↦ rw e (
      sym
        (ap width (code_injective dt DataType.bool ((==_iff (code dt) (code DataType.bool)).0 e))))
  | inr e ↦ rw e (elim (Bool-cases (is_signed dt)) [
    | inl s ↦ rw s (length-int_to_bytes (width dt) v bkey)
    | inr s ↦ rw s (length-uint_to_bytes (width dt) v bkey)
  ])
]

positive : (n : ℕ) → 0 < n → (n == 0) ≡ false
positive n p = ground arith

same_length : (n : ℕ) → (n == n) ≡ true
same_length n = ground arith

le→leb : (m n : ℕ) → m ≤ n → leb m n ≡ true
le→leb m n l = ground arith

-- As part of a record's value, a value that is not null and not an empty string is read back, with
-- the length that was written; a null is read back as a null.
pub read_data-write_data :
    (dv : DataValue) (rest : List ℕ)
    → Fits dv
    → ((is_null dv ≡ false)
        → 0 < length (write_data dv SavePosition.value)
        → reread dv rest SavePosition.value ≡ some (dv, length (write_data dv SavePosition.value)))
      × ((is_null dv ≡ true) → reread dv rest SavePosition.value ≡ some (fresh dv, 0))
unfolding Fits IsTyped read_data write_data
read_data-write_data (digit dt true v) rest ((d, h), b) = ((λ e p. cc), λ e. refl)
read_data-write_data (digit dt false v) rest ((d, h), b) = (
  (λ e p.
      rw
        (
          positive (length (digital_to_bytes dt v false)) p,
          digital_from_bytes-to_bytes dt v false rest h b,
          length-digital_to_bytes dt v false,
        )
        refl),
  λ e. cc,
)
read_data-write_data (chars dt true bys max) rest ((a, l, k, s), f) = ((λ e p. cc), λ e. refl)
read_data-write_data (chars dt false bys max) rest ((a, l, k, s), f) = (
  (λ e p. rw (positive (length bys) p) (elim (Bool-cases (is_fixchar dt)) [
    | inl x ↦
        rw (x, sym (f x), take-append (length bys) bys rest refl, same_length (length bys)) refl
    | inr x ↦ rw (x, le→leb (length bys) max l, take-append (length bys) bys rest refl) refl
  ])),
  λ e. cc,
)
read_data-write_data null_literal rest h = ((λ e p. cc), λ e. refl)
