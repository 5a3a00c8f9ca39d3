-- ===== src/Value/Whole.antt =====
-- A value that is written by itself is read back.
use rapid_db.Common.{
  ℕ, ◌+◌, ◌^◌, ◌<◌, ◌≡◌, inl, inr, refl, sym, ap, ◌∙◌, List, ◌++◌, true, false, ◌&&◌, not, ◌==◌,
  if◌then◌else◌, bit_and, length, take, drop, arith, Bool-cases, length-append,
}
use rapid_db.Bytes.{to_le, from_le}
use rapid_db.Bytes.Words.{length-to_le, from_le-to_le, take-append, drop-append, from_le_one}
use rapid_db.Value.{DataType, DataValue, digit, chars, null_literal, is_null, code, IsTyped}
use rapid_db.Value.Stored.{is_fixchar, type_byte, value_byte, write_whole, read_whole, fresh}
use rapid_db.Value.Returned.{Fits, digital_from_bytes-to_bytes, length-digital_to_bytes}
use mathlib.Core.List.{append_assoc}

-- The top bit of the first byte tells a null.
value_bit : (dt : DataType) → (bit_and (value_byte dt) 0x80 == 0) ≡ false
unfolding code
value_bit DataType.char = refl
value_bit DataType.short = refl
value_bit DataType.int = refl
value_bit DataType.long = refl
value_bit DataType.byte = refl
value_bit DataType.ushort = refl
value_bit DataType.uint = refl
value_bit DataType.ulong = refl
value_bit DataType.fixchar = refl
value_bit DataType.varchar = refl
value_bit DataType.bool = refl
value_bit DataType.val_null = refl

type_bit : (dt : DataType) → (bit_and (type_byte dt) 0x80 == 0) ≡ true
unfolding code
type_bit DataType.char = refl
type_bit DataType.short = refl
type_bit DataType.int = refl
type_bit DataType.long = refl
type_bit DataType.byte = refl
type_bit DataType.ushort = refl
type_bit DataType.uint = refl
type_bit DataType.ulong = refl
type_bit DataType.fixchar = refl
type_bit DataType.varchar = refl
type_bit DataType.bool = refl
type_bit DataType.val_null = refl

-- The bytes of a string behind its length.
counted :
    (bys rest : List ℕ)
    → (to_le 4 (length bys) ++ bys) ++ rest ≡ to_le 4 (length bys) ++ (bys ++ rest)
counted bys rest = append_assoc (to_le 4 (length bys)) bys rest

count_back :
    (bys rest : List ℕ)
    → length bys < 2 ^ 31
    → from_le (take 4 (to_le 4 (length bys) ++ (bys ++ rest))) ≡ length bys
count_back bys rest h =
    ap from_le (take-append 4 (to_le 4 (length bys)) (bys ++ rest) (length-to_le 4 (length bys)))
    ∙ from_le-to_le 4 (length bys) (omega arith)

bytes_back :
    (bys rest : List ℕ) → take (length bys) (drop 4 (to_le 4 (length bys) ++ (bys ++ rest))) ≡ bys
bytes_back bys rest =
    ap (take (length bys))
      (drop-append 4 (to_le 4 (length bys)) (bys ++ rest) (length-to_le 4 (length bys)))
    ∙ take-append (length bys) bys rest refl

-- A value that WriteData writes by itself is read back by a value of its class, whatever follows, a null
-- as a null; reading returns the length that writing returned.
pub read_whole-write_whole :
    (dv : DataValue) (rest : List ℕ)
    → Fits dv
    → read_whole (fresh dv) ((write_whole dv).0 ++ rest)
      ≡ ((if is_null dv then fresh dv else dv), (write_whole dv).1)
unfolding Fits IsTyped read_whole write_whole
read_whole-write_whole (digit dt true v) rest ((d, h), b) =
    rw (from_le_one (type_byte dt), type_bit dt) refl
read_whole-write_whole (digit dt false v) rest ((d, h), b) =
    rw (from_le_one (value_byte dt), value_bit dt, digital_from_bytes-to_bytes dt v false rest h b)
      refl
read_whole-write_whole (chars dt true bys max) rest ((a, l, k, s), f) =
    rw (from_le_one (type_byte dt), type_bit dt) refl
read_whole-write_whole (chars dt false bys max) rest ((a, l, k, s), f) =
    elim (Bool-cases (is_fixchar dt)) [
      | inl x ↦
          rw
            (
              x,
              sym (f x),
              from_le_one (value_byte dt),
              value_bit dt,
              counted bys rest,
              count_back bys rest (omega arith),
              bytes_back bys rest,
            )
            refl
      | inr x ↦
          rw
            (
              x,
              from_le_one (value_byte dt),
              value_bit dt,
              counted bys rest,
              count_back bys rest (omega arith),
              bytes_back bys rest,
            )
            refl
    ]
read_whole-write_whole null_literal rest h = refl

-- The lengths that WriteData returns are those of the bytes it writes, except that of a FIXCHAR that is
-- not null, which is 4 less.
pub write_whole_short :
    (dv : DataValue)
    → Fits dv
    → length (write_whole dv).0
      ≡ (write_whole dv).1 + (elim dv [
        | digit dt null v ↦ 0
        | chars dt null bys max ↦ if is_fixchar dt && not null then 4 else 0
        | null_literal ↦ 0
      ])
unfolding Fits write_whole
write_whole_short (digit dt true v) h = refl
write_whole_short (digit dt false v) h = omega (arith, length-digital_to_bytes dt v false)
write_whole_short (chars dt true bys max) h = elim (Bool-cases (is_fixchar dt)) [
  | inl x ↦ rw x refl
  | inr x ↦ rw x refl
]
write_whole_short (chars dt false bys max) h = elim (Bool-cases (is_fixchar dt)) [
  | inl x ↦ rw x (omega (arith, h.1 x, length-append (to_le 4 max) bys, length-to_le 4 max))
  | inr x ↦
      rw x (omega (arith, length-append (to_le 4 (length bys)) bys, length-to_le 4 (length bys)))
]
write_whole_short null_literal h = refl
