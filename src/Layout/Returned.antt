-- ===== src/Layout/Returned.antt =====
-- The fields that FillValueBuff writes are the ones that ReadListValue reads.
use mathlib.Core.List.{append_assoc}
use rapid_db.Common.{
  drop_add, ℕ, suc, ◌+◌, ◌*◌, ◌/◌, ◌%◌, ◌^◌, ◌≤◌, ◌<◌, ◌≡◌, refl, sym, ap, ◌∙◌, inl, inr, List, [],
  ◌∷◌, ◌++◌, Option, none, some, true, false, ltb, ◌==◌, bit_and, if◌then◌else◌, length, drop, map,
  All, arith, Bool-cases, Option-cases, ltb→lt,
}
use rapid_db.Common.BitTests.{has_bit}
use rapid_db.Bytes.{to_le}
use rapid_db.Bytes.Words.{length-to_le, from_le-to_le, take-append, drop-append}
use rapid_db.Value.{
  is_array_type, fix_len, width, DataValue, DataType, digit, chars, null_literal, is_null, code,
  IsTyped,
}
use rapid_db.Value.Stored.{SavePosition, write_data, fresh, is_fixchar}
use rapid_db.Value.Returned.{Fits, read_data-write_data, length-digital_to_bytes}
use rapid_db.Value.Keys.{get_max_length}
use rapid_db.Layout.{word}
use rapid_db.Layout.Fields.{
  is_fix_length, clone, ValueStruct, read_field, field_length, place_field, place_of, put,
  read_fields,
}
use rapid_db.Layout.Filled.{
  all_values, all_lengths, length_word, length_word-varied, length_word-fixed,
}
use rapid_db.Layout.Bitmap.{bit, Marks}

-- What a field comes back as: one without bytes, a null or an empty string, as a null.
abbrev pub stored : DataValue → DataValue
stored dv = if length (write_data dv SavePosition.value) == 0 then fresh dv else dv

clone-fresh : (dv : DataValue) → clone (fresh dv) ≡ fresh dv
clone-fresh (digit dt null v) = refl
clone-fresh (chars dt null bys max) = refl
clone-fresh null_literal = refl

fixed-fresh : (dv : DataValue) → is_fix_length (fresh dv) ≡ is_fix_length dv
unfolding is_fix_length
fixed-fresh (digit dt null v) = refl
fixed-fresh (chars dt null bys max) = refl
fixed-fresh null_literal = refl

-- A null has no bytes.
null_bytes : (dv : DataValue) → is_null dv ≡ true → write_data dv SavePosition.value ≡ []
unfolding write_data
null_bytes (digit dt true v) e = refl
null_bytes (digit dt false v) e = cc
null_bytes (chars dt true bys max) e = refl
null_bytes (chars dt false bys max) e = cc
null_bytes null_literal e = refl

-- A string type of fixed length is FIXCHAR.
array_kind :
    (dt : DataType)
    → is_array_type dt ≡ true
    → (bit_and (code dt) fix_len == fix_len) ≡ true
    → is_fixchar dt ≡ true
unfolding is_array_type code
array_kind DataType.char a e = cc
array_kind DataType.short a e = cc
array_kind DataType.int a e = cc
array_kind DataType.long a e = cc
array_kind DataType.byte a e = cc
array_kind DataType.ushort a e = cc
array_kind DataType.uint a e = cc
array_kind DataType.ulong a e = cc
array_kind DataType.fixchar a e = refl
array_kind DataType.varchar a e = cc
array_kind DataType.bool a e = cc
array_kind DataType.val_null a e = cc

short_width : (dt : DataType) → width dt ≤ 8
unfolding width
short_width DataType.char = omega arith
short_width DataType.short = omega arith
short_width DataType.int = omega arith
short_width DataType.long = omega arith
short_width DataType.byte = omega arith
short_width DataType.ushort = omega arith
short_width DataType.uint = omega arith
short_width DataType.ulong = omega arith
short_width DataType.fixchar = omega arith
short_width DataType.varchar = omega arith
short_width DataType.bool = omega arith
short_width DataType.val_null = omega arith

-- A value of a type of fixed length has that many bytes, unless it is null.
fixed_bytes :
    (dv : DataValue)
    → Fits dv
    → is_null dv ≡ false
    → is_fix_length dv ≡ true
    → length (write_data dv SavePosition.value) ≡ get_max_length (fresh dv)
unfolding write_data Fits IsTyped is_fix_length get_max_length
fixed_bytes (digit dt true v) f n e = cc
fixed_bytes (digit dt false v) f n e = length-digital_to_bytes dt v false
fixed_bytes (chars dt true bys max) f n e = cc
fixed_bytes (chars dt false bys max) f n e = f.1 (array_kind dt f.0.0 e)
fixed_bytes null_literal f n e = cc

short_bytes : (dv : DataValue) → Fits dv → length (write_data dv SavePosition.value) < 2 ^ 32
unfolding write_data Fits IsTyped
short_bytes (digit dt true v) f = omega arith
short_bytes (digit dt false v) f = omega (arith, length-digital_to_bytes dt v false, short_width dt)
short_bytes (chars dt true bys max) f = omega arith
short_bytes (chars dt false bys max) ((a, l, m, b), c) = omega arith
short_bytes null_literal f = omega arith

read_field-stored :
    (dv : DataValue) (rest : List ℕ)
    → Fits dv
    → read_field
        (fresh dv)
        (write_data dv SavePosition.value ++ rest)
        (length (write_data dv SavePosition.value))
      ≡ some (stored dv)
unfolding read_field
read_field-stored dv rest f =
    let bs = write_data dv SavePosition.value in
    elim (Bool-cases (is_null dv)) [
      | inl e ↦ rw (null_bytes dv e, clone-fresh dv) refl
      | inr e ↦ elim (Bool-cases (ltb 0 (length bs))) [
        | inl p ↦
            rw (clone-fresh dv, (read_data-write_data dv rest f).0 e (ltb→lt 0 (length bs) p))
              (ground arith)
        | inr p ↦ rw (clone-fresh dv) (ground arith)
      ]
    ]

word-here :
    (k : ℕ) (buf : List ℕ) (n : ℕ) (s : List ℕ)
    → drop k buf ≡ to_le 4 n ++ s
    → n < 2 ^ 32
    → word k 4 buf ≡ n
unfolding word
word-here k buf n s e h =
    rw (e, take-append 4 (to_le 4 n) s (length-to_le 4 n)) (from_le-to_le 4 n h)

module _ (dv : DataValue) (i var_field : ℕ) (v : ValueStruct) (buf : List ℕ) (f : Fits dv) where
  -- The length of a field, from the bitmap and the lengths.
  field_length-written :
      (s : List ℕ)
      → has_bit (word (v.bys_null + i / 8) 1 buf) (i % 8) ≡ is_null dv
      → drop (v.var_fields_len + 4 * var_field) buf ≡ length_word dv ++ s
      → field_length (fresh dv) i var_field v buf ≡ length (write_data dv SavePosition.value)
  unfolding field_length
  field_length-written s b l = rw b (elim (Bool-cases (is_null dv)) [
    | inl e ↦ rw (e, null_bytes dv e) refl
    | inr e ↦
        rw (e, fixed-fresh dv)
          (elim (Bool-cases (is_fix_length dv)) [
            | inl x ↦ rw x (sym (fixed_bytes dv f e x))
            | inr x ↦ rw x (
                word-here (v.var_fields_len + 4 * var_field) buf
                  (length (write_data dv SavePosition.value)) s
                  (l ∙ ap (λ (t : List ℕ). t ++ s) (length_word-varied dv x)) (short_bytes dv f))
          ])
  ])

-- Where the next field's length stands.
lengths_next :
    (dv : DataValue) (base f : ℕ) (buf s : List ℕ)
    → drop (base + 4 * f) buf ≡ length_word dv ++ s
    → drop (base + 4 * (if is_fix_length dv then f else suc f)) buf ≡ s
lengths_next dv base f buf s e = elim (Bool-cases (is_fix_length dv)) [
  | inl x ↦ rw x (e ∙ ap (λ (t : List ℕ). t ++ s) (length_word-fixed dv x))
  | inr x ↦ rw x (
      ap (λ (n : ℕ). drop n buf) (omega arith)
      ∙ drop_add (base + 4 * f) 4 buf
      ∙ ap (drop 4) (e ∙ ap (λ (t : List ℕ). t ++ s) (length_word-varied dv x))
      ∙ drop-append 4 (to_le 4 (length (write_data dv SavePosition.value))) s
          (length-to_le 4 (length (write_data dv SavePosition.value))))
]

-- The result with the fields put to their places, one by one.
unfoldable pub placed :
    List DataValue → ℕ → List (ℕ × ℕ) → List (Option DataValue) → Option (List (Option DataValue))
unfolding put
placed [] i map_pos vct = some vct
placed (dv ∷ dvs) i map_pos vct = elim (place_of map_pos i) [
  | none ↦ placed dvs (suc i) map_pos vct
  | some p ↦ elim (put vct p (stored dv)) [
    | none ↦ none
    | some vct' ↦ placed dvs (suc i) map_pos vct'
  ]
]

-- What the loop of ReadListValue reads is what the fields were, each at its place.
pub read_fields-placed :
    (dvs : List DataValue) (i var_field bys : ℕ) (v : ValueStruct) (map_pos : List (ℕ × ℕ))
    (buf : List ℕ) (vct : List (Option DataValue)) (bits s1 s2 : List ℕ)
    → All Fits dvs
    → Marks dvs i bits
    → i + length dvs ≤ 8 * length bits
    → ((k : ℕ) → k < length bits → word (v.bys_null + k) 1 buf ≡ word k 1 bits)
    → drop (v.var_fields_len + 4 * var_field) buf ≡ all_lengths dvs ++ s1
    → drop bys buf ≡ all_values dvs ++ s2
    → read_fields (map fresh dvs) i var_field bys v map_pos buf vct ≡ placed dvs i map_pos vct
unfolding read_fields place_field placed Marks bit all_lengths
read_fields-placed [] i f bys v map_pos buf vct bits s1 s2 fs ms h w e1 e2 = refl
read_fields-placed (dv ∷ dvs) i f bys v map_pos buf vct bits s1 s2 (fit, fs) (m, ms) h w e1 e2 =
    let bs = write_data dv SavePosition.value in
    let flen : field_length (fresh dv) i f v buf ≡ length bs =
      field_length-written dv i f v buf fit (all_lengths dvs ++ s1)
        (ap (λ (b : ℕ). has_bit b (i % 8)) (w (i / 8) (omega arith)) ∙ m)
        (e1 ∙ append_assoc (length_word dv) (all_lengths dvs) s1) in
    let back : drop bys buf ≡ bs ++ (all_values dvs ++ s2) =
      e2 ∙ append_assoc bs (all_values dvs) s2 in
    let next = λ (vct' : List (Option DataValue)).
      read_fields-placed dvs (suc i) (if is_fix_length dv then f else suc f) (bys + length bs) v
        map_pos buf vct' bits s1 s2 fs ms (omega arith) w
        (lengths_next dv v.var_fields_len f buf (all_lengths dvs ++ s1)
          (e1 ∙ append_assoc (length_word dv) (all_lengths dvs) s1))
        (drop_add bys (length bs) buf
          ∙ ap (drop (length bs)) back
          ∙ drop-append (length bs) bs (all_values dvs ++ s2) refl) in
    elim (Option-cases (place_of map_pos i)) [
      | inl p ↦ rw (p, flen, fixed-fresh dv, read_fields, placed) (next vct)
      | inr (q, p) ↦
          rw (p, flen, back, read_field-stored dv (all_values dvs ++ s2) fit, read_fields, placed)
            (elim (Option-cases (put vct q (stored dv))) [
              | inl u ↦ rw u refl
              | inr (vct', u) ↦ rw (u, flen, fixed-fresh dv) (next vct')
            ])
    ]
