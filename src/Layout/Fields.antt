-- ===== src/Layout/Fields.antt =====
-- ReadValueStruct, FillValueBuff, CalcKeyLength, CalcValueLength, and the loop of ReadListValue over the
-- fields, on the buffer that the values start in.
use rapid_db.Common.{
  ℕ, suc, ◌+◌, ◌*◌, ◌/◌, ◌%◌, ◌^◌, ◌-◌, List, [], ◌∷◌, Option, none, some, Bool, true, false, ltb,
  ◌==◌, if◌then◌else◌, bit_and, bit_or, length, replicate, drop, get_elem?, set,
}
use rapid_db.Common.BitTests.{has_bit}
use rapid_db.Bytes.{to_le}
use rapid_db.Value.{
  DataValue, DataType, digit, chars, null_literal, is_null, get_data_type, code, fix_len, width,
}
use rapid_db.Value.Stored.{SavePosition, write_data, read_data, is_fixchar}
use rapid_db.Value.Keys.{get_max_length}
use rapid_db.Layout.{store, word}

unfoldable pub is_fix_length : DataValue → Bool
unfolding code
is_fix_length dv = bit_and (code (get_data_type dv)) fix_len == fix_len

-- Clone(), of the column's type.
abbrev pub clone : DataValue → DataValue
clone (digit dt null v) = digit dt null v
clone (chars dt null bys max) = chars dt true [] max
clone null_literal = null_literal

-- GetPersistenceLength
unfoldable pub get_persistence_length : DataValue → SavePosition → ℕ
unfolding code width
get_persistence_length (digit dt null v) SavePosition.key = width dt
get_persistence_length (digit dt null v) SavePosition.value = if null then 0 else width dt
get_persistence_length (chars dt null bys max) SavePosition.key =
    if is_fixchar dt
    then max
    else if null
    then 1
    else if ltb (length bys) max
    then length bys + 1
    else max
get_persistence_length (chars dt null bys max) SavePosition.value =
    if null then 0 else if is_fixchar dt then max else length bys
get_persistence_length null_literal p = 0

abbrev pub sum_lengths : List DataValue → SavePosition → ℕ
sum_lengths [] p = 0
sum_lengths (dv ∷ dvs) p = get_persistence_length dv p + sum_lengths dvs p

abbrev pub max_key_length : ℕ
max_key_length = 2000

unfoldable pub calc_key_length : List DataValue → ℕ
unfolding get_persistence_length
calc_key_length vct_key =
    let len_key = sum_lengths vct_key SavePosition.key % 2 ^ 32 in
    if ltb max_key_length len_key then 2 ^ 16 - 1 else len_key

-- For INSERT and UPDATE.
unfoldable pub calc_value_length : ℕ → List DataValue → ℕ
unfolding get_persistence_length
calc_value_length val_var_len vct_val =
    ((length vct_val + 7) / 8 + val_var_len + sum_lengths vct_val SavePosition.value) % 2 ^ 32

-- The three pointers of ValueStruct.
pub record ValueStruct : Type 0 where
  pub bys_null : ℕ
  pub var_fields_len : ℕ
  pub bys_value : ℕ

abbrev pub read_value_struct : ℕ → ℕ → ℕ → ValueStruct
read_value_struct start field_num val_var_len =
    let by_num = (field_num + 7) / 8 in
    record {
      bys_null = start;
      var_fields_len = start + by_num;
      bys_value = start + by_num + val_var_len;
    }

-- `bysNull[i / 8] |= 1 << (i % 8)`
unfoldable pub set_null : ℕ → ℕ → List ℕ → List ℕ
unfolding store word
set_null bys_null i buf =
    store (bys_null + i / 8) (bit_or (word (bys_null + i / 8) 1 buf) (2 ^ (i % 8)) ∷ []) buf

-- The loop of FillValueBuff from field `i`, with `bysNull`, `vlen` and `bys`.
unfoldable pub fill_fields : List DataValue → ℕ → ℕ → ℕ → ℕ → List ℕ → List ℕ
unfolding is_fix_length set_null store
fill_fields [] i bys_null vlen bys buf = buf
fill_fields (dv ∷ dvs) i bys_null vlen bys buf =
    let bs = write_data dv SavePosition.value in
    let b1 = if is_null dv then set_null bys_null i buf else buf in
    let b2 = store bys bs b1 in
    if is_fix_length dv
    then fill_fields dvs (suc i) bys_null vlen (bys + length bs) b2
    else fill_fields dvs (suc i) bys_null (vlen + 4) (bys + length bs)
        (store vlen (to_le 4 (length bs)) b2)

unfoldable pub fill_value_buff : ValueStruct → List DataValue → List ℕ → List ℕ
unfolding fill_fields store
fill_value_buff v vct_val buf =
    fill_fields vct_val 0 v.bys_null v.var_fields_len v.bys_value
      (store v.bys_null (replicate ((length vct_val + 7) / 8) 0) buf)

-- `mapPos`: which field is read to which place of the result; all are read if it is empty. The stamp is
-- read to the place of UINT32_MAX.
abbrev pub find : List (ℕ × ℕ) → ℕ → Option ℕ
find [] i = none
find ((k, p) ∷ map_pos) i = if k == i then some p else find map_pos i

abbrev pub place_of : List (ℕ × ℕ) → ℕ → Option ℕ
place_of [] i = some i
place_of (m ∷ ms) i = find (m ∷ ms) i

-- Put a value where the result has nullptr; elsewhere an assertion fails.
unfoldable pub put : List (Option DataValue) → ℕ → DataValue → Option (List (Option DataValue))
put vct p dv = elim (get_elem? vct p) [
  | none ↦ none
  | some o ↦ elim o [ none ↦ some (set vct p (some dv)) | some other ↦ none ]
]

-- The value of one field of `flen` bytes.
unfoldable pub read_field : DataValue → List ℕ → ℕ → Option DataValue
read_field col buf flen =
    if ltb 0 flen
    then elim (read_data (clone col) buf flen SavePosition.value) [
      | none ↦ none
      | some (dv, n) ↦ some dv
    ]
    else some (clone col)

-- `flen` of the field `i`, where `var_field` fields of variable length are before it.
unfoldable pub field_length : DataValue → ℕ → ℕ → ValueStruct → List ℕ → ℕ
unfolding is_fix_length word get_max_length
field_length col i var_field v buf =
    if has_bit (word (v.bys_null + i / 8) 1 buf) (i % 8)
    then 0
    else if is_fix_length col
    then get_max_length col
    else word (v.var_fields_len + 4 * var_field) 4 buf

unfoldable pub place_field :
    DataValue → List ℕ → ℕ → Option ℕ → List (Option DataValue) → Option (List (Option DataValue))
unfolding put read_field
place_field col buf flen place vct = elim place [
  | none ↦ some vct
  | some p ↦ elim (read_field col buf flen) [ none ↦ none | some dv ↦ put vct p dv ]
]

-- The loop over the fields from field `i`, with `varField + 1` and `bys`.
unfoldable pub read_fields :
    List DataValue
    → ℕ
    → ℕ
    → ℕ
    → ValueStruct
    → List (ℕ × ℕ)
    → List ℕ
    → List (Option DataValue)
    → Option (List (Option DataValue))
unfolding is_fix_length field_length place_field
read_fields [] i var_field bys v map_pos buf vct = some vct
read_fields (col ∷ cols) i var_field bys v map_pos buf vct =
    let flen = field_length col i var_field v buf in
    let next = if is_fix_length col then var_field else suc var_field in
    elim (place_field col (drop bys buf) flen (place_of map_pos i) vct) [
      | none ↦ none
      | some vct' ↦ read_fields cols (suc i) next (bys + flen) v map_pos buf vct'
    ]

-- With the resizing of the result before, and the stamp after it.
unfoldable pub read_values :
    List DataValue → ValueStruct → ℕ → List (ℕ × ℕ) → List ℕ → Option (List (Option DataValue))
unfolding read_fields put
read_values cols v stamp map_pos buf =
    let size = if length map_pos == 0 then length cols else length map_pos in
    elim (read_fields cols 0 0 v.bys_value v map_pos buf (replicate size none)) [
      | none ↦ none
      | some vct ↦ elim (find map_pos (2 ^ 32 - 1)) [
        | none ↦ some vct
        | some p ↦ some (set vct p (some (digit DataType.long false stamp)))
      ]
    ]
