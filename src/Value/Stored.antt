-- ===== src/Value/Stored.antt =====
-- WriteData and ReadData of a value in a record, by the position, and of a value by itself. The bytes
-- that are written are a list, and ReadData's assertions that fail are none.
use rapid_db.Common.{
  ℕ, ◌+◌, List, [], ◌∷◌, ◌++◌, Option, none, some, Bool, true, false, ◌&&◌, not, ltb, leb, ◌==◌,
  if◌then◌else◌, bit_and, length, replicate, take, drop,
}
use rapid_db.Bytes.{to_le, from_le, int_to_bytes, int_from_bytes, uint_to_bytes, uint_from_bytes}
use rapid_db.Value.{DataType, DataValue, digit, chars, null_literal, code, width, is_signed}

pub data SavePosition : Type 0 where
  key : SavePosition
  value : SavePosition

-- The functions that Case_T and Case_F choose.
unfoldable pub digital_to_bytes : DataType → ℕ → Bool → List ℕ
unfolding code is_signed width
digital_to_bytes dt v bkey =
    if code dt == code DataType.bool
    then v ∷ []
    else if is_signed dt
    then int_to_bytes (width dt) v bkey
    else uint_to_bytes (width dt) v bkey

unfoldable pub digital_from_bytes : DataType → List ℕ → Bool → ℕ
unfolding code is_signed width
digital_from_bytes dt bys bkey =
    if code dt == code DataType.bool
    then if from_le (take 1 bys) == 0 then 0 else 1
    else if is_signed dt
    then int_from_bytes (width dt) bys bkey
    else uint_from_bytes (width dt) bys bkey

-- Whether a string is a FIXCHAR.
abbrev pub is_fixchar : DataType → Bool
is_fixchar dt = code dt == code DataType.fixchar

-- WriteData(buf, svPos); the length it returns is the list's.
unfoldable pub write_data : DataValue → SavePosition → List ℕ
unfolding digital_to_bytes code
write_data (digit dt null v) SavePosition.key = digital_to_bytes dt (if null then 0 else v) true
write_data (digit dt null v) SavePosition.value = if null then [] else digital_to_bytes dt v false
write_data (chars dt null bys max) SavePosition.key =
    if is_fixchar dt
    then if null then replicate max 32 else bys
    else if null
    then 0 ∷ []
    else if ltb (length bys) max
    then bys ++ (0 ∷ [])
    else bys
write_data (chars dt null bys max) SavePosition.value = if null then [] else bys
write_data null_literal p = []

-- ReadData(buf, len, svPos): the value afterwards and the length that is returned.
unfoldable pub read_data : DataValue → List ℕ → ℕ → SavePosition → Option (DataValue × ℕ)
unfolding digital_from_bytes code width
read_data (digit dt null v) buf len SavePosition.key =
    some (digit dt false (digital_from_bytes dt buf true), width dt)
read_data (digit dt null v) buf len SavePosition.value =
    if len == 0
    then some (digit dt true v, 0)
    else some (digit dt false (digital_from_bytes dt buf false), width dt)
read_data (chars dt null bys max) buf len SavePosition.key =
    if is_fixchar dt && len == max && not (len == 0)
    then some (chars dt false (take max buf) max, max)
    else none
read_data (chars dt null bys max) buf len SavePosition.value =
    if len == 0
    then some (chars dt true [] max, 0)
    else if is_fixchar dt
    then if len == max then some (chars dt false (take max buf) max, max) else none
    else if leb len max
    then some (chars dt false (take len buf) max, len)
    else none
read_data null_literal buf len p = some (null_literal, 0)

-- The type's number, in the lower seven bits, and the top bit VALUE_TYPE of a value that is not null.
abbrev pub type_byte : DataType → ℕ
unfolding code
type_byte dt = bit_and (code dt) 0x7f

abbrev pub value_byte : DataType → ℕ
unfolding code
value_byte dt = 0x80 + bit_and (code dt) 0x7f

-- WriteData(buf): the bytes, and the length that is returned.
unfoldable pub write_whole : DataValue → List ℕ × ℕ
unfolding digital_to_bytes code width
write_whole (digit dt null v) =
    if null
    then (type_byte dt ∷ [], 1)
    else (value_byte dt ∷ digital_to_bytes dt v false, width dt + 1)
write_whole (chars dt null bys max) =
    if null
    then (type_byte dt ∷ [], 1)
    else if is_fixchar dt
    then (value_byte dt ∷ (to_le 4 max ++ bys), max + 1)
    else (value_byte dt ∷ (to_le 4 (length bys) ++ bys), length bys + 4 + 1)
write_whole null_literal = ([], 0)

-- ReadData(buf).
unfoldable pub read_whole : DataValue → List ℕ → DataValue × ℕ
unfolding digital_from_bytes code width
read_whole (digit dt null v) buf =
    if bit_and (from_le (take 1 buf)) 0x80 == 0
    then (digit dt true v, 1)
    else (digit dt false (digital_from_bytes dt (drop 1 buf) false), width dt + 1)
read_whole (chars dt null bys max) buf =
    let len = from_le (take 4 (drop 1 buf)) in
    if bit_and (from_le (take 1 buf)) 0x80 == 0
    then (chars dt true [] max, 1)
    else if is_fixchar dt
    then (chars dt false (take len (drop 4 (drop 1 buf))) len, len + 1)
    else (chars dt false (take len (drop 4 (drop 1 buf))) max, len + 4 + 1)
read_whole null_literal buf = (null_literal, 0)

-- A value as its class's constructor makes it, of the type and the maximal length of another.
abbrev pub fresh : DataValue → DataValue
fresh (digit dt null v) = digit dt true 0
fresh (chars dt null bys max) = chars dt true [] max
fresh null_literal = null_literal
