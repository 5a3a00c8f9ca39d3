-- ===== src/Value.antt =====
-- src/dataType: values of the integer types, BOOL, VARCHAR, FIXCHAR and the NULL literal, from
-- DataType.h, IDataValue.h, DataValueDigit.h, DataValueVarChar.h, DataValueFixChar.h, DataValueNull.h,
-- and their operators from DataValueFactory.h. A digit is its bit pattern, as its bytes are in memory;
-- whether a string is SOLE_VALUE or BYTES_VALUE makes no difference here.
pub mod Order
pub mod Integers
pub mod Mirror
pub mod Keys
pub mod Stored
pub mod Returned
pub mod Whole
pub mod Faults
mod Examples
use rapid_db.Common.{
  ℕ, zero, suc, ◌+◌, ◌-◌, ◌*◌, ◌^◌, List, [], ◌∷◌, ◌++◌, Bool, true, false, ◌&&◌, ◌||◌, not, ltb,
  leb, ◌==◌, if◌then◌else◌, bit_and, compare, Ordering, length, replicate, take, drop, ◌≡◌, ◌<◌,
  ◌≤◌,
}
use rapid_db.Common.Int.{ℤ, pos, negsuc, compare_ℤ, sign}
use rapid_db.Bytes.{to_le, bytes_compare, bytes_equal}
use rapid_db.Bytes.Words.{IsBytes}
use rapid_db.Bytes.Keys.{signed}

pub data DataType : Type 0 where
  char : DataType
  short : DataType
  int : DataType
  long : DataType
  byte : DataType
  ushort : DataType
  uint : DataType
  ulong : DataType
  fixchar : DataType
  varchar : DataType
  bool : DataType
  val_null : DataType

-- The kinds of types are bits of the enumeration's values.
abbrev pub index_type : ℕ
index_type = 0x10000

abbrev pub fix_len : ℕ
fix_len = 0x20000

abbrev pub array_type : ℕ
array_type = 0x40000

abbrev pub digital_type : ℕ
digital_type = 0x80000

abbrev pub auto_inc_type : ℕ
auto_inc_type = 0x100000

unfoldable pub code : DataType → ℕ
code DataType.char = auto_inc_type + digital_type + index_type + fix_len + 1
code DataType.short = auto_inc_type + digital_type + index_type + fix_len + 2
code DataType.int = auto_inc_type + digital_type + index_type + fix_len + 3
code DataType.long = auto_inc_type + digital_type + index_type + fix_len + 4
code DataType.byte = auto_inc_type + digital_type + index_type + fix_len + 5
code DataType.ushort = auto_inc_type + digital_type + index_type + fix_len + 6
code DataType.uint = auto_inc_type + digital_type + index_type + fix_len + 7
code DataType.ulong = auto_inc_type + digital_type + index_type + fix_len + 8
code DataType.fixchar = index_type + fix_len + array_type + 9
code DataType.varchar = index_type + array_type + 10
code DataType.bool = digital_type + fix_len + 15
code DataType.val_null = 127

unfoldable pub is_auto_primary_key : DataType → Bool
unfolding code
is_auto_primary_key dt = bit_and (code dt) auto_inc_type == auto_inc_type

unfoldable pub is_digital : DataType → Bool
unfolding code
is_digital dt = bit_and (code dt) digital_type == digital_type

unfoldable pub is_array_type : DataType → Bool
unfolding code
is_array_type dt = bit_and (code dt) array_type == array_type

-- `sizeof(T)` of a digit, and whether T is signed.
unfoldable pub width : DataType → ℕ
width DataType.char = 1
width DataType.short = 2
width DataType.int = 4
width DataType.long = 8
width DataType.byte = 1
width DataType.ushort = 2
width DataType.uint = 4
width DataType.ulong = 8
width _ = 1

unfoldable pub is_signed : DataType → Bool
is_signed DataType.char = true
is_signed DataType.short = true
is_signed DataType.int = true
is_signed DataType.long = true
is_signed _ = false

-- A type, whether `_valType` is NULL_VALUE, and `_value`; for a string its bytes and `_maxLength`.
pub data DataValue : Type 0 where
  digit : DataType → Bool → ℕ → DataValue
  chars : DataType → Bool → List ℕ → ℕ → DataValue
  null_literal : DataValue

abbrev pub get_data_type : DataValue → DataType
get_data_type (digit dt null v) = dt
get_data_type (chars dt null bys max) = dt
get_data_type null_literal = DataType.val_null

abbrev pub is_null : DataValue → Bool
is_null (digit dt null v) = null
is_null (chars dt null bys max) = null
is_null null_literal = true

-- The number that a bit pattern stands for, by the type; plain char, the type of a CHAR, is taken as
-- signed, as the compilers for x86 have it.
unfoldable pub number : DataType → ℕ → ℤ
unfolding width is_signed
number dt v = if is_signed dt then signed (width dt) v else pos v

-- GetLong, whose cast wraps a large ULONG round, and GetDouble. GetDouble is only compared where one
-- side is 0 or 1, of a BOOL, and then rounding does not change the result.
unfoldable pub get_long : DataValue → ℤ
unfolding number
get_long (digit dt null v) =
    if null then pos 0 else if code dt == code DataType.ulong then signed 8 v else number dt v
get_long (chars dt null bys max) = pos 0
get_long null_literal = pos 0

unfoldable pub get_double : DataValue → ℤ
unfolding number
get_double (digit dt null v) = if null then pos 0 else number dt v
get_double (chars dt null bys max) = pos 0
get_double null_literal = pos 0

-- GetBuff with GetDataLength.
unfoldable pub get_buff : DataValue → List ℕ
unfolding width
get_buff (digit dt null v) = if null then [] else to_le (width dt) v
get_buff (chars dt null bys max) = if null then [] else bys
get_buff null_literal = []

abbrev pub is_lt : Ordering → Bool
is_lt Ordering.lt = true
is_lt Ordering.eq = false
is_lt Ordering.gt = false

abbrev pub is_eq : Ordering → Bool
is_eq Ordering.lt = false
is_eq Ordering.eq = true
is_eq Ordering.gt = false

abbrev pub is_gt : Ordering → Bool
is_gt Ordering.lt = false
is_gt Ordering.eq = false
is_gt Ordering.gt = true

-- The operators of each class take a null to be the least, and compare the contents else.
abbrev pub null_eq : Bool → Bool → Bool → Bool
null_eq n1 n2 b = if n1 then n2 else if n2 then false else b

abbrev pub null_gt : Bool → Bool → Bool → Bool
null_gt n1 n2 b = if n1 then false else if n2 then true else b

abbrev pub null_ge : Bool → Bool → Bool → Bool
null_ge n1 n2 b = if n1 then n2 else if n2 then true else b

-- EQ, GT and LT of a value of the same type, by way of the class's own operators; LT is `!(>=)`.
unfoldable pub value_eq : DataValue → DataValue → Bool
value_eq (digit dt n1 v1) (digit dt2 n2 v2) = null_eq n1 n2 (v1 == v2)
value_eq (chars dt n1 b1 m1) (chars dt2 n2 b2 m2) = null_eq n1 n2 (
    if code dt == code DataType.varchar && not (length b1 == length b2)
    then false
    else is_eq (sign (bytes_compare b1 b2)))
value_eq null_literal null_literal = true
value_eq _ _ = false

unfoldable pub value_gt : DataValue → DataValue → Bool
unfolding number
value_gt (digit dt n1 v1) (digit dt2 n2 v2) =
    null_gt n1 n2 (is_gt (compare_ℤ (number dt v1) (number dt v2)))
value_gt (chars dt n1 b1 m1) (chars dt2 n2 b2 m2) =
    null_gt n1 n2 (is_gt (sign (bytes_compare b1 b2)))
value_gt _ _ = false

unfoldable pub value_lt : DataValue → DataValue → Bool
unfolding number
value_lt (digit dt n1 v1) (digit dt2 n2 v2) =
    not (null_ge n1 n2 (not (is_lt (compare_ℤ (number dt v1) (number dt v2)))))
value_lt (chars dt n1 b1 m1) (chars dt2 n2 b2 m2) =
    not (null_ge n1 n2 (not (is_lt (sign (bytes_compare b1 b2)))))
value_lt _ _ = false

-- The operators ==, > and >= on any two values, and !=, < and <= by them.
unfoldable pub equal : DataValue → DataValue → Bool
unfolding value_eq get_long get_double get_buff is_auto_primary_key is_digital is_array_type
equal dv1 dv2 =
    let t1 = get_data_type dv1 in
    let t2 = get_data_type dv2 in
    if code t1 == code t2
    then value_eq dv1 dv2
    else if is_auto_primary_key t1 && is_auto_primary_key t2
    then is_eq (compare_ℤ (get_long dv1) (get_long dv2))
    else if is_digital t1 && is_digital t2
    then is_eq (compare_ℤ (get_double dv1) (get_double dv2))
    else if is_array_type t1 && is_array_type t1
    then not (bytes_equal (get_buff dv1) (get_buff dv2))
    else false

unfoldable pub greater : DataValue → DataValue → Bool
unfolding value_gt get_long get_double get_buff is_auto_primary_key is_digital is_array_type
greater dv1 dv2 =
    let t1 = get_data_type dv1 in
    let t2 = get_data_type dv2 in
    if code t1 == code t2
    then value_gt dv1 dv2
    else if is_auto_primary_key t1 && is_auto_primary_key t2
    then is_gt (compare_ℤ (get_long dv1) (get_long dv2))
    else if is_digital t1 && is_digital t2
    then is_gt (compare_ℤ (get_double dv1) (get_double dv2))
    else if is_array_type t1 && is_array_type t1
    then is_gt (sign (bytes_compare (get_buff dv1) (get_buff dv2)))
    else not (is_digital t1)

unfoldable pub greater_equal : DataValue → DataValue → Bool
unfolding value_lt get_long get_double get_buff is_auto_primary_key is_digital is_array_type
greater_equal dv1 dv2 =
    let t1 = get_data_type dv1 in
    let t2 = get_data_type dv2 in
    if code t1 == code t2
    then not (value_lt dv1 dv2)
    else if is_auto_primary_key t1 && is_auto_primary_key t2
    then not (is_lt (compare_ℤ (get_long dv1) (get_long dv2)))
    else if is_digital t1 && is_digital t2
    then not (is_lt (compare_ℤ (get_double dv1) (get_double dv2)))
    else if is_array_type t1 && is_array_type t1
    then not (is_lt (sign (bytes_compare (get_buff dv1) (get_buff dv2))))
    else not (is_digital t1)

unfoldable pub unequal : DataValue → DataValue → Bool
unfolding equal
unequal dv1 dv2 = not (equal dv1 dv2)

unfoldable pub less : DataValue → DataValue → Bool
unfolding greater_equal
less dv1 dv2 = not (greater_equal dv1 dv2)

unfoldable pub less_equal : DataValue → DataValue → Bool
unfolding greater
less_equal dv1 dv2 = not (greater dv1 dv2)

unfoldable pub able_compare : DataValue → DataValue → Bool
unfolding is_digital is_array_type
able_compare dv1 dv2 =
    let t1 = get_data_type dv1 in
    let t2 = get_data_type dv2 in
    code t1 == code t2 || (is_digital t1 && is_digital t2) || (is_array_type t1 && is_array_type t2)

-- What the constructors of the classes make: a digit fits its type, a string its maximal length.
unfoldable pub IsTyped : DataValue → Type 0
unfolding is_digital width
IsTyped (digit dt null v) = (is_digital dt ≡ true) × (v < 256 ^ width dt)
IsTyped (chars dt null bys max) =
    (is_array_type dt ≡ true) × (length bys ≤ max) × (max < 2 ^ 31) × IsBytes bys
IsTyped null_literal = Unit
