-- ===== src/Bytes/Widths.antt =====
-- The functions of BytesFuncs.h by their widths.
use rapid_db.Common.{ℕ, List, Bool}
use rapid_db.Bytes.{int_to_bytes, int_from_bytes, uint_to_bytes, uint_from_bytes}

abbrev pub int64_from_bytes : List ℕ → Bool → ℕ
int64_from_bytes bys bkey = int_from_bytes 8 bys bkey

abbrev pub int64_to_bytes : ℕ → Bool → List ℕ
int64_to_bytes val bkey = int_to_bytes 8 val bkey

abbrev pub uint64_from_bytes : List ℕ → Bool → ℕ
uint64_from_bytes bys bkey = uint_from_bytes 8 bys bkey

abbrev pub uint64_to_bytes : ℕ → Bool → List ℕ
uint64_to_bytes val bkey = uint_to_bytes 8 val bkey

abbrev pub int32_from_bytes : List ℕ → Bool → ℕ
int32_from_bytes bys bkey = int_from_bytes 4 bys bkey

abbrev pub int32_to_bytes : ℕ → Bool → List ℕ
int32_to_bytes val bkey = int_to_bytes 4 val bkey

abbrev pub uint32_from_bytes : List ℕ → Bool → ℕ
uint32_from_bytes bys bkey = uint_from_bytes 4 bys bkey

abbrev pub uint32_to_bytes : ℕ → Bool → List ℕ
uint32_to_bytes val bkey = uint_to_bytes 4 val bkey

abbrev pub int16_from_bytes : List ℕ → Bool → ℕ
int16_from_bytes bys bkey = int_from_bytes 2 bys bkey

abbrev pub int16_to_bytes : ℕ → Bool → List ℕ
int16_to_bytes val bkey = int_to_bytes 2 val bkey

abbrev pub uint16_from_bytes : List ℕ → Bool → ℕ
uint16_from_bytes bys bkey = uint_from_bytes 2 bys bkey

abbrev pub uint16_to_bytes : ℕ → Bool → List ℕ
uint16_to_bytes val bkey = uint_to_bytes 2 val bkey

abbrev pub int8_from_bytes : List ℕ → Bool → ℕ
int8_from_bytes bys bkey = int_from_bytes 1 bys bkey

abbrev pub int8_to_bytes : ℕ → Bool → List ℕ
int8_to_bytes val bkey = int_to_bytes 1 val bkey

abbrev pub uint8_from_bytes : List ℕ → Bool → ℕ
uint8_from_bytes bys bkey = uint_from_bytes 1 bys bkey

abbrev pub uint8_to_bytes : ℕ → Bool → List ℕ
uint8_to_bytes val bkey = uint_to_bytes 1 val bkey
