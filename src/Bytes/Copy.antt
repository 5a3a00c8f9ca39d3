-- ===== src/Bytes/Copy.antt =====
-- src/utils/BytesFuncs.h: BytesCopy without STD_MEM, for ranges that do not overlap, and the
-- functions for a float, by its bit pattern.
use rapid_db.Common.{
  ℕ, zero, suc, ◌/◌, ◌%◌, bit_and, bit_xor, List, ◌∷◌, ◌++◌, Bool, ◌==◌, if◌then◌else◌, take, drop,
}
use rapid_db.Bytes.{to_le, from_le, bswap}

-- The last loop, with `n` bytes left; the result is the destination from the pointer on.
unfoldable pub copy_bytes : ℕ → List ℕ → List ℕ → List ℕ
copy_bytes (suc n) (d ∷ dst) (s ∷ src) = s ∷ copy_bytes n dst src
copy_bytes _ dst src = dst

-- The first loop, with `n` words left and then `r` single bytes.
unfoldable pub copy_words : ℕ → ℕ → List ℕ → List ℕ → List ℕ
unfolding copy_bytes
copy_words zero r dst src = copy_bytes r dst src
copy_words (suc n) r dst src =
    to_le 8 (from_le (take 8 src)) ++ copy_words n r (drop 8 dst) (drop 8 src)

unfoldable pub bytes_copy : List ℕ → List ℕ → ℕ → List ℕ
unfolding copy_words
bytes_copy dst src len = copy_words (len / 8) (len % 8) dst src

-- FloatToBytes and FloatFromBytes.
pub float_key : ℕ → ℕ
float_key p = if bit_and p 0x80000000 == 0 then bit_xor p 0x80000000 else bit_xor p 0x807fffff

pub float_to_bytes : ℕ → Bool → List ℕ
float_to_bytes p bkey = if bkey then to_le 4 (bswap 4 (float_key p)) else to_le 4 p

pub float_unkey : ℕ → ℕ
float_unkey val =
    if bit_and val 0x80000000 == 0 then bit_xor val 0x807fffff else bit_xor val 0x80000000

pub float_from_bytes : List ℕ → Bool → ℕ
float_from_bytes bys bkey =
    if bkey then float_unkey (bswap 4 (from_le (take 4 bys))) else from_le (take 4 bys)
