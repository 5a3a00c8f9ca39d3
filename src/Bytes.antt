-- ===== src/Bytes.antt =====
-- src/utils/BytesFuncs.h on a little-endian machine without STD_MEM: the branches of `#else`.
-- A pointer with a length is the list of the bytes; a word is its bit pattern.
pub mod Widths
pub mod Copy
pub mod Copied
pub mod Words
pub mod Lex
pub mod Compare
pub mod Keys
pub mod Doubles
mod Examples
use rapid_db.Common.{
  ℕ, zero, suc, ◌+◌, ◌-◌, ◌*◌, ◌/◌, ◌%◌, ◌^◌, min, bit_and, bit_xor, List, [], ◌∷◌, reverse, Bool,
  true, false, ltb, ◌==◌, if◌then◌else◌, length, take, drop,
}
use rapid_db.Common.Int.{ℤ, pos, negsuc, sub_ℕ}

-- A store and a load of an n-byte word at a pointer, lowest byte first.
pub to_le : ℕ → ℕ → List ℕ
to_le zero v = []
to_le (suc n) v = (v % 256) ∷ to_le n (v / 256)

pub from_le : List ℕ → ℕ
from_le [] = 0
from_le (b ∷ bs) = b + 256 * from_le bs

-- bswap_16, bswap_32 and bswap_64 of the C library, for n = 2, 4 and 8.
pub bswap : ℕ → ℕ → ℕ
bswap n v = from_le (reverse (to_le n v))

-- Int8ToBytes to Int64ToBytes and their like differ in the width alone.
pub int_to_bytes : ℕ → ℕ → Bool → List ℕ
int_to_bytes n val bkey =
    if bkey then to_le n (bswap n (bit_xor val (2 ^ (8 * n - 1)))) else to_le n val

pub int_from_bytes : ℕ → List ℕ → Bool → ℕ
int_from_bytes n bys bkey =
    if bkey
    then bit_xor (bswap n (from_le (take n bys))) (2 ^ (8 * n - 1))
    else from_le (take n bys)

pub uint_to_bytes : ℕ → ℕ → Bool → List ℕ
uint_to_bytes n val bkey = if bkey then to_le n (bswap n val) else to_le n val

pub uint_from_bytes : ℕ → List ℕ → Bool → ℕ
uint_from_bytes n bys bkey = if bkey then bswap n (from_le (take n bys)) else from_le (take n bys)

-- DoubleToBytes and DoubleFromBytes, with the bit pattern of the double.
abbrev pub sign_bit : ℕ
sign_bit = 0x8000000000000000

abbrev pub sign_and_fraction : ℕ
sign_and_fraction = 0x800fffffffffffff

pub double_key : ℕ → ℕ
double_key p = if bit_and p sign_bit == 0 then bit_xor p sign_bit else bit_xor p sign_and_fraction

pub double_to_bytes : ℕ → Bool → List ℕ
double_to_bytes p bkey = if bkey then to_le 8 (bswap 8 (double_key p)) else to_le 8 p

pub double_unkey : ℕ → ℕ
double_unkey val =
    if bit_and val sign_bit == 0 then bit_xor val sign_and_fraction else bit_xor val sign_bit

pub double_from_bytes : List ℕ → Bool → ℕ
double_from_bytes bys bkey =
    if bkey then double_unkey (bswap 8 (from_le (take 8 bys))) else from_le (take 8 bys)

-- The last loop of BytesCompare, with `n` bytes left; `last` is returned when it ends.
pub byte_loop : ℕ → List ℕ → List ℕ → ℤ → ℤ
byte_loop (suc n) (x ∷ xs) (y ∷ ys) last =
    let rest = byte_loop n xs ys last in if x == y then rest else sub_ℕ x y
byte_loop _ _ _ last = last

-- The first loop, with `n` words left and then `r` single bytes.
pub word_loop : ℕ → ℕ → List ℕ → List ℕ → ℤ → ℤ
word_loop zero r xs ys last = byte_loop r xs ys last
word_loop (suc n) r xs ys last =
    let v1 = bswap 8 (from_le (take 8 xs)) in
    let v2 = bswap 8 (from_le (take 8 ys)) in
    let rest = word_loop n r (drop 8 xs) (drop 8 ys) last in
    if v1 == v2 then rest else if ltb v2 v1 then pos 1 else negsuc 0

-- The cast of a size_t to int.
pub to_int : ℕ → ℤ
to_int w = let u = w % 2 ^ 32 in if ltb u (2 ^ 31) then pos u else negsuc (2 ^ 32 - u - 1)

pub bytes_compare : List ℕ → List ℕ → ℤ
unfolding word_loop byte_loop to_int bswap to_le from_le
bytes_compare bys1 bys2 =
    let len1 = length bys1 in
    let len2 = length bys2 in
    let min_len = min len1 len2 in
    word_loop (min_len / 8) (min_len % 8) bys1 bys2 (to_int ((len1 + 2 ^ 64 - len2) % 2 ^ 64))

-- The two loops of BytesEqual; a byte difference is tested against 0.
pub equal_bytes : ℕ → List ℕ → List ℕ → Bool
equal_bytes (suc n) (x ∷ xs) (y ∷ ys) =
    let rest = equal_bytes n xs ys in if x == y then rest else false
equal_bytes _ _ _ = true

pub equal_words : ℕ → ℕ → List ℕ → List ℕ → Bool
equal_words zero r xs ys = equal_bytes r xs ys
equal_words (suc n) r xs ys =
    let rest = equal_words n r (drop 8 xs) (drop 8 ys) in
    if from_le (take 8 xs) == from_le (take 8 ys) then rest else false

pub bytes_equal : List ℕ → List ℕ → Bool
unfolding equal_words equal_bytes from_le
bytes_equal bys1 bys2 =
    if length bys1 == length bys2
    then equal_words (length bys1 / 8) (length bys1 % 8) bys1 bys2
    else false
