-- ===== src/Bytes/Examples.antt =====
-- Runs of the byte functions, and their theorems at concrete inputs.
use rapid_db.Common.{ℕ, ◌≡◌, refl, List, [], ◌∷◌, ◌++◌, true, Ordering, arith}
use rapid_db.Common.Int.{sign}
use rapid_db.Bytes.{to_le, from_le, bswap, int_to_bytes, bytes_compare}
use rapid_db.Bytes.Lex.{lex}
use rapid_db.Bytes.Compare.{bytes_compare-lex}
use rapid_db.Bytes.Keys.{int_key-order}

abbrev long_name : List ℕ
long_name = 1 ∷ 2 ∷ 3 ∷ 4 ∷ 5 ∷ 6 ∷ 7 ∷ 8 ∷ 9 ∷ []

abbrev other_name : List ℕ
other_name = 1 ∷ 2 ∷ 3 ∷ 4 ∷ 5 ∷ 6 ∷ 7 ∷ 9 ∷ []

-- -2 as a 32-bit key.
minus_two : int_to_bytes 4 0xfffffffe true ≡ 0x7f ∷ 0xff ∷ 0xff ∷ 0xfe ∷ []
unfolding int_to_bytes bswap to_le from_le
minus_two = refl

bytes_compare-lex_example : sign (bytes_compare long_name other_name) ≡ Ordering.lt
unfolding lex
bytes_compare-lex_example =
    bytes_compare-lex long_name other_name (omega arith) (omega arith) (omega arith) (omega arith)

-- -2 comes before 3.
int_key-order_example :
    sign (
      bytes_compare
        (int_to_bytes 4 0xfffffffe true ++ long_name)
        (int_to_bytes 4 3 true ++ other_name))
    ≡ Ordering.lt
int_key-order_example =
    int_key-order 3 0xfffffffe 3 long_name other_name (omega arith) (omega arith) (omega arith)
      (omega arith) (omega arith) (omega arith)
