-- ===== src/Value/Examples.antt =====
-- Values, and the theorems of this part at them.
use rapid_db.Common.{
  ℕ, ◌≡◌, ◌≢◌, ◌↔◌, refl, List, [], ◌∷◌, ◌++◌, some, true, false, length, arith, Ordering,
}
use rapid_db.Common.Int.{sign}
use rapid_db.Bytes.{bytes_compare}
use rapid_db.Bytes.Lex.{lex}
use rapid_db.Bytes.Words.{length-int_to_bytes}
use rapid_db.Value.{
  DataType, DataValue, digit, chars, code, width, number, equal, IsTyped, is_digital, is_array_type,
}
use rapid_db.Value.Order.{Compares, order, same_type-Compares}
use rapid_db.Value.Integers.{integers-Compares}
use rapid_db.Value.Stored.{SavePosition, write_data, write_whole, read_whole, fresh}
use rapid_db.Value.Returned.{Fits, reread, read_data-write_data}
use rapid_db.Value.Whole.{read_whole-write_whole}
use rapid_db.Value.Keys.{IsKey, get_max_length, write_data-order}
use rapid_db.Value.Faults.{equal_strings_inverted}

-- The SHORT -2, and the strings "ab" and "abc" of a VARCHAR of at most 10 bytes.
abbrev minus_two : DataValue
minus_two = digit DataType.short false 0xfffe

abbrev ab : DataValue
ab = chars DataType.varchar false (97 ∷ 98 ∷ []) 10

abbrev abc : DataValue
abc = chars DataType.varchar false (97 ∷ 98 ∷ 99 ∷ []) 10

minus_two-IsTyped : IsTyped minus_two
unfolding IsTyped is_digital code width
minus_two-IsTyped = (refl, omega arith)

ab-IsTyped : IsTyped ab
unfolding IsTyped is_array_type code
ab-IsTyped = (refl, omega arith, omega arith, (omega arith, (omega arith, tt)))

abc-IsTyped : IsTyped abc
unfolding IsTyped is_array_type code
abc-IsTyped = (refl, omega arith, omega arith, (omega arith, (omega arith, (omega arith, tt))))

same_type-Compares_example : Compares Ordering.lt ab abc
unfolding order lex
same_type-Compares_example = same_type-Compares ab abc ab-IsTyped abc-IsTyped refl

seven-IsTyped : IsTyped (digit DataType.ulong false 7)
unfolding IsTyped is_digital code width
seven-IsTyped = (refl, omega arith)

integers-Compares_example : Compares Ordering.lt minus_two (digit DataType.ulong false 7)
unfolding number width code
integers-Compares_example =
    integers-Compares DataType.short DataType.ulong 0xfffe 7 minus_two-IsTyped seven-IsTyped
      (λ e. absurd (omega (arith, e))) (λ e. omega arith)

ab-Fits : Fits ab
unfolding Fits code
ab-Fits = (ab-IsTyped, λ e. absurd (ground (arith, e)))

abc-Fits : Fits abc
unfolding Fits code
abc-Fits = (abc-IsTyped, λ e. absurd (ground (arith, e)))

minus_two-Fits : Fits minus_two
unfolding Fits code
minus_two-Fits = (minus_two-IsTyped, λ e. absurd (omega (arith, e)))

ab-IsKey : IsKey ab
unfolding IsKey
ab-IsKey = (ab-Fits, refl, λ e. (omega arith, (omega arith, tt)))

abc-IsKey : IsKey abc
unfolding IsKey
abc-IsKey = (abc-Fits, refl, λ e. (omega arith, (omega arith, (omega arith, tt))))

write_data-order_example :
    sign (
      bytes_compare
        (write_data ab SavePosition.key ++ (5 ∷ []))
        (write_data abc SavePosition.key ++ (4 ∷ [])))
    ≡ Ordering.lt
unfolding order get_max_length write_data code lex
write_data-order_example =
    write_data-order ab abc (5 ∷ []) (4 ∷ []) ab-IsKey abc-IsKey refl refl (omega arith, tt)
      (omega arith, tt) (omega arith) (omega arith)

read_data-write_data_example :
    reread minus_two (9 ∷ []) SavePosition.value
    ≡ some (minus_two, length (write_data minus_two SavePosition.value))
unfolding write_data code
read_data-write_data_example =
    (read_data-write_data minus_two (9 ∷ []) minus_two-Fits).0 refl
      (omega (arith, length-int_to_bytes 2 65534 false))

read_whole-write_whole_example :
    read_whole (fresh ab) ((write_whole ab).0 ++ (9 ∷ [])) ≡ (ab, (write_whole ab).1)
read_whole-write_whole_example = read_whole-write_whole ab (9 ∷ []) ab-Fits

equal_strings_inverted_example :
    (equal (chars DataType.varchar false (97 ∷ []) 10) (chars DataType.fixchar false (98 ∷ []) 1)
      ≡ true)
    ↔ (◌≢◌ {A = List ℕ} (97 ∷ []) (98 ∷ []))
equal_strings_inverted_example =
    equal_strings_inverted (97 ∷ []) (98 ∷ []) 10 1 (omega arith, tt) (omega arith, tt)
