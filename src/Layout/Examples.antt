-- ===== src/Layout/Examples.antt =====
-- Records, and the theorems of this part at them.
use rapid_db.Common.{
  ℕ, ◌*◌, ◌++◌, ◌≤◌, ◌≡◌, refl, length-append, List, [], ◌∷◌, some, true, false, length, replicate,
  map, arith, Ordering,
}
use rapid_db.Common.Int.{sign}
use rapid_db.Bytes.Lex.{lex}
use rapid_db.Record.Length.{index_page_size, insert_total_len, overflows}
use rapid_db.Value.{
  DataType, DataValue, digit, chars, code, width, IsTyped, is_digital, is_array_type,
}
use rapid_db.Value.Stored.{fresh, write_data, digital_to_bytes}
use rapid_db.Value.Keys.{IsKey}
use rapid_db.Value.Order.{order}
use rapid_db.Value.Returned.{Fits, length-digital_to_bytes}
use rapid_db.Bytes.{to_le}
use rapid_db.Bytes.Words.{length-to_le}
use rapid_db.Layout.Filled.{all_values, all_lengths, length_word}
use rapid_db.Layout.Fields.{is_fix_length}
use rapid_db.Layout.Returned.{stored}
use rapid_db.Layout.Records.{OverflowPage, LeafRecord, insert_record, read_record}
use rapid_db.Layout.Lengths.{key_bytes, length-replicate}
use rapid_db.Layout.Values.{written, bitmap, length-bitmap}
use rapid_db.Layout.Inserted.{insert_record-returned}
use rapid_db.Layout.Secondary.{
  secondary_record, Holds, compare_to, secondary_record-Holds, compare_to-order,
}

-- A BYTE, a VARCHAR of at most 10 bytes, and a null one.
abbrev seven : DataValue
seven = digit DataType.byte false 7

abbrev ab : DataValue
ab = chars DataType.varchar false (97 ∷ 98 ∷ []) 10

abbrev nothing : DataValue
nothing = chars DataType.varchar true [] 10

seven-Fits : Fits seven
unfolding Fits IsTyped is_digital code width
seven-Fits = ((refl, omega arith), λ e. absurd (omega (arith, e)))

ab-Fits : Fits ab
unfolding Fits IsTyped is_array_type code
ab-Fits = (
  (refl, omega arith, omega arith, (omega arith, (omega arith, tt))),
  λ e. absurd (ground (arith, e)),
)

nothing-Fits : Fits nothing
unfolding Fits IsTyped is_array_type code
nothing-Fits = ((refl, omega arith, omega arith, tt), λ e. absurd (ground (arith, e)))

abbrev fields : List DataValue
fields = seven ∷ nothing ∷ ab ∷ []

abbrev memory : List ℕ
memory = replicate 100 255

abbrev pages : ℕ → OverflowPage
pages n = record { page_id = 3; page_num = n; bys_page = replicate (n * index_page_size) 0 }

length-ab : length (key_bytes (ab ∷ [])) ≡ 3
unfolding write_data code
length-ab = refl

length-all_lengths : length (all_lengths fields) ≡ 8
unfolding all_lengths length_word is_fix_length code write_data
length-all_lengths = omega (
  arith,
  length-append (to_le 4 0) (to_le 4 2 ++ []),
  length-append (to_le 4 2) [],
  length-to_le 4 0,
  length-to_le 4 2,
)

length-written : length (written fields) ≡ 12
unfolding write_data code width
length-written = omega (
  arith,
  length-append (bitmap fields) (all_lengths fields ++ all_values fields),
  length-append (all_lengths fields) (all_values fields),
  length-bitmap fields,
  length-all_lengths,
  length-append (digital_to_bytes DataType.byte 7 false) (97 ∷ 98 ∷ []),
  length-digital_to_bytes DataType.byte 7 false,
)

insert_total_len-memory :
    insert_total_len (length (key_bytes (ab ∷ []))) (length (written fields)) ≤ length memory
unfolding insert_total_len overflows
insert_total_len-memory = rw (length-ab, length-written) (omega arith)

pages-length : (n : ℕ) → n * index_page_size ≤ length (pages n).bys_page
pages-length n = omega (arith, length-replicate (n * index_page_size) 0)

insert_record-returned_example :
    (lr : LeafRecord) × (insert_record
        (λ bs. 0)
        pages
        (length (all_lengths fields))
        (ab ∷ [])
        fields
        5
        memory
      ≡ some lr)
    × (read_record lr (map fresh fields) (length (all_lengths fields)) []
        ≡ some (map (λ dv. some (stored dv)) fields))
insert_record-returned_example =
    insert_record-returned (λ bs. 0) pages (ab ∷ []) fields 5 memory (ab-Fits, tt)
      (seven-Fits, (nothing-Fits, (ab-Fits, tt))) (omega (arith, length-ab))
      (omega (arith, length-written)) insert_total_len-memory pages-length

ab-IsKey : IsKey ab
unfolding IsKey
ab-IsKey = (ab-Fits, refl, λ e. (omega arith, (omega arith, tt)))

secondary_record-Holds_example :
    (bys : List ℕ) × (secondary_record (ab ∷ []) (1 ∷ 2 ∷ []) 5 memory ≡ some bys)
    × Holds (key_bytes (ab ∷ [])) (1 ∷ 2 ∷ []) 5 bys
secondary_record-Holds_example =
    (secondary_record-Holds (ab ∷ []) (1 ∷ 2 ∷ []) 5 memory (ab-Fits, tt) (omega arith)
        (omega arith) (omega (arith, length-ab))).0
      (omega (arith, length-ab))

-- A record with the primary key of one byte.
one_primary :
    (b : ℕ)
    → (bys : List ℕ) × (secondary_record (ab ∷ []) (b ∷ []) 5 memory ≡ some bys)
      × Holds (key_bytes (ab ∷ [])) (b ∷ []) 5 bys
one_primary b =
    (secondary_record-Holds (ab ∷ []) (b ∷ []) 5 memory (ab-Fits, tt) (omega arith) (omega arith)
        (omega (arith, length-ab))).0
      (omega (arith, length-ab))

compare_to-order_example : sign (compare_to false (one_primary 1).0 (one_primary 2).0) ≡ Ordering.lt
unfolding order lex write_data code
compare_to-order_example =
    compare_to-order ab ab (1 ∷ []) (2 ∷ []) memory memory (one_primary 1).0 (one_primary 2).0 5 5
      ab-IsKey ab-IsKey refl refl (omega (arith, length-ab)) (omega (arith, length-ab))
      (omega arith, tt) (omega arith, tt) (omega arith) (omega arith) (omega arith) (omega arith)
      (omega (arith, length-ab)) (omega (arith, length-ab)) (one_primary 1).1 (one_primary 2).1
