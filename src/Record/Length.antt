-- ===== src/Record/Length.antt =====
-- The lengths that the constructors of LeafRecord and UpdateRecord reserve for a record of the
-- primary index, against the bytes that they write.
use rapid_db.Common.{
  ℕ, ◌+◌, ◌-◌, ◌*◌, ◌/◌, ◌%◌, ◌^◌, ◌≤◌, ◌≡◌, Bool, true, false, ltb, if◌then◌else◌, arith,
}

-- Configure::GetMaxRecordLength and INDEX_PAGE_SIZE, then the two lengths in front of the key, the
-- version byte with one stamp and one value length, and what points to an overflow page.
abbrev pub max_record_length : ℕ
max_record_length = 8180

abbrev pub index_page_size : ℕ
index_page_size = 16384

abbrev head_len : ℕ
head_len = 2 + 2

abbrev info_len : ℕ
info_len = 1 + 8 + 4

abbrev overflow_len : ℕ
overflow_len = 4 + 4 + 2

-- Whether a value goes to overflow pages, and to how many.
unfoldable pub overflows : ℕ → ℕ → Bool
overflows len_key len_val = ltb (max_record_length - len_key - head_len - info_len) len_val

unfoldable pub page_num : ℕ → ℕ
page_num len_val = (len_val + index_page_size - 1) / index_page_size % 2 ^ 16

-- The constructors, for INSERT.
unfoldable pub insert_total_len : ℕ → ℕ → ℕ
insert_total_len len_key len_val =
    (head_len
      + len_key
      + (if overflows len_key len_val then info_len + overflow_len else info_len)
      + (if overflows len_key len_val then overflow_len else len_val))
    % 2 ^ 16

-- UpdateRecord; it asks whether the old record has overflow pages.
unfoldable pub update_total_len : ℕ → ℕ → Bool → ℕ
update_total_len len_key len_val old_overflow =
    (head_len
      + len_key
      + (if overflows len_key len_val then info_len + overflow_len else info_len)
      + (if old_overflow then 0 else len_val))
    % 2 ^ 16

-- The bytes that both write to the buffer: RecStruct with its header, the key, and the value
-- unless it goes to overflow pages.
unfoldable pub written_len : ℕ → ℕ → ℕ
written_len len_key len_val =
    head_len + len_key + info_len + (if overflows len_key len_val then overflow_len else len_val)

-- An inserted record fits the buffer that is reserved for it, and the limit on a record's length
-- in a page, with keys of at most 2000 bytes; and its overflow pages hold a value of less than 2 ^ 30
-- bytes by a page.
pub insert_fits :
    (len_key len_val : ℕ)
    → len_key ≤ 2000
    → len_val ≤ index_page_size * (2 ^ 16 - 1)
    → (written_len len_key len_val ≤ insert_total_len len_key len_val)
      × (insert_total_len len_key len_val ≤ max_record_length)
      × (len_val ≤ page_num len_val * index_page_size)
unfolding written_len insert_total_len overflows page_num
insert_fits len_key len_val h k = (ground arith, ground arith, omega arith)

-- An updated record whose old and new values both stay in the page is given exactly the bytes that
-- are written.
pub update_fits :
    (len_key len_val : ℕ)
    → len_key ≤ 2000
    → overflows len_key len_val ≡ false
    → (update_total_len len_key len_val false ≡ written_len len_key len_val)
      × (update_total_len len_key len_val false ≤ max_record_length)
unfolding written_len update_total_len overflows
update_fits len_key len_val h e = (ground arith, ground arith)

-- An update of a record with overflow pages to a value that stays in the page reserves no room for
-- the value, and writes past the buffer by its whole length.
pub update_overrun :
    (len_key len_val : ℕ)
    → len_key ≤ 2000
    → overflows len_key len_val ≡ false
    → written_len len_key len_val ≡ update_total_len len_key len_val true + len_val
unfolding written_len update_total_len overflows
update_overrun len_key len_val h e = ground arith
