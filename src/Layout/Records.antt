-- ===== src/Layout/Records.antt =====
-- src/core/LeafRecord.cpp: the constructor of a record of the primary index, and the part of ReadListValue
-- that reads its bytes. The lock that the constructor makes for a statement is left out.
use rapid_db.Common.{
  ℕ, ◌+◌, ◌*◌, ◌%◌, ◌^◌, ◌==◌, bit_and, List, Option, none, some, true, false, ltb, if◌then◌else◌,
  length, take,
}
use rapid_db.Bytes.{to_le}
use rapid_db.Record.{insert}
use rapid_db.Record.Length.{overflows, page_num, insert_total_len}
use rapid_db.Value.{DataValue}
use rapid_db.Layout.{
  store, word, RecStruct, in_record, in_page, nowhere, init_struct, load_struct, is_some,
  rec_overflow, fill_header_buff, fill_key_buff,
}
use rapid_db.Layout.Fields.{
  max_key_length, calc_key_length, calc_value_length, read_value_struct, fill_value_buff,
  read_values,
}

pub record OverflowPage : Type 0 where
  pub page_id : ℕ
  pub page_num : ℕ
  pub bys_page : List ℕ

pub record LeafRecord : Type 0 where
  pub bys_val : List ℕ
  pub overflow_page : Option OverflowPage

-- `_pidStart`, `_pageNum` and `_arrCrc32` of a record with overflow pages.
unfoldable pub fill_overflow : Option (ℕ × ℕ × ℕ) → ℕ → OverflowPage → List ℕ → List ℕ
unfolding store
fill_overflow none crc32 page buf = buf
fill_overflow (some (crc, pid, num)) crc32 page buf =
    let b1 = store pid (to_le 4 page.page_id) buf in
    let b2 = store num (to_le 2 page.page_num) b1 in store crc (to_le 4 crc32) b2

-- `checksum` is boost's crc_32_type; `apply_ovf_page` is what ApplyOvfPage hands out for a number of pages,
-- and `buf` the memory that CachePool::Apply hands out.
module _ (checksum : List ℕ → ℕ) (apply_ovf_page : ℕ → OverflowPage) where
  -- With the lengths that are calculated; the value goes into the record.
  unfoldable pub insert_in_record :
      ℕ → ℕ → ℕ → List DataValue → List DataValue → ℕ → List ℕ → LeafRecord
  unfolding init_struct fill_header_buff fill_key_buff fill_value_buff insert_total_len
  insert_in_record len_key len_val val_var_len vct_key vct_val rec_stamp buf =
      let s = init_struct len_key false in
      let b1 =
        fill_header_buff s (insert_total_len len_key len_val) len_key 1 rec_stamp len_val insert
          buf in
      let b2 = fill_key_buff s.bys_key vct_key b1 in
      let v = read_value_struct (s.arr_val_len + 4) (length vct_val) val_var_len in
      record { bys_val = fill_value_buff v vct_val b2; overflow_page = none }

  -- The value goes to overflow pages.
  unfoldable pub insert_in_page :
      ℕ → ℕ → ℕ → List DataValue → List DataValue → ℕ → List ℕ → LeafRecord
  unfolding init_struct fill_header_buff fill_key_buff fill_value_buff fill_overflow
      insert_total_len page_num
  insert_in_page len_key len_val val_var_len vct_key vct_val rec_stamp buf =
      let page = apply_ovf_page (page_num len_val) in
      let s = init_struct len_key true in
      let b1 =
        fill_header_buff s (insert_total_len len_key len_val) len_key 1 rec_stamp len_val insert
          buf in
      let b2 = fill_key_buff s.bys_key vct_key b1 in
      let bytes =
        fill_value_buff (read_value_struct 0 (length vct_val) val_var_len) vct_val page.bys_page in
      record {
        bys_val = fill_overflow s.overflow (checksum (take len_val bytes)) page b2;
        overflow_page = some (record page { bys_page = bytes });
      }

  -- none is a record that is not valid, since its key is too long.
  unfoldable pub insert_record :
      ℕ → List DataValue → List DataValue → ℕ → List ℕ → Option LeafRecord
  unfolding insert_in_record insert_in_page calc_key_length calc_value_length overflows
  insert_record val_var_len vct_key vct_val rec_stamp buf =
      let len_key = calc_key_length vct_key in
      let len_val = calc_value_length val_var_len vct_val in
      if ltb max_key_length len_key
      then none
      else if overflows len_key len_val
      then some (insert_in_page len_key len_val val_var_len vct_key vct_val rec_stamp buf)
      else some (insert_in_record len_key len_val val_var_len vct_key vct_val rec_stamp buf)

-- The reading of the values by the struct, none where a pointer is nullptr.
unfoldable pub read_by_struct :
    RecStruct → LeafRecord → List DataValue → ℕ → List (ℕ × ℕ) → Option (List (Option DataValue))
unfolding read_values word
read_by_struct s lr vd_src val_var_len map_pos =
    let stamp = word s.arr_stamp 8 lr.bys_val in
    elim s.bys_val_start [
      | in_record off ↦
          read_values vd_src (read_value_struct off (length vd_src) val_var_len) stamp map_pos
            lr.bys_val
      | in_page ↦ elim lr.overflow_page [
        | none ↦ none
        | some page ↦
            read_values vd_src (read_value_struct 0 (length vd_src) val_var_len) stamp map_pos
              page.bys_page
      ]
      | nowhere ↦ none
    ]

unfoldable pub read_record :
    LeafRecord → List DataValue → ℕ → List (ℕ × ℕ) → Option (List (Option DataValue))
unfolding load_struct read_by_struct
read_record lr vd_src val_var_len map_pos =
    read_by_struct (load_struct lr.bys_val (is_some lr.overflow_page)) lr vd_src val_var_len map_pos

-- The first page and the number of pages that LoadOverflowPage reads; none if the assertion fails, that the
-- record has overflow pages.
unfoldable pub load_overflow_page : List ℕ → Option (ℕ × ℕ)
unfolding word
load_overflow_page bys =
    let key_len = word 2 2 bys in
    let off = 4 + key_len + 1 + 8 + 4 * 2 in
    if bit_and (word (4 + key_len) 1 bys) rec_overflow == 0
    then none
    else some (word off 4 bys, word (off + 4) 2 bys)

-- GetValueLength of a record of the primary index; it is returned as a uint16_t.
unfoldable pub get_value_length : List ℕ → ℕ
unfolding word
get_value_length bys = word (4 + 1 + word 2 2 bys + 8) 4 bys % 2 ^ 16
