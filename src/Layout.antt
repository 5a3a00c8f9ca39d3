-- ===== src/Layout.antt =====
-- src/core/LeafRecord.h and LeafRecord.cpp: the bytes of a record of the primary index. A pointer into a
-- buffer is an offset; a store replaces the bytes at an offset.
pub mod Fields
pub mod Stores
pub mod Filled
pub mod Bitmap
pub mod Records
pub mod Heads
pub mod Lengths
pub mod Values
pub mod Returned
pub mod Kept
pub mod Made
pub mod Inserted
pub mod Secondary
pub mod Pages
mod Examples
use rapid_db.Common.{
  ℕ, ◌+◌, ◌-◌, ◌*◌, ◌/◌, ◌^◌, List, [], ◌∷◌, ◌++◌, Option, none, some, Bool, true, false, not, ltb,
  ◌==◌, if◌then◌else◌, bit_and, length, take, drop, map,
}
use rapid_db.Bytes.{to_le, from_le}
use rapid_db.Record.{ActionType, insert, delete, is_action}
use rapid_db.Record.Length.{overflows, page_num, insert_total_len}
use rapid_db.Value.{DataValue}
use rapid_db.Value.Stored.{SavePosition, write_data}

unfoldable pub store : ℕ → List ℕ → List ℕ → List ℕ
store off bs buf = take off buf ++ (bs ++ drop (off + length bs) buf)

-- The number that the `n` bytes at an offset are.
unfoldable pub word : ℕ → ℕ → List ℕ → ℕ
word off n buf = from_le (take n (drop off buf))

-- Where `_bysValStart` points: into the record, to the front of the overflow page, or it is nullptr.
pub data Start : Type 0 where
  in_record : ℕ → Start
  in_page : Start
  nowhere : Start

-- RecStruct; `overflow` are `_arrCrc32`, `_pidStart` and `_pageNum`, where they are not nullptr.
pub record RecStruct : Type 0 where
  pub total_len : ℕ
  pub key_len : ℕ
  pub bys_key : ℕ
  pub by_ver_flow : ℕ
  pub arr_stamp : ℕ
  pub arr_val_len : ℕ
  pub overflow : Option (ℕ × ℕ × ℕ)
  pub bys_val_start : Start

-- The first constructor; the flag is whether there is an overflow page.
unfoldable pub init_struct : ℕ → Bool → RecStruct
init_struct key_len has_page =
    let flow = 4 + key_len in
    let vals = flow + 1 + 8 in
    record {
      total_len = 0;
      key_len = 2;
      bys_key = 4;
      by_ver_flow = flow;
      arr_stamp = flow + 1;
      arr_val_len = vals;
      overflow = if has_page then some (vals + 4, vals + 4 + 4, vals + 4 + 4 + 4) else none;
      bys_val_start = if has_page then in_page else in_record (vals + 4);
    }

abbrev pub rec_overflow : ℕ
rec_overflow = 0x80

abbrev pub rec_delete : ℕ
rec_delete = 0x40

-- The second constructor, of the bytes that are there.
unfoldable pub load_struct : List ℕ → Bool → RecStruct
unfolding word
load_struct bys has_page =
    let flow = 4 + word 2 2 bys in
    let vals = flow + 1 + 8 in
    let overflowed = not (bit_and (word flow 1 bys) rec_overflow == 0) in
    record {
      total_len = 0;
      key_len = 2;
      bys_key = 4;
      by_ver_flow = flow;
      arr_stamp = flow + 1;
      arr_val_len = vals;
      overflow = if overflowed then some (vals + 4, vals + 4 + 4, vals + 4 + 4 + 4) else none;
      bys_val_start =
          if overflowed then if has_page then in_page else nowhere else in_record (vals + 4);
    }

abbrev pub ver_flow : Bool → ActionType → ℕ → ℕ
ver_flow overflowed type ver_num =
    (if overflowed then rec_overflow else 0)
    + (if is_action type delete then rec_delete else 0)
    + ver_num

abbrev pub is_some {ℓ} : {A : Type ℓ} → Option A → Bool
is_some none = false
is_some (some a) = true

unfoldable pub fill_header_buff : RecStruct → ℕ → ℕ → ℕ → ℕ → ℕ → ActionType → List ℕ → List ℕ
unfolding store
fill_header_buff s total_len key_len ver_num stamp val_len type buf =
    let b1 = store s.total_len (to_le 2 total_len) buf in
    let b2 = store s.key_len (to_le 2 key_len) b1 in
    let b3 = store s.by_ver_flow (to_le 1 (ver_flow (is_some s.overflow) type ver_num)) b2 in
    let b4 = store s.arr_stamp (to_le 8 stamp) b3 in store s.arr_val_len (to_le 4 val_len) b4

-- The loop of FillKeyBuff from an offset.
unfoldable pub fill_key_buff : ℕ → List DataValue → List ℕ → List ℕ
unfolding store
fill_key_buff bys [] buf = buf
fill_key_buff bys (dv ∷ dvs) buf =
    let bs = write_data dv SavePosition.key in
    fill_key_buff (bys + length bs) dvs (store bys bs buf)
