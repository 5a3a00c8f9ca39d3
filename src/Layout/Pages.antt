-- ===== src/Layout/Pages.antt =====
-- What a record says of its values' place and length: LoadOverflowPage and GetValueLength.
use rapid_db.Common.{
  ℕ, ◌+◌, ◌%◌, ◌^◌, ◌≤◌, ◌<◌, ◌≡◌, ap, ap₂, ◌∙◌, inl, inr, List, some, Bool, true, length, take,
  drop, arith,
}
use rapid_db.Bytes.{to_le, from_le}
use rapid_db.Bytes.Words.{length-to_le, from_le-to_le}
use rapid_db.Record.{ActionType, insert}
use rapid_db.Layout.{store, word, ver_flow}
use rapid_db.Layout.Heads.{Head, flow_byte, later, placed_now}
use rapid_db.Layout.Stores.{length-store}
use rapid_db.Layout.Records.{OverflowPage, fill_overflow, load_overflow_page, get_value_length}

-- The value's length in the head, cut to 16 bits.
pub get_value_length-Head :
    (over : Bool) (total n stamp len_val : ℕ) (type : ActionType) (key bys : List ℕ)
    → Head over total n stamp len_val type key bys
    → n < 2 ^ 16
    → len_val < 2 ^ 32
    → get_value_length bys ≡ len_val % 2 ^ 16
unfolding get_value_length word
get_value_length-Head over total n stamp len_val type key bys h l m =
    rw (h.key_len_is, from_le-to_le 2 n (omega arith))
      (ap (λ (w : ℕ). w % 2 ^ 16)
        (ap (λ (q : ℕ). from_le (take 4 (drop q bys))) (omega arith)
          ∙ ap from_le h.val_len_is
          ∙ from_le-to_le 4 len_val (omega arith)))

-- The pages that a record was made with are the ones that are loaded.
pub load_overflow_page-filled :
    (total n stamp len_val : ℕ) (key bys : List ℕ) (page : OverflowPage) (crc32 : ℕ)
    → 27 + n ≤ length bys
    → n < 2 ^ 16
    → page.page_id < 2 ^ 32
    → page.page_num < 2 ^ 16
    → let made = fill_overflow (some (17 + n, 17 + n + 4, 17 + n + 4 + 4)) crc32 page bys in
      Head true total n stamp len_val insert key made
      → load_overflow_page made ≡ some (page.page_id, page.page_num)
unfolding load_overflow_page word fill_overflow
load_overflow_page-filled total n stamp len_val key bys page crc32 r l i j h =
    let b1 = store (17 + n + 4) (to_le 4 page.page_id) bys in
    let b2 = store (17 + n + 4 + 4) (to_le 2 page.page_num) b1 in
    let b3 = store (17 + n) (to_le 4 crc32) b2 in
    let l1 : length b1 ≡ length bys =
      length-store bys (to_le 4 page.page_id) (17 + n + 4)
        (omega (arith, length-to_le 4 page.page_id)) in
    let l2 : length b2 ≡ length bys =
      length-store b1 (to_le 2 page.page_num) (17 + n + 4 + 4)
        (omega (arith, length-to_le 2 page.page_num))
      ∙ l1 in
    let c : length (to_le 4 crc32) ≡ 4 = length-to_le 4 crc32 in
    let d : length (to_le 2 page.page_num) ≡ 2 = length-to_le 2 page.page_num in
    let pid : take 4 (drop (17 + n + 4) b3) ≡ to_le 4 page.page_id =
      later (17 + n + 4) 4 (17 + n) (to_le 4 crc32) b2 (to_le 4 page.page_id) (omega arith)
        (inr (omega arith))
        (later (17 + n + 4) 4 (17 + n + 4 + 4) (to_le 2 page.page_num) b1 (to_le 4 page.page_id)
          (omega arith) (inl (omega arith))
          (placed_now 4 (17 + n + 4) (to_le 4 page.page_id) bys (length-to_le 4 page.page_id)
            (omega arith))) in
    let num : take 2 (drop (17 + n + 4 + 4) b3) ≡ to_le 2 page.page_num =
      later (17 + n + 4 + 4) 2 (17 + n) (to_le 4 crc32) b2 (to_le 2 page.page_num) (omega arith)
        (inr (omega arith))
        (placed_now 2 (17 + n + 4 + 4) (to_le 2 page.page_num) b1 d (omega arith)) in
    rw
      (
        h.key_len_is,
        from_le-to_le 2 n (omega arith),
        h.flow_is,
        from_le-to_le 1 (ver_flow true insert 1) (flow_byte true insert),
      )
      (ap₂ (λ (a b : ℕ). some (a, b))
        (ap (λ (q : ℕ). from_le (take 4 (drop q b3))) (omega arith)
          ∙ ap from_le pid
          ∙ from_le-to_le 4 page.page_id (omega arith))
        (ap (λ (q : ℕ). from_le (take 2 (drop q b3))) (omega arith)
          ∙ ap from_le num
          ∙ from_le-to_le 2 page.page_num (omega arith)))
