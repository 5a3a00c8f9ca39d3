-- ===== src/Layout/Kept.antt =====
-- The head of a record stays where the bytes behind it are written.
use rapid_db.Common.{ℕ, ◌+◌, ◌≤◌, ◌≡◌, sym, ◌∙◌, List, ◌++◌, some, Bool, true, length, arith}
use rapid_db.Bytes.{to_le}
use rapid_db.Bytes.Words.{length-to_le}
use rapid_db.Record.{ActionType, insert}
use rapid_db.Layout.{store}
use rapid_db.Layout.Heads.{Head}
use rapid_db.Layout.Records.{OverflowPage, fill_overflow}
use rapid_db.Layout.Stores.{bytes-left, bytes_before, length-store}

-- A head stays where what is behind it is changed.
pub Head-prefix :
    (over : Bool) (total n stamp len_val : ℕ) (type : ActionType) (key a b b' : List ℕ)
    → 17 + n ≤ length a
    → Head over total n stamp len_val type key (a ++ b)
    → Head over total n stamp len_val type key (a ++ b')
Head-prefix over total n stamp len_val type key a b b' l h =
    let same = λ (j m : ℕ) (i : j + m ≤ 17 + n).
      bytes-left a b' j m (omega arith) ∙ sym (bytes-left a b j m (omega arith)) in
    record {
      total_is = same 0 2 (omega arith) ∙ h.total_is;
      key_len_is = same 2 2 (omega arith) ∙ h.key_len_is;
      key_is = same 4 n (omega arith) ∙ h.key_is;
      flow_is = same (4 + n) 1 (omega arith) ∙ h.flow_is;
      stamp_is = same (4 + n + 1) 8 (omega arith) ∙ h.stamp_is;
      val_len_is = same (4 + n + 1 + 8) 4 (omega arith) ∙ h.val_len_is;
    }

-- The words for the overflow pages stand behind the head.
Head-store :
    (over : Bool) (total n stamp len_val k : ℕ) (type : ActionType) (key bs a : List ℕ)
    → 17 + n ≤ k
    → k ≤ length a
    → Head over total n stamp len_val type key a
    → Head over total n stamp len_val type key (store k bs a)
Head-store over total n stamp len_val k type key bs a l r h =
    let same = λ (j m : ℕ) (i : j + m ≤ 17 + n). bytes_before j m k bs a r (omega arith) in
    record {
      total_is = same 0 2 (omega arith) ∙ h.total_is;
      key_len_is = same 2 2 (omega arith) ∙ h.key_len_is;
      key_is = same 4 n (omega arith) ∙ h.key_is;
      flow_is = same (4 + n) 1 (omega arith) ∙ h.flow_is;
      stamp_is = same (4 + n + 1) 8 (omega arith) ∙ h.stamp_is;
      val_len_is = same (4 + n + 1 + 8) 4 (omega arith) ∙ h.val_len_is;
    }

pub fill_overflow-Head :
    (total stamp n len_val : ℕ) (key bys : List ℕ) (page : OverflowPage) (crc32 : ℕ)
    → 27 + n ≤ length bys
    → Head true total n stamp len_val insert key bys
    → Head true total n stamp len_val insert key
        (fill_overflow (some (17 + n, 17 + n + 4, 17 + n + 4 + 4)) crc32 page bys)
unfolding fill_overflow
fill_overflow-Head total stamp n len_val key bys page crc32 r h =
    let b1 = store (17 + n + 4) (to_le 4 page.page_id) bys in
    let b2 = store (17 + n + 4 + 4) (to_le 2 page.page_num) b1 in
    let l1 : length b1 ≡ length bys =
      length-store bys (to_le 4 page.page_id) (17 + n + 4)
        (omega (arith, length-to_le 4 page.page_id)) in
    let l2 : length b2 ≡ length bys =
      length-store b1 (to_le 2 page.page_num) (17 + n + 4 + 4)
        (omega (arith, length-to_le 2 page.page_num))
      ∙ l1 in
    Head-store true total n stamp len_val (17 + n) insert key (to_le 4 crc32) b2 (omega arith)
      (omega arith)
      (Head-store true total n stamp len_val (17 + n + 4 + 4) insert key (to_le 2 page.page_num) b1
        (omega arith) (omega arith)
        (Head-store true total n stamp len_val (17 + n + 4) insert key (to_le 4 page.page_id) bys
          (omega arith) (omega arith) h))
