-- ===== src/Layout/Heads.antt =====
-- The head of a record, as it is written and as it is loaded.
use rapid_db.Common.{
  ℕ, ◌+◌, ◌^◌, ◌≤◌, ◌<◌, ◌≡◌, ◌⊎◌, inl, inr, refl, sym, ap, ◌∙◌, List, Bool, true, false, not, ◌==◌,
  if◌then◌else◌, bit_and, length, take, drop, arith, Bool-cases,
}
use rapid_db.Bytes.{to_le}
use rapid_db.Bytes.Words.{length-to_le, from_le-to_le}
use rapid_db.Record.{ActionType, delete, is_action}
use rapid_db.Layout.{
  store, word, init_struct, load_struct, is_some, rec_overflow, rec_delete, ver_flow,
  fill_header_buff,
}
use rapid_db.Layout.Stores.{length-store, stored_bytes, bytes_before, bytes_behind}

-- Bytes apart from a store stay.
pub later :
    (j n k : ℕ) (bs a x : List ℕ)
    → k + length bs ≤ length a
    → (j + n ≤ k) ⊎ (k + length bs ≤ j)
    → take n (drop j a) ≡ x
    → take n (drop j (store k bs a)) ≡ x
later j n k bs a x h (inl l) e = bytes_before j n k bs a (omega arith) l ∙ e
later j n k bs a x h (inr l) e = bytes_behind j n k bs a h l ∙ e

pub placed_now :
    (n k : ℕ) (bs a : List ℕ)
    → length bs ≡ n
    → k + n ≤ length a
    → take n (drop k (store k bs a)) ≡ bs
placed_now n k bs a e h =
    ap (λ (m : ℕ). take m (drop k (store k bs a))) (sym e) ∙ stored_bytes k bs a (omega arith)

-- What stands where in a head: its words, and a key of `n` bytes.
module _ (n : ℕ) (t k f s v key : List ℕ) where
  pub record Laid (bys : List ℕ) : Type 0 where
    pub total_is : take 2 (drop 0 bys) ≡ t
    pub key_len_is : take 2 (drop 2 bys) ≡ k
    pub key_is : take n (drop 4 bys) ≡ key
    pub flow_is : take 1 (drop (4 + n) bys) ≡ f
    pub stamp_is : take 8 (drop (4 + n + 1) bys) ≡ s
    pub val_len_is : take 4 (drop (4 + n + 1 + 8) bys) ≡ v

-- Five words in front of and behind a key, and the key, stored in the order of the constructor.
module _ (n : ℕ) (t k f s v key buf : List ℕ) where
  unfoldable pub six_stores : List ℕ
  unfolding store
  six_stores =
      let b1 = store 0 t buf in
      let b2 = store 2 k b1 in
      let b3 = store (4 + n) f b2 in
      let b4 = store (4 + n + 1) s b3 in let b5 = store (4 + n + 1 + 8) v b4 in store 4 key b5

  pub six_stores-Laid :
      length t ≡ 2
      → length k ≡ 2
      → length f ≡ 1
      → length s ≡ 8
      → length v ≡ 4
      → length key ≡ n
      → 17 + n ≤ length buf
      → Laid n t k f s v key six_stores × (length six_stores ≡ length buf)
  unfolding six_stores
  six_stores-Laid lt lk lf ls lv ly h =
      let b1 = store 0 t buf in
      let b2 = store 2 k b1 in
      let b3 = store (4 + n) f b2 in
      let b4 = store (4 + n + 1) s b3 in
      let b5 = store (4 + n + 1 + 8) v b4 in
      let l1 : length b1 ≡ length buf = length-store buf t 0 (omega arith) in
      let l2 : length b2 ≡ length buf = length-store b1 k 2 (omega arith) ∙ l1 in
      let l3 : length b3 ≡ length buf = length-store b2 f (4 + n) (omega arith) ∙ l2 in
      let l4 : length b4 ≡ length buf = length-store b3 s (4 + n + 1) (omega arith) ∙ l3 in
      let l5 : length b5 ≡ length buf = length-store b4 v (4 + n + 1 + 8) (omega arith) ∙ l4 in
      let past3 = λ (j m : ℕ) (x : List ℕ) (a : j + m ≤ 4) (e : take m (drop j b2) ≡ x).
        later j m 4 key b5 x (omega arith) (inl a) (
          later j m (4 + n + 1 + 8) v b4 x (omega arith) (inl (omega arith)) (
            later j m (4 + n + 1) s b3 x (omega arith) (inl (omega arith))
              (later j m (4 + n) f b2 x (omega arith) (inl (omega arith)) e))) in
      (
        record {
          total_is = past3 0 2 t (omega arith) (
              later 0 2 2 k b1 t (omega arith) (inl (omega arith))
                (placed_now 2 0 t buf lt (omega arith)));
          key_len_is = past3 2 2 k (omega arith) (placed_now 2 2 k b1 lk (omega arith));
          key_is = placed_now n 4 key b5 ly (omega arith);
          flow_is = later (4 + n) 1 4 key b5 f (omega arith) (inr (omega arith)) (
              later (4 + n) 1 (4 + n + 1 + 8) v b4 f (omega arith) (inl (omega arith)) (
                later (4 + n) 1 (4 + n + 1) s b3 f (omega arith) (inl (omega arith))
                  (placed_now 1 (4 + n) f b2 lf (omega arith))));
          stamp_is = later (4 + n + 1) 8 4 key b5 s (omega arith) (inr (omega arith)) (
              later (4 + n + 1) 8 (4 + n + 1 + 8) v b4 s (omega arith) (inl (omega arith))
                (placed_now 8 (4 + n + 1) s b3 ls (omega arith)));
          val_len_is =
              later (4 + n + 1 + 8) 4 4 key b5 v (omega arith) (inr (omega arith))
                (placed_now 4 (4 + n + 1 + 8) v b4 lv (omega arith));
        },
        length-store b5 key 4 (omega arith) ∙ l5,
      )

-- The head of a record with its key, as its first 17 bytes and the key are.
abbrev pub Head : Bool → ℕ → ℕ → ℕ → ℕ → ActionType → List ℕ → List ℕ → Type 0
Head over total len_key stamp len_val type key =
    Laid len_key (to_le 2 total) (to_le 2 len_key) (to_le 1 (ver_flow over type 1)) (to_le 8 stamp)
      (to_le 4 len_val) key

both :
    (over : Bool) (total len_key stamp len_val : ℕ) (type : ActionType) (key buf : List ℕ)
    → length key ≡ len_key
    → 17 + len_key ≤ length buf
    → let bys =
        six_stores len_key
          (to_le 2 total)
          (to_le 2 len_key)
          (to_le 1 (ver_flow over type 1))
          (to_le 8 stamp)
          (to_le 4 len_val)
          key
          buf in
      Head over total len_key stamp len_val type key bys × (length bys ≡ length buf)
both over total len_key stamp len_val type key buf e h =
    six_stores-Laid len_key (to_le 2 total) (to_le 2 len_key) (to_le 1 (ver_flow over type 1))
      (to_le 8 stamp) (to_le 4 len_val) key buf (length-to_le 2 total) (length-to_le 2 len_key)
      (length-to_le 1 (ver_flow over type 1)) (length-to_le 8 stamp) (length-to_le 4 len_val) e h

-- FillHeaderBuff and the key after it.
pub fill_header_buff-Head :
    (over : Bool) (total len_key stamp len_val : ℕ) (type : ActionType) (key buf : List ℕ)
    → length key ≡ len_key
    → 17 + len_key ≤ length buf
    → let bys =
        store 4 key
          (fill_header_buff (init_struct len_key over) total len_key 1 stamp len_val type buf) in
      Head over total len_key stamp len_val type key bys × (length bys ≡ length buf)
unfolding fill_header_buff init_struct six_stores
fill_header_buff-Head true total len_key stamp len_val type key buf e h =
    both true total len_key stamp len_val type key buf e h
fill_header_buff-Head false total len_key stamp len_val type key buf e h =
    both false total len_key stamp len_val type key buf e h

pub length-fill_header_buff :
    (over : Bool) (total len_key stamp len_val : ℕ) (type : ActionType) (buf : List ℕ)
    → 17 + len_key ≤ length buf
    → length (fill_header_buff (init_struct len_key over) total len_key 1 stamp len_val type buf)
      ≡ length buf
unfolding fill_header_buff init_struct
length-fill_header_buff over total n stamp len_val type buf h =
    let flow = to_le 1 (ver_flow (is_some (init_struct n over).overflow) type 1) in
    let b1 = store 0 (to_le 2 total) buf in
    let b2 = store 2 (to_le 2 n) b1 in
    let b3 = store (4 + n) flow b2 in
    let b4 = store (4 + n + 1) (to_le 8 stamp) b3 in
    let l1 : length b1 ≡ length buf =
      length-store buf (to_le 2 total) 0 (omega (arith, length-to_le 2 total)) in
    let l2 : length b2 ≡ length buf =
      length-store b1 (to_le 2 n) 2 (omega (arith, length-to_le 2 n)) ∙ l1 in
    let l3 : length b3 ≡ length buf =
      length-store b2 flow (4 + n)
        (omega (arith, length-to_le 1 (ver_flow (is_some (init_struct n over).overflow) type 1)))
      ∙ l2 in
    let l4 : length b4 ≡ length buf =
      length-store b3 (to_le 8 stamp) (4 + n + 1) (omega (arith, length-to_le 8 stamp)) ∙ l3 in
    length-store b4 (to_le 4 len_val) (4 + n + 1 + 8) (omega (arith, length-to_le 4 len_val)) ∙ l4

pub flow_byte : (over : Bool) (type : ActionType) → ver_flow over type 1 < 256 ^ 1
flow_byte over type = ground arith

-- The overflow bit of the version byte.
pub overflow_bit :
    (over : Bool) (type : ActionType)
    → not (bit_and (ver_flow over type 1) rec_overflow == 0) ≡ over
overflow_bit over type = of_flags over (is_action type delete)
  where
    of_flags :
        (o d : Bool)
        → not (
            bit_and
              ((if o then rec_overflow else 0) + (if d then rec_delete else 0) + 1)
              rec_overflow
            == 0)
          ≡ o
    of_flags true true = refl
    of_flags true false = refl
    of_flags false true = refl
    of_flags false false = refl

-- A loaded record has the struct that its head was written by.
pub load_struct-Head :
    (over has_page : Bool) (total len_key stamp len_val : ℕ) (type : ActionType) (key bys : List ℕ)
    → Head over total len_key stamp len_val type key bys
    → len_key < 2 ^ 16
    → (over ≡ true → has_page ≡ true)
    → load_struct bys has_page ≡ init_struct len_key over
unfolding load_struct init_struct word
load_struct-Head over has_page total len_key stamp len_val type key bys h l p =
    rw
      (
        h.key_len_is,
        from_le-to_le 2 len_key (omega arith),
        h.flow_is,
        from_le-to_le 1 (ver_flow over type 1) (flow_byte over type),
        overflow_bit over type,
      )
      (elim (Bool-cases over) [ inl e ↦ rw (e, p e) refl | inr e ↦ rw e refl ])
