-- ===== src/Layout/Made.antt =====
-- A record that is made is read back, from the page of the tree or from its overflow pages.
use rapid_db.Common.{
  ℕ, ◌+◌, ◌^◌, ◌≤◌, ◌<◌, ◌≡◌, refl, sym, ap, ap₂, subst, ◌∙◌, List, [], ◌++◌, none, some, Bool,
  true, false, length, take, drop, map, All, arith, take-append-drop, length-take, length-drop,
}
use rapid_db.Record.{insert}
use rapid_db.Record.Length.{page_num, insert_total_len}
use rapid_db.Value.{DataValue}
use rapid_db.Value.Stored.{fresh}
use rapid_db.Value.Returned.{Fits}
use rapid_db.Layout.{RecStruct, word, init_struct, load_struct, fill_header_buff, fill_key_buff}
use rapid_db.Layout.Fields.{read_value_struct, fill_value_buff, read_values}
use rapid_db.Layout.Filled.{all_lengths}
use rapid_db.Layout.Heads.{Head, fill_header_buff-Head, load_struct-Head, length-fill_header_buff}
use rapid_db.Layout.Returned.{stored}
use rapid_db.Layout.Records.{
  OverflowPage, fill_overflow, insert_in_record, insert_in_page, read_record, read_by_struct,
}
use rapid_db.Layout.Lengths.{key_bytes, fill_key_buff-store}
use rapid_db.Layout.Values.{
  written, written_tail, length-map, fill_value_buff-written, read_values-written,
}
use rapid_db.Layout.Kept.{Head-prefix, fill_overflow-Head}

-- Reading goes by the struct that is loaded.
module _ (n : ℕ) (bys : List ℕ) (cols : List DataValue) (val_var_len : ℕ)
    (map_pos : List (ℕ × ℕ)) where
  read_in_record :
      load_struct bys false ≡ init_struct n false
      → read_record (record { bys_val = bys; overflow_page = none }) cols val_var_len map_pos
        ≡ read_values cols
            (read_value_struct (4 + n + 1 + 8 + 4) (length cols) val_var_len)
            (word (4 + n + 1) 8 bys)
            map_pos
            bys
  unfolding read_record read_by_struct init_struct
  read_in_record e =
      ap
        (λ (s : RecStruct).
          read_by_struct s (record { bys_val = bys; overflow_page = none }) cols val_var_len
            map_pos)
        e

  read_in_page :
      (page : OverflowPage)
      → load_struct bys true ≡ init_struct n true
      → read_record (record { bys_val = bys; overflow_page = some page }) cols val_var_len map_pos
        ≡ read_values cols
            (read_value_struct 0 (length cols) val_var_len)
            (word (4 + n + 1) 8 bys)
            map_pos
            page.bys_page
  unfolding read_record read_by_struct init_struct
  read_in_page page e =
      ap
        (λ (s : RecStruct).
          read_by_struct s (record { bys_val = bys; overflow_page = some page }) cols val_var_len
            map_pos)
        e

module _ (vct_key vct_val : List DataValue) (rec_stamp : ℕ) (buf : List ℕ) (keys : All Fits vct_key)
    (vals : All Fits vct_val) where
  abbrev len_key : ℕ
  len_key = length (key_bytes vct_key)

  abbrev val_var_len : ℕ
  val_var_len = length (all_lengths vct_val)

  abbrev len_val : ℕ
  len_val = length (written vct_val)

  abbrev HeadOf : Bool → List ℕ → Type 0
  HeadOf over =
      Head over (insert_total_len len_key len_val) len_key rec_stamp len_val insert
        (key_bytes vct_key)

  -- The head with its key, before the values.
  headed :
      (over : Bool)
      → 17 + len_key ≤ length buf
      → let s = init_struct len_key over in
        let bys = fill_key_buff s.bys_key vct_key (
          fill_header_buff s
            (insert_total_len len_key len_val)
            len_key
            1
            rec_stamp
            len_val
            insert
            buf) in
        Head over
          (insert_total_len len_key len_val)
          len_key
          rec_stamp
          len_val
          insert
          (key_bytes vct_key)
          bys
        × (length bys ≡ length buf)
  unfolding init_struct
  headed over h =
      let total = insert_total_len len_key len_val in
      let head =
        fill_header_buff (init_struct len_key over) total len_key 1 rec_stamp len_val insert buf in
      rw
        (fill_key_buff-store vct_key 4 head (
          omega (arith, length-fill_header_buff over total len_key rec_stamp len_val insert buf h)))
        (fill_header_buff-Head over total len_key rec_stamp len_val insert (key_bytes vct_key) buf
          refl h)

  -- Values that go into the record.
  pub insert_in_record-returned :
      (checksum : List ℕ → ℕ) (apply_ovf_page : ℕ → OverflowPage)
      → len_key < 2 ^ 16
      → 17 + len_key + len_val ≤ length buf
      → let lr =
          insert_in_record checksum apply_ovf_page len_key len_val val_var_len vct_key vct_val
            rec_stamp buf in
        Head false
          (insert_total_len len_key len_val)
          len_key
          rec_stamp
          len_val
          insert
          (key_bytes vct_key)
          lr.bys_val
        × (read_record lr (map fresh vct_val) val_var_len []
            ≡ some (map (λ dv. some (stored dv)) vct_val))
  unfolding insert_in_record init_struct
  insert_in_record-returned checksum apply_ovf_page k h =
      let total = insert_total_len len_key len_val in
      let s = init_struct len_key false in
      let b2 =
        fill_key_buff 4 vct_key (fill_header_buff s total len_key 1 rec_stamp len_val insert buf) in
      let hd = headed false (omega arith) in
      let m = 4 + len_key + 1 + 8 + 4 in
      let p = take m b2 in
      let area = drop m b2 in
      let lb : length b2 ≡ length buf = hd.1 in
      let lp : length p ≡ m = omega (arith, length-take m b2) in
      let whole : p ++ area ≡ b2 = take-append-drop m b2 in
      let tail = written_tail vct_val area in
      let bys = fill_value_buff (read_value_struct m (length vct_val) val_var_len) vct_val b2 in
      let form : bys ≡ p ++ tail =
        ap
          (λ (t : List ℕ).
            fill_value_buff (read_value_struct m (length vct_val) val_var_len) vct_val t)
          (sym whole)
        ∙ ap
            (λ (q : ℕ).
              fill_value_buff (read_value_struct q (length vct_val) val_var_len) vct_val
                (p ++ area))
            (sym lp)
        ∙ fill_value_buff-written vct_val p area (omega (arith, length-drop m b2)) in
      let hb : HeadOf false bys = subst (HeadOf false) (sym form) (
        Head-prefix false total len_key rec_stamp len_val insert (key_bytes vct_key) p area tail
          (omega arith) (subst (HeadOf false) (sym whole) hd.0)) in
      (
        hb,
        read_in_record len_key bys (map fresh vct_val) val_var_len [] (
              load_struct-Head false false total len_key rec_stamp len_val insert
                (key_bytes vct_key) bys hb k (λ e. e))
            ∙ ap
                (λ (q : ℕ).
                  read_values (map fresh vct_val) (read_value_struct m q val_var_len)
                    (word (4 + len_key + 1) 8 bys) [] bys)
                (length-map vct_val)
            ∙ ap₂
                (λ (q : ℕ) (t : List ℕ).
                  read_values (map fresh vct_val) (read_value_struct q (length vct_val) val_var_len)
                    (word (4 + len_key + 1) 8 bys) [] t)
                (sym lp) form
            ∙ read_values-written vct_val p (drop (length (written vct_val)) area)
                (word (4 + len_key + 1) 8 bys) vals,
      )

  -- Values that go to overflow pages: the record has the pages' number and the checksum besides.
  pub insert_in_page-returned :
      (checksum : List ℕ → ℕ) (apply_ovf_page : ℕ → OverflowPage)
      → len_key < 2 ^ 16
      → 27 + len_key ≤ length buf
      → len_val ≤ length (apply_ovf_page (page_num len_val)).bys_page
      → let lr =
          insert_in_page checksum apply_ovf_page len_key len_val val_var_len vct_key vct_val
            rec_stamp buf in
        HeadOf true lr.bys_val
        × (read_record lr (map fresh vct_val) val_var_len []
            ≡ some (map (λ dv. some (stored dv)) vct_val))
  unfolding insert_in_page init_struct
  insert_in_page-returned checksum apply_ovf_page k h room =
      let total = insert_total_len len_key len_val in
      let page = apply_ovf_page (page_num len_val) in
      let m = 4 + len_key + 1 + 8 + 4 in
      let m_is : 17 + len_key ≡ m = omega arith in
      let b2 = fill_key_buff 4 vct_key (
        fill_header_buff (init_struct len_key true) total len_key 1 rec_stamp len_val insert buf) in
      let hd = headed true (omega arith) in
      let bytes =
        fill_value_buff (read_value_struct 0 (length vct_val) val_var_len) vct_val page.bys_page in
      let form : bytes ≡ written_tail vct_val page.bys_page =
        fill_value_buff-written vct_val [] page.bys_page room in
      let bys =
        fill_overflow (some (m, m + 4, m + 4 + 4)) (checksum (take len_val bytes)) page b2 in
      let lb : length b2 ≡ length buf = hd.1 in
      let hb : HeadOf true bys =
        subst
          (λ (q : ℕ).
            HeadOf true
              (fill_overflow (some (q, q + 4, q + 4 + 4)) (checksum (take len_val bytes)) page b2))
          m_is
          (fill_overflow-Head total rec_stamp len_key len_val (key_bytes vct_key) b2 page
            (checksum (take len_val bytes)) (omega arith) hd.0) in
      (
        hb,
        read_in_page len_key bys (map fresh vct_val) val_var_len []
              (record page { bys_page = bytes })
              (load_struct-Head true true total len_key rec_stamp len_val insert (key_bytes vct_key)
                bys hb k (λ e. e))
            ∙ ap
                (λ (q : ℕ).
                  read_values (map fresh vct_val) (read_value_struct 0 q val_var_len)
                    (word (4 + len_key + 1) 8 bys) [] bytes)
                (length-map vct_val)
            ∙ ap
                (λ (t : List ℕ).
                  read_values (map fresh vct_val) (read_value_struct 0 (length vct_val) val_var_len)
                    (word (4 + len_key + 1) 8 bys) [] t)
                form
            ∙ read_values-written vct_val [] (drop (length (written vct_val)) page.bys_page)
                (word (4 + len_key + 1) 8 bys) vals,
      )
