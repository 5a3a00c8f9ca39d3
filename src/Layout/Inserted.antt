-- ===== src/Layout/Inserted.antt =====
-- src/core/LeafRecord.cpp: what the constructor for INSERT makes, from its arguments to the values that are
-- read.
use rapid_db.Common.{
  ℕ, ◌+◌, ◌-◌, ◌*◌, ◌^◌, ◌≤◌, ◌<◌, ◌≡◌, refl, ◌∙◌, inl, inr, List, [], ◌++◌, none, some, true,
  false, if◌then◌else◌, length, map, All, arith, Bool-cases, length-append,
}
use rapid_db.Record.Length.{overflows, page_num, insert_total_len, index_page_size}
use rapid_db.Value.{DataValue}
use rapid_db.Value.Stored.{fresh}
use rapid_db.Value.Returned.{Fits}
use rapid_db.Layout.Fields.{max_key_length, calc_key_length, calc_value_length}
use rapid_db.Layout.Filled.{all_values, all_lengths}
use rapid_db.Layout.Returned.{stored}
use rapid_db.Layout.Records.{
  OverflowPage, LeafRecord, insert_record, read_record, insert_in_record, insert_in_page,
}
use rapid_db.Layout.Lengths.{key_bytes, length-key_bytes, length-all_values}
use rapid_db.Layout.Values.{written, bitmap, length-bitmap}
use rapid_db.Layout.Made.{insert_in_record-returned, insert_in_page-returned}

pub calc_key_length-bytes :
    (dvs : List DataValue)
    → All Fits dvs
    → length (key_bytes dvs) ≤ max_key_length
    → calc_key_length dvs ≡ length (key_bytes dvs)
unfolding calc_key_length
calc_key_length-bytes dvs f h = ground (arith, length-key_bytes dvs f)

calc_value_length-written :
    (dvs : List DataValue)
    → All Fits dvs
    → length (written dvs) < 2 ^ 32
    → calc_value_length (length (all_lengths dvs)) dvs ≡ length (written dvs)
unfolding calc_value_length
calc_value_length-written dvs f h = omega (
  arith,
  length-append (bitmap dvs) (all_lengths dvs ++ all_values dvs),
  length-append (all_lengths dvs) (all_values dvs),
  length-bitmap dvs,
  length-all_values dvs f,
)

-- The memory that is reserved has room for the head, and for the values or what points to their pages.
room_in_record :
    (k v : ℕ) → k ≤ max_key_length → overflows k v ≡ false → 17 + k + v ≡ insert_total_len k v
unfolding insert_total_len overflows
room_in_record k v h e = ground arith

room_in_page : (k v : ℕ) → k ≤ max_key_length → overflows k v ≡ true → 27 + k ≤ insert_total_len k v
unfolding insert_total_len overflows
room_in_page k v h e = ground arith

pages_hold : (v : ℕ) → v ≤ index_page_size * (2 ^ 16 - 1) → v ≤ page_num v * index_page_size
unfolding page_num
pages_hold v h = omega arith

module _ (checksum : List ℕ → ℕ) (apply_ovf_page : ℕ → OverflowPage) where
  -- What `insert_record` is when the key is short enough.
  made :
      (vct_key vct_val : List DataValue) (rec_stamp : ℕ) (buf : List ℕ)
      → All Fits vct_key
      → All Fits vct_val
      → length (key_bytes vct_key) ≤ max_key_length
      → length (written vct_val) < 2 ^ 32
      → insert_record checksum apply_ovf_page
          (length (all_lengths vct_val))
          vct_key
          vct_val
          rec_stamp
          buf
        ≡ (if overflows (length (key_bytes vct_key)) (length (written vct_val))
            then some (
                insert_in_page checksum apply_ovf_page
                  (length (key_bytes vct_key))
                  (length (written vct_val))
                  (length (all_lengths vct_val))
                  vct_key
                  vct_val
                  rec_stamp
                  buf)
            else some (
                insert_in_record checksum apply_ovf_page
                  (length (key_bytes vct_key))
                  (length (written vct_val))
                  (length (all_lengths vct_val))
                  vct_key
                  vct_val
                  rec_stamp
                  buf))
  unfolding insert_record
  made vct_key vct_val rec_stamp buf ks vs hk hv =
      rw (calc_key_length-bytes vct_key ks hk, calc_value_length-written vct_val vs hv)
        (ground arith)

  -- A record of the primary index is made for any key of at most 2000 bytes and any values that fit their
  -- columns and take less than 2 ^ 30 bytes, in memory of the length that is reserved for it. From it, or from
  -- its overflow pages where the values go there, all values are read back as they were; one without bytes,
  -- a null or an empty string, is read as a null.
  pub insert_record-returned :
      (vct_key vct_val : List DataValue) (rec_stamp : ℕ) (buf : List ℕ)
      → All Fits vct_key
      → All Fits vct_val
      → length (key_bytes vct_key) ≤ max_key_length
      → length (written vct_val) ≤ index_page_size * (2 ^ 16 - 1)
      → insert_total_len (length (key_bytes vct_key)) (length (written vct_val)) ≤ length buf
      → ((n : ℕ) → n * index_page_size ≤ length (apply_ovf_page n).bys_page)
      → (lr : LeafRecord) × (insert_record checksum apply_ovf_page
            (length (all_lengths vct_val))
            vct_key
            vct_val
            rec_stamp
            buf
          ≡ some lr)
        × (read_record lr (map fresh vct_val) (length (all_lengths vct_val)) []
            ≡ some (map (λ dv. some (stored dv)) vct_val))
  insert_record-returned vct_key vct_val rec_stamp buf ks vs hk hv hb hp =
      let k = length (key_bytes vct_key) in
      let v = length (written vct_val) in
      let vl = length (all_lengths vct_val) in
      let m = made vct_key vct_val rec_stamp buf ks vs hk (omega arith) in
      elim (Bool-cases (overflows k v)) [
        | inl o ↦ (
          insert_in_page checksum apply_ovf_page k v vl vct_key vct_val rec_stamp buf,
          m ∙ rw o refl,
          (insert_in_page-returned vct_key vct_val rec_stamp buf ks vs checksum apply_ovf_page
              (omega arith) (omega (arith, room_in_page k v hk o))
              (omega (arith, hp (page_num v), pages_hold v hv))).1,
        )
        | inr o ↦ (
          insert_in_record checksum apply_ovf_page k v vl vct_key vct_val rec_stamp buf,
          m ∙ rw o refl,
          (insert_in_record-returned vct_key vct_val rec_stamp buf ks vs checksum apply_ovf_page
              (omega arith) (omega (arith, room_in_record k v hk o))).1,
        )
      ]

  -- A record with a key of more than 2000 bytes is not valid.
  pub insert_record-refused :
      (val_var_len : ℕ) (vct_key vct_val : List DataValue) (rec_stamp : ℕ) (buf : List ℕ)
      → All Fits vct_key
      → max_key_length < length (key_bytes vct_key)
      → length (key_bytes vct_key) < 2 ^ 32
      → insert_record checksum apply_ovf_page val_var_len vct_key vct_val rec_stamp buf ≡ none
  unfolding insert_record calc_key_length
  insert_record-refused val_var_len vct_key vct_val rec_stamp buf ks h l =
      ground (arith, length-key_bytes vct_key ks)
