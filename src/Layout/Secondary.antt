-- ===== src/Layout/Secondary.antt =====
-- src/core/LeafRecord.h and LeafRecord.cpp: records of the secondary indexes, whose value is the primary
-- key, and the comparisons of records by their bytes. The lock made for a statement is left out.
use mathlib.Core.List.{append-nil}
use mathlib.Core.Option.{some-injective}
use rapid_db.Common.{
  take_add, drop_add, ℕ, ◌+◌, ◌-◌, ◌^◌, ◌≤◌, ◌<◌, ◌≡◌, refl, sym, ap, ap₂, ◌∙◌, inl, List, [], ◌∷◌,
  ◌++◌, Option, none, some, Bool, false, if◌then◌else◌, ◌==◌, length, take, drop, All, arith, subst,
  length-append,
}
use rapid_db.Common.Int.{ℤ, sign}
use rapid_db.Bytes.{to_le, from_le, bytes_compare}
use rapid_db.Bytes.Words.{IsBytes, length-to_le, from_le-to_le}
use rapid_db.Bytes.Lex.{lex, and_then}
use rapid_db.Value.{DataValue, digit, chars, null_literal, get_data_type, code}
use rapid_db.Value.Stored.{SavePosition, write_data}
use rapid_db.Value.Order.{order}
use rapid_db.Value.Keys.{IsKey, get_max_length, write_data-order}
use rapid_db.Value.Returned.{Fits}
use rapid_db.Layout.{store, word, fill_key_buff}
use rapid_db.Layout.Fields.{max_key_length, calc_key_length}
use rapid_db.Layout.Heads.{later, placed_now}
use rapid_db.Layout.Stores.{length-store}
use rapid_db.Layout.Lengths.{key_bytes, fill_key_buff-store, length-key_bytes}
use rapid_db.Layout.Inserted.{calc_key_length-bytes}

-- The constructor, in the memory `buf` that CachePool::Apply hands out for `totalLen` bytes; none is a record
-- that is not valid.
unfoldable pub secondary_record : List DataValue → List ℕ → ℕ → List ℕ → Option (List ℕ)
unfolding calc_key_length fill_key_buff store
secondary_record vct_key bys_pri rec_stamp buf =
    let len_key = calc_key_length vct_key in
    let total_len = len_key + length bys_pri + 4 + 8 in
    let b1 = store 0 (to_le 2 total_len) buf in
    let b2 = store 2 (to_le 2 len_key) b1 in
    let b3 = fill_key_buff 4 vct_key b2 in
    let b4 = store (4 + len_key) bys_pri b3 in
    let b5 = store (4 + len_key + length bys_pri) (to_le 8 rec_stamp) b4 in
    if len_key == 2 ^ 16 - 1 then none else some b5

-- GetKeyLength, GetActualLength and GetDataLength.
abbrev pub get_key_length : List ℕ → ℕ
get_key_length bys = word 2 2 bys

abbrev pub get_actual_length : List ℕ → ℕ
get_actual_length bys = word 0 2 bys

abbrev pub get_data_length : List ℕ → ℕ
get_data_length bys = word 0 2 bys - 4 - 8

-- GetKey and GetPrimayKey.
unfoldable pub get_key : List ℕ → List ℕ
get_key bys = take (get_key_length bys) (drop 4 bys)

unfoldable pub get_primary_key : List ℕ → List ℕ
get_primary_key bys =
    let start = get_key_length bys + 4 in take (get_actual_length bys - start - 8) (drop start bys)

-- CompareTo, by whether the index is unique, and CompareKey with another record.
unfoldable pub compare_to : Bool → List ℕ → List ℕ → ℤ
compare_to unique bys1 bys2 =
    if unique
    then bytes_compare (take (get_key_length bys1) (drop 4 bys1))
        (take (get_key_length bys2) (drop 4 bys2))
    else bytes_compare (take (get_data_length bys1) (drop 4 bys1))
        (take (get_data_length bys2) (drop 4 bys2))

-- What a record of a secondary index holds: its key, the primary key and the stamp, and the bytes that it is
-- compared by.
pub record Holds (key pri : List ℕ) (stamp : ℕ) (bys : List ℕ) : Type 0 where
  pub key_is : get_key bys ≡ key
  pub primary_is : get_primary_key bys ≡ pri
  pub stamp_is : word (4 + length key + length pri) 8 bys ≡ stamp
  pub unique_data : take (get_key_length bys) (drop 4 bys) ≡ key
  pub data_is : take (get_data_length bys) (drop 4 bys) ≡ key ++ pri

module _ (n m : ℕ) (key pri t k s buf : List ℕ) where
  -- The five stores with the parts that they write.
  five : List ℕ
  five = store (4 + n + m) s (store (4 + n) pri (store 4 key (store 2 k (store 0 t buf))))

  five-parts :
      length t ≡ 2
      → length k ≡ 2
      → length key ≡ n
      → length pri ≡ m
      → length s ≡ 8
      → 12 + n + m ≤ length buf
      → (take 2 (drop 0 five) ≡ t)
        × (take 2 (drop 2 five) ≡ k)
        × (take n (drop 4 five) ≡ key)
        × (take m (drop (4 + n) five) ≡ pri)
        × (take 8 (drop (4 + n + m) five) ≡ s)
  unfolding five
  five-parts lt lk ly lp ls h =
      let b1 = store 0 t buf in
      let b2 = store 2 k b1 in
      let b3 = store 4 key b2 in
      let b4 = store (4 + n) pri b3 in
      let l1 : length b1 ≡ length buf = length-store buf t 0 (omega arith) in
      let l2 : length b2 ≡ length buf = length-store b1 k 2 (omega arith) ∙ l1 in
      let l3 : length b3 ≡ length buf = length-store b2 key 4 (omega arith) ∙ l2 in
      let l4 : length b4 ≡ length buf = length-store b3 pri (4 + n) (omega arith) ∙ l3 in
      let past = λ (j i : ℕ) (x : List ℕ) (a : j + i ≤ 4 + n) (e : take i (drop j b3) ≡ x).
        later j i (4 + n + m) s b4 x (omega arith) (inl (omega arith))
          (later j i (4 + n) pri b3 x (omega arith) (inl a) e) in
      (
        past 0 2 t (omega arith) (
            later 0 2 4 key b2 t (omega arith) (inl (omega arith)) (
              later 0 2 2 k b1 t (omega arith) (inl (omega arith))
                (placed_now 2 0 t buf lt (omega arith)))),
        past 2 2 k (omega arith) (
            later 2 2 4 key b2 k (omega arith) (inl (omega arith))
              (placed_now 2 2 k b1 lk (omega arith))),
        past 4 n key (omega arith) (placed_now n 4 key b2 ly (omega arith)),
        later (4 + n) m (4 + n + m) s b4 pri (omega arith) (inl (omega arith))
            (placed_now m (4 + n) pri b3 lp (omega arith)),
        placed_now 8 (4 + n + m) s b4 ls (omega arith),
      )

five-Holds :
    (key pri : List ℕ) (stamp : ℕ) (buf : List ℕ)
    → length key ≤ max_key_length
    → length pri < 2 ^ 15
    → stamp < 2 ^ 64
    → 12 + length key + length pri ≤ length buf
    → Holds key pri stamp (
        five
          (length key)
          (length pri)
          key
          pri
          (to_le 2 (length key + length pri + 4 + 8))
          (to_le 2 (length key))
          (to_le 8 stamp)
          buf)
unfolding get_key get_primary_key word
five-Holds key pri stamp buf hk hp hs h =
    let n = length key in
    let m = length pri in
    let t = n + m + 4 + 8 in
    let (p0, p1, p2, p3, p4) =
      five-parts n m key pri (to_le 2 t) (to_le 2 n) (to_le 8 stamp) buf (length-to_le 2 t)
        (length-to_le 2 n) refl refl (length-to_le 8 stamp) h in
    let bys = five n m key pri (to_le 2 t) (to_le 2 n) (to_le 8 stamp) buf in
    let total : from_le (take 2 (drop 0 bys)) ≡ t =
      ap from_le p0 ∙ from_le-to_le 2 t (omega arith) in
    let len : from_le (take 2 (drop 2 bys)) ≡ n = ap from_le p1 ∙ from_le-to_le 2 n (omega arith) in
    record {
      key_is = rw len p2;
      primary_is =
          rw (total, len) (ap₂ (λ (i j : ℕ). take i (drop j bys)) (omega arith) (omega arith) ∙ p3);
      stamp_is = ap from_le p4 ∙ from_le-to_le 8 stamp (omega arith);
      unique_data = rw len p2;
      data_is = rw total (
          ap (λ (i : ℕ). take i (drop 4 bys)) (omega arith)
          ∙ take_add n m (drop 4 bys)
          ∙ ap₂ ◌++◌ p2 (ap (take m) (sym (drop_add 4 n bys)) ∙ p3));
    }

-- Whatever the memory, a key of more than 2000 bytes makes no valid record.
secondary_record-refused :
    (vct_key : List DataValue) (bys_pri : List ℕ) (rec_stamp : ℕ) (buf : List ℕ)
    → All Fits vct_key
    → max_key_length < length (key_bytes vct_key)
    → length (key_bytes vct_key) < 2 ^ 32
    → secondary_record vct_key bys_pri rec_stamp buf ≡ none
unfolding secondary_record calc_key_length
secondary_record-refused vct_key bys_pri rec_stamp buf ks h l =
    ground (arith, length-key_bytes vct_key ks)

secondary_record-made :
    (vct_key : List DataValue) (bys_pri : List ℕ) (rec_stamp : ℕ) (buf : List ℕ)
    → All Fits vct_key
    → length (key_bytes vct_key) ≤ max_key_length
    → length bys_pri < 2 ^ 15
    → rec_stamp < 2 ^ 64
    → length (key_bytes vct_key) + length bys_pri + 4 + 8 ≤ length buf
    → (bys : List ℕ) × (secondary_record vct_key bys_pri rec_stamp buf ≡ some bys)
      × Holds (key_bytes vct_key) bys_pri rec_stamp bys
unfolding secondary_record five
secondary_record-made vct_key bys_pri rec_stamp buf ks hk hp hs h =
    let n = length (key_bytes vct_key) in
    let t = n + length bys_pri + 4 + 8 in
    let b1 = store 0 (to_le 2 t) buf in
    let b2 = store 2 (to_le 2 n) b1 in
    let l1 : length b1 ≡ length buf =
      length-store buf (to_le 2 t) 0 (omega (arith, length-to_le 2 t)) in
    let l2 : length b2 ≡ length buf =
      length-store b1 (to_le 2 n) 2 (omega (arith, length-to_le 2 n)) ∙ l1 in
    (
      five n (length bys_pri) (key_bytes vct_key) bys_pri (to_le 2 t) (to_le 2 n)
          (to_le 8 rec_stamp) buf,
      rw (calc_key_length-bytes vct_key ks hk, fill_key_buff-store vct_key 4 b2 (omega arith))
          (ground arith),
      five-Holds (key_bytes vct_key) bys_pri rec_stamp buf (omega arith) hp hs (omega arith),
    )

-- The constructor of a secondary record, for values that fit their columns, a primary key of less than
-- 2 ^ 15 bytes, a stamp below 2 ^ 64 and memory for all of them with 12 bytes more: if the key has at most
-- 2000 bytes, it makes a record that holds the key, the primary key and the stamp; if the key has more, and
-- less than 2 ^ 32, the record is not valid.
pub secondary_record-Holds :
    (vct_key : List DataValue) (bys_pri : List ℕ) (rec_stamp : ℕ) (buf : List ℕ)
    → All Fits vct_key
    → length bys_pri < 2 ^ 15
    → rec_stamp < 2 ^ 64
    → length (key_bytes vct_key) + length bys_pri + 4 + 8 ≤ length buf
    → (length (key_bytes vct_key) ≤ max_key_length
        → (bys : List ℕ) × (secondary_record vct_key bys_pri rec_stamp buf ≡ some bys)
          × Holds (key_bytes vct_key) bys_pri rec_stamp bys)
      × (max_key_length < length (key_bytes vct_key)
          → length (key_bytes vct_key) < 2 ^ 32
          → secondary_record vct_key bys_pri rec_stamp buf ≡ none)
secondary_record-Holds vct_key bys_pri rec_stamp buf ks hp hs h = (
  λ hk. secondary_record-made vct_key bys_pri rec_stamp buf ks hk hp hs h,
  λ l b. secondary_record-refused vct_key bys_pri rec_stamp buf ks l b,
)

compare_to-Holds :
    (dv1 dv2 : DataValue) (p1 p2 bys1 bys2 : List ℕ) (s1 s2 : ℕ)
    → IsKey dv1
    → IsKey dv2
    → code (get_data_type dv1) ≡ code (get_data_type dv2)
    → get_max_length dv1 ≡ get_max_length dv2
    → Holds (key_bytes (dv1 ∷ [])) p1 s1 bys1
    → Holds (key_bytes (dv2 ∷ [])) p2 s2 bys2
    → IsBytes p1
    → IsBytes p2
    → length (write_data dv1 SavePosition.key ++ p1) < 2 ^ 31
    → length (write_data dv2 SavePosition.key ++ p2) < 2 ^ 31
    → sign (compare_to false bys1 bys2) ≡ and_then (order dv1 dv2) (lex p1 p2)
unfolding compare_to
compare_to-Holds dv1 dv2 p1 p2 bys1 bys2 s1 s2 k1 k2 e m h1 h2 b1 b2 l1 l2 =
    rw
      (
        h1.data_is,
        h2.data_is,
        append-nil (write_data dv1 SavePosition.key),
        append-nil (write_data dv2 SavePosition.key),
      )
      (write_data-order dv1 dv2 p1 p2 k1 k2 e m b1 b2 l1 l2)

IsKey-Fits : (dv : DataValue) → IsKey dv → Fits dv
unfolding IsKey
IsKey-Fits (digit dt null v) k = k.0
IsKey-Fits (chars dt null bys max) k = k.0
IsKey-Fits null_literal k = absurd k

-- The bytes of one key column and the primary key together.
length_in :
    (dv : DataValue) (pri : List ℕ)
    → length (write_data dv SavePosition.key ++ pri) ≡ length (key_bytes (dv ∷ [])) + length pri
length_in dv pri =
    rw (append-nil (write_data dv SavePosition.key))
      (length-append (write_data dv SavePosition.key) pri)

-- A record that the constructor has made holds what it was given.
made-Holds :
    (dv : DataValue) (pri : List ℕ) (stamp : ℕ) (buf bys : List ℕ)
    → IsKey dv
    → length (key_bytes (dv ∷ [])) ≤ max_key_length
    → length pri < 2 ^ 15
    → stamp < 2 ^ 64
    → length (key_bytes (dv ∷ [])) + length pri + 4 + 8 ≤ length buf
    → secondary_record (dv ∷ []) pri stamp buf ≡ some bys
    → Holds (key_bytes (dv ∷ [])) pri stamp bys
made-Holds dv pri stamp buf bys k hk hp hs h e =
    let (b, made, held) =
      secondary_record-made (dv ∷ []) pri stamp buf (IsKey-Fits dv k, tt) hk hp hs h in
    let same : b ≡ bys = some-injective b bys (sym made ∙ e) in
    subst (Holds (key_bytes (dv ∷ [])) pri stamp) same held

-- The records that the constructor makes for an index on one column that is not unique, in memory
-- with room for them, are ordered by the column's values, and for equal values by the bytes of their primary keys:
-- the values are of one type and maximal length, not null, and VARCHARs without zero bytes, their keys take at most
-- 2000 bytes, the primary keys less than 2 ^ 15, and the stamps are below 2 ^ 64.
pub compare_to-order :
    (dv1 dv2 : DataValue) (p1 p2 buf1 buf2 bys1 bys2 : List ℕ) (s1 s2 : ℕ)
    → IsKey dv1
    → IsKey dv2
    → code (get_data_type dv1) ≡ code (get_data_type dv2)
    → get_max_length dv1 ≡ get_max_length dv2
    → length (key_bytes (dv1 ∷ [])) ≤ max_key_length
    → length (key_bytes (dv2 ∷ [])) ≤ max_key_length
    → IsBytes p1
    → IsBytes p2
    → length p1 < 2 ^ 15
    → length p2 < 2 ^ 15
    → s1 < 2 ^ 64
    → s2 < 2 ^ 64
    → length (key_bytes (dv1 ∷ [])) + length p1 + 4 + 8 ≤ length buf1
    → length (key_bytes (dv2 ∷ [])) + length p2 + 4 + 8 ≤ length buf2
    → secondary_record (dv1 ∷ []) p1 s1 buf1 ≡ some bys1
    → secondary_record (dv2 ∷ []) p2 s2 buf2 ≡ some bys2
    → sign (compare_to false bys1 bys2) ≡ and_then (order dv1 dv2) (lex p1 p2)
compare_to-order dv1 dv2 p1 p2 buf1 buf2 bys1 bys2 s1 s2 k1 k2 e m n1 n2 b1 b2 l1 l2 t1 t2 r1 r2 m1
      m2 =
    compare_to-Holds dv1 dv2 p1 p2 bys1 bys2 s1 s2 k1 k2 e m
      (made-Holds dv1 p1 s1 buf1 bys1 k1 n1 l1 t1 r1 m1)
      (made-Holds dv2 p2 s2 buf2 bys2 k2 n2 l2 t2 r2 m2) b1 b2 (omega (arith, length_in dv1 p1))
      (omega (arith, length_in dv2 p2))
