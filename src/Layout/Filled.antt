-- ===== src/Layout/Filled.antt =====
-- What FillValueBuff leaves: the bitmap, the lengths of the fields of variable length and the fields'
-- bytes, each in its part of the buffer.
use rapid_db.Common.{
  ℕ, suc, ◌+◌, ◌*◌, ◌/◌, ◌%◌, ◌^◌, ◌≤◌, ◌<◌, ◌≡◌, refl, sym, ap, ap₂, subst, ◌∙◌, inl, inr, List,
  [], ◌∷◌, ◌++◌, true, false, if◌then◌else◌, bit_or, length, length-append, arith, Bool-cases,
}
use rapid_db.Bytes.{to_le}
use rapid_db.Bytes.Words.{length-to_le}
use rapid_db.Value.{DataValue, is_null}
use rapid_db.Value.Stored.{SavePosition, write_data}
use rapid_db.Layout.{store, word}
use rapid_db.Layout.Fields.{is_fix_length, set_null, fill_fields}
use rapid_db.Layout.Stores.{
  store-right, store-left, store-store, store_nil, word-right, word-left, length-store,
}

-- The bytes of the fields, the lengths of those of variable length, and the bitmap.
abbrev pub all_values : List DataValue → List ℕ
all_values [] = []
all_values (dv ∷ dvs) = write_data dv SavePosition.value ++ all_values dvs

unfoldable pub length_word : DataValue → List ℕ
unfolding is_fix_length
length_word dv =
    if is_fix_length dv then [] else to_le 4 (length (write_data dv SavePosition.value))

unfoldable pub all_lengths : List DataValue → List ℕ
unfolding length_word
all_lengths [] = []
all_lengths (dv ∷ dvs) = length_word dv ++ all_lengths dvs

unfoldable pub mark : DataValue → ℕ → List ℕ → List ℕ
unfolding set_null
mark dv i bits = if is_null dv then set_null 0 i bits else bits

unfoldable pub mark_nulls : List DataValue → ℕ → List ℕ → List ℕ
unfolding mark
mark_nulls [] i bits = bits
mark_nulls (dv ∷ dvs) i bits = mark_nulls dvs (suc i) (mark dv i bits)

pub length-mark :
    (dv : DataValue) (i : ℕ) (bits : List ℕ)
    → i < 8 * length bits
    → length (mark dv i bits) ≡ length bits
unfolding mark set_null
length-mark dv i bits h = elim (Bool-cases (is_null dv)) [
  | inl e ↦ rw e (
      length-store bits (bit_or (word (0 + i / 8) 1 bits) (2 ^ (i % 8)) ∷ []) (0 + i / 8)
        (omega arith))
  | inr e ↦ rw e refl
]

pub length-mark_nulls :
    (dvs : List DataValue) (i : ℕ) (bits : List ℕ)
    → i + length dvs ≤ 8 * length bits
    → length (mark_nulls dvs i bits) ≡ length bits
unfolding mark_nulls
length-mark_nulls [] i bits h = refl
length-mark_nulls (dv ∷ dvs) i bits h =
    omega
      (arith, length-mark dv i bits (omega arith), length-mark_nulls dvs (suc i) (mark dv i bits))

pub length_word-fixed : (dv : DataValue) → is_fix_length dv ≡ true → length_word dv ≡ []
unfolding length_word
length_word-fixed dv e = rw e refl

pub length_word-varied :
    (dv : DataValue)
    → is_fix_length dv ≡ false
    → length_word dv ≡ to_le 4 (length (write_data dv SavePosition.value))
unfolding length_word
length_word-varied dv e = rw e refl

module _ (p n l v : List ℕ) where
  at_values :
      (m bys : ℕ) (bs : List ℕ)
      → bys ≡ length p + (length n + (length l + m))
      → store bys bs (p ++ (n ++ (l ++ v))) ≡ p ++ (n ++ (l ++ store m bs v))
  at_values m bys bs e =
      rw
        (
          e,
          store-right p (n ++ (l ++ v)) bs (length n + (length l + m)),
          store-right n (l ++ v) bs (length l + m),
          store-right l v bs m,
        )
        refl

  at_lengths :
      (k vlen : ℕ) (bs : List ℕ)
      → vlen ≡ length p + (length n + k)
      → k + length bs ≤ length l
      → store vlen bs (p ++ (n ++ (l ++ v))) ≡ p ++ (n ++ (store k bs l ++ v))
  at_lengths k vlen bs e h =
      rw
        (
          e,
          store-right p (n ++ (l ++ v)) bs (length n + k),
          store-right n (l ++ v) bs k,
          store-left l v bs k h,
        )
        refl

  at_nulls :
      (i : ℕ)
      → i < 8 * length n
      → set_null (length p) i (p ++ (n ++ (l ++ v))) ≡ p ++ (set_null 0 i n ++ (l ++ v))
  unfolding set_null
  at_nulls i h =
      rw
        (
          word-right p (n ++ (l ++ v)) (i / 8) 1,
          word-left n (l ++ v) (i / 8) 1 (omega arith),
          store-right p (n ++ (l ++ v)) (bit_or (word (i / 8) 1 n) (2 ^ (i % 8)) ∷ []) (i / 8),
          store-left n (l ++ v) (bit_or (word (i / 8) 1 n) (2 ^ (i % 8)) ∷ []) (i / 8)
              (omega arith),
        )
        (ap (λ (q : ℕ). p ++ (store q (bit_or (word q 1 n) (2 ^ (i % 8)) ∷ []) n ++ (l ++ v)))
          (omega arith))

  -- One field's bits, and its bytes and length where the pointers stand.
  at_mark :
      (dv : DataValue) (i : ℕ)
      → i < 8 * length n
      → (if is_null dv then set_null (length p) i (p ++ (n ++ (l ++ v))) else p ++ (n ++ (l ++ v)))
        ≡ p ++ (mark dv i n ++ (l ++ v))
  unfolding mark
  at_mark dv i h = elim (Bool-cases (is_null dv)) [
    | inl e ↦ rw e (at_nulls i h)
    | inr e ↦ rw e refl
  ]

-- The loop of FillValueBuff writes the bitmap, the lengths and the bytes of the fields, where there is
-- room for them.
pub fill_fields-regions :
    (dvs : List DataValue) (p n l v : List ℕ) (i k m vlen bys : ℕ)
    → i + length dvs ≤ 8 * length n
    → k + length (all_lengths dvs) ≤ length l
    → m + length (all_values dvs) ≤ length v
    → vlen ≡ length p + (length n + k)
    → bys ≡ length p + (length n + (length l + m))
    → fill_fields dvs i (length p) vlen bys (p ++ (n ++ (l ++ v)))
      ≡ p ++ (mark_nulls dvs i n ++ (store k (all_lengths dvs) l ++ store m (all_values dvs) v))
unfolding fill_fields all_lengths mark_nulls length_word
fill_fields-regions [] p n l v i k m vlen bys h1 h2 h3 e1 e2 =
    rw (store_nil l k, store_nil v m) refl
fill_fields-regions (dv ∷ dvs) p n l v i k m vlen bys h1 h2 h3 e1 e2 =
    let bs = write_data dv SavePosition.value in
    let n' = mark dv i n in
    let v' = store m bs v in
    let ln : length n' ≡ length n = length-mark dv i n (omega arith) in
    let lv : length v' ≡ length v =
      length-store v bs m (omega (arith, length-append bs (all_values dvs))) in
    let room : m + length bs + length (all_values dvs) ≤ length v' =
      omega (arith, lv, length-append bs (all_values dvs)) in
    rw (at_mark p n l v dv i (omega arith), at_values p n' l v m bys bs (omega (arith, ln, e2)))
      (elim (Bool-cases (is_fix_length dv)) [
        | inl e ↦ rw e (
            fill_fields-regions dvs p n' l v' (suc i) k (m + length bs) vlen (bys + length bs)
              (omega (arith, ln))
              (subst (λ (w : List ℕ). k + length (w ++ all_lengths dvs) ≤ length l)
                (length_word-fixed dv e) h2)
              room (omega (arith, ln)) (omega (arith, ln))
            ∙ ap
                (λ (t : List ℕ).
                  p ++ (mark_nulls dvs (suc i) n' ++ (store k (all_lengths dvs) l ++ t)))
                (store-store v bs (all_values dvs) m
                  (omega (arith, length-append bs (all_values dvs)))))
        | inr e ↦
            let le = to_le 4 (length bs) in
            let l' = store k le l in
            let ll : length le ≡ 4 = length-to_le 4 (length bs) in
            let ls : k + (length le + length (all_lengths dvs)) ≤ length l =
              subst (λ (t : ℕ). k + t ≤ length l) (length-append le (all_lengths dvs))
                (subst (λ (w : List ℕ). k + length (w ++ all_lengths dvs) ≤ length l)
                  (length_word-varied dv e) h2) in
            let l4 : length l' ≡ length l = length-store l le k (omega arith) in
            rw (e, at_lengths p n' l v' k vlen le (omega (arith, ln)) (omega arith))
              (fill_fields-regions dvs p n' l' v' (suc i) (k + 4) (m + length bs) (vlen + 4)
                  (bys + length bs) (omega (arith, ln)) (omega (arith, l4, ll)) room
                  (omega (arith, ln)) (omega (arith, ln, l4))
                ∙ ap₂ (λ (s t : List ℕ). p ++ (mark_nulls dvs (suc i) n' ++ (s ++ t)))
                    (ap (λ (q : ℕ). store (k + q) (all_lengths dvs) l') (sym ll)
                      ∙ store-store l le (all_lengths dvs) k (omega arith))
                    (store-store v bs (all_values dvs) m
                      (omega (arith, length-append bs (all_values dvs)))))
      ])
