-- ===== src/Layout/Values.antt =====
-- A record's values, in a buffer that they start anywhere in.
use rapid_db.Common.{
  drop_add, ℕ, suc, ◌+◌, ◌-◌, ◌*◌, ◌/◌, ◌≤◌, ◌≡◌, refl, sym, ap, ap₂, ◌∙◌, List, [], ◌∷◌, ◌++◌,
  Option, none, some, length, length-append, length-take, length-drop, replicate, take, drop, map,
  All, arith, take-append-drop,
}
use mathlib.Core.List.{append_assoc}
use rapid_db.Bytes.Words.{drop-append}
use rapid_db.Value.{DataValue}
use rapid_db.Value.Stored.{fresh}
use rapid_db.Value.Returned.{Fits}
use rapid_db.Layout.Fields.{read_value_struct, fill_value_buff, put, read_values}
use rapid_db.Layout.Stores.{store-within, store_all, drop-right, word-right, word-left}
use rapid_db.Layout.Filled.{
  all_values, all_lengths, mark_nulls, length-mark_nulls, fill_fields-regions,
}
use rapid_db.Layout.Bitmap.{Marks, mark_nulls-Marks, bit-replicate}
use rapid_db.Layout.Returned.{stored, placed, read_fields-placed}
use rapid_db.Layout.Lengths.{length-replicate}

pub length-map : (dvs : List DataValue) → length (map fresh dvs) ≡ length dvs
length-map [] = refl
length-map (dv ∷ dvs) = ap suc (length-map dvs)

put-next :
    (xs ys : List (Option DataValue)) (dv : DataValue)
    → put (xs ++ none ∷ ys) (length xs) dv ≡ some (xs ++ some dv ∷ ys)
unfolding put
put-next [] ys dv = refl
put-next (x ∷ xs) ys dv = ground (arith, put-next xs ys dv)

placed-next :
    (dv : DataValue) (dvs : List DataValue) (i : ℕ) (vct vct' : List (Option DataValue))
    → put vct i (stored dv) ≡ some vct'
    → placed (dv ∷ dvs) i [] vct ≡ placed dvs (suc i) [] vct'
unfolding placed
placed-next dv dvs i vct vct' e = rw (e, placed) refl

-- Where all fields are read, each is put to its own position.
placed-all :
    (dvs : List DataValue) (xs : List (Option DataValue)) (i : ℕ)
    → length xs ≡ i
    → placed dvs i [] (xs ++ replicate (length dvs) none)
      ≡ some (xs ++ map (λ dv. some (stored dv)) dvs)
unfolding placed
placed-all [] xs i e = refl
placed-all (dv ∷ dvs) xs i e =
    let x = some (stored dv) ∷ [] in
    let next = xs ++ some (stored dv) ∷ replicate (length dvs) none in
    rw (sym e) (
      placed-next dv dvs (length xs) (xs ++ none ∷ replicate (length dvs) none) next
        (put-next xs (replicate (length dvs) none) (stored dv))
      ∙ ap (placed dvs (suc (length xs)) []) (sym (append_assoc xs x (replicate (length dvs) none)))
      ∙ placed-all dvs (xs ++ x) (suc (length xs)) (omega (arith, length-append xs x))
      ∙ ap some (append_assoc xs x (map (λ v. some (stored v)) dvs)))

module _ (dvs : List DataValue) where
  abbrev nulls_len : ℕ
  nulls_len = (length dvs + 7) / 8

  -- The bitmap of the nulls, and all that FillValueBuff writes.
  pub bitmap : List ℕ
  bitmap = mark_nulls dvs 0 (replicate ((length dvs + 7) / 8) 0)

  pub length-bitmap : length bitmap ≡ nulls_len
  unfolding bitmap
  length-bitmap =
      length-mark_nulls dvs 0 (replicate nulls_len 0) (omega (arith, length-replicate nulls_len 0))
      ∙ length-replicate nulls_len 0

  abbrev pub written : List ℕ
  written = bitmap ++ (all_lengths dvs ++ all_values dvs)

  -- With the bytes of the area that they leave.
  abbrev pub written_tail : List ℕ → List ℕ
  written_tail area = bitmap ++ (all_lengths dvs ++ (all_values dvs ++ drop (length written) area))

  module _ (p n l v r : List ℕ) where
    filled :
        length n ≡ nulls_len
        → length l ≡ length (all_lengths dvs)
        → length v ≡ length (all_values dvs)
        → fill_value_buff
            (read_value_struct (length p) (length dvs) (length (all_lengths dvs)))
            dvs
            (p ++ (n ++ (l ++ (v ++ r))))
          ≡ p ++ (bitmap ++ (all_lengths dvs ++ (all_values dvs ++ r)))
    unfolding fill_value_buff bitmap
    filled en el ev =
        let z = replicate nulls_len 0 in
        let lz : length z ≡ nulls_len = length-replicate nulls_len 0 in
        rw (store-within p n z (l ++ (v ++ r)) (en ∙ sym lz)) (
          fill_fields-regions dvs p z l (v ++ r) 0 0 0 (length p + nulls_len)
            (length p + nulls_len + length (all_lengths dvs)) (omega (arith, lz)) (omega arith)
            (omega (arith, length-append v r)) (omega (arith, lz)) (omega (arith, lz, el))
          ∙ ap₂ (λ (s t : List ℕ). p ++ (mark_nulls dvs 0 z ++ (s ++ t)))
              (store_all (all_lengths dvs) l el) (store-within [] v (all_values dvs) r ev))

  -- FillValueBuff in a buffer with room behind `p` writes the bitmap, the lengths and the values there,
  -- and nothing else.
  pub fill_value_buff-written :
      (p area : List ℕ)
      → length written ≤ length area
      → fill_value_buff
          (read_value_struct (length p) (length dvs) (length (all_lengths dvs)))
          dvs
          (p ++ area)
        ≡ p ++ (bitmap ++ (all_lengths dvs ++ (all_values dvs ++ drop (length written) area)))
  fill_value_buff-written p area h =
      let a = nulls_len in
      let b = length (all_lengths dvs) in
      let c = length (all_values dvs) in
      let total : length written ≡ a + b + c = omega (
        arith,
        length-append bitmap (all_lengths dvs ++ all_values dvs),
        length-append (all_lengths dvs) (all_values dvs),
        length-bitmap,
      ) in
      let s1 = drop a area in
      let s2 = drop b s1 in
      let parts : take a area ++ (take b s1 ++ (take c s2 ++ drop c s2)) ≡ area =
        ap (λ (t : List ℕ). take a area ++ (take b s1 ++ t)) (take-append-drop c s2)
        ∙ ap (λ (t : List ℕ). take a area ++ t) (take-append-drop b s1)
        ∙ take-append-drop a area in
      let rest : drop c s2 ≡ drop (length written) area = sym (
        ap (λ (n : ℕ). drop n area) total
        ∙ drop_add (a + b) c area
        ∙ ap (drop c) (drop_add a b area)) in
      let l1 : length s1 ≡ length area - a = length-drop a area in
      let l2 : length s2 ≡ length s1 - b = length-drop b s1 in
      ap
        (λ (t : List ℕ).
          fill_value_buff (read_value_struct (length p) (length dvs) (length (all_lengths dvs))) dvs
            (p ++ t))
        (sym parts)
      ∙ filled p (take a area) (take b s1) (take c s2) (drop c s2)
          (omega (arith, length-take a area, total)) (omega (arith, length-take b s1, total, l1))
          (omega (arith, length-take c s2, total, l1, l2))
      ∙ ap (λ (t : List ℕ). p ++ (bitmap ++ (all_lengths dvs ++ (all_values dvs ++ t)))) rest

  marks : Marks dvs 0 bitmap
  unfolding bitmap
  marks =
      mark_nulls-Marks dvs 0 (replicate nulls_len 0) (omega (arith, length-replicate nulls_len 0))
        (λ j l. bit-replicate nulls_len j)

  -- And it is read back.
  pub read_values-written :
      (p r : List ℕ) (stamp : ℕ)
      → All Fits dvs
      → read_values
          (map fresh dvs)
          (read_value_struct (length p) (length dvs) (length (all_lengths dvs)))
          stamp
          []
          (p ++ (bitmap ++ (all_lengths dvs ++ (all_values dvs ++ r))))
        ≡ some (map (λ dv. some (stored dv)) dvs)
  unfolding read_values
  read_values-written p r stamp f =
      let v = read_value_struct (length p) (length dvs) (length (all_lengths dvs)) in
      let r3 = all_values dvs ++ r in
      let r2 = all_lengths dvs ++ r3 in
      let r1 = bitmap ++ r2 in
      let at_lengths : drop (v.var_fields_len + 4 * 0) (p ++ r1) ≡ r2 =
        ap (λ (n : ℕ). drop n (p ++ r1)) (omega (arith, length-bitmap))
        ∙ drop-right p r1 (length bitmap)
        ∙ drop-append (length bitmap) bitmap r2 refl in
      let at_values : drop v.bys_value (p ++ r1) ≡ r3 =
        ap (λ (n : ℕ). drop n (p ++ r1)) (omega (arith, length-bitmap))
        ∙ drop-right p r1 (length bitmap + length (all_lengths dvs))
        ∙ drop-right bitmap r2 (length (all_lengths dvs))
        ∙ drop-append (length (all_lengths dvs)) (all_lengths dvs) r3 refl in
      let read =
        read_fields-placed dvs 0 0 v.bys_value v [] (p ++ r1)
          (replicate (length (map fresh dvs)) none) bitmap r3 r f marks
          (omega (arith, length-bitmap))
          (λ k l. word-right p r1 k 1 ∙ word-left bitmap r2 k 1 (omega arith)) at_lengths
          at_values in
      rw (read, read_values, length-map dvs, placed-all dvs [] 0 refl) refl
