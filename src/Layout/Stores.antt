-- ===== src/Layout/Stores.antt =====
-- Stores and loads at offsets of concatenated buffers.
use mathlib.Core.List.{append_assoc, append-nil}
use rapid_db.Common.{
  drop_add, ℕ, zero, suc, ◌+◌, ◌-◌, ◌≤◌, ◌≡◌, refl, sym, ap, ap₂, subst, ◌∙◌, List, [], ◌∷◌, ◌++◌,
  length, take, drop, arith, length-append, length-take, length-drop, take-append-drop,
}
use rapid_db.Bytes.Words.{take-append, drop-append}
use rapid_db.Layout.{store, word}

suc_add : (m n : ℕ) → suc m + n ≡ suc (m + n)
suc_add m n = omega arith

pub drop-right : (p b : List ℕ) (k : ℕ) → drop (length p + k) (p ++ b) ≡ drop k b
drop-right [] b k = ap (λ (n : ℕ). drop n b) (omega arith)
drop-right (a ∷ p) b k =
    ap (λ (n : ℕ). drop n (a ∷ (p ++ b))) (suc_add (length p) k) ∙ drop-right p b k

take-right : (p b : List ℕ) (k : ℕ) → take (length p + k) (p ++ b) ≡ p ++ take k b
take-right [] b k = ap (λ (n : ℕ). take n b) (omega arith)
take-right (a ∷ p) b k =
    ap (λ (n : ℕ). take n (a ∷ (p ++ b))) (suc_add (length p) k) ∙ ap (◌∷◌ a) (take-right p b k)

pub drop-left : (a b : List ℕ) (n : ℕ) → n ≤ length a → drop n (a ++ b) ≡ drop n a ++ b
drop-left a b zero h = refl
drop-left [] b (suc n) h = absurd (omega arith)
drop-left (x ∷ a) b (suc n) h = drop-left a b n (omega arith)

pub take-left : (a b : List ℕ) (n : ℕ) → n ≤ length a → take n (a ++ b) ≡ take n a
take-left a b zero h = refl
take-left [] b (suc n) h = absurd (omega arith)
take-left (x ∷ a) b (suc n) h = ap (◌∷◌ x) (take-left a b n (omega arith))

-- A store of as many bytes as stand at its place.
pub store-within :
    (p x bs r : List ℕ)
    → length x ≡ length bs
    → store (length p) bs (p ++ (x ++ r)) ≡ p ++ (bs ++ r)
unfolding store
store-within p x bs r e =
    rw (take-append (length p) p (x ++ r) refl, drop-right p (x ++ r) (length bs))
      (ap (λ (t : List ℕ). p ++ (bs ++ t)) (drop-append (length bs) x r e))

pub store-cons : (k x : ℕ) (bs a : List ℕ) → store (suc k) bs (x ∷ a) ≡ x ∷ store k bs a
unfolding store
store-cons k x bs a =
    ap (λ (n : ℕ). x ∷ (take k a ++ (bs ++ drop n (x ∷ a)))) (suc_add k (length bs))

-- A store behind a part of the buffer, and one inside of its front part.
pub store-right : (p b bs : List ℕ) (k : ℕ) → store (length p + k) bs (p ++ b) ≡ p ++ store k bs b
unfolding store
store-right p b bs k = rw (take-right p b k) (
    ap (λ (t : List ℕ). (p ++ take k b) ++ (bs ++ t))
      (ap (λ (n : ℕ). drop n (p ++ b)) (omega arith) ∙ drop-right p b (k + length bs))
    ∙ append_assoc p (take k b) (bs ++ drop (k + length bs) b))

pub store-left :
    (a b bs : List ℕ) (k : ℕ) → k + length bs ≤ length a → store k bs (a ++ b) ≡ store k bs a ++ b
unfolding store
store-left a b bs k h =
    rw (take-left a b k (omega arith), drop-left a b (k + length bs) h)
      (ap (λ (t : List ℕ). take k a ++ t) (sym (append_assoc bs (drop (k + length bs) a) b))
        ∙ sym (append_assoc (take k a) (bs ++ drop (k + length bs) a) b))

pub length-store :
    (a bs : List ℕ) (k : ℕ) → k + length bs ≤ length a → length (store k bs a) ≡ length a
unfolding store
length-store a bs k h = omega (
  arith,
  length-append (take k a) (bs ++ drop (k + length bs) a),
  length-append bs (drop (k + length bs) a),
  length-take k a,
  length-drop (k + length bs) a,
)

stores_within :
    (p x y r bs cs : List ℕ)
    → length x ≡ length bs
    → length y ≡ length cs
    → store (length p + length bs) cs (store (length p) bs (p ++ (x ++ (y ++ r))))
      ≡ store (length p) (bs ++ cs) (p ++ (x ++ (y ++ r)))
stores_within p x y r bs cs e f =
    rw (store-within p x bs (y ++ r) e, store-right p (bs ++ (y ++ r)) cs (length bs))
      (ap (λ (t : List ℕ). p ++ t) (store-within bs y cs r f)
        ∙ sym (
            ap (λ (t : List ℕ). store (length p) (bs ++ cs) (p ++ t)) (sym (append_assoc x y r))
            ∙ store-within p (x ++ y) (bs ++ cs) r
                (omega (arith, length-append x y, length-append bs cs))
            ∙ ap (λ (t : List ℕ). p ++ t) (append_assoc bs cs r)))

-- A store right behind another is one store of both.
pub store-store :
    (a bs cs : List ℕ) (k : ℕ)
    → k + length bs + length cs ≤ length a
    → store (k + length bs) cs (store k bs a) ≡ store k (bs ++ cs) a
store-store a bs cs k h =
    let p = take k a in
    let q = drop k a in
    let x = take (length bs) q in
    let s = drop (length bs) q in
    let y = take (length cs) s in
    let whole : p ++ (x ++ (y ++ drop (length cs) s)) ≡ a =
      ap (λ (t : List ℕ). p ++ (x ++ t)) (take-append-drop (length cs) s)
      ∙ ap (λ (t : List ℕ). p ++ t) (take-append-drop (length bs) q)
      ∙ take-append-drop k a in
    let lp : length p ≡ k = omega (arith, length-take k a) in
    let lq : length q ≡ length a - k = length-drop k a in
    let ls : length s ≡ length q - length bs = length-drop (length bs) q in
    subst {A = List ℕ × ℕ}
      (λ (t : List ℕ × ℕ). store (t.1 + length bs) cs (store t.1 bs t.0) ≡ store t.1 (bs ++ cs) t.0)
      (ap₂ (λ (t : List ℕ) (n : ℕ). (t, n)) whole lp)
      (stores_within p x y (drop (length cs) s) bs cs (omega (arith, lq, length-take (length bs) q))
        (omega (arith, lq, ls, length-take (length cs) s)))

pub store_nil : (a : List ℕ) (k : ℕ) → store k [] a ≡ a
unfolding store
store_nil a k = ap (λ (n : ℕ). take k a ++ drop n a) (omega arith) ∙ take-append-drop k a

drop_all : (n : ℕ) (a : List ℕ) → length a ≤ n → drop n a ≡ []
drop_all zero [] h = refl
drop_all zero (x ∷ a) h = absurd (omega arith)
drop_all (suc n) [] h = refl
drop_all (suc n) (x ∷ a) h = drop_all n a (omega arith)

-- A store over the whole buffer.
pub store_all : (bs a : List ℕ) → length a ≡ length bs → store 0 bs a ≡ bs
unfolding store
store_all bs a h = rw (drop_all (0 + length bs) a (omega arith)) (append-nil bs)

pub word-right : (p b : List ℕ) (k n : ℕ) → word (length p + k) n (p ++ b) ≡ word k n b
unfolding word
word-right p b k n = rw (drop-right p b k) refl

pub word-left : (a b : List ℕ) (k n : ℕ) → k + n ≤ length a → word k n (a ++ b) ≡ word k n a
unfolding word
word-left a b k n h =
    rw (drop-left a b k (omega arith), take-left (drop k a) b n (omega (arith, length-drop k a)))
      refl

-- The bytes of a store, and the bytes beside it.
pub stored_bytes :
    (k : ℕ) (bs a : List ℕ) → k ≤ length a → take (length bs) (drop k (store k bs a)) ≡ bs
unfolding store
stored_bytes k bs a h =
    ap (take (length bs))
      (drop-append k (take k a) (bs ++ drop (k + length bs) a) (omega (arith, length-take k a)))
    ∙ take-append (length bs) bs (drop (k + length bs) a) refl

pub bytes-left :
    (a b : List ℕ) (j n : ℕ) → j + n ≤ length a → take n (drop j (a ++ b)) ≡ take n (drop j a)
bytes-left a b j n h =
    ap (take n) (drop-left a b j (omega arith))
    ∙ take-left (drop j a) b n (omega (arith, length-drop j a))

pub bytes_before :
    (j n k : ℕ) (bs a : List ℕ)
    → k ≤ length a
    → j + n ≤ k
    → take n (drop j (store k bs a)) ≡ take n (drop j a)
unfolding store
bytes_before j n k bs a h l =
    bytes-left (take k a) (bs ++ drop (k + length bs) a) j n (omega (arith, length-take k a))
    ∙ sym (bytes-left (take k a) (drop k a) j n (omega (arith, length-take k a)))
    ∙ ap (λ (t : List ℕ). take n (drop j t)) (take-append-drop k a)

pub bytes_behind :
    (j n k : ℕ) (bs a : List ℕ)
    → k + length bs ≤ length a
    → k + length bs ≤ j
    → take n (drop j (store k bs a)) ≡ take n (drop j a)
unfolding store
bytes_behind j n k bs a h l =
    let m = k + length bs in
    let p = take k a ++ bs in
    let lp : length p ≡ m = omega (arith, length-append (take k a) bs, length-take k a) in
    ap (take n) (
      ap (drop j) (sym (append_assoc (take k a) bs (drop m a)))
      ∙ ap (λ (i : ℕ). drop i (p ++ drop m a)) (omega (arith, lp))
      ∙ drop-right p (drop m a) (j - m)
      ∙ sym (drop_add m (j - m) a)
      ∙ ap (λ (i : ℕ). drop i a) (omega arith))
