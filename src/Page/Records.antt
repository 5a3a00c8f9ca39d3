-- ===== src/Page/Records.antt =====
-- Lemmas on inserting, erasing and adding up the records of a page.
use rapid_db.Common.{
  ℕ, zero, suc, ◌+◌, ◌≤◌, ◌≡◌, refl, List, [], ◌∷◌, ◌++◌, length, get_elem?, set, some, take, drop,
  arith,
}
use rapid_db.Page.{insert_at, erase_at, sum_of}

module _ {ℓ} {A : Type ℓ} where
  pub length-insert_at : (i : ℕ) (x : A) (ys : List A) → length (insert_at i x ys) ≡ suc (length ys)
  length-insert_at zero x ys = refl
  length-insert_at (suc i) x [] = refl
  length-insert_at (suc i) x (y ∷ ys) = omega (arith, length-insert_at i x ys)

  pub length-erase_at :
      (i : ℕ) (x : A) (ys : List A)
      → get_elem? ys i ≡ some x
      → suc (length (erase_at i ys)) ≡ length ys
  length-erase_at i x [] e = absurd (ground (arith, e))
  length-erase_at zero x (y ∷ ys) e = refl
  length-erase_at (suc i) x (y ∷ ys) e = omega (arith, length-erase_at i x ys e)

  pub sum_of-insert_at :
      (f : A → ℕ) (i : ℕ) (x : A) (ys : List A) → sum_of f (insert_at i x ys) ≡ f x + sum_of f ys
  sum_of-insert_at f zero x ys = refl
  sum_of-insert_at f (suc i) x [] = refl
  sum_of-insert_at f (suc i) x (y ∷ ys) = omega (arith, sum_of-insert_at f i x ys)

  pub sum_of-erase_at :
      (f : A → ℕ)
      → (i : ℕ) → (x : A) → (ys : List A) → get_elem? ys i ≡ some x
      → f x + sum_of f (erase_at i ys) ≡ sum_of f ys
  sum_of-erase_at f i x [] e = absurd (ground (arith, e))
  sum_of-erase_at f zero x (y ∷ ys) e = ground (arith, e)
  sum_of-erase_at f (suc i) x (y ∷ ys) e = omega (arith, sum_of-erase_at f i x ys e)

  pub sum_of-set :
      (f : A → ℕ)
      → (i : ℕ) → (x : A) → (z : A) → (ys : List A) → get_elem? ys i ≡ some x
      → f x + sum_of f (set ys i z) ≡ f z + sum_of f ys
  sum_of-set f i x z [] e = absurd (ground (arith, e))
  sum_of-set f zero x z (y ∷ ys) e = ground (arith, e)
  sum_of-set f (suc i) x z (y ∷ ys) e = omega (arith, sum_of-set f i x z ys e)

  pub length-set : (i : ℕ) (z : A) (ys : List A) → length (set ys i z) ≡ length ys
  length-set i z [] = refl
  length-set zero z (y ∷ ys) = refl
  length-set (suc i) z (y ∷ ys) = omega (arith, length-set i z ys)

  pub sum_of-append : (f : A → ℕ) (xs ys : List A) → sum_of f (xs ++ ys) ≡ sum_of f xs + sum_of f ys
  sum_of-append f [] ys = omega arith
  sum_of-append f (x ∷ xs) ys = omega (arith, sum_of-append f xs ys)

  pub get_elem?-insert_at :
      (i : ℕ) (x : A) (ys : List A) → i ≤ length ys → get_elem? (insert_at i x ys) i ≡ some x
  get_elem?-insert_at zero x ys h = refl
  get_elem?-insert_at (suc i) x [] h = absurd (omega arith)
  get_elem?-insert_at (suc i) x (y ∷ ys) h = get_elem?-insert_at i x ys (omega arith)

  pub erase_at-insert_at :
      (i : ℕ) (x : A) (ys : List A) → i ≤ length ys → erase_at i (insert_at i x ys) ≡ ys
  erase_at-insert_at zero x ys h = refl
  erase_at-insert_at (suc i) x [] h = absurd (omega arith)
  erase_at-insert_at (suc i) x (y ∷ ys) h = rw (erase_at-insert_at i x ys (omega arith))

  pub get_elem?-set :
      (i : ℕ) (x z : A) (ys : List A) → get_elem? ys i ≡ some x → get_elem? (set ys i z) i ≡ some z
  get_elem?-set i x z [] e = absurd (ground (arith, e))
  get_elem?-set zero x z (y ∷ ys) e = refl
  get_elem?-set (suc i) x z (y ∷ ys) e = get_elem?-set i x z ys e

  pub take-length-append : (xs ys : List A) → take (length xs) (xs ++ ys) ≡ xs
  take-length-append [] ys = refl
  take-length-append (x ∷ xs) ys = rw (take-length-append xs ys)

  pub drop-length-append : (xs ys : List A) → drop (length xs) (xs ++ ys) ≡ ys
  drop-length-append [] ys = refl
  drop-length-append (x ∷ xs) ys = drop-length-append xs ys
