-- ===== src/Bytes/Lex.antt =====
-- Byte strings compared from the front, a proper prefix first: what the index order means.
use rapid_db.Common.{ℕ, ◌/◌, ◌%◌, compare, Ordering, ◌≡◌, refl, List, [], ◌∷◌, ◌++◌, length, arith}

abbrev pub and_then : Ordering → Ordering → Ordering
and_then Ordering.eq o = o
and_then Ordering.lt o = Ordering.lt
and_then Ordering.gt o = Ordering.gt

abbrev pub flip : Ordering → Ordering
flip Ordering.lt = Ordering.gt
flip Ordering.eq = Ordering.eq
flip Ordering.gt = Ordering.lt

unfoldable pub lex : List ℕ → List ℕ → Ordering
lex [] [] = Ordering.eq
lex [] (y ∷ ys) = Ordering.lt
lex (x ∷ xs) [] = Ordering.gt
lex (x ∷ xs) (y ∷ ys) = and_then (compare x y) (lex xs ys)

-- Strings cut at one length compare by the first parts and then by the second.
pub lex-append :
    (xs ys us vs : List ℕ)
    → length xs ≡ length ys
    → lex (xs ++ us) (ys ++ vs) ≡ and_then (lex xs ys) (lex us vs)
unfolding lex
lex-append [] [] us vs e = refl
lex-append [] (y ∷ ys) us vs e = absurd (omega arith)
lex-append (x ∷ xs) [] us vs e = absurd (omega arith)
lex-append (x ∷ xs) (y ∷ ys) us vs e = ground (arith, lex-append xs ys us vs (omega arith))

pub lex-singleton : (a b : ℕ) → lex (a ∷ []) (b ∷ []) ≡ compare a b
unfolding lex
lex-singleton a b = ground arith

pub lex_refl : (xs : List ℕ) → lex xs xs ≡ Ordering.eq
unfolding lex
lex_refl [] = refl
lex_refl (x ∷ xs) = ground (arith, lex_refl xs)

pub lex-eq : (xs ys : List ℕ) → lex xs ys ≡ Ordering.eq → xs ≡ ys
unfolding lex
lex-eq [] [] e = refl
lex-eq [] (y ∷ ys) e = cc
lex-eq (x ∷ xs) [] e = cc
lex-eq (x ∷ xs) (y ∷ ys) e = ground (arith, lex-eq xs ys)

pub lex-flip : (xs ys : List ℕ) → lex ys xs ≡ flip (lex xs ys)
unfolding lex
lex-flip [] [] = refl
lex-flip [] (y ∷ ys) = refl
lex-flip (x ∷ xs) [] = refl
lex-flip (x ∷ xs) (y ∷ ys) = ground (arith, lex-flip xs ys)

pub lex_trans :
    (xs ys zs : List ℕ)
    → lex xs ys ≡ Ordering.lt
    → lex ys zs ≡ Ordering.lt
    → lex xs zs ≡ Ordering.lt
unfolding lex
lex_trans [] [] zs p q = cc
lex_trans [] (y ∷ ys) [] p q = cc
lex_trans [] (y ∷ ys) (z ∷ zs) p q = refl
lex_trans (x ∷ xs) [] zs p q = cc
lex_trans (x ∷ xs) (y ∷ ys) [] p q = cc
lex_trans (x ∷ xs) (y ∷ ys) (z ∷ zs) p q = ground (arith, lex_trans xs ys zs)

-- Two numbers compare by their quotients by 256 and then by their remainders.
pub compare-digits :
    (v w : ℕ) → and_then (compare (v / 256) (w / 256)) (compare (v % 256) (w % 256)) ≡ compare v w
compare-digits v w = ground arith
