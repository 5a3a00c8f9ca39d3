-- ===== src/Expr/Members.antt =====
-- ExprArray, the set of an IN: what AddElem put there is what Exist finds.
use rapid_db.Common.{
  ℕ, ◌≡◌, inl, inr, refl, sym, ap, subst, ◌∙◌, List, [], ◌∷◌, All, Bool, true, false, arith,
  if◌then◌else◌, Ordering, Bool-cases,
}
use rapid_db.Common.Int.{ℤ, compare_ℤ}
use rapid_db.Bytes.Lex.{lex, lex_trans, lex-eq, flip}
use rapid_db.Value.{
  DataValue, digit, chars, null_literal, get_data_type, code, number, is_lt, is_eq, equal, less,
  IsTyped,
}
use rapid_db.Value.Order.{
  Compares, order, nulls_first, code_injective, apart_types, not_null, same_type-Compares,
}
use rapid_db.Value.Mirror.{order-flip}
use rapid_db.Expr.{add_elem, exist}

-- Typed values of the type with a code.
abbrev pub OfType : ℕ → DataValue → Type 0
OfType c v = IsTyped v × (code (get_data_type v) ≡ c)

nulls_trans :
    (n1 n2 n3 : Bool) (o p q : Ordering)
    → (o ≡ Ordering.lt → p ≡ Ordering.lt → q ≡ Ordering.lt)
    → nulls_first n1 n2 o ≡ Ordering.lt
    → nulls_first n2 n3 p ≡ Ordering.lt
    → nulls_first n1 n3 q ≡ Ordering.lt
nulls_trans n1 n2 n3 o p q t a b = ground (arith, t, a, b)

ints_trans :
    (a b c : ℤ)
    → compare_ℤ a b ≡ Ordering.lt
    → compare_ℤ b c ≡ Ordering.lt
    → compare_ℤ a c ≡ Ordering.lt
ints_trans a b c p q = ground (arith, p, q)

order_trans :
    (c : ℕ) (u v w : DataValue)
    → OfType c u
    → OfType c v
    → OfType c w
    → order u v ≡ Ordering.lt
    → order v w ≡ Ordering.lt
    → order u w ≡ Ordering.lt
unfolding order IsTyped
order_trans c (digit d1 n1 v1) (digit d2 n2 v2) (digit d3 n3 v3) (a1, c1) (a2, c2) (a3, c3) p q =
    nulls_trans n1 n2 n3 _ _ _ (ints_trans (number d1 v1) (number d1 v2) (number d1 v3)) p (
      subst (λ d. nulls_first n2 n3 (compare_ℤ (number d v2) (number d v3)) ≡ Ordering.lt)
        (code_injective d2 d1 (c2 ∙ sym c1)) q)
order_trans c (digit d1 n1 v1) (digit d2 n2 v2) (chars d3 n3 b3 m3) h1 h2 h3 p q =
    absurd (ground (arith, q))
order_trans c (digit d1 n1 v1) (digit d2 n2 v2) null_literal h1 h2 h3 p q =
    absurd (ground (arith, q))
order_trans c (digit d1 n1 v1) (chars d2 n2 b2 m2) w h1 h2 h3 p q = absurd (ground (arith, p))
order_trans c (digit d1 n1 v1) null_literal w h1 h2 h3 p q = absurd (ground (arith, p))
order_trans c (chars d1 n1 b1 m1) (chars d2 n2 b2 m2) (chars d3 n3 b3 m3) h1 h2 h3 p q =
    nulls_trans n1 n2 n3 _ _ _ (lex_trans b1 b2 b3) p q
order_trans c (chars d1 n1 b1 m1) (chars d2 n2 b2 m2) (digit d3 n3 v3) h1 h2 h3 p q =
    absurd (ground (arith, q))
order_trans c (chars d1 n1 b1 m1) (chars d2 n2 b2 m2) null_literal h1 h2 h3 p q =
    absurd (ground (arith, q))
order_trans c (chars d1 n1 b1 m1) (digit d2 n2 v2) w h1 h2 h3 p q = absurd (ground (arith, p))
order_trans c (chars d1 n1 b1 m1) null_literal w h1 h2 h3 p q = absurd (ground (arith, p))
order_trans c null_literal v w h1 h2 h3 p q = absurd (ground (arith, p))

nulls_eq :
    (n1 n2 n3 : Bool) (o p q : Ordering)
    → (o ≡ Ordering.eq → p ≡ Ordering.eq → q ≡ Ordering.eq)
    → nulls_first n1 n2 o ≡ Ordering.eq
    → nulls_first n2 n3 p ≡ Ordering.eq
    → nulls_first n1 n3 q ≡ Ordering.eq
nulls_eq n1 n2 n3 o p q t a b = ground (arith, t, a, b)

ints_eq :
    (a b c : ℤ)
    → compare_ℤ a b ≡ Ordering.eq
    → compare_ℤ b c ≡ Ordering.eq
    → compare_ℤ a c ≡ Ordering.eq
ints_eq a b c p q = ground (arith, p, q)

bytes_eq : (a b c : List ℕ) → lex a b ≡ Ordering.eq → lex b c ≡ Ordering.eq → lex a c ≡ Ordering.eq
bytes_eq a b c p q = rw (lex-eq a b p) q

is_equal : (o : Ordering) → is_eq o ≡ true → o ≡ Ordering.eq
is_equal o q = ground (arith, q)

order_eq_trans :
    (c : ℕ) (u v w : DataValue)
    → OfType c u
    → OfType c v
    → OfType c w
    → order u v ≡ Ordering.eq
    → order v w ≡ Ordering.eq
    → order u w ≡ Ordering.eq
unfolding order IsTyped
order_eq_trans c (digit d1 n1 v1) (digit d2 n2 v2) (digit d3 n3 v3) (a1, c1) (a2, c2) (a3, c3) p q =
    nulls_eq n1 n2 n3 _ _ _ (ints_eq (number d1 v1) (number d1 v2) (number d1 v3)) p (
      subst (λ d. nulls_first n2 n3 (compare_ℤ (number d v2) (number d v3)) ≡ Ordering.eq)
        (code_injective d2 d1 (c2 ∙ sym c1)) q)
order_eq_trans c (chars d1 n1 b1 m1) (chars d2 n2 b2 m2) (chars d3 n3 b3 m3) h1 h2 h3 p q =
    nulls_eq n1 n2 n3 _ _ _ (bytes_eq b1 b2 b3) p q
order_eq_trans c (digit d1 n1 v1) (digit d2 n2 v2) (chars d3 n3 b3 m3) (a1, c1) (a2, c2) (a3, c3) p
      q =
    absurd (apart_types d2 d3 a2.0 a3.0 (c2 ∙ sym c3))
order_eq_trans c (digit d1 n1 v1) (digit d2 n2 v2) null_literal (a1, c1) (a2, c2) (a3, c3) p q =
    absurd (not_null d2 (inl a2.0) (c2 ∙ sym c3))
order_eq_trans c (digit d1 n1 v1) (chars d2 n2 b2 m2) w (a1, c1) (a2, c2) h3 p q =
    absurd (apart_types d1 d2 a1.0 a2.0 (c1 ∙ sym c2))
order_eq_trans c (digit d1 n1 v1) null_literal w (a1, c1) (a2, c2) h3 p q =
    absurd (not_null d1 (inl a1.0) (c1 ∙ sym c2))
order_eq_trans c (chars d1 n1 b1 m1) (chars d2 n2 b2 m2) (digit d3 n3 v3) h1 (a2, c2) (a3, c3) p q =
    absurd (apart_types d3 d2 a3.0 a2.0 (c3 ∙ sym c2))
order_eq_trans c (chars d1 n1 b1 m1) (chars d2 n2 b2 m2) null_literal h1 (a2, c2) (a3, c3) p q =
    absurd (not_null d2 (inr a2.0) (c2 ∙ sym c3))
order_eq_trans c (chars d1 n1 b1 m1) (digit d2 n2 v2) w (a1, c1) (a2, c2) h3 p q =
    absurd (apart_types d2 d1 a2.0 a1.0 (c2 ∙ sym c1))
order_eq_trans c (chars d1 n1 b1 m1) null_literal w (a1, c1) (a2, c2) h3 p q =
    absurd (not_null d1 (inr a1.0) (c1 ∙ sym c2))
order_eq_trans c null_literal v w h1 h2 h3 p q = refl

-- The elements stand in order.
abbrev pub Sorted : List DataValue → Type 0
Sorted [] = Unit
Sorted (e ∷ es) = All (λ f. order e f ≡ Ordering.lt) es × Sorted es

-- Whether one of the elements is equal to a value.
abbrev pub any_equal : DataValue → List DataValue → Bool
any_equal v [] = false
any_equal v (e ∷ es) = if equal v e then true else any_equal v es

module _ (c : ℕ) where
  by_order : (v w : DataValue) → OfType c v → OfType c w → Compares (order v w) v w
  by_order v w (a, x) (b, y) = same_type-Compares v w a b (x ∙ sym y)

  flipped : (v w : DataValue) → OfType c v → OfType c w → order w v ≡ flip (order v w)
  flipped v w (a, x) (b, y) = order-flip v w a b (x ∙ sym y)

  -- Nothing behind a greater element is equal.
  none_behind :
      (v : DataValue) (es : List DataValue)
      → OfType c v
      → All (OfType c) es
      → All (λ f. order v f ≡ Ordering.lt) es
      → any_equal v es ≡ false
  none_behind v [] h t l = refl
  none_behind v (e ∷ es) h t l = rw ((by_order v e h t.0).eq, l.0) (none_behind v es h t.1 l.1)

  behind :
      (v e : DataValue) (es : List DataValue)
      → OfType c v
      → OfType c e
      → All (OfType c) es
      → order v e ≡ Ordering.lt
      → All (λ f. order e f ≡ Ordering.lt) es
      → All (λ f. order v f ≡ Ordering.lt) es
  behind v e [] h k t o l = tt
  behind v e (f ∷ es) h k t o l = (order_trans c v e f h k t.0 o l.0, behind v e es h k t.1 o l.1)

  -- Exist finds exactly the values that are equal to an element, in a set of values of one type in order.
  exist-any_equal :
      (v : DataValue) (es : List DataValue)
      → OfType c v
      → All (OfType c) es
      → Sorted es
      → exist v es ≡ any_equal v es
  unfolding exist
  exist-any_equal v [] h t s = refl
  exist-any_equal v (e ∷ es) h t (l, s) = by_case (order v e) refl (exist-any_equal v es h t.1 s)
    where
      by_case :
          (o : Ordering)
          → order v e ≡ o
          → exist v es ≡ any_equal v es
          → exist v (e ∷ es) ≡ any_equal v (e ∷ es)
      by_case Ordering.lt p r =
          rw
            (
              (by_order e v t.0 h).lt,
              flipped v e h t.0,
              (by_order v e h t.0).lt,
              (by_order v e h t.0).eq,
              p,
            )
            (sym (none_behind v es h t.1 (behind v e es h t.0 t.1 p l)))
      by_case Ordering.eq p r =
          rw
            (
              (by_order e v t.0 h).lt,
              flipped v e h t.0,
              (by_order v e h t.0).lt,
              (by_order v e h t.0).eq,
              p,
            )
            refl
      by_case Ordering.gt p r =
          rw
            (
              (by_order e v t.0 h).lt,
              flipped v e h t.0,
              (by_order v e h t.0).lt,
              (by_order v e h t.0).eq,
              p,
            )
            r

  -- An element that goes in keeps the bounds of the others.
  add_elem-All :
      (P : DataValue → Type 0) (v : DataValue) (es : List DataValue)
      → P v
      → All P es
      → All P (add_elem v es)
  unfolding add_elem
  add_elem-All P v [] h t = (h, tt)
  add_elem-All P v (e ∷ es) h (a, t) = elim (Bool-cases (less e v)) [
    | inl x ↦ rw x (a, add_elem-All P v es h t)
    | inr x ↦ rw x (elim (Bool-cases (less v e)) [ inl y ↦ rw y (h, (a, t)) | inr y ↦ rw y (a, t) ])
  ]

  add_elem-Sorted :
      (v : DataValue) (es : List DataValue)
      → OfType c v
      → All (OfType c) es
      → Sorted es
      → Sorted (add_elem v es)
  unfolding add_elem
  add_elem-Sorted v [] h t s = (tt, tt)
  add_elem-Sorted v (e ∷ es) h (a, t) (l, s) = elim (Bool-cases (less e v)) [
    | inl x ↦ rw x (
      add_elem-All (λ f. order e f ≡ Ordering.lt) v es
          (is_less (order e v) (sym (by_order e v a h).lt ∙ x)) l,
      add_elem-Sorted v es h t s,
    )
    | inr x ↦ rw x (elim (Bool-cases (less v e)) [
      | inl y ↦ rw y (
          let o = is_less (order v e) (sym (by_order v e h a).lt ∙ y) in
          ((o, behind v e es h a t o l), (l, s)))
      | inr y ↦ rw y (l, s)
    ])
  ]
    where
      is_less : (o : Ordering) → is_lt o ≡ true → o ≡ Ordering.lt
      is_less o q = ground (arith, q)

  -- The values equal to an element of the set that AddElem makes are those equal to the value that it
  -- is given, and those that were equal to an element before.
  any_equal-add_elem :
      (v e : DataValue) (es : List DataValue)
      → OfType c v
      → OfType c e
      → All (OfType c) es
      → any_equal v (add_elem e es) ≡ (if equal v e then true else any_equal v es)
  unfolding add_elem
  any_equal-add_elem v e [] h k t = refl
  any_equal-add_elem v e (f ∷ es) h k (a, t) =
      by_case (order e f) refl (any_equal-add_elem v e es h k t)
    where
      too : order e f ≡ Ordering.eq → equal v e ≡ true → equal v f ≡ true
      too q x =
          let o = is_equal (order v e) (sym (by_order v e h k).eq ∙ x) in
          (by_order v f h a).eq ∙ ap is_eq (order_eq_trans c v e f h k a o q)

      by_case :
          (o : Ordering)
          → order e f ≡ o
          → any_equal v (add_elem e es) ≡ (if equal v e then true else any_equal v es)
          → any_equal v (add_elem e (f ∷ es)) ≡ (if equal v e then true else any_equal v (f ∷ es))
      by_case Ordering.lt p again =
          rw ((by_order f e a k).lt, flipped e f k a, (by_order e f k a).lt, p) refl
      by_case Ordering.eq p again =
          rw ((by_order f e a k).lt, flipped e f k a, (by_order e f k a).lt, p)
            (ground (arith, too p))
      by_case Ordering.gt p again =
          rw ((by_order f e a k).lt, flipped e f k a, (by_order e f k a).lt, p)
            (ground (arith, again))

  -- AddElem keeps a set of values of one type in order and of that type, and Exist finds in it exactly the
  -- value that was added, with those equal to it, and those that it found before.
  pub exist-add_elem :
      (v e : DataValue) (es : List DataValue)
      → OfType c v
      → OfType c e
      → All (OfType c) es
      → Sorted es
      → Sorted (add_elem e es)
        × All (OfType c) (add_elem e es)
        × (exist v (add_elem e es) ≡ (if equal v e then true else exist v es))
  exist-add_elem v e es h k t s =
      let sorted = add_elem-Sorted e es k t s in
      let typed = add_elem-All (OfType c) e es k t in
      (
        sorted,
        typed,
        exist-any_equal v (add_elem e es) h typed sorted
            ∙ any_equal-add_elem v e es h k t
            ∙ ap (λ (b : Bool). if equal v e then true else b) (sym (exist-any_equal v es h t s)),
      )
