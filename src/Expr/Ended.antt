-- ===== src/Expr/Ended.antt =====
-- When PickIndexCondition comes to an end, without following a null pointer.
use rapid_db.Common.{
  ℕ, suc, ◌≡◌, ◌⊎◌, inl, inr, refl, [], ◌∷◌, Option, none, some, Bool, true, false, ◌&&◌, ◌||◌, not,
  arith, if◌then◌else◌, Bool-cases,
}
use rapid_db.Common.Int.{ℤ, negsuc, compare_ℤ}
use rapid_db.Value.{DataValue, is_eq}
use rapid_db.Expr.{
  TriBool, CompType, Data, Expr, Exprs, comp, in_not, is_null_not, between, like, not_expr,
  and_expr, or_expr, nil, cons, field, const_value, is_field, is_const_value,
}
use rapid_db.Expr.Pick.{
  Table, Pick, pick_between, pick_comp, pick_turned, is_and, is_or, IdxLogics, keep, Scan,
  with_child, stop, take_conditions, and_round, or_after, or_with, or_round, pick_index_condition,
  and_loop, or_loop,
}

-- No BETWEEN of a field and two constants and, below an OR, no AND: what the other conditions of a WHERE
-- are made of.
unfoldable mutual
  pub Safe : Expr → Type 0
  Safe (comp t l r) = Unit
  Safe (in_not d arr b_in) = Unit
  Safe (is_null_not d b_null) = Unit
  Safe (between d l r) = (is_field d && is_const_value l && is_const_value r) ≡ false
  Safe (like d p b_like) = Unit
  Safe (not_expr e) = Unit
  Safe (and_expr es) = ⊥
  Safe (or_expr es) = SafeAll es

  pub SafeAll : Exprs → Type 0
  SafeAll nil = Unit
  SafeAll (cons e es) = Safe e × SafeAll es

-- Safe, or an AND, which the loop of an AND passes over.
unfoldable pub SafeChildren : Exprs → Type 0
unfolding Safe
SafeChildren nil = Unit
SafeChildren (cons e es) = ((is_and e ≡ true) ⊎ Safe e) × SafeChildren es

abbrev IsSome {ℓ} : {A : Type ℓ} → Option A → Type 0
IsSome none = ⊥
IsSome (some a) = Unit

with_child-IsSome : (e : Expr) (o : Option Scan) → IsSome o → IsSome (with_child e o)
with_child-IsSome e none h = h
with_child-IsSome e (some s) h = tt

or_with-IsSome : (e : Expr) (o : Option Pick) → IsSome o → IsSome (or_with e o)
or_with-IsSome e none h = h
or_with-IsSome e (some k) h = tt

and_round-IsSome :
    (il : IdxLogics) (b : Bool) (p : ℕ) (es : Exprs) (rest : IdxLogics → Option Scan)
    (o : Option Pick)
    → IsSome o
    → ((l : IdxLogics) → IsSome (rest l))
    → IsSome (and_round il b p es rest o)
unfolding and_round
and_round-IsSome il b p es rest none h r = absurd h
and_round-IsSome il b p es rest (some k) h r = by_result k.result
  where
    going : (c : Bool) (l : IdxLogics) → IsSome (if c then rest l else stop l es)
    going true l = r l
    going false l = tt

    by_result :
        (t : TriBool)
        → IsSome {A = Scan} (elim t [
          | TriBool.error ↦
              some (record { scan_error = true; vct_il = il; children = cons k.after es })
          | TriBool.no ↦ with_child k.after (rest il)
          | TriBool.ok ↦ with_child k.after (
              if (keep il b p k.idx_pos).0
              then rest (keep il b p k.idx_pos).1
              else stop (keep il b p k.idx_pos).1 es)
        ])
    by_result TriBool.error = tt
    by_result TriBool.no = with_child-IsSome k.after (rest il) (r il)
    by_result TriBool.ok =
        with_child-IsSome k.after _ (going (keep il b p k.idx_pos).0 (keep il b p k.idx_pos).1)

or_round-IsSome :
    (idx : ℤ) (es : Exprs) (rest : ℤ → Option Pick) (o : Option Pick)
    → IsSome o
    → ((i : ℤ) → IsSome (rest i))
    → IsSome (or_round idx es rest o)
or_round-IsSome idx es rest none h r = absurd h
or_round-IsSome idx es rest (some k) h r = by_result k.result
  where
    ended : TriBool → Option Pick
    ended t =
        some (record { result = t; idx_pos = idx; vct_expr = []; after = or_after k.after es })

    going :
        (c d : Bool)
        → IsSome (
            if c
            then or_with k.after (rest k.idx_pos)
            else if d
            then or_with k.after (rest idx)
            else ended TriBool.no)
    going true d = or_with-IsSome k.after (rest k.idx_pos) (r k.idx_pos)
    going false true = or_with-IsSome k.after (rest idx) (r idx)
    going false false = tt

    by_result :
        (t : TriBool)
        → IsSome (elim t [
          | TriBool.error ↦ ended TriBool.error
          | TriBool.no ↦ ended TriBool.no
          | TriBool.ok ↦
              if is_eq (compare_ℤ idx (negsuc 0))
              then or_with k.after (rest k.idx_pos)
              else if is_eq (compare_ℤ idx k.idx_pos)
              then or_with k.after (rest idx)
              else ended TriBool.no
        ])
    by_result TriBool.error = tt
    by_result TriBool.no = tt
    by_result TriBool.ok =
        going (is_eq (compare_ℤ idx (negsuc 0))) (is_eq (compare_ℤ idx k.idx_pos))

between-IsSome :
    (table : Table) (d l r : Data)
    → (is_field d && is_const_value l && is_const_value r) ≡ false
    → IsSome (pick_between table d l r)
unfolding pick_between
between-IsSome table d l r h =
    elim (Bool-cases (not (is_field d) || not (is_const_value l) || not (is_const_value r))) [
      | inl c ↦ rw c tt
      | inr c ↦ absurd (ground (arith, h, c))
    ]

mutual
  unfolding pick_index_condition or_loop Safe SafeAll

  Safe-IsSome : (table : Table) (e : Expr) → Safe e → IsSome (pick_index_condition table e false)
  Safe-IsSome table (comp t l r) h = tt
  Safe-IsSome table (in_not d arr b_in) h = tt
  Safe-IsSome table (is_null_not d b_null) h = tt
  Safe-IsSome table (between d l r) h = between-IsSome table d l r h
  Safe-IsSome table (like d p b_like) h = tt
  Safe-IsSome table (not_expr e) h = tt
  Safe-IsSome table (and_expr es) h = absurd h
  Safe-IsSome table (or_expr es) h = safe_all table es (negsuc 0) h

  safe_all : (table : Table) (es : Exprs) (idx : ℤ) → SafeAll es → IsSome (or_loop table es idx)
  safe_all table nil idx h = tt
  safe_all table (cons e es) idx (h, t) =
      or_round-IsSome idx es (or_loop table es) (pick_index_condition table e false)
        (Safe-IsSome table e h) (λ i. safe_all table es i t)

safe_children :
    (table : Table) (p : ℕ) (es : Exprs) (il : IdxLogics)
    → SafeChildren es
    → IsSome (and_loop table p es il)
unfolding and_loop SafeChildren
safe_children table p nil il h = tt
safe_children table p (cons e es) il (h, t) = elim (Bool-cases (is_and e)) [
  | inl c ↦
      rw c
        (with_child-IsSome e (and_loop table (suc p) es il) (safe_children table (suc p) es il t))
  | inr c ↦ rw c (
      and_round-IsSome il (is_or e) p es (and_loop table (suc p) es)
        (pick_index_condition table e false) (Safe-IsSome table e (other h c))
        (λ l. safe_children table (suc p) es l t))
]
  where
    other : (is_and e ≡ true) ⊎ Safe e → is_and e ≡ false → Safe e
    other (inl x) y = absurd (ground (arith, x, y))
    other (inr x) y = x

taken-IsSome : (o : Option Scan) → IsSome o → IsSome (take_conditions true o)
unfolding take_conditions
taken-IsSome none h = h
taken-IsSome (some s) h = by_error s.scan_error s.vct_il
  where
    by_error :
        (b : Bool) (il : IdxLogics)
        → IsSome (take_conditions true (some (record s { scan_error = b; vct_il = il })))
    by_error true il = tt
    by_error false [] = tt
    by_error false (x ∷ il) = tt

-- PickIndexCondition of a WHERE condition comes to an end, if it is an AND, whose children are ANDs or
-- have neither a BETWEEN of a field and two constants nor an AND below an OR, or such a child itself.
pub pick_index_condition_ends :
    (table : Table) (es : Exprs) (e : Expr)
    → SafeChildren es
    → Safe e
    → ((k : Pick) × (pick_index_condition table (and_expr es) true ≡ some k))
      × ((k : Pick) × (pick_index_condition table e false ≡ some k))
unfolding pick_index_condition
pick_index_condition_ends table es e h s = (
  found (take_conditions true (and_loop table 0 es []))
      (taken-IsSome (and_loop table 0 es []) (safe_children table 0 es [] h)),
  found (pick_index_condition table e false) (Safe-IsSome table e s),
)
  where
    found : (o : Option Pick) → IsSome o → (k : Pick) × (o ≡ some k)
    found none h = absurd h
    found (some k) h = (k, refl)

-- A BETWEEN of a field and two constants does not come to an end, nor does an AND with a comparison of
-- an index's first field and a constant without a vector to put it into, as below an OR.
pub pick_index_condition_fails :
    (table : Table) (f i : ℕ) (t : CompType) (v w : DataValue)
    → table f ≡ some i
    → (pick_index_condition table (between (field f) (const_value v) (const_value w)) true ≡ none)
      × (pick_index_condition table
            (or_expr (cons (and_expr (cons (comp t (field f) (const_value v)) nil)) nil))
            true
          ≡ none)
unfolding pick_index_condition and_loop or_loop pick_comp pick_turned pick_between and_round
    take_conditions keep
pick_index_condition_fails table f i t v w e = (refl, rw e refl)
