-- ===== src/Expr/Picked.antt =====
-- PickIndexCondition leaves the expressions of a WHERE condition with the results that they had.
use rapid_db.Common.{
  ℕ, suc, ◌≡◌, inl, inr, refl, ap, ap₂, ◌∙◌, List, [], ◌∷◌, Option, none, some, Bool, true, false,
  ◌&&◌, ◌||◌, not, if◌then◌else◌, Bool-cases,
}
use rapid_db.Common.Int.{ℤ, negsuc, compare_ℤ}
use rapid_db.Value.{DataValue, is_eq}
use rapid_db.Expr.{
  TriBool, CompType, Vector, Data, Expr, Exprs, comp, in_not, is_null_not, between, like, not_expr,
  and_expr, or_expr, nil, cons, calc, calc_all, calc_any, calc_data, is_field, is_const_value,
  as_field, turned, reverse_comp, and_then, or_else,
}
use rapid_db.Expr.Turned.{OptionTyped, calc-reverse_comp}
use rapid_db.Expr.Pick.{
  Table, Pick, by_index, look_up, pick_turned, pick_comp, pick_in_not, pick_between, is_and, is_or,
  IdxLogics, keep, Scan, with_child, stop, take_conditions, and_round, or_after, or_with, or_round,
  pick_index_condition, and_loop, or_loop,
}

module _ (paras row : Vector) where
  -- The values of every comparison outside a NOT have their types.
  unfoldable mutual
    pub ExprTyped : Expr → Type 0
    ExprTyped (comp t l r) =
        OptionTyped (calc_data l paras row) × OptionTyped (calc_data r paras row)
    ExprTyped (in_not d arr b_in) = Unit
    ExprTyped (is_null_not d b_null) = Unit
    ExprTyped (between d l r) = Unit
    ExprTyped (like d p b_like) = Unit
    ExprTyped (not_expr e) = Unit
    ExprTyped (and_expr es) = ExprsTyped es
    ExprTyped (or_expr es) = ExprsTyped es

    pub ExprsTyped : Exprs → Type 0
    ExprsTyped nil = Unit
    ExprsTyped (cons e es) = ExprTyped e × ExprsTyped es

  -- Expressions with the same results, one by one.
  pub Alike : Exprs → Exprs → Type 0
  Alike nil nil = Unit
  Alike nil (cons e es) = ⊥
  Alike (cons e es) nil = ⊥
  Alike (cons e es) (cons f fs) = (calc f paras row ≡ calc e paras row) × Alike es fs

  Alike-refl : (es : Exprs) → Alike es es
  unfolding Alike
  Alike-refl nil = tt
  Alike-refl (cons e es) = (refl, Alike-refl es)

  pub calc_all-Alike : (es fs : Exprs) → Alike es fs → calc_all fs paras row ≡ calc_all es paras row
  unfolding Alike calc_all
  calc_all-Alike nil nil h = refl
  calc_all-Alike nil (cons e es) h = absurd h
  calc_all-Alike (cons e es) nil h = absurd h
  calc_all-Alike (cons e es) (cons f fs) (h, t) = ap₂ and_then h (calc_all-Alike es fs t)

  calc_any-Alike : (es fs : Exprs) → Alike es fs → calc_any fs paras row ≡ calc_any es paras row
  unfolding Alike calc_any
  calc_any-Alike nil nil h = refl
  calc_any-Alike nil (cons e es) h = absurd h
  calc_any-Alike (cons e es) nil h = absurd h
  calc_any-Alike (cons e es) (cons f fs) (h, t) = ap₂ or_else h (calc_any-Alike es fs t)

  -- A call leaves an expression with the results that it had, and a loop the children.
  abbrev pub Kept : Expr → Option Pick → Type 0
  Kept e none = Unit
  Kept e (some k) = calc k.after paras row ≡ calc e paras row

  abbrev pub KeptScan : Exprs → Option Scan → Type 0
  KeptScan es none = Unit
  KeptScan es (some s) = Alike es s.children

  abbrev pub KeptOr : Exprs → Option Pick → Type 0
  KeptOr es none = Unit
  KeptOr es (some k) = (fs : Exprs) × (k.after ≡ or_expr fs) × Alike es fs

  with_child-KeptScan :
      (e f : Expr) (es : Exprs) (o : Option Scan)
      → calc f paras row ≡ calc e paras row
      → KeptScan es o
      → KeptScan (cons e es) (with_child f o)
  unfolding Alike
  with_child-KeptScan e f es none h k = tt
  with_child-KeptScan e f es (some s) h k = (h, k)

  and_round-KeptScan :
      (e : Expr) (es : Exprs) (il : IdxLogics) (b : Bool) (p : ℕ) (rest : IdxLogics → Option Scan)
      (o : Option Pick)
      → Kept e o
      → ((l : IdxLogics) → KeptScan es (rest l))
      → KeptScan (cons e es) (and_round il b p es rest o)
  unfolding Alike and_round
  and_round-KeptScan e es il b p rest none k r = tt
  and_round-KeptScan e es il b p rest (some k) h r = by_result k.result
    where
      by_result :
          (t : TriBool)
          → KeptScan (cons e es) (elim t [
            | TriBool.error ↦
                some (record { scan_error = true; vct_il = il; children = cons k.after es })
            | TriBool.no ↦ with_child k.after (rest il)
            | TriBool.ok ↦ with_child k.after (
                if (keep il b p k.idx_pos).0
                then rest (keep il b p k.idx_pos).1
                else stop (keep il b p k.idx_pos).1 es)
          ])
      by_result TriBool.error = (h, Alike-refl es)
      by_result TriBool.no = with_child-KeptScan e k.after es (rest il) h (r il)
      by_result TriBool.ok =
          with_child-KeptScan e k.after es _ h
            (going (keep il b p k.idx_pos).0 (keep il b p k.idx_pos).1)
        where
          going : (c : Bool) (l : IdxLogics) → KeptScan es (if c then rest l else stop l es)
          going true l = r l
          going false l = Alike-refl es

  or_with-KeptOr :
      (e f : Expr) (es : Exprs) (o : Option Pick)
      → calc f paras row ≡ calc e paras row
      → KeptOr es o
      → KeptOr (cons e es) (or_with f o)
  unfolding Alike
  or_with-KeptOr e f es none h k = tt
  or_with-KeptOr e f es (some k) h (fs, q, a) =
      (cons f fs, ap (λ x. elim x [ or_expr es ↦ or_expr (cons f es) | o ↦ o ]) q, (h, a))

  or_round-KeptOr :
      (e : Expr) (es : Exprs) (idx : ℤ) (rest : ℤ → Option Pick) (o : Option Pick)
      → Kept e o
      → ((i : ℤ) → KeptOr es (rest i))
      → KeptOr (cons e es) (or_round idx es rest o)
  unfolding Alike
  or_round-KeptOr e es idx rest none h r = tt
  or_round-KeptOr e es idx rest (some k) h r = by_result k.result
    where
      ended : TriBool → Option Pick
      ended t =
          some (record { result = t; idx_pos = idx; vct_expr = []; after = or_after k.after es })

      by_result :
          (t : TriBool)
          → KeptOr (cons e es) (elim t [
            | TriBool.error ↦ ended TriBool.error
            | TriBool.no ↦ ended TriBool.no
            | TriBool.ok ↦
                if is_eq (compare_ℤ idx (negsuc 0))
                then or_with k.after (rest k.idx_pos)
                else if is_eq (compare_ℤ idx k.idx_pos)
                then or_with k.after (rest idx)
                else ended TriBool.no
          ])
      by_result TriBool.error = (cons k.after es, refl, (h, Alike-refl es))
      by_result TriBool.no = (cons k.after es, refl, (h, Alike-refl es))
      by_result TriBool.ok =
          going (is_eq (compare_ℤ idx (negsuc 0))) (is_eq (compare_ℤ idx k.idx_pos))
        where
          going :
              (c d : Bool)
              → KeptOr (cons e es) (
                  if c
                  then or_with k.after (rest k.idx_pos)
                  else if d
                  then or_with k.after (rest idx)
                  else ended TriBool.no)
          going true d = or_with-KeptOr e k.after es (rest k.idx_pos) h (r k.idx_pos)
          going false true = or_with-KeptOr e k.after es (rest idx) h (r idx)
          going false false = (cons k.after es, refl, (h, Alike-refl es))

  -- The conditions that change nothing but the side of a field.
  by_index-Kept :
      (o : Option ℕ) (e f : Expr)
      → calc f paras row ≡ calc e paras row
      → Kept e (some (by_index o f))
  by_index-Kept none e f h = h
  by_index-Kept (some i) e f h = h

  turned-Kept :
      (table : Table) (t : CompType) (l r : Data) (e : Expr)
      → calc (comp t l r) paras row ≡ calc e paras row
      → Kept e (some (pick_turned table t l r))
  unfolding pick_turned
  turned-Kept table t l r e h = elim (Bool-cases (not (is_field l) || not (is_const_value r))) [
    | inl c ↦ rw c h
    | inr c ↦ rw c (by_index-Kept (look_up table (as_field l)) e (comp t l r) h)
  ]

  comp-Kept :
      (table : Table) (t : CompType) (l r : Data)
      → ExprTyped (comp t l r)
      → Kept (comp t l r) (some (pick_comp table t l r))
  unfolding pick_comp ExprTyped reverse_comp
  comp-Kept table t l r (a, b) = elim (Bool-cases (is_field r && is_const_value l)) [
    | inl c ↦
        rw c (turned-Kept table (turned t) r l (comp t l r) (calc-reverse_comp t l r paras row a b))
    | inr c ↦ rw c (turned-Kept table t l r (comp t l r) refl)
  ]

  in_not-Kept :
      (table : Table) (d : Data) (arr : List DataValue) (b_in : Bool)
      → Kept (in_not d arr b_in) (some (pick_in_not table d arr b_in))
  unfolding pick_in_not
  in_not-Kept table d arr b_in = elim (Bool-cases (not b_in || not (is_field d))) [
    | inl c ↦ rw c refl
    | inr c ↦
        rw c
          (by_index-Kept (look_up table (as_field d)) (in_not d arr b_in) (in_not d arr b_in) refl)
  ]

  between-Kept : (table : Table) (d l r : Data) → Kept (between d l r) (pick_between table d l r)
  unfolding pick_between
  between-Kept table d l r =
      elim (Bool-cases (not (is_field d) || not (is_const_value l) || not (is_const_value r))) [
        | inl c ↦ rw c refl
        | inr c ↦ rw c tt
      ]

  and-Kept :
      (es : Exprs) (o : Option Scan) → KeptScan es o → Kept (and_expr es) (take_conditions false o)
  unfolding take_conditions calc
  and-Kept es none h = tt
  and-Kept es (some s) h = by_error s.scan_error s.vct_il
    where
      by_error :
          (b : Bool) (il : IdxLogics)
          → Kept
              (and_expr es)
              (take_conditions false (some (record s { scan_error = b; vct_il = il })))
      by_error true il = calc_all-Alike es s.children h
      by_error false [] = calc_all-Alike es s.children h
      by_error false (x ∷ il) = tt

  or-Kept : (es : Exprs) (o : Option Pick) → KeptOr es o → Kept (or_expr es) o
  unfolding calc
  or-Kept es none h = tt
  or-Kept es (some k) (fs, q, a) = ap (λ e. calc e paras row) q ∙ calc_any-Alike es fs a

  mutual
    unfolding pick_index_condition and_loop or_loop ExprTyped ExprsTyped

    pub pick-Kept :
        (table : Table) (e : Expr) → ExprTyped e → Kept e (pick_index_condition table e false)
    pick-Kept table (comp t l r) h = comp-Kept table t l r h
    pick-Kept table (in_not d arr b_in) h = in_not-Kept table d arr b_in
    pick-Kept table (is_null_not d b_null) h = refl
    pick-Kept table (between d l r) h = between-Kept table d l r
    pick-Kept table (like d p b_like) h = refl
    pick-Kept table (not_expr e) h = refl
    pick-Kept table (and_expr es) h =
        and-Kept es (and_loop table 0 es []) (and_loop-Kept table 0 es [] h)
    pick-Kept table (or_expr es) h =
        or-Kept es (or_loop table es (negsuc 0)) (or_loop-Kept table es (negsuc 0) h)

    pub and_loop-Kept :
        (table : Table) (p : ℕ) (es : Exprs) (il : IdxLogics)
        → ExprsTyped es
        → KeptScan es (and_loop table p es il)
    and_loop-Kept table p nil il h = Alike-refl nil
    and_loop-Kept table p (cons e es) il (h, t) = elim (Bool-cases (is_and e)) [
      | inl c ↦ rw c (
          with_child-KeptScan e e es (and_loop table (suc p) es il) refl
            (and_loop-Kept table (suc p) es il t))
      | inr c ↦ rw c (
          and_round-KeptScan e es il (is_or e) p (and_loop table (suc p) es)
            (pick_index_condition table e false) (pick-Kept table e h)
            (λ l. and_loop-Kept table (suc p) es l t))
    ]

    or_loop-Kept :
        (table : Table) (es : Exprs) (idx : ℤ) → ExprsTyped es → KeptOr es (or_loop table es idx)
    or_loop-Kept table nil idx h = (nil, refl, Alike-refl nil)
    or_loop-Kept table (cons e es) idx (h, t) =
        or_round-KeptOr e es idx (or_loop table es) (pick_index_condition table e false)
          (pick-Kept table e h) (λ i. or_loop-Kept table es i t)
