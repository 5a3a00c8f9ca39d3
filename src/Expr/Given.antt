-- ===== src/Expr/Given.antt =====
-- The conditions that an AND gives away, with what it keeps, mean what it meant.
use mathlib.Core.List.{reverse-cons}
use rapid_db.Common.{
  ℕ, suc, ◌≡◌, ◌↔◌, inl, inr, refl, sym, subst, ◌∙◌, List, [], ◌∷◌, ◌++◌, reverse, All, All-append,
  Option, none, some, Bool, true, false, Bool-cases,
}
use rapid_db.Expr.{TriBool, Vector, Expr, Exprs, and_expr, nil, cons, calc}
use rapid_db.Expr.Logic.{AllTrue, calc-and_expr}
use rapid_db.Expr.Pick.{
  Table, Pick, IdxLogics, Scan, has_place, chosen, unchosen, take_conditions, pick_index_condition,
  and_loop,
}
use rapid_db.Expr.Picked.{
  ExprTyped, Alike, calc_all-Alike, Kept, KeptScan, pick-Kept, and_loop-Kept,
}

module _ {ℓ κ} {A : Type ℓ} (P : A → Type κ) where
  reverse-All : (xs : List A) → All P (reverse xs) ↔ All P xs
  reverse-All [] = ((λ h. h), λ h. h)
  reverse-All (x ∷ xs) =
      let (to, from) = reverse-All xs in
      (
        (λ h.
            let (a, b) = parts (reverse xs) (x ∷ []) (subst (All P) (reverse-cons x xs) h) in
            (b.0, to a)),
        λ h.
            subst (All P) (sym (reverse-cons x xs))
              (All-append P (reverse xs) (x ∷ []) (from h.1) (h.0, tt)),
      )
    where
      parts : (ys zs : List A) → All P (ys ++ zs) → All P ys × All P zs
      parts [] zs h = (tt, h)
      parts (y ∷ ys) zs h = let (a, b) = parts ys zs h.1 in ((h.0, a), b)

module _ (paras row : Vector) where
  abbrev pub IsTrue : Expr → Type 0
  IsTrue e = calc e paras row ≡ some TriBool.ok

  chosen-IsTrue :
      (p : ℕ) (il : IdxLogics) (es : Exprs)
      → AllTrue es paras row ↔ (All IsTrue (chosen p il es) × AllTrue (unchosen p il es) paras row)
  unfolding chosen unchosen
  chosen-IsTrue p il nil = ((λ h. (tt, tt)), λ h. tt)
  chosen-IsTrue p il (cons e es) =
      let (to, from) = chosen-IsTrue (suc p) il es in
      elim (Bool-cases (has_place p il)) [
        | inl c ↦ rw c ((λ h. ((h.0, (to h.1).0), (to h.1).1)), λ h. (h.0.0, from (h.0.1, h.1)))
        | inr c ↦ rw c ((λ h. ((to h.1).0, (h.0, (to h.1).1))), λ h. (h.1.0, from (h.0, h.1.1)))
      ]

  -- The conditions given away and the expression left are true together when one was.
  abbrev pub Splits : Expr → Pick → Type 0
  Splits e k = IsTrue e ↔ (All IsTrue k.vct_expr × IsTrue k.after)

  unsplit :
      (e f : Expr) → calc f paras row ≡ calc e paras row → IsTrue e ↔ (All IsTrue [] × IsTrue f)
  unsplit e f h = ((λ t. (tt, h ∙ t)), λ t. sym h ∙ t.1)

  abbrev SplitsPick : Expr → Option Pick → Type 0
  SplitsPick e none = Unit
  SplitsPick e (some k) = Splits e k

  given_or_kept :
      (il : IdxLogics) (es fs : Exprs)
      → Alike paras row es fs
      → IsTrue (and_expr es)
        ↔ (All IsTrue (reverse (chosen 0 il fs)) × IsTrue (and_expr (unchosen 0 il fs)))
  unfolding calc
  given_or_kept il es fs a =
      let (to, from) = chosen-IsTrue 0 il fs in
      let (all, back) = calc-and_expr fs paras row in
      let (all', back') = calc-and_expr (unchosen 0 il fs) paras row in
      let (un, re) = reverse-All IsTrue (chosen 0 il fs) in
      let same = calc_all-Alike paras row es fs a in
      (
        (λ h. let parts = to (all (same ∙ h)) in (re parts.0, back' parts.1)),
        λ h. sym same ∙ back (from (un h.0, all' h.1)),
      )

  and-Splits :
      (es : Exprs) (o : Option Scan)
      → KeptScan paras row es o
      → SplitsPick (and_expr es) (take_conditions true o)
  unfolding take_conditions calc
  and-Splits es none h = tt
  and-Splits es (some s) h = by_error s.scan_error s.vct_il
    where
      by_error :
          (b : Bool) (il : IdxLogics)
          → SplitsPick
              (and_expr es)
              (take_conditions true (some (record s { scan_error = b; vct_il = il })))
      by_error true il =
          unsplit (and_expr es) (and_expr s.children) (calc_all-Alike paras row es s.children h)
      by_error false [] =
          unsplit (and_expr es) (and_expr s.children) (calc_all-Alike paras row es s.children h)
      by_error false (x ∷ il) = given_or_kept (x ∷ il) es s.children h

  -- Where PickIndexCondition of an AND comes to an end, the AND is true exactly when the conditions that
  -- it gives away and what it keeps are all true, for values of their types.
  pub pick_index_condition-Splits :
      (table : Table) (es : Exprs) (k : Pick)
      → ExprTyped paras row (and_expr es)
      → pick_index_condition table (and_expr es) true ≡ some k
      → IsTrue (and_expr es) ↔ (All IsTrue k.vct_expr × IsTrue k.after)
  unfolding pick_index_condition ExprTyped
  pick_index_condition-Splits table es k h e =
      subst (SplitsPick (and_expr es)) e
        (and-Splits es (and_loop table 0 es []) (and_loop-Kept paras row table 0 es [] h))

  -- Where PickIndexCondition comes to an end without a vector to give conditions to, it leaves an
  -- expression with the same result.
  pub pick_index_condition-Kept :
      (table : Table) (e : Expr) (k : Pick)
      → ExprTyped paras row e
      → pick_index_condition table e false ≡ some k
      → calc k.after paras row ≡ calc e paras row
  pick_index_condition-Kept table e k h q =
      subst (Kept paras row e) q (pick-Kept paras row table e h)

-- Nothing is given away without a condition on an index.
abbrev NoGiven : Option Pick → Type 0
NoGiven none = Unit
NoGiven (some k) = k.result ≡ TriBool.no → k.vct_expr ≡ []

and-NoGiven : (o : Option Scan) → NoGiven (take_conditions true o)
unfolding take_conditions
and-NoGiven none = tt
and-NoGiven (some s) = by_error s.scan_error s.vct_il
  where
    by_error :
        (b : Bool) (il : IdxLogics)
        → NoGiven (take_conditions true (some (record s { scan_error = b; vct_il = il })))
    by_error true il = λ e. refl
    by_error false [] = λ e. refl
    by_error false (x ∷ il) = λ e. cc

pub no-given :
    (table : Table) (es : Exprs) (k : Pick)
    → pick_index_condition table (and_expr es) true ≡ some k
    → k.result ≡ TriBool.no
    → k.vct_expr ≡ []
unfolding pick_index_condition
no-given table es k e = subst NoGiven e (and-NoGiven (and_loop table 0 es []))
