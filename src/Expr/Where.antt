-- ===== src/Expr/Where.antt =====
-- ExprWhere::Preprocess of src/expr/ExprStatement.cpp, from the pick of the conditions on an index up to
-- the search on the index and what is left of the condition. The positions of the fields are filled in.
use rapid_db.Common.{
  ◌≡◌, ◌↔◌, inl, inr, refl, sym, ap, subst, ◌∙◌, List, [], ◌∷◌, All, Option, none, some, true,
  false, arith, if◌then◌else◌, Bool-cases,
}
use rapid_db.Common.Int.{ℤ}
use rapid_db.Expr.{
  TriBool, Vector, Expr, Exprs, comp, in_not, is_null_not, between, like, not_expr, and_expr,
  or_expr, nil, cons, calc, calc_all,
}
use rapid_db.Expr.Logic.{AllTrue, calc-and_expr}
use rapid_db.Expr.Pick.{Table, Pick, pick_index_condition, is_and}
use rapid_db.Expr.Picked.{ExprTyped}
use rapid_db.Expr.Given.{IsTrue, pick_index_condition-Splits, pick_index_condition-Kept, no-given}

-- `_indexSearch`, its conditions and index, and `_exprLogic`, null pointers being none.
pub record Where : Type 0 where
  pub index_search : Option (Expr × ℤ)
  pub expr_logic : Option Expr

-- A vector of conditions as the children of an AND.
abbrev pub exprs_of : List Expr → Exprs
exprs_of [] = nil
exprs_of (e ∷ es) = cons e (exprs_of es)

-- One condition by itself, more in a new AND.
abbrev pub searched : List Expr → Expr
searched [] = and_expr nil
searched (e ∷ []) = e
searched (e ∷ f ∷ es) = and_expr (cons e (cons f (exprs_of es)))

-- What is left of the AND.
abbrev pub remaining : Expr → Option Expr
remaining (and_expr nil) = none
remaining (and_expr (cons e nil)) = some e
remaining (and_expr (cons e (cons f es))) = some (and_expr (cons e (cons f es)))
remaining e = some e

unfoldable pub split_where : Expr → Pick → Option Where
split_where e k = elim k.result [
  | TriBool.error ↦ none
  | TriBool.no ↦ some (record { index_search = none; expr_logic = some k.after })
  | TriBool.ok ↦
      if is_and e
      then some (record {
        index_search = some (searched k.vct_expr, k.idx_pos);
        expr_logic = remaining k.after;
      })
      else some (record { index_search = some (k.after, k.idx_pos); expr_logic = none })
]

-- none, where a null pointer is followed, and none inside, where Preprocess returns false.
unfoldable pub preprocess : Table → Expr → Option (Option Where)
unfolding split_where pick_index_condition
preprocess table e = elim (pick_index_condition table e true) [
  | none ↦ none
  | some k ↦ some (split_where e k)
]

module _ (paras row : Vector) where
  -- A condition that is there is true.
  abbrev pub SearchTrue : Option (Expr × ℤ) → Type 0
  SearchTrue none = Unit
  SearchTrue (some (e, i)) = IsTrue paras row e

  abbrev pub LogicTrue : Option Expr → Type 0
  LogicTrue none = Unit
  LogicTrue (some e) = IsTrue paras row e

  exprs_of-IsTrue : (es : List Expr) → AllTrue (exprs_of es) paras row ↔ All (IsTrue paras row) es
  exprs_of-IsTrue [] = ((λ h. h), λ h. h)
  exprs_of-IsTrue (e ∷ es) =
      let (to, from) = exprs_of-IsTrue es in ((λ h. (h.0, to h.1)), λ h. (h.0, from h.1))

  searched-IsTrue : (es : List Expr) → IsTrue paras row (searched es) ↔ All (IsTrue paras row) es
  unfolding calc calc_all
  searched-IsTrue [] = ((λ h. tt), λ h. refl)
  searched-IsTrue (e ∷ []) = ((λ h. (h, tt)), λ h. h.0)
  searched-IsTrue (e ∷ f ∷ es) =
      let (to, from) = calc-and_expr (cons e (cons f (exprs_of es))) paras row in
      let (all, back) = exprs_of-IsTrue (e ∷ f ∷ es) in ((λ h. all (to h)), λ h. from (back h))

  remaining-IsTrue : (e : Expr) → LogicTrue (remaining e) ↔ IsTrue paras row e
  unfolding calc calc_all
  remaining-IsTrue (and_expr nil) = ((λ h. refl), λ h. tt)
  remaining-IsTrue (and_expr (cons e nil)) =
      let (to, from) = calc-and_expr (cons e nil) paras row in ((λ h. from (h, tt)), λ h. (to h).0)
  remaining-IsTrue (and_expr (cons e (cons f es))) = ((λ h. h), λ h. h)
  remaining-IsTrue (comp t l r) = ((λ h. h), λ h. h)
  remaining-IsTrue (in_not d arr b_in) = ((λ h. h), λ h. h)
  remaining-IsTrue (is_null_not d b_null) = ((λ h. h), λ h. h)
  remaining-IsTrue (between d l r) = ((λ h. h), λ h. h)
  remaining-IsTrue (like d p b_like) = ((λ h. h), λ h. h)
  remaining-IsTrue (not_expr e) = ((λ h. h), λ h. h)
  remaining-IsTrue (or_expr es) = ((λ h. h), λ h. h)

  -- Both parts of the condition are true.
  abbrev pub BothTrue : Option Where → Expr → Type 0
  BothTrue none e = Unit
  BothTrue (some w) e = IsTrue paras row e ↔ (SearchTrue w.index_search × LogicTrue w.expr_logic)

  split_true :
      (e : Expr) (k : Pick)
      → (is_and e ≡ true
          → IsTrue paras row e ↔ (All (IsTrue paras row) k.vct_expr × IsTrue paras row k.after))
      → (is_and e ≡ false → calc k.after paras row ≡ calc e paras row)
      → (k.result ≡ TriBool.no → IsTrue paras row e ↔ IsTrue paras row k.after)
      → BothTrue (split_where e k) e
  unfolding split_where
  split_true e k given kept unsplit = by_result k.result unsplit
    where
      two :
          BothTrue
            (if is_and e
              then some (record {
                index_search = some (searched k.vct_expr, k.idx_pos);
                expr_logic = remaining k.after;
              })
              else some (record { index_search = some (k.after, k.idx_pos); expr_logic = none }))
            e
      two = elim (Bool-cases (is_and e)) [
        | inl c ↦ rw c (
            let (to, from) = given c in
            let (s1, s2) = searched-IsTrue k.vct_expr in
            let (r1, r2) = remaining-IsTrue k.after in
            ((λ h. (s2 (to h).0, r2 (to h).1)), λ h. from (s1 h.0, r1 h.1)))
        | inr c ↦ rw c ((λ h. (kept c ∙ h, tt)), λ h. sym (kept c) ∙ h.0)
      ]

      by_result :
          (t : TriBool)
          → (t ≡ TriBool.no → IsTrue paras row e ↔ IsTrue paras row k.after)
          → BothTrue (split_where e (record k { result = t })) e
      by_result TriBool.error u = tt
      by_result TriBool.no u = ((λ h. (tt, (u refl).0 h)), λ h. (u refl).1 h.1)
      by_result TriBool.ok u = two

  -- Only an AND looks at the vector.
  same_pick :
      (table : Table) (e : Expr)
      → is_and e ≡ false
      → pick_index_condition table e true ≡ pick_index_condition table e false
  unfolding pick_index_condition
  same_pick table (comp t l r) h = refl
  same_pick table (in_not d arr b_in) h = refl
  same_pick table (is_null_not d b_null) h = refl
  same_pick table (between d l r) h = refl
  same_pick table (like d p b_like) h = refl
  same_pick table (not_expr e) h = refl
  same_pick table (and_expr es) h = absurd (ground (arith, h))
  same_pick table (or_expr es) h = refl

  and_split :
      (table : Table) (es : Exprs) (k : Pick)
      → ExprTyped paras row (and_expr es)
      → pick_index_condition table (and_expr es) true ≡ some k
      → BothTrue (split_where (and_expr es) k) (and_expr es)
  and_split table es k h e =
      split_true (and_expr es) k (λ c. given) (λ c. absurd (ground (arith, c)))
        (λ n. (
          (λ t. (given.0 t).1),
          λ t. given.1 (subst (All (IsTrue paras row)) (sym (no-given table es k e n)) tt, t),
        ))
    where
      given :
          IsTrue paras row (and_expr es)
          ↔ (All (IsTrue paras row) k.vct_expr × IsTrue paras row k.after)
      given = pick_index_condition-Splits paras row table es k h e

  other_split :
      (table : Table) (e : Expr) (k : Pick)
      → is_and e ≡ false
      → ExprTyped paras row e
      → pick_index_condition table e true ≡ some k
      → BothTrue (split_where e k) e
  other_split table e k c h q =
      split_true e k (λ a. absurd (ground (arith, a, c))) (λ a. kept)
        (λ n. ((λ t. kept ∙ t), λ t. sym kept ∙ t))
    where
      kept : calc k.after paras row ≡ calc e paras row
      kept = pick_index_condition-Kept paras row table e k h (sym (same_pick table e c) ∙ q)

  both :
      (table : Table) (e : Expr) (k : Pick)
      → ExprTyped paras row e
      → pick_index_condition table e true ≡ some k
      → BothTrue (split_where e k) e
  both table (comp t l r) k h q = other_split table (comp t l r) k refl h q
  both table (in_not d arr b_in) k h q = other_split table (in_not d arr b_in) k refl h q
  both table (is_null_not d b_null) k h q = other_split table (is_null_not d b_null) k refl h q
  both table (between d l r) k h q = other_split table (between d l r) k refl h q
  both table (like d p b_like) k h q = other_split table (like d p b_like) k refl h q
  both table (not_expr e) k h q = other_split table (not_expr e) k refl h q
  both table (and_expr es) k h q = and_split table es k h q
  both table (or_expr es) k h q = other_split table (or_expr es) k refl h q

  -- Where Preprocess splits a WHERE condition into a search on an index and a rest, a row's condition is
  -- true exactly when both are, for values of their types.
  pub preprocess-BothTrue :
      (table : Table) (e : Expr) (w : Where)
      → ExprTyped paras row e
      → preprocess table e ≡ some (some w)
      → IsTrue paras row e ↔ (SearchTrue w.index_search × LogicTrue w.expr_logic)
  unfolding preprocess
  preprocess-BothTrue table e w h q = from_pick (pick_index_condition table e true) refl q
    where
      from_pick :
          (o : Option Pick)
          → pick_index_condition table e true ≡ o
          → ◌≡◌ {A = Option (Option Where)}
              (elim o [ none ↦ none | some k ↦ some (split_where e k) ])
              (some (some w))
          → IsTrue paras row e ↔ (SearchTrue w.index_search × LogicTrue w.expr_logic)
      from_pick none p r = absurd (ground (arith, r))
      from_pick (some k) p r = subst (λ o. BothTrue o e) (injected r) (both table e k h p)
        where
          injected : {x y : Option Where} → some x ≡ some y → x ≡ y
          injected {x = x} z = ap (λ o. elim o [ none ↦ x | some v ↦ v ]) z
