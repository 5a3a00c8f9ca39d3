-- ===== src/Expr/Pick.antt =====
-- PickIndexCondition of the expressions of src/expr/ExprLogic.h. A PhysTable is its map from the first
-- field of an index to the index; whether `vctExpr` is a null pointer is a flag, and none what happens
-- when it is followed. An expression that a call changes is given back as it is afterwards.
use rapid_db.Common.{
  ℕ, suc, List, [], ◌∷◌, ◌++◌, reverse, Option, none, some, Bool, true, false, ◌&&◌, ◌||◌, not,
  ◌==◌, if◌then◌else◌,
}
use rapid_db.Common.Int.{ℤ, pos, negsuc, compare_ℤ}
use rapid_db.Value.{DataValue, is_lt, is_gt, is_eq}
use rapid_db.Expr.{
  TriBool, CompType, Data, Expr, Exprs, comp, in_not, is_null_not, between, like, not_expr,
  and_expr, or_expr, nil, cons, is_const_value, as_field, is_field, turned,
}

-- GetIndexFirstFieldMap.
abbrev pub Table : Type 0
Table = ℕ → Option ℕ

-- The result, the index, the conditions that were put into `vctExpr`, and the expression afterwards.
pub record Pick : Type 0 where
  pub result : TriBool
  pub idx_pos : ℤ
  pub vct_expr : List Expr
  pub after : Expr

abbrev pub failed : Expr → Pick
failed e = record { result = TriBool.no; idx_pos = negsuc 0; vct_expr = []; after = e }

-- The index that a field is the first of.
abbrev pub by_index : Option ℕ → Expr → Pick
by_index none e = failed e
by_index (some i) e = record { result = TriBool.ok; idx_pos = pos i; vct_expr = []; after = e }

abbrev pub look_up : Table → Option ℕ → Option ℕ
look_up table none = none
look_up table (some f) = table f

-- ExprComp, after the first test.
unfoldable pub pick_turned : Table → CompType → Data → Data → Pick
pick_turned table t l r =
    if not (is_field l) || not (is_const_value r)
    then failed (comp t l r)
    else by_index (look_up table (as_field l)) (comp t l r)

unfoldable pub pick_comp : Table → CompType → Data → Data → Pick
unfolding pick_turned turned
pick_comp table t l r =
    if is_field r && is_const_value l
    then pick_turned table (turned t) r l
    else pick_turned table t l r

unfoldable pub pick_in_not : Table → Data → List DataValue → Bool → Pick
pick_in_not table d arr b_in =
    if not b_in || not (is_field d)
    then failed (in_not d arr b_in)
    else by_index (look_up table (as_field d)) (in_not d arr b_in)

-- ExprBetween casts its lower bound to a field, which a constant is not.
unfoldable pub pick_between : Table → Data → Data → Data → Option Pick
pick_between table d l r =
    if not (is_field d) || not (is_const_value l) || not (is_const_value r)
    then some (failed (between d l r))
    else none

abbrev pub is_and : Expr → Bool
is_and (and_expr es) = true
is_and _ = false

abbrev pub is_or : Expr → Bool
is_or (or_expr es) = true
is_or _ = false

-- `vctIL`: the places of the conditions that are kept, with their index; a better index clears it.
abbrev pub IdxLogics : Type 0
IdxLogics = List (ℕ × ℤ)

abbrev pub later_index : IdxLogics → ℤ → Bool
later_index [] i = false
later_index ((p, j) ∷ il) i = is_lt (compare_ℤ j i)

abbrev pub cleared : IdxLogics → ℤ → IdxLogics
cleared [] i = []
cleared ((p, j) ∷ il) i = if is_gt (compare_ℤ j i) then [] else (p, j) ∷ il

-- Whether the loop of ExprAnd goes on after a condition on an index, and `vctIL` after it.
abbrev pub first_only : IdxLogics → ℕ → ℤ → IdxLogics
first_only [] p i = (p, i) ∷ []
first_only (x ∷ il) p i = x ∷ il

unfoldable pub keep : IdxLogics → Bool → ℕ → ℤ → Bool × IdxLogics
keep il or_child p i =
    if later_index il i
    then (true, il)
    else if or_child
    then (false, first_only (cleared il i) p i)
    else (true, cleared il i ++ ((p, i) ∷ []))

-- What the loop of ExprAnd leaves: whether a child had an error, `vctIL`, and the children.
pub record Scan : Type 0 where
  pub scan_error : Bool
  pub vct_il : IdxLogics
  pub children : Exprs

abbrev pub with_child : Expr → Option Scan → Option Scan
with_child e none = none
with_child e (some s) = some (record s { children = cons e s.children })

abbrev pub stop : IdxLogics → Exprs → Option Scan
stop il es = some (record { scan_error = false; vct_il = il; children = es })

-- The conditions at the places of `vctIL`, and the other children.
abbrev pub has_place : ℕ → IdxLogics → Bool
has_place p [] = false
has_place p ((q, j) ∷ il) = p == q || has_place p il

unfoldable pub chosen : ℕ → IdxLogics → Exprs → List Expr
chosen p il nil = []
chosen p il (cons e es) =
    let rest = chosen (suc p) il es in if has_place p il then e ∷ rest else rest

unfoldable pub unchosen : ℕ → IdxLogics → Exprs → Exprs
unchosen p il nil = nil
unchosen p il (cons e es) =
    let rest = unchosen (suc p) il es in if has_place p il then rest else cons e rest

-- The end of ExprAnd, which follows `vctExpr`.
unfoldable pub take_conditions : Bool → Option Scan → Option Pick
unfolding chosen unchosen
take_conditions has_vct none = none
take_conditions has_vct (some s) =
    if s.scan_error
    then some (record {
      result = TriBool.error;
      idx_pos = negsuc 0;
      vct_expr = [];
      after = and_expr s.children;
    })
    else elim s.vct_il [
      | [] ↦ some (failed (and_expr s.children))
      | x ∷ il ↦
          if has_vct
          then some (record {
            result = TriBool.ok;
            idx_pos = x.1;
            vct_expr = reverse (chosen 0 (x ∷ il) s.children);
            after = and_expr (unchosen 0 (x ∷ il) s.children);
          })
          else none
    ]

-- The end of a round of ExprAnd's loop, by the child's result.
unfoldable pub and_round :
    IdxLogics → Bool → ℕ → Exprs → (IdxLogics → Option Scan) → Option Pick → Option Scan
unfolding keep
and_round il or_child p es rest none = none
and_round il or_child p es rest (some k) = elim k.result [
  | TriBool.error ↦ some (record { scan_error = true; vct_il = il; children = cons k.after es })
  | TriBool.no ↦ with_child k.after (rest il)
  | TriBool.ok ↦
      let (go_on, il') = keep il or_child p k.idx_pos in
      with_child k.after (if go_on then rest il' else stop il' es)
]

-- A round of ExprOr's loop: the index so far, and the rest with the index to keep to.
abbrev pub or_after : Expr → Exprs → Expr
or_after e (es) = or_expr (cons e es)

abbrev pub or_with : Expr → Option Pick → Option Pick
or_with e none = none
or_with e (some k) =
    some (record k { after = elim k.after [ or_expr es ↦ or_expr (cons e es) | o ↦ o ] })

abbrev pub or_round : ℤ → Exprs → (ℤ → Option Pick) → Option Pick → Option Pick
or_round idx es rest none = none
or_round idx es rest (some k) = elim k.result [
  | TriBool.error ↦
      some (record {
        result = TriBool.error;
        idx_pos = idx;
        vct_expr = [];
        after = or_after k.after es;
      })
  | TriBool.no ↦
      some
        (record { result = TriBool.no; idx_pos = idx; vct_expr = []; after = or_after k.after es })
  | TriBool.ok ↦
      if is_eq (compare_ℤ idx (negsuc 0))
      then or_with k.after (rest k.idx_pos)
      else if is_eq (compare_ℤ idx k.idx_pos)
      then or_with k.after (rest idx)
      else some (record {
        result = TriBool.no;
        idx_pos = idx;
        vct_expr = [];
        after = or_after k.after es;
      })
]

module _ (table : Table) where
  unfoldable mutual
    unfolding pick_comp pick_in_not pick_between take_conditions and_round

    pub pick_index_condition : Expr → Bool → Option Pick
    pick_index_condition (comp t l r) has_vct = some (pick_comp table t l r)
    pick_index_condition (in_not d arr b_in) has_vct = some (pick_in_not table d arr b_in)
    pick_index_condition (is_null_not d b_null) has_vct = some (failed (is_null_not d b_null))
    pick_index_condition (between d l r) has_vct = pick_between table d l r
    pick_index_condition (like d p b_like) has_vct = some (failed (like d p b_like))
    pick_index_condition (not_expr e) has_vct = some (failed (not_expr e))
    pick_index_condition (and_expr es) has_vct = take_conditions has_vct (and_loop 0 es [])
    pick_index_condition (or_expr es) has_vct = or_loop es (negsuc 0)

    pub and_loop : ℕ → Exprs → IdxLogics → Option Scan
    and_loop p nil il = stop il nil
    and_loop p (cons e es) il =
        let k = pick_index_condition e false in
        let rest = and_loop (suc p) es in
        if is_and e then with_child e (rest il) else and_round il (is_or e) p es rest k

    pub or_loop : Exprs → ℤ → Option Pick
    or_loop nil idx =
        some (record { result = TriBool.ok; idx_pos = idx; vct_expr = []; after = or_expr nil })
    or_loop (cons e es) idx =
        let k = pick_index_condition e false in let rest = or_loop es in or_round idx es rest k
