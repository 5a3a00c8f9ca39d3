-- ===== src/Page/Split/Parts.antt =====
-- The parts that the split makes: they are the page's records in order, and each fits a page.
use rapid_db.Common.{
  ℕ, zero, suc, ◌+◌, ◌-◌, ◌*◌, ◌≤◌, ◌<◌, ◌≡◌, refl, sym, ap, subst, List, [], ◌∷◌, ◌++◌, length,
  take, drop, Option, some, Bool, true, false, ltb, if◌then◌else◌, arith, All, length-append,
}
use mathlib.Core.List.{append_assoc}
use rapid_db.Page.{sum_of}
use rapid_db.Page.Records.{sum_of-append, take-length-append, drop-length-append}
use rapid_db.Page.Branch.{slot_length}
use rapid_db.Page.Split.{Part, limit_of, add_part, split_loop}

-- A test inside a test, case by case.
by_tests {ℓ κ} :
    {B : Type ℓ}
    → (P : B → Type κ) → {x y z : B} → (b c : Bool) → (b ≡ true → c ≡ true → P x)
    → (b ≡ true → c ≡ false → P y)
    → (b ≡ false → P z)
    → P (if b then if c then x else y else z)
by_tests P true true f g h = f refl refl
by_tests P true false f g h = g refl refl
by_tests P false c f g h = h refl

sum_of-length {ℓ} : {A : Type ℓ} (f : A → ℕ) (xs : List A) → 0 < sum_of f xs → 0 < length xs
sum_of-length f [] h = h
sum_of-length f (x ∷ xs) h = omega arith

module _ {ℓ} {A : Type ℓ} (total_length : A → ℕ) (max_len : ℕ) where
  -- The parts of the records `rs`, the first of which has the index `start`.
  unfoldable pub Parts : ℕ → List A → List Part → Type ℓ
  Parts start rs [] = rs ≡ []
  Parts start rs ((pos, len) ∷ parts) =
      (start < pos)
      × (pos ≤ start + length rs)
      × (sum_of (slot_length total_length) (take (pos - start) rs) ≡ len)
      × (len ≤ max_len)
      × Parts pos (drop (pos - start) rs) parts

  -- The loop returns parts of the records from `start` on.
  unfoldable pub Splits : ℕ → List A → Option (List Part) → Type ℓ
  Splits start rs o = (parts : List Part) × (o ≡ some parts) × Parts start rs parts

  unfoldable pub FitsPage : A → Type 0
  FitsPage r = slot_length total_length r ≤ max_len

  nil-Parts : (start : ℕ) → Parts start [] []
  unfolding Parts
  nil-Parts start = refl

  close :
      (done rs : List A)
      → (start pos len : ℕ) → (o : Option (List Part)) → pos ≡ start + length done
      → len ≡ sum_of (slot_length total_length) done
      → 0 < length done
      → len ≤ max_len
      → Splits pos rs o
      → Splits start (done ++ rs) (add_part (pos, len) o)
  unfolding Splits Parts
  close done rs start pos len o p l some_done fits (parts, e, h) = (
    (pos, len) ∷ parts,
    ap (add_part (pos, len)) e,
    (
      omega arith,
      omega (arith, length-append done rs),
      taken,
      fits,
      subst (λ x. Parts pos x parts) (sym left) h,
    ),
  )
    where
      width : pos - start ≡ length done
      width = omega arith

      taken : sum_of (slot_length total_length) (take (pos - start) (done ++ rs)) ≡ len
      taken = rw (width, take-length-append done rs, l) refl

      left : drop (pos - start) (done ++ rs) ≡ rs
      left = rw (width, drop-length-append done rs) refl

  pub split_loop-Splits :
      (fuel : ℕ)
      → (rs done : List A) → (start pos len : ℕ) → pos ≡ start + length done
      → len ≡ sum_of (slot_length total_length) done
      → All FitsPage rs
      → len ≤ limit_of max_len
      → 2 * length rs + length done < fuel
      → Splits start (done ++ rs) (split_loop total_length max_len fuel rs pos len)
  unfolding split_loop FitsPage Splits
  split_loop-Splits zero rs done start pos len p e fits l f = absurd (omega arith)
  split_loop-Splits (suc fuel) [] [] start pos len p e fits l f =
      ([], ground (arith, e), nil-Parts _)
  split_loop-Splits (suc fuel) [] (d ∷ ds) start pos len p e fits l f =
      subst (Splits start ((d ∷ ds) ++ [])) (ground (arith, e)) (
        close (d ∷ ds) [] start pos len (some []) p e (omega arith) (omega (arith, l))
          ([], refl, nil-Parts _))
  split_loop-Splits (suc fuel) (r ∷ rs) done start pos len p e fits l f =
      by_tests (Splits start (done ++ r ∷ rs))
        (ltb (limit_of max_len) (len + slot_length total_length r))
        (ltb max_len (len + slot_length total_length r))
        (λ large. λ over.
          close done (r ∷ rs) start pos _ _ p (omega arith) (has_some over)
            (ground (arith, fits.0, over, limit_fits))
            (split_loop-Splits fuel (r ∷ rs) [] pos pos 0 (omega arith) refl fits (omega arith)
              (omega (arith, has_some over))))
        (λ large. λ fit.
          subst
            (λ rs'. Splits start rs' (
              add_part (suc pos, len + slot_length total_length r)
                (split_loop total_length max_len fuel rs (suc pos) 0)))
            assoc
            (close (done ++ r ∷ []) rs start (suc pos) (len + slot_length total_length r) _ snoc_pos
              snoc_len (omega (arith, snoc_length)) (ground (arith, fit))
              (split_loop-Splits fuel rs [] (suc pos) (suc pos) 0 (omega arith) refl fits.1
                (omega arith) (omega arith))))
        (λ small.
          subst
            (λ rs'. Splits start rs' (
              split_loop total_length max_len fuel rs (suc pos) (len + slot_length total_length r)))
            assoc
            (split_loop-Splits fuel rs (done ++ r ∷ []) start (suc pos)
              (len + slot_length total_length r) snoc_pos snoc_len fits.1 (ground (arith, small))
              (omega (arith, snoc_length))))
    where
      has_some : ltb max_len (len + slot_length total_length r) ≡ true → 0 < length done
      has_some over =
          sum_of-length (slot_length total_length) done (ground (arith, over, e, fits.0))

      limit_fits : limit_of max_len ≤ max_len
      limit_fits = omega arith

      assoc : (done ++ r ∷ []) ++ rs ≡ done ++ r ∷ rs
      assoc = append_assoc done (r ∷ []) rs

      snoc_length : length (done ++ r ∷ []) ≡ suc (length done)
      snoc_length = omega (arith, length-append done (r ∷ []))

      snoc_pos : suc pos ≡ start + length (done ++ r ∷ [])
      snoc_pos = omega (arith, p, length-append done (r ∷ []))

      snoc_len :
          len + slot_length total_length r ≡ sum_of (slot_length total_length) (done ++ r ∷ [])
      snoc_len = omega (arith, e, sum_of-append (slot_length total_length) done (r ∷ []))
