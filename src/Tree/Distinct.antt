-- ===== src/Tree/Distinct.antt =====
-- Stamps and keys that a tree gives, in any order of the ranges that ask for them.
use rapid_db.Common.{
  ℕ, suc, ◌+◌, ◌*◌, ◌^◌, ◌≤◌, ◌<◌, ◌≡◌, ◌≢◌, refl, List, [], ◌∷◌, Option, none, some, length, All,
  arith,
}
use rapid_db.Tree.{IndexTree, stamp_batch, inc_key_batch, apply_stamp, apply_auto_inc_key}
use rapid_db.Tree.Numbers.{IsApart, apply_from-Given}

-- The numbers that a list of requests gets, oldest first: a range and whether it asks for a stamp or for a
-- key with a step.
pub data Request : Type 0 where
  stamp : ℕ → Request
  inc_key : ℕ → ℕ → Request

pub record Served : Type 0 where
  pub stamps : List ℕ
  pub keys : List ℕ
  pub tree : IndexTree

unfoldable pub serve : Request → Served → Option Served
unfolding apply_stamp apply_auto_inc_key
serve (stamp i) v = elim (apply_stamp v.tree i) [
  | none ↦ none
  | some (n, t) ↦ some (record { stamps = n ∷ v.stamps; keys = v.keys; tree = t })
]
serve (inc_key i step) v = elim (apply_auto_inc_key v.tree i step) [
  | none ↦ none
  | some (n, t) ↦ some (record { stamps = v.stamps; keys = n ∷ v.keys; tree = t })
]

unfoldable pub serve_all : List Request → Served → Option Served
unfolding serve
serve_all [] v = some v
serve_all (q ∷ qs) v = elim (serve q v) [ none ↦ none | some v' ↦ serve_all qs v' ]

-- A request for a range that is there, with a step that is positive and at most 2 ^ 31.
abbrev pub IsFor : ℕ → ℕ → Request → Type 0
IsFor m k (stamp i) = i < m
IsFor m k (inc_key i step) = (i < k) × (0 < step) × (step ≤ 2 ^ 31)

abbrev pub Distinct : List ℕ → Type 0
Distinct [] = Unit
Distinct (x ∷ xs) = All (λ y. y ≢ x) xs × Distinct xs

-- The counters have room for `n` more requests, and what was given is all different.
pub record IsServing (n : ℕ) (v : Served) : Type 0 where
  pub stamps_apart : IsApart v.stamps v.tree.record_stamp
  pub keys_apart : IsApart v.keys v.tree.inc_key
  pub stamps_distinct : Distinct v.stamps
  pub keys_distinct : Distinct v.keys
  pub stamps_left : v.tree.record_stamp.head + n * 2 ^ 32 < 2 ^ 64
  pub keys_left : v.tree.inc_key.head + n * 2 ^ 32 < 2 ^ 64

serve-IsServing :
    (q : Request) (n : ℕ) (v : Served)
    → IsServing (suc n) v
    → IsFor (length v.tree.record_stamp.ranges) (length v.tree.inc_key.ranges) q
    → (v' : Served) × (serve q v ≡ some v')
      × IsServing n v'
      × (length v'.tree.record_stamp.ranges ≡ length v.tree.record_stamp.ranges)
      × (length v'.tree.inc_key.ranges ≡ length v.tree.inc_key.ranges)
unfolding serve apply_stamp apply_auto_inc_key
serve-IsServing (stamp i) n v h k =
    let (s, c', e, (news, apart, same, grown)) =
      apply_from-Given stamp_batch 1 v.tree.record_stamp v.stamps h.stamps_apart (omega arith)
        (omega arith) (omega (arith, h.stamps_left)) i k in
    (
      record {
        stamps = s ∷ v.stamps;
        keys = v.keys;
        tree = record { record_stamp = c'; inc_key = v.tree.inc_key };
      },
      rw (e, serve) refl,
      record {
        stamps_apart = apart;
        keys_apart = h.keys_apart;
        stamps_distinct = (news, h.stamps_distinct);
        keys_distinct = h.keys_distinct;
        stamps_left = omega (arith, h.stamps_left);
        keys_left = omega (arith, h.keys_left);
      },
      same,
      refl,
    )
serve-IsServing (inc_key i step) n v h (k, p, l) =
    let (s, c', e, (news, apart, same, grown)) =
      apply_from-Given inc_key_batch step v.tree.inc_key v.keys h.keys_apart (omega arith) p
        (omega (arith, h.keys_left)) i k in
    (
      record {
        stamps = v.stamps;
        keys = s ∷ v.keys;
        tree = record { record_stamp = v.tree.record_stamp; inc_key = c' };
      },
      rw (e, serve) refl,
      record {
        stamps_apart = h.stamps_apart;
        keys_apart = apart;
        stamps_distinct = h.stamps_distinct;
        keys_distinct = (news, h.keys_distinct);
        stamps_left = omega (arith, h.stamps_left);
        keys_left = omega (arith, h.keys_left);
      },
      refl,
      same,
    )

-- Any requests for stamps and keys by any ranges of a tree, in any order, are served, and no stamp and no key
-- is given twice, also not one that was given before: the counters do not come near 2 ^ 64, the ranges are
-- there, and the steps of keys are from 1 to 2 ^ 31.
pub serve_all-IsServing :
    (qs : List Request) (v : Served)
    → IsServing (length qs) v
    → All (IsFor (length v.tree.record_stamp.ranges) (length v.tree.inc_key.ranges)) qs
    → (v' : Served) × (serve_all qs v ≡ some v') × IsServing 0 v'
unfolding serve_all
serve_all-IsServing [] v h f = (v, refl, h)
serve_all-IsServing (q ∷ qs) v h (f, fs) =
    let (v1, e, h1, m, k) = serve-IsServing q (length qs) v h f in
    let (v', e', h') = serve_all-IsServing qs v1 h1 (rw (m, k) fs) in (v', rw (e, serve_all) e', h')
