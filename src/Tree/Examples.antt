-- ===== src/Tree/Examples.antt =====
-- A tree of two ranges that have no numbers yet, and the theorems of this part at it.
use rapid_db.Common.{ℕ, zero, suc, ◌≡◌, subst, List, [], ◌∷◌, some, get_elem?, arith}
use rapid_db.Tree.{Batch, Counter}
use rapid_db.Tree.Numbers.{Has, IsApart}
use rapid_db.Tree.Distinct.{
  Request, stamp, inc_key, Served, serve_all, IsServing, serve_all-IsServing,
}

abbrev no_batch : Batch
no_batch = record { start = 0; end = 0 }

abbrev counter : Counter
counter = record { head = 1; ranges = no_batch ∷ no_batch ∷ [] }

abbrev opened : Served
opened = record {
  stamps = [];
  keys = [];
  tree = record { record_stamp = counter; inc_key = counter };
}

no_batch-get_elem? : (i : ℕ) (r : Batch) → get_elem? counter.ranges i ≡ some r → r ≡ no_batch
no_batch-get_elem? zero r e = cc
no_batch-get_elem? (suc zero) r e = cc
no_batch-get_elem? (suc (suc i)) r e = cc

counter-IsApart : IsApart [] counter
counter-IsApart = record {
  given = tt;
  held = λ i r e. rw (no_batch-get_elem? i r e) (omega arith);
  unused = λ i r e. tt;
  apart = λ i j r s x e f h g.
      absurd (omega (arith, (subst (λ (t : Batch). Has t x) (no_batch-get_elem? i r e) h).1));
}

abbrev requests : List Request
requests = stamp 0 ∷ stamp 1 ∷ inc_key 0 3 ∷ stamp 0 ∷ []

opened-IsServing : IsServing 4 opened
opened-IsServing = record {
  stamps_apart = counter-IsApart;
  keys_apart = counter-IsApart;
  stamps_distinct = tt;
  keys_distinct = tt;
  stamps_left = omega arith;
  keys_left = omega arith;
}

serve_all-IsServing_example : (v : Served) × (serve_all requests opened ≡ some v) × IsServing 0 v
serve_all-IsServing_example =
    serve_all-IsServing requests opened opened-IsServing
      (omega arith, (omega arith, ((omega arith, omega arith, omega arith), (omega arith, tt))))
