-- ===== src/Mutex/Reentrant/Safety.antt =====
-- The invariant of ReentrantSpinMutex: one holder, the owner and the count of its calls.
use rapid_db.Common.{
  ℕ, zero, suc, ◌+◌, ◌-◌, ◌<◌, ◌≡◌, ◌≢◌, refl, sym, ap, ◌∙◌, arith, subst, Bool, true, false,
  ℕ_discrete,
}
use mathlib.Core.Logic.{ite}
use rapid_db.Mutex.Threads.{
  move, count, count-move, weight_two-le-count, weight-le-count, count-const,
}
use rapid_db.Mutex.Reentrant.{
  Lock, Place, at, waiting, trying, tested, taken, marked, again, ending, leaving, Move, lock_again,
  lock_other, try_other, deeper, lock_busy, lock_take, try_busy, try_free, try_lost, try_take, own,
  first, unlock_more, unlock_last, disown, release, State, free, by, AreIds, Reach, start, later,
  holds, owns, depth,
}

abbrev AgainInside : Place → Type 0
AgainInside (again zero) = ⊥
AgainInside _ = Unit

abbrev flag_value : Bool → ℕ
flag_value true = 1
flag_value false = 0

-- What the words say of a thread at a place.
pub record Fits (m : Lock) (me : ℕ) (p : Place) : Type 0 where
  pub owned : owns p ≡ 1 → m.owner ≡ me
  pub other : owns p ≡ 0 → m.owner ≢ me
  pub nested : holds p ≡ 1 → m.reen_count ≡ depth p
  pub inside : AgainInside p

pub record Inv (ids : ℕ → ℕ) (n : ℕ) (m : Lock) (pc : ℕ → Place) : Type 0 where
  pub one : count holds n pc ≡ flag_value m.flag
  pub idle : m.flag ≡ false → m.reen_count ≡ 0
  pub fits : (i : ℕ) → i < n → Fits m (ids i) (pc i)

free-Inv : (ids : ℕ → ℕ) (n : ℕ) → AreIds ids n → Inv ids n free.lock free.pc
free-Inv ids n a = record {
  one = count-const holds n (at 0) refl;
  idle = λ e. refl;
  fits = λ i h. record {
    owned = λ e. absurd (omega (arith, e));
    other = λ e f. absurd (a.nonzero i h (sym f));
    nested = λ e. absurd (omega (arith, e));
    inside = tt;
  };
}

-- At most one thread holds the flag.
alone :
    (ids : ℕ → ℕ) (n : ℕ) (m : Lock) (pc : ℕ → Place) (i j : ℕ)
    → Inv ids n m pc
    → i < n
    → j < n
    → holds (pc i) ≡ 1
    → holds (pc j) ≡ 1
    → i ≡ j
alone ids n m pc i j v hi hj ei ej = elim (ℕ_discrete i j) [
  | yes same ↦ same
  | no different ↦
      absurd (ground (arith, v.one, weight_two-le-count holds n pc i j hi hj different))
]

owns-holds : (p : Place) → owns p ≡ 1 → holds p ≡ 1
owns-holds p e = ground (arith, e)

holds-one : (p : Place) → holds p ≢ 1 → holds p ≡ 0
holds-one p e = ground (arith, e)

-- What holds of the thread that moves and of the others holds of all.
moved :
    (Q : ℕ → Place → Type 0) (pc : ℕ → Place) (i : ℕ) (p : Place)
    → Q i p
    → ((j : ℕ) → i ≢ j → Q j (pc j))
    → (j : ℕ) → Q j (move pc i p j)
moved Q pc i p a b j = by_case (ℕ_discrete i j)
  where
    by_case : (d : Dec (i ≡ j)) → Q j (ite d p (pc j))
    by_case (yes e) = subst (λ k. Q k p) e a
    by_case (no ne) = b j ne

module _ {ids : ℕ → ℕ} {n : ℕ} (a : AreIds ids n) {m : Lock} {pc : ℕ → Place} (v : Inv ids n m pc)
    (i : ℕ) (h : i < n) where
  renew :
      (m' : Lock) (p : Place)
      → flag_value m'.flag + holds (pc i) ≡ flag_value m.flag + holds p
      → (m'.flag ≡ false → m'.reen_count ≡ 0)
      → Fits m' (ids i) p
      → ((j : ℕ) → i ≢ j → j < n → Fits m' (ids j) (pc j))
      → Inv ids n m' (move pc i p)
  renew m' p e idle f others = record {
    one = omega (arith, v.one, count-move holds n pc i p h, e);
    idle = idle;
    fits = moved (λ j q. j < n → Fits m' (ids j) q) pc i p (λ _. f) others;
  }

  -- The others, when the holder moves.
  outsiders :
      (m' : Lock)
      → holds (pc i) ≡ 1
      → ((j : ℕ) → i ≢ j → j < n → m'.owner ≢ ids j)
      → (j : ℕ) → i ≢ j
      → j < n
      → Fits m' (ids j) (pc j)
  outsiders m' e o j ne hj = record {
    owned = λ q. absurd (ne (alone ids n m pc i j v h hj e (owns-holds (pc j) q)));
    other = λ q. o j ne hj;
    nested = λ q. absurd (ne (alone ids n m pc i j v h hj e q));
    inside = (v.fits j hj).inside;
  }

  -- The others, when the words they know stay.
  bystanders :
      (m' : Lock)
      → m'.owner ≡ m.owner
      → m'.reen_count ≡ m.reen_count
      → (j : ℕ) → i ≢ j
      → j < n
      → Fits m' (ids j) (pc j)
  bystanders m' eo ec j ne hj =
      let f = v.fits j hj in
      record {
        owned = λ q. eo ∙ f.owned q;
        other = λ q r. f.other q (sym eo ∙ r);
        nested = λ q. ec ∙ f.nested q;
        inside = f.inside;
      }

  -- A place outside the lock.
  outer :
      (m' : Lock) (p : Place)
      → holds p ≡ 0
      → owns p ≡ 0
      → AgainInside p
      → m'.owner ≢ ids i
      → Fits m' (ids i) p
  outer m' p eh eo u ne = record {
    owned = λ q. absurd (omega (arith, q, eo));
    other = λ q. ne;
    nested = λ q. absurd (omega (arith, q, eh));
    inside = u;
  }

  -- A holder finds the flag set.
  held : holds (pc i) ≡ 1 → m.flag ≡ true
  held e = ground (arith, v.one, weight-le-count holds n pc i h, e)

  mine : m.owner ≡ ids i → (j : ℕ) → i ≢ j → j < n → m.owner ≢ ids j
  mine o j ne hj q = ne (a.distinct i j h hj (sym o ∙ q))

  -- An owner inside the lock.
  owning :
      (m' : Lock) (p : Place)
      → owns p ≡ 1
      → m'.owner ≡ ids i
      → m'.reen_count ≡ depth p
      → AgainInside p
      → Fits m' (ids i) p
  owning m' p eo o c u = record {
    owned = λ q. o;
    other = λ q. absurd (omega (arith, q, eo));
    nested = λ q. c;
    inside = u;
  }

  Move-Inv :
      {q p : Place} {m' : Lock}
      → pc i ≡ q
      → Fits m (ids i) q
      → Move (ids i) m q m' p
      → Inv ids n m' (move pc i p)
  Move-Inv e f (lock_again zero o) = absurd (f.other refl o)
  Move-Inv e f (lock_again (suc d) o) =
      renew m (again (suc d)) (omega (arith, ap holds e)) v.idle
        (owning m (again (suc d)) refl o (f.nested refl) tt) (bystanders m refl refl)
  Move-Inv e f (lock_other zero o) =
      renew m waiting (omega (arith, ap holds e)) v.idle (outer m waiting refl refl tt o)
        (bystanders m refl refl)
  Move-Inv e f (lock_other (suc d) o) = absurd (o (f.owned refl))
  Move-Inv e f (try_other zero o) =
      renew m trying (omega (arith, ap holds e)) v.idle (outer m trying refl refl tt o)
        (bystanders m refl refl)
  Move-Inv e f (try_other (suc d) o) = absurd (o (f.owned refl))
  Move-Inv e f (deeper zero b) = absurd f.inside
  Move-Inv e f (deeper (suc d) b) =
      renew (record m { reen_count = m.reen_count + 1 }) (at (suc (suc d)))
        (omega (arith, ap holds e)) (λ q. absurd (ground (arith, q, held (ap holds e))))
        (owning (record m { reen_count = m.reen_count + 1 }) (at (suc (suc d))) refl (f.owned refl)
          (omega (arith, f.nested refl)) tt)
        (outsiders (record m { reen_count = m.reen_count + 1 }) (ap holds e) (mine (f.owned refl)))
  Move-Inv e f (lock_busy b) =
      renew m waiting (omega (arith, ap holds e)) v.idle
        (outer m waiting refl refl tt (f.other refl)) (bystanders m refl refl)
  Move-Inv e f (lock_take b) =
      renew (record m { flag = true }) taken (ground (arith, ap holds e, b)) (λ q. cc)
        (record {
          owned = λ q. absurd (omega (arith, q));
          other = λ q. f.other refl;
          nested = λ q. v.idle b;
          inside = tt;
        })
        (bystanders (record m { flag = true }) refl refl)
  Move-Inv e f (try_busy b) =
      renew m (at 0) (omega (arith, ap holds e)) v.idle (outer m (at 0) refl refl tt (f.other refl))
        (bystanders m refl refl)
  Move-Inv e f (try_free b) =
      renew m tested (omega (arith, ap holds e)) v.idle (outer m tested refl refl tt (f.other refl))
        (bystanders m refl refl)
  Move-Inv e f (try_lost b) =
      renew m (at 0) (omega (arith, ap holds e)) v.idle (outer m (at 0) refl refl tt (f.other refl))
        (bystanders m refl refl)
  Move-Inv e f (try_take b) =
      renew (record m { flag = true }) taken (ground (arith, ap holds e, b)) (λ q. cc)
        (record {
          owned = λ q. absurd (omega (arith, q));
          other = λ q. f.other refl;
          nested = λ q. v.idle b;
          inside = tt;
        })
        (bystanders (record m { flag = true }) refl refl)
  Move-Inv e f own =
      renew (record m { owner = ids i }) marked (omega (arith, ap holds e)) v.idle
        (owning (record m { owner = ids i }) marked refl refl (f.nested refl) tt)
        (outsiders (record m { owner = ids i }) (ap holds e)
          (λ j ne hj q. ne (a.distinct i j h hj q)))
  Move-Inv e f first =
      renew (record m { reen_count = 1 }) (at 1) (omega (arith, ap holds e))
        (λ q. absurd (ground (arith, q, held (ap holds e))))
        (owning (record m { reen_count = 1 }) (at 1) refl (f.owned refl) refl tt)
        (outsiders (record m { reen_count = 1 }) (ap holds e) (mine (f.owned refl)))
  Move-Inv e f (unlock_more zero c) = absurd (c (omega (arith, f.nested refl)))
  Move-Inv e f (unlock_more (suc d) c) =
      renew (record m { reen_count = m.reen_count - 1 }) (at (suc d)) (omega (arith, ap holds e))
        (λ q. absurd (ground (arith, q, held (ap holds e))))
        (owning (record m { reen_count = m.reen_count - 1 }) (at (suc d)) refl (f.owned refl)
          (omega (arith, f.nested refl)) tt)
        (outsiders (record m { reen_count = m.reen_count - 1 }) (ap holds e) (mine (f.owned refl)))
  Move-Inv e f (unlock_last d c) =
      renew (record m { reen_count = m.reen_count - 1 }) ending (omega (arith, ap holds e)) (λ q. c)
        (owning (record m { reen_count = m.reen_count - 1 }) ending refl (f.owned refl) c tt)
        (outsiders (record m { reen_count = m.reen_count - 1 }) (ap holds e) (mine (f.owned refl)))
  Move-Inv e f disown =
      renew (record m { owner = 0 }) leaving (omega (arith, ap holds e)) v.idle
        (record {
          owned = λ q. absurd (omega (arith, q));
          other = λ q r. absurd (a.nonzero i h (sym r));
          nested = λ q. f.nested refl;
          inside = tt;
        })
        (outsiders (record m { owner = 0 }) (ap holds e)
          (λ j ne hj q. absurd (a.nonzero j hj (sym q))))
  Move-Inv e f release =
      renew (record m { flag = false }) (at 0) (ground (arith, ap holds e, held (ap holds e)))
        (λ q. f.nested refl) (outer (record m { flag = false }) (at 0) refl refl tt (f.other refl))
        (bystanders (record m { flag = false }) refl refl)

Reach-Inv : {ids : ℕ → ℕ} {n : ℕ} {s : State} → AreIds ids n → Reach ids n s → Inv ids n s.lock s.pc
Reach-Inv {ids} {n} a start = free-Inv ids n a
Reach-Inv a (later r (by i h mv)) = let v = Reach-Inv a r in Move-Inv a v i h refl (v.fits i h) mv

-- In every interleaving of calls of lock, try_lock and unlock, nested less than 2 ^ 31 deep, by any number of
-- threads whose ids are different and not 0, two threads are never both between the exchange that took the flag
-- and the store that gives it back.
pub reentrant_exclusion :
    {ids : ℕ → ℕ} {n : ℕ} {s : State}
    → AreIds ids n
    → Reach ids n s
    → (i j : ℕ) → i < n
    → j < n
    → holds (s.pc i) ≡ 1
    → holds (s.pc j) ≡ 1
    → i ≡ j
reentrant_exclusion {ids} {n} {s} a r i j = alone ids n s.lock s.pc i j (Reach-Inv a r)

-- In every interleaving of calls nested less than 2 ^ 31 deep by threads whose ids are different and not 0, a thread that has locked
-- d + 1 times more than it has unlocked finds itself the owner, the count at d + 1 and the flag set, and a thread
-- past the exchange finds the count at 0.
pub reentrant_depth :
    {ids : ℕ → ℕ} {n : ℕ} {s : State}
    → AreIds ids n
    → Reach ids n s
    → (i d : ℕ) → i < n
    → (s.pc i ≡ at (suc d)
        → (s.lock.owner ≡ ids i) × (s.lock.reen_count ≡ suc d) × (s.lock.flag ≡ true))
      × (s.pc i ≡ taken → s.lock.reen_count ≡ 0)
reentrant_depth {ids} {n} {s} a r i d h =
    let v = Reach-Inv a r in
    let f = v.fits i h in
    (
      (λ e. (
        f.owned (ap owns e),
        f.nested (ap holds e) ∙ ap depth e,
        ground (arith, v.one, weight-le-count holds n s.pc i h, ap holds e),
      )),
      λ e. f.nested (ap holds e) ∙ ap depth e,
    )

-- A thread whose id is 0 finds itself the owner of the free mutex, and passes lock without the flag.
zero_id_enters :
    (i : ℕ) (ids : ℕ → ℕ) → ids i ≡ 0 → Move (ids i) free.lock (at 0) free.lock (again 0)
zero_id_enters i ids e = lock_again 0 (sym e)
