-- ===== src/Apply/Damping/Coupled.antt =====
-- apply/apply.go: the loops of requireShrinksWithGrowth count the commitment along.
use text.Mathlib.Text.{◌==◌ as str_eq}
use text.Mathlib.TextEquality.{eq_iff}
use fpm_tune.Common.{
  ℕ, ◌≡◌, refl, sym, ap, ◌∙◌, inl, inr, String, Bool, true, false, not, ◌&&◌, ◌||◌, List, [], ◌∷◌,
  ◌++◌, none, All, Bool-cases, arith,
}
use fpm_tune.Common.Word.{sub64, slt, sle}
use fpm_tune.Allocate.Compute.Lines.{PoolPlan}
use fpm_tune.Apply.Decide.{Outcome, held_back, cannot_reload_yet}
use fpm_tune.Apply.Damping.{
  has, has_name, Coupling, Reduction, set_outcome, reductions, action_of, is_too_small,
  pull_reductions, drop_growths, is_growth, growth_bytes, keep,
}
use fpm_tune.Apply.Damping.Counted.{
  In, In-All, AllPairs, Differ, spent_step, freed, has-snoc, differ_test, IsSized, total_of, Honest,
  IsOpen, pulled_in, pulled-Honest, mul64-le,
}

abbrev pub Apart : Reduction → Reduction → Type 0
Apart r s = Differ r.pool s.pool

module _ (pools : List PoolPlan) (distinct : AllPairs Differ pools)
    (sized : All IsSized pools) where
  still-IsOpen :
      (cs : List PoolPlan) (r : Reduction) (rs : List Reduction)
      → All (Apart r) rs
      → All (IsOpen pools distinct sized cs) rs
      → All (IsOpen pools distinct sized (cs ++ (r.pool ∷ []))) rs
  still-IsOpen cs r [] a o = tt
  still-IsOpen cs r (s ∷ rs) a o = (
    record {
      place = o.0.place;
      fresh =
          has-snoc s.pool.name cs r.pool
          ∙ rw (o.0.fresh, differ_test r.pool.name s.pool.name a.0) refl;
      running = o.0.running;
      frees = o.0.frees;
    },
    still-IsOpen cs r rs a.1 o.1,
  )

  pub pull_reductions-Honest :
      (limit : ℕ) (rs : List Reduction) (c : Coupling)
      → AllPairs Apart rs
      → All (IsOpen pools distinct sized c.changes) rs
      → Honest pools distinct sized c
      → Honest pools distinct sized (pull_reductions limit rs c)
  unfolding pull_reductions
  pull_reductions-Honest limit [] c a o h = h
  pull_reductions-Honest limit (r ∷ rs) c a o h = elim (Bool-cases (sle c.committed limit)) [
    | inl t ↦ rw t h
    | inr f ↦ rw f (
        pull_reductions-Honest limit rs (pulled_in pools distinct sized limit r c) a.1
          (still-IsOpen c.changes r rs a.0 o.1)
          (pulled-Honest pools distinct sized limit r c o.0 h))
  ]

  abbrev skips : List PoolPlan → List Outcome → PoolPlan → Bool
  skips changes outcomes p =
      ((p.unknown || has p.name changes) || (sle p.current 0 || sle p.current p.max_children))
      || not (is_too_small (action_of none p.name outcomes))

  reductions-All :
      (P : PoolPlan → Type 0) (changes : List PoolPlan) (outcomes : List Outcome)
      (ps : List PoolPlan)
      → All P ps
      → All (λ (r : Reduction). P r.pool) (reductions changes outcomes ps)
  unfolding reductions
  reductions-All P changes outcomes [] h = tt
  reductions-All P changes outcomes (p ∷ ps) h = elim (Bool-cases (skips changes outcomes p)) [
    | inl t ↦ rw t (reductions-All P changes outcomes ps h.1)
    | inr f ↦ rw f (h.0, reductions-All P changes outcomes ps h.1)
  ]

  pub reductions-Apart :
      (changes : List PoolPlan) (outcomes : List Outcome) (ps : List PoolPlan)
      → AllPairs Differ ps
      → AllPairs Apart (reductions changes outcomes ps)
  unfolding reductions
  reductions-Apart changes outcomes [] h = tt
  reductions-Apart changes outcomes (p ∷ ps) h = elim (Bool-cases (skips changes outcomes p)) [
    | inl t ↦ rw t (reductions-Apart changes outcomes ps h.1)
    | inr f ↦ rw f (
      reductions-All (Differ p) changes outcomes ps h.0,
      reductions-Apart changes outcomes ps h.1,
    )
  ]

  pub reductions-IsOpen :
      (changes : List PoolPlan) (outcomes : List Outcome) (ps : List PoolPlan)
      → All (λ (p : PoolPlan). In p pools) ps
      → All (IsOpen pools distinct sized changes) (reductions changes outcomes ps)
  unfolding reductions
  reductions-IsOpen changes outcomes [] h = tt
  reductions-IsOpen changes outcomes (p ∷ ps) h = elim (Bool-cases (skips changes outcomes p)) [
    | inl t ↦ rw t (reductions-IsOpen changes outcomes ps h.1)
    | inr f ↦ rw f (
      record { place = h.0; fresh = ground arith; running = ground arith; frees = refl },
      reductions-IsOpen changes outcomes ps h.1,
    )
  ]

  -- The names that are left of the changes when some are dropped.
  abbrev pub stays : List PoolPlan → List String → String → Bool
  stays cs dropped n = has n cs && not (has_name n dropped)

  -- A growth that can still be dropped.
  pub record IsKept (cs : List PoolPlan) (dropped : List String) (g : PoolPlan) : Type 0 where
    pub place : In g pools
    pub included : has g.name cs ≡ true
    pub kept : has_name g.name dropped ≡ false
    pub grows : is_growth g ≡ true

  abbrev without : PoolPlan → Coupling → Coupling
  without g c = record c {
    dropped = g.name ∷ c.dropped;
    committed = sub64 c.committed (growth_bytes g);
    outcomes = set_outcome g.name held_back (cannot_reload_yet g.current g.max_children) c.outcomes;
  }

  abbrev pub Counts : Coupling → Type 0
  Counts c = c.committed ≡ total_of pools distinct sized (stays c.changes c.dropped)

  without-Counts :
      (g : PoolPlan) (c : Coupling) → IsKept c.changes c.dropped g → Counts c → Counts (without g c)
  unfolding has_name
  without-Counts g c k h =
      let size = In-All IsSized g pools k.place sized in
      let self = (eq_iff g.name g.name).1 refl in
      let before : stays c.changes c.dropped g.name ≡ true = rw (k.included, k.kept) refl in
      let after : stays c.changes (g.name ∷ c.dropped) g.name ≡ false =
        rw (k.included, self) refl in
      let running : slt 0 g.current ≡ true = ground (arith, k.grows) in
      let step =
        spent_step pools (stays c.changes c.dropped) (stays c.changes (g.name ∷ c.dropped)) g 0
          (growth_bytes g) distinct k.place
          (λ p ne. rw (differ_test g.name p.name (λ e. ne (sym e))) refl)
          (mul64-le pools distinct sized (sub64 g.max_children g.current) g.worker_bytes)
          (rw (after, before, running)
            (freed g.max_children g.current g.worker_bytes size.target size.current)) in
      rw h (sym step)

  still-IsKept :
      (cs : List PoolPlan) (dropped : List String) (g : PoolPlan) (gs : List PoolPlan)
      → All (Differ g) gs
      → All (IsKept cs dropped) gs
      → All (IsKept cs (g.name ∷ dropped)) gs
  unfolding has_name
  still-IsKept cs dropped g [] a k = tt
  still-IsKept cs dropped g (x ∷ gs) a k = (
    record {
      place = k.0.place;
      included = k.0.included;
      kept = rw (differ_test g.name x.name a.0) k.0.kept;
      grows = k.0.grows;
    },
    still-IsKept cs dropped g gs a.1 k.1,
  )

  pub drop_growths-Counts :
      (limit : ℕ) (gs : List PoolPlan) (c : Coupling)
      → AllPairs Differ gs
      → All (IsKept c.changes c.dropped) gs
      → Counts c
      → Counts (drop_growths limit gs c)
  unfolding drop_growths
  drop_growths-Counts limit [] c a k h = h
  drop_growths-Counts limit (g ∷ gs) c a k h = elim (Bool-cases (sle c.committed limit)) [
    | inl t ↦ rw t h
    | inr f ↦ rw f (
        drop_growths-Counts limit gs (without g c) a.1
          (still-IsKept c.changes c.dropped g gs a.0 k.1) (without-Counts g c k.0 h))
  ]

-- Which names are left when the changes of dropped names go.
pub keep-stays :
    (n : String) (dropped : List String) (cs : List PoolPlan)
    → has n (keep (λ (p : PoolPlan). not (has_name p.name dropped)) cs)
      ≡ (has n cs && not (has_name n dropped))
unfolding has keep
keep-stays n dropped [] = refl
keep-stays n dropped (p ∷ cs) = elim (Bool-cases (str_eq p.name n)) [
  | inl t ↦
      let same = ap (λ x. has_name x dropped) ((eq_iff p.name n).0 t) in
      ground (arith, same, t, keep-stays n dropped cs)
  | inr f ↦ ground (arith, f, keep-stays n dropped cs)
]

module _ {A : Type 0} (test : A → Bool) where
  pub keep-All : (P : A → Type 0) (xs : List A) → All P xs → All P (keep test xs)
  unfolding keep
  keep-All P [] h = tt
  keep-All P (x ∷ xs) h = elim (Bool-cases (test x)) [
    | inl t ↦ rw t (h.0, keep-All P xs h.1)
    | inr f ↦ rw f (keep-All P xs h.1)
  ]

  pub keep-AllPairs : (R : A → A → Type 0) (xs : List A) → AllPairs R xs → AllPairs R (keep test xs)
  unfolding keep
  keep-AllPairs R [] h = tt
  keep-AllPairs R (x ∷ xs) h = elim (Bool-cases (test x)) [
    | inl t ↦ rw t (keep-All (R x) xs h.0, keep-AllPairs R xs h.1)
    | inr f ↦ rw f (keep-AllPairs R xs h.1)
  ]

  pub keep-test : (xs : List A) → All (λ x. test x ≡ true) (keep test xs)
  unfolding keep
  keep-test [] = tt
  keep-test (x ∷ xs) = elim (Bool-cases (test x)) [
    | inl t ↦ rw t (t, keep-test xs)
    | inr f ↦ rw f (keep-test xs)
  ]
