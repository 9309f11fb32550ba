-- ===== src/Apply/Damping/Paid.antt =====
-- apply/apply.go: on a host with room, what requireShrinksWithGrowth leaves of the growths.
use text.Mathlib.TextPositions.{compare_refl}
use fpm_tune.Common.{
  ℕ, ◌≡◌, refl, sym, ◌∙◌, subst, ◌⊎◌, inl, inr, String, Bool, true, false, not, List, [], ◌∷◌, All,
  All-map, if◌then◌else◌, Bool-cases, arith,
}
use fpm_tune.Common.Word.{slt, sle, sub64}
use fpm_tune.Allocate.Compute.Lines.{PoolPlan, Plan}
use fpm_tune.Apply.Decide.{Outcome, held_back, cannot_reload_yet}
use fpm_tune.Apply.Damping.{
  Coupling, has_name, is_growth, keep, largest_first, pull_reductions, reductions, drop_growths,
  couple, Reduction, growth_bytes, set_outcome,
}

-- A name that is dropped stays dropped.
drop_growths-dropped :
    (limit : ℕ) (gs : List PoolPlan) (c : Coupling) (name : String)
    → has_name name c.dropped ≡ true
    → has_name name (drop_growths limit gs c).dropped ≡ true
unfolding drop_growths has_name
drop_growths-dropped limit [] c name h = h
drop_growths-dropped limit (g ∷ gs) c name h = elim (Bool-cases (sle c.committed limit)) [
  | inl t ↦ rw t h
  | inr f ↦ rw f (drop_growths-dropped limit gs _ name (ground (arith, h)))
]

abbrev next : PoolPlan → Coupling → Coupling
next g c = record c {
  dropped = g.name ∷ c.dropped;
  committed = sub64 c.committed (growth_bytes g);
  outcomes = set_outcome g.name held_back (cannot_reload_yet g.current g.max_children) c.outcomes;
}

has_name_head : (g : PoolPlan) (c : Coupling) → has_name g.name (next g c).dropped ≡ true
unfolding has_name
has_name_head g c = rw (compare_refl g.name)

drop_growths-stop :
    (limit : ℕ) (g : PoolPlan) (gs : List PoolPlan) (c : Coupling)
    → sle c.committed limit ≡ true
    → drop_growths limit (g ∷ gs) c ≡ c
unfolding drop_growths
drop_growths-stop limit g gs c t = rw t

drop_growths-next :
    (limit : ℕ) (g : PoolPlan) (gs : List PoolPlan) (c : Coupling)
    → sle c.committed limit ≡ false
    → drop_growths limit (g ∷ gs) c ≡ drop_growths limit gs (next g c)
unfolding drop_growths
drop_growths-next limit g gs c f = rw f

-- The loop stops within the limit, or every growth is dropped.
drop_growths-all :
    (limit : ℕ) (gs : List PoolPlan) (c left : Coupling)
    → drop_growths limit gs c ≡ left
    → (sle left.committed limit ≡ true) ⊎ All (λ g. has_name g.name left.dropped ≡ true) gs
drop_growths-all limit [] c left e = inr tt
drop_growths-all limit (g ∷ gs) c left e = elim (Bool-cases (sle c.committed limit)) [
  | inl t ↦ inl (
      subst (λ (d : Coupling). sle d.committed limit ≡ true)
        (sym (drop_growths-stop limit g gs c t) ∙ e) t)
  | inr f ↦
      let run = sym (drop_growths-next limit g gs c f) ∙ e in
      elim (drop_growths-all limit gs (next g c) left run) [
        | inl t ↦ inl t
        | inr v ↦ inr (
          subst (λ (d : Coupling). has_name g.name d.dropped ≡ true) run
              (drop_growths-dropped limit gs (next g c) g.name (has_name_head g c)),
          v,
        )
      ]
]

keep-none :
    (ps : List PoolPlan) (test : PoolPlan → Bool)
    → All (λ g. test g ≡ false) (keep is_growth ps)
    → All (λ p. is_growth p ≡ false) (keep test ps)
unfolding keep
keep-none [] test v = tt
keep-none (p ∷ ps) test v = elim (Bool-cases (is_growth p)) [
  | inl t ↦
      let w : All (λ g. test g ≡ false) (p ∷ keep is_growth ps) =
        subst
          (λ b. All (λ g. test g ≡ false) (if b then p ∷ keep is_growth ps else keep is_growth ps))
          t v in
      rw w.0 (keep-none ps test w.1)
  | inr f ↦
      let w : All (λ g. test g ≡ false) (keep is_growth ps) =
        subst
          (λ b. All (λ g. test g ≡ false) (if b then p ∷ keep is_growth ps else keep is_growth ps))
          f v in
      elim (Bool-cases (test p)) [
        | inl t ↦ rw t (f, keep-none ps test w)
        | inr n ↦ rw n (keep-none ps test w)
      ]
]

drop_growths-fits :
    (limit : ℕ) (gs : List PoolPlan) (c : Coupling)
    → sle c.committed limit ≡ true
    → drop_growths limit gs c ≡ c
unfolding drop_growths
drop_growths-fits limit [] c t = refl
drop_growths-fits limit (g ∷ gs) c t = rw t

drop_growths-changes :
    (limit : ℕ) (gs : List PoolPlan) (c : Coupling) → (drop_growths limit gs c).changes ≡ c.changes
unfolding drop_growths
drop_growths-changes limit [] c = refl
drop_growths-changes limit (g ∷ gs) c = elim (Bool-cases (sle c.committed limit)) [
  | inl t ↦ rw t
  | inr f ↦ rw f (drop_growths-changes limit gs (next g c))
]

-- The loops of requireShrinksWithGrowth on a host with room: the reductions that are pulled in, and
-- then the growths that are dropped, the largest first.
module _ (sort : (A : Type 0) → (A → A → Bool) → List A → List A) (plan : Plan)
    (changes : List PoolPlan) (outcomes : List Outcome) (limit committed : ℕ) where
  abbrev pub pulled : Coupling
  pulled =
      pull_reductions limit
        (sort Reduction (λ a b. slt b.frees a.frees) (reductions changes outcomes plan.pools))
        (record { changes = changes; dropped = []; committed = committed; outcomes = outcomes })

  abbrev pub left : Coupling
  left = drop_growths limit (largest_first sort (keep is_growth pulled.changes)) pulled

  pub couple-pulled :
      sle pulled.committed limit ≡ true
      → (couple sort plan changes outcomes limit committed).changes ≡ pulled.changes
  unfolding couple
  couple-pulled t = rw t refl

  pub couple-left :
      sle pulled.committed limit ≡ false
      → (couple sort plan changes outcomes limit committed).changes
        ≡ keep (λ p. not (has_name p.name left.dropped)) left.changes
  unfolding couple
  couple-left f = rw f refl

  -- Where a host has room but its plan does not fit, the coupled changes keep the commitment that is
  -- counted along within the limit, or no growth is left among them. The sort returns all elements of
  -- the list that it is given.
  pub couple-Paid :
      ((A : Type 0) (less : A → A → Bool) (P : A → Type 0) (xs : List A)
        → All P (sort A less xs)
        → All P xs)
      → (sle left.committed limit ≡ true)
        ⊎ All (λ p. is_growth p ≡ false) (couple sort plan changes outcomes limit committed).changes
  unfolding couple
  couple-Paid covers = elim (Bool-cases (sle pulled.committed limit)) [
    | inl t ↦ inl (
        subst (λ (d : Coupling). sle d.committed limit ≡ true)
          (sym (drop_growths-fits limit _ pulled t)) t)
    | inr f ↦ rw f (elim (drop_growths-all limit _ pulled left refl) [
      | inl t ↦ inl t
      | inr v ↦ inr (
          rw
            (drop_growths-changes limit (largest_first sort (keep is_growth pulled.changes)) pulled)
            (keep-none pulled.changes (λ p. not (has_name p.name left.dropped))
              (All-map (keep is_growth pulled.changes) (λ g h. rw h)
                (covers PoolPlan _ _ (keep is_growth pulled.changes) v))))
    ])
  ]
