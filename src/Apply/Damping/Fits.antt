-- ===== src/Apply/Damping/Fits.antt =====
-- apply/apply.go: requireShrinksWithGrowth keeps what the host runs within the limit.
use fpm_tune.Common.{
  ℕ, ◌≡◌, refl, sym, ap, ◌∙◌, subst, ◌⊎◌, inl, inr, String, Bool, true, false, not, List, [], ◌∷◌,
  ◌++◌, All, All-map, Bool-cases, arith,
}
use mathlib.Core.List.{append-nil}
use fpm_tune.Common.Word.{sub64, slt, sle}
use fpm_tune.Allocate.Compute.Lines.{PoolPlan, Plan}
use fpm_tune.Apply.Decide.{Outcome}
use fpm_tune.Apply.Damping.{
  has, has_name, commitment_of, Coupling, Reduction, reductions, pull_reductions, is_growth,
  growth_bytes, keep, largest_first, couple, implausible, require_shrinks_with_growth,
}
use fpm_tune.Apply.Damping.Held.{Held, hold_growths-Held}
use fpm_tune.Apply.Damping.Paid.{pulled, left, couple-Paid, couple-pulled, couple-left}
use fpm_tune.Apply.Damping.Counted.{
  spent, spent_same, spent-commitment_from, In, AllPairs, Differ, has-all, IsSized, Honest,
}
use fpm_tune.Apply.Damping.Coupled.{
  Apart, pull_reductions-Honest, reductions-Apart, reductions-IsOpen, drop_growths-Counts, stays,
  IsKept, keep-stays, keep-All, keep-AllPairs, keep-test,
}

-- What sort.Slice promises: the elements of the list that it is given, each as often.
pub record IsSort (sort : (A : Type 0) → (A → A → Bool) → List A → List A) : Type 1 where
  pub keeps :
      (A : Type 0) (less : A → A → Bool) (P : A → Type 0) (xs : List A)
      → All P xs
      → All P (sort A less xs)
  pub covers :
      (A : Type 0) (less : A → A → Bool) (P : A → Type 0) (xs : List A)
      → All P (sort A less xs)
      → All P xs
  pub pairs :
      (A : Type 0) (less : A → A → Bool) (R : A → A → Type 0) (xs : List A)
      → ((x y : A) → R x y → R y x)
      → AllPairs R xs
      → AllPairs R (sort A less xs)

pull_reductions-dropped :
    (limit : ℕ) (rs : List Reduction) (c : Coupling)
    → (pull_reductions limit rs c).dropped ≡ c.dropped
unfolding pull_reductions
pull_reductions-dropped limit [] c = refl
pull_reductions-dropped limit (r ∷ rs) c = elim (Bool-cases (sle c.committed limit)) [
  | inl t ↦ rw t
  | inr f ↦ rw f (pull_reductions-dropped limit rs _)
]

every : {A : Type 0} (P : A → Type 0) → ((x : A) → P x) → (xs : List A) → All P xs
every P f [] = tt
every P f (x ∷ xs) = (f x, every P f xs)

-- The commitment of changes, by any test that tells their names.
commitment_of-spent :
    (plan : Plan) (cs : List PoolPlan) (included : String → Bool)
    → ((n : String) → has n cs ≡ included n)
    → commitment_of plan cs ≡ spent included 0 plan.pools
unfolding commitment_of
commitment_of-spent plan cs included same =
    sym (spent-commitment_from cs plan.pools 0)
    ∙ spent_same plan.pools included (λ n. has n cs) 0 (every _ (λ p. same p.name) plan.pools)

pub In-all : (ps : List PoolPlan) → All (λ (p : PoolPlan). In p ps) ps
In-all [] = tt
In-all (p ∷ ps) = (inl refl, All-map ps (λ q m. inr m) (In-all ps))

not_dropped : (n : String) (dropped : List String) → dropped ≡ [] → has_name n dropped ≡ false
unfolding has_name
not_dropped n dropped e = rw e refl

module _ (sort : (A : Type 0) → (A → A → Bool) → List A → List A) (good : IsSort sort) (plan : Plan)
    (distinct : AllPairs Differ plan.pools) (sized : All IsSized plan.pools)
    (changes : List PoolPlan) (outcomes : List Outcome) (apart : AllPairs Differ changes)
    (inside : All (λ (p : PoolPlan). In p plan.pools) changes) (limit : ℕ) where
  abbrev committed : ℕ
  committed = commitment_of plan changes

  abbrev first : Coupling
  first = pulled sort plan changes outcomes limit committed

  abbrev last : Coupling
  last = left sort plan changes outcomes limit committed

  first-Honest : Honest plan.pools distinct sized first
  first-Honest =
      let rs = reductions changes outcomes plan.pools in
      let less : Reduction → Reduction → Bool = λ a b. slt b.frees a.frees in
      pull_reductions-Honest plan.pools distinct sized limit (sort Reduction less rs) _
        (good.pairs Reduction less Apart rs (λ r s ne e. ne (sym e))
          (reductions-Apart plan.pools distinct sized changes outcomes plan.pools distinct))
        (good.keeps Reduction less _ rs (
          reductions-IsOpen plan.pools distinct sized changes outcomes plan.pools
            (In-all plan.pools)))
        (record {
          counted = commitment_of-spent plan changes (λ n. has n changes) (λ n. refl);
          apart = apart;
          inside = inside;
        })

  none_dropped : first.dropped ≡ []
  none_dropped = pull_reductions-dropped limit _ _

  -- The growths among the changes can all still be dropped.
  growths-IsKept :
      (gs : List PoolPlan)
      → All (λ (p : PoolPlan). In p plan.pools) gs
      → All (λ (p : PoolPlan). has p.name first.changes ≡ true) gs
      → All (λ (p : PoolPlan). is_growth p ≡ true) gs
      → All (IsKept plan.pools distinct sized first.changes first.dropped) gs
  growths-IsKept [] i h g = tt
  growths-IsKept (x ∷ gs) i h g = (
    record {
      place = i.0;
      included = h.0;
      kept = not_dropped x.name first.dropped none_dropped;
      grows = g.0;
    },
    growths-IsKept gs i.1 h.1 g.1,
  )

  last-counted :
      last.committed
      ≡ spent (stays plan.pools distinct sized last.changes last.dropped) 0 plan.pools
  last-counted =
      let gs = keep is_growth first.changes in
      let less : PoolPlan → PoolPlan → Bool = λ a b. slt (growth_bytes b) (growth_bytes a) in
      let h = first-Honest in
      drop_growths-Counts plan.pools distinct sized limit (largest_first sort gs) first
        (good.pairs PoolPlan less Differ gs (λ p q ne e. ne (sym e))
          (keep-AllPairs is_growth Differ first.changes h.apart))
        (good.keeps PoolPlan less _ gs (
          growths-IsKept gs (keep-All is_growth _ first.changes h.inside)
            (keep-All is_growth _ first.changes (has-all first.changes))
            (keep-test is_growth first.changes)))
        (h.counted
          ∙ sym (
              spent_same plan.pools (λ n. has n first.changes)
                (stays plan.pools distinct sized first.changes first.dropped) 0
                (every _
                  (λ (p : PoolPlan). ground (arith, not_dropped p.name first.dropped none_dropped))
                  plan.pools)))

  abbrev coupled : List PoolPlan
  coupled = (couple sort plan changes outcomes limit committed).changes

  abbrev Within : List PoolPlan → Type 0
  Within cs = sle (commitment_of plan cs) limit ≡ true

  within : (cs : List PoolPlan) (n : ℕ) → commitment_of plan cs ≡ n → sle n limit ≡ true → Within cs
  within cs n e t = subst (λ k. sle k limit ≡ true) (sym e) t

  couple-Fits : Within coupled ⊎ All (λ p. is_growth p ≡ false) coupled
  couple-Fits = elim (Bool-cases (sle first.committed limit)) [
    | inl t ↦ inl (
        subst Within (sym (couple-pulled sort plan changes outcomes limit committed t)) (
          within first.changes first.committed
            (commitment_of-spent plan first.changes (λ n. has n first.changes) (λ n. refl)
              ∙ sym first-Honest.counted)
            t))
    | inr f ↦ elim (couple-Paid sort plan changes outcomes limit committed good.covers) [
      | inl t ↦ inl (
          subst Within (sym (couple-left sort plan changes outcomes limit committed f)) (
            within _ last.committed
              (commitment_of-spent plan _
                  (stays plan.pools distinct sized last.changes last.dropped)
                  (λ n. keep-stays n last.dropped last.changes)
                ∙ sym last-counted)
              t))
      | inr v ↦ inr v
    ]
  ]

steady_only :
    (changes : List PoolPlan)
    → All (λ p. is_growth p ≡ false) (keep (λ p. not (is_growth p)) changes)
steady_only changes =
    All-map (keep (λ p. not (is_growth p)) changes) (λ p e. ground (arith, e))
      (keep-test (λ p. not (is_growth p)) changes)

-- Changes that cost no more than the limit on the host, or that grow nothing.
abbrev pub Fits : Plan → ℕ → List PoolPlan → Type 0
Fits plan limit cs = (sle (commitment_of plan cs) limit ≡ true) ⊎ All (λ p. is_growth p ≡ false) cs

Held-Fits :
    (plan : Plan) (limit : ℕ) (changes kept : List PoolPlan)
    → Held plan limit (keep (λ p. not (is_growth p)) changes) kept
    → Fits plan limit kept
Held-Fits plan limit changes kept (grown, e, v, inl n) =
    let same : kept ≡ keep (λ p. not (is_growth p)) changes =
      e ∙ ap (λ g. keep (λ p. not (is_growth p)) changes ++ g) n ∙ append-nil _ in
    inr (subst (All (λ p. is_growth p ≡ false)) (sym same) (steady_only changes))
Held-Fits plan limit changes kept (grown, e, v, inr t) = inl t

pub require_shrinks_with_growth-Fits :
    (sort : (A : Type 0) → (A → A → Bool) → List A → List A)
    → IsSort sort
    → (plan : Plan) → AllPairs Differ plan.pools
    → All IsSized plan.pools
    → (changes : List PoolPlan) (outcomes : List Outcome) → AllPairs Differ changes
    → All (λ (p : PoolPlan). In p plan.pools) changes
    → sle (sub64 plan.total_bytes plan.reserve_bytes) 0 ≡ false
    → implausible plan.pools ≡ false
    → Fits plan
        (sub64 plan.total_bytes plan.reserve_bytes)
        (require_shrinks_with_growth sort plan changes outcomes).changes
unfolding require_shrinks_with_growth
require_shrinks_with_growth-Fits sort good plan distinct sized changes outcomes apart inside
      some_room fair =
    let limit = sub64 plan.total_bytes plan.reserve_bytes in
    elim (Bool-cases (sle (commitment_of plan changes) limit)) [
      | inl t ↦ rw (some_room, fair, t) (inl t)
      | inr f ↦ elim (Bool-cases plan.capacity_exhausted) [
        | inl t ↦
            simp (some_room, fair, f, t)
              (Held-Fits plan limit changes _
                (hold_growths-Held sort good.keeps plan changes outcomes limit))
        | inr n ↦
            simp (some_room, fair, f, n)
              (couple-Fits sort good plan distinct sized changes outcomes apart inside limit)
      ]
    ]
