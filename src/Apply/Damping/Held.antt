-- ===== src/Apply/Damping/Held.antt =====
-- apply/apply.go: holdGrowths never takes a growth that the budget cannot pay for.
use fpm_tune.Common.{
  ℕ, ◌≡◌, refl, sym, ◌∙◌, ap, ◌⊎◌, inl, inr, Bool, true, not, List, [], ◌∷◌, ◌++◌, All, Bool-cases,
}
use mathlib.Core.List.{append-nil, append_assoc}
use fpm_tune.Common.Word.{sle}
use fpm_tune.Allocate.Compute.Lines.{PoolPlan, Plan}
use fpm_tune.Apply.Decide.{Outcome}
use fpm_tune.Apply.Damping.{Damped, commitment_of, is_growth, keep, hold_loop, hold_growths}

-- The kept changes are the steady ones with some growths behind them, which the limit pays for.
abbrev pub Held : Plan → ℕ → List PoolPlan → List PoolPlan → Type 0
Held plan limit steady kept =
    (grown : List PoolPlan) × (kept ≡ steady ++ grown)
    × All (λ p. is_growth p ≡ true) grown
    × ((grown ≡ []) ⊎ (sle (commitment_of plan kept) limit ≡ true))

hold_loop-Held :
    (plan : Plan) (limit : ℕ) (steady : List PoolPlan) (gs : List PoolPlan) (d : Damped)
    → All (λ p. is_growth p ≡ true) gs
    → Held plan limit steady d.changes
    → Held plan limit steady (hold_loop plan limit gs d).changes
unfolding hold_loop
hold_loop-Held plan limit steady [] d g h = h
hold_loop-Held plan limit steady (x ∷ gs) d (gx, g) (grown, e, v, fit) =
    elim (Bool-cases (sle (commitment_of plan (d.changes ++ (x ∷ []))) limit)) [
      | inl t ↦
          rw (t, hold_loop)
            (hold_loop-Held plan limit steady gs _ g (
              grown ++ (x ∷ []),
              ap (λ l. l ++ (x ∷ [])) e ∙ append_assoc steady grown (x ∷ []),
              All-snoc grown v gx,
              inr t,
            ))
      | inr f ↦ rw (f, hold_loop) (hold_loop-Held plan limit steady gs _ g (grown, e, v, fit))
    ]
  where
    All-snoc :
        (ps : List PoolPlan)
        → All (λ p. is_growth p ≡ true) ps
        → is_growth x ≡ true
        → All (λ p. is_growth p ≡ true) (ps ++ (x ∷ []))
    All-snoc [] v g = (g, tt)
    All-snoc (p ∷ ps) v g = (v.0, All-snoc ps v.1 g)

keep-All : (test : PoolPlan → Bool) (ps : List PoolPlan) → All (λ p. test p ≡ true) (keep test ps)
unfolding keep
keep-All test [] = tt
keep-All test (p ∷ ps) = elim (Bool-cases (test p)) [
  | inl t ↦ rw t (t, keep-All test ps)
  | inr f ↦ rw f (keep-All test ps)
]

-- On a full host every change that is no growth goes through, in its order, and growths join them
-- only as far as the limit pays for what the host then runs. The sort only has to return elements of
-- the list that it is given.
pub hold_growths-Held :
    (sort : (A : Type 0) → (A → A → Bool) → List A → List A)
    → ((A : Type 0) (less : A → A → Bool) (P : A → Type 0) (xs : List A)
        → All P xs
        → All P (sort A less xs))
    → (plan : Plan) (changes : List PoolPlan) (outcomes : List Outcome) (limit : ℕ)
    → Held plan limit
        (keep (λ p. not (is_growth p)) changes)
        (hold_growths sort plan changes outcomes limit).changes
unfolding hold_growths
hold_growths-Held sort permutes plan changes outcomes limit =
    hold_loop-Held plan limit _ _ _
      (permutes PoolPlan _ (λ p. is_growth p ≡ true) _ (keep-All is_growth changes))
      ([], sym (append-nil _), tt, inl refl)
