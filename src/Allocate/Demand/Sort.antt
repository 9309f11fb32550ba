-- ===== src/Allocate/Demand/Sort.antt =====
-- allocate/allocate.go: sort.SliceStable, as allocateDemand uses it.
use fpm_tune.Common.{◌≡◌, refl, sym, inl, inr, ◌≢◌, Bool, List, [], ◌∷◌, All, Bool-cases}
use fpm_tune.Allocate.Demand.{Candidate, insert_stable, sort_stable}
use fpm_tune.Allocate.Demand.Round.{Distinct}

-- Sorting keeps what holds of every candidate.
module _ (less : Candidate → Candidate → Bool) where
  insert_stable-All :
      (P : Candidate → Type 0) (x : Candidate) (xs : List Candidate)
      → P x
      → All P xs
      → All P (insert_stable less x xs)
  unfolding insert_stable
  insert_stable-All P x [] p v = (p, tt)
  insert_stable-All P x (y ∷ ys) p v = elim (Bool-cases (less y x)) [
    | inl t ↦ rw t (v.0, insert_stable-All P x ys p v.1)
    | inr f ↦ rw f (p, v)
  ]

  insert_stable-Distinct :
      (x : Candidate) (xs : List Candidate)
      → All (λ d. x.i ≢ d.i) xs
      → Distinct xs
      → Distinct (insert_stable less x xs)
  unfolding insert_stable
  insert_stable-Distinct x [] ne d = (tt, tt)
  insert_stable-Distinct x (y ∷ ys) ne d = elim (Bool-cases (less y x)) [
    | inl t ↦
        rw t
          (insert_stable-All _ x ys (λ e. ne.0 (sym e)) d.0, insert_stable-Distinct x ys ne.1 d.1)
    | inr f ↦ rw f (ne, d)
  ]

  insert_stable-cons :
      (x : Candidate) (zs : List Candidate)
      → (y : Candidate) × (ys : List Candidate) × (insert_stable less x zs ≡ y ∷ ys)
  unfolding insert_stable
  insert_stable-cons x [] = (x, [], refl)
  insert_stable-cons x (z ∷ zs) = elim (Bool-cases (less z x)) [
    | inl t ↦ (z, insert_stable less x zs, rw t)
    | inr f ↦ (x, z ∷ zs, rw f)
  ]

  pub sort_stable-All :
      (P : Candidate → Type 0) (xs : List Candidate) → All P xs → All P (sort_stable less xs)
  unfolding sort_stable
  sort_stable-All P [] v = tt
  sort_stable-All P (x ∷ xs) v =
      insert_stable-All P x (sort_stable less xs) v.0 (sort_stable-All P xs v.1)

  pub sort_stable-Distinct : (xs : List Candidate) → Distinct xs → Distinct (sort_stable less xs)
  unfolding sort_stable
  sort_stable-Distinct [] d = tt
  sort_stable-Distinct (x ∷ xs) d =
      insert_stable-Distinct x (sort_stable less xs) (sort_stable-All _ xs d.0)
        (sort_stable-Distinct xs d.1)

  pub sort_stable-cons :
      (x : Candidate) (xs : List Candidate)
      → (y : Candidate) × (ys : List Candidate) × (sort_stable less (x ∷ xs) ≡ y ∷ ys)
  unfolding sort_stable
  sort_stable-cons x xs = insert_stable-cons x (sort_stable less xs)
