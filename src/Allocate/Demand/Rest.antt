-- ===== src/Allocate/Demand/Rest.antt =====
-- allocate/allocate.go: allocateDemand ends, and what is then left affords no pool that wants more
-- another worker.
use native.Mathlib.Nat.{le_trans}
use fpm_tune.Common.{
  ℕ, zero, suc, ◌^◌, ◌≤◌, ◌<◌, ◌≡◌, refl, ◌∙◌, sym, ap, subst, true, false, List, [], ◌∷◌, map,
  arith, All, length-map, length, Result, ok, ◌==◌,
}
use fpm_tune.Common.Float.{Float, IsIeee}
use fpm_tune.Allocate.Types.{Row, Error}
use fpm_tune.Allocate.Rows.{strip}
use fpm_tune.Allocate.Demand.{
  Candidate, Grants, Demand, candidates_from, gap_total, before, sort_stable, grant_all,
  grant_round, demand_loop, allocate_demand,
}
use fpm_tune.Allocate.Demand.Candidates.{
  IsMet, candidates_from-IsCandidate, candidates_from-IsMet, candidates_from-Distinct,
  IsCandidate-gap, length-candidates_from, gap_total-pos,
}
use fpm_tune.Allocate.Demand.Sort.{sort_stable-All, sort_stable-Distinct, sort_stable-cons}
use fpm_tune.Allocate.Demand.Round.{
  IsSound, IsCandidate, Distinct, grant_all-IsSound, grant_all-spends,
}

-- The loop ends with the budget shared, and no pool that wants more can be afforded.
abbrev pub Finished : ℕ → List Row → Result Error Demand → Type 0
Finished a rows out =
    (d : Demand) × (out ≡ ok d)
    × IsSound a d.rows d.remaining
    × (map strip d.rows ≡ map strip rows)
    × All (IsMet d.remaining) d.rows

module _ (fl : Float) (ieee : IsIeee fl) (a : ℕ) (budget : a < 2 ^ 63) where
  -- A round with a candidate keeps the budget shared and spends some of it.
  grant_round-spends :
      (rows : List Row) (remaining : ℕ) (c : Candidate) (cs : List Candidate)
      → IsSound a rows remaining
      → All (IsCandidate remaining rows) (c ∷ cs)
      → Distinct (c ∷ cs)
      → let g = grant_round fl rows remaining (c ∷ cs) in
        IsSound a g.rows g.remaining
        × (map strip g.rows ≡ map strip rows)
        × (g.progressed ≡ true)
        × (g.remaining < remaining)
  unfolding grant_round
  grant_round-spends rows remaining c cs v k d = go (sort_stable-cons (before rows) c cs)
    where
      start : Grants
      start = record { rows = rows; remaining = remaining; progressed = false }

      total : ℕ
      total = gap_total 0 (c ∷ cs)

      sorted : List Candidate
      sorted = sort_stable (before rows) (c ∷ cs)

      valid : All (IsCandidate remaining rows) sorted
      valid = sort_stable-All (before rows) _ (c ∷ cs) k

      apart : Distinct sorted
      apart = sort_stable-Distinct (before rows) (c ∷ cs) d

      go :
          (y : Candidate) × (ys : List Candidate) × (sorted ≡ y ∷ ys)
          → let g = grant_all fl remaining total sorted start in
            IsSound a g.rows g.remaining
            × (map strip g.rows ≡ map strip rows)
            × (g.progressed ≡ true)
            × (g.remaining < remaining)
      go (y, ys, e) =
          let s = grant_all-IsSound fl ieee a remaining total budget sorted start v valid apart in
          let p =
            grant_all-spends fl ieee a remaining total budget y ys start v
              (subst (All (IsCandidate remaining rows)) e valid) (subst Distinct e apart)
              (omega arith) in
          let p' =
            subst
              (λ z.
                let g = grant_all fl remaining total z start in
                (g.progressed ≡ true) × (g.remaining < remaining))
              (sym e) p in
          (s.0, s.1, p'.0, p'.1)

  demand_loop-done :
      (k : ℕ) (rows : List Row) (remaining : ℕ)
      → candidates_from 0 remaining rows ≡ []
      → demand_loop fl (suc k) rows remaining ≡ ok (record { rows = rows; remaining = remaining })
  unfolding demand_loop
  demand_loop-done k rows remaining e = ground arith

  demand_loop-step :
      (k : ℕ) (rows : List Row) (remaining : ℕ) (c : Candidate) (cs : List Candidate)
      → candidates_from 0 remaining rows ≡ c ∷ cs
      → (gap_total 0 (c ∷ cs) == 0) ≡ false
      → (grant_round fl rows remaining (c ∷ cs)).progressed ≡ true
      → demand_loop fl (suc k) rows remaining
        ≡ demand_loop fl k
            (grant_round fl rows remaining (c ∷ cs)).rows
            (grant_round fl rows remaining (c ∷ cs)).remaining
  unfolding demand_loop
  demand_loop-step k rows remaining c cs e t p = ground arith

  demand_loop-round :
      (k : ℕ) (rows : List Row) (remaining : ℕ)
      → length rows ≤ 1024
      → IsSound a rows remaining
      → ((rows' : List Row) (remaining' : ℕ)
          → remaining' < remaining
          → length rows' ≤ 1024
          → IsSound a rows' remaining'
          → Finished a rows' (demand_loop fl k rows' remaining'))
      → (cs : List Candidate) → candidates_from 0 remaining rows ≡ cs
      → Finished a rows (demand_loop fl (suc k) rows remaining)
  demand_loop-round k rows remaining n v loop [] e = (
    record { rows = rows; remaining = remaining },
    demand_loop-done k rows remaining e,
    v,
    refl,
    candidates_from-IsMet 0 remaining rows (omega (arith, v.exact)) v.granted e,
  )
  demand_loop-round k rows remaining n v loop (c ∷ cs) e =
      let small : remaining < 2 ^ 63 = omega (arith, v.exact) in
      let valid =
        subst (All (IsCandidate remaining rows)) e
          (candidates_from-IsCandidate remaining rows small v.granted) in
      let apart = subst Distinct e (candidates_from-Distinct 0 remaining rows) in
      let few : length (c ∷ cs) ≤ 1024 =
        subst (λ l. length l ≤ 1024) e (le_trans (length-candidates_from 0 remaining rows) n) in
      let (r, at, gap, room, w) = valid.0 in
      let pos =
        gap_total-pos c cs gap (IsCandidate-gap remaining rows (c ∷ cs) v.granted valid) few in
      let (sound, same, spent, less) = grant_round-spends rows remaining c cs v valid apart in
      let size : length (grant_round fl rows remaining (c ∷ cs)).rows ≤ 1024 = omega (
        arith,
        ap length same,
        length-map strip rows,
        length-map strip (grant_round fl rows remaining (c ∷ cs)).rows,
      ) in
      let (d, runs, sound', same', met) = loop _ _ less size sound in
      (d, demand_loop-step k rows remaining c cs e pos spent ∙ runs, sound', same' ∙ same, met)

  demand_loop-Finished :
      (k : ℕ) (rows : List Row) (remaining : ℕ)
      → remaining < k
      → length rows ≤ 1024
      → IsSound a rows remaining
      → Finished a rows (demand_loop fl k rows remaining)
  demand_loop-Finished zero rows remaining h n v = elim h [ ]
  demand_loop-Finished (suc k) rows remaining h n v =
      demand_loop-round k rows remaining n v
        (λ rows' remaining' less n' v'. demand_loop-Finished k rows' remaining' (omega arith) n' v')
        (candidates_from 0 remaining rows) refl

  -- allocateDemand ends on at most 1024 sound rows of a budget below 2 ^ 63: the fuel is enough. The
  -- grants and what remains still make up the budget, no pool is given more than the larger of its
  -- floor and its want, nothing but the grants changes, and a pool that still wants more costs more
  -- than what is left. The arithmetic is IEEE's.
  pub allocate_demand-Finished :
      (rows : List Row) (remaining : ℕ)
      → length rows ≤ 1024
      → IsSound a rows remaining
      → Finished a rows (allocate_demand fl rows remaining)
  unfolding allocate_demand
  allocate_demand-Finished rows remaining n v =
      demand_loop-Finished (suc remaining) rows remaining (omega arith) n v
