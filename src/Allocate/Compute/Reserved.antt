-- ===== src/Allocate/Compute/Reserved.antt =====
-- allocate/allocate.go: a plan keeps the floors of the pools that it does not write.
use fpm_tune.Common.{
  ℕ, ◌≤◌, ◌≡◌, ap, true, Bool, not, ◌&&◌, List, [], ◌∷◌, map, arith, All, if◌then◌else◌, ◌∙◌,
}
use fpm_tune.Common.Word.{slt}
use fpm_tune.Common.Float.{Float}
use fpm_tune.Allocate.Types.{Pool, Row, Options}
use fpm_tune.Allocate.Rows.{strip}
use fpm_tune.Allocate.Demand.Round.{IsGranted}
use fpm_tune.Allocate.Want.{pool_floor, row_of}
use fpm_tune.Allocate.Compute.Lines.{PoolPlan, pool_plan}

module _ (fl : Float) (o : Options fl) where
  -- The lines of unknown pools have the workers of their floors.
  abbrev pub Reserves : List Pool → List PoolPlan → Type 0
  Reserves [] [] = Unit
  Reserves (p ∷ ps) (l ∷ ls) =
      (p.unknown ≡ true → pool_floor fl p o ≤ l.max_children) × Reserves ps ls
  Reserves [] (l ∷ ls) = ⊥
  Reserves (p ∷ ps) [] = ⊥

  row-reserved :
      (cap : ℕ) (p : Pool) (r : Row)
      → strip r ≡ strip (row_of fl cap o p)
      → IsGranted r
      → p.unknown ≡ true
      → pool_floor fl p o ≤ r.granted
  unfolding row_of
  row-reserved cap p r e g u =
      let same : r.pool ≡ p = ap (λ (q : Row). q.pool) e in
      let floor : r.floor ≡ (
          if (slt 0 cap && slt cap (pool_floor fl p o)) && not p.unknown
          then cap
          else pool_floor fl p o) =
        ap (λ (q : Row). q.floor) e in
      let kept = g.reserved (ap (λ (q : Pool). q.unknown) same ∙ u) in
      ground (arith, kept, floor, u)

  pub rows-Reserves :
      (cap : ℕ) (exhausted : Bool) (pools : List Pool) (rows : List Row)
      → map strip rows ≡ map strip (map (row_of fl cap o) pools)
      → All IsGranted rows
      → Reserves pools (map (pool_plan fl o exhausted) rows)
  unfolding pool_plan
  rows-Reserves cap exhausted [] [] e g = tt
  rows-Reserves cap exhausted (p ∷ ps) [] e g = cc
  rows-Reserves cap exhausted [] (r ∷ rows) e g = cc
  rows-Reserves cap exhausted (p ∷ ps) (r ∷ rows) e g =
      let head : strip r ≡ strip (row_of fl cap o p) = cc in
      let tail : map strip rows ≡ map strip (map (row_of fl cap o) ps) = cc in
      (row-reserved cap p r head g.0, rows-Reserves cap exhausted ps rows tail g.1)
