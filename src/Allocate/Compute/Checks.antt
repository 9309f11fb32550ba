-- ===== src/Allocate/Compute/Checks.antt =====
-- allocate/allocate.go: what the checks of Compute let through, and the budget that it divides.
use fpm_tune.Common.{
  ℕ, suc, ◌-◌, ◌*◌, ◌^◌, ◌≤◌, ◌<◌, ◌≡◌, refl, ◌⊎◌, inl, inr, true, false, ◌||◌, List, [], ◌∷◌, map,
  arith, All, Bool-cases, if◌then◌else◌, Result, ok, err, ◌>>=◌, length, get_elem?, take, some,
}
use fpm_tune.Common.Word.{sub64, slt}
use fpm_tune.Common.Float.{Float, IsIeee}
use fpm_tune.Allocate.Types.{
  Budget, Pool, Row, Options, Error, allocatable, max_plausible_children,
  max_plausible_worker_bytes, no_worker_cost, implausible_cost, implausible_count,
}
use fpm_tune.Allocate.Rows.{IsPlausible, sum_where, floor_bytes}
use fpm_tune.Allocate.Floors.Fits.{floors_bytes}
use fpm_tune.Allocate.Want.{row_of}
use fpm_tune.Allocate.Want.Bounds.{IsPool, row_of-IsPlausible}
use fpm_tune.Allocate.Compute.{check_pool, check_pools}

-- The budget is what the reserve leaves of the total, nothing where the reserve is larger; a negative
-- reserve leaves all of it. The total is not negative.
pub allocatable-exact :
    (b : Budget)
    → b.total_bytes < 2 ^ 63
    → b.reserve_bytes < 2 ^ 64
    → allocatable b
      ≡ (if slt b.reserve_bytes 0 then b.total_bytes else b.total_bytes - b.reserve_bytes)
unfolding allocatable sub64 slt
allocatable-exact b h k = ground arith

pub record IsChecked (p : Pool) : Type 0 where
  pub costs : slt 0 p.worker_bytes ≡ true
  pub cheap : slt max_plausible_worker_bytes p.worker_bytes ≡ false
  pub few : slt max_plausible_children p.floor ≡ false
  pub capped : slt max_plausible_children p.ceiling ≡ false

-- What is wrong with a pool, by the error that says it.
pub data IsFault (p : Pool) : Error → Type 0 where
  no_cost : slt 0 p.worker_bytes ≡ false → IsFault p (no_worker_cost p.name)
  too_dear :
      slt max_plausible_worker_bytes p.worker_bytes ≡ true
      → IsFault p (implausible_cost p.name p.worker_bytes)
  too_many :
      (slt max_plausible_children p.floor || slt max_plausible_children p.ceiling) ≡ true
      → IsFault p (implausible_count p.name p.floor p.ceiling)

-- All pools pass, or the pool at `k` is the first that does not.
pub data Checked (ps : List Pool) : Result Error (List Pool) → Type 0 where
  passed : All IsChecked ps → Checked ps (ok ps)
  stopped :
      {e : Error}
      → (k : ℕ) (p : Pool) → get_elem? ps k ≡ some p
      → All IsChecked (take k ps)
      → IsFault p e
      → Checked ps (err e)

check_pool-Checked :
    (p : Pool)
    → ((check_pool p ≡ ok p) × IsChecked p) ⊎ ((e : Error) × (check_pool p ≡ err e) × IsFault p e)
unfolding check_pool
check_pool-Checked p = elim (Bool-cases (slt 0 p.worker_bytes)) [
  | inr f ↦ inr (no_worker_cost p.name, rw f, no_cost f)
  | inl t ↦ elim (Bool-cases (slt max_plausible_worker_bytes p.worker_bytes)) [
    | inl big ↦ inr (implausible_cost p.name p.worker_bytes, rw (t, big), too_dear big)
    | inr small ↦
        elim (Bool-cases
          (slt max_plausible_children p.floor || slt max_plausible_children p.ceiling)) [
            | inl many ↦
                inr (implausible_count p.name p.floor p.ceiling, rw (t, small, many), too_many many)
            | inr few ↦ inl (
              rw (t, small, few),
              record { costs = t; cheap = small; few = ground arith; capped = ground arith },
            )
          ]
  ]
]

-- Compute's checks return all the pools, each with a positive plausible cost and plausible counts, or
-- the error that says what is wrong with the first pool that has not.
pub check_pools-Checked : (ps : List Pool) → Checked ps (check_pools ps)
unfolding check_pools
check_pools-Checked [] = passed tt
check_pools-Checked (p ∷ ps) = go (check_pool-Checked p) (check_pools-Checked ps)
  where
    go :
        ((check_pool p ≡ ok p) × IsChecked p) ⊎ ((e : Error) × (check_pool p ≡ err e) × IsFault p e)
        → {r : Result Error (List Pool)} → Checked ps r
        → Checked (p ∷ ps) (check_pool p >>= λ q. (r >>= λ qs. ok (q ∷ qs)))
    go (inl (e, c)) (passed cs) = rw e (passed (c, cs))
    go (inl (e, c)) (stopped k q at cs x) = rw e (stopped (suc k) q at (c, cs) x)
    go (inr (x, e, c)) v = rw e (stopped 0 p refl tt c)

-- The rows of checked pools are plausible.
pub rows-IsPlausible :
    (fl : Float)
    → IsIeee fl
    → (o : Options fl) (cpu_cap : ℕ) → 0 < cpu_cap
    → cpu_cap ≤ max_plausible_children
    → 0 < o.default_floor
    → o.default_floor ≤ max_plausible_children
    → (ps : List Pool) → All IsPool ps
    → All IsChecked ps
    → All IsPlausible (map (row_of fl cpu_cap o) ps)
rows-IsPlausible fl ieee o cpu_cap c c' d d' [] v k = tt
rows-IsPlausible fl ieee o cpu_cap c c' d d' (p ∷ ps) v k = (
  row_of-IsPlausible fl ieee p o v.0 cpu_cap c c' d d' k.0.costs k.0.cheap k.0.few,
  rows-IsPlausible fl ieee o cpu_cap c c' d d' ps v.1 k.1,
)

-- A plausible floor costs at most 100,000 times 64 GiB, and so for all floors.
pub floors_bytes-le :
    (rs : List Row) → All IsPlausible rs → floors_bytes rs ≤ length rs * (100_000 * 2 ^ 36)
unfolding sum_where
floors_bytes-le [] v = omega arith
floors_bytes-le (r ∷ rs) v = omega (arith, floors_bytes-le rs v.1, one r v.0)
  where
    one : (r : Row) → IsPlausible r → floor_bytes r ≤ 100_000 * 2 ^ 36
    one r v = let f = v.floor_small in let c = v.cheap in product r.floor r.pool.worker_bytes f c
      where
        product : (n w : ℕ) → n ≤ 100_000 → w ≤ 2 ^ 36 → n * w ≤ 100_000 * 2 ^ 36
        product n w h k = grind arith
