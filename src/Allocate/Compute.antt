-- ===== src/Allocate/Compute.antt =====
-- allocate/allocate.go: Compute, reason, cheapestUnmet and the plan.
pub mod Lines
pub mod Checks
pub mod Reason
pub mod Reserved
pub mod Correct
use fpm_tune.Common.{
  ℕ, zero, suc, ◌≡◌, Bool, true, false, not, ◌&&◌, ◌||◌, String, List, [], ◌∷◌, map, if◌then◌else◌,
  Result, ok, err, ◌>>=◌, ◌==◌,
}
use fpm_tune.Common.Word.{add64, sub64, mul64, slt, sle}
use fpm_tune.Common.Float.{Float}
use fpm_tune.Allocate.Types.{
  Budget, Pool, Options, Row, Error, Warning, allocatable, defaults, max_plausible_children,
  max_plausible_worker_bytes, no_budget, no_worker_cost, implausible_cost, implausible_count,
  overcommitted,
}
use fpm_tune.Allocate.Floors.{Floors, allocate_floors}
use fpm_tune.Allocate.Demand.{Demand, allocate_demand}
use fpm_tune.Allocate.Want.{cpu_ceiling_of, row_of}
use fpm_tune.Allocate.Compute.Lines.{
  PoolPlan, Plan, pool_plan, any_unmet, cheapest_unmet, total_bytes,
}

-- The checks of one pool, in their order.
unfoldable pub check_pool : Pool → Result Error Pool
check_pool p =
    if sle p.worker_bytes 0
    then err (no_worker_cost p.name)
    else (if slt max_plausible_worker_bytes p.worker_bytes
        then err (implausible_cost p.name p.worker_bytes)
        else (if slt max_plausible_children p.floor || slt max_plausible_children p.ceiling
            then err (implausible_count p.name p.floor p.ceiling)
            else ok p))

-- The first pool that fails a check decides.
unfoldable pub check_pools : List Pool → Result Error (List Pool)
unfolding check_pool
check_pools [] = ok []
check_pools (p ∷ ps) = check_pool p >>= λ q. (check_pools ps >>= λ qs. ok (q ∷ qs))

module _ (fl : Float) where
  -- The part of Compute behind the demand pass: the plans, their total, and the check of it.
  unfoldable pub finish :
      Budget → (available : ℕ) → Options fl → Floors → Demand → Result Error Plan
  finish budget available o f d =
      let plans = map (pool_plan fl o f.exhausted) d.rows in
      let allocated = total_bytes 0 plans in
      if slt allocated 0 || slt available allocated
      then err (overcommitted allocated available)
      else ok (record {
        pools = plans;
        total_bytes = budget.total_bytes;
        reserve_bytes = budget.reserve_bytes;
        allocated_bytes = allocated;
        free_bytes = sub64 available allocated;
        capacity_exhausted = any_unmet false plans;
        shortfall_bytes = cheapest_unmet 0 d.rows;
        warnings = f.warnings;
      })

  -- The passes over pools that passed the checks.
  unfoldable pub divide : Budget → (available : ℕ) → Options fl → List Pool → Result Error Plan
  unfolding finish
  divide budget available o pools =
      allocate_floors fl (map (row_of fl (cpu_ceiling_of fl budget o) o) pools) available >>= λ f.
      (allocate_demand fl f.rows f.remaining >>= finish budget available o f)

  unfoldable pub empty_plan : Budget → ℕ → Plan
  empty_plan budget available = record {
    pools = [];
    total_bytes = budget.total_bytes;
    reserve_bytes = budget.reserve_bytes;
    allocated_bytes = 0;
    free_bytes = available;
    capacity_exhausted = false;
    shortfall_bytes = 0;
    warnings = [];
  }

  unfoldable pub compute : Budget → List Pool → Options fl → Result Error Plan
  unfolding divide empty_plan check_pools
  compute budget pools opts =
      let available = allocatable budget in
      if sle available 0
      then err (no_budget budget.total_bytes budget.reserve_bytes)
      else elim pools [
        | [] ↦ ok (empty_plan budget available)
        | p ∷ ps ↦ check_pools (p ∷ ps) >>= divide budget available (defaults fl opts)
      ]
