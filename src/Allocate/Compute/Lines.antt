-- ===== src/Allocate/Compute/Lines.antt =====
-- allocate/allocate.go: a pool's line in the plan, its reason, and the totals over the lines.
use fpm_tune.Common.{
  ℕ, Bool, true, not, ◌&&◌, ◌||◌, String, List, [], ◌∷◌, if◌then◌else◌, ◌==◌, Option, none, some,
}
use fpm_tune.Common.Word.{add64, sub64, mul64, slt, sle}
use fpm_tune.Common.Float.{Float}
use fpm_tune.Allocate.Types.{Pool, Options, Row, Warning}
use fpm_tune.Allocate.Rows.{granted_cost}
use fpm_tune.Allocate.Spare.{process_manager}

-- The cost of a worker, as a reason prints it: where it comes from, its own part, its children's.
pub record Cost : Type 0 where
  pub measured : Bool
  pub own_bytes : ℕ
  pub child_bytes : Option ℕ

unfoldable pub cost_of : Pool → Cost
cost_of p = record {
  measured = p.measured;
  own_bytes = sub64 p.worker_bytes p.child_bytes;
  child_bytes = if slt 0 p.child_bytes then some p.child_bytes else none;
}

-- One constructor for each sentence that `reason` can print, with the values in it.
pub data Reason : Type 0 where
  left_alone : Reason
  cut_below : (granted floor : ℕ) → Cost → Reason
  held_oversubscribed : (granted : ℕ) → Cost → Reason
  budget_allows : (want granted : ℕ) → Cost → Reason
  held_by_cpu : (granted memory_want : ℕ) → Cost → Reason
  grown_from_ceiling : (granted : ℕ) → Cost → Reason
  raised : (peak granted : ℕ) → Cost → Reason
  enough : (peak granted : ℕ) → Cost → Reason
  not_watched : (peak granted : ℕ) → Cost → Reason
  unchanged : (granted : ℕ) → Cost → Reason

unfoldable pub reason : (exhausted cpu_bound : Bool) → Row → Reason
unfolding cost_of
reason exhausted cpu_bound r =
    let p = r.pool in
    let c = cost_of p in
    if p.unknown
    then left_alone
    else (if exhausted && slt r.granted r.floor
        then cut_below r.granted r.floor c
        else (if exhausted
            then held_oversubscribed r.granted c
            else (if slt r.granted r.want
                then budget_allows r.want r.granted c
                else (if cpu_bound
                    then held_by_cpu r.granted r.memory_want c
                    else (if p.hit_max_children
                        then grown_from_ceiling r.granted c
                        else (if slt p.current_max_children r.granted
                            then raised p.observed_peak r.granted c
                            else (if slt r.granted p.current_max_children
                                then enough p.observed_peak r.granted c
                                else (if (not p.reducible && r.granted == p.current_max_children)
                                      && slt (mul64 p.observed_peak 2) r.granted
                                    then not_watched p.observed_peak r.granted c
                                    else unchanged r.granted c))))))))

pub record PoolPlan : Type 0 where
  pub name : String
  pub max_children : ℕ
  pub current : ℕ
  pub start_servers : ℕ
  pub min_spare : ℕ
  pub max_spare : ℕ
  pub bytes : ℕ
  pub worker_bytes : ℕ
  pub child_bytes : ℕ
  pub want : ℕ
  pub memory_want : ℕ
  pub demand_unmet : Bool
  pub cpu_bound : Bool
  pub measured : Bool
  pub unknown : Bool
  pub reason : Reason

pub record Plan : Type 0 where
  pub pools : List PoolPlan
  pub total_bytes : ℕ
  pub reserve_bytes : ℕ
  pub allocated_bytes : ℕ
  pub free_bytes : ℕ
  pub capacity_exhausted : Bool
  pub shortfall_bytes : ℕ
  pub warnings : List Warning

-- The body of Compute's last loop.
unfoldable pub pool_plan : (fl : Float) → Options fl → (exhausted : Bool) → Row → PoolPlan
pool_plan fl o exhausted r =
    let p = r.pool in
    let bound = r.cpu_bound && sle r.want r.granted in
    let spares = process_manager fl p.process_manager r.granted o in
    record {
      name = p.name;
      max_children = r.granted;
      current = p.current_max_children;
      start_servers = spares.start_servers;
      min_spare = spares.min_spare;
      max_spare = spares.max_spare;
      bytes = granted_cost r;
      worker_bytes = p.worker_bytes;
      child_bytes = p.child_bytes;
      want = r.want;
      memory_want = r.memory_want;
      demand_unmet = slt r.granted r.want;
      cpu_bound = bound;
      measured = p.measured;
      unknown = p.unknown;
      reason = reason exhausted bound r;
    }

unfoldable pub total_bytes : ℕ → List PoolPlan → ℕ
total_bytes acc [] = acc
total_bytes acc (p ∷ ps) = total_bytes (add64 acc p.bytes) ps

unfoldable pub any_unmet : Bool → List PoolPlan → Bool
any_unmet unmet [] = unmet
any_unmet unmet (p ∷ ps) = any_unmet (if p.demand_unmet then true else unmet) ps

-- Zero means that none is found yet.
unfoldable pub cheapest_unmet : ℕ → List Row → ℕ
cheapest_unmet cheapest [] = cheapest
cheapest_unmet cheapest (r ∷ rs) =
    let better = slt r.granted r.want && (cheapest == 0 || slt r.pool.worker_bytes cheapest) in
    cheapest_unmet (if better then r.pool.worker_bytes else cheapest) rs
