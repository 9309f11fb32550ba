-- ===== src/Allocate/Tests.antt =====
-- allocate/allocate.go: runs of the model on concrete hosts, and the theorems applied to them.
use fpm_tune.Common.{
  ℕ, ◌*◌, ◌^◌, ◌≤◌, ◌<◌, ◌≡◌, refl, true, false, List, [], ◌∷◌, map, arith, Result, ok, err, some,
  none, All, ◌-◌, ◌⊎◌,
}
use fpm_tune.Common.Word.{add64, sub64, mul64, div64, slt}
use fpm_tune.Common.Rational.{rational, rational-IsIeee}
use fpm_tune.Allocate.Types.{Budget, Pool, Options, Row, Error, allocatable, defaults}
use fpm_tune.Allocate.Want.{
  cpu_ceiling_of, row_of, pool_floor, pool_want, demand_want, measured_cap,
}
use fpm_tune.Allocate.Compute.{compute, check_pools}
use fpm_tune.Allocate.Rows.{total_where, sum_where, IsPlausible}
use fpm_tune.Allocate.Trim.{trim_to_fit, largest_granted_among, granted_at, worker_bytes_at}
use fpm_tune.Allocate.Floors.{
  allocate_floors, reduce_floors, reduce_all, scale_to_fit, scaled, priciest,
}
use fpm_tune.Allocate.Trim.Fits.{Fits, trim_to_fit-Fits}
use fpm_tune.Allocate.Trim.Scan.{AtMost, IsAt, largest_granted_among-largest}
use fpm_tune.Allocate.Floors.{writable}
use fpm_tune.Allocate.Floors.Outcome.{Outcome, allocate_floors-Outcome}
use fpm_tune.Allocate.Demand.Round.{IsSound}
use fpm_tune.Allocate.Demand.Rest.{Finished, allocate_demand-Finished}
use fpm_tune.Allocate.Demand.Share.{share_of_bounds}
use fpm_tune.Allocate.Spare.Order.{IsOrdered, process_manager-IsOrdered}
use fpm_tune.Allocate.Want.Bounds.{row_of-IsPlausible}
use fpm_tune.Allocate.Compute.Checks.{Checked, check_pools-Checked}
use text.Mathlib.Text.{◌==◌ as str_eq}
use fpm_tune.Allocate.Demand.{Candidate, share_of, allocate_demand}
use fpm_tune.Allocate.Spare.{process_manager}
use fpm_tune.Allocate.Compute.Lines.{
  Plan, PoolPlan, pool_plan, reason, total_bytes, any_unmet, cheapest_unmet,
}
use fpm_tune.Allocate.Compute.Correct.{Answer, IsHost, compute-Answer}

abbrev gib : ℕ
gib = 2 ^ 30

abbrev options : Options rational
options = record {
  headroom_factor = (0, 1);
  growth_factor = (0, 1);
  default_floor = 0;
  max_workers_per_cpu = 0;
  start_servers_ratio = (0, 1);
  spare_min_ratio = (0, 1);
  spare_max_ratio = (0, 1);
}

abbrev host : Budget
host = record { total_bytes = 4 * gib; cpus = 4; reserve_bytes = gib }

-- A pool whose requests wait, and a quiet one whose configuration could not be read.
abbrev busy : Pool
busy = record {
  name = "shop";
  current_max_children = 10;
  process_manager = "dynamic";
  worker_bytes = 100 * 2 ^ 20;
  child_bytes = 0;
  measured = true;
  reducible = true;
  observed_peak = 30;
  queue_depth = 3;
  hit_max_children = true;
  floor = 10;
  ceiling = 0;
  cpu_ceiling = 0;
  unknown = false;
}

abbrev quiet : Pool
quiet = record {
  name = "blog";
  current_max_children = 8;
  process_manager = "ondemand";
  worker_bytes = 50 * 2 ^ 20;
  child_bytes = 0;
  measured = false;
  reducible = false;
  observed_peak = 2;
  queue_depth = 0;
  hit_max_children = false;
  floor = 8;
  ceiling = 0;
  cpu_ceiling = 0;
  unknown = true;
}

abbrev pools : List Pool
pools = busy ∷ quiet ∷ []

abbrev summary : Result Error Plan → List (ℕ × ℕ)
summary (ok p) = map (λ (l : PoolPlan). (l.max_children, l.want)) p.pools
summary (err e) = []

-- Compute on exact fractions, with all of it unfolded.
run : Budget → List Pool → Result Error Plan
unfolding compute allocate_floors reduce_floors reduce_all scale_to_fit scaled trim_to_fit priciest
    allocate_demand row_of cpu_ceiling_of pool_floor pool_want demand_want measured_cap defaults
    allocatable process_manager pool_plan reason total_bytes any_unmet cheapest_unmet total_where
    add64 sub64 mul64 div64 slt granted_at worker_bytes_at
run b ps = compute rational b ps options

run_two : summary (run host pools) ≡ (26, 45) ∷ (8, 8) ∷ []
unfolding run
run_two = refl

-- Where the core count is not known nothing bounds a want, and the product of a count and a cost
-- wraps: two thousand million workers of 8 GiB are booked as 16 GiB.
abbrev unbounded : Budget
unbounded = record { total_bytes = 1024 * gib; cpus = 0; reserve_bytes = 0 }

abbrev wrapping : Pool
wrapping = record quiet {
  worker_bytes = 8 * gib;
  observed_peak = 1_717_986_920;
  queue_depth = 1;
  floor = 2;
  unknown = false;
}

abbrev booked : Result Error Plan → ℕ
booked (ok p) = p.allocated_bytes
booked (err e) = 0

wrapping_plan :
    (summary (run unbounded (wrapping ∷ [])) ≡ (2_147_483_650, 2_147_483_650) ∷ [])
    × (booked (run unbounded (wrapping ∷ [])) ≡ 16 * gib)
unfolding run
wrapping_plan = (refl, refl)

host_lem : IsHost rational host pools options
unfolding cpu_ceiling_of defaults slt mul64
host_lem = record {
  total_small = omega arith;
  reserve_word = omega arith;
  cpu_known = omega arith;
  cpu_plausible = omega arith;
  floor_plausible = omega arith;
  few = omega arith;
  words = omega arith;
}

compute-Answer_example :
    Answer rational host (defaults rational options) pools (compute rational host pools options)
compute-Answer_example = compute-Answer rational rational-IsIeee host options pools host_lem

abbrev busy_row : Row
busy_row = record {
  pool = busy;
  floor = 10;
  want = 45;
  memory_want = 45;
  cpu_bound = false;
  granted = 10;
}

abbrev quiet_row : Row
quiet_row = record {
  pool = quiet;
  floor = 8;
  want = 8;
  memory_want = 8;
  cpu_bound = false;
  granted = 8;
}

abbrev rows : List Row
rows = busy_row ∷ quiet_row ∷ []

-- 700 MiB hold the eight workers that cannot be cut, and three of the ten others.
allocate_floors-Outcome_example :
    Outcome rows (700 * 2 ^ 20) (allocate_floors rational rows (700 * 2 ^ 20))
unfolding sum_where
allocate_floors-Outcome_example =
    allocate_floors-Outcome rational rational-IsIeee rows (700 * 2 ^ 20) (omega arith) (omega arith)
      (omega arith)

rows-IsSound : IsSound (3 * gib) rows (3 * gib - 1400 * 2 ^ 20)
unfolding sum_where
rows-IsSound = record { exact = omega arith; granted = ground arith }

allocate_demand-Finished_example :
    Finished (3 * gib) rows (allocate_demand rational rows (3 * gib - 1400 * 2 ^ 20))
allocate_demand-Finished_example =
    allocate_demand-Finished rational rational-IsIeee (3 * gib) (omega arith) rows
      (3 * gib - 1400 * 2 ^ 20) (omega arith) rows-IsSound

trim_to_fit-Fits_example :
    Fits writable (700 * 2 ^ 20) rows (trim_to_fit writable (700 * 2 ^ 20) rows (1400 * 2 ^ 20))
unfolding sum_where
trim_to_fit-Fits_example =
    trim_to_fit-Fits writable (700 * 2 ^ 20) rows (1400 * 2 ^ 20) (omega arith) (omega arith)
      (omega arith) (omega arith) (ground arith)

process_manager-IsOrdered_example :
    (str_eq "dynamic" "dynamic" ≡ true
      → IsOrdered 26 (process_manager rational "dynamic" 26 options))
    × (str_eq "dynamic" "dynamic" ≡ false
        → process_manager rational "dynamic" 26 options
          ≡ record { start_servers = 0; min_spare = 0; max_spare = 0 })
process_manager-IsOrdered_example =
    process_manager-IsOrdered rational rational-IsIeee "dynamic" 26 options (omega arith)
      (omega arith)

largest_granted_among-largest_example :
    (m : ℕ) × All (AtMost writable m) rows
    × (((largest_granted_among writable rows ≡ none) × (m ≡ 0))
        ⊎ ((j : ℕ) × (largest_granted_among writable rows ≡ some j) × IsAt writable m rows j))
largest_granted_among-largest_example = largest_granted_among-largest writable rows (omega arith)

abbrev shop_candidate : Candidate
shop_candidate = record { i = 0; gap = 35; urgent = true }

share_of_bounds_example :
    (share_of rational (2 * gib) 35 gib (100 * 2 ^ 20) shop_candidate ≤ 35)
    × (share_of rational (2 * gib) 35 gib (100 * 2 ^ 20) shop_candidate * (100 * 2 ^ 20) ≤ gib)
    × (100 * 2 ^ 20 ≤ gib → 0 < share_of rational (2 * gib) 35 gib (100 * 2 ^ 20) shop_candidate)
share_of_bounds_example =
    share_of_bounds rational rational-IsIeee (2 * gib) 35 gib (100 * 2 ^ 20) shop_candidate
      (omega arith) (omega arith) (omega arith) (omega arith) (omega arith)

row_of-IsPlausible_example : IsPlausible (row_of rational 200 (defaults rational options) busy)
unfolding slt defaults
row_of-IsPlausible_example =
    row_of-IsPlausible rational rational-IsIeee busy (defaults rational options) (omega arith) 200
      (omega arith) (omega arith) (omega arith) (omega arith) refl refl refl

check_pools-Checked_example : Checked pools (check_pools pools)
check_pools-Checked_example = check_pools-Checked pools
