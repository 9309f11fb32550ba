-- ===== src/Allocate/Types.antt =====
-- allocate/allocate.go: the budget, a pool, the options, a plan, and the errors.
use fpm_tune.Common.{ℕ, ◌*◌, ◌^◌, String, Bool, if◌then◌else◌}
use fpm_tune.Common.Word.{sub64, slt, sle}
use fpm_tune.Common.Float.{Float}

pub record Budget : Type 0 where
  pub total_bytes : ℕ
  pub cpus : ℕ
  pub reserve_bytes : ℕ

-- Budget.Allocatable: a negative reserve counts as none.
unfoldable pub allocatable : Budget → ℕ
allocatable b =
    let reserve = if slt b.reserve_bytes 0 then 0 else b.reserve_bytes in
    let free = sub64 b.total_bytes reserve in if slt free 0 then 0 else free

pub record Pool : Type 0 where
  pub name : String
  pub current_max_children : ℕ
  pub process_manager : String
  pub worker_bytes : ℕ
  pub child_bytes : ℕ
  pub measured : Bool
  pub reducible : Bool
  pub observed_peak : ℕ
  pub queue_depth : ℕ
  pub hit_max_children : Bool
  -- `floor` and `ceiling` are zero where the pool sets none.
  pub floor : ℕ
  pub ceiling : ℕ
  pub cpu_ceiling : ℕ
  pub unknown : Bool

abbrev pub max_plausible_children : ℕ
max_plausible_children = 100_000

abbrev pub max_plausible_worker_bytes : ℕ
max_plausible_worker_bytes = 64 * 2 ^ 30

-- What Compute returns in place of a plan. The last is the model's own: a loop's fuel ran out.
pub data Error : Type 0 where
  no_budget : (total reserve : ℕ) → Error
  no_worker_cost : String → Error
  implausible_cost : String → ℕ → Error
  implausible_count : String → (floor ceiling : ℕ) → Error
  cannot_fit_minimum : (pools minimum available : ℕ) → String → (cost : ℕ) → Error
  cannot_fit_reduced : (used available : ℕ) → Error
  cannot_fit_unwritable : (unwritable writable available : ℕ) → Error
  cannot_fit_writable : (used available : ℕ) → Error
  overcommitted : (allocated available : ℕ) → Error
  out_of_fuel : Error

pub data Warning : Type 0 where
  reduced_trusted : (need available : ℕ) → Warning
  reduced_all : (pools need available : ℕ) → Warning

-- One line of the parallel slices that Compute indexes by pool: the pool with its floor, its want,
-- its want before the measured CPU ceiling, whether that ceiling bound, and what it is granted.
pub record Row : Type 0 where
  pub pool : Pool
  pub floor : ℕ
  pub want : ℕ
  pub memory_want : ℕ
  pub cpu_bound : Bool
  pub granted : ℕ

-- The constants 1.25, 1.5 and so on are quotients of integers, which round to the same float.
pub record Options (fl : Float) : Type 0 where
  pub headroom_factor : fl.Num
  pub growth_factor : fl.Num
  pub default_floor : ℕ
  pub max_workers_per_cpu : ℕ
  pub start_servers_ratio : fl.Num
  pub spare_min_ratio : fl.Num
  pub spare_max_ratio : fl.Num

module _ (fl : Float) where
  open fl use {Num, of_int, div, fle}

  -- `if x <= 0 { x = num/den }`
  unfoldable pub or_ratio : Num → ℕ → ℕ → Num
  or_ratio x num den = if fle x (of_int 0) then div (of_int num) (of_int den) else x

  unfoldable pub or_count : ℕ → ℕ → ℕ
  or_count n d = if sle n 0 then d else n

  -- Options.Defaults
  unfoldable pub defaults : Options fl → Options fl
  unfolding or_ratio or_count
  defaults o = record {
    headroom_factor = or_ratio o.headroom_factor 125 100;
    growth_factor = or_ratio o.growth_factor 15 10;
    default_floor = or_count o.default_floor 2;
    max_workers_per_cpu = or_count o.max_workers_per_cpu 50;
    start_servers_ratio = or_ratio o.start_servers_ratio 25 100;
    spare_min_ratio = or_ratio o.spare_min_ratio 10 100;
    spare_max_ratio = or_ratio o.spare_max_ratio 50 100;
  }
