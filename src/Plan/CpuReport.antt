-- ===== src/Plan/CpuReport.antt =====
-- plan/cpu.go: cpuOf, the report of each pool's CPU beside the number that the plan gives it.
pub mod Agrees
use fpm_tune.Common.{
  ℕ, String, Bool, true, false, not, ◌&&◌, ◌||◌, List, [], ◌∷◌, Option, none, some, if◌then◌else◌,
  ◌==◌,
}
use fpm_tune.Common.Word.{add64, mul64, slt}
use fpm_tune.Common.Float.{Float}
use fpm_tune.Common.Map.{lookup, insert, string_eq}
use fpm_tune.State.Types.{PoolState, State, Options}
use fpm_tune.State.Store.{lookup_pool}
use fpm_tune.State.Cpu.{cpu_share, cpu_shape_known}
use fpm_tune.State.CpuLoad.{percent, aggregate_cpu_share}
use fpm_tune.Allocate.Compute.Lines.{PoolPlan}
use fpm_tune.Plan.Types.{Library, PoolView}
use fpm_tune.Plan.Names.{Names, has_name}
use fpm_tune.Plan.Cpu.{
  HostBusy, Shape, BoxCost, Headroom, cpu_shape, fill_workers, box_cost, cpu_ceiling, headroom_for,
  aggregate_fill,
}

pub data Limit : Type 0 where
  by_memory by_cpu : Limit

-- What is known once there is a shape.
pub record ShapeReport (fl : Float) : Type 0 where
  pub shape : Shape
  pub millicores_per_worker : ℕ
  pub box_millicores_per_worker : ℕ
  pub box_measured : Bool
  pub overhead : fl.Num
  pub fill_workers : ℕ
  pub ceiling : ℕ
  pub headroom : fl.Num
  pub headroom_from_pool : Bool
  pub agg_cores : fl.Num
  pub agg_busy : fl.Num
  pub saturation_measured : Bool
  pub limit : Limit

-- A row; without a shape the fields of one are zero.
pub record PoolCpu (fl : Float) : Type 0 where
  pub name : String
  pub current : ℕ
  pub allowed : ℕ
  pub cpu_bound : Bool
  pub p50 : fl.Num
  pub p90 : fl.Num
  pub samples : ℕ
  pub starved_rounds : ℕ
  pub aggregate_based : Bool
  pub shape : Option (ShapeReport fl)

pub record HostCpu : Type 0 where
  pub millicores : ℕ
  pub needed_at_plan : ℕ
  pub needed_now : ℕ

unfoldable pub plans_by_name : List PoolPlan → List (String × PoolPlan) → List (String × PoolPlan)
plans_by_name [] plans = plans
plans_by_name (l ∷ ls) plans = plans_by_name ls (insert l.name l plans)

-- The workers that the plan allows, and whether the CPU held them; nothing of a pool it leaves alone.
unfoldable pub allowed_by : Option PoolPlan → ℕ × Bool
allowed_by none = (0, false)
allowed_by (some l) = if l.unknown then (0, false) else (l.max_children, l.cpu_bound)

abbrev pub at_plan : (allowed current : ℕ) → ℕ
at_plan allowed current = if allowed == 0 then current else allowed

module _ (fl : Float) (lib : Library fl) (opts : Options fl) (host_millicores : ℕ)
    (host_headroom : fl.Num) (busy : HostBusy fl) where
  -- The share that the shape is called by, and whether it is the aggregate; none while there are too
  -- few readings.
  unfoldable pub signal_of : PoolState fl → Option (fl.Num × Bool)
  signal_of ps =
      if cpu_shape_known fl opts ps
      then some (cpu_share fl (percent fl 50) ps, false)
      else elim (aggregate_cpu_share fl opts ps) [ none ↦ none | some share ↦ some (share, true) ]

  -- The fill count of a row, and whether it is measured under saturation.
  unfoldable pub fill_or : (fill : ℕ) → Option (ℕ × Bool) → ℕ × Bool
  fill_or fill none = (fill, false)
  fill_or fill (some measured) = measured

  unfoldable pub fill_of : PoolState fl → (box : ℕ) → (aggregate : Bool) → ℕ × Bool
  unfolding fill_or
  fill_of ps box false = (fill_workers fl box host_millicores, false)
  fill_of ps box true =
      fill_or (fill_workers fl box host_millicores) (aggregate_fill fl ps opts host_millicores busy)

  unfoldable pub limit_of : (cpu_bound : Bool) → (ceiling at_plan : ℕ) → Limit
  limit_of cpu_bound ceiling at_plan =
      if cpu_bound || (slt 0 ceiling && slt ceiling at_plan) then by_cpu else by_memory

  unfoldable pub shape_report :
      PoolView fl
      → PoolState fl
      → (cpu_bound : Bool) → (at_plan : ℕ) → Option (fl.Num × Bool)
      → Option (ShapeReport fl)
  unfolding fill_of limit_of
  shape_report v ps cpu_bound at_plan none = none
  shape_report v ps cpu_bound at_plan (some (share, aggregate)) =
      let (shape, php) = cpu_shape fl share in
      let box = box_cost fl ps opts php in
      let own = headroom_for fl lib v.cpu_headroom host_headroom in
      let (fill, saturated) = fill_of ps box.millicores aggregate in
      let ceiling = cpu_ceiling fl fill host_millicores own.headroom in
      some (record {
        shape = shape;
        millicores_per_worker = php;
        box_millicores_per_worker = box.millicores;
        box_measured = box.measured;
        overhead = box.overhead;
        fill_workers = fill;
        ceiling = ceiling;
        headroom = own.headroom;
        headroom_from_pool = own.from_pool;
        agg_cores = if aggregate then ps.agg_cpu_cores else fl.of_int 0;
        agg_busy = if aggregate then ps.agg_cpu_busy else fl.of_int 0;
        saturation_measured = saturated;
        limit = limit_of cpu_bound ceiling at_plan;
      })

  unfoldable pub share_shown : PoolState fl → Option (fl.Num × Bool) → fl.Num × Bool
  share_shown ps none = (cpu_share fl (percent fl 50) ps, false)
  share_shown ps (some signal) = signal

  -- The row of a view; none where nothing is remembered of a pool that could not be read.
  unfoldable pub cpu_row :
      PoolView fl → Option (PoolState fl) → (allowed : ℕ × Bool) → Option (PoolCpu fl)
  unfolding signal_of shape_report share_shown
  cpu_row v none allowed =
      if v.failed
      then none
      else some (record {
        name = v.name;
        current = v.current_max_children;
        allowed = allowed.0;
        cpu_bound = allowed.1;
        p50 = fl.of_int 0;
        p90 = fl.of_int 0;
        samples = 0;
        starved_rounds = 0;
        aggregate_based = false;
        shape = none;
      })
  cpu_row v (some ps) allowed =
      let signal = signal_of ps in
      let (p50, aggregate) = share_shown ps signal in
      some (record {
        name = v.name;
        current = v.current_max_children;
        allowed = allowed.0;
        cpu_bound = allowed.1;
        p50 = p50;
        p90 = cpu_share fl (percent fl 90) ps;
        samples = ps.cpu_samples;
        starved_rounds = ps.cpu_starved_rounds;
        aggregate_based = aggregate;
        shape = shape_report v ps allowed.1 (at_plan allowed.0 v.current_max_children) signal;
      })

  -- What a row needs of the host.
  unfoldable pub add_need : Option (ShapeReport fl) → (planned current : ℕ) → HostCpu → HostCpu
  add_need none planned current h = h
  add_need (some r) planned current h = record h {
    needed_at_plan = add64 h.needed_at_plan (mul64 planned r.box_millicores_per_worker);
    needed_now = add64 h.needed_now (mul64 current r.box_millicores_per_worker);
  }

  unfoldable pub add_row :
      Option (PoolCpu fl) → List (PoolCpu fl) × HostCpu → List (PoolCpu fl) × HostCpu
  unfolding add_need
  add_row none r = r
  add_row (some row) (rows, h) =
      (row ∷ rows, add_need row.shape (at_plan row.allowed row.current) row.current h)

  -- The loop of cpuOf, from its end: the sums wrap, so that their order does not matter.
  unfoldable pub cpu_rows :
      Names → List (String × PoolPlan) → State fl → List (PoolView fl) → List (PoolCpu fl) × HostCpu
  unfolding cpu_row allowed_by add_row
  cpu_rows dup plans s [] =
      ([], record { millicores = host_millicores; needed_at_plan = 0; needed_now = 0 })
  cpu_rows dup plans s (v ∷ vs) =
      let rest = cpu_rows dup plans s vs in
      if has_name v.name dup
      then rest
      else add_row
          (cpu_row v (lookup_pool v.config_path v.name s) (allowed_by (lookup v.name plans))) rest

  -- `sort_rows` is sort.Slice by name.
  unfoldable pub cpu_of :
      (sort_rows : List (PoolCpu fl) → List (PoolCpu fl))
      → Names
      → List PoolPlan
      → State fl
      → List (PoolView fl)
      → List (PoolCpu fl) × HostCpu
  unfolding cpu_rows plans_by_name
  cpu_of sort_rows dup lines s vs =
      let (rows, host) = cpu_rows dup (plans_by_name lines []) s vs in (sort_rows rows, host)
