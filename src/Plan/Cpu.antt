-- ===== src/Plan/Cpu.antt =====
-- plan/cpu.go: how many workers of a pool fill the CPU, and the ceiling that follows.
pub mod Ceiling
use text.Mathlib.Text.{◌==◌ as str_eq}
use fpm_tune.Common.{
  ℕ, String, Bool, true, false, not, ◌&&◌, ◌||◌, Option, none, some, if◌then◌else◌,
}
use fpm_tune.Common.Word.{add64, div64, slt, sle}
use fpm_tune.Common.Float.{Float}
use fpm_tune.State.Types.{PoolState, Options}
use fpm_tune.State.Cpu.{cpu_share, cpu_shape_known}
use fpm_tune.State.CpuLoad.{
  percent, box_overhead, aggregate_cpu_share, aggregate_cpu_cores, is_saturated,
}
use fpm_tune.State.Sizing.{trusted}
use fpm_tune.Plan.Types.{Library}

pub data Shape : Type 0 where
  unknown cpu_bound mixed io_bound : Shape

abbrev pub max_cpu_headroom : ℕ
max_cpu_headroom = 100

-- The busy fraction of the box, where it could be read.
abbrev pub HostBusy : Float → Type 0
HostBusy fl = Option fl.Num

-- One worker for each core, and one.
unfoldable pub least_ceiling : (host_millicores : ℕ) → ℕ
least_ceiling host_millicores = add64 (div64 (add64 host_millicores 999) 1000) 1

module _ (fl : Float) where
  open fl use {Num, of_int, trunc, mul, div, flt, fle}

  abbrev pub is_nan : Num → Bool
  is_nan v = not (fle v v)

  unfoldable pub shape_of : (p50 : Num) → Shape
  shape_of p50 =
      if fle (percent fl 50) p50
      then cpu_bound
      else (if fle (percent fl 20) p50 then mixed else io_bound)

  -- cpuShape
  unfoldable pub cpu_shape : (p50 : Num) → Shape × ℕ
  unfolding shape_of
  cpu_shape p50 = (shape_of p50, trunc (fl.round (mul p50 (of_int 1000))))

  unfoldable pub fill_workers : (per_worker host_millicores : ℕ) → ℕ
  fill_workers per_worker host_millicores =
      if sle host_millicores 0 || sle per_worker 0
      then 0
      else trunc (fl.ceil (div (of_int host_millicores) (of_int per_worker)))

  unfoldable pub headroom_in_range : Num → Bool
  headroom_in_range v = fle (of_int 1) v && fle v (of_int max_cpu_headroom)

  pub record Headroom : Type 0 where
    pub headroom : Num
    pub from_pool : Bool
    pub readable : Bool

  unfoldable pub parsed_headroom : (host : Num) → Option Num → Headroom
  unfolding headroom_in_range
  parsed_headroom host none = record { headroom = host; from_pool = false; readable = false }
  parsed_headroom host (some v) =
      if headroom_in_range v
      then record { headroom = v; from_pool = true; readable = true }
      else record { headroom = host; from_pool = false; readable = false }

  unfoldable pub headroom_for : Library fl → (marker : String) → (host : Num) → Headroom
  unfolding parsed_headroom
  headroom_for lib marker host =
      let text = lib.trim marker in
      if str_eq text ""
      then record { headroom = host; from_pool = false; readable = true }
      else parsed_headroom host (lib.parse_float text)

  -- DefaultCPUHeadroom is 2.
  unfoldable pub host_headroom : Num → Num
  host_headroom v =
      if fle v (of_int 0) || is_nan v
      then of_int 2
      else (if flt v (of_int 1)
          then of_int 1
          else (if flt (of_int max_cpu_headroom) v then of_int max_cpu_headroom else v))

  -- math.Min(math.Max(h, 1), MaxCPUHeadroom), which is NaN of NaN.
  unfoldable pub clamped : Num → Num
  clamped h =
      if is_nan h
      then h
      else (if flt h (of_int 1)
          then of_int 1
          else (if flt (of_int max_cpu_headroom) h then of_int max_cpu_headroom else h))

  unfoldable pub cpu_ceiling : (fill host_millicores : ℕ) → (headroom : Num) → ℕ
  unfolding clamped least_ceiling
  cpu_ceiling fill host_millicores headroom =
      let ceiling = trunc (fl.ceil (mul (of_int fill) (clamped headroom))) in
      let floor = least_ceiling host_millicores in
      if sle fill 0 then 0 else (if slt ceiling floor then floor else ceiling)

  pub record BoxCost : Type 0 where
    pub millicores : ℕ
    pub overhead : Num
    pub measured : Bool

  unfoldable pub box_cost_of : (php_millicores : ℕ) → Option Num → BoxCost
  box_cost_of php none = record { millicores = php; overhead = of_int 0; measured = false }
  box_cost_of php (some a) = record {
    millicores = trunc (fl.round (mul (of_int php) a));
    overhead = a;
    measured = true;
  }

  -- boxCost
  unfoldable pub box_cost : PoolState fl → Options fl → (php_millicores : ℕ) → BoxCost
  unfolding box_cost_of
  box_cost ps opts php = box_cost_of php (box_overhead fl opts ps)

  unfoldable pub saturated_host : HostBusy fl → Bool
  saturated_host none = false
  saturated_host (some busy) = is_saturated fl busy

  -- The cores of a pool that drives a meaningful part of the box; 0.35 is 35/100.
  unfoldable pub driven_cores : (host_millicores : ℕ) → Option Num → Option Num
  driven_cores host_millicores none = none
  driven_cores host_millicores (some cores) =
      if fle (div (mul (percent fl 35) (of_int host_millicores)) (of_int 1000)) cores
      then some cores
      else none

  -- The fill count and whether it is of the saturated kind.
  unfoldable pub fill_by : PoolState fl → Options fl → ℕ → (share : Num) → Option Num → ℕ × Bool
  fill_by ps opts host_millicores share (some cores) = (trunc (fl.ceil cores), true)
  fill_by ps opts host_millicores share none =
      (fill_workers (box_cost ps opts (cpu_shape share).1).millicores host_millicores, false)

  unfoldable pub fill_from :
      PoolState fl → Options fl → ℕ → HostBusy fl → (share : Option Num) → Option (ℕ × Bool)
  unfolding saturated_host driven_cores fill_by
  fill_from ps opts host_millicores busy none = none
  fill_from ps opts host_millicores busy (some share) = some (
      fill_by ps opts host_millicores share (
        if saturated_host busy
        then driven_cores host_millicores (aggregate_cpu_cores fl opts ps)
        else none))

  unfoldable pub aggregate_fill : PoolState fl → Options fl → ℕ → HostBusy fl → Option (ℕ × Bool)
  unfolding fill_from
  aggregate_fill ps opts host_millicores busy =
      fill_from ps opts host_millicores busy (aggregate_cpu_share fl opts ps)

  unfoldable pub ceiling_from : Option (ℕ × Bool) → ℕ → Num → ℕ
  ceiling_from none host_millicores headroom = 0
  ceiling_from (some fill) host_millicores headroom = cpu_ceiling fill.0 host_millicores headroom

  unfoldable pub cpu_ceiling_for :
      Option (PoolState fl) → Options fl → ℕ → (headroom : Num) → HostBusy fl → ℕ
  unfolding ceiling_from
  cpu_ceiling_for none opts host_millicores headroom busy = 0
  cpu_ceiling_for (some ps) opts host_millicores headroom busy =
      let php = (cpu_shape (cpu_share fl (percent fl 50) ps)).1 in
      let box = (box_cost ps opts php).millicores in
      if not (trusted opts ps)
      then 0
      else (if cpu_shape_known fl opts ps
          then cpu_ceiling (fill_workers box host_millicores) host_millicores headroom
          else ceiling_from (aggregate_fill ps opts host_millicores busy) host_millicores headroom)
