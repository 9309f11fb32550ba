-- ===== src/Plan/Types.antt =====
-- observe/observe.go: what a scrape says of a pool, and plan/plan.go: what a plan is made from.
use fpm_tune.Common.{ℕ, ◌*◌, ◌^◌, String, Bool, List, Option}
use fpm_tune.Common.Word.{slt, mul64}
use fpm_tune.Common.Float.{Float}
use fpm_tune.State.Types.{WorkerSample, Observation}
use fpm_tune.Budget.Limits.{Limits}
use fpm_tune.Common.{if◌then◌else◌}

-- What the package uses of Go's library: strings.TrimSpace, strings.ToLower, strconv.ParseFloat,
-- sort.Strings, math.Log2 and math.Exp2, and the quoted form of %q.
pub record Library (fl : Float) : Type 0 where
  pub trim : String → String
  pub to_lower : String → String
  pub quote : String → String
  pub parse_float : String → Option fl.Num
  pub sort_strings : List String → List String
  pub log2 : fl.Num → fl.Num
  pub exp2 : fl.Num → fl.Num

-- Of the target only the path of its configuration; `failed` where Err is set.
pub record PoolView (fl : Float) : Type 0 where
  pub name : String
  pub config_path : String
  pub workload : String
  pub cpu_headroom : String
  pub current_max_children : ℕ
  pub max_children_known : Bool
  pub process_manager : String
  pub observed_peak : ℕ
  pub active_now : ℕ
  pub accepted : ℕ
  pub queue_depth : ℕ
  pub max_children_reached : ℕ
  pub workers : List (WorkerSample fl)
  pub failed : Bool

-- PoolView.Observation, with the time and the master that LearnFrom and LearnCPULoad put in.
unfoldable pub observation : {fl : Float} → (at : ℕ) → PoolView fl → Observation fl
observation at v = record {
  pool = v.name;
  workers = v.workers;
  active_now = v.active_now;
  accepted = v.accepted;
  queue_depth = v.queue_depth;
  at = at;
  master_config = v.config_path;
}

pub record Profile (fl : Float) : Type 0 where
  pub name : String
  pub worker_bytes : ℕ
  pub reserve_fraction : fl.Num
  pub reserve_floor_bytes : ℕ

-- 0.15 is 15/100.
unfoldable pub default_profile : (fl : Float) → Profile fl
default_profile fl = record {
  name = "default";
  worker_bytes = 48 * 2 ^ 20;
  reserve_fraction = fl.div (fl.of_int 15) (fl.of_int 100);
  reserve_floor_bytes = 256 * 2 ^ 20;
}

-- Limits.Millicores
unfoldable pub host_millicores : {Err : Type 0} → Limits Err → ℕ
host_millicores l = if slt 0 l.cpu_millicores then l.cpu_millicores else mul64 l.cpus 1000
