-- ===== src/Plan/Workload.antt =====
-- plan/workload.go: what a pool's workers spawn, declared or measured.
use text.Mathlib.Text.{◌==◌ as str_eq}
use fpm_tune.Common.{
  ℕ, ◌*◌, ◌^◌, String, Bool, true, false, List, [], ◌∷◌, Option, none, some, if◌then◌else◌,
}
use fpm_tune.Common.Word.{slt}
use fpm_tune.Common.Float.{Float}
use fpm_tune.Common.Map.{lookup, string_eq}
use fpm_tune.State.Types.{PoolState, State}
use fpm_tune.State.Store.{lookup_pool}
use fpm_tune.Plan.Types.{Library, PoolView}

pub record Workload (fl : Float) : Type 0 where
  pub name : String
  pub child_bytes : ℕ
  pub concurrent_fraction : fl.Num

unfoldable pub child_bytes_of : {fl : Float} → Option (PoolState fl) → ℕ
child_bytes_of none = 0
child_bytes_of (some ps) = ps.child_per_worker_high_water_bytes

unfoldable pub measured_child_per_worker : {fl : Float} → State fl → PoolView fl → ℕ
unfolding child_bytes_of
measured_child_per_worker s v = child_bytes_of (lookup_pool v.config_path v.name s)

module _ (fl : Float) where
  open fl use {of_int, div}

  unfoldable pub workload_web : Workload fl
  workload_web = record { name = "web"; child_bytes = 0; concurrent_fraction = of_int 0 }

  unfoldable pub workload_bursty : Workload fl
  workload_bursty = record {
    name = "bursty";
    child_bytes = 256 * 2 ^ 20;
    concurrent_fraction = div (of_int 25) (of_int 100);
  }

  unfoldable pub workload_subprocess_heavy : Workload fl
  workload_subprocess_heavy = record {
    name = "subprocess-heavy";
    child_bytes = 512 * 2 ^ 20;
    concurrent_fraction = of_int 1;
  }

  unfoldable pub workloads_by_name : List (String × Workload fl)
  workloads_by_name =
      ("web", workload_web)
      ∷ ("api", workload_web)
      ∷ ("simple", workload_web)
      ∷ ("bursty", workload_bursty)
      ∷ ("subprocess-heavy", workload_subprocess_heavy)
      ∷ ("subprocess", workload_subprocess_heavy)
      ∷ ("media", workload_subprocess_heavy)
      ∷ ("children", workload_subprocess_heavy)
      ∷ []

  unfoldable pub named : (fallback : Workload fl) → Option (Workload fl) → Workload fl × Bool
  named fallback none = (fallback, false)
  named fallback (some w) = (w, true)

  -- The class of a marker, and whether the marker was one.
  unfoldable pub workload_by_name : Library fl → String → Workload fl → Workload fl × Bool
  unfolding named
  workload_by_name lib name fallback =
      if str_eq name ""
      then (fallback, true)
      else named fallback (lookup (lib.to_lower (lib.trim name)) workloads_by_name)

  unfoldable pub child_cost_per_worker : Workload fl → (measured_per_worker : ℕ) → ℕ
  child_cost_per_worker w measured_per_worker =
      let bootstrap = fl.trunc (fl.mul (of_int w.child_bytes) w.concurrent_fraction) in
      if slt bootstrap measured_per_worker then measured_per_worker else bootstrap
