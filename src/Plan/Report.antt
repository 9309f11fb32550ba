-- ===== src/Plan/Report.antt =====
-- plan/plan.go and plan/advice.go: what Build says of a plan beside it.
use text.Mathlib.Text.{◌==◌ as str_eq}
use fpm_tune.Common.{
  ℕ, ◌*◌, ◌^◌, String, Bool, not, ◌&&◌, ◌||◌, List, [], ◌∷◌, ◌++◌, Option, none, some,
  if◌then◌else◌, ◌==◌, Result, ok, ◌>>=◌,
}
use fpm_tune.Common.Word.{add64, sub64, mul64, slt, sle}
use fpm_tune.Common.Float.{Float}
use fpm_tune.Common.Map.{lookup, string_eq}
use fpm_tune.State.Types.{PoolState, State, learn_defaults}
use fpm_tune.State.Store.{lookup_pool, lookup_scoped}
use fpm_tune.State.Histogram.{percentile}
use fpm_tune.State.CpuLoad.{percent}
use fpm_tune.Allocate.Compute.Lines.{PoolPlan}
use fpm_tune.Plan.Types.{Library, PoolView, host_millicores}
use fpm_tune.Plan.Names.{Names, has_name, ambiguous_names, masters_of}
use fpm_tune.Plan.Cpu.{host_headroom}
use fpm_tune.Plan.Build.{Input, Outlook, Built, build}
use fpm_tune.Allocate.Types.{Error}
use fpm_tune.Plan.CpuReport.{PoolCpu, HostCpu, plans_by_name, cpu_of}

pub record PoolDistribution : Type 0 where
  pub name : String
  pub p50 : ℕ
  pub p95 : ℕ
  pub p99 : ℕ
  pub worst_seen : ℕ
  pub samples : ℕ
  pub subtree_high_water : ℕ
  pub child_per_worker : ℕ

-- staticReclaimFloor
abbrev pub static_reclaim_floor : ℕ
static_reclaim_floor = 256 * 2 ^ 20

-- Why another mode is suggested, with the numbers of the sentence.
pub data Why : Type 0 where
  idle_workers : (current peak idle reclaim : ℕ) → Why
  queuing : (waiting : ℕ) → Why
  unserved_demand : Why

-- The mode that is suggested is always dynamic.
pub record ModeAdvice : Type 0 where
  pub pool : String
  pub from : String
  pub why : Why

pub record AdviceInput : Type 0 where
  pub pool : String
  pub mode : String
  pub current : ℕ
  pub peak : ℕ
  pub max_known : Bool
  pub measured : Bool
  pub queue : ℕ
  pub demand_unmet : Bool
  pub worker_bytes : ℕ

unfoldable pub advise_static : AdviceInput → Option ModeAdvice
advise_static a =
    let idle = sub64 a.current a.peak in
    let reclaim = mul64 idle a.worker_bytes in
    if (not a.max_known || not a.measured) || (slt a.peak 1 || sle a.worker_bytes 0)
    then none
    else (if slt idle 2
        then none
        else (if slt reclaim static_reclaim_floor
            then none
            else some (record {
              pool = a.pool;
              from = "static";
              why = idle_workers a.current a.peak idle reclaim;
            })))

unfoldable pub advise_ondemand : AdviceInput → Option ModeAdvice
advise_ondemand a =
    if sle a.queue 0 && not a.demand_unmet
    then none
    else some (record {
      pool = a.pool;
      from = "ondemand";
      why = if slt 0 a.queue then queuing a.queue else unserved_demand;
    })

unfoldable pub advise_mode : AdviceInput → Option ModeAdvice
unfolding advise_static advise_ondemand
advise_mode a =
    if str_eq a.mode "static"
    then advise_static a
    else (if str_eq a.mode "ondemand" then advise_ondemand a else none)

abbrev pub listed {ℓ} : {A : Type ℓ} → Option A → List A
listed none = []
listed (some a) = a ∷ []

module _ {fl : Float} where
  unfoldable pub busiest : (peak : ℕ) → Option (PoolState fl) → ℕ
  busiest peak none = peak
  busiest peak (some ps) = if slt peak ps.peak_workers then ps.peak_workers else peak

  unfoldable pub advice_of :
      PoolView fl → Option (PoolState fl) → Option PoolPlan → Option ModeAdvice
  unfolding busiest advise_mode
  advice_of v ps none = none
  advice_of v ps (some l) =
      if l.unknown
      then none
      else advise_mode (record {
        pool = v.name;
        mode = v.process_manager;
        current = v.current_max_children;
        peak = busiest v.observed_peak ps;
        max_known = v.max_children_known;
        measured = l.measured;
        queue = v.queue_depth;
        demand_unmet = l.demand_unmet;
        worker_bytes = l.worker_bytes;
      })

  -- adviceFor, before its result is sorted by pool.
  unfoldable pub advice_for :
      Names → List (String × PoolPlan) → State fl → List (PoolView fl) → List ModeAdvice
  unfolding advice_of
  advice_for dup plans s [] = []
  advice_for dup plans s (v ∷ vs) =
      let rest = advice_for dup plans s vs in
      if has_name v.name dup || v.failed
      then rest
      else listed (advice_of v (lookup_pool v.config_path v.name s) (lookup v.name plans)) ++ rest

  -- The largest cost that a worker of the pool has been seen at, or the planned one.
  unfoldable pub worst_cost : (cost : ℕ) → Option (PoolState fl) → ℕ
  worst_cost cost none = cost
  worst_cost cost (some ps) =
      let worst =
        if slt ps.high_water_bytes ps.subtree_high_water_bytes
        then ps.subtree_high_water_bytes
        else ps.high_water_bytes in
      if slt cost worst then worst else cost

  -- The record of the pool under the one master that has it.
  unfoldable pub scoped_record : State fl → (pool : String) → Option String → Option (PoolState fl)
  scoped_record s pool none = none
  scoped_record s pool (some master) = lookup_scoped master pool s

  unfoldable pub worst_case : List (String × String) → State fl → List PoolPlan → (total : ℕ) → ℕ
  unfolding worst_cost scoped_record
  worst_case masters s [] total = total
  worst_case masters s (l ∷ ls) total =
      let cost = worst_cost l.worker_bytes (scoped_record s l.name (lookup l.name masters)) in
      worst_case masters s ls (add64 total (mul64 l.max_children cost))

  module _ (lib : Library fl) where
    unfoldable pub distribution_row : PoolView fl → Option (PoolState fl) → Option PoolDistribution
    distribution_row v none = none
    distribution_row v (some ps) =
        let at = percentile fl lib.log2 lib.exp2 ps.rss_histogram in
        if ps.rss_samples == 0
        then none
        else some (record {
          name = v.name;
          p50 = at (percent fl 50);
          p95 = at (percent fl 95);
          p99 = at (percent fl 99);
          worst_seen = at (fl.of_int 1);
          samples = ps.rss_samples;
          subtree_high_water = ps.subtree_high_water_bytes;
          child_per_worker = ps.child_per_worker_high_water_bytes;
        })

    -- distributionOf, before its result is sorted by name.
    unfoldable pub distribution_of : State fl → List (PoolView fl) → List PoolDistribution
    unfolding distribution_row
    distribution_of s [] = []
    distribution_of s (v ∷ vs) =
        listed (distribution_row v (lookup_pool v.config_path v.name s)) ++ distribution_of s vs

-- The reports that Build makes of a plan.
pub record Reports (fl : Float) : Type 0 where
  pub worst_case_bytes : ℕ
  pub distribution : List PoolDistribution
  pub advice : List ModeAdvice
  pub cpu : List (PoolCpu fl)
  pub host_cpu : HostCpu

-- The sorts are sort.Slice by the names.
module _ {fl : Float} {Err : Type 0} (lib : Library fl)
    (sort_distribution : List PoolDistribution → List PoolDistribution)
    (sort_advice : List ModeAdvice → List ModeAdvice)
    (sort_rows : List (PoolCpu fl) → List (PoolCpu fl)) where
  unfoldable pub reports : Input fl Err → State fl → List PoolPlan → Reports fl
  unfolding distribution_of advice_for worst_case
  reports i s lines =
      let dup = ambiguous_names i.views in
      let (rows, host) =
        cpu_of fl lib (learn_defaults fl i.state_options) (host_millicores i.limits)
          (host_headroom fl i.cpu_headroom) i.busy sort_rows dup lines s i.views in
      record {
        worst_case_bytes = worst_case (masters_of i.views) s lines 0;
        distribution = sort_distribution (distribution_of lib s i.views);
        advice = sort_advice (advice_for dup (plans_by_name lines []) s i.views);
        cpu = rows;
        host_cpu = host;
      }

  -- Build, with its reports where there is a plan; they read the store that the loop leaves.
  unfoldable pub build_all :
      Input fl Err → State fl → Outlook fl × Result Error (Built × Reports fl)
  unfolding reports
  build_all i s =
      let (o, r) = build lib i s in (o, r >>= λ b. ok (b, reports i o.store b.plan.pools))
