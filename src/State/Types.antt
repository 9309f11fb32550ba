-- ===== src/State/Types.antt =====
-- state/state.go and state/cpuload.go: what is remembered of a pool, and what a scrape brings.
use fpm_tune.Common.{ℕ, ◌*◌, String, Bool, ◌||◌, List, [], Option, none, some, if◌then◌else◌}
use fpm_tune.Common.Word.{sle}
use fpm_tune.Common.Float.{Float}
use fpm_tune.Common.Time.{Time, minute}

pub record WorkerSample (fl : Float) : Type 0 where
  pub rss_bytes : ℕ
  pub pss_bytes : ℕ
  pub subtree_rss_bytes : ℕ
  pub requests : ℕ
  pub pid : ℕ
  pub idle : Bool
  pub last_request_cpu : fl.Num
  pub last_request_micros : ℕ
  pub own_request : Bool
  pub cpu_ticks : ℕ

-- The caller's time stands for a time that is zero.
pub record Observation (fl : Float) : Type 0 where
  pub pool : String
  pub workers : List (WorkerSample fl)
  pub active_now : ℕ
  pub accepted : ℕ
  pub queue_depth : ℕ
  pub at : ℕ
  pub master_config : String

-- The running sums of a least-squares line.
pub record Fit (fl : Float) : Type 0 where
  pub n : fl.Num
  pub sum_x : fl.Num
  pub sum_y : fl.Num
  pub sum_xx : fl.Num
  pub sum_xy : fl.Num

unfoldable pub no_fit : (fl : Float) → Fit fl
no_fit fl = record {
  n = fl.of_int 0;
  sum_x = fl.of_int 0;
  sum_y = fl.of_int 0;
  sum_xx = fl.of_int 0;
  sum_xy = fl.of_int 0;
}

pub record PoolState (fl : Float) : Type 0 where
  pub pool : String
  pub typical_peak_bytes : ℕ
  pub high_water_bytes : ℕ
  pub subtree_high_water_bytes : ℕ
  pub child_per_worker_high_water_bytes : ℕ
  pub samples : ℕ
  pub busy_samples : ℕ
  pub first_seen : Time
  pub last_updated : Time
  pub first_busy_at : Time
  pub last_busy_at : Time
  pub last_peak_at : Time
  pub last_peak_bytes : ℕ
  pub last_accepted : ℕ
  pub typical_interval_seconds : fl.Num
  pub missed_rounds : ℕ
  pub rss_histogram : Option (List ℕ)
  pub rss_samples : ℕ
  pub cpu_histogram : Option (List ℕ)
  pub cpu_samples : ℕ
  -- cpu_seen: the request counter by pid; nil is the empty map
  pub cpu_seen : List (ℕ × ℕ)
  pub agg_cpu_cores : fl.Num
  pub agg_cpu_busy : fl.Num
  pub agg_cpu_rounds : ℕ
  -- the ticks by pid; nil is the empty map
  pub cpu_ticks_seen : List (ℕ × ℕ)
  pub box_cost : Fit fl
  pub cpu_starved_rounds : ℕ
  pub master_config : String
  pub immature_rounds : ℕ
  pub peak_workers : ℕ
  pub peak_at : Time
  pub last_max_children_reached : ℕ
  pub last_applied_max_children : ℕ
  pub last_applied_at : Time

-- A record of forWriting, before anything is known.
unfoldable pub new_pool : (fl : Float) → (pool master : String) → (at : ℕ) → PoolState fl
unfolding no_fit
new_pool fl pool master at = record {
  pool = pool;
  typical_peak_bytes = 0;
  high_water_bytes = 0;
  subtree_high_water_bytes = 0;
  child_per_worker_high_water_bytes = 0;
  samples = 0;
  busy_samples = 0;
  first_seen = some at;
  last_updated = none;
  first_busy_at = none;
  last_busy_at = none;
  last_peak_at = none;
  last_peak_bytes = 0;
  last_accepted = 0;
  typical_interval_seconds = fl.of_int 0;
  missed_rounds = 0;
  rss_histogram = none;
  rss_samples = 0;
  cpu_histogram = none;
  cpu_samples = 0;
  cpu_seen = [];
  agg_cpu_cores = fl.of_int 0;
  agg_cpu_busy = fl.of_int 0;
  agg_cpu_rounds = 0;
  cpu_ticks_seen = [];
  box_cost = no_fit fl;
  cpu_starved_rounds = 0;
  master_config = master;
  immature_rounds = 0;
  peak_workers = 0;
  peak_at = none;
  last_max_children_reached = 0;
  last_applied_max_children = 0;
  last_applied_at = none;
}

pub record MasterRef : Type 0 where
  pub binary : String
  pub config_path : String
  pub drop_in_dir : String

pub record HostCpuSeen : Type 0 where
  pub busy_micros : ℕ
  pub at : ℕ

-- Notices come with the result of Load.
pub record State (fl : Float) : Type 0 where
  pub host_cpu : Option HostCpuSeen
  pub pools : List (String × PoolState fl)
  pub master : MasterRef

-- Without a percentile a worker is sized at its peaks.
pub record Sizing (fl : Float) : Type 0 where
  pub percentile : fl.Num
  pub margin : fl.Num

pub record Options (fl : Float) : Type 0 where
  pub min_requests_per_worker : ℕ
  pub min_mature_workers : ℕ
  pub min_agg_cpu_rounds : ℕ
  pub min_cpu_readings : ℕ
  pub min_box_cost_samples : ℕ
  pub min_box_cost_spread : fl.Num
  pub alpha_up : fl.Num
  pub half_life_down : ℕ
  pub min_requests_per_second_to_decay : fl.Num
  pub samples_before_maturity_is_waived : ℕ
  pub max_decay_gap : ℕ
  pub confidence_samples : ℕ
  pub confidence_span : ℕ
  pub peak_window : ℕ
  pub sizing : Sizing fl

-- The default where a number is not positive.
abbrev pub or_int : ℕ → ℕ → ℕ
or_int n default = if sle n 0 then default else n

module _ (fl : Float) where
  open fl use {of_int, div, flt, fle}

  abbrev pub or_num : fl.Num → fl.Num → fl.Num
  or_num x default = if fle x (of_int 0) then default else x

  -- Decimal constants are quotients: 0.5 is 1/2 and 0.2 is 1/5.
  unfoldable pub learn_defaults : Options fl → Options fl
  learn_defaults o = record {
    min_requests_per_worker = or_int o.min_requests_per_worker 20;
    min_mature_workers = or_int o.min_mature_workers 2;
    min_agg_cpu_rounds = or_int o.min_agg_cpu_rounds 5;
    min_cpu_readings = or_int o.min_cpu_readings 20;
    min_box_cost_samples = or_int o.min_box_cost_samples 30;
    min_box_cost_spread = or_num o.min_box_cost_spread (div (of_int 1) (of_int 5));
    alpha_up =
        if fle o.alpha_up (of_int 0) || flt (of_int 1) o.alpha_up
        then div (of_int 1) (of_int 2)
        else o.alpha_up;
    half_life_down = or_int o.half_life_down (30 * minute);
    min_requests_per_second_to_decay = or_num o.min_requests_per_second_to_decay (of_int 1);
    samples_before_maturity_is_waived = or_int o.samples_before_maturity_is_waived 20;
    max_decay_gap = or_int o.max_decay_gap (12 * (60 * minute));
    confidence_samples = or_int o.confidence_samples 20;
    confidence_span = or_int o.confidence_span (30 * minute);
    peak_window = or_int o.peak_window (24 * (60 * minute));
    sizing = o.sizing;
  }
