-- ===== src/State/CpuLoad.antt =====
-- state/cpuload.go: what a busy worker costs the whole box.
use fpm_tune.Common.{
  ℕ, ◌*◌, Bool, not, ◌&&◌, ◌||◌, List, [], ◌∷◌, Option, none, some, if◌then◌else◌, ◌==◌,
}
use fpm_tune.Common.Word.{add64, sub64, div64, slt, sle}
use fpm_tune.Common.Float.{Float}
use fpm_tune.Common.Time.{second, minute, since, seconds}
use fpm_tune.Common.Map.{lookup, insert, nat_eq}
use fpm_tune.State.Types.{
  WorkerSample, Observation, PoolState, State, Options, Fit, HostCpuSeen, learn_defaults,
}
use fpm_tune.State.Store.{for_writing, write_back}

abbrev pub max_cpu_load_gap : ℕ
max_cpu_load_gap = 5 * minute

abbrev pub min_cpu_load_gap : ℕ
min_cpu_load_gap = 5 * second

abbrev pub max_box_overhead : ℕ
max_box_overhead = 20

-- `num` hundredths.
abbrev pub percent : (fl : Float) → ℕ → fl.Num
percent fl num = fl.div (fl.of_int num) (fl.of_int 100)

pub record CpuLoadSample : Type 0 where
  pub busy_micros : ℕ
  pub millicores : ℕ
  pub at : ℕ

-- Known counters give their growth; a new pid, or a counter that fell, gives all it has.
unfoldable pub ticks_spent : Option ℕ → (ticks : ℕ) → ℕ
ticks_spent none ticks = ticks
ticks_spent (some prev) ticks = if sle prev ticks then sub64 ticks prev else ticks

module _ (fl : Float) where
  open fl use {Num, of_int, add, sub, mul, div, flt, fle}

  -- fitForget is 0.9975.
  unfoldable pub forget_sum : Num → Num → Num
  forget_sum total x = add (mul total (div (of_int 9975) (of_int 10_000))) x

  -- Fit.Add
  unfoldable pub add_point : (x y : Num) → Fit fl → Fit fl
  unfolding forget_sum
  add_point x y f = record {
    n = forget_sum f.n (of_int 1);
    sum_x = forget_sum f.sum_x x;
    sum_y = forget_sum f.sum_y y;
    sum_xx = forget_sum f.sum_xx (mul x x);
    sum_xy = forget_sum f.sum_xy (mul x y);
  }

  pub record Line : Type 0 where
    pub slope : Num
    pub intercept : Num
    pub sd_x : Num

  -- Fit.Line
  unfoldable pub line_of : Fit fl → Option Line
  line_of f =
      let mean_x = div f.sum_x f.n in
      let mean_y = div f.sum_y f.n in
      let var_x = sub (div f.sum_xx f.n) (mul mean_x mean_x) in
      let slope = div (sub (div f.sum_xy f.n) (mul mean_x mean_y)) var_x in
      if flt f.n (of_int 2)
      then none
      else (if fle var_x (of_int 0)
          then none
          else some (record {
            slope = slope;
            intercept = sub mean_y (mul slope mean_x);
            sd_x = fl.sqrt var_x;
          }))

  -- The slope of a fit that has seen enough spread.
  unfoldable pub overhead_of : Options fl → (n : Num) → Option Line → Option Num
  overhead_of opts n none = none
  overhead_of opts n (some l) =
      let slope = if flt l.slope (of_int 1) then of_int 1 else l.slope in
      if flt n (of_int opts.min_box_cost_samples) || flt l.sd_x opts.min_box_cost_spread
      then none
      else (if flt (of_int max_box_overhead) slope then none else some slope)

  unfoldable pub box_overhead : Options fl → PoolState fl → Option Num
  unfolding overhead_of
  box_overhead opts ps = overhead_of (learn_defaults fl opts) ps.box_cost.n (line_of ps.box_cost)

  -- The cores that were busy between two readings, and their share of the box.
  unfoldable pub host_busy : (prev now : HostCpuSeen) → (millicores : ℕ) → Option (Num × Num)
  host_busy prev now millicores =
      let wall = since now.at prev.at in
      let busy_micros = sub64 now.busy_micros prev.busy_micros in
      let cores = div (of_int busy_micros) (of_int (div64 wall 1000)) in
      let ratio = div cores (div (of_int millicores) (of_int 1000)) in
      if (slt wall min_cpu_load_gap || slt max_cpu_load_gap wall)
        || (slt busy_micros 0 || sle millicores 0)
      then none
      else some (cores, (if flt (of_int 1) ratio then of_int 1 else ratio))

  -- One worker of poolCPUTicks: what is remembered of it, and the sum.
  unfoldable pub tick_worker :
      (before : List (ℕ × ℕ)) → WorkerSample fl → List (ℕ × ℕ) × ℕ → List (ℕ × ℕ) × ℕ
  unfolding ticks_spent
  tick_worker before w (seen, delta) = if sle w.pid 0 || slt w.cpu_ticks 0 then (seen, delta) else (
    insert w.pid w.cpu_ticks seen,
    add64 delta (ticks_spent (lookup w.pid before) w.cpu_ticks),
  )

  unfoldable pub tick_workers :
      (before : List (ℕ × ℕ)) → List (WorkerSample fl) → List (ℕ × ℕ) × ℕ → List (ℕ × ℕ) × ℕ
  tick_workers before [] r = r
  tick_workers before (w ∷ ws) r = tick_workers before ws (tick_worker before w r)

  unfoldable pub pool_cpu_ticks : List (WorkerSample fl) → PoolState fl → PoolState fl × ℕ
  unfolding tick_workers
  pool_cpu_ticks workers ps =
      let (seen, delta) = tick_workers ps.cpu_ticks_seen workers ([], 0) in
      (record ps { cpu_ticks_seen = seen }, delta)

  -- aggEWMAAlpha is 0.2.
  unfoldable pub moved_average : (old new : Num) → Num
  moved_average old new = add old (mul (percent fl 20) (sub new old))

  -- aggMinCores is 0.05.
  unfoldable pub learn_aggregate_cpu :
      (cores : Num) → (active_now : ℕ) → PoolState fl → PoolState fl
  unfolding moved_average
  learn_aggregate_cpu cores active_now ps =
      let busy = of_int active_now in
      if flt cores (percent fl 5)
      then ps
      else (if ps.agg_cpu_rounds == 0
          then record ps {
            agg_cpu_cores = cores;
            agg_cpu_busy = busy;
            agg_cpu_rounds = add64 ps.agg_cpu_rounds 1;
          }
          else record ps {
            agg_cpu_cores = moved_average ps.agg_cpu_cores cores;
            agg_cpu_busy = moved_average ps.agg_cpu_busy busy;
            agg_cpu_rounds = add64 ps.agg_cpu_rounds 1;
          })

  -- state/cpu.go: the guards of AggregateCPUShare and AggregateCPUCores.
  unfoldable pub aggregate_known : Options fl → PoolState fl → Bool
  aggregate_known opts ps = not (
      slt ps.agg_cpu_rounds opts.min_agg_cpu_rounds
      || flt ps.agg_cpu_busy (div (of_int 1) (of_int 2)))

  unfoldable pub aggregate_cpu_share : Options fl → PoolState fl → Option Num
  unfolding aggregate_known
  aggregate_cpu_share opts ps =
      if aggregate_known opts ps then some (div ps.agg_cpu_cores ps.agg_cpu_busy) else none

  unfoldable pub aggregate_cpu_cores : Options fl → PoolState fl → Option Num
  unfolding aggregate_known
  aggregate_cpu_cores opts ps = if aggregate_known opts ps then some ps.agg_cpu_cores else none

  -- A pool's own CPU in an interval of `wall`; without an interval only the counters are kept.
  unfoldable pub load_pool : (wall at : ℕ) → Observation fl → State fl → State fl × Num
  unfolding pool_cpu_ticks learn_aggregate_cpu
  load_pool wall at o s =
      let (s', ps) = for_writing o.master_config o.pool at s in
      let (ps', ticks) = pool_cpu_ticks o.workers ps in
      let cores = div (div (of_int ticks) (of_int 100)) (seconds fl wall) in
      if slt 0 wall
      then (
        write_back o.master_config o.pool (learn_aggregate_cpu cores o.active_now ps') s',
        cores,
      )
      else (write_back o.master_config o.pool ps' s', of_int 0)

  -- The first loop: every pool with its cores, and their sum.
  unfoldable pub load_pools :
      (wall at : ℕ)
      → List (Observation fl)
      → (total : Num) → State fl
      → State fl × (List (Observation fl × Num) × Num)
  unfolding load_pool
  load_pools wall at [] total s = (s, ([], total))
  load_pools wall at (o ∷ os) total s =
      let (s', cores) = load_pool wall at o s in
      let (s'', (rest, sum)) =
        load_pools wall at os (if slt 0 wall then add total cores else total) s' in
      (s'', ((o, cores) ∷ rest, sum))

  -- idleCores is 0.02 and dominantShare 0.7.
  unfoldable pub point_for : (cores total host_cores : Num) → PoolState fl → PoolState fl
  unfolding add_point
  point_for cores total host_cores ps =
      if flt total (percent fl 2)
      then record ps { box_cost = add_point (of_int 0) host_cores ps.box_cost }
      else (if fle (mul (percent fl 70) total) cores
          then record ps { box_cost = add_point cores host_cores ps.box_cost }
          else ps)

  -- StarvedBusyRatio is 0.95.
  unfoldable pub is_saturated : (busy_ratio : Num) → Bool
  is_saturated busy_ratio = fle (percent fl 95) busy_ratio

  unfoldable pub note_starved : (queue : ℕ) → (busy_ratio : Num) → PoolState fl → PoolState fl
  unfolding is_saturated
  note_starved queue busy_ratio ps =
      if slt 0 queue && is_saturated busy_ratio
      then record ps { cpu_starved_rounds = add64 ps.cpu_starved_rounds 1 }
      else ps

  -- The second loop.
  unfoldable pub fit_pools :
      (at : ℕ)
      → (total host_cores busy_ratio : Num) → List (Observation fl × Num)
      → State fl
      → State fl
  unfolding point_for note_starved
  fit_pools at total host_cores busy_ratio [] s = s
  fit_pools at total host_cores busy_ratio ((o, cores) ∷ os) s =
      let (s', ps) = for_writing o.master_config o.pool at s in
      let ps' = note_starved o.queue_depth busy_ratio (point_for cores total host_cores ps) in
      fit_pools at total host_cores busy_ratio os (write_back o.master_config o.pool ps' s')

  -- What is behind the first loop: the interval, where there was one, and what it taught.
  unfoldable pub learn_interval :
      CpuLoadSample
      → Option HostCpuSeen
      → (total : Num) → List (Observation fl × Num)
      → State fl
      → State fl
  unfolding fit_pools
  learn_interval sample none total loads s = s
  learn_interval sample (some prev) total loads s =
      elim (host_busy prev (record { busy_micros = sample.busy_micros; at = sample.at })
        sample.millicores) [
          | none ↦ s
          | some busy ↦ fit_pools sample.at total busy.0 busy.1 loads s
        ]

  abbrev wall_since : (at : ℕ) → Option HostCpuSeen → ℕ
  wall_since at none = 0
  wall_since at (some prev) = since at prev.at

  unfoldable pub learn_cpu_load : List (Observation fl) → CpuLoadSample → State fl → State fl
  unfolding load_pools learn_interval
  learn_cpu_load obs sample s =
      let (s', (loads, total)) =
        load_pools (wall_since sample.at s.host_cpu) sample.at obs (of_int 0) s in
      learn_interval sample s.host_cpu total loads (record s' {
        host_cpu = some (record { busy_micros = sample.busy_micros; at = sample.at });
      })
