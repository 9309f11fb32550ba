-- ===== src/State/Learn.antt =====
-- state/state.go: Learn, one observation folded into the store.
pub mod Gate
pub mod Water
mod Tests
use fpm_tune.Common.{
  ℕ, ◌*◌, Bool, true, false, not, ◌&&◌, ◌||◌, String, List, [], ◌∷◌, Option, none, some,
  if◌then◌else◌, ◌==◌, length,
}
use text.Mathlib.Text.{◌==◌ as str_eq}
use fpm_tune.Common.Word.{add64, sub64, mul64, div64, slt, sle}
use fpm_tune.Common.Float.{Float}
use fpm_tune.Common.Time.{Time, is_zero, second, sub_time, after, seconds}
use fpm_tune.State.Types.{WorkerSample, Observation, PoolState, State, Options, learn_defaults}
use fpm_tune.State.Store.{for_writing, write_back}
use fpm_tune.State.Histogram.{observe_rss}
use fpm_tune.State.Cpu.{observe_cpu}
use fpm_tune.State.Sizing.{sizing_bytes}

abbrev pub gap_multiple : ℕ
gap_multiple = 3

-- What the loop over the workers adds up, and the memory histogram that it fills.
pub record Readings : Type 0 where
  pub peak : ℕ
  pub subtree_peak : ℕ
  pub child_sum : ℕ
  pub child_readings : ℕ
  pub mature : ℕ
  pub rss_histogram : Option (List ℕ)
  pub rss_samples : ℕ

abbrev pub larger : ℕ → ℕ → ℕ
larger a b = if slt a b then b else a

module _ (fl : Float) where
  open fl use {Num, of_int, trunc, add, mul, div, sub, neg, flt, fle}

  -- The part of a full load that was served since the last scrape, at most 1.
  unfoldable pub work_ratio : PoolState fl → (accepted : ℕ) → Options fl → (since : ℕ) → Num
  work_ratio ps accepted opts since =
      let served = sub64 accepted ps.last_accepted in
      let ratio =
        div (div (of_int served) (seconds fl since)) opts.min_requests_per_second_to_decay in
      if (sle accepted 0 || sle ps.last_accepted 0)
        || (slt opts.max_decay_gap since || (slt served 0 || sle since 0))
      then of_int 0
      else (if flt (of_int 1) ratio then of_int 1 else ratio)

  -- The usual time between scrapes; 0.25 is 1/4.
  unfoldable pub observe_interval : (since : ℕ) → Options fl → PoolState fl → PoolState fl
  observe_interval since opts ps =
      let alpha = div (of_int 1) (of_int 4) in
      let moved =
        add (mul (sub (of_int 1) alpha) ps.typical_interval_seconds)
          (mul alpha (seconds fl since)) in
      if sle since 0 || slt opts.max_decay_gap since
      then ps
      else (if fle ps.typical_interval_seconds (of_int 0)
          then record ps { typical_interval_seconds = seconds fl since }
          else (if flt (mul (of_int gap_multiple) ps.typical_interval_seconds) (seconds fl since)
              then ps
              else record ps { typical_interval_seconds = moved }))

  unfoldable pub capped_since : PoolState fl → (since : ℕ) → ℕ
  capped_since ps since =
      let limit = trunc (mul ps.typical_interval_seconds (of_int second)) in
      if fle ps.typical_interval_seconds (of_int 0)
      then since
      else (if slt limit since then limit else since)

  -- math.Log2 and math.Exp2.
  module _ (log2 exp2 : Num → Num) where
    unfoldable pub decay_alpha : (since half_life : ℕ) → Num
    decay_alpha since half_life =
        let alpha = sub (of_int 1) (exp2 (div (neg (seconds fl since)) (seconds fl half_life))) in
        let half = div (of_int 1) (of_int 2) in
        if sle since 0 || sle half_life 0
        then of_int 0
        else (if flt half alpha then half else alpha)

    -- A worker is sized by its PSS, and by its RSS where there is none.
    unfoldable pub cost_of : WorkerSample fl → ℕ
    cost_of w = if sle w.pss_bytes 0 then w.rss_bytes else w.pss_bytes

    unfoldable pub read_worker : Options fl → WorkerSample fl → Readings → Readings
    unfolding cost_of
    read_worker opts w r =
        let subtree = larger w.subtree_rss_bytes w.rss_bytes in
        let (hist, samples) = observe_rss fl log2 exp2 r.rss_histogram r.rss_samples (cost_of w) in
        if sle w.rss_bytes 0 then r else record {
          peak = larger r.peak (cost_of w);
          subtree_peak = larger r.subtree_peak subtree;
          child_sum =
              if slt w.rss_bytes w.subtree_rss_bytes
              then add64 r.child_sum (sub64 w.subtree_rss_bytes w.rss_bytes)
              else r.child_sum;
          child_readings = add64 r.child_readings 1;
          mature =
              if sle opts.min_requests_per_worker w.requests then add64 r.mature 1 else r.mature;
          rss_histogram = hist;
          rss_samples = samples;
        }

    unfoldable pub read_workers : Options fl → List (WorkerSample fl) → Readings → Readings
    read_workers opts [] r = r
    read_workers opts (w ∷ ws) r = read_workers opts ws (read_worker opts w r)

    -- A scrape of one mature worker where no more were ever busy.
    abbrev pub is_sole : PoolState fl → Readings → Bool
    is_sole ps r = r.mature == 1 && sle ps.peak_workers 1

    -- Rounds in a row that served something and had no mature worker.
    unfoldable pub count_immature :
        (workers : ℕ) → (served : Bool) → Readings → PoolState fl → PoolState fl
    count_immature workers served r ps =
        if r.mature == 0 && (slt 0 workers && served)
        then record ps { immature_rounds = add64 ps.immature_rounds 1 }
        else (if slt 0 r.mature then record ps { immature_rounds = 0 } else ps)

    -- So many of those rounds that maturity is waived.
    abbrev pub is_recycled : Options fl → (served : Bool) → Readings → PoolState fl → Bool
    is_recycled opts served r ps =
        r.mature == 0 && (served && sle opts.samples_before_maturity_is_waived ps.immature_rounds)

    -- Whether the readings may move the baseline.
    unfoldable pub teaches : Options fl → (served : Bool) → Readings → PoolState fl → Bool
    teaches opts served r ps =
        not (
          slt r.mature opts.min_mature_workers
          && (not (is_sole ps r) && not (is_recycled opts served r ps)))
        && not (is_recycled opts served r ps && (r.mature == 0 && sle r.peak (sizing_bytes ps)))

    -- A busy round counts towards the confidence.
    unfoldable pub count_busy :
        (worked : Bool) → (at : ℕ) → Options fl → Readings → PoolState fl → PoolState fl
    count_busy worked at opts r ps =
        if worked && sle opts.min_mature_workers r.mature
        then record ps {
          busy_samples = add64 ps.busy_samples 1;
          first_busy_at = if is_zero ps.first_busy_at then some at else ps.first_busy_at;
          last_busy_at = if after (some at) ps.last_busy_at then some at else ps.last_busy_at;
        }
        else ps

    -- The memory of the children by worker, over the scale that the pool has run at.
    unfoldable pub child_share : Readings → (peak_workers : ℕ) → ℕ
    child_share r peak_workers =
        let denom = larger r.child_readings peak_workers in
        if slt 0 denom then div64 r.child_sum denom else 0

    unfoldable pub raise_water : (at : ℕ) → Readings → PoolState fl → PoolState fl
    unfolding child_share
    raise_water at r ps =
        let high = larger ps.high_water_bytes r.peak in
        record ps {
          last_peak_bytes = r.peak;
          last_peak_at = some at;
          high_water_bytes = high;
          subtree_high_water_bytes =
              larger (larger ps.subtree_high_water_bytes r.subtree_peak) high;
          child_per_worker_high_water_bytes =
              larger ps.child_per_worker_high_water_bytes (child_share r ps.peak_workers);
        }

    -- The moving average: up by AlphaUp, down by the time that passed, and not down without work.
    unfoldable pub typical_peak : Options fl → (worked : Bool) → (effective peak typical : ℕ) → ℕ
    typical_peak opts worked effective peak typical =
        let alpha =
          if slt typical peak
          then opts.alpha_up
          else (if not worked then of_int 0 else decay_alpha effective opts.half_life_down) in
        if typical == 0
        then peak
        else trunc (add (mul alpha (of_int peak)) (mul (sub (of_int 1) alpha) (of_int typical)))

    unfoldable pub absorb :
        Options fl → (worked : Bool) → (at effective : ℕ) → Readings → PoolState fl → PoolState fl
    unfolding count_busy raise_water
    absorb opts worked at effective r ps =
        let ps' = raise_water at r (count_busy worked at opts r ps) in
        record ps' {
          typical_peak_bytes = typical_peak opts worked effective r.peak ps.typical_peak_bytes;
        }

    -- The part of Learn before the memory path's early returns.
    unfoldable pub note_scrape :
        Observation fl → Options fl → (since : ℕ) → PoolState fl → PoolState fl
    note_scrape obs opts since ps =
        let timed = observe_interval since opts (record ps { last_accepted = obs.accepted }) in
        observe_cpu fl obs.workers (record timed {
          samples = add64 timed.samples 1;
          last_updated = some obs.at;
          master_config =
              if str_eq obs.master_config "" then timed.master_config else obs.master_config;
        })

    unfoldable pub readings_of : Options fl → List (WorkerSample fl) → PoolState fl → Readings
    unfolding read_workers
    readings_of opts workers ps = read_workers opts workers (record {
      peak = 0;
      subtree_peak = 0;
      child_sum = 0;
      child_readings = 0;
      mature = 0;
      rss_histogram = ps.rss_histogram;
      rss_samples = ps.rss_samples;
    })

    -- Learn on the pool's record: the record, and whether the observation taught anything.
    unfoldable pub learn_pool : Observation fl → Options fl → PoolState fl → PoolState fl × Bool
    learn_pool obs opts ps =
        let since = sub_time (some obs.at) ps.last_updated in
        let effort = work_ratio ps obs.accepted opts since in
        let worked = fle (of_int 1) effort in
        let served = flt (of_int 0) effort in
        let effective = capped_since ps since in
        let noted = note_scrape obs opts since ps in
        let r = readings_of opts obs.workers noted in
        let read = record noted { rss_histogram = r.rss_histogram; rss_samples = r.rss_samples } in
        let counted = count_immature (length obs.workers) served r read in
        if sle r.peak 0
        then (read, false)
        else (if teaches opts served r counted
            then (absorb opts worked obs.at effective r counted, true)
            else (counted, false))

    unfoldable pub learn : Observation fl → Options fl → State fl → State fl × Bool
    learn obs opts s =
        let (s', ps) = for_writing obs.master_config obs.pool obs.at s in
        let (ps', taught) = learn_pool obs (learn_defaults fl opts) ps in
        (write_back obs.master_config obs.pool ps' s', taught)
