-- ===== src/State/Load.antt =====
-- state/state.go: the repairs of a state that was read from its file.
pub mod Fit
use fpm_tune.Common.{
  ℕ, ◌*◌, String, Bool, true, false, not, ◌&&◌, ◌||◌, List, [], ◌∷◌, ◌++◌, Option, none, some,
  if◌then◌else◌, ◌==◌, length,
}
use fpm_tune.Common.Word.{add64, sub64, slt}
use fpm_tune.Common.Float.{Float}
use fpm_tune.Common.Time.{Time, is_zero, minute, add_time, after, sub_time, seconds}
use fpm_tune.State.Types.{PoolState, State}
use fpm_tune.State.Histogram.{rss_buckets}
use fpm_tune.State.Cpu.{cpu_buckets}

-- The sentences for the journal, with the length that was found.
pub data Notice : Type 0 where
  dropped_memory dropped_cpu : (pool : String) (buckets : ℕ) → Notice

-- A histogram is there and does not have so many buckets.
unfoldable pub is_misshapen : Option (List ℕ) → ℕ → Bool
is_misshapen none buckets = false
is_misshapen (some hist) buckets = not (length hist == buckets)

abbrev pub buckets_of : Option (List ℕ) → ℕ
buckets_of none = 0
buckets_of (some hist) = length hist

-- A time that has not happened yet is no time.
abbrev pub forgotten : (horizon : ℕ) → Time → Time
forgotten horizon t = if after t (some horizon) then none else t

module _ {fl : Float} where
  unfoldable pub drop_memory : PoolState fl → PoolState fl × List Notice
  drop_memory ps =
      if is_misshapen ps.rss_histogram rss_buckets
      then (
        record ps { rss_histogram = none; rss_samples = 0 },
        dropped_memory ps.pool (buckets_of ps.rss_histogram) ∷ [],
      )
      else (ps, [])

  unfoldable pub drop_cpu : PoolState fl → PoolState fl × List Notice
  drop_cpu ps =
      if is_misshapen ps.cpu_histogram cpu_buckets
      then (
        record ps { cpu_histogram = none; cpu_samples = 0 },
        dropped_cpu ps.pool (buckets_of ps.cpu_histogram) ∷ [],
      )
      else (ps, [])

  unfoldable pub drop_misshapen_histograms : PoolState fl → PoolState fl × List Notice
  drop_misshapen_histograms ps =
      let (ps', memory) = drop_memory ps in let (ps'', cpu) = drop_cpu ps' in (ps'', memory ++ cpu)

  unfoldable pub forget_the_future : (now : ℕ) → PoolState fl → PoolState fl
  forget_the_future now ps =
      let horizon = add_time now minute in
      record ps {
        first_seen = forgotten horizon ps.first_seen;
        last_updated = forgotten horizon ps.last_updated;
        first_busy_at = forgotten horizon ps.first_busy_at;
        last_busy_at = forgotten horizon ps.last_busy_at;
        last_peak_at = forgotten horizon ps.last_peak_at;
        peak_at = forgotten horizon ps.peak_at;
        last_applied_at =
            if after ps.last_applied_at (some horizon) then some now else ps.last_applied_at;
      }

  unfoldable pub infer_cadence : PoolState fl → PoolState fl
  infer_cadence ps =
      let span = seconds fl (sub_time ps.last_updated ps.first_seen) in
      if fl.flt (fl.of_int 0) ps.typical_interval_seconds || slt ps.samples 2
      then ps
      else (if is_zero ps.first_seen || not (after ps.last_updated ps.first_seen)
          then ps
          else record ps {
            typical_interval_seconds = fl.div span (fl.of_int (sub64 ps.samples 1));
          })

  -- What Load does to each pool of a file that it could read.
  unfoldable pub repair_pool : (now : ℕ) → PoolState fl → PoolState fl × List Notice
  repair_pool now ps = drop_misshapen_histograms (forget_the_future now (infer_cadence ps))

  unfoldable pub repair_pools :
      (now : ℕ) → List (String × PoolState fl) → List (String × PoolState fl) × List Notice
  repair_pools now [] = ([], [])
  repair_pools now ((key, ps) ∷ rest) =
      let (ps', notices) = repair_pool now ps in
      let (rest', more) = repair_pools now rest in ((key, ps') ∷ rest', notices ++ more)
