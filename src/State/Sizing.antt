-- ===== src/State/Sizing.antt =====
-- state/state.go: what a worker is sized at, and how far the number is trusted.
use fpm_tune.Common.{ℕ, Bool, ◌||◌, if◌then◌else◌, ◌==◌}
use fpm_tune.Common.Word.{slt, sle}
use fpm_tune.Common.Float.{Float}
use fpm_tune.Common.Time.{is_zero, sub_time}
use fpm_tune.State.Types.{PoolState, Options, learn_defaults}
use fpm_tune.State.Histogram.{percentile}

-- The larger of a size and the last peak.
abbrev pub at_least : (last size : ℕ) → ℕ
at_least last size = if slt size last then last else size

abbrev pub smaller : (fl : Float) → fl.Num → fl.Num → fl.Num
smaller fl x y = if fl.flt y x then y else x

module _ {fl : Float} where
  open fl use {Num, of_int, trunc, add, mul, div, flt}

  unfoldable pub sizing_bytes : PoolState fl → ℕ
  sizing_bytes ps =
      at_least ps.last_peak_bytes
        (if ps.typical_peak_bytes == 0 then ps.high_water_bytes else ps.typical_peak_bytes)

  -- math.Log2 and math.Exp2, of the histogram's buckets.
  unfoldable pub sizing_bytes_at :
      (log2 exp2 : Num → Num) → (fraction margin : Num) → PoolState fl → ℕ
  sizing_bytes_at log2 exp2 fraction margin ps =
      let p = percentile fl log2 exp2 ps.rss_histogram fraction in
      at_least ps.last_peak_bytes
        (if slt 0 p then trunc (mul (of_int p) (add (of_int 1) margin)) else sizing_bytes ps)

  unfoldable pub confidence : Options fl → PoolState fl → Num
  confidence opts ps =
      let o = learn_defaults fl opts in
      let by_samples = div (of_int ps.busy_samples) (of_int o.confidence_samples) in
      let by_span =
        div (of_int (sub_time ps.last_busy_at ps.first_busy_at)) (of_int o.confidence_span) in
      let c = smaller fl (smaller fl by_samples by_span) (of_int 1) in
      if ps.busy_samples == 0 || sle ps.typical_peak_bytes 0
      then of_int 0
      else (if is_zero ps.first_busy_at || is_zero ps.last_busy_at
          then of_int 0
          else (if flt c (of_int 0) then of_int 0 else c))

  unfoldable pub trusted : Options fl → PoolState fl → Bool
  trusted opts ps = fl.fle (of_int 1) (confidence opts ps)
