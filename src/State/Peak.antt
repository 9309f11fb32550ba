-- ===== src/State/Peak.antt =====
-- state/state.go: ObservePeak, the peak of busy workers and its decay.
pub mod Decay
use fpm_tune.Common.{ℕ, if◌then◌else◌, some}
use fpm_tune.Common.Word.{add64, sub64, div64, slt}
use fpm_tune.Common.Float.{Float}
use fpm_tune.Common.Time.{is_zero, sub_time}
use fpm_tune.State.Types.{PoolState, Options, learn_defaults}

-- Half the way down to the current number of workers.
unfoldable pub halved : (peak current : ℕ) → ℕ
halved peak current =
    let p = sub64 peak (div64 (add64 (sub64 peak current) 1) 2) in
    if slt p current then current else p

module _ {fl : Float} where
  unfoldable pub observe_peak : (current at : ℕ) → Options fl → PoolState fl → PoolState fl
  observe_peak current at opts ps =
      let stood = if is_zero ps.peak_at then some at else ps.peak_at in
      if slt ps.peak_workers current
      then record ps { peak_workers = current; peak_at = some at }
      else (if slt (learn_defaults fl opts).peak_window (sub_time (some at) stood)
          then record ps { peak_workers = halved ps.peak_workers current; peak_at = some at }
          else record ps { peak_at = stood })
