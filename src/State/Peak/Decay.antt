-- ===== src/State/Peak/Decay.antt =====
-- state/state.go: how the peak of busy workers comes down to what is seen.
use native.Mathlib.Nat.{div-div-eq-div-mul, div-eq_of_lt, pow-succ'}
use fpm_tune.Common.{
  ℕ, ◌+◌, ◌-◌, ◌/◌, ◌^◌, ◌≤◌, ◌<◌, ◌≡◌, sym, ap, ◌∙◌, true, false, List, [], ◌∷◌, some,
  if◌then◌else◌, length, arith,
}
use fpm_tune.Common.Word.{
  add64, add64_exact, sub64, sub64_exact, div64, div64_small, slt, slt_small,
}
use fpm_tune.Common.Float.{Float}
use fpm_tune.Common.Time.{is_zero, sub_time}
use fpm_tune.State.Types.{PoolState, Options, learn_defaults}
use fpm_tune.State.Peak.{halved, observe_peak}

-- Half of the gap to the current number is left, rounded down.
halved_gap :
    (peak current : ℕ)
    → current ≤ peak
    → peak < 2 ^ 62
    → halved peak current ≡ current + (peak - current) / 2
unfolding halved
halved_gap peak current h b =
    let e : sub64 peak current ≡ peak - current = sub64_exact peak current (omega arith) h in
    let f : add64 (peak - current) 1 ≡ peak - current + 1 =
      add64_exact (peak - current) 1 (omega arith) in
    let d : div64 (peak - current + 1) 2 ≡ (peak - current + 1) / 2 =
      div64_small (peak - current + 1) 2 (omega arith) (omega arith) in
    let s : sub64 peak ((peak - current + 1) / 2) ≡ peak - (peak - current + 1) / 2 =
      sub64_exact peak ((peak - current + 1) / 2) (omega arith) (omega arith) in
    let l : slt (peak - (peak - current + 1) / 2) current ≡ false =
      slt_small (peak - (peak - current + 1) / 2) current (omega arith) (omega arith)
      ∙ ground arith in
    rw (e, f, d, s, l) omega arith

module _ {fl : Float} (current : ℕ) (opts : Options fl) where
  -- The observations of the same number of busy workers, one after another.
  abbrev pub peaks : List ℕ → PoolState fl → PoolState fl
  peaks [] ps = ps
  peaks (at ∷ ats) ps = peaks ats (observe_peak current at opts ps)

  -- Each comes more than a window after the peak last moved.
  abbrev pub IsSpaced : List ℕ → PoolState fl → Type 0
  IsSpaced [] ps = Unit
  IsSpaced (at ∷ ats) ps =
      (slt (learn_defaults fl opts).peak_window
          (sub_time (some at) (if is_zero ps.peak_at then some at else ps.peak_at))
        ≡ true)
      × IsSpaced ats (observe_peak current at opts ps)

  observe_peak-halved :
      (at : ℕ) (ps : PoolState fl)
      → current ≤ ps.peak_workers
      → ps.peak_workers < 2 ^ 62
      → slt
          (learn_defaults fl opts).peak_window
          (sub_time (some at) (if is_zero ps.peak_at then some at else ps.peak_at))
        ≡ true
      → (observe_peak current at opts ps).peak_workers ≡ halved ps.peak_workers current
  unfolding observe_peak
  observe_peak-halved at ps h b w =
      let s : slt ps.peak_workers current ≡ false =
        slt_small ps.peak_workers current (omega arith) (omega arith) ∙ ground arith in
      rw (s, w)

  peaks-gap :
      (ats : List ℕ) (ps : PoolState fl)
      → current ≤ ps.peak_workers
      → ps.peak_workers < 2 ^ 62
      → IsSpaced ats ps
      → (peaks ats ps).peak_workers ≡ current + (ps.peak_workers - current) / 2 ^ length ats
  peaks-gap [] ps h b w = ground arith
  peaks-gap (at ∷ ats) ps h b (w, ws) =
      let e = observe_peak-halved at ps h b w ∙ halved_gap ps.peak_workers current h b in
      peaks-gap ats (observe_peak current at opts ps) (omega (arith, e)) (omega (arith, e)) ws
      ∙ ap (λ n. current + n)
          (ap (λ n. (n - current) / 2 ^ length ats) e
            ∙ ap (λ n. n / 2 ^ length ats) (omega arith)
            ∙ div-div-eq-div-mul (ps.peak_workers - current) 2 (2 ^ length ats)
            ∙ ap (λ n. (ps.peak_workers - current) / n) (sym (pow-succ' 2 (length ats))))

  -- Where fewer workers are busy than at the peak, and the same number at each of a row of
  -- observations that lie more than a window apart, the peak comes down by half of the gap each time,
  -- and reaches that number after as many of them as the gap has binary digits. The peak is below
  -- 2 ^ 62.
  pub peaks-reach :
      (ats : List ℕ) (ps : PoolState fl)
      → current ≤ ps.peak_workers
      → ps.peak_workers < 2 ^ 62
      → IsSpaced ats ps
      → ((peaks ats ps).peak_workers ≡ current + (ps.peak_workers - current) / 2 ^ length ats)
        × (ps.peak_workers - current < 2 ^ length ats → (peaks ats ps).peak_workers ≡ current)
  peaks-reach ats ps h b w =
      let e = peaks-gap ats ps h b w in
      (e, λ l. e ∙ ap (λ n. current + n) (div-eq_of_lt l) ∙ omega arith)
