-- ===== src/State/Load/Fit.antt =====
-- state/state.go: what a state that was loaded is fit for.
use fpm_tune.Common.{
  ℕ, true, ◌≡◌, refl, String, false, none, some, if◌then◌else◌, Bool-cases, inl, inr,
}
use fpm_tune.Common.Float.{Float}
use fpm_tune.Common.Time.{Time, minute, add_time, after}
use fpm_tune.State.Types.{PoolState}
use fpm_tune.State.Histogram.{rss_buckets}
use fpm_tune.State.Cpu.{cpu_buckets}
use fpm_tune.State.Load.{is_misshapen}

-- Histograms have the buckets of this build, and no time lies past the horizon.
pub record IsFit {fl : Float} (now : ℕ) (ps : PoolState fl) : Type 0 where
  pub memory : is_misshapen ps.rss_histogram rss_buckets ≡ false
  pub cpu : is_misshapen ps.cpu_histogram cpu_buckets ≡ false
  pub first_seen : after ps.first_seen (some (add_time now minute)) ≡ false
  pub last_updated : after ps.last_updated (some (add_time now minute)) ≡ false
  pub first_busy : after ps.first_busy_at (some (add_time now minute)) ≡ false
  pub last_busy : after ps.last_busy_at (some (add_time now minute)) ≡ false
  pub last_peak : after ps.last_peak_at (some (add_time now minute)) ≡ false
  pub peak : after ps.peak_at (some (add_time now minute)) ≡ false
  pub applied : after ps.last_applied_at (some (add_time now minute)) ≡ false

-- A time that is past the horizon becomes another, and one that is not stays.
abbrev pub IsClamped : ℕ → (t t' past : Time) → Type 0
IsClamped now t t' past =
    (after t (some (add_time now minute)) ≡ false → t' ≡ t)
    × (after t (some (add_time now minute)) ≡ true → t' ≡ past)

clamped :
    (now : ℕ) (t past : Time)
    → IsClamped now t (if after t (some (add_time now minute)) then past else t) past
clamped now t past = elim (Bool-cases (after t (some (add_time now minute)))) [
  | inl e ↦ rw e ((λ k. cc), (λ k. refl))
  | inr f ↦ rw f ((λ k. refl), (λ k. cc))
]

module _ {fl : Float} where
  -- A loaded pool is the one that was in the file, under its key. Only times, the cadence and the
  -- histograms may differ: a histogram of this build's buckets stays with its readings, a time that is
  -- not past the horizon stays, and so does a cadence that is known.
  pub record IsRepaired (now : ℕ) (e : String × PoolState fl) (e' : String × PoolState fl)
      : Type 0 where
    pub key : e'.0 ≡ e.0
    pub rest : e'.1 ≡ record e.1 {
      first_seen = e'.1.first_seen;
      last_updated = e'.1.last_updated;
      first_busy_at = e'.1.first_busy_at;
      last_busy_at = e'.1.last_busy_at;
      last_peak_at = e'.1.last_peak_at;
      peak_at = e'.1.peak_at;
      last_applied_at = e'.1.last_applied_at;
      typical_interval_seconds = e'.1.typical_interval_seconds;
      rss_histogram = e'.1.rss_histogram;
      rss_samples = e'.1.rss_samples;
      cpu_histogram = e'.1.cpu_histogram;
      cpu_samples = e'.1.cpu_samples;
    }
    pub memory :
        is_misshapen e.1.rss_histogram rss_buckets ≡ false
        → (e'.1.rss_histogram ≡ e.1.rss_histogram) × (e'.1.rss_samples ≡ e.1.rss_samples)
    pub cpu :
        is_misshapen e.1.cpu_histogram cpu_buckets ≡ false
        → (e'.1.cpu_histogram ≡ e.1.cpu_histogram) × (e'.1.cpu_samples ≡ e.1.cpu_samples)
    pub cadence :
        fl.flt (fl.of_int 0) e.1.typical_interval_seconds ≡ true
        → e'.1.typical_interval_seconds ≡ e.1.typical_interval_seconds
    pub first_seen : IsClamped now e.1.first_seen e'.1.first_seen none
    pub last_updated : IsClamped now e.1.last_updated e'.1.last_updated none
    pub first_busy : IsClamped now e.1.first_busy_at e'.1.first_busy_at none
    pub last_busy : IsClamped now e.1.last_busy_at e'.1.last_busy_at none
    pub last_peak : IsClamped now e.1.last_peak_at e'.1.last_peak_at none
    pub peak : IsClamped now e.1.peak_at e'.1.peak_at none
    pub applied : IsClamped now e.1.last_applied_at e'.1.last_applied_at (some now)
