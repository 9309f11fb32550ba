-- ===== src/State/Histogram/Quantile.antt =====
-- state/percentile.go: the bucket that histogramBucketAt finds for a fraction of the readings.
use fpm_tune.Common.{ℕ, suc, ◌≤◌, ◌<◌, ◌≡◌, ◌⊎◌, List, none, some, length, take}
use fpm_tune.Common.Float.{Float, IsIeee}
use fpm_tune.State.Histogram.{wanted, histogram_bucket_at}
use fpm_tune.State.Histogram.Steady.{sum}

-- The bucket k is the first whose cumulative count reaches `want`.
abbrev pub Reaches : ℕ → List ℕ → ℕ → Type 0
Reaches want cs k = (k < length cs) × (sum (take k cs) < want) × (want ≤ sum (take (suc k) cs))

module _ (fl : Float) (h : IsIeee fl) where
  open fl use {Num, of_int, trunc, mul, ceil, flt, fle}

  -- No bucket where there is no reading; else the first bucket that reaches the wanted count.
  abbrev pub Found : List ℕ → Num → (total : ℕ) → Type 0
  Found hist p total =
      ((total ≡ 0) × (histogram_bucket_at fl hist p ≡ none))
      ⊎ ((0 < wanted fl p total)
          × (k : ℕ) × (histogram_bucket_at fl hist p ≡ some k)
          × Reaches (wanted fl p total) hist k)
