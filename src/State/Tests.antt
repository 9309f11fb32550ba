-- ===== src/State/Tests.antt =====
-- state/percentile.go: runs of the model on a concrete histogram, and the theorems applied to it.
use fpm_tune.Common.{
  ℕ, zero, suc, ◌*◌, ◌/◌, ◌^◌, ◌<◌, ◌≡◌, refl, ◌⊎◌, true, false, List, ◌∷◌, some, if◌then◌else◌,
  ltb, arith,
}
use fpm_tune.Common.Word.{add64, sub64, slt}
use fpm_tune.Common.Rational.{rational, rational-IsIeee}
use fpm_tune.State.Histogram.{
  Histogram, zeros, rss_buckets, bucket_from, histogram_bucket_at, bucket_of, bucket_floor,
  observe_rss, percentile, total_from, counts_of,
}
use fpm_tune.State.Histogram.Steady.{IsRecorded, Added, observe_rss-Recorded}

-- The whole part of a logarithm, and a power of the whole part.
abbrev log2_of : (fuel n : ℕ) → ℕ
log2_of zero n = 0
log2_of (suc fuel) n = let rest = log2_of fuel (n / 2) in if ltb n 2 then 0 else suc rest

abbrev log2 : ℕ × ℕ → ℕ × ℕ
log2 x = (log2_of 64 (x.0 / x.1), 1)

abbrev exp2 : ℕ × ℕ → ℕ × ℕ
exp2 x = (2 ^ (x.0 / x.1), 1)

-- Two workers of 1 MiB and two of 4 MiB, which lie eight buckets apart.
abbrev four : List ℕ
four = 2 ∷ 0 ∷ 0 ∷ 0 ∷ 0 ∷ 0 ∷ 0 ∷ 0 ∷ 2 ∷ zeros 55

bucket_of_a_worker : bucket_of rational log2 exp2 (5 * 2 ^ 20) ≡ 8
unfolding bucket_of slt sub64
bucket_of_a_worker = refl

median : percentile rational log2 exp2 (some four) (1, 2) ≡ 2 ^ 20
unfolding percentile histogram_bucket_at bucket_from total_from bucket_floor add64 sub64 slt
median = refl

upper_quartile : percentile rational log2 exp2 (some four) (3, 4) ≡ 4 * 2 ^ 20
unfolding percentile histogram_bucket_at bucket_from total_from bucket_floor add64 sub64 slt
upper_quartile = refl

observe_rss-Recorded_example :
    ((slt 0 (5 * 2 ^ 20) ≡ false)
      × (observe_rss rational log2 exp2 (some four) 4 (5 * 2 ^ 20) ≡ (some four, 4)))
    ⊎ ((slt 0 (5 * 2 ^ 20) ≡ true)
        × (r : Histogram) × (bucket : ℕ) × (observe_rss rational log2 exp2
              (some four)
              4
              (5 * 2 ^ 20)
            ≡ (some r.counts, r.samples))
        × (bucket < rss_buckets)
        × IsRecorded (some r.counts) r.samples
        × Added (record { counts = counts_of (some four); samples = 4 }) bucket r)
observe_rss-Recorded_example =
    observe_rss-Recorded rational rational-IsIeee log2 exp2 (some four) 4 (5 * 2 ^ 20)
      ((refl, omega arith), refl)
