-- ===== src/State/Histogram.antt =====
-- state/percentile.go: the distribution of worker memory, in buckets on a logarithmic scale.
pub mod Steady
pub mod Quantile
use fpm_tune.Common.{
  ℕ, zero, suc, ◌+◌, ◌*◌, ◌/◌, ◌%◌, ◌^◌, Bool, List, [], ◌∷◌, map, Option, none, some,
  if◌then◌else◌, ◌==◌, length, modify,
}
use fpm_tune.Common.Word.{add64, sub64, slt, sle}
use fpm_tune.Common.Float.{Float}

abbrev pub rss_buckets : ℕ
rss_buckets = 64

abbrev pub buckets_per_oct : ℕ
buckets_per_oct = 4

-- 1 MiB
abbrev pub first_bucket_log : ℕ
first_bucket_log = 20

abbrev pub decay_after : ℕ
decay_after = 4096

-- A histogram of uint32 counts, and the number of readings beside it.
pub record Histogram : Type 0 where
  pub counts : List ℕ
  pub samples : ℕ

unfoldable pub total_from : ℕ → List ℕ → ℕ
total_from n [] = n
total_from n (c ∷ cs) = total_from (add64 n c) cs

abbrev pub histogram_total : List ℕ → ℕ
histogram_total hist = total_from 0 hist

-- `hist[bucket]++` on uint32.
abbrev pub increment : ℕ → ℕ
increment c = (c + 1) % 2 ^ 32

abbrev pub halve : ℕ → ℕ
halve c = c / 2

-- Go panics where the bucket is out of range; bucket_of never is.
unfoldable pub histogram_add : Histogram → (bucket : ℕ) → Histogram
histogram_add h bucket =
    let hist = modify h.counts bucket increment in
    let samples = add64 h.samples 1 in
    if slt decay_after samples
    then record { counts = map halve hist; samples = histogram_total (map halve hist) }
    else record { counts = hist; samples = samples }

-- The loop of histogramBucketAt.
unfoldable pub bucket_from : (want seen i : ℕ) → List ℕ → Option ℕ
bucket_from want seen i [] = none
bucket_from want seen i (c ∷ cs) =
    let rest = bucket_from want (add64 seen c) (add64 i 1) cs in
    if sle want (add64 seen c) then some i else rest

-- make([]uint32, rssBuckets)
abbrev pub zeros : ℕ → List ℕ
zeros zero = []
zeros (suc n) = 0 ∷ zeros n

abbrev pub counts_of : Option (List ℕ) → List ℕ
counts_of none = zeros rss_buckets
counts_of (some hist) = hist

abbrev pub read : Option (List ℕ) → List ℕ
read none = []
read (some hist) = hist

module _ (fl : Float) where
  open fl use {Num, of_int, trunc, mul, div, add, sub, ceil, flt}

  -- The fraction within 0 and 1.
  abbrev pub clamped : Num → Num
  clamped p =
      let q = if flt p (of_int 0) then of_int 0 else p in if flt (of_int 1) q then of_int 1 else q

  -- The cumulative count to reach.
  abbrev pub wanted : Num → (total : ℕ) → ℕ
  wanted p total =
      let want = trunc (ceil (mul (clamped p) (of_int total))) in if slt want 1 then 1 else want

  unfoldable pub histogram_bucket_at : List ℕ → Num → Option ℕ
  unfolding bucket_from total_from
  histogram_bucket_at hist p =
      let total = histogram_total hist in
      if total == 0 then none else elim (bucket_from (wanted p total) 0 0 hist) [
        | none ↦ some (sub64 (length hist) 1)
        | some i ↦ some i
      ]

  -- math.Log2 and math.Exp2.
  module _ (log2 exp2 : Num → Num) where
    unfoldable pub bucket_of : (bytes : ℕ) → ℕ
    bucket_of bytes =
        let octaves = sub (log2 (of_int bytes)) (of_int first_bucket_log) in
        let i = trunc (mul octaves (of_int buckets_per_oct)) in
        if slt i 0 then 0 else (if sle rss_buckets i then sub64 rss_buckets 1 else i)

    unfoldable pub bucket_floor : (i : ℕ) → ℕ
    bucket_floor i =
        trunc (exp2 (add (of_int first_bucket_log) (div (of_int i) (of_int buckets_per_oct))))

    -- observeRSS; no counts where the slice is nil.
    unfoldable pub observe_rss : Option (List ℕ) → (samples bytes : ℕ) → Option (List ℕ) × ℕ
    unfolding bucket_of histogram_add
    observe_rss hist samples bytes =
        let h =
          histogram_add (record { counts = counts_of hist; samples = samples }) (bucket_of bytes) in
        if sle bytes 0 then (hist, samples) else (some h.counts, h.samples)

    -- Percentile; a nil slice is read as an empty one.
    unfoldable pub percentile : Option (List ℕ) → Num → ℕ
    unfolding histogram_bucket_at bucket_floor
    percentile hist p = elim (histogram_bucket_at (read hist) p) [
      | none ↦ 0
      | some i ↦ bucket_floor i
    ]
