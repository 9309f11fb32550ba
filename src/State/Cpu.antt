-- ===== src/State/Cpu.antt =====
-- state/cpu.go: the CPU share of each request, counted once.
use fpm_tune.Common.{
  ℕ, zero, suc, ◌+◌, Bool, false, not, ◌&&◌, ◌||◌, List, [], ◌∷◌, ◌++◌, Option, none, some,
  if◌then◌else◌, ◌==◌, get_elem?,
}
use fpm_tune.Common.Word.{slt, sle}
use fpm_tune.Common.Float.{Float}
use fpm_tune.Common.Map.{lookup, insert, nat_eq}
use fpm_tune.State.Types.{WorkerSample, PoolState, Options, learn_defaults}
use fpm_tune.State.Histogram.{histogram_add, histogram_bucket_at, zeros, read}

-- 5% steps to 100%, 25% steps to 400%, 100% steps to 3200%.
abbrev pub cpu_buckets : ℕ
cpu_buckets = 20 + 12 + 29

abbrev pub min_cpu_request_micros : ℕ
min_cpu_request_micros = 50_000

-- `count` floors from `from` on, `step` apart, in percent.
unfoldable pub floors_from : (from step count : ℕ) → List ℕ
floors_from from step zero = []
floors_from from step (suc count) = from ∷ floors_from (from + step) step count

unfoldable pub cpu_bucket_floors : List ℕ
unfolding floors_from
cpu_bucket_floors = floors_from 0 5 20 ++ (floors_from 100 25 12 ++ floors_from 400 100 29)

-- A nil histogram is made when it is first needed.
abbrev pub cpu_counts_of : Option (List ℕ) → List ℕ
cpu_counts_of none = zeros cpu_buckets
cpu_counts_of (some hist) = hist

-- Whether the counter is the one that was remembered.
abbrev pub is_same : Option ℕ → ℕ → Bool
is_same none requests = false
is_same (some prev) requests = requests == prev

abbrev pub remember : ℕ → Option ℕ → List (ℕ × ℕ) → List (ℕ × ℕ)
remember pid none seen = seen
remember pid (some prev) seen = insert pid prev seen

module _ (fl : Float) where
  open fl use {of_int, div, flt, fle}

  -- The loop of cpuBucketOf: the last floor that the percentage reaches, `i` where it reaches none.
  unfoldable pub bucket_after : fl.Num → (i : ℕ) → List ℕ → ℕ
  bucket_after percent i [] = i
  bucket_after percent i (floor ∷ floors) =
      let rest = bucket_after percent (suc i) floors in
      if fle (of_int floor) percent then rest else i

  -- The loop starts below the first floor.
  unfoldable pub cpu_bucket_of : fl.Num → ℕ
  unfolding bucket_after cpu_bucket_floors
  cpu_bucket_of percent = above cpu_bucket_floors
    where
      above : List ℕ → ℕ
      above [] = 0
      above (first ∷ floors) = bucket_after percent 0 floors

  -- A worker's reading is taken: a new request of a pool's own, long enough to be believed.
  unfoldable pub counts_request : (prev : Option ℕ) → WorkerSample fl → Bool
  counts_request prev w =
      not (is_same prev w.requests)
      && (not w.own_request
          && not (
              slt w.last_request_micros min_cpu_request_micros
              || flt w.last_request_cpu (of_int 0)))

  -- One worker of the loop: what is remembered of it, and its reading.
  unfoldable pub observe_worker :
      (before : List (ℕ × ℕ))
      → WorkerSample fl
      → List (ℕ × ℕ) × (Option (List ℕ) × ℕ)
      → List (ℕ × ℕ) × (Option (List ℕ) × ℕ)
  observe_worker before w (seen, (hist, samples)) =
      let prev = lookup w.pid before in
      let h =
        histogram_add (record { counts = cpu_counts_of hist; samples = samples })
          (cpu_bucket_of w.last_request_cpu) in
      if sle w.pid 0 || sle w.requests 0
      then (seen, (hist, samples))
      else (if not w.idle then (remember w.pid prev seen, (hist, samples)) else (
        insert w.pid w.requests seen,
        (if counts_request prev w then (some h.counts, h.samples) else (hist, samples)),
      ))

  unfoldable pub observe_workers :
      (before : List (ℕ × ℕ))
      → List (WorkerSample fl)
      → List (ℕ × ℕ) × (Option (List ℕ) × ℕ)
      → List (ℕ × ℕ) × (Option (List ℕ) × ℕ)
  observe_workers before [] r = r
  observe_workers before (w ∷ ws) r = observe_workers before ws (observe_worker before w r)

  unfoldable pub observe_cpu : List (WorkerSample fl) → PoolState fl → PoolState fl
  observe_cpu workers ps =
      let (seen, (hist, samples)) =
        observe_workers ps.cpu_seen workers ([], (ps.cpu_histogram, ps.cpu_samples)) in
      record ps { cpu_seen = seen; cpu_histogram = hist; cpu_samples = samples }

  unfoldable pub cpu_share : fl.Num → PoolState fl → fl.Num
  cpu_share p ps = elim (histogram_bucket_at fl (read ps.cpu_histogram) p) [
    | none ↦ of_int 0
    | some i ↦ elim (get_elem? cpu_bucket_floors i) [
      | none ↦ of_int 0
      | some floor ↦ div (of_int floor) (of_int 100)
    ]
  ]

  unfoldable pub cpu_shape_known : Options fl → PoolState fl → Bool
  cpu_shape_known opts ps = sle (learn_defaults fl opts).min_cpu_readings ps.cpu_samples
