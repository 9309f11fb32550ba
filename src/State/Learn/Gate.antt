-- ===== src/State/Learn/Gate.antt =====
-- state/state.go: what an observation that teaches nothing leaves alone.
use text.Mathlib.Text.{◌==◌ as str_eq}
use fpm_tune.Common.{
  ℕ, ◌≡◌, refl, sym, subst, inl, inr, Bool, true, false, ◌&&◌, ◌||◌, List, Option, some,
  if◌then◌else◌, ◌==◌, length, Bool-cases, arith,
}
use fpm_tune.Common.Word.{add64, slt, sle}
use fpm_tune.Common.Float.{Float}
use fpm_tune.Common.Time.{sub_time, seconds}
use fpm_tune.State.Types.{Observation, PoolState, Options}
use fpm_tune.State.Cpu.{observe_cpu}
use fpm_tune.State.Sizing.{sizing_bytes, confidence, trusted}
use fpm_tune.State.Learn.{
  Readings, gap_multiple, observe_interval, count_immature, note_scrape, readings_of, learn_pool,
  work_ratio, teaches,
}

-- What only a scrape that teaches changes: the peaks and the high waters, the busy samples with
-- their times, the peak of workers, and what was applied. The histograms are not among it.
pub record SameBaseline {fl : Float} (ps ps' : PoolState fl) : Type 0 where
  pub typical : ps'.typical_peak_bytes ≡ ps.typical_peak_bytes
  pub high : ps'.high_water_bytes ≡ ps.high_water_bytes
  pub subtree : ps'.subtree_high_water_bytes ≡ ps.subtree_high_water_bytes
  pub child : ps'.child_per_worker_high_water_bytes ≡ ps.child_per_worker_high_water_bytes
  pub busy : ps'.busy_samples ≡ ps.busy_samples
  pub first_busy : ps'.first_busy_at ≡ ps.first_busy_at
  pub last_busy : ps'.last_busy_at ≡ ps.last_busy_at
  pub peak : ps'.last_peak_bytes ≡ ps.last_peak_bytes
  pub peak_time : ps'.last_peak_at ≡ ps.last_peak_at
  pub workers : ps'.peak_workers ≡ ps.peak_workers
  pub applied : ps'.last_applied_max_children ≡ ps.last_applied_max_children
  pub applied_time : ps'.last_applied_at ≡ ps.last_applied_at

-- What every scrape notes, whether it teaches or not.
pub record Noted {fl : Float} (obs : Observation fl) (ps ps' : PoolState fl) : Type 0 where
  pub baseline : SameBaseline ps ps'
  pub accepted : ps'.last_accepted ≡ obs.accepted
  pub samples : ps'.samples ≡ add64 ps.samples 1
  pub updated : ps'.last_updated ≡ some obs.at

module _ (fl : Float) (log2 exp2 : fl.Num → fl.Num) (obs : Observation fl) (opts : Options fl) where
  -- observeInterval changes the usual interval alone.
  observe_interval-only :
      (since : ℕ) (ps : PoolState fl)
      → (x : fl.Num) × (observe_interval fl since opts ps
          ≡ record ps { typical_interval_seconds = x })
  unfolding observe_interval
  observe_interval-only since ps = elim (Bool-cases (sle since 0 || slt opts.max_decay_gap since)) [
    | inl t ↦ (ps.typical_interval_seconds, rw t)
    | inr f ↦ elim (Bool-cases (fl.fle ps.typical_interval_seconds (fl.of_int 0))) [
      | inl t ↦ (seconds fl since, rw (f, t))
      | inr g ↦
          elim (Bool-cases (
            fl.flt (fl.mul (fl.of_int gap_multiple) ps.typical_interval_seconds)
              (seconds fl since))) [
                | inl t ↦ (ps.typical_interval_seconds, rw (f, g, t))
                | inr h ↦ (
                  fl.add
                      (fl.mul (fl.sub (fl.of_int 1) (fl.div (fl.of_int 1) (fl.of_int 4)))
                        ps.typical_interval_seconds)
                      (fl.mul (fl.div (fl.of_int 1) (fl.of_int 4)) (seconds fl since)),
                  rw (f, g, h),
                )
              ]
    ]
  ]

  abbrev scraped : PoolState fl → PoolState fl
  scraped timed = record timed {
    samples = add64 timed.samples 1;
    last_updated = some obs.at;
    master_config = if str_eq obs.master_config "" then timed.master_config else obs.master_config;
  }

  note_scrape-Noted :
      (since : ℕ) (ps : PoolState fl) → Noted obs ps (note_scrape fl log2 exp2 obs opts since ps)
  unfolding note_scrape observe_cpu
  note_scrape-Noted since ps =
      let (x, e) = observe_interval-only since (record ps { last_accepted = obs.accepted }) in
      subst (λ (timed : PoolState fl). Noted obs ps (observe_cpu fl obs.workers (scraped timed)))
        (sym e)
        (record {
          baseline = record {
            typical = refl;
            high = refl;
            subtree = refl;
            child = refl;
            busy = refl;
            first_busy = refl;
            last_busy = refl;
            peak = refl;
            peak_time = refl;
            workers = refl;
            applied = refl;
            applied_time = refl;
          };
          accepted = refl;
          samples = refl;
          updated = refl;
        })

  count_immature-only :
      (workers : ℕ) (served : Bool) (r : Readings) (ps : PoolState fl)
      → (n : ℕ) × (count_immature fl log2 exp2 workers served r ps
          ≡ record ps { immature_rounds = n })
  unfolding count_immature
  count_immature-only workers served r ps =
      elim (Bool-cases (r.mature == 0 && (slt 0 workers && served))) [
        | inl t ↦ (add64 ps.immature_rounds 1, rw t)
        | inr f ↦ elim (Bool-cases (slt 0 r.mature)) [
          | inl t ↦ (0, rw (f, t))
          | inr g ↦ (ps.immature_rounds, rw (f, g))
        ]
      ]

  reread :
      (ps ps' : PoolState fl) (hist : Option (List ℕ)) (n k : ℕ)
      → Noted obs ps ps'
      → Noted obs ps (record ps' { rss_histogram = hist; rss_samples = n; immature_rounds = k })
  reread ps ps' hist n k v = ground arith

  abbrev ends : (unread teaching : Bool) → (x y z : PoolState fl) → PoolState fl × Bool
  ends unread teaching x y z =
      if unread then (x, false) else (if teaching then (y, true) else (z, false))

  -- The record at each of Learn's returns.
  abbrev pub readings : (since : ℕ) → PoolState fl → Readings
  readings since ps =
      readings_of fl log2 exp2 opts obs.workers (note_scrape fl log2 exp2 obs opts since ps)

  abbrev pub read_of : (since : ℕ) → PoolState fl → PoolState fl
  read_of since ps = record (note_scrape fl log2 exp2 obs opts since ps) {
    rss_histogram = (readings since ps).rss_histogram;
    rss_samples = (readings since ps).rss_samples;
  }

  abbrev pub counted_of : (since : ℕ) → (served : Bool) → PoolState fl → PoolState fl
  counted_of since served ps =
      count_immature fl log2 exp2 (length obs.workers) served (readings since ps) (read_of since ps)

  pub read_of-Noted : (since : ℕ) (ps : PoolState fl) → Noted obs ps (read_of since ps)
  read_of-Noted since ps =
      let noted = note_scrape fl log2 exp2 obs opts since ps in
      reread ps noted (readings since ps).rss_histogram (readings since ps).rss_samples
        noted.immature_rounds (note_scrape-Noted since ps)

  pub counted_of-Noted :
      (since : ℕ) (served : Bool) (ps : PoolState fl) → Noted obs ps (counted_of since served ps)
  counted_of-Noted since served ps =
      let noted = note_scrape fl log2 exp2 obs opts since ps in
      let (n, e) =
        count_immature-only (length obs.workers) served (readings since ps) (read_of since ps) in
      subst (Noted obs ps) (sym e) (
        reread ps noted (readings since ps).rss_histogram (readings since ps).rss_samples n
          (note_scrape-Noted since ps))

  -- Of the three ends of learn_pool, two teach nothing.
  unmoved :
      (P : PoolState fl → Type 0) (unread teaching : Bool) (x y z : PoolState fl)
      → P x
      → P z
      → (ends unread teaching x y z).1 ≡ false
      → P (ends unread teaching x y z).0
  unmoved P true teaching x y z p q h = p
  unmoved P false true x y z p q h = cc
  unmoved P false false x y z p q h = q

  untaught-Noted :
      (ps : PoolState fl)
      → (learn_pool fl log2 exp2 obs opts ps).1 ≡ false
      → Noted obs ps (learn_pool fl log2 exp2 obs opts ps).0
  unfolding learn_pool
  untaught-Noted ps h =
      let since = sub_time (some obs.at) ps.last_updated in
      let served = fl.flt (fl.of_int 0) (work_ratio fl ps obs.accepted opts since) in
      unmoved (Noted obs ps) (sle (readings since ps).peak 0)
        (teaches fl log2 exp2 opts served (readings since ps) (counted_of since served ps))
        (read_of since ps) _ (counted_of since served ps) (read_of-Noted since ps)
        (counted_of-Noted since served ps) h

  sizing_bytes-same :
      (ps ps' : PoolState fl) → SameBaseline ps ps' → sizing_bytes ps' ≡ sizing_bytes ps
  unfolding sizing_bytes
  sizing_bytes-same ps ps' b = rw (b.peak, b.typical, b.high) refl

  trusted-same : (ps ps' : PoolState fl) → SameBaseline ps ps' → trusted opts ps' ≡ trusted opts ps
  unfolding trusted confidence
  trusted-same ps ps' b = rw (b.busy, b.first_busy, b.last_busy, b.typical) refl

  -- An observation that teaches nothing is noted: the requests accepted, one more sample and its time.
  -- It leaves the peaks, the high waters and the busy samples alone, the peak of workers and what was
  -- applied to the pool; so SizingBytes is what it was, and whether the baseline is trusted. The
  -- histogram of worker sizes, which SizingBytesAt reads, is not among what it leaves alone.
  pub learn_pool-Noted :
      (ps : PoolState fl)
      → (learn_pool fl log2 exp2 obs opts ps).1 ≡ false
      → Noted obs ps (learn_pool fl log2 exp2 obs opts ps).0
        × (sizing_bytes (learn_pool fl log2 exp2 obs opts ps).0 ≡ sizing_bytes ps)
        × (trusted opts (learn_pool fl log2 exp2 obs opts ps).0 ≡ trusted opts ps)
  learn_pool-Noted ps h =
      let n = untaught-Noted ps h in
      (n, sizing_bytes-same ps _ n.baseline, trusted-same ps _ n.baseline)
