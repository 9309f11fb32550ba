-- ===== src/State/Learn/Water.antt =====
-- state/state.go: the peak of a scrape, and the high water that learning keeps.
use fpm_tune.Common.{
  ℕ, ◌^◌, ◌≤◌, ◌<◌, ◌≡◌, refl, sym, subst, ◌∙◌, ◌⊎◌, inl, inr, Bool, true, false, ◌&&◌, List, [],
  ◌∷◌, some, if◌then◌else◌, Bool-cases, ltb→lt, All, Any, arith,
}
use fpm_tune.Common.Word.{slt, sle, slt_small}
use fpm_tune.Common.Float.{Float}
use fpm_tune.Common.Time.{sub_time}
use fpm_tune.State.Types.{WorkerSample, Observation, PoolState, Options}
use fpm_tune.State.Learn.{
  Readings, larger, cost_of, read_worker, read_workers, readings_of, count_busy, raise_water,
  absorb, learn_pool, note_scrape, work_ratio, teaches, capped_since,
}
use fpm_tune.State.Learn.Gate.{Noted, readings, read_of-Noted, counted_of, counted_of-Noted}

larger_max :
    (a b : ℕ)
    → a < 2 ^ 63
    → b < 2 ^ 63
    → (larger a b < 2 ^ 63)
      × (a ≤ larger a b)
      × (b ≤ larger a b)
      × ((larger a b ≡ a) ⊎ (larger a b ≡ b))
unfolding slt
larger_max a b h k = ground arith

-- The sizes that a scrape reports are int64s that are not negative.
pub record IsSample {fl : Float} (w : WorkerSample fl) : Type 0 where
  pub rss : w.rss_bytes < 2 ^ 63
  pub pss : w.pss_bytes < 2 ^ 63
  pub subtree : w.subtree_rss_bytes < 2 ^ 63

-- The high water is above the last peak and below that of the process trees.
pub record IsWatered {fl : Float} (ps : PoolState fl) : Type 0 where
  pub small : ps.subtree_high_water_bytes < 2 ^ 63
  pub last : ps.last_peak_bytes ≤ ps.high_water_bytes
  pub trees : ps.high_water_bytes ≤ ps.subtree_high_water_bytes

module _ (fl : Float) (log2 exp2 : fl.Num → fl.Num) (opts : Options fl) where
  cost_small : (w : WorkerSample fl) → IsSample w → cost_of fl log2 exp2 w < 2 ^ 63
  unfolding cost_of slt
  cost_small w v = ground arith

  -- The peak is the largest cost of a worker with a reading.
  abbrev pub IsPeak : List (WorkerSample fl) → (from peak : ℕ) → Type 0
  IsPeak ws from peak =
      All (λ w. slt 0 w.rss_bytes ≡ true → cost_of fl log2 exp2 w ≤ peak) ws
      × (from ≤ peak)
      × ((peak ≡ from) ⊎ Any (λ w. (slt 0 w.rss_bytes ≡ true) × (peak ≡ cost_of fl log2 exp2 w)) ws)

  counted-IsPeak :
      (w : WorkerSample fl) (ws : List (WorkerSample fl)) (from next peak : ℕ)
      → slt 0 w.rss_bytes ≡ true
      → cost_of fl log2 exp2 w ≤ next
      → from ≤ next
      → (next ≡ from) ⊎ (next ≡ cost_of fl log2 exp2 w)
      → IsPeak ws next peak
      → IsPeak (w ∷ ws) from peak
  counted-IsPeak w ws from next peak t c f choice (all, le, attained) =
      (((λ _. omega arith), all), omega arith, go attained choice)
    where
      go :
          (peak ≡ next) ⊎ Any (λ w. (slt 0 w.rss_bytes ≡ true) × (peak ≡ cost_of fl log2 exp2 w)) ws
          → (next ≡ from) ⊎ (next ≡ cost_of fl log2 exp2 w)
          → (peak ≡ from)
            ⊎ Any (λ w. (slt 0 w.rss_bytes ≡ true) × (peak ≡ cost_of fl log2 exp2 w)) (w ∷ ws)
      go (inl e) (inl old) = inl (e ∙ old)
      go (inl e) (inr new) = inr (inl (t, e ∙ new))
      go (inr any) choice = inr (inr any)

  skipped-IsPeak :
      (w : WorkerSample fl) (ws : List (WorkerSample fl)) (from peak : ℕ)
      → slt 0 w.rss_bytes ≡ false
      → IsPeak ws from peak
      → IsPeak (w ∷ ws) from peak
  skipped-IsPeak w ws from peak f (all, le, attained) = (
    ((λ t. let wrong : true ≡ false = sym t ∙ f in absurd cc), all),
    le,
    elim attained [ inl e ↦ inl e | inr any ↦ inr (inr any) ],
  )

  read_worker-peak :
      (w : WorkerSample fl) (r : Readings)
      → (read_worker fl log2 exp2 opts w r).peak
        ≡ (if sle w.rss_bytes 0 then r.peak else larger r.peak (cost_of fl log2 exp2 w))
  unfolding read_worker
  read_worker-peak w r = elim (Bool-cases (slt 0 w.rss_bytes)) [ inl t ↦ rw t | inr f ↦ rw f ]

  read_worker-subtree :
      (w : WorkerSample fl) (r : Readings)
      → (read_worker fl log2 exp2 opts w r).subtree_peak ≡ (
          if sle w.rss_bytes 0
          then r.subtree_peak
          else larger r.subtree_peak (larger w.subtree_rss_bytes w.rss_bytes))
  unfolding read_worker
  read_worker-subtree w r = elim (Bool-cases (slt 0 w.rss_bytes)) [ inl t ↦ rw t | inr f ↦ rw f ]

  read_workers-IsPeak :
      (ws : List (WorkerSample fl)) (r : Readings)
      → All IsSample ws
      → r.peak < 2 ^ 63
      → r.subtree_peak < 2 ^ 63
      → IsPeak ws r.peak (read_workers fl log2 exp2 opts ws r).peak
        × ((read_workers fl log2 exp2 opts ws r).peak < 2 ^ 63)
        × ((read_workers fl log2 exp2 opts ws r).subtree_peak < 2 ^ 63)
  unfolding read_workers
  read_workers-IsPeak [] r v h k = ((tt, omega arith, inl refl), h, k)
  read_workers-IsPeak (w ∷ ws) r v h k =
      let c = cost_small w v.0 in
      let s = larger_max w.subtree_rss_bytes w.rss_bytes v.0.subtree v.0.rss in
      let m = larger_max r.peak (cost_of fl log2 exp2 w) h c in
      let z = larger_max r.subtree_peak (larger w.subtree_rss_bytes w.rss_bytes) k s.0 in
      let r' = read_worker fl log2 exp2 opts w r in
      elim (Bool-cases (slt 0 w.rss_bytes)) [
        | inl t ↦
            let p : r'.peak ≡ larger r.peak (cost_of fl log2 exp2 w) =
              read_worker-peak w r ∙ rw t in
            let q : r'.subtree_peak
                ≡ larger r.subtree_peak (larger w.subtree_rss_bytes w.rss_bytes) =
              read_worker-subtree w r ∙ rw t in
            let (ih, peak_small, tree_small) =
              read_workers-IsPeak ws r' v.1 (omega (arith, m)) (omega (arith, z)) in
            (
              counted-IsPeak w ws r.peak r'.peak (read_workers fl log2 exp2 opts ws r').peak t
                  (omega (arith, m)) (omega (arith, m))
                  (elim m.3 [ inl e ↦ inl (p ∙ e) | inr e ↦ inr (p ∙ e) ]) ih,
              peak_small,
              tree_small,
            )
        | inr f ↦
            let p : r'.peak ≡ r.peak = read_worker-peak w r ∙ rw f in
            let q : r'.subtree_peak ≡ r.subtree_peak = read_worker-subtree w r ∙ rw f in
            let (ih, peak_small, tree_small) =
              read_workers-IsPeak ws r' v.1 (omega arith) (omega arith) in
            (
              skipped-IsPeak w ws r.peak (read_workers fl log2 exp2 opts ws r').peak f
                  (subst (λ from. IsPeak ws from (read_workers fl log2 exp2 opts ws r').peak) p ih),
              peak_small,
              tree_small,
            )
      ]

  readings-IsPeak :
      (ws : List (WorkerSample fl)) (ps : PoolState fl)
      → All IsSample ws
      → IsPeak ws 0 (readings_of fl log2 exp2 opts ws ps).peak
        × ((readings_of fl log2 exp2 opts ws ps).peak < 2 ^ 63)
        × ((readings_of fl log2 exp2 opts ws ps).subtree_peak < 2 ^ 63)
  unfolding readings_of
  readings-IsPeak ws ps v = read_workers-IsPeak ws _ v (omega arith) (omega arith)

  -- The marks that learning from readings sets.
  absorb-marks :
      (worked : Bool) (at effective : ℕ) (r : Readings) (ps : PoolState fl)
      → let ps' = absorb fl log2 exp2 opts worked at effective r ps in
        (ps'.last_peak_bytes ≡ r.peak)
        × (ps'.last_peak_at ≡ some at)
        × (ps'.high_water_bytes ≡ larger ps.high_water_bytes r.peak)
        × (ps'.subtree_high_water_bytes
            ≡ larger
                (larger ps.subtree_high_water_bytes r.subtree_peak)
                (larger ps.high_water_bytes r.peak))
  unfolding absorb raise_water count_busy
  absorb-marks worked at effective r ps =
      elim (Bool-cases (worked && sle opts.min_mature_workers r.mature)) [
        | inl t ↦ rw t (refl, refl, refl, refl)
        | inr f ↦ rw f (refl, refl, refl, refl)
      ]

  -- What an observation does to the marks of a pool.
  pub record Marks (obs : Observation fl) (ps : PoolState fl) (out : PoolState fl × Bool)
      : Type 0 where
    pub watered : IsWatered out.0
    pub high : ps.high_water_bytes ≤ out.0.high_water_bytes
    pub trees : ps.subtree_high_water_bytes ≤ out.0.subtree_high_water_bytes
    pub refused : out.1 ≡ false → out.0.last_peak_bytes ≡ ps.last_peak_bytes
    pub taught :
        out.1 ≡ true
        → (0 < out.0.last_peak_bytes)
          × (out.0.last_peak_at ≡ some obs.at)
          × IsPeak obs.workers 0 out.0.last_peak_bytes

  Noted-Marks :
      (obs : Observation fl) (ps ps' : PoolState fl)
      → IsWatered ps
      → Noted obs ps ps'
      → Marks obs ps (ps', false)
  Noted-Marks obs ps ps' v n = record {
    watered = record { small = omega arith; last = omega arith; trees = omega arith };
    high = omega arith;
    trees = omega arith;
    refused = λ _. n.baseline.peak;
    taught = λ t. cc;
  }

  absorb-Marks :
      (obs : Observation fl) (worked : Bool) (effective : ℕ) (r : Readings) (ps ps' : PoolState fl)
      → IsWatered ps
      → Noted obs ps ps'
      → r.peak < 2 ^ 63
      → r.subtree_peak < 2 ^ 63
      → 0 < r.peak
      → IsPeak obs.workers 0 r.peak
      → Marks obs ps (absorb fl log2 exp2 opts worked obs.at effective r ps', true)
  absorb-Marks obs worked effective r ps ps' v n small tree pos peak =
      let m = absorb-marks worked obs.at effective r ps' in
      let a =
        larger_max ps'.high_water_bytes r.peak (omega (arith, n.baseline.high, v.trees, v.small))
          small in
      let b =
        larger_max ps'.subtree_high_water_bytes r.subtree_peak
          (omega (arith, n.baseline.subtree, v.small)) tree in
      let c =
        larger_max (larger ps'.subtree_high_water_bytes r.subtree_peak)
          (larger ps'.high_water_bytes r.peak) b.0 a.0 in
      record {
        watered = record {
          small = omega (arith, m, c);
          last = omega (arith, m, a);
          trees = omega (arith, m, c);
        };
        high = omega (arith, m, a, n.baseline.high);
        trees = omega (arith, m, b, c, n.baseline.subtree);
        refused = λ f. cc;
        taught = λ t. (omega (arith, m), m.1, subst (IsPeak obs.workers 0) (sym m.0) peak);
      }

  -- Whatever a scrape brings, the high water of a pool stays above its last peak and below that of the
  -- process trees, and neither falls. An observation that teaches sets the last peak to the largest
  -- cost of a worker with a reading, which is positive; any other leaves it. The sizes are int64s
  -- that are not negative.
  pub learn_pool-Marks :
      (obs : Observation fl) (ps : PoolState fl)
      → All IsSample obs.workers
      → IsWatered ps
      → Marks obs ps (learn_pool fl log2 exp2 obs opts ps)
  unfolding learn_pool
  learn_pool-Marks obs ps v w =
      let since = sub_time (some obs.at) ps.last_updated in
      let served = fl.flt (fl.of_int 0) (work_ratio fl ps obs.accepted opts since) in
      let r = readings fl log2 exp2 obs opts since ps in
      let counted = counted_of fl log2 exp2 obs opts since served ps in
      let (peak, small, tree) =
        readings-IsPeak obs.workers (note_scrape fl log2 exp2 obs opts since ps) v in
      elim (Bool-cases (slt 0 r.peak)) [
        | inr f ↦ rw f (Noted-Marks obs ps _ w (read_of-Noted fl log2 exp2 obs opts since ps))
        | inl t ↦ elim (Bool-cases (teaches fl log2 exp2 opts served r counted)) [
          | inr f ↦
              rw (t, f)
                (Noted-Marks obs ps _ w (counted_of-Noted fl log2 exp2 obs opts since served ps))
          | inl g ↦
              let pos : 0 < r.peak =
                ltb→lt 0 r.peak (sym (slt_small 0 r.peak (omega arith) small) ∙ t) in
              rw (t, g)
                (absorb-Marks obs (fl.fle (fl.of_int 1) (work_ratio fl ps obs.accepted opts since))
                  (capped_since fl ps since) r ps counted w
                  (counted_of-Noted fl log2 exp2 obs opts since served ps) small tree pos peak)
        ]
      ]
