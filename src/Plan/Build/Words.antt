-- ===== src/Plan/Build/Words.antt =====
-- plan/plan.go: what poolFor makes of machine words are machine words.
use text.Mathlib.Text.{◌==◌ as str_eq}
use fpm_tune.Common.{
  ℕ, ◌<◌, ◌^◌, ◌≡◌, refl, String, Bool, true, false, not, All, Option, none, some, arith, inl, inr,
  Bool-cases,
}
use fpm_tune.Common.Word.{add64, sub64}
use fpm_tune.Common.Float.{Float, IsIeee}
use fpm_tune.Common.Map.{lookup, lookup-All, insert-All, string_eq}
use fpm_tune.State.Types.{PoolState, State, Options}
use fpm_tune.State.Store.{pool_key, lookup_scoped, legacy, unscoped}
use fpm_tune.State.Cpu.{cpu_shape_known}
use fpm_tune.State.Sizing.{trusted, sizing_bytes, sizing_bytes_at}
use fpm_tune.State.Histogram.{percentile}
use fpm_tune.State.Peak.{observe_peak, halved}
use fpm_tune.Plan.Types.{Library, PoolView, Profile}
use fpm_tune.Plan.Cpu.{clamped, HostBusy, cpu_ceiling, least_ceiling, ceiling_from, cpu_ceiling_for}
use fpm_tune.Plan.Pool.{
  Round, Found, record_of, found_by, keyed, remembered, sized, worker_cost_of, note_peak,
}

-- The numbers of a record that a plan is made from.
pub record IsRecord {fl : Float} (ps : PoolState fl) : Type 0 where
  pub last_peak : ps.last_peak_bytes < 2 ^ 64
  pub typical : ps.typical_peak_bytes < 2 ^ 64
  pub high : ps.high_water_bytes < 2 ^ 64
  pub peak : ps.peak_workers < 2 ^ 64

abbrev pub IsStore : {fl : Float} → State fl → Type 0
IsStore s = All (λ kp. IsRecord kp.1) s.pools

module _ {fl : Float} where
  -- A record that may be missing.
  abbrev pub IsKnown : Option (PoolState fl) → Type 0
  IsKnown none = Unit
  IsKnown (some ps) = IsRecord ps

  lookup-IsKnown :
      (key : String) (s : State fl) (o : Option (PoolState fl))
      → lookup key s.pools ≡ o
      → IsStore s
      → IsKnown o
  lookup-IsKnown key s none e h = tt
  lookup-IsKnown key s (some ps) e h = lookup-All IsRecord key s.pools h e

  unscoped-IsKnown : (o : Option (PoolState fl)) → IsKnown o → IsKnown (unscoped o)
  unfolding unscoped
  unscoped-IsKnown none h = tt
  unscoped-IsKnown (some ps) h = elim (Bool-cases (str_eq ps.master_config "")) [
    | inl t ↦ rw t h
    | inr f ↦ rw f tt
  ]

  keyed-IsKnown :
      (key : String) (o : Option (PoolState fl)) → IsKnown o → IsKnown (record_of (keyed key o))
  unfolding keyed record_of
  keyed-IsKnown key none h = tt
  keyed-IsKnown key (some ps) h = h

  found-IsKnown :
      (ambiguous : Bool) (v : PoolView fl) (s : State fl) (o : Option (PoolState fl))
      → IsKnown o
      → IsStore s
      → IsKnown (record_of (found_by ambiguous v s o))
  unfolding found_by record_of legacy
  found-IsKnown ambiguous v s (some ps) h k = h
  found-IsKnown true v s none h k = tt
  found-IsKnown false v s none h k =
      let old = lookup v.name s.pools in
      keyed-IsKnown v.name (unscoped old)
        (unscoped-IsKnown old (lookup-IsKnown v.name s old refl k))

  pub remembered-IsKnown :
      (ambiguous : Bool) (v : PoolView fl) (s : State fl)
      → IsStore s
      → IsKnown (record_of (remembered ambiguous v s))
  unfolding remembered lookup_scoped
  remembered-IsKnown ambiguous v s h =
      let key = pool_key v.config_path v.name in
      let own = lookup key s.pools in
      found-IsKnown ambiguous v s own (lookup-IsKnown key s own refl h) h

  observe_peak-IsRecord :
      (current at : ℕ) (opts : Options fl) (ps : PoolState fl)
      → current < 2 ^ 64
      → IsRecord ps
      → IsRecord (observe_peak current at opts ps)
  unfolding observe_peak halved sub64
  observe_peak-IsRecord current at opts ps c h = record {
    last_peak = ground (arith, h.last_peak);
    typical = ground (arith, h.typical);
    high = ground (arith, h.high);
    peak = ground (arith, h.peak, c);
  }

  pub note_peak-IsStore :
      (r : Round fl) (v : PoolView fl) (found : Found fl) (s : State fl)
      → v.observed_peak < 2 ^ 64
      → IsKnown (record_of found)
      → IsStore s
      → IsStore (note_peak r v found s).1
  unfolding note_peak record_of
  note_peak-IsStore r v none s c k h = h
  note_peak-IsStore r v (some kp) s c k h =
      insert-All IsRecord kp.0 _ s.pools
        (observe_peak-IsRecord v.observed_peak r.at r.opts kp.1 c k) h

  module _ (ieee : IsIeee fl) where
    sized-word :
        (lib : Library fl) (opts : Options fl) (ps : PoolState fl)
        → IsRecord ps
        → sized lib opts ps < 2 ^ 64
    unfolding sized sizing_bytes_at sizing_bytes
    sized-word lib opts ps h =
        let p = percentile fl lib.log2 lib.exp2 ps.rss_histogram opts.sizing.percentile in
        let scaled = fl.mul (fl.of_int p) (fl.add (fl.of_int 1) opts.sizing.margin) in
        ground (arith, h.last_peak, h.typical, h.high, ieee.trunc_word scaled)

    pub worker_cost-word :
        (lib : Library fl) (opts : Options fl) (p : Profile fl) (o : Option (PoolState fl))
        → p.worker_bytes < 2 ^ 64
        → IsKnown o
        → (worker_cost_of lib opts p o).0 < 2 ^ 64
    unfolding worker_cost_of
    worker_cost-word lib opts p none w h = w
    worker_cost-word lib opts p (some ps) w h = ground (arith, w, sized-word lib opts ps h)

    cpu_ceiling-word :
        (fill host : ℕ) (headroom : fl.Num) → cpu_ceiling fl fill host headroom < 2 ^ 64
    unfolding cpu_ceiling least_ceiling add64
    cpu_ceiling-word fill host headroom =
        ground (arith, ieee.trunc_word (fl.ceil (fl.mul (fl.of_int fill) (clamped fl headroom))))

    ceiling_from-word :
        (o : Option (ℕ × Bool)) (host : ℕ) (headroom : fl.Num)
        → ceiling_from fl o host headroom < 2 ^ 64
    unfolding ceiling_from
    ceiling_from-word none host headroom = omega arith
    ceiling_from-word (some fill) host headroom = cpu_ceiling-word fill.0 host headroom

    pub cpu_ceiling_for-word :
        (o : Option (PoolState fl)) (opts : Options fl) (host : ℕ) (headroom : fl.Num)
        → (busy : HostBusy fl) → cpu_ceiling_for fl o opts host headroom busy < 2 ^ 64
    unfolding cpu_ceiling_for
    cpu_ceiling_for-word none opts host headroom busy = omega arith
    cpu_ceiling_for-word (some ps) opts host headroom busy =
        elim (Bool-cases (not (trusted opts ps))) [
          | inl t ↦ rw t (omega arith)
          | inr f ↦ elim (Bool-cases (cpu_shape_known fl opts ps)) [
            | inl t ↦ rw (f, t) (cpu_ceiling-word _ host headroom)
            | inr g ↦ rw (f, g) (ceiling_from-word _ host headroom)
          ]
        ]
