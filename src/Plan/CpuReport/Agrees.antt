-- ===== src/Plan/CpuReport/Agrees.antt =====
-- plan/cpu.go: cpuOf reports the ceiling that poolFor gives a pool.
use fpm_tune.Common.{
  ℕ, ◌≡◌, arith, refl, sym, ◌∙◌, ap, Bool, true, Option, none, some, inl, inr, Bool-cases,
  Option-cases, if◌then◌else◌,
}
use fpm_tune.Common.Float.{Float}
use fpm_tune.State.Types.{PoolState, State, Options}
use fpm_tune.State.Cpu.{cpu_shape_known}
use fpm_tune.State.CpuLoad.{aggregate_cpu_share, aggregate_cpu_cores}
use fpm_tune.State.Sizing.{trusted}
use fpm_tune.Plan.Types.{Library, PoolView}
use fpm_tune.Plan.Cpu.{
  HostBusy, cpu_shape, box_cost, cpu_ceiling, saturated_host, driven_cores, fill_by, headroom_for,
  cpu_ceiling_for, aggregate_fill, fill_from, ceiling_from,
}
use fpm_tune.Allocate.Types.{Pool}
use fpm_tune.Plan.Pool.{
  Round, Found, record_of, remembered, judged, set_aside, room_for, is_unreadable, judge, pool_for,
}
use fpm_tune.Plan.CpuReport.{
  ShapeReport, PoolCpu, signal_of, fill_or, fill_of, shape_report, cpu_row, at_plan,
}

-- The ceiling of a row, none without a shape.
abbrev ceiling_shown : {fl : Float} → Option (ShapeReport fl) → ℕ
ceiling_shown none = 0
ceiling_shown (some r) = r.ceiling

-- The ceiling in a report's row.
abbrev pub ceiling_in : {fl : Float} → Option (PoolCpu fl) → ℕ
ceiling_in none = 0
ceiling_in (some row) = ceiling_shown row.shape

module _ (fl : Float) (lib : Library fl) (opts : Options fl) (host : ℕ) (host_headroom : fl.Num)
    (busy : HostBusy fl) (v : PoolView fl) (ps : PoolState fl) where
  abbrev own : fl.Num
  own = (headroom_for fl lib v.cpu_headroom host_headroom).headroom

  -- The choice between the two readings of the aggregate.
  abbrev chosen : fl.Num → ℕ × Bool
  chosen share = fill_by fl ps opts host share (
      if saturated_host fl busy
      then driven_cores fl host (aggregate_cpu_cores fl opts ps)
      else none)

  fill-chosen :
      (box : ℕ) (share : fl.Num)
      → aggregate_cpu_share fl opts ps ≡ some share
      → fill_of fl lib opts host host_headroom busy ps box true ≡ chosen share
  unfolding fill_of fill_or aggregate_fill fill_from
  fill-chosen box share e = rw e refl

  shape-ceiling :
      (bound : Bool) (planned : ℕ)
      → trusted opts ps ≡ true
      → ceiling_shown (
          shape_report fl lib opts host host_headroom busy v ps bound planned
            (signal_of fl lib opts host host_headroom busy ps))
        ≡ cpu_ceiling_for fl (some ps) opts host own busy
  unfolding shape_report signal_of fill_of cpu_ceiling_for aggregate_fill fill_from ceiling_from
  shape-ceiling bound planned t = elim (Bool-cases (cpu_shape_known fl opts ps)) [
    | inl k ↦ rw (t, k) refl
    | inr f ↦ elim (Option-cases (aggregate_cpu_share fl opts ps)) [
      | inl e ↦ rw (t, f, e) refl
      | inr (share, e) ↦
          let box = (box_cost fl ps opts (cpu_shape fl share).1).millicores in
          rw (t, f, e)
            (ap (λ (fill : ℕ × Bool). cpu_ceiling fl fill.0 host own) (fill-chosen box share e))
    ]
  ]

  row-ceiling :
      (allowed : ℕ × Bool)
      → trusted opts ps ≡ true
      → ceiling_in (cpu_row fl lib opts host host_headroom busy v (some ps) allowed)
        ≡ cpu_ceiling_for fl (some ps) opts host own busy
  unfolding cpu_row
  row-ceiling allowed t = shape-ceiling allowed.1 (at_plan allowed.0 v.current_max_children) t

module _ {fl : Float} (lib : Library fl) (r : Round fl) (v : PoolView fl) where
  aside-ceiling : (room : ℕ) (p : Pool) → (set_aside room p).cpu_ceiling ≡ p.cpu_ceiling
  unfolding set_aside
  aside-ceiling room p = ground arith

  judge-ceiling :
      (headroom : fl.Num) (found : Found fl) (s : State fl) (ps : PoolState fl)
      → r.cpu_ceiling ≡ true
      → record_of found ≡ some ps
      → (judge lib r headroom v found s).0.cpu_ceiling
        ≡ cpu_ceiling_for fl (some ps) r.opts r.host_millicores headroom r.busy
  unfolding judge judged
  judge-ceiling headroom found s ps on e = elim (Bool-cases (is_unreadable v)) [
    | inl t ↦ rw t (
        aside-ceiling (room_for v (record_of found)) (judged lib r headroom v (record_of found))
        ∙ rw (on, e) refl)
    | inr f ↦ rw (f, on, e) refl
  ]

  -- Of a pool whose record has a trusted baseline the report shows the ceiling that poolFor gives the
  -- pool for the plan of the round, whether it comes from requests, from the aggregate or from the
  -- cores of a saturated host; a pool without a ceiling shows none. The round limits pools by their
  -- CPU, and the report has the round's options, cores and load. What Build makes of the ceiling of a
  -- pool that is starved is not considered.
  pub cpu_row-agrees :
      (host_headroom : fl.Num) (ambiguous : Bool) (s : State fl) (ps : PoolState fl)
      (allowed : ℕ × Bool)
      → r.cpu_ceiling ≡ true
      → record_of (remembered ambiguous v s) ≡ some ps
      → trusted r.opts ps ≡ true
      → ceiling_in
          (cpu_row fl lib r.opts r.host_millicores host_headroom r.busy v (some ps) allowed)
        ≡ (pool_for lib r
            (headroom_for fl lib v.cpu_headroom host_headroom).headroom
            ambiguous
            v
            s).0.cpu_ceiling
  unfolding pool_for
  cpu_row-agrees host_headroom ambiguous s ps allowed on e t =
      row-ceiling fl lib r.opts r.host_millicores host_headroom r.busy v ps allowed t
      ∙ sym (judge-ceiling _ (remembered ambiguous v s) s ps on e)
