-- ===== src/Plan/Pool/Careful.antt =====
-- plan/plan.go: poolFor never cuts a pool, nor cheapens its workers, on evidence that it cannot trust.
use fpm_tune.Common.{
  ℕ, ◌⊎◌, ◌∙◌, subst, ◌≡◌, ◌≢◌, refl, sym, inl, inr, Bool, true, false, Option, none, some, arith,
  Bool-cases,
}
use fpm_tune.Common.Word.{slt, slt_irrefl}
use fpm_tune.Common.Float.{Float}
use fpm_tune.State.Types.{PoolState, State, Options}
use fpm_tune.State.Sizing.{trusted}
use fpm_tune.Allocate.Types.{Pool}
use fpm_tune.Plan.Types.{Library, PoolView, Profile}
use fpm_tune.Plan.Pool.{
  Round, Found, record_of, remembered, worker_cost_of, larger, peak_of, is_reducible, is_unreadable,
  room_for, judged, set_aside, hit_ceiling, judge, pool_for,
}

module _ {fl : Float} where
  -- A record that has seen the pool's workers busy.
  pub data IsWatched : Option (PoolState fl) → Type 0 where
    watched : {ps : PoolState fl} → ps.busy_samples ≢ 0 → IsWatched (some ps)

  -- A record whose baseline is trusted.
  pub data IsTrusted (opts : Options fl) : Option (PoolState fl) → Type 0 where
    proven : {ps : PoolState fl} → trusted opts ps ≡ true → IsTrusted opts (some ps)

  -- The configured workers of a pool, all that were seen and all that are remembered are within `room`,
  -- which is one of these numbers.
  pub record IsRoom (v : PoolView fl) (ps : Option (PoolState fl)) (room : ℕ) : Type 0 where
    pub configured : slt room v.current_max_children ≡ false
    pub seen : slt room v.observed_peak ≡ false
    pub remembered : (q : PoolState fl) → ps ≡ some q → slt room q.peak_workers ≡ false
    pub least :
        (room ≡ v.current_max_children)
        ⊎ ((room ≡ v.observed_peak)
            ⊎ ((q : PoolState fl) × (ps ≡ some q) × (room ≡ q.peak_workers)))

  -- A pool for which nothing can be written: the room for all its workers is its floor and its
  -- ceiling, it asks for no more, and the store stays as it is.
  pub record IsAside (v : PoolView fl) (ps : Option (PoolState fl)) (s : State fl) (p : Pool)
      (s' : State fl) : Type 0 where
    pub unknown : p.unknown ≡ true
    pub kept : p.reducible ≡ false
    pub store : s' ≡ s
    pub room :
        slt 0 (room_for v ps) ≡ true
        → (p.floor ≡ room_for v ps) × (p.ceiling ≡ room_for v ps) × (p.observed_peak ≡ 0)
    pub covers : IsRoom v ps (room_for v ps)

  -- A pool that can be written: cut only on a trusted baseline, held at its own size without one.
  pub record IsJudged (opts : Options fl) (v : PoolView fl) (ps : Option (PoolState fl)) (p : Pool)
      : Type 0 where
    pub unknown : p.unknown ≡ false
    pub cut : p.reducible ≡ true → IsTrusted opts ps
    pub held :
        p.reducible ≡ false → slt 0 v.current_max_children ≡ true → p.floor ≡ v.current_max_children
    pub hit : p.hit_max_children ≡ hit_ceiling v ps

  pub record IsCareful (r : Round fl) (v : PoolView fl) (ps : Option (PoolState fl)) (s : State fl)
      (out : Pool × State fl) : Type 0 where
    pub name : out.0.name ≡ v.name
    pub aside : is_unreadable v ≡ true → IsAside v ps s out.0 out.1
    pub judged : is_unreadable v ≡ false → IsJudged r.opts v ps out.0
    pub cost : slt out.0.worker_bytes r.profile.worker_bytes ≡ true → IsWatched ps

  reducible-IsTrusted :
      (opts : Options fl) (ps : Option (PoolState fl))
      → is_reducible opts ps ≡ true
      → IsTrusted opts ps
  unfolding is_reducible
  reducible-IsTrusted opts none e = cc
  reducible-IsTrusted opts (some ps) e = proven e

  module _ (lib : Library fl) where
    cost-IsWatched :
        (opts : Options fl) (profile : Profile fl) (ps : Option (PoolState fl))
        → slt (worker_cost_of lib opts profile ps).0 profile.worker_bytes ≡ true
        → IsWatched ps
    unfolding worker_cost_of
    cost-IsWatched opts profile none e = let same = slt_irrefl profile.worker_bytes in cc
    cost-IsWatched opts profile (some ps) e =
        watched (λ z. ground (arith, slt_irrefl profile.worker_bytes, z, e))

    larger-covers : (a b : ℕ) → (slt (larger a b) a ≡ false) × (slt (larger a b) b ≡ false)
    unfolding slt
    larger-covers a b = (ground arith, ground arith)

    larger-either : (a b : ℕ) → (larger a b ≡ a) ⊎ (larger a b ≡ b)
    larger-either a b = ground arith

    sle_trans : (a b c : ℕ) → slt a b ≡ false → slt b c ≡ false → slt a c ≡ false
    unfolding slt
    sle_trans a b c h k = ground (arith, h, k)

    room_for-IsRoom : (v : PoolView fl) (ps : Option (PoolState fl)) → IsRoom v ps (room_for v ps)
    unfolding room_for peak_of
    room_for-IsRoom v none =
        let c = larger-covers v.current_max_children v.observed_peak in
        record {
          configured = c.0;
          seen = c.1;
          remembered = λ q e. cc;
          least = elim (larger-either v.current_max_children v.observed_peak) [
            | inl e ↦ inl e
            | inr e ↦ inr (inl e)
          ];
        }
    room_for-IsRoom v (some q) =
        let least = larger v.current_max_children v.observed_peak in
        let c = larger-covers v.current_max_children v.observed_peak in
        let d = larger-covers least q.peak_workers in
        record {
          configured = sle_trans _ least _ d.0 c.0;
          seen = sle_trans _ least _ d.0 c.1;
          remembered = λ r e.
              subst (λ (x : PoolState fl). slt (larger least q.peak_workers) x.peak_workers ≡ false)
                (same e) d.1;
          least = elim (larger-either least q.peak_workers) [
            | inr e ↦ inr (inr (q, refl, e))
            | inl e ↦ elim (larger-either v.current_max_children v.observed_peak) [
              | inl f ↦ inl (e ∙ f)
              | inr f ↦ inr (inl (e ∙ f))
            ]
          ];
        }
      where
        same : {a b : PoolState fl} → some a ≡ some b → a ≡ b
        same e = cc

    -- A pool set aside keeps what the first part of poolFor gave it, but its floor and its want.
    set_aside-IsAside :
        (r : Round fl) (headroom : fl.Num) (v : PoolView fl) (ps : Option (PoolState fl))
        (s : State fl)
        → IsAside v ps s (set_aside (room_for v ps) (judged lib r headroom v ps)) s
    unfolding set_aside
    set_aside-IsAside r headroom v ps s = record {
      unknown = ground arith;
      kept = ground arith;
      store = refl;
      room = λ e. rw e (refl, refl, refl);
      covers = room_for-IsRoom v ps;
    }

    aside_cost :
        (room : ℕ) (p : Pool)
        → ((set_aside room p).worker_bytes ≡ p.worker_bytes) × ((set_aside room p).name ≡ p.name)
    unfolding set_aside
    aside_cost room p = ground arith

    readable_known : (v : PoolView fl) → is_unreadable v ≡ false → v.max_children_known ≡ true
    unfolding is_unreadable
    readable_known v e = ground arith

    judged-IsJudged :
        (r : Round fl) (headroom : fl.Num) (v : PoolView fl) (ps : Option (PoolState fl)) (peak : ℕ)
        → is_unreadable v ≡ false
        → IsJudged r.opts v ps (record (judged lib r headroom v ps) {
          hit_max_children = hit_ceiling v ps;
          observed_peak = peak;
        })
    unfolding judged
    judged-IsJudged r headroom v ps peak e = record {
      unknown = refl;
      cut = reducible-IsTrusted r.opts ps;
      held = λ c k. rw (c, readable_known v e, k) refl;
      hit = refl;
    }

    judge-IsCareful :
        (r : Round fl) (headroom : fl.Num) (v : PoolView fl) (found : Found fl) (s : State fl)
        → IsCareful r v (record_of found) s (judge lib r headroom v found s)
    unfolding judge judged
    judge-IsCareful r headroom v found s = elim (Bool-cases (is_unreadable v)) [
      | inl t ↦
          let ps = record_of found in
          let kept = aside_cost (room_for v ps) (judged lib r headroom v ps) in
          rw t (record {
            name = kept.1;
            aside = λ e. set_aside-IsAside r headroom v ps s;
            judged = λ e. cc;
            cost = λ e. cost-IsWatched r.opts r.profile ps (rw (sym kept.0) e);
          })
      | inr f ↦
          let ps = record_of found in
          rw f (record {
            name = refl;
            aside = λ e. cc;
            judged = λ e. judged-IsJudged r headroom v ps _ f;
            cost = cost-IsWatched r.opts r.profile ps;
          })
    ]

    -- What poolFor makes of a pool, by the record that the store remembers of it. Where nothing can be
    -- written it is unknown and not to be cut, and the store stays as it is; the most of the workers
    -- that are configured, that were seen and that the record remembers is its floor and its ceiling,
    -- where that is positive. Otherwise it may be cut
    -- only on a trusted baseline and has its configured size for a floor without one, and it has hit
    -- its ceiling as hitCeiling says. In either case its workers cost no less than the profile's,
    -- unless the record has seen them busy.
    pub pool_for-IsCareful :
        (r : Round fl) (headroom : fl.Num) (ambiguous : Bool) (v : PoolView fl) (s : State fl)
        → IsCareful r v
            (record_of (remembered ambiguous v s))
            s
            (pool_for lib r headroom ambiguous v s)
    unfolding pool_for
    pool_for-IsCareful r headroom ambiguous v s =
        judge-IsCareful r headroom v (remembered ambiguous v s) s
