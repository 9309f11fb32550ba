-- ===== src/Plan/Build/Made.antt =====
-- plan/plan.go: what the loop of Build makes of a view.
use fpm_tune.Common.{
  ℕ, ◌≤◌, ◌<◌, ◌^◌, ◌≡◌, Bool, true, false, ◌&&◌, List, [], ◌∷◌, All, All2, Option, none, some,
  arith, if◌then◌else◌, inl, inr, Bool-cases,
}
use fpm_tune.Common.Word.{slt, add64}
use fpm_tune.Common.Float.{Float, IsIeee}
use fpm_tune.State.Types.{PoolState, State}
use fpm_tune.Allocate.Types.{Pool, Budget, Error, allocatable, defaults, max_plausible_children}
use fpm_tune.Allocate.Types as Al
use fpm_tune.Allocate.Want.{pool_floor}
use fpm_tune.Allocate.Want.Bounds.{IsPool}
use fpm_tune.Plan.Types.{Library, PoolView}
use fpm_tune.Plan.Workload.{Workload}
use fpm_tune.Plan.Pool.{
  Round, Found, record_of, remembered, is_unreadable, room_for, peak_of, judged, set_aside, judge,
  pool_for,
}
use fpm_tune.Plan.Pool.Careful.{IsAside, pool_for-IsCareful}
use fpm_tune.Plan.Names.{Names, has_name}
use fpm_tune.Plan.Cpu.{headroom_for, saturated_host}
use fpm_tune.Plan.Build.{Gathered, held_at, with_child, gather_view, gather_views}
use fpm_tune.Plan.Build.Words.{
  IsStore, IsKnown, remembered-IsKnown, note_peak-IsStore, worker_cost-word, cpu_ceiling_for-word,
}

-- The counts of a view are counts that an int holds.
pub record IsView {fl : Float} (v : PoolView fl) : Type 0 where
  pub current : v.current_max_children < 2 ^ 63
  pub peak : v.observed_peak < 2 ^ 63

positive-small : (a : ℕ) → a < 2 ^ 64 → slt 0 a ≡ true → a < 2 ^ 63
unfolding slt
positive-small a h e = ground arith

counts-le :
    (room a b : ℕ)
    → room < 2 ^ 63
    → a < 2 ^ 63
    → b < 2 ^ 63
    → slt room a ≡ false
    → slt room b ≡ false
    → (a ≤ room) × (b ≤ room)
unfolding slt
counts-le room a b h k l e f = ground arith

no_counts :
    (room a b : ℕ)
    → room < 2 ^ 64
    → a < 2 ^ 63
    → b < 2 ^ 63
    → slt 0 room ≡ false
    → slt room a ≡ false
    → slt room b ≡ false
    → (a ≡ 0) × (b ≡ 0)
unfolding slt
no_counts room a b h k l e f g = ground arith

module _ {fl : Float} where
  -- A pool made from a view: its words, its name, and room for the workers of one that cannot be
  -- written.
  pub record IsMade (v : PoolView fl) (p : Pool) : Type 0 where
    pub name : p.name ≡ v.name
    pub words : IsPool p
    pub unknown : is_unreadable v ≡ true → p.unknown ≡ true
    pub room :
        is_unreadable v ≡ true
        → (o : Al.Options fl)
        → (v.current_max_children ≤ pool_floor fl p o) × (v.observed_peak ≤ pool_floor fl p o)

  room_for-le :
      (v : PoolView fl) (ps : Option (PoolState fl))
      → IsView v
      → IsKnown ps
      → (room_for v ps < 2 ^ 64)
        × (slt (room_for v ps) v.current_max_children ≡ false)
        × (slt (room_for v ps) v.observed_peak ≡ false)
  unfolding room_for peak_of slt
  room_for-le v none w k = ground (arith, w.current, w.peak)
  room_for-le v (some ps) w k = ground (arith, w.current, w.peak, k.peak)

  aside_floor :
      (p : Pool) (room : ℕ) (o : Al.Options fl)
      → p.floor ≡ room
      → p.ceiling ≡ room
      → room < 2 ^ 63
      → room ≤ pool_floor fl p o
  unfolding pool_floor slt
  aside_floor p room o e k h = ground (arith, e, k)

  aside_room :
      (v : PoolView fl) (ps : Option (PoolState fl)) (p : Pool) (s s' : State fl)
      → IsView v
      → IsKnown ps
      → IsAside v ps s p s'
      → (o : Al.Options fl)
      → (v.current_max_children ≤ pool_floor fl p o) × (v.observed_peak ≤ pool_floor fl p o)
  aside_room v ps p s s' w k a o =
      let le = room_for-le v ps w k in
      elim (Bool-cases (slt 0 (room_for v ps))) [
        | inl t ↦
            let (floor, ceiling, _) = a.room t in
            let small : room_for v ps < 2 ^ 63 = positive-small (room_for v ps) le.0 t in
            let kept = aside_floor p (room_for v ps) o floor ceiling small in
            let (c, d) =
              counts-le (room_for v ps) v.current_max_children v.observed_peak small w.current
                w.peak le.1 le.2 in
            (omega (arith, kept, c), omega (arith, kept, d))
        | inr f ↦
            let (c, d) =
              no_counts (room_for v ps) v.current_max_children v.observed_peak le.0 w.current w.peak
                f le.1 le.2 in
            (omega (arith, c), omega (arith, d))
      ]

  module _ (ieee : IsIeee fl) (lib : Library fl) (r : Round fl)
      (cheap : r.profile.worker_bytes < 2 ^ 64) where
    judged-IsPool :
        (headroom : fl.Num) (v : PoolView fl) (ps : Option (PoolState fl))
        → IsView v
        → IsKnown ps
        → IsPool (judged lib r headroom v ps)
    unfolding judged
    judged-IsPool headroom v ps w k = record {
      worker_word = worker_cost-word ieee lib r.opts r.profile ps cheap k;
      floor_word = ground (arith, w.current);
      ceiling_word = omega arith;
      cpu_ceiling_word =
          ground (arith, cpu_ceiling_for-word ieee ps r.opts r.host_millicores headroom r.busy);
    }

    aside-IsPool : (room : ℕ) (p : Pool) → room < 2 ^ 64 → IsPool p → IsPool (set_aside room p)
    unfolding set_aside
    aside-IsPool room p h w = record {
      worker_word = ground (arith, w.worker_word);
      floor_word = ground (arith, w.floor_word);
      ceiling_word = ground (arith, w.ceiling_word);
      cpu_ceiling_word = ground (arith, w.cpu_ceiling_word);
    }

    judge-IsPool :
        (headroom : fl.Num) (v : PoolView fl) (found : Found fl) (s : State fl)
        → IsView v
        → IsKnown (record_of found)
        → IsStore s
        → IsPool (judge lib r headroom v found s).0 × IsStore (judge lib r headroom v found s).1
    unfolding judge
    judge-IsPool headroom v found s w k h =
        let ps = record_of found in
        let j = judged-IsPool headroom v ps w k in
        elim (Bool-cases (is_unreadable v)) [
          | inl t ↦ rw t (aside-IsPool (room_for v ps) _ (room_for-le v ps w k).0 j, h)
          | inr f ↦ rw f (
            record {
              worker_word = j.worker_word;
              floor_word = j.floor_word;
              ceiling_word = j.ceiling_word;
              cpu_ceiling_word = j.cpu_ceiling_word;
            },
            note_peak-IsStore r v found s (omega (arith, w.peak)) k h,
          )
        ]

    pool_for-IsMade :
        (headroom : fl.Num) (ambiguous : Bool) (v : PoolView fl) (s : State fl)
        → IsView v
        → IsStore s
        → IsMade v (pool_for lib r headroom ambiguous v s).0
          × IsStore (pool_for lib r headroom ambiguous v s).1
    unfolding pool_for
    pool_for-IsMade headroom ambiguous v s w h =
        let found = remembered ambiguous v s in
        let ps = record_of found in
        let k = remembered-IsKnown ambiguous v s h in
        let c = pool_for-IsCareful lib r headroom ambiguous v s in
        let words = judge-IsPool headroom v found s w k h in
        (
          record {
            name = c.name;
            words = words.0;
            unknown = λ u. (c.aside u).unknown;
            room = λ u. aside_room v ps _ s _ w k (c.aside u);
          },
          words.1,
        )

    -- Holding a pool and adding its children's memory leave its name and its floors.
    held-IsMade :
        (v : PoolView fl) (p : Pool)
        → IsView v
        → IsMade v p
        → IsMade v (held_at v.current_max_children p)
    unfolding held_at pool_floor
    held-IsMade v p w m = record {
      name = m.name;
      words = record {
        worker_word = m.words.worker_word;
        floor_word = m.words.floor_word;
        ceiling_word = m.words.ceiling_word;
        cpu_ceiling_word = ground (arith, w.current, m.words.cpu_ceiling_word);
      };
      unknown = m.unknown;
      room = m.room;
    }

    child-IsMade :
        (v : PoolView fl) (child : ℕ) (p : Pool) → IsMade v p → IsMade v (with_child child p).0
    unfolding with_child pool_floor add64
    child-IsMade v child p m = elim (Bool-cases (slt 0 child && slt 0 p.worker_bytes)) [
      | inl t ↦ rw t (record {
        name = m.name;
        words = record {
          worker_word = omega arith;
          floor_word = m.words.floor_word;
          ceiling_word = m.words.ceiling_word;
          cpu_ceiling_word = m.words.cpu_ceiling_word;
        };
        unknown = m.unknown;
        room = m.room;
      })
      | inr f ↦ rw f m
    ]

    module _ (workload : Workload fl) (host : fl.Num) where
      gather_view-IsMade :
          (dup : Names) (v : PoolView fl) (s : State fl)
          → IsView v
          → IsStore s
          → IsMade v (gather_view lib workload host r dup v s).0.pool
            × IsStore (gather_view lib workload host r dup v s).1
      unfolding gather_view
      gather_view-IsMade dup v s w h =
          let own = (headroom_for fl lib v.cpu_headroom host).headroom in
          let m = pool_for-IsMade own (has_name v.name dup) v s w h in
          let p = (pool_for lib r own (has_name v.name dup) v s).0 in
          (
            child-IsMade v _ _
                (either-IsMade v p (p.hit_max_children && saturated_host fl r.busy) w m.0),
            m.1,
          )
        where
          either-IsMade :
              (v : PoolView fl) (p : Pool) (starved : Bool)
              → IsView v
              → IsMade v p
              → IsMade v (if starved then held_at v.current_max_children p else p)
          either-IsMade v p true w m = held-IsMade v p w m
          either-IsMade v p false w m = m

      -- Every view has its pool, in the order of the views.
      pub gather_views-IsMade :
          (dup : Names) (vs : List (PoolView fl)) (s : State fl)
          → All IsView vs
          → IsStore s
          → All2
              (λ v (g : Gathered fl). IsMade v g.pool)
              vs
              (gather_views lib workload host r dup vs s).0
      unfolding gather_views
      gather_views-IsMade dup [] s w h = tt
      gather_views-IsMade dup (v ∷ vs) s w h =
          let m = gather_view-IsMade dup v s w.0 h in
          (m.0, gather_views-IsMade dup vs (gather_view lib workload host r dup v s).1 w.1 m.1)
