-- ===== src/Plan/Build/Planned.antt =====
-- plan/plan.go: what a plan of Build promises of the views that it was made from.
use fpm_tune.Common.{
  ℕ, ◌+◌, ◌≤◌, ◌<◌, ◌^◌, ◌≡◌, refl, sym, ◌∙◌, ap, ap₂, subst, true, List, [], ◌∷◌, map, All, All2,
  length, arith, Result, ok, err, ◌>>=◌, suc,
}
use fpm_tune.Common.Word.{add64, div64}
use fpm_tune.Common.Float.{Float, IsIeee}
use fpm_tune.State.Types.{State}
use fpm_tune.Allocate.Types.{Pool, Error, allocatable, defaults, max_plausible_children}
use fpm_tune.Allocate.Types as Al
use fpm_tune.Allocate.Want.{cpu_ceiling_of}
use fpm_tune.Allocate.Want.Bounds.{IsPool}
use fpm_tune.Allocate.Compute.Lines.{Plan, PoolPlan}
use fpm_tune.Allocate.Compute.Reason.{IsReason}
use fpm_tune.Allocate.Compute.Reserved.{Reserves}
use fpm_tune.Allocate.Compute.Correct.{
  Answer, planned, refused, IsHost, IsLine, lines_bytes, compute-Answer,
}
use fpm_tune.Plan.Types.{Library, PoolView, Profile, default_profile}
use fpm_tune.Plan.Cpu.{host_headroom}
use fpm_tune.Plan.Pool.{is_unreadable}
use fpm_tune.Plan.Reserve.{reserve_for, share_bytes, with_neighbor_bytes}
use fpm_tune.Plan.Names.{ambiguous_names}
use fpm_tune.Plan.Build.{
  Input, Gathered, Outlook, Built, profile_of, round_of, look, budget_of, divided, build,
}
use fpm_tune.Plan.Build.Words.{IsStore}
use fpm_tune.Plan.Build.Made.{IsView, IsMade, gather_views-IsMade}

module _ {fl : Float} where
  -- A pool that cannot be written keeps room for the workers that it has, and for all that were seen.
  abbrev pub KeepsRoom : PoolView fl → PoolPlan → Type 0
  KeepsRoom v l =
      is_unreadable v ≡ true
      → (v.current_max_children ≤ l.max_children) × (v.observed_peak ≤ l.max_children)

  abbrev Makes : PoolView fl → Gathered fl → Type 0
  Makes v g = IsMade v g.pool

  gathered_names :
      (vs : List (PoolView fl)) (gs : List (Gathered fl))
      → All2 Makes vs gs
      → map (λ (p : Pool). p.name) (map (λ (g : Gathered fl). g.pool) gs)
        ≡ map (λ (v : PoolView fl). v.name) vs
  gathered_names [] [] m = refl
  gathered_names (v ∷ vs) (g ∷ gs) m = ap₂ ◌∷◌ m.0.name (gathered_names vs gs m.1)
  gathered_names [] (g ∷ gs) m = absurd m
  gathered_names (v ∷ vs) [] m = absurd m

  gathered-IsPool :
      (vs : List (PoolView fl)) (gs : List (Gathered fl))
      → All2 Makes vs gs
      → All IsPool (map (λ (g : Gathered fl). g.pool) gs)
  gathered-IsPool [] [] m = tt
  gathered-IsPool (v ∷ vs) (g ∷ gs) m = (m.0.words, gathered-IsPool vs gs m.1)
  gathered-IsPool [] (g ∷ gs) m = absurd m
  gathered-IsPool (v ∷ vs) [] m = absurd m

  gathered_length :
      (vs : List (PoolView fl)) (gs : List (Gathered fl))
      → All2 Makes vs gs
      → length (map (λ (g : Gathered fl). g.pool) gs) ≡ length vs
  gathered_length [] [] m = refl
  gathered_length (v ∷ vs) (g ∷ gs) m = ap suc (gathered_length vs gs m.1)
  gathered_length [] (g ∷ gs) m = absurd m
  gathered_length (v ∷ vs) [] m = absurd m

  lines-KeepsRoom :
      (o : Al.Options fl) (vs : List (PoolView fl)) (gs : List (Gathered fl)) (ls : List PoolPlan)
      → All2 Makes vs gs
      → Reserves fl o (map (λ (g : Gathered fl). g.pool) gs) ls
      → All2 KeepsRoom vs ls
  lines-KeepsRoom o [] [] [] m r = tt
  lines-KeepsRoom o (v ∷ vs) (g ∷ gs) (l ∷ ls) m r = (
    λ u.
        let kept = r.0 (m.0.unknown u) in
        let room = m.0.room u o in (omega (arith, kept, room.0), omega (arith, kept, room.1)),
    lines-KeepsRoom o vs gs ls m.1 r.1,
  )
  lines-KeepsRoom o [] [] (l ∷ ls) m r = absurd r
  lines-KeepsRoom o (v ∷ vs) (g ∷ gs) [] m r = absurd r
  lines-KeepsRoom o [] (g ∷ gs) ls m r = absurd m
  lines-KeepsRoom o (v ∷ vs) [] ls m r = absurd m

  module _ {Err : Type 0} where
    -- A host that Build is meant for: an int64 of memory, a CPU count and a default floor that are
    -- plausible, at most 1024 views with counts that an int holds, and sizes that are machine words.
    pub record IsInput (i : Input fl Err) : Type 0 where
      pub memory : i.limits.memory_bytes < 2 ^ 63
      pub profile_word : i.profile.worker_bytes < 2 ^ 64
      pub floor_word : i.profile.reserve_floor_bytes < 2 ^ 64
      pub reserve_word : i.reserve_bytes < 2 ^ 64
      pub cpu_known :
          0
          < cpu_ceiling_of fl
              (record { total_bytes = 0; cpus = i.limits.cpus; reserve_bytes = 0 })
              (defaults fl i.allocate_options)
      pub cpu_plausible :
          cpu_ceiling_of fl
            (record { total_bytes = 0; cpus = i.limits.cpus; reserve_bytes = 0 })
            (defaults fl i.allocate_options)
          ≤ max_plausible_children
      pub floor_plausible : i.allocate_options.default_floor ≤ max_plausible_children
      pub few : length i.views ≤ 1024
      pub views : All IsView i.views

    -- The plan is within the budget, has a line for every view, and room for those that it does not
    -- write.
    pub record IsBuilt (i : Input fl Err) (o : Outlook fl) (plan : Plan) : Type 0 where
      pub within : plan.allocated_bytes + plan.free_bytes ≡ allocatable (budget_of i o)
      pub total : plan.allocated_bytes ≡ lines_bytes plan.pools
      pub lines : All (IsLine plan.free_bytes) plan.pools
      pub names : map (λ l. l.name) plan.pools ≡ map (λ v. v.name) i.views
      pub room : All2 KeepsRoom i.views plan.pools

    pub data Outcome (i : Input fl Err) : Outlook fl × Result Error Built → Type 0 where
      built : {o : Outlook fl} {b : Built} → IsBuilt i o b.plan → Outcome i (o, ok b)
      failed :
          {o : Outlook fl} {e : Error}
          → IsReason fl
              (budget_of i o)
              (defaults fl i.allocate_options)
              (map (λ (g : Gathered fl). g.pool) o.gathered)
              e
          → Outcome i (o, err e)

module _ {fl : Float} (ieee : IsIeee fl) where
  reserve-word :
      (memory : ℕ) (p : Profile fl) (override neighbors : ℕ)
      → memory < 2 ^ 63
      → p.reserve_floor_bytes < 2 ^ 64
      → override < 2 ^ 64
      → with_neighbor_bytes override neighbors (reserve_for fl memory p override).0 < 2 ^ 64
  unfolding with_neighbor_bytes reserve_for share_bytes add64 div64
  reserve-word memory p override neighbors h k l =
      ground (arith, ieee.trunc_word (fl.mul (fl.of_int memory) p.reserve_fraction))

module _ {fl : Float} {Err : Type 0} (ieee : IsIeee fl) (lib : Library fl) where
  profile_cheap :
      (i : Input fl Err)
      → i.profile.worker_bytes < 2 ^ 64
      → i.profile.reserve_floor_bytes < 2 ^ 64
      → ((profile_of i).worker_bytes < 2 ^ 64) × ((profile_of i).reserve_floor_bytes < 2 ^ 64)
  unfolding profile_of default_profile
  profile_cheap i h k = ground (arith, h, k)

  module _ (i : Input fl Err) (s : State fl) (h : IsInput i) (k : IsStore s) where
    made : All2 Makes i.views (look lib i s).gathered
    unfolding look round_of
    made =
        let p = profile_cheap i h.profile_word h.floor_word in
        gather_views-IsMade ieee lib (round_of i) p.0 i.workload (host_headroom fl i.cpu_headroom)
          (ambiguous_names i.views) i.views s h.views k

    host :
        IsHost fl
          (budget_of i (look lib i s))
          (map (λ (g : Gathered fl). g.pool) (look lib i s).gathered)
          i.allocate_options
    unfolding look budget_of cpu_ceiling_of
    host = record {
      total_small = h.memory;
      reserve_word =
          reserve-word ieee i.limits.memory_bytes (profile_of i) i.reserve_bytes
            i.limits.neighbor_bytes h.memory (profile_cheap i h.profile_word h.floor_word).1
            h.reserve_word;
      cpu_known = h.cpu_known;
      cpu_plausible = h.cpu_plausible;
      floor_plausible = h.floor_plausible;
      few = omega (arith, gathered_length i.views _ made, h.few);
      words = gathered-IsPool i.views _ made;
    }

    divided-Outcome :
        (o : Outlook fl)
        → All2 Makes i.views o.gathered
        → {out : Result Error Plan}
        → Answer fl
            (budget_of i o)
            (defaults fl i.allocate_options)
            (map (λ (g : Gathered fl). g.pool) o.gathered)
            out
        → (f : Plan → Built) → ((plan : Plan) → (f plan).plan ≡ plan)
        → Outcome i (o, out >>= λ plan. ok (f plan))
    divided-Outcome o m (refused r) f same = failed r
    divided-Outcome o m (planned {plan} p) f same = built (
        subst (IsBuilt i o) (sym (same plan)) (record {
          within = p.within;
          total = p.total;
          lines = p.lines;
          names = p.names ∙ gathered_names i.views o.gathered m;
          room =
              lines-KeepsRoom (defaults fl i.allocate_options) i.views o.gathered plan.pools m
                p.reserved;
        }))

    -- Build ends with a plan or with an error whose reason holds of the host: the reserve leaves
    -- nothing, a pool's cost or count is implausible, or one worker for each pool, or what cannot be
    -- written with one worker for each other pool, is more than the budget; the error carries the sums.
    -- A plan has a line for every view, in their order, each with a worker at least; its bytes and what
    -- is free add up to the budget that the reserve leaves; and a pool that cannot be written, since
    -- its scrape failed, its ceiling is not known or its name is unsafe, keeps room for the workers it
    -- is configured for and for all that were seen busy. The host has an int64 of memory, a CPU count
    -- and a default floor that are plausible and at most 1024 views, all sizes and counts fit their
    -- words, and the arithmetic is IEEE's.
    pub build-Outcome : Outcome i (build lib i s)
    unfolding build divided
    build-Outcome =
        divided-Outcome (look lib i s) made
          (compute-Answer fl ieee (budget_of i (look lib i s)) i.allocate_options _ host) _
          (λ plan. refl)
