-- ===== src/Plan/Build.antt =====
-- plan/plan.go: Build, from the views of a round to a plan.
pub mod Words
pub mod Made
pub mod Planned
use Prim.Native.String.{◌++◌ as str_append}
use fpm_tune.Common.{
  ℕ, String, Bool, true, false, not, ◌&&◌, ◌||◌, List, [], ◌∷◌, map, Option, none, some,
  if◌then◌else◌, ◌==◌, Result, ok, err, ◌>>=◌,
}
use fpm_tune.Common.Word.{add64, mul64, slt, sle}
use fpm_tune.Common.Float.{Float}
use fpm_tune.Common.Map.{lookup, insert, string_eq}
use fpm_tune.State.Types.{State, learn_defaults}
use fpm_tune.State.Types as St
use fpm_tune.Budget.Limits.{Limits}
use fpm_tune.Allocate.Types.{Pool, Budget, Error}
use fpm_tune.Allocate.Types as Al
use fpm_tune.Allocate.Compute.{compute}
use fpm_tune.Allocate.Compute.Lines.{Plan, PoolPlan}
use fpm_tune.Plan.Types.{Library, PoolView, Profile, default_profile, host_millicores}
use fpm_tune.Plan.Workload.{
  Workload, workload_by_name, child_cost_per_worker, measured_child_per_worker,
}
use fpm_tune.Plan.Cpu.{HostBusy, Headroom, headroom_for, host_headroom, saturated_host}
use fpm_tune.Plan.Pool.{Round, pool_for}
use fpm_tune.Plan.Reserve.{ReserveReason, reserve_for, with_neighbor_bytes}
use fpm_tune.Plan.Names.{Names, has_name, names_of, ambiguous_names}

-- The store is beside it, since Build changes it; the usage of the cgroup, which is only carried, is
-- left out. Of the time zero stands the caller's.
pub record Input (fl : Float) (Err : Type 0) : Type 0 where
  pub limits : Limits Err
  pub views : List (PoolView fl)
  pub profile : Profile fl
  pub workload : Workload fl
  pub cpu_ceiling : Bool
  pub cpu_headroom : fl.Num
  pub busy : HostBusy fl
  pub reserve_bytes : ℕ
  pub reserve_fraction : fl.Num
  pub state_options : St.Options fl
  pub allocate_options : Al.Options fl
  pub at : ℕ

-- What the loop of Build notes of one view.
pub record Gathered (fl : Float) : Type 0 where
  pub view : PoolView fl
  pub pool : Pool
  pub starved : Bool
  pub readable_headroom : Bool
  pub known_workload : Bool
  pub child : ℕ

-- A pool that queued while the CPU was full is held at the size it has.
unfoldable pub held_at : (current : ℕ) → Pool → Pool
held_at current p = record p {
  hit_max_children = false;
  cpu_ceiling = if p.cpu_ceiling == 0 || slt current p.cpu_ceiling then current else p.cpu_ceiling;
}

-- The memory of children is part of what a worker costs.
unfoldable pub with_child : (child : ℕ) → Pool → Pool × ℕ
with_child child p =
    if slt 0 child && slt 0 p.worker_bytes
    then (record p { worker_bytes = add64 p.worker_bytes child; child_bytes = child }, child)
    else (p, 0)

module _ {fl : Float} (lib : Library fl) (workload : Workload fl) (host : fl.Num) where
  unfoldable pub gather_view :
      Round fl → (dup : Names) → PoolView fl → State fl → Gathered fl × State fl
  unfolding held_at with_child
  gather_view r dup v s =
      let own = headroom_for fl lib v.cpu_headroom host in
      let (p, s') = pool_for lib r own.headroom (has_name v.name dup) v s in
      let starved = p.hit_max_children && saturated_host fl r.busy in
      let (w, known) = workload_by_name fl lib v.workload workload in
      let (q, child) =
        with_child (child_cost_per_worker fl w (measured_child_per_worker s' v))
          (if starved then held_at v.current_max_children p else p) in
      (
        record {
          view = v;
          pool = q;
          starved = starved;
          readable_headroom = own.readable;
          known_workload = known;
          child = child;
        },
        s',
      )

  unfoldable pub gather_views :
      Round fl → (dup : Names) → List (PoolView fl) → State fl → List (Gathered fl) × State fl
  unfolding gather_view
  gather_views r dup [] s = ([], s)
  gather_views r dup (v ∷ vs) s =
      let (g, s') = gather_view r dup v s in
      let (gs, s'') = gather_views r dup vs s' in (g ∷ gs, s'')

-- What `label` says of the views that a test holds of, in the order of the round.
unfoldable pub labels_where :
    {fl : Float}
    → (test : Gathered fl → Bool) (label : PoolView fl → String) → List (Gathered fl)
    → List String
labels_where test label [] = []
labels_where test label (g ∷ gs) =
    let rest = labels_where test label gs in if test g then label g.view ∷ rest else rest

-- A name with a marker that could not be read.
unfoldable pub marked : {fl : Float} → Library fl → (name marker : String) → String
marked lib name marker = str_append name (str_append " (" (str_append (lib.quote marker) ")"))

-- The cost of children by name; of pools that share a name the last one's.
unfoldable pub child_costs :
    {fl : Float} → List (Gathered fl) → List (String × ℕ) → List (String × ℕ)
child_costs [] costs = costs
child_costs (g ∷ gs) costs =
    child_costs gs (if slt 0 g.child then insert g.view.name g.child costs else costs)

abbrev pub cost_or_none : Option ℕ → ℕ
cost_or_none none = 0
cost_or_none (some c) = c

unfoldable pub child_reserve : List (String × ℕ) → List PoolPlan → ℕ → ℕ
child_reserve costs [] total = total
child_reserve costs (l ∷ ls) total =
    let c = cost_or_none (lookup l.name costs) in
    child_reserve costs ls (if slt 0 c then add64 total (mul64 c l.max_children) else total)

-- What is known of a round before the memory is divided.
pub record Outlook (fl : Float) : Type 0 where
  pub gathered : List (Gathered fl)
  pub store : State fl
  pub reserve : ℕ
  pub reserve_reason : ReserveReason
  pub bootstrapped : List String
  pub unreachable : List String
  pub starved_held : List String

-- The plan, the children's part of it, and the names that are warned about. The two warnings list
-- pools with their markers, and are there where these lists are not empty.
pub record Built : Type 0 where
  pub plan : Plan
  pub child_reserve : ℕ
  pub unknown_workloads : List String
  pub unreadable_headrooms : List String
  pub ambiguous : List String

module _ {fl : Float} {Err : Type 0} where
  unfoldable pub profile_of : Input fl Err → Profile fl
  profile_of i =
      let p = if sle i.profile.worker_bytes 0 then default_profile fl else i.profile in
      if fl.flt (fl.of_int 0) i.reserve_fraction
      then record p { reserve_fraction = i.reserve_fraction }
      else p

  unfoldable pub round_of : Input fl Err → Round fl
  unfolding profile_of
  round_of i = record {
    profile = profile_of i;
    opts = learn_defaults fl i.state_options;
    at = i.at;
    cpu_ceiling = i.cpu_ceiling;
    host_millicores = host_millicores i.limits;
    busy = i.busy;
  }

  unfoldable pub budget_of : Input fl Err → Outlook fl → Budget
  budget_of i o = record {
    total_bytes = i.limits.memory_bytes;
    cpus = i.limits.cpus;
    reserve_bytes = o.reserve;
  }

module _ {fl : Float} {Err : Type 0} (lib : Library fl) where
  unfoldable pub look : Input fl Err → State fl → Outlook fl
  unfolding round_of profile_of
  look i s =
      let (reserve, why) = reserve_for fl i.limits.memory_bytes (profile_of i) i.reserve_bytes in
      let dup = ambiguous_names i.views in
      let (gs, s') =
        gather_views lib i.workload (host_headroom fl i.cpu_headroom) (round_of i) dup i.views s in
      record {
        gathered = gs;
        store = s';
        reserve = with_neighbor_bytes i.reserve_bytes i.limits.neighbor_bytes reserve;
        reserve_reason = why;
        bootstrapped = lib.sort_strings (labels_where (λ g. not g.pool.measured) (λ v. v.name) gs);
        unreachable = lib.sort_strings (labels_where (λ g. g.view.failed) (λ v. v.name) gs);
        starved_held = labels_where (λ g. g.starved) (λ v. v.name) gs;
      }

  unfoldable pub divided : Input fl Err → Outlook fl → Result Error Built
  unfolding budget_of
  divided i o =
      compute fl (budget_of i o) (map (λ g. g.pool) o.gathered) i.allocate_options >>= λ plan.
      ok (record {
        plan = plan;
        child_reserve = child_reserve (child_costs o.gathered []) plan.pools 0;
        unknown_workloads = lib.sort_strings (
            labels_where (λ g. not g.known_workload) (λ v. marked lib v.name v.workload)
              o.gathered);
        unreadable_headrooms = lib.sort_strings (
            labels_where (λ g. not g.readable_headroom) (λ v. marked lib v.name v.cpu_headroom)
              o.gathered);
        ambiguous = lib.sort_strings (names_of (ambiguous_names i.views));
      })

  -- Build, up to the reports that it makes of a plan.
  unfoldable pub build : Input fl Err → State fl → Outlook fl × Result Error Built
  unfolding look divided
  build i s = let o = look i s in (o, divided i o)
