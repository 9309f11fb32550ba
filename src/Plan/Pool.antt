-- ===== src/Plan/Pool.antt =====
-- plan/plan.go: poolFor and hitCeiling, what one pool costs and what it wants.
pub mod Careful
pub mod Saturated
use fpm_tune.Common.{
  ℕ, String, Bool, true, false, not, ◌&&◌, ◌||◌, Option, none, some, if◌then◌else◌, ◌==◌,
}
use fpm_tune.Common.Word.{slt, sle}
use fpm_tune.Common.Float.{Float}
use fpm_tune.Common.Map.{insert, string_eq}
use fpm_tune.State.Types.{PoolState, State, Options}
use fpm_tune.State.Store.{pool_key, lookup_scoped, legacy}
use fpm_tune.State.Sizing.{sizing_bytes, sizing_bytes_at, trusted}
use fpm_tune.State.Peak.{observe_peak}
use fpm_tune.Allocate.Types.{Pool}
use fpm_tune.Apply.Write.{unsafe_name}
use fpm_tune.Plan.Types.{Library, PoolView, Profile}
use fpm_tune.Plan.Cpu.{HostBusy, cpu_ceiling_for}

-- The round's settings, which poolFor takes beside the view and the store.
pub record Round (fl : Float) : Type 0 where
  pub profile : Profile fl
  pub opts : Options fl
  pub at : ℕ
  pub cpu_ceiling : Bool
  pub host_millicores : ℕ
  pub busy : HostBusy fl

-- A record of the store with its key, which stands for the pointer to it.
abbrev pub Found : Float → Type 0
Found fl = Option (String × PoolState fl)

abbrev pub larger : ℕ → ℕ → ℕ
larger a b = if slt a b then b else a

-- What becomes of it where nothing can be written.
unfoldable pub set_aside : (room : ℕ) → Pool → Pool
set_aside room p =
    if slt 0 room
    then record p {
      unknown = true;
      reducible = false;
      floor = room;
      observed_peak = 0;
      ceiling = room;
    }
    else record p { unknown = true; reducible = false }

module _ {fl : Float} where
  unfoldable pub keyed : String → Option (PoolState fl) → Found fl
  keyed key none = none
  keyed key (some ps) = some (key, ps)

  unfoldable pub record_of : Found fl → Option (PoolState fl)
  record_of none = none
  record_of (some kp) = some kp.1

  -- The record under the pool's own key, or else the unscoped one where its name is unique.
  unfoldable pub found_by :
      (ambiguous : Bool) → PoolView fl → State fl → Option (PoolState fl) → Found fl
  unfolding keyed
  found_by ambiguous v s (some ps) = some (pool_key v.config_path v.name, ps)
  found_by ambiguous v s none = if ambiguous then none else keyed v.name (legacy v.name s)

  unfoldable pub remembered : (ambiguous : Bool) → PoolView fl → State fl → Found fl
  unfolding found_by
  remembered ambiguous v s = found_by ambiguous v s (lookup_scoped v.config_path v.name s)

  unfoldable pub sized : Library fl → Options fl → PoolState fl → ℕ
  sized lib opts ps =
      if fl.flt (fl.of_int 0) opts.sizing.percentile
      then sizing_bytes_at lib.log2 lib.exp2 opts.sizing.percentile opts.sizing.margin ps
      else sizing_bytes ps

  -- The cost of a worker, and whether it is the pool's own.
  unfoldable pub worker_cost_of :
      Library fl → Options fl → Profile fl → Option (PoolState fl) → ℕ × Bool
  unfolding sized
  worker_cost_of lib opts profile none = (profile.worker_bytes, false)
  worker_cost_of lib opts profile (some ps) =
      let measured = sized lib opts ps in
      let raised = ps.busy_samples == 0 && slt measured profile.worker_bytes in
      if slt 0 measured
      then ((if raised then profile.worker_bytes else measured), not raised)
      else (profile.worker_bytes, false)

  unfoldable pub is_reducible : Options fl → Option (PoolState fl) → Bool
  is_reducible opts none = false
  is_reducible opts (some ps) = trusted opts ps

  -- Nothing can be written for the pool: its scrape failed, its ceiling is not known, or its name
  -- cannot be a file's.
  unfoldable pub is_unreadable : PoolView fl → Bool
  is_unreadable v = v.failed || (not v.max_children_known || unsafe_name v.name)

  unfoldable pub peak_of : Option (PoolState fl) → ℕ → ℕ
  peak_of none least = least
  peak_of (some ps) least = larger least ps.peak_workers

  -- The workers to keep room for where nothing can be written.
  unfoldable pub room_for : PoolView fl → Option (PoolState fl) → ℕ
  unfolding peak_of
  room_for v ps = peak_of ps (larger v.current_max_children v.observed_peak)

  -- A pool as the first part of poolFor leaves it.
  unfoldable pub judged :
      Library fl → Round fl → (headroom : fl.Num) → PoolView fl → Option (PoolState fl) → Pool
  unfolding worker_cost_of is_reducible
  judged lib r headroom v ps =
      let cost = worker_cost_of lib r.opts r.profile ps in
      let reducible = is_reducible r.opts ps in
      record {
        name = v.name;
        current_max_children = v.current_max_children;
        process_manager = v.process_manager;
        worker_bytes = cost.0;
        child_bytes = 0;
        measured = cost.1;
        reducible = reducible;
        observed_peak = v.observed_peak;
        queue_depth = v.queue_depth;
        hit_max_children = false;
        floor =
            if not reducible && (v.max_children_known && slt 0 v.current_max_children)
            then v.current_max_children
            else 0;
        ceiling = 0;
        cpu_ceiling =
            if r.cpu_ceiling
            then cpu_ceiling_for fl ps r.opts r.host_millicores headroom r.busy
            else 0;
        unknown = false;
      }

  abbrev pub last_counter : Option (PoolState fl) → ℕ
  last_counter none = 0
  last_counter (some ps) = ps.last_max_children_reached

  unfoldable pub hit_ceiling : PoolView fl → Option (PoolState fl) → Bool
  hit_ceiling v ps =
      let last = last_counter ps in
      if slt 0 v.queue_depth
        && (slt 0 v.current_max_children && sle v.current_max_children v.observed_peak)
      then true
      else (if v.max_children_reached == 0
          then false
          else (if last == 0
              then true
              else (if slt v.max_children_reached last
                  then true
                  else slt last v.max_children_reached)))

  -- The remembered peak, which the observation changes in the store.
  unfoldable pub note_peak : Round fl → PoolView fl → Found fl → State fl → ℕ × State fl
  note_peak r v none s = (v.observed_peak, s)
  note_peak r v (some kp) s =
      let ps = observe_peak v.observed_peak r.at r.opts kp.1 in
      (ps.peak_workers, record s { pools = insert kp.0 ps s.pools })

  -- The pool and the store after its peak is noted. That it is bootstrapped is that it is not measured.
  unfoldable pub judge :
      Library fl
      → Round fl
      → (headroom : fl.Num) → PoolView fl
      → Found fl
      → State fl
      → Pool × State fl
  unfolding judged set_aside room_for record_of hit_ceiling note_peak
  judge lib r headroom v found s =
      let ps = record_of found in
      let p = judged lib r headroom v ps in
      let (peak, s') = note_peak r v found s in
      if is_unreadable v
      then (set_aside (room_for v ps) p, s)
      else (record p { hit_max_children = hit_ceiling v ps; observed_peak = peak }, s')

  unfoldable pub pool_for :
      Library fl
      → Round fl
      → (headroom : fl.Num) → (ambiguous : Bool) → PoolView fl
      → State fl
      → Pool × State fl
  unfolding judge remembered
  pool_for lib r headroom ambiguous v s = judge lib r headroom v (remembered ambiguous v s) s
