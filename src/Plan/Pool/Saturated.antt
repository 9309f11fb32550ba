-- ===== src/Plan/Pool/Saturated.antt =====
-- plan/plan.go: hitCeiling against a description of a pool that ran out of workers.
use fpm_tune.Common.{◌≤◌, ◌<◌, ◌^◌, ◌≡◌, ◌≢◌, ◌↔◌, ◌⊎◌, true, Option, arith}
use fpm_tune.Common.Word.{slt}
use fpm_tune.Common.Float.{Float}
use fpm_tune.State.Types.{PoolState}
use fpm_tune.Plan.Types.{PoolView}
use fpm_tune.Plan.Pool.{last_counter, hit_ceiling}

-- The counters of a view and of its record are counts that an int holds.
pub record HasCounts {fl : Float} (v : PoolView fl) (ps : Option (PoolState fl)) : Type 0 where
  pub queue : v.queue_depth < 2 ^ 63
  pub current : v.current_max_children < 2 ^ 63
  pub peak : v.observed_peak < 2 ^ 63
  pub reached : v.max_children_reached < 2 ^ 63
  pub last : last_counter ps < 2 ^ 63

-- Requests wait while every allowed worker has been busy.
abbrev pub IsQueued : {fl : Float} → PoolView fl → Type 0
IsQueued v =
    (0 < v.queue_depth) × (0 < v.current_max_children) × (v.current_max_children ≤ v.observed_peak)

-- The counter stands at another value than the last one, or at any value after none was known.
abbrev pub IsCounted : {fl : Float} → PoolView fl → Option (PoolState fl) → Type 0
IsCounted v ps = (v.max_children_reached ≢ 0) × (v.max_children_reached ≢ last_counter ps)

module _ {fl : Float} (v : PoolView fl) (ps : Option (PoolState fl)) (h : HasCounts v ps) where
  -- A pool has hit its ceiling exactly where requests wait and its peak has reached the size it may
  -- have, or its counter of hits is not zero and differs from the one of the last round, whether it
  -- grew or was reset. The counters are counts that an int holds.
  pub hit_ceiling_iff : (hit_ceiling v ps ≡ true) ↔ (IsQueued v ⊎ IsCounted v ps)
  unfolding hit_ceiling slt
  hit_ceiling_iff = ground (arith, h.queue, h.current, h.peak, h.reached, h.last)
