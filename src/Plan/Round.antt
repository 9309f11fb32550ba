-- ===== src/Plan/Round.antt =====
-- plan/plan.go: what a round of views leaves in the store, before and after Build.
use fpm_tune.Common.{ℕ, List, [], ◌∷◌, false, Option, none, some, if◌then◌else◌}
use fpm_tune.Common.Float.{Float}
use fpm_tune.Common.Map.{insert, string_eq}
use fpm_tune.State.Types.{Observation, State, Options}
use fpm_tune.State.Learn.{learn}
use fpm_tune.State.CpuLoad.{CpuLoadSample, learn_cpu_load}
use fpm_tune.Plan.Types.{Library, PoolView, observation}
use fpm_tune.Plan.Pool.{Found, remembered}

module _ {fl : Float} where
  -- The observations of the views that could be read.
  unfoldable pub observations : (at : ℕ) → List (PoolView fl) → List (Observation fl)
  unfolding observation
  observations at [] = []
  observations at (v ∷ vs) =
      let rest = observations at vs in if v.failed then rest else observation at v ∷ rest

  -- LearnFrom
  unfoldable pub learn_from :
      Library fl → (at : ℕ) → Options fl → List (PoolView fl) → State fl → State fl
  unfolding observation
  learn_from lib at opts [] s = s
  learn_from lib at opts (v ∷ vs) s =
      learn_from lib at opts vs
        (if v.failed then s else (learn fl lib.log2 lib.exp2 (observation at v) opts s).0)

  -- LearnCPULoad, where the box could be read.
  unfoldable pub learn_round_cpu : Option CpuLoadSample → List (PoolView fl) → State fl → State fl
  unfolding observations
  learn_round_cpu none vs s = s
  learn_round_cpu (some sample) vs s = learn_cpu_load fl (observations sample.at vs) sample s

  -- The counter of one view, put into the record that Lookup finds.
  unfoldable pub record_counter : (reached : ℕ) → Found fl → State fl → State fl
  record_counter reached none s = s
  record_counter reached (some kp) s = record s {
    pools = insert kp.0 (record kp.1 { last_max_children_reached = reached }) s.pools;
  }

  unfoldable pub record_counters : List (PoolView fl) → State fl → State fl
  unfolding record_counter
  record_counters [] s = s
  record_counters (v ∷ vs) s =
      record_counters vs
        (if v.failed then s else record_counter v.max_children_reached (remembered false v s) s)
