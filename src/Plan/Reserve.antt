-- ===== src/Plan/Reserve.antt =====
-- plan/plan.go: reserveFor, the memory that is kept from the workers.
pub mod Within
use fpm_tune.Common.{ℕ, if◌then◌else◌, ◌==◌, ◌&&◌, Option, none, some}
use fpm_tune.Common.Word.{add64, div64, slt, sle}
use fpm_tune.Common.Float.{Float}
use fpm_tune.Plan.Types.{Profile}

-- The sentence that says why.
pub data ReserveReason : Type 0 where
  set_explicitly share_of_memory reserve_floor half_of_memory : ReserveReason

-- What other services use is kept back too, unless the reserve was set.
unfoldable pub with_neighbor_bytes : (override neighbors reserve : ℕ) → ℕ
with_neighbor_bytes override neighbors reserve =
    if override == 0 && slt 0 neighbors then add64 reserve neighbors else reserve

module _ (fl : Float) where
  -- The profile's share of the memory.
  unfoldable pub share_bytes : (memory : ℕ) → Profile fl → ℕ
  share_bytes memory profile = fl.trunc (fl.mul (fl.of_int memory) profile.reserve_fraction)

  unfoldable pub reserve_for : (memory : ℕ) → Profile fl → (override : ℕ) → ℕ × ReserveReason
  unfolding share_bytes
  reserve_for memory profile override =
      let fraction = share_bytes memory profile in
      if slt 0 override
      then (override, set_explicitly)
      else (if sle profile.reserve_floor_bytes fraction
          then (fraction, share_of_memory)
          else (if slt profile.reserve_floor_bytes memory
              then (profile.reserve_floor_bytes, reserve_floor)
              else (div64 memory 2, half_of_memory)))
