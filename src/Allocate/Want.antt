-- ===== src/Allocate/Want.antt =====
-- allocate/allocate.go: cpuCeiling, poolFloor, poolWant, and the loop of Compute that clamps them.
pub mod Bounds
use fpm_tune.Common.{ℕ, Bool, true, false, not, ◌&&◌, if◌then◌else◌}
use fpm_tune.Common.Word.{mul64, slt, sle}
use fpm_tune.Common.Float.{Float}
use fpm_tune.Allocate.Types.{Budget, Pool, Options, Row}

module _ (fl : Float) where
  open fl use {of_int, trunc, mul}

  -- Zero where the core count is not known.
  unfoldable pub cpu_ceiling_of : Budget → Options fl → ℕ
  cpu_ceiling_of b o = if sle b.cpus 0 then 0 else mul64 b.cpus o.max_workers_per_cpu

  unfoldable pub pool_floor : Pool → Options fl → ℕ
  pool_floor p o =
      let base = if sle p.floor 0 then o.default_floor else p.floor in
      let capped = if slt 0 p.ceiling && slt p.ceiling base then p.ceiling else base in
      if slt capped 1 then 1 else capped

  -- What a saturated pool grows to, within what it has been seen to need.
  unfoldable pub grown_want : Pool → Options fl → ℕ
  grown_want p o =
      let base =
        if slt p.current_max_children p.observed_peak
        then p.observed_peak
        else p.current_max_children in
      let grown = trunc (mul (of_int base) o.growth_factor) in
      let evidence = trunc (mul (mul (of_int p.observed_peak) o.headroom_factor) o.growth_factor) in
      if slt evidence grown then evidence else grown

  -- The want before the pool's floor and ceiling.
  unfoldable pub demand_want : Pool → Options fl → ℕ
  unfolding grown_want
  demand_want p o =
      let peak = trunc (mul (of_int p.observed_peak) o.headroom_factor) in
      let grown = grown_want p o in if p.hit_max_children && slt peak grown then grown else peak

  unfoldable pub pool_want : Pool → ℕ → Options fl → ℕ
  pool_want p floor o =
      let want = demand_want p o in
      let least = if slt want floor then floor else want in
      if slt 0 p.ceiling && slt p.ceiling least then p.ceiling else least

  -- The measured CPU ceiling of a pool, never below its floor; none for a pool that is not written.
  unfoldable pub measured_cap : Pool → ℕ → ℕ
  measured_cap p floor = if slt p.cpu_ceiling floor then floor else p.cpu_ceiling

  unfoldable pub row_of : ℕ → Options fl → Pool → Row
  row_of cpu_cap o p =
      let floor = pool_floor p o in
      let want = pool_want p floor o in
      let memory_want = if slt 0 cpu_cap && slt cpu_cap want then cpu_cap else want in
      let cap = measured_cap p floor in
      let bound = (slt 0 p.cpu_ceiling && not p.unknown) && slt cap memory_want in
      record {
        pool = p;
        floor = if (slt 0 cpu_cap && slt cpu_cap floor) && not p.unknown then cpu_cap else floor;
        want = if bound then cap else memory_want;
        memory_want = memory_want;
        cpu_bound = bound;
        granted = 0;
      }
