-- ===== src/Allocate/Spare.antt =====
-- allocate/allocate.go: applyProcessManager and ceilRatio, the spare-server settings of dynamic pools.
pub mod Order
use text.Mathlib.Text.{◌==◌ as str_eq}
use fpm_tune.Common.{ℕ, String, Bool, true, false, if◌then◌else◌}
use fpm_tune.Common.Word.{add64, slt}
use fpm_tune.Common.Float.{Float}
use fpm_tune.Allocate.Types.{Options}

pub record Spares : Type 0 where
  pub start_servers : ℕ
  pub min_spare : ℕ
  pub max_spare : ℕ

-- PHP-FPM refuses to start unless min_spare <= start_servers <= max_spare <= max_children; every
-- assignment below keeps or mends one of these.
unfoldable pub clamp_spares : (max_children : ℕ) → Spares → Spares
clamp_spares n s =
    let min1 = if slt s.min_spare 1 then 1 else s.min_spare in
    let start1 = if slt s.start_servers min1 then min1 else s.start_servers in
    let max1 = if slt s.max_spare start1 then start1 else s.max_spare in
    let max2 = if slt n max1 then n else max1 in
    let start2 = if slt n start1 then n else start1 in
    let min2 = if slt max2 min1 then max2 else min1 in
    record { start_servers = start2; min_spare = min2; max_spare = max2 }

module _ (fl : Float) where
  open fl use {Num, of_int, trunc, mul, flt}

  unfoldable pub ceil_ratio : ℕ → Num → ℕ
  ceil_ratio n ratio =
      let v = trunc (mul (of_int n) ratio) in
      if flt (of_int v) (mul (of_int n) ratio) then add64 v 1 else v

  unfoldable pub process_manager : String → ℕ → Options fl → Spares
  unfolding clamp_spares ceil_ratio
  process_manager pm n o =
      if str_eq pm "dynamic"
      then clamp_spares n (record {
        start_servers = ceil_ratio n o.start_servers_ratio;
        min_spare = ceil_ratio n o.spare_min_ratio;
        max_spare = ceil_ratio n o.spare_max_ratio;
      })
      else record { start_servers = 0; min_spare = 0; max_spare = 0 }
