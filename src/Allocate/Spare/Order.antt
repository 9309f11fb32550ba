-- ===== src/Allocate/Spare/Order.antt =====
-- allocate/allocate.go: the order that PHP-FPM asks of the spare-server settings.
use text.Mathlib.Text.{◌==◌ as str_eq}
use fpm_tune.Common.{ℕ, String, ◌^◌, ◌≤◌, ◌<◌, ◌≡◌, true, false, arith}
use fpm_tune.Common.Word.{add64, slt}
use fpm_tune.Common.Float.{Float, IsIeee}
use fpm_tune.Allocate.Types.{Options}
use fpm_tune.Allocate.Spare.{Spares, clamp_spares, ceil_ratio, process_manager}

-- min_spare <= start_servers <= max_spare <= max_children, with a spare at least.
pub record IsOrdered (n : ℕ) (s : Spares) : Type 0 where
  pub some_spare : 0 < s.min_spare
  pub min-le-start : s.min_spare ≤ s.start_servers
  pub start-le-max : s.start_servers ≤ s.max_spare
  pub max-le : s.max_spare ≤ n

clamp_spares-IsOrdered :
    (n : ℕ) (s : Spares)
    → 0 < n
    → n < 2 ^ 63
    → s.start_servers < 2 ^ 64
    → s.min_spare < 2 ^ 64
    → s.max_spare < 2 ^ 64
    → IsOrdered n (clamp_spares n s)
unfolding clamp_spares slt
clamp_spares-IsOrdered n s h k a b c = ground arith

module _ (fl : Float) (ieee : IsIeee fl) where
  ceil_ratio-word : (n : ℕ) (ratio : fl.Num) → ceil_ratio fl n ratio < 2 ^ 64
  unfolding ceil_ratio add64
  ceil_ratio-word n ratio = ground (arith, ieee.trunc_word (fl.mul (fl.of_int n) ratio))

  -- Whatever the ratios are, the settings of a dynamic pool with a worker come out in the order that
  -- PHP-FPM accepts, and any other pool's are zero. The number of workers is a positive int64 and a
  -- conversion from a float fills a word.
  pub process_manager-IsOrdered :
      (pm : String) (n : ℕ) (o : Options fl)
      → 0 < n
      → n < 2 ^ 63
      → (str_eq pm "dynamic" ≡ true → IsOrdered n (process_manager fl pm n o))
        × (str_eq pm "dynamic" ≡ false
            → process_manager fl pm n o
              ≡ record { start_servers = 0; min_spare = 0; max_spare = 0 })
  unfolding process_manager
  process_manager-IsOrdered pm n o h k = (
    (λ e. rw e (
        clamp_spares-IsOrdered n _ h k (ceil_ratio-word n o.start_servers_ratio)
          (ceil_ratio-word n o.spare_min_ratio) (ceil_ratio-word n o.spare_max_ratio))),
    (λ e. rw e),
  )
