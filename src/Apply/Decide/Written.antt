-- ===== src/Apply/Decide/Written.antt =====
-- apply/apply.go: when decide writes a pool, and what its outcome says.
use fpm_tune.Common.{ℕ, some, ◌≡◌, Bool, not, ◌&&◌, Option, if◌then◌else◌}
use fpm_tune.Common.Word.{slt}
use fpm_tune.Common.Float.{Float}
use fpm_tune.Allocate.Compute.Lines.{PoolPlan}
use fpm_tune.Apply.Decide.{
  Options, Remembered, current_of, since_applied, too_recent, relative_change,
}

module _ (fl : Float) (o : Options fl) (ps : Option Remembered) (now : ℕ) (pp : PoolPlan) where
  abbrev current : ℕ
  current = current_of ps pp

  -- The threshold and the interval of the change's direction.
  abbrev pub threshold : fl.Num
  threshold = if slt pp.max_children current then o.shrink_min_change else o.min_change

  abbrev pub interval : ℕ
  interval = if slt pp.max_children current then o.shrink_min_interval else o.min_interval

  -- The change clears the brake on time and the threshold on size of its direction.
  abbrev pub clears : Bool
  clears =
      not (too_recent (since_applied ps now) interval)
      && not (fl.flt (relative_change fl current pp.max_children) threshold)

  -- The pool's last change was at `at`.
  abbrev pub ChangedAt : ℕ → Type 0
  ChangedAt at = (r : Remembered) × (ps ≡ some r) × (r.last_applied_at ≡ some at)
