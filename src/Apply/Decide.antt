-- ===== src/Apply/Decide.antt =====
-- apply/apply.go: the options, the outcomes, and decide.
pub mod Written
use text.Mathlib.Text.{◌==◌ as str_eq}
use fpm_tune.Common.{
  ℕ, ◌+◌, ◌-◌, ◌*◌, String, Bool, true, false, not, ◌&&◌, ◌||◌, List, [], ◌∷◌, Option, none, some,
  if◌then◌else◌, ◌==◌,
}
use fpm_tune.Common.Word.{int64_min, sub64, mul64, slt, sle}
use fpm_tune.Common.Float.{Float}
use fpm_tune.Common.Time.{second, since}
use fpm_tune.Allocate.Compute.Lines.{PoolPlan}

-- Durations and times are int64 nanoseconds.
pub record Options (fl : Float) : Type 0 where
  pub min_interval : ℕ
  pub min_change : fl.Num
  pub shrink_min_change : fl.Num
  pub shrink_min_interval : ℕ
  pub settle_time : ℕ
  pub backup_dir : String
  pub dry_run : Bool

pub data Action : Type 0 where
  applied unchanged too_soon too_small not_written held_back : Action

-- The sentences that an outcome can give, with the values in them.
pub data Reason : Type 0 where
  unreadable : Reason
  already_at : ℕ → Reason
  first_configuration : Reason
  changed_recently : (ago interval : ℕ) (shrink : Bool) → Reason
  small_change : (from to : ℕ) (shrink : Bool) → Reason
  moved : (from to : ℕ) → Reason
  below_threshold : (from to : ℕ) → Reason
  cannot_reload_yet : (from to : ℕ) → Reason
  fully_committed : (from to : ℕ) → Reason

pub record Outcome : Type 0 where
  pub pool : String
  pub action : Action
  pub from : ℕ
  pub to : ℕ
  pub reason : Reason

-- What decide reads of a pool's state; no time where nothing was ever applied.
pub record Remembered : Type 0 where
  pub last_applied_max_children : ℕ
  pub last_applied_at : Option ℕ

-- The observed ceiling, and the remembered one where none was observed.
unfoldable pub current_of : Option Remembered → PoolPlan → ℕ
current_of none pp = pp.current
current_of (some ps) pp = if sle pp.current 0 then ps.last_applied_max_children else pp.current

-- now.Sub(ps.LastAppliedAt), where the pool has a time.
unfoldable pub since_applied : Option Remembered → ℕ → Option ℕ
unfolding since
since_applied none now = none
since_applied (some ps) now = elim ps.last_applied_at [
  | none ↦ none
  | some at ↦ some (since now at)
]

unfoldable pub too_recent : Option ℕ → ℕ → Bool
too_recent none interval = false
too_recent (some ago) interval = slt ago interval

module _ (fl : Float) where
  open fl use {Num, of_int, mul, div, neg, flt, fle}

  -- Options.Defaults; 0.15 is the quotient 15/100, and `o.MinChange * 2` a product.
  unfoldable pub apply_defaults : String → Options fl → Options fl
  apply_defaults default_backup_dir o =
      let interval = if sle o.min_interval 0 then 300 * second else o.min_interval in
      let change =
        if fle o.min_change (of_int 0) then div (of_int 15) (of_int 100) else o.min_change in
      record o {
        min_interval = interval;
        min_change = change;
        shrink_min_change =
            if fle o.shrink_min_change (of_int 0)
            then mul change (of_int 2)
            else o.shrink_min_change;
        shrink_min_interval =
            if sle o.shrink_min_interval 0 then mul64 interval 4 else o.shrink_min_interval;
        settle_time = if sle o.settle_time 0 then 2 * second else o.settle_time;
        backup_dir = if is_empty o.backup_dir then default_backup_dir else o.backup_dir;
      }
    where
      is_empty : String → Bool
      is_empty s = str_eq s ""

  -- |to - from| / from
  unfoldable pub relative_change : (from to : ℕ) → Num
  relative_change from to =
      let delta = div (of_int (sub64 to from)) (of_int from) in
      if flt delta (of_int 0) then neg delta else delta

  -- The outcome, and whether the pool is worth writing.
  unfoldable pub decide : Options fl → Option Remembered → (now : ℕ) → PoolPlan → Outcome × Bool
  decide o ps now pp =
      let current = current_of ps pp in
      let to = pp.max_children in
      let shrinking = slt to current in
      let change = if shrinking then o.shrink_min_change else o.min_change in
      let interval = if shrinking then o.shrink_min_interval else o.min_interval in
      let out = λ (a : Action) (from : ℕ) (r : Reason) (worth : Bool).
        let oc : Outcome × Bool =
          (record { pool = pp.name; action = a; from = from; to = to; reason = r }, worth) in
        oc in
      if pp.unknown
      then out not_written 0 unreadable false
      else (if current == to
          then out unchanged current (already_at to) false
          else (if sle current 0
              then out applied current first_configuration true
              else (if too_recent (since_applied ps now) interval
                  then out too_soon current
                      (changed_recently (ago (since_applied ps now)) interval shrinking) false
                  else (if flt (relative_change current to) change
                      then out too_small current (small_change current to shrinking) false
                      else out applied current (moved current to) true))))
    where
      ago : Option ℕ → ℕ
      ago none = 0
      ago (some d) = d
