-- ===== src/Apply/Tests.antt =====
-- apply/apply.go: runs of the model on concrete plans, and the theorems applied to them.
use fpm_tune.Common.{
  ℕ, ◌*◌, ◌^◌, ◌≡◌, refl, true, false, not, List, [], ◌∷◌, map, Option, some, if◌then◌else◌,
}
use fpm_tune.Common.Word.{add64, sub64, mul64, slt}
use fpm_tune.Common.Rational.{rational}
use fpm_tune.Common.Time.{second}
use fpm_tune.Allocate.Compute.Lines.{PoolPlan, Plan}
use fpm_tune.Apply.Decide.{
  Options, applied, too_small, Outcome, Remembered, apply_defaults, decide, current_of,
  since_applied, too_recent, relative_change, first_configuration,
}
use fpm_tune.Apply.Sample.{line, insert, sort, sort-All}
use fpm_tune.Apply.Damping.{
  couple, reductions, action_of, pull_reductions, drop_growths, has_name, commitment_of,
  commitment_from, has, keep, is_growth, hold_growths, hold_loop, set_outcome,
}
use fpm_tune.Apply.Damping.Held.{Held, hold_growths-Held}

abbrev options : Options rational
unfolding apply_defaults sub64 mul64 slt
options = apply_defaults rational "/var/lib" (record {
  min_interval = 0;
  min_change = (0, 1);
  shrink_min_change = (0, 1);
  shrink_min_interval = 0;
  settle_time = 0;
  backup_dir = "";
  dry_run = false;
})

-- Applied ten minutes before.
abbrev remembered : Option Remembered
remembered =
    some (record { last_applied_max_children = 10; last_applied_at = some (1_000 * second) })

abbrev now : ℕ
now = 1_600 * second

-- A growth waits for the interval of a growth only, a reduction for four of them.
default_interval : options.min_interval ≡ 300 * second
unfolding options
default_interval = refl

grown : (decide rational options remembered now (line "shop" 10 14 64)).1 ≡ true
unfolding decide current_of since_applied too_recent relative_change sub64 slt options
grown = refl

shrunk_too_soon : (decide rational options remembered now (line "shop" 10 2 64)).1 ≡ false
unfolding decide current_of since_applied too_recent relative_change sub64 slt options
shrunk_too_soon = refl

abbrev shop : PoolPlan
shop = line "shop" 10 14 64

-- A steady pool that shrinks and two pools that grow; only the smaller growth fits.
abbrev changes : List PoolPlan
changes = line "old" 20 10 128 ∷ line "shop" 10 40 64 ∷ line "blog" 10 30 128 ∷ []

abbrev plan : Plan
plan = record {
  pools = changes;
  total_bytes = 6 * 2 ^ 30;
  reserve_bytes = 2 ^ 29;
  allocated_bytes = 0;
  free_bytes = 0;
  capacity_exhausted = true;
  shortfall_bytes = 0;
  warnings = [];
}

abbrev outcomes : List Outcome
outcomes =
    map
      (λ (p : PoolPlan). record {
        pool = p.name;
        action = applied;
        from = p.current;
        to = p.max_children;
        reason = first_configuration;
      })
      changes

abbrev limit : ℕ
limit = 11 * 2 ^ 29

largest_held_back :
    map (λ (p : PoolPlan). p.name) (hold_growths sort plan changes outcomes limit).changes
    ≡ "old" ∷ "shop" ∷ []
unfolding hold_growths hold_loop commitment_of commitment_from has keep sort insert set_outcome
    add64 sub64 mul64 slt
largest_held_back = refl

hold_growths-Held_example :
    Held plan limit
      (keep (λ p. not (is_growth p)) changes)
      (hold_growths sort plan changes outcomes limit).changes
hold_growths-Held_example = hold_growths-Held sort sort-All plan changes outcomes limit

-- The pool that shrinks was refused as too small, and both growths go through: its memory is pulled
-- in, and the larger growth still has to be dropped.
abbrev damped : List Outcome
damped =
    map
      (λ (p : PoolPlan). record {
        pool = p.name;
        action = if is_growth p then applied else too_small;
        from = p.current;
        to = p.max_children;
        reason = first_configuration;
      })
      changes

abbrev growths : List PoolPlan
growths = line "shop" 10 40 64 ∷ line "blog" 10 30 128 ∷ []

abbrev committed : ℕ
unfolding commitment_of commitment_from has add64 mul64 slt
committed = commitment_of plan growths

coupled :
    map (λ (p : PoolPlan). p.name) (couple sort plan growths damped limit committed).changes
    ≡ "shop" ∷ "old" ∷ []
unfolding committed couple reductions action_of has pull_reductions drop_growths set_outcome keep
    has_name sort insert add64 sub64 mul64 slt
coupled = refl
