-- ===== src/Apply/Run.antt =====
-- apply/apply.go: Apply as a whole, with staleSections, includesOurFragments and validateSandboxed.
pub mod Text
pub mod Stale
pub mod Course
pub mod Budget
mod Tests
use text.Mathlib.Text.{◌==◌ as str_eq}
use fpm_tune.Common.{
  ℕ, String, Bool, true, false, not, ◌&&◌, ◌||◌, List, [], ◌∷◌, ◌++◌, Option, none, some, Result,
  ok, err, if◌then◌else◌,
}
use fpm_tune.Common.Word.{sle}
use fpm_tune.Common.Float.{Float}
use fpm_tune.Common.Text.{trim_space}
use fpm_tune.Common.Split.{split_lines, join_lines}
use fpm_tune.State.Types.{State, PoolState}
use fpm_tune.State.Store.{lookup_pool}
use fpm_tune.Allocate.Compute.Lines.{PoolPlan, Plan, Reason}
use fpm_tune.Apply.Decide.{Options, Outcome, Remembered, apply_defaults, decide}
use fpm_tune.Apply.Damping.{has, require_shrinks_with_growth}
use fpm_tune.Apply.Disk.{World, Outside, Paths, stale_reading, set_reading, staging, trial, Check}
use fpm_tune.Apply.Transaction.{drop_in_path}
use fpm_tune.Apply.Sections.{Override}
use fpm_tune.Apply.Write.{Master, Failure, Report, is_failed}
use fpm_tune.Apply.DropIn.{
  DropIn, missing, unreadable, lines, ParseError, header_name, render, override_set,
}
use fpm_tune.Apply.Live.{Ended, apply_live}

-- sort.Slice, the sentence of a reason, and filepath.Match without an error.
pub record Calls : Type 1 where
  pub sort : (A : Type 0) → (A → A → Bool) → List A → List A
  pub sort_outcomes : List Outcome → List Outcome
  pub sort_overrides : List Override → List Override
  pub text : Reason → String
  pub matches : (pattern path : String) → Bool

-- The errors before the live write.
pub data Refusal : Type 0 where
  no_master not_included not_staged not_accepted out_of_time_unwritten : Refusal
  not_read_back : ParseError → Refusal

pub data ApplyError : Type 0 where
  refused : Refusal → ApplyError
  failed : Failure → ApplyError

pub record Applied (fl : Float) : Type 0 where
  pub world : World
  pub report : Report
  pub error : Option ApplyError
  pub state : Option (State fl)

-- os.ReadFile of the drop-in; the fault is one where the file is there.
unfoldable pub read_file : (fault : Bool) → Option String → DropIn
read_file fault none = missing
read_file true (some body) = unreadable
read_file false (some body) = lines (split_lines body)

unfoldable pub stale_name : List PoolPlan → Option String → List String
stale_name plan none = []
stale_name plan (some name) = if str_eq name "" || has name plan then [] else name ∷ []

unfoldable pub stale_lines : List PoolPlan → List String → List String
unfolding stale_name
stale_lines plan [] = []
stale_lines plan (l ∷ ls) = stale_name plan (header_name (trim_space l)) ++ stale_lines plan ls

-- staleSections
unfoldable pub stale_sections : List PoolPlan → DropIn → List String
unfolding stale_lines
stale_sections plan missing = []
stale_sections plan unreadable = []
stale_sections plan (lines ls) = stale_lines plan ls

-- The text that Render gives.
unfoldable pub render_text : (List Override → List Override) → List Override → String
render_text sort_overrides pools = join_lines (render sort_overrides pools)

unfoldable pub remembered_as : {fl : Float} → Option (PoolState fl) → Option Remembered
remembered_as none = none
remembered_as (some ps) = some (record {
  last_applied_max_children = ps.last_applied_max_children;
  last_applied_at = ps.last_applied_at;
})

unfoldable pub remembered_of :
    {fl : Float} → (master pool : String) → Option (State fl) → Option Remembered
unfolding remembered_as
remembered_of master pool none = none
remembered_of master pool (some st) = remembered_as (lookup_pool master pool st)

-- What the loop over the plan collects.
pub record Decided : Type 0 where
  pub outcomes : List Outcome
  pub changes : List PoolPlan

unfoldable pub decide_all :
    {fl : Float} → Options fl → Master → Option (State fl) → (now : ℕ) → List PoolPlan → Decided
unfolding remembered_of
decide_all opts m st now [] = record { outcomes = []; changes = [] }
decide_all {fl} opts m st now (pp ∷ pps) =
    let (outcome, worth) = decide fl opts (remembered_of m.config_path pp.name st) now pp in
    let rest = decide_all opts m st now pps in
    record {
      outcomes = outcome ∷ rest.outcomes;
      changes = if worth then pp ∷ rest.changes else rest.changes;
    }

unfoldable pub any_matches : (matches : String → String → Bool) → List String → String → Bool
any_matches matches [] path = false
any_matches matches (pattern ∷ ps) path = matches pattern path || any_matches matches ps path

-- includesOurFragments
unfoldable pub includes_ours : (matches : String → String → Bool) → List String → String → Bool
unfolding any_matches
includes_ours matches [] path = true
includes_ours matches (pattern ∷ ps) path = any_matches matches (pattern ∷ ps) path

unfoldable pub refusal_of : (because : Refusal) → (cancelled : Bool) → Refusal
refusal_of because cancelled = if cancelled then out_of_time_unwritten else because

-- validateSandboxed, and ctx.Err() after it; what the sandbox holds is the text that would be written.
unfoldable pub rehearse : Outside → (rendered : String) → Option Refusal
unfolding refusal_of
rehearse o rendered =
    let c = o.check trial (some rendered) in
    if is_failed (o.write staging)
    then some (refusal_of not_staged (o.cancelled staging))
    else (if c.refused then some (refusal_of not_accepted c.cancelled) else none)

-- The changes that are left after the damping, and what they are applied with.
pub record Job (fl : Float) : Type 0 where
  pub options : Options fl
  pub master : Master
  pub plan : List PoolPlan
  pub changes : List PoolPlan
  pub outcomes : List Outcome
  pub now : ℕ
  pub state : Option (State fl)

unfoldable pub report_of : List Outcome → Report
report_of outcomes = record {
  outcomes = outcomes;
  reloaded = false;
  wrote = false;
  inconclusive = false;
  rolled_back = false;
  rollback_failed = [];
}

unfoldable pub refusal_error : Option Refusal → Option ApplyError
refusal_error none = none
refusal_error (some r) = some (refused r)

unfoldable pub failure_error : Option Failure → Option ApplyError
failure_error none = none
failure_error (some f) = some (failed f)

unfoldable pub lacks_master : Master → Bool
lacks_master m = sle m.pid 0 && not m.no_master_expected

unfoldable pub is_idle : (changes : List PoolPlan) → (stale : List String) → Bool
is_idle [] [] = true
is_idle [] (s ∷ ss) = false
is_idle (c ∷ cs) stale = false

module _ {fl : Float} where
  -- A return before the live write.
  unfoldable pub stopped : Job fl → Option Refusal → World → Applied fl
  unfolding report_of refusal_error
  stopped j r w = record {
    world = w;
    report = report_of j.outcomes;
    error = refusal_error r;
    state = j.state;
  }

  unfoldable pub of_live : Ended fl → Applied fl
  unfolding failure_error
  of_live e = record {
    world = e.world;
    report = e.report;
    error = failure_error e.failure;
    state = e.state;
  }

module _ {fl : Float} (calls : Calls) where
  -- Apply up to the damping.
  unfoldable pub job_of :
      (default_backup_dir : String)
      → Options fl
      → Plan
      → Master
      → Option (State fl)
      → (now : ℕ) → Job fl
  unfolding decide_all
  job_of default_backup_dir opts plan m st now =
      let opts' = apply_defaults fl default_backup_dir opts in
      let decided = decide_all opts' m st now plan.pools in
      let damped =
        require_shrinks_with_growth calls.sort plan decided.changes
          (calls.sort_outcomes decided.outcomes) in
      record {
        options = opts';
        master = m;
        plan = plan.pools;
        changes = damped.changes;
        outcomes = damped.outcomes;
        now = now;
        state = st;
      }

module _ {fl : Float} (calls : Calls) (p : Paths) (o : Outside) where
  unfoldable pub after_rehearsal : Job fl → List Override → Option Refusal → World → Applied fl
  unfolding stopped of_live report_of
  after_rehearsal j pools (some r) w = stopped j (some r) w
  after_rehearsal j pools none w =
      if j.options.dry_run
      then stopped j none w
      else of_live (
          apply_live p o (render_text calls.sort_overrides) j.options.backup_dir j.master pools
            j.changes j.now (report_of j.outcomes) j.state w)

  unfoldable pub after_set : Job fl → Result ParseError (List Override) → World → Applied fl
  unfolding stopped after_rehearsal
  after_set j (err e) w = stopped j (some (not_read_back e)) w
  after_set j (ok pools) w =
      after_rehearsal j pools (rehearse o (render_text calls.sort_overrides pools)) w

  unfoldable pub set_of : Job fl → World → Result ParseError (List Override)
  set_of j w =
      override_set calls.text j.plan j.changes (read_file (o.read_fails set_reading) w.disk.live)

  -- Apply after the damping.
  unfoldable pub carry_out : Job fl → World → Applied fl
  unfolding stopped after_set set_of stale_sections is_idle lacks_master includes_ours
  carry_out j w =
      let stale = stale_sections j.plan (read_file (o.read_fails stale_reading) w.disk.live) in
      let m = j.master in
      if is_idle j.changes stale
      then stopped j none w
      else (if not j.options.dry_run && lacks_master m
          then stopped j (some no_master) w
          else (if includes_ours calls.matches m.include_patterns (drop_in_path p m.drop_in_dir)
              then after_set j (set_of j w) w
              else stopped j (some not_included) w))

  -- Apply
  unfoldable pub apply :
      (default_backup_dir : String)
      → Options fl
      → Plan
      → Master
      → Option (State fl)
      → (now : ℕ) → World
      → Applied fl
  unfolding job_of carry_out
  apply default_backup_dir opts plan m st now w =
      carry_out (job_of calls default_backup_dir opts plan m st now) w
