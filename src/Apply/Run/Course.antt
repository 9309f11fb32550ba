-- ===== src/Apply/Run/Course.antt =====
-- apply/apply.go: the ways in which Apply goes, and what each leaves.
use fpm_tune.Common.{◌≡◌, String, true, false, List, [], Option, none, some, ok, err}
use fpm_tune.Common.Float.{Float}
use fpm_tune.State.Types.{State}
use fpm_tune.Apply.Disk.{Disk, absent, World, Outside, Paths, stale_reading}
use fpm_tune.Apply.Transaction.{drop_in_path}
use fpm_tune.Apply.Sections.{Override}
use fpm_tune.Apply.Live.{Ended}
use fpm_tune.Apply.Live.Trail.{Believes, IsMarked, Safe}
use fpm_tune.Apply.Live.Crash.{Ends}
use fpm_tune.Apply.Run.{
  Calls, Refusal, no_master, not_included, not_staged, not_accepted, out_of_time_unwritten,
  not_read_back, refused, Applied, read_file, stale_sections, render_text, includes_ours, rehearse,
  Job, lacks_master, of_live, set_of,
}

module _ {fl : Float} (calls : Calls) (p : Paths) (o : Outside) (Takes : Option String → Type 0)
    (j : Job fl) (w : World) where
  -- Nothing was written, told or noted.
  pub record Untouched (e : Applied fl) : Type 0 where
    pub same_world : e.world ≡ w
    pub same_state : e.state ≡ j.state
    pub not_written : e.report.wrote ≡ false
    pub not_reloaded : e.report.reloaded ≡ false

  abbrev pub text_of : List Override → String
  text_of = render_text calls.sort_overrides

  -- What the rehearsal makes of the text that would be written.
  abbrev pub Rehearsed : Option Refusal → Type 0
  Rehearsed r =
      (pools : List Override) × (set_of calls p o j w ≡ ok pools) × (rehearse o (text_of pools) ≡ r)

  -- What is behind an error before the live write.
  abbrev pub Because : Refusal → Type 0
  Because no_master = (j.options.dry_run ≡ false) × (lacks_master j.master ≡ true)
  Because not_included =
      includes_ours calls.matches j.master.include_patterns (drop_in_path p j.master.drop_in_dir)
      ≡ false
  Because (not_read_back e) = set_of calls p o j w ≡ err e
  Because not_staged = Rehearsed (some not_staged)
  Because not_accepted = Rehearsed (some not_accepted)
  Because out_of_time_unwritten = Rehearsed (some out_of_time_unwritten)

  -- Apply finds nothing to do, gives an error before it writes, ends a dry run, or writes the override
  -- set: for a master that is known and reads the file, after php-fpm took the rehearsal.
  pub data Course (e : Applied fl) : Type 0 where
    idle :
        j.changes ≡ []
        → stale_sections j.plan (read_file (o.read_fails stale_reading) w.disk.live) ≡ []
        → e.error ≡ none
        → Untouched e
        → Course e
    stopped_by : (r : Refusal) → e.error ≡ some (refused r) → Because r → Untouched e → Course e
    dry :
        (pools : List Override)
        → j.options.dry_run ≡ true
        → set_of calls p o j w ≡ ok pools
        → Takes (some (text_of pools))
        → e.error ≡ none
        → Untouched e
        → Course e
    wrote :
        (pools : List Override) (l : Ended fl)
        → j.options.dry_run ≡ false
        → lacks_master j.master ≡ false
        → includes_ours calls.matches j.master.include_patterns
            (drop_in_path p j.master.drop_in_dir)
          ≡ true
        → set_of calls p o j w ≡ ok pools
        → Takes (some (text_of pools))
        → e ≡ of_live l
        → Safe p Takes j.master w.disk.live (text_of pools) IsMarked l.world
        → Ends p Takes o j.master w.disk.live (text_of pools) l
        → Course e

module _ {fl : Float} (calls : Calls) (p : Paths) (o : Outside) (Takes : Option String → Type 0)
    (believes : Believes o Takes) (j : Job fl) (d : Disk) (none_open : d.record_file ≡ absent) where
  abbrev start : World
  start = record { disk = d; trail = []; signals = [] }

  abbrev Goes : Applied fl → Type 0
  Goes = Course calls p o Takes j start

-- The world that Apply starts in, with nothing in flight.
abbrev pub started : Disk → World
started d = record { disk = d; trail = []; signals = [] }
