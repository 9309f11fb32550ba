-- ===== src/Apply/Live.antt =====
-- apply/apply.go: Apply from the live write on: the check in place, the record of the signal, the
-- reload, and the rollback of each.
pub mod Trail
pub mod Begin
pub mod Crash
use fpm_tune.Common.{
  ℕ, String, Bool, true, false, List, [], ◌∷◌, Option, none, some, Result, ok, err, if◌then◌else◌,
}
use fpm_tune.Common.Word.{sle}
use fpm_tune.Common.Float.{Float}
use fpm_tune.State.Types.{State}
use fpm_tune.Allocate.Compute.Lines.{PoolPlan}
use fpm_tune.Apply.Sections.{Override}
use fpm_tune.Apply.Disk.{
  World, Outside, Paths, Check, Reload, survived, not_a_master, not_survived, signal, Site,
  validating, timed_out, rejecting, unmarking, settling, reverting,
}
use fpm_tune.Apply.Write.{
  Master, Backup, Failure, out_of_time, out_of_time_left_in, validation_failed,
  validation_failed_left_in, not_recorded, not_recorded_left_in, master_unknown,
  master_unknown_left_in, master_did_not_survive, master_did_not_survive_left_in, Report, restore,
  commit, write_drop_in, mark_signalled, remember_note, record_changes,
}

-- What Apply leaves: the files, the result with its error, and the state.
pub record Ended (fl : Float) : Type 0 where
  pub world : World
  pub report : Report
  pub failure : Option Failure
  pub state : Option (State fl)

-- ReloadAndWait signals unless the process is no master.
unfoldable pub delivered : Reload → World → World
delivered survived w = signal w
delivered (not_a_master cancelled) w = w
delivered (not_survived cancelled) w = signal w

module _ {fl : Float} (p : Paths) (o : Outside) where
  -- A rollback: its failure is reported as `left_in`, and its success closes the transaction.
  unfoldable pub rolled_back :
      (left_in back : Failure)
      → (reported again : Bool) → Backup
      → Report
      → Option (State fl)
      → World × Bool
      → Ended fl
  rolled_back left_in back reported again b r st (w, true) = record {
    world = w;
    report = record r { rollback_failed = b.path ∷ [] };
    failure = some left_in;
    state = st;
  }
  rolled_back left_in back reported again b r st (w, false) = record {
    world = commit p o b (if again then signal w else w);
    report = record r { rolled_back = reported };
    failure = some back;
    state = st;
  }

  -- The master may or may not have adopted the change; the record stays.
  unfoldable pub interrupted : Report → Option (State fl) → World → Ended fl
  interrupted r st w = record {
    world = w;
    report = record r { reloaded = true; inconclusive = true };
    failure = none;
    state = st;
  }

  -- `st` is the state as it was, and `st'` the one with the changes recorded.
  unfoldable pub after_reload :
      Backup → Report → (st st' : Option (State fl)) → Reload → World → Ended fl
  after_reload b r st st' survived w = record {
    world = commit p o b w;
    report = record r { reloaded = true };
    failure = none;
    state = st';
  }
  after_reload b r st st' (not_a_master true) w = interrupted r st' w
  after_reload b r st st' (not_survived true) w = interrupted r st' w
  after_reload b r st st' (not_a_master false) w =
      rolled_back master_unknown_left_in master_unknown true false b r st
        (restore p o reverting b w)
  after_reload b r st st' (not_survived false) w =
      rolled_back master_did_not_survive_left_in master_did_not_survive true true b r st
        (restore p o reverting b w)

  unfoldable pub after_mark :
      Backup → Report → (st st' : Option (State fl)) → World × Bool → Ended fl
  after_mark b r st st' (w, true) =
      rolled_back not_recorded_left_in not_recorded true false b r st (restore p o unmarking b w)
  after_mark b r st st' (w, false) =
      after_reload b r st st' (o.reload settling) (delivered (o.reload settling) w)

  unfoldable pub tell_master :
      Master
      → Backup
      → (rendered : String) → Report
      → (st st' : Option (State fl)) → World
      → Ended fl
  tell_master m b rendered r st st' w =
      if sle m.pid 0
      then record { world = commit p o b w; report = r; failure = none; state = st' }
      else after_mark b r st st' (mark_signalled p o m b rendered w)

  -- The check in place.
  unfoldable pub after_check :
      (backup_dir : String)
      → Master
      → Backup
      → (rendered : String) → Report
      → (st st' : Option (State fl)) → (refused cancelled : Bool) → World
      → Ended fl
  after_check dir m b rendered r st st' false cancelled w =
      tell_master m b rendered (record r { wrote = true }) st st' (remember_note p o dir m w)
  after_check dir m b rendered r st st' true true w =
      rolled_back out_of_time_left_in out_of_time false false b r st (restore p o timed_out b w)
  after_check dir m b rendered r st st' true false w =
      rolled_back validation_failed_left_in validation_failed true false b r st
        (restore p o rejecting b w)

  unfoldable pub after_drop_in :
      (backup_dir : String)
      → Master
      → (rendered : String) → Report
      → (st st' : Option (State fl)) → World × Result Failure Backup
      → Ended fl
  after_drop_in dir m rendered r st st' (w, err e) = record {
    world = w;
    report = r;
    failure = some e;
    state = st;
  }
  after_drop_in dir m rendered r st st' (w, ok b) =
      let c = o.check validating w.disk.live in
      after_check dir m b rendered r st st' c.refused c.cancelled w

  -- Apply after the rehearsal in the sandbox, outside of a dry run. `pools` is the whole override
  -- set, and `changes` are the pools of it that are resized.
  unfoldable pub apply_live :
      (render : List Override → String)
      → (backup_dir : String) → Master
      → (pools : List Override) → (changes : List PoolPlan) → (now : ℕ) → Report
      → Option (State fl)
      → World
      → Ended fl
  apply_live render dir m pools changes now r st w =
      after_drop_in dir m (render pools) r st (record_changes m.config_path now changes st)
        (write_drop_in p o render m pools w)
