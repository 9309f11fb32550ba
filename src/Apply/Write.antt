-- ===== src/Apply/Write.antt =====
-- apply/apply.go: the change on disk, from the first write to the end of the transaction.
use Prim.Native.Char.{Char, code}
use Prim.Native.String.{[] as empty, ◌∷◌ as str_cons, ◌++◌ as str_append, find}
use text.Mathlib.Text.{◌==◌ as str_eq}
use fpm_tune.Common.{
  ℕ, String, Bool, true, false, ◌||◌, List, [], ◌∷◌, Option, none, some, Result, ok, err,
  if◌then◌else◌, ◌==◌,
}
use fpm_tune.Common.Float.{Float}
use fpm_tune.State.Types.{State}
use fpm_tune.State.Store.{record_applied}
use fpm_tune.Allocate.Compute.Lines.{PoolPlan}
use fpm_tune.Apply.Decide.{Outcome}
use fpm_tune.Apply.Sections.{Override}
use fpm_tune.Apply.Disk.{
  Transaction, World, Outside, Paths, Fault, works, fails, unsynced, Site, backup_dir, reading,
  backing_up, recording, writing, taking_back, noting, marking, record_clearing, copy_clearing,
  moved, put_live, remove_live, put_backup, put_record, clear_record, drop_backup,
}
use fpm_tune.Apply.Transaction.{phase_written, phase_signalled, drop_in_path}

pub record Master : Type 0 where
  pub binary : String
  pub config_path : String
  -- an int; not positive where no master runs
  pub pid : ℕ
  pub no_master_expected : Bool
  pub include_patterns : List String
  pub pid_file : String
  pub drop_in_dir : String

-- What a rollback needs; `saved` is a name in the backup directory, "" for none.
pub record Backup : Type 0 where
  pub path : String
  pub content : String
  pub existed : Bool
  pub saved : String

pub data Failure : Type 0 where
  no_backup_dir unsafe_pool_name cannot_back_up cannot_read_existing : Failure
  cannot_record cannot_record_or_restore cannot_write cannot_write_or_restore : Failure
  out_of_time out_of_time_left_in : Failure
  validation_failed validation_failed_left_in : Failure
  not_recorded not_recorded_left_in : Failure
  master_unknown master_unknown_left_in : Failure
  master_did_not_survive master_did_not_survive_left_in : Failure

pub record Report : Type 0 where
  pub outcomes : List Outcome
  pub reloaded : Bool
  pub wrote : Bool
  pub inconclusive : Bool
  pub rolled_back : Bool
  pub rollback_failed : List String

abbrev pub generated_marker : String
generated_marker = "; Written by fpm-tune. Do not edit."

-- '/', '\', newline, carriage return and the zero byte.
abbrev is_unsafe_char : Char → Bool
is_unsafe_char c = code c == 47 || (code c == 92 || (code c == 10 || (code c == 13 || code c == 0)))

abbrev pub has_unsafe_char : String → Bool
has_unsafe_char empty = false
has_unsafe_char (str_cons c s) = is_unsafe_char c || has_unsafe_char s

unfoldable pub unsafe_name : String → Bool
unsafe_name pool = str_eq pool "" || (has_unsafe_char pool || (str_eq pool "." || str_eq pool ".."))

abbrev pub any_unsafe : List Override → Bool
any_unsafe [] = false
any_unsafe (o ∷ os) = unsafe_name o.name || any_unsafe os

module _ (p : Paths) where
  unfoldable pub is_ours : String → Bool
  is_ours body = find (p.trim body) generated_marker == 0

  unfoldable pub backup_name : (drop_in_dir path : String) → String
  backup_name dir path =
      str_append (Prim.Native.String.slice (p.hash (p.clean dir)) 0 8)
        (str_append "-" (str_append (p.base path) ".bak"))

  unfoldable pub transaction_of : Master → Backup → (rendered phase : String) → Transaction
  transaction_of m b rendered phase = record {
    drop_in_dir = m.drop_in_dir;
    binary = m.binary;
    config_path = m.config_path;
    path = b.path;
    existed = b.existed;
    saved = b.saved;
    wrote = p.hash rendered;
    phase = phase;
  }

abbrev pub is_failed : Fault → Bool
is_failed works = false
is_failed unsynced = false
is_failed fails = true

module _ (p : Paths) (o : Outside) where
  -- restore: whether it reports an error.
  unfoldable pub restore : Site → Backup → World → World × Bool
  restore site b w =
      if b.existed
      then put_live (o.write site) (some b.content) w
      else remove_live (o.remove_fails site) w.disk.live w

  unfoldable pub commit : Backup → World → World
  commit b w =
      let w' = clear_record (o.remove_fails record_clearing) w in
      if str_eq b.saved "" then w' else drop_backup (o.remove_fails copy_clearing) b.saved w'

  -- The rollbacks of writeDropIn.
  unfoldable pub give_up_recording : World × Bool → World × Result Failure Backup
  give_up_recording (w, true) = (w, err cannot_record_or_restore)
  give_up_recording (w, false) = (w, err cannot_record)

  unfoldable pub give_up_writing : World × Bool → World × Result Failure Backup
  give_up_writing (w, true) = (w, err cannot_write_or_restore)
  give_up_writing (w, false) = (clear_record (o.remove_fails record_clearing) w, err cannot_write)

  unfoldable pub after_write : Backup → World × Bool → World × Result Failure Backup
  after_write b (w, false) = (w, ok b)
  after_write b (w, true) = give_up_writing (restore taking_back b w)

  unfoldable pub after_record :
      Backup → (rendered : String) → World × Bool → World × Result Failure Backup
  after_record b rendered (w, true) = give_up_recording (restore taking_back b w)
  after_record b rendered (w, false) = after_write b (put_live (o.write writing) (some rendered) w)

  unfoldable pub write_recorded :
      Master → Backup → (rendered : String) → World → World × Result Failure Backup
  write_recorded m b rendered w =
      after_record b rendered
        (put_record (o.write recording) (transaction_of p m b rendered phase_written) w)

  unfoldable pub after_backup :
      Master → Backup → (rendered : String) → World × Bool → World × Result Failure Backup
  after_backup m b rendered (w, true) = (w, err cannot_back_up)
  after_backup m b rendered (w, false) = write_recorded m b rendered w

  -- What the file held before: no file, a copied one, or one that cannot be read.
  unfoldable pub back_up :
      Master
      → (rendered : String) → (unread : Bool) → Option String
      → World
      → World × Result Failure Backup
  back_up m rendered unread none w =
      write_recorded m
        (record { path = drop_in_path p m.drop_in_dir; content = ""; existed = false; saved = "" })
        rendered w
  back_up m rendered true (some content) w = (w, err cannot_read_existing)
  back_up m rendered false (some content) w =
      let path = drop_in_path p m.drop_in_dir in
      let saved = backup_name p m.drop_in_dir path in
      after_backup m (record { path = path; content = content; existed = true; saved = saved })
        rendered (put_backup (o.write backing_up) saved content w)

  -- Render is an argument: the text of a list of pools.
  unfoldable pub write_drop_in :
      (render : List Override → String)
      → Master
      → List Override
      → World
      → World × Result Failure Backup
  write_drop_in render m pools w =
      if is_failed (o.write backup_dir)
      then (w, err no_backup_dir)
      else (if any_unsafe pools
          then (w, err unsafe_pool_name)
          else back_up m (render pools) (o.read_fails reading) w.disk.live w)

  unfoldable pub mark_signalled : Master → Backup → (rendered : String) → World → World × Bool
  mark_signalled m b rendered w =
      put_record (o.write marking) (transaction_of p m b rendered phase_signalled) w

  -- rememberMaster; its errors are thrown away.
  unfoldable pub remember_note : (backup_dir : String) → Master → World → World
  remember_note dir m w =
      if is_failed (o.write noting)
        || (str_eq dir "" || (str_eq m.binary "" || str_eq m.config_path ""))
      then w
      else moved
          (record w.disk {
            note = some (record {
              binary = m.binary;
              config_path = m.config_path;
              drop_in_dir = m.drop_in_dir;
              pid_file = m.pid_file;
            });
          })
          w

-- record: what was applied, in the state where there is one.
unfoldable pub record_changes :
    {fl : Float}
    → (master : String) → (at : ℕ) → List PoolPlan
    → Option (State fl)
    → Option (State fl)
record_changes master at changes none = none
record_changes master at [] (some st) = some st
record_changes master at (pp ∷ pps) (some st) =
    record_changes master at pps (some (record_applied master pp.name pp.max_children at st))
