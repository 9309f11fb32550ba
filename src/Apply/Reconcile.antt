-- ===== src/Apply/Reconcile.antt =====
-- apply/reconcile.go and apply/remembered.go: what the next run makes of a change that was not finished.
pub mod Read
pub mod Undo
pub mod Recover
pub mod Repair
mod Tests
use Prim.Native.String.{len, find, slice}
use text.Mathlib.Text.{◌==◌ as str_eq}
use fpm_tune.Common.{
  ℕ, ◌+◌, ◌-◌, String, Bool, true, false, not, ◌&&◌, ◌||◌, List, [], ◌∷◌, Option, none, some,
  if◌then◌else◌, leb,
}
use fpm_tune.Common.Map.{lookup, string_eq}
use fpm_tune.Common.Word.{sle}
use fpm_tune.Apply.Disk.{
  Transaction, MasterNote, Disk, World, Outside, Paths, Site, Check, Reload, survived, not_a_master,
  not_survived, record_closing, copy_closing, kept_check, finishing, rehearsing, undoing,
  undone_check, reloading_back, removal_reading, removal_rehearsing, removing, removed_check,
  putting_back, landing, repair_check, repair_reading, repair_rehearsing, repair_removing,
  repaired_check, repair_putting_back, reverting, put_live, remove_live, clear_record, drop_backup,
}
use fpm_tune.Apply.Transaction.{
  Problem, Found, nothing, unusable, found, phase_written, phase_signalled, read_transaction,
  landed,
}
use fpm_tune.Apply.Write.{Master, is_ours}
use fpm_tune.Apply.Live.{delivered}

-- The errors, each of which wraps ErrUnreconciled.
pub data Unresolved : Type 0 where
  bad_record : Problem → Unresolved
  edited_and_rejected interrupted_check not_this_change cannot_undo still_rejected : Unresolved
  gone_and_stuck master_not_running reload_interrupted reload_lost_copy reload_cannot_undo
        reload_undone :
      Unresolved
  repair_interrupted cannot_remove not_repaired not_put_back : Unresolved

-- The files, whether anything was done, and the error.
pub record Settled : Type 0 where
  pub world : World
  pub acted : Bool
  pub problem : Option Unresolved

abbrev pub or_else : String → String → String
or_else s t = if str_eq s "" then t else s

unfoldable pub completed_from : Transaction → Master → Master
completed_from t m = record m {
  binary = or_else m.binary t.binary;
  config_path = or_else m.config_path t.config_path;
  drop_in_dir = or_else m.drop_in_dir t.drop_in_dir;
}

unfoldable pub filled_from : MasterNote → Master → Master
filled_from n m = record m {
  binary = or_else m.binary n.binary;
  config_path = or_else m.config_path n.config_path;
  drop_in_dir = or_else m.drop_in_dir n.drop_in_dir;
  pid_file = or_else m.pid_file n.pid_file;
}

abbrev pub no_note : MasterNote
no_note = record { binary = ""; config_path = ""; drop_in_dir = ""; pid_file = "" }

unfoldable pub has_suffix : String → String → Bool
has_suffix s t = leb (len t) (len s) && str_eq (slice s (len s - len t) (len s)) t

module _ (p : Paths) (o : Outside) where
  unfoldable pub remembered_master :
      (backup_dir drop_in_dir : String) → Option MasterNote → MasterNote
  remembered_master backup_dir dir none = no_note
  remembered_master backup_dir dir (some n) =
      if str_eq backup_dir ""
        || (str_eq dir "" || not (str_eq (p.clean n.drop_in_dir) (p.clean dir)))
      then no_note
      else n

  -- backupTarget: the name is this master's prefix, a dash and the rest.
  unfoldable pub is_backup_of : (drop_in_dir name : String) → Bool
  is_backup_of dir name =
      leb (find name "-") (len name)
      && str_eq (slice name 0 (find name "-")) (slice (p.hash (p.clean dir)) 0 8)

  -- The directory is listed once; each removal is its own.
  unfoldable pub sweep_names : (drop_in_dir : String) → List (String × String) → World → World
  sweep_names dir [] w = w
  sweep_names dir ((name, content) ∷ rest) w = sweep_names dir rest (
      if has_suffix name ".bak" && is_backup_of dir name
      then drop_backup (o.sweep_fails name) name w
      else w)

  unfoldable pub sweep_orphan_backups : (drop_in_dir : String) → World → World
  sweep_orphan_backups dir w = sweep_names dir w.disk.backups w

  unfoldable pub discard : Transaction → World → World
  discard t w =
      let w' = clear_record (o.remove_fails record_closing) w in
      if str_eq t.saved "" then w' else drop_backup (o.remove_fails copy_closing) t.saved w'

  -- What the file held before: no copy to be had, no file, or its contents.
  pub data Previous : Type 0 where
    lost : Previous
    was : Option String → Previous

  unfoldable pub read_copy : (unread : Bool) → Option String → Previous
  read_copy true copy = lost
  read_copy false none = lost
  read_copy false (some content) = was (some content)

  unfoldable pub previous_content : Transaction → Disk → Previous
  previous_content t d =
      if not t.existed
      then was none
      else (if str_eq t.saved ""
          then lost
          else read_copy (o.read_fails undoing) (lookup t.saved d.backups))

  unfoldable pub apply_previous : Option String → World → World × Bool
  apply_previous none w = remove_live (o.remove_fails undoing) w.disk.live w
  apply_previous (some content) w = put_live (o.write undoing) (some content) w

  -- removeOursIfThatFixesIt: whether it reports an error.
  unfoldable pub after_removal : (body : String) → World × Bool → World × Bool
  after_removal body (w, true) = (w, true)
  after_removal body (w, false) =
      if (o.check removed_check w.disk.live).refused
      then ((put_live (o.write putting_back) (some body) w).0, true)
      else (w, false)

  unfoldable pub remove_read : Option String → World → World × Bool
  remove_read none w = (w, true)
  remove_read (some body) w =
      if not (is_ours p body) || (o.check removal_rehearsing none).refused
      then (w, true)
      else after_removal body (remove_live (o.remove_fails removing) w.disk.live w)

  unfoldable pub remove_ours_if_that_fixes_it : World → World × Bool
  remove_ours_if_that_fixes_it w =
      remove_read (if o.read_fails removal_reading then none else w.disk.live) w

  -- undoLeftover
  unfoldable pub after_remove_ours : World × Bool → World × Option Unresolved
  after_remove_ours (w, true) = (w, some gone_and_stuck)
  after_remove_ours (w, false) = (clear_record (o.remove_fails record_closing) w, none)

  unfoldable pub after_previous : Transaction → World × Bool → World × Option Unresolved
  after_previous t (w, true) = (w, some cannot_undo)
  after_previous t (w, false) =
      if (o.check undone_check w.disk.live).refused
      then (w, some still_rejected)
      else (discard t w, none)

  unfoldable pub undo_with : Transaction → Previous → World → World × Option Unresolved
  undo_with t lost w = after_remove_ours (remove_ours_if_that_fixes_it w)
  undo_with t (was content) w =
      let c = o.check rehearsing content in
      if c.refused
      then (w, some (if c.cancelled then interrupted_check else not_this_change))
      else after_previous t (apply_previous content w)

  unfoldable pub undo_leftover : Transaction → World → World × Option Unresolved
  undo_leftover t w = undo_with t (previous_content t w.disk) w

  -- finishReload
  unfoldable pub take_back : World × Bool → World × Option Unresolved
  take_back (w, true) = (w, some reload_cannot_undo)
  take_back (w, false) = (w, some reload_undone)

  unfoldable pub take_back_with : Previous → World → World × Option Unresolved
  take_back_with lost w = (w, some reload_lost_copy)
  take_back_with (was content) w = take_back (apply_previous content w)

  unfoldable pub after_finish : Transaction → Reload → World → World × Option Unresolved
  after_finish t survived w = (w, none)
  after_finish t (not_a_master true) w = (w, some reload_interrupted)
  after_finish t (not_survived true) w = (w, some reload_interrupted)
  after_finish t (not_a_master false) w = take_back_with (previous_content t w.disk) w
  after_finish t (not_survived false) w = take_back_with (previous_content t w.disk) w

  unfoldable pub finish_reload : Transaction → Master → World → World × Option Unresolved
  finish_reload t m w =
      if sle m.pid 0
      then (w, (if str_eq t.phase phase_signalled then some master_not_running else none))
      else (if o.cancelled reloading_back
          then (w, some interrupted_check)
          else after_finish t (o.reload reloading_back) (delivered (o.reload reloading_back) w))

  -- repairIfOursIsBroken
  unfoldable pub put_back : World × Bool → Settled
  put_back (w, true) = record { world = w; acted = true; problem = some not_put_back }
  put_back (w, false) = record { world = w; acted = true; problem = some not_repaired }

  unfoldable pub after_repair : (body : String) → World × Bool → Settled
  after_repair body (w, true) = record { world = w; acted = false; problem = some cannot_remove }
  after_repair body (w, false) =
      if (o.check repaired_check w.disk.live).refused
      then put_back (put_live (o.write repair_putting_back) (some body) w)
      else record { world = w; acted = true; problem = none }

  -- A rehearsal that is refused, but not because time ran out, leaves the file alone, whether or not
  -- the binary runs.
  unfoldable pub repair_read : Option String → World → Settled
  repair_read none w = record { world = w; acted = false; problem = none }
  repair_read (some body) w =
      let c = o.check repair_rehearsing none in
      if not (is_ours p body)
      then record { world = w; acted = false; problem = none }
      else (if c.refused
          then record {
            world = w;
            acted = false;
            problem = if c.cancelled then some repair_interrupted else none;
          }
          else after_repair body (remove_live (o.remove_fails repair_removing) w.disk.live w))

  unfoldable pub repair_if_ours_is_broken : Master → World → Settled
  repair_if_ours_is_broken m w =
      let c = o.check repair_check w.disk.live in
      if (str_eq m.binary "" || str_eq m.config_path "") || not c.refused
      then record { world = w; acted = false; problem = none }
      else (if c.cancelled
          then record { world = w; acted = false; problem = some repair_interrupted }
          else repair_read (if o.read_fails repair_reading then none else w.disk.live) w)

  unfoldable pub after_reload_back : Transaction → World × Option Unresolved → Settled
  after_reload_back t (w, some e) = record { world = w; acted = true; problem = some e }
  after_reload_back t (w, none) = record { world = discard t w; acted = true; problem = none }

  unfoldable pub undone : World × Option Unresolved → Settled
  undone (w, e) = record { world = w; acted = true; problem = e }

  -- The change stands in the file, and php-fpm was asked about it.
  unfoldable pub resolve_landed :
      Transaction → Master → (refused cancelled : Bool) → World → Settled
  resolve_landed t m refused true w = record {
    world = w;
    acted = false;
    problem = some interrupted_check;
  }
  resolve_landed t m true false w = undone (undo_leftover t w)
  resolve_landed t m false false w = after_reload_back t (finish_reload t m w)

  -- The file is not as it was written.
  unfoldable pub resolve_edited : Transaction → (signalled refused : Bool) → World → Settled
  resolve_edited t false refused w = record { world = discard t w; acted = true; problem = none }
  resolve_edited t true true w = record {
    world = w;
    acted = false;
    problem = some edited_and_rejected;
  }
  resolve_edited t true false w = record { world = discard t w; acted = true; problem = none }

  unfoldable pub resolve : Transaction → Master → World → Settled
  resolve t m w =
      let c = o.check finishing w.disk.live in
      if landed p (o.read_fails landing) t w.disk.live
      then resolve_landed t m c.refused c.cancelled w
      else resolve_edited t (not (str_eq t.phase phase_written))
          (o.check kept_check w.disk.live).refused w

  unfoldable pub reconcile_found : (backup_dir : String) → Master → Found → World → Settled
  reconcile_found dir m (unusable e) w = record {
    world = w;
    acted = false;
    problem = some (bad_record e);
  }
  reconcile_found dir m nothing w =
      let w' = sweep_orphan_backups m.drop_in_dir w in
      repair_if_ours_is_broken (filled_from (remembered_master dir m.drop_in_dir w'.disk.note) m) w'
  reconcile_found dir m (found t) w = resolve t (completed_from t m) w

  unfoldable pub reconcile : (backup_dir : String) → Master → World → Settled
  reconcile dir m w = reconcile_found dir m (read_transaction p m.drop_in_dir w.disk.record_file) w
