-- ===== src/Apply/Disk.antt =====
-- apply/apply.go and apply/transaction.go: the files that a change touches, and the writes to them.
-- An I/O call that can fail takes its outcome from its place in the code.
use fpm_tune.Common.{String, Bool, true, false, List, ◌∷◌, Option, none, some}
use fpm_tune.Common.Map.{insert, remove, string_eq}

-- Saved copies are named relative to the backup directory; "" is no copy.
pub record Transaction : Type 0 where
  pub drop_in_dir : String
  pub binary : String
  pub config_path : String
  pub path : String
  pub existed : Bool
  pub saved : String
  pub wrote : String
  pub phase : String

-- The file at transactionPath, and what ReadFile and Unmarshal make of it.
pub data RecordFile : Type 0 where
  absent unreadable malformed : RecordFile
  holds : Transaction → RecordFile

-- The sidecar that rememberMaster writes.
pub record MasterNote : Type 0 where
  pub binary : String
  pub config_path : String
  pub drop_in_dir : String
  pub pid_file : String

-- `live` is the file at DropInPath. `backups` are the saved copies by name.
pub record Disk : Type 0 where
  pub live : Option String
  pub record_file : RecordFile
  pub backups : List (String × String)
  pub note : Option MasterNote

-- The disk, the disks that it went through, and those at which the master was signalled.
pub record World : Type 0 where
  pub disk : Disk
  pub trail : List Disk
  pub signals : List Disk

-- A write is done, is not done, or is done and reported as failed because the directory could not be
-- flushed; only writeAtomicDurable reports that.
pub data Fault : Type 0 where
  works fails unsynced : Fault

-- The places of the calls.
pub data Site : Type 0 where
  stale_reading set_reading staging trial : Site
  backup_dir reading backing_up recording writing taking_back validating timed_out rejecting
        noting :
      Site
  marking unmarking settling reverting record_clearing copy_clearing record_closing copy_closing :
      Site
  keeping landing kept_check finishing rehearsing undoing undone_check : Site
  reloading_back removal_reading removal_rehearsing removing removed_check putting_back : Site
  repair_check repair_reading repair_rehearsing repair_removing repaired_check repair_putting_back :
      Site

-- phpfpm.Validate: whether it gives an error, and whether ctx.Err() does after it.
pub record Check : Type 0 where
  pub refused : Bool
  pub cancelled : Bool

-- phpfpm.ReloadAndWait, and ctx.Err() after it.
pub data Reload : Type 0 where
  survived : Reload
  not_a_master : (cancelled : Bool) → Reload
  not_survived : (cancelled : Bool) → Reload

-- The answers of the operating system and of php-fpm. A check depends on what the live file holds.
pub record Outside : Type 0 where
  pub write : Site → Fault
  pub remove_fails : Site → Bool
  pub sweep_fails : (name : String) → Bool
  pub read_fails : Site → Bool
  pub check : Site → Option String → Check
  pub cancelled : Site → Bool
  pub reload : Site → Reload

-- path/filepath, SHA-256 in hexadecimal, hex.DecodeString and strings.TrimSpace.
pub record Paths : Type 0 where
  pub clean : String → String
  pub base : String → String
  pub join : String → String → String
  pub hash : String → String
  pub is_hex : String → Bool
  pub trim : String → String

unfoldable pub moved : Disk → World → World
moved d w = record w { disk = d; trail = w.disk ∷ w.trail }

unfoldable pub signal : World → World
signal w = record w { signals = w.disk ∷ w.signals }

-- writeAtomic on the live file: whether it reports an error.
unfoldable pub put_live : Fault → Option String → World → World × Bool
put_live works content w = (moved (record w.disk { live = content }) w, false)
put_live unsynced content w = (moved (record w.disk { live = content }) w, false)
put_live fails content w = (w, true)

-- os.Remove on the live file, where its absence is no error.
unfoldable pub remove_live : (fault : Bool) → Option String → World → World × Bool
remove_live fault none w = (w, false)
remove_live true (some c) w = (w, true)
remove_live false (some c) w = (moved (record w.disk { live = none }) w, false)

unfoldable pub put_backup : Fault → (name content : String) → World → World × Bool
put_backup works name content w =
    (moved (record w.disk { backups = insert name content w.disk.backups }) w, false)
put_backup unsynced name content w =
    (moved (record w.disk { backups = insert name content w.disk.backups }) w, false)
put_backup fails name content w = (w, true)

-- writeAtomicDurable on the record.
unfoldable pub put_record : Fault → Transaction → World → World × Bool
put_record works txn w = (moved (record w.disk { record_file = holds txn }) w, false)
put_record unsynced txn w = (moved (record w.disk { record_file = holds txn }) w, true)
put_record fails txn w = (w, true)

-- clearTransaction; its error is thrown away.
unfoldable pub clear_record : (fault : Bool) → World → World
clear_record true w = w
clear_record false w = moved (record w.disk { record_file = absent }) w

unfoldable pub drop_backup : (fault : Bool) → (name : String) → World → World
drop_backup true name w = w
drop_backup false name w = moved (record w.disk { backups = remove name w.disk.backups }) w
