-- ===== src/Apply/Reconcile/Tests.antt =====
-- apply/apply.go and apply/reconcile.go: runs of a change and of its recovery on a concrete host, and
-- the theorems applied to them.
use Prim.Native.String.{len}
use text.Mathlib.Text.{◌==◌ as str_eq}
use fpm_tune.Common.{
  ◌≡◌, refl, String, Bool, true, false, [], ◌∷◌, Option, none, some, Bool-cases, inl, inr,
}
use fpm_tune.Common.Word.{slt}
use fpm_tune.Common.Rational.{rational}
use fpm_tune.Common.Map.{lookup, string_eq}
use fpm_tune.Apply.Disk.{
  World, remove_live, Disk, absent, holds, Outside, Reload, survived, not_survived, moved, signal,
  put_live, put_record, put_backup, clear_record, drop_backup,
}
use fpm_tune.Apply.Sample.{paths, is_bad, outside, master}
use fpm_tune.Apply.Transaction.{phase_signalled, is_bare, drop_in_path}
use fpm_tune.Apply.Write.{
  generated_marker, is_ours, Backup, Report, backup_name, transaction_of, write_drop_in, back_up,
  after_backup, write_recorded, after_record, after_write, mark_signalled, remember_note, restore,
  commit,
}
use fpm_tune.Apply.Live.{
  Ended, apply_live, after_drop_in, after_check, tell_master, after_mark, after_reload, delivered,
  rolled_back,
}
use fpm_tune.Apply.Live.Trail.{Open, replaced}
use fpm_tune.Apply.Reconcile.{
  Settled, reconcile, repair_if_ours_is_broken, repair_read, after_repair,
}
use fpm_tune.Apply.Reconcile.Repair.{Cautious, repair_if_ours_is_broken-Cautious}
use fpm_tune.Apply.Reconcile.Read.{IsPaths}
use fpm_tune.Apply.Reconcile.Undo.{Recovered}
use fpm_tune.Apply.Reconcile.Recover.{reconcile-Recovered}

hashed : (s : String) → (len (paths.hash s) ≡ 64) × (paths.is_hex (paths.hash s) ≡ true)
hashed s = elim (Bool-cases (str_eq s "new")) [
  | inl t ↦ rw t (refl, refl)
  | inr f ↦ rw f (refl, refl)
]

named :
    (dir : String)
    → (is_bare paths (backup_name paths dir (drop_in_path paths dir)) ≡ true)
      × (str_eq (backup_name paths dir (drop_in_path paths dir)) "" ≡ false)
unfolding is_bare backup_name drop_in_path
named dir = elim (Bool-cases (str_eq dir "new")) [
  | inl t ↦ rw t (refl, refl)
  | inr f ↦ rw f (refl, refl)
]

paths-IsPaths : IsPaths paths
unfolding drop_in_path
paths-IsPaths = record {
  clean_join = λ dir. refl;
  hash_len = λ s. (hashed s).0;
  hash_hex = λ s. (hashed s).1;
  name_bare = λ dir. (named dir).0;
  name_some = λ dir. (named dir).1;
}

abbrev Takes : Option String → Type 0
Takes c = is_bad c ≡ false

abbrev report : Report
report = record {
  outcomes = [];
  reloaded = false;
  wrote = false;
  inconclusive = false;
  rolled_back = false;
  rollback_failed = [];
}

abbrev before : Disk
before = record { live = some "old"; record_file = absent; backups = []; note = none }

abbrev ended : Reload → Ended rational
ended r =
    apply_live paths (outside r) (λ pools. "new") "/var/lib" master [] [] 5 report none
      (record { disk = before; trail = []; signals = [] })

-- A reload that kills the master ends with the old file and no record; one that does not, with the new.
dead_master : (ended (not_survived false)).world.disk.live ≡ some "old"
unfolding apply_live after_drop_in after_check tell_master after_mark after_reload delivered
    rolled_back write_drop_in back_up after_backup write_recorded after_record after_write
    mark_signalled remember_note restore commit put_live put_record put_backup clear_record
    drop_backup moved signal backup_name drop_in_path slt
dead_master = refl

live_master : (ended survived).world.disk.live ≡ some "new"
unfolding apply_live after_drop_in after_check tell_master after_mark after_reload delivered
    rolled_back write_drop_in back_up after_backup write_recorded after_record after_write
    mark_signalled remember_note restore commit put_live put_record put_backup clear_record
    drop_backup moved signal backup_name drop_in_path slt
live_master = refl

no_record : (ended survived).world.disk.record_file ≡ absent
unfolding apply_live after_drop_in after_check tell_master after_mark after_reload delivered
    rolled_back write_drop_in back_up after_backup write_recorded after_record after_write
    mark_signalled remember_note restore commit put_live put_record put_backup clear_record
    drop_backup moved signal backup_name drop_in_path slt
no_record = refl

-- The copy, the record and the file of a run that died in the settle window.
abbrev copy : Backup
copy = record {
  path = "/etc/zz-fpm-tune.conf";
  content = "old";
  existed = true;
  saved = "00000000-zz-fpm-tune.conf.bak";
}

abbrev died : Disk
died = record {
  live = some "new";
  record_file = holds (transaction_of paths master copy "new" phase_signalled);
  backups = ("00000000-zz-fpm-tune.conf.bak", "old") ∷ [];
  note = none;
}

died-Open : Open paths Takes master (some "old") "new" copy phase_signalled died
unfolding drop_in_path backup_name lookup
died-Open = record {
  recorded = refl;
  path = refl;
  undo = replaced refl refl refl refl;
  contents = inr refl;
  phases = inr (refl, refl);
}

abbrev recovered : Settled
recovered =
    reconcile paths (outside survived) "/var/lib" master
      (record { disk = died; trail = []; signals = [] })

reconcile-Recovered_example :
    Recovered paths paths-IsPaths Takes
      (outside survived)
      master
      (some "old")
      "new"
      copy
      phase_signalled
      (recovered.world, recovered.problem)
reconcile-Recovered_example =
    reconcile-Recovered paths paths-IsPaths Takes (outside survived) master master "/var/lib"
      (some "old") "new" copy phase_signalled died (λ s c e. e) refl refl refl died-Open

-- A file of this tool's that php-fpm will not take.
abbrev is_there : Option String → Bool
is_there none = false
is_there (some s) = true

abbrev broken_host : Outside
broken_host = record (outside survived) {
  check = λ s c. record { refused = is_there c; cancelled = false };
}

abbrev broken : World
broken = record {
  disk = record { live = some generated_marker; record_file = absent; backups = []; note = none };
  trail = [];
  signals = [];
}

taken_off : (repair_if_ours_is_broken paths broken_host master broken).world.disk.live ≡ none
unfolding repair_if_ours_is_broken repair_read after_repair remove_live moved is_ours
taken_off = refl

repair_if_ours_is_broken-Cautious_example :
    Cautious paths broken_host broken (repair_if_ours_is_broken paths broken_host master broken)
repair_if_ours_is_broken-Cautious_example =
    repair_if_ours_is_broken-Cautious paths broken_host master broken
