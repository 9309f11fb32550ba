-- ===== src/Apply/Live/Crash.antt =====
-- apply/apply.go: Apply from the live write on, as a run that can die at any of its disks.
use fpm_tune.Common.{◌≡◌, String, [], ◌∷◌, Option, none, some}
use fpm_tune.Common.Float.{Float}
use fpm_tune.State.Types.{State}
use fpm_tune.Apply.Disk.{Disk, World, Outside, Paths}
use fpm_tune.Apply.Transaction.{drop_in_path}
use fpm_tune.Apply.Write.{Master, Backup, Failure}
use text.Mathlib.Text.{◌==◌ as str_eq}
use fpm_tune.Apply.Live.{Ended}
use fpm_tune.Apply.Live.Trail.{Believes, Accepted, IsMarked, Open, Safe}

module _ (p : Paths) (Takes : Option String → Type 0) (o : Outside) (m : Master)
    (old : Option String) (new : String) where
  -- How a run ends: with the new configuration, taken by php-fpm; with the old one and an error; or
  -- with an error that names the file which could not be taken back out, and its record.
  pub data Ends {fl : Float} (e : Ended fl) : Type 0 where
    applied : e.failure ≡ none → e.world.disk.live ≡ some new → Accepted p Takes m old new → Ends e
    undone : (f : Failure) → e.failure ≡ some f → e.world.disk.live ≡ old → Ends e
    stuck :
        (f : Failure) (b : Backup) (phase : String)
        → e.failure ≡ some f
        → e.report.rollback_failed ≡ drop_in_path p m.drop_in_dir ∷ []
        → Open p Takes m old new b phase e.world.disk
        → Ends e

  -- With the record and the new contents in place, and php-fpm's consent.
  pub record Ready (b : Backup) (phase : String) (w : World) : Type 0 where
    pub safe : Safe p Takes m old new IsMarked w
    pub open_record : Open p Takes m old new b phase w.disk
    pub live : w.disk.live ≡ some new
    pub accepted : Accepted p Takes m old new

module _ {fl : Float} (p : Paths) (Takes : Option String → Type 0) (o : Outside) (m : Master)
    (old : Option String) (new : String) (believes : Believes o Takes) where
  abbrev pub Sound : Ended fl → Type 0
  Sound e = Safe p Takes m old new IsMarked e.world × Ends p Takes o m old new e
