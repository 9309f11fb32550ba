-- ===== src/Apply/Live/Trail.antt =====
-- apply/apply.go: the disks that a change goes through, each of which a run can die at.
use text.Mathlib.Text.{◌==◌ as str_eq}
use fpm_tune.Common.{
  ◌≡◌, refl, sym, ◌∙◌, ◌⊎◌, inl, inr, String, Bool, true, false, List, Option, none, some, All,
  Bool-cases,
}
use fpm_tune.Common.Map.{lookup, string_eq}
use fpm_tune.Apply.Disk.{
  Disk, absent, holds, World, Outside, Paths, Fault, works, fails, unsynced, Site, record_clearing,
  copy_clearing, moved, signal, put_live, remove_live, clear_record, drop_backup,
}
use fpm_tune.Apply.Transaction.{phase_written, phase_signalled, drop_in_path}
use fpm_tune.Apply.Write.{Master, Backup, restore, commit, transaction_of, backup_name}

-- What a check that gives no error shows: that php-fpm takes the contents.
abbrev pub Believes : Outside → (Option String → Type 0) → Type 0
Believes o Takes = (s : Site) (c : Option String) → (o.check s c).refused ≡ false → Takes c

module _ (p : Paths) (Takes : Option String → Type 0) (m : Master) (old : Option String)
    (new : String) where
  -- php-fpm takes the new configuration.
  abbrev pub Accepted : Type 0
  Accepted = Takes (some new)

  -- The rollback restores what was there, from memory and from the saved copy.
  pub data Undo (b : Backup) (backups : List (String × String)) : Type 0 where
    created : old ≡ none → b.existed ≡ false → b.saved ≡ "" → Undo b backups
    replaced :
        old ≡ some b.content
        → b.existed ≡ true
        → b.saved ≡ backup_name p m.drop_in_dir (drop_in_path p m.drop_in_dir)
        → lookup b.saved backups ≡ some b.content
        → Undo b backups

  -- A record of this change stands, and the file holds the old or the new contents.
  pub record Open (b : Backup) (phase : String) (d : Disk) : Type 0 where
    pub recorded : d.record_file ≡ holds (transaction_of p m b new phase)
    pub path : b.path ≡ drop_in_path p m.drop_in_dir
    pub undo : Undo b d.backups
    pub contents : (d.live ≡ old) ⊎ (d.live ≡ some new)
    pub phases : (phase ≡ phase_written) ⊎ ((phase ≡ phase_signalled) × Accepted)

  -- The old contents without a record; the new ones, taken by php-fpm, without a record; a record with
  -- the way back; or a record that could not be removed, whose saved copy may be gone, over the old
  -- contents or over new ones that php-fpm takes.
  pub data InFlight (d : Disk) : Type 0 where
    not_begun : d.record_file ≡ absent → d.live ≡ old → InFlight d
    finished : d.record_file ≡ absent → d.live ≡ some new → Accepted → InFlight d
    begun : (b : Backup) (phase : String) → Open b phase d → InFlight d
    leftover :
        (b : Backup) (phase : String)
        → d.record_file ≡ holds (transaction_of p m b new phase)
        → b.path ≡ drop_in_path p m.drop_in_dir
        → (d.live ≡ old) ⊎ ((d.live ≡ some new) × Accepted)
        → InFlight d

  pub reopen :
      (b : Backup) (phase : String) (d : Disk) (contents : Option String)
      → Open b phase d
      → (contents ≡ old) ⊎ (contents ≡ some new)
      → Open b phase (record d { live = contents })
  reopen b phase d contents h c = record {
    recorded = h.recorded;
    path = h.path;
    undo = h.undo;
    contents = c;
    phases = h.phases;
  }

  -- The old contents may come back at any time.
  pub old-InFlight :
      (d : Disk) (contents : Option String)
      → InFlight d
      → contents ≡ old
      → InFlight (record d { live = contents })
  old-InFlight d contents (not_begun r l) e = not_begun r e
  old-InFlight d contents (finished r l a) e = not_begun r e
  old-InFlight d contents (begun b phase h) e = begun b phase (reopen b phase d contents h (inl e))
  old-InFlight d contents (leftover b phase r path c) e = leftover b phase r path (inl e)

  -- What may stand where a transaction is closed.
  abbrev pub Closable : Disk → Type 0
  Closable d = (d.live ≡ old) ⊎ ((d.live ≡ some new) × Accepted)

  closed-InFlight : (d : Disk) → d.record_file ≡ absent → Closable d → InFlight d
  closed-InFlight d r (inl l) = not_begun r l
  closed-InFlight d r (inr (l, a)) = finished r l a

  -- Where the transaction is settled, the saved copies may go, with the record or without.
  dropped-InFlight :
      (d : Disk) (backups : List (String × String))
      → InFlight d
      → Closable d
      → InFlight (record d { backups = backups })
  dropped-InFlight d backups (not_begun r l) c = not_begun r l
  dropped-InFlight d backups (finished r l a) c = finished r l a
  dropped-InFlight d backups (begun b phase h) c = leftover b phase h.recorded h.path c
  dropped-InFlight d backups (leftover b phase r path s) c = leftover b phase r path c

-- The record says that the master is about to be signalled.
abbrev pub IsMarked : String → Type 0
IsMarked phase = phase ≡ phase_signalled

module _ (p : Paths) (Takes : Option String → Type 0) (m : Master) (old : Option String)
    (new : String) (Asked : String → Type 0) where
  -- Where the master is signalled, it finds the new configuration, which php-fpm takes, with a record
  -- in a phase that is asked for, or the old one.
  pub data Told (d : Disk) : Type 0 where
    told_new :
        (b : Backup) (phase : String)
        → Open p Takes m old new b phase d
        → Asked phase
        → d.live ≡ some new
        → Accepted p Takes m old new
        → Told d
    told_old : d.live ≡ old → Told d

  pub record Safe (w : World) : Type 0 where
    pub now : InFlight p Takes m old new w.disk
    pub past : All (InFlight p Takes m old new) w.trail
    pub told : All Told w.signals

  pub moved-Safe : (d : Disk) (w : World) → Safe w → InFlight p Takes m old new d → Safe (moved d w)
  unfolding moved
  moved-Safe d w s f = record { now = f; past = (s.now, s.past); told = s.told }

  pub signal-Safe : (w : World) → Safe w → Told w.disk → Safe (signal w)
  unfolding signal
  signal-Safe w s t = record { now = s.now; past = s.past; told = (t, s.told) }

  -- What a rollback leaves: the old contents, or what was there where it reports an error.
  abbrev pub Restored : World → World × Bool → Type 0
  Restored w (w', true) = w' ≡ w
  Restored w (w', false) = Safe w' × (w'.disk.live ≡ old)

  pub put_live-Restored :
      (f : Fault) (contents : Option String) (w : World)
      → Safe w
      → contents ≡ old
      → Restored w (put_live f contents w)
  unfolding put_live moved
  put_live-Restored works contents w s e =
      (moved-Safe _ w s (old-InFlight p Takes m old new w.disk contents s.now e), e)
  put_live-Restored unsynced contents w s e =
      (moved-Safe _ w s (old-InFlight p Takes m old new w.disk contents s.now e), e)
  put_live-Restored fails contents w s e = refl

  pub remove_live-Restored :
      (fault : Bool) (live : Option String) (w : World)
      → live ≡ w.disk.live
      → Safe w
      → none ≡ old
      → Restored w (remove_live fault live w)
  unfolding remove_live moved
  remove_live-Restored fault none w l s e = (s, sym l ∙ e)
  remove_live-Restored true (some c) w l s e = refl
  remove_live-Restored false (some c) w l s e =
      (moved-Safe _ w s (old-InFlight p Takes m old new w.disk none s.now e), e)

  pub restore-Restored :
      (o : Outside) (site : Site) (b : Backup) (backups : List (String × String)) (w : World)
      → Undo p Takes m old new b backups
      → Safe w
      → Restored w (restore p o site b w)
  unfolding restore
  restore-Restored o site b backups w (created e x n) s =
      rw x (remove_live-Restored (o.remove_fails site) w.disk.live w refl s (sym e))
  restore-Restored o site b backups w (replaced e x n l) s =
      rw x (put_live-Restored (o.write site) (some b.content) w s (sym e))

  pub clear_record-Safe :
      (fault : Bool) (w : World)
      → Safe w
      → Closable p Takes m old new w.disk
      → Safe (clear_record fault w) × ((clear_record fault w).disk.live ≡ w.disk.live)
  unfolding clear_record moved
  clear_record-Safe true w s c = (s, refl)
  clear_record-Safe false w s c =
      (moved-Safe _ w s (closed-InFlight p Takes m old new _ refl c), refl)

  -- The saved copy goes whether or not the record could be removed.
  pub drop_backup-Safe :
      (fault gone : Bool) (name : String) (w : World)
      → Safe w
      → Closable p Takes m old new w.disk
      → let w' = drop_backup gone name (clear_record fault w) in
        Safe w' × (w'.disk.live ≡ w.disk.live)
  unfolding drop_backup clear_record moved
  drop_backup-Safe true true name w s c = (s, refl)
  drop_backup-Safe true false name w s c =
      (moved-Safe _ w s (dropped-InFlight p Takes m old new w.disk _ s.now c), refl)
  drop_backup-Safe false true name w s c = clear_record-Safe false w s c
  drop_backup-Safe false false name w s c = (
    moved-Safe _ _ (clear_record-Safe false w s c).0 (closed-InFlight p Takes m old new _ refl c),
    refl,
  )

  -- A commit leaves the file alone, whatever of the record and the copy it cannot remove.
  pub commit-Safe :
      (o : Outside) (b : Backup) (w : World)
      → Safe w
      → Closable p Takes m old new w.disk
      → Safe (commit p o b w) × ((commit p o b w).disk.live ≡ w.disk.live)
  unfolding commit
  commit-Safe o b w s c = elim (Bool-cases (str_eq b.saved "")) [
    | inl t ↦ rw t (clear_record-Safe (o.remove_fails record_clearing) w s c)
    | inr f ↦ rw f (
        drop_backup-Safe (o.remove_fails record_clearing) (o.remove_fails copy_clearing) b.saved w s
          c)
  ]
