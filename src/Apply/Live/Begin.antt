-- ===== src/Apply/Live/Begin.antt =====
-- apply/apply.go: writeDropIn, which records the change and then makes it.
use text.Mathlib.TextPositions.{eq_refl}
use fpm_tune.Common.{
  ◌≡◌, refl, sym, subst, ◌∙◌, inl, inr, String, Bool, true, false, List, Option, none, some, Result,
  ok, err, Bool-cases,
}
use fpm_tune.Common.Map.{lookup, insert, string_eq, lookup-insert}
use fpm_tune.Apply.Sections.{Override}
use fpm_tune.Apply.Disk.{
  absent, holds, World, Outside, Paths, Fault, works, fails, unsynced, writing, recording,
  backing_up, taking_back, record_clearing, reading, backup_dir, moved, put_live, put_backup,
  put_record,
}
use fpm_tune.Apply.Transaction.{phase_written, drop_in_path}
use fpm_tune.Apply.Write.{
  Master, Backup, Failure, transaction_of, backup_name, restore, give_up_recording, give_up_writing,
  after_write, after_record, write_recorded, after_backup, back_up, write_drop_in, is_failed,
  any_unsafe,
}
use fpm_tune.Apply.Live.Trail.{
  IsMarked, Undo, created, replaced, Open, not_begun, begun, Safe, moved-Safe, reopen, Restored,
  restore-Restored, clear_record-Safe,
}

module _ (p : Paths) (Takes : Option String → Type 0) (o : Outside) (m : Master)
    (old : Option String) (new : String) where
  -- The change stands on disk with its record, or the old contents do.
  abbrev pub Began : World × Result Failure Backup → Type 0
  Began (w, ok b) =
      Safe p Takes m old new IsMarked w
      × Open p Takes m old new b phase_written w.disk
      × (w.disk.live ≡ some new)
  Began (w, err e) = Safe p Takes m old new IsMarked w × (w.disk.live ≡ old)

  give_up_recording-Began :
      (w : World) (r : World × Bool)
      → Safe p Takes m old new IsMarked w
      → w.disk.live ≡ old
      → Restored p Takes m old new IsMarked w r
      → Began (give_up_recording p o r)
  unfolding give_up_recording
  give_up_recording-Began w (w', true) s l e = (
    subst (Safe p Takes m old new IsMarked) (sym e) s,
    subst (λ (v : World). v.disk.live ≡ old) (sym e) l,
  )
  give_up_recording-Began w (w', false) s l r = r

  give_up_writing-Began :
      (w : World) (r : World × Bool)
      → Safe p Takes m old new IsMarked w
      → w.disk.live ≡ old
      → Restored p Takes m old new IsMarked w r
      → Began (give_up_writing p o r)
  unfolding give_up_writing
  give_up_writing-Began w (w', true) s l e = (
    subst (Safe p Takes m old new IsMarked) (sym e) s,
    subst (λ (v : World). v.disk.live ≡ old) (sym e) l,
  )
  give_up_writing-Began w (w', false) s l r =
      let (s', e) =
        clear_record-Safe p Takes m old new IsMarked (o.remove_fails record_clearing) w' r.0
          (inl r.1) in
      (s', e ∙ r.1)

  written-Began :
      (b : Backup) (f : Fault) (w : World)
      → Safe p Takes m old new IsMarked w
      → Open p Takes m old new b phase_written w.disk
      → w.disk.live ≡ old
      → Began (after_write p o b (put_live f (some new) w))
  unfolding after_write put_live moved
  written-Began b works w s h l =
      let h' = reopen p Takes m old new b phase_written w.disk (some new) h (inr refl) in
      (moved-Safe p Takes m old new IsMarked _ w s (begun b phase_written h'), h', refl)
  written-Began b unsynced w s h l =
      let h' = reopen p Takes m old new b phase_written w.disk (some new) h (inr refl) in
      (moved-Safe p Takes m old new IsMarked _ w s (begun b phase_written h'), h', refl)
  written-Began b fails w s h l =
      give_up_writing-Began w (restore p o taking_back b w) s l
        (restore-Restored p Takes m old new IsMarked o taking_back b w.disk.backups w h.undo s)

  opened :
      (b : Backup) (w : World)
      → b.path ≡ drop_in_path p m.drop_in_dir
      → Undo p Takes m old new b w.disk.backups
      → w.disk.live ≡ old
      → Open p Takes m old new b phase_written
          (record w.disk { record_file = holds (transaction_of p m b new phase_written) })
  opened b w path u l = record {
    recorded = refl;
    path = path;
    undo = u;
    contents = inl l;
    phases = inl refl;
  }

  recorded-Began :
      (b : Backup) (f : Fault) (w : World)
      → Safe p Takes m old new IsMarked w
      → b.path ≡ drop_in_path p m.drop_in_dir
      → Undo p Takes m old new b w.disk.backups
      → w.disk.live ≡ old
      → Began (after_record p o b new (put_record f (transaction_of p m b new phase_written) w))
  unfolding after_record put_record moved
  recorded-Began b works w s path u l =
      let h = opened b w path u l in
      written-Began b (o.write writing) _
        (moved-Safe p Takes m old new IsMarked _ w s (begun b phase_written h)) h l
  recorded-Began b unsynced w s path u l =
      let h = opened b w path u l in
      let s' = moved-Safe p Takes m old new IsMarked _ w s (begun b phase_written h) in
      give_up_recording-Began _ (restore p o taking_back b _) s' l
        (restore-Restored p Takes m old new IsMarked o taking_back b w.disk.backups _ u s')
  recorded-Began b fails w s path u l =
      give_up_recording-Began w (restore p o taking_back b w) s l
        (restore-Restored p Takes m old new IsMarked o taking_back b w.disk.backups w u s)

  -- The saved copy is found again.
  kept_copy :
      (b : Backup) (backups : List (String × String))
      → lookup b.saved (insert b.saved b.content backups) ≡ some b.content
  kept_copy b backups = lookup-insert b.saved b.saved b.content backups ∙ rw (eq_refl b.saved)

  copied-Began :
      (b : Backup) (w : World)
      → Safe p Takes m old new IsMarked w
      → b.path ≡ drop_in_path p m.drop_in_dir
      → b.existed ≡ true
      → b.saved ≡ backup_name p m.drop_in_dir (drop_in_path p m.drop_in_dir)
      → old ≡ some b.content
      → w.disk.record_file ≡ absent
      → w.disk.live ≡ old
      → Began (
          write_recorded p o m b new
            (moved (record w.disk { backups = insert b.saved b.content w.disk.backups }) w))
  unfolding write_recorded moved
  copied-Began b w s path x n e r l =
      recorded-Began b (o.write recording) _
        (moved-Safe p Takes m old new IsMarked _ w s (not_begun r l)) path
        (replaced e x n (kept_copy b w.disk.backups)) l

  backed_up-Began :
      (b : Backup) (f : Fault) (w : World)
      → Safe p Takes m old new IsMarked w
      → b.path ≡ drop_in_path p m.drop_in_dir
      → b.existed ≡ true
      → b.saved ≡ backup_name p m.drop_in_dir (drop_in_path p m.drop_in_dir)
      → old ≡ some b.content
      → w.disk.record_file ≡ absent
      → w.disk.live ≡ old
      → Began (after_backup p o m b new (put_backup f b.saved b.content w))
  unfolding after_backup put_backup
  backed_up-Began b works w s path x n e r l = copied-Began b w s path x n e r l
  backed_up-Began b unsynced w s path x n e r l = copied-Began b w s path x n e r l
  backed_up-Began b fails w s path x n e r l = (s, l)

  back_up-Began :
      (unread : Bool) (live : Option String) (w : World)
      → Safe p Takes m old new IsMarked w
      → live ≡ old
      → w.disk.record_file ≡ absent
      → w.disk.live ≡ old
      → Began (back_up p o m new unread live w)
  unfolding back_up write_recorded
  back_up-Began unread none w s e r l =
      recorded-Began _ (o.write recording) w s refl (created (sym e) refl refl) l
  back_up-Began true (some content) w s e r l = (s, l)
  back_up-Began false (some content) w s e r l =
      backed_up-Began _ (o.write backing_up) w s refl refl refl (sym e) r l

  pub write_drop_in-Began :
      (render : List Override → String) (pools : List Override) (w : World)
      → render pools ≡ new
      → Safe p Takes m old new IsMarked w
      → w.disk.record_file ≡ absent
      → w.disk.live ≡ old
      → Began (write_drop_in p o render m pools w)
  unfolding write_drop_in
  write_drop_in-Began render pools w e s r l = elim (Bool-cases (is_failed (o.write backup_dir))) [
    | inl t ↦ rw t (s, l)
    | inr f ↦ elim (Bool-cases (any_unsafe pools)) [
      | inl t ↦ rw (f, t) (s, l)
      | inr g ↦ rw (f, g, e) (back_up-Began (o.read_fails reading) w.disk.live w s l r l)
    ]
  ]
