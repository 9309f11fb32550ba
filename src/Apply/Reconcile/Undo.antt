-- ===== src/Apply/Reconcile/Undo.antt =====
-- apply/reconcile.go: undoLeftover and discard, on a disk that a dead run left.
use text.Mathlib.Text.{◌==◌ as str_eq}
use fpm_tune.Common.{
  ◌≡◌, refl, sym, ap, subst, ◌∙◌, inl, inr, String, Bool, true, false, Option, none, some,
  Bool-cases,
}
use fpm_tune.Common.Map.{string_eq}
use fpm_tune.Apply.Disk.{
  Disk, absent, Paths, Outside, World, Transaction, Fault, works, fails, unsynced, moved, put_live,
  remove_live, clear_record, drop_backup, record_closing, copy_closing, undoing, undone_check,
  rehearsing,
}
use fpm_tune.Apply.Write.{Master, Backup, transaction_of}
use fpm_tune.Apply.Live.Trail.{
  Undo, created, replaced, Open, begun, reopen, Closable, Safe, moved-Safe, clear_record-Safe,
  drop_backup-Safe,
}
use fpm_tune.Apply.Reconcile.{
  Unresolved, was, discard, read_copy, previous_content, apply_previous, after_previous, undo_with,
  undo_leftover,
}
use fpm_tune.Apply.Reconcile.Read.{IsPaths}

-- Recovery may signal the master in either phase.
abbrev pub Anyhow : String → Type 0
Anyhow phase = Unit

module _ (p : Paths) (laws : IsPaths p) (Takes : Option String → Type 0) (o : Outside) (m : Master)
    (old : Option String) (new : String) (b : Backup) (phase : String) where
  -- The record and the disks behind it, with the record still there.
  pub record Standing (w : World) : Type 0 where
    pub safe : Safe p Takes m old new Anyhow w
    pub open_record : Open p Takes m old new b phase w.disk

  abbrev pub txn : Transaction
  txn = transaction_of p m b new phase

  -- What recovery comes to: the change is closed with the old contents, or with the new ones that
  -- php-fpm takes; or its record still stands beside an error.
  pub data Recovered : World × Option Unresolved → Type 0 where
    closed :
        (w : World)
        → Safe p Takes m old new Anyhow w
        → Closable p Takes m old new w.disk
        → (o.remove_fails record_closing ≡ false → w.disk.record_file ≡ absent)
        → Recovered (w, none)
    left : (w : World) (e : Unresolved) → Standing w → Recovered (w, some e)

  -- What putting the previous contents back comes to.
  abbrev pub TakenBack : World → World × Bool → Type 0
  TakenBack w (w', true) = w' ≡ w
  TakenBack w (w', false) = Standing w' × (w'.disk.live ≡ old)

  back_in_place :
      (contents : Option String) (w : World)
      → Standing w
      → contents ≡ old
      → TakenBack w (moved (record w.disk { live = contents }) w, false)
  unfolding moved
  back_in_place contents w h e =
      let h' = reopen p Takes m old new b phase w.disk contents h.open_record (inl e) in
      (
        record {
          safe = moved-Safe p Takes m old new Anyhow _ w h.safe (begun b phase h');
          open_record = h';
        },
        e,
      )

  put_live-TakenBack :
      (f : Fault) (contents : Option String) (w : World)
      → Standing w
      → contents ≡ old
      → TakenBack w (put_live f contents w)
  unfolding put_live
  put_live-TakenBack works contents w h e = back_in_place contents w h e
  put_live-TakenBack unsynced contents w h e = back_in_place contents w h e
  put_live-TakenBack fails contents w h e = refl

  remove_live-TakenBack :
      (fault : Bool) (live : Option String) (w : World)
      → live ≡ w.disk.live
      → Standing w
      → none ≡ old
      → TakenBack w (remove_live fault live w)
  unfolding remove_live
  remove_live-TakenBack fault none w l h e = (h, sym l ∙ e)
  remove_live-TakenBack true (some c) w l h e = refl
  remove_live-TakenBack false (some c) w l h e = back_in_place none w h e

  pub apply_previous-TakenBack :
      (contents : Option String) (w : World)
      → Standing w
      → contents ≡ old
      → TakenBack w (apply_previous p o contents w)
  unfolding apply_previous
  apply_previous-TakenBack none w h e =
      remove_live-TakenBack (o.remove_fails undoing) w.disk.live w refl h e
  apply_previous-TakenBack (some c) w h e = put_live-TakenBack (o.write undoing) (some c) w h e

  pub previous_content-was :
      (d : Disk)
      → o.read_fails undoing ≡ false
      → Undo p Takes m old new b d.backups
      → previous_content p o txn d ≡ was old
  unfolding previous_content read_copy transaction_of
  previous_content-was d r (created e x n) = rw (x, e)
  previous_content-was d r (replaced e x n l) =
      let s = laws.name_some m.drop_in_dir in
      let some_name : str_eq b.saved "" ≡ false = ap (λ k. str_eq k "") n ∙ s in
      rw (x, some_name, r, l, e)

  cleared :
      (fault : Bool) (w : World) → fault ≡ false → (clear_record fault w).disk.record_file ≡ absent
  unfolding clear_record moved
  cleared true w e = cc
  cleared false w e = refl

  dropped :
      (gone : Bool) (name : String) (w : World)
      → (drop_backup gone name w).disk.record_file ≡ w.disk.record_file
  unfolding drop_backup moved
  dropped true name w = refl
  dropped false name w = refl

  still :
      (w w' : World)
      → w'.disk.live ≡ w.disk.live
      → Closable p Takes m old new w.disk
      → Closable p Takes m old new w'.disk
  still w w' l (inl e) = inl (l ∙ e)
  still w w' l (inr (e, a)) = inr (l ∙ e, a)

  pub discard-Recovered :
      (w : World)
      → Standing w
      → Closable p Takes m old new w.disk
      → Recovered (discard p o txn w, none)
  unfolding discard transaction_of
  discard-Recovered w h c = elim (Bool-cases (str_eq b.saved "")) [
    | inl t ↦
        let (s, l) =
          clear_record-Safe p Takes m old new Anyhow (o.remove_fails record_closing) w h.safe c in
        rw t (
          closed (clear_record (o.remove_fails record_closing) w) s
            (still w (clear_record (o.remove_fails record_closing) w) l c)
            (cleared (o.remove_fails record_closing) w))
    | inr f ↦
        let (s, l) =
          drop_backup-Safe p Takes m old new Anyhow (o.remove_fails record_closing)
            (o.remove_fails copy_closing) b.saved w h.safe c in
        rw f (
          closed
            (drop_backup (o.remove_fails copy_closing) b.saved
              (clear_record (o.remove_fails record_closing) w))
            s
            (still w
              (drop_backup (o.remove_fails copy_closing) b.saved
                (clear_record (o.remove_fails record_closing) w))
              l c)
            (λ e.
              dropped (o.remove_fails copy_closing) b.saved _
              ∙ cleared (o.remove_fails record_closing) w e))
  ]

  after_previous-Recovered :
      (w : World) (r : World × Bool)
      → Standing w
      → TakenBack w r
      → Recovered (after_previous p o txn r)
  unfolding after_previous
  after_previous-Recovered w (w', true) h e = left w' _ (subst Standing (sym e) h)
  after_previous-Recovered w (w', false) h (h', l) =
      elim (Bool-cases (o.check undone_check w'.disk.live).refused) [
        | inl t ↦ rw t (left w' _ h')
        | inr f ↦ rw f (discard-Recovered w' h' (inl l))
      ]

  pub undo_leftover-Recovered :
      (w : World) → o.read_fails undoing ≡ false → Standing w → Recovered (undo_leftover p o txn w)
  unfolding undo_leftover undo_with
  undo_leftover-Recovered w r h =
      rw (previous_content-was w.disk r h.open_record.undo)
        (elim (Bool-cases (o.check rehearsing old).refused) [
          | inl t ↦ rw t (left w _ h)
          | inr f ↦ rw f (
              after_previous-Recovered w (apply_previous p o old w) h
                (apply_previous-TakenBack old w h refl))
        ])
