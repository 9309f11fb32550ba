-- ===== src/Apply/Reconcile/Recover.antt =====
-- apply/reconcile.go: the recovery of a change that a dead run left.
use text.Mathlib.Text.{◌==◌ as str_eq}
use text.Mathlib.TextPositions.{eq_refl}
use fpm_tune.Common.{
  ◌≡◌, refl, sym, ap, subst, ◌∙◌, inl, inr, String, Bool, true, false, not, [], Option, Bool-cases,
}
use fpm_tune.Common.Map.{string_eq}
use fpm_tune.Common.Word.{sle}
use fpm_tune.Apply.Disk.{
  Disk, Paths, Outside, World, Transaction, Reload, survived, not_a_master, not_survived, signal,
  undoing, finishing, landing, kept_check, reloading_back,
}
use fpm_tune.Apply.Transaction.{
  found, hash_of, landed, phase_written, phase_signalled, read_transaction,
}
use fpm_tune.Apply.Write.{Master, Backup, transaction_of}
use fpm_tune.Apply.Live.{delivered}
use fpm_tune.Apply.Live.Trail.{
  Believes, Open, begun, Closable, Told, told_new, told_old, signal-Safe,
}
use fpm_tune.Apply.Reconcile.{
  Settled, completed_from, previous_content, apply_previous, take_back, take_back_with,
  after_finish, finish_reload, after_reload_back, undone, resolve_landed, resolve_edited, resolve,
  reconcile_found, reconcile,
}
use fpm_tune.Apply.Reconcile.Read.{IsPaths, read_transaction-found}
use fpm_tune.Apply.Reconcile.Undo.{
  Anyhow, Standing, Recovered, left, TakenBack, apply_previous-TakenBack, previous_content-was,
  discard-Recovered, undo_leftover-Recovered,
}

module _ (p : Paths) (laws : IsPaths p) (Takes : Option String → Type 0) (o : Outside) (m : Master)
    (old : Option String) (new : String) (b : Backup) (phase : String) where
  abbrev txn : Transaction
  txn = transaction_of p m b new phase

  -- The recovery that a result stands for.
  abbrev pub Sure : Settled → Type 0
  Sure s = Recovered p laws Takes o m old new b phase (s.world, s.problem)

  take_back-Sure :
      (w : World) (r : World × Bool)
      → Standing p laws Takes o m old new b phase w
      → TakenBack p laws Takes o m old new b phase w r
      → Sure (after_reload_back p o txn (take_back p o r))
  unfolding take_back after_reload_back
  take_back-Sure w (w', true) h e =
      left w' _ (subst (Standing p laws Takes o m old new b phase) (sym e) h)
  take_back-Sure w (w', false) h (h', l) = left w' _ h'

  take_back_with-Sure :
      (w : World)
      → o.read_fails undoing ≡ false
      → Standing p laws Takes o m old new b phase w
      → Sure (after_reload_back p o txn (take_back_with p o (previous_content p o txn w.disk) w))
  unfolding take_back_with
  take_back_with-Sure w r h =
      rw (previous_content-was p laws Takes o m old new b phase w.disk r h.open_record.undo) (
        take_back-Sure w (apply_previous p o old w) h
          (apply_previous-TakenBack p laws Takes o m old new b phase old w h refl))

  -- A change that php-fpm takes may be told to the master, and closed.
  taken-Told :
      (w : World)
      → Standing p laws Takes o m old new b phase w
      → Takes w.disk.live
      → Told p Takes m old new Anyhow w.disk
  taken-Told w h t = elim h.open_record.contents [
    | inl e ↦ told_old e
    | inr e ↦ told_new b phase h.open_record tt e (subst Takes e t)
  ]

  taken-Closable :
      (w : World)
      → Standing p laws Takes o m old new b phase w
      → Takes w.disk.live
      → Closable p Takes m old new w.disk
  taken-Closable w h t = elim h.open_record.contents [
    | inl e ↦ inl e
    | inr e ↦ inr (e, subst Takes e t)
  ]

  signalled :
      (w : World)
      → Standing p laws Takes o m old new b phase w
      → Takes w.disk.live
      → Standing p laws Takes o m old new b phase (signal w)
  unfolding signal
  signalled w h t = record {
    safe = signal-Safe p Takes m old new Anyhow w h.safe (taken-Told w h t);
    open_record = h.open_record;
  }

  after_finish-Sure :
      (r : Reload) (w : World)
      → o.read_fails undoing ≡ false
      → Standing p laws Takes o m old new b phase w
      → Takes w.disk.live
      → Sure (after_reload_back p o txn (after_finish p o txn r (delivered r w)))
  unfolding after_finish after_reload_back delivered signal
  after_finish-Sure survived w c h t =
      discard-Recovered p laws Takes o m old new b phase (signal w) (signalled w h t)
        (taken-Closable w h t)
  after_finish-Sure (not_a_master true) w c h t = left w _ h
  after_finish-Sure (not_survived true) w c h t = left (signal w) _ (signalled w h t)
  after_finish-Sure (not_a_master false) w c h t = take_back_with-Sure w c h
  after_finish-Sure (not_survived false) w c h t =
      take_back_with-Sure (signal w) c (signalled w h t)

  finish_reload-Sure :
      (m' : Master) (w : World)
      → o.read_fails undoing ≡ false
      → Standing p laws Takes o m old new b phase w
      → Takes w.disk.live
      → Sure (after_reload_back p o txn (finish_reload p o txn m' w))
  unfolding finish_reload after_reload_back
  finish_reload-Sure m' w c h t = elim (Bool-cases (sle m'.pid 0)) [
    | inl y ↦ elim (Bool-cases (str_eq txn.phase phase_signalled)) [
      | inl z ↦ rw (y, z) (left w _ h)
      | inr z ↦
          rw (y, z) (discard-Recovered p laws Takes o m old new b phase w h (taken-Closable w h t))
    ]
    | inr f ↦ elim (Bool-cases (o.cancelled reloading_back)) [
      | inl y ↦ rw (f, y) (left w _ h)
      | inr g ↦ rw (f, g) (after_finish-Sure (o.reload reloading_back) w c h t)
    ]
  ]

  resolve_landed-Sure :
      (m' : Master) (refused cancelled : Bool) (w : World)
      → o.read_fails undoing ≡ false
      → Standing p laws Takes o m old new b phase w
      → (refused ≡ false → Takes w.disk.live)
      → Sure (resolve_landed p o txn m' refused cancelled w)
  unfolding resolve_landed undone
  resolve_landed-Sure m' refused true w c h t = left w _ h
  resolve_landed-Sure m' true false w c h t =
      undo_leftover-Recovered p laws Takes o m old new b phase w c h
  resolve_landed-Sure m' false false w c h t = finish_reload-Sure m' w c h (t refl)

  resolve_edited-Sure :
      (told refused : Bool) (w : World)
      → Standing p laws Takes o m old new b phase w
      → w.disk.live ≡ old
      → Sure (resolve_edited p o txn told refused w)
  unfolding resolve_edited
  resolve_edited-Sure false refused w h e =
      discard-Recovered p laws Takes o m old new b phase w h (inl e)
  resolve_edited-Sure true true w h e = left w _ h
  resolve_edited-Sure true false w h e =
      discard-Recovered p laws Takes o m old new b phase w h (inl e)

  -- A file that is not what the record says holds the old contents.
  not_landed-old :
      (d : Disk)
      → Open p Takes m old new b phase d
      → landed p false txn d.live ≡ false
      → d.live ≡ old
  unfolding landed hash_of transaction_of
  not_landed-old d h f = elim h.contents [
    | inl e ↦ e
    | inr e ↦
        let t : landed p false txn d.live ≡ true = rw e (eq_refl (p.hash new)) in
        let wrong : true ≡ false = sym t ∙ f in absurd cc
  ]

  resolve-Sure :
      (m' : Master) (w : World)
      → Believes o Takes
      → o.read_fails landing ≡ false
      → o.read_fails undoing ≡ false
      → Standing p laws Takes o m old new b phase w
      → Sure (resolve p o txn m' w)
  unfolding resolve
  resolve-Sure m' w believes r c h = rw r (elim (Bool-cases (landed p false txn w.disk.live)) [
    | inl t ↦ rw t (
        resolve_landed-Sure m' (o.check finishing w.disk.live).refused
          (o.check finishing w.disk.live).cancelled w c h (believes finishing w.disk.live))
    | inr f ↦ rw f (
        resolve_edited-Sure (not (str_eq txn.phase phase_written))
          (o.check kept_check w.disk.live).refused w h (not_landed-old w.disk h.open_record f))
  ])

-- Reconcile, on a disk with the old or the new contents, the record of the change and the way back
-- beside it. Where it gives no error, the file holds the old contents, or the new ones that php-fpm
-- takes, and the record is gone unless it could not be removed; where it gives one, the record and the
-- way back still stand. Every disk that recovery goes through holds the old or the new contents, and the
-- record with the way back unless the change is settled by then; so recovery can die as well. The
-- drop-in and the saved copy have to be readable; php-fpm takes a file where its check does not refuse
-- it; and paths and hashes are as path/filepath and SHA-256 make them.
pub reconcile-Recovered :
    (p : Paths) (laws : IsPaths p) (Takes : Option String → Type 0) (o : Outside) (m m' : Master)
    (dir : String) (old : Option String) (new : String) (b : Backup) (phase : String) (d : Disk)
    → Believes o Takes
    → o.read_fails landing ≡ false
    → o.read_fails undoing ≡ false
    → m'.drop_in_dir ≡ m.drop_in_dir
    → Open p Takes m old new b phase d
    → let s = reconcile p o dir m' (record { disk = d; trail = []; signals = [] }) in
      Recovered p laws Takes o m old new b phase (s.world, s.problem)
unfolding reconcile reconcile_found
reconcile-Recovered p laws Takes o m m' dir old new b phase d believes r c same h =
    let start : World = record { disk = d; trail = []; signals = [] } in
    let e : read_transaction p m'.drop_in_dir d.record_file
        ≡ found (transaction_of p m b new phase) =
      ap (λ k. read_transaction p k d.record_file) same
      ∙ read_transaction-found p laws Takes m old new b phase d h in
    rw e (
      resolve-Sure p laws Takes o m old new b phase
        (completed_from (transaction_of p m b new phase) m') start believes r c
        (record { safe = record { now = begun b phase h; past = tt; told = tt }; open_record = h }))
