-- ===== src/Apply/Reconcile/Read.antt =====
-- apply/transaction.go: a record that a run wrote passes the checks of the next run.
use Prim.Native.String.{len}
use text.Mathlib.Text.{◌==◌ as str_eq}
use text.Mathlib.TextPositions.{eq_refl}
use fpm_tune.Common.{
  ◌≡◌, refl, ap, ◌∙◌, ◌⊎◌, inl, inr, String, true, false, not, List, Option, none,
}
use fpm_tune.Apply.Disk.{Disk, Paths}
use fpm_tune.Apply.Transaction.{
  found, phase_written, phase_signalled, is_same_bool, drop_in_path, is_bare, valid, checked,
  read_transaction,
}
use fpm_tune.Apply.Write.{Master, Backup, backup_name, transaction_of}
use fpm_tune.Apply.Live.Trail.{Undo, created, replaced, Open}

-- filepath.Clean of the drop-in's path is the drop-in's path in the clean directory; a hash is 64 hexadecimal digits; and a saved copy's name is
-- the last element of a path.
pub record IsPaths (p : Paths) : Type 0 where
  pub clean_join : (dir : String) → p.clean (drop_in_path p dir) ≡ drop_in_path p (p.clean dir)
  pub hash_len : (s : String) → len (p.hash s) ≡ 64
  pub hash_hex : (s : String) → p.is_hex (p.hash s) ≡ true
  pub name_bare : (dir : String) → is_bare p (backup_name p dir (drop_in_path p dir)) ≡ true
  pub name_some : (dir : String) → str_eq (backup_name p dir (drop_in_path p dir)) "" ≡ false

module _ (p : Paths) (laws : IsPaths p) (Takes : Option String → Type 0) (m : Master)
    (old : Option String) (new : String) where
  no_name : is_bare p "" ≡ true
  unfolding is_bare
  no_name = refl

  -- The parts of the record that say how to undo it agree.
  pub Undo-agrees :
      (b : Backup) (backups : List (String × String))
      → Undo p Takes m old new b backups
      → (is_same_bool b.existed (not (str_eq b.saved "")) ≡ true) × (is_bare p b.saved ≡ true)
  Undo-agrees b backups (created e x n) = (rw (x, n), ap (is_bare p) n ∙ no_name)
  Undo-agrees b backups (replaced e x n l) =
      let t = laws.name_some m.drop_in_dir in
      let u = laws.name_bare m.drop_in_dir in (rw (x, n, t), ap (is_bare p) n ∙ u)

  valid-transaction_of :
      (b : Backup) (phase : String)
      → b.path ≡ drop_in_path p m.drop_in_dir
      → is_same_bool b.existed (not (str_eq b.saved "")) ≡ true
      → is_bare p b.saved ≡ true
      → (phase ≡ phase_written) ⊎ (phase ≡ phase_signalled)
      → valid p m.drop_in_dir (transaction_of p m b new phase) ≡ none
  unfolding valid transaction_of drop_in_path
  valid-transaction_of b phase path same bare phases =
      let c = laws.clean_join m.drop_in_dir in
      let l = laws.hash_len new in
      let h = laws.hash_hex new in
      let d = eq_refl (p.clean m.drop_in_dir) in
      let j = eq_refl (p.join (p.clean m.drop_in_dir) "zz-fpm-tune.conf") in
      elim phases [
        | inl e ↦ rw (path, c, d, j, same, bare, l, h, e)
        | inr e ↦ rw (path, c, d, j, same, bare, l, h, e)
      ]

  -- A record of this change passes every check of the next run, whatever the phase that it reached.
  pub read_transaction-found :
      (b : Backup) (phase : String) (d : Disk)
      → Open p Takes m old new b phase d
      → read_transaction p m.drop_in_dir d.record_file ≡ found (transaction_of p m b new phase)
  unfolding read_transaction checked
  read_transaction-found b phase d h =
      let (same, bare) = Undo-agrees b d.backups h.undo in
      let v =
        valid-transaction_of b phase h.path same bare
          (elim h.phases [ inl e ↦ inl e | inr e ↦ inr e.0 ]) in
      rw (h.recorded, v)
