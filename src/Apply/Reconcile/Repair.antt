-- ===== src/Apply/Reconcile/Repair.antt =====
-- apply/reconcile.go: repairIfOursIsBroken, which may take the drop-in out.
use text.Mathlib.Text.{◌==◌ as str_eq}
use fpm_tune.Common.{
  ◌≡◌, refl, sym, ap, subst, String, Bool, true, false, not, ◌||◌, Option, none, some,
  if◌then◌else◌, Bool-cases, inl, inr,
}
use fpm_tune.Apply.Disk.{
  Paths, Outside, World, Fault, works, fails, unsynced, repair_check, repair_reading,
  repair_rehearsing, repair_removing, repaired_check, repair_putting_back, moved, put_live,
  remove_live,
}
use fpm_tune.Apply.Write.{Master, is_ours}
use fpm_tune.Apply.Reconcile.{
  Settled, not_repaired, not_put_back, put_back, after_repair, repair_read,
  repair_if_ours_is_broken,
}

module _ (p : Paths) (o : Outside) where
  -- What a removal comes to: the file is out, and php-fpm takes what is left; it is back as it was; or
  -- it is out, and the error says that it could not be put back.
  pub data Removal (w : World) (s : Settled) : Type 0 where
    out :
        s.world.disk ≡ record w.disk { live = none }
        → s.problem ≡ none
        → (o.check repaired_check none).refused ≡ false
        → Removal w s
    back_in : s.world.disk ≡ w.disk → s.problem ≡ some not_repaired → Removal w s
    left_out :
        s.world.disk ≡ record w.disk { live = none } → s.problem ≡ some not_put_back → Removal w s

  -- Nothing is touched, or the file is this tool's, php-fpm refuses the configuration with it, and
  -- takes the rehearsal without it.
  pub data Cautious (w : World) (s : Settled) : Type 0 where
    untouched : s.world ≡ w → Cautious w s
    taken_out :
        (body : String)
        → w.disk.live ≡ some body
        → is_ours p body ≡ true
        → (o.check repair_check w.disk.live).refused ≡ true
        → (o.check repair_check w.disk.live).cancelled ≡ false
        → (o.check repair_rehearsing none).refused ≡ false
        → Removal w s
        → Cautious w s

  put_back-Removal :
      (f : Fault) (body : String) (w : World)
      → w.disk.live ≡ some body
      → Removal w (put_back p o (put_live f (some body) (moved (record w.disk { live = none }) w)))
  unfolding put_back put_live moved
  put_back-Removal works body w e =
      back_in (ap (λ (l : Option String). record w.disk { live = l }) (sym e)) refl
  put_back-Removal unsynced body w e =
      back_in (ap (λ (l : Option String). record w.disk { live = l }) (sym e)) refl
  put_back-Removal fails body w e = left_out refl refl

  removed-Removal :
      (body : String) (w : World)
      → w.disk.live ≡ some body
      → Removal w (after_repair p o body (moved (record w.disk { live = none }) w, false))
  unfolding after_repair moved
  removed-Removal body w e = elim (Bool-cases (o.check repaired_check none).refused) [
    | inl t ↦ rw t (put_back-Removal (o.write repair_putting_back) body w e)
    | inr f ↦ rw f (out refl refl f)
  ]

  removal-Cautious :
      (fault : Bool) (body : String) (w : World)
      → w.disk.live ≡ some body
      → is_ours p body ≡ true
      → (o.check repair_check w.disk.live).refused ≡ true
      → (o.check repair_check w.disk.live).cancelled ≡ false
      → (o.check repair_rehearsing none).refused ≡ false
      → Cautious w (after_repair p o body (remove_live fault (some body) w))
  unfolding remove_live after_repair
  removal-Cautious true body w e t r c g = untouched refl
  removal-Cautious false body w e t r c g = taken_out body e t r c g (removed-Removal body w e)

  was_read :
      (unread : Bool) (w : World) (body : String)
      → (if unread then none else w.disk.live) ≡ some body
      → w.disk.live ≡ some body
  was_read true w body e = cc
  was_read false w body e = e

  refused : (a b : Bool) → (a || not b) ≡ false → b ≡ true
  refused true b e = cc
  refused false true e = refl
  refused false false e = cc

  repair_read-Cautious :
      (read : Option String) (w : World)
      → ((body : String) → read ≡ some body → w.disk.live ≡ some body)
      → (o.check repair_check w.disk.live).refused ≡ true
      → (o.check repair_check w.disk.live).cancelled ≡ false
      → Cautious w (repair_read p o read w)
  unfolding repair_read
  repair_read-Cautious none w e r c = untouched refl
  repair_read-Cautious (some body) w e r c = elim (Bool-cases (is_ours p body)) [
    | inr f ↦ rw f (untouched refl)
    | inl t ↦ elim (Bool-cases (o.check repair_rehearsing none).refused) [
      | inl y ↦ rw (t, y) (untouched refl)
      | inr g ↦
          rw (t, g)
            (subst
              (λ l.
                Cautious w
                  (after_repair p o body (remove_live (o.remove_fails repair_removing) l w)))
              (sym (e body refl))
              (removal-Cautious (o.remove_fails repair_removing) body w (e body refl) t r c g))
    ]
  ]

  -- repairIfOursIsBroken leaves everything as it is unless php-fpm refuses the configuration, was not
  -- interrupted, takes it in the rehearsal without this tool's file, and the file is this tool's. Then
  -- that file alone goes; and where php-fpm refuses what is left, it comes back as it was, or the
  -- error says that it could not.
  pub repair_if_ours_is_broken-Cautious :
      (m : Master) (w : World) → Cautious w (repair_if_ours_is_broken p o m w)
  unfolding repair_if_ours_is_broken
  repair_if_ours_is_broken-Cautious m w =
      let c = o.check repair_check w.disk.live in
      elim (Bool-cases ((str_eq m.binary "" || str_eq m.config_path "") || not c.refused)) [
        | inl t ↦ rw t (untouched refl)
        | inr f ↦ elim (Bool-cases c.cancelled) [
          | inl t ↦ rw (f, t) (untouched refl)
          | inr g ↦
              rw (f, g)
                (repair_read-Cautious (if o.read_fails repair_reading then none else w.disk.live) w
                  (was_read (o.read_fails repair_reading) w) (refused _ c.refused f) g)
        ]
      ]
