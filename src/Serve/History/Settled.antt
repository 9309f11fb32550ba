-- ===== src/Serve/History/Settled.antt =====
-- serve/history.go: noteExternalChanges reports a change once.
use text.Mathlib.Text.{◌==◌ as str_eq}
use text.Mathlib.TextEquality.{eq_iff}
use text.Mathlib.TextPositions.{eq_refl}
use fpm_tune.Common.{
  ℕ, ◌≡◌, refl, sym, ap, ◌∙◌, String, Bool, true, false, not, ◌||◌, ◌&&◌, ◌==◌, List, [], ◌∷◌,
  Option, none, some, if◌then◌else◌, All, Bool-cases, inl, inr, arith,
}
use fpm_tune.Common.Float.{Float}
use fpm_tune.Common.Map.{lookup, insert, string_eq, lookup-insert, lookup-remove}
use fpm_tune.Serve.History.{
  View, Watch, History, event, changed, moved_outside, note_change, note_view,
  note_external_changes,
}

-- The view tells the pool's ceiling.
abbrev pub tells : View → Bool
tells v = not (v.failed || not v.max_children_known)

-- Every pool has one view.
abbrev pub IsOneEach : List View → Type 0
IsOneEach [] = Unit
IsOneEach (v ∷ vs) = All (λ w. str_eq w.name v.name ≡ false) vs × IsOneEach vs

-- The ceilings that the views tell are those that are remembered.
abbrev pub IsKnown : List View → List (String × ℕ) → Type 0
IsKnown vs m = All (λ v. tells v ≡ true → lookup v.name m ≡ some v.current_max_children) vs

abbrev is_wanted : Option ℕ → ℕ → Bool
is_wanted none now = false
is_wanted (some want) now = want == now

module _ {fl : Float} where
  -- The event for a view, given the ceiling that was remembered of its pool and the one that this
  -- daemon put there: a ceiling that the view tells, that is not the remembered one and not this
  -- daemon's, is a change from the outside.
  abbrev pub reported : ℕ → View → (last want : Option ℕ) → History fl → History fl
  reported at v none want h = h
  reported at v (some prev) want h =
      if tells v
        && (not (prev == v.current_max_children) && not (is_wanted want v.current_max_children))
      then event
          (record {
            at = some at;
            kind = changed;
            pool = v.name;
            from = prev;
            to = v.current_max_children;
            detail = "configured outside this daemon: a hand edit, a deploy, or fpm-tune apply";
          })
          h
      else h

  -- The events of a round, by what was remembered and expected before it.
  abbrev pub reports : ℕ → List View → (last want : List (String × ℕ)) → History fl → History fl
  reports at [] last want h = h
  reports at (v ∷ vs) last want h =
      reports at vs last want (reported at v (lookup v.name last) (lookup v.name want) h)

still_moved : (now : ℕ) (want : Option ℕ) → moved_outside (some now) want now ≡ none
unfolding moved_outside
still_moved now none = ground arith
still_moved now (some want) = ground arith

module _ {fl : Float} where
  note_view-last :
      (at : ℕ) (v : View) (l : Watch fl)
      → (note_view at v l).last_configured ≡ (
          if tells v
          then insert v.name v.current_max_children l.last_configured
          else l.last_configured)
  unfolding note_view
  note_view-last at v l = elim (Bool-cases (v.failed || not v.max_children_known)) [
    | inl t ↦ rw t
    | inr f ↦ rw f
  ]

  lookup-note_view :
      (k : String) (at : ℕ) (v : View) (l : Watch fl)
      → lookup k (note_view at v l).last_configured ≡ (
          if tells v
          then (if str_eq v.name k then some v.current_max_children else lookup k l.last_configured)
          else lookup k l.last_configured)
  lookup-note_view k at v l = ap (lookup k) (note_view-last at v l) ∙ elim (Bool-cases (tells v)) [
    | inl t ↦ rw t (lookup-insert v.name k v.current_max_children l.last_configured)
    | inr f ↦ rw f
  ]

  -- A pool that no view names keeps what is remembered of it.
  lookup-note_external_changes :
      (k : String) (vs : List View) (at : ℕ) (l : Watch fl)
      → All (λ w. str_eq w.name k ≡ false) vs
      → lookup k (note_external_changes vs at l).last_configured ≡ lookup k l.last_configured
  unfolding note_external_changes
  lookup-note_external_changes k [] at l h = refl
  lookup-note_external_changes k (v ∷ vs) at l h =
      lookup-note_external_changes k vs at (note_view at v l) h.1
      ∙ lookup-note_view k at v l
      ∙ elim (Bool-cases (tells v)) [ inl t ↦ rw (t, h.0) | inr f ↦ rw f ]

  noted-IsKnown :
      (vs : List View) (at : ℕ) (l : Watch fl)
      → IsOneEach vs
      → IsKnown vs (note_external_changes vs at l).last_configured
  unfolding note_external_changes
  noted-IsKnown [] at l h = tt
  noted-IsKnown (v ∷ vs) at l (others, rest) = (
    λ t.
        lookup-note_external_changes v.name vs at (note_view at v l) others
        ∙ lookup-note_view v.name at v l
        ∙ rw (t, eq_refl v.name),
    noted-IsKnown vs at (note_view at v l) rest,
  )

  -- A view that tells what is remembered is no event.
  note_view-history :
      (at : ℕ) (v : View) (l : Watch fl)
      → (tells v ≡ true → lookup v.name l.last_configured ≡ some v.current_max_children)
      → (note_view at v l).history ≡ l.history
  unfolding note_view note_change
  note_view-history at v l h = elim (Bool-cases (v.failed || not v.max_children_known)) [
    | inl t ↦ rw t
    | inr f ↦
        let e = h (ap not f) in
        rw (f, e, still_moved v.current_max_children (lookup v.name l.expected))
  ]

  note_view-IsKnown :
      (ws : List View) (at : ℕ) (v : View) (l : Watch fl)
      → (tells v ≡ true → lookup v.name l.last_configured ≡ some v.current_max_children)
      → IsKnown ws l.last_configured
      → IsKnown ws (note_view at v l).last_configured
  note_view-IsKnown [] at v l h k = tt
  note_view-IsKnown (w ∷ ws) at v l h k = (
    λ t. lookup-note_view w.name at v l ∙ elim (Bool-cases (tells v)) [
      | inr f ↦ rw f (k.0 t)
      | inl u ↦ elim (Bool-cases (str_eq v.name w.name)) [
        | inr g ↦ rw (u, g) (k.0 t)
        | inl s ↦
            rw (u, s)
              (sym (h u)
                ∙ ap (λ n. lookup n l.last_configured) ((eq_iff v.name w.name).0 s)
                ∙ k.0 t)
      ]
    ],
    note_view-IsKnown ws at v l h k.1,
  )

  known-history :
      (vs : List View) (at : ℕ) (l : Watch fl)
      → IsKnown vs l.last_configured
      → (note_external_changes vs at l).history ≡ l.history
  unfolding note_external_changes
  known-history [] at l k = refl
  known-history (v ∷ vs) at l k =
      known-history vs at (note_view at v l) (note_view-IsKnown vs at v l k.0 k.1)
      ∙ note_view-history at v l k.0

  change_reported :
      (at : ℕ) (v : View) (last want : Option ℕ) (h : History fl)
      → (v.failed || not v.max_children_known) ≡ false
      → note_change (moved_outside last want v.current_max_children) v at h
        ≡ reported at v last want h
  unfolding moved_outside note_change
  change_reported at v none want h f = refl
  change_reported at v (some prev) none h f = elim (Bool-cases (prev == v.current_max_children)) [
    | inl e ↦ rw (f, e) refl
    | inr e ↦ rw (f, e) refl
  ]
  change_reported at v (some prev) (some want) h f =
      elim (Bool-cases (prev == v.current_max_children)) [
        | inl e ↦ rw (f, e) refl
        | inr e ↦ elim (Bool-cases (want == v.current_max_children)) [
          | inl g ↦ rw (f, e, g) refl
          | inr g ↦ rw (f, e, g) refl
        ]
      ]

  silent :
      (at : ℕ) (v : View) (last want : Option ℕ) (h : History fl)
      → (v.failed || not v.max_children_known) ≡ true
      → reported at v last want h ≡ h
  silent at v none want h t = refl
  silent at v (some prev) want h t = rw t refl

  note_view-reported :
      (at : ℕ) (v : View) (l : Watch fl)
      → (note_view at v l).history
        ≡ reported at v (lookup v.name l.last_configured) (lookup v.name l.expected) l.history
  unfolding note_view
  note_view-reported at v l = elim (Bool-cases (v.failed || not v.max_children_known)) [
    | inl t ↦ rw t (sym (silent at v _ _ l.history t))
    | inr f ↦ rw f (change_reported at v _ _ l.history f)
  ]

  lookup-expected :
      (k : String) (at : ℕ) (v : View) (l : Watch fl)
      → str_eq v.name k ≡ false
      → lookup k (note_view at v l).expected ≡ lookup k l.expected
  unfolding note_view
  lookup-expected k at v l ne = elim (Bool-cases (v.failed || not v.max_children_known)) [
    | inl t ↦ rw t refl
    | inr f ↦ rw f (lookup-remove v.name k l.expected ∙ rw ne refl)
  ]

  -- What is remembered of the other pools is the same after a view.
  reports-other :
      (at : ℕ) (v : View) (l : Watch fl) (ws : List View) (h : History fl)
      → All (λ w. str_eq w.name v.name ≡ false) ws
      → reports at ws (note_view at v l).last_configured (note_view at v l).expected h
        ≡ reports at ws l.last_configured l.expected h
  reports-other at v l [] h a = refl
  reports-other at v l (w ∷ ws) h a =
      let ne = flipped v.name w.name a.0 in
      rw (last ne, lookup-expected w.name at v l ne) (reports-other at v l ws _ a.1)
    where
      flipped : (x y : String) → str_eq y x ≡ false → str_eq x y ≡ false
      flipped x y f = elim (Bool-cases (str_eq x y)) [
        | inr g ↦ g
        | inl t ↦
            let e : y ≡ x = sym ((eq_iff x y).0 t) in
            let wrong : true ≡ false = sym ((eq_iff y x).1 e) ∙ f in absurd cc
      ]

      last :
          str_eq v.name w.name ≡ false
          → lookup w.name (note_view at v l).last_configured ≡ lookup w.name l.last_configured
      last ne =
          lookup-note_view w.name at v l
          ∙ elim (Bool-cases (tells v)) [ inl t ↦ rw (t, ne) refl | inr f ↦ rw f refl ]

  noted-reports :
      (vs : List View) (at : ℕ) (l : Watch fl)
      → IsOneEach vs
      → (note_external_changes vs at l).history
        ≡ reports at vs l.last_configured l.expected l.history
  unfolding note_external_changes
  noted-reports [] at l a = refl
  noted-reports (v ∷ vs) at l (others, rest) =
      noted-reports vs at (note_view at v l) rest
      ∙ reports-other at v l vs (note_view at v l).history others
      ∙ ap (reports at vs l.last_configured l.expected) (note_view-reported at v l)

  -- Noting a round's views puts an event into the history for each ceiling that a view tells, that is
  -- not the one remembered and not the one this daemon put there; no other event, so that its own
  -- resizes are not reported. The round the ceiling that every view tells, and the same views noted again,
  -- at any time, put nothing into the history. No two views name the same pool.
  pub note_external_changes-once :
      (vs : List View) (at later : ℕ) (l : Watch fl)
      → IsOneEach vs
      → ((note_external_changes vs at l).history
          ≡ reports at vs l.last_configured l.expected l.history)
        × IsKnown vs (note_external_changes vs at l).last_configured
        × ((note_external_changes vs later (note_external_changes vs at l)).history
            ≡ (note_external_changes vs at l).history)
  note_external_changes-once vs at later l h =
      let k = noted-IsKnown vs at l h in
      (noted-reports vs at l h, k, known-history vs later (note_external_changes vs at l) k)
