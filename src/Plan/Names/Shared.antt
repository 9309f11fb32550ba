-- ===== src/Plan/Names/Shared.antt =====
-- plan/plan.go: the names that ambiguousNames finds are those that two views with different
-- configurations share.
use text.Mathlib.Text.{◌==◌ as str_eq}
use text.Mathlib.TextEquality.{eq_iff}
use fpm_tune.Common.{
  String, ◌≡◌, ◌≢◌, ◌↔◌, ◌⊎◌, inl, inr, refl, subst, sym, true, false, List, [], ◌∷◌, Any, Option,
  none, some, if◌then◌else◌, Bool-cases,
}
use fpm_tune.Common.Float.{Float}
use fpm_tune.Common.Map.{lookup, insert, lookup-insert, string_eq}
use fpm_tune.Plan.Types.{PoolView}
use fpm_tune.Plan.Names.{Names, is_true, has_name, note_name, names_from, ambiguous_names}

has_name-insert :
    (name other : String) (dup : Names)
    → has_name name (insert other true dup)
      ≡ (if str_eq other name then true else has_name name dup)
unfolding has_name is_true
has_name-insert name other dup = elim (Bool-cases (str_eq other name)) [
  | inl t ↦ rw (lookup-insert other name true dup, t) refl
  | inr f ↦ rw (lookup-insert other name true dup, f) refl
]

str_eq_self : (a : String) → str_eq a a ≡ true
str_eq_self a = (eq_iff a a).1 refl

module _ {fl : Float} where
  -- A view of that name, of another configuration than `path`.
  abbrev pub IsOther : (name path : String) → PoolView fl → Type 0
  IsOther name path v = (v.name ≡ name) × (v.config_path ≢ path)

  -- Two views of the name have different configurations.
  abbrev pub IsShared : (name : String) → List (PoolView fl) → Type 0
  IsShared name [] = ⊥
  IsShared name (v ∷ vs) =
      ((v.name ≡ name) × Any (IsOther name v.config_path) vs) ⊎ IsShared name vs

  -- What the views still to come make of a name, by the first path that was seen of it.
  abbrev Coming : (name : String) → Option String → List (PoolView fl) → Type 0
  Coming name none vs = IsShared name vs
  Coming name (some path) vs = Any (IsOther name path) vs

  -- Of two different paths one is not the given one.
  shared-IsOther :
      (name path : String) (vs : List (PoolView fl)) → IsShared name vs → Any (IsOther name path) vs
  shared-IsOther name path [] c = absurd c
  shared-IsOther name path (v ∷ vs) (inl (e, a)) = elim (Bool-cases (str_eq v.config_path path)) [
    | inl t ↦
        let same : v.config_path ≡ path = (eq_iff v.config_path path).0 t in
        inr (subst (λ p. Any (IsOther name p) vs) same a)
    | inr f ↦ inl (e, λ same. let t = (eq_iff v.config_path path).1 same in cc)
  ]
  shared-IsOther name path (v ∷ vs) (inr s) = inr (shared-IsOther name path vs s)

  -- A view of another name changes nothing for this one.
  other_name :
      (name : String) (v : PoolView fl) (vs : List (PoolView fl)) (o : Option String)
      → v.name ≢ name
      → Coming name o (v ∷ vs) ↔ Coming name o vs
  other_name name v vs none ne = (λ c. elim c [ inl h ↦ absurd (ne h.0) | inr s ↦ s ], λ s. inr s)
  other_name name v vs (some path) ne =
      (λ c. elim c [ inl h ↦ absurd (ne h.0) | inr s ↦ s ], λ s. inr s)

  abbrev After : (name : String) → List (String × String) × Names → List (PoolView fl) → Type 0
  After name r vs = (has_name name r.1 ≡ true) ⊎ Coming name (lookup name r.0) vs

  note-ne :
      (name : String) (v : PoolView fl) (first : Option String) (r : List (String × String) × Names)
      → str_eq v.name name ≡ false
      → (lookup name (note_name v first r).0 ≡ lookup name r.0)
        × (has_name name (note_name v first r).1 ≡ has_name name r.1)
  unfolding note_name
  note-ne name v none (seen, dup) f =
      (rw (lookup-insert v.name name v.config_path seen, f) refl, refl)
  note-ne name v (some first) (seen, dup) f = elim (Bool-cases (str_eq first v.config_path)) [
    | inl t ↦ rw t (rw (lookup-insert v.name name v.config_path seen, f) refl, refl)
    | inr g ↦ rw g (refl, rw (has_name-insert name v.name dup, f) refl)
  ]

  -- A view of the name itself.
  note-eq :
      (v : PoolView fl) (first : Option String) (seen : List (String × String)) (dup : Names)
      → (vs : List (PoolView fl)) → first ≡ lookup v.name seen
      → After v.name (note_name v first (seen, dup)) vs
        ↔ ((has_name v.name dup ≡ true) ⊎ Coming v.name first (v ∷ vs))
  unfolding note_name
  note-eq v none seen dup vs e =
      rw (lookup-insert v.name v.name v.config_path seen, str_eq_self v.name)
        (
          λ c. elim c [ inl h ↦ inl h | inr a ↦ inr (inl (refl, a)) ],
          λ c. elim c [
            | inl h ↦ inl h
            | inr k ↦ elim k [
              | inl h ↦ inr h.1
              | inr s ↦ inr (shared-IsOther v.name v.config_path vs s)
            ]
          ],
        )
  note-eq v (some first) seen dup vs e = elim (Bool-cases (str_eq first v.config_path)) [
    | inl t ↦
        let same : first ≡ v.config_path = (eq_iff first v.config_path).0 t in
        rw (t, lookup-insert v.name v.name v.config_path seen, str_eq_self v.name)
          (
            λ c. elim c [
              | inl h ↦ inl h
              | inr a ↦ inr (inr (subst (λ p. Any (IsOther v.name p) vs) (sym same) a))
            ],
            λ c. elim c [
              | inl h ↦ inl h
              | inr k ↦ elim k [
                | inl h ↦ absurd (h.1 (sym same))
                | inr a ↦ inr (subst (λ p. Any (IsOther v.name p) vs) same a)
              ]
            ],
          )
    | inr f ↦
        rw (f, has_name-insert v.name v.name dup, str_eq_self v.name)
          (
            λ c. inr (inl (refl, λ same. let t = (eq_iff first v.config_path).1 (sym same) in cc)),
            λ c. inl refl,
          )
  ]

  note-After :
      (name : String) (v : PoolView fl) (r : List (String × String) × Names)
      → (vs : List (PoolView fl))
      → After name (note_name v (lookup v.name r.0) r) vs ↔ After name r (v ∷ vs)
  note-After name v r vs = elim (Bool-cases (str_eq v.name name)) [
    | inl t ↦
        subst (λ n. After n (note_name v (lookup v.name r.0) r) vs ↔ After n r (v ∷ vs))
          ((eq_iff v.name name).0 t) (note-eq v (lookup v.name r.0) r.0 r.1 vs refl)
    | inr f ↦
        let k = note-ne name v (lookup v.name r.0) r f in
        let ne : v.name ≢ name = λ e. let t = (eq_iff v.name name).1 e in cc in
        let same = other_name name v vs (lookup name r.0) ne in
        rw (k.0, k.1)
          (
            λ c. elim c [ inl h ↦ inl h | inr d ↦ inr (same.1 d) ],
            λ c. elim c [ inl h ↦ inl h | inr d ↦ inr (same.0 d) ],
          )
  ]

  names_from-After :
      (name : String) (vs : List (PoolView fl)) (r : List (String × String) × Names)
      → (has_name name (names_from vs r).1 ≡ true) ↔ After name r vs
  unfolding names_from
  names_from-After name [] r =
      (λ h. inl h, λ c. elim c [ inl h ↦ h | inr d ↦ absurd (nothing (lookup name r.0) d) ])
    where
      nothing : (o : Option String) → Coming name o [] → ⊥
      nothing none d = d
      nothing (some path) d = d
  names_from-After name (v ∷ vs) r =
      let step = note-After name v r vs in
      let rest = names_from-After name vs (note_name v (lookup v.name r.0) r) in
      (λ h. step.0 (rest.0 h), λ c. rest.1 (step.1 c))

  -- ambiguousNames finds a name exactly where two views of it have different configurations.
  pub ambiguous_names_iff :
      (name : String) (views : List (PoolView fl))
      → (has_name name (ambiguous_names views) ≡ true) ↔ IsShared name views
  unfolding ambiguous_names has_name is_true lookup
  ambiguous_names_iff name views =
      let all = names_from-After name views ([], []) in
      (λ h. elim (all.0 h) [ inl e ↦ cc | inr s ↦ s ], λ s. all.1 (inr s))
