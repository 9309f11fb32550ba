-- ===== src/Budget/Cgroup/Tightest.antt =====
-- budget/budget.go: what cgroupLimitOf returns, against all the limit files on the way to the root.
use fpm_tune.Common.{
  ℕ, ◌^◌, ◌≤◌, ◌<◌, ◌≡◌, refl, sym, ap, ◌∙◌, ◌⊎◌, inl, inr, String, true, List, [], ◌∷◌, ◌++◌,
  Option, none, some, Result, ok, err, ◌>>=◌, All, Any, subst, arith, Option-cases, Result-cases,
}
use fpm_tune.Common.Word.{slt}
use fpm_tune.Budget.Limits.{plausible, plausible_value}
use fpm_tune.Budget.Cgroup.{
  Hierarchy, Line, File, Place, files_of, tighter, scan_files, scan_path, scan_lines,
  cgroup_limit_of,
}

-- The limit files that bind a process: those of every ancestor on each of its lines.
abbrev pub places_at : Hierarchy → List String → List File → List Place
places_at h path [] = []
places_at h path (f ∷ fs) = record { hierarchy = h; path = path; file = f } ∷ places_at h path fs

abbrev pub places_on : Hierarchy → List String → List Place
places_on h [] = places_at h [] (files_of h)
places_on h (c ∷ cs) = places_at h (c ∷ cs) (files_of h) ++ places_on h cs

abbrev pub places_of : List Line → List Place
places_of [] = []
places_of (l ∷ ls) = places_on l.hierarchy l.path ++ places_of ls

tighter-bounds :
    (best v : ℕ)
    → (0 < v) × (v < 2 ^ 50)
    → best < 2 ^ 50
    → (0 < tighter best (some v))
      × (tighter best (some v) ≤ v)
      × ((best ≡ 0) ⊎ (tighter best (some v) ≤ best))
      × ((tighter best (some v) ≡ best) ⊎ (tighter best (some v) ≡ v))
unfolding slt
tighter-bounds best v (pos, small) k = ground arith

module _ {Err : Type 0} (parse_int : String → Option ℕ)
    (read_trimmed : Place → Result Err String) where
  -- The file at a place holds a limit, or nothing that is one.
  abbrev pub Holds : Place → Option ℕ → Type 0
  Holds p v = (raw : String) × (read_trimmed p ≡ ok raw) × (plausible parse_int raw ≡ v)

  -- A limit is found among the places and none of them holds a lower one; zero where none holds any.
  -- An error is that of a place that cannot be read.
  abbrev pub Tightest : List Place → Result Err ℕ → Type 0
  Tightest ps (ok best) =
      All (λ p. Holds p none ⊎ ((v : ℕ) × Holds p (some v) × (0 < best) × (best ≤ v))) ps
      × ((best ≡ 0) ⊎ Any (λ p. Holds p (some best)) ps)
      × (best < 2 ^ 50)
  Tightest ps (err e) = Any (λ p. read_trimmed p ≡ err e) ps

  scan : List Place → ℕ → Result Err ℕ
  scan [] best = ok best
  scan (p ∷ ps) best = read_trimmed p >>= (λ raw. scan ps (tighter best (plausible parse_int raw)))

  bind_assoc :
      {A B C : Type 0} (r : Result Err A) (f : A → Result Err B) (g : B → Result Err C)
      → (r >>= f) >>= g ≡ r >>= (λ a. f a >>= g)
  bind_assoc (ok a) f g = refl
  bind_assoc (err e) f g = refl

  bind_ext :
      {A B : Type 0} (r : Result Err A) (f g : A → Result Err B)
      → ((a : A) → f a ≡ g a)
      → r >>= f ≡ r >>= g
  bind_ext (ok a) f g h = h a
  bind_ext (err e) f g h = refl

  scan-append : (ps qs : List Place) (best : ℕ) → scan (ps ++ qs) best ≡ scan ps best >>= scan qs
  unfolding scan
  scan-append [] qs best = refl
  scan-append (p ∷ ps) qs best =
      bind_ext (read_trimmed p) _ _ (λ raw. scan-append ps qs _)
      ∙ sym (bind_assoc (read_trimmed p) _ _)

  scan_files-scan :
      (h : Hierarchy) (path : List String) (fs : List File) (best : ℕ)
      → scan_files parse_int read_trimmed h path fs best ≡ scan (places_at h path fs) best
  unfolding scan scan_files
  scan_files-scan h path [] best = refl
  scan_files-scan h path (f ∷ fs) best =
      bind_ext (read_trimmed _) _ _ (λ raw. scan_files-scan h path fs _)

  scan_path-scan :
      (h : Hierarchy) (path : List String) (best : ℕ)
      → scan_path parse_int read_trimmed h path best ≡ scan (places_on h path) best
  unfolding scan_path
  scan_path-scan h [] best = scan_files-scan h [] (files_of h) best
  scan_path-scan h (c ∷ cs) best =
      ap (λ r. r >>= (λ next. scan_path parse_int read_trimmed h cs next))
        (scan_files-scan h (c ∷ cs) (files_of h) best)
      ∙ bind_ext (scan (places_at h (c ∷ cs) (files_of h)) best) _ _ (scan_path-scan h cs)
      ∙ sym (scan-append (places_at h (c ∷ cs) (files_of h)) (places_on h cs) best)

  scan_lines-scan :
      (ls : List Line) (best : ℕ)
      → scan_lines parse_int read_trimmed ls best ≡ scan (places_of ls) best
  unfolding scan_lines scan
  scan_lines-scan [] best = refl
  scan_lines-scan (l ∷ ls) best =
      ap (λ r. r >>= (λ next. scan_lines parse_int read_trimmed ls next))
        (scan_path-scan l.hierarchy l.path best)
      ∙ bind_ext (scan (places_on l.hierarchy l.path) best) _ _ (scan_lines-scan ls)
      ∙ sym (scan-append (places_on l.hierarchy l.path) (places_of ls) best)

  -- What a scan from `best` on returns.
  abbrev From : (best : ℕ) → List Place → Result Err ℕ → Type 0
  From best ps (ok found) =
      (found < 2 ^ 50)
      × ((best ≡ 0) ⊎ ((0 < found) × (found ≤ best)))
      × All (λ p. Holds p none ⊎ ((v : ℕ) × Holds p (some v) × (0 < found) × (found ≤ v))) ps
      × ((found ≡ best) ⊎ Any (λ p. Holds p (some found)) ps)
  From best ps (err e) = Any (λ p. read_trimmed p ≡ err e) ps

  module _ (is_word : (raw : String) (v : ℕ) → parse_int raw ≡ some v → v < 2 ^ 64) where
    value-small :
        (w v : ℕ)
        → w < 2 ^ 64
        → plausible_value parse_int (some w) ≡ some v
        → (0 < v) × (v < 2 ^ 50)
    unfolding slt
    value-small w v word e = ground arith

    plausible-small :
        (raw : String) (v : ℕ) → plausible parse_int raw ≡ some v → (0 < v) × (v < 2 ^ 50)
    unfolding plausible
    plausible-small raw v e = elim (Option-cases (parse_int raw)) [
      | inl n ↦ let wrong : none ≡ some v = sym (ap (plausible_value parse_int) n) ∙ e in absurd cc
      | inr (w, s) ↦ value-small w v (is_word raw w s) (sym (ap (plausible_value parse_int) s) ∙ e)
    ]

    step-none :
        (p : Place) (ps : List Place) (best : ℕ) (r : Result Err ℕ)
        → Holds p none
        → From best ps r
        → From best (p ∷ ps) r
    step-none p ps best (err e) h f = inr f
    step-none p ps best (ok found) h (b, l, v, a) =
        (b, l, (inl h, v), elim a [ inl e ↦ inl e | inr any ↦ inr (inr any) ])

    step-some :
        (p : Place) (ps : List Place) (best v : ℕ) (r : Result Err ℕ)
        → Holds p (some v)
        → (0 < v) × (v < 2 ^ 50)
        → best < 2 ^ 50
        → From (tighter best (some v)) ps r
        → From best (p ∷ ps) r
    step-some p ps best v (err e) h s k f = inr f
    step-some p ps best v (ok found) h s k (b, l, vs, a) =
        let t = tighter-bounds best v s k in
        let under : (0 < found) × (found ≤ tighter best (some v)) = elim l [
          | inl none_yet ↦ absurd (omega arith)
          | inr u ↦ u
        ] in
        let low : (best ≡ 0) ⊎ ((0 < found) × (found ≤ best)) = elim t.2 [
          | inl none_yet ↦ inl none_yet
          | inr le ↦ inr (under.0, omega arith)
        ] in
        (b, low, (inr (v, h, under.0, omega arith), vs), attained a t.3)
      where
        attained :
            (found ≡ tighter best (some v)) ⊎ Any (λ q. Holds q (some found)) ps
            → (tighter best (some v) ≡ best) ⊎ (tighter best (some v) ≡ v)
            → (found ≡ best) ⊎ Any (λ q. Holds q (some found)) (p ∷ ps)
        attained (inl e) (inl old) = inl (e ∙ old)
        attained (inl e) (inr new) = inr (inl (subst (λ n. Holds p (some n)) (sym (e ∙ new)) h))
        attained (inr any) choice = inr (inr any)

    scan-From : (ps : List Place) (best : ℕ) → best < 2 ^ 50 → From best ps (scan ps best)
    unfolding scan
    scan-From [] best b = (b, ground arith, tt, inl refl)
    scan-From (p ∷ ps) best b = elim (Result-cases (read_trimmed p)) [
      | inl (raw, e) ↦ rw e (elim (Option-cases (plausible parse_int raw)) [
        | inl n ↦ rw n (step-none p ps best _ (raw, e, n) (scan-From ps best b))
        | inr (v, s) ↦
            let small = plausible-small raw v s in
            rw s (
              step-some p ps best v _ (raw, e, s) small b
                (scan-From ps (tighter best (some v))
                  (omega (arith, tighter-bounds best v small b))))
      ])
      | inr (x, e) ↦ rw e (inl e)
    ]

    -- cgroupLimitOf finds the tightest limit: of all the limit files of every ancestor on every line,
    -- each is absent or holds no plausible limit, or holds one that is not below the result, and the
    -- result stands in one of them or is zero, and is a plausible limit. An error is one that reading
    -- such a file gave. A number that ParseInt returns is an int64.
    pub cgroup_limit_of-Tightest :
        (ls : List Line)
        → Tightest (places_of ls) (cgroup_limit_of parse_int read_trimmed true (ok ls))
    unfolding cgroup_limit_of
    cgroup_limit_of-Tightest ls =
        rw (scan_lines-scan ls 0)
          (tightest (scan (places_of ls) 0) (scan-From (places_of ls) 0 (omega arith)))
      where
        tightest : (r : Result Err ℕ) → From 0 (places_of ls) r → Tightest (places_of ls) r
        tightest (ok best) (b, l, vs, a) = (vs, a, b)
        tightest (err e) f = f
