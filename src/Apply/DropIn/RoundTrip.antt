-- ===== src/Apply/DropIn/RoundTrip.antt =====
-- apply/apply.go: parseOurs reads back what Render writes.
use Prim.Native.String.{[] as empty, ◌∷◌ as str_cons}
use text.Mathlib.Text.{◌==◌ as str_eq}
use text.Mathlib.TextEquality.{eq_iff}
use mathlib.Core.List.{append_assoc, append-nil}
use fpm_tune.Common.{
  ℕ, ◌<◌, ◌^◌, ◌≡◌, ◌≢◌, refl, sym, ◌∙◌, ap, String, true, false, List, [], ◌∷◌, ◌++◌, map, All,
  none, some, ok, arith, inl, inr, Bool-cases, if◌then◌else◌,
}
use fpm_tune.Common.Word.{slt, slt_small}
use fpm_tune.Common.Map.{lookup, string_eq}
use fpm_tune.Common.Text.{append, is_space, drop_spaces, trim_right, trim_space}
use fpm_tune.Apply.Sections.{Settings, no_settings, Override}
use fpm_tune.Apply.DropIn.{
  header_lines, setting_line, spare_lines, reason_lines, section_lines, sections_lines, render,
  Owned, is_skipped, start_section, with_setting, store_setting, read_line, read_lines,
  check_ceilings, lines, parse_ours, is_ours_lines, has_prefix,
}
use fpm_tune.Apply.DropIn.Lines.{
  IsKey, max_key, start_key, least_key, most_key, setting-read, comment-read, header-read,
  blank-read, read-cons, insert-append, insert-last, lookup-last,
}

-- A section that Render writes and can be read back: its name is not empty, its ceiling is positive,
-- and its counts are counts that an int holds.
pub record IsWritten (o : Override) : Type 0 where
  pub named : o.name ≢ ""
  pub some_worker : 0 < o.settings.max_children
  pub max_small : o.settings.max_children < 2 ^ 63
  pub start_small : o.settings.start_servers < 2 ^ 63
  pub least_small : o.settings.min_spare < 2 ^ 63
  pub most_small : o.settings.max_spare < 2 ^ 63

-- The settings that Render writes of a section: the spares only of a dynamic pool.
abbrev pub written : Settings → Settings
written s =
    if slt 0 s.start_servers then s else record no_settings { max_children = s.max_children }

abbrev pub entry : Override → String × Settings
entry o = (o.name, written o.settings)

module _ (name : String) (ne : name ≢ "") (m : Owned) (fresh : lookup name m ≡ none) where
  abbrev holding : Settings → Owned
  holding s = m ++ ((name, s) ∷ [])

  setting-step :
      (key : String) (n : ℕ) (s s' : Settings) (ls : List String)
      → IsKey key
      → n < 2 ^ 63
      → with_setting key n s ≡ some s'
      → read_lines (setting_line key n ∷ ls) name (holding s) ≡ read_lines ls name (holding s')
  unfolding store_setting
  setting-step key n s s' ls k small e = read-cons (setting_line key n) ls name (holding s) (
      setting-read key n name (holding s) k ne small
      ∙ rw (lookup-last name s m fresh, e, insert-last name s' s m fresh) refl)

  spares-read :
      (s : Settings) (ls : List String)
      → s.start_servers < 2 ^ 63
      → s.min_spare < 2 ^ 63
      → s.max_spare < 2 ^ 63
      → read_lines
          (spare_lines s ++ ls)
          name
          (holding (record no_settings { max_children = s.max_children }))
        ≡ read_lines ls name (holding (written s))
  unfolding spare_lines with_setting
  spares-read s ls a b c = elim (Bool-cases (slt 0 s.start_servers)) [
    | inl t ↦
        let s1 = record no_settings {
          max_children = s.max_children;
          start_servers = s.start_servers;
        } in
        let s2 = record no_settings {
          max_children = s.max_children;
          start_servers = s.start_servers;
          min_spare = s.min_spare;
        } in
        rw t (
          setting-step "pm.start_servers" s.start_servers _ s1 _ start_key a refl
          ∙ setting-step "pm.min_spare_servers" s.min_spare s1 s2 _ least_key b refl
          ∙ setting-step "pm.max_spare_servers" s.max_spare s2 s ls most_key c refl)
    | inr f ↦ rw f refl
  ]

  ceiling-read :
      (o : Override) (ls : List String) (current : String)
      → o.name ≡ name
      → IsWritten o
      → read_lines
          (append "[" (append name "]")
            ∷ setting_line "pm.max_children" o.settings.max_children
            ∷ (spare_lines o.settings ++ ls))
          current
          m
        ≡ read_lines ls name (holding (written o.settings))
  unfolding start_section with_setting
  ceiling-read o ls current e w =
      read-cons (append "[" (append name "]")) _ current m (
        header-read name current m
        ∙ rw (fresh, outside, insert-append name no_settings m fresh) refl)
      ∙ setting-step "pm.max_children" o.settings.max_children no_settings
          (record no_settings { max_children = o.settings.max_children }) _ max_key w.max_small refl
      ∙ spares-read o.settings ls w.start_small w.least_small w.most_small
    where
      outside : str_eq name "" ≡ false
      outside = elim (Bool-cases (str_eq name "")) [
        | inl e ↦ absurd (ne ((eq_iff name "").0 e))
        | inr f ↦ f
      ]

lookup-other :
    (k j : String) (s : Settings) (m : Owned)
    → k ≢ j
    → lookup k m ≡ none
    → lookup k (m ++ ((j, s) ∷ [])) ≡ none
unfolding lookup
lookup-other k j s [] ne fresh = elim (Bool-cases (str_eq j k)) [
  | inl t ↦ absurd (ne (sym ((eq_iff j k).0 t)))
  | inr f ↦ rw f refl
]
lookup-other k j s ((i, x) ∷ m) ne fresh = elim (Bool-cases (str_eq i k)) [
  | inl t ↦ let bad : some x ≡ none = ground (arith, fresh, t) in cc
  | inr f ↦ rw f (lookup-other k j s m ne (ground (arith, fresh, f)))
]

-- No two sections have the same name.
abbrev pub IsDistinct : List Override → Type 0
IsDistinct [] = Unit
IsDistinct (o ∷ os) = All (λ (p : Override). p.name ≢ o.name) os × IsDistinct os

reason-read :
    (reason : String) (ls : List String) (current : String) (owned : Owned)
    → read_lines (reason_lines reason ++ ls) current owned ≡ read_lines ls current owned
unfolding reason_lines
reason-read empty ls current owned = refl
reason-read (str_cons c s) ls current owned =
    read-cons (append "; " (str_cons c s)) ls current owned
      (comment-read (str_cons c s) current owned)

section-read :
    (o : Override) (ls : List String) (current : String) (m : Owned)
    → lookup o.name m ≡ none
    → IsWritten o
    → read_lines (section_lines o ++ ls) current m ≡ read_lines ls o.name (m ++ (entry o ∷ []))
unfolding section_lines
section-read o ls current m fresh w =
    let rest =
      setting_line "pm.max_children" o.settings.max_children ∷ (spare_lines o.settings ++ ls) in
    read-cons "" _ current m (blank-read current m)
    ∙ ap (λ xs. read_lines xs current m) (append_assoc (reason_lines o.reason) _ ls)
    ∙ reason-read o.reason (append "[" (append o.name "]") ∷ rest) current m
    ∙ ceiling-read o.name w.named m fresh o ls current refl w

still_fresh :
    (o : Override) (os : List Override) (m : Owned)
    → All (λ (p : Override). p.name ≢ o.name) os
    → All (λ (p : Override). lookup p.name m ≡ none) os
    → All (λ (p : Override). lookup p.name (m ++ (entry o ∷ [])) ≡ none) os
still_fresh o [] m d f = tt
still_fresh o (p ∷ os) m d f =
    (lookup-other p.name o.name (written o.settings) m d.0 f.0, still_fresh o os m d.1 f.1)

sections-read :
    (os : List Override) (current : String) (m : Owned)
    → IsDistinct os
    → All IsWritten os
    → All (λ (p : Override). lookup p.name m ≡ none) os
    → (last : String) × (read_lines (sections_lines os) current m ≡ ok (last, m ++ map entry os))
unfolding sections_lines read_lines
sections-read [] current m d w f =
    (current, rw (blank-read current m) (ap (λ x. ok (current, x)) (sym (append-nil m))))
sections-read (o ∷ os) current m d w f =
    let (last, e) =
      sections-read os o.name (m ++ (entry o ∷ [])) d.1 w.1 (still_fresh o os m d.0 f.1) in
    (
      last,
      section-read o (sections_lines os) current m f.0 w.0
          ∙ e
          ∙ ap (λ x. ok (last, x)) (append_assoc m (entry o ∷ []) (map entry os)),
    )

ceilings-kept :
    (os : List Override) → All IsWritten os → check_ceilings (map entry os) ≡ ok (map entry os)
unfolding check_ceilings
ceilings-kept [] w = refl
ceilings-kept (o ∷ os) w =
    let kept : (written o.settings).max_children ≡ o.settings.max_children = ground arith in
    let some_worker : slt 0 o.settings.max_children ≡ true =
      ground (arith, slt_small 0 o.settings.max_children, w.0.some_worker, w.0.max_small) in
    rw (kept, some_worker, ceilings-kept os w.1) refl

names_fresh :
    (os : List Override) → All (λ (p : Override). lookup {V = Settings} p.name [] ≡ none) os
unfolding lookup
names_fresh [] = tt
names_fresh (o ∷ os) = (refl, names_fresh os)

header-skipped : (ls : List String) → read_lines (header_lines ++ ls) "" [] ≡ read_lines ls "" []
unfolding header_lines read_lines read_line trim_space drop_spaces trim_right is_space is_skipped
header-skipped ls = refl

header-ours : (ls : List String) → is_ours_lines (header_lines ++ ls) ≡ true
unfolding is_ours_lines header_lines has_prefix drop_spaces is_space
header-ours ls = refl

-- A file that Render wrote is this tool's, and parseOurs reads back of it every section, under its
-- name, in the order of the file, with the settings that were written: the ceiling, and the spares of a
-- dynamic pool. The names differ and are not empty, the ceilings are positive, and the counts are
-- counts that an int holds.
pub parse_ours-render :
    (sort_overrides : List Override → List Override) (os : List Override)
    → IsDistinct (sort_overrides os)
    → All IsWritten (sort_overrides os)
    → parse_ours (lines (render sort_overrides os)) ≡ ok (map entry (sort_overrides os))
unfolding parse_ours render
parse_ours-render sort_overrides os d w =
    let sorted = sort_overrides os in
    let (last, e) = sections-read sorted "" [] d w (names_fresh sorted) in
    rw (header-ours (sections_lines sorted), header-skipped (sections_lines sorted), e)
      (ceilings-kept sorted w)
