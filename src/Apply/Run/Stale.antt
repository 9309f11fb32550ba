-- ===== src/Apply/Run/Stale.antt =====
-- apply/apply.go: what staleSections finds in the file that Apply writes.
use Prim.Native.String.{[] as empty, ◌∷◌ as str_cons}
use text.Mathlib.Text.{◌==◌ as str_eq}
use text.Mathlib.TextEquality.{eq_iff}
use fpm_tune.Common.{
  ℕ, ◌≡◌, refl, ap, ◌∙◌, subst, String, true, false, List, [], ◌∷◌, All, All-append, All-map,
  Option, none, some, ok, err, Result, ◌>>=◌, arith, inl, inr, Bool-cases,
}
use fpm_tune.Common.Map.{lookup, string_eq}
use fpm_tune.Common.Text.{append, is_space, drop_spaces, trim_right, trim_space}
use fpm_tune.Common.Split.{IsOneLine}
use fpm_tune.Common.Word.{slt}
use fpm_tune.Common.Float.{Float}
use fpm_tune.Allocate.Compute.Lines.{PoolPlan, Reason}
use fpm_tune.Apply.Damping.{has}
use fpm_tune.Apply.Damping.Counted.{has-all}
use fpm_tune.Apply.Disk.{World, Outside, Paths}
use fpm_tune.Apply.Sections.{Override, Settings, override_of}
use fpm_tune.Apply.Write.{any_unsafe, unsafe_name, has_unsafe_char}
use fpm_tune.Apply.DropIn.{
  header_lines, setting_line, spare_lines, reason_lines, section_lines, sections_lines, render,
  header_name, changed_line, override_line, override_lines, override_set, Owned, DropIn, lines,
  ParseError, parse_ours,
}
use fpm_tune.Apply.DropIn.Lines.{
  IsKey, max_key, start_key, least_key, most_key, header-trim, header-name,
}
use fpm_tune.Apply.Run.{
  Calls, Job, read_file, render_text, set_of, stale_name, stale_lines, stale_sections,
}
use fpm_tune.Apply.Run.Text.{is_one_line, is_one_line_lem, IsPlain, split-render_text}

module _ (plan : List PoolPlan) where
  -- A line that names no pool which is gone.
  abbrev IsSilent : String → Type 0
  IsSilent l = stale_name plan (header_name (trim_space l)) ≡ []

  silent-stale_lines : (ls : List String) → All IsSilent ls → stale_lines plan ls ≡ []
  unfolding stale_lines
  silent-stale_lines [] h = refl
  silent-stale_lines (l ∷ ls) h = rw (h.0, silent-stale_lines ls h.1) refl

  setting-IsSilent : {key : String} → (n : ℕ) → IsKey key → IsSilent (setting_line key n)
  unfolding setting_line append trim_space drop_spaces trim_right is_space header_name stale_name
  setting-IsSilent n max_key = refl
  setting-IsSilent n start_key = refl
  setting-IsSilent n least_key = refl
  setting-IsSilent n most_key = refl

  header-IsSilent : (name : String) → has name plan ≡ true → IsSilent (append "[" (append name "]"))
  unfolding stale_name
  header-IsSilent name h = rw (header-trim name, header-name name, h) (ground arith)

  spares-IsSilent : (s : Settings) → All IsSilent (spare_lines s)
  unfolding spare_lines
  spares-IsSilent s = elim (Bool-cases (slt 0 s.start_servers)) [
    | inl t ↦ rw t (
      setting-IsSilent s.start_servers start_key,
      (setting-IsSilent s.min_spare least_key, (setting-IsSilent s.max_spare most_key, tt)),
    )
    | inr f ↦ rw f tt
  ]

  reason-IsSilent : (reason : String) → All IsSilent (reason_lines reason)
  unfolding reason_lines append trim_space drop_spaces trim_right is_space header_name stale_name
  reason-IsSilent empty = tt
  reason-IsSilent (str_cons c s) = (refl, tt)

  abbrev pub IsPlanned : Override → Type 0
  IsPlanned o = has o.name plan ≡ true

  section-IsSilent : (o : Override) → IsPlanned o → All IsSilent (section_lines o)
  unfolding section_lines trim_space drop_spaces trim_right header_name stale_name
  section-IsSilent o h = (
    refl,
    All-append _ (reason_lines o.reason) _ (reason-IsSilent o.reason) (
      header-IsSilent o.name h,
      (setting-IsSilent o.settings.max_children max_key, spares-IsSilent o.settings),
    ),
  )

  sections-IsSilent : (os : List Override) → All IsPlanned os → All IsSilent (sections_lines os)
  unfolding sections_lines trim_space drop_spaces trim_right header_name stale_name
  sections-IsSilent [] h = (refl, tt)
  sections-IsSilent (o ∷ os) h =
      All-append _ (section_lines o) _ (section-IsSilent o h.0) (sections-IsSilent os h.1)

  headers-IsSilent : All IsSilent header_lines
  unfolding header_lines trim_space drop_spaces trim_right is_space header_name stale_name
  headers-IsSilent = (refl, (refl, (refl, (refl, (refl, tt)))))

  render-IsSilent :
      (sort_overrides : List Override → List Override) (os : List Override)
      → All IsPlanned (sort_overrides os)
      → All IsSilent (render sort_overrides os)
  unfolding render
  render-IsSilent sort_overrides os h =
      All-append _ header_lines _ headers-IsSilent (sections-IsSilent (sort_overrides os) h)

-- The change of a name has that name.
abbrev IsNamed : String → Option PoolPlan → Type 0
IsNamed name none = Unit
IsNamed name (some c) = c.name ≡ name

changed_line-IsNamed :
    (name : String) (ls : List PoolPlan) (found : Option PoolPlan)
    → IsNamed name found
    → IsNamed name (changed_line name ls found)
unfolding changed_line
changed_line-IsNamed name [] found h = h
changed_line-IsNamed name (l ∷ ls) found h = elim (Bool-cases (str_eq l.name name)) [
  | inl t ↦ rw t (changed_line-IsNamed name ls (some l) ((eq_iff l.name name).0 t))
  | inr f ↦ rw f (changed_line-IsNamed name ls found h)
]

module _ (text : Reason → String) (one_line : (r : Reason) → IsOneLine (text r)) where
  -- A section of a pool that the plan has, with a reason in one line.
  record IsOf (plan : List PoolPlan) (o : Override) : Type 0 where
    planned : has o.name plan ≡ true
    reason : IsOneLine o.reason

  override_line-IsOf :
      (plan : List PoolPlan) (l : PoolPlan) (changed : Option PoolPlan) (held : Option Settings)
      → has l.name plan ≡ true
      → IsNamed l.name changed
      → All (IsOf plan) (override_line text l changed held)
  unfolding override_line override_of is_one_line
  override_line-IsOf plan l (some c) held h e =
      (record { planned = rw e h; reason = one_line c.reason }, tt)
  override_line-IsOf plan l none (some s) h e =
      (record { planned = h; reason = is_one_line_lem "unchanged" refl }, tt)
  override_line-IsOf plan l none none h e = tt

  override_lines-IsOf :
      (plan ls changes : List PoolPlan) (owned : Owned)
      → All (λ (l : PoolPlan). has l.name plan ≡ true) ls
      → All (IsOf plan) (override_lines text ls changes owned)
  unfolding override_lines
  override_lines-IsOf plan [] changes owned h = tt
  override_lines-IsOf plan (l ∷ ls) changes owned h =
      All-append _ (override_line text l (changed_line l.name changes none) (lookup l.name owned)) _
        (override_line-IsOf plan l _ _ h.0 (changed_line-IsNamed l.name changes none tt))
        (override_lines-IsOf plan ls changes owned h.1)

  override_set-IsOf :
      (plan changes : List PoolPlan) (file : DropIn) {pools : List Override}
      → override_set text plan changes file ≡ ok pools
      → All (IsOf plan) pools
  unfolding override_set
  override_set-IsOf plan changes file h = go (parse_ours file) h
    where
      go :
          (r : Result ParseError Owned) {pools : List Override}
          → (r >>= λ owned. ok (override_lines text plan changes owned)) ≡ ok pools
          → All (IsOf plan) pools
      go (err e) h = cc
      go (ok owned) {pools} h =
          let same : override_lines text plan changes owned ≡ pools = cc in
          subst (All (IsOf plan)) same (override_lines-IsOf plan plan changes owned (has-all plan))

safe_name-IsOneLine : (name : String) → has_unsafe_char name ≡ false → IsOneLine name
safe_name-IsOneLine empty h = tt
safe_name-IsOneLine (str_cons c s) h = (ground arith, safe_name-IsOneLine s (ground arith))

safe-IsOneLine :
    (pools : List Override)
    → any_unsafe pools ≡ false
    → All (λ (o : Override). IsOneLine o.name) pools
unfolding unsafe_name
safe-IsOneLine [] h = tt
safe-IsOneLine (o ∷ os) h =
    (safe_name-IsOneLine o.name (ground arith), safe-IsOneLine os (ground arith))

stale_sections_lines :
    (plan : List PoolPlan) (ls : List String)
    → All (IsSilent plan) ls
    → stale_sections plan (lines ls) ≡ []
unfolding stale_sections
stale_sections_lines plan ls h = silent-stale_lines plan ls h

set_of-IsOf :
    {fl : Float} (calls : Calls) (p : Paths) (o : Outside) (j : Job fl) (w : World)
    (one_line : (r : Reason) → IsOneLine (calls.text r)) {pools : List Override}
    → set_of calls p o j w ≡ ok pools
    → All (IsOf calls.text one_line j.plan) pools
unfolding set_of
set_of-IsOf calls p o j w one_line set =
    override_set-IsOf calls.text one_line j.plan j.changes _ set

-- The text that Apply writes, of an override set whose names writeDropIn takes, overrides no pool that
-- the plan does not have: staleSections finds nothing in it. The sentences of reasons have no newline,
-- and sorting keeps what holds of all elements.
pub stale_sections-render_text :
    {fl : Float} (calls : Calls) (p : Paths) (o : Outside) (j : Job fl) (w : World)
    {pools : List Override}
    → ((r : Reason) → IsOneLine (calls.text r))
    → ((P : Override → Type 0) (os : List Override) → All P os → All P (calls.sort_overrides os))
    → set_of calls p o j w ≡ ok pools
    → any_unsafe pools ≡ false
    → stale_sections j.plan (read_file false (some (render_text calls.sort_overrides pools))) ≡ []
stale_sections-render_text calls p o j w {pools} one_line sorted set safe =
    let ours = set_of-IsOf calls p o j w one_line set in
    let plain = sorted IsPlain pools (plain_of pools ours (safe-IsOneLine pools safe)) in
    let planned = sorted (IsPlanned j.plan) pools (All-map pools (λ o k. k.planned) ours) in
    ap (stale_sections j.plan) (split-render_text calls.sort_overrides pools plain)
    ∙ stale_sections_lines j.plan _ (render-IsSilent j.plan calls.sort_overrides pools planned)
  where
    plain_of :
        (os : List Override)
        → All (IsOf calls.text one_line j.plan) os
        → All (λ (o : Override). IsOneLine o.name) os
        → All IsPlain os
    plain_of [] h k = tt
    plain_of (o ∷ os) h k = (record { name = k.0; reason = h.0.reason }, plain_of os h.1 k.1)
