-- ===== src/Apply/Run/Text.antt =====
-- apply/apply.go: the drop-in as a text, which Render writes and parseOurs splits at its newlines.
use Prim.Native.Char.{code}
use Prim.Native.String.{[] as empty, ◌∷◌ as str_cons}
use fpm_tune.Common.{
  ℕ, ◌≡◌, refl, ap, String, Bool, true, false, ◌&&◌, List, [], ◌∷◌, map, All, All-append, some, ok,
  arith, inl, inr, not, Bool-cases, ◌==◌,
}
use fpm_tune.Common.Text.{append, print_int, print_int-HasNoSpace}
use fpm_tune.Common.Split.{IsOneLine, append-IsOneLine, HasNoSpace-IsOneLine, split-join}
use fpm_tune.Common.Word.{slt}
use fpm_tune.Apply.Sections.{Override, Settings}
use fpm_tune.Apply.DropIn.{
  header_lines, setting_line, spare_lines, reason_lines, section_lines, sections_lines, render,
  lines, parse_ours,
}
use fpm_tune.Apply.DropIn.Lines.{IsKey, max_key, start_key, least_key, most_key}
use fpm_tune.Apply.DropIn.RoundTrip.{IsWritten, IsDistinct, entry, parse_ours-render}
use fpm_tune.Apply.Run.{read_file, render_text}

unfoldable pub is_one_line : String → Bool
is_one_line empty = true
is_one_line (str_cons c s) = not (code c == 10) && is_one_line s

pub is_one_line_lem : (s : String) → is_one_line s ≡ true → IsOneLine s
unfolding is_one_line
is_one_line_lem empty h = tt
is_one_line_lem (str_cons c s) h = (ground arith, is_one_line_lem s (ground arith))

-- A section whose name and reason have no newline.
pub record IsPlain (o : Override) : Type 0 where
  pub name : IsOneLine o.name
  pub reason : IsOneLine o.reason

setting-IsOneLine : (key : String) (n : ℕ) → IsKey key → IsOneLine (setting_line key n)
unfolding setting_line is_one_line
setting-IsOneLine key n k = append-IsOneLine key _ (keyed k) (
    append-IsOneLine " = " (print_int n) (is_one_line_lem " = " refl)
      (HasNoSpace-IsOneLine (print_int n) (print_int-HasNoSpace n)))
  where
    keyed : {key : String} → IsKey key → IsOneLine key
    keyed max_key = is_one_line_lem "pm.max_children" refl
    keyed start_key = is_one_line_lem "pm.start_servers" refl
    keyed least_key = is_one_line_lem "pm.min_spare_servers" refl
    keyed most_key = is_one_line_lem "pm.max_spare_servers" refl

spares-IsOneLine : (s : Settings) → All IsOneLine (spare_lines s)
unfolding spare_lines
spares-IsOneLine s = elim (Bool-cases (slt 0 s.start_servers)) [
  | inl t ↦ rw t (
    setting-IsOneLine "pm.start_servers" s.start_servers start_key,
    (
      setting-IsOneLine "pm.min_spare_servers" s.min_spare least_key,
      (setting-IsOneLine "pm.max_spare_servers" s.max_spare most_key, tt),
    ),
  )
  | inr f ↦ rw f tt
]

reason-IsOneLine : (reason : String) → IsOneLine reason → All IsOneLine (reason_lines reason)
unfolding reason_lines is_one_line
reason-IsOneLine empty r = tt
reason-IsOneLine (str_cons c s) r =
    (append-IsOneLine "; " (str_cons c s) (is_one_line_lem "; " refl) r, tt)

section-IsOneLine : (o : Override) → IsPlain o → All IsOneLine (section_lines o)
unfolding section_lines is_one_line
section-IsOneLine o h = (
  tt,
  All-append _ (reason_lines o.reason) _ (reason-IsOneLine o.reason h.reason) (
    append-IsOneLine "[" (append o.name "]") (is_one_line_lem "[" refl)
        (append-IsOneLine o.name "]" h.name (is_one_line_lem "]" refl)),
    (
      setting-IsOneLine "pm.max_children" o.settings.max_children max_key,
      spares-IsOneLine o.settings,
    ),
  ),
)

sections-IsOneLine : (os : List Override) → All IsPlain os → All IsOneLine (sections_lines os)
unfolding sections_lines
sections-IsOneLine [] h = (tt, tt)
sections-IsOneLine (o ∷ os) h =
    All-append _ (section_lines o) (sections_lines os) (section-IsOneLine o h.0)
      (sections-IsOneLine os h.1)

all_one_line : List String → Bool
unfolding is_one_line
all_one_line [] = true
all_one_line (l ∷ ls) = is_one_line l && all_one_line ls

all_one_line_lem : (ls : List String) → all_one_line ls ≡ true → All IsOneLine ls
unfolding all_one_line
all_one_line_lem [] h = tt
all_one_line_lem (l ∷ ls) h = (is_one_line_lem l (ground arith), all_one_line_lem ls (ground arith))

render-IsOneLine :
    (sort_overrides : List Override → List Override) (os : List Override)
    → All IsPlain (sort_overrides os)
    → All IsOneLine (render sort_overrides os)
unfolding render header_lines all_one_line
render-IsOneLine sort_overrides os h =
    All-append _ header_lines (sections_lines (sort_overrides os))
      (all_one_line_lem header_lines refl) (sections-IsOneLine (sort_overrides os) h)

-- Split at its newlines, the text is the lines that Render printed.
pub split-render_text :
    (sort_overrides : List Override → List Override) (os : List Override)
    → All IsPlain (sort_overrides os)
    → read_file false (some (render_text sort_overrides os)) ≡ lines (render sort_overrides os)
unfolding read_file render_text render header_lines
split-render_text sort_overrides os h =
    ap lines (split-join _ _ (render-IsOneLine sort_overrides os h))

-- Of the text that Render wrote, parseOurs reads every section back under its name, in the order of the
-- file, with the settings that were written: the ceiling, and the spares of a dynamic pool. The names
-- differ, are not empty and have no newline, nor have the reasons; the ceilings are positive, and the
-- counts are counts that an int holds.
pub parse_ours-render_text :
    (sort_overrides : List Override → List Override) (os : List Override)
    → IsDistinct (sort_overrides os)
    → All IsWritten (sort_overrides os)
    → All IsPlain (sort_overrides os)
    → parse_ours (read_file false (some (render_text sort_overrides os)))
      ≡ ok (map entry (sort_overrides os))
parse_ours-render_text sort_overrides os d w h =
    rw (split-render_text sort_overrides os h) (parse_ours-render sort_overrides os d w)
