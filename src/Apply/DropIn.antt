-- ===== src/Apply/DropIn.antt =====
-- apply/apply.go: the text of the drop-in, Render, parseOurs and overrideSet. A file is the list of its
-- lines, as strings.Split gives them.
pub mod Lines
pub mod RoundTrip
use Prim.Native.Char.{Char, code}
use Prim.Native.String.{[] as empty, ◌∷◌ as str_cons}
use text.Mathlib.Text.{◌==◌ as str_eq}
use fpm_tune.Common.{
  ℕ, String, Bool, true, false, ◌&&◌, ◌||◌, List, [], ◌∷◌, ◌++◌, Option, none, some, Result, ok,
  err, ◌>>=◌, if◌then◌else◌, ◌==◌,
}
use fpm_tune.Common.Word.{slt, sle}
use fpm_tune.Common.Map.{lookup, insert, string_eq}
use fpm_tune.Common.Text.{
  append, trim_space, cut_at, before_last, print_int, parse_int, drop_spaces, is_empty,
}
use fpm_tune.Allocate.Compute.Lines.{PoolPlan, Reason}
use fpm_tune.Apply.Sections.{Settings, no_settings, Override, override_of}
use fpm_tune.Apply.Write.{generated_marker}

unfoldable pub header_lines : List String
header_lines =
    "; Written by fpm-tune. Do not edit." ∷ ";"
    ∷ "; This file overrides only the pm.* settings below; each pool's own"
    ∷ "; configuration is left alone. Delete it to return to the values" ∷ "; configured elsewhere."
    ∷ []

-- fmt.Fprintf of a key with a number.
unfoldable pub setting_line : (key : String) → ℕ → String
setting_line key n = append key (append " = " (print_int n))

unfoldable pub spare_lines : Settings → List String
unfolding setting_line
spare_lines s =
    if slt 0 s.start_servers
    then setting_line "pm.start_servers" s.start_servers
      ∷ setting_line "pm.min_spare_servers" s.min_spare
      ∷ setting_line "pm.max_spare_servers" s.max_spare
      ∷ []
    else []

unfoldable pub reason_lines : (reason : String) → List String
reason_lines reason = if is_empty reason then [] else append "; " reason ∷ []

unfoldable pub section_lines : Override → List String
unfolding spare_lines reason_lines setting_line
section_lines o =
    ""
    ∷ (reason_lines o.reason
        ++ (append "[" (append o.name "]")
            ∷ setting_line "pm.max_children" o.settings.max_children
            ∷ spare_lines o.settings))

-- The sections, and the empty text behind the last newline.
unfoldable pub sections_lines : List Override → List String
unfolding section_lines
sections_lines [] = "" ∷ []
sections_lines (o ∷ os) = section_lines o ++ sections_lines os

-- Render; `sort_overrides` is sort.Slice by name.
unfoldable pub render :
    (sort_overrides : List Override → List Override) → List Override → List String
unfolding header_lines sections_lines
render sort_overrides os = header_lines ++ sections_lines (sort_overrides os)

pub data ParseError : Type 0 where
  unreadable_drop_in foreign_drop_in : ParseError
  empty_header named_twice before_any_section not_a_setting bad_value unknown_key no_ceiling :
      ParseError

abbrev pub Owned : Type 0
Owned = List (String × Settings)

abbrev pub first_is : (mark : ℕ) → String → Bool
first_is mark empty = false
first_is mark (str_cons c s) = code c == mark

-- Blank lines, and comments with ';' or '#'.
unfoldable pub is_skipped : String → Bool
is_skipped line = is_empty line || (first_is 59 line || first_is 35 line)

-- The name of a section header, '[' before it and ']' behind it.
unfoldable pub header_name : String → Option String
header_name empty = none
header_name (str_cons c s) = if code c == 91 then before_last 93 s else none

unfoldable pub start_section : String → Owned → Option Settings → Result ParseError (String × Owned)
start_section name owned (some seen) = err named_twice
start_section name owned none =
    if str_eq name "" then err empty_header else ok (name, insert name no_settings owned)

unfoldable pub with_setting : (key : String) → ℕ → Settings → Option Settings
with_setting key n s =
    if str_eq key "pm.max_children"
    then some (record s { max_children = n })
    else (if str_eq key "pm.start_servers"
        then some (record s { start_servers = n })
        else (if str_eq key "pm.min_spare_servers"
            then some (record s { min_spare = n })
            else (if str_eq key "pm.max_spare_servers"
                then some (record s { max_spare = n })
                else none)))

-- The settings of a section that the loop is in; it has an entry.
abbrev pub settings_or_none : Option Settings → Settings
settings_or_none none = no_settings
settings_or_none (some s) = s

unfoldable pub store_setting :
    (current : String) → Owned → Option Settings → Result ParseError (String × Owned)
store_setting current owned none = err unknown_key
store_setting current owned (some s) = ok (current, insert current s owned)

unfoldable pub read_number :
    (current key : String) → Owned → Option ℕ → Result ParseError (String × Owned)
unfolding store_setting with_setting
read_number current key owned none = err bad_value
read_number current key owned (some n) =
    if slt n 0
    then err bad_value
    else store_setting current owned (with_setting key n (settings_or_none (lookup current owned)))

unfoldable pub read_setting :
    (current : String) → Owned → Option (String × String) → Result ParseError (String × Owned)
unfolding read_number
read_setting current owned none = err not_a_setting
read_setting current owned (some kv) =
    read_number current (trim_space kv.0) owned (parse_int (trim_space kv.1))

unfoldable pub read_content :
    (line : String)
    → (current : String) → Owned
    → Option String
    → Result ParseError (String × Owned)
unfolding start_section read_setting
read_content line current owned (some name) = start_section name owned (lookup name owned)
read_content line current owned none =
    if str_eq current ""
    then err before_any_section
    else read_setting current owned (cut_at 61 line)

-- One line of the loop, with the section that it is in, "" before the first.
unfoldable pub read_line : String → (current : String) → Owned → Result ParseError (String × Owned)
unfolding is_skipped header_name read_content
read_line line current owned =
    let l = trim_space line in
    if is_skipped l then ok (current, owned) else read_content l current owned (header_name l)

unfoldable pub read_lines :
    List String → (current : String) → Owned → Result ParseError (String × Owned)
unfolding read_line
read_lines [] current owned = ok (current, owned)
read_lines (l ∷ ls) current owned = read_line l current owned >>= λ r. read_lines ls r.0 r.1

unfoldable pub check_ceilings : Owned → Result ParseError Owned
check_ceilings [] = ok []
check_ceilings (o ∷ os) =
    let rest = check_ceilings os in
    if sle o.1.max_children 0 then err no_ceiling else rest >>= λ os'. ok (o ∷ os')

-- os.ReadFile of the drop-in.
pub data DropIn : Type 0 where
  missing unreadable : DropIn
  lines : List String → DropIn

unfoldable pub has_prefix : (mark text : String) → Bool
has_prefix empty text = true
has_prefix (str_cons c mark) empty = false
has_prefix (str_cons c mark) (str_cons d text) = code c == code d && has_prefix mark text

-- isOurs: the trimmed body begins with the marker, which has no newline and ends in no space.
unfoldable pub is_ours_lines : List String → Bool
unfolding has_prefix
is_ours_lines [] = false
is_ours_lines (l ∷ ls) =
    let rest = is_ours_lines ls in
    let text = drop_spaces l in if is_empty text then rest else has_prefix generated_marker text

unfoldable pub parse_ours : DropIn → Result ParseError Owned
unfolding read_lines check_ceilings is_ours_lines
parse_ours missing = ok []
parse_ours unreadable = err unreadable_drop_in
parse_ours (lines ls) =
    let parsed = read_lines ls "" [] >>= λ r. check_ceilings r.1 in
    if is_ours_lines ls then parsed else err foreign_drop_in

unfoldable pub changed_line : String → List PoolPlan → Option PoolPlan → Option PoolPlan
changed_line name [] found = found
changed_line name (l ∷ ls) found =
    changed_line name ls (if str_eq l.name name then some l else found)

module _ (text : Reason → String) where
  -- One line of the plan: changed now, held by the drop-in, or not this tool's.
  unfoldable pub override_line : PoolPlan → Option PoolPlan → Option Settings → List Override
  unfolding override_of
  override_line l (some changed) held = override_of text changed ∷ []
  override_line l none (some s) = record { name = l.name; reason = "unchanged"; settings = s } ∷ []
  override_line l none none = []

  unfoldable pub override_lines : List PoolPlan → (changes : List PoolPlan) → Owned → List Override
  unfolding override_line changed_line
  override_lines [] changes owned = []
  override_lines (l ∷ ls) changes owned =
      override_line l (changed_line l.name changes none) (lookup l.name owned)
      ++ override_lines ls changes owned

  unfoldable pub override_set :
      (plan changes : List PoolPlan) → DropIn → Result ParseError (List Override)
  unfolding override_lines parse_ours
  override_set plan changes file =
      parse_ours file >>= λ owned. ok (override_lines plan changes owned)
