-- ===== src/Apply/DropIn/Lines.antt =====
-- apply/apply.go: what parseOurs makes of each line that Render writes.
use Prim.Native.Char.{Char}
use Prim.Native.String.{[] as empty, ◌∷◌ as str_cons}
use text.Mathlib.Text.{◌==◌ as str_eq}
use text.Mathlib.TextEquality.{eq_iff}
use fpm_tune.Common.{
  ℕ, ◌<◌, ◌^◌, ◌≡◌, ◌≢◌, refl, ap, String, false, List, [], ◌∷◌, ◌++◌, none, some, ok, arith, inl,
  inr, Bool-cases,
}
use fpm_tune.Common.Word.{slt, slt_small}
use fpm_tune.Common.Map.{lookup, insert, string_eq}
use fpm_tune.Common.Text.{
  append, is_space, drop_spaces, trim_right, trim_space, cut_at, cut_after, HasNoSpace,
  trim_right-HasNoSpace, trim_right-append, before_last-append, IsPrinted, print_int-IsPrinted,
}
use fpm_tune.Apply.Sections.{Settings}
use fpm_tune.Apply.DropIn.{
  setting_line, Owned, is_skipped, header_name, start_section, with_setting, settings_or_none,
  store_setting, read_number, read_setting, read_content, read_line, read_lines,
}

-- The four keys of Render.
pub data IsKey : String → Type 0 where
  max_key : IsKey "pm.max_children"
  start_key : IsKey "pm.start_servers"
  least_key : IsKey "pm.min_spare_servers"
  most_key : IsKey "pm.max_spare_servers"

-- A setting line, trimmed, is itself, and is cut into its key and its number.
setting-trim :
    (key : String) (c : Char) (t : String)
    → IsKey key
    → HasNoSpace (str_cons c t)
    → trim_space (append key (append " = " (str_cons c t)))
      ≡ append key (append " = " (str_cons c t))
unfolding trim_space drop_spaces append is_space
setting-trim key c t max_key h = trim_right-append "pm.max_children = " c t h
setting-trim key c t start_key h = trim_right-append "pm.start_servers = " c t h
setting-trim key c t least_key h = trim_right-append "pm.min_spare_servers = " c t h
setting-trim key c t most_key h = trim_right-append "pm.max_spare_servers = " c t h

value-trim :
    (c : Char) (t : String)
    → HasNoSpace (str_cons c t)
    → trim_space (str_cons " " (str_cons c t)) ≡ str_cons c t
unfolding trim_space drop_spaces is_space
value-trim c t h = rw h.0 (trim_right-HasNoSpace (str_cons c t) h)

-- What the loop makes of a trimmed setting line.
content-setting :
    (key : String) (n : ℕ) (c : Char) (t current : String) (owned : Owned)
    → IsKey key
    → current ≢ ""
    → slt n 0 ≡ false
    → IsPrinted n c t
    → read_content
        (append key (append " = " (str_cons c t)))
        current
        owned
        (header_name (append key (append " = " (str_cons c t))))
      ≡ store_setting current owned (with_setting key n (settings_or_none (lookup current owned)))
unfolding read_content header_name append read_setting read_number cut_at cut_after trim_space
    drop_spaces trim_right is_space
content-setting key n c t current owned k ne pos p = go key k
  where
    inside : str_eq current "" ≡ false
    inside = elim (Bool-cases (str_eq current "")) [
      | inl e ↦ absurd (ne ((eq_iff current "").0 e))
      | inr f ↦ f
    ]

    go :
        (key : String)
        → IsKey key
        → read_content
            (append key (append " = " (str_cons c t)))
            current
            owned
            (header_name (append key (append " = " (str_cons c t))))
          ≡ store_setting current owned
              (with_setting key n (settings_or_none (lookup current owned)))
    go key max_key = rw (inside, value-trim c t p.solid, p.value, pos) refl
    go key start_key = rw (inside, value-trim c t p.solid, p.value, pos) refl
    go key least_key = rw (inside, value-trim c t p.solid, p.value, pos) refl
    go key most_key = rw (inside, value-trim c t p.solid, p.value, pos) refl

key-kept :
    {key : String}
    → IsKey key
    → (c : Char) (t : String) → is_skipped (append key (append " = " (str_cons c t))) ≡ false
unfolding is_skipped append
key-kept max_key c t = refl
key-kept start_key c t = refl
key-kept least_key c t = refl
key-kept most_key c t = refl

pub header-trim :
    (name : String) → trim_space (append "[" (append name "]")) ≡ append "[" (append name "]")
unfolding append trim_space drop_spaces is_space
header-trim name = trim_right-append (str_cons "[" name) "]" empty (refl, tt)

pub header-name : (name : String) → header_name (append "[" (append name "]")) ≡ some name
unfolding append header_name
header-name name = before_last-append name "]" 93 refl

header-kept : (name : String) → is_skipped (append "[" (append name "]")) ≡ false
unfolding append is_skipped
header-kept name = refl

pub setting-read :
    (key : String) (n : ℕ) (current : String) (owned : Owned)
    → IsKey key
    → current ≢ ""
    → n < 2 ^ 63
    → read_line (setting_line key n) current owned
      ≡ store_setting current owned (with_setting key n (settings_or_none (lookup current owned)))
unfolding read_line setting_line
setting-read key n current owned k ne small =
    let (c, t, p) = print_int-IsPrinted n small in
    let pos : slt n 0 ≡ false = ground (arith, slt_small n 0) in
    rw (p.same, setting-trim key c t k p.solid, key-kept k c t)
      (content-setting key n c t current owned k ne pos p)

pub comment-read :
    (s current : String) (owned : Owned)
    → read_line (append "; " s) current owned ≡ ok (current, owned)
unfolding read_line trim_space drop_spaces trim_right is_space is_skipped append
comment-read s current owned = refl

pub header-read :
    (name current : String) (owned : Owned)
    → read_line (append "[" (append name "]")) current owned
      ≡ start_section name owned (lookup name owned)
unfolding read_line read_content
header-read name current owned = rw (header-trim name, header-kept name, header-name name) refl

module _ (k : String) where
  pub insert-append :
      (v : Settings) (m : Owned) → lookup k m ≡ none → insert k v m ≡ m ++ ((k, v) ∷ [])
  unfolding insert lookup
  insert-append v [] fresh = refl
  insert-append v ((j, w) ∷ m) fresh = elim (Bool-cases (str_eq j k)) [
    | inl t ↦ let bad : some w ≡ none = ground (arith, fresh, t) in cc
    | inr f ↦ rw f (ap (◌∷◌ (j, w)) (insert-append v m (ground (arith, fresh, f))))
  ]

  pub insert-last :
      (v w : Settings) (m : Owned)
      → lookup k m ≡ none
      → insert k v (m ++ ((k, w) ∷ [])) ≡ m ++ ((k, v) ∷ [])
  unfolding insert lookup
  insert-last v w [] fresh = rw ((eq_iff k k).1 refl) refl
  insert-last v w ((j, x) ∷ m) fresh = elim (Bool-cases (str_eq j k)) [
    | inl t ↦ let bad : some x ≡ none = ground (arith, fresh, t) in cc
    | inr f ↦ rw f (ap (◌∷◌ (j, x)) (insert-last v w m (ground (arith, fresh, f))))
  ]

  pub lookup-last :
      (w : Settings) (m : Owned) → lookup k m ≡ none → lookup k (m ++ ((k, w) ∷ [])) ≡ some w
  unfolding lookup
  lookup-last w [] fresh = rw ((eq_iff k k).1 refl) refl
  lookup-last w ((j, x) ∷ m) fresh = elim (Bool-cases (str_eq j k)) [
    | inl t ↦ let bad : some x ≡ none = ground (arith, fresh, t) in cc
    | inr f ↦ rw f (lookup-last w m (ground (arith, fresh, f)))
  ]

pub blank-read :
    (current : String) (owned : Owned) → read_line "" current owned ≡ ok (current, owned)
unfolding read_line trim_space drop_spaces trim_right is_skipped
blank-read current owned = refl

-- A line whose reading is known.
pub read-cons :
    (l : String) (ls : List String) (current : String) (owned : Owned) {r : String × Owned}
    → read_line l current owned ≡ ok r
    → read_lines (l ∷ ls) current owned ≡ read_lines ls r.0 r.1
unfolding read_lines
read-cons l ls current owned e = rw e refl
