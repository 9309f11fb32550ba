-- ===== src/Common/Split.antt =====
-- strings.Split of a text at its newlines, and a text of lines.
use Prim.Native.Char.{Char, code}
use Prim.Native.String.{String, [] as empty, ◌∷◌ as str_cons}
use mathlib.Core.Path.{◌≡◌, refl}
use mathlib.Core.Bool.{false}
use mathlib.Core.List.{List, [], ◌∷◌}
use native.Mathlib.Omega.{arith}
use fpm_tune.Common.Tests.{◌==◌, if◌then◌else◌}
use fpm_tune.Common.Lists.{All}
use fpm_tune.Common.Text.{append, is_space, HasNoSpace}

unfoldable pub put_first : Char → List String → List String
put_first c [] = str_cons c empty ∷ []
put_first c (l ∷ ls) = str_cons c l ∷ ls

unfoldable pub split_lines : String → List String
unfolding put_first
split_lines empty = empty ∷ []
split_lines (str_cons c s) =
    let rest = split_lines s in if code c == 10 then empty ∷ rest else put_first c rest

-- The lines with a newline between each two.
unfoldable pub join_lines : List String → String
join_lines [] = empty
join_lines (l ∷ []) = l
join_lines (l ∷ m ∷ ls) = append l (str_cons "\n" (join_lines (m ∷ ls)))

-- A text without a newline.
abbrev pub IsOneLine : String → Type 0
IsOneLine empty = Unit
IsOneLine (str_cons c s) = ((code c == 10) ≡ false) × IsOneLine s

pub append-IsOneLine : (s t : String) → IsOneLine s → IsOneLine t → IsOneLine (append s t)
unfolding append
append-IsOneLine empty t h k = k
append-IsOneLine (str_cons c s) t h k = (h.0, append-IsOneLine s t h.1 k)

pub HasNoSpace-IsOneLine : (s : String) → HasNoSpace s → IsOneLine s
unfolding is_space
HasNoSpace-IsOneLine empty h = tt
HasNoSpace-IsOneLine (str_cons c s) h = (ground (arith, h.0), HasNoSpace-IsOneLine s h.1)

split_last : (s : String) → IsOneLine s → split_lines s ≡ s ∷ []
unfolding split_lines
split_last empty h = refl
split_last (str_cons c s) h = rw (h.0, split_last s h.1) refl

split_first :
    (s t : String) → IsOneLine s → split_lines (append s (str_cons "\n" t)) ≡ s ∷ split_lines t
unfolding split_lines append
split_first empty t h = refl
split_first (str_cons c s) t h = rw (h.0, split_first s t h.1) refl

-- Splitting a text of lines gives the lines back.
pub split-join :
    (l : String) (ls : List String)
    → All IsOneLine (l ∷ ls)
    → split_lines (join_lines (l ∷ ls)) ≡ l ∷ ls
unfolding join_lines
split-join l [] h = split_last l h.0
split-join l (m ∷ ls) h = rw (split_first l (join_lines (m ∷ ls)) h.0, split-join m ls h.1) refl
