-- ===== src/Plan/Names.antt =====
-- plan/plan.go: ambiguousNames and mastersOf, the names that two masters share.
pub mod Shared
use text.Mathlib.Text.{◌==◌ as str_eq}
use fpm_tune.Common.{
  String, Bool, true, false, List, [], ◌∷◌, map, Option, none, some, if◌then◌else◌,
}
use fpm_tune.Common.Float.{Float}
use fpm_tune.Common.Map.{lookup, insert, string_eq}
use fpm_tune.Plan.Types.{PoolView}

-- A set is a map to true.
abbrev pub Names : Type 0
Names = List (String × Bool)

unfoldable pub is_true : Option Bool → Bool
is_true none = false
is_true (some b) = b

unfoldable pub has_name : String → Names → Bool
unfolding is_true
has_name name names = is_true (lookup name names)

module _ {fl : Float} where
  -- One view: the first path of each name, and the names with another.
  unfoldable pub note_name :
      PoolView fl → Option String → List (String × String) × Names → List (String × String) × Names
  note_name v none (seen, dup) = (insert v.name v.config_path seen, dup)
  note_name v (some first) (seen, dup) =
      if str_eq first v.config_path
      then (insert v.name v.config_path seen, dup)
      else (seen, insert v.name true dup)

  unfoldable pub names_from :
      List (PoolView fl) → List (String × String) × Names → List (String × String) × Names
  unfolding note_name
  names_from [] r = r
  names_from (v ∷ vs) r = names_from vs (note_name v (lookup v.name r.0) r)

  unfoldable pub ambiguous_names : List (PoolView fl) → Names
  unfolding names_from
  ambiguous_names views = (names_from views ([], [])).1

  unfoldable pub masters_from :
      Names → List (PoolView fl) → List (String × String) → List (String × String)
  unfolding has_name
  masters_from dup [] masters = masters
  masters_from dup (v ∷ vs) masters =
      masters_from dup vs
        (if has_name v.name dup then masters else insert v.name v.config_path masters)

  unfoldable pub masters_of : List (PoolView fl) → List (String × String)
  unfolding masters_from ambiguous_names
  masters_of views = masters_from (ambiguous_names views) views []

unfoldable pub names_of : Names → List String
names_of names = map (λ n. n.0) names
