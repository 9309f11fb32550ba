-- ===== src/State/Store.antt =====
-- state/state.go: the pools by master and name, and what becomes of those that are gone.
pub mod Adopt
pub mod Forget
mod Tests
use text.Mathlib.Text.{◌==◌ as str_eq}
use Prim.Native.String.{◌++◌ as str_append}
use fpm_tune.Common.{
  ℕ, String, Bool, true, false, not, ◌&&◌, ◌||◌, List, [], ◌∷◌, Option, none, some, if◌then◌else◌,
}
use fpm_tune.Common.Word.{add64, slt}
use fpm_tune.Common.Float.{Float}
use fpm_tune.Common.Map.{lookup, insert, remove, string_eq}
use fpm_tune.State.Types.{PoolState, State, MasterRef, new_pool}

unfoldable pub pool_key : (master pool : String) → String
pool_key master pool = if str_eq master "" then pool else str_append master (str_append "::" pool)

abbrev pub forget_after_missed_rounds : ℕ
forget_after_missed_rounds = 5

unfoldable pub known : MasterRef → Bool
known m =
    not (str_eq m.binary "") && (not (str_eq m.config_path "") && not (str_eq m.drop_in_dir ""))

unfoldable pub is_kept : String → List String → Bool
is_kept name [] = false
is_kept name (n ∷ ns) = str_eq n name || is_kept name ns

module _ {fl : Float} where
  unfoldable pub remember_master : (binary config_path drop_in_dir : String) → State fl → State fl
  remember_master binary config_path drop_in_dir s =
      if str_eq binary "" || (str_eq config_path "" || str_eq drop_in_dir "") then s else record s {
        master = record { binary = binary; config_path = config_path; drop_in_dir = drop_in_dir };
      }

  unfoldable pub lookup_scoped : (master pool : String) → State fl → Option (PoolState fl)
  lookup_scoped master pool s = lookup (pool_key master pool) s.pools

  -- A record from before pools carried a master.
  unfoldable pub unscoped : Option (PoolState fl) → Option (PoolState fl)
  unscoped none = none
  unscoped (some ps) = if str_eq ps.master_config "" then some ps else none

  unfoldable pub legacy : (pool : String) → State fl → Option (PoolState fl)
  legacy pool s = unscoped (lookup pool s.pools)

  unfoldable pub lookup_pool : (master pool : String) → State fl → Option (PoolState fl)
  lookup_pool master pool s = elim (lookup_scoped master pool s) [
    | some ps ↦ some ps
    | none ↦ legacy pool s
  ]

  -- The record of the key, the adopted one of that name, or a new one; with the store that holds it.
  unfoldable pub choose :
      (master pool : String)
      → (at : ℕ) → State fl
      → (found old : Option (PoolState fl)) → State fl × PoolState fl
  choose master pool at s (some ps) old = (s, ps)
  choose master pool at s none (some ps) =
      let adopted = record ps { master_config = master } in
      (record s { pools = insert (pool_key master pool) adopted (remove pool s.pools) }, adopted)
  choose master pool at s none none =
      let ps = new_pool fl pool master at in
      (record s { pools = insert (pool_key master pool) ps s.pools }, ps)

  unfoldable pub for_writing :
      (master pool : String) → (at : ℕ) → State fl → State fl × PoolState fl
  for_writing master pool at s =
      choose master pool at s (lookup_scoped master pool s)
        (if str_eq (pool_key master pool) pool then none else legacy pool s)

  -- The caller's changes to a record, which it shares with the store.
  unfoldable pub write_back : (master pool : String) → PoolState fl → State fl → State fl
  write_back master pool ps s = record s { pools = insert (pool_key master pool) ps s.pools }

  unfoldable pub record_applied :
      (master pool : String) → (max_children at : ℕ) → State fl → State fl
  record_applied master pool max_children at s =
      let (s', ps) = for_writing master pool at s in
      write_back master pool
        (record ps { last_applied_max_children = max_children; last_applied_at = some at }) s'

  -- One round of absence; no record where it is dropped.
  unfoldable pub missed : PoolState fl → Option (PoolState fl)
  missed ps =
      let rounds = add64 ps.missed_rounds 1 in
      if slt rounds forget_after_missed_rounds
      then some (record ps { missed_rounds = rounds })
      else none

  -- What Forget makes of one record.
  unfoldable pub forget_one :
      (current : List String) → (scope : String) → PoolState fl → Option (PoolState fl)
  forget_one current scope ps =
      if not (str_eq scope "") && not (str_eq ps.master_config scope)
      then some ps
      else (if is_kept ps.pool current then some (record ps { missed_rounds = 0 }) else missed ps)

  -- The records that stay, and the keys of the others.
  unfoldable pub keep_or_drop :
      String
      → Option (PoolState fl)
      → List (String × PoolState fl) × List String
      → List (String × PoolState fl) × List String
  keep_or_drop key (some ps) (kept, dropped) = ((key, ps) ∷ kept, dropped)
  keep_or_drop key none (kept, dropped) = (kept, key ∷ dropped)

  unfoldable pub forget_pools :
      (current : List String)
      → (scope : String) → List (String × PoolState fl)
      → List (String × PoolState fl) × List String
  forget_pools current scope [] = ([], [])
  forget_pools current scope ((key, ps) ∷ rest) =
      keep_or_drop key (forget_one current scope ps) (forget_pools current scope rest)

  -- sort.Strings
  module _ (sort_strings : List String → List String) where
    unfoldable pub forget :
        (current : List String) → (scope : String) → State fl → State fl × List String
    forget current scope s =
        let (kept, dropped) = forget_pools current scope s.pools in
        (record s { pools = kept }, sort_strings dropped)

    unfoldable pub names : State fl → List String
    names s = sort_strings (keys s.pools)
      where
        keys : List (String × PoolState fl) → List String
        keys [] = []
        keys ((k, v) ∷ m) = k ∷ keys m
