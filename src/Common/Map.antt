-- ===== src/Common/Map.antt =====
-- Go's maps as association lists, over keys with a decided equality.
use Prim.Native.Nat.{ℕ}
use Prim.Native.String.{String}
use text.Mathlib.Text.{◌==◌ as str_eq}
use text.Mathlib.TextEquality.{eq_iff}
use mathlib.Core.Path.{◌≡◌, refl, subst}
use mathlib.Core.Logic.{◌↔◌, inl, inr}
use mathlib.Core.Bool.{Bool, true}
use mathlib.Core.Option.{Option, none, some}
use mathlib.Core.List.{List, [], ◌∷◌}
use native.Mathlib.Omega.{arith}
use fpm_tune.Common.Tests.{if◌then◌else◌, ◌==◌, Bool-cases}
use fpm_tune.Common.Lists.{All}

pub record Eq {ℓ} (A : Type ℓ) : Type ℓ where
  pub beq : A → A → Bool
  pub beq_iff : (a b : A) → (beq a b ≡ true) ↔ (a ≡ b)

pub nat_iff : (a b : ℕ) → (a == b ≡ true) ↔ (a ≡ b)
nat_iff a b = ground arith

instance abbrev pub nat_eq : Eq ℕ
nat_eq = record { beq = λ a b. a == b; beq_iff = nat_iff }

instance abbrev pub string_eq : Eq String
string_eq = record { beq = str_eq; beq_iff = eq_iff }

module _ {ℓ κ} {K : Type ℓ} {V : Type κ} ⦃e : Eq K⦄ where
  unfoldable pub lookup : K → List (K × V) → Option V
  lookup k [] = none
  lookup k ((j, v) ∷ m) = if e.beq j k then some v else lookup k m

  unfoldable pub insert : K → V → List (K × V) → List (K × V)
  insert k v [] = (k, v) ∷ []
  insert k v ((j, w) ∷ m) = if e.beq j k then (k, v) ∷ m else (j, w) ∷ insert k v m

  -- delete(m, k)
  unfoldable pub remove : K → List (K × V) → List (K × V)
  remove k [] = []
  remove k ((j, w) ∷ m) = let rest = remove k m in if e.beq j k then rest else (j, w) ∷ rest

  pub lookup-insert :
      (k j : K) (v : V) (m : List (K × V))
      → lookup j (insert k v m) ≡ (if e.beq k j then some v else lookup j m)
  unfolding lookup insert
  lookup-insert k j v [] = refl
  lookup-insert k j v ((i, w) ∷ m) =
      ground (arith, e.beq_iff k j, e.beq_iff i k, e.beq_iff i j, lookup-insert k j v m)

  pub lookup-remove :
      (k j : K) (m : List (K × V))
      → lookup j (remove k m) ≡ (if e.beq k j then none else lookup j m)
  unfolding lookup remove
  lookup-remove k j [] = ground arith
  lookup-remove k j ((i, w) ∷ m) =
      ground (arith, e.beq_iff k j, e.beq_iff i k, e.beq_iff i j, lookup-remove k j m)

  -- What holds of all values holds of the one that is found, and stays so when one more is put in.
  pub lookup-All {ι} :
      (P : V → Type ι) (k : K) (m : List (K × V)) {v : V}
      → All (λ kv. P kv.1) m
      → lookup k m ≡ some v
      → P v
  unfolding lookup
  lookup-All P k [] h found = cc
  lookup-All P k ((j, w) ∷ m) {v} h found = elim (Bool-cases (e.beq j k)) [
    | inl t ↦ let same : w ≡ v = ground arith in subst P same h.0
    | inr f ↦ lookup-All P k m h.1 (ground arith)
  ]

  pub insert-All {ι} :
      (P : V → Type ι) (k : K) (v : V) (m : List (K × V))
      → P v
      → All (λ kv. P kv.1) m
      → All (λ kv. P kv.1) (insert k v m)
  unfolding insert
  insert-All P k v [] p h = (p, tt)
  insert-All P k v ((j, w) ∷ m) p h = elim (Bool-cases (e.beq j k)) [
    | inl t ↦ rw t (p, h.1)
    | inr f ↦ rw f (h.0, insert-All P k v m p h.1)
  ]
