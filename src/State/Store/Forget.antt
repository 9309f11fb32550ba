-- ===== src/State/Store/Forget.antt =====
-- state/state.go: how long Forget keeps a pool that is gone.
use text.Mathlib.Text.{◌==◌ as str_eq}
use text.Mathlib.TextEquality.{eq_iff}
use fpm_tune.Common.{
  ℕ, zero, suc, ◌+◌, ◌<◌, ◌≡◌, refl, ap, subst, ◌∙◌, inl, inr, String, Bool, true, false, not, ◌&&◌,
  List, [], ◌∷◌, Option, none, some, if◌then◌else◌, Bool-cases, All, arith, ltb, ltb→lt,
}
use native.Mathlib.Numerals.{add-one}
use fpm_tune.Common.Word.{add64_exact, slt_small}
use fpm_tune.Common.Float.{Float}
use fpm_tune.Common.Map.{lookup, string_eq}
use fpm_tune.State.Types.{PoolState, State}
use fpm_tune.State.Store.{
  is_kept, missed, forget_one, keep_or_drop, forget_pools, forget, forget_after_missed_rounds,
}

-- No key stands twice.
abbrev pub Distinct {ℓ} : {V : Type ℓ} → List (String × V) → Type ℓ
Distinct [] = Unit
Distinct ((k, v) ∷ m) = All (λ e. str_eq e.0 k ≡ false) m × Distinct m

abbrev pub bind {ℓ} : {A : Type ℓ} → Option A → (A → Option A) → Option A
bind none f = none
bind (some a) f = f a

module _ {fl : Float} (current : List String) (scope : String) where
  absent :
      (k : String) (m : List (String × PoolState fl))
      → All (λ (e : String × PoolState fl). str_eq e.0 k ≡ false) m
      → lookup k m ≡ none
  unfolding lookup
  absent k [] v = refl
  absent k (e ∷ m) v = rw v.0 (absent k m v.1)

  keep_or_drop-All :
      (P : String → Type 0) (k : String) (o : Option (PoolState fl))
      (r : List (String × PoolState fl) × List String)
      → P k
      → All (λ e. P e.0) r.0
      → All (λ e. P e.0) (keep_or_drop k o r).0
  unfolding keep_or_drop
  keep_or_drop-All P k none (kept, dropped) p v = v
  keep_or_drop-All P k (some ps) (kept, dropped) p v = (p, v)

  forget_pools-All :
      (P : String → Type 0) (m : List (String × PoolState fl))
      → All (λ e. P e.0) m
      → All (λ e. P e.0) (forget_pools current scope m).0
  unfolding forget_pools
  forget_pools-All P [] v = tt
  forget_pools-All P ((k, ps) ∷ m) v =
      keep_or_drop-All P k (forget_one current scope ps) (forget_pools current scope m) v.0
        (forget_pools-All P m v.1)

  keep_or_drop-Distinct :
      (k : String) (o : Option (PoolState fl)) (r : List (String × PoolState fl) × List String)
      → All (λ (e : String × PoolState fl). str_eq e.0 k ≡ false) r.0
      → Distinct r.0
      → Distinct (keep_or_drop k o r).0
  unfolding keep_or_drop
  keep_or_drop-Distinct k none (kept, dropped) a v = v
  keep_or_drop-Distinct k (some ps) (kept, dropped) a v = (a, v)

  forget_pools-Distinct :
      (m : List (String × PoolState fl)) → Distinct m → Distinct (forget_pools current scope m).0
  unfolding forget_pools
  forget_pools-Distinct [] v = tt
  forget_pools-Distinct ((k, ps) ∷ m) v =
      keep_or_drop-Distinct k (forget_one current scope ps) (forget_pools current scope m)
        (forget_pools-All (λ j. str_eq j k ≡ false) m v.0) (forget_pools-Distinct m v.1)

  lookup-keep_or_drop :
      (k j : String) (o : Option (PoolState fl)) (r : List (String × PoolState fl) × List String)
      → lookup j r.0 ≡ none
      → lookup k (keep_or_drop j o r).0 ≡ (if str_eq j k then o else lookup k r.0)
  unfolding keep_or_drop lookup
  lookup-keep_or_drop k j (some ps) (kept, dropped) n = refl
  lookup-keep_or_drop k j none (kept, dropped) n = elim (Bool-cases (str_eq j k)) [
    | inl t ↦ rw t (subst (λ i. lookup i kept ≡ none) ((eq_iff j k).0 t) n)
    | inr f ↦ rw f
  ]

  -- What the store has for a key is what forget_one makes of what it had.
  lookup-forget_pools :
      (k : String) (m : List (String × PoolState fl))
      → Distinct m
      → lookup k (forget_pools current scope m).0 ≡ bind (lookup k m) (forget_one current scope)
  unfolding forget_pools lookup
  lookup-forget_pools k [] v = refl
  lookup-forget_pools k ((j, ps) ∷ m) v =
      lookup-keep_or_drop k j (forget_one current scope ps) (forget_pools current scope m) gone
      ∙ elim (Bool-cases (str_eq j k)) [ inl t ↦ rw t | inr f ↦ rw f (lookup-forget_pools k m v.1) ]
    where
      gone : lookup j (forget_pools current scope m).0 ≡ none
      gone = absent j _ (forget_pools-All (λ i. str_eq i j ≡ false) m v.0)

  -- Rounds of Forget with the same pools in sight.
  module _ (sort_strings : List String → List String) where
    abbrev pub forget_rounds : ℕ → State fl → State fl
    forget_rounds zero s = s
    forget_rounds (suc n) s = forget_rounds n (forget sort_strings current scope s).0

    abbrev one_rounds : ℕ → Option (PoolState fl) → Option (PoolState fl)
    one_rounds zero o = o
    one_rounds (suc n) o = one_rounds n (bind o (forget_one current scope))

    lookup-forget_rounds :
        (k : String) (n : ℕ) (s : State fl)
        → Distinct s.pools
        → lookup k (forget_rounds n s).pools ≡ one_rounds n (lookup k s.pools)
    unfolding forget
    lookup-forget_rounds k zero s v = refl
    lookup-forget_rounds k (suc n) s v =
        lookup-forget_rounds k n (forget sort_strings current scope s).0
          (forget_pools-Distinct s.pools v)
        ∙ ap (one_rounds n) (lookup-forget_pools k s.pools v)

    -- Outside the scope, seen this round, or missing.
    abbrev pub outside : PoolState fl → Bool
    outside ps = not (str_eq scope "") && not (str_eq ps.master_config scope)

    one_rounds-outside :
        (n : ℕ) (ps : PoolState fl) → outside ps ≡ true → one_rounds n (some ps) ≡ some ps
    unfolding forget_one
    one_rounds-outside zero ps h = refl
    one_rounds-outside (suc n) ps h = rw h (one_rounds-outside n ps h)

    forget_one-kept :
        (ps : PoolState fl)
        → outside ps ≡ false
        → is_kept ps.pool current ≡ true
        → forget_one current scope ps ≡ some (record ps { missed_rounds = 0 })
    unfolding forget_one
    forget_one-kept ps o h = rw (o, h)

    forget_one-missing :
        (m : ℕ) (ps : PoolState fl)
        → outside ps ≡ false
        → is_kept ps.pool current ≡ false
        → m < forget_after_missed_rounds
        → forget_one current scope (record ps { missed_rounds = m }) ≡ (
            if ltb (suc m) forget_after_missed_rounds
            then some (record ps { missed_rounds = suc m })
            else none)
    unfolding forget_one missed
    forget_one-missing m ps o h le = rw (
      o,
      h,
      add64_exact m 1 (omega arith),
      slt_small (m + 1) 5 (omega arith) (omega arith),
      add-one m,
    )

    one_rounds-kept :
        (n : ℕ) (ps : PoolState fl)
        → outside ps ≡ false
        → is_kept ps.pool current ≡ true
        → one_rounds (suc n) (some ps) ≡ some (record ps { missed_rounds = 0 })
    one_rounds-kept zero ps o h = forget_one-kept ps o h
    one_rounds-kept (suc n) ps o h =
        ap (one_rounds (suc n)) (forget_one-kept ps o h)
        ∙ one_rounds-kept n (record ps { missed_rounds = 0 }) o h

    one_rounds-none : (n : ℕ) → one_rounds n none ≡ none
    one_rounds-none zero = refl
    one_rounds-none (suc n) = one_rounds-none n

    one_rounds-missing :
        (n m : ℕ) (ps : PoolState fl)
        → outside ps ≡ false
        → is_kept ps.pool current ≡ false
        → m < forget_after_missed_rounds
        → one_rounds n (some (record ps { missed_rounds = m })) ≡ (
            if ltb (n + m) forget_after_missed_rounds
            then some (record ps { missed_rounds = n + m })
            else none)
    one_rounds-missing zero m ps o h le =
        let t : ltb (0 + m) forget_after_missed_rounds ≡ true = ground arith in
        let z : 0 + m ≡ m = omega arith in rw (t, z)
    one_rounds-missing (suc n) m ps o h le =
        ap (one_rounds n) (forget_one-missing m ps o h le)
        ∙ elim (Bool-cases (ltb (suc m) forget_after_missed_rounds)) [
          | inl t ↦ rw t (one_rounds-missing n (suc m) ps o h (ltb→lt _ _ t) ∙ rw (shift n m))
          | inr f ↦
              let late : ltb (suc n + m) forget_after_missed_rounds ≡ false = ground arith in
              rw (f, late) (one_rounds-none n)
        ]
      where
        shift : (n m : ℕ) → n + suc m ≡ suc n + m
        shift n m = omega arith

    -- Forget, round after round with the same pools in sight, on a store without a key twice. A record
    -- of another master's scope stays as it is. One whose pool is in sight stays, with no round
    -- missed. One that is missing stays, with its rounds counted, until there are five of them, and is
    -- not there from the fifth on.
    pub forget_rounds-keeps :
        (k : String) (n : ℕ) (s : State fl) (ps : PoolState fl)
        → Distinct s.pools
        → lookup k s.pools ≡ some ps
        → ps.missed_rounds < forget_after_missed_rounds
        → (outside ps ≡ true → lookup k (forget_rounds n s).pools ≡ some ps)
          × (outside ps ≡ false
              → is_kept ps.pool current ≡ true
              → lookup k (forget_rounds (suc n) s).pools ≡ some (record ps { missed_rounds = 0 }))
          × (outside ps ≡ false
              → is_kept ps.pool current ≡ false
              → lookup k (forget_rounds n s).pools ≡ (
                  if ltb (n + ps.missed_rounds) forget_after_missed_rounds
                  then some (record ps { missed_rounds = n + ps.missed_rounds })
                  else none))
    forget_rounds-keeps k n s ps v e m =
        let rounds = λ (i : ℕ). lookup-forget_rounds k i s v ∙ ap (one_rounds i) e in
        (
          (λ o. rounds n ∙ one_rounds-outside n ps o),
          (λ o h. rounds (suc n) ∙ one_rounds-kept n ps o h),
          (λ o h. rounds n ∙ one_rounds-missing n ps.missed_rounds ps o h m),
        )
