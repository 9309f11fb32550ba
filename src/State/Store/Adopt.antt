-- ===== src/State/Store/Adopt.antt =====
-- state/state.go: forWriting against Lookup, and RecordApplied.
use text.Mathlib.Text.{◌==◌ as str_eq}
use text.Mathlib.TextEquality.{eq_iff}
use text.Mathlib.TextPositions.{eq_refl}
use fpm_tune.Common.{
  ℕ, ◌≡◌, refl, sym, ap, subst, ◌∙◌, ◌≢◌, ◌⊎◌, inl, inr, String, false, List, Option, none, some,
  if◌then◌else◌, Bool-cases,
}
use fpm_tune.Common.Float.{Float}
use fpm_tune.Common.Map.{lookup, insert, remove, string_eq, lookup-insert, lookup-remove}
use fpm_tune.State.Types.{PoolState, State, new_pool}
use fpm_tune.State.Store.{
  pool_key, lookup_scoped, legacy, unscoped, lookup_pool, choose, for_writing, write_back,
  record_applied,
}

lookup-insert_self :
    {V : Type 0} (k : String) (v : V) (m : List (String × V)) → lookup k (insert k v m) ≡ some v
lookup-insert_self k v m = lookup-insert k k v m ∙ rw (eq_refl k)

module _ {fl : Float} (master pool : String) (at : ℕ) (s : State fl) where
  -- What forWriting gives: the record of the master's own key, an adopted one, or a new one.
  pub data Writes : State fl × PoolState fl → Type 0 where
    found : (ps : PoolState fl) → lookup (pool_key master pool) s.pools ≡ some ps → Writes (s, ps)
    adopted :
        (ps : PoolState fl)
        → lookup (pool_key master pool) s.pools ≡ none
        → str_eq (pool_key master pool) pool ≡ false
        → legacy pool s ≡ some ps
        → Writes (
          record s {
            pools =
                insert
                  (pool_key master pool)
                  (record ps { master_config = master })
                  (remove pool s.pools);
          },
          record ps { master_config = master },
        )
    made :
        lookup (pool_key master pool) s.pools ≡ none
        → lookup_pool master pool s ≡ none
        → Writes (
          record s { pools = insert (pool_key master pool) (new_pool fl pool master at) s.pools },
          new_pool fl pool master at,
        )

  lookup_pool-own :
      {ps : PoolState fl}
      → lookup (pool_key master pool) s.pools ≡ some ps
      → lookup_pool master pool s ≡ some ps
  unfolding lookup_pool lookup_scoped
  lookup_pool-own e = rw (e, lookup_pool)

  lookup_pool-legacy :
      lookup (pool_key master pool) s.pools ≡ none → lookup_pool master pool s ≡ legacy pool s
  unfolding lookup_pool lookup_scoped
  lookup_pool-legacy e = rw (e, lookup_pool)

  for_writing-Writes : Writes (for_writing master pool at s)
  unfolding for_writing lookup_scoped choose legacy unscoped
  for_writing-Writes = go (lookup (pool_key master pool) s.pools) _ refl refl
    where
      unmatched :
          lookup (pool_key master pool) s.pools ≡ none
          → (if str_eq (pool_key master pool) pool then none else legacy pool s) ≡ none
          → legacy pool s ≡ none
      unmatched e o = elim (Bool-cases (str_eq (pool_key master pool) pool)) [
        | inl t ↦
            let e' : lookup pool s.pools ≡ none =
              subst (λ k. lookup k s.pools ≡ none) ((eq_iff (pool_key master pool) pool).0 t) e in
            rw e'
        | inr f ↦ sym (ap (λ b. if b then none else legacy pool s) f) ∙ o
      ]

      go :
          (found old : Option (PoolState fl))
          → lookup (pool_key master pool) s.pools ≡ found
          → (if str_eq (pool_key master pool) pool then none else legacy pool s) ≡ old
          → Writes (choose master pool at s found old)
      go (some ps) old e o = found ps e
      go none (some ps) e o = elim (Bool-cases (str_eq (pool_key master pool) pool)) [
        | inl t ↦
            let wrong : (if str_eq (pool_key master pool) pool then none else legacy pool s)
                ≡ none =
              rw t in
            absurd cc
        | inr f ↦ adopted ps e f (sym (ap (λ b. if b then none else legacy pool s) f) ∙ o)
      ]
      go none none e o = made e (lookup_pool-legacy e ∙ unmatched e o)

  -- The record goes on from the one that Lookup shows, or is new where it shows none.
  abbrev pub GoesOn : PoolState fl → Type 0
  GoesOn out =
      ((lookup_pool master pool s ≡ none) × (out ≡ new_pool fl pool master at))
      ⊎ ((ps : PoolState fl) × (lookup_pool master pool s ≡ some ps)
          × ((out ≡ ps) ⊎ (out ≡ record ps { master_config = master })))

  -- The other keys of the store stay as they are. The bare name of the pool is excepted, under which
  -- there may be a record from before pools carried a master; it stays too where the master has a
  -- record of its own, and where there is no such record.
  pub record IsLeft (s' : State fl) : Type 0 where
    pub others :
        (j : String) → j ≢ pool_key master pool → j ≢ pool → lookup j s'.pools ≡ lookup j s.pools
    pub owned :
        (ps : PoolState fl)
        → lookup_scoped master pool s ≡ some ps
        → (j : String) → j ≢ pool_key master pool
        → lookup j s'.pools ≡ lookup j s.pools
    pub scoped :
        legacy pool s ≡ none
        → (j : String) → j ≢ pool_key master pool
        → lookup j s'.pools ≡ lookup j s.pools

  pub record Continues (out : State fl × PoolState fl) : Type 0 where
    pub stored : lookup_scoped master pool out.0 ≡ some out.1
    pub history : GoesOn out.1
    pub left : IsLeft out.0
    pub taken :
        lookup_scoped master pool s ≡ none
        → str_eq (pool_key master pool) pool ≡ false
        → legacy pool out.0 ≡ none

  other_key : (k j : String) → j ≢ k → str_eq k j ≡ false
  other_key k j ne = elim (Bool-cases (str_eq k j)) [
    | inl t ↦ absurd (ne (sym ((eq_iff k j).0 t)))
    | inr f ↦ f
  ]

  adopted-taken :
      (ps : PoolState fl)
      → str_eq (pool_key master pool) pool ≡ false
      → legacy pool (record s { pools = insert (pool_key master pool) ps (remove pool s.pools) })
        ≡ none
  unfolding legacy unscoped
  adopted-taken ps f =
      let e : lookup pool (insert (pool_key master pool) ps (remove pool s.pools)) ≡ none =
        lookup-insert (pool_key master pool) pool ps (remove pool s.pools)
        ∙ rw f (lookup-remove pool pool s.pools ∙ rw (eq_refl pool)) in
      ap unscoped e

  made-taken :
      (ps : PoolState fl)
      → str_eq (pool_key master pool) pool ≡ false
      → legacy pool s ≡ none
      → legacy pool (record s { pools = insert (pool_key master pool) ps s.pools }) ≡ none
  unfolding legacy
  made-taken ps f old =
      ap unscoped (lookup-insert (pool_key master pool) pool ps s.pools ∙ rw f) ∙ old

  kept_by_insert :
      (ps : PoolState fl) (j : String)
      → j ≢ pool_key master pool
      → lookup j (insert (pool_key master pool) ps s.pools) ≡ lookup j s.pools
  kept_by_insert ps j a =
      lookup-insert (pool_key master pool) j _ _ ∙ rw (other_key (pool_key master pool) j a)

  nothing : {ps : PoolState fl} → none ≢ some ps
  nothing e = cc

  Writes-Continues : {out : State fl × PoolState fl} → Writes out → Continues out
  unfolding lookup_scoped
  Writes-Continues (found ps e) = record {
    stored = e;
    history = inr (ps, lookup_pool-own e, inl refl);
    left = record { others = λ j a b. refl; owned = λ q k j a. refl; scoped = λ k j a. refl };
    taken = λ n f. let wrong : some ps ≡ none = sym e ∙ n in absurd cc;
  }
  Writes-Continues (adopted ps n f l) = record {
    stored = lookup-insert_self _ _ _;
    history = inr (ps, lookup_pool-legacy n ∙ l, inr refl);
    left = record {
      others = λ j a b.
          lookup-insert (pool_key master pool) j _ _
          ∙ rw (other_key (pool_key master pool) j a)
              (lookup-remove pool j s.pools ∙ rw (other_key pool j b));
      owned = λ q k j a. absurd (nothing (sym n ∙ k));
      scoped = λ k j a. absurd (nothing (sym k ∙ l));
    };
    taken = λ _ _. adopted-taken _ f;
  }
  Writes-Continues (made n l) = record {
    stored = lookup-insert_self _ _ _;
    history = inl (l, refl);
    left = record {
      others = λ j a b. kept_by_insert _ j a;
      owned = λ q k j a. kept_by_insert _ j a;
      scoped = λ k j a. kept_by_insert _ j a;
    };
    taken = λ _ f. made-taken _ f (sym (lookup_pool-legacy n) ∙ l);
  }

  -- forWriting stores the record that it gives under the master's own key. The record goes on from the
  -- one that Lookup shows, at most with its master filled in, and is new exactly where Lookup shows
  -- none. No other key changes, but that of the bare name where a record from before pools carried a
  -- master is taken over: where the master had no record of its own, the record from before
  -- pools carried a master is not there for another master to adopt.
  pub for_writing-Continues : Continues (for_writing master pool at s)
  for_writing-Continues = Writes-Continues for_writing-Writes

  -- The store with a note in the record that forWriting gave.
  IsLeft-noted :
      (s' : State fl) (ps : PoolState fl) → IsLeft s' → IsLeft (write_back master pool ps s')
  unfolding write_back
  IsLeft-noted s' ps l = record {
    others = λ j a b. noted j a ∙ l.others j a b;
    owned = λ q k j a. noted j a ∙ l.owned q k j a;
    scoped = λ k j a. noted j a ∙ l.scoped k j a;
  }
    where
      noted :
          (j : String)
          → j ≢ pool_key master pool
          → lookup j (insert (pool_key master pool) ps s'.pools) ≡ lookup j s'.pools
      noted j a =
          lookup-insert (pool_key master pool) j ps s'.pools
          ∙ rw (other_key (pool_key master pool) j a)

-- What RecordApplied notes is what Lookup then shows: the number and its time, in the record that
-- Lookup showed before, at most with its master filled in, or in a new one where it showed none; all
-- else that was learned stays. No other key of the store changes, but that of the bare name where a
-- record from before pools carried a master is taken over.
pub record_applied-lookup :
    {fl : Float} (master pool : String) (n at : ℕ) (s : State fl)
    → (ps : PoolState fl) × GoesOn master pool at s ps
      × (lookup_pool master pool (record_applied master pool n at s)
          ≡ some (record ps { last_applied_max_children = n; last_applied_at = some at }))
      × IsLeft master pool at s (record_applied master pool n at s)
unfolding record_applied write_back
record_applied-lookup master pool n at s =
    let (s', ps) = for_writing master pool at s in
    let c = for_writing-Continues master pool at s in
    let applied = record ps { last_applied_max_children = n; last_applied_at = some at } in
    (
      ps,
      c.history,
      lookup_pool-own master pool at (write_back master pool applied s')
          (lookup-insert_self (pool_key master pool) applied s'.pools),
      IsLeft-noted master pool at s s' applied c.left,
    )
