-- ===== src/Allocate/Floors/Outcome.antt =====
-- allocate/allocate.go: every way in which allocateFloors ends.
use fpm_tune.Common.{
  ℕ, ◌+◌, ◌*◌, ◌^◌, ◌≤◌, ◌<◌, ◌≡◌, refl, ◌∙◌, sym, ap, subst, ◌⊎◌, inl, inr, Bool, true, false, not,
  ◌&&◌, List, [], ◌∷◌, map, arith, All, All-map, Bool-cases, Result, ok, err, length, ltb, ltb→lt,
  ltb→ge,
}
use fpm_tune.Common.Word.{sub64, slt, sle, slt_small, sub64_exact, add64_exact}
use fpm_tune.Common.Float.{Float, IsIeee}
use fpm_tune.Allocate.Types.{Pool, Row, Error, cannot_fit_minimum, cannot_fit_unwritable}
use fpm_tune.Allocate.Rows.{
  sum_where, total_where, always, granted_bytes, floor_bytes, floor_cost, worker_cost, IsPlausible,
  strip, sum_where_split, sum_where_mono, total_where_exact_zero, mul64_plausible,
}
use fpm_tune.Allocate.Trim.Fits.{IsKept}
use fpm_tune.Allocate.Floors.{
  Floors, at_floor, trusted, writable, priciest, reduce_all, reduce_floors, allocate_floors,
}
use fpm_tune.Allocate.Floors.Fits.{
  floors_bytes, held_bytes, workers_bytes, Shares, scale_to_fit-Shares,
}

-- The bytes of the floors of a class of pools.
abbrev pub class_bytes : (Pool → Bool) → List Row → ℕ
class_bytes c rows = sum_where (λ r. c r.pool) floor_bytes rows

-- One worker for each trusted pool beside all the other floors is more than there is, or no trusted
-- pool has a floor: the trusted pools alone cannot give way far enough.
abbrev pub IsPastTrusted : List Row → ℕ → Type 0
IsPastTrusted rows available =
    (class_bytes trusted rows ≡ 0)
    ⊎ (available < held_bytes trusted rows + workers_bytes trusted rows)

-- What a run of allocateFloors on these rows can come to.
pub data Outcome (rows : List Row) (available : ℕ) : Result Error Floors → Type 0 where
  unreduced :
      {f : Floors}
      → floors_bytes rows ≤ available
      → f.exhausted ≡ false
      → Shares (λ p. false) rows available f
      → Outcome rows available (ok f)
  from_trusted :
      {f : Floors}
      → available < floors_bytes rows
      → f.exhausted ≡ true
      → 0 < class_bytes trusted rows
      → held_bytes trusted rows + workers_bytes trusted rows ≤ available
      → Shares trusted rows available f
      → Outcome rows available (ok f)
  from_writable :
      {f : Floors}
      → available < floors_bytes rows
      → f.exhausted ≡ true
      → IsPastTrusted rows available
      → held_bytes writable rows + workers_bytes writable rows ≤ available
      → Shares writable rows available f
      → Outcome rows available (ok f)
  no_minimum :
      available < sum_where always worker_cost rows
      → Outcome rows available (
          err (
            cannot_fit_minimum
              (length rows)
              (sum_where always worker_cost rows)
              available
              (priciest rows).0
              (priciest rows).1))
  no_unwritable :
      available < floors_bytes rows
      → IsPastTrusted rows available
      → available < class_bytes (λ p. p.unknown) rows + workers_bytes writable rows
      → Outcome rows available (
          err (
            cannot_fit_unwritable
              (class_bytes (λ p. p.unknown) rows)
              (workers_bytes writable rows)
              available))

-- The int64 totals are exact where the floors' total is.
floor_cost-exact :
    (rows : List Row) → All IsPlausible rows → All (λ r. floor_cost r ≡ floor_bytes r) rows
floor_cost-exact rows v =
    All-map rows (λ r h. (mul64_plausible r.floor r.pool.worker_bytes h.floor_small h.cheap).0) v

worker_cost-le :
    (rows : List Row) → All IsPlausible rows → All (λ r. worker_cost r ≤ floor_bytes r) rows
worker_cost-le rows v = All-map rows (λ r h. one_floor r.floor r.pool.worker_bytes h.floor_pos) v
  where
    one_floor : (n w : ℕ) → 0 < n → w ≤ n * w
    one_floor n w h = grind arith

at_floor-All :
    (rows : List Row) → All IsPlausible rows → All (IsKept (λ p. false)) (map at_floor rows)
at_floor-All [] v = tt
at_floor-All (r ∷ rows) v = (
  record {
    plausible = record {
      costs = v.0.costs;
      cheap = v.0.cheap;
      floor_pos = v.0.floor_pos;
      floor_small = v.0.floor_small;
      want_small = v.0.want_small;
    };
    some_worker = v.0.floor_pos;
    within = omega arith;
    held = λ e. refl;
  },
  at_floor-All rows v.1,
)

at_floor-strip : (rows : List Row) → map strip (map at_floor rows) ≡ map strip rows
at_floor-strip [] = refl
at_floor-strip (r ∷ rows) = ap (◌∷◌ (strip r)) (at_floor-strip rows)

at_floor-bytes :
    (rows : List Row) → sum_where always granted_bytes (map at_floor rows) ≡ floors_bytes rows
unfolding sum_where
at_floor-bytes [] = refl
at_floor-bytes (r ∷ rows) = ap (◌+◌ (floor_bytes r)) (at_floor-bytes rows)

-- A pool that cannot be written is one whose configuration is unknown.
held_writable :
    (rows : List Row) → held_bytes writable rows ≡ sum_where (λ r. r.pool.unknown) floor_bytes rows
unfolding sum_where
held_writable [] = refl
held_writable (r ∷ rows) = ground (arith, held_writable rows)

Outcome-done :
    (cut : Pool → Bool) (rows : List Row) (available : ℕ) (out : Result Error Floors)
    → ((f : Floors)
        → Shares cut rows available f
        → f.exhausted ≡ true
        → Outcome rows available (ok f))
    → (f : Floors) × (out ≡ ok f) × Shares cut rows available f × (f.exhausted ≡ true)
    → Outcome rows available out
Outcome-done cut rows available out k (f, e, s, x) =
    subst (Outcome rows available) (sym e) (k f s x)

module _ (fl : Float) (ieee : IsIeee fl) (rows : List Row) (available : ℕ)
    (v : All IsPlausible rows) (small : floors_bytes rows < 2 ^ 63)
    (budget : available < 2 ^ 63) where
  -- The totals over a class of pools, as the code has them.
  floor_total :
      (c : Row → Bool)
      → (total_where c floor_cost 0 rows ≡ sum_where c floor_bytes rows)
        × (sum_where c floor_bytes rows ≤ floors_bytes rows)
  floor_total c =
      let split = sum_where_split c floor_bytes rows in
      (
        total_where_exact_zero c floor_cost floor_bytes rows (floor_cost-exact rows v)
            (omega (arith, split)),
        omega (arith, split),
      )

  worker_total :
      (c : Row → Bool)
      → (total_where c worker_cost 0 rows ≡ sum_where c worker_cost rows)
        × (sum_where c worker_cost rows ≤ sum_where c floor_bytes rows)
  worker_total c =
      let le = sum_where_mono c worker_cost floor_bytes rows (worker_cost-le rows v) in
      (
        total_where_exact_zero c worker_cost worker_cost rows (All-map rows (λ r h. refl) v)
            (omega (arith, le, (floor_total c).1)),
        le,
      )

  reduce_all-Outcome :
      available < floors_bytes rows
      → IsPastTrusted rows available
      → Outcome rows available (reduce_all fl (floors_bytes rows) available rows)
  unfolding reduce_all
  reduce_all-Outcome tight past =
      let u = sum_where (λ r. r.pool.unknown) floor_bytes rows in
      let l = workers_bytes writable rows in
      let held = held_writable rows in
      let unknown = floor_total (λ r. r.pool.unknown) in
      let least = worker_total (λ r. not r.pool.unknown) in
      let split = sum_where_split (λ r. r.pool.unknown) floor_bytes rows in
      let sum = add64_exact u l (omega (arith, unknown, least, split)) in
      let rest = sub64_exact (floors_bytes rows) u (omega arith) unknown.1 in
      let test = slt_small available (u + l) budget (omega (arith, least, split)) in
      rw (unknown.0, least.0, sum)
        (elim (Bool-cases (slt available (u + l))) [
          | inl t ↦ rw t (no_unwritable tight past (ltb→lt available (u + l) (sym test ∙ t)))
          | inr f ↦
              let fits : u + l ≤ available = ltb→ge available (u + l) (sym test ∙ f) in
              rw f (
                Outcome-done writable rows available _
                  (λ g s x. from_writable tight x past (omega (arith, held, fits)) s)
                  (scale_to_fit-Shares fl ieee writable u (sub64 (floors_bytes rows) u) available _
                    _ rows v small tight (sym held) (omega (arith, rest, unknown.1)) fits))
        ])

  past_trusted :
      (slt 0 (class_bytes trusted rows)
          && sle (held_bytes trusted rows + workers_bytes trusted rows) available)
        ≡ false
      → slt 0 (class_bytes trusted rows) ≡ ltb 0 (class_bytes trusted rows)
      → slt available (held_bytes trusted rows + workers_bytes trusted rows)
        ≡ ltb available (held_bytes trusted rows + workers_bytes trusted rows)
      → IsPastTrusted rows available
  past_trusted f any test = elim (Bool-cases (slt 0 (class_bytes trusted rows))) [
    | inr z ↦ inl (omega (arith, ltb→ge 0 _ (sym any ∙ z)))
    | inl t ↦ inr (ltb→lt available _ (sym test ∙ ground arith))
  ]

  reduce_floors-Outcome :
      available < floors_bytes rows
      → Outcome rows available (reduce_floors fl (floors_bytes rows) available rows)
  unfolding reduce_floors
  reduce_floors-Outcome tight =
      let c = λ (r : Row). trusted r.pool in
      let reducible = floor_total c in
      let protected = floor_total (λ r. not (trusted r.pool)) in
      let least = worker_total c in
      let split = sum_where_split c floor_bytes rows in
      let p = held_bytes trusted rows in
      let l = workers_bytes trusted rows in
      let sum = add64_exact p l (omega (arith, least, split)) in
      let test = slt_small available (p + l) budget (omega (arith, least, split)) in
      let any = slt_small 0 (class_bytes trusted rows) (omega arith) (omega (arith, split)) in
      rw (reducible.0, protected.0, least.0, sum)
        (elim (Bool-cases (slt 0 (sum_where c floor_bytes rows) && sle (p + l) available)) [
          | inl t ↦
              let fits : p + l ≤ available = ltb→ge available (p + l) (sym test ∙ ground arith) in
              let some_trusted : 0 < class_bytes trusted rows =
                ltb→lt 0 _ (sym any ∙ ground arith) in
              rw t (
                Outcome-done trusted rows available _
                  (λ g s x. from_trusted tight x some_trusted fits s)
                  (scale_to_fit-Shares fl ieee trusted p (sum_where c floor_bytes rows) available _
                    _ rows v small tight refl (omega (arith, split)) fits))
          | inr f ↦ rw f (reduce_all-Outcome tight (past_trusted f any test))
        ])

  -- allocateFloors on plausible rows ends in one of five ways. The floors fit, and every pool has its
  -- floor. Or they do not, and only trusted pools give way, where there are floors among them and
  -- one worker for each fits beside the floors of the others. Or, where that is not so, all pools
  -- that can be written give way. The cut leaves a worker at least, and the grants and what remains
  -- make up the budget. Or it is an error, with the sums that it is about: where one worker each does
  -- not fit; or where the trusted pools cannot give way far enough and the floors of the pools that
  -- cannot be written do not fit with one worker for each of the others. The budget and the floors' bytes are below 2 ^ 63 and the
  -- arithmetic is IEEE's.
  pub allocate_floors-Outcome : Outcome rows available (allocate_floors fl rows available)
  unfolding allocate_floors
  allocate_floors-Outcome =
      let need = floor_total always in
      let minimum = worker_total always in
      let fits = slt_small available (floors_bytes rows) budget small in
      let min_fits =
        slt_small available (sum_where always worker_cost rows) budget (omega (arith, minimum)) in
      rw (need.0, minimum.0)
        (elim (Bool-cases (slt available (floors_bytes rows))) [
          | inr f ↦ rw f (
              let enough = ltb→ge available (floors_bytes rows) (sym fits ∙ f) in
              unreduced enough refl (record {
                kept = at_floor-All rows v;
                same = at_floor-strip rows;
                exact = omega (
                  arith,
                  at_floor-bytes rows,
                  sub64_exact available (floors_bytes rows) (omega arith) enough,
                );
              }))
          | inl t ↦ rw t (elim (Bool-cases (slt available (sum_where always worker_cost rows))) [
            | inl m ↦ rw m (no_minimum (ltb→lt available _ (sym min_fits ∙ m)))
            | inr m ↦ rw m (reduce_floors-Outcome (ltb→lt available _ (sym fits ∙ t)))
          ])
        ])
