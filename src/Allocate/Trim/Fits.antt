-- ===== src/Allocate/Trim/Fits.antt =====
-- allocate/allocate.go: trimToFit reaches the budget wherever one worker for each eligible pool
-- would fit beside the others.
use fpm_tune.Common.{
  ℕ, zero, suc, ◌+◌, ◌-◌, ◌*◌, ◌^◌, ◌≤◌, ◌<◌, ◌≡◌, refl, ◌∙◌, ◌⊎◌, inl, inr, Bool, true, false, not,
  List, [], ◌∷◌, map, none, some, arith, All, All-map, All-get, All-modify, get_elem?, modify,
  Bool-cases, Result, ok, ltb→lt, ltb, sym, subst,
}
use native.Mathlib.Nat.{le_trans}
use fpm_tune.Common.Word.{sub64, slt, slt_small, sub64_exact}
use fpm_tune.Allocate.Types.{Pool, Row, Error}
use fpm_tune.Allocate.Rows.{
  sum_where, always, granted_bytes, worker_cost, IsPlausible, strip, sum_where_split,
  sum_where-modify, map-strip-modify,
}
use fpm_tune.Allocate.Trim.{
  Trimmed, trim_loop, trim_to_fit, take_one, largest_granted_among, granted_at, worker_bytes_at,
}
use fpm_tune.Allocate.Trim.Scan.{IsSmall, AtMost, IsAt, largest_granted_among-largest}

-- A row between one worker and its floor, at its floor where it may not be cut.
pub record IsKept (eligible : Pool → Bool) (r : Row) : Type 0 where
  pub plausible : IsPlausible r
  pub some_worker : 0 < r.granted
  pub within : r.granted ≤ r.floor
  pub held : eligible r.pool ≡ false → r.granted ≡ r.floor

abbrev pub eligible_row : (Pool → Bool) → Row → Bool
eligible_row eligible r = eligible r.pool

-- What the rows that may not be cut hold, and one worker for each of the others.
abbrev pub least_bytes : (Pool → Bool) → List Row → ℕ
least_bytes eligible rows =
    sum_where (λ r. not (eligible r.pool)) granted_bytes rows
    + sum_where (eligible_row eligible) worker_cost rows

module _ (eligible : Pool → Bool) (available : ℕ) where
  record Inv (rows : List Row) (used : ℕ) : Type 0 where
    exact : used ≡ sum_where always granted_bytes rows
    small : used < 2 ^ 63
    least : least_bytes eligible rows ≤ available
    kept : All (IsKept eligible) rows

  take_one-IsKept :
      (r : Row)
      → IsKept eligible r
      → 1 < r.granted
      → eligible r.pool ≡ true
      → IsKept eligible (take_one r)
  take_one-IsKept r v h e =
      let less =
        sub64_exact r.granted 1 (omega (arith, v.plausible.floor_small, v.within)) (omega arith) in
      record {
        plausible = record {
          costs = v.plausible.costs;
          cheap = v.plausible.cheap;
          floor_pos = v.plausible.floor_pos;
          floor_small = v.plausible.floor_small;
          want_small = v.plausible.want_small;
        };
        some_worker = omega (arith, less);
        within = omega (arith, less);
        held = λ f. cc;
      }

  -- With every eligible row at one worker the total is the least.
  one_each-le :
      (rows : List Row)
      → All (IsKept eligible) rows
      → All (AtMost eligible 1) rows
      → sum_where (eligible_row eligible) granted_bytes rows
        ≤ sum_where (eligible_row eligible) worker_cost rows
  unfolding sum_where
  one_each-le [] v h = omega arith
  one_each-le (r ∷ rows) v h =
      ground
        (arith, one_each-le rows v.1 h.1, λ (n : r.granted ≤ 1). one_worker n r.pool.worker_bytes)
    where
      one_worker : {n : ℕ} → n ≤ 1 → (w : ℕ) → n * w ≤ w
      one_worker h w = grind arith

  worker_less : (n w : ℕ) → 0 < n → n * w ≡ (n - 1) * w + w
  worker_less zero w h = elim h [ ]
  worker_less (suc n) w h = let e : suc n - 1 ≡ n = omega arith in rw e (grind arith)

  take-Inv :
      (rows : List Row) (used j : ℕ) (r : Row)
      → available < used
      → Inv rows used
      → get_elem? rows j ≡ some r
      → eligible r.pool ≡ true
      → 1 < r.granted
      → Inv (modify rows j take_one) (sub64 used r.pool.worker_bytes)
        × (sub64 used r.pool.worker_bytes < used)
  take-Inv rows used j r over v at e h =
      let w = r.pool.worker_bytes in
      let k = All-get (IsKept eligible) rows j v.kept at in
      let less =
        sub64_exact r.granted 1 (omega (arith, k.plausible.floor_small, k.within)) (omega arith) in
      let split : r.granted * w ≡ sub64 r.granted 1 * w + w =
        rw less (worker_less r.granted w (omega arith)) in
      let all = sum_where-modify always granted_bytes take_one rows j r at refl in
      let held =
        sum_where-modify (λ r. not (eligible r.pool)) granted_bytes take_one rows j r at refl in
      let cut = sum_where-modify (eligible_row eligible) worker_cost take_one rows j r at refl in
      let rest : w + sum_where always granted_bytes (modify rows j take_one) ≡ used =
        omega (arith, all, split, v.exact) in
      let fall = sub64_exact used w (omega (arith, v.small)) (omega (arith, rest)) in
      (
        record {
          exact = omega (arith, fall, rest, k.plausible.costs);
          small = omega (arith, fall, rest, k.plausible.costs);
          least = ground (arith, held, cut, v.least);
          kept =
              All-modify rows j take_one
                (λ x kx ex.
                  let same : r ≡ x = cc in
                  take_one-IsKept x kx (subst (λ y. 1 < y.granted) same h)
                    (subst (λ y. eligible y.pool ≡ true) same e))
                v.kept;
        },
        omega (arith, fall, rest, k.plausible.costs),
      )

  IsKept-IsSmall : (r : Row) → IsKept eligible r → IsSmall r
  IsKept-IsSmall r v = omega (arith, v.within, v.plausible.floor_small)

  abbrev pub Fits : List Row → Result Error Trimmed → Type 0
  Fits rows out =
      (t : Trimmed) × (out ≡ ok t)
      × (t.fits ≡ true)
      × (t.used ≡ sum_where always granted_bytes t.rows)
      × (t.used ≤ available)
      × All (IsKept eligible) t.rows
      × (map strip t.rows ≡ map strip rows)

  -- An excess is never left with every eligible row at one worker.
  excess_not_least :
      (rows : List Row) (used m : ℕ)
      → Inv rows used
      → available < used
      → m ≤ 1
      → All (AtMost eligible m) rows
      → ⊥
  excess_not_least rows used m v over h all =
      let ones = one_each-le rows v.kept (All-map rows (λ r f e. le_trans (f e) h) all) in
      omega
        (arith, ones, v.least, v.exact, sum_where_split (eligible_row eligible) granted_bytes rows)

  trim_loop-step :
      (k : ℕ) (rows : List Row) (used j : ℕ) (r : Row)
      → slt available used ≡ true
      → largest_granted_among eligible rows ≡ some j
      → get_elem? rows j ≡ some r
      → slt 1 r.granted ≡ true
      → trim_loop (suc k) eligible available rows used
        ≡ trim_loop k eligible available (modify rows j take_one) (sub64 used r.pool.worker_bytes)
  unfolding trim_loop granted_at worker_bytes_at
  trim_loop-step k rows used j r t e at h = ground arith

  trim_loop-done :
      (k : ℕ) (rows : List Row) (used : ℕ)
      → slt available used ≡ false
      → trim_loop (suc k) eligible available rows used
        ≡ ok (record { rows = rows; used = used; fits = true })
  unfolding trim_loop
  trim_loop-done k rows used t = ground arith

  trim_over :
      (k : ℕ) (rows : List Row) (used : ℕ)
      → available < 2 ^ 63
      → ((rows' : List Row) (used' : ℕ)
          → used' < used
          → Inv rows' used'
          → Fits rows' (trim_loop k eligible available rows' used'))
      → Inv rows used
      → available < used
      → slt available used ≡ true
      → Fits rows (trim_loop (suc k) eligible available rows used)
  trim_over k rows used a loop v over t =
      go (largest_granted_among-largest eligible rows (All-map rows IsKept-IsSmall v.kept))
    where
      taken :
          (j : ℕ) (r : Row)
          → get_elem? rows j ≡ some r
          → eligible r.pool ≡ true
          → 1 < r.granted
          → Fits rows (
              trim_loop k eligible available
                (modify rows j take_one)
                (sub64 used r.pool.worker_bytes))
      taken j r at e h =
          let (inv, less) = take-Inv rows used j r over v at e h in
          let (out, runs, fits, total, within, kept, same) = loop _ _ less inv in
          (
            out,
            runs,
            fits,
            total,
            within,
            kept,
            same ∙ map-strip-modify take_one rows j (λ x. refl),
          )

      go :
          (m : ℕ) × All (AtMost eligible m) rows
            × (((largest_granted_among eligible rows ≡ none) × (m ≡ 0))
                ⊎ ((j : ℕ) × (largest_granted_among eligible rows ≡ some j)
                    × IsAt eligible m rows j))
          → Fits rows (trim_loop (suc k) eligible available rows used)
      go (m, all, inl (e, z)) = absurd (excess_not_least rows used m v over (omega arith) all)
      go (m, all, inr (j, e, (r, at, el, g))) = elim (Bool-cases (ltb 1 r.granted)) [
        | inl more ↦
            subst (Fits rows)
              (sym (
                trim_loop-step k rows used j r t e at (
                  slt_small 1 r.granted (omega arith)
                    (IsKept-IsSmall r (All-get (IsKept eligible) rows j v.kept at))
                  ∙ more)))
              (taken j r at el (ltb→lt 1 r.granted more))
        | inr one ↦ absurd (excess_not_least rows used m v over (ground arith) all)
      ]

  trim_loop-Fits :
      (k : ℕ) (rows : List Row) (used : ℕ)
      → available < 2 ^ 63
      → used < k
      → Inv rows used
      → Fits rows (trim_loop k eligible available rows used)
  trim_loop-Fits zero rows used a h v = elim h [ ]
  trim_loop-Fits (suc k) rows used a h v = elim (Bool-cases (slt available used)) [
    | inl t ↦
        trim_over k rows used a
          (λ rows' used' less inv. trim_loop-Fits k rows' used' a (omega arith) inv) v
          (ground (arith, slt_small available used)) t
    | inr f ↦ (
      record { rows = rows; used = used; fits = true },
      trim_loop-done k rows used f,
      refl,
      v.exact,
      ground (arith, slt_small available used),
      v.kept,
      refl,
    )
  ]

-- trimToFit ends, fits the budget, takes only from eligible pools and leaves each pool a worker. The
-- rows are between one worker and their floor, `used` is their total, it and the budget are below
-- 2 ^ 63, and the other pools' floors fit with one worker for each eligible pool.
pub trim_to_fit-Fits :
    (eligible : Pool → Bool) (available : ℕ) (rows : List Row) (used : ℕ)
    → available < 2 ^ 63
    → used ≡ sum_where always granted_bytes rows
    → used < 2 ^ 63
    → least_bytes eligible rows ≤ available
    → All (IsKept eligible) rows
    → Fits eligible available rows (trim_to_fit eligible available rows used)
unfolding trim_to_fit
trim_to_fit-Fits eligible available rows used a exact small least kept =
    trim_loop-Fits eligible available (suc used) rows used a (omega arith)
      (record { exact = exact; small = small; least = least; kept = kept })
