-- ===== src/Allocate/Floors/Fits.antt =====
-- allocate/allocate.go: when allocateFloors succeeds, and what it leaves.
use fpm_tune.Common.{
  ℕ, ◌+◌, ◌-◌, ◌^◌, ◌≤◌, ◌<◌, ◌≡◌, refl, ◌∙◌, ap, Bool, true, not, List, [], ◌∷◌, map, arith, All,
  All-map, ok,
}
use fpm_tune.Common.Word.{sub64, sub64_exact, slt_between}
use fpm_tune.Common.Float.{Float, IsIeee}
use fpm_tune.Allocate.Types.{Pool, Row, Error, Warning}
use fpm_tune.Allocate.Rows.{
  sum_where, total_where, always, granted_bytes, granted_cost, floor_bytes, worker_cost,
  IsPlausible, strip, sum_where_mono, total_where_exact_zero, mul64_plausible, sum_where-same,
}
use fpm_tune.Allocate.Trim.Fits.{IsKept, Fits, trim_to_fit-Fits}
use fpm_tune.Allocate.Trim.{trim_to_fit}
use fpm_tune.Allocate.Floors.{Floors, scaled, scale_to_fit}

-- The bytes that all floors ask for, and the least that a reduction can come to when only the pools
-- of a class may be cut.
abbrev pub floors_bytes : List Row → ℕ
floors_bytes = sum_where always floor_bytes

abbrev pub held_bytes : (Pool → Bool) → List Row → ℕ
held_bytes cut = sum_where (λ r. not (cut r.pool)) floor_bytes

abbrev pub workers_bytes : (Pool → Bool) → List Row → ℕ
workers_bytes cut = sum_where (λ r. cut r.pool) worker_cost

-- A division of the budget over the given rows: only pools that may be cut are below their floor,
-- every pool has a worker, and what is granted and what remains make up the budget.
pub record Shares (cut : Pool → Bool) (rows : List Row) (available : ℕ) (f : Floors) : Type 0 where
  pub kept : All (IsKept cut) f.rows
  pub same : map strip f.rows ≡ map strip rows
  pub exact : sum_where always granted_bytes f.rows + f.remaining ≡ available

module _ (fl : Float) (ieee : IsIeee fl) (cut : Pool → Bool) where
  scaled-IsKept :
      (s : fl.Num) (r : Row)
      → fl.fle s (fl.of_int 1) ≡ true
      → IsPlausible r
      → IsKept cut (scaled fl cut s r)
  unfolding scaled
  scaled-IsKept s r h v =
      let n = fl.trunc (fl.mul (fl.of_int r.floor) s) in
      let low =
        ieee.trunc_le r.floor (fl.mul (fl.of_int r.floor) s) (omega (arith, v.floor_small))
          (ieee.mul_le r.floor s v.floor_pos (omega (arith, v.floor_small)) h) in
      let between = slt_between n r.floor (ieee.trunc_word _) (omega (arith, v.floor_small)) in
      record {
        plausible = record {
          costs = v.costs;
          cheap = v.cheap;
          floor_pos = v.floor_pos;
          floor_small = v.floor_small;
          want_small = v.want_small;
        };
        some_worker = ground (arith, between, low);
        within = ground (arith, between, low, v.floor_pos);
        held = λ e. ground arith;
      }

  scaled-strip :
      (s : fl.Num) (rows : List Row) → map strip (map (scaled fl cut s) rows) ≡ map strip rows
  unfolding scaled
  scaled-strip s [] = refl
  scaled-strip s (r ∷ rows) = ap (◌∷◌ (strip r)) (scaled-strip s rows)

  scaled-All :
      (s : fl.Num) (rows : List Row)
      → fl.fle s (fl.of_int 1) ≡ true
      → All IsPlausible rows
      → All (IsKept cut) (map (scaled fl cut s) rows)
  scaled-All s [] h v = tt
  scaled-All s (r ∷ rows) h v = (scaled-IsKept s r h v.0, scaled-All s rows h v.1)

-- The grants of kept rows cost what they say, and no more than the floors.
IsKept-cost :
    (cut : Pool → Bool) (r : Row)
    → IsKept cut r
    → (granted_cost r ≡ granted_bytes r) × (granted_bytes r ≤ floor_bytes r)
IsKept-cost cut r k =
    let small : r.granted ≤ 100_000 = omega (arith, k.within, k.plausible.floor_small) in
    let le : r.granted ≤ r.floor = k.within in
    ((mul64_plausible r.granted r.pool.worker_bytes small k.plausible.cheap).0, grind arith)

-- Rows that may not be cut hold their floors.
held-floors :
    (cut : Pool → Bool) (rows : List Row)
    → All (IsKept cut) rows
    → sum_where (λ r. not (cut r.pool)) granted_bytes rows ≡ held_bytes cut rows
unfolding sum_where
held-floors cut [] v = refl
held-floors cut (r ∷ rows) v = ground (arith, held-floors cut rows v.1)

kept_total :
    (cut : Pool → Bool) (rows : List Row)
    → All (IsKept cut) rows
    → floors_bytes rows < 2 ^ 63
    → (sum_where always granted_bytes rows ≤ floors_bytes rows)
      × (total_where always granted_cost 0 rows ≡ sum_where always granted_bytes rows)
kept_total cut rows k h =
    let le =
      sum_where_mono always granted_bytes floor_bytes rows
        (All-map rows (λ r x. (IsKept-cost cut r x).1) k) in
    (
      le,
      total_where_exact_zero always granted_cost granted_bytes rows
          (All-map rows (λ r x. (IsKept-cost cut r x).0) k) (omega (arith, le)),
    )

-- Scaling and trimming reach the budget where the least that they can come to fits it.
pub scale_to_fit-Shares :
    (fl : Float) (ieee : IsIeee fl) (cut : Pool → Bool) (held reduced available : ℕ)
    (failed : ℕ → ℕ → Error) (warning : Warning) (rows : List Row)
    → All IsPlausible rows
    → floors_bytes rows < 2 ^ 63
    → available < floors_bytes rows
    → held ≡ held_bytes cut rows
    → held + reduced ≡ floors_bytes rows
    → held + workers_bytes cut rows ≤ available
    → (f : Floors) × (scale_to_fit fl cut held reduced available failed warning rows ≡ ok f)
      × Shares cut rows available f
      × (f.exhausted ≡ true)
unfolding scale_to_fit
scale_to_fit-Shares fl ieee cut held reduced available failed warning rows v small tight h split
      least =
    finish fitted
  where
    scale : fl.Num
    scale = fl.div (fl.of_int (sub64 available held)) (fl.of_int reduced)

    rows' : List Row
    rows' = map (scaled fl cut scale) rows

    share : sub64 available held ≡ available - held
    share = sub64_exact available held (omega arith) (omega arith)

    granted : All (IsKept cut) rows'
    granted =
        scaled-All fl ieee cut scale rows
          (ieee.div_le_one (sub64 available held) reduced (omega (arith, share)) (omega arith)) v

    stripped : map strip rows' ≡ map strip rows
    stripped = scaled-strip fl ieee cut scale rows

    floors : floors_bytes rows' ≡ floors_bytes rows
    floors = sum_where-same always floor_bytes rows' rows (λ r. refl) (λ r. refl) stripped

    totals :
        (sum_where always granted_bytes rows' ≤ floors_bytes rows')
        × (total_where always granted_cost 0 rows' ≡ sum_where always granted_bytes rows')
    totals = kept_total cut rows' granted (omega (arith, floors))

    fitted :
        Fits cut available rows'
          (trim_to_fit cut available rows' (total_where always granted_cost 0 rows'))
    fitted =
        trim_to_fit-Fits cut available rows' _ (omega arith) totals.1
          (omega (arith, floors, totals))
          (omega (
            arith,
            held-floors cut rows' granted,
            sum_where-same (λ r. not (cut r.pool)) floor_bytes rows' rows (λ r. refl) (λ r. refl)
                stripped,
            sum_where-same (λ r. cut r.pool) worker_cost rows' rows (λ r. refl) (λ r. refl)
                stripped,
          ))
          granted

    finish :
        Fits cut available rows'
          (trim_to_fit cut available rows' (total_where always granted_cost 0 rows'))
        → (f : Floors) × (scale_to_fit fl cut held reduced available failed warning rows ≡ ok f)
          × Shares cut rows available f
          × (f.exhausted ≡ true)
    finish (t, runs, fits, total, within, kept, same) = (
      record {
        rows = t.rows;
        remaining = sub64 available t.used;
        exhausted = true;
        warnings = warning ∷ [];
      },
      ground (arith, runs, fits),
      record {
        kept = kept;
        same = same ∙ stripped;
        exact = omega (arith, total, within, sub64_exact available t.used (omega arith) within);
      },
      refl,
    )
