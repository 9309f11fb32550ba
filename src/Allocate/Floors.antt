-- ===== src/Allocate/Floors.antt =====
-- allocate/allocate.go: allocateFloors and priciest.
pub mod Fits
pub mod Outcome
use fpm_tune.Common.{
  ℕ, zero, suc, ◌+◌, ◌≡◌, Bool, true, false, not, ◌&&◌, String, List, [], ◌∷◌, map, length,
  if◌then◌else◌, Result, ok, err, ◌>>=◌,
}
use fpm_tune.Common.Word.{add64, sub64, slt, sle}
use fpm_tune.Common.Float.{Float}
use fpm_tune.Allocate.Types.{
  Pool, Row, Error, Warning, cannot_fit_minimum, cannot_fit_reduced, cannot_fit_unwritable,
  cannot_fit_writable, reduced_trusted, reduced_all,
}
use fpm_tune.Allocate.Rows.{total_where, always, floor_cost, granted_cost, worker_cost}
use fpm_tune.Allocate.Trim.{Trimmed, trim_to_fit}

-- The name and the cost of the pool with the highest cost per worker, the first of them.
unfoldable pub priciest_from : String → ℕ → List Row → String × ℕ
priciest_from name cost [] = (name, cost)
priciest_from name cost (r ∷ rs) =
    let dearer = slt cost r.pool.worker_bytes in
    priciest_from (if dearer then r.pool.name else name)
      (if dearer then r.pool.worker_bytes else cost) rs

unfoldable pub priciest : List Row → String × ℕ
unfolding priciest_from
priciest rows = priciest_from "" 0 rows

pub record Floors : Type 0 where
  pub rows : List Row
  pub remaining : ℕ
  pub exhausted : Bool
  pub warnings : List Warning

abbrev pub at_floor : Row → Row
at_floor r = record r { granted = r.floor }

-- The pools with a trusted baseline; the pools that can be written.
abbrev pub trusted : Pool → Bool
trusted p = p.reducible && not p.unknown

abbrev pub writable : Pool → Bool
writable p = not p.unknown

module _ (fl : Float) where
  open fl use {Num, of_int, trunc, mul, div}

  -- int(float64(floors[i]) * scale), one worker at least; a pool that may not be cut has its floor.
  unfoldable pub scaled : (Pool → Bool) → Num → Row → Row
  scaled cut scale r =
      let n = trunc (mul (of_int r.floor) scale) in
      record r { granted = if cut r.pool then (if slt n 1 then 1 else n) else r.floor }

  -- The scaling and the trim that both of allocateFloors' reduced paths end in: the pools that may
  -- be cut share what is left beside `held`, in proportion to the `reduced` bytes that they asked for.
  unfoldable pub scale_to_fit :
      (Pool → Bool)
      → (held reduced available : ℕ) → (ℕ → ℕ → Error)
      → Warning
      → List Row
      → Result Error Floors
  unfolding scaled
  scale_to_fit cut held reduced available failed warning rows =
      let scale = div (of_int (sub64 available held)) (of_int reduced) in
      let granted = map (scaled cut scale) rows in
      let used = total_where always granted_cost 0 granted in
      trim_to_fit cut available granted used >>= λ t.
      if t.fits
      then ok (record {
        rows = t.rows;
        remaining = sub64 available t.used;
        exhausted = true;
        warnings = warning ∷ [];
      })
      else err (failed t.used available)

  -- The path where something that is not trusted has to give way.
  unfoldable pub reduce_all : (need available : ℕ) → List Row → Result Error Floors
  reduce_all need available rows =
      let unwritable = total_where (λ r. r.pool.unknown) floor_cost 0 rows in
      let least = total_where (λ r. not r.pool.unknown) worker_cost 0 rows in
      if slt available (add64 unwritable least)
      then err (cannot_fit_unwritable unwritable least available)
      else scale_to_fit writable unwritable (sub64 need unwritable) available cannot_fit_writable
          (reduced_all (length rows) need available) rows

  -- The paths for floors that do not fit as they are.
  unfoldable pub reduce_floors : (need available : ℕ) → List Row → Result Error Floors
  reduce_floors need available rows =
      let reducible = total_where (λ r. trusted r.pool) floor_cost 0 rows in
      let protected = total_where (λ r. not (trusted r.pool)) floor_cost 0 rows in
      let least = total_where (λ r. trusted r.pool) worker_cost 0 rows in
      if slt 0 reducible && sle (add64 protected least) available
      then scale_to_fit trusted protected reducible available cannot_fit_reduced
          (reduced_trusted need available) rows
      else reduce_all need available rows

  unfoldable pub allocate_floors : List Row → ℕ → Result Error Floors
  allocate_floors rows available =
      let need = total_where always floor_cost 0 rows in
      let minimum = total_where always worker_cost 0 rows in
      if sle need available
      then ok (record {
        rows = map at_floor rows;
        remaining = sub64 available need;
        exhausted = false;
        warnings = [];
      })
      else (if slt available minimum
          then (let (dearest, cost) = priciest rows in
              err (cannot_fit_minimum (length rows) minimum available dearest cost))
          else reduce_floors need available rows)
