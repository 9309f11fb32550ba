-- ===== src/Allocate/Trim.antt =====
-- allocate/allocate.go: trimToFit and largestGrantedAmong.
pub mod Scan
pub mod Fits
use fpm_tune.Common.{
  ℕ, zero, suc, ◌+◌, ◌-◌, ◌*◌, ◌^◌, ◌≤◌, ◌<◌, ◌≡◌, refl, ◌⊎◌, inl, inr, Bool, true, false, not,
  ◌&&◌, List, [], ◌∷◌, ◌++◌, map, Option, none, some, arith, All, All-get, All-modify, get_elem?,
  modify, length, if◌then◌else◌, Bool-cases, Option-cases, Result, ok, err, ap,
}
use fpm_tune.Common.Word.{sub64, slt, sle, slt_small, sub64_exact}
use fpm_tune.Allocate.Types.{Pool, Row, Error, out_of_fuel}
use fpm_tune.Allocate.Rows.{sum_where, always, granted_bytes, worker_cost}

-- The scan keeps the place and the number of the largest so far; `none` is Go's -1.
unfoldable pub largest_scan : (Pool → Bool) → ℕ → Option ℕ → ℕ → List Row → Option ℕ
largest_scan eligible i best best_n [] = best
largest_scan eligible i best best_n (r ∷ rs) =
    let better = eligible r.pool && slt best_n r.granted in
    largest_scan eligible (suc i) (if better then some i else best)
      (if better then r.granted else best_n) rs

unfoldable pub largest_granted_among : (Pool → Bool) → List Row → Option ℕ
unfolding largest_scan
largest_granted_among eligible rows = largest_scan eligible 0 none 0 rows

-- granted[i] and pools[i].WorkerBytes
unfoldable pub granted_at : List Row → ℕ → ℕ
granted_at rows i = elim (get_elem? rows i) [ none ↦ 0 | some r ↦ r.granted ]

unfoldable pub worker_bytes_at : List Row → ℕ → ℕ
worker_bytes_at rows i = elim (get_elem? rows i) [ none ↦ 0 | some r ↦ r.pool.worker_bytes ]

abbrev pub take_one : Row → Row
take_one r = record r { granted = sub64 r.granted 1 }

-- What trimToFit leaves: the grants, the total, and whether the total fits.
pub record Trimmed : Type 0 where
  pub rows : List Row
  pub used : ℕ
  pub fits : Bool

unfoldable pub trim_loop : ℕ → (Pool → Bool) → ℕ → List Row → ℕ → Result Error Trimmed
unfolding largest_granted_among granted_at worker_bytes_at
trim_loop zero eligible available rows used = err out_of_fuel
trim_loop (suc k) eligible available rows used = elim (slt available used) [
  | false ↦ ok (record { rows = rows; used = used; fits = true })
  | true ↦ elim (largest_granted_among eligible rows) [
    | none ↦ ok (record { rows = rows; used = used; fits = false })
    | some i ↦ elim (sle (granted_at rows i) 1) [
      | true ↦ ok (record { rows = rows; used = used; fits = false })
      | false ↦
          trim_loop k eligible available (modify rows i take_one)
            (sub64 used (worker_bytes_at rows i))
    ]
  ]
]

-- Every round takes a worker back, and a worker costs at least a byte.
unfoldable pub trim_to_fit : (Pool → Bool) → ℕ → List Row → ℕ → Result Error Trimmed
unfolding trim_loop
trim_to_fit eligible available rows used = trim_loop (suc used) eligible available rows used
