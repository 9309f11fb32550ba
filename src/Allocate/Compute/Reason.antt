-- ===== src/Allocate/Compute/Reason.antt =====
-- allocate/allocate.go: the reasons for which Compute refuses a host.
use fpm_tune.Common.{ℕ, ◌+◌, ◌<◌, ◌≡◌, false, List, map, length, get_elem?, some}
use fpm_tune.Common.Word.{slt}
use fpm_tune.Common.Float.{Float}
use fpm_tune.Allocate.Types.{
  Budget, Pool, Row, Options, Error, allocatable, no_budget, cannot_fit_minimum,
  cannot_fit_unwritable,
}
use fpm_tune.Allocate.Rows.{sum_where, always, worker_cost}
use fpm_tune.Allocate.Floors.{priciest, writable}
use fpm_tune.Allocate.Floors.Fits.{workers_bytes}
use fpm_tune.Allocate.Floors.Outcome.{class_bytes}
use fpm_tune.Allocate.Want.{cpu_ceiling_of, row_of}
use fpm_tune.Allocate.Compute.Checks.{IsFault}

module _ (fl : Float) (budget : Budget) (o : Options fl) (pools : List Pool) where
  abbrev rows : List Row
  rows = map (row_of fl (cpu_ceiling_of fl budget o) o) pools

  -- The error holds of this host, with what it says: nothing is left to divide, a pool is at fault, one
  -- worker for each pool does not fit, or the floors of the pools that cannot be written do not fit
  -- beside one worker for each other pool. Not among them: a total past the budget, a trim that cannot
  -- reach it, and a loop without an end.
  pub data IsReason : Error → Type 0 where
    nothing_left :
        slt 0 (allocatable budget) ≡ false
        → IsReason (no_budget budget.total_bytes budget.reserve_bytes)
    at_fault :
        {e : Error} (k : ℕ) (p : Pool) → get_elem? pools k ≡ some p → IsFault p e → IsReason e
    too_small :
        allocatable budget < sum_where always worker_cost rows
        → IsReason (
            cannot_fit_minimum
              (length rows)
              (sum_where always worker_cost rows)
              (allocatable budget)
              (priciest rows).0
              (priciest rows).1)
    held_by_unknown :
        allocatable budget < class_bytes (λ p. p.unknown) rows + workers_bytes writable rows
        → IsReason (
            cannot_fit_unwritable
              (class_bytes (λ p. p.unknown) rows)
              (workers_bytes writable rows)
              (allocatable budget))
