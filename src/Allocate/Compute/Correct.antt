-- ===== src/Allocate/Compute/Correct.antt =====
-- allocate/allocate.go: what a plan of Compute promises.
use fpm_tune.Common.{
  ℕ, ◌+◌, ◌*◌, ◌^◌, ◌≤◌, ◌<◌, ◌≡◌, refl, sym, ◌∙◌, ap, inl, inr, Bool, true, false, ◌||◌, List, [],
  ◌∷◌, map, arith, All, All-map, Bool-cases, Result, ok, err, ◌>>=◌, length, length-map, ltb,
}
use fpm_tune.Common.Word.{sub64, slt, add64_exact, sub64_exact, slt_small}
use fpm_tune.Common.Float.{Float, IsIeee}
use fpm_tune.Allocate.Types.{
  Budget, Pool, Row, Options, Error, allocatable, defaults, max_plausible_children,
}
use fpm_tune.Allocate.Rows.{sum_where, always, granted_bytes, mul64_plausible, strip}
use fpm_tune.Allocate.Trim.Fits.{IsKept}
use fpm_tune.Allocate.Floors.{Floors, trusted, writable}
use fpm_tune.Allocate.Floors.Fits.{Shares}
use fpm_tune.Allocate.Floors.Outcome.{
  Outcome, unreduced, from_trusted, from_writable, no_minimum, no_unwritable,
  allocate_floors-Outcome,
}
use fpm_tune.Allocate.Demand.{Demand, allocate_demand}
use fpm_tune.Allocate.Demand.Round.{IsGranted, IsSound}
use fpm_tune.Allocate.Demand.Candidates.{IsMet}
use fpm_tune.Allocate.Demand.Rest.{Finished, allocate_demand-Finished}
use fpm_tune.Allocate.Want.{cpu_ceiling_of, row_of}
use fpm_tune.Allocate.Want.Bounds.{IsPool, row_names}
use fpm_tune.Allocate.Compute.Reserved.{Reserves, rows-Reserves}
use fpm_tune.Allocate.Compute.{finish, divide, compute}
use fpm_tune.Allocate.Compute.Lines.{PoolPlan, Plan, pool_plan, total_bytes}
use fpm_tune.Allocate.Compute.Reason.{IsReason, nothing_left, at_fault, too_small, held_by_unknown}
use fpm_tune.Allocate.Compute.Checks.{
  Checked, passed, stopped, check_pools-Checked, rows-IsPlausible, floors_bytes-le,
  allocatable-exact,
}

-- Where only pools with a known configuration may be cut, kept rows are granted rows.
IsKept-IsGranted :
    (cut : Pool → Bool)
    → ((p : Pool) → p.unknown ≡ true → cut p ≡ false)
    → (r : Row) → IsKept cut r
    → IsGranted r
IsKept-IsGranted cut h r k = record {
  plausible = k.plausible;
  some_worker = k.some_worker;
  within = omega (arith, k.within);
  reserved = λ e. omega (arith, k.held (h r.pool e));
}

Shares-IsSound :
    (cut : Pool → Bool)
    → ((p : Pool) → p.unknown ≡ true → cut p ≡ false)
    → (rows : List Row) (available : ℕ) (f : Floors) → Shares cut rows available f
    → IsSound available f.rows f.remaining
Shares-IsSound cut h rows available f s = record {
  exact = s.exact;
  granted = All-map f.rows (IsKept-IsGranted cut h) s.kept;
}

-- The bytes that a plan's lines commit, exactly.
pub lines_bytes : List PoolPlan → ℕ
lines_bytes [] = 0
lines_bytes (p ∷ ps) = p.max_children * p.worker_bytes + lines_bytes ps

-- One line of a plan: a worker at least, its bytes without a wrap, and short only where what is free
-- does not pay for one more worker.
pub record IsLine (free : ℕ) (l : PoolPlan) : Type 0 where
  pub some_worker : 0 < l.max_children
  pub exact : l.bytes ≡ l.max_children * l.worker_bytes
  pub unmet : l.demand_unmet ≡ ltb l.max_children l.want
  pub met : l.max_children < l.want → free < l.worker_bytes

pub record IsPlan (fl : Float) (o : Options fl) (available : ℕ) (pools : List Pool) (plan : Plan)
    : Type 0 where
  pub within : plan.allocated_bytes + plan.free_bytes ≡ available
  pub total : plan.allocated_bytes ≡ lines_bytes plan.pools
  pub lines : All (IsLine plan.free_bytes) plan.pools
  pub names : map (λ l. l.name) plan.pools ≡ map (λ p. p.name) pools
  pub reserved : Reserves fl o pools plan.pools

-- A plan that keeps its promises, or an error for which the host or its configuration is the reason.
pub data Answer (fl : Float) (budget : Budget) (o : Options fl) (pools : List Pool)
    : Result Error Plan → Type 0 where
  planned :
      {plan : Plan}
      → IsPlan fl o (allocatable budget) pools plan
      → Answer fl budget o pools (ok plan)
  refused : {e : Error} → IsReason fl budget o pools e → Answer fl budget o pools (err e)

module _ (fl : Float) (o : Options fl) (exhausted : Bool) where
  abbrev line : Row → PoolPlan
  line = pool_plan fl o exhausted

  line_total :
      (acc : ℕ) (rows : List Row)
      → All IsGranted rows
      → acc + sum_where always granted_bytes rows < 2 ^ 64
      → total_bytes acc (map line rows) ≡ acc + sum_where always granted_bytes rows
  unfolding total_bytes sum_where pool_plan
  line_total acc [] v h = omega arith
  line_total acc (r ∷ rows) v h =
      let small : r.granted ≤ 100_000 =
        omega (arith, v.0.within, v.0.plausible.floor_small, v.0.plausible.want_small) in
      let cost = mul64_plausible r.granted r.pool.worker_bytes small v.0.plausible.cheap in
      let sum = add64_exact acc (granted_bytes r) (omega arith) in
      rw (cost.0, sum) (omega (arith, line_total (acc + granted_bytes r) rows v.1 (omega arith)))

  line_bytes : (rows : List Row) → lines_bytes (map line rows) ≡ sum_where always granted_bytes rows
  unfolding lines_bytes sum_where pool_plan
  line_bytes [] = refl
  line_bytes (r ∷ rows) = ap (◌+◌ (granted_bytes r)) (line_bytes rows)

  line-IsLine : (free : ℕ) (r : Row) → IsGranted r → IsMet free r → IsLine free (line r)
  unfolding pool_plan
  line-IsLine free r v m =
      let small : r.granted ≤ 100_000 =
        omega (arith, v.within, v.plausible.floor_small, v.plausible.want_small) in
      record {
        some_worker = v.some_worker;
        exact = (mul64_plausible r.granted r.pool.worker_bytes small v.plausible.cheap).0;
        unmet = slt_small r.granted r.want (omega arith) (omega (arith, v.plausible.want_small));
        met = m;
      }

  lines-IsLine :
      (free : ℕ) (rows : List Row)
      → All IsGranted rows
      → All (IsMet free) rows
      → All (IsLine free) (map line rows)
  lines-IsLine free [] v m = tt
  lines-IsLine free (r ∷ rows) v m = (line-IsLine free r v.0 m.0, lines-IsLine free rows v.1 m.1)

  line_names :
      (rows : List Row)
      → map (λ l. l.name) (map line rows) ≡ map (λ (r : Row). r.pool.name) (map strip rows)
  unfolding pool_plan
  line_names [] = refl
  line_names (r ∷ rows) = ap (◌∷◌ r.pool.name) (line_names rows)

module _ (fl : Float) (ieee : IsIeee fl) (budget : Budget) (small : allocatable budget < 2 ^ 63)
    (o : Options fl) where
  abbrev available : ℕ
  available = allocatable budget

  -- The rows that Compute makes of the pools.
  abbrev rows_of : List Pool → List Row
  rows_of pools = map (row_of fl (cpu_ceiling_of fl budget o) o) pools

  -- With a sound division the last check passes, and the plan keeps its promises.
  finish-Answer :
      (pools : List Pool) (f : Floors) (d : Demand)
      → IsSound available d.rows d.remaining
      → All (IsMet d.remaining) d.rows
      → map (λ (r : Row). r.pool.name) (map strip d.rows) ≡ map (λ p. p.name) pools
      → Reserves fl o pools (map (line fl o f.exhausted) d.rows)
      → Answer fl budget o pools (finish fl budget available o f d)
  unfolding finish
  finish-Answer pools f d v m n k =
      let sum = sum_where always granted_bytes d.rows in
      let total : total_bytes 0 (map (line fl o f.exhausted) d.rows) ≡ sum =
        omega (arith, line_total fl o f.exhausted 0 d.rows v.granted (omega (arith, v.exact))) in
      let free : sub64 available sum ≡ d.remaining =
        omega (arith, sub64_exact available sum (omega arith) (omega (arith, v.exact)), v.exact) in
      let positive = slt_small sum 0 (omega (arith, v.exact)) (omega arith) in
      let within = slt_small available sum small (omega (arith, v.exact)) in
      let check : (slt sum 0 || slt available sum) ≡ false =
        ground (arith, positive, within, v.exact) in
      rw (total, check, free)
        (planned (record {
          within = v.exact;
          total = sym (line_bytes fl o f.exhausted d.rows);
          lines = lines-IsLine fl o f.exhausted d.remaining d.rows v.granted m;
          names = line_names fl o f.exhausted d.rows ∙ n;
          reserved = k;
        }))

  -- The rows are those of the pools, in their order.
  record IsRowsOf (pools : List Pool) (rows : List Row) : Type 0 where
    names : map (λ (r : Row). r.pool.name) (map strip rows) ≡ map (λ p. p.name) pools
    reserved :
        (exhausted : Bool) (ds : List Row)
        → map strip ds ≡ map strip rows
        → All IsGranted ds
        → Reserves fl o pools (map (line fl o exhausted) ds)

  -- The demand pass takes a division of the rows to a plan.
  demand-Answer :
      (pools : List Pool) (rows : List Row) (f : Floors)
      → length rows ≤ 1024
      → IsRowsOf pools rows
      → map strip f.rows ≡ map strip rows
      → IsSound available f.rows f.remaining
      → Answer fl budget o pools
          (allocate_demand fl f.rows f.remaining >>= finish fl budget available o f)
  demand-Answer pools rows f n of same v =
      go (allocate_demand-Finished fl ieee available small f.rows f.remaining size v)
    where
      size : length f.rows ≤ 1024
      size = omega (arith, ap length same, length-map strip rows, length-map strip f.rows)

      go :
          {out : Result Error Demand}
          → Finished available f.rows out
          → Answer fl budget o pools (out >>= finish fl budget available o f)
      go (d, runs, sound, same', met) = rw runs (
          finish-Answer pools f d sound met
            (ap (map (λ (r : Row). r.pool.name)) (same' ∙ same) ∙ of.names)
            (of.reserved f.exhausted d.rows (same' ∙ same) sound.granted))

  floors-Answer :
      (pools : List Pool)
      → length (rows_of pools) ≤ 1024
      → IsRowsOf pools (rows_of pools)
      → {out : Result Error Floors} → Outcome (rows_of pools) available out
      → Answer fl budget o pools
          (out >>= λ f. (allocate_demand fl f.rows f.remaining >>= finish fl budget available o f))
  floors-Answer pools n of (unreduced {f} fits x s) =
      demand-Answer pools (rows_of pools) f n of s.same
        (Shares-IsSound _ (λ p e. refl) (rows_of pools) available f s)
  floors-Answer pools n of (from_trusted {f} over x any least s) =
      demand-Answer pools (rows_of pools) f n of s.same
        (Shares-IsSound trusted (λ p e. ground arith) (rows_of pools) available f s)
  floors-Answer pools n of (from_writable {f} over x past least s) =
      demand-Answer pools (rows_of pools) f n of s.same
        (Shares-IsSound writable (λ p e. ground arith) (rows_of pools) available f s)
  floors-Answer pools n of (no_minimum over) = refused (too_small over)
  floors-Answer pools n of (no_unwritable tight past over) = refused (held_by_unknown over)

-- The host and the options that Compute is meant for: a total that an int64 holds, a CPU ceiling and
-- a default floor that are plausible counts, and at most 1024 pools.
pub record IsHost (fl : Float) (budget : Budget) (pools : List Pool) (opts : Options fl)
    : Type 0 where
  pub total_small : budget.total_bytes < 2 ^ 63
  pub reserve_word : budget.reserve_bytes < 2 ^ 64
  pub cpu_known : 0 < cpu_ceiling_of fl budget (defaults fl opts)
  pub cpu_plausible : cpu_ceiling_of fl budget (defaults fl opts) ≤ max_plausible_children
  pub floor_plausible : opts.default_floor ≤ max_plausible_children
  pub few : length pools ≤ 1024
  pub words : All IsPool pools

default_floor_bounds :
    (fl : Float) (opts : Options fl)
    → opts.default_floor ≤ max_plausible_children
    → (0 < (defaults fl opts).default_floor)
      × ((defaults fl opts).default_floor ≤ max_plausible_children)
unfolding defaults
default_floor_bounds fl opts h = ground (arith, slt_small 0 opts.default_floor)

allocatable-small :
    (b : Budget) → b.total_bytes < 2 ^ 63 → b.reserve_bytes < 2 ^ 64 → allocatable b < 2 ^ 63
allocatable-small b h k = ground (arith, allocatable-exact b h k)

module _ (fl : Float) (ieee : IsIeee fl) (budget : Budget) (opts : Options fl) where
  -- The passes over the pools, once these have passed their checks.
  divide-Answer :
      (pools : List Pool)
      → IsHost fl budget pools opts
      → {out : Result Error (List Pool)} → Checked pools out
      → Answer fl budget
          (defaults fl opts)
          pools
          (out >>= divide fl budget (allocatable budget) (defaults fl opts))
  unfolding divide
  divide-Answer pools h (stopped k p at cs x) = refused (at_fault k p at x)
  divide-Answer pools h (passed c) =
      let o = defaults fl opts in
      let cpu_cap = cpu_ceiling_of fl budget o in
      let rows = map (row_of fl cpu_cap o) pools in
      let d = default_floor_bounds fl opts h.floor_plausible in
      let v =
        rows-IsPlausible fl ieee o cpu_cap h.cpu_known h.cpu_plausible d.0 d.1 pools h.words c in
      let n : length rows ≤ 1024 = omega (arith, length-map (row_of fl cpu_cap o) pools, h.few) in
      let available = allocatable-small budget h.total_small h.reserve_word in
      floors-Answer fl ieee budget available o pools n
        (record {
          names = row_names fl cpu_cap o pools;
          reserved = λ exhausted ds. rows-Reserves fl o cpu_cap exhausted pools ds;
        })
        (allocate_floors-Outcome fl ieee rows (allocatable budget) v
          (omega (arith, floors_bytes-le rows v)) available)

  -- Compute answers a plausible host with a plan or with an error whose reason holds of the host: the
  -- reserve leaves nothing of its memory; a pool has no cost or an implausible one, or an implausible
  -- count, and is named; one worker for every pool is more than the budget; or the floors of the pools
  -- that cannot be written, with one worker for each other pool, are. The error carries these sums.
  -- Compute's own last check never fails and no pass runs out of fuel. A plan's lines
  -- are the pools in their order, each with a worker at least; their bytes, without a wrap, and what
  -- is free add up to the budget; a pool that is short costs more than what is free; and a pool that
  -- is not written keeps its floor. A plausible host has an int64 of memory that is not negative, at
  -- most 1024 pools, a CPU ceiling and a default floor within the plausible count, and the arithmetic
  -- is IEEE's.
  pub compute-Answer :
      (pools : List Pool)
      → IsHost fl budget pools opts
      → Answer fl budget (defaults fl opts) pools (compute fl budget pools opts)
  unfolding compute lines_bytes
  compute-Answer [] h = elim (Bool-cases (slt 0 (allocatable budget))) [
    | inr f ↦ rw f (refused (nothing_left f))
    | inl t ↦ rw t (
        planned
          (record { within = omega arith; total = refl; lines = tt; names = refl; reserved = tt }))
  ]
  compute-Answer (p ∷ ps) h = elim (Bool-cases (slt 0 (allocatable budget))) [
    | inr f ↦ rw f (refused (nothing_left f))
    | inl t ↦ rw t (divide-Answer (p ∷ ps) h (check_pools-Checked (p ∷ ps)))
  ]
