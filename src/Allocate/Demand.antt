-- ===== src/Allocate/Demand.antt =====
-- allocate/allocate.go: allocateDemand.
pub mod Share
pub mod Round
pub mod Candidates
pub mod Sort
pub mod Rest
use fpm_tune.Common.{
  ℕ, zero, suc, ◌≡◌, Bool, true, false, not, ◌&&◌, ◌||◌, List, [], ◌∷◌, map, if◌then◌else◌, Result,
  ok, err, ◌==◌, modify,
}
use fpm_tune.Common.Word.{add64, sub64, mul64, div64, slt, sle}
use fpm_tune.Common.Float.{Float}
use fpm_tune.Allocate.Types.{Pool, Row, Error, out_of_fuel}
use fpm_tune.Allocate.Trim.{worker_bytes_at}

-- A pool that wants more and can be afforded: its place, how much it wants, and whether requests wait.
pub record Candidate : Type 0 where
  pub i : ℕ
  pub gap : ℕ
  pub urgent : Bool

unfoldable pub candidates_from : ℕ → ℕ → List Row → List Candidate
candidates_from i remaining [] = []
candidates_from i remaining (r ∷ rs) =
    let gap = sub64 r.want r.granted in
    let rest = candidates_from (suc i) remaining rs in
    if slt 0 gap && sle r.pool.worker_bytes remaining
    then record { i = i; gap = gap; urgent = r.pool.hit_max_children || slt 0 r.pool.queue_depth }
      ∷ rest
    else rest

unfoldable pub gap_total : ℕ → List Candidate → ℕ
gap_total acc [] = acc
gap_total acc (c ∷ cs) = gap_total (add64 acc c.gap) cs

-- The order of the candidates: urgent ones first, among them the cheapest shortfall in bytes, among
-- the others the largest gap.
unfoldable pub before : List Row → Candidate → Candidate → Bool
before rows a b =
    if a.urgent
    then (if b.urgent
        then slt (mul64 a.gap (worker_bytes_at rows a.i)) (mul64 b.gap (worker_bytes_at rows b.i))
        else true)
    else (if b.urgent then false else slt b.gap a.gap)

-- sort.SliceStable.
unfoldable pub insert_stable {ℓ} : {A : Type ℓ} → (A → A → Bool) → A → List A → List A
insert_stable less x [] = x ∷ []
insert_stable less x (y ∷ ys) =
    let rest = insert_stable less x ys in if less y x then y ∷ rest else x ∷ y ∷ ys

unfoldable pub sort_stable {ℓ} : {A : Type ℓ} → (A → A → Bool) → List A → List A
sort_stable less [] = []
sort_stable less (x ∷ xs) = insert_stable less x (sort_stable less xs)

pub record Grants : Type 0 where
  pub rows : List Row
  pub remaining : ℕ
  pub progressed : Bool

pub record Demand : Type 0 where
  pub rows : List Row
  pub remaining : ℕ

-- granted[c.i] += share
abbrev pub give : ℕ → Row → Row
give share r = record r { granted = add64 r.granted share }

module _ (fl : Float) where
  open fl use {of_int, trunc, mul, div}

  -- The workers that a candidate is offered: what it is short of if it is urgent, and otherwise its
  -- proportion of the pot; one at least, and no more than its gap.
  unfoldable pub offer : (pot total w : ℕ) → Candidate → ℕ
  offer pot total w c =
      let part = trunc (div (mul (of_int pot) (div (of_int c.gap) (of_int total))) (of_int w)) in
      let share = if c.urgent then c.gap else part in
      let one = if slt share 1 then 1 else share in if slt c.gap one then c.gap else one

  -- The offer, or what is left of the budget where that is less.
  unfoldable pub share_of : (pot total remaining w : ℕ) → Candidate → ℕ
  share_of pot total remaining w c =
      let share = offer pot total w c in
      if slt remaining (mul64 share w) then div64 remaining w else share

  unfoldable pub grant_one : (pot total : ℕ) → Candidate → Grants → Grants
  grant_one pot total c g =
      let w = worker_bytes_at g.rows c.i in
      let share = share_of pot total g.remaining w c in
      if sle share 0 then g else record {
        rows = modify g.rows c.i (give share);
        remaining = sub64 g.remaining (mul64 share w);
        progressed = true;
      }

  unfoldable pub grant_all : (pot total : ℕ) → List Candidate → Grants → Grants
  grant_all pot total [] g = g
  grant_all pot total (c ∷ cs) g = grant_all pot total cs (grant_one pot total c g)

  -- One round: every share is measured against the budget at the round's start.
  unfoldable pub grant_round : List Row → ℕ → List Candidate → Grants
  grant_round rows remaining cands =
      grant_all remaining (gap_total 0 cands) (sort_stable (before rows) cands)
        (record { rows = rows; remaining = remaining; progressed = false })

  unfoldable pub demand_loop : ℕ → List Row → ℕ → Result Error Demand
  demand_loop zero rows remaining = err out_of_fuel
  demand_loop (suc k) rows remaining = elim (candidates_from 0 remaining rows) [
    | [] ↦ ok (record { rows = rows; remaining = remaining })
    | c ∷ cs ↦ elim (gap_total 0 (c ∷ cs) == 0) [
      | true ↦ ok (record { rows = rows; remaining = remaining })
      | false ↦
          let g = grant_round rows remaining (c ∷ cs) in
          elim g.progressed [
            | true ↦ demand_loop k g.rows g.remaining
            | false ↦ ok (record { rows = g.rows; remaining = g.remaining })
          ]
    ]
  ]

  -- Every round but the last spends a byte at least.
  unfoldable pub allocate_demand : List Row → ℕ → Result Error Demand
  unfolding demand_loop grant_round candidates_from gap_total sort_stable insert_stable before
      grant_all grant_one share_of offer worker_bytes_at
  allocate_demand rows remaining = demand_loop (suc remaining) rows remaining
