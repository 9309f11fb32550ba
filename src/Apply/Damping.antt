-- ===== src/Apply/Damping.antt =====
-- apply/apply.go: requireShrinksWithGrowth, holdGrowths, commitmentOf and setOutcome.
pub mod Held
pub mod Paid
pub mod Counted
pub mod Coupled
pub mod Fits
use text.Mathlib.Text.{◌==◌ as str_eq}
use fpm_tune.Common.{
  ℕ, suc, ◌*◌, ◌^◌, String, Bool, true, false, not, ◌&&◌, ◌||◌, List, [], ◌∷◌, ◌++◌, map, Option,
  none, some, if◌then◌else◌, ◌==◌,
}
use fpm_tune.Common.Word.{add64, sub64, mul64, slt, sle}
use fpm_tune.Allocate.Compute.Lines.{PoolPlan, Plan}
use fpm_tune.Apply.Decide.{
  Action, applied, too_small, held_back, unchanged, Outcome, Reason, below_threshold,
  cannot_reload_yet, fully_committed,
}

-- `included[name]` for the names of a list of plans.
unfoldable pub has : String → List PoolPlan → Bool
has name [] = false
has name (p ∷ ps) = str_eq p.name name || has name ps

unfoldable pub commitment_from : List PoolPlan → ℕ → List PoolPlan → ℕ
commitment_from changes total [] = total
commitment_from changes total (pp ∷ ps) =
    let n = if has pp.name changes || sle pp.current 0 then pp.max_children else pp.current in
    commitment_from changes (add64 total (mul64 n pp.worker_bytes)) ps

-- What the host runs with these changes applied and everything else left where it is.
unfoldable pub commitment_of : Plan → List PoolPlan → ℕ
unfolding commitment_from has
commitment_of plan changes = commitment_from changes 0 plan.pools

unfoldable pub set_outcome : String → Action → Reason → List Outcome → List Outcome
set_outcome pool action reason [] = []
set_outcome pool action reason (o ∷ os) =
    (if str_eq o.pool pool then record o { action = action; reason = reason } else o)
    ∷ set_outcome pool action reason os

abbrev pub is_growth : PoolPlan → Bool
is_growth pp = slt 0 pp.current && slt pp.current pp.max_children

-- What a growth asks for, in bytes.
abbrev pub growth_bytes : PoolPlan → ℕ
growth_bytes pp = mul64 (sub64 pp.max_children pp.current) pp.worker_bytes

-- The elements that pass a test, in their order.
unfoldable pub keep {ℓ} : {A : Type ℓ} → (A → Bool) → List A → List A
keep test [] = []
keep test (x ∷ xs) = let rest = keep test xs in if test x then x ∷ rest else rest

pub record Damped : Type 0 where
  pub changes : List PoolPlan
  pub outcomes : List Outcome

unfoldable pub hold_loop : Plan → ℕ → List PoolPlan → Damped → Damped
hold_loop plan limit [] d = d
hold_loop plan limit (g ∷ gs) d =
    let fits = sle (commitment_of plan (d.changes ++ (g ∷ []))) limit in
    hold_loop plan limit gs (
      if fits then record d { changes = d.changes ++ (g ∷ []) } else record d {
        outcomes =
            set_outcome g.name held_back (fully_committed g.current g.max_children) d.outcomes;
      })

-- What could still be freed: a reduction that was refused as too small.
pub record Reduction : Type 0 where
  pub pool : PoolPlan
  pub frees : ℕ

-- action[name]: the last outcome of that name.
unfoldable pub action_of : Option Action → String → List Outcome → Option Action
action_of found name [] = found
action_of found name (o ∷ os) =
    action_of (if str_eq o.pool name then some o.action else found) name os

abbrev pub is_too_small : Option Action → Bool
is_too_small (some too_small) = true
is_too_small _ = false

unfoldable pub reductions : List PoolPlan → List Outcome → List PoolPlan → List Reduction
reductions changes outcomes [] = []
reductions changes outcomes (pp ∷ ps) =
    let skip =
      (pp.unknown || has pp.name changes) || (sle pp.current 0 || sle pp.current pp.max_children) in
    let rest = reductions changes outcomes ps in
    if skip || not (is_too_small (action_of none pp.name outcomes))
    then rest
    else record { pool = pp; frees = mul64 (sub64 pp.current pp.max_children) pp.worker_bytes }
      ∷ rest

-- The loops of requireShrinksWithGrowth: the changes, the names left in `included` that they are
-- read by, the commitment that is kept up, and the outcomes.
pub record Coupling : Type 0 where
  pub changes : List PoolPlan
  pub dropped : List String
  pub committed : ℕ
  pub outcomes : List Outcome

unfoldable pub pull_reductions : ℕ → List Reduction → Coupling → Coupling
pull_reductions limit [] c = c
pull_reductions limit (r ∷ rs) c =
    let next = pull_reductions limit rs (record c {
      changes = c.changes ++ (r.pool ∷ []);
      committed = sub64 c.committed r.frees;
      outcomes =
          set_outcome r.pool.name applied (below_threshold r.pool.current r.pool.max_children)
            c.outcomes;
    }) in
    if sle c.committed limit then c else next

unfoldable pub drop_growths : ℕ → List PoolPlan → Coupling → Coupling
drop_growths limit [] c = c
drop_growths limit (g ∷ gs) c =
    let next = drop_growths limit gs (record c {
      dropped = g.name ∷ c.dropped;
      committed = sub64 c.committed (growth_bytes g);
      outcomes =
          set_outcome g.name held_back (cannot_reload_yet g.current g.max_children) c.outcomes;
    }) in
    if sle c.committed limit then c else next

unfoldable pub has_name : String → List String → Bool
has_name name [] = false
has_name name (n ∷ ns) = str_eq n name || has_name name ns

abbrev pub max_plausible_worker_bytes : ℕ
max_plausible_worker_bytes = 2 ^ 40

abbrev pub max_plausible_children : ℕ
max_plausible_children = 1_000_000

unfoldable pub implausible : List PoolPlan → Bool
implausible [] = false
implausible (pp ∷ ps) =
    ((sle pp.worker_bytes 0 || slt max_plausible_worker_bytes pp.worker_bytes)
      || (slt max_plausible_children pp.max_children || slt max_plausible_children pp.current))
    || implausible ps

-- sort.Slice promises no order between equal elements, so it is a parameter.
module _ (sort : (A : Type 0) → (A → A → Bool) → List A → List A) where
  abbrev pub largest_first : List PoolPlan → List PoolPlan
  largest_first = sort PoolPlan (λ a b. slt (growth_bytes b) (growth_bytes a))

  unfoldable pub hold_growths : Plan → List PoolPlan → List Outcome → ℕ → Damped
  hold_growths plan changes outcomes limit =
      hold_loop plan limit (largest_first (keep is_growth changes))
        (record { changes = keep (λ p. not (is_growth p)) changes; outcomes = outcomes })

  -- The second half of requireShrinksWithGrowth, on a host with room to redistribute.
  unfoldable pub couple : Plan → List PoolPlan → List Outcome → (limit committed : ℕ) → Damped
  couple plan changes outcomes limit committed =
      let available =
        sort Reduction (λ a b. slt b.frees a.frees) (reductions changes outcomes plan.pools) in
      let pulled =
        pull_reductions limit available (record {
          changes = changes;
          dropped = [];
          committed = committed;
          outcomes = outcomes;
        }) in
      let left = drop_growths limit (largest_first (keep is_growth pulled.changes)) pulled in
      if sle pulled.committed limit
      then record { changes = pulled.changes; outcomes = pulled.outcomes }
      else record {
        changes = keep (λ p. not (has_name p.name left.dropped)) left.changes;
        outcomes = left.outcomes;
      }

  unfoldable pub require_shrinks_with_growth : Plan → List PoolPlan → List Outcome → Damped
  require_shrinks_with_growth plan changes outcomes =
      let limit = sub64 plan.total_bytes plan.reserve_bytes in
      let committed = commitment_of plan changes in
      let same : Damped = record { changes = changes; outcomes = outcomes } in
      if sle limit 0
      then same
      else (if implausible plan.pools
          then same
          else (if sle committed limit
              then same
              else (if plan.capacity_exhausted
                  then hold_growths plan changes outcomes limit
                  else couple plan changes outcomes limit committed)))
