-- ===== src/Apply/Run/Budget.antt =====
-- apply/apply.go: what Apply decides to change, against the budget.
use fpm_tune.Common.{ℕ, ◌≡◌, inl, inr, String, Bool, false, List, [], ◌∷◌, All, Option, Bool-cases}
use fpm_tune.Common.Word.{sub64, sle}
use fpm_tune.Common.Float.{Float}
use fpm_tune.State.Types.{State}
use fpm_tune.Allocate.Compute.Lines.{PoolPlan, Plan}
use fpm_tune.Apply.Decide.{Options, decide}
use fpm_tune.Apply.Damping.{implausible}
use fpm_tune.Apply.Damping.Counted.{AllPairs, Differ, IsSized}
use fpm_tune.Apply.Damping.Fits.{IsSort, Fits, In-all, require_shrinks_with_growth-Fits}
use fpm_tune.Apply.Write.{Master}
use fpm_tune.Apply.Run.{Calls, remembered_of, decide_all, job_of}

module _ {fl : Float} (opts : Options fl) (m : Master) (st : Option (State fl)) (now : ℕ) where
  abbrev worth : PoolPlan → Bool
  worth p = (decide fl opts (remembered_of m.config_path p.name st) now p).1

  decide_all-All :
      (P : PoolPlan → Type 0) (ps : List PoolPlan)
      → All P ps
      → All P (decide_all opts m st now ps).changes
  unfolding decide_all
  decide_all-All P [] h = tt
  decide_all-All P (p ∷ ps) h = elim (Bool-cases (worth p)) [
    | inl t ↦ rw t (h.0, decide_all-All P ps h.1)
    | inr f ↦ rw f (decide_all-All P ps h.1)
  ]

  decide_all-Differ :
      (ps : List PoolPlan)
      → AllPairs Differ ps
      → AllPairs Differ (decide_all opts m st now ps).changes
  unfolding decide_all
  decide_all-Differ [] h = tt
  decide_all-Differ (p ∷ ps) h = elim (Bool-cases (worth p)) [
    | inl t ↦ rw t (decide_all-All (Differ p) ps h.0, decide_all-Differ ps h.1)
    | inr f ↦ rw f (decide_all-Differ ps h.1)
  ]

-- What Apply changes after the decisions and the damping leaves the host within the budget less the
-- reserve, where every pool that is not changed runs as it does, or grows nothing: for a plan with a
-- positive limit and plausible costs and sizes, whose pools have different names and counts that an
-- int holds. The sort returns the elements that it is given, each as often.
pub job_of-Fits :
    {fl : Float} (calls : Calls) (default_backup_dir : String) (opts : Options fl) (plan : Plan)
    (m : Master) (st : Option (State fl)) (now : ℕ)
    → IsSort calls.sort
    → AllPairs Differ plan.pools
    → All IsSized plan.pools
    → sle (sub64 plan.total_bytes plan.reserve_bytes) 0 ≡ false
    → implausible plan.pools ≡ false
    → Fits plan
        (sub64 plan.total_bytes plan.reserve_bytes)
        (job_of calls default_backup_dir opts plan m st now).changes
unfolding job_of
job_of-Fits calls default_backup_dir opts plan m st now good distinct sized some_room fair =
    require_shrinks_with_growth-Fits calls.sort good plan distinct sized _ _
      (decide_all-Differ _ m st now plan.pools distinct)
      (decide_all-All _ m st now _ plan.pools (In-all plan.pools)) some_room fair
