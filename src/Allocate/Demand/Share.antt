-- ===== src/Allocate/Demand/Share.antt =====
-- allocate/allocate.go: what a candidate is granted in a round of allocateDemand.
use native.Mathlib.Nat.{div-lt_iff_lt-mul, le-div_iff_mul-le, div-mul-le_self}
use fpm_tune.Common.{
  ℕ, ◌*◌, ◌/◌, ◌^◌, ◌≤◌, ◌<◌, ◌∙◌, sym, inl, inr, arith, Bool-cases, ltb→lt, ltb→ge,
}
use fpm_tune.Common.Word.{slt, slt_small, div64_small}
use fpm_tune.Common.Float.{Float, IsIeee}
use fpm_tune.Allocate.Types.{max_plausible_children, max_plausible_worker_bytes}
use fpm_tune.Allocate.Rows.{mul64_plausible}
use fpm_tune.Allocate.Demand.{Candidate, offer, share_of}

module _ (fl : Float) (ieee : IsIeee fl) (pot total : ℕ) where
  -- Whatever the floating-point part comes to, the offer is between one worker and the gap.
  offer_bounds :
      (w : ℕ) (c : Candidate)
      → 0 < c.gap
      → c.gap ≤ max_plausible_children
      → (0 < offer fl pot total w c) × (offer fl pot total w c ≤ c.gap)
  unfolding offer slt
  offer_bounds w c h k = ground (
    arith,
    ieee.trunc_word (
        fl.div (fl.mul (fl.of_int pot) (fl.div (fl.of_int c.gap) (fl.of_int total))) (fl.of_int w)),
  )

  -- A candidate's share, whatever the division of floats gives, is within its gap; its bytes are
  -- within what remains; and it is at least a worker where one can be paid for. The gap and the cost
  -- of a worker are positive and plausible, and what remains is below 2 ^ 63.
  pub share_of_bounds :
      (remaining w : ℕ) (c : Candidate)
      → remaining < 2 ^ 63
      → 0 < w
      → w ≤ max_plausible_worker_bytes
      → 0 < c.gap
      → c.gap ≤ max_plausible_children
      → (share_of fl pot total remaining w c ≤ c.gap)
        × (share_of fl pot total remaining w c * w ≤ remaining)
        × (w ≤ remaining → 0 < share_of fl pot total remaining w c)
  unfolding share_of
  share_of_bounds remaining w c small wp ws gp gs =
      let o = offer fl pot total w c in
      let b = offer_bounds w c gp gs in
      let exact = mul64_plausible o w (omega (arith, b)) ws in
      let test = slt_small remaining (o * w) small exact.1 in
      let quotient = div64_small remaining w small (omega arith) in
      rw exact.0 (elim (Bool-cases (slt remaining (o * w))) [
        | inl t ↦
            rw (t, quotient)
              (let less : remaining / w < o =
                  (div-lt_iff_lt-mul wp).1 (ltb→lt remaining (o * w) (sym test ∙ t)) in
                (
                  omega (arith, b, less),
                  div-mul-le_self remaining w,
                  λ h. (le-div_iff_mul-le wp).1 (omega arith),
                ))
        | inr f ↦ rw f (b.1, ltb→ge remaining (o * w) (sym test ∙ f), λ h. b.0)
      ])
