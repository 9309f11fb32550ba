-- ===== src/Plan/Reserve/Within.antt =====
-- plan/plan.go: what reserveFor keeps back is within the memory.
use Prim.Native.Nat.{min}
use fpm_tune.Common.{ℕ, ◌/◌, ◌^◌, ◌≤◌, ◌<◌, ◌≡◌, true, false, arith}
use fpm_tune.Common.Word.{slt, div64}
use fpm_tune.Common.Float.{Float, IsIeee}
use fpm_tune.Plan.Types.{Profile}
use fpm_tune.Plan.Reserve.{share_bytes, reserve_for}

module _ (fl : Float) (ieee : IsIeee fl) where
  share-le :
      (memory : ℕ) (p : Profile fl)
      → 0 < memory
      → memory < 2 ^ 53
      → fl.fle p.reserve_fraction (fl.of_int 1) ≡ true
      → (slt memory (share_bytes fl memory p) ≡ false) × (share_bytes fl memory p < 2 ^ 64)
  unfolding share_bytes
  share-le memory p some_memory small h =
      let x = fl.mul (fl.of_int memory) p.reserve_fraction in
      (
        ieee.trunc_le memory x small (ieee.mul_le memory p.reserve_fraction some_memory small h),
        ieee.trunc_word x,
      )

  -- The reserve is the operator's where that is positive. Otherwise it is at most the memory, and at
  -- least the profile's floor or half the memory, the lesser of the two. The profile's share is at
  -- most 1, its floor is not negative, and the memory is positive and a float holds it exactly.
  pub reserve_for_bounds :
      (memory : ℕ) (p : Profile fl) (override : ℕ)
      → 0 < memory
      → memory < 2 ^ 53
      → p.reserve_floor_bytes < 2 ^ 63
      → fl.fle p.reserve_fraction (fl.of_int 1) ≡ true
      → (slt 0 override ≡ true → (reserve_for fl memory p override).0 ≡ override)
        × (slt 0 override ≡ false
            → ((reserve_for fl memory p override).0 ≤ memory)
              × (min p.reserve_floor_bytes (memory / 2) ≤ (reserve_for fl memory p override).0))
  unfolding reserve_for slt div64
  reserve_for_bounds memory p override some_memory small h k =
      let share = share-le memory p some_memory small k in ground (arith, share.0, share.1)
