-- ===== src/Plan/Cpu/Ceiling.antt =====
-- plan/cpu.go: the ceiling of cpuCeiling cannot overflow, whatever headroom arrives.
use Prim.Native.Nat.{max}
use fpm_tune.Common.{
  ℕ, zero, suc, ◌+◌, ◌*◌, ◌/◌, ◌^◌, ◌≤◌, ◌<◌, ◌≡◌, refl, ◌⊎◌, inl, inr, true, false, arith,
  Bool-cases,
}
use fpm_tune.Common.Word.{slt, add64, div64}
use fpm_tune.Common.Float.{Float, IsIeee}
use fpm_tune.Plan.Cpu.{max_cpu_headroom, clamped, least_ceiling, cpu_ceiling}

pub least_ceiling-exact : (host : ℕ) → host < 2 ^ 62 → least_ceiling host ≡ (host + 999) / 1000 + 1
unfolding least_ceiling add64 div64
least_ceiling-exact host h = ground arith

module _ (fl : Float) (ieee : IsIeee fl) where
  open fl use {fle, of_int}

  clamped-le : (h : fl.Num) → fle h h ≡ true → fle (clamped fl h) (of_int max_cpu_headroom) ≡ true
  unfolding clamped
  clamped-le h e = rw e (elim (Bool-cases (fl.flt h (of_int 1))) [
    | inl t ↦ rw t (ieee.of_int_le 1 100 (omega arith) (omega arith))
    | inr f ↦ elim (Bool-cases (fl.flt (of_int max_cpu_headroom) h)) [
      | inl t ↦ rw (f, t) (ieee.of_int_le 100 100 (omega arith) (omega arith))
      | inr g ↦
          let top = ieee.of_int_le 100 100 (omega arith) (omega arith) in
          rw (f, g) (ieee.total (of_int 100) h top e g)
    ]
  ])

  -- The product is at most a hundred times the fill count.
  product-le :
      (fill : ℕ) (h : fl.Num)
      → 0 < fill
      → fill * 100 < 2 ^ 53
      → fle h h ≡ true
      → slt (fill * 100) (fl.trunc (fl.ceil (fl.mul (of_int fill) (clamped fl h)))) ≡ false
  product-le fill h pos small e =
      let x = fl.mul (of_int fill) (clamped fl h) in
      let le = ieee.mul_le_int fill 100 (clamped fl h) pos (omega arith) small (clamped-le h e) in
      ieee.trunc_le (fill * 100) (fl.ceil x) small (ieee.ceil_le (fill * 100) x small le)

  -- With a positive fill count the ceiling is at least a worker for each core and one more, and at
  -- most that or a hundred times the fill count; with none it is zero, which is no ceiling. The
  -- headroom is any number, in range or not, but NaN; the host's CPU and the fill count are within
  -- what a float holds exactly.
  pub cpu_ceiling_bounds :
      (fill host : ℕ) (headroom : fl.Num)
      → fill * 100 < 2 ^ 53
      → host < 2 ^ 62
      → fle headroom headroom ≡ true
      → ((fill ≡ 0) × (cpu_ceiling fl fill host headroom ≡ 0))
        ⊎ ((0 < fill)
            × ((host + 999) / 1000 + 1 ≤ cpu_ceiling fl fill host headroom)
            × (cpu_ceiling fl fill host headroom ≤ max (fill * 100) ((host + 999) / 1000 + 1)))
  unfolding cpu_ceiling slt
  cpu_ceiling_bounds zero host headroom small h e = inl (refl, ground arith)
  cpu_ceiling_bounds (suc n) host headroom small h e =
      let product = fl.trunc (fl.ceil (fl.mul (of_int (suc n)) (clamped fl headroom))) in
      let floor = least_ceiling-exact host h in
      let le = product-le (suc n) headroom (omega arith) small e in
      let word = ieee.trunc_word (fl.ceil (fl.mul (of_int (suc n)) (clamped fl headroom))) in
      ground (arith, floor, le, word)
