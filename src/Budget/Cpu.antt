-- ===== src/Budget/Cpu.antt =====
-- budget/budget.go: CPU quotas in thousandths of a core.
use text.Mathlib.Text.{◌==◌ as str_eq}
use fpm_tune.Common.{
  ℕ, zero, suc, ◌+◌, ◌-◌, ◌*◌, ◌/◌, ◌^◌, ◌≤◌, ◌<◌, ◌≡◌, ◌∙◌, String, false, List, [], ◌∷◌, Option,
  none, some, if◌then◌else◌, arith,
}
use native.Mathlib.Nat.{mul-div-le, lt-mul-div-succ, mul_comm, mul-suc}
use fpm_tune.Common.Word.{
  add64, sub64, mul64, div64, slt, sle, add64_exact, sub64_exact, mul64_exact, div64_small,
  slt_small,
}

-- The conversion of a quota and a period that are numbers.
unfoldable pub millicores_of : (quota period : ℕ) → ℕ
millicores_of quota period =
    let millicores = div64 (sub64 (add64 (mul64 quota 1000) period) 1) period in
    if slt millicores 1 then 1 else millicores

unfoldable pub cores_for : (millicores : ℕ) → ℕ
cores_for millicores = div64 (add64 millicores 999) 1000

-- Millicores of limits that carry none come from their core count.
unfoldable pub millicores : (cpu_millicores cpus : ℕ) → ℕ
millicores cpu_millicores cpus = if slt 0 cpu_millicores then cpu_millicores else mul64 cpus 1000

module _ (parse_int : String → Option ℕ) where
  unfoldable pub quota_to_millicores : (quota_raw period_raw : String) → Option ℕ
  quota_to_millicores quota_raw period_raw = elim (parse_int quota_raw) [
    | none ↦ none
    | some quota ↦ elim (parse_int period_raw) [
      | none ↦ none
      | some period ↦
          if sle quota 0
          then none
          else (if sle period 0 then none else some (millicores_of quota period))
    ]
  ]

  -- The fields of cpu.max: "max" means no quota.
  unfoldable pub read_cgroup_v2_cpu : Option (List String) → Option ℕ
  unfolding quota_to_millicores
  read_cgroup_v2_cpu (some (quota ∷ period ∷ [])) =
      if str_eq quota "max" then none else quota_to_millicores quota period
  read_cgroup_v2_cpu _ = none

  unfoldable pub read_cgroup_v1_cpu : (quota period : Option String) → Option ℕ
  unfolding quota_to_millicores
  read_cgroup_v1_cpu none period = none
  read_cgroup_v1_cpu (some q) none = none
  read_cgroup_v1_cpu (some q) (some p) = quota_to_millicores q p

-- The quotient that is rounded up.
abbrev IsCeiling : (x p q : ℕ) → Type 0
IsCeiling x p q = (x ≤ q * p) × ((q - 1) * p < x) × (0 < q) × (q ≤ x)

le-mul_pos : (p k : ℕ) → 0 < p → k ≤ p * k
le-mul_pos zero k h = absurd (omega arith)
le-mul_pos (suc j) k h = let e : suc j * k ≡ j * k + k = grind arith in omega arith

quotient-IsCeiling :
    (x p q : ℕ) → 0 < x → 0 < p → p * q ≤ x + p - 1 → x + p - 1 < p * (q + 1) → IsCeiling x p q
quotient-IsCeiling x p zero hx hp low high = absurd (omega arith)
quotient-IsCeiling x p (suc k) hx hp low high =
    let next : p * (suc k + 1) ≡ p * suc k + p = grind arith in
    let step : p * suc k ≡ p * k + p = mul-suc p k in
    let swap : suc k * p ≡ p * suc k = mul_comm (suc k) p in
    let swap_k : k * p ≡ p * k = mul_comm k p in
    let back : suc k - 1 ≡ k = omega arith in
    let small : k ≤ p * k = le-mul_pos p k hp in
    rw (back, swap, swap_k) (omega arith, omega arith, omega arith, omega arith)

div-IsCeiling : (x p : ℕ) → 0 < x → 0 < p → IsCeiling x p ((x + p - 1) / p)
div-IsCeiling x p hx hp =
    quotient-IsCeiling x p ((x + p - 1) / p) hx hp (mul-div-le (x + p - 1) p)
      (lt-mul-div-succ (x + p - 1) hp)

-- The clamp to one changes no quotient that is rounded up, and cores are rounded up alike.
rounded_twice :
    (x p q : ℕ)
    → IsCeiling x p q
    → x < 2 ^ 62
    → (x ≤ (if slt q 1 then 1 else q) * p)
      × (((if slt q 1 then 1 else q) - 1) * p < x)
      × ((if slt q 1 then 1 else q) ≤ cores_for (if slt q 1 then 1 else q) * 1000)
      × ((cores_for (if slt q 1 then 1 else q) - 1) * 1000 < (if slt q 1 then 1 else q))
unfolding cores_for
rounded_twice x p q (covers, least, pos, le) b =
    let same : slt q 1 ≡ false = slt_small q 1 (omega arith) (omega arith) ∙ (ground arith) in
    rw
      (
        same,
        add64_exact q 999 (omega arith),
        div64_small (q + 999) 1000 (omega arith) (omega arith),
      )
      (covers, least, omega arith, omega arith)

-- A quota is rounded up to thousandths of a core and those to whole cores, and never to nothing: for
-- a positive quota and period, in microseconds and below 2 ^ 50, both roundings are the least that
-- cover the quota.
pub millicores_of-covers :
    (quota period : ℕ)
    → 0 < quota
    → 0 < period
    → quota < 2 ^ 50
    → period < 2 ^ 50
    → (quota * 1000 ≤ millicores_of quota period * period)
      × ((millicores_of quota period - 1) * period < quota * 1000)
      × (millicores_of quota period ≤ cores_for (millicores_of quota period) * 1000)
      × ((cores_for (millicores_of quota period) - 1) * 1000 < millicores_of quota period)
unfolding millicores_of cores_for
millicores_of-covers quota period hq hp bq bp =
    let c = div-IsCeiling (quota * 1000) period (omega arith) hp in
    let small : quota * 1000 + period < 2 ^ 63 = omega arith in
    rw
      (
        mul64_exact quota 1000 (omega arith),
        add64_exact (quota * 1000) period (omega arith),
        sub64_exact (quota * 1000 + period) 1 (omega arith) (omega arith),
        div64_small (quota * 1000 + period - 1) period (omega arith) (omega arith),
      )
      (rounded_twice (quota * 1000) period ((quota * 1000 + period - 1) / period) c (omega arith))
