-- ===== src/Common/Rational.antt =====
-- Exact fractions of magnitudes as an instance of Float, which shows that its laws can be met and
-- lets the model run on concrete inputs. It has no sign: a negation is the identity, and a
-- difference stops at zero.
use Prim.Native.Nat.{ℕ, zero, suc, ◌+◌, ◌-◌, ◌*◌, ◌/◌, ◌%◌, ◌^◌, ◌≤◌, ◌<◌}
use native.Mathlib.Nat.{
  div-le_of_le-mul, mul_comm, mul_assoc, mul-le-mul_left, div-zero, div-lt_iff_lt-mul,
}
use mathlib.Core.Path.{◌≡◌, ap₂}
use mathlib.Core.Bool.{true, false}
use native.Mathlib.Omega.{arith}
use fpm_tune.Common.Tests.{ltb, leb, if◌then◌else◌}
use fpm_tune.Common.Word.{slt, slt_small}
use fpm_tune.Common.Float.{Float, IsIeee}

-- The whole part of a square root.
abbrev root : (fuel n : ℕ) → ℕ
root zero n = 0
root (suc fuel) n = let r = 2 * root fuel (n / 4) in if leb ((r + 1) * (r + 1)) n then r + 1 else r

abbrev pub rational : Float
rational = record {
  Num = ℕ × ℕ;
  of_int = λ n. (n, 1);
  trunc = λ x. (x.0 / x.1) % 2 ^ 64;
  mul = λ x y. (x.0 * y.0, x.1 * y.1);
  div = λ x y. (x.0 * y.1, x.1 * y.0);
  add = λ x y. (x.0 * y.1 + y.0 * x.1, x.1 * y.1);
  sub = λ x y. (x.0 * y.1 - y.0 * x.1, x.1 * y.1);
  ceil = λ x. ((x.0 + x.1 - 1) / x.1, 1);
  round = λ x. ((2 * x.0 + x.1) / (2 * x.1), 1);
  sqrt = λ x. (root 64 (x.0 * x.1), x.1);
  neg = λ x. x;
  flt = λ x y. ltb (x.0 * y.1) (y.0 * x.1);
  fle = λ x y. leb (x.0 * y.1) (y.0 * x.1);
}

below_one : (a b : ℕ) → a < b → leb (a * 1 * 1) (1 * (1 * b)) ≡ true
below_one a b h = ground arith

scaled_int-le :
    (n k s t : ℕ) → leb (s * 1) (k * t) ≡ true → leb (n * s * 1) (n * k * (1 * t)) ≡ true
scaled_int-le n k s t h =
    let le : s ≤ k * t = ground arith in
    let m : n * s ≤ n * (k * t) = mul-le-mul_left n le in
    let e = mul_assoc n k t in ground (arith, m, e)

in_total : (a b c d : ℕ) → ltb (a * d) (c * b) ≡ false → leb (c * b) (a * d) ≡ true
in_total a b c d h = ground arith

scaled-le : (n s t : ℕ) → leb (s * 1) (1 * t) ≡ true → leb (n * s * 1) (n * (1 * t)) ≡ true
scaled-le n s t h =
    let le : s ≤ t = ground arith in let m : n * s ≤ n * t = grind arith in ground arith

truncated : (n a b : ℕ) → n < 2 ^ 53 → leb (a * 1) (n * b) ≡ true → slt n ((a / b) % 2 ^ 64) ≡ false
truncated n a b h k =
    let le : a ≤ b * n = ground arith in
    let q : a / b ≤ n = div-le_of_le-mul b le in ground (arith, slt_small n ((a / b) % 2 ^ 64))

word : (a b : ℕ) → (a / b) % 2 ^ 64 < 2 ^ 64
word a b = omega arith

bound : (n a b : ℕ) → a ≤ n * suc b → a + suc b - 1 < suc n * suc b
bound n a b h = grind arith

quotient : (n a b : ℕ) → a ≤ n * suc b → (a + suc b - 1) / suc b < suc n
quotient n a b h = (div-lt_iff_lt-mul (omega arith)).1 (bound n a b h)

ceiling : (n a b : ℕ) → leb (a * 1) (n * b) ≡ true → leb ((a + b - 1) / b * 1) (n * 1) ≡ true
ceiling n a zero h = ground (arith, div-zero (a + 0 - 1))
ceiling n a (suc b) h = let le : a ≤ n * suc b = ground arith in ground (arith, quotient n a b le)

in_order : (a b : ℕ) → a ≤ b → leb (a * 1) (b * 1) ≡ true
in_order a b h = ground arith

pub rational-IsIeee : IsIeee rational
rational-IsIeee = record {
  div_le_one = λ a b h k. below_one a b h;
  mul_le = λ n s q h k. scaled-le n s.0 s.1 k;
  mul_le_int = λ n k s q r h e. scaled_int-le n k s.0 s.1 e;
  total = λ x y h k e. in_total x.0 x.1 y.0 y.1 e;
  trunc_le = λ n x h k. truncated n x.0 x.1 h k;
  mul_comm = λ x y. ap₂ (λ p q. (p, q)) (mul_comm x.0 y.0) (mul_comm x.1 y.1);
  of_int_le = λ a b h k. in_order a b h;
  ceil_le = λ n x h k. ceiling n x.0 x.1 k;
  trunc_word = λ x. word x.0 x.1;
}
