-- ===== src/Common/Word.antt =====
-- Go's int and int64 on a 64-bit host. A value is its bit pattern, a number below 2 ^ 64; arithmetic
-- wraps, and comparison and division read the pattern as two's complement.
use Prim.Native.Nat.{ℕ, ◌+◌, ◌-◌, ◌*◌, ◌/◌, ◌%◌, ◌^◌, ◌≤◌, ◌<◌}
use mathlib.Core.Path.{◌≡◌, ◌∙◌}
use mathlib.Core.Logic.{inl, inr}
use mathlib.Core.Bool.{Bool, true, false, not}
use native.Mathlib.Omega.{arith}
use native.Mathlib.Nat.{mod-eq_of_lt, mod-eq-sub-mod}
use fpm_tune.Common.Tests.{ltb, ltb→lt, ltb→ge, Bool-cases, if◌then◌else◌}

abbrev pub int64_range : ℕ
int64_range = 2 ^ 64

-- The first pattern that stands for a negative number.
abbrev pub int64_min : ℕ
int64_min = 2 ^ 63

unfoldable pub add64 : ℕ → ℕ → ℕ
add64 a b = (a + b) % int64_range

unfoldable pub sub64 : ℕ → ℕ → ℕ
sub64 a b = (a + int64_range - b) % int64_range

unfoldable pub mul64 : ℕ → ℕ → ℕ
mul64 a b = (a * b) % int64_range

-- `a < b`, signed.
unfoldable pub slt : ℕ → ℕ → Bool
slt a b = ltb ((a + int64_min) % int64_range) ((b + int64_min) % int64_range)

-- `a <= b`, signed.
abbrev pub sle : ℕ → ℕ → Bool
sle a b = not (slt b a)

abbrev pub magnitude : ℕ → ℕ
magnitude a = if ltb a int64_min then a else int64_range - a

-- `a / b`, signed, towards zero. Go panics where b is 0; every use tests for it first.
unfoldable pub div64 : ℕ → ℕ → ℕ
div64 a b =
    if ltb a int64_min
    then (if ltb b int64_min then a / b else (int64_range - a / magnitude b) % int64_range)
    else (if ltb b int64_min
        then (int64_range - magnitude a / b) % int64_range
        else (magnitude a / magnitude b) % int64_range)

-- `a % b`, with the sign of `a`. Go panics where b is 0.
unfoldable pub rem64 : ℕ → ℕ → ℕ
rem64 a b =
    if ltb a int64_min
    then a % magnitude b
    else (int64_range - magnitude a % magnitude b) % int64_range

pub add64_exact : (a b : ℕ) → a + b < int64_range → add64 a b ≡ a + b
unfolding add64
add64_exact a b h = omega arith

pub sub64_exact : (a b : ℕ) → a < int64_range → b ≤ a → sub64 a b ≡ a - b
unfolding sub64
sub64_exact a b h k = omega arith

pub mul64_exact : (a b : ℕ) → a * b < int64_range → mul64 a b ≡ a * b
unfolding mul64
mul64_exact a b h = mod-eq_of_lt h

pub slt_small : (a b : ℕ) → a < int64_min → b < int64_min → slt a b ≡ ltb a b
unfolding slt
slt_small a b h k = ground arith

pub div64_small : (a b : ℕ) → a < int64_min → b < int64_min → div64 a b ≡ a / b
unfolding div64
div64_small a b h k = ground arith

pub slt_irrefl : (a : ℕ) → slt a a ≡ false
unfolding slt
slt_irrefl a = ground arith

-- What a signed test says of two patterns when one is known not to be negative.
pub slt→lt : (a b : ℕ) → a < int64_min → b < int64_range → slt a b ≡ true → a < b
unfolding slt
slt→lt a b h k e = ground arith

pub slt→small : (a b : ℕ) → a < int64_min → b < int64_range → slt a b ≡ true → b < int64_min
unfolding slt
slt→small a b h k e = ground arith

-- A pattern between a positive bound and a small one is a small number.
pub slt_between :
    (n m : ℕ)
    → n < int64_range
    → m < int64_min
    → slt n 1 ≡ false
    → slt m n ≡ false
    → (0 < n) × (n ≤ m)
unfolding slt
slt_between n m h k e f = ground arith

-- A difference of two small numbers is positive where it should be.
pub slt-sub64 : (a b : ℕ) → a < int64_min → b < int64_min → slt 0 (sub64 a b) ≡ ltb b a
unfolding slt sub64
slt-sub64 a b h k = ground arith

pub rem64_small : (a b : ℕ) → a < int64_min → b < int64_min → rem64 a b ≡ a % b
unfolding rem64
rem64_small a b h k = ground arith

mod_wrap : (a b : ℕ) → a < b + b → a % b ≡ (if ltb a b then a else a - b)
mod_wrap a b l = elim (Bool-cases (ltb a b)) [
  | inl t ↦ rw t (mod-eq_of_lt (ltb→lt a b t))
  | inr f ↦
      let below : a - b < b = omega (arith, ltb→ge a b f) in
      rw f (mod-eq-sub-mod (ltb→ge a b f) ∙ mod-eq_of_lt below)
]

-- One step past the end of a range wraps to its start.
pub rem64_wrap :
    (a b : ℕ)
    → a < int64_min
    → b < int64_min
    → a < b + b
    → rem64 a b ≡ (if ltb a b then a else a - b)
rem64_wrap a b h k l = rem64_small a b h k ∙ mod_wrap a b l
