-- ===== src/Common/Float.antt =====
-- Go's float64, as the operations that the program uses of it, and the laws of IEEE 754
-- arithmetic that its proofs rely on. Integers are the bit patterns of Word.
use Prim.Native.Nat.{ℕ, ◌*◌, ◌≤◌, ◌<◌, ◌^◌}
use mathlib.Core.Path.{◌≡◌}
use mathlib.Core.Bool.{Bool, true, false}
use fpm_tune.Common.Word.{slt}

pub record Float : Type 1 where
  pub Num : Type 0
  -- float64(n)
  pub of_int : ℕ → Num
  -- int(x), or int64(x)
  pub trunc : Num → ℕ
  pub mul : Num → Num → Num
  pub div : Num → Num → Num
  pub add : Num → Num → Num
  pub sub : Num → Num → Num
  -- math.Ceil
  pub ceil : Num → Num
  -- math.Round and math.Sqrt
  pub round : Num → Num
  pub sqrt : Num → Num
  -- -x
  pub neg : Num → Num
  -- x < y and x <= y; false where one of them is NaN
  pub flt : Num → Num → Bool
  pub fle : Num → Num → Bool

-- Rounding is monotone, and exact on the integers below 2 ^ 53. All NaNs count as one value, and a
-- conversion that is out of range gives the least int64 or saturates, as on the 64-bit hosts of Go.
pub record IsIeee (fl : Float) : Type 0 where
  -- A quotient of a smaller by a larger integer is at most 1.
  pub div_le_one :
      (a b : ℕ)
      → a < b
      → b < 2 ^ 63
      → fl.fle (fl.div (fl.of_int a) (fl.of_int b)) (fl.of_int 1) ≡ true
  -- A product of an exact positive integer with a factor that is at most 1 is at most that integer;
  -- 0 times an infinity is NaN.
  pub mul_le :
      (n : ℕ) (s : fl.Num)
      → 0 < n
      → n < 2 ^ 53
      → fl.fle s (fl.of_int 1) ≡ true
      → fl.fle (fl.mul (fl.of_int n) s) (fl.of_int n) ≡ true
  -- A product of an exact positive integer with a factor that is at most another is at most theirs.
  pub mul_le_int :
      (n k : ℕ) (s : fl.Num)
      → 0 < n
      → 0 < k
      → n * k < 2 ^ 53
      → fl.fle s (fl.of_int k) ≡ true
      → fl.fle (fl.mul (fl.of_int n) s) (fl.of_int (n * k)) ≡ true
  -- Of two numbers one is at most the other.
  pub total :
      (x y : fl.Num)
      → fl.fle x x ≡ true
      → fl.fle y y ≡ true
      → fl.flt x y ≡ false
      → fl.fle y x ≡ true
  -- A float at most an exact integer converts to an integer at most that.
  pub trunc_le :
      (n : ℕ) (x : fl.Num) → n < 2 ^ 53 → fl.fle x (fl.of_int n) ≡ true → slt n (fl.trunc x) ≡ false
  -- Multiplication commutes, the order on exact integers is theirs, and a ceiling stays at or below
  -- an integer that its argument does not pass.
  pub mul_comm : (x y : fl.Num) → fl.mul x y ≡ fl.mul y x
  pub of_int_le : (a b : ℕ) → a ≤ b → b < 2 ^ 53 → fl.fle (fl.of_int a) (fl.of_int b) ≡ true
  pub ceil_le :
      (n : ℕ) (x : fl.Num)
      → n < 2 ^ 53
      → fl.fle x (fl.of_int n) ≡ true
      → fl.fle (fl.ceil x) (fl.of_int n) ≡ true
  -- A conversion fills a machine word.
  pub trunc_word : (x : fl.Num) → fl.trunc x < 2 ^ 64
