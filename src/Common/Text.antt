-- ===== src/Common/Text.antt =====
-- What the program uses of Go's packages strings and strconv on a line of text.
use Prim.Native.Char.{Char, code}
use Prim.Native.Nat.{ℕ, zero, suc, ◌+◌, ◌-◌, ◌*◌, ◌/◌, ◌%◌, ◌^◌, ◌≤◌, ◌<◌}
use Prim.Native.String.{String, [] as empty, ◌∷◌ as str_cons}
use mathlib.Core.Path.{◌≡◌, refl, subst, ◌∙◌}
use mathlib.Core.Logic.{inl, inr}
use mathlib.Core.Bool.{Bool, true, false, ◌&&◌, ◌||◌}
use mathlib.Core.Option.{Option, none, some}
use native.Mathlib.Omega.{arith}
use fpm_tune.Common.Tests.{ltb, leb, ◌==◌, if◌then◌else◌, Bool-cases, ltb→lt}
use fpm_tune.Common.Word.{int64_min, int64_range}

unfoldable pub append : String → String → String
append empty t = t
append (str_cons c s) t = str_cons c (append s t)

-- unicode.IsSpace
unfoldable pub is_space : Char → Bool
is_space c =
    let n = code c in
    (n == 32 || (leb 9 n && leb n 13))
    || ((n == 133 || (n == 160 || n == 5760))
        || ((leb 8192 n && leb n 8202)
            || ((n == 8232 || n == 8233) || (n == 8239 || (n == 8287 || n == 12288)))))

unfoldable pub drop_spaces : String → String
drop_spaces empty = empty
drop_spaces (str_cons c s) = let rest = drop_spaces s in if is_space c then rest else str_cons c s

abbrev pub is_empty : String → Bool
is_empty empty = true
is_empty (str_cons c s) = false

unfoldable pub trim_right : String → String
trim_right empty = empty
trim_right (str_cons c s) =
    let rest = trim_right s in if is_space c && is_empty rest then empty else str_cons c rest

-- strings.TrimSpace
unfoldable pub trim_space : String → String
unfolding drop_spaces trim_right
trim_space s = trim_right (drop_spaces s)

unfoldable pub cut_after : Char → Option (String × String) → Option (String × String)
cut_after c none = none
cut_after c (some p) = some (str_cons c p.0, p.1)

-- strings.Cut at a character; none where it does not occur.
unfoldable pub cut_at : (mark : ℕ) → String → Option (String × String)
unfolding cut_after
cut_at mark empty = none
cut_at mark (str_cons c s) =
    let rest = cut_at mark s in if code c == mark then some (empty, s) else cut_after c rest

unfoldable pub put_before : Char → Option String → Option String
put_before c none = none
put_before c (some s) = some (str_cons c s)

-- What stands before a character that ends the text; none where it does not end it.
unfoldable pub before_last : (mark : ℕ) → String → Option String
unfolding put_before
before_last mark empty = none
before_last mark (str_cons c empty) = if code c == mark then some empty else none
before_last mark (str_cons c (str_cons d s)) = put_before c (before_last mark (str_cons d s))

unfoldable pub digit_char : ℕ → Char
digit_char zero = "0"
digit_char (suc zero) = "1"
digit_char (suc (suc zero)) = "2"
digit_char (suc (suc (suc zero))) = "3"
digit_char (suc (suc (suc (suc zero)))) = "4"
digit_char (suc (suc (suc (suc (suc zero))))) = "5"
digit_char (suc (suc (suc (suc (suc (suc zero)))))) = "6"
digit_char (suc (suc (suc (suc (suc (suc (suc zero))))))) = "7"
digit_char (suc (suc (suc (suc (suc (suc (suc (suc zero)))))))) = "8"
digit_char (suc (suc (suc (suc (suc (suc (suc (suc (suc d))))))))) = "9"

-- The digits of a number before a text; `n` rounds are enough.
unfoldable pub digits_before : (fuel n : ℕ) → String → String
unfolding digit_char
digits_before zero n s = str_cons (digit_char (n % 10)) s
digits_before (suc fuel) n s =
    let rest = digits_before fuel (n / 10) (str_cons (digit_char (n % 10)) s) in
    if ltb n 10 then str_cons (digit_char (n % 10)) s else rest

-- %d of an int.
unfoldable pub print_int : ℕ → String
unfolding digits_before
print_int n =
    if ltb n int64_min
    then digits_before n n empty
    else str_cons "-" (digits_before (int64_range - n) (int64_range - n) empty)

-- The number that digits go on to, none where a character is no digit.
unfoldable pub digits_value : (so_far : ℕ) → String → Option ℕ
digits_value n empty = some n
digits_value n (str_cons c s) =
    let rest = digits_value (n * 10 + (code c - 48)) s in
    if leb 48 (code c) && leb (code c) 57 then rest else none

unfoldable pub within : (limit : ℕ) → Option ℕ → Option ℕ
within limit none = none
within limit (some n) = if ltb n limit then some n else none

unfoldable pub negated : Option ℕ → Option ℕ
negated none = none
negated (some n) = some ((int64_range - n) % int64_range)

unfoldable pub unsigned_value : (limit : ℕ) → String → Option ℕ
unfolding digits_value within
unsigned_value limit empty = none
unsigned_value limit (str_cons c s) = within limit (digits_value 0 (str_cons c s))

-- strconv.Atoi: a sign or none, digits, and a value that an int holds.
unfoldable pub parse_int : String → Option ℕ
unfolding unsigned_value negated
parse_int empty = none
parse_int (str_cons c s) =
    if code c == 45
    then negated (unsigned_value (int64_min + 1) s)
    else (if code c == 43
        then unsigned_value int64_min s
        else unsigned_value int64_min (str_cons c s))

-- A text without a space.
abbrev pub HasNoSpace : String → Type 0
HasNoSpace empty = Unit
HasNoSpace (str_cons c s) = (is_space c ≡ false) × HasNoSpace s

pub trim_right-HasNoSpace : (s : String) → HasNoSpace s → trim_right s ≡ s
unfolding trim_right
trim_right-HasNoSpace empty h = refl
trim_right-HasNoSpace (str_cons c s) h = rw (h.0, trim_right-HasNoSpace s h.1) refl

-- The end of a text that ends in no space stays.
pub trim_right-append :
    (s : String) (c : Char) (t : String)
    → HasNoSpace (str_cons c t)
    → trim_right (append s (str_cons c t)) ≡ append s (str_cons c t)
unfolding trim_right append
trim_right-append empty c t h = trim_right-HasNoSpace (str_cons c t) h
trim_right-append (str_cons d empty) c t h = rw (h.0, trim_right-HasNoSpace t h.1) (ground arith)
trim_right-append (str_cons d (str_cons e s)) c t h =
    rw (trim_right-append (str_cons e s) c t h) (ground arith)

pub before_last-append :
    (s : String) (c : Char) (mark : ℕ)
    → (code c == mark) ≡ true
    → before_last mark (append s (str_cons c empty)) ≡ some s
unfolding before_last append put_before
before_last-append empty c mark h = rw h refl
before_last-append (str_cons d empty) c mark h = rw h refl
before_last-append (str_cons d (str_cons e s)) c mark h =
    rw (before_last-append (str_cons e s) c mark h) refl

digit-bounds : (d : ℕ) → d < 10 → (code (digit_char d) ≡ 48 + d) × (is_space (digit_char d) ≡ false)
unfolding digit_char is_space
digit-bounds zero h = (refl, refl)
digit-bounds (suc zero) h = (refl, refl)
digit-bounds (suc (suc zero)) h = (refl, refl)
digit-bounds (suc (suc (suc zero))) h = (refl, refl)
digit-bounds (suc (suc (suc (suc zero)))) h = (refl, refl)
digit-bounds (suc (suc (suc (suc (suc zero))))) h = (refl, refl)
digit-bounds (suc (suc (suc (suc (suc (suc zero)))))) h = (refl, refl)
digit-bounds (suc (suc (suc (suc (suc (suc (suc zero))))))) h = (refl, refl)
digit-bounds (suc (suc (suc (suc (suc (suc (suc (suc zero)))))))) h = (refl, refl)
digit-bounds (suc (suc (suc (suc (suc (suc (suc (suc (suc zero))))))))) h = (refl, refl)
digit-bounds (suc (suc (suc (suc (suc (suc (suc (suc (suc (suc d)))))))))) h = absurd (omega arith)

one_digit :
    (n : ℕ) (s : String)
    → n < 10
    → digits_value 0 (str_cons (digit_char (n % 10)) s) ≡ digits_value n s
unfolding digits_value
one_digit n s h = let b = digit-bounds (n % 10) (omega arith) in ground (arith, b.0)

more_digits :
    (n : ℕ) (s : String)
    → digits_value (n / 10) (str_cons (digit_char (n % 10)) s) ≡ digits_value n s
unfolding digits_value
more_digits n s = let b = digit-bounds (n % 10) (omega arith) in ground (arith, b.0)

digits-value :
    (fuel n : ℕ) (s : String)
    → n ≤ fuel
    → digits_value 0 (digits_before fuel n s) ≡ digits_value n s
unfolding digits_before digits_value
digits-value zero n s h = let b = digit-bounds (n % 10) (omega arith) in ground (arith, b.0)
digits-value (suc fuel) n s h =
    let b = digit-bounds (n % 10) (omega arith) in
    let rest = digits-value fuel (n / 10) (str_cons (digit_char (n % 10)) s) (omega arith) in
    elim (Bool-cases (ltb n 10)) [
      | inl t ↦ rw t (one_digit n s (ltb→lt n 10 t))
      | inr f ↦ rw f (rest ∙ more_digits n s)
    ]

digits-HasNoSpace : (fuel n : ℕ) (s : String) → HasNoSpace s → HasNoSpace (digits_before fuel n s)
unfolding digits_before
digits-HasNoSpace zero n s h = ((digit-bounds (n % 10) (omega arith)).1, h)
digits-HasNoSpace (suc fuel) n s h =
    let b = (digit-bounds (n % 10) (omega arith)).1 in
    elim (Bool-cases (ltb n 10)) [
      | inl t ↦ rw t (b, h)
      | inr f ↦ rw f (digits-HasNoSpace fuel (n / 10) (str_cons (digit_char (n % 10)) s) (b, h))
    ]

pub print_int-HasNoSpace : (n : ℕ) → HasNoSpace (print_int n)
unfolding print_int is_space
print_int-HasNoSpace n = elim (Bool-cases (ltb n int64_min)) [
  | inl t ↦ rw t (digits-HasNoSpace n n empty tt)
  | inr f ↦ rw f (refl, digits-HasNoSpace (int64_range - n) (int64_range - n) empty tt)
]

digits-first :
    (fuel n : ℕ) (s : String)
    → (c : Char) × (t : String) × (digits_before fuel n s ≡ str_cons c t) × (48 ≤ code c)
unfolding digits_before
digits-first zero n s =
    let b = (digit-bounds (n % 10) (omega arith)).0 in
    (digit_char (n % 10), s, refl, omega (arith, b))
digits-first (suc fuel) n s =
    let b = (digit-bounds (n % 10) (omega arith)).0 in
    elim (Bool-cases (ltb n 10)) [
      | inl t ↦ rw t (digit_char (n % 10), s, refl, omega (arith, b))
      | inr f ↦ rw f (digits-first fuel (n / 10) (str_cons (digit_char (n % 10)) s))
    ]

-- A printed number is digits without a space, which are read back as the number.
pub record IsPrinted (n : ℕ) (c : Char) (t : String) : Type 0 where
  pub same : print_int n ≡ str_cons c t
  pub first : 48 ≤ code c
  pub solid : HasNoSpace (str_cons c t)
  pub value : parse_int (str_cons c t) ≡ some n

parse_digits :
    (n : ℕ) (c : Char) (t : String)
    → n < 2 ^ 63
    → 48 ≤ code c
    → digits_value 0 (str_cons c t) ≡ some n
    → parse_int (str_cons c t) ≡ some n
unfolding parse_int unsigned_value within
parse_digits n c t h k e =
    let minus : (code c == 45) ≡ false = ground arith in
    let plus : (code c == 43) ≡ false = ground arith in
    let small : ltb n int64_min ≡ true = ground arith in rw (minus, plus, e, small) refl

no_digits : (n : ℕ) → digits_value n empty ≡ some n
unfolding digits_value
no_digits n = refl

pub print_int-IsPrinted : (n : ℕ) → n < 2 ^ 63 → (c : Char) × (t : String) × IsPrinted n c t
unfolding print_int
print_int-IsPrinted n h =
    let (c, t, e, k) = digits-first n n empty in
    let small : ltb n int64_min ≡ true = ground arith in
    let v : digits_value 0 (str_cons c t) ≡ some n =
      subst (λ s. digits_value 0 s ≡ some n) e
        (digits-value n n empty (omega arith) ∙ no_digits n) in
    (
      c,
      t,
      record {
        same = rw small e;
        first = k;
        solid = subst HasNoSpace e (digits-HasNoSpace n n empty tt);
        value = parse_digits n c t h k v;
      },
    )
