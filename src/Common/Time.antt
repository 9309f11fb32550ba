-- ===== src/Common/Time.antt =====
-- Go's time.Time and time.Duration. A time is its int64 nanoseconds from the epoch, or the zero time
-- of year 1, which lies before all of these by more than a duration holds.
use Prim.Native.Nat.{ℕ, ◌-◌, ◌*◌}
use mathlib.Core.Bool.{Bool, true, false, not, ◌&&◌}
use mathlib.Core.Option.{Option, none, some}
use fpm_tune.Common.Tests.{if◌then◌else◌}
use fpm_tune.Common.Word.{int64_min, add64, sub64, mul64, div64, slt}
use fpm_tune.Common.Float.{Float}

abbrev pub Time : Type 0
Time = Option ℕ

abbrev pub is_zero : Time → Bool
is_zero none = true
is_zero (some t) = false

abbrev pub second : ℕ
second = 1_000_000_000

abbrev pub minute : ℕ
minute = 60 * second

abbrev pub max_duration : ℕ
max_duration = int64_min - 1

-- now.Sub(at): the largest or the smallest duration where the difference is out of range.
unfoldable pub since : (now at : ℕ) → ℕ
since now at =
    let d = sub64 now at in
    if slt at now && slt d 0
    then max_duration
    else (if slt now at && not (slt d 0) then int64_min else d)

-- t.Sub(u)
unfoldable pub sub_time : Time → Time → ℕ
unfolding since
sub_time (some t) (some u) = since t u
sub_time (some t) none = max_duration
sub_time none (some u) = int64_min
sub_time none none = 0

-- t.After(u)
unfoldable pub after : Time → Time → Bool
after (some t) (some u) = slt u t
after (some t) none = true
after none u = false

-- t.Add(d) of a time that is not zero.
abbrev pub add_time : ℕ → ℕ → ℕ
add_time t d = add64 t d

-- d.Seconds(): the whole seconds and the part of a second.
unfoldable pub seconds : (fl : Float) → ℕ → fl.Num
seconds fl d =
    let whole = div64 d second in
    fl.add (fl.of_int whole) (fl.div (fl.of_int (sub64 d (mul64 whole second))) (fl.of_int second))
