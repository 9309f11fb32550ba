-- ===== src/Lock/Tests.antt =====
-- lock/lock.go: a kernel whose locks are a list, and two processes that want the same lock.
use text.Mathlib.Text.{◌==◌ as str_eq}
use text.Mathlib.TextEquality.{eq_iff}
use text.Mathlib.TextPositions.{eq_refl}
use fpm_tune.Common.{
  ℕ, ◌≡◌, ◌≢◌, refl, String, Bool, true, false, [], ◌⊎◌, ◌∙◌, ap, Option, none, some, arith, inl,
  inr, Bool-cases, if◌then◌else◌, ◌==◌, ok, err,
}
use fpm_tune.Lock.{
  Answer, locked, would_block, Flock, Outside, Host, held, answered, acquire, without, release,
}
use fpm_tune.Lock.Exclusive.{IsFlock, boot, acquired, IsExclusive, acquire-IsExclusive}

-- The kernel's table as a function: who holds a path.
abbrev Held : Type 0
Held = String → Option ℕ

abbrev is_free : Option ℕ → ℕ → Bool
is_free none f = true
is_free (some g) f = g == f

abbrev dropped : Option ℕ → ℕ → Option ℕ
dropped none f = none
dropped (some g) f = if g == f then none else some g

grant : Held → String → ℕ → Bool → Held × Answer
grant t p f true = ((λ q. if str_eq q p then some f else t q), locked)
grant t p f false = (t, would_block)

abbrev kernel : Flock
kernel = record {
  Table = Held;
  holder = λ t p. t p;
  flock = λ t p f. grant t p f (is_free (t p) f);
  close = λ t f p. dropped (t p) f;
}

free_holder : (o : Option ℕ) (f : ℕ) → is_free o f ≡ true → (o ≡ none) ⊎ (o ≡ some f)
free_holder none f e = inl refl
free_holder (some g) f e = let z : g ≡ f = ground (arith, e) in inr (ap some z)

kept_holder : (o : Option ℕ) (f : ℕ) → o ≢ some f → dropped o f ≡ o
kept_holder none f n = refl
kept_holder (some g) f n = elim (Bool-cases (g == f)) [
  | inl t ↦ let z : g ≡ f = ground (arith, t) in absurd (n (ap some z))
  | inr e ↦ rw e refl
]

dropped-own : (f : ℕ) → dropped (some f) f ≡ none
dropped-own f = let e : (f == f) ≡ true = ground arith in rw e refl

grant-free :
    (t : Held) (p : String) (f : ℕ) (b : Bool)
    → is_free (t p) f ≡ b
    → (grant t p f b).1 ≡ locked
    → (t p ≡ none) ⊎ (t p ≡ some f)
unfolding grant
grant-free t p f true e h = free_holder (t p) f e
grant-free t p f false e h = cc

grant-taken :
    (t : Held) (p : String) (f : ℕ) (b : Bool)
    → (grant t p f b).1 ≡ locked
    → (grant t p f b).0 p ≡ some f
unfolding grant
grant-taken t p f true h = rw (eq_refl p) refl
grant-taken t p f false h = cc

grant-others :
    (t : Held) (p : String) (f : ℕ) (b : Bool) (q : String) → q ≢ p → (grant t p f b).0 q ≡ t q
unfolding grant
grant-others t p f true q ne = elim (Bool-cases (str_eq q p)) [
  | inl e ↦ absurd (ne ((eq_iff q p).0 e))
  | inr e ↦ rw e refl
]
grant-others t p f false q ne = refl

grant-refused :
    (t : Held) (p : String) (f : ℕ) (b : Bool)
    → (grant t p f b).1 ≢ locked
    → (grant t p f b).0 p ≡ t p
unfolding grant
grant-refused t p f true h = absurd (h refl)
grant-refused t p f false h = refl

kernel-IsFlock : IsFlock kernel
kernel-IsFlock = record {
  free = λ t p f. grant-free t p f (is_free (t p) f) refl;
  taken = λ t p f. grant-taken t p f (is_free (t p) f);
  others = λ t p f. grant-others t p f (is_free (t p) f);
  refused = λ t p f. grant-refused t p f (is_free (t p) f);
  closes = λ t f p. kept_holder (t p) f;
  gives_up = λ t f p e. ap (λ o. dropped o f) e ∙ dropped-own f;
}

abbrev outside : Outside
outside = record { made_directory = true; opened = true }

abbrev booted : Host kernel
booted = record { table = λ p. none; releases = []; next = 3 }

-- A daemon has the lock, and an operator wants it.
abbrev daemon : Host kernel
unfolding acquire answered grant
daemon = (acquire kernel outside "/run/a.lock" booted).0

second : (acquire kernel outside "/run/a.lock" daemon).1 ≡ err held
unfolding acquire answered grant daemon
second = refl

after_release : (acquire kernel outside "/run/a.lock" (release kernel 3 daemon)).1 ≡ ok 4
unfolding acquire answered grant daemon release without
after_release = refl

acquire-IsExclusive_example :
    IsExclusive kernel (acquire kernel outside "/run/a.lock" daemon).0.releases
unfolding daemon
acquire-IsExclusive_example = acquire-IsExclusive kernel kernel-IsFlock (
    acquired (acquired (boot (λ p. none) 3 (λ p f e. cc)) outside "/run/a.lock") outside
      "/run/a.lock")
