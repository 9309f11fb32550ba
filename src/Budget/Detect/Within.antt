-- ===== src/Budget/Detect/Within.antt =====
-- budget/budget.go: DetectFor against the limit files of the process's cgroups.
use fpm_tune.Common.{
  ℕ, ◌^◌, ◌≤◌, ◌<◌, ◌≡◌, refl, ◌⊎◌, inl, inr, String, true, false, not, ◌||◌, List, Option, none,
  some, Result, ok, err, All, All-map, Bool-cases, ltb, arith,
}
use fpm_tune.Common.Word.{slt, slt_small}
use fpm_tune.Budget.Limits.{Limits}
use fpm_tune.Budget.Cgroup.{Line, Place, cgroup_limit_of}
use fpm_tune.Budget.Cgroup.Tightest.{places_of, Holds, Tightest, cgroup_limit_of-Tightest}
use fpm_tune.Budget.Detect.{limit_to, detect_for}

module _ {Err : Type 0} (parse_int : String → Option ℕ)
    (read_trimmed : Place → Result Err String) where
  -- The limits of a process: the detected ones with the error of the lookup, or a memory that is
  -- within the detected one and within every limit at these places.
  abbrev pub Within : List Place → (detected : Limits Err) → Result Err ℕ → Limits Err → Type 0
  Within ps detected (err e) l = l ≡ record detected { lookup_err = some e }
  Within ps detected (ok best) l =
      (l.memory_bytes ≤ detected.memory_bytes)
      × (l.lookup_err ≡ detected.lookup_err)
      × All
          (λ p.
            Holds parse_int read_trimmed p none
            ⊎ ((v : ℕ) × Holds parse_int read_trimmed p (some v) × (l.memory_bytes ≤ v)))
          ps

  limit_to-Within :
      (ps : List Place) (detected : Limits Err) (lookup : Result Err ℕ)
      → detected.memory_bytes < 2 ^ 63
      → Tightest parse_int read_trimmed ps lookup
      → Within ps detected lookup (limit_to detected lookup)
  unfolding limit_to
  limit_to-Within ps detected (err e) b t = refl
  limit_to-Within ps detected (ok best) b (vs, found, small) =
      rw
        (
          slt_small 0 best (omega arith) (omega arith),
          slt_small best detected.memory_bytes (omega arith) b,
        )
        elim (Bool-cases (not (ltb 0 best) || not (ltb best detected.memory_bytes))) [
          | inl t ↦
              rw t (
                omega arith,
                refl,
                All-map ps (weaken detected.memory_bytes (λ pos. kept t pos)) vs,
              )
          | inr f ↦ rw f (lower f, refl, All-map ps (weaken best (λ pos. omega arith)) vs)
        ]
    where
      kept :
          (not (ltb 0 best) || not (ltb best detected.memory_bytes)) ≡ true
          → 0 < best
          → detected.memory_bytes ≤ best
      kept t pos = ground arith

      lower :
          (not (ltb 0 best) || not (ltb best detected.memory_bytes)) ≡ false
          → best ≤ detected.memory_bytes
      lower f = ground arith

      weaken :
          (m : ℕ)
          → (0 < best → m ≤ best)
          → (p : Place)
          → Holds parse_int read_trimmed p none
            ⊎ ((v : ℕ) × Holds parse_int read_trimmed p (some v) × (0 < best) × (best ≤ v))
          → Holds parse_int read_trimmed p none
            ⊎ ((v : ℕ) × Holds parse_int read_trimmed p (some v) × (m ≤ v))
      weaken m le p (inl n) = inl n
      weaken m le p (inr (v, h, pos, below)) =
          let under : m ≤ best = le pos in inr (v, h, omega arith)

  -- For a process, DetectFor keeps the detected limits and reports the error where a limit could not
  -- be read. Else its memory is at most the detected one and at most every limit in the limit files
  -- of every ancestor on every line of the process's cgroups. The detected memory is an int64 that is
  -- not negative, and so is a number that ParseInt returns.
  pub detect_for-Within :
      ((raw : String) (v : ℕ) → parse_int raw ≡ some v → v < 2 ^ 64)
      → (detected : Limits Err) (pid : ℕ) (ls : List Line) → detected.memory_bytes < 2 ^ 63
      → slt 0 pid ≡ true
      → Within
          (places_of ls)
          detected
          (cgroup_limit_of parse_int read_trimmed true (ok ls))
          (detect_for detected pid (cgroup_limit_of parse_int read_trimmed true (ok ls)))
  unfolding detect_for
  detect_for-Within is_word detected pid ls b h = rw h (
      limit_to-Within (places_of ls) detected _ b
        (cgroup_limit_of-Tightest parse_int read_trimmed is_word ls))
