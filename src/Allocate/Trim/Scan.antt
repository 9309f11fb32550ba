-- ===== src/Allocate/Trim/Scan.antt =====
-- allocate/allocate.go: what largestGrantedAmong finds.
use fpm_tune.Common.{
  ℕ, suc, ◌+◌, ◌^◌, ◌≤◌, ◌<◌, ◌≡◌, refl, ◌∙◌, ◌⊎◌, inl, inr, Bool, true, false, ◌&&◌, List, [], ◌∷◌,
  Option, none, some, arith, All, get_elem?, Bool-cases, ap,
}
use fpm_tune.Common.Word.{slt, slt_small}
use fpm_tune.Allocate.Types.{Pool, Row}
use fpm_tune.Allocate.Trim.{largest_scan, largest_granted_among}

abbrev pub IsSmall : Row → Type 0
IsSmall r = r.granted < 2 ^ 63

abbrev pub AtMost : (Pool → Bool) → ℕ → Row → Type 0
AtMost eligible m r = eligible r.pool ≡ true → r.granted ≤ m

-- The row at `j` is eligible and is granted `m`.
abbrev pub IsAt : (Pool → Bool) → ℕ → List Row → ℕ → Type 0
IsAt eligible m rows j =
    (r : Row) × (get_elem? rows j ≡ some r) × (eligible r.pool ≡ true) × (r.granted ≡ m)

abbrev Scanned : (Pool → Bool) → ℕ → Option ℕ → ℕ → List Row → Option ℕ → Type 0
Scanned eligible i best n rows out =
    (m : ℕ) × (n ≤ m)
    × All (AtMost eligible m) rows
    × (((out ≡ best) × (m ≡ n)) ⊎ ((j : ℕ) × (out ≡ some (i + j)) × IsAt eligible m rows j))

module _ (eligible : Pool → Bool) where
  largest_scan-Scanned :
      (i : ℕ) (best : Option ℕ) (n : ℕ) (rows : List Row)
      → n < 2 ^ 63
      → All IsSmall rows
      → Scanned eligible i best n rows (largest_scan eligible i best n rows)
  unfolding largest_scan
  largest_scan-Scanned i best n [] h s = (n, omega arith, tt, inl (refl, refl))
  largest_scan-Scanned i best n (r ∷ rs) h s =
      elim (Bool-cases (eligible r.pool && slt n r.granted)) [
        | inl t ↦ rw t (better t (largest_scan-Scanned (suc i) (some i) r.granted rs s.0 s.1))
        | inr f ↦ rw f (kept f (largest_scan-Scanned (suc i) best n rs h s.1))
      ]
    where
      better :
          (eligible r.pool && slt n r.granted) ≡ true
          → Scanned eligible
              (suc i)
              (some i)
              r.granted
              rs
              (largest_scan eligible (suc i) (some i) r.granted rs)
          → Scanned eligible i best n (r ∷ rs) (largest_scan eligible (suc i) (some i) r.granted rs)
      better t (m, le, all, inl (e, same)) = (
        m,
        ground (arith, slt_small n r.granted h s.0),
        (λ p. le, all),
        inr (0, e ∙ ap some (omega arith), (r, refl, ground arith, omega arith)),
      )
      better t (m, le, all, inr (j, e, at)) = (
        m,
        ground (arith, slt_small n r.granted h s.0),
        (λ p. le, all),
        inr (suc j, e ∙ ap some (omega arith), at),
      )

      kept :
          (eligible r.pool && slt n r.granted) ≡ false
          → Scanned eligible (suc i) best n rs (largest_scan eligible (suc i) best n rs)
          → Scanned eligible i best n (r ∷ rs) (largest_scan eligible (suc i) best n rs)
      kept f (m, le, all, inl found) =
          (m, le, (λ p. ground (arith, slt_small n r.granted h s.0), all), inl found)
      kept f (m, le, all, inr (j, e, at)) = (
        m,
        le,
        (λ p. ground (arith, slt_small n r.granted h s.0), all),
        inr (suc j, e ∙ ap some (omega arith), at),
      )

  -- largestGrantedAmong finds an eligible pool that has the most workers of all eligible ones, or
  -- nothing, and then no eligible pool has a worker. Every grant is a number below 2 ^ 63.
  pub largest_granted_among-largest :
      (rows : List Row)
      → All IsSmall rows
      → (m : ℕ) × All (AtMost eligible m) rows
        × (((largest_granted_among eligible rows ≡ none) × (m ≡ 0))
            ⊎ ((j : ℕ) × (largest_granted_among eligible rows ≡ some j) × IsAt eligible m rows j))
  unfolding largest_granted_among
  largest_granted_among-largest rows s = go (largest_scan-Scanned 0 none 0 rows (omega arith) s)
    where
      go :
          Scanned eligible 0 none 0 rows (largest_scan eligible 0 none 0 rows)
          → (m : ℕ) × All (AtMost eligible m) rows
            × (((largest_scan eligible 0 none 0 rows ≡ none) × (m ≡ 0))
                ⊎ ((j : ℕ) × (largest_scan eligible 0 none 0 rows ≡ some j)
                    × IsAt eligible m rows j))
      go (m, le, all, inl found) = (m, all, inl found)
      go (m, le, all, inr (j, e, at)) = (m, all, inr (j, e ∙ ap some (omega arith), at))
