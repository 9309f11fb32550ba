-- ===== src/Allocate/Demand/Candidates.antt =====
-- allocate/allocate.go: the candidates of a round of allocateDemand.
use fpm_tune.Common.{
  ℕ, suc, ◌+◌, ◌*◌, ◌^◌, ◌≤◌, ◌<◌, ◌≡◌, refl, ◌∙◌, sym, subst, inl, inr, ◌≢◌, false, not, ◌&&◌,
  List, [], ◌∷◌, some, arith, All, All-map, All-get, get_elem?, Bool-cases, ltb, length, ◌==◌,
}
use fpm_tune.Common.Word.{add64, sub64, slt, sle, slt_small, slt-sub64, sub64_exact, add64_exact}
use fpm_tune.Allocate.Types.{Row}
use fpm_tune.Allocate.Demand.{Candidate, candidates_from, gap_total}
use fpm_tune.Allocate.Demand.Round.{IsGranted, IsCandidate, Distinct}

-- The candidates of a list that starts at place `i`: at places from `i` on, ascending.
abbrev pub IsFrom : ℕ → List Row → ℕ → Candidate → Type 0
IsFrom i rows pot c = (j : ℕ) × (c.i ≡ i + j) × IsCandidate pot rows (record c { i = j })

IsFrom-suc :
    (i : ℕ) (r : Row) (rows : List Row) (pot : ℕ) (c : Candidate)
    → IsFrom (suc i) rows pot c
    → IsFrom i (r ∷ rows) pot c
IsFrom-suc i r rows pot c (j, e, k) = (suc j, omega arith, k)

-- The test that makes a row a candidate.
wants_more :
    (pot : ℕ) (r : Row)
    → pot < 2 ^ 63
    → IsGranted r
    → (slt 0 (sub64 r.want r.granted) && sle r.pool.worker_bytes pot)
      ≡ (ltb r.granted r.want && not (ltb pot r.pool.worker_bytes))
wants_more pot r h v =
    let small : r.granted < 2 ^ 63 =
      omega (arith, v.within, v.plausible.floor_small, v.plausible.want_small) in
    rw (
      slt-sub64 r.want r.granted (omega (arith, v.plausible.want_small)) small,
      slt_small pot r.pool.worker_bytes h (omega (arith, v.plausible.cheap)),
    )

pub candidates_from-IsFrom :
    (i pot : ℕ) (rows : List Row)
    → pot < 2 ^ 63
    → All IsGranted rows
    → All (IsFrom i rows pot) (candidates_from i pot rows)
unfolding candidates_from
candidates_from-IsFrom i pot [] h v = tt
candidates_from-IsFrom i pot (r ∷ rows) h (v, vs) =
    let ih =
      All-map (candidates_from (suc i) pot rows) (IsFrom-suc i r rows pot)
        (candidates_from-IsFrom (suc i) pot rows h vs) in
    let gap = sub64_exact r.want r.granted (omega (arith, v.plausible.want_small)) in
    rw (wants_more pot r h v)
      (elim (Bool-cases (ltb r.granted r.want && not (ltb pot r.pool.worker_bytes))) [
        | inl t ↦
            let less : r.granted < r.want = ground arith in
            let exact = gap (omega arith) in
            rw t (
              (0, omega arith, (r, refl, omega (arith, exact), omega (arith, exact), ground arith)),
              ih,
            )
        | inr f ↦ rw f ih
      ])

-- Without a candidate no row that wants more can be afforded.
abbrev pub IsMet : ℕ → Row → Type 0
IsMet remaining r = r.granted < r.want → remaining < r.pool.worker_bytes

pub candidates_from-IsMet :
    (i pot : ℕ) (rows : List Row)
    → pot < 2 ^ 63
    → All IsGranted rows
    → candidates_from i pot rows ≡ []
    → All (IsMet pot) rows
unfolding candidates_from
candidates_from-IsMet i pot [] h v e = tt
candidates_from-IsMet i pot (r ∷ rows) h (v, vs) e =
    let test = wants_more pot r h v in
    (λ less. ground (arith, test), candidates_from-IsMet (suc i) pot rows h vs (ground arith))

-- Candidates are at ascending places, so at different ones.
pub candidates_from-later :
    (i pot : ℕ) (rows : List Row) → All (λ c. i ≤ c.i) (candidates_from i pot rows)
unfolding candidates_from
candidates_from-later i pot [] = tt
candidates_from-later i pot (r ∷ rows) =
    let ih =
      All-map (candidates_from (suc i) pot rows) (λ c (h : suc i ≤ c.i). le_of_suc i c.i h)
        (candidates_from-later (suc i) pot rows) in
    elim (Bool-cases (slt 0 (sub64 r.want r.granted) && sle r.pool.worker_bytes pot)) [
      | inl t ↦ rw t (omega arith, ih)
      | inr f ↦ rw f ih
    ]
  where
    le_of_suc : (n m : ℕ) → suc n ≤ m → n ≤ m
    le_of_suc n m h = omega arith

pub candidates_from-Distinct : (i pot : ℕ) (rows : List Row) → Distinct (candidates_from i pot rows)
unfolding candidates_from
candidates_from-Distinct i pot [] = tt
candidates_from-Distinct i pot (r ∷ rows) =
    let ih = candidates_from-Distinct (suc i) pot rows in
    elim (Bool-cases (slt 0 (sub64 r.want r.granted) && sle r.pool.worker_bytes pot)) [
      | inl t ↦ rw t (
        All-map (candidates_from (suc i) pot rows) (λ c h. apart i c.i h)
            (candidates_from-later (suc i) pot rows),
        ih,
      )
      | inr f ↦ rw f ih
    ]
  where
    apart : (n m : ℕ) → suc n ≤ m → n ≢ m
    apart n m h = omega arith

pub length-candidates_from :
    (i pot : ℕ) (rows : List Row) → length (candidates_from i pot rows) ≤ length rows
unfolding candidates_from
length-candidates_from i pot [] = omega arith
length-candidates_from i pot (r ∷ rows) = ground (arith, length-candidates_from (suc i) pot rows)

-- The gaps add up without wrapping, so a candidate makes the total positive.
gap_total-ge :
    (acc : ℕ) (cs : List Candidate)
    → All (λ c. c.gap ≤ 100_000) cs
    → acc + length cs * 100_000 < 2 ^ 64
    → acc ≤ gap_total acc cs
unfolding gap_total
gap_total-ge acc [] v h = omega arith
gap_total-ge acc (c ∷ cs) v h =
    let sum = add64_exact acc c.gap (omega (arith, v.0)) in
    omega (arith, sum, gap_total-ge (add64 acc c.gap) cs v.1 (omega (arith, sum, v.0)))

pub gap_total-pos :
    (c : Candidate) (cs : List Candidate)
    → 0 < c.gap
    → All (λ c. c.gap ≤ 100_000) (c ∷ cs)
    → length (c ∷ cs) ≤ 1024
    → (gap_total 0 (c ∷ cs) == 0) ≡ false
unfolding gap_total
gap_total-pos c cs g v h =
    let sum = add64_exact 0 c.gap (omega (arith, v.0)) in
    ground (arith, sum, gap_total-ge (add64 0 c.gap) cs v.1 (omega (arith, sum, v.0)))

-- At the top of a list the candidates are those of its places.
pub candidates_from-IsCandidate :
    (pot : ℕ) (rows : List Row)
    → pot < 2 ^ 63
    → All IsGranted rows
    → All (IsCandidate pot rows) (candidates_from 0 pot rows)
candidates_from-IsCandidate pot rows h v =
    All-map (candidates_from 0 pot rows)
      (λ c (j, e, (r, at, g, room, w)).
        (r, subst (λ k. get_elem? rows k ≡ some r) (sym (e ∙ plain j)) at, g, room, w))
      (candidates_from-IsFrom 0 pot rows h v)
  where
    plain : (j : ℕ) → 0 + j ≡ j
    plain j = omega arith

pub IsCandidate-gap :
    (pot : ℕ) (rows : List Row) (cs : List Candidate)
    → All IsGranted rows
    → All (IsCandidate pot rows) cs
    → All (λ c. c.gap ≤ 100_000) cs
IsCandidate-gap pot rows cs v k =
    All-map cs
      (λ c (r, at, g, room, w).
        omega (arith, (All-get IsGranted rows c.i v at).plausible.want_small))
      k
