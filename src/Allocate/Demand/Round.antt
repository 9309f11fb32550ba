-- ===== src/Allocate/Demand/Round.antt =====
-- allocate/allocate.go: what a round of allocateDemand keeps, and that it spends something.
use Prim.Native.Nat.{max}
use native.Mathlib.Nat.{add-mul}
use fpm_tune.Common.{
  ℕ, ◌+◌, ◌-◌, ◌*◌, ◌^◌, ◌≤◌, ◌<◌, ◌≡◌, refl, ◌∙◌, sym, subst, inl, inr, ◌≢◌, true, List, [], ◌∷◌,
  map, some, arith, All, All-get, All-modify, get_elem?, get_elem?-modify_ne, modify, Bool-cases,
  ltb, ltb→lt, ltb→ge,
}
use fpm_tune.Common.Word.{sub64, mul64, slt, slt_small, sub64_exact, add64_exact}
use fpm_tune.Common.Float.{Float, IsIeee}
use fpm_tune.Allocate.Types.{Row}
use fpm_tune.Allocate.Rows.{
  sum_where, always, granted_bytes, IsPlausible, strip, sum_where-modify, map-strip-modify,
  mul64_plausible,
}
use fpm_tune.Allocate.Trim.{worker_bytes_at}
use fpm_tune.Allocate.Demand.{Candidate, Grants, share_of, give, grant_one, grant_all}
use fpm_tune.Allocate.Demand.Share.{share_of_bounds}

-- A row with a worker at least, no more workers than its floor or its want, and its floor if the
-- pool cannot be written.
pub record IsGranted (r : Row) : Type 0 where
  pub plausible : IsPlausible r
  pub some_worker : 0 < r.granted
  pub within : r.granted ≤ max r.floor r.want
  pub reserved : r.pool.unknown ≡ true → r.floor ≤ r.granted

-- The grants and what remains make up the budget `a`.
pub record IsSound (a : ℕ) (rows : List Row) (remaining : ℕ) : Type 0 where
  pub exact : sum_where always granted_bytes rows + remaining ≡ a
  pub granted : All IsGranted rows

-- A candidate's row, which its gap does not take past its want, and which the pot affords a worker.
abbrev pub IsCandidate : ℕ → List Row → Candidate → Type 0
IsCandidate pot rows c =
    (r : Row) × (get_elem? rows c.i ≡ some r)
    × (0 < c.gap)
    × (r.granted + c.gap ≤ r.want)
    × (r.pool.worker_bytes ≤ pot)

-- What granting one candidate changes.
pub record IsStep (a pot : ℕ) (g : Grants) (c : Candidate) (g' : Grants) : Type 0 where
  pub sound : IsSound a g'.rows g'.remaining
  pub same : map strip g'.rows ≡ map strip g.rows
  pub spent : g'.remaining ≤ g.remaining
  pub others : (d : Candidate) → c.i ≢ d.i → IsCandidate pot g.rows d → IsCandidate pot g'.rows d
  pub still : g.progressed ≡ true → g'.progressed ≡ true
  pub progress : pot ≤ g.remaining → (g'.progressed ≡ true) × (g'.remaining < g.remaining)

give-IsGranted : (s : ℕ) (r : Row) → IsGranted r → r.granted + s ≤ r.want → IsGranted (give s r)
give-IsGranted s r v h =
    let more = add64_exact r.granted s (omega (arith, v.plausible.want_small)) in
    record {
      plausible = record {
        costs = v.plausible.costs;
        cheap = v.plausible.cheap;
        floor_pos = v.plausible.floor_pos;
        floor_small = v.plausible.floor_small;
        want_small = v.plausible.want_small;
      };
      some_worker = omega (arith, more, v.some_worker);
      within = omega (arith, more);
      reserved = λ e. omega (arith, more, v.reserved e);
    }

-- No place has two candidates.
abbrev pub Distinct : List Candidate → Type 0
Distinct [] = Unit
Distinct (c ∷ cs) = All (λ d. c.i ≢ d.i) cs × Distinct cs

positive : (n w : ℕ) → 0 < n → 0 < w → 0 < n * w
positive n w h k = grind arith

module _ (fl : Float) (ieee : IsIeee fl) (a pot total : ℕ) (budget : a < 2 ^ 63) where
  module _ (g : Grants) (c : Candidate) (r : Row) (v : IsSound a g.rows g.remaining)
      (at : get_elem? g.rows c.i ≡ some r) (gap : 0 < c.gap) (room : r.granted + c.gap ≤ r.want)
      (affords : r.pool.worker_bytes ≤ pot) where
    row : IsGranted r
    row = All-get IsGranted g.rows c.i v.granted at

    share : ℕ
    share = share_of fl pot total g.remaining r.pool.worker_bytes c

    bounds :
        (share ≤ c.gap)
        × (share * r.pool.worker_bytes ≤ g.remaining)
        × (r.pool.worker_bytes ≤ g.remaining → 0 < share)
    unfolding share
    bounds =
        share_of_bounds fl ieee pot total g.remaining r.pool.worker_bytes c (omega (arith, v.exact))
          row.plausible.costs row.plausible.cheap gap (omega (arith, row.plausible.want_small))

    given : Grants
    given = record {
      rows = modify g.rows c.i (give share);
      remaining = sub64 g.remaining (mul64 share r.pool.worker_bytes);
      progressed = true;
    }

    give-IsStep : 0 < share → IsStep a pot g c given
    unfolding given
    give-IsStep h =
        let w = r.pool.worker_bytes in
        let small : share ≤ 100_000 = omega (arith, bounds, row.plausible.want_small) in
        let cost = mul64_plausible share w small row.plausible.cheap in
        let more = add64_exact r.granted share (omega (arith, row.plausible.want_small)) in
        let new : (give share r).granted * w ≡ r.granted * w + share * w =
          rw more (add-mul r.granted share w) in
        let change = sum_where-modify always granted_bytes (give share) g.rows c.i r at refl in
        let left : sub64 g.remaining (mul64 share w) ≡ g.remaining - share * w =
          rw cost.0 (sub64_exact g.remaining (share * w) (omega (arith, v.exact)) bounds.1) in
        let costs : 0 < share * w = positive share w h row.plausible.costs in
        record {
          sound = record {
            exact = omega (arith, change, new, left, bounds, v.exact);
            granted =
                All-modify g.rows c.i (give share)
                  (λ x k e.
                    let same : r ≡ x = cc in
                    give-IsGranted share x k
                      (subst (λ y. y.granted + share ≤ y.want) same (omega (arith, bounds))))
                  v.granted;
          };
          same = map-strip-modify (give share) g.rows c.i (λ x. refl);
          spent = omega (arith, left);
          others = λ d ne (r', at', p, q, w').
              (r', get_elem?-modify_ne g.rows c.i d.i (give share) ne ∙ at', p, q, w');
          still = λ e. refl;
          progress = λ p. (refl, omega (arith, left, costs, bounds));
        }

    worker : worker_bytes_at g.rows c.i ≡ r.pool.worker_bytes
    unfolding worker_bytes_at
    worker = ground arith

    share_test : slt 0 share ≡ ltb 0 share
    share_test = slt_small 0 share (omega arith) (omega (arith, bounds, row.plausible.want_small))

    nothing-IsStep : share ≡ 0 → IsStep a pot g c g
    nothing-IsStep z = record {
      sound = v;
      same = refl;
      spent = omega arith;
      others = λ d ne k. k;
      still = λ e. e;
      progress = λ p. absurd (omega (arith, bounds.2 (omega arith)));
    }

    pub grant_one-IsStep : IsStep a pot g c (grant_one fl pot total c g)
    unfolding grant_one given share
    grant_one-IsStep = rw worker (elim (Bool-cases (slt 0 share)) [
      | inl t ↦ rw t (give-IsStep (ltb→lt 0 share (sym share_test ∙ t)))
      | inr f ↦
          let z : share ≤ 0 = ltb→ge 0 share (sym share_test ∙ f) in
          rw f (nothing-IsStep (omega arith))
    ])

  All-others :
      (g : Grants) (c : Candidate) {g' : Grants}
      → IsStep a pot g c g'
      → (ds : List Candidate) → All (λ d. c.i ≢ d.i) ds
      → All (IsCandidate pot g.rows) ds
      → All (IsCandidate pot g'.rows) ds
  All-others g c s [] ne k = tt
  All-others g c s (e ∷ ds) ne k = (s.others e ne.0 k.0, All-others g c s ds ne.1 k.1)

  pub grant_all-IsSound :
      (cs : List Candidate) (g : Grants)
      → IsSound a g.rows g.remaining
      → All (IsCandidate pot g.rows) cs
      → Distinct cs
      → IsSound a (grant_all fl pot total cs g).rows (grant_all fl pot total cs g).remaining
        × (map strip (grant_all fl pot total cs g).rows ≡ map strip g.rows)
        × ((grant_all fl pot total cs g).remaining ≤ g.remaining)
        × (g.progressed ≡ true → (grant_all fl pot total cs g).progressed ≡ true)
  unfolding grant_all
  grant_all-IsSound [] g v k d = (v, refl, omega arith, λ e. e)
  grant_all-IsSound (c ∷ cs) g v ((r, at, gap, room, affords), k) (ne, d) =
      let s = grant_one-IsStep g c r v at gap room affords in
      let ih =
        grant_all-IsSound cs (grant_one fl pot total c g) s.sound (All-others g c s cs ne k) d in
      (ih.0, ih.1 ∙ s.same, omega (arith, ih.2, s.spent), λ e. ih.3 (s.still e))

  -- A round that starts with the whole pot spends some of it.
  pub grant_all-spends :
      (c : Candidate) (cs : List Candidate) (g : Grants)
      → IsSound a g.rows g.remaining
      → All (IsCandidate pot g.rows) (c ∷ cs)
      → Distinct (c ∷ cs)
      → pot ≤ g.remaining
      → ((grant_all fl pot total (c ∷ cs) g).progressed ≡ true)
        × ((grant_all fl pot total (c ∷ cs) g).remaining < g.remaining)
  unfolding grant_all
  grant_all-spends c cs g v ((r, at, gap, room, affords), k) (ne, d) full =
      let s = grant_one-IsStep g c r v at gap room affords in
      let rest =
        grant_all-IsSound cs (grant_one fl pot total c g) s.sound (All-others g c s cs ne k) d in
      let p = s.progress full in (rest.3 p.0, omega (arith, rest.2, p.1))
