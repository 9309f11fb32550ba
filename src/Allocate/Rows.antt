-- ===== src/Allocate/Rows.antt =====
-- allocate/allocate.go: the sums that the allocator accumulates over its pools in int64, and the
-- exact sums that they stand for.
use fpm_tune.Common.{
  sym, ◌∙◌, zero, suc, map, refl, ap, ℕ, ◌+◌, ◌*◌, ◌^◌, ◌≤◌, ◌<◌, ◌≡◌, Bool, true, not, List, [],
  ◌∷◌, some, arith, All, get_elem?, modify, if◌then◌else◌,
}
use fpm_tune.Common.Word.{add64, mul64, add64_exact, mul64_exact}
use fpm_tune.Allocate.Types.{Row, max_plausible_children, max_plausible_worker_bytes}

-- `for i, p := range pools { if test { acc += cost } }`
unfoldable pub total_where : (Row → Bool) → (Row → ℕ) → ℕ → List Row → ℕ
total_where c f acc [] = acc
total_where c f acc (r ∷ rs) = total_where c f (if c r then add64 acc (f r) else acc) rs

abbrev pub always : Row → Bool
always r = true

-- int64(floors[i]) * p.WorkerBytes, and so on
abbrev pub floor_cost : Row → ℕ
floor_cost r = mul64 r.floor r.pool.worker_bytes

abbrev pub granted_cost : Row → ℕ
granted_cost r = mul64 r.granted r.pool.worker_bytes

abbrev pub worker_cost : Row → ℕ
worker_cost r = r.pool.worker_bytes

-- The exact sums.
unfoldable pub sum_where : (Row → Bool) → (Row → ℕ) → List Row → ℕ
sum_where c f [] = 0
sum_where c f (r ∷ rs) = (if c r then f r else 0) + sum_where c f rs

abbrev pub floor_bytes : Row → ℕ
floor_bytes r = r.floor * r.pool.worker_bytes

abbrev pub granted_bytes : Row → ℕ
granted_bytes r = r.granted * r.pool.worker_bytes

abbrev pub want_bytes : Row → ℕ
want_bytes r = r.want * r.pool.worker_bytes

-- What Compute's checks and clamps give for a pool's numbers.
pub record IsPlausible (r : Row) : Type 0 where
  pub costs : 0 < r.pool.worker_bytes
  pub cheap : r.pool.worker_bytes ≤ max_plausible_worker_bytes
  pub floor_pos : 0 < r.floor
  pub floor_small : r.floor ≤ max_plausible_children
  pub want_small : r.want ≤ max_plausible_children

-- A product of a plausible count and a plausible cost does not wrap.
pub mul64_plausible :
    (n w : ℕ)
    → n ≤ max_plausible_children
    → w ≤ max_plausible_worker_bytes
    → (mul64 n w ≡ n * w) × (n * w < 2 ^ 63)
mul64_plausible n w h k =
    let small : n * w ≤ 100_000 * 2 ^ 36 = grind arith in
    (mul64_exact n w (omega arith), omega arith)

pub total_where_exact :
    (c : Row → Bool) (f g : Row → ℕ) (acc : ℕ) (rs : List Row)
    → All (λ r. f r ≡ g r) rs
    → acc + sum_where c g rs < 2 ^ 64
    → total_where c f acc rs ≡ acc + sum_where c g rs
unfolding total_where sum_where
total_where_exact c f g acc [] e h = omega arith
total_where_exact c f g acc (r ∷ rs) e h = ground (
  arith,
  add64_exact acc (f r),
  total_where_exact c f g acc rs e.1,
  total_where_exact c f g (add64 acc (f r)) rs e.1,
)

pub total_where_exact_zero :
    (c : Row → Bool) (f g : Row → ℕ) (rs : List Row)
    → All (λ r. f r ≡ g r) rs
    → sum_where c g rs < 2 ^ 64
    → total_where c f 0 rs ≡ sum_where c g rs
total_where_exact_zero c f g rs e h = omega (arith, total_where_exact c f g 0 rs e (omega arith))

pub sum_where_mono :
    (c : Row → Bool) (f g : Row → ℕ) (rs : List Row)
    → All (λ r. f r ≤ g r) rs
    → sum_where c f rs ≤ sum_where c g rs
unfolding sum_where
sum_where_mono c f g [] h = omega arith
sum_where_mono c f g (r ∷ rs) h = ground (arith, sum_where_mono c f g rs h.1)

-- A sum over all pools splits by a test.
pub sum_where_split :
    (c : Row → Bool) (f : Row → ℕ) (rs : List Row)
    → sum_where always f rs ≡ sum_where c f rs + sum_where (λ r. not (c r)) f rs
unfolding sum_where
sum_where_split c f [] = omega arith
sum_where_split c f (r ∷ rs) = ground (arith, sum_where_split c f rs)

-- Changing one row changes the sum by that row's part.
pub sum_where-modify :
    (c : Row → Bool) (f : Row → ℕ) (g : Row → Row) (rs : List Row) (i : ℕ) (r : Row)
    → get_elem? rs i ≡ some r
    → c (g r) ≡ c r
    → sum_where c f (modify rs i g) + (if c r then f r else 0)
      ≡ sum_where c f rs + (if c r then f (g r) else 0)
unfolding sum_where
sum_where-modify c f g [] i r e h = cc
sum_where-modify c f g (x ∷ rs) zero r e h = ground arith
sum_where-modify c f g (x ∷ rs) (suc i) r e h = omega (arith, sum_where-modify c f g rs i r e h)

-- What stays the same of a row while workers are granted.
abbrev pub strip : Row → Row
strip r = record r { granted = 0 }

pub map-strip-modify :
    (g : Row → Row) (rs : List Row) (i : ℕ)
    → ((r : Row) → strip (g r) ≡ strip r)
    → map strip (modify rs i g) ≡ map strip rs
map-strip-modify g [] i h = refl
map-strip-modify g (x ∷ rs) zero h = ap (λ y. y ∷ map strip rs) (h x)
map-strip-modify g (x ∷ rs) (suc i) h = ap (◌∷◌ (strip x)) (map-strip-modify g rs i h)

-- A sum that does not look at the grants is that of the stripped rows.
pub sum_where-strip :
    (c : Row → Bool) (f : Row → ℕ) (rs : List Row)
    → ((r : Row) → c (strip r) ≡ c r)
    → ((r : Row) → f (strip r) ≡ f r)
    → sum_where c f (map strip rs) ≡ sum_where c f rs
unfolding sum_where
sum_where-strip c f [] h k = refl
sum_where-strip c f (r ∷ rs) h k = rw (h r, k r, sum_where-strip c f rs h k)

pub sum_where-same :
    (c : Row → Bool) (f : Row → ℕ) (rs ss : List Row)
    → ((r : Row) → c (strip r) ≡ c r)
    → ((r : Row) → f (strip r) ≡ f r)
    → map strip rs ≡ map strip ss
    → sum_where c f rs ≡ sum_where c f ss
sum_where-same c f rs ss h k e =
    sym (sum_where-strip c f rs h k) ∙ ap (sum_where c f) e ∙ sum_where-strip c f ss h k
