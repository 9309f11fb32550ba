-- ===== src/Allocate/Want/Bounds.antt =====
-- allocate/allocate.go: the floors and the wants that Compute allocates by are plausible counts.
use fpm_tune.Common.{
  List, [], ◌∷◌, map, ap, ℕ, ◌^◌, ◌≤◌, ◌<◌, ◌≡◌, refl, true, false, arith, ltb→ge, sym, ◌∙◌,
  if◌then◌else◌,
}
use fpm_tune.Common.Word.{slt, slt_small, slt→small, slt→lt}
use fpm_tune.Common.Float.{Float, IsIeee}
use fpm_tune.Allocate.Types.{Pool, Options, Row, max_plausible_children, max_plausible_worker_bytes}
use fpm_tune.Allocate.Rows.{IsPlausible, strip}
use fpm_tune.Allocate.Want.{pool_floor, pool_want, demand_want, grown_want, measured_cap, row_of}

-- The pool's integers are machine words.
pub record IsPool (p : Pool) : Type 0 where
  pub worker_word : p.worker_bytes < 2 ^ 64
  pub floor_word : p.floor < 2 ^ 64
  pub ceiling_word : p.ceiling < 2 ^ 64
  pub cpu_ceiling_word : p.cpu_ceiling < 2 ^ 64

module _ (fl : Float) (ieee : IsIeee fl) (p : Pool) (o : Options fl) (v : IsPool p) where
  -- A floor is one worker at least, and at most what was asked for.
  pub pool_floor_bounds :
      0 < o.default_floor
      → o.default_floor ≤ max_plausible_children
      → slt max_plausible_children p.floor ≡ false
      → (0 < pool_floor fl p o) × (pool_floor fl p o ≤ max_plausible_children)
  unfolding pool_floor slt
  pool_floor_bounds d d' h = ground (arith, v.floor_word, v.ceiling_word)

  grown_want-word : grown_want fl p o < 2 ^ 64
  unfolding grown_want
  grown_want-word =
      let base =
        if slt p.current_max_children p.observed_peak
        then p.observed_peak
        else p.current_max_children in
      ground (
        arith,
        ieee.trunc_word
            (fl.mul (fl.mul (fl.of_int p.observed_peak) o.headroom_factor) o.growth_factor),
        ieee.trunc_word (fl.mul (fl.of_int base) o.growth_factor),
      )

  demand_want-word : demand_want fl p o < 2 ^ 64
  unfolding demand_want
  demand_want-word = ground (
    arith,
    grown_want-word,
    ieee.trunc_word (fl.mul (fl.of_int p.observed_peak) o.headroom_factor),
  )

  -- A want is one worker at least, as a signed number, whatever the float arithmetic gives.
  pub pool_want_bounds :
      (floor : ℕ)
      → 0 < floor
      → floor ≤ max_plausible_children
      → (0 < pool_want fl p floor o) × (pool_want fl p floor o < 2 ^ 63)
  unfolding pool_want slt
  pool_want_bounds floor h k = ground (arith, v.ceiling_word, demand_want-word)

  -- What Compute's clamps make of them, with a CPU ceiling that is a plausible count.
  row_of-floor :
      (cpu_cap : ℕ)
      → 0 < cpu_cap
      → cpu_cap ≤ max_plausible_children
      → (0 < pool_floor fl p o) × (pool_floor fl p o ≤ max_plausible_children)
      → (0 < (row_of fl cpu_cap o p).floor)
        × ((row_of fl cpu_cap o p).floor ≤ max_plausible_children)
  unfolding row_of
  row_of-floor cpu_cap c c' f = ground arith

  row_of-want :
      (cpu_cap : ℕ)
      → 0 < cpu_cap
      → cpu_cap ≤ max_plausible_children
      → (0 < pool_floor fl p o) × (pool_floor fl p o ≤ max_plausible_children)
      → (row_of fl cpu_cap o p).want ≤ max_plausible_children
  unfolding row_of measured_cap slt
  row_of-want cpu_cap c c' f =
      ground (arith, v.cpu_ceiling_word, pool_want_bounds (pool_floor fl p o) f.0 f.1)

  -- A pool that passes Compute's checks has a floor and a want that are plausible counts, after the CPU
  -- ceiling and every clamp, and a floor and a cost that are positive. The CPU ceiling and the default
  -- floor are positive and plausible, the pool's numbers are words and the arithmetic is IEEE's.
  pub row_of-IsPlausible :
      (cpu_cap : ℕ)
      → 0 < cpu_cap
      → cpu_cap ≤ max_plausible_children
      → 0 < o.default_floor
      → o.default_floor ≤ max_plausible_children
      → slt 0 p.worker_bytes ≡ true
      → slt max_plausible_worker_bytes p.worker_bytes ≡ false
      → slt max_plausible_children p.floor ≡ false
      → IsPlausible (row_of fl cpu_cap o p)
  unfolding row_of
  row_of-IsPlausible cpu_cap c c' d d' w w' h =
      let f = pool_floor_bounds d d' h in
      let rf = row_of-floor cpu_cap c c' f in
      let small = slt→small 0 p.worker_bytes (omega arith) v.worker_word w in
      record {
        costs = slt→lt 0 p.worker_bytes (omega arith) v.worker_word w;
        cheap =
            ltb→ge max_plausible_worker_bytes p.worker_bytes
              (sym (slt_small max_plausible_worker_bytes p.worker_bytes (omega arith) small) ∙ w');
        floor_pos = rf.0;
        floor_small = rf.1;
        want_small = row_of-want cpu_cap c c' f;
      }

-- The rows are those of the pools, in their order.
pub row_names :
    (fl : Float) (cpu_cap : ℕ) (o : Options fl) (ps : List Pool)
    → map (λ (r : Row). r.pool.name) (map strip (map (row_of fl cpu_cap o) ps))
      ≡ map (λ p. p.name) ps
unfolding row_of
row_names fl cpu_cap o [] = refl
row_names fl cpu_cap o (p ∷ ps) = ap (◌∷◌ p.name) (row_names fl cpu_cap o ps)
