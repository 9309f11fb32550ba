-- ===== src/Plan/Tests.antt =====
-- plan/: runs of the model on a small host, and the theorems applied to it.
use Prim.Native.Nat.{max, min}
use fpm_tune.Common.{
  ℕ, ◌+◌, ◌*◌, ◌/◌, ◌^◌, ◌≤◌, ◌<◌, ◌≡◌, ◌↔◌, ◌⊎◌, refl, String, true, false, List, [], ◌∷◌, none,
  some, arith,
}
use fpm_tune.Common.Word.{slt, add64, sub64, div64, mul64}
use fpm_tune.Common.Rational.{rational, rational-IsIeee}
use fpm_tune.State.Types.{PoolState, State, new_pool, no_fit}
use fpm_tune.State.Types as St
use fpm_tune.Budget.Limits.{Limits, mem_info}
use fpm_tune.Allocate.Types as Al
use fpm_tune.Allocate.Want.{cpu_ceiling_of}
use fpm_tune.Plan.Types.{Library, PoolView, Profile, default_profile}
use fpm_tune.Plan.Workload.{workload_web}
use fpm_tune.State.Types.{learn_defaults}
use fpm_tune.Common.Time.{minute, sub_time, since}
use fpm_tune.State.Cpu.{cpu_shape_known}
use fpm_tune.State.Store.{lookup_scoped, pool_key}
use fpm_tune.Common.Map.{lookup, string_eq}
use fpm_tune.State.Sizing.{trusted, confidence}
use fpm_tune.State.CpuLoad.{
  aggregate_cpu_share, aggregate_known, box_overhead, overhead_of, line_of,
}
use fpm_tune.Plan.CpuReport.{cpu_row}
use fpm_tune.Plan.CpuReport.Agrees.{ceiling_in, cpu_row-agrees}
use fpm_tune.Plan.Cpu.{
  cpu_ceiling, cpu_ceiling_for, aggregate_fill, fill_from, saturated_host, driven_cores, fill_by,
  cpu_shape, shape_of, box_cost, box_cost_of, fill_workers, ceiling_from, clamped, least_ceiling,
  headroom_for,
}
use fpm_tune.Plan.Cpu.Ceiling.{cpu_ceiling_bounds}
use fpm_tune.Plan.Reserve.{reserve_for}
use fpm_tune.Plan.Reserve.Within.{reserve_for_bounds}
use fpm_tune.Plan.Names.{ambiguous_names, has_name}
use fpm_tune.Plan.Names.Shared.{IsShared, ambiguous_names_iff}
use fpm_tune.Plan.Pool.{Round, record_of, found_by, remembered, pool_for}
use fpm_tune.Plan.Pool.Careful.{IsCareful, pool_for-IsCareful}
use fpm_tune.Plan.Build.{Input, build}
use fpm_tune.Plan.Build.Planned.{Outcome, build-Outcome}

-- A library that reads no number, and leaves text and order as they are.
abbrev library : Library rational
library = record {
  trim = λ s. s;
  to_lower = λ s. s;
  quote = λ s. s;
  parse_float = λ s. none;
  sort_strings = λ s. s;
  log2 = λ x. x;
  exp2 = λ x. x;
}

abbrev view : String → String → PoolView rational
view name path = record {
  name = name;
  config_path = path;
  workload = "";
  cpu_headroom = "";
  current_max_children = 10;
  max_children_known = true;
  process_manager = "dynamic";
  observed_peak = 10;
  active_now = 4;
  accepted = 100;
  queue_depth = 2;
  max_children_reached = 0;
  workers = [];
  failed = false;
}

-- A busy shop, and a blog that could not be scraped.
abbrev views : List (PoolView rational)
views = view "shop" "/etc/a.conf" ∷ record (view "blog" "/etc/a.conf") { failed = true } ∷ []

abbrev state_options : St.Options rational
state_options = record {
  min_requests_per_worker = 0;
  min_mature_workers = 0;
  min_agg_cpu_rounds = 0;
  min_cpu_readings = 0;
  min_box_cost_samples = 0;
  min_box_cost_spread = (0, 1);
  alpha_up = (0, 1);
  half_life_down = 0;
  min_requests_per_second_to_decay = (0, 1);
  samples_before_maturity_is_waived = 0;
  max_decay_gap = 0;
  confidence_samples = 0;
  confidence_span = 0;
  peak_window = 0;
  sizing = record { percentile = (0, 1); margin = (0, 1) };
}

abbrev options : Al.Options rational
options = record {
  headroom_factor = (0, 1);
  growth_factor = (0, 1);
  default_floor = 0;
  max_workers_per_cpu = 0;
  start_servers_ratio = (0, 1);
  spare_min_ratio = (0, 1);
  spare_max_ratio = (0, 1);
}

abbrev limits : Limits Unit
limits = record {
  memory_bytes = 4 * 2 ^ 30;
  cpus = 4;
  cpu_millicores = 4000;
  containerized = false;
  source = mem_info;
  available_bytes = 0;
  neighbor_bytes = 0;
  lookup_err = none;
}

abbrev profile : Profile rational
unfolding default_profile
profile = default_profile rational

abbrev input : Input rational Unit
unfolding workload_web
input = record {
  limits = limits;
  views = views;
  profile = profile;
  workload = workload_web rational;
  cpu_ceiling = true;
  cpu_headroom = (2, 1);
  busy = none;
  reserve_bytes = 0;
  reserve_fraction = (0, 1);
  state_options = state_options;
  allocate_options = options;
  at = 100;
}

-- A pool that was seen busy, with workers of 100 MiB.
abbrev shop : PoolState rational
unfolding new_pool no_fit
shop = record (new_pool rational "shop" "/etc/a.conf" 3) {
  typical_peak_bytes = 100 * 2 ^ 20;
  busy_samples = 3;
  peak_workers = 12;
}

abbrev store : State rational
store = record {
  host_cpu = none;
  pools = ("/etc/a.conf::shop", shop) ∷ [];
  master = record { binary = ""; config_path = ""; drop_in_dir = "" };
}

abbrev round : Round rational
round = record {
  profile = profile;
  opts = state_options;
  at = 100;
  cpu_ceiling = true;
  host_millicores = 4000;
  busy = none;
}

build-Outcome_example : Outcome input (build library input store)
unfolding cpu_ceiling_of Al.defaults Al.or_count Al.or_ratio mul64 slt input profile default_profile
    new_pool shop
build-Outcome_example =
    build-Outcome rational-IsIeee library input store
      (record {
        memory = omega arith;
        profile_word = omega arith;
        floor_word = omega arith;
        reserve_word = omega arith;
        cpu_known = ground arith;
        cpu_plausible = ground arith;
        floor_plausible = omega arith;
        few = omega arith;
        views = (
          record { current = omega arith; peak = omega arith },
          (record { current = omega arith; peak = omega arith }, tt),
        );
      })
      (
        record {
          last_peak = omega arith;
          typical = omega arith;
          high = omega arith;
          peak = omega arith;
        },
        tt,
      )

pool_for-IsCareful_example :
    IsCareful round
      (view "shop" "/etc/a.conf")
      (record_of (remembered false (view "shop" "/etc/a.conf") store))
      store
      (pool_for library round (2, 1) false (view "shop" "/etc/a.conf") store)
pool_for-IsCareful_example =
    pool_for-IsCareful library round (2, 1) false (view "shop" "/etc/a.conf") store

cpu_ceiling_bounds_example :
    ((◌≡◌ {A = ℕ} 6 0) × (cpu_ceiling rational 6 4000 (500, 1) ≡ 0))
    ⊎ ((0 < 6)
        × ((4000 + 999) / 1000 + 1 ≤ cpu_ceiling rational 6 4000 (500, 1))
        × (cpu_ceiling rational 6 4000 (500, 1) ≤ max (6 * 100) ((4000 + 999) / 1000 + 1)))
cpu_ceiling_bounds_example =
    cpu_ceiling_bounds rational rational-IsIeee 6 4000 (500, 1) (omega arith) (omega arith) refl

reserve_for_bounds_example :
    (slt 0 0 ≡ true → (reserve_for rational (2 ^ 32) profile 0).0 ≡ 0)
    × (slt 0 0 ≡ false
        → ((reserve_for rational (2 ^ 32) profile 0).0 ≤ 2 ^ 32)
          × (min (256 * 2 ^ 20) (2 ^ 32 / 2) ≤ (reserve_for rational (2 ^ 32) profile 0).0))
unfolding profile default_profile
reserve_for_bounds_example =
    reserve_for_bounds rational rational-IsIeee (2 ^ 32) profile 0 (omega arith) (omega arith)
      (omega arith) refl

-- Two masters with a pool of the name www.
ambiguous_names_iff_example :
    (has_name "www" (ambiguous_names (view "www" "/etc/a.conf" ∷ view "www" "/etc/b.conf" ∷ []))
      ≡ true)
    ↔ IsShared "www" (view "www" "/etc/a.conf" ∷ view "www" "/etc/b.conf" ∷ [])
ambiguous_names_iff_example =
    ambiguous_names_iff "www" (view "www" "/etc/a.conf" ∷ view "www" "/etc/b.conf" ∷ [])

-- A shop whose baseline is trusted, with four busy workers on two cores.
abbrev seasoned : PoolState rational
unfolding shop
seasoned = record shop {
  busy_samples = 30;
  first_busy_at = some 1;
  last_busy_at = some (40 * minute);
  agg_cpu_rounds = 9;
  agg_cpu_cores = (2, 1);
  agg_cpu_busy = (4, 1);
}

seasoned-trusted : trusted state_options seasoned ≡ true
unfolding seasoned shop new_pool trusted confidence learn_defaults sub_time since sub64 slt
seasoned-trusted = refl

seasoned_ceiling : cpu_ceiling_for rational (some seasoned) state_options 4000 (2, 1) none ≡ 16
unfolding seasoned shop new_pool no_fit cpu_ceiling_for trusted confidence learn_defaults sub_time
    since sub64 slt cpu_shape_known aggregate_fill aggregate_cpu_share aggregate_known fill_from
    saturated_host driven_cores fill_by cpu_shape shape_of box_cost box_cost_of box_overhead
    overhead_of line_of fill_workers ceiling_from cpu_ceiling clamped least_ceiling add64 div64
seasoned_ceiling = refl

abbrev seasoned_store : State rational
seasoned_store = record store { pools = ("/etc/a.conf::shop", seasoned) ∷ [] }

seasoned-remembered :
    record_of (remembered false (view "shop" "/etc/a.conf") seasoned_store) ≡ some seasoned
unfolding record_of remembered found_by lookup_scoped pool_key lookup
seasoned-remembered = refl

cpu_row-agrees_example :
    ceiling_in (
      cpu_row rational library state_options 4000
        (2, 1)
        none
        (view "shop" "/etc/a.conf")
        (some seasoned)
        (18, false))
    ≡ (pool_for library round
        (headroom_for rational library "" (2, 1)).headroom
        false
        (view "shop" "/etc/a.conf")
        seasoned_store).0.cpu_ceiling
cpu_row-agrees_example =
    cpu_row-agrees library round (view "shop" "/etc/a.conf") (2, 1) false seasoned_store seasoned
      (18, false) refl seasoned-remembered seasoned-trusted
