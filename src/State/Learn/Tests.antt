-- ===== src/State/Learn/Tests.antt =====
-- state/state.go: runs of Learn on concrete scrapes, and the theorems applied to them.
use fpm_tune.State.Peak.{observe_peak, halved}
use fpm_tune.State.Peak.Decay.{peaks, IsSpaced, peaks-reach}
use fpm_tune.Common.Time.{sub_time}
use fpm_tune.Common.{
  ◌<◌, ◌+◌, ◌-◌, ◌/◌, some, ℕ, ◌*◌, ◌^◌, ◌≡◌, refl, true, false, List, [], ◌∷◌, All, arith,
}
use fpm_tune.Common.Word.{slt, add64, sub64, div64}
use fpm_tune.Common.Rational.{rational}
use fpm_tune.State.Types.{WorkerSample, Observation, PoolState, Options, new_pool, learn_defaults}
use fpm_tune.State.Sizing.{sizing_bytes, trusted}
use fpm_tune.State.Learn.{
  learn_pool, teaches, read_workers, readings_of, read_worker, note_scrape, count_immature,
  work_ratio,
}
use fpm_tune.State.Learn.Gate.{Noted, learn_pool-Noted}
use fpm_tune.State.Learn.Water.{IsSample, IsWatered, Marks, learn_pool-Marks}

-- Logarithms and powers that the runs do not look at.
abbrev flat : ℕ × ℕ → ℕ × ℕ
flat x = (24, 1)

abbrev options : Options rational
unfolding learn_defaults
options = learn_defaults rational (record {
  min_requests_per_worker = 0;
  min_mature_workers = 0;
  min_agg_cpu_rounds = 0;
  min_cpu_readings = 0;
  min_box_cost_samples = 0;
  min_box_cost_spread = (0, 1);
  alpha_up = (0, 1);
  half_life_down = 0;
  min_requests_per_second_to_decay = (0, 1);
  samples_before_maturity_is_waived = 0;
  max_decay_gap = 0;
  confidence_samples = 0;
  confidence_span = 0;
  peak_window = 0;
  sizing = record { percentile = (0, 1); margin = (0, 1) };
})

abbrev worker : (pid requests mib : ℕ) → WorkerSample rational
worker pid requests mib = record {
  rss_bytes = mib * 2 ^ 20;
  pss_bytes = 0;
  subtree_rss_bytes = mib * 2 ^ 20;
  requests = requests;
  pid = pid;
  idle = true;
  last_request_cpu = (1, 2);
  last_request_micros = 60_000;
  own_request = false;
  cpu_ticks = 0;
}

abbrev scrape : List (WorkerSample rational) → Observation rational
scrape workers = record {
  pool = "www";
  workers = workers;
  active_now = 0;
  accepted = 100;
  queue_depth = 0;
  at = 9;
  master_config = "";
}

abbrev fresh : PoolState rational
unfolding new_pool
fresh = new_pool rational "www" "" 3

-- Two workers that have served enough, and one that has not.
abbrev ripe : List (WorkerSample rational)
ripe = worker 11 40 30 ∷ worker 12 50 50 ∷ []

abbrev young : List (WorkerSample rational)
young = worker 13 2 90 ∷ []

ripe_samples : All IsSample ripe
ripe_samples = (
  record { rss = omega arith; pss = omega arith; subtree = omega arith },
  (record { rss = omega arith; pss = omega arith; subtree = omega arith }, tt),
)

fresh_marks : IsWatered fresh
unfolding fresh
fresh_marks = record { small = omega arith; last = omega arith; trees = omega arith }

learn_pool-Marks_example :
    Marks rational flat flat options
      (scrape ripe)
      fresh
      (learn_pool rational flat flat (scrape ripe) options fresh)
learn_pool-Marks_example =
    learn_pool-Marks rational flat flat options (scrape ripe) fresh ripe_samples fresh_marks

-- A single scrape of a worker that has served too little teaches nothing.
not_taught : (learn_pool rational flat flat (scrape young) options fresh).1 ≡ false
unfolding fresh options learn_pool teaches read_workers readings_of read_worker note_scrape
    count_immature work_ratio slt
not_taught = refl

learn_pool-Noted_example :
    Noted (scrape young) fresh (learn_pool rational flat flat (scrape young) options fresh).0
    × (sizing_bytes (learn_pool rational flat flat (scrape young) options fresh).0
        ≡ sizing_bytes fresh)
    × (trusted options (learn_pool rational flat flat (scrape young) options fresh).0
        ≡ trusted options fresh)
learn_pool-Noted_example =
    learn_pool-Noted rational flat flat (scrape young) options fresh not_taught

-- Nine workers were busy once, and two are on each of the four days after.
abbrev once_busy : PoolState rational
unfolding fresh
once_busy = record fresh { peak_workers = 9; peak_at = some 1 }

abbrev days : List ℕ
days = 10 ^ 14 ∷ 2 * 10 ^ 14 ∷ 3 * 10 ^ 14 ∷ 4 * 10 ^ 14 ∷ []

days_apart : IsSpaced 2 options days once_busy
unfolding fresh options once_busy observe_peak learn_defaults sub_time slt halved sub64 add64 div64
days_apart = (refl, (refl, (refl, (refl, tt))))

peaks-reach_example :
    ((peaks 2 options days once_busy).peak_workers ≡ 2 + (9 - 2) / 2 ^ 4)
    × (9 - 2 < 2 ^ 4 → (peaks 2 options days once_busy).peak_workers ≡ 2)
unfolding once_busy
peaks-reach_example = peaks-reach 2 options days once_busy (omega arith) (omega arith) days_apart
