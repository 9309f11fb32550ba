-- ===== src/Budget/Tests.antt =====
-- budget/budget.go: runs of the model on a concrete host, and the theorems applied to it.
use text.Mathlib.Text.{◌==◌ as str_eq}
use fpm_tune.Common.{
  ℕ, ◌-◌, ◌*◌, ◌^◌, ◌≤◌, ◌<◌, ◌≡◌, refl, String, true, List, [], ◌∷◌, Option, none, some,
  if◌then◌else◌, Result, ok, arith,
}
use fpm_tune.Common.Word.{add64, sub64, mul64, div64, slt}
use fpm_tune.Budget.Limits.{
  Limits, plausible, read_cgroup_v2_memory, read_cgroup_v1_memory, read_mem_info, mem_info_lines,
  mem_info_line, with_neighbors, with_override,
}
use fpm_tune.Budget.Cpu.{
  millicores_of, cores_for, quota_to_millicores, read_cgroup_v2_cpu, read_cgroup_v1_cpu,
  millicores_of-covers,
}
use fpm_tune.Budget.Cgroup.{
  Line, Place, unified, files_of, scan_files, scan_path, scan_lines, cgroup_limit_of,
}
use fpm_tune.Budget.Cgroup.Tightest.{places_of, Tightest, cgroup_limit_of-Tightest}
use fpm_tune.Budget.Detect.{Host, detect_memory, detect_cpu, detect_with, limit_to, detect_for}
use fpm_tune.Budget.Detect.Within.{Within, detect_for-Within}

-- A reader of the numbers that stand below.
unfoldable parse_int : String → Option ℕ
parse_int s =
    if str_eq s "3221225472"
    then some (3 * 2 ^ 30)
    else (if str_eq s "20971520"
        then some (20 * 2 ^ 20)
        else (if str_eq s "250000"
            then some 250_000
            else (if str_eq s "100000" then some 100_000 else none)))

parse_int-word : (raw : String) (v : ℕ) → parse_int raw ≡ some v → v < 2 ^ 64
unfolding parse_int
parse_int-word raw v h = ground arith

-- A slice with a limit of 3 GiB above a service without one.
unfoldable read_trimmed : Place → Result String String
read_trimmed p = at p.path
  where
    at : List String → Result String String
    at (name ∷ []) = if str_eq name "system.slice" then ok "3221225472" else ok "max"
    at _ = ok "max"

abbrev lines : List Line
lines = record { hierarchy = unified; path = "php-fpm.service" ∷ "system.slice" ∷ [] } ∷ []

-- A machine with 20 GiB and a quota of two and a half cores.
abbrev host : Host
host = record {
  num_cpu = 8;
  cgroup_v2_memory = some "max";
  cgroup_v1_memory = none;
  mem_info_lines = some (("MemTotal:" ∷ "20971520" ∷ "kB" ∷ []) ∷ []);
  sysctl_memory = none;
  cgroup_v2_cpu = some ("250000" ∷ "100000" ∷ []);
  cgroup_v1_quota = none;
  cgroup_v1_period = none;
}

abbrev detected : Limits String
unfolding detect_with detect_memory detect_cpu read_cgroup_v2_memory read_cgroup_v1_memory
    read_mem_info mem_info_lines mem_info_line plausible quota_to_millicores read_cgroup_v2_cpu
    read_cgroup_v1_cpu millicores_of cores_for parse_int add64 sub64 mul64 div64 slt
detected = detect_with parse_int host

-- The quota is counted in thousandths of a core and the memory is the machine's ...
detected_host :
    detected.memory_bytes ∷ detected.cpu_millicores ∷ detected.cpus ∷ []
    ≡ 20 * 2 ^ 30 ∷ 2500 ∷ 3 ∷ []
unfolding detected
detected_host = refl

abbrev lookup : Result String ℕ
lookup = cgroup_limit_of parse_int read_trimmed true (ok lines)

-- ... until the process's own limit bounds it.
limited : (detect_for detected 1 lookup).memory_bytes ≡ 3 * 2 ^ 30
unfolding detected detect_for limit_to cgroup_limit_of scan_lines scan_path scan_files files_of
    read_trimmed plausible parse_int slt
limited = refl

-- The neighbours of PHP-FPM are what is in use beside it.
neighbors :
    (with_neighbors (2 ^ 30) (record detected { available_bytes = 12 * 2 ^ 30 })).neighbor_bytes
    ≡ 7 * 2 ^ 30
unfolding detected with_neighbors sub64 slt
neighbors = refl

overridden : (with_override (2 ^ 31) detected).memory_bytes ≡ 2 ^ 31
unfolding with_override slt
overridden = refl

cgroup_limit_of-Tightest_example : Tightest parse_int read_trimmed (places_of lines) lookup
cgroup_limit_of-Tightest_example =
    cgroup_limit_of-Tightest parse_int read_trimmed parse_int-word lines

detected_small : detected.memory_bytes < 2 ^ 63
unfolding detected
detected_small = omega arith

first_pid : slt 0 1 ≡ true
unfolding slt
first_pid = refl

detect_for-Within_example :
    Within parse_int read_trimmed (places_of lines) detected lookup (detect_for detected 1 lookup)
detect_for-Within_example =
    detect_for-Within parse_int read_trimmed parse_int-word detected 1 lines detected_small
      first_pid

millicores_of-covers_example :
    (250_000 * 1000 ≤ millicores_of 250_000 100_000 * 100_000)
    × ((millicores_of 250_000 100_000 - 1) * 100_000 < 250_000 * 1000)
    × (millicores_of 250_000 100_000 ≤ cores_for (millicores_of 250_000 100_000) * 1000)
    × ((cores_for (millicores_of 250_000 100_000) - 1) * 1000 < millicores_of 250_000 100_000)
millicores_of-covers_example =
    millicores_of-covers 250_000 100_000 (omega arith) (omega arith) (omega arith) (omega arith)
