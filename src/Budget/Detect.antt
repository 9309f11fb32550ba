-- ===== src/Budget/Detect.antt =====
-- budget/budget.go: detectWith and DetectFor, the limits of the host and of a process.
pub mod Within
use fpm_tune.Common.{
  ℕ, ◌*◌, ◌≡◌, refl, ◌⊎◌, inl, inr, String, Bool, true, false, ◌||◌, List, Option, none, some,
  if◌then◌else◌, Result, ok, err, Bool-cases, arith, Result-cases,
}
use fpm_tune.Common.Word.{slt, sle, mul64}
use fpm_tune.Budget.Limits.{
  Limits, MemInfo, Source, cgroup_v2, cgroup_process, cgroup_v1, mem_info, sysctl, unset,
  read_cgroup_v2_memory, read_cgroup_v1_memory, read_mem_info,
}
use fpm_tune.Budget.Cpu.{cores_for, read_cgroup_v2_cpu, read_cgroup_v1_cpu}

-- The files that detectWith consults, by their trimmed contents or their fields, and what it asks the
-- runtime and, on macOS, sysctl.
pub record Host : Type 0 where
  pub num_cpu : ℕ
  pub cgroup_v2_memory : Option String
  pub cgroup_v1_memory : Option String
  pub mem_info_lines : Option (List (List String))
  pub sysctl_memory : Option ℕ
  pub cgroup_v2_cpu : Option (List String)
  pub cgroup_v1_quota : Option String
  pub cgroup_v1_period : Option String

module _ {Err : Type 0} (parse_int : String → Option ℕ) where
  unfoldable pub detect_memory : Host → Limits Err → Limits Err
  detect_memory h l = elim (read_cgroup_v2_memory parse_int h.cgroup_v2_memory) [
    | some bytes ↦ record l { memory_bytes = bytes; containerized = true; source = cgroup_v2 }
    | none ↦ elim (read_cgroup_v1_memory parse_int h.cgroup_v1_memory) [
      | some bytes ↦ record l { memory_bytes = bytes; containerized = true; source = cgroup_v1 }
      | none ↦ elim (read_mem_info parse_int h.mem_info_lines) [
        | some m ↦ record l {
          memory_bytes = m.total;
          available_bytes = m.available;
          source = mem_info;
        }
        | none ↦ elim h.sysctl_memory [
          | some bytes ↦ record l { memory_bytes = bytes; source = sysctl }
          | none ↦ l
        ]
      ]
    ]
  ]

  unfoldable pub detect_cpu : Host → Limits Err → Limits Err
  detect_cpu h l = elim (read_cgroup_v2_cpu parse_int h.cgroup_v2_cpu) [
    | some m ↦ record l { cpu_millicores = m; cpus = cores_for m }
    | none ↦ elim (read_cgroup_v1_cpu parse_int h.cgroup_v1_quota h.cgroup_v1_period) [
      | some m ↦ record l { cpu_millicores = m; cpus = cores_for m }
      | none ↦ l
    ]
  ]

  unfoldable pub detect_with : Host → Limits Err
  unfolding detect_memory detect_cpu
  detect_with h = detect_cpu h (
      detect_memory h (record {
        memory_bytes = 0;
        cpus = h.num_cpu;
        cpu_millicores = mul64 h.num_cpu 1000;
        containerized = false;
        source = unset;
        available_bytes = 0;
        neighbor_bytes = 0;
        lookup_err = none;
      }))

-- What DetectFor makes of the detected limits and of the process's own.
unfoldable pub limit_to : {Err : Type 0} → Limits Err → Result Err ℕ → Limits Err
limit_to limits (err e) = record limits { lookup_err = some e }
limit_to limits (ok bytes) =
    if sle bytes 0 || sle limits.memory_bytes bytes
    then limits
    else record limits { memory_bytes = bytes; containerized = true; source = cgroup_process }

-- `lookup` is cgroupLimitOf of the process; a zero stands for no limit.
unfoldable pub detect_for : {Err : Type 0} → Limits Err → (pid : ℕ) → Result Err ℕ → Limits Err
unfolding limit_to
detect_for limits pid lookup = if sle pid 0 then limits else limit_to limits lookup
