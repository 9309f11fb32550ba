-- ===== src/Budget/Limits.antt =====
-- budget/budget.go: the limits of a host, and the files that memory limits are read from.
use text.Mathlib.Text.{◌==◌ as str_eq}
use fpm_tune.Common.{
  ℕ, ◌^◌, String, Bool, true, false, not, ◌||◌, List, [], ◌∷◌, Option, none, some, if◌then◌else◌,
}
use fpm_tune.Common.Word.{sub64, mul64, slt, sle}

pub data Source : Type 0 where
  cgroup_v2 cgroup_process cgroup_v1 mem_info sysctl override unset : Source

-- Err is the error of a lookup that failed.
pub record Limits (Err : Type 0) : Type 0 where
  pub memory_bytes : ℕ
  pub cpus : ℕ
  pub cpu_millicores : ℕ
  pub containerized : Bool
  pub source : Source
  pub available_bytes : ℕ
  pub neighbor_bytes : ℕ
  pub lookup_err : Option Err

abbrev pub implausible_limit : ℕ
implausible_limit = 2 ^ 50

-- The contents of a file are the trimmed text or its fields, and `parse_int` is strconv.ParseInt,
-- which gives an int64 or fails.
module _ (parse_int : String → Option ℕ) where
  abbrev pub plausible_value : Option ℕ → Option ℕ
  plausible_value none = none
  plausible_value (some v) = if sle v 0 || sle implausible_limit v then none else some v

  unfoldable pub plausible : String → Option ℕ
  plausible raw = plausible_value (parse_int raw)

  unfoldable pub read_cgroup_v2_memory : Option String → Option ℕ
  unfolding plausible
  read_cgroup_v2_memory none = none
  read_cgroup_v2_memory (some raw) = if str_eq raw "max" then none else plausible raw

  unfoldable pub read_cgroup_v1_memory : Option String → Option ℕ
  unfolding plausible
  read_cgroup_v1_memory none = none
  read_cgroup_v1_memory (some raw) = plausible raw

  pub record MemInfo : Type 0 where
    pub total : ℕ
    pub available : ℕ

  -- One line of /proc/meminfo: a negative number, or none, changes nothing.
  unfoldable pub mem_info_line : List String → MemInfo → MemInfo
  mem_info_line (key ∷ value ∷ rest) m = elim (parse_int value) [
    | none ↦ m
    | some kb ↦
        if slt kb 0
        then m
        else (if str_eq key "MemTotal:"
            then record m { total = mul64 kb 1024 }
            else (if str_eq key "MemAvailable:" then record m { available = mul64 kb 1024 } else m))
  ]
  mem_info_line _ m = m

  unfoldable pub mem_info_lines : List (List String) → MemInfo → MemInfo
  unfolding mem_info_line
  mem_info_lines [] m = m
  mem_info_lines (l ∷ ls) m = mem_info_lines ls (mem_info_line l m)

  unfoldable pub read_mem_info : Option (List (List String)) → Option MemInfo
  unfolding mem_info_lines
  read_mem_info none = none
  read_mem_info (some lines) =
      let m = mem_info_lines lines (record { total = 0; available = 0 }) in
      if slt 0 m.total then some m else none

abbrev pub is_mem_info : Source → Bool
is_mem_info mem_info = true
is_mem_info _ = false

module _ {Err : Type 0} where
  unfoldable pub with_override : (memory_bytes : ℕ) → Limits Err → Limits Err
  with_override memory_bytes l =
      if sle memory_bytes 0
      then l
      else record l { memory_bytes = memory_bytes; source = override; lookup_err = none }

  unfoldable pub with_neighbors : (phpfpm_rss : ℕ) → Limits Err → Limits Err
  with_neighbors phpfpm_rss l =
      let non_worker = sub64 (sub64 l.memory_bytes l.available_bytes) phpfpm_rss in
      if not (is_mem_info l.source) || sle l.available_bytes 0 || slt phpfpm_rss 0
      then l
      else (if sle non_worker 0 then l else record l { neighbor_bytes = non_worker })
