-- ===== src/Budget/Cgroup.antt =====
-- budget/budget.go: cgroupLimitOf, the tightest memory limit along the cgroups of a process.
pub mod Tightest
use fpm_tune.Common.{
  ℕ, String, Bool, true, false, ◌||◌, List, [], ◌∷◌, ◌++◌, map, Option, none, some, if◌then◌else◌,
  ◌==◌, Result, ok, err, ◌>>=◌,
}
use fpm_tune.Common.Word.{slt}
use fpm_tune.Budget.Limits.{plausible}

-- What a line of /proc/<pid>/cgroup names: the unified hierarchy, v1's memory controller, or neither.
pub data Hierarchy : Type 0 where
  unified memory_v1 other : Hierarchy

-- A line of three fields with its path, the components from the innermost to the root.
pub record Line : Type 0 where
  pub hierarchy : Hierarchy
  pub path : List String

pub data File : Type 0 where
  memory_max memory_high limit_in_bytes : File

-- A limit file: where it lies, and its name.
pub record Place : Type 0 where
  pub hierarchy : Hierarchy
  pub path : List String
  pub file : File

unfoldable pub files_of : Hierarchy → List File
files_of unified = memory_max ∷ memory_high ∷ []
files_of memory_v1 = limit_in_bytes ∷ []
files_of other = []

-- `best` is zero where no limit was found.
abbrev pub tighter : (best : ℕ) → Option ℕ → ℕ
tighter best none = best
tighter best (some v) = if best == 0 || slt v best then v else best

-- `read_trimmed` reads the file system: an empty text where there is no such file.
module _ {Err : Type 0} (parse_int : String → Option ℕ)
    (read_trimmed : Place → Result Err String) where
  unfoldable pub scan_files : Hierarchy → List String → List File → (best : ℕ) → Result Err ℕ
  scan_files h path [] best = ok best
  scan_files h path (f ∷ fs) best =
      read_trimmed (record { hierarchy = h; path = path; file = f })
      >>= (λ raw. scan_files h path fs (tighter best (plausible parse_int raw)))

  -- Every ancestor, up to the root.
  unfoldable pub scan_path : Hierarchy → List String → (best : ℕ) → Result Err ℕ
  unfolding scan_files files_of
  scan_path h [] best = scan_files h [] (files_of h) best
  scan_path h (c ∷ cs) best =
      scan_files h (c ∷ cs) (files_of h) best >>= (λ next. scan_path h cs next)

  unfoldable pub scan_lines : List Line → (best : ℕ) → Result Err ℕ
  unfolding scan_path
  scan_lines [] best = ok best
  scan_lines (l ∷ ls) best = scan_path l.hierarchy l.path best >>= (λ next. scan_lines ls next)

  -- Without a /proc nothing is limited; an unreadable cgroup file of the process is an error.
  unfoldable pub cgroup_limit_of : (has_proc : Bool) → Result Err (List Line) → Result Err ℕ
  unfolding scan_lines
  cgroup_limit_of false lines = ok 0
  cgroup_limit_of true lines = lines >>= (λ ls. scan_lines ls 0)
