-- ===== src/Lock.antt =====
-- lock/lock.go: the lock that serialises the processes that write configuration, and where it lies.
pub mod Exclusive
mod Tests
use Prim.Native.String.{◌++◌ as str_append}
use fpm_tune.Common.{
  ℕ, suc, String, Bool, true, false, not, ◌&&◌, List, [], ◌∷◌, Option, none, some, if◌then◌else◌,
  ◌==◌, Result, ok, err,
}

-- What flock(2) answers without blocking.
pub data Answer : Type 0 where
  locked would_block failed : Answer

-- The kernel's locks on open file descriptions, which are numbered: who holds a path, an exclusive
-- lock without blocking, and the last close of a description.
pub record Flock : Type 1 where
  pub Table : Type 0
  pub holder : Table → String → Option ℕ
  pub flock : Table → (path : String) → (file : ℕ) → Table × Answer
  pub close : Table → (file : ℕ) → Table

-- Whether the directory could be made, and the file opened.
pub record Outside : Type 0 where
  pub made_directory : Bool
  pub opened : Bool

pub data LockError : Type 0 where
  no_directory cannot_open held cannot_lock : LockError

-- The locks, the releases that were given out with their paths, and the number of the next open file.
pub record Host (k : Flock) : Type 0 where
  pub table : k.Table
  pub releases : List (ℕ × String)
  pub next : ℕ

unfoldable pub without : (file : ℕ) → List (ℕ × String) → List (ℕ × String)
without file [] = []
without file (r ∷ rs) = let rest = without file rs in if r.0 == file then rest else r ∷ rest

module _ (k : Flock) where
  -- The part of Acquire behind flock.
  unfoldable pub answered :
      (path : String) → Host k → k.Table → Answer → Host k × Result LockError ℕ
  answered path h table locked = (
    record { table = table; releases = (h.next, path) ∷ h.releases; next = suc h.next },
    ok h.next,
  )
  answered path h table would_block =
      (record h { table = k.close table h.next; next = suc h.next }, err held)
  answered path h table failed =
      (record h { table = k.close table h.next; next = suc h.next }, err cannot_lock)

  -- Acquire; the release that it gives is the number of the file. What it writes into the file is not
  -- read back.
  unfoldable pub acquire : Outside → (path : String) → Host k → Host k × Result LockError ℕ
  unfolding answered
  acquire o path h =
      let (table, answer) = k.flock h.table path h.next in
      if not o.made_directory
      then (h, err no_directory)
      else (if not o.opened then (h, err cannot_open) else answered path h table answer)

  -- The release is called, or its process dies: the file is closed.
  unfoldable pub release : (file : ℕ) → Host k → Host k
  unfolding without
  release file h = record h { table = k.close h.table file; releases = without file h.releases }

-- What the paths depend on: filepath.Dir, filepath.Clean, filepath.Join, the first eight hexadecimal
-- digits of SHA-256, whether a path is a directory, and whether os.MkdirAll makes one.
pub record Paths : Type 0 where
  pub dir : String → String
  pub clean : String → String
  pub join : String → String → String
  pub digest : String → String
  pub is_dir : String → Bool
  pub can_make : String → Bool

unfoldable pub default_path : Paths → (state_path : String) → String
default_path p state_path = p.join (p.dir state_path) "fpm-tune.lock"

-- The first of the directories that can carry the locks; /tmp otherwise, even where it cannot.
unfoldable pub lock_dir_in : Paths → List String → String
lock_dir_in p [] = p.join "/tmp" "fpm-tune-locks"
lock_dir_in p (d ∷ ds) =
    let rest = lock_dir_in p ds in
    let locks = p.join d "fpm-tune" in if p.is_dir d && p.can_make locks then locks else rest

unfoldable pub resource_lock_dir : Paths → String
unfolding lock_dir_in
resource_lock_dir p = lock_dir_in p ("/run" ∷ "/var/run" ∷ [])

unfoldable pub resource_path : Paths → (drop_in_dir : String) → String
unfolding resource_lock_dir
resource_path p drop_in_dir =
    p.join (resource_lock_dir p) (str_append (p.digest (p.clean drop_in_dir)) "-apply.lock")
