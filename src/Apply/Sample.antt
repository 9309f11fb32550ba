-- ===== src/Apply/Sample.antt =====
-- A concrete host for the tests of apply/: its files, its master, and an order for sort.Slice.
use Prim.Native.String.{len}
use text.Mathlib.Text.{◌==◌ as str_eq}
use fpm_tune.Common.{
  ℕ, ◌*◌, ◌^◌, subst, String, Bool, true, false, List, [], ◌∷◌, Option, none, some, All,
  if◌then◌else◌, ◌==◌, Bool-cases, inl, inr,
}
use fpm_tune.Allocate.Compute.Lines.{PoolPlan, unchanged}
use fpm_tune.Apply.Disk.{Paths, Outside, works, Reload}
use fpm_tune.Apply.Write.{Master}
use fpm_tune.Apply.Damping.Counted.{AllPairs}
use fpm_tune.Apply.Damping.Fits.{IsSort}

-- One pool directory, and a hash that tells the new contents from all others.
abbrev pub paths : Paths
paths = record {
  clean = λ s. s;
  base = λ s. if str_eq s "/etc/zz-fpm-tune.conf" then "zz-fpm-tune.conf" else s;
  join = λ dir file. "/etc/zz-fpm-tune.conf";
  hash = λ s.
      if str_eq s "new"
      then "1111111111111111111111111111111111111111111111111111111111111111"
      else "0000000000000000000000000000000000000000000000000000000000000000";
  is_hex = λ s. len s == 64;
  trim = λ s. s;
}

abbrev pub is_bad : Option String → Bool
is_bad none = false
is_bad (some s) = str_eq s "bad"

-- All calls work, php-fpm refuses "bad", and a reload ends as given.
abbrev pub outside : Reload → Outside
outside r = record {
  write = λ s. works;
  remove_fails = λ s. false;
  sweep_fails = λ n. false;
  read_fails = λ s. false;
  check = λ s c. record { refused = is_bad c; cancelled = false };
  cancelled = λ s. false;
  reload = λ s. r;
}

abbrev pub master : Master
master = record {
  binary = "/usr/sbin/php-fpm";
  config_path = "/etc/php-fpm.conf";
  pid = 77;
  no_master_expected = false;
  include_patterns = [];
  pid_file = "";
  drop_in_dir = "/etc";
}

abbrev pub line : String → (current to mib : ℕ) → PoolPlan
line name current to mib = record {
  name = name;
  max_children = to;
  current = current;
  start_servers = 0;
  min_spare = 0;
  max_spare = 0;
  bytes = to * (mib * 2 ^ 20);
  worker_bytes = mib * 2 ^ 20;
  child_bytes = 0;
  want = to;
  memory_want = to;
  demand_unmet = false;
  cpu_bound = false;
  measured = true;
  unknown = false;
  reason = unchanged to (record { measured = true; own_bytes = mib * 2 ^ 20; child_bytes = none });
}

-- An insertion sort in place of sort.Slice.
unfoldable pub insert {ℓ} : {A : Type ℓ} → (A → A → Bool) → A → List A → List A
insert less x [] = x ∷ []
insert less x (y ∷ ys) = let rest = insert less x ys in if less y x then y ∷ rest else x ∷ y ∷ ys

unfoldable pub sort : (A : Type 0) → (A → A → Bool) → List A → List A
unfolding insert
sort A less [] = []
sort A less (x ∷ xs) = insert less x (sort A less xs)

insert-All {ℓ κ} :
    {A : Type ℓ} (less : A → A → Bool) (P : A → Type κ) (x : A) (xs : List A)
    → P x
    → All P xs
    → All P (insert less x xs)
unfolding insert
insert-All less P x [] p v = (p, tt)
insert-All less P x (y ∷ ys) p v = elim (Bool-cases (less y x)) [
  | inl t ↦ rw t (v.0, insert-All less P x ys p v.1)
  | inr f ↦ rw f (p, v)
]

pub sort-All :
    (A : Type 0) (less : A → A → Bool) (P : A → Type 0) (xs : List A)
    → All P xs
    → All P (sort A less xs)
unfolding sort
sort-All A less P [] v = tt
sort-All A less P (x ∷ xs) v = insert-All less P x (sort A less xs) v.0 (sort-All A less P xs v.1)

insert-covers {ℓ κ} :
    {A : Type ℓ} (less : A → A → Bool) (P : A → Type κ) (x : A) (xs : List A)
    → All P (insert less x xs)
    → P x × All P xs
unfolding insert
insert-covers less P x [] v = v
insert-covers less P x (y ∷ ys) v = elim (Bool-cases (less y x)) [
  | inl t ↦
      let w : All P (y ∷ insert less x ys) =
        subst (λ b. All P (if b then y ∷ insert less x ys else x ∷ y ∷ ys)) t v in
      let rest = insert-covers less P x ys w.1 in (rest.0, (w.0, rest.1))
  | inr f ↦
      let w : All P (x ∷ y ∷ ys) =
        subst (λ b. All P (if b then y ∷ insert less x ys else x ∷ y ∷ ys)) f v in
      (w.0, w.1)
]

pub sort-covers :
    (A : Type 0) (less : A → A → Bool) (P : A → Type 0) (xs : List A)
    → All P (sort A less xs)
    → All P xs
unfolding sort
sort-covers A less P [] v = tt
sort-covers A less P (x ∷ xs) v =
    let w = insert-covers less P x (sort A less xs) v in (w.0, sort-covers A less P xs w.1)

insert-AllPairs :
    {A : Type 0} (less : A → A → Bool) (R : A → A → Type 0) (x : A) (xs : List A)
    → ((x y : A) → R x y → R y x)
    → All (R x) xs
    → AllPairs R xs
    → AllPairs R (insert less x xs)
unfolding insert
insert-AllPairs less R x [] flip p v = (tt, tt)
insert-AllPairs less R x (y ∷ ys) flip p v = elim (Bool-cases (less y x)) [
  | inl t ↦
      rw t (insert-All less (R y) x ys (flip x y p.0) v.0, insert-AllPairs less R x ys flip p.1 v.1)
  | inr f ↦ rw f (p, v)
]

sort-AllPairs :
    (A : Type 0) (less : A → A → Bool) (R : A → A → Type 0) (xs : List A)
    → ((x y : A) → R x y → R y x)
    → AllPairs R xs
    → AllPairs R (sort A less xs)
unfolding sort
sort-AllPairs A less R [] flip v = tt
sort-AllPairs A less R (x ∷ xs) flip v =
    insert-AllPairs less R x (sort A less xs) flip (sort-All A less (R x) xs v.0)
      (sort-AllPairs A less R xs flip v.1)

pub sort-IsSort : IsSort sort
sort-IsSort = record { keeps = sort-All; covers = sort-covers; pairs = sort-AllPairs }
