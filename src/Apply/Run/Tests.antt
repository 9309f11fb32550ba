-- ===== src/Apply/Run/Tests.antt =====
-- apply/apply.go: Apply on a concrete host, from a plan to the file on disk and back.
use Prim.Native.Nat.{Ordering}
use Prim.Native.String.{compare}
use text.Mathlib.Text.{◌==◌ as str_eq}
use text.Mathlib.TextEquality.{eq_iff}
use fpm_tune.Common.{
  ◌*◌, ◌^◌, ◌≡◌, ◌≢◌, refl, sym, subst, String, Bool, true, false, List, [], ◌∷◌, map, All, none,
  some, ok, arith,
}
use fpm_tune.Common.Rational.{rational}
use fpm_tune.Common.Split.{split_lines, join_lines}
use fpm_tune.Allocate.Compute.Lines.{Plan}
use fpm_tune.Apply.Sample.{line, sort, sort-All, sort-IsSort, paths, outside, master}
use fpm_tune.Apply.Decide.{Options, Outcome}
use fpm_tune.Apply.Disk.{Disk, absent, survived, Reload}
use fpm_tune.Apply.Sections.{Override}
use fpm_tune.Apply.Run.{
  Calls, Job, Applied, read_file, render_text, set_of, stale_sections, job_of, apply,
}
use fpm_tune.Common.Map.{lookup}
use fpm_tune.Common.Text.{append, trim_space, is_space, before_last, print_int}
use fpm_tune.Common.Word.{slt, sub64}
use fpm_tune.Apply.Damping.{has, implausible}
use fpm_tune.Apply.Damping.Counted.{AllPairs, Differ, IsSized}
use fpm_tune.Apply.Damping.Fits.{Fits}
use fpm_tune.Apply.Write.{any_unsafe, unsafe_name}
use fpm_tune.Apply.DropIn.{
  render, header_name, parse_ours, override_set, override_lines, override_line, changed_line,
}
use fpm_tune.Apply.DropIn.RoundTrip.{IsDistinct, IsWritten, entry}
use fpm_tune.Apply.Run.Text.{is_one_line, is_one_line_lem, IsPlain, parse_ours-render_text}
use fpm_tune.Apply.Run.Course.{Course, started}
use fpm_tune.Apply.Run.Budget.{job_of-Fits}
use fpm_tune.Apply.Run.Stale.{stale_sections-render_text}

abbrev by_name : String → String → Bool
by_name a b = elim (compare a b) [ Ordering.lt ↦ true | _ ↦ false ]

abbrev calls : Calls
calls = record {
  sort = sort;
  sort_outcomes = sort Outcome (λ a b. by_name a.pool b.pool);
  sort_overrides = sort Override (λ a b. by_name a.name b.name);
  text = λ r. "planned";
  matches = λ pattern path. str_eq pattern path;
}

abbrev options : Options rational
options = record {
  min_interval = 0;
  min_change = (0, 1);
  shrink_min_change = (0, 1);
  shrink_min_interval = 0;
  settle_time = 0;
  backup_dir = "";
  dry_run = false;
}

-- The drop-in of an earlier run: a pool that stays, and one whose site is gone.
abbrev held : List Override
held =
    record {
      name = "blog";
      reason = "unchanged";
      settings = record { max_children = 6; start_servers = 0; min_spare = 0; max_spare = 0 };
    }
    ∷ record {
      name = "gone";
      reason = "";
      settings = record { max_children = 4; start_servers = 2; min_spare = 1; max_spare = 3 };
    }
    ∷ []

abbrev before : Disk
before = record {
  live = some (render_text calls.sort_overrides held);
  record_file = absent;
  backups = [];
  note = none;
}

abbrev plan : Plan
plan = record {
  pools = line "shop" 10 14 64 ∷ line "blog" 6 6 128 ∷ [];
  total_bytes = 6 * 2 ^ 30;
  reserve_bytes = 2 ^ 29;
  allocated_bytes = 0;
  free_bytes = 0;
  capacity_exhausted = false;
  shortfall_bytes = 0;
  warnings = [];
}

abbrev planned : List Override
planned =
    record {
      name = "shop";
      reason = "planned";
      settings = record { max_children = 14; start_servers = 0; min_spare = 0; max_spare = 0 };
    }
    ∷ record {
      name = "blog";
      reason = "unchanged";
      settings = record { max_children = 6; start_servers = 0; min_spare = 0; max_spare = 0 };
    }
    ∷ []

abbrev job : Job rational
job = job_of calls "/var/lib/fpm-tune/backup" options plan master none 5

abbrev run : Reload → Applied rational
run r =
    apply calls paths (outside r) "/var/lib/fpm-tune/backup" options plan master none 5
      (started before)

unnamed : (s : String) → str_eq s "" ≡ false → s ≢ ""
unnamed s f e = let t = (eq_iff s "").1 e in cc

names_differ : {a b : String} → str_eq a b ≡ false → a ≢ b
names_differ {a} {b} f e = let t = (eq_iff a b).1 e in cc

held-IsDistinct : IsDistinct held
held-IsDistinct = ((names_differ refl, tt), (tt, tt))

held-IsWritten : All IsWritten held
held-IsWritten = (
  record {
    named = unnamed "blog" refl;
    some_worker = omega arith;
    max_small = omega arith;
    start_small = omega arith;
    least_small = omega arith;
    most_small = omega arith;
  },
  (
    record {
      named = unnamed "gone" refl;
      some_worker = omega arith;
      max_small = omega arith;
      start_small = omega arith;
      least_small = omega arith;
      most_small = omega arith;
    },
    tt,
  ),
)

held-IsPlain : All IsPlain held
unfolding is_one_line
held-IsPlain = (
  record { name = is_one_line_lem "blog" refl; reason = is_one_line_lem "unchanged" refl },
  (record { name = is_one_line_lem "gone" refl; reason = is_one_line_lem "" refl }, tt),
)

held_sorted : calls.sort_overrides held ≡ held
unfolding sort
held_sorted = refl

held_read :
    parse_ours (read_file false (some (render_text calls.sort_overrides held)))
    ≡ ok (map entry (calls.sort_overrides held))
held_read =
    parse_ours-render_text calls.sort_overrides held
      (subst IsDistinct (sym held_sorted) held-IsDistinct)
      (subst (All IsWritten) (sym held_sorted) held-IsWritten)
      (subst (All IsPlain) (sym held_sorted) held-IsPlain)

-- The section of the site that is gone is found.
gone_found : stale_sections plan.pools (read_file false before.live) ≡ "gone" ∷ []
unfolding stale_sections read_file render_text split_lines join_lines render append header_name
    trim_space is_space sort before_last has slt print_int
gone_found = refl

abbrev grown : Job rational
grown = record {
  options = options;
  master = master;
  plan = plan.pools;
  changes = line "shop" 10 14 64 ∷ [];
  outcomes = [];
  now = 5;
  state = none;
}

set_planned : set_of calls paths (outside survived) grown (started before) ≡ ok planned
unfolding set_of override_set override_lines override_line changed_line lookup sort slt
set_planned = rw held_read refl

planned_safe : any_unsafe planned ≡ false
unfolding unsafe_name
planned_safe = refl

stale_sections-render_text_example :
    stale_sections plan.pools (read_file false (some (render_text calls.sort_overrides planned)))
    ≡ []
stale_sections-render_text_example =
    stale_sections-render_text calls paths (outside survived) grown (started before)
      (λ r. is_one_line_lem "planned" (unfold is_one_line in refl))
      (λ P os. sort-All Override (λ a b. by_name a.name b.name) P os) set_planned planned_safe

abbrev dynamic : Override
dynamic = record {
  name = "shop";
  reason = "raised";
  settings = record { max_children = 120; start_servers = 30; min_spare = 12; max_spare = 60 };
}

parse_ours-render_text_example :
    parse_ours (read_file false (some (render_text (λ os. os) (dynamic ∷ []))))
    ≡ ok (map entry (dynamic ∷ []))
unfolding is_one_line
parse_ours-render_text_example =
    parse_ours-render_text (λ os. os) (dynamic ∷ []) (tt, tt)
      (
        record {
          named = unnamed "shop" refl;
          some_worker = omega arith;
          max_small = omega arith;
          start_small = omega arith;
          least_small = omega arith;
          most_small = omega arith;
        },
        tt,
      )
      (record { name = is_one_line_lem "shop" refl; reason = is_one_line_lem "raised" refl }, tt)

-- Two pools grow, and the reduction that frees memory for them is too small to go through alone.
abbrev tight : Plan
tight = record {
  pools = line "old" 20 18 128 ∷ line "shop" 10 40 64 ∷ line "blog" 10 14 128 ∷ [];
  total_bytes = 6 * 2 ^ 30;
  reserve_bytes = 2 ^ 29;
  allocated_bytes = 0;
  free_bytes = 0;
  capacity_exhausted = false;
  shortfall_bytes = 0;
  warnings = [];
}

tight-Differ : AllPairs Differ tight.pools
tight-Differ = ((names_differ refl, (names_differ refl, tt)), ((names_differ refl, tt), (tt, tt)))

tight-IsSized : All IsSized tight.pools
tight-IsSized = omega arith

job_of-Fits_example :
    Fits tight
      (sub64 tight.total_bytes tight.reserve_bytes)
      (job_of calls "/var/lib/fpm-tune/backup" options tight master none 5).changes
unfolding sub64 slt implausible
job_of-Fits_example =
    job_of-Fits calls "/var/lib/fpm-tune/backup" options tight master none 5 sort-IsSort
      tight-Differ tight-IsSized refl refl
