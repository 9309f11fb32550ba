-- ===== src/State/Store/Tests.antt =====
-- state/state.go: runs of the store on concrete states, and the theorems applied to them.
use fpm_tune.State.Load.{
  repair_pool, dropped_memory, drop_misshapen_histograms, drop_memory, drop_cpu, is_misshapen,
  forget_the_future, infer_cadence,
}
use fpm_tune.Common.Word.{slt}
use fpm_tune.Common.{
  ◌^◌, ◌+◌, ◌≡◌, refl, true, false, [], ◌∷◌, none, some, if◌then◌else◌, ltb, arith,
}
use fpm_tune.Common.Rational.{rational}
use fpm_tune.Common.Map.{lookup, insert, remove, string_eq}
use fpm_tune.State.Types.{PoolState, State, new_pool}
use fpm_tune.State.Store.{
  pool_key, lookup_scoped, lookup_pool, for_writing, record_applied, forget_after_missed_rounds,
  is_kept, unscoped, legacy, choose,
}
use fpm_tune.State.Store.Adopt.{
  Continues, GoesOn, IsLeft, for_writing-Continues, record_applied-lookup,
}
use fpm_tune.State.Store.Forget.{forget_rounds, outside, forget_rounds-keeps}

-- A pool from before pools carried a master.
abbrev old_pool : PoolState rational
unfolding new_pool
old_pool = record (new_pool rational "www" "" 3) { typical_peak_bytes = 4096; missed_rounds = 2 }

abbrev old_store : State rational
old_store = record {
  host_cpu = none;
  pools = ("www", old_pool) ∷ [];
  master = record { binary = ""; config_path = ""; drop_in_dir = "" };
}

adopts : (for_writing "/etc/fpm.conf" "www" 9 old_store).1.typical_peak_bytes ≡ 4096
unfolding for_writing lookup_scoped pool_key legacy unscoped choose lookup old_pool
adopts = refl

renames :
    lookup "/etc/fpm.conf::www" (for_writing "/etc/fpm.conf" "www" 9 old_store).0.pools
    ≡ some (record old_pool { master_config = "/etc/fpm.conf" })
unfolding for_writing lookup_scoped pool_key legacy unscoped choose lookup insert remove old_pool
renames = refl

for_writing-Continues_example :
    Continues "/etc/fpm.conf" "www" 9 old_store (for_writing "/etc/fpm.conf" "www" 9 old_store)
for_writing-Continues_example = for_writing-Continues "/etc/fpm.conf" "www" 9 old_store

record_applied-lookup_example :
    (ps : PoolState rational) × GoesOn "/etc/fpm.conf" "www" 9 old_store ps
    × (lookup_pool "/etc/fpm.conf" "www" (record_applied "/etc/fpm.conf" "www" 12 9 old_store)
        ≡ some (record ps { last_applied_max_children = 12; last_applied_at = some 9 }))
    × IsLeft "/etc/fpm.conf" "www" 9 old_store (record_applied "/etc/fpm.conf" "www" 12 9 old_store)
record_applied-lookup_example = record_applied-lookup "/etc/fpm.conf" "www" 12 9 old_store

found_old : lookup "www" old_store.pools ≡ some old_pool
unfolding lookup
found_old = refl

forget_rounds-keeps_example :
    (outside [] "" (λ l. l) old_pool ≡ true
      → lookup "www" (forget_rounds [] "" (λ l. l) 2 old_store).pools ≡ some old_pool)
    × (outside [] "" (λ l. l) old_pool ≡ false
        → is_kept "www" [] ≡ true
        → lookup "www" (forget_rounds [] "" (λ l. l) 3 old_store).pools
          ≡ some (record old_pool { missed_rounds = 0 }))
    × (outside [] "" (λ l. l) old_pool ≡ false
        → is_kept "www" [] ≡ false
        → lookup "www" (forget_rounds [] "" (λ l. l) 2 old_store).pools ≡ (
            if ltb (2 + 2) forget_after_missed_rounds
            then some (record old_pool { missed_rounds = 2 + 2 })
            else none))
unfolding old_pool
forget_rounds-keeps_example =
    forget_rounds-keeps [] "" (λ l. l) "www" 2 old_store old_pool (tt, tt) found_old (omega arith)

-- A pool from a clock that was wrong, with a histogram of two buckets.
abbrev odd_pool : PoolState rational
unfolding old_pool
odd_pool = record old_pool { rss_histogram = some (1 ∷ 1 ∷ []); last_busy_at = some (10 ^ 18) }

repairs : (repair_pool 5 odd_pool).1 ≡ dropped_memory "www" 2 ∷ []
unfolding odd_pool repair_pool drop_misshapen_histograms drop_memory drop_cpu is_misshapen
    forget_the_future infer_cadence old_pool slt
repairs = refl
