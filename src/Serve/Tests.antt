-- ===== src/Serve/Tests.antt =====
-- serve/history.go: runs of the history on concrete rounds, and the theorems applied to them.
use fpm_tune.Common.{ℕ, ◌≡◌, refl, true, false, List, [], ◌∷◌, some, take, arith}
use fpm_tune.Common.Word.{slt, rem64, add64, sub64}
use fpm_tune.Common.Rational.{rational}
use fpm_tune.Common.Map.{lookup, insert, remove}
use fpm_tune.Serve.History.{
  HistorySample, HistoryEvent, changed, resized, new_history, snapshot, record_sample, push,
  new_ring, copy_out, read_from, history_events, Watch, View, note_external_changes, note_view,
  note_change, moved_outside, event,
}
use fpm_tune.Serve.History.Newest.{rev}
use fpm_tune.Serve.History.Settled.{IsKnown, reports, note_external_changes-once}
use fpm_tune.Serve.History.Snapshot.{
  Entry, sampled, noted, history_of, newest, capacity, samples_of, events_of, snapshot-newest,
}

abbrev round : ℕ → HistorySample rational
round t = record { at = some t; host_busy_ratio = (1, 2); host_busy_known = true; pools = [] }

abbrev resize : ℕ → HistoryEvent
resize t = record { at = some t; kind = resized; pool = "www"; from = 4; to = 6; detail = "" }

-- Four rounds and an event in a ring of three, the newest first.
abbrev day : List (Entry rational)
day =
    sampled (round 4)
    ∷ noted (resize 3)
    ∷ sampled (round 3)
    ∷ sampled (round 2)
    ∷ sampled (round 1)
    ∷ []

last_two : (snapshot 2 (history_of 3 30 day)).0 ≡ round 3 ∷ round 4 ∷ []
unfolding snapshot new_history record_sample event push new_ring copy_out read_from slt rem64 add64
    sub64
last_two = refl

snapshot-newest_example : snapshot 2 (history_of 3 30 day) ≡ (
  rev (newest 2 (take (capacity 3) (samples_of day))),
  rev (take history_events (events_of day)),
)
snapshot-newest_example = snapshot-newest 3 30 2 day (omega arith) (omega arith)

-- A pool that went from 4 to 9 where 6 was expected.
abbrev views : List View
views =
    record { name = "www"; failed = false; max_children_known = true; current_max_children = 9 }
    ∷ record { name = "api"; failed = false; max_children_known = false; current_max_children = 0 }
    ∷ []

abbrev watch : Watch rational
watch = record {
  last_configured = ("www", 4) ∷ [];
  expected = ("www", 6) ∷ [];
  history = history_of 3 30 [];
}

reported :
    (snapshot 0 (note_external_changes views 5 watch).history).1
    ≡ record {
      at = some 5;
      kind = changed;
      pool = "www";
      from = 4;
      to = 9;
      detail = "configured outside this daemon: a hand edit, a deploy, or fpm-tune apply";
    }
      ∷ []
unfolding note_external_changes note_view note_change moved_outside event snapshot new_history push
    new_ring copy_out read_from lookup insert remove slt rem64 add64 sub64
reported = refl

note_external_changes-once_example :
    ((note_external_changes views 5 watch).history
      ≡ reports 5 views watch.last_configured watch.expected watch.history)
    × IsKnown views (note_external_changes views 5 watch).last_configured
    × ((note_external_changes views 6 (note_external_changes views 5 watch)).history
        ≡ (note_external_changes views 5 watch).history)
note_external_changes-once_example =
    note_external_changes-once views 5 6 watch ((refl, tt), (tt, tt))
