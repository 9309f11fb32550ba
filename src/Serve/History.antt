-- ===== src/Serve/History.antt =====
-- serve/history.go: the rounds and the events that the daemon remembers.
pub mod Newest
pub mod Snapshot
pub mod Settled
use fpm_tune.Common.{
  ℕ, zero, suc, ◌+◌, String, Bool, true, false, not, ◌&&◌, ◌||◌, List, [], ◌∷◌, Option, none, some,
  if◌then◌else◌, ◌==◌, length, get_elem?, modify,
}
use fpm_tune.Common.Word.{add64, sub64, slt, rem64}
use fpm_tune.Common.Float.{Float}
use fpm_tune.Common.Map.{lookup, insert, remove, string_eq}

pub record PoolSample (fl : Float) : Type 0 where
  pub pool : String
  pub active : ℕ
  pub queue : ℕ
  pub configured : ℕ
  pub recommended : ℕ
  pub demand_unmet : Bool
  pub unknown : Bool
  pub worker_bytes : ℕ
  pub memory_ceiling : ℕ
  pub cpu_ratio_p50 : fl.Num
  pub cpu_readings : ℕ
  pub cpu_fill : ℕ
  pub cpu_ceiling : ℕ
  pub cpu_limited : Bool
  pub cpu_bound : Bool

pub record HistorySample (fl : Float) : Type 0 where
  pub at : Option ℕ
  pub host_busy_ratio : fl.Num
  pub host_busy_known : Bool
  pub pools : List (PoolSample fl)

-- The kinds of event.
pub data EventKind : Type 0 where
  no_event resized apply_failed rolled_back rollback_failed repaired changed : EventKind

pub record HistoryEvent : Type 0 where
  pub at : Option ℕ
  pub kind : EventKind
  pub pool : String
  pub from : ℕ
  pub to : ℕ
  pub detail : String

pub record HostInfo (fl : Float) : Type 0 where
  pub hostname : String
  pub version : String
  pub apply : Bool
  pub cpu_ceiling : Bool
  pub cpu_headroom : fl.Num
  pub memory_bytes : ℕ
  pub cpu_millicores : ℕ
  pub source : String

abbrev pub history_events : ℕ
history_events = 1000

-- A slice with the place of the next element and the number of valid ones, as it stands twice in
-- history, for the samples and for the events.
pub record Ring {ℓ} (A : Type ℓ) : Type ℓ where
  pub slots : List A
  pub head : ℕ
  pub n : ℕ

module _ {ℓ} {A : Type ℓ} where
  abbrev pub copies : A → ℕ → List A
  copies x zero = []
  copies x (suc k) = x ∷ copies x k

  -- make([]A, size), of zero values.
  unfoldable pub new_ring : (empty : A) → (size : ℕ) → Ring A
  new_ring empty size = record { slots = copies empty size; head = 0; n = 0 }

  unfoldable pub push : A → Ring A → Ring A
  push x r = record {
    slots = modify r.slots r.head (λ _. x);
    head = rem64 (add64 r.head 1) (length r.slots);
    n = if slt r.n (length r.slots) then add64 r.n 1 else r.n;
  }

  -- Go panics at a place that is out of range.
  abbrev pub at_place : Option A → List A → List A
  at_place none xs = xs
  at_place (some x) xs = x ∷ xs

  -- `count` elements from `start + i` on, around the end.
  unfoldable pub read_from : (slots : List A) → (start i count : ℕ) → List A
  read_from slots start i zero = []
  read_from slots start i (suc count) =
      at_place (get_elem? slots (rem64 (add64 start i) (length slots)))
        (read_from slots start (suc i) count)

  -- The newest `k` elements, the oldest of them first.
  unfoldable pub copy_out : ℕ → Ring A → List A
  copy_out k r =
      let size = length r.slots in read_from r.slots (rem64 (add64 (sub64 r.head k) size) size) 0 k

abbrev pub empty_event : HistoryEvent
empty_event = record { at = none; kind = no_event; pool = ""; from = 0; to = 0; detail = "" }

-- The mutex is left out: each operation holds it from its first line to its last.
pub record History (fl : Float) : Type 0 where
  pub interval : ℕ
  pub host : HostInfo fl
  pub samples : Ring (HistorySample fl)
  pub events : Ring HistoryEvent

module _ {fl : Float} where
  abbrev pub no_sample : HistorySample fl
  no_sample = record {
    at = none;
    host_busy_ratio = fl.of_int 0;
    host_busy_known = false;
    pools = [];
  }

  abbrev pub no_host : HostInfo fl
  no_host = record {
    hostname = "";
    version = "";
    apply = false;
    cpu_ceiling = false;
    cpu_headroom = fl.of_int 0;
    memory_bytes = 0;
    cpu_millicores = 0;
    source = "";
  }

  unfoldable pub new_history : (rounds interval : ℕ) → History fl
  new_history rounds interval = record {
    interval = interval;
    host = no_host;
    samples = new_ring no_sample (if slt rounds 2 then 2 else rounds);
    events = new_ring empty_event history_events;
  }

  unfoldable pub record_sample : HistorySample fl → History fl → History fl
  record_sample s h = record h { samples = push s h.samples }

  unfoldable pub event : HistoryEvent → History fl → History fl
  event e h = record h { events = push e h.events }

  unfoldable pub set_host : HostInfo fl → History fl → History fl
  set_host info h = record h { host = info }

  unfoldable pub snapshot : (last : ℕ) → History fl → List (HistorySample fl) × List HistoryEvent
  snapshot last h =
      let n = if slt 0 last && slt last h.samples.n then last else h.samples.n in
      (copy_out n h.samples, copy_out h.events.n h.events)

-- What noteExternalChanges reads of a pool's view.
pub record View : Type 0 where
  pub name : String
  pub failed : Bool
  pub max_children_known : Bool
  pub current_max_children : ℕ

-- The maps of the loop that noteExternalChanges keeps, and the history.
pub record Watch (fl : Float) : Type 0 where
  pub last_configured : List (String × ℕ)
  pub expected : List (String × ℕ)
  pub history : History fl

-- Whether a ceiling moved, and not to where this daemon put it.
unfoldable pub moved_outside : (prev want : Option ℕ) → (now : ℕ) → Option ℕ
moved_outside none want now = none
moved_outside (some prev) none now = if prev == now then none else some prev
moved_outside (some prev) (some want) now = if prev == now || want == now then none else some prev

module _ {fl : Float} where
  unfoldable pub note_change : Option ℕ → View → (at : ℕ) → History fl → History fl
  note_change none v at h = h
  note_change (some prev) v at h =
      event
        (record {
          at = some at;
          kind = changed;
          pool = v.name;
          from = prev;
          to = v.current_max_children;
          detail = "configured outside this daemon: a hand edit, a deploy, or fpm-tune apply";
        })
        h

  unfoldable pub note_view : (at : ℕ) → View → Watch fl → Watch fl
  note_view at v l = if v.failed || not v.max_children_known then l else record {
    last_configured = insert v.name v.current_max_children l.last_configured;
    expected = remove v.name l.expected;
    history =
        note_change
          (moved_outside (lookup v.name l.last_configured) (lookup v.name l.expected)
            v.current_max_children)
          v at l.history;
  }

  unfoldable pub note_external_changes : List View → (at : ℕ) → Watch fl → Watch fl
  note_external_changes [] at l = l
  note_external_changes (v ∷ vs) at l = note_external_changes vs at (note_view at v l)
