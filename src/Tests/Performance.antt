-- ===== src/Tests/Performance.antt =====
-- Runs for the collector of custom performance counters.
use windows_exporter.Base.{
  ℕ, ◌≡◌, refl, true, false, List, [], ◌∷◌, Option, none, some, arith, Str, str_eq, codes, Map,
  ◌==◌, ◌||◌, Bool, not, has_key, lookup, contains, nat_eq, if◌then◌else◌,
}
use windows_exporter.Errors.{ok}
use windows_exporter.Pdh.{counter_value}
use windows_exporter.PerformanceCounter.{
  Counter, Object, Calls, State, runs, panics, state_of, build, objects_loop, object_round,
  counters_loop, counter_round, add_counter, add_object, set_metric, close,
}
use windows_exporter.PerformanceCounter.Leak.{is_open-close-build}
use windows_exporter.PerformanceCounter.Panics.{object_round-panics}
use windows_exporter.PerformanceCounter.Kept.{identities, usable, objects-build}
use windows_exporter.PerformanceCounter.Collect.{
  Metric, float, value_type, Row, Task, collect_object,
}
use windows_exporter.PerformanceCounter.Collect.Rows.{
  Reading, rows_of, IsTaken, sends_all, ShowsRows, ShowsRows-collect_object,
}

-- Two fields have the same name.
abbrev repeats : List Str → Bool
repeats [] = false
repeats (name ∷ names) = contains names name || repeats names

abbrev calls : Calls
calls = record {
  sanitize = λ s. s;
  to_upper = λ s. s;
  struct_of_panics = repeats;
  new_collector = λ o names. (true, none);
}

abbrev object : Str → ℕ → Object
object name counters = record {
  name = name;
  object = codes "Memory";
  object_type = [];
  instances = none;
  counters = counters;
  instance_label = [];
  collector = none;
}

abbrev counter : Str → Counter
counter name = record { name = name; counter_type = codes "gauge"; metric = [] }

-- Slice 7 holds a counter without a name.
abbrev slices : ℕ → List Counter
slices n = counter (if n == 7 then [] else codes "Available") ∷ []

abbrev configured : State
configured = record {
  array = object (codes "a") 0 ∷ object (codes "b") 1 ∷ object (codes "a") 2 ∷ [];
  count = 3;
  slices = slices;
  objects = [];
  names = [];
  counters = [];
  errs = [];
  is_open = λ i. false;
  next = 0;
}

objects-build_example :
    (t : State) × (build calls configured ≡ runs t)
    × (identities t.objects ≡ identities (usable [] configured.array))
objects-build_example =
    objects-build calls configured refl
      ((refl, (refl, tt), refl), ((refl, (refl, tt), refl), ((refl, (refl, tt), refl), tt)))

kept :
    identities (usable [] configured.array)
    ≡ (codes "a", codes "Memory", 0) ∷ (codes "b", codes "Memory", 1) ∷ []
kept = refl

abbrev built : Option State
built = state_of (build calls configured)

abbrev or_configured : Option State → State
or_configured none = configured
or_configured (some s) = s

ran : built ≡ some (or_configured built)
unfolding build objects_loop object_round counters_loop counter_round add_counter add_object
    set_metric
ran = refl

two : (or_configured built).next ≡ 2
unfolding build objects_loop object_round counters_loop counter_round add_counter add_object
    set_metric
two = refl

is_open-close-build_example : (close (or_configured built)).is_open 1 ≡ true
is_open-close-build_example =
    is_open-close-build calls configured (or_configured built) 1 (refl, (refl, (refl, tt))) refl ran
      (omega (arith, two))

object_round-panics_example : object_round calls 2 (object (codes "c") 7) configured ≡ panics
object_round-panics_example =
    object_round-panics calls 2 (object (codes "c") 7) configured (omega arith) refl refl refl refl

abbrev available : Counter × Map Str Str
available = (
  record { name = codes "Available"; counter_type = codes "gauge"; metric = codes "available" },
  (codes "unit", codes "bytes") ∷ [],
)

-- A name is not empty.
abbrev accepts : Str → Map Str Str → Bool
accepts name labels = not (name == [])

abbrev reading : Reading
reading = record { value = λ name. 5; metric_type = counter_value; inst = codes "_Total" }

abbrev row : Row
row name =
    if name == codes "Available"
    then some (float 5)
    else if name == codes "MetricType"
    then some (value_type counter_value)
    else none

available-IsTaken : IsTaken accepts calls (object (codes "a") 0) reading available
unfolding has_key lookup
available-IsTaken = ((refl, tt), λ m s. rw (s.named) refl)

ShowsRows-collect_object_example :
    (ms : List Metric) × (collect_object accepts calls
        (object (codes "a") 0)
        (available ∷ [])
        (ok (rows_of calls (object (codes "a") 0) ((row, reading) ∷ [])))
      ≡ sends_all ms)
    × ShowsRows calls (object (codes "a") 0) (available ∷ []) ((row, reading) ∷ []) ms
ShowsRows-collect_object_example =
    ShowsRows-collect_object accepts calls (object (codes "a") 0) (available ∷ [])
      ((row, reading) ∷ []) ((((refl, tt), refl, tt), (available-IsTaken, tt)), tt)

abbrev task : Task
task = record { object = object (codes "a") 0; counters = available ∷ []; answer = ok (row ∷ []) }
