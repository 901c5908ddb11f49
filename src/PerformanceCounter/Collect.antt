-- ===== src/PerformanceCounter/Collect.antt =====
-- `Collect` and `collectObject` of internal/collector/performancecounter/performancecounter.go. A
-- row is what reflection finds in an element of the slice that the PDH collector has filled; a
-- floating-point number is a number. The labels of a counter, which `Build` does not read, are
-- given beside it.
pub mod Rows
mod Statuses
use windows_exporter.Base.{
  ℕ, ◌+◌, ◌≡◌, Bool, true, false, not, ◌&&◌, ◌||◌, List, [], ◌∷◌, ◌++◌, Option, none, some, arith,
  ◌==◌, nat_eq, Str, str_eq, codes, Map, lookup, insert, if◌then◌else◌,
}
use windows_exporter.Errors.{◌>>=◌, Error, Result, ok, err, new_error}
use windows_exporter.Pdh.{ValueType, gauge_value, counter_value, instance_empty}
use windows_exporter.PerformanceCounter.{Counter, Object, Calls}

-- A field, by its kind.
pub data Field : Type 0 where
  float : ℕ → Field
  text : Str → Field
  value_type : ValueType → Field
  other_field : Field

abbrev pub Row : Type 0
Row = Str → Option Field

pub record Metric : Type 0 where
  pub name : Str
  pub labels : Map Str Str
  pub metric_type : ValueType
  pub value : ℕ

abbrev pub field_name : Calls → Counter → Str
field_name calls c = calls.to_upper (calls.sanitize c.name)

unfoldable pub read_value : Counter → Option Field → Result ℕ
read_value c none = err (new_error (c.name ++ codes " not found in collected data"))
read_value c (some (float v)) = ok v
read_value c (some _) = err (new_error (codes "failed to cast " ++ c.name ++ codes " to float64"))

unfoldable pub read_type : Counter → Option Field → Result ValueType
read_type c none = err (new_error (codes "field MetricType not found in collected data"))
read_type c (some (value_type t)) = ok t
read_type c (some _) = err (new_error (codes "failed to cast MetricType for " ++ c.name))

-- The label of the instance.
unfoldable pub read_instance :
    Object → Counter → Option (List Str) → Option Field → Result (Map Str Str)
read_instance o c none field = ok []
read_instance o c (some instances) none =
    err (new_error (codes "field Name not found in collected data"))
read_instance o c (some instances) (some (text inst)) =
    ok (if inst == instance_empty then [] else (o.instance_label, inst) ∷ [])
read_instance o c (some instances) (some _) =
    err (new_error (codes "failed to cast Name for " ++ c.name))

-- maps.Copy(labels, counter.Labels)
abbrev pub copy_labels : Map Str Str → Map Str Str → Map Str Str
copy_labels labels [] = labels
copy_labels labels ((k, v) ∷ more) = copy_labels (insert k v labels) more

unfoldable pub chosen_type : Counter → ValueType → ValueType
chosen_type c t =
    if c.counter_type == codes "counter"
    then counter_value
    else if c.counter_type == codes "gauge"
    then gauge_value
    else t

-- The body of the inner loop up to the call: the metric of a counter in a row, or an error.
unfoldable pub counter_metric : Calls → Object → Row → Counter × Map Str Str → Result Metric
counter_metric calls o row (c, more) = do
  v ← read_value c (row (field_name calls c))
  t ← read_type c (row (codes "MetricType"))
  labels ← read_instance o c o.instances (row (codes "Name"))
  ok (record {
    name = c.metric;
    labels = copy_labels labels more;
    metric_type = chosen_type c t;
    value = v;
  })

-- What is sent and noted, and whether a call of MustNewConstMetric has panicked at the end.
pub record Collected : Type 0 where
  pub metrics : List Metric
  pub errs : List Error
  pub panicked : Bool

abbrev pub nothing : Collected
nothing = record { metrics = []; errs = []; panicked = false }

abbrev pub join_collected : Collected → Collected → Collected
join_collected x y =
    if x.panicked
    then x
    else record { metrics = x.metrics ++ y.metrics; errs = x.errs ++ y.errs; panicked = y.panicked }

-- `accepts` is whether prometheus.NewDesc and MustNewConstMetric take a name and labels: as it is
-- documented, the second panics for a description that is not valid.
module _ (accepts : Str → Map Str Str → Bool) where
  -- A metric is sent, unless the call panics, which ends the collection.
  unfoldable pub send_metric : Result Metric → Collected
  send_metric (err e) = record { metrics = []; errs = e ∷ []; panicked = false }
  send_metric (ok m) =
      if accepts m.name m.labels
      then record { metrics = m ∷ []; errs = []; panicked = false }
      else record { metrics = []; errs = []; panicked = true }

  unfoldable pub collect_row : Calls → Object → Row → List (Counter × Map Str Str) → Collected
  collect_row calls o row [] = nothing
  collect_row calls o row (c ∷ cs) =
      join_collected (send_metric (counter_metric calls o row c)) (collect_row calls o row cs)

  unfoldable pub collect_rows : Calls → Object → List (Counter × Map Str Str) → List Row → Collected
  collect_rows calls o cs [] = nothing
  collect_rows calls o cs (row ∷ rows) =
      join_collected (collect_row calls o row cs) (collect_rows calls o cs rows)

  -- `collectObject`: what the PDH collector answers decides.
  unfoldable pub collect_object :
      Calls → Object → List (Counter × Map Str Str) → Result (List Row) → Collected
  collect_object calls o cs (err e) = record { metrics = []; errs = e ∷ []; panicked = false }
  collect_object calls o cs (ok rows) = collect_rows calls o cs rows

-- An object of c.objects, its counters, and what its PDH collector answers.
pub record Task : Type 0 where
  pub object : Object
  pub counters : List (Counter × Map Str Str)
  pub answer : Result (List Row)

abbrev pub is_empty : List Error → Bool
is_empty [] = true
is_empty (e ∷ errs) = false

-- What `Collect` sends: metrics, and the success for the name of each object. A panic ends it.
pub record Sent : Type 0 where
  pub metrics : List Metric
  pub statuses : List (Str × ℕ)
  pub errs : List (List Error)
  pub panicked : Bool

unfoldable pub add_collected : Str → Collected → Sent → Sent
add_collected name c rest =
    if c.panicked
    then record { metrics = c.metrics; statuses = []; errs = []; panicked = true }
    else record {
      metrics = c.metrics ++ rest.metrics;
      statuses = (name, if is_empty c.errs then 1 else 0) ∷ rest.statuses;
      errs = if is_empty c.errs then rest.errs else c.errs ∷ rest.errs;
      panicked = rest.panicked;
    }

unfoldable pub collect : (Str → Map Str Str → Bool) → Calls → List Task → Sent
collect accepts calls [] = record { metrics = []; statuses = []; errs = []; panicked = false }
collect accepts calls (task ∷ tasks) =
    add_collected task.object.name
      (collect_object accepts calls task.object task.counters task.answer)
      (collect accepts calls tasks)
