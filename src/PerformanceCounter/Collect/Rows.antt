-- ===== src/PerformanceCounter/Collect/Rows.antt =====
-- The metrics of an object.
use windows_exporter.Base.{
  ℕ, ◌≡◌, ◌≢◌, refl, sym, ◌∙◌, Bool, true, false, List, [], ◌∷◌, ◌++◌, Option, none, some, ◌==◌,
  nat_eq, Str, str_eq, codes, Map, lookup, insert, lookup-insert, Distinct, has_key, eq_iff, All,
  if◌then◌else◌, Bool-cases, Option-cases, inl, inr,
}
use windows_exporter.Errors.{ok}
use windows_exporter.Pdh.{ValueType, gauge_value, counter_value}
use windows_exporter.PerformanceCounter.{Counter, Object, Calls}
use windows_exporter.PerformanceCounter.Collect.{
  Field, float, text, value_type, Row, Metric, field_name, read_value, read_type, read_instance,
  copy_labels, chosen_type, counter_metric, Collected, send_metric, collect_row, collect_rows,
  collect_object,
}

-- What the fields of a row hold.
pub record Reading : Type 0 where
  pub value : Str → ℕ
  pub metric_type : ValueType
  pub inst : Str

-- The struct has a field for the name if the object has instances.
abbrev pub HasInstance : Option (List Str) → Option Field → Str → Type 0
HasInstance none field inst = Unit
HasInstance (some instances) field inst = field ≡ some (text inst)

-- The row has the fields that the struct for the object has, with these values.
abbrev pub IsReading : Calls → Object → List (Counter × Map Str Str) → Row → Reading → Type 0
IsReading calls o cs row r =
    All (λ c. row (field_name calls c.0) ≡ some (float (r.value (field_name calls c.0)))) cs
    × (row (codes "MetricType") ≡ some (value_type r.metric_type))
    × HasInstance o.instances (row (codes "Name")) r.inst

-- The instance of a row, as the value of the label that the object names for it; an object without
-- instances, and a row without a name, have none.
abbrev pub instance_label_of : Object → Option (List Str) → Str → Str → Option Str
instance_label_of o none inst k = none
instance_label_of o (some instances) inst k =
    if inst == codes "------" then none else if o.instance_label == k then some inst else none

abbrev pub or_else : Option Str → Option Str → Option Str
or_else none o = o
or_else (some v) o = some v

-- The metric shows the reading for the counter: its name and value, the type that the counter asks
-- for or else that of the row, the labels of the counter and, behind them, the instance.
pub record Shows (calls : Calls) (o : Object) (r : Reading) (c : Counter) (more : Map Str Str)
    (m : Metric) : Type 0 where
  pub named : m.name ≡ c.metric
  pub valued : m.value ≡ r.value (field_name calls c)
  pub counts : c.counter_type ≡ codes "counter" → m.metric_type ≡ counter_value
  pub gauges : c.counter_type ≡ codes "gauge" → m.metric_type ≡ gauge_value
  pub typed :
      c.counter_type ≢ codes "counter"
      → c.counter_type ≢ codes "gauge"
      → m.metric_type ≡ r.metric_type
  pub labelled :
      (k : Str)
      → lookup k m.labels ≡ or_else (lookup k more) (instance_label_of o o.instances r.inst k)

-- There is one metric for each counter and each reading, in order.
abbrev pub ShowsRow :
    Calls → Object → Reading → List (Counter × Map Str Str) → List Metric → List Metric → Type 0
ShowsRow calls o r [] later ms = ms ≡ later
ShowsRow calls o r (c ∷ cs) later [] = ⊥
ShowsRow calls o r (c ∷ cs) later (m ∷ ms) =
    Shows calls o r c.0 c.1 m × ShowsRow calls o r cs later ms

abbrev pub ShowsRows :
    Calls → Object → List (Counter × Map Str Str) → List (Row × Reading) → List Metric → Type 0
ShowsRows calls o cs [] ms = ms ≡ []
ShowsRows calls o cs ((row, r) ∷ rows) ms =
    (later : List Metric) × ShowsRow calls o r cs later ms × ShowsRows calls o cs rows later

lookup-missing : (k : Str) (m : Map Str Str) → has_key k m ≡ false → lookup k m ≡ none
unfolding has_key
lookup-missing k m h = elim (Option-cases (lookup k m)) [
  | inl e ↦ e
  | inr (v, e) ↦ absurd (cc (rw (e, has_key) at h))
]

lookup-copy_labels :
    (more labels : Map Str Str) (k : Str)
    → Distinct more
    → lookup k (copy_labels labels more) ≡ or_else (lookup k more) (lookup k labels)
unfolding lookup
lookup-copy_labels [] labels k d = refl
lookup-copy_labels ((j, v) ∷ more) labels k d =
    lookup-copy_labels more (insert j v labels) k d.1 ∙ elim (Bool-cases (j == k)) [
      | inl e ↦
          rw (lookup-insert j k v labels, e, sym ((eq_iff j k).0 e))
            (rw (lookup-missing j more d.0) refl)
      | inr e ↦ rw (lookup-insert j k v labels, e) refl
    ]

-- What the loop finds for the instance.
read_instance-labels :
    (o : Object) (c : Counter) (instances : Option (List Str)) (field : Option Field) (inst : Str)
    → HasInstance instances field inst
    → (labels : Map Str Str) × (read_instance o c instances field ≡ ok labels)
      × ((k : Str) → lookup k labels ≡ instance_label_of o instances inst k)
unfolding read_instance lookup
read_instance-labels o c none field inst h = ([], refl, λ k. refl)
read_instance-labels o c (some instances) field inst h =
    elim (Bool-cases (inst == codes "------")) [
      | inl e ↦ ([], rw (h, e) refl, λ k. rw e refl)
      | inr e ↦ ((o.instance_label, inst) ∷ [], rw (h, e) refl, λ k. rw e refl)
    ]

type_shown :
    (c : Counter) (t : ValueType)
    → (c.counter_type ≡ codes "counter" → chosen_type c t ≡ counter_value)
      × (c.counter_type ≡ codes "gauge" → chosen_type c t ≡ gauge_value)
      × (c.counter_type ≢ codes "counter" → c.counter_type ≢ codes "gauge" → chosen_type c t ≡ t)
unfolding chosen_type
type_shown c t = (
  λ e. rw e refl,
  λ e. rw e refl,
  λ n k. elim (Bool-cases (c.counter_type == codes "counter")) [
    | inl e ↦ absurd (n ((eq_iff c.counter_type (codes "counter")).0 e))
    | inr e ↦ elim (Bool-cases (c.counter_type == codes "gauge")) [
      | inl f ↦ absurd (k ((eq_iff c.counter_type (codes "gauge")).0 f))
      | inr f ↦ rw (e, f) refl
    ]
  ],
)

module _ (calls : Calls) (o : Object) where
  counter_metric-Shows :
      (row : Row) (r : Reading) (c : Counter) (more : Map Str Str)
      → Distinct more
      → IsReading calls o ((c, more) ∷ []) row r
      → (m : Metric) × (counter_metric calls o row (c, more) ≡ ok m) × Shows calls o r c more m
  unfolding counter_metric read_value read_type
  counter_metric-Shows row r c more d (h, t, n) =
      let (labels, e, l) = read_instance-labels o c o.instances (row (codes "Name")) r.inst n in
      let (counts, gauges, typed) = type_shown c r.metric_type in
      (
        record {
          name = c.metric;
          labels = copy_labels labels more;
          metric_type = chosen_type c r.metric_type;
          value = r.value (field_name calls c);
        },
        rw (h.0, t, e) refl,
        record {
          named = refl;
          valued = refl;
          counts = counts;
          gauges = gauges;
          typed = typed;
          labelled = λ k. lookup-copy_labels more labels k d ∙ rw (l k) refl;
        },
      )

  abbrev pub rows_of : List (Row × Reading) → List Row
  rows_of [] = []
  rows_of ((row, r) ∷ rows) = row ∷ rows_of rows

-- The labels of a counter are a map, and prometheus takes every metric that shows a reading for it.
abbrev pub IsTaken :
    (Str → Map Str Str → Bool) → Calls → Object → Reading → Counter × Map Str Str → Type 0
IsTaken accepts calls o r (c, more) =
    Distinct more × ((m : Metric) → Shows calls o r c more m → accepts m.name m.labels ≡ true)

-- The collection has sent these metrics, has noted nothing and has not panicked.
abbrev pub sends_all : List Metric → Collected
sends_all ms = record { metrics = ms; errs = []; panicked = false }

module _ (accepts : Str → Map Str Str → Bool) (calls : Calls) (o : Object) where
  collect_row-Shows :
      (row : Row) (r : Reading) (cs : List (Counter × Map Str Str)) (later : List Metric)
      → IsReading calls o cs row r
      → All (IsTaken accepts calls o r) cs
      → (ms : List Metric) × (collect_row accepts calls o row cs ≡ sends_all ms)
        × ShowsRow calls o r cs later (ms ++ later)
  unfolding collect_row send_metric
  collect_row-Shows row r [] later h a = ([], refl, refl)
  collect_row-Shows row r ((c, more) ∷ cs) later (h, t, n) a =
      let (m, e, s) = counter_metric-Shows calls o row r c more a.0.0 ((h.0, tt), t, n) in
      let (ms, f, l) = collect_row-Shows row r cs later (h.1, t, n) a.1 in
      (m ∷ ms, rw (e, send_metric, a.0.1 m s, f) refl, (s, l))

  collect_rows-Shows :
      (cs : List (Counter × Map Str Str)) (rows : List (Row × Reading))
      → All (λ p. IsReading calls o cs p.0 p.1 × All (IsTaken accepts calls o p.1) cs) rows
      → (ms : List Metric) × (collect_rows accepts calls o cs (rows_of calls o rows) ≡ sends_all ms)
        × ShowsRows calls o cs rows ms
  unfolding collect_rows
  collect_rows-Shows cs [] h = ([], refl, refl)
  collect_rows-Shows cs ((row, r) ∷ rows) h =
      let (later, f, l) = collect_rows-Shows cs rows h.1 in
      let (ms, e, s) = collect_row-Shows row r cs later h.0.0 h.0.1 in
      (ms ++ later, rw (e, f) refl, (later, s, l))

  -- Where every row has a number for each counter, a type and, if the object has instances, a name,
  -- and prometheus takes the metrics, the collection of an object fails for no counter and does not
  -- panic, and it gives for each row and each counter, in order, one metric with the name and the
  -- value, the type that the counter asks for or else that of the row, and the labels of the counter
  -- before that of the instance.
  pub ShowsRows-collect_object :
      (cs : List (Counter × Map Str Str)) (rows : List (Row × Reading))
      → All (λ p. IsReading calls o cs p.0 p.1 × All (IsTaken accepts calls o p.1) cs) rows
      → (ms : List Metric) × (collect_object accepts calls o cs (ok (rows_of calls o rows))
          ≡ sends_all ms)
        × ShowsRows calls o cs rows ms
  unfolding collect_object
  ShowsRows-collect_object cs rows h = collect_rows-Shows cs rows h
