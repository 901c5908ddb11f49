-- ===== src/Textfile/Labels.antt =====
-- `convertMetricFamily` of textfile.go: the series that a metric family becomes.
use windows_exporter.Base.{
  suc, ◌≡◌, refl, ap, ◌∙◌, Bool, true, false, ◌||◌, List, [], ◌∷◌, ◌++◌, Option, none, some, arith,
  Str, str_eq, eq_iff, length, length-append, contains, contains-append, if◌then◌else◌, Bool-cases,
  inl, inr, All, All-imp,
}
use windows_exporter.Textfile.{
  MetricType, counter, gauge, untyped, summary, histogram, other, Metric, MetricFamily,
}

-- prometheus.ValueType of a constant metric, or the other two kinds of metrics.
pub data Kind : Type 0 where
  counter_value gauge_value untyped_value const_summary const_histogram : Kind

pub record Series (V : Type 0) : Type 0 where
  pub name : Str
  pub help : Option Str
  pub names : List Str
  pub values : List Str
  pub kind : Kind
  pub value : V

-- The keys of `allLabelNames`, each once.
unfoldable pub add_names : List (Str × Str) → List Str → List Str
add_names [] names = names
add_names ((name, value) ∷ rest) names =
    add_names rest (if contains names name then names else names ++ name ∷ [])

unfoldable pub all_label_names : {V : Type 0} → List (Metric V) → List Str → List Str
all_label_names [] names = names
all_label_names (m ∷ rest) names = all_label_names rest (add_names m.labels names)

-- `for k := range allLabelNames`: a name that the metric lacks gets the empty value.
unfoldable pub fill_labels : List Str → List Str → List Str → List Str × List Str
fill_labels [] names values = (names, values)
fill_labels (k ∷ rest) names values =
    fill_labels rest (if contains names k then names else names ++ k ∷ [])
      (if contains names k then values else values ++ [] ∷ [])

abbrev pub label_names : List (Str × Str) → List Str
label_names [] = []
label_names ((name, value) ∷ rest) = name ∷ label_names rest

abbrev pub label_values : List (Str × Str) → List Str
label_values [] = []
label_values ((name, value) ∷ rest) = value ∷ label_values rest

abbrev pub is_known : MetricType → Bool
is_known other = false
is_known _ = true

module _ {V : Type 0} where
  -- The `switch` on the type; `none` for an unknown one, which is logged and skipped.
  unfoldable pub kind_of : MetricType → Metric V → Option (Kind × V)
  kind_of counter m = some (counter_value, m.counter_value)
  kind_of gauge m = some (gauge_value, m.gauge_value)
  kind_of untyped m = some (untyped_value, m.untyped_value)
  kind_of summary m = some (const_summary, m.summary_value)
  kind_of histogram m = some (const_histogram, m.histogram_value)
  kind_of other m = none

  -- What one round of the loop sends, before what the later ones send.
  add_series :
      MetricFamily V → List Str × List Str → Option (Kind × V) → List (Series V) → List (Series V)
  add_series family filled none later = later
  add_series family (names, values) (some (kind, value)) later =
      record {
        name = family.name;
        help = family.help;
        names = names;
        values = values;
        kind = kind;
        value = value;
      }
      ∷ later

  unfoldable pub convert_metrics : MetricFamily V → List Str → List (Metric V) → List (Series V)
  unfolding add_series
  convert_metrics family all_names [] = []
  convert_metrics family all_names (m ∷ rest) =
      add_series family (fill_labels all_names (label_names m.labels) (label_values m.labels))
        (kind_of family.type m) (convert_metrics family all_names rest)

  unfoldable pub convert_metric_family : MetricFamily V → List (Series V)
  convert_metric_family family =
      convert_metrics family (all_label_names family.metrics []) family.metrics

contains-fill_labels :
    (all_names names values : List Str) (k : Str)
    → contains (fill_labels all_names names values).0 k ≡ (contains names k || contains all_names k)
unfolding fill_labels
contains-fill_labels [] names values k = ground arith
contains-fill_labels (a ∷ rest) names values k = ground (
  arith,
  contains-fill_labels rest names values k,
  eq_iff a k,
  contains-fill_labels rest (names ++ a ∷ []) (values ++ [] ∷ []) k,
  contains-append names (a ∷ []) k,
)

length-fill_labels :
    (all_names names values : List Str)
    → length names ≡ length values
    → length (fill_labels all_names names values).0 ≡ length (fill_labels all_names names values).1
unfolding fill_labels
length-fill_labels [] names values h = h
length-fill_labels (a ∷ rest) names values h = ground (
  arith,
  length-fill_labels rest names values,
  length-fill_labels rest (names ++ a ∷ []) (values ++ [] ∷ []),
  length-append names (a ∷ []),
  length-append {A = Str} values ([] ∷ []),
)

length-label_names : (l : List (Str × Str)) → length (label_names l) ≡ length (label_values l)
length-label_names [] = refl
length-label_names ((n, v) ∷ l) = ap suc (length-label_names l)

contains-add_names :
    (l : List (Str × Str)) (names : List Str) (k : Str)
    → contains (add_names l names) k ≡ (contains names k || contains (label_names l) k)
unfolding add_names
contains-add_names [] names k = ground arith
contains-add_names ((n, v) ∷ rest) names k = elim (Bool-cases (contains names n)) [
  | inl h ↦ rw h (contains-add_names rest names k ∙ ground (arith, eq_iff n k))
  | inr h ↦ rw h (
      contains-add_names rest (names ++ n ∷ []) k
      ∙ ground (arith, contains-append names (n ∷ []) k))
]

-- A series fits its family: as many values as names, and the family's label names.
pub record FitsNames {V : Type 0} (all_names : List Str) (s : Series V) : Type 0 where
  pub paired : length s.names ≡ length s.values
  pub same_names : (k : Str) → contains s.names k ≡ contains all_names k

-- Some metric of the list has the label.
pub labels_contain : {V : Type 0} → List (Metric V) → Str → Bool
labels_contain [] k = false
labels_contain (m ∷ rest) k = contains (label_names m.labels) k || labels_contain rest k

contains-all_label_names :
    {V : Type 0} (metrics : List (Metric V)) (names : List Str) (k : Str)
    → contains (all_label_names metrics names) k ≡ (contains names k || labels_contain metrics k)
unfolding all_label_names labels_contain
contains-all_label_names [] names k = ground arith
contains-all_label_names (m ∷ rest) names k = ground (
  arith,
  contains-all_label_names rest (add_names m.labels names) k,
  contains-add_names m.labels names k,
)

module _ {V : Type 0} where
  -- Every label of the metrics is among the names.
  abbrev Covered : List Str → List (Metric V) → Type 0
  Covered all_names metrics =
      (k : Str) → labels_contain metrics k ≡ true → contains all_names k ≡ true

  filled-names :
      (all_names : List Str) (m : Metric V) (rest : List (Metric V)) (k : Str)
      → Covered all_names (m ∷ rest)
      → contains (fill_labels all_names (label_names m.labels) (label_values m.labels)).0 k
        ≡ contains all_names k
  unfolding labels_contain
  filled-names all_names m rest k c =
      ground (
        arith,
        contains-fill_labels all_names (label_names m.labels) (label_values m.labels) k,
        c k,
      )

  All-add_series :
      (P : Series V → Type 0) (family : MetricFamily V) (filled : List Str × List Str)
      → ((s : Series V) → s.names ≡ filled.0 → s.values ≡ filled.1 → P s)
      → (known : Option (Kind × V)) (later : List (Series V)) → All P later
      → All P (add_series family filled known later)
  unfolding add_series
  All-add_series P family filled p none later h = h
  All-add_series P family filled p (some kv) later h = (p _ refl refl, h)

  All-convert_metrics :
      (family : MetricFamily V) (all_names : List Str) (metrics : List (Metric V))
      → Covered all_names metrics
      → All (FitsNames all_names) (convert_metrics family all_names metrics)
  unfolding convert_metrics labels_contain
  All-convert_metrics family all_names [] c = tt
  All-convert_metrics family all_names (m ∷ rest) c =
      All-add_series (FitsNames all_names) family _
        (λ s n v. record {
          paired =
              rw (n, v)
                (length-fill_labels all_names (label_names m.labels) (label_values m.labels)
                  (length-label_names m.labels));
          same_names = λ k. rw n (filled-names all_names m rest k c);
        })
        (kind_of family.type m) (convert_metrics family all_names rest)
        (All-convert_metrics family all_names rest (λ k h. c k (ground arith)))

  -- A series fits its family: as many label values as names, and the names that occur on some
  -- metric of the family.
  pub record FitsFamily (metrics : List (Metric V)) (s : Series V) : Type 0 where
    pub paired : length s.names ≡ length s.values
    pub same_names : (k : Str) → contains s.names k ≡ labels_contain metrics k

  -- Every series of a family has as many label values as label names, and its names are those that
  -- occur on some metric of the family: all series of the family have the same label names.
  convert_metric_family-FitsFamily :
      (family : MetricFamily V) → All (FitsFamily family.metrics) (convert_metric_family family)
  unfolding convert_metric_family
  convert_metric_family-FitsFamily family =
      All-imp (FitsNames (all_label_names family.metrics [])) (FitsFamily family.metrics)
        (λ s f. record {
          paired = f.paired;
          same_names = λ k. f.same_names k ∙ contains-all_label_names family.metrics [] k;
        })
        (convert_metrics family (all_label_names family.metrics []) family.metrics)
        (All-convert_metrics family (all_label_names family.metrics []) family.metrics
          (λ k h. contains-all_label_names family.metrics [] k ∙ h))

  length-convert_metrics :
      (family : MetricFamily V) (all_names : List Str) (metrics : List (Metric V))
      → length (convert_metrics family all_names metrics)
        ≡ (if is_known family.type then length metrics else 0)
  unfolding convert_metrics kind_of
  length-convert_metrics family all_names [] = ground arith
  length-convert_metrics family all_names (m ∷ rest) =
      ground (arith, length-convert_metrics family all_names rest)

  -- A family of a known type becomes one series for each metric, one of an unknown type none.
  length-convert_metric_family :
      (family : MetricFamily V)
      → length (convert_metric_family family)
        ≡ (if is_known family.type then length family.metrics else 0)
  unfolding convert_metric_family
  length-convert_metric_family family =
      length-convert_metrics family (all_label_names family.metrics []) family.metrics
