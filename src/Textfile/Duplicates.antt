-- ===== src/Textfile/Duplicates.antt =====
-- `duplicateMetricEntry` of textfile.go, and what it finds.
use windows_exporter.Base.{
  ◌≡◌, refl, Bool, true, false, not, ◌&&◌, ◌||◌, List, [], ◌∷◌, ◌++◌, none, some, arith, ◌==◌,
  nat_beq, Str, str_eq, eq_iff, eq_refl, Map, lookup, insert, has_key, Distinct, Distinct-insert,
  length, if◌then◌else◌,
}
use windows_exporter.Textfile.{Metric, MetricFamily}

abbrev pub Labels : Type 0
Labels = Map Str Str

-- The map of a metric's labels; a later label of one name takes the place of an earlier one.
unfoldable pub label_map : List (Str × Str) → Labels → Labels
label_map [] m = m
label_map ((name, value) ∷ rest) m = label_map rest (insert name value m)

abbrev has_entry : Str → Str → Labels → Bool
has_entry k v m = elim (lookup k m) [ none ↦ false | some w ↦ v == w ]

unfoldable pub all_in : Labels → Labels → Bool
all_in [] b = true
all_in ((k, v) ∷ a) b = has_entry k v b && all_in a b

-- reflect.DeepEqual on two maps of strings: as many entries, and each of the first in the second.
unfoldable pub deep_equal : Labels → Labels → Bool
deep_equal a b = nat_beq (length a) (length b) && all_in a b

-- A metric's name and labels, in the order of the two loops.
abbrev pub Entry : Type 0
Entry = Str × Labels

unfoldable pub metric_entries : {V : Type 0} → Str → List (Metric V) → List Entry
metric_entries name [] = []
metric_entries name (m ∷ rest) = (name, label_map m.labels []) ∷ metric_entries name rest

unfoldable pub entries : {V : Type 0} → List (MetricFamily V) → List Entry
entries [] = []
entries (family ∷ rest) = metric_entries family.name family.metrics ++ entries rest

-- The body of the loops, with `uniqueMetrics`.
unfoldable pub find_duplicate : List Entry → Map Str Labels → Bool
find_duplicate [] unique_metrics = false
find_duplicate ((name, labels) ∷ rest) unique_metrics =
    let later = find_duplicate rest (insert name labels unique_metrics) in
    elim (lookup name unique_metrics) [
      | none ↦ later
      | some previous ↦ if deep_equal previous labels then true else later
    ]

unfoldable pub duplicate_metric_entry : {V : Type 0} → List (MetricFamily V) → Bool
duplicate_metric_entry families = find_duplicate (entries families) []

-- The next entry of that name, if there is one, has these labels.
abbrev pub repeats : Str → Labels → List Entry → Bool
repeats name labels rest = elim (lookup name rest) [
  | none ↦ false
  | some next ↦ deep_equal labels next
]

-- Some entry has the labels of the entry before it under its name.
pub repeated : List Entry → Bool
repeated [] = false
repeated ((name, labels) ∷ rest) = repeats name labels rest || repeated rest

any_repeats : Map Str Labels → List Entry → Bool
any_repeats [] es = false
any_repeats ((k, v) ∷ u) es = repeats k v es || any_repeats u es

-- The same for the names other than `n`.
others_repeat : Str → Map Str Labels → List Entry → Bool
others_repeat n [] es = false
others_repeat n ((k, v) ∷ u) es = (not (k == n) && repeats k v es) || others_repeat n u es

any_repeats-others :
    (n : Str) (u : Map Str Labels) (es : List Entry)
    → has_key n u ≡ false
    → any_repeats u es ≡ others_repeat n u es
unfolding any_repeats others_repeat has_key lookup
any_repeats-others n [] es h = refl
any_repeats-others n ((k, v) ∷ u) es h = ground (arith, any_repeats-others n u es)

any_repeats-insert :
    (n : Str) (l : Labels) (u : Map Str Labels) (es : List Entry)
    → Distinct u
    → any_repeats (insert n l u) es ≡ (repeats n l es || others_repeat n u es)
unfolding any_repeats others_repeat insert
any_repeats-insert n l [] es d = refl
any_repeats-insert n l ((k, v) ∷ u) es d =
    ground (arith, eq_iff k n, any_repeats-insert n l u es d.1, any_repeats-others n u es)

any_repeats-cons :
    (n : Str) (l : Labels) (u : Map Str Labels) (es : List Entry)
    → Distinct u
    → any_repeats u ((n, l) ∷ es)
      ≡ (elim (lookup n u) [ none ↦ false | some v ↦ deep_equal v l ] || others_repeat n u es)
unfolding any_repeats others_repeat lookup has_key
any_repeats-cons n l [] es d = refl
any_repeats-cons n l ((k, v) ∷ u) es d =
    ground (arith, eq_iff k n, eq_iff n k, any_repeats-cons n l u es d.1, any_repeats-others n u es)

any_repeats-nil : (u : Map Str Labels) → any_repeats u [] ≡ false
unfolding any_repeats lookup
any_repeats-nil [] = refl
any_repeats-nil ((k, v) ∷ u) = any_repeats-nil u

find_duplicate-repeated :
    (es : List Entry) (u : Map Str Labels)
    → Distinct u
    → find_duplicate es u ≡ (any_repeats u es || repeated es)
unfolding find_duplicate repeated
find_duplicate-repeated [] u d = rw (any_repeats-nil u)
find_duplicate-repeated ((n, l) ∷ es) u d = ground (
  arith,
  find_duplicate-repeated es (insert n l u) (Distinct-insert n l u d),
  any_repeats-insert n l u es d,
  any_repeats-cons n l u es d,
)

-- The search answers whether some metric has the labels of the metric before it of its name.
-- Metrics of a name that do not follow one another are not compared.
pub duplicate_metric_entry-repeated :
    {V : Type 0} (families : List (MetricFamily V))
    → duplicate_metric_entry families ≡ repeated (entries families)
unfolding duplicate_metric_entry any_repeats
duplicate_metric_entry-repeated families = find_duplicate-repeated (entries families) [] tt

-- A duplicate that is not found: of the metrics of one family with labels `a`, `b` and again `a`, for
-- any `a` and `b` that differ, the search reports none.
duplicate_metric_entry-apart :
    {V : Type 0} (family : MetricFamily V) (x y z : Metric V)
    → family.metrics ≡ x ∷ y ∷ z ∷ []
    → z.labels ≡ x.labels
    → deep_equal (label_map x.labels []) (label_map y.labels []) ≡ false
    → deep_equal (label_map y.labels []) (label_map x.labels []) ≡ false
    → duplicate_metric_entry (family ∷ []) ≡ false
unfolding duplicate_metric_entry entries metric_entries find_duplicate lookup insert
duplicate_metric_entry-apart family x y z m s h g = ground (arith, eq_refl family.name)
