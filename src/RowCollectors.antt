-- ===== src/RowCollectors.antt =====
-- The collectors that send constant metrics for the rows of a PDH collector: `Build` makes
-- descriptions, and `Collect` sends a metric for each pair of a row and a call of
-- prometheus.MustNewConstMetric. A collector is the list of its descriptions and the list of these
-- calls, as they stand in its file. A number of a row is of any type `F`; arithmetic on it is
-- given.
pub mod Calls
pub mod Distinct
pub mod Tables
pub mod Accepted
pub mod Repeated
use windows_exporter.Base.{
  ℕ, ◌≡◌, Bool, true, false, not, ◌&&◌, ◌||◌, List, [], ◌∷◌, ◌++◌, Option, none, some, arith, ◌==◌,
  nat_eq, Str, str_eq, String, codes, length, map, if◌then◌else◌,
}
use windows_exporter.Errors.{Error, new_error}
use windows_exporter.Pdh.{ValueType, gauge_value, counter_value}

-- prometheus.NewDesc: the field of the collector, the last part of the name, and the labels. The
-- first two parts of the name are the same in a file, and the help text is left out.
pub record Desc : Type 0 where
  pub variable : Str
  pub name : Str
  pub labels : List Str

-- A field of the row; a field divided by a number; two fields that hold the halves of a number.
pub data Value : Type 0 where
  field : Str → Value
  divided : Str → ℕ → Value
  high_low : Str → Str → Value

-- A label: the name of the row, the name of the SQL instance, or a text.
pub data Label : Type 0 where
  row_name instance_name : Label
  text : Str → Label

-- prometheus.MustNewConstMetric: the field that holds the description, the type, the value and the
-- labels.
pub record Emission : Type 0 where
  pub variable : Str
  pub value_type : ValueType
  pub value : Value
  pub labels : List Label

-- Which rows are read: every row; the first, where a missing row is an error; or the first without
-- a check.
pub data Shape : Type 0 where
  every_row first_checked first_row : Shape

pub record RowCollector : Type 0 where
  pub shape : Shape
  pub descriptions : List Desc
  pub emissions : List Emission

abbrev pub err_no_data_unexpected : Error
err_no_data_unexpected = new_error (codes "no data")

-- The description that a field holds after `Build`; the last assignment counts.
abbrev pub find_desc : Str → List Desc → Option Desc
find_desc variable [] = none
find_desc variable (d ∷ ds) = elim (find_desc variable ds) [
  | none ↦ if d.variable == variable then some d else none
  | some e ↦ some e
]

module _ (F : Type 0) where
  pub record Row : Type 0 where
    pub name : Str
    pub fields : Str → F

  pub record Arith : Type 0 where
    pub divide : F → ℕ → F
    pub join_halves : F → F → F

  pub record Metric : Type 0 where
    pub name : Str
    pub labels : List Str
    pub value_type : ValueType
    pub value : F

  pub data Outcome : Type 0 where
    sent : List Metric → Outcome
    fails : Error → Outcome
    panics : Outcome

module _ {F : Type 0} (num : Arith F) (inst : Str) where
  abbrev pub value_of : Row F → Value → F
  value_of row (field x) = row.fields x
  value_of row (divided x n) = num.divide (row.fields x) n
  value_of row (high_low x y) = num.join_halves (row.fields x) (row.fields y)

  abbrev pub label_of : Row F → Label → Str
  label_of row row_name = row.name
  label_of row instance_name = inst
  label_of row (text s) = s

  abbrev pub label_values : Row F → List Label → List Str
  label_values row [] = []
  label_values row (l ∷ ls) = label_of row l ∷ label_values row ls

  -- As documented, a call panics for a description that is nil or has another number of labels.
  unfoldable pub emit : List Desc → Row F → Emission → Option (Metric F)
  emit ds row e = elim (find_desc e.variable ds) [
    | none ↦ none
    | some d ↦
        if length d.labels == length e.labels
        then some (record {
          name = d.name;
          labels = label_values row e.labels;
          value_type = e.value_type;
          value = value_of row e.value;
        })
        else none
  ]

  abbrev pub cons_all : Option (Metric F) → Option (List (Metric F)) → Option (List (Metric F))
  cons_all none rest = none
  cons_all (some m) none = none
  cons_all (some m) (some ms) = some (m ∷ ms)

  unfoldable pub emit_all : List Desc → Row F → List Emission → Option (List (Metric F))
  emit_all ds row [] = some []
  emit_all ds row (e ∷ es) = cons_all (emit ds row e) (emit_all ds row es)

  abbrev pub append_all :
      Option (List (Metric F)) → Option (List (Metric F)) → Option (List (Metric F))
  append_all none rest = none
  append_all (some ms) none = none
  append_all (some ms) (some ns) = some (ms ++ ns)

  unfoldable pub emit_rows : List Desc → List Emission → List (Row F) → Option (List (Metric F))
  emit_rows ds es [] = some []
  emit_rows ds es (row ∷ rows) = append_all (emit_all ds row es) (emit_rows ds es rows)

  abbrev pub outcome_of : Option (List (Metric F)) → Outcome F
  outcome_of none = panics
  outcome_of (some ms) = sent ms

  -- The loop over the rows, or what is done with the first of them.
  unfoldable pub collect_shape : Shape → List Desc → List Emission → List (Row F) → Outcome F
  collect_shape every_row ds es rows = outcome_of (emit_rows ds es rows)
  collect_shape first_checked ds es [] = fails err_no_data_unexpected
  collect_shape first_checked ds es (row ∷ rows) = outcome_of (emit_all ds row es)
  collect_shape first_row ds es [] = panics
  collect_shape first_row ds es (row ∷ rows) = outcome_of (emit_all ds row es)

  -- `Collect`, where the PDH collector answers with an error or with rows.
  unfoldable pub collect : RowCollector → Option Error → List (Row F) → Outcome F
  collect c none rows = collect_shape c.shape c.descriptions c.emissions rows
  collect c (some e) rows = fails e
