-- ===== src/Pdh.antt =====
-- internal/pdh/collector.go: the innermost loop of `collectWorkerRaw` and of `collectWorkerFormatted`, from
-- the items of a counter to the rows of the result. Rows are the elements of the slice that
-- reflection fills: a name, a metric type and fields by index. Float expressions are kept as data
-- (`FieldValue`).
pub mod Collector
pub mod Rows
pub mod Worker
use windows_exporter.Base.{
  ℕ, zero, suc, ◌+◌, ◌≤◌, ◌<◌, ◌≡◌, Bool, true, false, not, ◌&&◌, ◌||◌, List, [], ◌∷◌, ◌++◌, Option,
  none, some, arith, ◌==◌, nat_eq, nat_beq, Str, str_eq, codes, has_suffix, contains, Map, lookup,
  insert, if◌then◌else◌, length, leb,
}
use windows_exporter.Errors.{Error, Cause, pdh_error, counter_not_initialized, is}
use windows_exporter.Collection.{no_data_code}
use windows_exporter.Perflib.Bytes.{ℤ, pos, negsuc}

abbrev pub instance_empty : Str
instance_empty = codes "------"

abbrev pub instance_total : Str
instance_total = codes "_Total"

-- Codes of pdh.go and const.go.
abbrev pub cstatus_valid_data : ℕ
cstatus_valid_data = 0

abbrev pub cstatus_new_data : ℕ
cstatus_new_data = 1

abbrev pub perf_elapsed_time : ℕ
perf_elapsed_time = 0x30240500

abbrev pub perf_100nsec_timer : ℕ
perf_100nsec_timer = 0x20510500

abbrev pub perf_precision_100ns_timer : ℕ
perf_precision_100ns_timer = 0x20570500

unfoldable pub is_known_counter_data_error : Error → Bool
is_known_counter_data_error err =
    is err (pdh_error 0xC0000BC6)
    || (is err (pdh_error 0x800007D6)
        || (is err (pdh_error 0x800007D8)
            || (is err (pdh_error 0xC0000BBA)
                || (is err (pdh_error 0x800007D1) || is err (pdh_error no_data_code)))))

-- RawCounterItem and FmtCounterValueItemDouble: two integers, or the bits of a double.
pub data Reading : Type 0 where
  raw : ℤ → ℤ → Reading
  formatted : ℕ → Reading

-- An item; `sz_name` is the address of its name, and `name` the string that stands there.
pub record Item : Type 0 where
  pub sz_name : ℕ
  pub name : Str
  pub status : ℕ
  pub reading : Reading

-- A field's value: a number, a number of 100 ns ticks (times 1e-7), an elapsed time
-- `(SecondValue - FirstValue) / Frequency`, or a double as PDH computed it.
pub data FieldValue : Type 0 where
  plain ticks : ℤ → FieldValue
  elapsed : ℤ → ℤ → ℤ → FieldValue
  double : ℕ → FieldValue

-- prometheus.ValueType
pub data ValueType : Type 0 where
  gauge_value counter_value : ValueType

-- `Counter`, with `none` for a field index of -1.
pub record CounterDef : Type 0 where
  pub name : Str
  pub type : ℕ
  pub frequency : ℤ
  pub field_index_value : Option ℕ
  pub field_index_second_value : Option ℕ

-- An element of the result.
pub record Row : Type 0 where
  pub name : Option Str
  pub metric_type : Option ValueType
  pub fields : Map ℕ FieldValue

-- `totalCounterRequested`, and whether the element type has a field for the name and one for the
-- metric type.
pub record Settings : Type 0 where
  pub total_requested : Bool
  pub has_name : Bool
  pub has_metric_type : Bool

-- The result so far, `indexMap` and `stringMap`.
pub record Table : Type 0 where
  pub rows : List Row
  pub index_map : Map Str ℕ
  pub string_map : Map ℕ Str

-- `SupportedCounterTypes`; a type that is not listed counts as a gauge.
unfoldable pub metric_type_of : ℕ → ValueType
metric_type_of type =
    if contains (0x00400400 ∷ 0x10410400 ∷ 0x10410500 ∷ 0x20510500 ∷ 0x20570500 ∷ 0x21510500 ∷ [])
      type
    then counter_value
    else gauge_value

-- A write to one row; a row that is not there would panic.
unfoldable pub set_field : ℕ → ℕ → FieldValue → List Row → List Row
set_field index field v [] = []
set_field zero field v (row ∷ rows) = record row { fields = insert field v row.fields } ∷ rows
set_field (suc index) field v (row ∷ rows) = row ∷ set_field index field v rows

abbrev pub set_optional : ℕ → Option ℕ → FieldValue → List Row → List Row
set_optional index none v rows = rows
set_optional index (some field) v rows = set_field index field v rows

-- `Field` panics on an index of -1.
abbrev pub set_required : ℕ → Option ℕ → FieldValue → List Row → Option (List Row)
set_required index none v rows = none
set_required index (some field) v rows = some (set_field index field v rows)

abbrev pub is_zero : ℤ → Bool
is_zero (pos n) = n == 0
is_zero (negsuc n) = false

-- The `switch` on the counter's type. It panics, and the answer is `none`, where an elapsed time is
-- divided by a frequency of 0, and where an elapsed time or a timer has no `FieldIndexValue`.
unfoldable pub write_raw : CounterDef → ℤ → ℤ → ℕ → List Row → Option (List Row)
write_raw c first second index rows =
    if c.type == perf_elapsed_time
    then (if is_zero c.frequency
        then none
        else set_required index c.field_index_value (elapsed second first c.frequency) rows)
    else if c.type == perf_100nsec_timer || c.type == perf_precision_100ns_timer
    then set_required index c.field_index_value (ticks first) rows
    else some (
        set_optional index c.field_index_value (plain first)
          (set_optional index c.field_index_second_value (plain second) rows))

abbrev pub write_item : CounterDef → Reading → ℕ → List Row → Option (List Row)
write_item c (raw first second) index rows = write_raw c first second index rows
write_item c (formatted bits) index rows =
    some (set_optional index c.field_index_value (double bits) rows)

-- The formatted worker makes every row a gauge.
abbrev pub reading_type : CounterDef → Reading → ValueType
reading_type c (raw first second) = metric_type_of c.type
reading_type c (formatted bits) = gauge_value

unfoldable pub is_valid : Item → Bool
is_valid item = item.status == cstatus_valid_data || item.status == cstatus_new_data

-- `stringMap` holds the names by address.
unfoldable pub instance_name : Item → Map ℕ Str → Str × Map ℕ Str
instance_name item m = elim (lookup item.sz_name m) [
  | some name ↦ (name, m)
  | none ↦ (item.name, insert item.sz_name item.name m)
]

-- The name under which an instance counts; `none` if it is an aggregate that was not asked for.
unfoldable pub display_name : Settings → Str → Option Str
display_name settings name =
    if has_suffix name instance_total && not settings.total_requested
    then none
    else if name == [] || name == codes "*"
    then some instance_empty
    else some name

-- The row of a name: its index, and the table with a new row if it has none.
unfoldable pub find_row : Settings → ValueType → Str → Table → ℕ × Table
find_row settings type name t = elim (lookup name t.index_map) [
  | some index ↦ (index, t)
  | none ↦ (
    length t.rows,
    record t {
      rows =
          t.rows
          ++ record {
            name = if settings.has_name then some name else none;
            metric_type = if settings.has_metric_type then some type else none;
            fields = [];
          }
            ∷ [];
      index_map = insert name (length t.rows) t.index_map;
    },
  )
]

-- From here on `none` is a panic of the worker.
abbrev pub add_reading : Settings → CounterDef → Reading → Option Str → Table → Option Table
add_reading settings c reading none t = some t
add_reading settings c reading (some name) t =
    let (index, u) = find_row settings (reading_type c reading) name t in
    elim (write_item c reading index u.rows) [
      | none ↦ none
      | some rows ↦ some (record u { rows = rows })
    ]

-- The body of the innermost loop.
unfoldable pub add_item : Settings → CounterDef → Item → Table → Option Table
add_item settings c item t =
    let (name, m) = instance_name item t.string_map in
    if is_valid item
    then add_reading settings c item.reading (display_name settings name)
        (record t { string_map = m })
    else some t

unfoldable pub add_items : Settings → CounterDef → List Item → Table → Option Table
add_items settings c [] t = some t
add_items settings c (item ∷ items) t = elim (add_item settings c item t) [
  | none ↦ none
  | some u ↦ add_items settings c items u
]
