-- ===== src/Pdh/Collector/Counters.antt =====
-- The loop of `NewCollectorWithReflection` over the fields of the value type, in internal/pdh/collector.go, and
-- `formatCounterPath`.
use windows_exporter.Base.{
  ℕ, ◌-◌, ◌%◌, ◌^◌, Bool, true, false, not, ◌&&◌, ◌||◌, List, [], ◌∷◌, ◌++◌, Option, none, some,
  ◌==◌, nat_eq, Str, str_eq, codes, length, take, has_suffix, Map, lookup, insert, ltb,
  if◌then◌else◌,
}
use windows_exporter.Errors.{Error, new_error, pdh_error}
use windows_exporter.Collection.{no_data_code, cstatus_no_counter}
use windows_exporter.Perflib.Bytes.{ℤ, pos}
use windows_exporter.Pdh.{
  CounterDef, ValueType, gauge_value, metric_type_of, instance_empty, perf_elapsed_time,
}
use windows_exporter.Pdh.Worker.{more_data_code}

-- A visible field: its `perfdata` tag and whether it is a float64, its index, and the number in its tag
-- `perfdata_min_build`, if it has one.
pub record Field : Type 0 where
  pub perfdata : Option Str
  pub is_float : Bool
  pub index : ℕ
  pub min_build : Option ℕ

-- `Counter`, with its handles.
pub record Counter : Type 0 where
  pub def : CounterDef
  pub metric_type : ValueType
  pub instances : Map Str ℕ

-- The answers about a handle: of the two calls of `GetCounterInfo`, the length and the type that they
-- write, and of `GetCounterTimeBase`.
pub record Info : Type 0 where
  pub length_status : ℕ
  pub info_length : ℕ
  pub info_status : ℕ
  pub info_type : ℕ
  pub base_status : ℕ
  pub frequency : ℤ

-- The answer of `AddEnglishCounter`.
pub data Added : Type 0 where
  handle : ℕ → Added
  status : ℕ → Added

-- PDH, and the build of the system.
pub record Calls : Type 0 where
  pub add_counter : Str → Added
  pub info : ℕ → Info
  pub os_build : ℕ

unfoldable pub format_counter_path : Str → Str → Str → Str
format_counter_path object inst counter_name =
    if inst == instance_empty
    then codes "\\" ++ (object ++ (codes "\\" ++ counter_name))
    else codes "\\" ++ (object ++ (codes "(" ++ (inst ++ (codes ")\\" ++ counter_name))))

abbrev pub second_suffix : Str
second_suffix = codes ",secondvalue"

-- strings.TrimSuffix
abbrev pub trim_suffix : Str → Str → Str
trim_suffix s p = if has_suffix s p then take (length s - length p) s else s

unfoldable pub new_counter : Str → Counter
new_counter counter_name = record {
  def = record {
    name = counter_name;
    type = 0;
    frequency = pos 0;
    field_index_value = none;
    field_index_second_value = none;
  };
  metric_type = gauge_value;
  instances = [];
}

-- `FieldIndexSecondValue` or `FieldIndexValue`.
unfoldable pub set_field_index : Bool → ℕ → Counter → Counter
set_field_index true index c = record c {
  def = record c.def { field_index_second_value = some index };
}
set_field_index false index c = record c { def = record c.def { field_index_value = some index } }

abbrev pub code_error : ℕ → Error
code_error code = pdh_error code ∷ []

-- The time base is asked for an elapsed time only.
unfoldable pub read_time_base : Info → Counter → Counter × List Error
read_time_base i c =
    if not (c.def.type == perf_elapsed_time)
    then (c, [])
    else if i.base_status == 0 || i.base_status == no_data_code
    then (record c { def = record c.def { frequency = i.frequency } }, [])
    else (c, code_error i.base_status ∷ [])

-- The part of the loop over the instances behind a counter that was added.
unfoldable pub read_info : Info → Counter → Counter × List Error
read_info i c =
    if not (c.def.type == 0)
    then (c, [])
    else if not (i.length_status == more_data_code)
    then (c, code_error i.length_status ∷ [])
    else if i.info_length == 0
    then (c, new_error (codes "GetCounterInfo: buffer length is zero") ∷ [])
    else if not (i.info_status == 0)
    then (c, code_error i.info_status ∷ [])
    else read_time_base i (record c {
      def = record c.def { type = i.info_type };
      metric_type = metric_type_of i.info_type;
    })

-- A counter that the system does not have yet is passed over; the build is compared as a uint16.
unfoldable pub is_too_new : Calls → Option ℕ → ℕ → Bool
is_too_new calls none code = false
is_too_new calls (some build) code =
    code == cstatus_no_counter && ltb calls.os_build (build % 2 ^ 16)

unfoldable pub after_added : Calls → Field → Str → Counter → Added → Counter × List Error
after_added calls f inst c (status code) =
    (c, if is_too_new calls f.min_build code then [] else code_error code ∷ [])
after_added calls f inst c (handle h) =
    read_info (calls.info h) (record c { instances = insert inst h c.instances })

unfoldable pub add_instance : Calls → Str → Field → Str → Counter → Counter × List Error
add_instance calls object f inst c =
    after_added calls f inst c (calls.add_counter (format_counter_path object inst c.def.name))

unfoldable pub add_instances : Calls → Str → Field → List Str → Counter → Counter × List Error
add_instances calls object f [] c = (c, [])
add_instances calls object f (inst ∷ rest) c =
    let (d, errs) = add_instance calls object f inst c in
    let (e, more) = add_instances calls object f rest d in (e, errs ++ more)

-- The counters so far, and the errors.
abbrev pub Built : Type 0
Built = Map Str Counter × List Error

abbrev pub found_or_new : Str → Option Counter → Counter
found_or_new counter_name none = new_counter counter_name
found_or_new counter_name (some c) = c

-- The handles are made with the first field of a counter.
abbrev pub fill_instances : Calls → Str → Field → List Str → Counter → Counter × List Error
fill_instances calls object f instances c =
    if length c.instances == 0 then add_instances calls object f instances c else (c, [])

-- One round of the loop over the fields, for a field with a tag.
unfoldable pub add_tagged : Calls → Str → List Str → Field → Str → Built → Built
add_tagged calls object instances f tag (counters, errs) =
    let counter_name = trim_suffix tag second_suffix in
    let c =
      set_field_index (has_suffix tag second_suffix) f.index
        (found_or_new counter_name (lookup counter_name counters)) in
    let (d, more) = fill_instances calls object f instances c in
    (insert counter_name d counters, errs ++ more)

unfoldable pub add_visible : Calls → Str → List Str → Field → Option Str → Built → Built
add_visible calls object instances f none built = built
add_visible calls object instances f (some tag) (counters, errs) =
    if not f.is_float
    then (counters, errs ++ new_error (codes "field must be a float64") ∷ [])
    else add_tagged calls object instances f tag (counters, errs)

unfoldable pub add_field : Calls → Str → List Str → Field → Built → Built
add_field calls object instances f built = add_visible calls object instances f f.perfdata built

unfoldable pub add_fields : Calls → Str → List Str → List Field → Built → Built
add_fields calls object instances [] built = built
add_fields calls object instances (f ∷ fields) built =
    add_fields calls object instances fields (add_field calls object instances f built)
