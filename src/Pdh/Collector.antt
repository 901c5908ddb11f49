-- ===== src/Pdh/Collector.antt =====
-- `NewCollectorWithReflection`, `Collect` and `Close` of internal/pdh/collector.go. The fields of the value type
-- and what the calls of PDH answer are given. A channel is either made or nil.
pub mod Counters
pub mod Fields
mod Suffixes
pub mod Lifecycle
use windows_exporter.Base.{
  ℕ, zero, suc, ◌+◌, ◌-◌, ◌%◌, ◌^◌, ◌≡◌, Bool, true, false, not, ◌&&◌, ◌||◌, List, [], ◌∷◌, ◌++◌,
  Option, none, some, arith, ◌==◌, nat_eq, Str, str_eq, codes, length, take, has_suffix, contains,
  concat, Map, lookup, insert, ltb, if◌then◌else◌,
}
use windows_exporter.Errors.{Error, new_error, pdh_error, is, counter_not_initialized}
use windows_exporter.Collection.{no_data_code, cstatus_no_counter}
use windows_exporter.Perflib.Bytes.{ℤ, pos}
use windows_exporter.Pdh.{
  CounterDef, ValueType, gauge_value, metric_type_of, instance_empty, instance_total,
  perf_elapsed_time,
}
use windows_exporter.Pdh.Worker.{more_data_code}
use windows_exporter.Pdh.Collector.Counters.{Field, Counter, Calls, code_error, add_fields}

-- CounterTypeRaw, CounterTypeFormatted, and other texts.
pub data ResultType : Type 0 where
  raw formatted other_type : ResultType

-- Collector
pub record Collector : Type 0 where
  pub object : Str
  pub counters : Map Str Counter
  pub query_handle : ℕ
  pub total_requested : Bool
  pub collect_ch : Bool
  pub error_ch : Bool

-- `Collect`: the answer of the worker, which is asked over the channels, or an error at once. A receive from
-- a nil channel would wait for ever.
unfoldable pub collect : Option Error → Option Collector → Option Error
collect worker none = some (counter_not_initialized ∷ [])
collect worker (some c) =
    if length c.counters == 0 || (c.query_handle == 0 || (not c.collect_ch || not c.error_ch))
    then some (counter_not_initialized ∷ [])
    else worker

unfoldable pub close : Option Collector → Option Collector
close none = none
close (some c) = some (record c { query_handle = 0; collect_ch = false; error_ch = false })

-- What the constructor returns: a collector or nil, and an error or nil.
abbrev pub Made : Type 0
Made = Option Collector × Option Error

abbrev instances_or_empty : List Str → List Str
instances_or_empty [] = instance_empty ∷ []
instances_or_empty (inst ∷ rest) = inst ∷ rest

-- errors.Join: `errors.Is` finds what any of the errors wraps.
abbrev join_errors : List Error → Error
join_errors errs = concat errs

-- The initial collection, whose worker answers `worker`.
after_channels : Option Error → Collector → Made
after_channels worker c = elim (collect worker (some c)) [
  | none ↦ (some c, none)
  | some e ↦ (some c, if is e (pdh_error no_data_code) then none else some e)
]

after_fields : Option Error → Collector → List Error → Made
unfolding after_channels
after_fields worker c (e ∷ errs) = (some c, some (join_errors (e ∷ errs)))
after_fields worker c [] =
    if length c.counters == 0
    then (none, some (new_error (codes "no counters configured")))
    else after_channels worker (record c { collect_ch = true; error_ch = true })

abbrev without_channels : Str → Map Str Counter → ℕ → List Str → Collector
without_channels object counters query instances = record {
  object = object;
  counters = counters;
  query_handle = query;
  total_requested = contains (instances_or_empty instances) instance_total;
  collect_ch = false;
  error_ch = false;
}

-- `open_status` is what OpenQuery returns, with the handle that it writes.
unfoldable pub new_collector :
    Calls → ℕ → ℕ → Option Error → ResultType → Str → List Str → List Field → Made
unfolding after_fields
new_collector calls open_status query worker result_type object instances fields =
    if not (open_status == 0) then (none, some (code_error open_status)) else elim result_type [
      | other_type ↦ (none, some (new_error (codes "invalid result type")))
      | _ ↦
          let (counters, errs) =
            add_fields calls object (instances_or_empty instances) fields ([], []) in
          after_fields worker (without_channels object counters query instances) errs
    ]
