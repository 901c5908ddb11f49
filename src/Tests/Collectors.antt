-- ===== src/Tests/Collectors.antt =====
-- Runs for the constructor of internal/pdh/collector.go.
use windows_exporter.Base.{
  ℕ, ◌≡◌, refl, true, false, [], ◌∷◌, List, Option, none, some, arith, nat_eq, Str, str_eq, codes,
  has_suffix, lookup, insert,
}
use windows_exporter.Errors.{counter_not_initialized}
use windows_exporter.Perflib.Bytes.{pos}
use windows_exporter.Pdh.Worker.{more_data_code}
use windows_exporter.Pdh.{metric_type_of}
use windows_exporter.Pdh.Collector.Counters.{
  Field, Calls, handle, add_fields, add_field, add_visible, add_tagged, add_instances, add_instance,
  after_added, read_info, read_time_base, set_field_index, new_counter, format_counter_path,
}
use windows_exporter.Pdh.Collector.{raw, Collector, new_collector, collect}
use windows_exporter.Pdh.Collector.Fields.{stored_at, last_index, stored_at-add_fields}
use windows_exporter.Pdh.Collector.Lifecycle.{
  Op, collects, closes, answers, promised, answers-new_collector,
}

abbrev tagged : Str → ℕ → Field
tagged tag i = record { perfdata = some tag; is_float = true; index = i; min_build = none }

abbrev fields : List Field
fields =
    record { perfdata = none; is_float = false; index = 0; min_build = none }
    ∷ tagged (codes "Reads") 1
    ∷ tagged (codes "Reads,secondvalue") 2
    ∷ []

abbrev calls : Calls
calls = record {
  add_counter = λ path. handle 5;
  info = λ h. record {
    length_status = more_data_code;
    info_length = 64;
    info_status = 0;
    info_type = 0x10410500;
    base_status = 0;
    frequency = pos 1;
  };
  os_build = 20348;
}

stored_at-add_fields_example :
    stored_at true
      (lookup (codes "Reads") (add_fields calls (codes "Disk") (codes "*" ∷ []) fields ([], [])).0)
    ≡ last_index (codes "Reads,secondvalue") fields none
unfolding has_suffix
stored_at-add_fields_example =
    stored_at-add_fields calls (codes "Disk") (codes "*" ∷ []) fields (codes "Reads") true refl

abbrev ops : List Op
ops = collects none ∷ closes ∷ collects none ∷ []

abbrev made : Option Collector
made = (new_collector calls 0 9 none raw (codes "Disk") [] fields).0

no_error_made : new_collector calls 0 9 none raw (codes "Disk") [] fields ≡ (made, none)
unfolding new_collector add_fields add_field add_visible add_tagged add_instances add_instance
    after_added read_info read_time_base set_field_index new_counter format_counter_path collect
    has_suffix lookup insert metric_type_of
no_error_made = refl

answers-new_collector_example : answers made ops ≡ none ∷ some (counter_not_initialized ∷ []) ∷ []
unfolding promised
answers-new_collector_example =
    answers-new_collector calls 0 9 none raw (codes "Disk") [] fields made ops
      (λ h. absurd (omega (arith, h))) no_error_made
