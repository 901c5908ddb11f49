-- ===== src/Tests/Instances.antt =====
-- Runs for internal/pdh/registry/collector.go.
use windows_exporter.Base.{
  ◌≡◌, refl, true, List, [], ◌∷◌, Str, codes, some, none, lookup, arith, select, Map, str_eq,
}
use windows_exporter.Perflib.Bytes.{pos}
use windows_exporter.Perflib.Parse.{PerfInstance, PerfObject}
use windows_exporter.Pdh.{CounterDef, Row}
use windows_exporter.Pdh.Rows.{row_names}
use windows_exporter.Perflib.Rows.{
  collect_objects, named_instances, is_single, shown_names, HasFields, row_names-collect_objects,
}

abbrev instance_of : Str → PerfInstance
instance_of name = record { name = name; counters = [] }

abbrev disk : PerfObject
disk = record {
  name = codes "Disk";
  name_index = 234;
  instances = instance_of (codes "C:") ∷ instance_of (codes "_Total") ∷ [];
  counter_defs = [];
  frequency = pos 1;
}

abbrev counters : Map Str CounterDef
counters =
    (
      codes "reads",
      record {
        name = codes "reads";
        type = 0;
        frequency = pos 0;
        field_index_value = some 1;
        field_index_second_value = none;
      },
    )
    ∷ []

counters-HasFields : HasFields counters
unfolding lookup
counters-HasFields name c l = (1, ground arith)

row_names-collect_objects_example :
    (rows : List Row) × (collect_objects counters true (codes "Disk") (disk ∷ []) [] ≡ some rows)
    × (row_names rows
        ≡ shown_names true (select is_single (named_instances (codes "Disk") (disk ∷ []))))
row_names-collect_objects_example =
    row_names-collect_objects counters true counters-HasFields (codes "Disk") disk [] [] refl
      (refl, tt)
