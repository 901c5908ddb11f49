-- ===== src/Tests/Pdhs.antt =====
-- Runs for internal/pdh/collector.go.
use windows_exporter.Base.{
  ◌≡◌, refl, true, false, [], ◌∷◌, none, some, arith, nat_eq, Str, str_eq, codes, has_suffix,
  if◌then◌else◌, lookup, insert, leb,
}
use windows_exporter.Perflib.Bytes.{pos}
use windows_exporter.Perflib.RawData.{two_32}
use windows_exporter.Pdh.{
  Item, raw, CounterDef, Settings, plain, add_items, add_item, is_valid, display_name,
  instance_name, find_row, write_raw, set_field,
}
use windows_exporter.Pdh.Rows.{CanWrite}
use windows_exporter.Pdh.Worker.{
  Source, items_written, more_data, rows, collect_worker, read_array, read_counters, read_instances,
  Bounded, IsAnswer, IsAnswer-collect_worker,
}

abbrev settings : Settings
settings = record { total_requested = false; has_name = true; has_metric_type = false }

abbrev reads : CounterDef
reads = record {
  name = codes "reads";
  type = 0x10410500;
  frequency = pos 1;
  field_index_value = some 1;
  field_index_second_value = none;
}

abbrev item : Str → Item
item name = record { sz_name = 48; name = name; status = 0; reading = raw (pos 3) (pos 4) }

-- An instance that needs 64 bytes for its array.
abbrev source : Source
source i n =
    if leb 64 n then items_written (item (codes "c") ∷ item (codes "_Total") ∷ []) else more_data 64

source-Bounded : Bounded source
source-Bounded i n needed h = ground arith

reads-CanWrite : CanWrite reads
reads-CanWrite = record { has_field = λ h. (1, refl); has_frequency = λ h. refl }

IsAnswer-collect_worker_example :
    IsAnswer settings (collect_worker settings two_32 0 ((reads, source ∷ []) ∷ []) 1)
IsAnswer-collect_worker_example =
    IsAnswer-collect_worker settings two_32 0 ((reads, source ∷ []) ∷ []) 1 (omega arith)
      ((reads-CanWrite, (source-Bounded, tt)), tt)

-- Three calls are enough here, and the aggregate is left out.
one_row :
    collect_worker settings 3 0 ((reads, source ∷ []) ∷ []) 1
    ≡ rows (
        record { name = some (codes "c"); metric_type = none; fields = (1, plain (pos 3)) ∷ [] }
        ∷ [])
unfolding collect_worker read_counters read_instances read_array add_items add_item is_valid
    display_name instance_name find_row write_raw set_field has_suffix lookup insert
one_row = refl
