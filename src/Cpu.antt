-- ===== src/Cpu.antt =====
-- `Collect` of internal/collector/cpu/cpu.go as far as it keeps state: two 32-bit counters for each
-- core, from scrape to scrape. The other metrics of a core are fields of its row. The readings are
-- float64, of which `Floats` gives the arithmetic.
pub mod Totals
use windows_exporter.Base.{
  ℕ, ◌+◌, ◌%◌, ◌≡◌, Bool, List, [], ◌∷◌, ◌++◌, Option, none, some, arith, Str, str_eq, Map, lookup,
  insert, length,
}
use windows_exporter.Errors.{Error}
use windows_exporter.Counter.{Counter, Floats, new_counter, add_value, value}

-- What Collect reads of a row: the name, ProcessorUtilityRateSecondValue and
-- ProcessorPerformanceSecondValue.
pub record CoreData (F : Type 0) : Type 0 where
  pub name : Str
  pub utility_rate : F
  pub performance : F

pub record Collector (F : Type 0) : Type 0 where
  pub processor_rtc_values : Map Str (Counter F)
  pub processor_mperf_values : Map Str (Counter F)

-- What is sent for a core from the two counters.
pub record Sent (F : Type 0) : Type 0 where
  pub core : Str
  pub mperf : F
  pub rtc : F

-- What a scrape sends: the metrics of the cores and their number, or the error of PDH.
pub data Answer (F : Type 0) : Type 0 where
  fails : Error → Answer F
  sends : List (Sent F) → ℕ → Answer F

module _ {F : Type 0} (floats : Floats F) where
  -- The counter of a core, with the reading of this scrape.
  unfoldable pub next_counter : Option (Counter F) → F → Counter F
  next_counter none reading = new_counter floats (floats.to_uint32 reading)
  next_counter (some c) reading = add_value floats c (floats.to_uint32 reading)

  unfoldable pub collect_core : CoreData F → Collector F → Collector F × Sent F
  collect_core row c =
      let rtc = next_counter (lookup row.name c.processor_rtc_values) row.utility_rate in
      let mperf = next_counter (lookup row.name c.processor_mperf_values) row.performance in
      (
        record {
          processor_rtc_values = insert row.name rtc c.processor_rtc_values;
          processor_mperf_values = insert row.name mperf c.processor_mperf_values;
        },
        record { core = row.name; mperf = value floats mperf; rtc = value floats rtc },
      )

  unfoldable pub collect_cores : List (CoreData F) → Collector F → Collector F × List (Sent F)
  collect_cores [] c = (c, [])
  collect_cores (row ∷ rows) c =
      let (d, sent) = collect_core row c in let (e, more) = collect_cores rows d in (e, sent ∷ more)

  -- `Collect`, where PDH answers with an error or with rows.
  unfoldable pub collect : Option Error → List (CoreData F) → Collector F → Collector F × Answer F
  collect (some e) rows c = (c, fails e)
  collect none rows c = let (d, sent) = collect_cores rows c in (d, sends sent (length rows))

  -- The collector behind some scrapes.
  unfoldable pub after : List (Option Error × List (CoreData F)) → Collector F → Collector F
  after [] c = c
  after ((answer, rows) ∷ scrapes) c = after scrapes (collect answer rows c).0

unfoldable pub new_collector : {F : Type 0} → Collector F
new_collector = record { processor_rtc_values = []; processor_mperf_values = [] }
