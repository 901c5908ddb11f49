-- ===== src/RowCollectors/Tables/HypervHealthSummary.antt =====
-- collectVirtualMachineHealthSummary of
-- internal/collector/hyperv/hyperv_virtual_machine_health_summary.go, and the descriptions for it.
use windows_exporter.Base.{List, [], ◌∷◌}
use windows_exporter.RowCollectors.{Desc, Emission, RowCollector, first_row}
use windows_exporter.RowCollectors.Calls.{desc, gauge, txt}

unfoldable pub descriptions : List Desc
descriptions = desc "health" "virtual_machine_health_total_count" ("state" ∷ []) ∷ []

unfoldable pub emissions : List Emission
emissions =
    gauge "health" "HealthCritical" (txt "critical" ∷ [])
    ∷ gauge "health" "HealthOk" (txt "ok" ∷ [])
    ∷ []

unfoldable pub hyperv_health_summary : RowCollector
hyperv_health_summary = record {
  shape = first_row;
  descriptions = descriptions;
  emissions = emissions;
}
