-- ===== src/RowCollectors/Tables/HypervVidPartition.antt =====
-- collectVirtualMachineVidPartition of
-- internal/collector/hyperv/hyperv_virtual_machine_vid_partition.go, and the descriptions for it.
use windows_exporter.Base.{List, [], ◌∷◌}
use windows_exporter.RowCollectors.{Desc, Emission, RowCollector, every_row, row_name}
use windows_exporter.RowCollectors.Calls.{desc, gauge}

unfoldable pub descriptions : List Desc
descriptions =
    desc "physicalPagesAllocated" "vid_physical_pages_allocated" ("vm" ∷ [])
    ∷ desc "preferredNUMANodeIndex" "vid_preferred_numa_node_index" ("vm" ∷ [])
    ∷ desc "remotePhysicalPages" "vid_remote_physical_pages" ("vm" ∷ [])
    ∷ []

unfoldable pub emissions : List Emission
emissions =
    gauge "physicalPagesAllocated" "PhysicalPagesAllocated" (row_name ∷ [])
    ∷ gauge "preferredNUMANodeIndex" "PreferredNUMANodeIndex" (row_name ∷ [])
    ∷ gauge "remotePhysicalPages" "RemotePhysicalPages" (row_name ∷ [])
    ∷ []

unfoldable pub hyperv_vid_partition : RowCollector
hyperv_vid_partition = record {
  shape = every_row;
  descriptions = descriptions;
  emissions = emissions;
}
