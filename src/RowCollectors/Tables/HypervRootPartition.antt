-- ===== src/RowCollectors/Tables/HypervRootPartition.antt =====
-- collectHypervisorRootPartition of internal/collector/hyperv/hyperv_hypervisor_root_partition.go,
-- and the descriptions for it.
use windows_exporter.Base.{List, [], ◌∷◌}
use windows_exporter.RowCollectors.{Desc, Emission, RowCollector, first_row}
use windows_exporter.RowCollectors.Calls.{counter, desc, gauge}

unfoldable pub descriptions : List Desc
descriptions =
    desc "hypervisorRootPartitionAddressSpaces" "root_partition_address_spaces" []
    ∷ desc "hypervisorRootPartitionAttachedDevices" "root_partition_attached_devices" []
    ∷ desc "hypervisorRootPartitionDepositedPages" "root_partition_deposited_pages" []
    ∷ desc "hypervisorRootPartitionDeviceDMAErrors" "root_partition_device_dma_errors" []
    ∷ desc "hypervisorRootPartitionDeviceInterruptErrors" "root_partition_device_interrupt_errors"
        []
    ∷ desc "hypervisorRootPartitionDeviceInterruptMappings"
        "root_partition_device_interrupt_mappings" []
    ∷ desc "hypervisorRootPartitionDeviceInterruptThrottleEvents"
        "root_partition_device_interrupt_throttle_events" []
    ∷ desc "hypervisorRootPartitionGPAPages" "root_partition_preferred_numa_node_index" []
    ∷ desc "hypervisorRootPartitionGPASpaceModifications" "root_partition_gpa_space_modifications"
        []
    ∷ desc "hypervisorRootPartitionIOTLBFlushCost" "root_partition_io_tlb_flush_cost" []
    ∷ desc "hypervisorRootPartitionIOTLBFlushes" "root_partition_io_tlb_flush" []
    ∷ desc "hypervisorRootPartitionRecommendedVirtualTLBSize"
        "root_partition_recommended_virtual_tlb_size" []
    ∷ desc "hypervisorRootPartitionSkippedTimerTicks" "root_partition_physical_pages_allocated" []
    ∷ desc "hypervisorRootPartition1GDevicePages" "root_partition_1G_device_pages" []
    ∷ desc "hypervisorRootPartition1GGPAPages" "root_partition_1G_gpa_pages" []
    ∷ desc "hypervisorRootPartition2MDevicePages" "root_partition_2M_device_pages" []
    ∷ desc "hypervisorRootPartition2MGPAPages" "root_partition_2M_gpa_pages" []
    ∷ desc "hypervisorRootPartition4KDevicePages" "root_partition_4K_device_pages" []
    ∷ desc "hypervisorRootPartition4KGPAPages" "root_partition_4K_gpa_pages" []
    ∷ desc "hypervisorRootPartitionVirtualTLBFlushEntries"
        "root_partition_virtual_tlb_flush_entries" []
    ∷ desc "hypervisorRootPartitionVirtualTLBPages" "root_partition_virtual_tlb_pages" []
    ∷ []

unfoldable pub emissions : List Emission
emissions =
    gauge "hypervisorRootPartitionAddressSpaces" "HypervisorRootPartitionAddressSpaces" []
    ∷ gauge "hypervisorRootPartitionAttachedDevices" "HypervisorRootPartitionAttachedDevices" []
    ∷ gauge "hypervisorRootPartitionDepositedPages" "HypervisorRootPartitionDepositedPages" []
    ∷ gauge "hypervisorRootPartitionDeviceDMAErrors" "HypervisorRootPartitionDeviceDMAErrors" []
    ∷ gauge "hypervisorRootPartitionDeviceInterruptErrors"
        "HypervisorRootPartitionDeviceInterruptErrors" []
    ∷ gauge "hypervisorRootPartitionDeviceInterruptThrottleEvents"
        "HypervisorRootPartitionDeviceInterruptThrottleEvents" []
    ∷ gauge "hypervisorRootPartitionGPAPages" "HypervisorRootPartitionGPAPages" []
    ∷ counter "hypervisorRootPartitionGPASpaceModifications"
        "HypervisorRootPartitionGPASpaceModifications" []
    ∷ gauge "hypervisorRootPartitionIOTLBFlushCost" "HypervisorRootPartitionIOTLBFlushCost" []
    ∷ counter "hypervisorRootPartitionIOTLBFlushes" "HypervisorRootPartitionIOTLBFlushes" []
    ∷ gauge "hypervisorRootPartitionRecommendedVirtualTLBSize"
        "HypervisorRootPartitionRecommendedVirtualTLBSize" []
    ∷ gauge "hypervisorRootPartitionSkippedTimerTicks" "HypervisorRootPartitionSkippedTimerTicks" []
    ∷ gauge "hypervisorRootPartition1GDevicePages" "HypervisorRootPartition1GDevicePages" []
    ∷ gauge "hypervisorRootPartition1GGPAPages" "HypervisorRootPartition1GGPAPages" []
    ∷ gauge "hypervisorRootPartition2MDevicePages" "HypervisorRootPartition2MDevicePages" []
    ∷ gauge "hypervisorRootPartition2MGPAPages" "HypervisorRootPartition2MGPAPages" []
    ∷ gauge "hypervisorRootPartition4KDevicePages" "HypervisorRootPartition4KDevicePages" []
    ∷ gauge "hypervisorRootPartition4KGPAPages" "HypervisorRootPartition4KGPAPages" []
    ∷ counter "hypervisorRootPartitionVirtualTLBFlushEntries"
        "HypervisorRootPartitionVirtualTLBFlushEntries" []
    ∷ gauge "hypervisorRootPartitionVirtualTLBPages" "HypervisorRootPartitionVirtualTLBPages" []
    ∷ []

unfoldable pub hyperv_root_partition : RowCollector
hyperv_root_partition = record {
  shape = first_row;
  descriptions = descriptions;
  emissions = emissions;
}
