-- ===== src/RowCollectors/Tables/HypervStorageDevice.antt =====
-- collectVirtualStorageDevice of internal/collector/hyperv/hyperv_virtual_storage_device.go, and
-- the descriptions for it.
use windows_exporter.Base.{List, [], ◌∷◌}
use windows_exporter.RowCollectors.{Desc, Emission, RowCollector, every_row, row_name}
use windows_exporter.RowCollectors.Calls.{counter, desc, gauge}

unfoldable pub descriptions : List Desc
descriptions =
    desc "virtualStorageDeviceErrorCount" "virtual_storage_device_error_count_total" ("device" ∷ [])
    ∷ desc "virtualStorageDeviceQueueLength" "virtual_storage_device_queue_length" ("device" ∷ [])
    ∷ desc "virtualStorageDeviceReadBytes" "virtual_storage_device_bytes_read" ("device" ∷ [])
    ∷ desc "virtualStorageDeviceReadOperations" "virtual_storage_device_operations_read_total"
        ("device" ∷ [])
    ∷ desc "virtualStorageDeviceWriteBytes" "virtual_storage_device_bytes_written" ("device" ∷ [])
    ∷ desc "virtualStorageDeviceWriteOperations" "virtual_storage_device_operations_written_total"
        ("device" ∷ [])
    ∷ desc "virtualStorageDeviceLatency" "virtual_storage_device_latency_seconds" ("device" ∷ [])
    ∷ desc "virtualStorageDeviceThroughput" "virtual_storage_device_throughput_total"
        ("device" ∷ [])
    ∷ desc "virtualStorageDeviceNormalizedThroughput" "virtual_storage_device_normalized_throughput"
        ("device" ∷ [])
    ∷ desc "virtualStorageDeviceLowerQueueLength" "virtual_storage_device_lower_queue_length"
        ("device" ∷ [])
    ∷ desc "virtualStorageDeviceLowerLatency" "virtual_storage_device_lower_latency_seconds"
        ("device" ∷ [])
    ∷ desc "virtualStorageDeviceIOQuotaReplenishmentRate" "io_quota_replenishment_rate"
        ("device" ∷ [])
    ∷ []

unfoldable pub emissions : List Emission
emissions =
    counter "virtualStorageDeviceErrorCount" "VirtualStorageDeviceErrorCount" (row_name ∷ [])
    ∷ gauge "virtualStorageDeviceQueueLength" "VirtualStorageDeviceQueueLength" (row_name ∷ [])
    ∷ counter "virtualStorageDeviceReadBytes" "VirtualStorageDeviceReadBytes" (row_name ∷ [])
    ∷ counter "virtualStorageDeviceReadOperations" "VirtualStorageDeviceReadOperations"
        (row_name ∷ [])
    ∷ counter "virtualStorageDeviceWriteBytes" "VirtualStorageDeviceWriteBytes" (row_name ∷ [])
    ∷ counter "virtualStorageDeviceWriteOperations" "VirtualStorageDeviceWriteOperations"
        (row_name ∷ [])
    ∷ gauge "virtualStorageDeviceLatency" "VirtualStorageDeviceLatency" (row_name ∷ [])
    ∷ counter "virtualStorageDeviceThroughput" "VirtualStorageDeviceThroughput" (row_name ∷ [])
    ∷ gauge "virtualStorageDeviceNormalizedThroughput" "VirtualStorageDeviceNormalizedThroughput"
        (row_name ∷ [])
    ∷ gauge "virtualStorageDeviceLowerQueueLength" "VirtualStorageDeviceLowerQueueLength"
        (row_name ∷ [])
    ∷ gauge "virtualStorageDeviceLowerLatency" "VirtualStorageDeviceLowerLatency" (row_name ∷ [])
    ∷ gauge "virtualStorageDeviceIOQuotaReplenishmentRate"
        "VirtualStorageDeviceIOQuotaReplenishmentRate" (row_name ∷ [])
    ∷ []

unfoldable pub hyperv_storage_device : RowCollector
hyperv_storage_device = record {
  shape = every_row;
  descriptions = descriptions;
  emissions = emissions;
}
