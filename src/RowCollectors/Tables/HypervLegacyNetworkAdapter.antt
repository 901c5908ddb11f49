-- ===== src/RowCollectors/Tables/HypervLegacyNetworkAdapter.antt =====
-- collectLegacyNetworkAdapter of internal/collector/hyperv/hyperv_legacy_network_adapter.go, and
-- the descriptions for it.
use windows_exporter.Base.{List, [], ◌∷◌}
use windows_exporter.RowCollectors.{Desc, Emission, RowCollector, every_row, row_name}
use windows_exporter.RowCollectors.Calls.{counter, desc, gauge}

unfoldable pub descriptions : List Desc
descriptions =
    desc "legacyNetworkAdapterBytesDropped" "legacy_network_adapter_bytes_dropped_total"
      ("adapter" ∷ [])
    ∷ desc "legacyNetworkAdapterBytesReceived" "legacy_network_adapter_bytes_received_total"
        ("adapter" ∷ [])
    ∷ desc "legacyNetworkAdapterBytesSent" "legacy_network_adapter_bytes_sent_total"
        ("adapter" ∷ [])
    ∷ desc "legacyNetworkAdapterFramesDropped" "legacy_network_adapter_frames_dropped_total"
        ("adapter" ∷ [])
    ∷ desc "legacyNetworkAdapterFramesReceived" "legacy_network_adapter_frames_received_total"
        ("adapter" ∷ [])
    ∷ desc "legacyNetworkAdapterFramesSent" "legacy_network_adapter_frames_sent_total"
        ("adapter" ∷ [])
    ∷ []

unfoldable pub emissions : List Emission
emissions =
    gauge "legacyNetworkAdapterBytesDropped" "LegacyNetworkAdapterBytesDropped" (row_name ∷ [])
    ∷ counter "legacyNetworkAdapterBytesReceived" "LegacyNetworkAdapterBytesReceived"
        (row_name ∷ [])
    ∷ counter "legacyNetworkAdapterBytesSent" "LegacyNetworkAdapterBytesSent" (row_name ∷ [])
    ∷ counter "legacyNetworkAdapterFramesReceived" "LegacyNetworkAdapterFramesReceived"
        (row_name ∷ [])
    ∷ counter "legacyNetworkAdapterFramesDropped" "LegacyNetworkAdapterFramesDropped"
        (row_name ∷ [])
    ∷ counter "legacyNetworkAdapterFramesSent" "LegacyNetworkAdapterFramesSent" (row_name ∷ [])
    ∷ []

unfoldable pub hyperv_legacy_network_adapter : RowCollector
hyperv_legacy_network_adapter = record {
  shape = every_row;
  descriptions = descriptions;
  emissions = emissions;
}
