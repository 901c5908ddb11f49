-- ===== src/RowCollectors/Tables/HypervNetworkAdapter.antt =====
-- collectVirtualNetworkAdapter of internal/collector/hyperv/hyperv_virtual_network_adapter.go, and
-- the descriptions for it.
use windows_exporter.Base.{List, [], ◌∷◌}
use windows_exporter.RowCollectors.{Desc, Emission, RowCollector, every_row, row_name}
use windows_exporter.RowCollectors.Calls.{counter, desc}

unfoldable pub descriptions : List Desc
descriptions =
    desc "virtualNetworkAdapterBytesReceived" "virtual_network_adapter_received_bytes_total"
      ("adapter" ∷ [])
    ∷ desc "virtualNetworkAdapterBytesSent" "virtual_network_adapter_sent_bytes_total"
        ("adapter" ∷ [])
    ∷ desc "virtualNetworkAdapterDroppedPacketsIncoming"
        "virtual_network_adapter_incoming_dropped_packets_total" ("adapter" ∷ [])
    ∷ desc "virtualNetworkAdapterDroppedPacketsOutgoing"
        "virtual_network_adapter_outgoing_dropped_packets_total" ("adapter" ∷ [])
    ∷ desc "virtualNetworkAdapterPacketsReceived" "virtual_network_adapter_received_packets_total"
        ("adapter" ∷ [])
    ∷ desc "virtualNetworkAdapterPacketsSent" "virtual_network_adapter_sent_packets_total"
        ("adapter" ∷ [])
    ∷ []

unfoldable pub emissions : List Emission
emissions =
    counter "virtualNetworkAdapterBytesReceived" "VirtualNetworkAdapterBytesReceived"
      (row_name ∷ [])
    ∷ counter "virtualNetworkAdapterBytesSent" "VirtualNetworkAdapterBytesSent" (row_name ∷ [])
    ∷ counter "virtualNetworkAdapterDroppedPacketsIncoming"
        "VirtualNetworkAdapterDroppedPacketsIncoming" (row_name ∷ [])
    ∷ counter "virtualNetworkAdapterDroppedPacketsOutgoing"
        "VirtualNetworkAdapterDroppedPacketsOutgoing" (row_name ∷ [])
    ∷ counter "virtualNetworkAdapterPacketsReceived" "VirtualNetworkAdapterPacketsReceived"
        (row_name ∷ [])
    ∷ counter "virtualNetworkAdapterPacketsSent" "VirtualNetworkAdapterPacketsSent" (row_name ∷ [])
    ∷ []

unfoldable pub hyperv_network_adapter : RowCollector
hyperv_network_adapter = record {
  shape = every_row;
  descriptions = descriptions;
  emissions = emissions;
}
