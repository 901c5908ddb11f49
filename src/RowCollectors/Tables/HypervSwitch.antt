-- ===== src/RowCollectors/Tables/HypervSwitch.antt =====
-- collectVirtualSwitch of internal/collector/hyperv/hyperv_virtual_switch.go, and the descriptions
-- for it.
use windows_exporter.Base.{List, [], ◌∷◌}
use windows_exporter.RowCollectors.{Desc, Emission, RowCollector, every_row, row_name}
use windows_exporter.RowCollectors.Calls.{counter, desc}

unfoldable pub descriptions : List Desc
descriptions =
    desc "virtualSwitchBroadcastPacketsReceived" "vswitch_broadcast_packets_received_total"
      ("vswitch" ∷ [])
    ∷ desc "virtualSwitchBroadcastPacketsSent" "vswitch_broadcast_packets_sent_total"
        ("vswitch" ∷ [])
    ∷ desc "virtualSwitchBytes" "vswitch_bytes_total" ("vswitch" ∷ [])
    ∷ desc "virtualSwitchBytesReceived" "vswitch_bytes_received_total" ("vswitch" ∷ [])
    ∷ desc "virtualSwitchBytesSent" "vswitch_bytes_sent_total" ("vswitch" ∷ [])
    ∷ desc "virtualSwitchDirectedPacketsReceived" "vswitch_directed_packets_received_total"
        ("vswitch" ∷ [])
    ∷ desc "virtualSwitchDirectedPacketsSent" "vswitch_directed_packets_send_total" ("vswitch" ∷ [])
    ∷ desc "virtualSwitchDroppedPacketsIncoming" "vswitch_dropped_packets_incoming_total"
        ("vswitch" ∷ [])
    ∷ desc "virtualSwitchDroppedPacketsOutgoing" "vswitch_dropped_packets_outcoming_total"
        ("vswitch" ∷ [])
    ∷ desc "virtualSwitchExtensionsDroppedPacketsIncoming"
        "vswitch_extensions_dropped_packets_incoming_total" ("vswitch" ∷ [])
    ∷ desc "virtualSwitchExtensionsDroppedPacketsOutgoing"
        "vswitch_extensions_dropped_packets_outcoming_total" ("vswitch" ∷ [])
    ∷ desc "virtualSwitchLearnedMacAddresses" "vswitch_learned_mac_addresses_total" ("vswitch" ∷ [])
    ∷ desc "virtualSwitchMulticastPacketsReceived" "vswitch_multicast_packets_received_total"
        ("vswitch" ∷ [])
    ∷ desc "virtualSwitchMulticastPacketsSent" "vswitch_multicast_packets_sent_total"
        ("vswitch" ∷ [])
    ∷ desc "virtualSwitchNumberOfSendChannelMoves" "vswitch_number_of_send_channel_moves_total"
        ("vswitch" ∷ [])
    ∷ desc "virtualSwitchNumberOfVMQMoves" "vswitch_number_of_vmq_moves_total" ("vswitch" ∷ [])
    ∷ desc "virtualSwitchPacketsFlooded" "vswitch_packets_flooded_total" ("vswitch" ∷ [])
    ∷ desc "virtualSwitchPackets" "vswitch_packets_total" ("vswitch" ∷ [])
    ∷ desc "virtualSwitchPacketsReceived" "vswitch_packets_received_total" ("vswitch" ∷ [])
    ∷ desc "virtualSwitchPacketsSent" "vswitch_packets_sent_total" ("vswitch" ∷ [])
    ∷ desc "virtualSwitchPurgedMacAddresses" "vswitch_purged_mac_addresses_total" ("vswitch" ∷ [])
    ∷ []

unfoldable pub emissions : List Emission
emissions =
    counter "virtualSwitchBroadcastPacketsReceived" "VirtualSwitchBroadcastPacketsReceived"
      (row_name ∷ [])
    ∷ counter "virtualSwitchBroadcastPacketsSent" "VirtualSwitchBroadcastPacketsSent"
        (row_name ∷ [])
    ∷ counter "virtualSwitchBytes" "VirtualSwitchBytes" (row_name ∷ [])
    ∷ counter "virtualSwitchBytesReceived" "VirtualSwitchBytesReceived" (row_name ∷ [])
    ∷ counter "virtualSwitchBytesSent" "VirtualSwitchBytesSent" (row_name ∷ [])
    ∷ counter "virtualSwitchDirectedPacketsReceived" "VirtualSwitchDirectedPacketsReceived"
        (row_name ∷ [])
    ∷ counter "virtualSwitchDirectedPacketsSent" "VirtualSwitchDirectedPacketsSent" (row_name ∷ [])
    ∷ counter "virtualSwitchDroppedPacketsIncoming" "VirtualSwitchDroppedPacketsIncoming"
        (row_name ∷ [])
    ∷ counter "virtualSwitchDroppedPacketsOutgoing" "VirtualSwitchDroppedPacketsOutgoing"
        (row_name ∷ [])
    ∷ counter "virtualSwitchExtensionsDroppedPacketsIncoming"
        "VirtualSwitchExtensionsDroppedPacketsIncoming" (row_name ∷ [])
    ∷ counter "virtualSwitchExtensionsDroppedPacketsOutgoing"
        "VirtualSwitchExtensionsDroppedPacketsOutgoing" (row_name ∷ [])
    ∷ counter "virtualSwitchLearnedMacAddresses" "VirtualSwitchLearnedMacAddresses" (row_name ∷ [])
    ∷ counter "virtualSwitchMulticastPacketsReceived" "VirtualSwitchMulticastPacketsReceived"
        (row_name ∷ [])
    ∷ counter "virtualSwitchMulticastPacketsSent" "VirtualSwitchMulticastPacketsSent"
        (row_name ∷ [])
    ∷ counter "virtualSwitchNumberOfSendChannelMoves" "VirtualSwitchNumberOfSendChannelMoves"
        (row_name ∷ [])
    ∷ counter "virtualSwitchNumberOfVMQMoves" "VirtualSwitchNumberOfVMQMoves" (row_name ∷ [])
    ∷ counter "virtualSwitchPacketsFlooded" "VirtualSwitchPacketsFlooded" (row_name ∷ [])
    ∷ counter "virtualSwitchPackets" "VirtualSwitchPackets" (row_name ∷ [])
    ∷ counter "virtualSwitchPacketsReceived" "VirtualSwitchPacketsReceived" (row_name ∷ [])
    ∷ counter "virtualSwitchPacketsSent" "VirtualSwitchPacketsSent" (row_name ∷ [])
    ∷ counter "virtualSwitchPurgedMacAddresses" "VirtualSwitchPurgedMacAddresses" (row_name ∷ [])
    ∷ []

unfoldable pub hyperv_switch : RowCollector
hyperv_switch = record { shape = every_row; descriptions = descriptions; emissions = emissions }
