-- ===== src/RowCollectors/Tables/HypervDropReasons.antt =====
-- collectVirtualNetworkAdapterDropReasons of
-- internal/collector/hyperv/hyperv_virtual_network_adapter_drop_reasons.go, and the descriptions
-- for it.
use windows_exporter.Base.{List, [], ◌++◌, ◌∷◌}
use windows_exporter.RowCollectors.{Desc, Emission, RowCollector, every_row, row_name}
use windows_exporter.RowCollectors.Calls.{counter, desc, txt}

unfoldable pub descriptions : List Desc
descriptions =
    desc "virtualNetworkAdapterDropReasons" "virtual_network_adapter_drop_reasons"
      ("adapter" ∷ "reason" ∷ "direction" ∷ [])
    ∷ []

unfoldable pub emissions_1 : List Emission
emissions_1 =
    counter "virtualNetworkAdapterDropReasons"
      "VirtualNetworkAdapterDropReasonsOutgoingNativeFwdingReq"
      (row_name ∷ txt "NativeFwdingReq" ∷ txt "outgoing" ∷ [])
    ∷ counter "virtualNetworkAdapterDropReasons"
        "VirtualNetworkAdapterDropReasonsIncomingNativeFwdingReq"
        (row_name ∷ txt "NativeFwdingReq" ∷ txt "incoming" ∷ [])
    ∷ counter "virtualNetworkAdapterDropReasons"
        "VirtualNetworkAdapterDropReasonsOutgoingMTUMismatch"
        (row_name ∷ txt "MTUMismatch" ∷ txt "outgoing" ∷ [])
    ∷ counter "virtualNetworkAdapterDropReasons"
        "VirtualNetworkAdapterDropReasonsIncomingMTUMismatch"
        (row_name ∷ txt "MTUMismatch" ∷ txt "incoming" ∷ [])
    ∷ counter "virtualNetworkAdapterDropReasons"
        "VirtualNetworkAdapterDropReasonsOutgoingInvalidConfig"
        (row_name ∷ txt "InvalidConfig" ∷ txt "outgoing" ∷ [])
    ∷ counter "virtualNetworkAdapterDropReasons"
        "VirtualNetworkAdapterDropReasonsIncomingInvalidConfig"
        (row_name ∷ txt "InvalidConfig" ∷ txt "incoming" ∷ [])
    ∷ counter "virtualNetworkAdapterDropReasons"
        "VirtualNetworkAdapterDropReasonsOutgoingRequiredExtensionMissing"
        (row_name ∷ txt "RequiredExtensionMissing" ∷ txt "outgoing" ∷ [])
    ∷ counter "virtualNetworkAdapterDropReasons"
        "VirtualNetworkAdapterDropReasonsIncomingRequiredExtensionMissing"
        (row_name ∷ txt "RequiredExtensionMissing" ∷ txt "incoming" ∷ [])
    ∷ counter "virtualNetworkAdapterDropReasons"
        "VirtualNetworkAdapterDropReasonsOutgoingVirtualSubnetId"
        (row_name ∷ txt "VirtualSubnetId" ∷ txt "outgoing" ∷ [])
    ∷ counter "virtualNetworkAdapterDropReasons"
        "VirtualNetworkAdapterDropReasonsIncomingVirtualSubnetId"
        (row_name ∷ txt "VirtualSubnetId" ∷ txt "incoming" ∷ [])
    ∷ counter "virtualNetworkAdapterDropReasons"
        "VirtualNetworkAdapterDropReasonsOutgoingBridgeReserved"
        (row_name ∷ txt "BridgeReserved" ∷ txt "outgoing" ∷ [])
    ∷ counter "virtualNetworkAdapterDropReasons"
        "VirtualNetworkAdapterDropReasonsIncomingBridgeReserved"
        (row_name ∷ txt "BridgeReserved" ∷ txt "incoming" ∷ [])
    ∷ counter "virtualNetworkAdapterDropReasons"
        "VirtualNetworkAdapterDropReasonsOutgoingRouterGuard"
        (row_name ∷ txt "RouterGuard" ∷ txt "outgoing" ∷ [])
    ∷ counter "virtualNetworkAdapterDropReasons"
        "VirtualNetworkAdapterDropReasonsIncomingRouterGuard"
        (row_name ∷ txt "RouterGuard" ∷ txt "incoming" ∷ [])
    ∷ counter "virtualNetworkAdapterDropReasons" "VirtualNetworkAdapterDropReasonsOutgoingDhcpGuard"
        (row_name ∷ txt "DhcpGuard" ∷ txt "outgoing" ∷ [])
    ∷ counter "virtualNetworkAdapterDropReasons" "VirtualNetworkAdapterDropReasonsIncomingDhcpGuard"
        (row_name ∷ txt "DhcpGuard" ∷ txt "incoming" ∷ [])
    ∷ counter "virtualNetworkAdapterDropReasons"
        "VirtualNetworkAdapterDropReasonsOutgoingMacSpoofing"
        (row_name ∷ txt "MacSpoofing" ∷ txt "outgoing" ∷ [])
    ∷ counter "virtualNetworkAdapterDropReasons"
        "VirtualNetworkAdapterDropReasonsIncomingMacSpoofing"
        (row_name ∷ txt "MacSpoofing" ∷ txt "incoming" ∷ [])
    ∷ counter "virtualNetworkAdapterDropReasons" "VirtualNetworkAdapterDropReasonsOutgoingIpsec"
        (row_name ∷ txt "Ipsec" ∷ txt "outgoing" ∷ [])
    ∷ counter "virtualNetworkAdapterDropReasons" "VirtualNetworkAdapterDropReasonsIncomingIpsec"
        (row_name ∷ txt "Ipsec" ∷ txt "incoming" ∷ [])
    ∷ counter "virtualNetworkAdapterDropReasons" "VirtualNetworkAdapterDropReasonsOutgoingQos"
        (row_name ∷ txt "Qos" ∷ txt "outgoing" ∷ [])
    ∷ counter "virtualNetworkAdapterDropReasons" "VirtualNetworkAdapterDropReasonsIncomingQos"
        (row_name ∷ txt "Qos" ∷ txt "incoming" ∷ [])
    ∷ counter "virtualNetworkAdapterDropReasons"
        "VirtualNetworkAdapterDropReasonsOutgoingFailedPvlanSetting"
        (row_name ∷ txt "FailedPvlanSetting" ∷ txt "outgoing" ∷ [])
    ∷ counter "virtualNetworkAdapterDropReasons"
        "VirtualNetworkAdapterDropReasonsIncomingFailedPvlanSetting"
        (row_name ∷ txt "FailedPvlanSetting" ∷ txt "incoming" ∷ [])
    ∷ counter "virtualNetworkAdapterDropReasons"
        "VirtualNetworkAdapterDropReasonsOutgoingFailedSecurityPolicy"
        (row_name ∷ txt "FailedSecurityPolicy" ∷ txt "outgoing" ∷ [])
    ∷ []

unfoldable pub emissions_2 : List Emission
emissions_2 =
    counter "virtualNetworkAdapterDropReasons"
      "VirtualNetworkAdapterDropReasonsIncomingFailedSecurityPolicy"
      (row_name ∷ txt "FailedSecurityPolicy" ∷ txt "incoming" ∷ [])
    ∷ counter "virtualNetworkAdapterDropReasons"
        "VirtualNetworkAdapterDropReasonsOutgoingUnauthorizedMAC"
        (row_name ∷ txt "UnauthorizedMAC" ∷ txt "outgoing" ∷ [])
    ∷ counter "virtualNetworkAdapterDropReasons"
        "VirtualNetworkAdapterDropReasonsIncomingUnauthorizedMAC"
        (row_name ∷ txt "UnauthorizedMAC" ∷ txt "incoming" ∷ [])
    ∷ counter "virtualNetworkAdapterDropReasons"
        "VirtualNetworkAdapterDropReasonsOutgoingUnauthorizedVLAN"
        (row_name ∷ txt "UnauthorizedVLAN" ∷ txt "outgoing" ∷ [])
    ∷ counter "virtualNetworkAdapterDropReasons"
        "VirtualNetworkAdapterDropReasonsIncomingUnauthorizedVLAN"
        (row_name ∷ txt "UnauthorizedVLAN" ∷ txt "incoming" ∷ [])
    ∷ counter "virtualNetworkAdapterDropReasons"
        "VirtualNetworkAdapterDropReasonsOutgoingFilteredVLAN"
        (row_name ∷ txt "FilteredVLAN" ∷ txt "outgoing" ∷ [])
    ∷ counter "virtualNetworkAdapterDropReasons"
        "VirtualNetworkAdapterDropReasonsIncomingFilteredVLAN"
        (row_name ∷ txt "FilteredVLAN" ∷ txt "incoming" ∷ [])
    ∷ counter "virtualNetworkAdapterDropReasons" "VirtualNetworkAdapterDropReasonsOutgoingFiltered"
        (row_name ∷ txt "Filtered" ∷ txt "outgoing" ∷ [])
    ∷ counter "virtualNetworkAdapterDropReasons" "VirtualNetworkAdapterDropReasonsIncomingFiltered"
        (row_name ∷ txt "Filtered" ∷ txt "incoming" ∷ [])
    ∷ counter "virtualNetworkAdapterDropReasons" "VirtualNetworkAdapterDropReasonsOutgoingBusy"
        (row_name ∷ txt "Busy" ∷ txt "outgoing" ∷ [])
    ∷ counter "virtualNetworkAdapterDropReasons" "VirtualNetworkAdapterDropReasonsIncomingBusy"
        (row_name ∷ txt "Busy" ∷ txt "incoming" ∷ [])
    ∷ counter "virtualNetworkAdapterDropReasons"
        "VirtualNetworkAdapterDropReasonsOutgoingNotAccepted"
        (row_name ∷ txt "NotAccepted" ∷ txt "outgoing" ∷ [])
    ∷ counter "virtualNetworkAdapterDropReasons"
        "VirtualNetworkAdapterDropReasonsIncomingNotAccepted"
        (row_name ∷ txt "NotAccepted" ∷ txt "incoming" ∷ [])
    ∷ counter "virtualNetworkAdapterDropReasons"
        "VirtualNetworkAdapterDropReasonsOutgoingDisconnected"
        (row_name ∷ txt "Disconnected" ∷ txt "outgoing" ∷ [])
    ∷ counter "virtualNetworkAdapterDropReasons"
        "VirtualNetworkAdapterDropReasonsIncomingDisconnected"
        (row_name ∷ txt "Disconnected" ∷ txt "incoming" ∷ [])
    ∷ counter "virtualNetworkAdapterDropReasons" "VirtualNetworkAdapterDropReasonsOutgoingNotReady"
        (row_name ∷ txt "NotReady" ∷ txt "outgoing" ∷ [])
    ∷ counter "virtualNetworkAdapterDropReasons" "VirtualNetworkAdapterDropReasonsIncomingNotReady"
        (row_name ∷ txt "NotReady" ∷ txt "incoming" ∷ [])
    ∷ counter "virtualNetworkAdapterDropReasons" "VirtualNetworkAdapterDropReasonsOutgoingResources"
        (row_name ∷ txt "Resources" ∷ txt "outgoing" ∷ [])
    ∷ counter "virtualNetworkAdapterDropReasons" "VirtualNetworkAdapterDropReasonsIncomingResources"
        (row_name ∷ txt "Resources" ∷ txt "incoming" ∷ [])
    ∷ counter "virtualNetworkAdapterDropReasons"
        "VirtualNetworkAdapterDropReasonsOutgoingInvalidPacket"
        (row_name ∷ txt "InvalidPacket" ∷ txt "outgoing" ∷ [])
    ∷ counter "virtualNetworkAdapterDropReasons"
        "VirtualNetworkAdapterDropReasonsIncomingInvalidPacket"
        (row_name ∷ txt "InvalidPacket" ∷ txt "incoming" ∷ [])
    ∷ counter "virtualNetworkAdapterDropReasons"
        "VirtualNetworkAdapterDropReasonsOutgoingInvalidData"
        (row_name ∷ txt "InvalidData" ∷ txt "outgoing" ∷ [])
    ∷ counter "virtualNetworkAdapterDropReasons"
        "VirtualNetworkAdapterDropReasonsIncomingInvalidData"
        (row_name ∷ txt "InvalidData" ∷ txt "incoming" ∷ [])
    ∷ counter "virtualNetworkAdapterDropReasons" "VirtualNetworkAdapterDropReasonsOutgoingUnknown"
        (row_name ∷ txt "Unknown" ∷ txt "outgoing" ∷ [])
    ∷ counter "virtualNetworkAdapterDropReasons" "VirtualNetworkAdapterDropReasonsIncomingUnknown"
        (row_name ∷ txt "Unknown" ∷ txt "incoming" ∷ [])
    ∷ []

unfoldable pub hyperv_drop_reasons : RowCollector
hyperv_drop_reasons = record {
  shape = every_row;
  descriptions = descriptions;
  emissions = emissions_1 ++ emissions_2;
}
