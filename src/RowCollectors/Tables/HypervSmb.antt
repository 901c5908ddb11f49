-- ===== src/RowCollectors/Tables/HypervSmb.antt =====
-- collectVirtualSMB of internal/collector/hyperv/hyperv_virtual_smb.go, and the descriptions for
-- it.
use windows_exporter.Base.{List, [], ◌∷◌}
use windows_exporter.RowCollectors.{Desc, Emission, RowCollector, every_row, row_name}
use windows_exporter.RowCollectors.Calls.{counter, desc, gauge}

unfoldable pub descriptions : List Desc
descriptions =
    desc "virtualSMBDirectMappedSections" "virtual_smb_direct_mapped_sections" ("instance" ∷ [])
    ∷ desc "virtualSMBDirectMappedPages" "virtual_smb_direct_mapped_pages" ("instance" ∷ [])
    ∷ desc "virtualSMBWriteBytesRDMA" "virtual_smb_write_bytes_rdma" ("instance" ∷ [])
    ∷ desc "virtualSMBWriteBytes" "virtual_smb_write_bytes" ("instance" ∷ [])
    ∷ desc "virtualSMBReadBytesRDMA" "virtual_smb_read_bytes_rdma" ("instance" ∷ [])
    ∷ desc "virtualSMBReadBytes" "virtual_smb_read_bytes" ("instance" ∷ [])
    ∷ desc "virtualSMBFlushRequests" "virtual_smb_flush_requests" ("instance" ∷ [])
    ∷ desc "virtualSMBWriteRequestsRDMA" "virtual_smb_write_requests_rdma" ("instance" ∷ [])
    ∷ desc "virtualSMBWriteRequests" "virtual_smb_write_requests" ("instance" ∷ [])
    ∷ desc "virtualSMBReadRequestsRDMA" "virtual_smb_read_requests_rdma" ("instance" ∷ [])
    ∷ desc "virtualSMBReadRequests" "virtual_smb_read_requests" ("instance" ∷ [])
    ∷ desc "virtualSMBCurrentPendingRequests" "virtual_smb_current_pending_requests"
        ("instance" ∷ [])
    ∷ desc "virtualSMBCurrentOpenFileCount" "virtual_smb_current_open_file_count" ("instance" ∷ [])
    ∷ desc "virtualSMBTreeConnectCount" "virtual_smb_tree_connect_count" ("instance" ∷ [])
    ∷ desc "virtualSMBRequests" "virtual_smb_requests" ("instance" ∷ [])
    ∷ desc "virtualSMBSentBytes" "virtual_smb_sent_bytes" ("instance" ∷ [])
    ∷ desc "virtualSMBReceivedBytes" "virtual_smb_received_bytes" ("instance" ∷ [])
    ∷ []

unfoldable pub emissions : List Emission
emissions =
    gauge "virtualSMBDirectMappedSections" "VirtualSMBDirectMappedSections" (row_name ∷ [])
    ∷ gauge "virtualSMBDirectMappedPages" "VirtualSMBDirectMappedPages" (row_name ∷ [])
    ∷ counter "virtualSMBWriteBytesRDMA" "VirtualSMBWriteBytesRDMA" (row_name ∷ [])
    ∷ counter "virtualSMBWriteBytes" "VirtualSMBWriteBytes" (row_name ∷ [])
    ∷ counter "virtualSMBReadBytesRDMA" "VirtualSMBReadBytesRDMA" (row_name ∷ [])
    ∷ counter "virtualSMBReadBytes" "VirtualSMBReadBytes" (row_name ∷ [])
    ∷ counter "virtualSMBFlushRequests" "VirtualSMBFlushRequests" (row_name ∷ [])
    ∷ counter "virtualSMBWriteRequestsRDMA" "VirtualSMBWriteRequestsRDMA" (row_name ∷ [])
    ∷ counter "virtualSMBWriteRequests" "VirtualSMBWriteRequests" (row_name ∷ [])
    ∷ counter "virtualSMBReadRequestsRDMA" "VirtualSMBReadRequestsRDMA" (row_name ∷ [])
    ∷ counter "virtualSMBReadRequests" "VirtualSMBReadRequests" (row_name ∷ [])
    ∷ gauge "virtualSMBCurrentPendingRequests" "VirtualSMBCurrentPendingRequests" (row_name ∷ [])
    ∷ gauge "virtualSMBCurrentOpenFileCount" "VirtualSMBCurrentOpenFileCount" (row_name ∷ [])
    ∷ gauge "virtualSMBTreeConnectCount" "VirtualSMBTreeConnectCount" (row_name ∷ [])
    ∷ counter "virtualSMBRequests" "VirtualSMBRequests" (row_name ∷ [])
    ∷ counter "virtualSMBSentBytes" "VirtualSMBSentBytes" (row_name ∷ [])
    ∷ counter "virtualSMBReceivedBytes" "VirtualSMBReceivedBytes" (row_name ∷ [])
    ∷ []

unfoldable pub hyperv_smb : RowCollector
hyperv_smb = record { shape = every_row; descriptions = descriptions; emissions = emissions }
