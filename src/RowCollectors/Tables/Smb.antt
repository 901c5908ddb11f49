-- ===== src/RowCollectors/Tables/Smb.antt =====
-- Collect of internal/collector/smb/smb.go, and the descriptions for it.
use windows_exporter.Base.{List, [], ◌∷◌}
use windows_exporter.RowCollectors.{Desc, Emission, RowCollector, every_row, row_name}
use windows_exporter.RowCollectors.Calls.{counter, desc}

unfoldable pub descriptions : List Desc
descriptions =
    desc "currentOpenFileCount" "server_shares_current_open_file_count" ("share" ∷ [])
    ∷ desc "treeConnectCount" "server_shares_tree_connect_count" ("share" ∷ [])
    ∷ desc "receivedBytes" "server_shares_received_bytes_total" ("share" ∷ [])
    ∷ desc "writeRequests" "server_shares_write_requests_count_total" ("share" ∷ [])
    ∷ desc "readRequests" "server_shares_read_requests_count_total" ("share" ∷ [])
    ∷ desc "metadataRequests" "server_shares_metadata_requests_count_total" ("share" ∷ [])
    ∷ desc "sentBytes" "server_shares_sent_bytes_total" ("share" ∷ [])
    ∷ desc "filesOpened" "server_shares_files_opened_count_total" ("share" ∷ [])
    ∷ []

unfoldable pub emissions : List Emission
emissions =
    counter "currentOpenFileCount" "CurrentOpenFileCount" (row_name ∷ [])
    ∷ counter "treeConnectCount" "TreeConnectCount" (row_name ∷ [])
    ∷ counter "receivedBytes" "ReceivedBytes" (row_name ∷ [])
    ∷ counter "writeRequests" "WriteRequests" (row_name ∷ [])
    ∷ counter "readRequests" "ReadRequests" (row_name ∷ [])
    ∷ counter "metadataRequests" "MetadataRequests" (row_name ∷ [])
    ∷ counter "sentBytes" "SentBytes" (row_name ∷ [])
    ∷ counter "filesOpened" "FilesOpened" (row_name ∷ [])
    ∷ []

unfoldable pub smb : RowCollector
smb = record { shape = every_row; descriptions = descriptions; emissions = emissions }
