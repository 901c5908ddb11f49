-- ===== src/RowCollectors/Tables/Dns.antt =====
-- collectMetrics of internal/collector/dns/dns.go, and the descriptions for it.
use windows_exporter.Base.{List, [], ◌++◌, ◌∷◌}
use windows_exporter.RowCollectors.{Desc, Emission, RowCollector, first_checked}
use windows_exporter.RowCollectors.Calls.{counter, desc, gauge, txt}

unfoldable pub descriptions : List Desc
descriptions =
    desc "zoneTransferRequestsReceived" "zone_transfer_requests_received_total" ("qtype" ∷ [])
    ∷ desc "zoneTransferRequestsSent" "zone_transfer_requests_sent_total" ("qtype" ∷ [])
    ∷ desc "zoneTransferResponsesReceived" "zone_transfer_response_received_total" ("qtype" ∷ [])
    ∷ desc "zoneTransferSuccessReceived" "zone_transfer_success_received_total"
        ("qtype" ∷ "protocol" ∷ [])
    ∷ desc "zoneTransferSuccessSent" "zone_transfer_success_sent_total" ("qtype" ∷ [])
    ∷ desc "zoneTransferFailures" "zone_transfer_failures_total" []
    ∷ desc "memoryUsedBytes" "memory_used_bytes" ("area" ∷ [])
    ∷ desc "dynamicUpdatesQueued" "dynamic_updates_queued" []
    ∷ desc "dynamicUpdatesReceived" "dynamic_updates_received_total" ("operation" ∷ [])
    ∷ desc "dynamicUpdatesFailures" "dynamic_updates_failures_total" ("reason" ∷ [])
    ∷ desc "notifyReceived" "notify_received_total" []
    ∷ desc "notifySent" "notify_sent_total" []
    ∷ desc "secureUpdateFailures" "secure_update_failures_total" []
    ∷ desc "secureUpdateReceived" "secure_update_received_total" []
    ∷ desc "queries" "queries_total" ("protocol" ∷ [])
    ∷ desc "responses" "responses_total" ("protocol" ∷ [])
    ∷ desc "recursiveQueries" "recursive_queries_total" []
    ∷ desc "recursiveQueryFailures" "recursive_query_failures_total" []
    ∷ desc "recursiveQuerySendTimeouts" "recursive_query_send_timeouts_total" []
    ∷ desc "winsQueries" "wins_queries_total" ("direction" ∷ [])
    ∷ desc "winsResponses" "wins_responses_total" ("direction" ∷ [])
    ∷ desc "unmatchedResponsesReceived" "unmatched_responses_total" []
    ∷ desc "dnsWMIStats" "wmi_stats_total" ("name" ∷ "collection_name" ∷ "dns_server" ∷ [])
    ∷ []

unfoldable pub emissions_1 : List Emission
emissions_1 =
    counter "zoneTransferRequestsReceived" "AxfrRequestReceived" (txt "full" ∷ [])
    ∷ counter "zoneTransferRequestsReceived" "IxfrRequestReceived" (txt "incremental" ∷ [])
    ∷ counter "zoneTransferRequestsSent" "AxfrRequestSent" (txt "full" ∷ [])
    ∷ counter "zoneTransferRequestsSent" "IxfrRequestSent" (txt "incremental" ∷ [])
    ∷ counter "zoneTransferRequestsSent" "ZoneTransferSOARequestSent" (txt "soa" ∷ [])
    ∷ counter "zoneTransferResponsesReceived" "AxfrResponseReceived" (txt "full" ∷ [])
    ∷ counter "zoneTransferResponsesReceived" "IxfrResponseReceived" (txt "incremental" ∷ [])
    ∷ counter "zoneTransferSuccessReceived" "AxfrSuccessReceived" (txt "full" ∷ txt "tcp" ∷ [])
    ∷ counter "zoneTransferSuccessReceived" "IxfrTCPSuccessReceived"
        (txt "incremental" ∷ txt "tcp" ∷ [])
    ∷ counter "zoneTransferSuccessReceived" "IxfrTCPSuccessReceived"
        (txt "incremental" ∷ txt "udp" ∷ [])
    ∷ counter "zoneTransferSuccessSent" "AxfrSuccessSent" (txt "full" ∷ [])
    ∷ counter "zoneTransferSuccessSent" "IxfrSuccessSent" (txt "incremental" ∷ [])
    ∷ counter "zoneTransferFailures" "ZoneTransferFailure" []
    ∷ gauge "memoryUsedBytes" "CachingMemory" (txt "caching" ∷ [])
    ∷ gauge "memoryUsedBytes" "DatabaseNodeMemory" (txt "database_node" ∷ [])
    ∷ gauge "memoryUsedBytes" "NbStatMemory" (txt "nbstat" ∷ [])
    ∷ gauge "memoryUsedBytes" "RecordFlowMemory" (txt "record_flow" ∷ [])
    ∷ gauge "memoryUsedBytes" "TcpMessageMemory" (txt "tcp_message" ∷ [])
    ∷ gauge "memoryUsedBytes" "UdpMessageMemory" (txt "udp_message" ∷ [])
    ∷ counter "dynamicUpdatesReceived" "DynamicUpdateNoOperation" (txt "noop" ∷ [])
    ∷ []

unfoldable pub emissions_2 : List Emission
emissions_2 =
    counter "dynamicUpdatesReceived" "DynamicUpdateWrittenToDatabase" (txt "written" ∷ [])
    ∷ gauge "dynamicUpdatesQueued" "DynamicUpdateQueued" []
    ∷ counter "dynamicUpdatesFailures" "DynamicUpdateRejected" (txt "rejected" ∷ [])
    ∷ counter "dynamicUpdatesFailures" "DynamicUpdateTimeOuts" (txt "timeout" ∷ [])
    ∷ counter "notifyReceived" "NotifyReceived" []
    ∷ counter "notifySent" "NotifySent" []
    ∷ counter "recursiveQueries" "RecursiveQueries" []
    ∷ counter "recursiveQueryFailures" "RecursiveQueryFailure" []
    ∷ counter "recursiveQuerySendTimeouts" "RecursiveSendTimeOuts" []
    ∷ counter "queries" "TcpQueryReceived" (txt "tcp" ∷ [])
    ∷ counter "queries" "UdpQueryReceived" (txt "udp" ∷ [])
    ∷ counter "responses" "TcpResponseSent" (txt "tcp" ∷ [])
    ∷ counter "responses" "UdpResponseSent" (txt "udp" ∷ [])
    ∷ counter "unmatchedResponsesReceived" "UnmatchedResponsesReceived" []
    ∷ counter "winsQueries" "WinsLookupReceived" (txt "forward" ∷ [])
    ∷ counter "winsQueries" "WinsReverseLookupReceived" (txt "reverse" ∷ [])
    ∷ counter "winsResponses" "WinsResponseSent" (txt "forward" ∷ [])
    ∷ counter "winsResponses" "WinsReverseResponseSent" (txt "reverse" ∷ [])
    ∷ counter "secureUpdateFailures" "SecureUpdateFailure" []
    ∷ counter "secureUpdateReceived" "SecureUpdateReceived" []
    ∷ []

unfoldable pub dns : RowCollector
dns = record {
  shape = first_checked;
  descriptions = descriptions;
  emissions = emissions_1 ++ emissions_2;
}
