-- ===== src/RowCollectors/Tables/MssqlGeneralStatistics.antt =====
-- collectGeneralStatisticsInstance of internal/collector/mssql/mssql_general_statistics.go, and the
-- descriptions for it.
use windows_exporter.Base.{List, [], ◌∷◌}
use windows_exporter.RowCollectors.{Desc, Emission, RowCollector, first_row, instance_name}
use windows_exporter.RowCollectors.Calls.{counter, desc, gauge}

unfoldable pub descriptions : List Desc
descriptions =
    desc "genStatsActiveTempTables" "genstats_active_temp_tables" ("mssql_instance" ∷ [])
    ∷ desc "genStatsConnectionReset" "genstats_connection_resets" ("mssql_instance" ∷ [])
    ∷ desc "genStatsEventNotificationsDelayedDrop" "genstats_event_notifications_delayed_drop"
        ("mssql_instance" ∷ [])
    ∷ desc "genStatsHTTPAuthenticatedRequests" "genstats_http_authenticated_requests"
        ("mssql_instance" ∷ [])
    ∷ desc "genStatsLogicalConnections" "genstats_logical_connections" ("mssql_instance" ∷ [])
    ∷ desc "genStatsLogins" "genstats_logins" ("mssql_instance" ∷ [])
    ∷ desc "genStatsLogouts" "genstats_logouts" ("mssql_instance" ∷ [])
    ∷ desc "genStatsMarsDeadlocks" "genstats_mars_deadlocks" ("mssql_instance" ∷ [])
    ∷ desc "genStatsNonAtomicYieldRate" "genstats_non_atomic_yields" ("mssql_instance" ∷ [])
    ∷ desc "genStatsProcessesBlocked" "genstats_blocked_processes" ("mssql_instance" ∷ [])
    ∷ desc "genStatsSOAPEmptyRequests" "genstats_soap_empty_requests" ("mssql_instance" ∷ [])
    ∷ desc "genStatsSOAPMethodInvocations" "genstats_soap_method_invocations"
        ("mssql_instance" ∷ [])
    ∷ desc "genStatsSOAPSessionInitiateRequests" "genstats_soap_session_initiate_requests"
        ("mssql_instance" ∷ [])
    ∷ desc "genStatsSOAPSessionTerminateRequests" "genstats_soap_session_terminate_requests"
        ("mssql_instance" ∷ [])
    ∷ desc "genStatsSOAPSQLRequests" "genstats_soapsql_requests" ("mssql_instance" ∷ [])
    ∷ desc "genStatsSOAPWSDLRequests" "genstats_soapwsdl_requests" ("mssql_instance" ∷ [])
    ∷ desc "genStatsSQLTraceIOProviderLockWaits" "genstats_sql_trace_io_provider_lock_waits"
        ("mssql_instance" ∷ [])
    ∷ desc "genStatsTempDBRecoveryUnitID" "genstats_tempdb_recovery_unit_ids_generated"
        ("mssql_instance" ∷ [])
    ∷ desc "genStatsTempDBrowSetID" "genstats_tempdb_rowset_ids_generated" ("mssql_instance" ∷ [])
    ∷ desc "genStatsTempTablesCreationRate" "genstats_temp_tables_creations" ("mssql_instance" ∷ [])
    ∷ desc "genStatsTempTablesForDestruction" "genstats_temp_tables_awaiting_destruction"
        ("mssql_instance" ∷ [])
    ∷ desc "genStatsTraceEventNotificationQueue" "genstats_trace_event_notification_queue_size"
        ("mssql_instance" ∷ [])
    ∷ desc "genStatsTransactions" "genstats_transactions" ("mssql_instance" ∷ [])
    ∷ desc "genStatsUserConnections" "genstats_user_connections" ("mssql_instance" ∷ [])
    ∷ []

unfoldable pub emissions : List Emission
emissions =
    gauge "genStatsActiveTempTables" "GenStatsActiveTempTables" (instance_name ∷ [])
    ∷ counter "genStatsConnectionReset" "GenStatsConnectionResetPerSec" (instance_name ∷ [])
    ∷ gauge "genStatsEventNotificationsDelayedDrop" "GenStatsEventNotificationsDelayedDrop"
        (instance_name ∷ [])
    ∷ gauge "genStatsHTTPAuthenticatedRequests" "GenStatsHTTPAuthenticatedRequests"
        (instance_name ∷ [])
    ∷ gauge "genStatsLogicalConnections" "GenStatsLogicalConnections" (instance_name ∷ [])
    ∷ counter "genStatsLogins" "GenStatsLoginsPerSec" (instance_name ∷ [])
    ∷ counter "genStatsLogouts" "GenStatsLogoutsPerSec" (instance_name ∷ [])
    ∷ gauge "genStatsMarsDeadlocks" "GenStatsMarsDeadlocks" (instance_name ∷ [])
    ∷ counter "genStatsNonAtomicYieldRate" "GenStatsNonatomicYieldRate" (instance_name ∷ [])
    ∷ gauge "genStatsProcessesBlocked" "GenStatsProcessesBlocked" (instance_name ∷ [])
    ∷ gauge "genStatsSOAPEmptyRequests" "GenStatsSOAPEmptyRequests" (instance_name ∷ [])
    ∷ gauge "genStatsSOAPMethodInvocations" "GenStatsSOAPMethodInvocations" (instance_name ∷ [])
    ∷ gauge "genStatsSOAPSessionInitiateRequests" "GenStatsSOAPSessionInitiateRequests"
        (instance_name ∷ [])
    ∷ gauge "genStatsSOAPSessionTerminateRequests" "GenStatsSOAPSessionTerminateRequests"
        (instance_name ∷ [])
    ∷ gauge "genStatsSOAPSQLRequests" "GenStatsSOAPSQLRequests" (instance_name ∷ [])
    ∷ gauge "genStatsSOAPWSDLRequests" "GenStatsSOAPWSDLRequests" (instance_name ∷ [])
    ∷ gauge "genStatsSQLTraceIOProviderLockWaits" "GenStatsSQLTraceIOProviderLockWaits"
        (instance_name ∷ [])
    ∷ gauge "genStatsTempDBRecoveryUnitID" "GenStatsTempdbRecoveryUnitID" (instance_name ∷ [])
    ∷ gauge "genStatsTempDBrowSetID" "GenStatsTempdbRowsetID" (instance_name ∷ [])
    ∷ counter "genStatsTempTablesCreationRate" "GenStatsTempTablesCreationRate" (instance_name ∷ [])
    ∷ gauge "genStatsTempTablesForDestruction" "GenStatsTempTablesForDestruction"
        (instance_name ∷ [])
    ∷ gauge "genStatsTraceEventNotificationQueue" "GenStatsTraceEventNotificationQueue"
        (instance_name ∷ [])
    ∷ gauge "genStatsTransactions" "GenStatsTransactions" (instance_name ∷ [])
    ∷ gauge "genStatsUserConnections" "GenStatsUserConnections" (instance_name ∷ [])
    ∷ []

unfoldable pub mssql_general_statistics : RowCollector
mssql_general_statistics = record {
  shape = first_row;
  descriptions = descriptions;
  emissions = emissions;
}
