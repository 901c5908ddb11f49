-- ===== src/RowCollectors/Tables/MssqlWaitStats.antt =====
-- collectWaitStatsInstance of internal/collector/mssql/mssql_wait_stats.go, and the descriptions
-- for it.
use windows_exporter.Base.{List, [], ◌∷◌}
use windows_exporter.RowCollectors.{
  Desc, Emission, RowCollector, every_row, instance_name, row_name,
}
use windows_exporter.RowCollectors.Calls.{counter, desc}

unfoldable pub descriptions : List Desc
descriptions =
    desc "waitStatsLockWaits" "waitstats_lock_waits" ("mssql_instance" ∷ "item" ∷ [])
    ∷ desc "waitStatsMemoryGrantQueueWaits" "waitstats_memory_grant_queue_waits"
        ("mssql_instance" ∷ "item" ∷ [])
    ∷ desc "waitStatsThreadSafeMemoryObjectsWaits" "waitstats_thread_safe_memory_objects_waits"
        ("mssql_instance" ∷ "item" ∷ [])
    ∷ desc "waitStatsLogWriteWaits" "waitstats_log_write_waits" ("mssql_instance" ∷ "item" ∷ [])
    ∷ desc "waitStatsLogBufferWaits" "waitstats_log_buffer_waits" ("mssql_instance" ∷ "item" ∷ [])
    ∷ desc "waitStatsNetworkIOWaits" "waitstats_network_io_waits" ("mssql_instance" ∷ "item" ∷ [])
    ∷ desc "waitStatsPageIOLatchWaits" "waitstats_page_io_latch_waits"
        ("mssql_instance" ∷ "item" ∷ [])
    ∷ desc "waitStatsPageLatchWaits" "waitstats_page_latch_waits" ("mssql_instance" ∷ "item" ∷ [])
    ∷ desc "waitStatsNonPageLatchWaits" "waitstats_nonpage_latch_waits"
        ("mssql_instance" ∷ "item" ∷ [])
    ∷ desc "waitStatsWaitForTheWorkerWaits" "waitstats_wait_for_the_worker_waits"
        ("mssql_instance" ∷ "item" ∷ [])
    ∷ desc "waitStatsWorkspaceSynchronizationWaits" "waitstats_workspace_synchronization_waits"
        ("mssql_instance" ∷ "item" ∷ [])
    ∷ desc "waitStatsTransactionOwnershipWaits" "waitstats_transaction_ownership_waits"
        ("mssql_instance" ∷ "item" ∷ [])
    ∷ []

unfoldable pub emissions : List Emission
emissions =
    counter "waitStatsLockWaits" "WaitStatsLockWaits" (instance_name ∷ row_name ∷ [])
    ∷ counter "waitStatsMemoryGrantQueueWaits" "WaitStatsMemoryGrantQueueWaits"
        (instance_name ∷ row_name ∷ [])
    ∷ counter "waitStatsThreadSafeMemoryObjectsWaits" "WaitStatsThreadSafeMemoryObjectsWaits"
        (instance_name ∷ row_name ∷ [])
    ∷ counter "waitStatsLogWriteWaits" "WaitStatsLogWriteWaits" (instance_name ∷ row_name ∷ [])
    ∷ counter "waitStatsLogBufferWaits" "WaitStatsLogBufferWaits" (instance_name ∷ row_name ∷ [])
    ∷ counter "waitStatsNetworkIOWaits" "WaitStatsNetworkIOWaits" (instance_name ∷ row_name ∷ [])
    ∷ counter "waitStatsPageIOLatchWaits" "WaitStatsPageIOLatchWaits"
        (instance_name ∷ row_name ∷ [])
    ∷ counter "waitStatsPageLatchWaits" "WaitStatsPageLatchWaits" (instance_name ∷ row_name ∷ [])
    ∷ counter "waitStatsNonPageLatchWaits" "WaitStatsNonpageLatchWaits"
        (instance_name ∷ row_name ∷ [])
    ∷ counter "waitStatsWaitForTheWorkerWaits" "WaitStatsWaitForTheWorkerWaits"
        (instance_name ∷ row_name ∷ [])
    ∷ counter "waitStatsWorkspaceSynchronizationWaits" "WaitStatsWorkspaceSynchronizationWaits"
        (instance_name ∷ row_name ∷ [])
    ∷ counter "waitStatsTransactionOwnershipWaits" "WaitStatsTransactionOwnershipWaits"
        (instance_name ∷ row_name ∷ [])
    ∷ []

unfoldable pub mssql_wait_stats : RowCollector
mssql_wait_stats = record { shape = every_row; descriptions = descriptions; emissions = emissions }
