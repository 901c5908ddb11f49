-- ===== src/RowCollectors/Tables/MssqlAccessMethods.antt =====
-- collectAccessMethodsInstance of internal/collector/mssql/mssql_access_methods.go, and the
-- descriptions for it.
use windows_exporter.Base.{List, [], ◌++◌, ◌∷◌}
use windows_exporter.RowCollectors.{Desc, Emission, RowCollector, first_row, instance_name}
use windows_exporter.RowCollectors.Calls.{counter, desc, gauge}

unfoldable pub descriptions_1 : List Desc
descriptions_1 =
    desc "accessMethodsAUcleanupbatches" "accessmethods_au_batch_cleanups" ("mssql_instance" ∷ [])
    ∷ desc "accessMethodsAUcleanups" "accessmethods_au_cleanups" ("mssql_instance" ∷ [])
    ∷ desc "accessMethodsByReferenceLobCreateCount" "accessmethods_by_reference_lob_creates"
        ("mssql_instance" ∷ [])
    ∷ desc "accessMethodsByReferenceLobUseCount" "accessmethods_by_reference_lob_uses"
        ("mssql_instance" ∷ [])
    ∷ desc "accessMethodsCountLobReadahead" "accessmethods_lob_read_aheads" ("mssql_instance" ∷ [])
    ∷ desc "accessMethodsCountPullInRow" "accessmethods_column_value_pulls" ("mssql_instance" ∷ [])
    ∷ desc "accessMethodsCountPushOffRow" "accessmethods_column_value_pushes"
        ("mssql_instance" ∷ [])
    ∷ desc "accessMethodsDeferreddroppedAUs" "accessmethods_deferred_dropped_aus"
        ("mssql_instance" ∷ [])
    ∷ desc "accessMethodsDeferredDroppedrowsets" "accessmethods_deferred_dropped_rowsets"
        ("mssql_instance" ∷ [])
    ∷ desc "accessMethodsDroppedrowsetcleanups" "accessmethods_dropped_rowset_cleanups"
        ("mssql_instance" ∷ [])
    ∷ desc "accessMethodsDroppedrowsetsskipped" "accessmethods_dropped_rowset_skips"
        ("mssql_instance" ∷ [])
    ∷ desc "accessMethodsExtentDeallocations" "accessmethods_extent_deallocations"
        ("mssql_instance" ∷ [])
    ∷ desc "accessMethodsExtentsAllocated" "accessmethods_extent_allocations"
        ("mssql_instance" ∷ [])
    ∷ desc "accessMethodsFailedAUcleanupbatches" "accessmethods_au_batch_cleanup_failures"
        ("mssql_instance" ∷ [])
    ∷ desc "accessMethodsFailedleafpagecookie" "accessmethods_leaf_page_cookie_failures"
        ("mssql_instance" ∷ [])
    ∷ desc "accessMethodsFailedtreepagecookie" "accessmethods_tree_page_cookie_failures"
        ("mssql_instance" ∷ [])
    ∷ desc "accessMethodsForwardedRecords" "accessmethods_forwarded_records" ("mssql_instance" ∷ [])
    ∷ desc "accessMethodsFreeSpacePageFetches" "accessmethods_free_space_page_fetches"
        ("mssql_instance" ∷ [])
    ∷ desc "accessMethodsFreeSpaceScans" "accessmethods_free_space_scans" ("mssql_instance" ∷ [])
    ∷ desc "accessMethodsFullScans" "accessmethods_full_scans" ("mssql_instance" ∷ [])
    ∷ desc "accessMethodsIndexSearches" "accessmethods_index_searches" ("mssql_instance" ∷ [])
    ∷ desc "accessMethodsInSysXactwaits" "accessmethods_insysxact_waits" ("mssql_instance" ∷ [])
    ∷ []

unfoldable pub descriptions_2 : List Desc
descriptions_2 =
    desc "accessMethodsLobHandleCreateCount" "accessmethods_lob_handle_creates"
      ("mssql_instance" ∷ [])
    ∷ desc "accessMethodsLobHandleDestroyCount" "accessmethods_lob_handle_destroys"
        ("mssql_instance" ∷ [])
    ∷ desc "accessMethodsLobSSProviderCreateCount" "accessmethods_lob_ss_provider_creates"
        ("mssql_instance" ∷ [])
    ∷ desc "accessMethodsLobSSProviderDestroyCount" "accessmethods_lob_ss_provider_destroys"
        ("mssql_instance" ∷ [])
    ∷ desc "accessMethodsLobSSProviderTruncationCount" "accessmethods_lob_ss_provider_truncations"
        ("mssql_instance" ∷ [])
    ∷ desc "accessMethodsMixedPageAllocations" "accessmethods_mixed_page_allocations"
        ("mssql_instance" ∷ [])
    ∷ desc "accessMethodsPageCompressionAttempts" "accessmethods_page_compression_attempts"
        ("mssql_instance" ∷ [])
    ∷ desc "accessMethodsPageDeallocations" "accessmethods_page_deallocations"
        ("mssql_instance" ∷ [])
    ∷ desc "accessMethodsPagesAllocated" "accessmethods_page_allocations" ("mssql_instance" ∷ [])
    ∷ desc "accessMethodsPagesCompressed" "accessmethods_page_compressions" ("mssql_instance" ∷ [])
    ∷ desc "accessMethodsPageSplits" "accessmethods_page_splits" ("mssql_instance" ∷ [])
    ∷ desc "accessMethodsProbeScans" "accessmethods_probe_scans" ("mssql_instance" ∷ [])
    ∷ desc "accessMethodsRangeScans" "accessmethods_range_scans" ("mssql_instance" ∷ [])
    ∷ desc "accessMethodsScanPointRevalidations" "accessmethods_scan_point_revalidations"
        ("mssql_instance" ∷ [])
    ∷ desc "accessMethodsSkippedGhostedRecords" "accessmethods_ghost_record_skips"
        ("mssql_instance" ∷ [])
    ∷ desc "accessMethodsTableLockEscalations" "accessmethods_table_lock_escalations"
        ("mssql_instance" ∷ [])
    ∷ desc "accessMethodsUsedleafpagecookie" "accessmethods_leaf_page_cookie_uses"
        ("mssql_instance" ∷ [])
    ∷ desc "accessMethodsUsedtreepagecookie" "accessmethods_tree_page_cookie_uses"
        ("mssql_instance" ∷ [])
    ∷ desc "accessMethodsWorkfilesCreated" "accessmethods_workfile_creates" ("mssql_instance" ∷ [])
    ∷ desc "accessMethodsWorktablesCreated" "accessmethods_worktables_creates"
        ("mssql_instance" ∷ [])
    ∷ desc "accessMethodsWorktablesFromCacheHits" "accessmethods_worktables_from_cache_hits"
        ("mssql_instance" ∷ [])
    ∷ desc "accessMethodsWorktablesFromCacheLookups" "accessmethods_worktables_from_cache_lookups"
        ("mssql_instance" ∷ [])
    ∷ []

unfoldable pub emissions_1 : List Emission
emissions_1 =
    counter "accessMethodsAUcleanupbatches" "AccessMethodsAUCleanupbatchesPerSec"
      (instance_name ∷ [])
    ∷ counter "accessMethodsAUcleanups" "AccessMethodsAUCleanupsPerSec" (instance_name ∷ [])
    ∷ counter "accessMethodsByReferenceLobCreateCount" "AccessMethodsByReferenceLobCreateCount"
        (instance_name ∷ [])
    ∷ counter "accessMethodsByReferenceLobUseCount" "AccessMethodsByReferenceLobUseCount"
        (instance_name ∷ [])
    ∷ counter "accessMethodsCountLobReadahead" "AccessMethodsCountLobReadahead" (instance_name ∷ [])
    ∷ counter "accessMethodsCountPullInRow" "AccessMethodsCountPullInRow" (instance_name ∷ [])
    ∷ counter "accessMethodsCountPushOffRow" "AccessMethodsCountPushOffRow" (instance_name ∷ [])
    ∷ gauge "accessMethodsDeferreddroppedAUs" "AccessMethodsDeferredDroppedAUs" (instance_name ∷ [])
    ∷ gauge "accessMethodsDeferredDroppedrowsets" "AccessMethodsDeferredDroppedRowsets"
        (instance_name ∷ [])
    ∷ counter "accessMethodsDroppedrowsetcleanups" "AccessMethodsDroppedRowsetCleanupsPerSec"
        (instance_name ∷ [])
    ∷ counter "accessMethodsDroppedrowsetsskipped" "AccessMethodsDroppedRowsetsSkippedPerSec"
        (instance_name ∷ [])
    ∷ counter "accessMethodsExtentDeallocations" "AccessMethodsExtentDeallocationsPerSec"
        (instance_name ∷ [])
    ∷ counter "accessMethodsExtentsAllocated" "AccessMethodsExtentsAllocatedPerSec"
        (instance_name ∷ [])
    ∷ counter "accessMethodsFailedAUcleanupbatches" "AccessMethodsFailedAUCleanupBatchesPerSec"
        (instance_name ∷ [])
    ∷ counter "accessMethodsFailedleafpagecookie" "AccessMethodsFailedLeafPageCookie"
        (instance_name ∷ [])
    ∷ counter "accessMethodsFailedtreepagecookie" "AccessMethodsFailedTreePageCookie"
        (instance_name ∷ [])
    ∷ counter "accessMethodsForwardedRecords" "AccessMethodsForwardedRecordsPerSec"
        (instance_name ∷ [])
    ∷ counter "accessMethodsFreeSpacePageFetches" "AccessMethodsFreeSpacePageFetchesPerSec"
        (instance_name ∷ [])
    ∷ counter "accessMethodsFreeSpaceScans" "AccessMethodsFreeSpaceScansPerSec" (instance_name ∷ [])
    ∷ counter "accessMethodsFullScans" "AccessMethodsFullScansPerSec" (instance_name ∷ [])
    ∷ counter "accessMethodsIndexSearches" "AccessMethodsIndexSearchesPerSec" (instance_name ∷ [])
    ∷ counter "accessMethodsInSysXactwaits" "AccessMethodsInSysXactWaitsPerSec" (instance_name ∷ [])
    ∷ []

unfoldable pub emissions_2 : List Emission
emissions_2 =
    counter "accessMethodsLobHandleCreateCount" "AccessMethodsLobHandleCreateCount"
      (instance_name ∷ [])
    ∷ counter "accessMethodsLobHandleDestroyCount" "AccessMethodsLobHandleDestroyCount"
        (instance_name ∷ [])
    ∷ counter "accessMethodsLobSSProviderCreateCount" "AccessMethodsLobSSProviderCreateCount"
        (instance_name ∷ [])
    ∷ counter "accessMethodsLobSSProviderDestroyCount" "AccessMethodsLobSSProviderDestroyCount"
        (instance_name ∷ [])
    ∷ counter "accessMethodsLobSSProviderTruncationCount"
        "AccessMethodsLobSSProviderTruncationCount" (instance_name ∷ [])
    ∷ counter "accessMethodsMixedPageAllocations" "AccessMethodsMixedPageAllocationsPerSec"
        (instance_name ∷ [])
    ∷ counter "accessMethodsPageCompressionAttempts" "AccessMethodsPageCompressionAttemptsPerSec"
        (instance_name ∷ [])
    ∷ counter "accessMethodsPageDeallocations" "AccessMethodsPageDeallocationsPerSec"
        (instance_name ∷ [])
    ∷ counter "accessMethodsPagesAllocated" "AccessMethodsPagesAllocatedPerSec" (instance_name ∷ [])
    ∷ counter "accessMethodsPagesCompressed" "AccessMethodsPagesCompressedPerSec"
        (instance_name ∷ [])
    ∷ counter "accessMethodsPageSplits" "AccessMethodsPageSplitsPerSec" (instance_name ∷ [])
    ∷ counter "accessMethodsProbeScans" "AccessMethodsProbeScansPerSec" (instance_name ∷ [])
    ∷ counter "accessMethodsRangeScans" "AccessMethodsRangeScansPerSec" (instance_name ∷ [])
    ∷ counter "accessMethodsScanPointRevalidations" "AccessMethodsScanPointRevalidationsPerSec"
        (instance_name ∷ [])
    ∷ counter "accessMethodsSkippedGhostedRecords" "AccessMethodsSkippedGhostedRecordsPerSec"
        (instance_name ∷ [])
    ∷ counter "accessMethodsTableLockEscalations" "AccessMethodsTableLockEscalationsPerSec"
        (instance_name ∷ [])
    ∷ counter "accessMethodsUsedleafpagecookie" "AccessMethodsUsedLeafPageCookie"
        (instance_name ∷ [])
    ∷ counter "accessMethodsUsedtreepagecookie" "AccessMethodsUsedTreePageCookie"
        (instance_name ∷ [])
    ∷ counter "accessMethodsWorkfilesCreated" "AccessMethodsWorkfilesCreatedPerSec"
        (instance_name ∷ [])
    ∷ counter "accessMethodsWorktablesCreated" "AccessMethodsWorktablesCreatedPerSec"
        (instance_name ∷ [])
    ∷ counter "accessMethodsWorktablesFromCacheHits" "AccessMethodsWorktablesFromCacheRatio"
        (instance_name ∷ [])
    ∷ counter "accessMethodsWorktablesFromCacheLookups" "AccessMethodsWorktablesFromCacheRatioBase"
        (instance_name ∷ [])
    ∷ []

unfoldable pub mssql_access_methods : RowCollector
mssql_access_methods = record {
  shape = first_row;
  descriptions = descriptions_1 ++ descriptions_2;
  emissions = emissions_1 ++ emissions_2;
}
