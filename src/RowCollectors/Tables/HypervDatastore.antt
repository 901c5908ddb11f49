-- ===== src/RowCollectors/Tables/HypervDatastore.antt =====
-- collectDataStore of internal/collector/hyperv/hyperv_datastore.go, and the descriptions for it.
use windows_exporter.Base.{List, [], ◌++◌, ◌∷◌}
use windows_exporter.RowCollectors.{Desc, Emission, RowCollector, every_row, row_name}
use windows_exporter.RowCollectors.Calls.{counter, desc, gauge}

unfoldable pub descriptions_1 : List Desc
descriptions_1 =
    desc "dataStoreFragmentationRatio" "datastore_fragmentation_ratio" ("datastore" ∷ [])
    ∷ desc "dataStoreSectorSize" "datastore_sector_size_bytes" ("datastore" ∷ [])
    ∷ desc "dataStoreDataAlignment" "datastore_data_alignment_bytes" ("datastore" ∷ [])
    ∷ desc "dataStoreCurrentReplayLogSize" "datastore_current_replay_log_size_bytes"
        ("datastore" ∷ [])
    ∷ desc "dataStoreAvailableEntries" "datastore_available_entries" ("datastore" ∷ [])
    ∷ desc "dataStoreEmptyEntries" "datastore_empty_entries" ("datastore" ∷ [])
    ∷ desc "dataStoreFreeBytes" "datastore_free_bytes" ("datastore" ∷ [])
    ∷ desc "dataStoreDataEnd" "datastore_data_end_bytes" ("datastore" ∷ [])
    ∷ desc "dataStoreFileObjects" "datastore_file_objects" ("datastore" ∷ [])
    ∷ desc "dataStoreObjectTables" "datastore_object_tables" ("datastore" ∷ [])
    ∷ desc "dataStoreKeyTables" "datastore_key_tables" ("datastore" ∷ [])
    ∷ desc "dataStoreFileDataSize" "datastore_file_data_size_bytes" ("datastore" ∷ [])
    ∷ desc "dataStoreTableDataSize" "datastore_table_data_size_bytes" ("datastore" ∷ [])
    ∷ desc "dataStoreNamesSize" "datastore_names_size_bytes" ("datastore" ∷ [])
    ∷ desc "dataStoreNumberOfKeys" "datastore_number_of_keys" ("datastore" ∷ [])
    ∷ desc "dataStoreReconnectLatencyMicro" "datastore_reconnect_latency_microseconds"
        ("datastore" ∷ [])
    ∷ desc "dataStoreDisconnectCount" "datastore_disconnect_count" ("datastore" ∷ [])
    ∷ desc "dataStoreWriteToFileByteLatency" "datastore_write_to_file_byte_latency_microseconds"
        ("datastore" ∷ [])
    ∷ desc "dataStoreWriteToFileByteCount" "datastore_write_to_file_byte_count" ("datastore" ∷ [])
    ∷ desc "dataStoreWriteToFileCount" "datastore_write_to_file_count" ("datastore" ∷ [])
    ∷ desc "dataStoreReadFromFileByteLatency" "datastore_read_from_file_byte_latency_microseconds"
        ("datastore" ∷ [])
    ∷ desc "dataStoreReadFromFileByteCount" "datastore_read_from_file_byte_count" ("datastore" ∷ [])
    ∷ desc "dataStoreReadFromFileCount" "datastore_read_from_file_count" ("datastore" ∷ [])
    ∷ []

unfoldable pub descriptions_2 : List Desc
descriptions_2 =
    desc "dataStoreWriteToStorageByteLatency" "datastore_write_to_storage_byte_latency_microseconds"
      ("datastore" ∷ [])
    ∷ desc "dataStoreWriteToStorageByteCount" "datastore_write_to_storage_byte_count"
        ("datastore" ∷ [])
    ∷ desc "dataStoreWriteToStorageCount" "datastore_write_to_storage_count" ("datastore" ∷ [])
    ∷ desc "dataStoreReadFromStorageByteLatency"
        "datastore_read_from_storage_byte_latency_microseconds" ("datastore" ∷ [])
    ∷ desc "dataStoreReadFromStorageByteCount" "datastore_read_from_storage_byte_count"
        ("datastore" ∷ [])
    ∷ desc "dataStoreReadFromStorageCount" "datastore_read_from_storage_count" ("datastore" ∷ [])
    ∷ desc "dataStoreCommitByteLatency" "datastore_commit_byte_latency_microseconds"
        ("datastore" ∷ [])
    ∷ desc "dataStoreCommitByteCount" "datastore_commit_byte_count" ("datastore" ∷ [])
    ∷ desc "dataStoreCommitCount" "datastore_commit_count" ("datastore" ∷ [])
    ∷ desc "dataStoreCacheUpdateOperationLatency"
        "datastore_cache_update_operation_latency_microseconds" ("datastore" ∷ [])
    ∷ desc "dataStoreCacheUpdateOperationCount" "datastore_cache_update_operation_count"
        ("datastore" ∷ [])
    ∷ desc "dataStoreCommitOperationLatency" "datastore_commit_operation_latency_microseconds"
        ("datastore" ∷ [])
    ∷ desc "dataStoreCommitOperationCount" "datastore_commit_operation_count" ("datastore" ∷ [])
    ∷ desc "dataStoreCompactOperationLatency" "datastore_compact_operation_latency_microseconds"
        ("datastore" ∷ [])
    ∷ desc "dataStoreCompactOperationCount" "datastore_compact_operation_count" ("datastore" ∷ [])
    ∷ desc "dataStoreLoadFileOperationLatency" "datastore_load_file_operation_latency_microseconds"
        ("datastore" ∷ [])
    ∷ desc "dataStoreLoadFileOperationCount" "datastore_load_file_operation_count"
        ("datastore" ∷ [])
    ∷ desc "dataStoreRemoveOperationLatency" "datastore_remove_operation_latency_microseconds"
        ("datastore" ∷ [])
    ∷ desc "dataStoreRemoveOperationCount" "datastore_remove_operation_count" ("datastore" ∷ [])
    ∷ desc "dataStoreQuerySizeOperationLatency"
        "datastore_query_size_operation_latency_microseconds" ("datastore" ∷ [])
    ∷ desc "dataStoreQuerySizeOperationCount" "datastore_query_size_operation_count"
        ("datastore" ∷ [])
    ∷ desc "dataStoreSetOperationLatencyMicro" "datastore_set_operation_latency_microseconds"
        ("datastore" ∷ [])
    ∷ desc "dataStoreSetOperationCount" "datastore_set_operation_count" ("datastore" ∷ [])
    ∷ []

unfoldable pub emissions_1 : List Emission
emissions_1 =
    gauge "dataStoreFragmentationRatio" "DataStoreFragmentationRatio" (row_name ∷ [])
    ∷ gauge "dataStoreSectorSize" "DataStoreSectorSize" (row_name ∷ [])
    ∷ gauge "dataStoreDataAlignment" "DataStoreDataAlignment" (row_name ∷ [])
    ∷ gauge "dataStoreCurrentReplayLogSize" "DataStoreCurrentReplayLogSize" (row_name ∷ [])
    ∷ gauge "dataStoreAvailableEntries" "DataStoreAvailableEntries" (row_name ∷ [])
    ∷ gauge "dataStoreEmptyEntries" "DataStoreEmptyEntries" (row_name ∷ [])
    ∷ gauge "dataStoreFreeBytes" "DataStoreFreeBytes" (row_name ∷ [])
    ∷ gauge "dataStoreDataEnd" "DataStoreDataEnd" (row_name ∷ [])
    ∷ gauge "dataStoreFileObjects" "DataStoreFileObjects" (row_name ∷ [])
    ∷ gauge "dataStoreObjectTables" "DataStoreObjectTables" (row_name ∷ [])
    ∷ gauge "dataStoreKeyTables" "DataStoreKeyTables" (row_name ∷ [])
    ∷ gauge "dataStoreFileDataSize" "DataStoreFileDataSize" (row_name ∷ [])
    ∷ gauge "dataStoreTableDataSize" "DataStoreTableDataSize" (row_name ∷ [])
    ∷ gauge "dataStoreNamesSize" "DataStoreNamesSize" (row_name ∷ [])
    ∷ gauge "dataStoreNumberOfKeys" "DataStoreNumberOfKeys" (row_name ∷ [])
    ∷ gauge "dataStoreReconnectLatencyMicro" "DataStoreReconnectLatencyMicro" (row_name ∷ [])
    ∷ counter "dataStoreDisconnectCount" "DataStoreDisconnectCount" (row_name ∷ [])
    ∷ gauge "dataStoreWriteToFileByteLatency" "DataStoreWriteToFileByteLatency" (row_name ∷ [])
    ∷ counter "dataStoreWriteToFileByteCount" "DataStoreWriteToFileByteCount" (row_name ∷ [])
    ∷ counter "dataStoreWriteToFileCount" "DataStoreWriteToFileCount" (row_name ∷ [])
    ∷ gauge "dataStoreReadFromFileByteLatency" "DataStoreReadFromFileByteLatency" (row_name ∷ [])
    ∷ counter "dataStoreReadFromFileByteCount" "DataStoreReadFromFileByteCount" (row_name ∷ [])
    ∷ counter "dataStoreReadFromFileCount" "DataStoreReadFromFileCount" (row_name ∷ [])
    ∷ []

unfoldable pub emissions_2 : List Emission
emissions_2 =
    gauge "dataStoreWriteToStorageByteLatency" "DataStoreWriteToStorageByteLatency" (row_name ∷ [])
    ∷ counter "dataStoreWriteToStorageByteCount" "DataStoreWriteToStorageByteCount" (row_name ∷ [])
    ∷ counter "dataStoreWriteToStorageCount" "DataStoreWriteToStorageCount" (row_name ∷ [])
    ∷ gauge "dataStoreReadFromStorageByteLatency" "DataStoreReadFromStorageByteLatency"
        (row_name ∷ [])
    ∷ counter "dataStoreReadFromStorageByteCount" "DataStoreReadFromStorageByteCount"
        (row_name ∷ [])
    ∷ counter "dataStoreReadFromStorageCount" "DataStoreReadFromStorageCount" (row_name ∷ [])
    ∷ gauge "dataStoreCommitByteLatency" "DataStoreCommitByteLatency" (row_name ∷ [])
    ∷ counter "dataStoreCommitByteCount" "DataStoreCommitByteCount" (row_name ∷ [])
    ∷ counter "dataStoreCommitCount" "DataStoreCommitCount" (row_name ∷ [])
    ∷ gauge "dataStoreCacheUpdateOperationLatency" "DataStoreCacheUpdateOperationLatency"
        (row_name ∷ [])
    ∷ counter "dataStoreCacheUpdateOperationCount" "DataStoreCacheUpdateOperationCount"
        (row_name ∷ [])
    ∷ gauge "dataStoreCommitOperationLatency" "DataStoreCommitOperationLatency" (row_name ∷ [])
    ∷ counter "dataStoreCommitOperationCount" "DataStoreCommitOperationCount" (row_name ∷ [])
    ∷ gauge "dataStoreCompactOperationLatency" "DataStoreCompactOperationLatency" (row_name ∷ [])
    ∷ counter "dataStoreCompactOperationCount" "DataStoreCompactOperationCount" (row_name ∷ [])
    ∷ gauge "dataStoreLoadFileOperationLatency" "DataStoreLoadFileOperationLatency" (row_name ∷ [])
    ∷ counter "dataStoreLoadFileOperationCount" "DataStoreLoadFileOperationCount" (row_name ∷ [])
    ∷ gauge "dataStoreRemoveOperationLatency" "DataStoreRemoveOperationLatency" (row_name ∷ [])
    ∷ counter "dataStoreRemoveOperationCount" "DataStoreRemoveOperationCount" (row_name ∷ [])
    ∷ gauge "dataStoreQuerySizeOperationLatency" "DataStoreQuerySizeOperationLatency"
        (row_name ∷ [])
    ∷ counter "dataStoreQuerySizeOperationCount" "DataStoreQuerySizeOperationCount" (row_name ∷ [])
    ∷ gauge "dataStoreSetOperationLatencyMicro" "DataStoreSetOperationLatencyMicro" (row_name ∷ [])
    ∷ counter "dataStoreSetOperationCount" "DataStoreSetOperationCount" (row_name ∷ [])
    ∷ []

unfoldable pub hyperv_datastore : RowCollector
hyperv_datastore = record {
  shape = every_row;
  descriptions = descriptions_1 ++ descriptions_2;
  emissions = emissions_1 ++ emissions_2;
}
