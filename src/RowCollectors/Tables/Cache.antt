-- ===== src/RowCollectors/Tables/Cache.antt =====
-- Collect of internal/collector/cache/cache.go, and the descriptions for it.
use windows_exporter.Base.{List, [], ◌++◌, ◌∷◌}
use windows_exporter.RowCollectors.{Desc, Emission, RowCollector, first_checked}
use windows_exporter.RowCollectors.Calls.{counter, desc, gauge}

unfoldable pub descriptions_1 : List Desc
descriptions_1 =
    desc "asyncCopyReadsTotal" "async_copy_reads_total" []
    ∷ desc "asyncDataMapsTotal" "async_data_maps_total" []
    ∷ desc "asyncFastReadsTotal" "async_fast_reads_total" []
    ∷ desc "asyncMDLReadsTotal" "async_mdl_reads_total" []
    ∷ desc "asyncPinReadsTotal" "async_pin_reads_total" []
    ∷ desc "copyReadHitsTotal" "copy_read_hits_total" []
    ∷ desc "copyReadsTotal" "copy_reads_total" []
    ∷ desc "dataFlushesTotal" "data_flushes_total" []
    ∷ desc "dataFlushPagesTotal" "data_flush_pages_total" []
    ∷ desc "dataMapHitsPercent" "data_map_hits_percent" []
    ∷ desc "dataMapPinsTotal" "data_map_pins_total" []
    ∷ desc "dataMapsTotal" "data_maps_total" []
    ∷ desc "dirtyPages" "dirty_pages" []
    ∷ desc "dirtyPageThreshold" "dirty_page_threshold" []
    ∷ desc "fastReadNotPossiblesTotal" "fast_read_not_possibles_total" []
    ∷ []

unfoldable pub descriptions_2 : List Desc
descriptions_2 =
    desc "fastReadResourceMissesTotal" "fast_read_resource_misses_total" []
    ∷ desc "fastReadsTotal" "fast_reads_total" []
    ∷ desc "lazyWriteFlushesTotal" "lazy_write_flushes_total" []
    ∷ desc "lazyWritePagesTotal" "lazy_write_pages_total" []
    ∷ desc "mdlReadHitsTotal" "mdl_read_hits_total" []
    ∷ desc "mdlReadsTotal" "mdl_reads_total" []
    ∷ desc "pinReadHitsTotal" "pin_read_hits_total" []
    ∷ desc "pinReadsTotal" "pin_reads_total" []
    ∷ desc "readAheadsTotal" "read_aheads_total" []
    ∷ desc "syncCopyReadsTotal" "sync_copy_reads_total" []
    ∷ desc "syncDataMapsTotal" "sync_data_maps_total" []
    ∷ desc "syncFastReadsTotal" "sync_fast_reads_total" []
    ∷ desc "syncMDLReadsTotal" "sync_mdl_reads_total" []
    ∷ desc "syncPinReadsTotal" "sync_pin_reads_total" []
    ∷ []

unfoldable pub emissions_1 : List Emission
emissions_1 =
    counter "asyncCopyReadsTotal" "AsyncCopyReadsTotal" []
    ∷ counter "asyncDataMapsTotal" "AsyncDataMapsTotal" []
    ∷ counter "asyncFastReadsTotal" "AsyncFastReadsTotal" []
    ∷ counter "asyncMDLReadsTotal" "AsyncMDLReadsTotal" []
    ∷ counter "asyncPinReadsTotal" "AsyncPinReadsTotal" []
    ∷ gauge "copyReadHitsTotal" "CopyReadHitsTotal" []
    ∷ counter "copyReadsTotal" "CopyReadsTotal" []
    ∷ counter "dataFlushesTotal" "DataFlushesTotal" []
    ∷ counter "dataFlushPagesTotal" "DataFlushPagesTotal" []
    ∷ gauge "dataMapHitsPercent" "DataMapHitsPercent" []
    ∷ counter "dataMapPinsTotal" "DataMapPinsTotal" []
    ∷ counter "dataMapsTotal" "DataMapsTotal" []
    ∷ gauge "dirtyPages" "DirtyPages" []
    ∷ gauge "dirtyPageThreshold" "DirtyPageThreshold" []
    ∷ counter "fastReadNotPossiblesTotal" "FastReadNotPossiblesTotal" []
    ∷ []

unfoldable pub emissions_2 : List Emission
emissions_2 =
    counter "fastReadResourceMissesTotal" "FastReadResourceMissesTotal" []
    ∷ counter "fastReadsTotal" "FastReadsTotal" []
    ∷ counter "lazyWriteFlushesTotal" "LazyWriteFlushesTotal" []
    ∷ counter "lazyWritePagesTotal" "LazyWritePagesTotal" []
    ∷ counter "mdlReadHitsTotal" "MdlReadHitsTotal" []
    ∷ counter "mdlReadsTotal" "MdlReadsTotal" []
    ∷ counter "pinReadHitsTotal" "PinReadHitsTotal" []
    ∷ counter "pinReadsTotal" "PinReadsTotal" []
    ∷ counter "readAheadsTotal" "ReadAheadsTotal" []
    ∷ counter "syncCopyReadsTotal" "SyncCopyReadsTotal" []
    ∷ counter "syncDataMapsTotal" "SyncDataMapsTotal" []
    ∷ counter "syncFastReadsTotal" "SyncFastReadsTotal" []
    ∷ counter "syncMDLReadsTotal" "SyncMDLReadsTotal" []
    ∷ counter "syncPinReadsTotal" "SyncPinReadsTotal" []
    ∷ []

unfoldable pub cache : RowCollector
cache = record {
  shape = first_checked;
  descriptions = descriptions_1 ++ descriptions_2;
  emissions = emissions_1 ++ emissions_2;
}
