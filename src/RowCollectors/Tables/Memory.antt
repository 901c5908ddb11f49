-- ===== src/RowCollectors/Tables/Memory.antt =====
-- collectPDH of internal/collector/memory/memory.go, and the descriptions for it.
use windows_exporter.Base.{List, [], ◌++◌, ◌∷◌}
use windows_exporter.RowCollectors.{Desc, Emission, RowCollector, first_checked}
use windows_exporter.RowCollectors.Calls.{counter, desc, gauge}

unfoldable pub descriptions_1 : List Desc
descriptions_1 =
    desc "availableBytes" "available_bytes" []
    ∷ desc "cacheBytes" "cache_bytes" []
    ∷ desc "cacheBytesPeak" "cache_bytes_peak" []
    ∷ desc "cacheFaultsTotal" "cache_faults_total" []
    ∷ desc "commitLimit" "commit_limit" []
    ∷ desc "committedBytes" "committed_bytes" []
    ∷ desc "demandZeroFaultsTotal" "demand_zero_faults_total" []
    ∷ desc "freeAndZeroPageListBytes" "free_and_zero_page_list_bytes" []
    ∷ desc "freeSystemPageTableEntries" "free_system_page_table_entries" []
    ∷ desc "modifiedPageListBytes" "modified_page_list_bytes" []
    ∷ desc "pageFaultsTotal" "page_faults_total" []
    ∷ desc "swapPageReadsTotal" "swap_page_reads_total" []
    ∷ desc "swapPagesReadTotal" "swap_pages_read_total" []
    ∷ desc "swapPagesWrittenTotal" "swap_pages_written_total" []
    ∷ desc "swapPageOperationsTotal" "swap_page_operations_total" []
    ∷ desc "swapPageWritesTotal" "swap_page_writes_total" []
    ∷ desc "poolNonPagedAllocationsTotal" "pool_nonpaged_allocs_total" []
    ∷ desc "poolNonPagedBytes" "pool_nonpaged_bytes" []
    ∷ []

unfoldable pub descriptions_2 : List Desc
descriptions_2 =
    desc "poolPagedAllocationsTotal" "pool_paged_allocs_total" []
    ∷ desc "poolPagedBytes" "pool_paged_bytes" []
    ∷ desc "poolPagedResidentBytes" "pool_paged_resident_bytes" []
    ∷ desc "standbyCacheCoreBytes" "standby_cache_core_bytes" []
    ∷ desc "standbyCacheNormalPriorityBytes" "standby_cache_normal_priority_bytes" []
    ∷ desc "standbyCacheReserveBytes" "standby_cache_reserve_bytes" []
    ∷ desc "systemCacheResidentBytes" "system_cache_resident_bytes" []
    ∷ desc "systemCodeResidentBytes" "system_code_resident_bytes" []
    ∷ desc "systemCodeTotalBytes" "system_code_total_bytes" []
    ∷ desc "systemDriverResidentBytes" "system_driver_resident_bytes" []
    ∷ desc "systemDriverTotalBytes" "system_driver_total_bytes" []
    ∷ desc "transitionFaultsTotal" "transition_faults_total" []
    ∷ desc "transitionPagesRepurposedTotal" "transition_pages_repurposed_total" []
    ∷ desc "writeCopiesTotal" "write_copies_total" []
    ∷ desc "processMemoryLimitBytes" "process_memory_limit_bytes" []
    ∷ desc "physicalMemoryTotalBytes" "physical_total_bytes" []
    ∷ desc "physicalMemoryFreeBytes" "physical_free_bytes" []
    ∷ []

unfoldable pub emissions_1 : List Emission
emissions_1 =
    gauge "availableBytes" "AvailableBytes" []
    ∷ gauge "cacheBytes" "CacheBytes" []
    ∷ gauge "cacheBytesPeak" "CacheBytesPeak" []
    ∷ counter "cacheFaultsTotal" "CacheFaultsPerSec" []
    ∷ gauge "commitLimit" "CommitLimit" []
    ∷ gauge "committedBytes" "CommittedBytes" []
    ∷ counter "demandZeroFaultsTotal" "DemandZeroFaultsPerSec" []
    ∷ gauge "freeAndZeroPageListBytes" "FreeAndZeroPageListBytes" []
    ∷ gauge "freeSystemPageTableEntries" "FreeSystemPageTableEntries" []
    ∷ gauge "modifiedPageListBytes" "ModifiedPageListBytes" []
    ∷ counter "pageFaultsTotal" "PageFaultsPerSec" []
    ∷ counter "swapPageReadsTotal" "PageReadsPerSec" []
    ∷ counter "swapPagesReadTotal" "PagesInputPerSec" []
    ∷ counter "swapPagesWrittenTotal" "PagesOutputPerSec" []
    ∷ counter "swapPageOperationsTotal" "PagesPerSec" []
    ∷ counter "swapPageWritesTotal" "PageWritesPerSec" []
    ∷ []

unfoldable pub emissions_2 : List Emission
emissions_2 =
    gauge "poolNonPagedAllocationsTotal" "PoolNonpagedAllocs" []
    ∷ gauge "poolNonPagedBytes" "PoolNonpagedBytes" []
    ∷ counter "poolPagedAllocationsTotal" "PoolPagedAllocs" []
    ∷ gauge "poolPagedBytes" "PoolPagedBytes" []
    ∷ gauge "poolPagedResidentBytes" "PoolPagedResidentBytes" []
    ∷ gauge "standbyCacheCoreBytes" "StandbyCacheCoreBytes" []
    ∷ gauge "standbyCacheNormalPriorityBytes" "StandbyCacheNormalPriorityBytes" []
    ∷ gauge "standbyCacheReserveBytes" "StandbyCacheReserveBytes" []
    ∷ gauge "systemCacheResidentBytes" "SystemCacheResidentBytes" []
    ∷ gauge "systemCodeResidentBytes" "SystemCodeResidentBytes" []
    ∷ gauge "systemCodeTotalBytes" "SystemCodeTotalBytes" []
    ∷ gauge "systemDriverResidentBytes" "SystemDriverResidentBytes" []
    ∷ gauge "systemDriverTotalBytes" "SystemDriverTotalBytes" []
    ∷ counter "transitionFaultsTotal" "TransitionFaultsPerSec" []
    ∷ counter "transitionPagesRepurposedTotal" "TransitionPagesRePurposedPerSec" []
    ∷ counter "writeCopiesTotal" "WriteCopiesPerSec" []
    ∷ []

unfoldable pub memory : RowCollector
memory = record {
  shape = first_checked;
  descriptions = descriptions_1 ++ descriptions_2;
  emissions = emissions_1 ++ emissions_2;
}
