-- ===== src/RowCollectors/Tables/Ad.antt =====
-- Collect of internal/collector/ad/ad.go, and the descriptions for it.
use windows_exporter.Base.{List, [], codes, ◌++◌, ◌∷◌}
use windows_exporter.Pdh.{counter_value, gauge_value}
use windows_exporter.RowCollectors.{Desc, Emission, RowCollector, divided, first_checked, high_low}
use windows_exporter.RowCollectors.Calls.{counter, desc, gauge, txt}

unfoldable pub descriptions_1 : List Desc
descriptions_1 =
    desc "addressBookOperationsTotal" "address_book_operations_total" ("operation" ∷ [])
    ∷ desc "addressBookClientSessions" "address_book_client_sessions" []
    ∷ desc "approximateHighestDistinguishedNameTag" "approximate_highest_distinguished_name_tag" []
    ∷ desc "atqEstimatedDelaySeconds" "atq_estimated_delay_seconds" []
    ∷ desc "atqOutstandingRequests" "atq_outstanding_requests" []
    ∷ desc "atqAverageRequestLatency" "atq_average_request_latency" []
    ∷ desc "atqCurrentThreads" "atq_current_threads" ("service" ∷ [])
    ∷ desc "searchesTotal" "searches_total" ("scope" ∷ [])
    ∷ desc "databaseOperationsTotal" "database_operations_total" ("operation" ∷ [])
    ∷ desc "bindsTotal" "binds_total" ("bind_method" ∷ [])
    ∷ desc "replicationHighestUsn" "replication_highest_usn" ("state" ∷ [])
    ∷ desc "intraSiteReplicationDataBytesTotal" "replication_data_intrasite_bytes_total"
        ("direction" ∷ [])
    ∷ desc "interSiteReplicationDataBytesTotal" "replication_data_intersite_bytes_total"
        ("direction" ∷ [])
    ∷ desc "replicationInboundSyncObjectsRemaining" "replication_inbound_sync_objects_remaining" []
    ∷ desc "replicationInboundLinkValueUpdatesRemaining"
        "replication_inbound_link_value_updates_remaining" []
    ∷ desc "replicationInboundObjectsUpdatedTotal" "replication_inbound_objects_updated_total" []
    ∷ desc "replicationInboundObjectsFilteredTotal" "replication_inbound_objects_filtered_total" []
    ∷ desc "replicationInboundPropertiesUpdatedTotal" "replication_inbound_properties_updated_total"
        []
    ∷ desc "replicationInboundPropertiesFilteredTotal"
        "replication_inbound_properties_filtered_total" []
    ∷ desc "replicationPendingOperations" "replication_pending_operations" []
    ∷ desc "replicationPendingSynchronizations" "replication_pending_synchronizations" []
    ∷ []

unfoldable pub descriptions_2 : List Desc
descriptions_2 =
    desc "replicationSyncRequestsTotal" "replication_sync_requests_total" []
    ∷ desc "replicationSyncRequestsSuccessTotal" "replication_sync_requests_success_total" []
    ∷ desc "replicationSyncRequestsSchemaMismatchFailureTotal"
        "replication_sync_requests_schema_mismatch_failure_total" []
    ∷ desc "nameTranslationsTotal" "name_translations_total" ("target_name" ∷ [])
    ∷ desc "changeMonitorsRegistered" "change_monitors_registered" []
    ∷ desc "changeMonitorUpdatesPending" "change_monitor_updates_pending" []
    ∷ desc "nameCacheHitsTotal" "name_cache_hits_total" []
    ∷ desc "nameCacheLookupsTotal" "name_cache_lookups_total" []
    ∷ desc "directoryOperationsTotal" "directory_operations_total" ("operation" ∷ "origin" ∷ [])
    ∷ desc "directorySearchSubOperationsTotal" "directory_search_suboperations_total" []
    ∷ desc "securityDescriptorPropagationEventsTotal" "security_descriptor_propagation_events_total"
        []
    ∷ desc "securityDescriptorPropagationEventsQueued"
        "security_descriptor_propagation_events_queued" []
    ∷ desc "securityDescriptorPropagationAccessWaitTotalSeconds"
        "security_descriptor_propagation_access_wait_total_seconds" []
    ∷ desc "securityDescriptorPropagationItemsQueuedTotal"
        "security_descriptor_propagation_items_queued_total" []
    ∷ desc "directoryServiceThreads" "directory_service_threads" []
    ∷ desc "ldapClosedConnectionsTotal" "ldap_closed_connections_total" []
    ∷ desc "ldapOpenedConnectionsTotal" "ldap_opened_connections_total" ("type" ∷ [])
    ∷ desc "ldapActiveThreads" "ldap_active_threads" []
    ∷ desc "ldapLastBindTimeSeconds" "ldap_last_bind_time_seconds" []
    ∷ desc "ldapSearchesTotal" "ldap_searches_total" []
    ∷ desc "ldapUdpOperationsTotal" "ldap_udp_operations_total" []
    ∷ []

unfoldable pub descriptions_3 : List Desc
descriptions_3 =
    desc "ldapWritesTotal" "ldap_writes_total" []
    ∷ desc "ldapClientSessions" "ldap_client_sessions" []
    ∷ desc "linkValuesCleanedTotal" "link_values_cleaned_total" []
    ∷ desc "phantomObjectsCleanedTotal" "phantom_objects_cleaned_total" []
    ∷ desc "phantomObjectsVisitedTotal" "phantom_objects_visited_total" []
    ∷ desc "samGroupMembershipEvaluationsTotal" "sam_group_membership_evaluations_total"
        ("group_type" ∷ [])
    ∷ desc "samGroupMembershipGlobalCatalogEvaluationsTotal"
        "sam_group_membership_global_catalog_evaluations_total" []
    ∷ desc "samGroupMembershipEvaluationsNonTransitiveTotal"
        "sam_group_membership_evaluations_nontransitive_total" []
    ∷ desc "samGroupMembershipEvaluationsTransitiveTotal"
        "sam_group_membership_evaluations_transitive_total" []
    ∷ desc "samGroupEvaluationLatency" "sam_group_evaluation_latency" ("evaluation_type" ∷ [])
    ∷ desc "samComputerCreationRequestsTotal" "sam_computer_creation_requests_total" []
    ∷ desc "samComputerCreationSuccessfulRequestsTotal"
        "sam_computer_creation_successful_requests_total" []
    ∷ desc "samUserCreationRequestsTotal" "sam_user_creation_requests_total" []
    ∷ desc "samUserCreationSuccessfulRequestsTotal" "sam_user_creation_successful_requests_total" []
    ∷ desc "samQueryDisplayRequestsTotal" "sam_query_display_requests_total" []
    ∷ desc "samEnumerationsTotal" "sam_enumerations_total" []
    ∷ desc "samMembershipChangesTotal" "sam_membership_changes_total" []
    ∷ desc "samPasswordChangesTotal" "sam_password_changes_total" []
    ∷ desc "tombstonesObjectsCollectedTotal" "tombstoned_objects_collected_total" []
    ∷ desc "tombstonesObjectsVisitedTotal" "tombstoned_objects_visited_total" []
    ∷ []

unfoldable pub emissions_1 : List Emission
emissions_1 =
    counter "addressBookOperationsTotal" "AbANRPerSec" (txt "ambiguous_name_resolution" ∷ [])
    ∷ counter "addressBookOperationsTotal" "AbBrowsesPerSec" (txt "browse" ∷ [])
    ∷ counter "addressBookOperationsTotal" "AbMatchesPerSec" (txt "find" ∷ [])
    ∷ counter "addressBookOperationsTotal" "AbPropertyReadsPerSec" (txt "property_read" ∷ [])
    ∷ counter "addressBookOperationsTotal" "AbSearchesPerSec" (txt "search" ∷ [])
    ∷ counter "addressBookOperationsTotal" "AbProxyLookupsPerSec" (txt "proxy_search" ∷ [])
    ∷ gauge "addressBookClientSessions" "AbClientSessions" []
    ∷ gauge "approximateHighestDistinguishedNameTag" "ApproximateHighestDNT" []
    ∷ record {
      variable = codes "atqEstimatedDelaySeconds";
      value_type = gauge_value;
      value = divided (codes "AtqEstimatedQueueDelay") 1000;
      labels = [];
    }
    ∷ gauge "atqOutstandingRequests" "AtqOutstandingQueuedRequests" []
    ∷ gauge "atqAverageRequestLatency" "AtqRequestLatency" []
    ∷ gauge "atqCurrentThreads" "AtqThreadsLDAP" (txt "ldap" ∷ [])
    ∷ gauge "atqCurrentThreads" "AtqThreadsOther" (txt "other" ∷ [])
    ∷ counter "searchesTotal" "BaseSearchesPerSec" (txt "base" ∷ [])
    ∷ counter "searchesTotal" "SubtreeSearchesPerSec" (txt "subtree" ∷ [])
    ∷ counter "searchesTotal" "OneLevelSearchesPerSec" (txt "one_level" ∷ [])
    ∷ counter "databaseOperationsTotal" "DatabaseAddsPerSec" (txt "add" ∷ [])
    ∷ counter "databaseOperationsTotal" "DatabaseDeletesPerSec" (txt "delete" ∷ [])
    ∷ counter "databaseOperationsTotal" "DatabaseModifiesPerSec" (txt "modify" ∷ [])
    ∷ counter "databaseOperationsTotal" "DatabaseRecyclesPerSec" (txt "recycle" ∷ [])
    ∷ counter "bindsTotal" "DigestBindsPerSec" (txt "digest" ∷ [])
    ∷ counter "bindsTotal" "DsClientBindsPerSec" (txt "ds_client" ∷ [])
    ∷ counter "bindsTotal" "DsServerBindsPerSec" (txt "ds_server" ∷ [])
    ∷ []

unfoldable pub emissions_2 : List Emission
emissions_2 =
    counter "bindsTotal" "ExternalBindsPerSec" (txt "external" ∷ [])
    ∷ counter "bindsTotal" "FastBindsPerSec" (txt "fast" ∷ [])
    ∷ counter "bindsTotal" "NegotiatedBindsPerSec" (txt "negotiate" ∷ [])
    ∷ counter "bindsTotal" "NTLMBindsPerSec" (txt "ntlm" ∷ [])
    ∷ counter "bindsTotal" "SimpleBindsPerSec" (txt "simple" ∷ [])
    ∷ counter "bindsTotal" "LdapSuccessfulBindsPerSec" (txt "ldap" ∷ [])
    ∷ record {
      variable = codes "replicationHighestUsn";
      value_type = counter_value;
      value =
          high_low (codes "DRAHighestUSNCommittedHighPart") (codes "DRAHighestUSNCommittedLowPart");
      labels = (txt "committed" ∷ []);
    }
    ∷ record {
      variable = codes "replicationHighestUsn";
      value_type = counter_value;
      value = high_low (codes "DRAHighestUSNIssuedHighPart") (codes "DRAHighestUSNIssuedLowPart");
      labels = (txt "issued" ∷ []);
    }
    ∷ counter "interSiteReplicationDataBytesTotal"
        "DRAInboundBytesCompressedBetweenSitesAfterCompressionPerSec" (txt "inbound" ∷ [])
    ∷ counter "interSiteReplicationDataBytesTotal"
        "DRAOutboundBytesCompressedBetweenSitesAfterCompressionPerSec" (txt "outbound" ∷ [])
    ∷ counter "intraSiteReplicationDataBytesTotal" "DRAInboundBytesNotCompressedWithinSitePerSec"
        (txt "inbound" ∷ [])
    ∷ counter "intraSiteReplicationDataBytesTotal" "DRAOutboundBytesNotCompressedWithinSitePerSec"
        (txt "outbound" ∷ [])
    ∷ gauge "replicationInboundSyncObjectsRemaining" "DRAInboundFullSyncObjectsRemaining" []
    ∷ gauge "replicationInboundLinkValueUpdatesRemaining"
        "DRAInboundLinkValueUpdatesRemainingInPacket" []
    ∷ counter "replicationInboundObjectsUpdatedTotal" "DRAInboundObjectsAppliedPerSec" []
    ∷ counter "replicationInboundObjectsFilteredTotal" "DRAInboundObjectsFilteredPerSec" []
    ∷ counter "replicationInboundPropertiesUpdatedTotal" "DRAInboundPropertiesAppliedPerSec" []
    ∷ counter "replicationInboundPropertiesFilteredTotal" "DRAInboundPropertiesFilteredPerSec" []
    ∷ gauge "replicationPendingOperations" "DRAPendingReplicationOperations" []
    ∷ gauge "replicationPendingSynchronizations" "DRAPendingReplicationSynchronizations" []
    ∷ counter "replicationSyncRequestsTotal" "DRASyncRequestsMade" []
    ∷ counter "replicationSyncRequestsSuccessTotal" "DRASyncRequestsSuccessful" []
    ∷ counter "replicationSyncRequestsSchemaMismatchFailureTotal" "DRASyncFailuresOnSchemaMismatch"
        []
    ∷ []

unfoldable pub emissions_3 : List Emission
emissions_3 =
    counter "nameTranslationsTotal" "DsClientNameTranslationsPerSec" (txt "client" ∷ [])
    ∷ counter "nameTranslationsTotal" "DsServerNameTranslationsPerSec" (txt "server" ∷ [])
    ∷ gauge "changeMonitorsRegistered" "DsMonitorListSize" []
    ∷ gauge "changeMonitorUpdatesPending" "DsNotifyQueueSize" []
    ∷ counter "nameCacheHitsTotal" "DsNameCacheHitRate" []
    ∷ counter "nameCacheLookupsTotal" "DsNameCacheHitRateSecondValue" []
    ∷ counter "directoryOperationsTotal" "DsPercentReadsFromDRA"
        (txt "read" ∷ txt "replication_agent" ∷ [])
    ∷ counter "directoryOperationsTotal" "DsPercentReadsFromKCC"
        (txt "read" ∷ txt "knowledge_consistency_checker" ∷ [])
    ∷ counter "directoryOperationsTotal" "DsPercentReadsFromLSA"
        (txt "read" ∷ txt "local_security_authority" ∷ [])
    ∷ counter "directoryOperationsTotal" "DsPercentReadsFromNSPI"
        (txt "read" ∷ txt "name_service_provider_interface" ∷ [])
    ∷ counter "directoryOperationsTotal" "DsPercentReadsFromNTDSAPI"
        (txt "read" ∷ txt "directory_service_api" ∷ [])
    ∷ counter "directoryOperationsTotal" "DsPercentReadsFromSAM"
        (txt "read" ∷ txt "security_account_manager" ∷ [])
    ∷ counter "directoryOperationsTotal" "DsPercentReadsOther" (txt "read" ∷ txt "other" ∷ [])
    ∷ counter "directoryOperationsTotal" "DsPercentSearchesFromDRA"
        (txt "search" ∷ txt "replication_agent" ∷ [])
    ∷ counter "directoryOperationsTotal" "DsPercentSearchesFromKCC"
        (txt "search" ∷ txt "knowledge_consistency_checker" ∷ [])
    ∷ counter "directoryOperationsTotal" "DsPercentSearchesFromLDAP"
        (txt "search" ∷ txt "ldap" ∷ [])
    ∷ counter "directoryOperationsTotal" "DsPercentSearchesFromLSA"
        (txt "search" ∷ txt "local_security_authority" ∷ [])
    ∷ counter "directoryOperationsTotal" "DsPercentSearchesFromNSPI"
        (txt "search" ∷ txt "name_service_provider_interface" ∷ [])
    ∷ counter "directoryOperationsTotal" "DsPercentSearchesFromNTDSAPI"
        (txt "search" ∷ txt "directory_service_api" ∷ [])
    ∷ counter "directoryOperationsTotal" "DsPercentSearchesFromSAM"
        (txt "search" ∷ txt "security_account_manager" ∷ [])
    ∷ counter "directoryOperationsTotal" "DsPercentSearchesOther" (txt "search" ∷ txt "other" ∷ [])
    ∷ counter "directoryOperationsTotal" "DsPercentWritesFromDRA"
        (txt "write" ∷ txt "replication_agent" ∷ [])
    ∷ counter "directoryOperationsTotal" "DsPercentWritesFromKCC"
        (txt "write" ∷ txt "knowledge_consistency_checker" ∷ [])
    ∷ []

unfoldable pub emissions_4 : List Emission
emissions_4 =
    counter "directoryOperationsTotal" "DsPercentWritesFromLDAP" (txt "write" ∷ txt "ldap" ∷ [])
    ∷ counter "directoryOperationsTotal" "DsPercentSearchesFromLSA"
        (txt "write" ∷ txt "local_security_authority" ∷ [])
    ∷ counter "directoryOperationsTotal" "DsPercentWritesFromNSPI"
        (txt "write" ∷ txt "name_service_provider_interface" ∷ [])
    ∷ counter "directoryOperationsTotal" "DsPercentWritesFromNTDSAPI"
        (txt "write" ∷ txt "directory_service_api" ∷ [])
    ∷ counter "directoryOperationsTotal" "DsPercentWritesFromSAM"
        (txt "write" ∷ txt "security_account_manager" ∷ [])
    ∷ counter "directoryOperationsTotal" "DsPercentWritesOther" (txt "write" ∷ txt "other" ∷ [])
    ∷ counter "directorySearchSubOperationsTotal" "DsSearchSubOperationsPerSec" []
    ∷ counter "securityDescriptorPropagationEventsTotal" "DsSecurityDescriptorSubOperationsPerSec"
        []
    ∷ gauge "securityDescriptorPropagationEventsQueued" "DsSecurityDescriptorPropagationsEvents" []
    ∷ gauge "securityDescriptorPropagationAccessWaitTotalSeconds"
        "DsSecurityDescriptorPropagatorAverageExclusionTime" []
    ∷ counter "securityDescriptorPropagationItemsQueuedTotal"
        "DsSecurityDescriptorPropagatorRuntimeQueue" []
    ∷ gauge "directoryServiceThreads" "DsThreadsInUse" []
    ∷ counter "ldapClosedConnectionsTotal" "LdapClosedConnectionsPerSec" []
    ∷ counter "ldapOpenedConnectionsTotal" "LdapNewConnectionsPerSec" (txt "ldap" ∷ [])
    ∷ counter "ldapOpenedConnectionsTotal" "LdapNewSSLConnectionsPerSec" (txt "ldaps" ∷ [])
    ∷ gauge "ldapActiveThreads" "LdapActiveThreads" []
    ∷ record {
      variable = codes "ldapLastBindTimeSeconds";
      value_type = gauge_value;
      value = divided (codes "LdapBindTime") 1000;
      labels = [];
    }
    ∷ counter "ldapSearchesTotal" "LdapSearchesPerSec" []
    ∷ counter "ldapUdpOperationsTotal" "LdapUDPOperationsPerSec" []
    ∷ counter "ldapWritesTotal" "LdapWritesPerSec" []
    ∷ gauge "ldapClientSessions" "LdapClientSessions" []
    ∷ counter "linkValuesCleanedTotal" "LinkValuesCleanedPerSec" []
    ∷ counter "phantomObjectsCleanedTotal" "PhantomsCleanedPerSec" []
    ∷ []

unfoldable pub emissions_5 : List Emission
emissions_5 =
    counter "phantomObjectsVisitedTotal" "PhantomsVisitedPerSec" []
    ∷ counter "samGroupMembershipEvaluationsTotal" "SamGlobalGroupMembershipEvaluationsPerSec"
        (txt "global" ∷ [])
    ∷ counter "samGroupMembershipEvaluationsTotal" "SamDomainLocalGroupMembershipEvaluationsPerSec"
        (txt "domain_local" ∷ [])
    ∷ counter "samGroupMembershipEvaluationsTotal" "SamUniversalGroupMembershipEvaluationsPerSec"
        (txt "universal" ∷ [])
    ∷ counter "samGroupMembershipGlobalCatalogEvaluationsTotal" "SamGCEvaluationsPerSec" []
    ∷ counter "samGroupMembershipEvaluationsNonTransitiveTotal"
        "SamNonTransitiveMembershipEvaluationsPerSec" []
    ∷ counter "samGroupMembershipEvaluationsTransitiveTotal"
        "SamTransitiveMembershipEvaluationsPerSec" []
    ∷ gauge "samGroupEvaluationLatency" "SamAccountGroupEvaluationLatency"
        (txt "account_group" ∷ [])
    ∷ gauge "samGroupEvaluationLatency" "SamResourceGroupEvaluationLatency"
        (txt "resource_group" ∷ [])
    ∷ counter "samComputerCreationRequestsTotal"
        "SamSuccessfulComputerCreationsPerSecIncludesAllRequests" []
    ∷ counter "samComputerCreationSuccessfulRequestsTotal" "SamMachineCreationAttemptsPerSec" []
    ∷ counter "samUserCreationRequestsTotal" "SamUserCreationAttemptsPerSec" []
    ∷ counter "samUserCreationSuccessfulRequestsTotal" "SamSuccessfulUserCreationsPerSec" []
    ∷ counter "samQueryDisplayRequestsTotal" "SamDisplayInformationQueriesPerSec" []
    ∷ counter "samEnumerationsTotal" "SamEnumerationsPerSec" []
    ∷ counter "samMembershipChangesTotal" "SamMembershipChangesPerSec" []
    ∷ counter "samPasswordChangesTotal" "SamPasswordChangesPerSec" []
    ∷ counter "tombstonesObjectsCollectedTotal" "TombstonesGarbageCollectedPerSec" []
    ∷ counter "tombstonesObjectsVisitedTotal" "TombstonesVisitedPerSec" []
    ∷ []

unfoldable pub ad : RowCollector
ad = record {
  shape = first_checked;
  descriptions = descriptions_1 ++ descriptions_2 ++ descriptions_3;
  emissions = emissions_1 ++ emissions_2 ++ emissions_3 ++ emissions_4 ++ emissions_5;
}
