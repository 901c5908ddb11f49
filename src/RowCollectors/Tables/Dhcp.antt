-- ===== src/RowCollectors/Tables/Dhcp.antt =====
-- collectServerMetrics of internal/collector/dhcp/dhcp.go, and the descriptions for it.
use windows_exporter.Base.{List, [], ◌++◌, ◌∷◌}
use windows_exporter.RowCollectors.{Desc, Emission, RowCollector, first_checked}
use windows_exporter.RowCollectors.Calls.{counter, desc, gauge}

unfoldable pub descriptions_1 : List Desc
descriptions_1 =
    desc "scopeInfo" "scope_info" ("name" ∷ "superscope_name" ∷ "superscope_id" ∷ "scope" ∷ [])
    ∷ desc "scopeState" "scope_state" ("scope" ∷ "state" ∷ [])
    ∷ desc "scopeAddressesFreeTotal" "scope_addresses_free" ("scope" ∷ [])
    ∷ desc "scopeAddressesFreeOnPartnerServerTotal" "scope_addresses_free_on_partner_server"
        ("scope" ∷ [])
    ∷ desc "scopeAddressesFreeOnThisServerTotal" "scope_addresses_free_on_this_server"
        ("scope" ∷ [])
    ∷ desc "scopeAddressesInUseTotal" "scope_addresses_in_use" ("scope" ∷ [])
    ∷ desc "scopeAddressesInUseOnPartnerServerTotal" "scope_addresses_in_use_on_partner_server"
        ("scope" ∷ [])
    ∷ desc "scopeAddressesInUseOnThisServerTotal" "scope_addresses_in_use_on_this_server"
        ("scope" ∷ [])
    ∷ desc "scopePendingOffersTotal" "scope_pending_offers" ("scope" ∷ [])
    ∷ desc "scopeReservedAddressTotal" "scope_reserved_address" ("scope" ∷ [])
    ∷ desc "packetsReceivedTotal" "packets_received_total" []
    ∷ desc "duplicatesDroppedTotal" "duplicates_dropped_total" []
    ∷ desc "packetsExpiredTotal" "packets_expired_total" []
    ∷ desc "activeQueueLength" "active_queue_length" []
    ∷ desc "conflictCheckQueueLength" "conflict_check_queue_length" []
    ∷ desc "discoversTotal" "discovers_total" []
    ∷ desc "offersTotal" "offers_total" []
    ∷ desc "requestsTotal" "requests_total" []
    ∷ []

unfoldable pub descriptions_2 : List Desc
descriptions_2 =
    desc "informsTotal" "informs_total" []
    ∷ desc "acksTotal" "acks_total" []
    ∷ desc "nACKsTotal" "nacks_total" []
    ∷ desc "declinesTotal" "declines_total" []
    ∷ desc "releasesTotal" "releases_total" []
    ∷ desc "offerQueueLength" "offer_queue_length" []
    ∷ desc "deniedDueToMatch" "denied_due_to_match_total" []
    ∷ desc "deniedDueToNonMatch" "denied_due_to_nonmatch_total" []
    ∷ desc "failoverBndUpdSentTotal" "failover_bndupd_sent_total" []
    ∷ desc "failoverBndUpdReceivedTotal" "failover_bndupd_received_total" []
    ∷ desc "failoverBndAckSentTotal" "failover_bndack_sent_total" []
    ∷ desc "failoverBndAckReceivedTotal" "failover_bndack_received_total" []
    ∷ desc "failoverBndUpdPendingOutboundQueue" "failover_bndupd_pending_in_outbound_queue" []
    ∷ desc "failoverTransitionsCommunicationInterruptedState"
        "failover_transitions_communicationinterrupted_state_total" []
    ∷ desc "failoverTransitionsPartnerDownState" "failover_transitions_partnerdown_state_total" []
    ∷ desc "failoverTransitionsRecoverState" "failover_transitions_recover_total" []
    ∷ desc "failoverBndUpdDropped" "failover_bndupd_dropped_total" []
    ∷ []

unfoldable pub emissions : List Emission
emissions =
    counter "packetsReceivedTotal" "PacketsReceivedTotal" []
    ∷ counter "duplicatesDroppedTotal" "DuplicatesDroppedTotal" []
    ∷ counter "packetsExpiredTotal" "PacketsExpiredTotal" []
    ∷ gauge "activeQueueLength" "ActiveQueueLength" []
    ∷ gauge "conflictCheckQueueLength" "ConflictCheckQueueLength" []
    ∷ counter "discoversTotal" "DiscoversTotal" []
    ∷ counter "offersTotal" "OffersTotal" []
    ∷ counter "requestsTotal" "RequestsTotal" []
    ∷ counter "informsTotal" "InformsTotal" []
    ∷ counter "acksTotal" "AcksTotal" []
    ∷ counter "nACKsTotal" "NacksTotal" []
    ∷ counter "declinesTotal" "DeclinesTotal" []
    ∷ counter "releasesTotal" "ReleasesTotal" []
    ∷ gauge "offerQueueLength" "OfferQueueLength" []
    ∷ counter "deniedDueToMatch" "DeniedDueToMatch" []
    ∷ counter "deniedDueToNonMatch" "DeniedDueToNonMatch" []
    ∷ counter "failoverBndUpdSentTotal" "FailoverBndUpdSentTotal" []
    ∷ counter "failoverBndUpdReceivedTotal" "FailoverBndUpdReceivedTotal" []
    ∷ counter "failoverBndAckSentTotal" "FailoverBndAckSentTotal" []
    ∷ counter "failoverBndAckReceivedTotal" "FailoverBndAckReceivedTotal" []
    ∷ gauge "failoverBndUpdPendingOutboundQueue" "FailoverBndUpdPendingOutboundQueue" []
    ∷ counter "failoverTransitionsCommunicationInterruptedState"
        "FailoverTransitionsCommunicationInterruptedState" []
    ∷ counter "failoverTransitionsPartnerDownState" "FailoverTransitionsPartnerDownState" []
    ∷ counter "failoverTransitionsRecoverState" "FailoverTransitionsRecoverState" []
    ∷ counter "failoverBndUpdDropped" "FailoverBndUpdDropped" []
    ∷ []

unfoldable pub dhcp : RowCollector
dhcp = record {
  shape = first_checked;
  descriptions = descriptions_1 ++ descriptions_2;
  emissions = emissions;
}
