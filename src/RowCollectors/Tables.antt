-- ===== src/RowCollectors/Tables.antt =====
-- The collectors that are modelled. Their lists pass the tests.
pub mod Ad
pub mod Cache
pub mod Dhcp
pub mod Dns
pub mod HypervDatastore
pub mod HypervRootPartition
pub mod HypervLegacyNetworkAdapter
pub mod HypervHealthSummary
pub mod HypervVidPartition
pub mod HypervNetworkAdapter
pub mod HypervDropReasons
pub mod HypervSmb
pub mod HypervStorageDevice
pub mod HypervSwitch
pub mod Memory
pub mod Msmq
pub mod MssqlAccessMethods
pub mod MssqlGeneralStatistics
pub mod MssqlSqlStats
pub mod MssqlWaitStats
pub mod Smb
use windows_exporter.Base.{ℕ, ◌≡◌, refl, Bool, true, List, [], ◌∷◌, Option, some, get_elem?}
use windows_exporter.RowCollectors.{RowCollector}
use windows_exporter.RowCollectors.Calls.{every, is_sound}
use windows_exporter.RowCollectors.Tables.Ad.{ad}
use windows_exporter.RowCollectors.Tables.Ad
use windows_exporter.RowCollectors.Tables.Cache.{cache}
use windows_exporter.RowCollectors.Tables.Cache
use windows_exporter.RowCollectors.Tables.Dhcp.{dhcp}
use windows_exporter.RowCollectors.Tables.Dhcp
use windows_exporter.RowCollectors.Tables.Dns.{dns}
use windows_exporter.RowCollectors.Tables.Dns
use windows_exporter.RowCollectors.Tables.HypervDatastore.{hyperv_datastore}
use windows_exporter.RowCollectors.Tables.HypervDatastore
use windows_exporter.RowCollectors.Tables.HypervRootPartition.{hyperv_root_partition}
use windows_exporter.RowCollectors.Tables.HypervRootPartition
use windows_exporter.RowCollectors.Tables.HypervLegacyNetworkAdapter.{hyperv_legacy_network_adapter}
use windows_exporter.RowCollectors.Tables.HypervLegacyNetworkAdapter
use windows_exporter.RowCollectors.Tables.HypervHealthSummary.{hyperv_health_summary}
use windows_exporter.RowCollectors.Tables.HypervHealthSummary
use windows_exporter.RowCollectors.Tables.HypervVidPartition.{hyperv_vid_partition}
use windows_exporter.RowCollectors.Tables.HypervVidPartition
use windows_exporter.RowCollectors.Tables.HypervNetworkAdapter.{hyperv_network_adapter}
use windows_exporter.RowCollectors.Tables.HypervNetworkAdapter
use windows_exporter.RowCollectors.Tables.HypervDropReasons.{hyperv_drop_reasons}
use windows_exporter.RowCollectors.Tables.HypervDropReasons
use windows_exporter.RowCollectors.Tables.HypervSmb.{hyperv_smb}
use windows_exporter.RowCollectors.Tables.HypervSmb
use windows_exporter.RowCollectors.Tables.HypervStorageDevice.{hyperv_storage_device}
use windows_exporter.RowCollectors.Tables.HypervStorageDevice
use windows_exporter.RowCollectors.Tables.HypervSwitch.{hyperv_switch}
use windows_exporter.RowCollectors.Tables.HypervSwitch
use windows_exporter.RowCollectors.Tables.Memory.{memory}
use windows_exporter.RowCollectors.Tables.Memory
use windows_exporter.RowCollectors.Tables.Msmq.{msmq}
use windows_exporter.RowCollectors.Tables.Msmq
use windows_exporter.RowCollectors.Tables.MssqlAccessMethods.{mssql_access_methods}
use windows_exporter.RowCollectors.Tables.MssqlAccessMethods
use windows_exporter.RowCollectors.Tables.MssqlGeneralStatistics.{mssql_general_statistics}
use windows_exporter.RowCollectors.Tables.MssqlGeneralStatistics
use windows_exporter.RowCollectors.Tables.MssqlSqlStats.{mssql_sql_stats}
use windows_exporter.RowCollectors.Tables.MssqlSqlStats
use windows_exporter.RowCollectors.Tables.MssqlWaitStats.{mssql_wait_stats}
use windows_exporter.RowCollectors.Tables.MssqlWaitStats
use windows_exporter.RowCollectors.Tables.Smb.{smb}
use windows_exporter.RowCollectors.Tables.Smb

-- The collectors.
unfoldable pub row_collectors : List RowCollector
row_collectors =
    ad ∷ cache ∷ dhcp ∷ dns ∷ hyperv_datastore ∷ hyperv_root_partition
    ∷ hyperv_legacy_network_adapter ∷ hyperv_health_summary ∷ hyperv_vid_partition
    ∷ hyperv_network_adapter ∷ hyperv_drop_reasons ∷ hyperv_smb ∷ hyperv_storage_device
    ∷ hyperv_switch ∷ memory ∷ msmq ∷ mssql_access_methods ∷ mssql_general_statistics
    ∷ mssql_sql_stats ∷ mssql_wait_stats ∷ smb ∷ []

is_sound-ad : is_sound ad ≡ true
unfolding is_sound ad Ad.descriptions_1 Ad.descriptions_2 Ad.descriptions_3 Ad.emissions_1
    Ad.emissions_2 Ad.emissions_3 Ad.emissions_4 Ad.emissions_5
is_sound-ad = refl

is_sound-cache : is_sound cache ≡ true
unfolding is_sound cache Cache.descriptions_1 Cache.descriptions_2 Cache.emissions_1
    Cache.emissions_2
is_sound-cache = refl

is_sound-dhcp : is_sound dhcp ≡ true
unfolding is_sound dhcp Dhcp.descriptions_1 Dhcp.descriptions_2 Dhcp.emissions
is_sound-dhcp = refl

is_sound-dns : is_sound dns ≡ true
unfolding is_sound dns Dns.descriptions Dns.emissions_1 Dns.emissions_2
is_sound-dns = refl

is_sound-hyperv_datastore : is_sound hyperv_datastore ≡ true
unfolding is_sound hyperv_datastore HypervDatastore.descriptions_1 HypervDatastore.descriptions_2
    HypervDatastore.emissions_1 HypervDatastore.emissions_2
is_sound-hyperv_datastore = refl

is_sound-hyperv_root_partition : is_sound hyperv_root_partition ≡ true
unfolding is_sound hyperv_root_partition HypervRootPartition.descriptions
    HypervRootPartition.emissions
is_sound-hyperv_root_partition = refl

is_sound-hyperv_legacy_network_adapter : is_sound hyperv_legacy_network_adapter ≡ true
unfolding is_sound hyperv_legacy_network_adapter HypervLegacyNetworkAdapter.descriptions
    HypervLegacyNetworkAdapter.emissions
is_sound-hyperv_legacy_network_adapter = refl

is_sound-hyperv_health_summary : is_sound hyperv_health_summary ≡ true
unfolding is_sound hyperv_health_summary HypervHealthSummary.descriptions
    HypervHealthSummary.emissions
is_sound-hyperv_health_summary = refl

is_sound-hyperv_vid_partition : is_sound hyperv_vid_partition ≡ true
unfolding is_sound hyperv_vid_partition HypervVidPartition.descriptions HypervVidPartition.emissions
is_sound-hyperv_vid_partition = refl

is_sound-hyperv_network_adapter : is_sound hyperv_network_adapter ≡ true
unfolding is_sound hyperv_network_adapter HypervNetworkAdapter.descriptions
    HypervNetworkAdapter.emissions
is_sound-hyperv_network_adapter = refl

is_sound-hyperv_drop_reasons : is_sound hyperv_drop_reasons ≡ true
unfolding is_sound hyperv_drop_reasons HypervDropReasons.descriptions HypervDropReasons.emissions_1
    HypervDropReasons.emissions_2
is_sound-hyperv_drop_reasons = refl

is_sound-hyperv_smb : is_sound hyperv_smb ≡ true
unfolding is_sound hyperv_smb HypervSmb.descriptions HypervSmb.emissions
is_sound-hyperv_smb = refl

is_sound-hyperv_storage_device : is_sound hyperv_storage_device ≡ true
unfolding is_sound hyperv_storage_device HypervStorageDevice.descriptions
    HypervStorageDevice.emissions
is_sound-hyperv_storage_device = refl

is_sound-hyperv_switch : is_sound hyperv_switch ≡ true
unfolding is_sound hyperv_switch HypervSwitch.descriptions HypervSwitch.emissions
is_sound-hyperv_switch = refl

is_sound-memory : is_sound memory ≡ true
unfolding is_sound memory Memory.descriptions_1 Memory.descriptions_2 Memory.emissions_1
    Memory.emissions_2
is_sound-memory = refl

is_sound-msmq : is_sound msmq ≡ true
unfolding is_sound msmq Msmq.descriptions Msmq.emissions
is_sound-msmq = refl

is_sound-mssql_access_methods : is_sound mssql_access_methods ≡ true
unfolding is_sound mssql_access_methods MssqlAccessMethods.descriptions_1
    MssqlAccessMethods.descriptions_2 MssqlAccessMethods.emissions_1 MssqlAccessMethods.emissions_2
is_sound-mssql_access_methods = refl

is_sound-mssql_general_statistics : is_sound mssql_general_statistics ≡ true
unfolding is_sound mssql_general_statistics MssqlGeneralStatistics.descriptions
    MssqlGeneralStatistics.emissions
is_sound-mssql_general_statistics = refl

is_sound-mssql_sql_stats : is_sound mssql_sql_stats ≡ true
unfolding is_sound mssql_sql_stats MssqlSqlStats.descriptions MssqlSqlStats.emissions
is_sound-mssql_sql_stats = refl

is_sound-mssql_wait_stats : is_sound mssql_wait_stats ≡ true
unfolding is_sound mssql_wait_stats MssqlWaitStats.descriptions MssqlWaitStats.emissions
is_sound-mssql_wait_stats = refl

is_sound-smb : is_sound smb ≡ true
unfolding is_sound smb Smb.descriptions Smb.emissions
is_sound-smb = refl

pub every-row_collectors : every row_collectors is_sound ≡ true
unfolding row_collectors
every-row_collectors =
    rw
      (
        is_sound-ad, is_sound-cache, is_sound-dhcp, is_sound-dns, is_sound-hyperv_datastore,
        is_sound-hyperv_root_partition, is_sound-hyperv_legacy_network_adapter,
        is_sound-hyperv_health_summary, is_sound-hyperv_vid_partition,
        is_sound-hyperv_network_adapter, is_sound-hyperv_drop_reasons, is_sound-hyperv_smb,
        is_sound-hyperv_storage_device, is_sound-hyperv_switch, is_sound-memory, is_sound-msmq,
        is_sound-mssql_access_methods, is_sound-mssql_general_statistics, is_sound-mssql_sql_stats,
        is_sound-mssql_wait_stats, is_sound-smb,
      )
      refl
