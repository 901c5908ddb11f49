-- ===== src/RowCollectors/Repeated.antt =====
-- Fields that a collector reads twice.
use windows_exporter.Base.{
  ◌≡◌, refl, ◌&&◌, List, [], ◌∷◌, Option, none, some, ◌==◌, nat_eq, Str, str_eq, codes,
  if◌then◌else◌,
}
use windows_exporter.RowCollectors.{
  Row, Arith, Metric, Outcome, sent, fails, panics, emit, emit_all, collect_shape, collect,
}
use windows_exporter.RowCollectors.Distinct.{equal_labels}
use windows_exporter.RowCollectors.Tables.Ad.{ad}
use windows_exporter.RowCollectors.Tables.Dns.{dns}
use windows_exporter.RowCollectors.Tables.Ad
use windows_exporter.RowCollectors.Tables.Dns

-- The value of the first metric of a name with these labels.
abbrev pub find_series : {F : Type 0} → Str → List Str → List (Metric F) → Option F
find_series name labels [] = none
find_series name labels (m ∷ ms) =
    if m.name == name && equal_labels m.labels labels
    then some m.value
    else find_series name labels ms

abbrev pub series : {F : Type 0} → Str → List Str → Outcome F → Option F
series name labels (sent ms) = find_series name labels ms
series name labels (fails e) = none
series name labels panics = none

-- From any row, the incremental zone transfers by UDP are sent with the number of those by TCP, and
-- the directory writes of the local security authority with that of its searches.
pub series-collect :
    {F : Type 0}
    → (num : Arith F) (inst : Str) (row : Row F) (rows : List (Row F))
    → (series
          (codes "zone_transfer_success_received_total")
          (codes "incremental" ∷ codes "udp" ∷ [])
          (collect num inst dns none (row ∷ rows))
        ≡ some (row.fields (codes "IxfrTCPSuccessReceived")))
      × (series
            (codes "directory_operations_total")
            (codes "write" ∷ codes "local_security_authority" ∷ [])
            (collect num inst ad none (row ∷ rows))
          ≡ some (row.fields (codes "DsPercentSearchesFromLSA")))
unfolding collect collect_shape emit emit_all dns Dns.descriptions Dns.emissions_1 Dns.emissions_2
    ad Ad.descriptions_1 Ad.descriptions_2 Ad.descriptions_3 Ad.emissions_1 Ad.emissions_2
    Ad.emissions_3 Ad.emissions_4 Ad.emissions_5
series-collect num inst row rows = (refl, refl)
