-- ===== src/Tests/Emissions.antt =====
-- Runs for the collectors that send constant metrics.
use windows_exporter.Base.{
  ℕ, ◌+◌, ◌*◌, ◌/◌, ◌^◌, ◌≡◌, refl, List, [], ◌∷◌, none, some, arith, Str, codes, get_elem?,
}
use windows_exporter.RowCollectors.{Row, Arith, collect}
use windows_exporter.RowCollectors.Tables.{row_collectors}
use windows_exporter.RowCollectors.Tables.Dns.{dns}
use windows_exporter.RowCollectors.Tables.Ad.{ad}
use windows_exporter.RowCollectors.Repeated.{series, series-collect}
use windows_exporter.RowCollectors.Tables.Smb.{smb}
use windows_exporter.RowCollectors.Accepted.{Accepted, Accepted-collect}

abbrev num : Arith ℕ
num = record { divide = λ x n. x / n; join_halves = λ high low. high * 2 ^ 32 + low }

abbrev row : Str → Row ℕ
row name = record { name = name; fields = λ x. 1 }

abbrev rows : List (Row ℕ)
rows = row (codes "a") ∷ row (codes "b") ∷ []

smb_found : get_elem? row_collectors 20 ≡ some smb
unfolding row_collectors
smb_found = refl

Accepted-collect_example : Accepted (collect num [] smb none rows)
Accepted-collect_example =
    Accepted-collect num [] 20 smb none rows smb_found ((refl, tt), (tt, tt)) (omega arith)

series-collect_example :
    (series
        (codes "zone_transfer_success_received_total")
        (codes "incremental" ∷ codes "udp" ∷ [])
        (collect num [] dns none rows)
      ≡ some 1)
    × (series
          (codes "directory_operations_total")
          (codes "write" ∷ codes "local_security_authority" ∷ [])
          (collect num [] ad none rows)
        ≡ some 1)
series-collect_example = series-collect num [] (row (codes "a")) (row (codes "b") ∷ [])
