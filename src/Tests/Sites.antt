-- ===== src/Tests/Sites.antt =====
-- Runs for internal/collector/iis/iis.go. An element is its name.
use windows_exporter.Base.{◌≡◌, refl, [], ◌∷◌, List, arith, Str, codes}
use windows_exporter.Iis.{before_hash, panics, deduplicate_iis_names, deduplicate_iis_names-panics}

abbrev self : Str → Str
self s = s

-- The input is sorted already.
abbrev as_is : List Str → List Str
as_is l = l

-- The comment's example, sorted.
abbrev workers : List Str
workers = codes "Total" ∷ codes "svc" ∷ codes "svc#1" ∷ []

deduplicate_iis_names-panics_example : deduplicate_iis_names self [] as_is workers ≡ panics
unfolding before_hash
deduplicate_iis_names-panics_example =
    deduplicate_iis_names-panics self [] as_is workers (codes "Total" ∷ codes "svc" ∷ [])
      (codes "svc#1") [] refl (refl, (refl, tt)) (omega arith) refl
