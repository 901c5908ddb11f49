-- ===== src/Tests/Tables.antt =====
-- Runs for internal/pdh/registry/nametable.go.
use windows_exporter.Base.{ℕ, ◌≡◌, refl, [], ◌∷◌, List, some, Str, codes}
use windows_exporter.Perflib.RawData.{Raw, buffer, error}
use windows_exporter.Perflib.Names.{
  query_name_table, lookup_string, lookup_index, or_empty, or_zero,
}
use windows_exporter.Perflib.Names.Fill.{
  Entry, encode_entries, last_name, last_index, lookup_string-encode,
}

-- `windows.UTF16ToString` for units of ASCII.
abbrev ascii : List ℕ → Str
ascii [] = []
ascii (c ∷ []) = []
ascii (c ∷ d ∷ rest) = c ∷ ascii rest

abbrev processor : Entry
processor = (((50, 0) ∷ []), ((67, 0) ∷ (80, 0) ∷ []))

abbrev entries : List Entry
entries = processor ∷ []

abbrev registry_text : Raw
registry_text = buffer (encode_entries entries (0 ∷ 0 ∷ []))

lookup_string-encode_example :
    let (t, found) = lookup_string ascii registry_text 2 (query_name_table (codes "Counter 009")) in
    (found ≡ some (or_empty (last_name ascii 2 entries)))
    × ((lookup_index ascii (error []) (codes "CP") t).1
        ≡ some (or_zero (last_index ascii (codes "CP") entries)))
    × ((lookup_index ascii (error []) (codes "CP") t).0 ≡ t)
lookup_string-encode_example =
    lookup_string-encode ascii (codes "Counter 009") entries 2 (codes "CP") (error [])
      ((((refl, tt)), (refl, (refl, tt))), tt)

abbrev bytes : List ℕ
bytes = 50 ∷ 0 ∷ 0 ∷ 0 ∷ 67 ∷ 0 ∷ 0 ∷ 0 ∷ []
