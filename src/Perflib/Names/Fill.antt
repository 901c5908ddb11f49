-- ===== src/Perflib/Names/Fill.antt =====
-- What the table of names holds once it has been read.
use windows_exporter.Base.{
  ℕ, zero, suc, ◌<◌, ◌≡◌, refl, true, false, ◌&&◌, List, [], ◌∷◌, ◌++◌, Option, none, some, arith,
  ◌==◌, nat_eq, Str, str_eq, lookup, lookup-insert, length, length-append, if◌then◌else◌, All,
}
use windows_exporter.Perflib.RawData.{Raw, buffer}
use windows_exporter.Perflib.Names.{
  read_utf16_string, index_of, Tables, no_names, query_name_table, add_entry, read_entry,
  fill_tables, initialize, lookup_string, lookup_index, or_empty, or_zero,
}

-- The 16-bit units of a text, none of them zero.
abbrev pub Units : Type 0
Units = List (ℕ × ℕ)

abbrev pub AllUnits : Units → Type 0
AllUnits = All (λ u. (u.0 == 0 && u.1 == 0) ≡ false)

abbrev pub bytes_of : Units → List ℕ
bytes_of [] = []
bytes_of ((c, d) ∷ units) = c ∷ d ∷ bytes_of units

-- An entry of the registry's text, and the whole of it: each part ends with a zero unit.
abbrev pub Entry : Type 0
Entry = Units × Units

pub encode_entries : List Entry → List ℕ → List ℕ
encode_entries [] rest = rest
encode_entries ((index, desc) ∷ entries) rest =
    bytes_of index ++ (0 ∷ 0 ∷ (bytes_of desc ++ (0 ∷ 0 ∷ encode_entries entries rest)))

abbrev pub IsEntry : Entry → Type 0
IsEntry entry = AllUnits entry.0 × AllUnits entry.1

read_utf16_string-bytes_of :
    (b0 b1 : ℕ) (units : Units) (rest : List ℕ)
    → AllUnits units
    → read_utf16_string b0 b1 (bytes_of units ++ (0 ∷ 0 ∷ rest)) ≡ some (bytes_of units, rest)
unfolding read_utf16_string
read_utf16_string-bytes_of b0 b1 [] rest h = refl
read_utf16_string-bytes_of b0 b1 ((c, d) ∷ units) rest h =
    rw (h.0, read_utf16_string-bytes_of c d units rest h.1)

module _ (utf16_to_string : List ℕ → Str) where
  read_entry-encode :
      (entry : Entry) (entries : List Entry) (rest : List ℕ)
      → IsEntry entry
      → read_entry utf16_to_string (encode_entries (entry ∷ entries) rest)
        ≡ some (bytes_of entry.0, bytes_of entry.1, encode_entries entries rest)
  unfolding read_entry encode_entries
  read_entry-encode (index, desc) entries rest h =
      let behind = bytes_of desc ++ (0 ∷ 0 ∷ encode_entries entries rest) in
      rw (read_utf16_string-bytes_of 0 0 index behind h.0, read_entry)
        (rw (read_utf16_string-bytes_of 0 0 desc (encode_entries entries rest) h.1, read_entry))

  -- The entries one after the other.
  pub add_entries : List Entry → Tables → Tables
  add_entries [] t = t
  add_entries (entry ∷ entries) t =
      add_entries entries (add_entry utf16_to_string (bytes_of entry.0) (bytes_of entry.1) t)

  fill_tables-encode :
      (fuel : ℕ) (entries : List Entry) (t : Tables)
      → All IsEntry entries
      → length entries < fuel
      → fill_tables utf16_to_string fuel (encode_entries entries (0 ∷ 0 ∷ [])) t
        ≡ add_entries entries t
  unfolding fill_tables add_entries
  fill_tables-encode zero entries t h p = absurd (omega arith)
  fill_tables-encode (suc fuel) [] t h p =
      unfold encode_entries read_entry read_utf16_string in refl
  fill_tables-encode (suc fuel) (entry ∷ entries) t h p =
      rw (read_entry-encode entry entries (0 ∷ 0 ∷ []) h.0, fill_tables)
        (fill_tables-encode fuel entries
          (add_entry utf16_to_string (bytes_of entry.0) (bytes_of entry.1) t) h.1
          (omega (arith, p)))

  -- The last name that the entries give an index.
  pub last_name : ℕ → List Entry → Option Str
  last_name k [] = none
  last_name k (entry ∷ entries) = elim (last_name k entries) [
    | some s ↦ some s
    | none ↦
        if index_of (utf16_to_string (bytes_of entry.0)) == k
        then some (utf16_to_string (bytes_of entry.1))
        else none
  ]

  -- The last index that the entries give a name.
  pub last_index : Str → List Entry → Option ℕ
  last_index str [] = none
  last_index str (entry ∷ entries) = elim (last_index str entries) [
    | some n ↦ some n
    | none ↦
        if utf16_to_string (bytes_of entry.1) == str
        then some (index_of (utf16_to_string (bytes_of entry.0)))
        else none
  ]

  lookup-add_entries :
      (k : ℕ) (entries : List Entry) (t : Tables)
      → lookup k (add_entries entries t).index
        ≡ elim (last_name k entries) [ some s ↦ some s | none ↦ lookup k t.index ]
  unfolding add_entries last_name
  lookup-add_entries k [] t = refl
  lookup-add_entries k (entry ∷ entries) t =
      let i = index_of (utf16_to_string (bytes_of entry.0)) in
      let desc = utf16_to_string (bytes_of entry.1) in
      ground (
        arith,
        lookup-add_entries k entries
            (add_entry utf16_to_string (bytes_of entry.0) (bytes_of entry.1) t),
        lookup-insert i k desc t.index,
      )

  lookup-add_entries_string :
      (str : Str) (entries : List Entry) (t : Tables)
      → lookup str (add_entries entries t).string
        ≡ elim (last_index str entries) [ some n ↦ some n | none ↦ lookup str t.string ]
  unfolding add_entries last_index
  lookup-add_entries_string str [] t = refl
  lookup-add_entries_string str (entry ∷ entries) t =
      let i = index_of (utf16_to_string (bytes_of entry.0)) in
      let desc = utf16_to_string (bytes_of entry.1) in
      ground (
        arith,
        lookup-add_entries_string str entries
            (add_entry utf16_to_string (bytes_of entry.0) (bytes_of entry.1) t),
        lookup-insert desc str i t.string,
      )

  length-encode_entries :
      (entries : List Entry) → length entries < length (encode_entries entries (0 ∷ 0 ∷ []))
  unfolding encode_entries
  length-encode_entries [] = omega arith
  length-encode_entries ((index, desc) ∷ entries) =
      let behind = bytes_of desc ++ (0 ∷ 0 ∷ encode_entries entries (0 ∷ 0 ∷ [])) in
      omega (
        arith,
        length-encode_entries entries,
        length-append (bytes_of index) (0 ∷ 0 ∷ behind),
        length-append (bytes_of desc) (0 ∷ 0 ∷ encode_entries entries (0 ∷ 0 ∷ [])),
      )

  initialize-encode :
      (table_name : Str) (entries : List Entry)
      → All IsEntry entries
      → initialize utf16_to_string
          (buffer (encode_entries entries (0 ∷ 0 ∷ [])))
          (query_name_table table_name)
        ≡ (record { name = table_name; done = true; table = add_entries entries no_names }, false)
  unfolding initialize query_name_table
  initialize-encode table_name entries h =
      rw (fill_tables-encode _ entries no_names h (length-encode_entries entries))

  -- A table that the registry gives as entries, each an index and a name that end in a zero unit, and a last
  -- zero unit, is read back: an index has the last name that the entries give it and else the
  -- empty one, a name has the last index and else zero, and whatever the registry would answer later, the
  -- table is not read again.
  pub lookup_string-encode :
      (table_name : Str) (entries : List Entry) (k : ℕ) (str : Str) (later : Raw)
      → All IsEntry entries
      → let raw = buffer (encode_entries entries (0 ∷ 0 ∷ [])) in
        let (t, found) = lookup_string utf16_to_string raw k (query_name_table table_name) in
        (found ≡ some (or_empty (last_name k entries)))
        × ((lookup_index utf16_to_string later str t).1 ≡ some (or_zero (last_index str entries)))
        × ((lookup_index utf16_to_string later str t).0 ≡ t)
  unfolding lookup_string lookup_index lookup
  lookup_string-encode table_name entries k str later h =
      rw (initialize-encode table_name entries h) (
        ground (arith, lookup-add_entries k entries no_names),
        unfold initialize in ground (arith, lookup-add_entries_string str entries no_names),
        unfold initialize in refl,
      )
