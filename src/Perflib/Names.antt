-- ===== src/Perflib/Names.antt =====
-- internal/pdh/registry/nametable.go, and `readUTF16String` of utf16.go: the table of counter names.
-- `utf16_to_string` is `windows.UTF16ToString`, on the bytes of the 16-bit units.
pub mod Fill
pub mod Fuel
use windows_exporter.Base.{
  ℕ, zero, suc, ◌+◌, ◌-◌, ◌*◌, ◌%◌, ◌^◌, ◌≡◌, Bool, true, false, not, ◌&&◌, List, [], ◌∷◌, ◌++◌,
  Option, none, some, arith, ◌==◌, nat_eq, nat_beq, Str, str_eq, Map, lookup, insert, length, leb,
  if◌then◌else◌,
}
use windows_exporter.Perflib.RawData.{Raw, buffer, error, two_32}

abbrev pub cons_unit : ℕ → ℕ → Option (List ℕ × List ℕ) → Option (List ℕ × List ℕ)
cons_unit b0 b1 none = none
cons_unit b0 b1 (some (units, rest)) = some (b0 ∷ b1 ∷ units, rest)

-- The loop of `readUTF16String`, with the two bytes of the buffer `b`: the bytes up to a zero unit, and what
-- follows it; `none` at the end of the input. A single last byte leaves the second one as it was.
unfoldable pub read_utf16_string : ℕ → ℕ → List ℕ → Option (List ℕ × List ℕ)
read_utf16_string b0 b1 [] = none
read_utf16_string b0 b1 (c ∷ []) = if c == 0 && b1 == 0 then some ([], []) else none
read_utf16_string b0 b1 (c ∷ d ∷ rest) =
    let later = cons_unit c d (read_utf16_string c d rest) in
    if c == 0 && d == 0 then some ([], rest) else later

-- `strconv.Atoi`: the digits, and the largest number of an int where they stand for more.
abbrev is_digit : ℕ → Bool
is_digit c = leb b'0' c && leb c b'9'

unfoldable pub digits_value : ℕ → Str → Option ℕ
digits_value n [] = some n
digits_value n (c ∷ s) = if is_digit c then digits_value (n * 10 + (c - b'0')) s else none

unfoldable pub unsigned_value : Str → Option ℕ
unsigned_value [] = none
unsigned_value (c ∷ s) = digits_value 0 (c ∷ s)

abbrev pub max_int : ℕ
max_int = 2 ^ 63 - 1

-- A sign, and what follows it.
abbrev after_sign : Str → Bool × Str
after_sign [] = (false, [])
after_sign (c ∷ s) =
    if c == b'-' then (true, s) else if c == b'+' then (false, s) else (false, c ∷ s)

-- `uint32(indexInt)`; a text that is no number gives zero.
unfoldable pub index_of : Str → ℕ
index_of s =
    let (negative, magnitude) = after_sign s in
    elim (unsigned_value magnitude) [
      | none ↦ 0
      | some n ↦
          if negative
          then (two_32 - (if leb n (max_int + 1) then n else max_int + 1) % two_32) % two_32
          else (if leb n max_int then n else max_int) % two_32
    ]

-- `table`: the names by index, and the indices by name.
pub record Tables : Type 0 where
  pub index : Map ℕ Str
  pub string : Map Str ℕ

abbrev pub no_names : Tables
no_names = record { index = []; string = [] }

-- NameTable; `done` says that `once` has run.
pub record NameTable : Type 0 where
  pub name : Str
  pub done : Bool
  pub table : Tables

unfoldable pub query_name_table : Str → NameTable
query_name_table table_name = record { name = table_name; done = false; table = no_names }

abbrev pub or_empty : Option Str → Str
or_empty none = []
or_empty (some s) = s

abbrev pub or_zero : Option ℕ → ℕ
or_zero none = 0
or_zero (some n) = n

module _ (utf16_to_string : List ℕ → Str) where
  abbrev pub add_entry : List ℕ → List ℕ → Tables → Tables
  add_entry index desc t =
      let i = index_of (utf16_to_string index) in
      record {
        index = insert i (utf16_to_string desc) t.index;
        string = insert (utf16_to_string desc) i t.string;
      }

  -- An entry: two strings, and the input behind them; `none` where one of them cannot be read.
  unfoldable pub read_entry : List ℕ → Option (List ℕ × List ℕ × List ℕ)
  read_entry input = elim (read_utf16_string 0 0 input) [
    | none ↦ none
    | some (index, rest) ↦ elim (read_utf16_string 0 0 rest) [
      | none ↦ none
      | some (desc, rest') ↦ some (index, desc, rest')
    ]
  ]

  -- The loop of `initialize`, for at most `fuel` entries.
  unfoldable pub fill_tables : ℕ → List ℕ → Tables → Tables
  fill_tables zero input t = t
  fill_tables (suc fuel) input t = elim (read_entry input) [
    | none ↦ t
    | some (index, desc, rest) ↦ fill_tables fuel rest (add_entry index desc t)
  ]

  -- `initialize`: with what `queryRawData` answers; the second part says that it panicked. `once` counts
  -- a call that panics as done.
  unfoldable pub initialize : Raw → NameTable → NameTable × Bool
  initialize raw t = if t.done then (t, false) else elim raw [
    | error e ↦ (record t { done = true; table = no_names }, true)
    | buffer bytes ↦
        (record t { done = true; table = fill_tables (length bytes) bytes no_names }, false)
  ]

  -- The table afterwards, and the name; `none` for a panic.
  unfoldable pub lookup_string : Raw → ℕ → NameTable → NameTable × Option Str
  lookup_string raw index t =
      let (u, panicked) = initialize raw t in
      (u, if panicked then none else some (or_empty (lookup index u.table.index)))

  unfoldable pub lookup_index : Raw → Str → NameTable → NameTable × Option ℕ
  lookup_index raw str t =
      let (u, panicked) = initialize raw t in
      (u, if panicked then none else some (or_zero (lookup str u.table.string)))
