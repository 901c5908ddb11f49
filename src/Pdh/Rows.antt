-- ===== src/Pdh/Rows.antt =====
-- The rows of a result stand for distinct instances.
use windows_exporter.Base.{
  ℕ, zero, suc, ◌≡◌, refl, sym, ap, ◌∙◌, true, false, not, ◌&&◌, ◌||◌, ◌==◌, List, [], ◌∷◌, ◌++◌,
  Option, none, some, arith, Str, str_eq, has_suffix, Map, lookup, insert, keys, Distinct,
  Distinct-insert, if◌then◌else◌, length, Bool-cases, inl, inr, All, All-append, Option-cases,
  nat_eq,
}
use windows_exporter.Perflib.Bytes.{ℤ}
use windows_exporter.Pdh.{
  set_optional, plain, ticks, elapsed, double, raw, formatted, Reading, ValueType, Item, write_raw,
  instance_name, is_valid, reading_type, add_reading, CounterDef, Row, Settings, Table, set_field,
  write_item, display_name, find_row, add_item, add_items, instance_total, instance_empty,
  FieldValue, is_zero, perf_elapsed_time, perf_100nsec_timer, perf_precision_100ns_timer,
}

-- The names of rows, and those that rows have for given instances.
unfoldable pub row_names : List Row → List (Option Str)
row_names [] = []
row_names (row ∷ rows) = row.name ∷ row_names rows

abbrev row_name : Settings → Str → Option Str
row_name settings name = if settings.has_name then some name else none

pub names_for : Settings → List Str → List (Option Str)
names_for settings [] = []
names_for settings (name ∷ names) = row_name settings name ∷ names_for settings names

-- Not the name of an aggregate, unless aggregates are asked for.
abbrev pub IsShown : Settings → Str → Type 0
IsShown settings name = (has_suffix name instance_total && not settings.total_requested) ≡ false

-- The rows stand for the instances of `indexMap`, which are distinct and are to be shown.
pub record IsTable (settings : Settings) (t : Table) : Type 0 where
  pub named : row_names t.rows ≡ names_for settings (keys t.index_map)
  pub distinct : Distinct t.index_map
  pub shown : All (IsShown settings) (keys t.index_map)

row_names-set_field :
    (index field : ℕ) (v : FieldValue) (rows : List Row)
    → row_names (set_field index field v rows) ≡ row_names rows
unfolding set_field row_names
row_names-set_field index field v [] = refl
row_names-set_field zero field v (row ∷ rows) = refl
row_names-set_field (suc index) field v (row ∷ rows) =
    ap (λ l. row.name ∷ l) (row_names-set_field index field v rows)

pub row_names-set_optional :
    (index : ℕ) (field : Option ℕ) (v : FieldValue) (rows : List Row)
    → row_names (set_optional index field v rows) ≡ row_names rows
row_names-set_optional index none v rows = refl
row_names-set_optional index (some field) v rows = row_names-set_field index field v rows

-- A counter for which the `switch` does not panic: an elapsed time or a timer has a field for its value,
-- and an elapsed time a frequency.
pub record CanWrite (c : CounterDef) : Type 0 where
  pub has_field :
      (c.type == perf_elapsed_time
          || (c.type == perf_100nsec_timer || c.type == perf_precision_100ns_timer))
        ≡ true
      → (field : ℕ) × (c.field_index_value ≡ some field)
  pub has_frequency : (c.type == perf_elapsed_time) ≡ true → is_zero c.frequency ≡ false

-- The rows that are written, with the names they had.
abbrev pub Written : List Row → Option (List Row) → Type 0
Written rows r = (next : List Row) × (r ≡ some next) × (row_names next ≡ row_names rows)

pub Written-set_field :
    (index field : ℕ) (v : FieldValue) (rows : List Row)
    → Written rows (some (set_field index field v rows))
Written-set_field index field v rows =
    (set_field index field v rows, refl, row_names-set_field index field v rows)

Written-write_raw :
    (c : CounterDef) (first second : ℤ) (index : ℕ) (rows : List Row)
    → CanWrite c
    → Written rows (write_raw c first second index rows)
unfolding write_raw
Written-write_raw c first second index rows k = elim (Bool-cases (c.type == perf_elapsed_time)) [
  | inl e ↦
      let (field, f) = k.has_field (ground arith) in
      rw (e, k.has_frequency e, f)
        (Written-set_field index field (elapsed second first c.frequency) rows)
  | inr e ↦
      elim (Bool-cases (c.type == perf_100nsec_timer || c.type == perf_precision_100ns_timer)) [
        | inl t ↦
            let (field, f) = k.has_field (ground arith) in
            rw (e, t, f) (Written-set_field index field (ticks first) rows)
        | inr t ↦
            let inner = set_optional index c.field_index_second_value (plain second) rows in
            rw (e, t)
              (
                set_optional index c.field_index_value (plain first) inner,
                refl,
                row_names-set_optional index c.field_index_value (plain first) inner
                    ∙ row_names-set_optional index c.field_index_second_value (plain second) rows,
              )
      ]
]

Written-write_item :
    (c : CounterDef) (reading : Reading) (index : ℕ) (rows : List Row)
    → CanWrite c
    → Written rows (write_item c reading index rows)
Written-write_item c (raw first second) index rows k = Written-write_raw c first second index rows k
Written-write_item c (formatted bits) index rows k = (
  set_optional index c.field_index_value (double bits) rows,
  refl,
  row_names-set_optional index c.field_index_value (double bits) rows,
)

keys-insert_new :
    (name : Str) (i : ℕ) (m : Map Str ℕ)
    → lookup name m ≡ none
    → keys (insert name i m) ≡ keys m ++ name ∷ []
unfolding lookup insert keys
keys-insert_new name i [] h = refl
keys-insert_new name i ((k, j) ∷ m) h = ground (arith, keys-insert_new name i m)

pub row_names-append : (xs ys : List Row) → row_names (xs ++ ys) ≡ row_names xs ++ row_names ys
unfolding row_names
row_names-append [] ys = refl
row_names-append (x ∷ xs) ys = ap (λ l. x.name ∷ l) (row_names-append xs ys)

names_for-append :
    (settings : Settings) (xs ys : List Str)
    → names_for settings (xs ++ ys) ≡ names_for settings xs ++ names_for settings ys
unfolding names_for
names_for-append settings [] ys = refl
names_for-append settings (x ∷ xs) ys =
    ap (λ l. row_name settings x ∷ l) (names_for-append settings xs ys)

empty_shown : has_suffix instance_empty instance_total ≡ false
unfolding has_suffix
empty_shown = refl

IsShown-display_name :
    (settings : Settings) (name shown : Str)
    → display_name settings name ≡ some shown
    → IsShown settings shown
unfolding display_name
IsShown-display_name settings name shown h = ground (arith, empty_shown)

IsTable-new :
    (settings : Settings) (type : ValueType) (name : Str) (t : Table)
    → lookup name t.index_map ≡ none
    → IsShown settings name
    → IsTable settings t
    → IsTable settings (find_row settings type name t).1
unfolding find_row
IsTable-new settings type name t e s h =
    let row : Row = record {
      name = row_name settings name;
      metric_type = if settings.has_metric_type then some type else none;
      fields = [];
    } in
    rw (e, find_row)
      (record {
        named =
            unfold row_names names_for in
            (row_names-append t.rows (row ∷ [])
              ∙ ap (λ l. l ++ row_name settings name ∷ []) h.named
              ∙ sym (names_for-append settings (keys t.index_map) (name ∷ []))
              ∙ ap (names_for settings) (sym (keys-insert_new name (length t.rows) t.index_map e)));
        distinct = Distinct-insert name (length t.rows) t.index_map h.distinct;
        shown =
            rw (keys-insert_new name (length t.rows) t.index_map e)
              (All-append (IsShown settings) (keys t.index_map) (name ∷ []) h.shown (s, tt));
      })

IsTable-find_row :
    (settings : Settings) (type : ValueType) (name : Str) (t : Table)
    → IsShown settings name
    → IsTable settings t
    → IsTable settings (find_row settings type name t).1
unfolding find_row
IsTable-find_row settings type name t s h = elim (Option-cases (lookup name t.index_map)) [
  | inl e ↦ IsTable-new settings type name t e s h
  | inr (i, e) ↦ rw (e, find_row) h
]

-- There is no panic, and the table is sound.
abbrev pub IsMade : Settings → Option Table → Type 0
IsMade settings none = ⊥
IsMade settings (some t) = IsTable settings t

IsMade-add_reading :
    (settings : Settings) (c : CounterDef) (reading : Reading) (name : Str) (t : Table)
    → CanWrite c
    → IsTable settings t
    → IsMade settings (add_reading settings c reading (display_name settings name) t)
IsMade-add_reading settings c reading name t w h =
    elim (Option-cases (display_name settings name)) [
      | inl e ↦ rw e h
      | inr (shown, e) ↦
          let found = find_row settings (reading_type c reading) shown t in
          let k =
            IsTable-find_row settings (reading_type c reading) shown t
              (IsShown-display_name settings name shown e) h in
          let (rows, r, n) = Written-write_item c reading found.0 found.1.rows w in
          rw (e, r, IsMade, add_reading)
            (record { named = n ∙ k.named; distinct = k.distinct; shown = k.shown })
    ]

IsMade-add_item :
    (settings : Settings) (c : CounterDef) (item : Item) (t : Table)
    → CanWrite c
    → IsTable settings t
    → IsMade settings (add_item settings c item t)
unfolding add_item
IsMade-add_item settings c item t w h =
    let (name, m) = instance_name item t.string_map in
    let k : IsTable settings (record t { string_map = m }) = record {
      named = h.named;
      distinct = h.distinct;
      shown = h.shown;
    } in
    elim (Bool-cases (is_valid item)) [
      | inl e ↦
          rw (e, add_item)
            (IsMade-add_reading settings c item.reading name (record t { string_map = m }) w k)
      | inr e ↦ rw (e, add_item) h
    ]

-- Adding items keeps the table sound: its rows stand for distinct instances, none of them an aggregate
-- unless aggregates are asked for.
pub IsMade-add_items :
    (settings : Settings) (c : CounterDef) (items : List Item) (t : Table)
    → CanWrite c
    → IsTable settings t
    → IsMade settings (add_items settings c items t)
unfolding add_items
IsMade-add_items settings c [] t w h = h
IsMade-add_items settings c (item ∷ items) t w h =
    go (add_item settings c item t) refl (IsMade-add_item settings c item t w h)
      (λ u. IsMade-add_items settings c items u w)
  where
    go :
        (r : Option Table)
        → add_item settings c item t ≡ r
        → IsMade settings r
        → ((u : Table) → IsTable settings u → IsMade settings (add_items settings c items u))
        → IsMade settings (add_items settings c (item ∷ items) t)
    go none e made later = absurd made
    go (some u) e made later = rw (e, IsMade, add_items) (later u made)

pub IsTable-empty :
    (settings : Settings) → IsTable settings (record { rows = []; index_map = []; string_map = [] })
unfolding row_names names_for keys
IsTable-empty settings = record { named = refl; distinct = tt; shown = tt }
