-- ===== src/Config/Flatten.antt =====
-- internal/config/flatten.go: nested YAML values become flat names with dots. A scalar and the
-- elements of a sequence stand as the text that `fmt.Sprint` gives for them.
use windows_exporter.Base.{
  ◌≡◌, refl, ap, ◌∙◌, sym, List, [], ◌∷◌, ◌++◌, map, Option, none, some, arith, ◌==◌, Str, str_eq,
  codes, join, Map, lookup, insert, lookup-insert, Distinct, Distinct-insert, if◌then◌else◌,
  map-append,
}

mutual
  pub data Value : Type 0 where
    scalar : Str → Value
    sequence : List Str → Value
    -- map[string]any
    dict : Fields → Value
    -- map[any]any
    any_dict : AnyFields → Value

  pub data Fields : Type 0 where
    end : Fields
    field : Str → Value → Fields → Fields

  -- `none` is a key that is no string.
  pub data AnyFields : Type 0 where
    any_end : AnyFields
    any_field : Option Str → Value → AnyFields → AnyFields

unfoldable pub convert_map : AnyFields → Fields
convert_map any_end = end
convert_map (any_field none value rest) = convert_map rest
convert_map (any_field (some key) value rest) = field key value (convert_map rest)

unfoldable pub full_key : Str → Str → Str
full_key prefix k = if prefix == [] then k else prefix ++ (codes "." ++ k)

-- The loop of `flattenHelper` over a map, and its `switch` on one value. The helper's call on a
-- converted map goes through the map's own fields; `flatten_any_lem` says that this is the same.
unfoldable mutual
  pub flatten_value : Value → Str → Map Str Str → Map Str Str
  flatten_value (scalar text) key result = insert key text result
  flatten_value (sequence texts) key result = insert key (join texts (codes ",")) result
  flatten_value (dict fields) key result = flatten_helper fields key result
  flatten_value (any_dict fields) key result = flatten_any fields key result

  pub flatten_helper : Fields → Str → Map Str Str → Map Str Str
  flatten_helper end prefix result = result
  flatten_helper (field k v rest) prefix result =
      flatten_helper rest prefix (flatten_value v (full_key prefix k) result)

  pub flatten_any : AnyFields → Str → Map Str Str → Map Str Str
  flatten_any any_end prefix result = result
  flatten_any (any_field none v rest) prefix result = flatten_any rest prefix result
  flatten_any (any_field (some k) v rest) prefix result =
      flatten_any rest prefix (flatten_value v (full_key prefix k) result)

unfoldable pub flatten : Fields → Map Str Str
flatten fields = flatten_helper fields [] []

flatten_any_lem :
    (fields : AnyFields) (prefix : Str) (result : Map Str Str)
    → flatten_any fields prefix result ≡ flatten_helper (convert_map fields) prefix result
unfolding flatten_any flatten_helper convert_map
flatten_any_lem any_end prefix result = refl
flatten_any_lem (any_field none v rest) prefix result = flatten_any_lem rest prefix result
flatten_any_lem (any_field (some k) v rest) prefix result =
    flatten_any_lem rest prefix (flatten_value v (full_key prefix k) result)

-- The leaves of a value, each with its text and the keys that lead to it.
abbrev Leaf : Type 0
Leaf = List Str × Str

abbrev pub below : Str → Leaf → Leaf
below k leaf = (k ∷ leaf.0, leaf.1)

mutual
  pub leaves : Value → List Leaf
  leaves (scalar text) = ([], text) ∷ []
  leaves (sequence texts) = ([], join texts (codes ",")) ∷ []
  leaves (dict fields) = leaves_fields fields
  leaves (any_dict fields) = leaves_any fields

  pub leaves_fields : Fields → List Leaf
  leaves_fields end = []
  leaves_fields (field k v rest) = map (below k) (leaves v) ++ leaves_fields rest

  pub leaves_any : AnyFields → List Leaf
  leaves_any any_end = []
  leaves_any (any_field none v rest) = leaves_any rest
  leaves_any (any_field (some k) v rest) = map (below k) (leaves v) ++ leaves_any rest

-- The flat name of a path.
pub dotted : Str → List Str → Str
dotted prefix [] = prefix
dotted prefix (k ∷ path) = dotted (full_key prefix k) path

abbrev pub named : Str → Leaf → Str × Str
named prefix leaf = (dotted prefix leaf.0, leaf.1)

-- Writes one after the other.
pub insert_all : List (Str × Str) → Map Str Str → Map Str Str
insert_all [] m = m
insert_all ((k, v) ∷ rest) m = insert_all rest (insert k v m)

insert_all-append :
    (xs ys : List (Str × Str)) (m : Map Str Str)
    → insert_all (xs ++ ys) m ≡ insert_all ys (insert_all xs m)
unfolding insert_all
insert_all-append [] ys m = refl
insert_all-append ((k, v) ∷ xs) ys m = insert_all-append xs ys (insert k v m)

named-below :
    (prefix k : Str) (l : List Leaf)
    → map (named prefix) (map (below k) l) ≡ map (named (full_key prefix k)) l
unfolding dotted
named-below prefix k [] = refl
named-below prefix k (leaf ∷ l) =
    ap (λ r. named (full_key prefix k) leaf ∷ r) (named-below prefix k l)

-- The writes of one field and of those behind it.
insert_all-field :
    (prefix k : Str) (l r : List Leaf) (m : Map Str Str)
    → insert_all (map (named prefix) (map (below k) l ++ r)) m
      ≡ insert_all (map (named prefix) r) (insert_all (map (named (full_key prefix k)) l) m)
insert_all-field prefix k l r m =
    rw (map-append, named-below)
      (insert_all-append (map (named (full_key prefix k)) l) (map (named prefix) r) m)

mutual
  unfolding flatten_value flatten_helper flatten_any leaves leaves_fields leaves_any insert_all
      dotted

  value_writes :
      (v : Value) (prefix : Str) (m : Map Str Str)
      → flatten_value v prefix m ≡ insert_all (map (named prefix) (leaves v)) m
  value_writes (scalar text) prefix m = refl
  value_writes (sequence texts) prefix m = refl
  value_writes (dict fields) prefix m = helper_writes fields prefix m
  value_writes (any_dict fields) prefix m = any_writes fields prefix m

  helper_writes :
      (fields : Fields) (prefix : Str) (m : Map Str Str)
      → flatten_helper fields prefix m ≡ insert_all (map (named prefix) (leaves_fields fields)) m
  helper_writes end prefix m = refl
  helper_writes (field k v rest) prefix m =
      helper_writes rest prefix (flatten_value v (full_key prefix k) m)
      ∙ ap (insert_all (map (named prefix) (leaves_fields rest)))
          (value_writes v (full_key prefix k) m)
      ∙ sym (insert_all-field prefix k (leaves v) (leaves_fields rest) m)

  any_writes :
      (fields : AnyFields) (prefix : Str) (m : Map Str Str)
      → flatten_any fields prefix m ≡ insert_all (map (named prefix) (leaves_any fields)) m
  any_writes any_end prefix m = refl
  any_writes (any_field none v rest) prefix m = any_writes rest prefix m
  any_writes (any_field (some k) v rest) prefix m =
      any_writes rest prefix (flatten_value v (full_key prefix k) m)
      ∙ ap (insert_all (map (named prefix) (leaves_any rest)))
          (value_writes v (full_key prefix k) m)
      ∙ sym (insert_all-field prefix k (leaves v) (leaves_any rest) m)

-- The last text that a list of writes gives a key.
pub last_written : Str → List (Str × Str) → Option Str
last_written key [] = none
last_written key ((k, v) ∷ rest) = elim (last_written key rest) [
  | some w ↦ some w
  | none ↦ if k == key then some v else none
]

lookup-insert_all :
    (key : Str) (l : List (Str × Str)) (m : Map Str Str)
    → lookup key (insert_all l m)
      ≡ elim (last_written key l) [ some w ↦ some w | none ↦ lookup key m ]
unfolding insert_all last_written
lookup-insert_all key [] m = refl
lookup-insert_all key ((k, v) ∷ rest) m =
    ground (arith, lookup-insert_all key rest (insert k v m), lookup-insert k key v m)

-- A flat name has the text of the last leaf whose path, joined by dots, is that name, and no other
-- name has a text.
pub lookup-flatten :
    (fields : Fields) (key : Str)
    → lookup key (flatten fields) ≡ last_written key (map (named []) (leaves_fields fields))
unfolding flatten lookup
lookup-flatten fields key =
    rw (helper_writes fields [] [])
      (lookup-insert_all key (map (named []) (leaves_fields fields)) [] ∙ ground arith)

Distinct-insert_all :
    (l : List (Str × Str)) (m : Map Str Str) → Distinct m → Distinct (insert_all l m)
unfolding insert_all
Distinct-insert_all [] m d = d
Distinct-insert_all ((k, v) ∷ rest) m d =
    Distinct-insert_all rest (insert k v m) (Distinct-insert k v m d)

pub Distinct-flatten : (fields : Fields) → Distinct (flatten fields)
unfolding flatten
Distinct-flatten fields =
    rw (helper_writes fields [] [])
      (Distinct-insert_all (map (named []) (leaves_fields fields)) [] tt)
