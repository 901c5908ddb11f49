-- ===== src/Config/Defaults.antt =====
-- `NewConfigFileResolver`, `setDefault` and `Bind` of internal/config/config.go: the values of the
-- file become the defaults of the flags. What the file system and the YAML decoder answer is given.
use windows_exporter.Base.{
  map, ◌≡◌, refl, ◌∙◌, Bool, true, ◌&&◌, [], ◌∷◌, Option, none, some, arith, Str, str_eq, Map,
  lookup, insert, lookup-insert, has_key, Distinct, Distinct-insert, if◌then◌else◌, eq_iff,
  Bool-cases, inl, inr,
}
use windows_exporter.Errors.{Error}
use windows_exporter.Config.Flatten.{
  Fields, flatten, last_written, named, leaves_fields, lookup-flatten, Distinct-flatten,
}

-- The strict decoding into `configFile`: accepted, an empty file, or refused.
pub data Decoded : Type 0 where
  valid eof : Decoded
  invalid : Error → Decoded

pub data Raw : Type 0 where
  values : Fields → Raw
  no_values : Error → Raw

pub data Resolved : Type 0 where
  resolver : Map Str Str → Resolved
  refused : Error → Resolved

-- The loop that copies the flattened values; a name that is there already is kept.
unfoldable pub copy_flags : Map Str Str → Map Str Str → Map Str Str
copy_flags [] flags = flags
copy_flags ((k, v) ∷ rest) flags =
    copy_flags rest (if has_key k flags then flags else insert k v flags)

unfoldable pub new_config_file_resolver : Option Error → Decoded → Option Error → Raw → Resolved
new_config_file_resolver (some err) decoded seek raw = refused err
new_config_file_resolver none (invalid err) seek raw = refused err
new_config_file_resolver none eof seek raw = resolver []
new_config_file_resolver none valid (some err) raw = refused err
new_config_file_resolver none valid none (no_values err) = refused err
new_config_file_resolver none valid none (values fields) = resolver (copy_flags (flatten fields) [])

-- `setDefault`: `known` says which flags `GetFlag` finds.
unfoldable pub set_default : (Str → Bool) → Map Str Str → Map Str Str → Map Str Str
set_default known [] defaults = defaults
set_default known ((name, value) ∷ flags) defaults =
    set_default known flags (if known name then insert name value defaults else defaults)

-- `Bind`: the flags of the application, then those of the selected command, if there is one.
unfoldable pub bind :
    (Str → Bool)
    → Option (Str → Bool)
    → Map Str Str
    → Map Str Str × Map Str Str
    → Map Str Str × Map Str Str
bind app_flags none flags (app, command) = (set_default app_flags flags app, command)
bind app_flags (some command_flags) flags (app, command) =
    (set_default app_flags flags app, set_default command_flags flags command)

lookup-copy_flags :
    (key : Str) (l flags : Map Str Str)
    → Distinct l
    → lookup key (copy_flags l flags)
      ≡ (if has_key key flags then lookup key flags else lookup key l)
unfolding copy_flags lookup has_key
lookup-copy_flags key [] flags d = ground arith
lookup-copy_flags key ((k, v) ∷ rest) flags d = ground (
  arith,
  lookup-copy_flags key rest flags d.1,
  lookup-copy_flags key rest (insert k v flags) d.1,
  lookup-insert k key v flags,
  eq_iff k key,
)

Distinct-copy_flags : (l flags : Map Str Str) → Distinct flags → Distinct (copy_flags l flags)
unfolding copy_flags
Distinct-copy_flags [] flags d = d
Distinct-copy_flags ((k, v) ∷ rest) flags d = elim (Bool-cases (has_key k flags)) [
  | inl h ↦ rw h (Distinct-copy_flags rest flags d)
  | inr h ↦ rw h (Distinct-copy_flags rest (insert k v flags) (Distinct-insert k v flags d))
]

-- Every flag that exists takes its value from the file where the file has one, and keeps its own
-- default where not. A name that is no flag gets none.
lookup-set_default :
    (known : Str → Bool) (flags defaults : Map Str Str) (name : Str)
    → Distinct flags
    → lookup name (set_default known flags defaults)
      ≡ (if known name && has_key name flags then lookup name flags else lookup name defaults)
unfolding set_default lookup has_key
lookup-set_default known [] defaults name d = ground arith
lookup-set_default known ((n, v) ∷ flags) defaults name d = ground (
  arith,
  lookup-set_default known flags defaults name d.1,
  lookup-set_default known flags (insert n v defaults) name d.1,
  lookup-insert n name v defaults,
  eq_iff n name,
)

-- The text that a file gives for a name, and else `otherwise`.
abbrev pub text_or : Str → Fields → Option Str → Option Str
text_or name fields otherwise = elim (last_written name (map (named []) (leaves_fields fields))) [
  | some text ↦ some text
  | none ↦ otherwise
]

resolver-injective : (a b : Map Str Str) → resolver a ≡ resolver b → a ≡ b
resolver-injective a b h = cc

lookup-flags :
    (fields : Fields) (known : Str → Bool) (defaults : Map Str Str) (name : Str)
    → known name ≡ true
    → lookup name (set_default known (copy_flags (flatten fields) []) defaults)
      ≡ text_or name fields (lookup name defaults)
unfolding has_key
lookup-flags fields known defaults name k =
    lookup-set_default known _ defaults name (Distinct-copy_flags (flatten fields) [] tt)
    ∙ ground (
      arith,
      lookup-copy_flags name (flatten fields) [] (Distinct-flatten fields),
      lookup-flatten fields name,
      lookup_nil,
    )
  where
    lookup_nil : lookup {K = Str} {V = Str} name [] ≡ none
    lookup_nil = unfold lookup in refl

-- After the file is read and bound, a flag of the application has as its default the text that the
-- file gives at the flag's dotted name, and its own default where the file gives none.
lookup-bind :
    (fields : Fields) (flags : Map Str Str) (known : Str → Bool) (selected : Option (Str → Bool))
    (app command : Map Str Str) (name : Str)
    → new_config_file_resolver none valid none (values fields) ≡ resolver flags
    → known name ≡ true
    → lookup name (bind known selected flags (app, command)).0
      ≡ text_or name fields (lookup name app)
unfolding new_config_file_resolver bind
lookup-bind fields flags known none app command name h k =
    rw (← resolver-injective _ _ h) (lookup-flags fields known app name k)
lookup-bind fields flags known (some selected) app command name h k =
    rw (← resolver-injective _ _ h) (lookup-flags fields known app name k)
