-- ===== src/SubCollectors/Mssql.antt =====
-- The instances of a SQL server and the collection from each: getMSSQLInstances,
-- mssqlGetPerfObjectName and `collect` of internal/collector/mssql/mssql.go, and
-- internal/collector/mssql/types.go. What the registry answers, and what collecting from an
-- instance answers, is given.
pub mod Rows
use windows_exporter.Base.{
  ℕ, ◌+◌, ◌≡◌, Bool, true, false, not, ◌&&◌, ◌||◌, List, [], ◌∷◌, ◌++◌, Option, none, some, arith,
  ◌==◌, nat_eq, nat_beq, leb, Str, str_eq, codes, Map, lookup, if◌then◌else◌,
}
use windows_exporter.Errors.{
  ◌>>=◌, Error, Result, ok, err, no_data, pdh_error, is, new_error, cause_eq,
}
use windows_exporter.Collection.{no_data_code}
use windows_exporter.SubCollectors.{
  State, Policy, BuildAnswer, Built, stopped, build, collect, errors_of,
}

-- The part before the first separator, and the part after it: strings.Cut.
abbrev pub before : ℕ → Str → Str
before sep [] = []
before sep (c ∷ s) = let rest = before sep s in if nat_beq c sep then [] else c ∷ rest

abbrev pub after : ℕ → Str → Str
after sep [] = []
after sep (c ∷ s) = let rest = after sep s in if nat_beq c sep then s else rest

-- The mssqlServerMajorVersion, 0 for one that is not known.
unfoldable pub new_major_version : Str → ℕ
new_major_version patch_version = elim (lookup (before b'.' patch_version) versions) [
  | none ↦ 0
  | some v ↦ v
]
  where
    versions : Map Str ℕ
    versions =
        (codes "11", 11)
        ∷ (codes "12", 12)
        ∷ (codes "13", 13)
        ∷ (codes "14", 14)
        ∷ (codes "15", 15)
        ∷ (codes "16", 16)
        ∷ (codes "17", 17)
        ∷ []

pub record MssqlInstance : Type 0 where
  pub name : Str
  pub instance_name : Str
  pub major_version : ℕ
  pub edition : Str
  pub is_first_instance : Bool

unfoldable pub is_version_greater_or_equal_than : MssqlInstance → ℕ → Bool
is_version_greater_or_equal_than m version = leb version m.major_version

-- registry.OpenKey, ReadValueNames and GetStringValue, below HKEY_LOCAL_MACHINE.
pub record Registry : Type 0 where
  pub open_key : Str → Option Error
  pub read_value_names : Str → Result (List Str)
  pub get_string_value : Str → Str → Result Str

-- A call that answers an error, or nothing of interest.
abbrev pub called : Option Error → Result Bool
called none = ok true
called (some e) = err e

abbrev pub sql_server : Str
sql_server = codes "Software\\Microsoft\\Microsoft SQL Server\\"

abbrev pub instance_names_key : Str
instance_names_key = sql_server ++ codes "Instance Names\\SQL"

unfoldable pub new_mssql_instance : Registry → Str → Str → Result MssqlInstance
new_mssql_instance reg key name = do
  let setup = sql_server ++ name ++ codes "\\Setup"
  _ ← called (reg.open_key setup)
  patch_version ← reg.get_string_value setup (codes "PatchLevel")
  edition ← reg.get_string_value setup (codes "Edition")
  ok (record {
    name = after b'.' name;
    instance_name = name;
    major_version = new_major_version patch_version;
    edition = edition;
    is_first_instance = key == codes "MSSQLSERVER";
  })

unfoldable pub read_instances : Registry → List Str → Result (List MssqlInstance)
read_instances reg [] = ok []
read_instances reg (instance_name ∷ names) =
    let later = read_instances reg names in
    do
      instance_version ← reg.get_string_value instance_names_key instance_name
      inst ← new_mssql_instance reg instance_name instance_version
      rest ← later
      ok (inst ∷ rest)

unfoldable pub get_mssql_instances : Registry → Result (List MssqlInstance)
get_mssql_instances reg = do
  _ ← called (reg.open_key instance_names_key)
  names ← reg.read_value_names instance_names_key
  read_instances reg names

unfoldable pub mssql_get_perf_object_name : MssqlInstance → Str → Str
mssql_get_perf_object_name i collector =
    (if i.is_first_instance then codes "SQLServer:" else codes "MSSQL$" ++ i.name ++ codes ":")
    ++ collector

-- An answer counts as a failure unless it is that there is no data.
unfoldable pub is_failure : Option Error → Bool
is_failure none = false
is_failure (some e) = not (is e (pdh_error no_data_code))

-- `collect` for the instances in the order in which the map gives them: the success that is sent
-- for each, and the errors. A sub-collector of an empty name sends nothing.
unfoldable pub collect_instances : Str → Map Str (Option Error) → List (Str × ℕ) × List Error
collect_instances collector [] = ([], [])
collect_instances collector ((name, answer) ∷ rest) =
    let (sent, errs) = collect_instances collector rest in
    (
      if collector == [] then sent else (name, if is_failure answer then 0 else 1) ∷ sent,
      if is_failure answer then errors_of answer ++ errs else errs,
    )

-- The collector: its sub-collectors and the instances that `Build` has found.
pub record Collector : Type 0 where
  pub subs : State
  pub mssql_instances : List MssqlInstance

unfoldable pub build_collector :
    Registry → Policy → List Str → (Str → BuildAnswer) → List Str → Collector → Collector × Built
build_collector reg policy known answers enabled c = elim (get_mssql_instances reg) [
  | ok instances ↦
      let r = build policy known 0 answers enabled c.subs in
      (record { subs = r.0; mssql_instances = instances }, r.1)
  | err e ↦ (c, stopped e)
]

unfoldable pub collect_all : (Str → Option Error) → Collector → List Error
collect_all answers c = elim c.mssql_instances [
  | [] ↦ (pdh_error no_data_code ∷ []) ∷ []
  | inst ∷ rest ↦ collect answers c.subs
]
