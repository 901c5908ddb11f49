-- ===== src/Tests/SubCollections.antt =====
-- Runs for the collectors that are made of sub-collectors.
use windows_exporter.Base.{
  ℕ, ◌++◌, contains, insert, ◌≡◌, ◌↔◌, refl, true, false, List, [], ◌∷◌, Option, none, some, arith,
  Str, str_eq, codes, Map, lookup, All, select, ◌==◌, nat_eq, if◌then◌else◌,
}
use windows_exporter.Errors.{Error, pdh_error, new_error, cause_beq}
use mathlib.Core.Option
use windows_exporter.Collection.{no_data_code}
use windows_exporter.SubCollectors.{
  BuildAnswer, build, build_each, build_sub, add_fns, after_build, close_fn, close, close_each,
  mssql, exchange, hyperv,
}
use windows_exporter.SubCollectors.Closing.{fresh, is_open-close-build_early}
use windows_exporter.SubCollectors.Closing.Late.{is_open-close-build_late}
use windows_exporter.SubCollectors.Selection.{
  known_part, first_unknown, is_used, is_supported, errors_in, expected, Built-build,
}
use windows_exporter.SubCollectors.Mssql.{
  MssqlInstance, mssql_get_perf_object_name, collect_instances, is_failure, new_major_version,
}
use windows_exporter.SubCollectors.Mssql.Rows.{sent-collect_instances}

abbrev known : List Str
known = codes "locks" ∷ codes "databases" ∷ codes "datastore" ∷ []

abbrev failed : Error
failed = new_error (codes "failed")

-- Two PDH collectors for each sub-collector; "databases" closes only one of them, and fails.
abbrev answers : Str → BuildAnswer
answers name = record {
  made = if name == codes "databases" then 1 else 2;
  made_unclosed = if name == codes "databases" then 1 else 0;
  error = if name == codes "databases" then some failed else none;
}

abbrev enabled : List Str
enabled = codes "locks" ∷ codes "databases" ∷ codes "datastore" ∷ []

abbrev in_order : List Str → List Str
in_order names = names

made : (build exchange known 0 answers enabled fresh).0.next ≡ 6
unfolding build build_each build_sub after_build add_fns
made = refl

is_open-close-build_early_example :
    (close (build exchange known 0 answers enabled fresh).0).is_open 5 ≡ true
is_open-close-build_early_example =
    is_open-close-build_early exchange known 0 answers enabled 5 refl (omega (arith, made))

is_open-close-build_late_example :
    let s = (build (mssql in_order) known 0 answers enabled fresh).0 in
    (close s).is_open 3 ≡ contains s.unclosed 3
is_open-close-build_late_example =
    is_open-close-build_late (mssql in_order) known 0 answers enabled 3 refl refl
      (refl, (refl, (refl, tt)))

-- A query of the databases stays open.
left_open : (close (build (mssql in_order) known 0 answers enabled fresh).0).is_open 3 ≡ true
unfolding build build_each build_sub after_build add_fns close_fn close close_each lookup insert
left_open = refl

Built-build_example :
    let r = build (hyperv in_order) known 17763 answers enabled fresh in
    let names = known_part known enabled in
    (r.0.collector_fns ≡ [] ++ select (is_used (hyperv in_order) known 17763 answers) names)
    × (r.1
        ≡ expected (first_unknown known enabled) (
            errors_in
              (λ name. (answers name).error)
              (select (is_supported (hyperv in_order) known 17763 answers) names)))
Built-build_example = Built-build (hyperv in_order) known 17763 answers enabled fresh

-- Only the locks are kept: the databases fail, and the datastore needs a newer system.
kept :
    (build (hyperv in_order) known 17763 answers enabled fresh).0.collector_fns ≡ codes "locks" ∷ []
unfolding build build_each build_sub after_build add_fns close_fn
kept = refl

abbrev collected : Str → Option Error
collected name = none

-- Two versions under one name.
abbrev express : ℕ → MssqlInstance
express version = record {
  name = codes "SQLEXPRESS";
  instance_name = codes "MSSQL15.SQLEXPRESS";
  major_version = version;
  edition = codes "Express";
  is_first_instance = false;
}

same_object :
    mssql_get_perf_object_name (express 15) (codes "Locks")
    ≡ mssql_get_perf_object_name (express 16) (codes "Locks")
unfolding mssql_get_perf_object_name
same_object = refl

abbrev rows : Map Str (Option Error)
rows =
    (codes "A", none)
    ∷ (codes "B", some failed)
    ∷ (codes "C", some (pdh_error no_data_code ∷ []))
    ∷ []

sent-collect_instances_example :
    let r = collect_instances (codes "locks") rows in
    ((r.1 ≡ []) ↔ All (λ row. is_failure row.1 ≡ false) rows)
    × ((codes "locks" == []) ≡ false
        → (name : Str)
        → lookup name r.0
          ≡ Option.map (λ answer. if is_failure answer then 0 else 1) (lookup name rows))
sent-collect_instances_example = sent-collect_instances (codes "locks") rows

sent :
    collect_instances (codes "locks") rows
    ≡ ((codes "A", 1) ∷ (codes "B", 0) ∷ (codes "C", 1) ∷ [], failed ∷ [])
unfolding collect_instances is_failure cause_beq
sent = refl

version : new_major_version (codes "15.0.2000.5") ≡ 15
unfolding new_major_version lookup
version = refl
