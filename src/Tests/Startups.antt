-- ===== src/Tests/Startups.antt =====
-- Runs for cmd/windows_exporter/main.go. A collector is a number.
use windows_exporter.Base.{
  ℕ, ◌≡◌, refl, [], ◌∷◌, Option, none, nat_eq, Str, str_eq, codes, contains, any, Map, lookup,
  has_key, delete_where,
}
use windows_exporter.Errors.{Error}
use windows_exporter.Collection.{
  Store, Collection, enable, disable, build_collectors, build_errors, unknown_name,
}
use windows_exporter.Startup.{
  PriorityCalls, set_priority_windows, priority_class, Flags, killed, served, run,
  expand_enabled_collectors, replace_all, split, compact, has_prefix,
}
use windows_exporter.Startup.Expand.{
  defaults, collector, stands_for, contains-expand_enabled_collectors,
}
use windows_exporter.Startup.Served.{Started, run-Started}

contains-expand_enabled_collectors_example :
    contains (expand_enabled_collectors (codes "iis,[defaults]")) (codes "cpu")
    ≡ any (collector (codes "iis") ∷ defaults ∷ []) (stands_for (codes "cpu"))
contains-expand_enabled_collectors_example =
    contains-expand_enabled_collectors (collector (codes "iis")) (defaults ∷ []) (codes "cpu")
      (((refl, refl), ((refl, refl), ((refl, refl), tt))), (tt, tt))

abbrev three : Map Str ℕ
three = (codes "cpu", 1) ∷ (codes "net", 2) ∷ (codes "os", 3) ∷ []

abbrev store : Store ℕ
store = record { maps = λ r. three; next = 1 }

abbrev exporter : Collection
exporter = record { collectors = 0; start_time = 100 }

abbrev flags : Flags
flags = record {
  enabled_collectors = codes "cpu,os";
  disabled_collectors = codes "os";
  process_priority = codes "high";
}

abbrev no_error : Option Error
no_error = none

abbrev calls : PriorityCalls
calls = record { open_process = none; set_priority_class = λ class. none; close_handle = none }

abbrev builds : ℕ → Option Error
builds n = none

abbrev after : Store ℕ
after = (run builds none none calls none killed flags exporter store).0

starts :
    run builds no_error no_error calls no_error killed flags exporter store ≡ (after, served killed)
unfolding run set_priority_windows priority_class expand_enabled_collectors replace_all split
    compact has_prefix enable disable build_collectors build_errors unknown_name has_key
    delete_where lookup
starts = refl

run-Started_example : Started builds no_error flags exporter store after
run-Started_example =
    run-Started builds none none calls none killed killed flags exporter store after starts
