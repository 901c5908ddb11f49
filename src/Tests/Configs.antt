-- ===== src/Tests/Configs.antt =====
-- Runs for internal/config.
use windows_exporter.Base.{
  ◌≡◌, refl, [], ◌∷◌, map, none, some, Str, str_eq, codes, Map, lookup, has_suffix, has_key, insert,
}
use windows_exporter.Config.FilePath.{
  parse_config_file, parse_config_file-separated, IsOther, IsBare,
}
use windows_exporter.Config.Flatten.{
  Fields, scalar, sequence, dict, any_dict, end, field, any_field, any_end, flatten, flatten_value,
  flatten_helper, flatten_any, full_key, last_written, named, leaves_fields, lookup-flatten,
}
use windows_exporter.Config.Defaults.{new_config_file_resolver, copy_flags, valid, values, resolver}

abbrev log_flag : Str
log_flag = codes "--log.level=info"

log_flag-IsOther : IsOther log_flag
log_flag-IsOther = record {
  not_long = refl;
  not_short = refl;
  not_flag = unfold has_suffix in refl;
}

abbrev bare : Str
bare = codes "--config.file"

bare-IsBare : IsBare bare
bare-IsBare = record { not_long = refl; not_short = refl; flag = unfold has_suffix in refl }

parse_config_file-separated_example :
    parse_config_file
      (codes "exporter.exe" ∷ log_flag ∷ bare ∷ codes "a.yml" ∷ [])
      (log_flag ∷ bare ∷ codes "a.yml" ∷ [])
    ≡ bare
parse_config_file-separated_example =
    parse_config_file-separated (codes "exporter.exe") (log_flag ∷ []) bare (codes "a.yml") []
      (log_flag-IsOther, tt) bare-IsBare

-- collectors: {enabled: [cpu, os], service: {include: web}}
abbrev file : Fields
file =
    field (codes "collectors")
      (dict (
        field (codes "enabled") (sequence (codes "cpu" ∷ codes "os" ∷ [])) (
          field (codes "service")
            (any_dict (any_field (some (codes "include")) (scalar (codes "web")) any_end)) end)))
      end

abbrev enabled : Str
enabled = codes "collectors.enabled"

lookup-flatten_example :
    lookup enabled (flatten file) ≡ last_written enabled (map (named []) (leaves_fields file))
lookup-flatten_example = lookup-flatten file enabled

abbrev flat : Map Str Str
flat = (enabled, codes "cpu,os") ∷ (codes "collectors.service.include", codes "web") ∷ []

flat-file : new_config_file_resolver none valid none (values file) ≡ resolver flat
unfolding new_config_file_resolver copy_flags flatten flatten_value flatten_helper flatten_any
    full_key insert has_key lookup
flat-file = refl

abbrev defaults : Map Str Str
defaults = (enabled, codes "cpu") ∷ []
