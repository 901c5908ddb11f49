-- ===== src/Config.antt =====
-- internal/config: the choice of the configuration file, the flattening of its values, and the
-- defaults that they become. kingpin's flags and the YAML decoder are not modelled.
pub mod FilePath
pub mod Flatten
pub mod Defaults
