-- ===== src/Textfile.antt =====
-- internal/collector/textfile/textfile.go: metrics from `.prom` files.
pub mod Reader
pub mod Duplicates
pub mod Labels
pub mod Files
use windows_exporter.Base.{ℕ, List, Option, Str}

-- dto.MetricType
pub data MetricType : Type 0 where
  counter gauge untyped summary histogram other : MetricType

-- dto.Metric: its labels, its timestamp, and the value that `GetCounter().GetValue()` and its likes
-- give; a summary and a histogram are one value each. `V` is the type of values.
pub record Metric (V : Type 0) : Type 0 where
  pub labels : List (Str × Str)
  pub timestamp : Option ℕ
  pub counter_value : V
  pub gauge_value : V
  pub untyped_value : V
  pub summary_value : V
  pub histogram_value : V

-- dto.MetricFamily
pub record MetricFamily (V : Type 0) : Type 0 where
  pub name : Str
  pub help : Option Str
  pub type : MetricType
  pub metrics : List (Metric V)
