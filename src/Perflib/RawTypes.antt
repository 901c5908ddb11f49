-- ===== src/Perflib/RawTypes.antt =====
-- The structures of internal/pdh/registry/raw_types.go, field by field in their order, and
-- `BinaryReadFrom`: all bytes of the structure, or an error.
use windows_exporter.Base.{take, ℕ, List, none, some}
use windows_exporter.Perflib.Bytes.{Res, ok, fails, ℤ, bytes_at, u32, i32, i64}

pub record PerfDataBlock : Type 0 where
  -- the eight bytes of `Signature`
  pub signature : List ℕ
  pub little_endian : ℕ
  pub version : ℕ
  pub revision : ℕ
  pub total_byte_length : ℕ
  pub header_length : ℕ
  pub num_object_types : ℕ
  pub default_object : ℤ
  pub perf_time : ℤ
  pub perf_freq : ℤ
  pub perf_time_100nsec : ℤ
  pub system_name_length : ℕ
  pub system_name_offset : ℕ

pub record PerfObjectType : Type 0 where
  pub total_byte_length : ℕ
  pub definition_length : ℕ
  pub header_length : ℕ
  pub object_name_title_index : ℕ
  pub object_name_title : ℕ
  pub object_help_title_index : ℕ
  pub object_help_title : ℕ
  pub detail_level : ℕ
  pub num_counters : ℕ
  pub default_counter : ℤ
  pub num_instances : ℤ
  pub code_page : ℕ
  pub perf_time : ℤ
  pub perf_freq : ℤ

pub record PerfCounterDefinition : Type 0 where
  pub byte_length : ℕ
  pub counter_name_title_index : ℕ
  pub counter_name_title : ℕ
  pub counter_help_title_index : ℕ
  pub counter_help_title : ℕ
  pub default_scale : ℤ
  pub detail_level : ℕ
  pub counter_type : ℕ
  pub counter_size : ℕ
  pub counter_offset : ℕ

pub record PerfInstanceDefinition : Type 0 where
  pub byte_length : ℕ
  pub parent_object_title_index : ℕ
  pub parent_object_instance : ℕ
  pub unique_id : ℕ
  pub name_offset : ℕ
  pub name_length : ℕ

-- `SystemTime` and the unnamed field take the bytes 36 to 55.
unfoldable pub data_block : List ℕ → PerfDataBlock
data_block s = record {
  signature = take 8 s;
  little_endian = u32 s 8;
  version = u32 s 12;
  revision = u32 s 16;
  total_byte_length = u32 s 20;
  header_length = u32 s 24;
  num_object_types = u32 s 28;
  default_object = i32 s 32;
  perf_time = i64 s 56;
  perf_freq = i64 s 64;
  perf_time_100nsec = i64 s 72;
  system_name_length = u32 s 80;
  system_name_offset = u32 s 84;
}

unfoldable pub object_type : List ℕ → PerfObjectType
object_type s = record {
  total_byte_length = u32 s 0;
  definition_length = u32 s 4;
  header_length = u32 s 8;
  object_name_title_index = u32 s 12;
  object_name_title = u32 s 16;
  object_help_title_index = u32 s 20;
  object_help_title = u32 s 24;
  detail_level = u32 s 28;
  num_counters = u32 s 32;
  default_counter = i32 s 36;
  num_instances = i32 s 40;
  code_page = u32 s 44;
  perf_time = i64 s 48;
  perf_freq = i64 s 56;
}

unfoldable pub counter_definition : List ℕ → PerfCounterDefinition
counter_definition s = record {
  byte_length = u32 s 0;
  counter_name_title_index = u32 s 4;
  counter_name_title = u32 s 8;
  counter_help_title_index = u32 s 12;
  counter_help_title = u32 s 16;
  default_scale = i32 s 20;
  detail_level = u32 s 24;
  counter_type = u32 s 28;
  counter_size = u32 s 32;
  counter_offset = u32 s 36;
}

unfoldable pub instance_definition : List ℕ → PerfInstanceDefinition
instance_definition s = record {
  byte_length = u32 s 0;
  parent_object_title_index = u32 s 4;
  parent_object_instance = u32 s 8;
  unique_id = u32 s 12;
  name_offset = u32 s 16;
  name_length = u32 s 20;
}

-- `binary.Read` of a structure of that size at that offset.
unfoldable pub binary_read : {A : Type 0} → List ℕ → ℕ → ℕ → (List ℕ → A) → Res A
binary_read b at size decode = elim (bytes_at b at size) [ none ↦ fails | some s ↦ ok (decode s) ]

abbrev pub data_block_size : ℕ
data_block_size = 88

abbrev pub object_type_size : ℕ
object_type_size = 64

abbrev pub counter_definition_size : ℕ
counter_definition_size = 40

abbrev pub instance_definition_size : ℕ
instance_definition_size = 24

abbrev pub counter_block_size : ℕ
counter_block_size = 4
