-- ===== src/Tests/Perflibs.antt =====
-- Runs for internal/pdh/registry and internal/utils/counter.go.
use windows_exporter.Base.{
  ℕ, zero, suc, ◌+◌, ◌≤◌, ◌<◌, ◌≡◌, ◌≢◌, refl, false, List, [], ◌∷◌, ◌++◌, none, arith, ◌==◌,
  nat_eq, Str, str_eq, codes, if◌then◌else◌, leb,
}
use windows_exporter.Perflib.Bytes.{ok, pos, to_signed, half64, le, encode, bytes_at, u32, i32, i64}
use windows_exporter.Perflib.RawTypes.{PerfCounterDefinition, data_block, object_type, binary_read}
use windows_exporter.Perflib.RawData.{
  Reply, data_written, more_data, busy, initial_sizes, first_size, words, query_raw_data, Answers,
  query_raw_data-ends,
}
use windows_exporter.Perflib.Parse.{
  PerfCounterDef, PerfCounter, PerfObject, convert_counter_value, parse_counters,
  parse_counter_block, query_performance_data, parse_objects, parse_object, objects_round,
  read_defs, all_instances,
}
use windows_exporter.Perflib.Parse.Filter.{first_named, query_performance_data-first_named}
use windows_exporter.Perflib.Parse.Counters.{width, convert_counter_value-encode}

abbrev raw : PerfCounterDefinition
raw = record {
  byte_length = 40;
  counter_name_title_index = 6;
  counter_name_title = 0;
  counter_help_title_index = 7;
  counter_help_title = 0;
  default_scale = pos 0;
  detail_level = 0;
  counter_type = 0x10000;
  counter_size = 4;
  counter_offset = 4;
}

convert_counter_value-encode_example :
    convert_counter_value (7 ∷ []) raw (4 ∷ 0 ∷ [] ++ (encode (width raw) 513 ++ [])) 2
    ≡ ok (if raw.counter_size == 8 then to_signed half64 513 else pos 513)
convert_counter_value-encode_example =
    convert_counter_value-encode raw (7 ∷ []) (4 ∷ 0 ∷ []) [] 513 (omega arith)

abbrev def : PerfCounterDef
def = record {
  name = codes "reads";
  name_index = 6;
  counter_type = 0x10000;
  is_counter = false;
  is_base_value = false;
  is_nanosecond_counter = false;
  has_second_value = false;
  raw_data = raw;
}

abbrev one_counter : List PerfCounter
one_counter = record { value = pos 513; def = def; second_value = pos 0 } ∷ []

abbrev block : List ℕ
block = 8 ∷ 0 ∷ 0 ∷ 0 ∷ 1 ∷ 2 ∷ 0 ∷ 0 ∷ []

-- A block with one object, of title 5, without counters or instances.
zeros : ℕ → List ℕ
zeros zero = []
zeros (suc n) = 0 ∷ zeros n

abbrev buffer : List ℕ
buffer =
    80 ∷ 0 ∷ 69 ∷ 0 ∷ 82 ∷ 0 ∷ 70 ∷ 0 ∷ []
    ++ (zeros 16
        ++ (88 ∷ 0 ∷ 0 ∷ 0 ∷ 1 ∷ 0 ∷ 0 ∷ 0 ∷ []
            ++ (zeros 56
                ++ (68 ∷ 0 ∷ 0 ∷ 0 ∷ 64 ∷ 0 ∷ 0 ∷ 0 ∷ 0 ∷ 0 ∷ 0 ∷ 0 ∷ 5 ∷ 0 ∷ 0 ∷ 0 ∷ []
                    ++ (zeros 48 ++ 4 ∷ 0 ∷ 0 ∷ 0 ∷ [])))))

abbrev title : ℕ → Str
title n = n ∷ []

abbrev objects : List PerfObject
objects =
    record {
      name = 5 ∷ [];
      name_index = 5;
      instances = record { name = []; counters = [] } ∷ [];
      counter_defs = [];
      frequency = pos 0;
    }
    ∷ []

query_performance_data-first_named_example :
    query_performance_data title (λ s. s) (7 ∷ []) (5 ∷ []) buffer
    ≡ ok (first_named (5 ∷ []) objects)
unfolding query_performance_data parse_objects parse_object objects_round read_defs all_instances
    parse_counter_block parse_counters data_block object_type binary_read bytes_at u32 i32 i64 le
    to_signed zeros
query_performance_data-first_named_example =
    query_performance_data-first_named title (λ s. s) (7 ∷ []) (5 ∷ []) buffer objects
      (λ e. ground arith) refl

-- The registry is busy once, and then wants 500000 bytes.
abbrev reply : ℕ → ℕ → Reply
reply zero n = busy
reply (suc i) n = if leb 500000 n then data_written (1 ∷ 2 ∷ []) else more_data

reply-Answers : Answers reply 500000 1
reply-Answers = record { more = fits; settles = settles }
  where
    fits : (i n : ℕ) → reply i n ≡ more_data → n < 500000
    fits zero n h = absurd (cc h)
    fits (suc i) n h = ground arith

    settles : (i n : ℕ) → 1 ≤ i → ¬ (reply i n ≡ busy)
    settles zero n p = absurd (omega arith)
    settles (suc i) n p = λ h. ground arith

abbrev query : Str
query = codes "2 5"

query_raw_data-ends_example : (query_raw_data reply (1 + 1 + 1) query initial_sizes).0 ≢ none
unfolding first_size words
query_raw_data-ends_example =
    query_raw_data-ends reply 500000 1 1 query initial_sizes reply-Answers (omega arith)
      (omega arith) (omega arith)
