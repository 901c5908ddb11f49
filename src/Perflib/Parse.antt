-- ===== src/Perflib/Parse.antt =====
-- `QueryPerformanceData` of internal/pdh/registry/perflib.go, from the buffer that the registry has
-- filled. `lookup_string` is `CounterNameTable.LookupString`, and `utf16_to_string` is
-- `windows.UTF16ToString`, on the bytes of the 16-bit units.
pub mod Filter
pub mod Counters
use Prim.Native.Nat.{bit_and}
use windows_exporter.Base.{
  ℕ, zero, suc, ◌+◌, ◌-◌, ◌*◌, ◌/◌, ◌≡◌, Bool, true, false, not, ◌&&◌, List, [], ◌∷◌, ◌++◌, Option,
  none, some, arith, ◌==◌, nat_eq, Str, str_eq, if◌then◌else◌, length, take, drop,
}
use windows_exporter.Perflib.Bytes.{
  Res, ok, fails, panics, ◌>>=◌, ℤ, pos, negsuc, to_signed, half64, le, bytes_at,
}
use windows_exporter.Perflib.RawTypes.{
  PerfDataBlock, PerfObjectType, PerfCounterDefinition, PerfInstanceDefinition, data_block,
  object_type, counter_definition, instance_definition, binary_read, data_block_size,
  object_type_size, counter_definition_size, instance_definition_size, counter_block_size,
}

pub record PerfCounterDef : Type 0 where
  pub name : Str
  pub name_index : ℕ
  pub counter_type : ℕ
  pub is_counter : Bool
  pub is_base_value : Bool
  pub is_nanosecond_counter : Bool
  pub has_second_value : Bool
  pub raw_data : PerfCounterDefinition

pub record PerfCounter : Type 0 where
  pub value : ℤ
  pub def : PerfCounterDef
  pub second_value : ℤ

pub record PerfInstance : Type 0 where
  pub name : Str
  pub counters : List PerfCounter

pub record PerfObject : Type 0 where
  pub name : Str
  pub name_index : ℕ
  pub instances : List PerfInstance
  pub counter_defs : List PerfCounterDef
  pub frequency : ℤ

abbrev pub perf_average_bulk : ℕ
perf_average_bulk = 0x40020500

abbrev has_bits : ℕ → ℕ → Bool
has_bits counter_type mask = bit_and counter_type mask == mask

-- The buffer is what queryRawData has cut to its length; `spare` are the bytes behind it, up to the
-- capacity of the slice.
module _ (spare : List ℕ) where
  -- `buffer[at:at+n]`, which reaches past the length of the buffer and panics past its capacity.
  unfoldable pub slice : List ℕ → ℕ → ℕ → Res (List ℕ)
  slice b at n = elim (bytes_at (b ++ spare) at n) [ none ↦ panics | some s ↦ ok s ]

  unfoldable pub convert_counter_value : PerfCounterDefinition → List ℕ → ℕ → Res ℤ
  convert_counter_value def buffer at =
      if def.counter_size == 8
      then (do s ← slice buffer at 8; ok (to_signed half64 (le s)))
      else do s ← slice buffer at 4; ok (pos (le s))

  -- The loop of `parseCounterBlock` over the definitions, at the block's offset.
  unfoldable pub parse_counters : List ℕ → ℕ → List PerfCounterDef → Res (List PerfCounter)
  parse_counters b at [] = ok []
  parse_counters b at (def ∷ defs) = do
    value ← convert_counter_value def.raw_data b (at + def.raw_data.counter_offset)
    second_value ←
        if def.has_second_value
        then convert_counter_value def.raw_data b (at + def.raw_data.counter_offset + 8)
        else ok (pos 0)
    counters ← parse_counters b at defs
    ok (record { value = value; def = def; second_value = second_value } ∷ counters)

  unfoldable pub parse_counter_block : List ℕ → ℕ → List PerfCounterDef → Res (ℕ × List PerfCounter)
  parse_counter_block b at defs = do
    byte_length ← binary_read b at counter_block_size le
    counters ← parse_counters b at defs
    ok (byte_length, counters)

-- One round of the loop over the objects: the name of the object, what parsing it gives, and what the
-- later rounds give.
unfoldable pub objects_round :
    Str → Str → Res PerfObject → Res (List PerfObject) → Res (List PerfObject)
objects_round counter_name name parsed later =
    if not (counter_name == []) && not (name == counter_name) then later else do
      object ← parsed
      if not (counter_name == [])
          then ok (object ∷ [])
          else do objects ← later; ok (object ∷ objects)

module _ (lookup_string : ℕ → Str) (utf16_to_string : List ℕ → Str) (spare : List ℕ) where
  unfoldable pub counter_def : PerfCounterDefinition → PerfCounterDef
  counter_def def = record {
    name = lookup_string def.counter_name_title_index;
    name_index = def.counter_name_title_index;
    counter_type = def.counter_type;
    is_counter = has_bits def.counter_type 0x400;
    is_base_value = has_bits def.counter_type 0x00030000;
    is_nanosecond_counter = has_bits def.counter_type 0x00100000;
    has_second_value = def.counter_type == perf_average_bulk;
    raw_data = def;
  }

  -- The definitions follow one another behind the object's structure.
  unfoldable pub read_defs : List ℕ → ℕ → ℕ → Res (List PerfCounterDef)
  read_defs b at zero = ok []
  read_defs b at (suc n) = do
    def ← binary_read b at counter_definition_size counter_definition
    defs ← read_defs b (at + counter_definition_size) n
    ok (counter_def def ∷ defs)

  -- `readUTF16StringAtPos`; an error is dropped and leaves the empty string.
  unfoldable pub read_name : List ℕ → ℕ → ℕ → Str
  read_name b at n = elim (bytes_at b at (n / 2 * 2)) [ none ↦ [] | some s ↦ utf16_to_string s ]

  unfoldable pub read_instances : List ℕ → ℕ → List PerfCounterDef → ℕ → Res (List PerfInstance)
  read_instances b at defs zero = ok []
  read_instances b at defs (suc n) = do
    inst ← binary_read b at instance_definition_size instance_definition
    block ← parse_counter_block spare b (at + inst.byte_length) defs
    instances ← read_instances b (at + inst.byte_length + block.0) defs n
    ok (
        record { name = read_name b (at + inst.name_offset) inst.name_length; counters = block.1 }
        ∷ instances)

  -- With no instances one is made, with the object's own counters.
  unfoldable pub all_instances : List ℕ → ℕ → List PerfCounterDef → ℤ → Res (List PerfInstance)
  all_instances b at defs (pos (suc n)) = read_instances b at defs (suc n)
  all_instances b at defs _ = do
    block ← parse_counter_block spare b at defs
    ok (record { name = []; counters = block.1 } ∷ [])

  -- The body of the loop over the objects, for an object that is not skipped.
  unfoldable pub parse_object : List ℕ → ℕ → PerfObjectType → Res PerfObject
  parse_object b at obj = do
    defs ← read_defs b (at + object_type_size) obj.num_counters
    instances ← all_instances b (at + obj.definition_length) defs obj.num_instances
    ok (record {
      name = lookup_string obj.object_name_title_index;
      name_index = obj.object_name_title_index;
      instances = instances;
      counter_defs = defs;
      frequency = obj.perf_freq;
    })

  -- An object of another name is skipped, the first of the name ends the loop; with no name all are
  -- collected.
  unfoldable pub parse_objects : Str → List ℕ → ℕ → ℕ → Res (List PerfObject)
  parse_objects counter_name b at zero = ok []
  parse_objects counter_name b at (suc n) = do
    obj ← binary_read b at object_type_size object_type
    let later = parse_objects counter_name b (at + obj.total_byte_length) n
    objects_round counter_name (lookup_string obj.object_name_title_index) (parse_object b at obj)
        later

  -- A wrong signature panics.
  unfoldable pub query_performance_data : Str → List ℕ → Res (List PerfObject)
  query_performance_data counter_name buffer = do
    header ← binary_read buffer 0 data_block_size data_block
    if not (header.signature == 80 ∷ 0 ∷ 69 ∷ 0 ∷ 82 ∷ 0 ∷ 70 ∷ 0 ∷ [])
        then panics
        else parse_objects counter_name buffer header.header_length header.num_object_types
