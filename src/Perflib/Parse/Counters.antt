-- ===== src/Perflib/Parse/Counters.antt =====
-- The values of counters: where they stand in the buffer, and that each definition gets one.
use windows_exporter.Base.{
  ℕ, append_assoc, ◌∙◌, ◌+◌, ◌^◌, ◌<◌, ◌≡◌, refl, ap, List, [], ◌∷◌, ◌++◌, map, some, arith, ◌==◌,
  nat_eq, if◌then◌else◌, length, length-append, Bool-cases, inl, inr, subst,
}
use windows_exporter.Perflib.Bytes.{
  ok, bind-ok, pos, to_signed, half64, encode, bytes_at, le-encode, length-encode, drop-append,
  take-append,
}
use windows_exporter.Perflib.RawTypes.{PerfCounterDefinition}
use windows_exporter.Perflib.Parse.{
  PerfCounterDef, PerfCounter, slice, convert_counter_value, parse_counters,
}

bytes_at-middle :
    (before s after : List ℕ)
    → bytes_at (before ++ (s ++ after)) (length before) (length s) ≡ some s
unfolding bytes_at
bytes_at-middle before s after =
    rw (drop-append before (s ++ after), take-append s after)
      (ground (arith, length-append before (s ++ after), length-append s after))

slice-encode :
    (spare before after : List ℕ) (k n : ℕ)
    → slice spare (before ++ (encode k n ++ after)) (length before) k ≡ ok (encode k n)
unfolding slice
slice-encode spare before after k n =
    let found = bytes_at-middle before (encode k n) (after ++ spare) in
    let all : (before ++ (encode k n ++ after)) ++ spare
        ≡ before ++ (encode k n ++ (after ++ spare)) =
      append_assoc before (encode k n ++ after) spare
      ∙ ap (λ l. before ++ l) (append_assoc (encode k n) after spare) in
    rw (slice, all, rw length-encode at found)

-- The bytes that a counter takes.
abbrev pub width : PerfCounterDefinition → ℕ
width def = if def.counter_size == 8 then 8 else 4

-- A counter of size eight is the 64-bit number at its place in two's complement, and one of any other
-- size the unsigned 32-bit number: decoding gives back what was encoded, wherever it stands.
pub convert_counter_value-encode :
    (def : PerfCounterDefinition) (spare before after : List ℕ) (n : ℕ)
    → n < 256 ^ width def
    → convert_counter_value spare def (before ++ (encode (width def) n ++ after)) (length before)
      ≡ ok (if def.counter_size == 8 then to_signed half64 n else pos n)
unfolding convert_counter_value
convert_counter_value-encode def spare before after n h =
    elim (Bool-cases (def.counter_size == 8)) [
      | inl e ↦
          rw (e, slice-encode spare before after 8 n)
            (ap (λ m. ok (to_signed half64 m)) (le-encode 8 n (rw e at h)))
      | inr e ↦
          rw (e, slice-encode spare before after 4 n)
            (ap (λ m. ok (pos m)) (le-encode 4 n (rw e at h)))
    ]

-- A parsed block has one counter for each definition, in the order of the definitions.
parse_counters-defs :
    (spare b : List ℕ) (at : ℕ) (defs : List PerfCounterDef) (counters : List PerfCounter)
    → parse_counters spare b at defs ≡ ok counters
    → map (λ (c : PerfCounter). c.def) counters ≡ defs
unfolding parse_counters
parse_counters-defs spare b at [] counters h =
    let e : [] ≡ counters = cc in subst (λ l. map (λ (c : PerfCounter). c.def) l ≡ []) e refl
parse_counters-defs spare b at (def ∷ defs) counters h =
    let (value, _, h1) =
      bind-ok (convert_counter_value spare def.raw_data b (at + def.raw_data.counter_offset)) _ h in
    let (second, _, h2) =
      bind-ok
        (if def.has_second_value
          then convert_counter_value spare def.raw_data b (at + def.raw_data.counter_offset + 8)
          else ok (pos 0))
        _ h1 in
    let (rest, r, h3) = bind-ok (parse_counters spare b at defs) _ h2 in
    let e : record { value = value; def = def; second_value = second } ∷ rest ≡ counters = cc in
    subst (λ (l : List PerfCounter). map (λ (c : PerfCounter). c.def) l ≡ def ∷ defs) e
      (ap (λ l. def ∷ l) (parse_counters-defs spare b at defs rest r))
