-- ===== src/Perflib/Rows.antt =====
-- `Collect` of internal/pdh/registry/collector.go: from the objects that the query gives to the rows of the
-- result. The checks by reflection of what the caller passes are left out.
use windows_exporter.Base.{
  ℕ, All, select, select-append, ◌≡◌, refl, sym, ap, ◌∙◌, Bool, false, not, ◌&&◌, ◌||◌, List, [],
  ◌∷◌, ◌++◌, append_assoc, Option, none, some, ◌==◌, nat_eq, Str, str_eq, codes, has_suffix, Map,
  lookup, length, if◌then◌else◌, Bool-cases, Option-cases, append-nil, inl, inr,
}
use windows_exporter.Perflib.Bytes.{ℤ, pos}
use windows_exporter.Perflib.Parse.{PerfCounter, PerfInstance, PerfObject}
use windows_exporter.Pdh.{
  is_zero, set_required, CounterDef, Row, plain, ticks, elapsed, set_optional, instance_empty,
  perf_elapsed_time, perf_100nsec_timer, perf_precision_100ns_timer,
}
use windows_exporter.Pdh.Rows.{
  row_names, row_names-set_optional, row_names-append, Written-set_field,
}

-- `WindowsEpoch` of const.go.
abbrev windows_epoch : ℤ
windows_epoch = pos 116444736000000000

-- The `switch` on the counter's type. It panics, and the answer is `none`, where an elapsed time is
-- divided by a frequency of 0, and where an elapsed time or a timer has no `FieldIndexValue`.
unfoldable pub write_counter : CounterDef → PerfCounter → ℤ → ℕ → List Row → Option (List Row)
write_counter c counter frequency index rows =
    if counter.def.counter_type == perf_elapsed_time
    then (if is_zero frequency
        then none
        else set_required index c.field_index_value (elapsed counter.value windows_epoch frequency)
            rows)
    else if counter.def.counter_type == perf_100nsec_timer
        || counter.def.counter_type == perf_precision_100ns_timer
    then set_required index c.field_index_value (ticks counter.value) rows
    else some (
        set_optional index c.field_index_value (plain counter.value)
          (set_optional index c.field_index_second_value (plain counter.second_value) rows))

-- The name of an instance's row; `none` for an aggregate.
unfoldable pub row_name_of : Str → Option Str
row_name_of name =
    if has_suffix name (codes "_Total")
    then none
    else if name == [] || name == codes "*"
    then some instance_empty
    else some name

module _ (counters : Map Str CounterDef) (has_name : Bool) where
  -- From here on `none` is a panic of `Collect`.
  add_counter : PerfCounter → ℤ → ℕ → List Row → Option (List Row)
  add_counter counter frequency index rows =
      if counter.def.is_base_value && not counter.def.is_nanosecond_counter
      then some rows
      else elim (lookup counter.def.name counters) [
        | none ↦ some rows
        | some c ↦ write_counter c counter frequency index rows
      ]

  unfoldable pub add_counters : List PerfCounter → ℤ → ℕ → List Row → Option (List Row)
  unfolding add_counter
  add_counters [] frequency index rows = some rows
  add_counters (counter ∷ rest) frequency index rows =
      elim (add_counter counter frequency index rows) [
        | none ↦ none
        | some next ↦ add_counters rest frequency index next
      ]

  add_row : Option Str → List PerfCounter → ℤ → List Row → Option (List Row)
  add_row none instance_counters frequency rows = some rows
  add_row (some name) instance_counters frequency rows =
      add_counters instance_counters frequency (length rows) (
        rows
        ++ record { name = if has_name then some name else none; metric_type = none; fields = [] }
          ∷ [])

  unfoldable pub add_instances : List PerfInstance → ℤ → List Row → Option (List Row)
  unfolding add_row
  add_instances [] frequency rows = some rows
  add_instances (inst ∷ rest) frequency rows =
      elim (add_row (row_name_of inst.name) inst.counters frequency rows) [
        | none ↦ none
        | some next ↦ add_instances rest frequency next
      ]

  unfoldable pub add_objects : Str → List PerfObject → List Row → Option (List Row)
  add_objects object [] rows = some rows
  add_objects object (o ∷ rest) rows =
      let made =
        if o.name == object then add_instances o.instances o.frequency rows else some rows in
      elim made [ none ↦ none | some next ↦ add_objects object rest next ]

  -- Without objects, or without instances of the first, the rows of the caller stay as they were.
  unfoldable pub collect_objects : Str → List PerfObject → List Row → Option (List Row)
  collect_objects object [] prior = some prior
  collect_objects object (o ∷ rest) prior =
      if length o.instances == 0 then some prior else add_objects object (o ∷ rest) []

-- The names of the instances of the objects of a name, in order.
abbrev instances_of : List PerfInstance → List Str
instances_of [] = []
instances_of (inst ∷ rest) = inst.name ∷ instances_of rest

abbrev pub named_instances : Str → List PerfObject → List Str
named_instances object [] = []
named_instances object (o ∷ rest) =
    let later = named_instances object rest in
    if o.name == object then instances_of o.instances ++ later else later

-- Not an aggregate, and what a row shows for an instance.
abbrev pub is_single : Str → Bool
is_single name = not (has_suffix name (codes "_Total"))

abbrev pub shown_names : Bool → List Str → List (Option Str)
shown_names has_name [] = []
shown_names has_name (name ∷ names) =
    (if has_name
      then some (if name == [] || name == codes "*" then codes "------" else name)
      else none)
    ∷ shown_names has_name names

shown_names-append :
    (has_name : Bool) (xs ys : List Str)
    → shown_names has_name (xs ++ ys) ≡ shown_names has_name xs ++ shown_names has_name ys
shown_names-append has_name [] ys = refl
shown_names-append has_name (x ∷ xs) ys = rw (shown_names-append has_name xs ys) refl

-- Every counter has a field for its value.
abbrev pub HasFields : Map Str CounterDef → Type 0
HasFields counters =
    (name : Str) (c : CounterDef)
    → lookup name counters ≡ some c
    → (field : ℕ) × (c.field_index_value ≡ some field)

-- There is no panic, and the rows have these names.
abbrev Named : List (Option Str) → Option (List Row) → Type 0
Named names r = (next : List Row) × (r ≡ some next) × (row_names next ≡ names)

module _ (counters : Map Str CounterDef) (has_name : Bool) (fields : HasFields counters) where
  Named-write_counter :
      (name : Str) (c : CounterDef) (counter : PerfCounter) (frequency : ℤ) (index : ℕ)
      (rows : List Row)
      → lookup name counters ≡ some c
      → is_zero frequency ≡ false
      → Named (row_names rows) (write_counter c counter frequency index rows)
  unfolding write_counter
  Named-write_counter name c counter frequency index rows l z =
      let (field, f) = fields name c l in
      elim (Bool-cases (counter.def.counter_type == perf_elapsed_time)) [
        | inl e ↦
            rw (e, z, f)
              (Written-set_field index field (elapsed counter.value windows_epoch frequency) rows)
        | inr e ↦
            elim (Bool-cases (
              counter.def.counter_type == perf_100nsec_timer
              || counter.def.counter_type == perf_precision_100ns_timer)) [
                | inl t ↦ rw (e, t, f) (Written-set_field index field (ticks counter.value) rows)
                | inr t ↦
                    let inner =
                      set_optional index c.field_index_second_value (plain counter.second_value)
                        rows in
                    rw (e, t)
                      (
                        set_optional index c.field_index_value (plain counter.value) inner,
                        refl,
                        row_names-set_optional index c.field_index_value (plain counter.value) inner
                            ∙ row_names-set_optional index c.field_index_second_value
                                (plain counter.second_value) rows,
                      )
              ]
      ]

  Named-add_counter :
      (counter : PerfCounter) (frequency : ℤ) (index : ℕ) (rows : List Row)
      → is_zero frequency ≡ false
      → Named (row_names rows) (add_counter counters has_name counter frequency index rows)
  unfolding add_counter
  Named-add_counter counter frequency index rows z =
      elim (Bool-cases (counter.def.is_base_value && not counter.def.is_nanosecond_counter)) [
        | inl b ↦ rw b (rows, refl, refl)
        | inr b ↦ elim (Option-cases (lookup counter.def.name counters)) [
          | inl e ↦ rw (b, e) (rows, refl, refl)
          | inr (c, e) ↦
              rw (b, e) (Named-write_counter counter.def.name c counter frequency index rows e z)
        ]
      ]

  Named-add_counters :
      (cs : List PerfCounter) (frequency : ℤ) (index : ℕ) (rows : List Row)
      → is_zero frequency ≡ false
      → Named (row_names rows) (add_counters counters has_name cs frequency index rows)
  unfolding add_counters
  Named-add_counters [] frequency index rows z = (rows, refl, refl)
  Named-add_counters (c ∷ cs) frequency index rows z =
      let (next, e, n) = Named-add_counter c frequency index rows z in
      let (last, f, m) = Named-add_counters cs frequency index next z in
      rw (add_counters, e, f) (last, refl, m ∙ n)

  Named-add_row :
      (inst : PerfInstance) (frequency : ℤ) (rows : List Row)
      → is_zero frequency ≡ false
      → Named
          (row_names rows ++ shown_names has_name (select is_single (inst.name ∷ [])))
          (add_row counters has_name (row_name_of inst.name) inst.counters frequency rows)
  unfolding add_row row_name_of
  Named-add_row inst frequency rows z = elim (Bool-cases (has_suffix inst.name (codes "_Total"))) [
    | inl t ↦ rw t (rows, refl, sym (append-nil (row_names rows)))
    | inr t ↦ elim (Bool-cases (inst.name == [] || inst.name == codes "*")) [
      | inl b ↦
          let row : Row = record {
            name = if has_name then some instance_empty else none;
            metric_type = none;
            fields = [];
          } in
          let (next, e, n) =
            Named-add_counters inst.counters frequency (length rows) (rows ++ row ∷ []) z in
          rw (t, b) (next, e, n ∙ (row_names-append rows (row ∷ []) ∙ unfold row_names in refl))
      | inr b ↦
          let row : Row = record {
            name = if has_name then some inst.name else none;
            metric_type = none;
            fields = [];
          } in
          let (next, e, n) =
            Named-add_counters inst.counters frequency (length rows) (rows ++ row ∷ []) z in
          rw (t, b) (next, e, n ∙ (row_names-append rows (row ∷ []) ∙ unfold row_names in refl))
    ]
  ]

  Named-add_instances :
      (instances : List PerfInstance) (frequency : ℤ) (rows : List Row)
      → is_zero frequency ≡ false
      → Named
          (row_names rows ++ shown_names has_name (select is_single (instances_of instances)))
          (add_instances counters has_name instances frequency rows)
  unfolding add_instances
  Named-add_instances [] frequency rows z = (rows, refl, sym (append-nil (row_names rows)))
  Named-add_instances (inst ∷ rest) frequency rows z =
      let (next, e, n) = Named-add_row inst frequency rows z in
      let (last, f, m) = Named-add_instances rest frequency next z in
      let one = select is_single (inst.name ∷ []) in
      let more = select is_single (instances_of rest) in
      rw (add_instances, e, f)
        (
          last,
          refl,
          m
              ∙ ap (λ l. l ++ shown_names has_name more) n
              ∙ append_assoc (row_names rows) (shown_names has_name one) (shown_names has_name more)
              ∙ ap (λ l. row_names rows ++ l)
                  (sym (shown_names-append has_name one more)
                    ∙ ap (shown_names has_name)
                        (sym (select-append is_single (inst.name ∷ []) (instances_of rest)))),
        )

  Named-add_objects :
      (object : Str) (objects : List PerfObject) (rows : List Row)
      → All (λ (o : PerfObject). is_zero o.frequency ≡ false) objects
      → Named
          (row_names rows
            ++ shown_names has_name (select is_single (named_instances object objects)))
          (add_objects counters has_name object objects rows)
  unfolding add_objects
  Named-add_objects object [] rows z = (rows, refl, sym (append-nil (row_names rows)))
  Named-add_objects object (o ∷ rest) rows z = elim (Bool-cases (o.name == object)) [
    | inl e ↦
        let (next, f, n) = Named-add_instances o.instances o.frequency rows (z.0) in
        let (last, g, m) = Named-add_objects object rest next (z.1) in
        let first = select is_single (instances_of o.instances) in
        let more = select is_single (named_instances object rest) in
        rw (add_objects, e, f, g)
          (
            last,
            refl,
            m
                ∙ ap (λ l. l ++ shown_names has_name more) n
                ∙ append_assoc (row_names rows) (shown_names has_name first)
                    (shown_names has_name more)
                ∙ ap (λ l. row_names rows ++ l)
                    (sym (shown_names-append has_name first more)
                      ∙ ap (shown_names has_name) (
                          sym (
                            select-append is_single (instances_of o.instances)
                              (named_instances object rest)))),
          )
    | inr e ↦ rw (add_objects, e) (Named-add_objects object rest rows (z.1))
  ]

  -- Where the first object has an instance, every counter has a field for its value and no object has
  -- the frequency 0, there is no panic, and there is one row for each instance of the objects of the
  -- name whose name does not end in "_Total", in order, under the instance's name, or under "------"
  -- where that is empty or "*".
  pub row_names-collect_objects :
      (object : Str) (o : PerfObject) (rest : List PerfObject) (prior : List Row)
      → (length o.instances == 0) ≡ false
      → All (λ (p : PerfObject). is_zero p.frequency ≡ false) (o ∷ rest)
      → (rows : List Row) × (collect_objects counters has_name object (o ∷ rest) prior ≡ some rows)
        × (row_names rows
            ≡ shown_names has_name (select is_single (named_instances object (o ∷ rest))))
  unfolding collect_objects
  row_names-collect_objects object o rest prior h z =
      let (rows, e, n) = Named-add_objects object (o ∷ rest) [] z in
      rw h (rows, e, n ∙ unfold row_names in refl)
