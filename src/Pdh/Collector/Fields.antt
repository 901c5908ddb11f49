-- ===== src/Pdh/Collector/Fields.antt =====
-- The struct fields in which the values of a counter are stored.
use windows_exporter.Base.{
  ℕ, ◌≡◌, refl, ap, sym, subst, ◌∙◌, Bool, true, false, not, ◌&&◌, List, [], ◌∷◌, ◌++◌, Option,
  none, some, arith, ◌==◌, nat_eq, Str, str_eq, length, has_suffix, lookup, insert, lookup-insert,
  if◌then◌else◌, Bool-cases, inl, inr, str_beq_iff,
}
use windows_exporter.Pdh.Collector.Suffixes.{
  bool_ext, has_suffix-append, trim_suffix-append, append-trim_suffix,
}
use windows_exporter.Pdh.Collector.Counters.{
  Calls, Counter, Field, Info, Added, handle, status, second_suffix, trim_suffix, set_field_index,
  add_instance, after_added, format_counter_path, add_instances, fill_instances, add_tagged,
  add_field, add_visible, add_fields, Built, read_info, read_time_base, found_or_new, new_counter,
}

-- The text of the tag of a counter's first or second value.
abbrev pub tag_of : Str → Bool → Str
tag_of name true = name ++ second_suffix
tag_of name false = name

abbrev pub is_tag : Str → Option Str → Bool
is_tag tag none = false
is_tag tag (some t) = t == tag

abbrev pub is_tagged : Str → Field → Bool
is_tagged tag f = f.is_float && is_tag tag f.perfdata

-- The index of the last float64 field with a tag, or `last` where there is none.
unfoldable pub last_index : Str → List Field → Option ℕ → Option ℕ
last_index tag [] last = last
last_index tag (f ∷ fields) last =
    last_index tag fields (if is_tagged tag f then some f.index else last)

-- Where the collector stores the counter's first or second value.
abbrev pub stored_at : Bool → Option Counter → Option ℕ
stored_at second none = none
stored_at true (some c) = c.def.field_index_second_value
stored_at false (some c) = c.def.field_index_value

tag_of-second :
    (name tag : Str)
    → (tag == name ++ second_suffix)
      ≡ ((trim_suffix tag second_suffix == name) && has_suffix tag second_suffix)
tag_of-second name tag =
    let p = second_suffix in
    bool_ext (tag == name ++ p) ((trim_suffix tag p == name) && has_suffix tag p)
      (λ h.
        let e : tag ≡ name ++ p = (str_beq_iff tag (name ++ p)).0 h in
        subst (λ t. ((trim_suffix t p == name) && has_suffix t p) ≡ true) (sym e)
          (rw (trim_suffix-append name p, has_suffix-append name p)
            (ground (arith, str_beq_iff name name))))
      (λ h.
        let g : has_suffix tag p ≡ true = ground arith in
        let e : trim_suffix tag p ≡ name =
          (str_beq_iff (trim_suffix tag p) name).0 (ground arith) in
        (str_beq_iff tag (name ++ p)).1 (sym (append-trim_suffix tag p g) ∙ ap (λ s. s ++ p) e))

tag_of-first :
    (name tag : Str)
    → has_suffix name second_suffix ≡ false
    → (tag == name)
      ≡ ((trim_suffix tag second_suffix == name) && not (has_suffix tag second_suffix))
tag_of-first name tag h = elim (Bool-cases (has_suffix tag second_suffix)) [
  | inl e ↦
      bool_ext (tag == name)
        ((trim_suffix tag second_suffix == name) && not (has_suffix tag second_suffix))
        (λ g.
          let same = (str_beq_iff tag name).0 g in
          absurd (cc (e, h, ap (λ t. has_suffix t second_suffix) same)))
        (λ g. absurd (ground arith))
  | inr e ↦ rw e (ground arith)
]

-- PDH's answers do not touch the indices.
stored_at-read_info :
    (i : Info) (c : Counter) (second : Bool)
    → stored_at second (some (read_info i c).0) ≡ stored_at second (some c)
unfolding read_info read_time_base
stored_at-read_info i c true = ground arith
stored_at-read_info i c false = ground arith

stored_at-after_added :
    (calls : Calls) (f : Field) (inst : Str) (c : Counter) (a : Added) (second : Bool)
    → stored_at second (some (after_added calls f inst c a).0) ≡ stored_at second (some c)
unfolding after_added
stored_at-after_added calls f inst c (status code) second = refl
stored_at-after_added calls f inst c (handle h) true =
    stored_at-read_info (calls.info h) (record c { instances = insert inst h c.instances }) true
stored_at-after_added calls f inst c (handle h) false =
    stored_at-read_info (calls.info h) (record c { instances = insert inst h c.instances }) false

stored_at-add_instances :
    (calls : Calls) (object : Str) (f : Field) (instances : List Str) (c : Counter) (second : Bool)
    → stored_at second (some (add_instances calls object f instances c).0)
      ≡ stored_at second (some c)
unfolding add_instances add_instance
stored_at-add_instances calls object f [] c second = refl
stored_at-add_instances calls object f (inst ∷ rest) c second =
    stored_at-add_instances calls object f rest (add_instance calls object f inst c).0 second
    ∙ stored_at-after_added calls f inst c
        (calls.add_counter (format_counter_path object inst c.def.name)) second

stored_at-fill_instances :
    (calls : Calls) (object : Str) (f : Field) (instances : List Str) (c : Counter) (second : Bool)
    → stored_at second (some (fill_instances calls object f instances c).0)
      ≡ stored_at second (some c)
stored_at-fill_instances calls object f instances c second =
    elim (Bool-cases (length c.instances == 0)) [
      | inl e ↦ rw e (stored_at-add_instances calls object f instances c second)
      | inr e ↦ rw e
    ]

stored_at-set_field_index :
    (b second : Bool) (index : ℕ) (name : Str) (o : Option Counter)
    → stored_at second (some (set_field_index b index (found_or_new name o)))
      ≡ (if (if second then b else not b) then some index else stored_at second o)
unfolding set_field_index new_counter
stored_at-set_field_index true true index name none = refl
stored_at-set_field_index true false index name none = refl
stored_at-set_field_index false true index name none = refl
stored_at-set_field_index false false index name none = refl
stored_at-set_field_index true true index name (some c) = refl
stored_at-set_field_index true false index name (some c) = refl
stored_at-set_field_index false true index name (some c) = refl
stored_at-set_field_index false false index name (some c) = refl

tag_of-names :
    (name tag : Str) (second : Bool)
    → has_suffix name second_suffix ≡ false
    → (tag == tag_of name second) ≡ (
        (trim_suffix tag second_suffix == name)
        && (if second then has_suffix tag second_suffix else not (has_suffix tag second_suffix)))
tag_of-names name tag true h = tag_of-second name tag
tag_of-names name tag false h = tag_of-first name tag h

stored_at-add_tagged :
    (calls : Calls) (object : Str) (instances : List Str) (f : Field) (tag name : Str)
    (second : Bool) (built : Built)
    → has_suffix name second_suffix ≡ false
    → stored_at second (lookup name (add_tagged calls object instances f tag built).0)
      ≡ (if tag == tag_of name second then some f.index else stored_at second (lookup name built.0))
unfolding add_tagged
stored_at-add_tagged calls object instances f tag name second (counters, errs) h =
    let p = second_suffix in
    let counter_name = trim_suffix tag p in
    let c =
      set_field_index (has_suffix tag p) f.index
        (found_or_new counter_name (lookup counter_name counters)) in
    let stored =
      stored_at-fill_instances calls object f instances c second
      ∙ stored_at-set_field_index (has_suffix tag p) second f.index counter_name
          (lookup counter_name counters) in
    rw
      (
        lookup-insert counter_name name (fill_instances calls object f instances c).0 counters,
        tag_of-names name tag second h,
      )
      (elim (Bool-cases (counter_name == name)) [
        | inl e ↦ rw e (stored ∙ rw ((str_beq_iff counter_name name).0 e) refl)
        | inr e ↦ rw e
      ])

stored_at-add_visible :
    (calls : Calls) (object : Str) (instances : List Str) (f : Field) (o : Option Str) (name : Str)
    (second : Bool) (built : Built)
    → has_suffix name second_suffix ≡ false
    → stored_at second (lookup name (add_visible calls object instances f o built).0) ≡ (
        if f.is_float && is_tag (tag_of name second) o
        then some f.index
        else stored_at second (lookup name built.0))
unfolding add_visible
stored_at-add_visible calls object instances f none name second built h = ground arith
stored_at-add_visible calls object instances f (some tag) name second (counters, errs) h =
    let one = stored_at-add_tagged calls object instances f tag name second (counters, errs) h in
    elim (Bool-cases f.is_float) [ inl e ↦ simp (e, one) | inr e ↦ simp e ]

stored_at-more :
    (calls : Calls) (object : Str) (instances : List Str) (fields : List Field) (name : Str)
    (second : Bool) (built : Built)
    → has_suffix name second_suffix ≡ false
    → stored_at second (lookup name (add_fields calls object instances fields built).0)
      ≡ last_index (tag_of name second) fields (stored_at second (lookup name built.0))
unfolding add_fields add_field last_index
stored_at-more calls object instances [] name second built h = refl
stored_at-more calls object instances (f ∷ fields) name second built h =
    stored_at-more calls object instances fields name second
      (add_field calls object instances f built) h
    ∙ ap (last_index (tag_of name second) fields)
        (stored_at-add_visible calls object instances f f.perfdata name second built h)

-- After the loop over the fields of the value type, the collector has a counter's first value stored in the
-- last float64 field that is tagged with the counter's name, and its second value in the last one that is
-- tagged with the name and `,secondvalue`; without such a field it stores none, whatever PDH answers. The
-- name of a counter does not itself end in `,secondvalue`.
pub stored_at-add_fields :
    (calls : Calls) (object : Str) (instances : List Str) (fields : List Field) (name : Str)
    (second : Bool)
    → has_suffix name second_suffix ≡ false
    → stored_at second (lookup name (add_fields calls object instances fields ([], [])).0)
      ≡ last_index (tag_of name second) fields none
unfolding lookup
stored_at-add_fields calls object instances fields name second h =
    stored_at-more calls object instances fields name second ([], []) h
