-- ===== src/Mi/Rows.antt =====
-- When the rows of a query stand for their instances alone.
use windows_exporter.Base.{
  ℕ, suc, ◌≡◌, refl, ap, ◌∙◌, Bool, true, false, List, [], ◌∷◌, ◌++◌, arith, ◌==◌, ◌≢◌, nat_eq,
  subst, Str, ◌&&◌, contains, if◌then◌else◌, str_eq, All, Bool-cases, inl, inr,
}
use windows_exporter.Errors.{Error, Result, ok, err, is, mi_result}
use windows_exporter.Mi.{
  text, Field, Value, text_value, Instance, Answer, failure, no_instance, instance_of, Mode,
  session, operation, Written, written, kept, panics, unsupported, read_field, write, null_text,
  set_text, set_bool, set_uint, set_int, set_real, missing, no_such_property, Kind, boolean, real,
  unsigned, signed, Element, Row, Filled, filled, failed, panicked, cons_value, after_field,
  fill_row, after_count, after_row, Query, done, unmarshal, zero_value, zero_row, type_string,
}

-- What `GetElement` answers for a field that gets a value of its own. A session leaves the field as it
-- is for a null string and for the error that the property is missing.
abbrev pub IsGiven : Mode → Result Element → Type 0
IsGiven operation r = Unit
IsGiven session (ok e) = (e.value_type == type_string && e.value == 0) ≡ false
IsGiven session (err e) = is e (mi_result no_such_property) ≡ false

-- The instance has a value for every field with a tag.
abbrev pub IsComplete : Mode → List Field → Instance → Type 0
IsComplete mode fields i =
    All (λ (f : Field). (f.mi_tag == []) ≡ false → IsGiven mode (i.get_element f.mi_tag)) fields

abbrev pub IsCompleteAnswer : Mode → List Field → Answer → Type 0
IsCompleteAnswer mode fields (instance_of i) = IsComplete mode fields i
IsCompleteAnswer mode fields _ = Unit

set_bool_writes : (kind : Kind) (b : Bool) → set_bool kind b ≢ kept
unfolding set_bool
set_bool_writes boolean b h = cc
set_bool_writes text b h = cc
set_bool_writes real b h = cc
set_bool_writes (unsigned bits) b h = cc
set_bool_writes (signed bits) b h = cc

set_uint_writes : (kind : Kind) (n : ℕ) → set_uint kind n ≢ kept
unfolding set_uint
set_uint_writes boolean n h = cc
set_uint_writes text n h = cc
set_uint_writes real n h = cc
set_uint_writes (unsigned bits) n h = cc
set_uint_writes (signed bits) n h = cc

set_int_writes : (kind : Kind) (n : ℕ) → set_int kind n ≢ kept
unfolding set_int
set_int_writes boolean n h = cc
set_int_writes text n h = cc
set_int_writes real n h = cc
set_int_writes (unsigned bits) n h = cc
set_int_writes (signed bits) n h = cc

set_text_writes : (kind : Kind) (s : Str) → set_text kind s ≢ kept
unfolding set_text
set_text_writes boolean s h = cc
set_text_writes text s h = cc
set_text_writes real s h = cc
set_text_writes (unsigned bits) s h = cc
set_text_writes (signed bits) s h = cc

set_real_writes : (kind : Kind) (n : ℕ) → set_real kind n ≢ kept
unfolding set_real
set_real_writes boolean n h = cc
set_real_writes text n h = cc
set_real_writes real n h = cc
set_real_writes (unsigned bits) n h = cc
set_real_writes (signed bits) n h = cc

-- One of two that both write.
either_writes :
    (b : Bool) (x y : Written) → x ≢ kept → (b ≡ false → y ≢ kept) → (if b then x else y) ≢ kept
either_writes true x y h k = h
either_writes false x y h k = k refl

null_given :
    (mode : Mode) (kind : Kind) (e : Element)
    → IsGiven mode (ok e)
    → (e.value_type == type_string && e.value == 0) ≡ true
    → null_text mode kind ≢ kept
unfolding null_text
null_given session kind e g b = absurd (cc (b, g))
null_given operation kind e g b = set_text_writes kind []

missing_given :
    (mode : Mode) (text_at : ℕ → Str) (e : Error)
    → IsGiven mode (err e)
    → missing mode text_at e ≢ ok kept
unfolding missing
missing_given session text_at e g h = ground (arith)
missing_given operation text_at e g h = cc

module _ (mode : Mode) (text_at : ℕ → Str) where
  -- The `switch` leaves a field as it is only for a null string.
  write_given : (kind : Kind) (e : Element) → IsGiven mode (ok e) → write mode text_at kind e ≢ kept
  unfolding write
  write_given kind e g =
      either_writes (e.value_type == 0) _ _ (set_bool_writes kind (e.value == 1)) (λ n0.
        either_writes (contains (1 ∷ 3 ∷ 5 ∷ 7 ∷ []) e.value_type) _ _
          (set_uint_writes kind e.value)
          (λ n1.
            either_writes (contains (2 ∷ 4 ∷ 6 ∷ 8 ∷ []) e.value_type) _ _
              (set_int_writes kind e.value)
              (λ n2. elim (Bool-cases (e.value_type == type_string)) [
                | inl t ↦ elim (Bool-cases (e.value == 0)) [
                  | inl z ↦ rw (t, z) (null_given mode kind e g (ground arith))
                  | inr z ↦ rw (t, z) (set_text_writes kind (text_at e.value))
                ]
                | inr t ↦ rw t (
                    either_writes (contains (9 ∷ 10 ∷ []) e.value_type) _ _
                      (set_real_writes kind e.value) (λ n3 h. cc))
              ])))

  answer_given :
      (kind : Kind) (r : Result Element)
      → IsGiven mode r
      → (elim r [ ok e ↦ ok (write mode text_at kind e) | err e ↦ missing mode text_at e ])
        ≢ ok kept
  answer_given kind (ok e) g h =
      let k : write mode text_at kind e ≡ kept = cc in write_given kind e g k
  answer_given kind (err e) g h = missing_given mode text_at e g h

  read_given :
      (i : Instance) (f : Field)
      → (f.mi_tag == []) ≡ false
      → IsGiven mode (i.get_element f.mi_tag)
      → read_field mode text_at i f ≢ ok kept
  unfolding read_field
  read_given i f t g = rw t (answer_given f.kind (i.get_element f.mi_tag) g)

  -- The loop with a new row for each instance.
  pub unmarshal_fresh : List Field → List Answer → List Row → Query
  unmarshal_fresh fields [] rows = done rows
  unmarshal_fresh fields (failure e ∷ answers) rows = failed e rows
  unmarshal_fresh fields (no_instance ∷ answers) rows = done rows
  unmarshal_fresh fields (instance_of i ∷ answers) rows = after_count i.element_count rows (
      after_row i.more_results rows (fill_row mode text_at i fields (zero_row fields))
        (λ next. unmarshal_fresh fields answers (rows ++ next ∷ [])))

  -- Fields without a tag have their zero value.
  abbrev IsBase : List Field → Row → Type 0
  IsBase [] [] = Unit
  IsBase (f ∷ fields) (v ∷ row) =
      ((f.mi_tag == []) ≡ true → v ≡ zero_value f.kind) × IsBase fields row
  IsBase _ _ = ⊥

  IsBase-zero_row : (fields : List Field) → IsBase fields (zero_row fields)
  IsBase-zero_row [] = tt
  IsBase-zero_row (f ∷ fields) = (λ h. refl, IsBase-zero_row fields)

  after_field-kept :
      (old old' : Value) (r : Result Written) (later : Filled)
      → (r ≡ ok kept → old ≡ old')
      → after_field old r later ≡ after_field old' r later
  after_field-kept old old' (ok kept) later h = ap (λ v. cons_value v later) (h refl)
  after_field-kept old old' (ok (written v)) later h = refl
  after_field-kept old old' (ok panics) later h = refl
  after_field-kept old old' (ok unsupported) later h = refl
  after_field-kept old old' (err e) later h = refl

  -- A complete instance leaves nothing of the row before it.
  fill_row-zero_row :
      (i : Instance) (fields : List Field) (row : Row)
      → IsComplete mode fields i
      → IsBase fields row
      → fill_row mode text_at i fields row ≡ fill_row mode text_at i fields (zero_row fields)
  unfolding fill_row
  fill_row-zero_row i [] [] c b = refl
  fill_row-zero_row i [] (v ∷ row) c b = absurd b
  fill_row-zero_row i (f ∷ fields) [] c b = absurd b
  fill_row-zero_row i (f ∷ fields) (v ∷ row) c b =
      ap (λ later. after_field v (read_field mode text_at i f) later)
        (fill_row-zero_row i fields row c.1 b.1)
      ∙ after_field-kept v (zero_value f.kind) (read_field mode text_at i f) _ (λ k.
        elim (Bool-cases (f.mi_tag == [])) [
          | inl t ↦ b.0 t
          | inr t ↦ absurd (read_given i f t (c.0 t) k)
        ])

  read_field_untagged :
      (i : Instance) (f : Field) → (f.mi_tag == []) ≡ true → read_field mode text_at i f ≡ ok kept
  unfolding read_field
  read_field_untagged i f t = rw t

  -- What a row that is filled begins with, and what it goes on with.
  filled-after_field :
      (old : Value) (r : Result Written) (later : Filled) {next : Row}
      → after_field old r later ≡ filled next
      → (v : Value) × (rest : Row) × (next ≡ v ∷ rest)
        × (later ≡ filled rest)
        × (r ≡ ok kept → v ≡ old)
  filled-after_field old (ok kept) (filled row) h = (old, row, cc, refl, λ k. refl)
  filled-after_field old (ok (written v)) (filled row) h = (v, row, cc, refl, λ k. cc)
  filled-after_field old (ok kept) (failed e) h = cc
  filled-after_field old (ok kept) panicked h = cc
  filled-after_field old (ok (written v)) (failed e) h = cc
  filled-after_field old (ok (written v)) panicked h = cc
  filled-after_field old (ok panics) later h = cc
  filled-after_field old (ok unsupported) later h = cc
  filled-after_field old (err e) later h = cc

  IsBase-fill_row :
      (i : Instance) (fields : List Field) (row next : Row)
      → IsBase fields row
      → fill_row mode text_at i fields row ≡ filled next
      → IsBase fields next
  unfolding fill_row
  IsBase-fill_row i [] [] next b h = let e : [] ≡ next = cc in subst (IsBase []) e tt
  IsBase-fill_row i [] (v ∷ row) next b h = absurd b
  IsBase-fill_row i (f ∷ fields) [] next b h = absurd b
  IsBase-fill_row i (f ∷ fields) (v ∷ row) next b h =
      let (w, rest, e, l, k) = filled-after_field v (read_field mode text_at i f) _ h in
      rw e (λ t. k (read_field_untagged i f t) ∙ b.0 t, IsBase-fill_row i fields row rest b.1 l)

  after_row-same :
      (more : Bool) (rows : List Row) (r : Filled) (k k' : Row → Query)
      → ((next : Row) → r ≡ filled next → k next ≡ k' next)
      → after_row more rows r k ≡ after_row more rows r k'
  after_row-same more rows (failed e) k k' h = refl
  after_row-same more rows panicked k k' h = refl
  after_row-same true rows (filled next) k k' h = h next refl
  after_row-same false rows (filled next) k k' h = refl

  unmarshal-fresh_from :
      (fields : List Field) (answers : List Answer) (row : Row) (rows : List Row)
      → All (IsCompleteAnswer mode fields) answers
      → IsBase fields row
      → unmarshal mode text_at fields answers row rows ≡ unmarshal_fresh fields answers rows
  unfolding unmarshal unmarshal_fresh
  unmarshal-fresh_from fields [] row rows c b = refl
  unmarshal-fresh_from fields (failure e ∷ answers) row rows c b = refl
  unmarshal-fresh_from fields (no_instance ∷ answers) row rows c b = refl
  unmarshal-fresh_from fields (instance_of i ∷ answers) row rows c b =
      ap (after_count i.element_count rows) (
        ap
          (λ r.
            after_row i.more_results rows r
              (λ next. unmarshal mode text_at fields answers next (rows ++ next ∷ [])))
          (fill_row-zero_row i fields row c.0 b)
        ∙ after_row-same i.more_results rows _ _ _ (λ next e.
          unmarshal-fresh_from fields answers next (rows ++ next ∷ []) c.1
            (IsBase-fill_row i fields (zero_row fields) next (IsBase-zero_row fields) e)))

-- `Unmarshal` of an operation always gives what it would give with a new row for each instance, so that
-- nothing of one instance shows in the row of another. `QueryUnmarshal` of a session does where
-- `GetElement` answers for every tag of the fields, in every instance, with an element that is no null
-- string or with another error than that the property is missing.
pub unmarshal-fresh :
    (mode : Mode) (text_at : ℕ → Str) (fields : List Field) (answers : List Answer)
    → All (IsCompleteAnswer mode fields) answers
    → unmarshal mode text_at fields answers (zero_row fields) []
      ≡ unmarshal_fresh mode text_at fields answers []
unmarshal-fresh mode text_at fields answers c =
    unmarshal-fresh_from mode text_at fields answers (zero_row fields) [] c
      (IsBase-zero_row mode text_at fields)

-- A string field that is not null in one instance and null in the next.
pub record IsStale (f : Field) (i j : Instance) (at : ℕ) : Type 0 where
  pub is_text : f.kind ≡ text
  pub has_tag : (f.mi_tag == []) ≡ false
  pub first_string :
      i.get_element f.mi_tag ≡ ok (record { value = suc at; value_type = type_string })
  pub then_null : j.get_element f.mi_tag ≡ ok (record { value = 0; value_type = type_string })
  pub first_some : i.element_count ≡ ok 1
  pub second_some : j.element_count ≡ ok 1
  pub follows : i.more_results ≡ true
  pub ends : j.more_results ≡ false

-- `QueryUnmarshal` of a session gives a null string the value of the row before it.
unmarshal_stale :
    (text_at : ℕ → Str) (f : Field) (i j : Instance) (at : ℕ)
    → IsStale f i j at
    → unmarshal session text_at (f ∷ []) (instance_of i ∷ instance_of j ∷ []) (zero_row (f ∷ [])) []
      ≡ done ((text_value (text_at (suc at)) ∷ []) ∷ (text_value (text_at (suc at)) ∷ []) ∷ [])
unfolding unmarshal fill_row read_field write null_text set_text
unmarshal_stale text_at f i j at s = ground arith
