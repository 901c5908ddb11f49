-- ===== src/Mi.antt =====
-- internal/mi/session.go and operation.go: how the instances that a WMI query gives become rows of a
-- struct. What the calls of the MI library answer is given: `Answer` is one answer of
-- `GetInstance`, with what `GetElementCount` and `GetElement` then answer, and `text_at` reads the
-- string at an address. The checks by reflection of what the caller passes are left out.
pub mod Rows
use windows_exporter.Base.{
  ℕ, ◌+◌, ◌-◌, ◌%◌, ◌^◌, ◌≡◌, Bool, true, false, ◌&&◌, ◌||◌, List, [], ◌∷◌, ◌++◌, ◌==◌, nat_eq, Str,
  str_eq, codes, contains, if◌then◌else◌, Option, none, some, not,
}
use windows_exporter.Errors.{Error, Result, ok, err, mi_result, is, new_error}
use windows_exporter.Collection.{mi_invalid_operation_timeout}
use windows_exporter.Perflib.Bytes.{ℤ, pos, to_signed}

-- The kind of a field of the struct, with the bits of an integer.
pub data Kind : Type 0 where
  boolean text real : Kind
  unsigned signed : ℕ → Kind

-- A field: its `mi` tag, empty if it has none, and its kind.
pub record Field : Type 0 where
  pub mi_tag : Str
  pub kind : Kind

pub data Value : Type 0 where
  bool_value : Bool → Value
  text_value : Str → Value
  uint_value real_value : ℕ → Value
  int_value : ℤ → Value

-- Element
pub record Element : Type 0 where
  pub value : ℕ
  pub value_type : ℕ

-- An instance: how many elements it has, what `GetElement` answers, and whether more results follow.
pub record Instance : Type 0 where
  pub element_count : Result ℕ
  pub get_element : Str → Result Element
  pub more_results : Bool

pub data Answer : Type 0 where
  failure : Error → Answer
  no_instance : Answer
  instance_of : Instance → Answer

abbrev pub is_timeout : Option ℕ → Bool
is_timeout none = false
is_timeout (some code) = code == 262148

-- `GetInstance` of operation.go: the result of the instance, the `error_Code` of the error details if they
-- have one, the result of the call, and the instance. A timeout shows only in the error details.
unfoldable pub get_instance : ℕ → Option ℕ → ℕ → Option Instance → Answer
get_instance instance_result error_code call_result instance_found =
    if not (instance_result == 0)
    then failure (
        mi_result (if is_timeout error_code then mi_invalid_operation_timeout else instance_result)
        ∷ [])
    else if not (call_result == 0)
    then failure (mi_result call_result ∷ [])
    else elim instance_found [ none ↦ no_instance | some i ↦ instance_of i ]

-- `QueryUnmarshal` of a session, or `Unmarshal` of an operation.
pub data Mode : Type 0 where
  session operation : Mode

-- What the `switch` on the element's type does to the field.
pub data Written : Type 0 where
  written : Value → Written
  kept panics unsupported : Written

-- MI_RESULT_NO_SUCH_PROPERTY, by its place in the list of result.go.
abbrev pub no_such_property : ℕ
no_such_property = 12

-- The setters of `reflect.Value`: they panic on a field of another kind, and cut integers to the field.
unfoldable pub set_bool : Kind → Bool → Written
set_bool boolean b = written (bool_value b)
set_bool _ b = panics

unfoldable pub set_uint : Kind → ℕ → Written
set_uint (unsigned bits) n = written (uint_value (n % 2 ^ bits))
set_uint _ n = panics

unfoldable pub set_int : Kind → ℕ → Written
set_int (signed bits) n = written (int_value (to_signed (2 ^ (bits - 1)) (n % 2 ^ bits)))
set_int _ n = panics

unfoldable pub set_text : Kind → Str → Written
set_text text s = written (text_value s)
set_text _ s = panics

unfoldable pub set_real : Kind → ℕ → Written
set_real real n = written (real_value n)
set_real _ n = panics

-- A null string.
unfoldable pub null_text : Mode → Kind → Written
null_text session kind = kept
null_text operation kind = set_text kind []

abbrev pub type_string : ℕ
type_string = 13

module _ (mode : Mode) (text_at : ℕ → Str) where
  unfoldable pub write : Kind → Element → Written
  write kind e =
      if e.value_type == 0
      then set_bool kind (e.value == 1)
      else if contains (1 ∷ 3 ∷ 5 ∷ 7 ∷ []) e.value_type
      then set_uint kind e.value
      else if contains (2 ∷ 4 ∷ 6 ∷ 8 ∷ []) e.value_type
      then set_int kind e.value
      else if e.value_type == type_string
      then (if e.value == 0 then null_text mode kind else set_text kind (text_at e.value))
      else if contains (9 ∷ 10 ∷ []) e.value_type
      then set_real kind e.value
      else unsupported

  -- A failed `GetElement`: a session passes over a property that the class does not have.
  unfoldable pub missing : Error → Result Written
  missing e = elim mode [
    | session ↦ if is e (mi_result no_such_property) then ok kept else err e
    | operation ↦ err e
  ]

  -- One round of the loop over the fields.
  unfoldable pub read_field : Instance → Field → Result Written
  read_field i field =
      if field.mi_tag == []
      then ok kept
      else elim (i.get_element field.mi_tag) [ ok e ↦ ok (write field.kind e) | err e ↦ missing e ]

-- A row: the value of each field. `filled` is a whole row.
abbrev pub Row : Type 0
Row = List Value

pub data Filled : Type 0 where
  filled : Row → Filled
  failed : Error → Filled
  panicked : Filled

abbrev pub cons_value : Value → Filled → Filled
cons_value v (filled row) = filled (v ∷ row)
cons_value v (failed e) = failed e
cons_value v panicked = panicked

-- A field that is written, or keeps its value, before the later ones.
abbrev pub after_field : Value → Result Written → Filled → Filled
after_field old (ok (written v)) later = cons_value v later
after_field old (ok kept) later = cons_value old later
after_field old (ok panics) later = panicked
after_field old (ok unsupported) later = failed (new_error (codes "unsupported value type"))
after_field old (err e) later = failed e

-- What a query gives: the rows, or an error with the rows so far.
pub data Query : Type 0 where
  done : List Row → Query
  failed : Error → List Row → Query
  panicked : Query

-- An instance without elements ends the loop.
abbrev pub after_count : Result ℕ → List Row → Query → Query
after_count (err e) rows q = failed e rows
after_count (ok count) rows q = if count == 0 then done rows else q

-- A row that is filled is appended, and the loop goes on if more results follow.
abbrev pub after_row : Bool → List Row → Filled → (Row → Query) → Query
after_row more rows (failed e) k = failed e rows
after_row more rows panicked k = panicked
after_row more rows (filled next) k = if more then k next else done (rows ++ next ∷ [])

module _ (mode : Mode) (text_at : ℕ → Str) where
  -- The loop over the fields, on the row `elemValue`.
  unfoldable pub fill_row : Instance → List Field → Row → Filled
  fill_row i [] row = filled []
  fill_row i (field ∷ fields) [] = filled []
  fill_row i (field ∷ fields) (old ∷ row) =
      let later = fill_row i fields row in after_field old (read_field mode text_at i field) later

  -- The loop over the instances. `elemValue` is made before it, so that a row starts from the one before;
  -- the answers end where no instance follows.
  unfoldable pub unmarshal : List Field → List Answer → Row → List Row → Query
  unmarshal fields [] row rows = done rows
  unmarshal fields (failure e ∷ answers) row rows = failed e rows
  unmarshal fields (no_instance ∷ answers) row rows = done rows
  unmarshal fields (instance_of i ∷ answers) row rows = after_count i.element_count rows (
      after_row i.more_results rows (fill_row i fields row)
        (λ next. unmarshal fields answers next (rows ++ next ∷ [])))

unfoldable pub zero_value : Kind → Value
zero_value boolean = bool_value false
zero_value text = text_value []
zero_value real = real_value 0
zero_value (unsigned bits) = uint_value 0
zero_value (signed bits) = int_value (pos 0)

abbrev pub zero_row : List Field → Row
zero_row [] = []
zero_row (field ∷ fields) = zero_value field.kind ∷ zero_row fields
