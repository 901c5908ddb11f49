-- ===== src/PerformanceCounter.antt =====
-- `Build` and `Close` of internal/collector/performancecounter/performancecounter.go. The loop
-- ranges over the slice that c.config.Objects is at its start, whose array a deletion changes; the
-- slices of counters are shared by c.config.Objects and c.objects, and are kept in a store under a
-- number. PDH collectors are numbered.
pub mod Names
mod Fields
pub mod Kept
pub mod Panics
pub mod Leak
pub mod Collect
use windows_exporter.Base.{
  ℕ, zero, suc, ◌+◌, ◌-◌, ◌≡◌, Bool, true, false, not, ◌&&◌, ◌||◌, List, [], ◌∷◌, ◌++◌, Option,
  none, some, arith, ◌==◌, nat_eq, nat_beq, leb, ltb, Str, str_eq, codes, any, contains, length,
  take, get_elem?, if◌then◌else◌,
}
use windows_exporter.Errors.{Error, new_error}
use windows_exporter.SubCollectors.{errors_of}

pub record Counter : Type 0 where
  pub name : Str
  pub counter_type : Str
  pub metric : Str

-- An element of c.config.Objects or of c.objects. Its counters are the slice of that number.
pub record Object : Type 0 where
  pub name : Str
  pub object : Str
  pub object_type : Str
  -- none for nil
  pub instances : Option (List Str)
  pub counters : ℕ
  pub instance_label : Str
  pub collector : Option ℕ

abbrev pub zero_object : Object
zero_object = record {
  name = [];
  object = [];
  object_type = [];
  instances = none;
  counters = 0;
  instance_label = [];
  collector = none;
}

-- sanitizeMetricName and strings.ToUpper, which are calls of libraries, whether reflect.StructOf
-- panics for fields of these names, and what NewCollectorWithReflection returns for an object.
pub record Calls : Type 0 where
  pub sanitize : Str → Str
  pub to_upper : Str → Str
  pub struct_of_panics : List Str → Bool
  pub new_collector : Object → List Str → Bool × Option Error

pub record State : Type 0 where
  -- the array behind c.config.Objects, and the length of that slice
  pub array : List Object
  pub count : ℕ
  pub slices : ℕ → List Counter
  pub objects : List Object
  pub names : List Str
  -- `counters` of the round of the loop
  pub counters : List Str
  pub errs : List Error
  -- the PDH collectors whose query is open, and the number of the next one
  pub is_open : ℕ → Bool
  pub next : ℕ

-- How a piece of the code ends.
pub data Outcome : Type 0 where
  runs : State → Outcome
  returns : Error → State → Outcome
  panics : Outcome

abbrev pub then_do : Outcome → (State → Outcome) → Outcome
then_do (runs s) f = f s
then_do (returns e s) f = returns e s
then_do panics f = panics

-- The state that is left, unless the code panics.
abbrev pub state_of : Outcome → Option State
state_of (runs s) = some s
state_of (returns e s) = some s
state_of panics = none

abbrev pub add_error : Error → State → State
add_error e s = record s { errs = s.errs ++ e ∷ [] }

abbrev pub set_nth {ℓ} : {A : Type ℓ} → ℕ → (A → A) → List A → List A
set_nth n f [] = []
set_nth zero f (x ∷ xs) = f x ∷ xs
set_nth (suc n) f (x ∷ xs) = x ∷ set_nth n f xs

-- c.config.Objects[i].Counters[j].Metric = metric
unfoldable pub set_metric : ℕ → ℕ → Str → State → Outcome
set_metric i j metric s = elim (get_elem? (take s.count s.array) i) [
  | none ↦ panics
  | some o ↦
      if ltb j (length (s.slices o.counters))
      then runs (record s {
        slices = λ n.
            if nat_beq n o.counters
            then set_nth j (λ (c : Counter). record c { metric = metric }) (s.slices n)
            else s.slices n;
      })
      else panics
]

-- slices.Delete(c.config.Objects, 0, 1): the elements move down, and the last one of the slice is
-- cleared.
abbrev pub delete_first : ℕ → List Object → List Object
delete_first zero array = array
delete_first (suc count) [] = []
delete_first (suc zero) (x ∷ array) = zero_object ∷ array
delete_first (suc (suc count)) (x ∷ []) = zero_object ∷ []
delete_first (suc (suc count)) (x ∷ y ∷ array) = y ∷ delete_first (suc count) (y ∷ array)

-- c.config.Objects = slices.Delete(c.config.Objects, i, 1)
unfoldable pub delete_object : ℕ → State → Outcome
delete_object i s =
    if ltb s.count 1 || ltb 1 i
    then panics
    else if i == 0
    then runs (record s { array = delete_first s.count s.array; count = s.count - 1 })
    else runs s

abbrev pub default_metric : Calls → Object → Counter → Str
default_metric calls o c =
    calls.sanitize (codes "windows_performancecounter_" ++ o.object ++ codes "_" ++ c.name)

-- The body of the loop over the counters, behind the default of the metric.
unfoldable pub add_counter : ℕ → Counter → State → Outcome
add_counter i c s =
    if c.name == []
    then delete_object i (add_error (new_error (codes "counter name is required")) s)
    else if contains s.counters c.name
    then runs (add_error (new_error (codes "counter name " ++ c.name ++ codes " is duplicated")) s)
    else runs (record s { counters = s.counters ++ c.name ∷ [] })

unfoldable pub counter_round : Calls → ℕ → Object → ℕ → Counter → State → Outcome
counter_round calls i o j c s =
    then_do (if c.metric == [] then set_metric i j (default_metric calls o c) s else runs s)
      (add_counter i c)

unfoldable pub counters_loop : Calls → ℕ → Object → ℕ → List Counter → State → Outcome
counters_loop calls i o j [] s = runs s
counters_loop calls i o j (c ∷ cs) s =
    then_do (counter_round calls i o j c s) (λ t. counters_loop calls i o (j + 1) cs t)

-- The names of the fields of the struct for an object.
abbrev pub upper_names : Calls → List Str → List Str
upper_names calls [] = []
upper_names calls (name ∷ names) = calls.to_upper (calls.sanitize name) ∷ upper_names calls names

abbrev pub name_field : Option (List Str) → List Str
name_field none = []
name_field (some instances) = codes "Name" ∷ []

abbrev pub struct_fields : Calls → Object → State → List Str
struct_fields calls o s =
    upper_names calls s.counters ++ name_field o.instances ++ codes "MetricType" ∷ []

-- What is appended to c.objects.
abbrev pub kept_object : Object → Option ℕ → Object
kept_object o collector = record o {
  object_type = if o.object_type == [] then codes "raw" else o.object_type;
  instance_label = if o.instance_label == [] then codes "instance" else o.instance_label;
  collector = collector;
}

unfoldable pub add_object : Calls → Object → State → Outcome
add_object calls o s =
    let (made, e) = calls.new_collector o s.counters in
    if calls.struct_of_panics (struct_fields calls o s)
    then panics
    else runs (record s {
      objects = s.objects ++ kept_object o (if made then some s.next else none) ∷ [];
      errs = s.errs ++ errors_of e;
      is_open = λ i. s.is_open i || made && i == s.next;
      next = s.next + (if made then 1 else 0);
    })

unfoldable pub object_round : Calls → ℕ → Object → State → Outcome
object_round calls i o s =
    if o.name == []
    then returns (new_error (codes "object name is required")) s
    else if o.object == []
    then runs (add_error (new_error (codes "object " ++ o.name ++ codes ": object is required")) s)
    else if contains s.names o.name
    then runs (add_error (new_error (codes "object " ++ o.name ++ codes ": name is duplicated")) s)
    else then_do
        (counters_loop calls i o 0 (s.slices o.counters)
          (record s { names = s.names ++ o.name ∷ []; counters = [] }))
        (add_object calls o)

-- The rounds that are left, and the index of the next one. The element is read from the array as it
-- is then.
unfoldable pub objects_loop : Calls → ℕ → ℕ → State → Outcome
objects_loop calls zero i s = runs s
objects_loop calls (suc n) i s = elim (get_elem? s.array i) [
  | none ↦ panics
  | some o ↦ then_do (object_round calls i o s) (λ t. objects_loop calls n (i + 1) t)
]

unfoldable pub build : Calls → State → Outcome
build calls s = objects_loop calls s.count 0 (record s { objects = []; names = []; errs = [] })

-- Whether the object is the one whose collector has a number.
abbrev pub has_collector : ℕ → Option ℕ → Bool
has_collector i none = false
has_collector i (some n) = i == n

unfoldable pub close : State → State
close s = record s {
  is_open = λ i.
      s.is_open i && not (any (take s.count s.array) (λ (o : Object). has_collector i o.collector));
}
