-- ===== src/SubCollectors.antt =====
-- `Build`, `Collect` and `Close` of the collectors that are made of sub-collectors:
-- internal/collector/mssql/mssql.go, exchange/exchange.go and hyperv/hyperv.go. The PDH collectors
-- are objects, numbered as they are made, and a field of the collector points to them. What
-- building a sub-collector and collecting from it answer is given.
pub mod Closing
pub mod Selection
pub mod Mssql
use windows_exporter.Base.{
  ℕ, zero, suc, ◌+◌, ◌≡◌, Bool, true, false, not, ◌&&◌, ◌||◌, List, [], ◌∷◌, ◌++◌, Option, none,
  some, arith, ◌==◌, nat_eq, Str, str_eq, codes, length, contains, ltb, Map, lookup, insert,
  if◌then◌else◌,
}
use windows_exporter.Errors.{Error, no_data, pdh_error, is, new_error}
use windows_exporter.Collection.{no_data_code}

-- What a call of a sub-collector's `close` does: on the PDH collectors to which the field pointed
-- when the function value was made, or on those to which it points when it is called.
pub data CloseFn : Type 0 where
  bound : List ℕ → CloseFn
  method : Str → CloseFn

pub record State : Type 0 where
  -- the PDH collectors of each sub-collector; nil pointers are left out
  pub fields : Map Str (List ℕ)
  -- those in fields that no `close` reads, as databasesPerfDataCollectors2019 of mssql_database.go
  pub unclosed : List ℕ
  -- the queries that are open, and the number of the next PDH collector
  pub is_open : ℕ → Bool
  pub next : ℕ
  pub collector_fns : List Str
  pub close_fns : List CloseFn

-- What a sub-collector's `build` does: how many PDH collectors it makes in the fields that its `close`
-- reads, how many in others, and its error.
pub record BuildAnswer : Type 0 where
  pub made : ℕ
  pub made_unclosed : ℕ
  pub error : Option Error

-- How the three files differ: the order of the names, whether the table binds `close` to the
-- pointers of the fields, whether a sub-collector that fails to build is used, whether `Build` begins
-- with new lists of functions, and the least build number of the system.
pub record Policy : Type 0 where
  pub order : List Str → List Str
  pub binds_early : Bool
  pub keeps_failed : Bool
  pub resets : Bool
  pub min_build_number : Str → ℕ

abbrev pub or_nil : Option (List ℕ) → List ℕ
or_nil none = []
or_nil (some ids) = ids

abbrev pub numbers_from : ℕ → ℕ → List ℕ
numbers_from first zero = []
numbers_from first (suc n) = first ∷ numbers_from (first + 1) n

-- `build` of a sub-collector.
unfoldable pub build_sub : Str → BuildAnswer → State → State
build_sub name a s =
    let ids = numbers_from s.next a.made in
    let others = numbers_from (s.next + a.made) a.made_unclosed in
    record s {
      fields = insert name ids s.fields;
      unclosed = s.unclosed ++ others;
      is_open = λ i. s.is_open i || (contains ids i || contains others i);
      next = s.next + a.made + a.made_unclosed;
    }

unfoldable pub unknown_collector : Str → Error
unknown_collector name = new_error (codes "unknown collector: " ++ name)

-- The two appends.
unfoldable pub add_fns : Str → CloseFn → State → State
add_fns name fn s = record s {
  collector_fns = s.collector_fns ++ name ∷ [];
  close_fns = s.close_fns ++ fn ∷ [];
}

-- The two lists are made before the loop, or are left as they are.
abbrev pub begin : Bool → State → State
begin true s = record s { collector_fns = []; close_fns = [] }
begin false s = s

-- The end of a round, after `build` has answered with an error or without.
unfoldable pub after_build : Bool → Str → CloseFn → Option Error → State → State
after_build keeps_failed name fn none s = add_fns name fn s
after_build keeps_failed name fn (some e) s = if keeps_failed then add_fns name fn s else s

-- What `Build` returns: the errors that it joins, or the error at which it stops.
pub data Built : Type 0 where
  joined : List Error → Built
  stopped : Error → Built

abbrev pub with_error : Option Error → State × Built → State × Built
with_error none r = r
with_error (some e) (s, joined errs) = (s, joined (e ∷ errs))
with_error (some e) (s, stopped f) = (s, stopped f)

module _ (policy : Policy) (known : List Str) (build_number : ℕ) (answers : Str → BuildAnswer) where
  -- The table of sub-collectors is made before the loop.
  unfoldable pub close_fn : State → Str → CloseFn
  close_fn before name =
      if policy.binds_early then bound (or_nil (lookup name before.fields)) else method name

  abbrev pub is_too_old : Str → Bool
  is_too_old name = ltb build_number (policy.min_build_number name)

  -- A round of the loop for a name that is known.
  abbrev pub build_round : State → Str → State → State
  build_round before name s =
      if is_too_old name
      then s
      else after_build policy.keeps_failed name (close_fn before name) (answers name).error
          (build_sub name (answers name) s)

  -- The loop over the names. An unknown name ends it, and the errors so far are lost.
  unfoldable pub build_each : State → List Str → State → State × Built
  build_each before [] s = (s, joined [])
  build_each before (name ∷ names) s =
      let rest =
        with_error (if is_too_old name then none else (answers name).error)
          (build_each before names (build_round before name s)) in
      if contains known name then rest else (s, stopped (unknown_collector name))

  unfoldable pub build : List Str → State → State × Built
  build enabled s = build_each s (policy.order enabled) (begin policy.resets s)

-- `Close`: the functions one after the other, each on the fields that its `close` reads.
abbrev pub closes_of : Map Str (List ℕ) → CloseFn → List ℕ
closes_of fields (bound ids) = ids
closes_of fields (method name) = or_nil (lookup name fields)

unfoldable pub close_each : List CloseFn → State → State
close_each [] s = s
close_each (fn ∷ fns) s =
    close_each fns
      (record s { is_open = λ i. s.is_open i && not (contains (closes_of s.fields fn) i) })

unfoldable pub close : State → State
close s = close_each s.close_fns s

-- `Collect`: what the goroutines send to `errCh`, here in the order of the functions.
unfoldable pub collect_errors : (Str → Option Error) → List Str → List Error
collect_errors answers [] = []
collect_errors answers (name ∷ fns) =
    let rest = collect_errors answers fns in elim (answers name) [ none ↦ rest | some e ↦ e ∷ rest ]

unfoldable pub collect : (Str → Option Error) → State → List Error
collect answers s = collect_errors answers s.collector_fns

abbrev pub errors_of : Option Error → List Error
errors_of none = []
errors_of (some e) = e ∷ []

-- The three files.
abbrev pub mssql : (List Str → List Str) → Policy
mssql sort = record {
  order = sort;
  binds_early = false;
  keeps_failed = true;
  resets = true;
  min_build_number = λ name. 0;
}

abbrev pub exchange : Policy
exchange = record {
  order = λ names. names;
  binds_early = true;
  keeps_failed = false;
  resets = false;
  min_build_number = λ name. 0;
}

-- Windows Server 2022
abbrev pub ltsc2022 : ℕ
ltsc2022 = 20348

abbrev pub hyperv : (List Str → List Str) → Policy
hyperv sort = record {
  order = sort;
  binds_early = true;
  keeps_failed = false;
  resets = true;
  min_build_number =
      λ name. if name == codes "datastore" || name == codes "virtual_smb" then ltsc2022 else 0;
}
