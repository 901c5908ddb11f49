-- ===== src/Collection.antt =====
-- pkg/collector/collection.go and handler.go: the set of collectors, shared by reference between
-- the exporter and the handler of each request. A Go map is a reference, so the maps stand in a
-- store and a `Collection` holds the number of its map. `C` is the type of collectors, and what
-- their methods and the MI calls return is given as arguments.
pub mod Selection
pub mod Requests
pub mod Startup
pub mod Closing
use windows_exporter.Base.{
  ℕ, suc, ◌+◌, ◌≡◌, Bool, true, false, not, ◌||◌, List, [], ◌∷◌, ◌++◌, Option, none, some, arith,
  ◌==◌, nat_beq, Str, str_eq, codes, contains, Map, lookup, has_key, delete_where, if◌then◌else◌,
  select,
}
use windows_exporter.Errors.{
  Cause, pdh_error, mi_result, no_data, registry_not_exist, mi_not_initialized, other, Error, is,
  new_error,
}

-- Every Go map that holds collectors, by its reference; those from `next` on are not yet made.
pub record Store {ℓ} (C : Type ℓ) : Type ℓ where
  pub maps : ℕ → Map Str C
  pub next : ℕ

-- What a `Collection` holds besides its metric descriptions; the start time is a number.
pub record Collection : Type 0 where
  pub collectors : ℕ
  pub start_time : ℕ

unfoldable pub unknown_collector : Str → Error
unknown_collector name = new_error (codes "unknown collector " ++ name)

module _ {ℓ} {C : Type ℓ} where
  abbrev pub update : (ℕ → Map Str C) → ℕ → Map Str C → ℕ → Map Str C
  update maps r m i = if nat_beq i r then m else maps i

  -- The map of a collection.
  abbrev pub content : Store C → Collection → Map Str C
  content s c = s.maps c.collectors

  -- The first loop of `Enable`: the first name that no collector has.
  unfoldable pub unknown_name : List Str → Map Str C → Option Str
  unknown_name [] m = none
  unknown_name (name ∷ names) m =
      let rest = unknown_name names m in if has_key name m then rest else some name

  unfoldable pub enable : Collection → List Str → Store C → Store C × Option Error
  enable c names s = elim (unknown_name names (content s c)) [
    | some name ↦ (s, some (unknown_collector name))
    | none ↦ (
      record s {
        maps =
            update s.maps c.collectors (delete_where (λ k. not (contains names k)) (content s c));
      },
      none,
    )
  ]

  unfoldable pub disable : Collection → List Str → Store C → Store C
  disable c names s = record s {
    maps = update s.maps c.collectors (delete_where (λ k. contains names k) (content s c));
  }

  -- maps.Clone: a new map with the same entries.
  unfoldable pub clone : ℕ → Store C → Store C × ℕ
  clone r s = (record { maps = update s.maps s.next (s.maps r); next = suc s.next }, s.next)

  after_enable : Collection → Store C × Option Error → Store C × (Option Collection × Option Error)
  after_enable c (s, none) = (s, (some c, none))
  after_enable c (s, some err) = (s, (none, some err))

  unfoldable pub with_collectors :
      Collection → List Str → Store C → Store C × (Option Collection × Option Error)
  unfolding clone after_enable
  with_collectors c names s =
      let cloned = clone c.collectors s in
      let metric_collectors = record c { collectors = cloned.1 } in
      after_enable metric_collectors (enable metric_collectors names cloned.0)

  -- `NewHandler` of handler.go: with no names the collection itself serves the request.
  unfoldable pub new_handler :
      Collection → List Str → Store C → Store C × (Option Collection × Option Error)
  new_handler c [] s = (s, (some c, none))
  new_handler c (name ∷ names) s = with_collectors c (name ∷ names) s

-- Codes of internal/pdh/pdh.go, and of internal/mi/result.go (the place in its `iota` list).
abbrev pub no_data_code : ℕ
no_data_code = 0x800007D5

abbrev pub cstatus_no_object : ℕ
cstatus_no_object = 0xC0000BB8

abbrev pub cstatus_no_counter : ℕ
cstatus_no_counter = 0xC0000BB9

abbrev pub mi_invalid_namespace : ℕ
mi_invalid_namespace = 3

abbrev pub mi_invalid_operation_timeout : ℕ
mi_invalid_operation_timeout = 20

-- The test of the last loop of `Build`: errors that are logged, and do not fail the start.
unfoldable pub is_tolerated : Error → Bool
is_tolerated err =
    is err (pdh_error no_data_code)
    || (is err registry_not_exist
        || (is err (pdh_error cstatus_no_object)
            || (is err (pdh_error cstatus_no_counter)
                || (is err (mi_result mi_invalid_operation_timeout)
                    || is err (mi_result mi_invalid_namespace)))))

module _ {ℓ} {C : Type ℓ} where
  -- What the goroutines send, in the order in which they end: that of the list.
  unfoldable pub build_errors : (C → Option Error) → Map Str C → List Error
  build_errors build [] = []
  build_errors build ((name, c) ∷ m) =
      let rest = build_errors build m in elim (build c) [ none ↦ rest | some err ↦ err ∷ rest ]

  -- The errors that `Build` joins; the empty list is the nil error.
  unfoldable pub build_collectors : (C → Option Error) → Option Error → Map Str C → List Error
  build_collectors build init_mi m = elim init_mi [
    | some err ↦ err ∷ []
    | none ↦ select (λ err. not (is_tolerated err)) (build_errors build m)
  ]
