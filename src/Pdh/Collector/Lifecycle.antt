-- ===== src/Pdh/Collector/Lifecycle.antt =====
-- `Collect` and `Close` of a collector that `NewCollectorWithReflection` has made, in any order.
use windows_exporter.Base.{
  ℕ, ◌≡◌, ◌≢◌, refl, ap, Bool, true, false, List, [], ◌∷◌, Option, none, some, arith, ◌==◌, nat_eq,
  Str, length, if◌then◌else◌, Bool-cases, inl, inr,
}
use windows_exporter.Errors.{Error, counter_not_initialized}
use windows_exporter.Pdh.Collector.Counters.{Calls, Field, add_fields}
use windows_exporter.Pdh.Collector.{
  Collector, ResultType, raw, formatted, other_type, collect, close, new_collector, after_fields,
  after_channels, instances_or_empty, without_channels,
}

-- A call of a client; the worker's answer to a `Collect` is given.
pub data Op : Type 0 where
  collects : Option Error → Op
  closes : Op

-- What the calls of `Collect` return.
unfoldable pub answers : Option Collector → List Op → List (Option Error)
answers c [] = []
answers c (collects worker ∷ ops) = collect worker c ∷ answers c ops
answers c (closes ∷ ops) = answers (close c) ops

-- What they are to return: the worker's answers up to the first `Close`, and an error from there.
unfoldable pub promised : Bool → List Op → List (Option Error)
promised open_yet [] = []
promised open_yet (collects worker ∷ ops) =
    (if open_yet then worker else some (counter_not_initialized ∷ [])) ∷ promised open_yet ops
promised open_yet (closes ∷ ops) = promised false ops

-- The worker can be asked.
record IsOpen (c : Collector) : Type 0 where
  has_counters : (length c.counters == 0) ≡ false
  has_query : (c.query_handle == 0) ≡ false
  has_collect : c.collect_ch ≡ true
  has_error : c.error_ch ≡ true

collect-IsOpen :
    (worker : Option Error) (c : Collector) → IsOpen c → collect worker (some c) ≡ worker
unfolding collect
collect-IsOpen worker c h = simp (h.has_counters, h.has_query, h.has_collect, h.has_error)

abbrev closed : Collector → Collector
closed c = record c { query_handle = 0; collect_ch = false; error_ch = false }

collect-closed :
    (worker : Option Error) (c : Collector)
    → collect worker (some (closed c)) ≡ some (counter_not_initialized ∷ [])
unfolding collect
collect-closed worker c = ground arith

answers-closed :
    (c : Collector) (ops : List Op) → answers (some (closed c)) ops ≡ promised false ops
unfolding answers promised close
answers-closed c [] = refl
answers-closed c (collects worker ∷ ops) =
    rw (collect-closed worker c)
      (ap (λ l. some (counter_not_initialized ∷ []) ∷ l) (answers-closed c ops))
answers-closed c (closes ∷ ops) = answers-closed (closed c) ops

answers-IsOpen :
    (c : Collector) (ops : List Op) → IsOpen c → answers (some c) ops ≡ promised true ops
unfolding answers promised close
answers-IsOpen c [] h = refl
answers-IsOpen c (collects worker ∷ ops) h =
    simp (collect-IsOpen worker c h, answers-IsOpen c ops h)
answers-IsOpen c (closes ∷ ops) h = answers-closed c ops

answers-after_channels :
    (worker : Option Error) (c : Collector) (d : Option Collector) (ops : List Op)
    → IsOpen c
    → after_channels worker c ≡ (d, none)
    → answers d ops ≡ promised true ops
unfolding after_channels
answers-after_channels worker c d ops h e = ground (arith, answers-IsOpen c ops h)

answers-after_fields :
    (worker : Option Error) (c : Collector) (errs : List Error) (d : Option Collector)
    (ops : List Op)
    → c.query_handle ≢ 0
    → after_fields worker c errs ≡ (d, none)
    → answers d ops ≡ promised true ops
unfolding after_fields
answers-after_fields worker c (x ∷ errs) d ops h e = cc
answers-after_fields worker c [] d ops h e = elim (Bool-cases (length c.counters == 0)) [
  | inl g ↦ absurd (cc (rw (g, after_fields) at e))
  | inr g ↦
      answers-after_channels worker (record c { collect_ch = true; error_ch = true }) d ops
        (record {
          has_counters = g;
          has_query = ground arith;
          has_collect = refl;
          has_error = refl;
        })
        (rw (g, after_fields) at e)
]

-- A collector that the constructor returns without an error answers each `Collect` with the worker's answer
-- until the first `Close`, and with the error for a counter that is not initialized from there on, and
-- waits for no worker that is not there, provided that OpenQuery writes a handle other than zero.
pub answers-new_collector :
    (calls : Calls) (open_status query : ℕ) (worker : Option Error) (result_type : ResultType)
    (object : Str) (instances : List Str) (fields : List Field) (c : Option Collector)
    (ops : List Op)
    → query ≢ 0
    → new_collector calls open_status query worker result_type object instances fields ≡ (c, none)
    → answers c ops ≡ promised true ops
unfolding new_collector
answers-new_collector calls open_status query worker other_type object instances fields c ops h e =
    ground arith
answers-new_collector calls open_status query worker raw object instances fields c ops h e =
    let built = add_fields calls object (instances_or_empty instances) fields ([], []) in
    elim (Bool-cases (open_status == 0)) [
      | inl g ↦
          answers-after_fields worker (without_channels object built.0 query instances) built.1 c
            ops h (rw (g, new_collector) at e)
      | inr g ↦ absurd (cc (rw (g, new_collector) at e))
    ]
answers-new_collector calls open_status query worker formatted object instances fields c ops h e =
    let built = add_fields calls object (instances_or_empty instances) fields ([], []) in
    elim (Bool-cases (open_status == 0)) [
      | inl g ↦
          answers-after_fields worker (without_channels object built.0 query instances) built.1 c
            ops h (rw (g, new_collector) at e)
      | inr g ↦ absurd (cc (rw (g, new_collector) at e))
    ]
