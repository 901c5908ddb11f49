-- ===== src/PerformanceCounter/Fields.antt =====
-- The names that the loop over the counters of an object collects, from which the fields of its struct
-- are made, where every counter has a name.
use windows_exporter.Base.{
  ℕ, ◌+◌, ◌≡◌, refl, sym, ◌∙◌, append_assoc, append-nil, false, List, [], ◌∷◌, ◌++◌, arith, ◌==◌,
  nat_eq, Str, str_eq, codes, contains, All, if◌then◌else◌, Bool-cases, inl, inr,
}
use windows_exporter.PerformanceCounter.{
  Counter, Object, Calls, State, Outcome, runs, returns, panics, then_do, set_metric,
  default_metric, add_counter, counter_round, counters_loop, upper_names, name_field,
}
use windows_exporter.PerformanceCounter.Names.{counter_names}

-- The names that are new, each once.
abbrev pub new_names : List Str → List Str → List Str
new_names seen [] = []
new_names seen (name ∷ names) =
    if contains seen name then new_names seen names else name ∷ new_names (seen ++ name ∷ []) names

-- Reflection makes a struct of a field for each name of a counter, and those that are always there.
abbrev pub IsStruct : Calls → Object → List Str → Type 0
IsStruct calls o names =
    calls.struct_of_panics
      (upper_names calls (new_names [] names) ++ name_field o.instances ++ codes "MetricType" ∷ [])
    ≡ false

then_do-runs :
    (r : Outcome) (f : State → Outcome) (t : State)
    → then_do r f ≡ runs t
    → (u : State) × (r ≡ runs u) × (f u ≡ runs t)
then_do-runs (runs s) f t h = (s, refl, h)
then_do-runs (returns e s) f t h = cc
then_do-runs panics f t h = cc

counters-set_metric :
    (i j : ℕ) (metric : Str) (s t : State)
    → set_metric i j metric s ≡ runs t
    → t.counters ≡ s.counters
unfolding set_metric
counters-set_metric i j metric s t h = ground arith

counters-add_counter :
    (i : ℕ) (c : Counter) (s t : State)
    → (c.name == []) ≡ false
    → add_counter i c s ≡ runs t
    → t.counters ≡ s.counters ++ (if contains s.counters c.name then [] else c.name ∷ [])
unfolding add_counter
counters-add_counter i c s t n h = ground (arith, append-nil s.counters)

new_names-cons :
    (seen names : List Str) (name : Str)
    → (seen ++ (if contains seen name then [] else name ∷ []))
        ++ new_names (seen ++ (if contains seen name then [] else name ∷ [])) names
      ≡ seen ++ new_names seen (name ∷ names)
new_names-cons seen names name = elim (Bool-cases (contains seen name)) [
  | inl e ↦ rw (e, append-nil seen) refl
  | inr e ↦ rw e (append_assoc seen (name ∷ []) (new_names (seen ++ name ∷ []) names))
]

module _ (calls : Calls) where
  counters-counter_round :
      (i : ℕ) (o : Object) (j : ℕ) (c : Counter) (s t : State)
      → (c.name == []) ≡ false
      → counter_round calls i o j c s ≡ runs t
      → t.counters ≡ s.counters ++ (if contains s.counters c.name then [] else c.name ∷ [])
  unfolding counter_round
  counters-counter_round i o j c s t n h =
      let (u, e, f) =
        then_do-runs
          (if c.metric == [] then set_metric i j (default_metric calls o c) s else runs s)
          (add_counter i c) t h in
      let same : u.counters ≡ s.counters = elim (Bool-cases (c.metric == [])) [
        | inl m ↦ counters-set_metric i j (default_metric calls o c) s u (sym (rw m refl) ∙ e)
        | inr m ↦ ground (arith, e, m)
      ] in
      counters-add_counter i c u t n f ∙ rw same refl

  pub counters-counters_loop :
      (i : ℕ) (o : Object) (j : ℕ) (cs : List Counter) (s t : State)
      → All (λ c. (c.name == []) ≡ false) cs
      → counters_loop calls i o j cs s ≡ runs t
      → t.counters ≡ s.counters ++ new_names s.counters (counter_names cs)
  unfolding counters_loop
  counters-counters_loop i o j [] s t n h = ground (arith, append-nil s.counters)
  counters-counters_loop i o j (c ∷ cs) s t n h =
      let (u, e, f) =
        then_do-runs (counter_round calls i o j c s) (λ v. counters_loop calls i o (j + 1) cs v) t
          h in
      counters-counters_loop i o (j + 1) cs u t n.1 f
      ∙ rw (counters-counter_round i o j c s u n.0 e)
          (new_names-cons s.counters (counter_names cs) c.name)
