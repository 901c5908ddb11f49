-- ===== src/PerformanceCounter/Panics.antt =====
-- A counter without a name.
use windows_exporter.Base.{
  ℕ, ◌+◌, ◌<◌, ◌≡◌, refl, ap, Bool, true, false, ◌||◌, List, [], ◌∷◌, arith, ◌==◌, nat_eq, Str,
  str_eq, any, take, get_elem?, contains, length, ltb, lt→ltb, if◌then◌else◌, Bool-cases,
  Option-cases, inl, inr,
}
use windows_exporter.PerformanceCounter.{
  Counter, Object, Calls, State, Outcome, runs, returns, panics, then_do, set_metric, delete_object,
  default_metric, add_counter, counter_round, counters_loop, add_object, object_round,
}

abbrev pub is_nameless : Counter → Bool
is_nameless c = c.name == []

-- A piece of the code that does not return early.
abbrev Proceeds : Outcome → Type 0
Proceeds (returns e s) = ⊥
Proceeds _ = Unit

then_do-panics :
    (r : Outcome) (f : State → Outcome)
    → Proceeds r
    → ((s : State) → f s ≡ panics)
    → then_do r f ≡ panics
then_do-panics (runs s) f p k = k s
then_do-panics (returns e s) f p k = absurd p
then_do-panics panics f p k = refl

Proceeds-then_do :
    (r : Outcome) (f : State → Outcome)
    → Proceeds r
    → ((s : State) → Proceeds (f s))
    → Proceeds (then_do r f)
Proceeds-then_do (runs s) f p k = k s
Proceeds-then_do (returns e s) f p k = p
Proceeds-then_do panics f p k = tt

Proceeds-if : (b : Bool) (x y : Outcome) → Proceeds x → Proceeds y → Proceeds (if b then x else y)
Proceeds-if true x y h k = h
Proceeds-if false x y h k = k

Proceeds-set_metric : (i j : ℕ) (metric : Str) (s : State) → Proceeds (set_metric i j metric s)
unfolding set_metric
Proceeds-set_metric i j metric s = elim (Option-cases (get_elem? (take s.count s.array) i)) [
  | inl e ↦ rw (e, set_metric) tt
  | inr (o, e) ↦
      rw (e, set_metric) (Proceeds-if (ltb j (length (s.slices o.counters))) _ panics tt tt)
]

Proceeds-add_counter : (i : ℕ) (c : Counter) (s : State) → Proceeds (add_counter i c s)
unfolding add_counter delete_object
Proceeds-add_counter i c s =
    Proceeds-if (c.name == []) _ _
      (Proceeds-if (ltb s.count 1 || ltb 1 i) _ _ tt (Proceeds-if (i == 0) _ _ tt tt))
      (Proceeds-if (contains s.counters c.name) _ _ tt tt)

module _ (calls : Calls) (i : ℕ) (o : Object) (far : 1 < i) where
  first_part : ℕ → Counter → State → Outcome
  first_part j c s = if c.metric == [] then set_metric i j (default_metric calls o c) s else runs s

  Proceeds-first_part : (j : ℕ) (c : Counter) (s : State) → Proceeds (first_part j c s)
  unfolding first_part
  Proceeds-first_part j c s =
      Proceeds-if (c.metric == []) _ _ (Proceeds-set_metric i j (default_metric calls o c) s) tt

  add_counter-nameless :
      (c : Counter) (s : State) → is_nameless c ≡ true → add_counter i c s ≡ panics
  unfolding add_counter delete_object
  add_counter-nameless c s h = rw h (rw (lt→ltb 1 i far) (ground arith))

  counters_loop-panics :
      (j : ℕ) (cs : List Counter) (s : State)
      → any cs is_nameless ≡ true
      → counters_loop calls i o j cs s ≡ panics
  unfolding counters_loop counter_round first_part
  counters_loop-panics j [] s h = cc
  counters_loop-panics j (c ∷ cs) s h = elim (Bool-cases (is_nameless c)) [
    | inl e ↦
        ap (λ r. then_do r (λ t. counters_loop calls i o (j + 1) cs t))
          (then_do-panics (first_part j c s) (add_counter i c) (Proceeds-first_part j c s)
            (λ t. add_counter-nameless c t e))
    | inr e ↦
        then_do-panics (counter_round calls i o j c s) (λ t. counters_loop calls i o (j + 1) cs t)
          (Proceeds-then_do (first_part j c s) (add_counter i c) (Proceeds-first_part j c s)
            (λ t. Proceeds-add_counter i c t))
          (λ t. counters_loop-panics (j + 1) cs t (rw e at h))
  ]

-- For an object past the first two that has a name, a performance object and a name that no kept
-- object has, a counter without a name makes the round of the loop of `Build` panic, in place of the
-- error that the code notes for it.
pub object_round-panics :
    (calls : Calls) (i : ℕ) (o : Object) (s : State)
    → 1 < i
    → (o.name == []) ≡ false
    → (o.object == []) ≡ false
    → contains s.names o.name ≡ false
    → any (s.slices o.counters) is_nameless ≡ true
    → object_round calls i o s ≡ panics
unfolding object_round
object_round-panics calls i o s far named typed new h =
    rw (named, typed, new)
      (ap (λ r. then_do r (add_object calls o))
        (counters_loop-panics calls i o far 0 (s.slices o.counters) _ h))
