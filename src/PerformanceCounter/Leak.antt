-- ===== src/PerformanceCounter/Leak.antt =====
-- The queries that are open after `Close`.
use windows_exporter.Base.{
  ℕ, zero, suc, ◌+◌, ◌-◌, ◌<◌, ◌≡◌, refl, ap, sym, subst, ◌∙◌, Bool, true, false, ◌||◌, List, [],
  ◌∷◌, none, some, arith, ◌==◌, nat_eq, Str, str_eq, any, take, get_elem?, contains, length, ltb,
  if◌then◌else◌, All, Option-cases, inl, inr,
}
use mathlib.Core.Option.{some_inj}
use windows_exporter.PerformanceCounter.{
  state_of, Counter, Object, Calls, State, Outcome, runs, returns, panics, then_do, set_metric,
  delete_first, delete_object, default_metric, add_counter, counter_round, counters_loop,
  struct_fields, add_object, object_round, objects_loop, build, has_collector, close,
}

-- What a property says of the state with which a piece of the code ends, if it does not panic.
abbrev pub Holds : (State → Type 0) → Outcome → Type 0
Holds P (runs s) = P s
Holds P (returns e s) = P s
Holds P panics = Unit

Holds-then_do :
    (P : State → Type 0) (r : Outcome) (f : State → Outcome)
    → Holds P r
    → ((s : State) → P s → Holds P (f s))
    → Holds P (then_do r f)
Holds-then_do P (runs s) f h k = k s h
Holds-then_do P (returns e s) f h k = h
Holds-then_do P panics f h k = tt

Holds-if :
    (P : State → Type 0) (b : Bool) (x y : Outcome)
    → Holds P x
    → Holds P y
    → Holds P (if b then x else y)
Holds-if P true x y h k = h
Holds-if P false x y h k = k

abbrev HasNone : Object → Type 0
HasNone o = o.collector ≡ none

-- Every PDH collector is open, and no object of the configuration has one.
record Leaky (s : State) : Type 0 where
  all_open : (i : ℕ) → i < s.next → s.is_open i ≡ true
  unset : All HasNone s.array

HasNone-delete_first :
    (count : ℕ) (array : List Object) → All HasNone array → All HasNone (delete_first count array)
HasNone-delete_first zero array h = h
HasNone-delete_first (suc count) [] h = h
HasNone-delete_first (suc zero) (x ∷ array) h = (refl, h.1)
HasNone-delete_first (suc (suc count)) (x ∷ []) h = (refl, tt)
HasNone-delete_first (suc (suc count)) (x ∷ y ∷ array) h =
    (h.1.0, HasNone-delete_first (suc count) (y ∷ array) h.1)

-- The state may differ in what the property does not read.
Leaky-same :
    (s t : State) → s.array ≡ t.array → s.is_open ≡ t.is_open → s.next ≡ t.next → Leaky s → Leaky t
Leaky-same s t a o n h = record {
  all_open = λ i k. ap (λ (f : ℕ → Bool). f i) (sym o) ∙ h.all_open i (omega (arith, n));
  unset = subst (All HasNone) a h.unset;
}

Leaky-set_metric :
    (i j : ℕ) (metric : Str) (s : State) → Leaky s → Holds Leaky (set_metric i j metric s)
unfolding set_metric
Leaky-set_metric i j metric s h = elim (Option-cases (get_elem? (take s.count s.array) i)) [
  | inl e ↦ rw (e, set_metric) tt
  | inr (o, e) ↦
      rw (e, set_metric)
        (Holds-if Leaky (ltb j (length (s.slices o.counters))) _ panics
          (Leaky-same s _ refl refl refl h) tt)
]

Leaky-delete_object : (i : ℕ) (s : State) → Leaky s → Holds Leaky (delete_object i s)
unfolding delete_object
Leaky-delete_object i s h =
    let t : State = record s { array = delete_first s.count s.array; count = s.count - 1 } in
    Holds-if Leaky (ltb s.count 1 || ltb 1 i) panics (if i == 0 then runs t else runs s) tt (
      Holds-if Leaky (i == 0) (runs t) (runs s)
        (record { all_open = h.all_open; unset = HasNone-delete_first s.count s.array h.unset }) h)

Leaky-add_counter : (i : ℕ) (c : Counter) (s : State) → Leaky s → Holds Leaky (add_counter i c s)
unfolding add_counter
Leaky-add_counter i c s h =
    Holds-if Leaky (c.name == []) _ _ (Leaky-delete_object i _ (Leaky-same s _ refl refl refl h)) (
      Holds-if Leaky (contains s.counters c.name) _ _ (Leaky-same s _ refl refl refl h)
        (Leaky-same s _ refl refl refl h))

module _ (calls : Calls) where
  Leaky-counters_loop :
      (i : ℕ) (o : Object) (j : ℕ) (cs : List Counter) (s : State)
      → Leaky s
      → Holds Leaky (counters_loop calls i o j cs s)
  unfolding counters_loop counter_round
  Leaky-counters_loop i o j [] s h = h
  Leaky-counters_loop i o j (c ∷ cs) s h =
      Holds-then_do Leaky (counter_round calls i o j c s)
        (λ t. counters_loop calls i o (j + 1) cs t)
        (Holds-then_do Leaky
          (if c.metric == [] then set_metric i j (default_metric calls o c) s else runs s)
          (add_counter i c)
          (Holds-if Leaky (c.metric == []) (set_metric i j (default_metric calls o c) s) (runs s)
            (Leaky-set_metric i j (default_metric calls o c) s h) h)
          (λ t k. Leaky-add_counter i c t k))
        (λ t k. Leaky-counters_loop i o (j + 1) cs t k)

  Leaky-add_object : (o : Object) (s : State) → Leaky s → Holds Leaky (add_object calls o s)
  unfolding add_object
  Leaky-add_object o s h =
      Holds-if Leaky (calls.struct_of_panics (struct_fields calls o s)) panics _ tt
        (record { all_open = λ i k. ground (arith, h.all_open i); unset = h.unset })

  Leaky-object_round :
      (i : ℕ) (o : Object) (s : State) → Leaky s → Holds Leaky (object_round calls i o s)
  unfolding object_round
  Leaky-object_round i o s h = Holds-if Leaky (o.name == []) _ _ h (
      Holds-if Leaky (o.object == []) _ _ (Leaky-same s _ refl refl refl h) (
        Holds-if Leaky (contains s.names o.name) _ _ (Leaky-same s _ refl refl refl h) (
          Holds-then_do Leaky _ (add_object calls o)
            (Leaky-counters_loop i o 0 (s.slices o.counters) _ (Leaky-same s _ refl refl refl h))
            (λ t k. Leaky-add_object o t k))))

  Leaky-objects_loop : (n i : ℕ) (s : State) → Leaky s → Holds Leaky (objects_loop calls n i s)
  unfolding objects_loop
  Leaky-objects_loop zero i s h = h
  Leaky-objects_loop (suc n) i s h = elim (Option-cases (get_elem? s.array i)) [
    | inl e ↦ rw (e, objects_loop) tt
    | inr (o, e) ↦
        rw (e, objects_loop)
          (Holds-then_do Leaky (object_round calls i o s) (λ t. objects_loop calls n (i + 1) t)
            (Leaky-object_round i o s h) (λ t k. Leaky-objects_loop n (i + 1) t k))
  ]

not_closed :
    (i : ℕ) (objects : List Object)
    → All HasNone objects
    → any objects (λ o. has_collector i o.collector) ≡ false
not_closed i [] h = refl
not_closed i (o ∷ objects) h = rw (h.0) (not_closed i objects h.1)

All-take : (n : ℕ) (objects : List Object) → All HasNone objects → All HasNone (take n objects)
All-take zero objects h = tt
All-take (suc n) [] h = tt
All-take (suc n) (o ∷ objects) h = (h.0, All-take n objects h.1)

Holds-state_of :
    (P : State → Type 0) (r : Outcome) (t : State) → Holds P r → state_of r ≡ some t → P t
Holds-state_of P (runs s) t h e = subst P (some_inj.0 e) h
Holds-state_of P (returns x s) t h e = subst P (some_inj.0 e) h
Holds-state_of P panics t h e = cc

-- However `Build` ends without a panic, `Close` closes no query of the PDH collectors that it has
-- made: it closes those of c.config.Objects, where no collector is set, and the collectors stand
-- only in the copies in c.objects.
pub is_open-close-build :
    (calls : Calls) (s t : State) (i : ℕ)
    → All (λ o. o.collector ≡ none) s.array
    → s.next ≡ 0
    → state_of (build calls s) ≡ some t
    → i < t.next
    → (close t).is_open i ≡ true
unfolding build close
is_open-close-build calls s t i unset first e k =
    let left =
      Holds-state_of Leaky (build calls s) t
        (Leaky-objects_loop calls s.count 0 _
          (record { all_open = λ j l. absurd (omega arith); unset = unset }))
        e in
    ground (
      arith,
      left.all_open i,
      not_closed i (take t.count t.array) (All-take t.count t.array left.unset),
    )
