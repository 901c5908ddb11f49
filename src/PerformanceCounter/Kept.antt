-- ===== src/PerformanceCounter/Kept.antt =====
-- The objects that `Build` keeps where every object and every counter has a name.
use windows_exporter.Base.{
  ℕ, zero, suc, ◌+◌, ◌≡◌, refl, ap, sym, subst, ◌∙◌, Bool, true, false, ◌||◌, List, [], ◌∷◌, ◌++◌,
  append_assoc, append-nil, Option, some, arith, ◌==◌, nat_eq, Str, str_eq, take, drop, get_elem?,
  contains, length, All, All-imp, if◌then◌else◌,
}
use windows_exporter.Errors.{Error}
use windows_exporter.PerformanceCounter.{
  Counter, Object, Calls, State, Outcome, runs, then_do, add_error, kept_object, struct_fields,
  add_object, object_round, objects_loop, build,
}
use windows_exporter.PerformanceCounter.Fields.{new_names, IsStruct, counters-counters_loop}
use windows_exporter.PerformanceCounter.Names.{counter_names, Same, RunsSame-counters_loop}

-- What identifies an object: its name, its performance object and its slice of counters.
abbrev pub identities : List Object → List (Str × Str × ℕ)
identities [] = []
identities (o ∷ os) = (o.name, o.object, o.counters) ∷ identities os

-- The reference: every object of a kind whose name no object before it has.
abbrev pub usable : List Str → List Object → List Object
usable seen [] = []
usable seen (o ∷ os) =
    if (o.object == []) || contains seen o.name
    then usable seen os
    else o ∷ usable (seen ++ o.name ∷ []) os

identities-append : (os ps : List Object) → identities (os ++ ps) ≡ identities os ++ identities ps
identities-append [] ps = refl
identities-append (o ∷ os) ps =
    ap (λ l. (o.name, o.object, o.counters) ∷ l) (identities-append os ps)

-- What is kept so far, and what the reference keeps of the rest.
abbrev in_all : State → List Object → List (Str × Str × ℕ)
in_all s os = identities s.objects ++ identities (usable s.names os)

-- All that a round of the loop leaves.
record Round (o : Object) (s t : State) : Type 0 where
  array : t.array ≡ s.array
  count : t.count ≡ s.count
  slices : (n : ℕ) → counter_names (t.slices n) ≡ counter_names (s.slices n)
  kept : (os : List Object) → in_all t os ≡ in_all s (o ∷ os)

-- The object has a name, so has every counter in its slice, and they make a struct.
abbrev pub IsNamed : Calls → State → Object → Type 0
IsNamed calls s o =
    ((o.name == []) ≡ false)
    × All (λ name. (name == []) ≡ false) (counter_names (s.slices o.counters))
    × IsStruct calls o (counter_names (s.slices o.counters))

All-names :
    (cs : List Counter)
    → All (λ name. (name == []) ≡ false) (counter_names cs)
    → All (λ c. (c.name == []) ≡ false) cs
All-names [] h = h
All-names (c ∷ cs) h = (h.0, All-names cs h.1)

-- A piece of the code runs to its end in such a state.
abbrev RunsTo : (State → Type 0) → Outcome → Type 0
RunsTo P r = (t : State) × (r ≡ runs t) × P t

RunsTo-if :
    (P : State → Type 0) (b : Bool) (x y : Outcome)
    → (b ≡ true → RunsTo P x)
    → (b ≡ false → RunsTo P y)
    → RunsTo P (if b then x else y)
RunsTo-if P true x y h k = h refl
RunsTo-if P false x y h k = k refl

RunsTo-then_do :
    (P Q : State → Type 0) (r : Outcome) (f : State → Outcome)
    → RunsTo P r
    → ((t : State) → P t → RunsTo Q (f t))
    → RunsTo Q (then_do r f)
RunsTo-then_do P Q r f (t, e, h) k = let (u, d, l) = k t h in (u, ap (λ x. then_do x f) e ∙ d, l)

-- A round that notes an error.
Round-add_error :
    (o : Object) (e : Error) (s : State)
    → ((o.object == []) || contains s.names o.name) ≡ true
    → RunsTo (Round o s) (runs (add_error e s))
Round-add_error o e s h = (
  add_error e s,
  refl,
  record { array = refl; count = refl; slices = λ n. refl; kept = λ os. rw h refl },
)

in_all-kept :
    (o : Object) (c : Option ℕ) (s u : State) (os : List Object)
    → ((o.object == []) || contains s.names o.name) ≡ false
    → u.objects ≡ s.objects
    → u.names ≡ s.names ++ o.name ∷ []
    → identities (u.objects ++ kept_object o c ∷ []) ++ identities (usable u.names os)
      ≡ in_all s (o ∷ os)
in_all-kept o c s u os h e n =
    rw (h, e, n, identities-append s.objects (kept_object o c ∷ []))
      (append_assoc (identities s.objects) ((o.name, o.object, o.counters) ∷ [])
        (identities (usable (s.names ++ o.name ∷ []) os)))

drop-cons :
    (i : ℕ) (xs : List Object) (x : Object) (rest : List Object)
    → drop i xs ≡ x ∷ rest
    → (get_elem? xs i ≡ some x) × (drop (suc i) xs ≡ rest)
drop-cons zero [] x rest h = cc
drop-cons zero (y ∷ xs) x rest h = (cc, cc)
drop-cons (suc i) [] x rest h = cc
drop-cons (suc i) (y ∷ xs) x rest h = drop-cons i xs x rest h

add_one : (i : ℕ) → i + 1 ≡ suc i
add_one i = omega arith

take-length : (xs : List Object) → take (length xs) xs ≡ xs
take-length [] = refl
take-length (x ∷ xs) = ap (λ l. x ∷ l) (take-length xs)

IsNamed-Round :
    (calls : Calls) (o p : Object) (s t : State)
    → Round o s t
    → IsNamed calls s p
    → IsNamed calls t p
IsNamed-Round calls o p s t k h = (
  h.0,
  subst (All (λ name. (name == []) ≡ false)) (sym (k.slices p.counters)) h.1,
  subst (IsStruct calls p) (sym (k.slices p.counters)) h.2,
)

module _ (calls : Calls) where
  runs-add_object :
      (o : Object) (s u : State)
      → ((o.object == []) || contains s.names o.name) ≡ false
      → calls.struct_of_panics (struct_fields calls o u) ≡ false
      → Same (record s { names = s.names ++ o.name ∷ []; counters = [] }) u
      → RunsTo (Round o s) (add_object calls o u)
  unfolding add_object
  runs-add_object o s u new safe h = rw safe (
    _,
    refl,
    record {
      array = h.array;
      count = h.count;
      slices = h.slices;
      kept = λ os. in_all-kept o _ s u os new h.objects h.names;
    },
  )

  runs-object_round :
      (i : ℕ) (o : Object) (s : State)
      → get_elem? (take s.count s.array) i ≡ some o
      → IsNamed calls s o
      → RunsTo (Round o s) (object_round calls i o s)
  unfolding object_round
  runs-object_round i o s e h =
      RunsTo-if (Round o s) (o.name == []) _ _ (λ f. absurd (cc (h.0, f)))
        (λ f.
          RunsTo-if (Round o s) (o.object == []) _ _ (λ g. Round-add_error o _ s (rw g refl))
            (λ g.
              RunsTo-if (Round o s) (contains s.names o.name) _ _
                (λ k. Round-add_error o _ s (ground (arith, k)))
                (λ k.
                  let t : State = record s { names = s.names ++ o.name ∷ []; counters = [] } in
                  let names = counter_names (s.slices o.counters) in
                  let all = All-names (s.slices o.counters) h.1 in
                  let (u, r, l) =
                    RunsSame-counters_loop calls i o 0 (s.slices o.counters) t e (omega arith)
                      all in
                  let found : u.counters ≡ new_names [] names =
                    counters-counters_loop calls i o 0 (s.slices o.counters) t u all r in
                  let safe : calls.struct_of_panics (struct_fields calls o u) ≡ false =
                    rw found h.2 in
                  rw r (runs-add_object o s u (rw (g, k) refl) safe l))))

  runs-objects_loop :
      (rest : List Object) (i : ℕ) (s : State)
      → drop i s.array ≡ rest
      → s.count ≡ length s.array
      → All (IsNamed calls s) rest
      → RunsTo (λ t. identities t.objects ≡ in_all s rest) (objects_loop calls (length rest) i s)
  unfolding objects_loop
  runs-objects_loop [] i s d c h = (s, refl, sym (append-nil (identities s.objects)))
  runs-objects_loop (o ∷ os) i s d c h =
      let (found, later) = drop-cons i s.array o os d in
      let at_i : get_elem? (take s.count s.array) i ≡ some o = rw (c, take-length s.array) found in
      rw (found, objects_loop)
        (RunsTo-then_do (Round o s) (λ t. identities t.objects ≡ in_all s (o ∷ os))
          (object_round calls i o s) (λ t. objects_loop calls (length os) (i + 1) t)
          (runs-object_round i o s at_i h.0)
          (λ t k.
            let (u, e, f) =
              runs-objects_loop os (i + 1) t (rw (k.array, add_one i) later)
                (k.count ∙ c ∙ ap length (sym k.array))
                (All-imp (IsNamed calls s) (IsNamed calls t)
                  (λ p n. IsNamed-Round calls o p s t k n) os h.1) in
            (u, e, f ∙ k.kept os)))

-- Where every object and every counter has a name, and reflection makes a struct of the fields of
-- every object, whose names come from the different names of its counters, `Build` runs to its end,
-- and it keeps in order the objects that name a performance object and whose name none of the kept
-- ones before has.
pub objects-build :
    (calls : Calls) (s : State)
    → s.count ≡ length s.array
    → All (IsNamed calls s) s.array
    → (t : State) × (build calls s ≡ runs t)
      × (identities t.objects ≡ identities (usable [] s.array))
unfolding build
objects-build calls s c h =
    let start : State = record s { objects = []; names = []; errs = [] } in
    subst
      (λ n.
        RunsTo (λ t. identities t.objects ≡ identities (usable [] s.array))
          (objects_loop calls n 0 start))
      (sym c) (runs-objects_loop calls s.array 0 start refl c h)
