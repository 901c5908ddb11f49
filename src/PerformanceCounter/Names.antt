-- ===== src/PerformanceCounter/Names.antt =====
-- The loop over the counters of an object, where every counter has a name.
use windows_exporter.Base.{
  ℕ, zero, suc, ◌+◌, ◌<◌, ◌≤◌, ◌≡◌, refl, ap, sym, ◌∙◌, Bool, true, false, List, [], ◌∷◌, some,
  arith, ◌==◌, nat_eq, nat_beq, Str, str_eq, take, get_elem?, contains, length, ltb, lt→ltb, All,
  if◌then◌else◌, Bool-cases, inl, inr,
}
use windows_exporter.PerformanceCounter.{
  Counter, Object, Calls, State, Outcome, runs, panics, then_do, set_nth, set_metric,
  default_metric, add_counter, counter_round, counters_loop,
}

abbrev pub counter_names : List Counter → List Str
counter_names [] = []
counter_names (c ∷ cs) = c.name ∷ counter_names cs

counter_names-set_nth :
    (j : ℕ) (metric : Str) (cs : List Counter)
    → counter_names (set_nth j (λ (c : Counter). record c { metric = metric }) cs)
      ≡ counter_names cs
counter_names-set_nth j metric [] = refl
counter_names-set_nth zero metric (c ∷ cs) = refl
counter_names-set_nth (suc j) metric (c ∷ cs) =
    ap (λ l. c.name ∷ l) (counter_names-set_nth j metric cs)

length-counter_names : (cs : List Counter) → length (counter_names cs) ≡ length cs
length-counter_names [] = refl
length-counter_names (c ∷ cs) = omega (arith, length-counter_names cs)

-- The loop over the counters of an object leaves all that the later rounds read.
pub record Same (s t : State) : Type 0 where
  pub array : t.array ≡ s.array
  pub count : t.count ≡ s.count
  pub objects : t.objects ≡ s.objects
  pub names : t.names ≡ s.names
  pub slices : (n : ℕ) → counter_names (t.slices n) ≡ counter_names (s.slices n)

Same-trans : (s t u : State) → Same s t → Same t u → Same s u
Same-trans s t u h k = record {
  array = k.array ∙ h.array;
  count = k.count ∙ h.count;
  objects = k.objects ∙ h.objects;
  names = k.names ∙ h.names;
  slices = λ n. k.slices n ∙ h.slices n;
}

-- A piece of the code runs to its end in a state that is the same.
abbrev pub RunsSame : Outcome → State → Type 0
RunsSame r s = (t : State) × (r ≡ runs t) × Same s t

RunsSame-then_do :
    (r : Outcome) (f : State → Outcome) (s : State)
    → RunsSame r s
    → ((t : State) → Same s t → RunsSame (f t) t)
    → RunsSame (then_do r f) s
RunsSame-then_do r f s (t, e, h) k =
    let (u, d, l) = k t h in (u, ap (λ x. then_do x f) e ∙ d, Same-trans s t u h l)

RunsSame-runs : (s t : State) → Same s t → RunsSame (runs t) s
RunsSame-runs s t h = (t, refl, h)

RunsSame-if :
    (b : Bool) (x y : Outcome) (s : State)
    → (b ≡ true → RunsSame x s)
    → (b ≡ false → RunsSame y s)
    → RunsSame (if b then x else y) s
RunsSame-if true x y s h k = h refl
RunsSame-if false x y s h k = k refl

pub Same-slices :
    (s t : State)
    → t.array ≡ s.array
    → t.count ≡ s.count
    → t.objects ≡ s.objects
    → t.names ≡ s.names
    → ((n : ℕ) → counter_names (t.slices n) ≡ counter_names (s.slices n))
    → Same s t
Same-slices s t a c o n h = record { array = a; count = c; objects = o; names = n; slices = h }

RunsSame-set_metric :
    (i j : ℕ) (o : Object) (metric : Str) (s : State)
    → get_elem? (take s.count s.array) i ≡ some o
    → j < length (s.slices o.counters)
    → RunsSame (set_metric i j metric s) s
unfolding set_metric
RunsSame-set_metric i j o metric s e k =
    rw (e, set_metric)
      (RunsSame-if (ltb j (length (s.slices o.counters))) _ panics s
        (λ f. RunsSame-runs s _ (
          Same-slices s _ refl refl refl refl (λ n. elim (Bool-cases (nat_beq n o.counters)) [
            | inl f ↦ rw f (counter_names-set_nth j metric (s.slices n))
            | inr f ↦ rw f refl
          ])))
        (λ f. absurd (cc (lt→ltb j (length (s.slices o.counters)) k, f))))

RunsSame-add_counter :
    (i : ℕ) (c : Counter) (s : State) → (c.name == []) ≡ false → RunsSame (add_counter i c s) s
unfolding add_counter
RunsSame-add_counter i c s h =
    RunsSame-if (c.name == []) _ _ s (λ e. absurd (cc))
      (λ e.
        RunsSame-if (contains s.counters c.name) _ _ s
          (λ f. RunsSame-runs s _ (Same-slices s _ refl refl refl refl (λ n. refl)))
          (λ f. RunsSame-runs s _ (Same-slices s _ refl refl refl refl (λ n. refl))))

pub length-Same : (s t : State) (n : ℕ) → Same s t → length (t.slices n) ≡ length (s.slices n)
length-Same s t n h =
    sym (length-counter_names (t.slices n))
    ∙ ap length (h.slices n)
    ∙ length-counter_names (s.slices n)

module _ (calls : Calls) where
  pub RunsSame-counters_loop :
      (i : ℕ) (o : Object) (j : ℕ) (cs : List Counter) (s : State)
      → get_elem? (take s.count s.array) i ≡ some o
      → j + length cs ≤ length (s.slices o.counters)
      → All (λ c. (c.name == []) ≡ false) cs
      → RunsSame (counters_loop calls i o j cs s) s
  unfolding counters_loop counter_round
  RunsSame-counters_loop i o j [] s e k h =
      RunsSame-runs s s (Same-slices s s refl refl refl refl (λ n. refl))
  RunsSame-counters_loop i o j (c ∷ cs) s e k h =
      RunsSame-then_do (counter_round calls i o j c s) (λ t. counters_loop calls i o (j + 1) cs t) s
        (RunsSame-then_do
          (if c.metric == [] then set_metric i j (default_metric calls o c) s else runs s)
          (add_counter i c) s
          (RunsSame-if (c.metric == []) _ _ s
            (λ f. RunsSame-set_metric i j o (default_metric calls o c) s e (omega arith))
            (λ f. RunsSame-runs s s (Same-slices s s refl refl refl refl (λ n. refl))))
          (λ t l. RunsSame-add_counter i c t h.0))
        (λ t l.
          RunsSame-counters_loop i o (j + 1) cs t (rw (l.array, l.count) e)
            (omega (arith, length-Same s t o.counters l)) h.1)
