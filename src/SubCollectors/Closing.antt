-- ===== src/SubCollectors/Closing.antt =====
-- Which queries of PDH are open after `Close`.
pub mod Late
use windows_exporter.Base.{
  ℕ, zero, suc, ◌+◌, ◌<◌, ◌≡◌, refl, sym, subst, ◌∙◌, Bool, true, false, not, ◌&&◌, ◌||◌, List, [],
  ◌∷◌, ◌++◌, Option, none, some, arith, ◌==◌, nat_eq, Str, str_eq, any, contains, leb, ltb, Map,
  lookup, insert, lookup-insert, if◌then◌else◌, All, All-append, All-imp, eq_refl, Bool-cases, inl,
  inr,
}
use windows_exporter.Errors.{Error}
use windows_exporter.SubCollectors.{
  begin, CloseFn, bound, method, State, BuildAnswer, Policy, numbers_from, build_sub, add_fns,
  after_build, Built, with_error, close_fn, build_round, build_each, build, is_too_old, closes_of,
  close_each, close,
}

pub any-append {ℓ} :
    {A : Type ℓ} (xs ys : List A) (p : A → Bool) → any (xs ++ ys) p ≡ (any xs p || any ys p)
any-append [] ys p = refl
any-append (x ∷ xs) ys p = ground (arith, any-append xs ys p)

-- Whether one of the functions closes a PDH collector.
abbrev pub closed_by : Map Str (List ℕ) → List CloseFn → ℕ → Bool
closed_by fields fns i = any fns (λ f. contains (closes_of fields f) i)

pub is_open-close_each :
    (fns : List CloseFn) (s : State) (i : ℕ)
    → (close_each fns s).is_open i ≡ (s.is_open i && not (closed_by s.fields fns i))
unfolding close_each
is_open-close_each [] s i = ground arith
is_open-close_each (fn ∷ fns) s i =
    is_open-close_each fns
      (record s { is_open = λ j. s.is_open j && not (contains (closes_of s.fields fn) j) }) i
    ∙ ground arith

pub contains-numbers_from :
    (first n i : ℕ) → contains (numbers_from first n) i ≡ (leb first i && ltb i (first + n))
contains-numbers_from first zero i = ground arith
contains-numbers_from first (suc n) i = elim (Bool-cases (first == i)) [
  | inl e ↦ rw e (ground arith)
  | inr e ↦ rw e (contains-numbers_from (first + 1) n i ∙ ground arith)
]

pub with_error-state : (o : Option Error) (r : State × Built) → (with_error o r).0 ≡ r.0
with_error-state none r = refl
with_error-state (some e) (s, Built.joined errs) = refl
with_error-state (some e) (s, Built.stopped f) = refl

module _ (policy : Policy) (known : List Str) (build_number : ℕ) (answers : Str → BuildAnswer) where
  pub built : State → List Str → State → State
  built before names s = (build_each policy known build_number answers before names s).0

  -- What every round keeps holds behind the loop, wherever it stops.
  pub built_induction :
      (P : List Str → State → Type 0) (before : State)
      → ((names : List Str) (s : State) → P names s → P [] s)
      → ((name : Str) (names : List Str) (s : State)
          → P (name ∷ names) s
          → P names (build_round policy known build_number answers before name s))
      → (names : List Str) (s : State) → P names s
      → P [] (built before names s)
  unfolding built build_each
  built_induction P before stop keep [] s h = h
  built_induction P before stop keep (name ∷ names) s h =
      let t = build_round policy known build_number answers before name s in
      let rest = built_induction P before stop keep names t (keep name names s h) in
      elim (Bool-cases (contains known name)) [
        | inl e ↦
            rw (e, built, build_each)
              (subst (P [])
                (sym (
                  with_error-state
                    (if is_too_old policy known build_number answers name
                      then none
                      else (answers name).error)
                    (build_each policy known build_number answers before names t)))
                rest)
        | inr e ↦ rw (e, built, build_each) (stop (name ∷ names) s h)
      ]

-- A new collector, before `Build`: nothing is open and no field is set.
abbrev pub fresh : State
fresh = record {
  fields = [];
  unclosed = [];
  is_open = λ i. false;
  next = 0;
  collector_fns = [];
  close_fns = [];
}

pub begin-fresh : (b : Bool) → begin b fresh ≡ fresh
begin-fresh true = refl
begin-fresh false = refl

-- Early: every PDH collector so far is open, and the functions close nothing.
record Bound (s : State) : Type 0 where
  all_open : (i : ℕ) → i < s.next → s.is_open i ≡ true
  all_bound : All (λ f. f ≡ bound []) s.close_fns

Bound-build_sub : (name : Str) (a : BuildAnswer) (s : State) → Bound s → Bound (build_sub name a s)
unfolding build_sub
Bound-build_sub name a s b = record {
  all_open = λ i h. elim (Bool-cases (ltb i s.next)) [
    | inl e ↦ ground (arith, b.all_open i)
    | inr e ↦ ground (
      arith,
      contains-numbers_from s.next a.made i,
      contains-numbers_from (s.next + a.made) a.made_unclosed i,
    )
  ];
  all_bound = b.all_bound;
}

Bound-add_fns : (name : Str) (s : State) → Bound s → Bound (add_fns name (bound []) s)
unfolding add_fns
Bound-add_fns name s b = record {
  all_open = b.all_open;
  all_bound = All-append (λ f. f ≡ bound []) s.close_fns (bound [] ∷ []) b.all_bound (refl, tt);
}

Bound-after_build :
    (keeps : Bool) (name : Str) (o : Option Error) (s : State)
    → Bound s
    → Bound (after_build keeps name (bound []) o s)
unfolding after_build
Bound-after_build keeps name none s b = Bound-add_fns name s b
Bound-after_build true name (some e) s b = Bound-add_fns name s b
Bound-after_build false name (some e) s b = b

closed_by-bound :
    (fields : Map Str (List ℕ)) (fns : List CloseFn) (i : ℕ)
    → All (λ f. f ≡ bound []) fns
    → closed_by fields fns i ≡ false
closed_by-bound fields [] i h = refl
closed_by-bound fields (fn ∷ fns) i h = rw (h.0) (closed_by-bound fields fns i h.1)

module _ (policy : Policy) (known : List Str) (build_number : ℕ) (answers : Str → BuildAnswer) where
  Bound-round :
      (name : Str) (s : State)
      → policy.binds_early ≡ true
      → Bound s
      → Bound (build_round policy known build_number answers fresh name s)
  unfolding close_fn lookup
  Bound-round name s early b =
      elim (Bool-cases (is_too_old policy known build_number answers name)) [
        | inl e ↦ rw e b
        | inr e ↦
            rw (e, early)
              (Bound-after_build policy.keeps_failed name (answers name).error
                (build_sub name (answers name) s) (Bound-build_sub name (answers name) s b))
      ]

  -- Where the table of sub-collectors is filled with method values of pointers, as in exchange.go
  -- and hyperv.go, these pointers are still nil, and every PDH collector that `Build` makes has its
  -- query open after `Close`.
  pub is_open-close-build_early :
      (enabled : List Str) (i : ℕ)
      → policy.binds_early ≡ true
      → let s = (build policy known build_number answers enabled fresh).0 in
        i < s.next → (close s).is_open i ≡ true
  unfolding build close built
  is_open-close-build_early enabled i early h =
      let s = built policy known build_number answers fresh (policy.order enabled) fresh in
      let b =
        built_induction policy known build_number answers (λ names u. Bound u) fresh
          (λ names u k. k) (λ name names u k. Bound-round name u early k) (policy.order enabled)
          fresh (record { all_open = λ j k. absurd (omega arith); all_bound = tt }) in
      rw (begin-fresh policy.resets) (
        is_open-close_each s.close_fns s i
        ∙ ground (arith, b.all_open i, closed_by-bound s.fields s.close_fns i b.all_bound))
