-- ===== src/SubCollectors/Closing/Late.antt =====
-- What is open after `Close` where the functions read the fields when they are called.
use windows_exporter.Base.{
  ℕ, ◌+◌, ◌<◌, ◌≡◌, refl, sym, ◌∙◌, Bool, true, false, ◌||◌, List, [], ◌∷◌, ◌++◌, Option, none,
  some, arith, ◌==◌, nat_eq, Str, str_eq, contains, Map, insert, lookup-insert, All, All-append,
  All-imp, eq_refl, Bool-cases, inl, inr,
}
use windows_exporter.Errors.{Error}
use windows_exporter.SubCollectors.{
  CloseFn, bound, method, State, BuildAnswer, Policy, numbers_from, build_sub, add_fns, after_build,
  close_fn, build_round, build, is_too_old, closes_of, close,
}
use windows_exporter.SubCollectors.Closing.{
  any-append, closed_by, is_open-close_each, contains-numbers_from, built, built_induction, fresh,
  begin-fresh,
}

-- A name stands once in a list.
abbrev pub NoRepeats : List Str → Type 0
NoRepeats [] = Unit
NoRepeats (name ∷ names) = (contains names name ≡ false) × NoRepeats names

-- Late: what is open is closed by the functions, which belong to names that do not come any more.
abbrev IsApart : List Str → CloseFn → Type 0
IsApart names (bound ids) = ⊥
IsApart names (method name) = contains names name ≡ false

record Covered (names : List Str) (s : State) : Type 0 where
  covers :
      (i : ℕ)
      → s.is_open i ≡ true
      → contains s.unclosed i ≡ false
      → closed_by s.fields s.close_fns i ≡ true
  -- what is numbered so far, and the two kinds of fields have no PDH collector in common
  below : (i : ℕ) → s.is_open i ≡ true → i < s.next
  known_open : (i : ℕ) → contains s.unclosed i ≡ true → s.is_open i ≡ true
  closed_below : (i : ℕ) → closed_by s.fields s.close_fns i ≡ true → i < s.next
  disjoint : (i : ℕ) → contains s.unclosed i ≡ true → closed_by s.fields s.close_fns i ≡ false
  apart : All (IsApart names) s.close_fns
  no_repeats : NoRepeats names

IsApart-tail :
    (name : Str) (names : List Str) (f : CloseFn) → IsApart (name ∷ names) f → IsApart names f
IsApart-tail name names (bound ids) h = h
IsApart-tail name names (method n) h = ground arith

closed_by-insert :
    (name : Str) (names : List Str) (ids : List ℕ) (fields : Map Str (List ℕ)) (fns : List CloseFn)
    (i : ℕ)
    → All (IsApart (name ∷ names)) fns
    → closed_by (insert name ids fields) fns i ≡ closed_by fields fns i
closed_by-insert name names ids fields [] i h = refl
closed_by-insert name names ids fields (bound js ∷ fns) i h = absurd (h.0)
closed_by-insert name names ids fields (method n ∷ fns) i h =
    let other : (name == n) ≡ false = ground (arith, h.0) in
    rw (lookup-insert name n ids fields, other, closed_by-insert name names ids fields fns i h.1)

IsApart-nil : (names : List Str) (f : CloseFn) → IsApart names f → IsApart [] f
IsApart-nil names (bound ids) h = h
IsApart-nil names (method n) h = refl

Covered-stop : (names : List Str) (s : State) → Covered names s → Covered [] s
Covered-stop names s c = record {
  covers = c.covers;
  below = c.below;
  known_open = c.known_open;
  closed_below = c.closed_below;
  disjoint = c.disjoint;
  apart = All-imp (IsApart names) (IsApart []) (λ f h. IsApart-nil names f h) s.close_fns c.apart;
  no_repeats = tt;
}

Covered-skip :
    (name : Str) (names : List Str) (s : State) → Covered (name ∷ names) s → Covered names s
Covered-skip name names s c = record {
  covers = c.covers;
  below = c.below;
  known_open = c.known_open;
  closed_below = c.closed_below;
  disjoint = c.disjoint;
  apart =
      All-imp (IsApart (name ∷ names)) (IsApart names) (λ f h. IsApart-tail name names f h)
        s.close_fns c.apart;
  no_repeats = c.no_repeats.1;
}

contains-append :
    (xs ys : List ℕ) (i : ℕ) → contains (xs ++ ys) i ≡ (contains xs i || contains ys i)
contains-append [] ys i = refl
contains-append (x ∷ xs) ys i = ground (arith, contains-append xs ys i)

covered : (a b c d : Bool) → (b || d) ≡ true → (b ≡ true → a ≡ true) → (a || (c || d)) ≡ true
covered a b c d h k = ground arith

-- What the functions close, once a sub-collector and its function are added.
closed_by-add :
    (name : Str) (names : List Str) (ids : List ℕ) (fields : Map Str (List ℕ)) (fns : List CloseFn)
    (i : ℕ)
    → All (IsApart (name ∷ names)) fns
    → closed_by (insert name ids fields) (fns ++ method name ∷ []) i
      ≡ (closed_by fields fns i || contains ids i)
closed_by-add name names ids fields fns i h =
    any-append fns (method name ∷ []) (λ f. contains (closes_of (insert name ids fields) f) i)
    ∙ ground (
      arith,
      closed_by-insert name names ids fields fns i h,
      lookup-insert name name ids fields,
      eq_refl name,
    )

Covered-add :
    (name : Str) (names : List Str) (a : BuildAnswer) (s : State)
    → Covered (name ∷ names) s
    → Covered names (add_fns name (method name) (build_sub name a s))
unfolding add_fns build_sub
Covered-add name names a s c =
    let ids = numbers_from s.next a.made in
    let others = numbers_from (s.next + a.made) a.made_unclosed in
    let closed = λ (i : ℕ). closed_by-add name names ids s.fields s.close_fns i c.apart in
    let in_ids = contains-numbers_from s.next a.made in
    let in_others = contains-numbers_from (s.next + a.made) a.made_unclosed in
    record {
      covers = λ i h k.
          let k' : (contains s.unclosed i || contains others i) ≡ false =
            sym (contains-append s.unclosed others i) ∙ k in
          closed i ∙ ground (arith, in_ids i, in_others i, c.covers i);
      below = λ i h. ground (arith, in_ids i, in_others i, c.below i);
      known_open = λ i h.
          let h' : (contains s.unclosed i || contains others i) ≡ true =
            sym (contains-append s.unclosed others i) ∙ h in
          covered (s.is_open i) (contains s.unclosed i) (contains ids i) (contains others i) h'
            (c.known_open i);
      closed_below = λ i h.
          let h' : (closed_by s.fields s.close_fns i || contains ids i) ≡ true =
            sym (closed i) ∙ h in
          ground (arith, in_ids i, c.closed_below i);
      disjoint = λ i h.
          let h' : (contains s.unclosed i || contains others i) ≡ true =
            sym (contains-append s.unclosed others i) ∙ h in
          let goal : (closed_by s.fields s.close_fns i || contains ids i) ≡ false = ground (
            arith,
            in_ids i,
            in_others i,
            c.disjoint i,
            c.known_open i,
            c.below i,
            c.closed_below i,
          ) in
          closed i ∙ goal;
      apart =
          All-append (IsApart names) s.close_fns (method name ∷ [])
            (All-imp (IsApart (name ∷ names)) (IsApart names) (λ f h. IsApart-tail name names f h)
              s.close_fns c.apart)
            (c.no_repeats.0, tt);
      no_repeats = c.no_repeats.1;
    }

Covered-after_build :
    (name : Str) (names : List Str) (o : Option Error) (a : BuildAnswer) (s : State)
    → Covered (name ∷ names) s
    → Covered names (after_build true name (method name) o (build_sub name a s))
unfolding after_build
Covered-after_build name names none a s c = Covered-add name names a s c
Covered-after_build name names (some e) a s c = Covered-add name names a s c

module _ (policy : Policy) (known : List Str) (build_number : ℕ) (answers : Str → BuildAnswer) where
  Covered-round :
      (name : Str) (names : List Str) (s : State)
      → policy.binds_early ≡ false
      → policy.keeps_failed ≡ true
      → Covered (name ∷ names) s
      → Covered names (build_round policy known build_number answers fresh name s)
  unfolding close_fn
  Covered-round name names s late keeps c =
      elim (Bool-cases (is_too_old policy known build_number answers name)) [
        | inl e ↦ rw e (Covered-skip name names s c)
        | inr e ↦
            rw (e, late, keeps)
              (Covered-after_build name names (answers name).error (answers name) s c)
      ]

  -- Where the functions read the fields when they are called and a sub-collector that fails to build
  -- is used, as in mssql.go, the queries that are open after `Close` are those of the fields that no
  -- `close` reads, also where `Build` has failed for some sub-collectors or has stopped at an unknown
  -- name, provided that no name is enabled twice.
  pub is_open-close-build_late :
      (enabled : List Str) (i : ℕ)
      → policy.binds_early ≡ false
      → policy.keeps_failed ≡ true
      → NoRepeats (policy.order enabled)
      → let s = (build policy known build_number answers enabled fresh).0 in
        (close s).is_open i ≡ contains s.unclosed i
  unfolding build close built
  is_open-close-build_late enabled i late keeps d =
      let s = built policy known build_number answers fresh (policy.order enabled) fresh in
      let c =
        built_induction policy known build_number answers Covered fresh Covered-stop
          (λ name names u k. Covered-round name names u late keeps k) (policy.order enabled) fresh
          (record {
            covers = λ j k m. cc;
            below = λ j k. cc;
            known_open = λ j k. cc;
            closed_below = λ j k. cc;
            disjoint = λ j k. refl;
            apart = tt;
            no_repeats = d;
          }) in
      rw (begin-fresh policy.resets) (
        is_open-close_each s.close_fns s i
        ∙ ground (arith, c.covers i, c.known_open i, c.disjoint i))
