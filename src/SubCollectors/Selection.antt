-- ===== src/SubCollectors/Selection.antt =====
-- Which sub-collectors `Build` keeps, what it returns, and what `Collect` returns.
use windows_exporter.Base.{
  ℕ, ◌≡◌, ◌↔◌, refl, ap, sym, ◌∙◌, append-nil, append_assoc, Bool, true, false, not, ◌&&◌, ◌||◌,
  List, [], ◌∷◌, ◌++◌, Option, none, some, arith, Str, str_eq, contains, select, select-append,
  if◌then◌else◌, Bool-cases, Option-cases, All, inl, inr,
}
use windows_exporter.SubCollectors.Closing.{fresh, begin-fresh, with_error-state}
use windows_exporter.Errors.{Error}
use windows_exporter.SubCollectors.{
  CloseFn, State, begin, BuildAnswer, Policy, build_sub, add_fns, after_build, Built, joined,
  stopped, with_error, close_fn, build_round, build_each, build, is_too_old, unknown_collector,
  errors_of, collect, collect_errors,
}

-- The names before the first unknown one, and that one.
abbrev pub known_part : List Str → List Str → List Str
known_part known [] = []
known_part known (name ∷ names) =
    let rest = known_part known names in if contains known name then name ∷ rest else []

abbrev pub first_unknown : List Str → List Str → Option Str
first_unknown known [] = none
first_unknown known (name ∷ names) =
    let rest = first_unknown known names in if contains known name then rest else some name

abbrev pub is_built : Option Error → Bool
is_built none = true
is_built (some e) = false

-- The errors of the answers, in order.
abbrev pub errors_in : (Str → Option Error) → List Str → List Error
errors_in answers [] = []
errors_in answers (name ∷ names) = errors_of (answers name) ++ errors_in answers names

abbrev pub expected : Option Str → List Error → Built
expected none errs = joined errs
expected (some name) errs = stopped (unknown_collector name)

with_error-expected :
    (o : Option Error) (u : Option Str) (errs : List Error) (r : State × Built)
    → r.1 ≡ expected u errs
    → (with_error o r).1 ≡ expected u (errors_of o ++ errs)
with_error-expected none u errs r e = e
with_error-expected (some e) none errs (s, b) h = rw h refl
with_error-expected (some e) (some name) errs (s, b) h = rw h refl

fns-after_build :
    (keeps : Bool) (name : Str) (fn : CloseFn) (o : Option Error) (s : State)
    → (after_build keeps name fn o s).collector_fns
      ≡ s.collector_fns ++ (if keeps || is_built o then name ∷ [] else [])
unfolding after_build add_fns
fns-after_build true name fn none s = refl
fns-after_build false name fn none s = refl
fns-after_build true name fn (some e) s = refl
fns-after_build false name fn (some e) s = sym (append-nil s.collector_fns)

fns-begin : (b : Bool) (s : State) → (begin b s).collector_fns ≡ (if b then [] else s.collector_fns)
fns-begin true s = refl
fns-begin false s = refl

collect_errors-All :
    (answers : Str → Option Error) (names : List Str)
    → (collect_errors answers names ≡ []) ↔ All (λ name. answers name ≡ none) names
unfolding collect_errors
collect_errors-All answers [] = ground arith
collect_errors-All answers (name ∷ names) = elim (Option-cases (answers name)) [
  | inl e ↦ rw e (ground (arith, collect_errors-All answers names))
  | inr (x, e) ↦ rw e (ground arith)
]

module _ (policy : Policy) (known : List Str) (build_number : ℕ) (answers : Str → BuildAnswer) where
  -- The system is new enough for the sub-collector.
  abbrev pub is_supported : Str → Bool
  is_supported name = not (is_too_old policy known build_number answers name)

  abbrev pub is_used : Str → Bool
  is_used name = is_supported name && (policy.keeps_failed || is_built (answers name).error)

  fns-round :
      (before s : State) (name : Str)
      → (build_round policy known build_number answers before name s).collector_fns
        ≡ s.collector_fns ++ select is_used (name ∷ [])
  unfolding build_sub
  fns-round before s name = elim (Bool-cases (is_too_old policy known build_number answers name)) [
    | inl e ↦ rw e (sym (append-nil s.collector_fns))
    | inr e ↦ rw e (
        fns-after_build policy.keeps_failed name
          (close_fn policy known build_number answers before name) (answers name).error
          (build_sub name (answers name) s))
  ]

  fns-build_each :
      (before : State) (names : List Str) (s : State)
      → (build_each policy known build_number answers before names s).0.collector_fns
        ≡ s.collector_fns ++ select is_used (known_part known names)
  unfolding build_each
  fns-build_each before [] s = sym (append-nil s.collector_fns)
  fns-build_each before (name ∷ names) s = elim (Bool-cases (contains known name)) [
    | inl e ↦
        let t = build_round policy known build_number answers before name s in
        let o =
          if is_too_old policy known build_number answers name
          then none
          else (answers name).error in
        rw
          (
            e,
            with_error-state o (build_each policy known build_number answers before names t),
            fns-build_each before names t,
            fns-round before s name,
          )
          (append_assoc s.collector_fns (select is_used (name ∷ []))
              (select is_used (known_part known names))
            ∙ ap (λ l. s.collector_fns ++ l)
                (sym (select-append is_used (name ∷ []) (known_part known names))))
    | inr e ↦ rw e (sym (append-nil s.collector_fns))
  ]

  Built-build_each :
      (before : State) (names : List Str) (s : State)
      → (build_each policy known build_number answers before names s).1
        ≡ expected (first_unknown known names) (
            errors_in (λ name. (answers name).error) (select is_supported (known_part known names)))
  unfolding build_each
  Built-build_each before [] s = refl
  Built-build_each before (name ∷ names) s =
      let t =
        after_build policy.keeps_failed name
          (close_fn policy known build_number answers before name) (answers name).error
          (build_sub name (answers name) s) in
      elim (Bool-cases (contains known name)) [
        | inl e ↦ elim (Bool-cases (is_too_old policy known build_number answers name)) [
          | inl f ↦ rw (e, f) (Built-build_each before names s)
          | inr f ↦
              rw (e, f)
                (with_error-expected (answers name).error (first_unknown known names)
                  (errors_in (λ n. (answers n).error)
                    (select is_supported (known_part known names)))
                  (build_each policy known build_number answers before names t)
                  (Built-build_each before names t))
        ]
        | inr e ↦ rw e refl
      ]

  -- `Build` keeps, behind the functions it had where it does not begin with new lists, those of the names before the first unknown one, in order, for which the
  -- system is new enough and which are built without an error or kept in spite of it. It returns
  -- the errors of those that it builds, or at an unknown name the error for that name alone.
  pub Built-build :
      (enabled : List Str) (s : State)
      → let r = build policy known build_number answers enabled s in
        let names = known_part known (policy.order enabled) in
        (r.0.collector_fns
          ≡ (if policy.resets then [] else s.collector_fns) ++ select is_used names)
        × (r.1
            ≡ expected
                (first_unknown known (policy.order enabled))
                (errors_in (λ name. (answers name).error) (select is_supported names)))
  unfolding build
  Built-build enabled s =
      let t = begin policy.resets s in
      let names = policy.order enabled in
      (
        fns-build_each s names t
            ∙ ap (λ l. l ++ select is_used (known_part known names)) (fns-begin policy.resets s),
        Built-build_each s names t,
      )

  -- A new collector that is built returns no error from `Collect` exactly when no sub-collector
  -- that `Build` keeps returns one.
  collect-build :
      (enabled : List Str) (collected : Str → Option Error)
      → (collect collected (build policy known build_number answers enabled fresh).0 ≡ [])
        ↔ All
            (λ name. collected name ≡ none)
            (select is_used (known_part known (policy.order enabled)))
  unfolding build collect
  collect-build enabled collected =
      rw (begin-fresh policy.resets, fns-build_each fresh (policy.order enabled) fresh)
        (collect_errors-All collected (select is_used (known_part known (policy.order enabled))))
