-- ===== src/Update/Loop.antt =====
-- What `Collect` gives after any schedule of the goroutine, and when the goroutine ends.
use windows_exporter.Base.{
  ◌≡◌, refl, ap, sym, ◌∙◌, List, [], ◌∷◌, Option, none, some, arith, All, Option-cases, inl, inr,
  subst, nat_eq,
}
use mathlib.Core.Option.{some_inj}
use windows_exporter.Errors.{Error, Result, ok, err}
use windows_exporter.Update.{
  after_calls, co_failure, first_error, Metric, CoError, Phase, fetching, waiting, ended, State,
  build, close, Action, fetched, timer, done, closes, fetched_step, timer_step, done_step, step,
  run, collect, err_no_updates,
}

-- What the last fetch of a schedule has answered, if there is one.
abbrev pub last_fetched : Result (List Metric) → List Action → Result (List Metric)
last_fetched r [] = r
last_fetched r (fetched new ∷ actions) = last_fetched new actions
last_fetched r (timer ∷ actions) = last_fetched r actions
last_fetched r (done ∷ actions) = last_fetched r actions
last_fetched r (closes ∷ actions) = last_fetched r actions

-- Results that `Collect` does not tell apart: any error becomes `ErrNoUpdates`.
abbrev pub or_no_updates : Result (List Metric) → Result (List Metric)
or_no_updates (ok metrics) = ok metrics
or_no_updates (err e) = err err_no_updates

collect-fetched_step :
    (p : Phase) (new : Result (List Metric)) (s t : State)
    → fetched_step p new s ≡ some t
    → collect t ≡ or_no_updates new
unfolding fetched_step collect
collect-fetched_step fetching (ok m) s t h = ground arith
collect-fetched_step fetching (err e) s t h = ground arith
collect-fetched_step waiting new s t h = cc
collect-fetched_step ended new s t h = cc

buf-timer_step : (p : Phase) (s t : State) → timer_step p s ≡ some t → s.metrics_buf ≡ t.metrics_buf
unfolding timer_step
buf-timer_step waiting s t h = ground arith
buf-timer_step fetching s t h = cc
buf-timer_step ended s t h = cc

buf-done_step : (p : Phase) (s t : State) → done_step p s ≡ some t → s.metrics_buf ≡ t.metrics_buf
unfolding done_step
buf-done_step waiting s t h = ground arith
buf-done_step fetching s t h = cc
buf-done_step ended s t h = cc

collect-step :
    (a : Action) (s t : State) (r : Result (List Metric))
    → step a s ≡ some t
    → collect s ≡ or_no_updates r
    → collect t ≡ or_no_updates (last_fetched r (a ∷ []))
unfolding step close collect
collect-step (fetched new) s t r h e = collect-fetched_step s.phase new s t h
collect-step timer s t r h e = rw (← buf-timer_step s.phase s t h) e
collect-step done s t r h e = rw (← buf-done_step s.phase s t h) e
collect-step closes s t r h e = subst (λ u. collect u ≡ or_no_updates r) (some_inj.0 h) e

last_fetched-cons :
    (a : Action) (actions : List Action) (r : Result (List Metric))
    → last_fetched (last_fetched r (a ∷ [])) actions ≡ last_fetched r (a ∷ actions)
last_fetched-cons (fetched new) actions r = refl
last_fetched-cons timer actions r = refl
last_fetched-cons done actions r = refl
last_fetched-cons closes actions r = refl

-- The first step of a schedule that runs.
split-run :
    (a : Action) (actions : List Action) (s t : State)
    → run (a ∷ actions) s ≡ some t
    → (u : State) × (step a s ≡ some u) × (run actions u ≡ some t)
unfolding run
split-run a actions s t h = elim (Option-cases (step a s)) [
  | inl e ↦ absurd (cc (rw (e, run) at h))
  | inr (u, e) ↦ (u, e, rw (e, run) at h)
]

collect-run :
    (actions : List Action) (s t : State) (r : Result (List Metric))
    → run actions s ≡ some t
    → collect s ≡ or_no_updates r
    → collect t ≡ or_no_updates (last_fetched r actions)
unfolding run
collect-run [] s t r h e = ground (arith, e)
collect-run (a ∷ actions) s t r h e =
    let (u, k, rest) = split-run a actions s t h in
    collect-run actions u t (last_fetched r (a ∷ [])) rest (collect-step a s u r k e)
    ∙ ap or_no_updates (last_fetched-cons a actions r)

collect-after_calls : (o : Option Error) → collect (after_calls o).0 ≡ err err_no_updates
unfolding after_calls collect
collect-after_calls none = refl
collect-after_calls (some e) = refl

phase-after_calls :
    (o : Option Error) → (after_calls o).1 ≡ none → (after_calls o).0.phase ≡ fetching
unfolding after_calls
phase-after_calls none h = refl
phase-after_calls (some e) h = cc

-- What `Collect` returns behind any schedule of the goroutine and of calls of `Close` is what the
-- last fetch has answered, with `ErrNoUpdates` for its error; before the first fetch it is that
-- error.
pub collect-run-build :
    (co : Option CoError) (calls : List (Option Error)) (actions : List Action) (t : State)
    → run actions (build co calls).0 ≡ some t
    → collect t ≡ or_no_updates (last_fetched (err err_no_updates) actions)
unfolding build
collect-run-build co calls actions t h =
    collect-run actions (build co calls).0 t (err err_no_updates) h
      (collect-after_calls (first_error (co_failure co ∷ calls)))

-- No fetch of a schedule succeeds.
abbrev pub IsFailing : Action → Type 0
IsFailing (fetched (ok metrics)) = ⊥
IsFailing _ = Unit

-- Only fetches, and calls of `Close`, which go unseen.
abbrev pub IsBusy : Action → Type 0
IsBusy (fetched r) = Unit
IsBusy closes = Unit
IsBusy _ = ⊥

IsBusy-step :
    (a : Action) (s t : State)
    → s.phase ≡ fetching
    → step a s ≡ some t
    → IsFailing a
    → IsBusy a × (t.phase ≡ fetching)
unfolding step fetched_step timer_step done_step close
IsBusy-step (fetched (ok m)) s t e h f = absurd f
IsBusy-step (fetched (err x)) s t e h f =
    (tt, ap (λ (u : State). u.phase) (sym (some_inj.0 (rw (e, step, fetched_step) at h))))
IsBusy-step timer s t e h f = absurd (cc (rw (e, step, timer_step) at h))
IsBusy-step done s t e h f = absurd (cc (rw (e, step, done_step) at h))
IsBusy-step closes s t e h f = (tt, ap (λ (u : State). u.phase) (sym (some_inj.0 h)) ∙ e)

run-IsBusy_from :
    (actions : List Action) (s t : State)
    → s.phase ≡ fetching
    → run actions s ≡ some t
    → All IsFailing actions
    → (t.phase ≡ fetching) × All IsBusy actions
unfolding run
run-IsBusy_from [] s t e h f = (ground (arith, e), tt)
run-IsBusy_from (a ∷ actions) s t e h f =
    let (u, k, rest) = split-run a actions s t h in
    let (busy, p) = IsBusy-step a s u e k f.0 in
    let (q, all) = run-IsBusy_from actions u t p rest f.1 in (q, (busy, all))

-- While every fetch fails the goroutine neither waits nor sees that the collector is closed: the
-- next thing that it does is always one more fetch.
pub run-IsBusy :
    (co : Option CoError) (calls : List (Option Error)) (actions : List Action) (t : State)
    → (build co calls).1 ≡ none
    → run actions (build co calls).0 ≡ some t
    → All IsFailing actions
    → (t.phase ≡ fetching) × All IsBusy actions
unfolding build
run-IsBusy co calls actions t b h f =
    run-IsBusy_from actions (build co calls).0 t
      (phase-after_calls (first_error (co_failure co ∷ calls)) b) h f
