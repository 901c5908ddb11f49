-- ===== src/Processes/Returns.antt =====
-- A scrape of the processes takes a bounded number of steps, and is not stuck before it returns.
use windows_exporter.Base.{
  ℕ, zero, suc, ◌+◌, ◌*◌, ◌-◌, ◌≤◌, ◌<◌, ◌≡◌, refl, ap, Bool, true, false, List, [], ◌∷◌, ◌++◌,
  Option, none, some, arith, nat_eq, length, length-append, get_elem?, if◌then◌else◌, Option-cases,
  Bool-cases, inl, inr, ◌⊎◌,
}
use windows_exporter.Processes.{
  Request, State, Action, send, take, restart, return, finish, panic, start, remove, send_step,
  take_step, finish_step, panic_step, restart_step, return_step, step, run,
}
use windows_exporter.Processes.Workers.{Serving, Serving-start, Serving-run, length-remove}

-- The steps that are left at most.
abbrev steps_left : State → ℕ
steps_left s =
    4 * length s.unsent
    + 3 * length s.worker_ch
    + 2 * length s.held
    + s.restarting
    + (if s.returned then 0 else 1)

steps_left-send :
    (l : List Request) (s t : State)
    → s.unsent ≡ l
    → send_step l s ≡ some t
    → steps_left t < steps_left s
unfolding send_step
steps_left-send [] s t e h = cc
steps_left-send (r ∷ rest) s t e h =
    let n : length s.unsent ≡ suc (length rest) = ap length e in
    ground (arith, n, length-append s.worker_ch (r ∷ []))

steps_left-take :
    (l : List Request) (n : ℕ) (s t : State)
    → s.worker_ch ≡ l
    → take_step l n s ≡ some t
    → steps_left t < steps_left s
unfolding take_step
steps_left-take [] n s t e h = cc
steps_left-take (r ∷ rest) zero s t e h = cc
steps_left-take (r ∷ rest) (suc n) s t e h = ground arith

steps_left-finish :
    (n : ℕ) (o : Option Request) (s t : State)
    → get_elem? s.held n ≡ o
    → finish_step n o s ≡ some t
    → steps_left t < steps_left s
unfolding finish_step
steps_left-finish n none s t e h = cc
steps_left-finish n (some r) s t e h = ground (arith, length-remove n r s.held e)

steps_left-panic :
    (n : ℕ) (o : Option Request) (s t : State)
    → get_elem? s.held n ≡ o
    → panic_step n o s ≡ some t
    → steps_left t < steps_left s
unfolding panic_step
steps_left-panic n none s t e h = cc
steps_left-panic n (some r) s t e h = ground (arith, length-remove n r s.held e)

steps_left-restart :
    (n : ℕ) (s t : State)
    → s.restarting ≡ n
    → restart_step n s ≡ some t
    → steps_left t < steps_left s
unfolding restart_step
steps_left-restart zero s t e h = cc
steps_left-restart (suc n) s t e h = ground arith

steps_left-return :
    (l : List Request) (s t : State) → return_step l s ≡ some t → steps_left t < steps_left s
unfolding return_step
steps_left-return (r ∷ rest) s t h = cc
steps_left-return [] s t h = ground arith

steps_left-step : (a : Action) (s t : State) → step a s ≡ some t → steps_left t < steps_left s
unfolding step
steps_left-step send s t h = steps_left-send s.unsent s t refl h
steps_left-step take s t h = steps_left-take s.worker_ch s.waiting s t refl h
steps_left-step restart s t h = steps_left-restart s.restarting s t refl h
steps_left-step return s t h = steps_left-return s.unsent s t h
steps_left-step (finish n) s t h = steps_left-finish n (get_elem? s.held n) s t refl h
steps_left-step (panic n) s t h = steps_left-panic n (get_elem? s.held n) s t refl h

steps_left-run :
    (acts : List Action) (s t : State)
    → run acts s ≡ some t
    → length acts + steps_left t ≤ steps_left s
unfolding run
steps_left-run [] s t h = let e : s ≡ t = cc in omega (arith, ap steps_left e)
steps_left-run (a ∷ acts) s t h = elim (Option-cases (step a s)) [
  | inl e ↦ absurd (cc (rw (e, run) at h))
  | inr (u, e) ↦
      let later = steps_left-run acts u t (rw (e, run) at h) in
      let one = steps_left-step a s u e in omega (arith, later, one)
]

abbrev pub CanMove : State → Type 0
CanMove s = (a : Action) × (t : State) × (step a s ≡ some t)

CanMove-return : (s : State) → s.unsent ≡ [] → s.wait_group ≡ 0 → s.returned ≡ false → CanMove s
unfolding step return_step
CanMove-return s e g r = (return, record s { returned = true }, simp (e, g, r))

CanMove-send :
    (r : Request) (rest : List Request) (s : State)
    → s.unsent ≡ r ∷ rest
    → s.worker_ch ≡ []
    → CanMove s
unfolding step send_step
CanMove-send r rest s e g = (
  send,
  record s { unsent = rest; worker_ch = s.worker_ch ++ r ∷ []; wait_group = s.wait_group + 1 },
  simp (e, g),
)

-- Nothing is held, nobody is to be started again, and so a worker waits.
CanMove-unheld :
    (l u : List Request) (n : ℕ) (s : State)
    → s.worker_ch ≡ l
    → s.unsent ≡ u
    → s.waiting ≡ suc n
    → s.wait_group ≡ length l
    → s.returned ≡ false
    → CanMove s
unfolding step take_step
CanMove-unheld [] [] n s e u w g r = CanMove-return s u g r
CanMove-unheld [] (x ∷ rest) n s e u w g r = CanMove-send x rest s u e
CanMove-unheld (x ∷ rest) u n s e f w g r =
    (take, record s { worker_ch = rest; held = x ∷ s.held; waiting = n }, simp (e, w))

CanMove-held : (l : List Request) (x : Request) (s : State) → s.held ≡ x ∷ l → CanMove s
unfolding step finish_step
CanMove-held l x s e = (
  finish 0,
  record s {
    held = remove 0 s.held;
    waiting = s.waiting + 1;
    wait_group = s.wait_group - 1;
    done = x ∷ s.done;
  },
  simp e,
)

CanMove-restart : (n : ℕ) (s : State) → s.restarting ≡ suc n → CanMove s
unfolding step restart_step
CanMove-restart n s e = (restart, record s { restarting = n; waiting = s.waiting + 1 }, simp e)

CanMove-cases :
    (h : List Request) (k w workers : ℕ) (s : State) (p : Request → Bool) (all : List Request)
    → Serving (suc workers) p all s
    → s.held ≡ h
    → s.restarting ≡ k
    → s.waiting ≡ w
    → s.returned ≡ false
    → CanMove s
CanMove-cases (x ∷ l) k w workers s p all v e f g r = CanMove-held l x s e
CanMove-cases [] (suc k) w workers s p all v e f g r = CanMove-restart k s f
CanMove-cases [] zero zero workers s p all v e f g r =
    absurd (omega (arith, v.staff, ap length e, f, g))
CanMove-cases [] zero (suc w) workers s p all v e f g r =
    CanMove-unheld s.worker_ch s.unsent w s refl refl g (omega (arith, v.group, ap length e)) r

-- With at least one worker, every schedule of a scrape of the processes takes at most four steps for each
-- request and one more, panics included, and where it ends before `collect` has returned some step can be
-- taken, so that a scrape returns however its steps follow each other.
pub run-start_returns :
    (workers : ℕ) (all : List Request) (acts : List Action) (t : State)
    → run acts (start (suc workers) all) ≡ some t
    → (length acts ≤ 4 * length all + 1) × ((t.returned ≡ true) ⊎ CanMove t)
unfolding start
run-start_returns workers all acts t h =
    let v =
      Serving-run (suc workers) (λ r. true) all acts (start (suc workers) all) t
        (Serving-start (suc workers) (λ r. true) all) h in
    let bound = steps_left-run acts (start (suc workers) all) t h in
    (
      omega (arith, bound),
      elim (Bool-cases t.returned) [
        | inl e ↦ inl e
        | inr e ↦ inr (
            CanMove-cases t.held t.restarting t.waiting workers t (λ r. true) all v refl refl refl
              e)
      ],
    )
