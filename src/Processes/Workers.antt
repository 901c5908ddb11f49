-- ===== src/Processes/Workers.antt =====
-- A scrape of the processes returns, and only when every request has been served.
use windows_exporter.Base.{
  codes, str_eq, ℕ, zero, suc, ◌+◌, ◌≤◌, ◌≡◌, refl, ap, subst, Bool, true, not, ◌&&◌, ◌||◌, List,
  [], ◌∷◌, ◌++◌, Option, none, some, arith, ◌==◌, nat_eq, length, length-append, get_elem?,
  if◌then◌else◌, Option-cases, inl, inr,
}
use windows_exporter.Processes.{
  Process, Filters, shown_name, requests, Request, State, Action, send, take, restart, return,
  finish, panic, start, remove, send_step, take_step, finish_step, panic_step, restart_step,
  return_step, step, run,
}

-- How many requests a test accepts.
abbrev pub count : (Request → Bool) → List Request → ℕ
count p [] = 0
count p (r ∷ rs) = (if p r then 1 else 0) + count p rs

pub count-append :
    (p : Request → Bool) (xs ys : List Request) → count p (xs ++ ys) ≡ count p xs + count p ys
count-append p [] ys = omega arith
count-append p (x ∷ xs) ys = omega (arith, count-append p xs ys)

count-remove :
    (p : Request → Bool) (n : ℕ) (r : Request) (rs : List Request)
    → get_elem? rs n ≡ some r
    → count p rs ≡ (if p r then 1 else 0) + count p (remove n rs)
count-remove p n r [] h = absurd (cc)
count-remove p zero r (x ∷ rs) h = ground arith
count-remove p (suc n) r (x ∷ rs) h = omega (arith, count-remove p n r rs h)

pub length-remove :
    (n : ℕ) (r : Request) (rs : List Request)
    → get_elem? rs n ≡ some r
    → length rs ≡ suc (length (remove n rs))
length-remove n r [] h = absurd (cc)
length-remove zero r (x ∷ rs) h = refl
length-remove (suc n) r (x ∷ rs) h = ap suc (length-remove n r rs h)

-- What holds between two steps, for a scrape with a number of workers and the requests `all`.
pub record Serving (workers : ℕ) (p : Request → Bool) (all : List Request) (s : State)
    : Type 0 where
  pub every : count p s.unsent + count p s.worker_ch + count p s.held + count p s.done ≡ count p all
  pub group : s.wait_group ≡ length s.worker_ch + length s.held
  pub staff : s.waiting + length s.held + s.restarting ≡ workers
  pub ended : s.returned ≡ true → (s.unsent ≡ []) × (s.wait_group ≡ 0)

pub Serving-start :
    (workers : ℕ) (p : Request → Bool) (all : List Request)
    → Serving workers p all (start workers all)
unfolding start
Serving-start workers p all = record {
  every = omega arith;
  group = refl;
  staff = omega arith;
  ended = λ h. cc;
}

Serving-send :
    (workers : ℕ) (p : Request → Bool) (all l : List Request) (s t : State)
    → Serving workers p all s
    → s.unsent ≡ l
    → send_step l s ≡ some t
    → Serving workers p all t
unfolding send_step
Serving-send workers p all [] s t v e h = cc
Serving-send workers p all (r ∷ rest) s t v e h =
    ground (arith, count-append p s.worker_ch (r ∷ []), length-append s.worker_ch (r ∷ []), v.ended)

Serving-take :
    (workers : ℕ) (p : Request → Bool) (all l : List Request) (n : ℕ) (s t : State)
    → Serving workers p all s
    → s.worker_ch ≡ l
    → s.waiting ≡ n
    → take_step l n s ≡ some t
    → Serving workers p all t
unfolding take_step
Serving-take workers p all [] n s t v e g h = cc
Serving-take workers p all (r ∷ rest) zero s t v e g h = cc
Serving-take workers p all (r ∷ rest) (suc n) s t v e g h = ground (arith, v.ended)

Serving-finish :
    (workers : ℕ) (p : Request → Bool) (all : List Request) (n : ℕ) (o : Option Request)
    (s t : State)
    → Serving workers p all s
    → get_elem? s.held n ≡ o
    → finish_step n o s ≡ some t
    → Serving workers p all t
unfolding finish_step
Serving-finish workers p all n none s t v e h = cc
Serving-finish workers p all n (some r) s t v e h =
    ground (arith, count-remove p n r s.held e, length-remove n r s.held e, v.ended)

Serving-panic :
    (workers : ℕ) (p : Request → Bool) (all : List Request) (n : ℕ) (o : Option Request)
    (s t : State)
    → Serving workers p all s
    → get_elem? s.held n ≡ o
    → panic_step n o s ≡ some t
    → Serving workers p all t
unfolding panic_step
Serving-panic workers p all n none s t v e h = cc
Serving-panic workers p all n (some r) s t v e h =
    ground (arith, count-remove p n r s.held e, length-remove n r s.held e, v.ended)

Serving-restart :
    (workers : ℕ) (p : Request → Bool) (all : List Request) (n : ℕ) (s t : State)
    → Serving workers p all s
    → s.restarting ≡ n
    → restart_step n s ≡ some t
    → Serving workers p all t
unfolding restart_step
Serving-restart workers p all zero s t v e h = cc
Serving-restart workers p all (suc n) s t v e h = ground (arith, v.ended)

Serving-return :
    (workers : ℕ) (p : Request → Bool) (all l : List Request) (s t : State)
    → Serving workers p all s
    → s.unsent ≡ l
    → return_step l s ≡ some t
    → Serving workers p all t
unfolding return_step
Serving-return workers p all (r ∷ rest) s t v e h = cc
Serving-return workers p all [] s t v e h = ground arith

Serving-step :
    (workers : ℕ) (p : Request → Bool) (all : List Request) (a : Action) (s t : State)
    → Serving workers p all s
    → step a s ≡ some t
    → Serving workers p all t
unfolding step
Serving-step workers p all send s t v h = Serving-send workers p all s.unsent s t v refl h
Serving-step workers p all take s t v h =
    Serving-take workers p all s.worker_ch s.waiting s t v refl refl h
Serving-step workers p all restart s t v h = Serving-restart workers p all s.restarting s t v refl h
Serving-step workers p all return s t v h = Serving-return workers p all s.unsent s t v refl h
Serving-step workers p all (finish n) s t v h =
    Serving-finish workers p all n (get_elem? s.held n) s t v refl h
Serving-step workers p all (panic n) s t v h =
    Serving-panic workers p all n (get_elem? s.held n) s t v refl h

pub Serving-run :
    (workers : ℕ) (p : Request → Bool) (all : List Request) (acts : List Action) (s t : State)
    → Serving workers p all s
    → run acts s ≡ some t
    → Serving workers p all t
unfolding run
Serving-run workers p all [] s t v h = subst (Serving workers p all) (cc) v
Serving-run workers p all (a ∷ acts) s t v h = elim (Option-cases (step a s)) [
  | inl e ↦ absurd (cc (rw (e, run) at h))
  | inr (u, e) ↦
      Serving-run workers p all acts u t (Serving-step workers p all a s u v e) (rw (e, run) at h)
]

count-le-length : (p : Request → Bool) (l : List Request) → count p l ≤ length l
count-le-length p [] = omega arith
count-le-length p (r ∷ rs) = ground (arith, count-le-length p rs)

-- The requests that a test accepts, of the processes that pass the filters and have a number or are the idle one.
abbrev pub passes : Filters → Process → Bool
passes filters process =
    let name = shown_name process.name in
    (not (filters.excluded name) && filters.included name)
    && (not (process.process_id == 0) || name == codes "Idle")

abbrev pub request_of : Process → Request
request_of process = record { name = shown_name process.name; values = process }

abbrev pub count_passing : Filters → (Request → Bool) → List Process → ℕ
count_passing filters p [] = 0
count_passing filters p (process ∷ rest) =
    (if passes filters process && p (request_of process) then 1 else 0)
    + count_passing filters p rest

count-requests :
    (filters : Filters) (p : Request → Bool) (processes : List Process)
    → count p (requests filters processes) ≡ count_passing filters p processes
unfolding requests
count-requests filters p [] = refl
count-requests filters p (process ∷ rest) = ground (arith, count-requests filters p rest)

-- When `collect` has returned, the workers are done with one request for each process that passes the filters
-- and has a number other than zero or the name Idle, and with no other, in whatever order they took the
-- requests and whichever of them panicked. No other scrape uses the workers meanwhile.
pub count-done :
    (workers : ℕ) (filters : Filters) (processes : List Process) (acts : List Action) (t : State)
    (p : Request → Bool)
    → run acts (start workers (requests filters processes)) ≡ some t
    → t.returned ≡ true
    → count p t.done ≡ count_passing filters p processes
count-done workers filters processes acts t p h r =
    let all = requests filters processes in
    let v = Serving-run workers p all acts (start workers all) t (Serving-start workers p all) h in
    let (none_unsent, no_group) = v.ended r in
    let nothing : count p t.unsent ≡ 0 = ap (count p) none_unsent in
    omega (
      arith,
      v.every,
      v.group,
      no_group,
      nothing,
      count-le-length p t.worker_ch,
      count-le-length p t.held,
      count-requests filters p processes,
    )
