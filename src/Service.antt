-- ===== src/Service.antt =====
-- `Execute` of cmd/windows_exporter/0_service.go: the loop that talks to the service manager. The events are
-- what arrives on `exitCodeCh` and on the channel of requests, in the order in which the loop, or the
-- wait behind a stop, could receive them.
use windows_exporter.Base.{
  ℕ, ◌%◌, ◌^◌, ◌≡◌, refl, Bool, true, false, List, [], ◌∷◌, Option, none, some,
}
use mathlib.Core.Option

pub data Request : Type 0 where
  -- Interrogate, with the current status
  interrogate : ℕ → Request
  stop shutdown : Request
  other : ℕ → Request

pub data Event : Type 0 where
  exit_code : ℕ → Event
  request : Request → Event

-- What is sent on `changes`.
pub data Change : Type 0 where
  start_pending running stop_pending : Change
  current_status : ℕ → Change

-- What a call has done: the changes it sent, the signals on `stopCh`, and what it returned, if it did.
pub record Outcome : Type 0 where
  pub changes : List Change
  pub stop_signals : ℕ
  pub returned : Option (Bool × ℕ)

-- `uint32(<-exitCodeCh)`
abbrev pub as_uint32 : ℕ → ℕ
as_uint32 code = code % 2 ^ 32

-- The wait for the main function behind a stop; requests are not received any more.
unfoldable pub wait_exit : List Event → Option (Bool × ℕ)
wait_exit [] = none
wait_exit (exit_code code ∷ events) = some (false, as_uint32 code)
wait_exit (request r ∷ events) = wait_exit events

abbrev pub stopped : List Event → Outcome
stopped events = record {
  changes = stop_pending ∷ [];
  stop_signals = 1;
  returned = wait_exit events;
}

unfoldable pub handle_events : List Event → Outcome
handle_events [] = record { changes = []; stop_signals = 0; returned = none }
handle_events (exit_code code ∷ events) = record {
  changes = stop_pending ∷ [];
  stop_signals = 0;
  returned = some (true, as_uint32 code);
}
handle_events (request (interrogate status) ∷ events) =
    let later = handle_events events in
    record later { changes = current_status status ∷ later.changes }
handle_events (request stop ∷ events) = stopped events
handle_events (request shutdown ∷ events) = stopped events
handle_events (request (other cmd) ∷ events) = handle_events events

unfoldable pub execute : List Event → Outcome
execute events =
    let later = handle_events events in
    record later { changes = start_pending ∷ running ∷ later.changes }

-- The first exit code, cut to 32 bits.
abbrev pub first_exit : List Event → Option ℕ
first_exit [] = none
first_exit (exit_code code ∷ events) = some (as_uint32 code)
first_exit (request r ∷ events) = first_exit events

abbrev code_of : Bool × ℕ → ℕ
code_of answer = answer.1

wait_exit-first_exit :
    (events : List Event) → Option.map code_of (wait_exit events) ≡ first_exit events
unfolding wait_exit
wait_exit-first_exit [] = refl
wait_exit-first_exit (exit_code code ∷ events) = refl
wait_exit-first_exit (request r ∷ events) = wait_exit-first_exit events

handle_events-first_exit :
    (events : List Event) → Option.map code_of (handle_events events).returned ≡ first_exit events
unfolding handle_events
handle_events-first_exit [] = refl
handle_events-first_exit (exit_code code ∷ events) = refl
handle_events-first_exit (request (interrogate status) ∷ events) = handle_events-first_exit events
handle_events-first_exit (request stop ∷ events) = wait_exit-first_exit events
handle_events-first_exit (request shutdown ∷ events) = wait_exit-first_exit events
handle_events-first_exit (request (other cmd) ∷ events) = handle_events-first_exit events

-- Whatever requests arrive, the service returns exactly when the main function has given an exit code,
-- and returns the first one, cut to 32 bits.
execute-first_exit :
    (events : List Event)
    → Option.map (λ (answer : Bool × ℕ). answer.1) (execute events).returned ≡ first_exit events
unfolding execute
execute-first_exit events = handle_events-first_exit events

-- Only interrogations before the end of the service, which is reported once.
pub IsReport : List Change → Type 0
IsReport [] = Unit
IsReport (stop_pending ∷ later) = later ≡ []
IsReport (current_status status ∷ later) = IsReport later
IsReport (start_pending ∷ later) = ⊥
IsReport (running ∷ later) = ⊥

handle_events-IsReport : (events : List Event) → IsReport (handle_events events).changes
unfolding handle_events IsReport
handle_events-IsReport [] = tt
handle_events-IsReport (exit_code code ∷ events) = refl
handle_events-IsReport (request (interrogate status) ∷ events) = handle_events-IsReport events
handle_events-IsReport (request stop ∷ events) = refl
handle_events-IsReport (request shutdown ∷ events) = refl
handle_events-IsReport (request (other cmd) ∷ events) = handle_events-IsReport events

-- The service reports that it starts and then that it runs. After that it reports its current
-- status or, as the last report, that it stops.
execute-IsReport :
    (events : List Event)
    → (later : List Change) × ((execute events).changes ≡ start_pending ∷ running ∷ later)
      × IsReport later
unfolding execute
execute-IsReport events = ((handle_events events).changes, refl, handle_events-IsReport events)
