-- ===== src/Tests/Services.antt =====
-- Runs for cmd/windows_exporter/0_service.go.
use windows_exporter.Base.{ℕ, ◌≡◌, refl, Bool, List, [], ◌∷◌, some}
use mathlib.Core.Option
use windows_exporter.Service.{
  Event, exit_code, request, interrogate, stop, other, execute, handle_events, wait_exit,
}

abbrev events : List Event
events =
    request (interrogate 4) ∷ request (other 200) ∷ request stop ∷ request stop ∷ exit_code 3 ∷ []

-- The second request to stop is not received.
returned : Option.map (λ (answer : Bool × ℕ). answer.1) (execute events).returned ≡ some 3
unfolding execute handle_events wait_exit
returned = refl
