-- ===== src/Tests/Workers.antt =====
-- Runs for internal/collector/process/process_worker.go.
use windows_exporter.Base.{
  ◌≡◌, ◌≤◌, ◌+◌, ◌*◌, ◌⊎◌, refl, true, [], ◌∷◌, List, some, ◌==◌, nat_eq, str_eq, codes, length,
}
use windows_exporter.Processes.{
  Process, Filters, Request, State, Action, send, take, restart, return, finish, panic, cut_before,
  shown_name, requests, start, run, step, send_step, take_step, finish_step, panic_step,
  restart_step, return_step,
}
use windows_exporter.Processes.Workers.{count, count_passing, count-done}
use windows_exporter.Processes.Returns.{CanMove, run-start_returns}

abbrev filters : Filters
filters = record { excluded = λ s. s == codes "svchost"; included = λ s. true }

abbrev processes : List Process
processes =
    record { name = codes "Idle"; process_id = 0 }
    ∷ record { name = codes "shell#1"; process_id = 7 }
    ∷ record { name = codes "svchost:9"; process_id = 9 }
    ∷ record { name = codes "none"; process_id = 0 }
    ∷ []

-- The first request panics.
abbrev acts : List Action
acts = send ∷ take ∷ panic 0 ∷ send ∷ restart ∷ take ∷ finish 0 ∷ return ∷ []

abbrev all : List Request
all =
    record { name = codes "Idle"; values = record { name = codes "Idle"; process_id = 0 } }
    ∷ record { name = codes "shell"; values = record { name = codes "shell#1"; process_id = 7 } }
    ∷ []

asked : requests filters processes ≡ all
unfolding requests shown_name cut_before
asked = refl

abbrev end : State
end = record {
  unsent = [];
  worker_ch = [];
  held = [];
  waiting = 1;
  restarting = 0;
  wait_group = 0;
  done =
      record { name = codes "shell"; values = record { name = codes "shell#1"; process_id = 7 } }
      ∷ record { name = codes "Idle"; values = record { name = codes "Idle"; process_id = 0 } }
      ∷ [];
  returned = true;
}

all_served : run acts (start 1 (requests filters processes)) ≡ some end
unfolding requests shown_name cut_before run step start send_step take_step finish_step panic_step
    restart_step return_step
all_served = refl

count-done_example :
    count (λ (r : Request). r.name == codes "shell") end.done
    ≡ count_passing filters (λ (r : Request). r.name == codes "shell") processes
count-done_example =
    count-done 1 filters processes acts end (λ (r : Request). r.name == codes "shell") all_served
      refl

run-start_returns_example :
    (length acts ≤ 4 * length (requests filters processes) + 1)
    × ((end.returned ≡ true) ⊎ CanMove end)
run-start_returns_example = run-start_returns 0 (requests filters processes) acts end all_served
