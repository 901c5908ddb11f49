-- ===== src/Processes.antt =====
-- `collect` and `collectWorker` of internal/collector/process/process_worker.go: which processes are asked for, and the
-- workers that serve the requests as a transition system. What a process is, and whether a filter matches, is given;
-- what a worker sends for a request is left out, and it ends or panics.
pub mod Workers
pub mod Returns
use windows_exporter.Base.{
  ℕ, zero, suc, ◌+◌, ◌-◌, ◌≡◌, Bool, true, false, not, ◌&&◌, ◌||◌, List, [], ◌∷◌, ◌++◌, Option,
  none, some, arith, ◌==◌, nat_eq, nat_beq, Str, str_eq, codes, length, get_elem?, ltb,
  if◌then◌else◌,
}

-- The part of a text before a byte, the whole text if it lacks the byte (strings.Cut).
unfoldable pub cut_before : ℕ → Str → Str
cut_before sep [] = []
cut_before sep (c ∷ s) = let rest = cut_before sep s in if nat_beq c sep then [] else c ∷ rest

-- What the loop of `collect` reads of a process.
pub record Process : Type 0 where
  pub name : Str
  pub process_id : ℕ

pub record Request : Type 0 where
  pub name : Str
  pub values : Process

-- The filters of the configuration.
pub record Filters : Type 0 where
  pub excluded : Str → Bool
  pub included : Str → Bool

unfoldable pub shown_name : Str → Str
shown_name name = cut_before b'#' (cut_before b':' name)

unfoldable pub requests : Filters → List Process → List Request
requests filters [] = []
requests filters (process ∷ rest) =
    let name = shown_name process.name in
    let later = requests filters rest in
    if filters.excluded name || not (filters.included name)
    then later
    else if process.process_id == 0 && not (name == codes "Idle")
    then later
    else record { name = name; values = process } ∷ later

-- The capacity of `workerCh`.
abbrev pub channel_size : ℕ
channel_size = 32

-- A scrape in progress: the requests that `collect` has still to send, the channel, the requests that workers hold,
-- how many workers wait at the channel and how many are to be started again, the counter of the wait group, the
-- requests with which a worker is done, and whether `collect` has returned.
pub record State : Type 0 where
  pub unsent : List Request
  pub worker_ch : List Request
  pub held : List Request
  pub waiting : ℕ
  pub restarting : ℕ
  pub wait_group : ℕ
  pub done : List Request
  pub returned : Bool

pub data Action : Type 0 where
  send take restart return : Action
  -- by the worker that holds the request at a place
  finish panic : ℕ → Action

unfoldable pub start : ℕ → List Request → State
start workers unsent = record {
  unsent = unsent;
  worker_ch = [];
  held = [];
  waiting = workers;
  restarting = 0;
  wait_group = 0;
  done = [];
  returned = false;
}

abbrev pub remove : ℕ → List Request → List Request
remove n [] = []
remove zero (r ∷ rs) = rs
remove (suc n) (r ∷ rs) = r ∷ remove n rs

-- `wg.Add(1)` and the send.
unfoldable pub send_step : List Request → State → Option State
send_step [] s = none
send_step (r ∷ rest) s =
    if ltb (length s.worker_ch) channel_size
    then some (record s {
      unsent = rest;
      worker_ch = s.worker_ch ++ r ∷ [];
      wait_group = s.wait_group + 1;
    })
    else none

unfoldable pub take_step : List Request → ℕ → State → Option State
take_step [] waiting s = none
take_step (r ∷ rest) zero s = none
take_step (r ∷ rest) (suc waiting) s =
    some (record s { worker_ch = rest; held = r ∷ s.held; waiting = waiting })

-- The deferred `Done`, and the worker at the channel again.
unfoldable pub finish_step : ℕ → Option Request → State → Option State
finish_step n none s = none
finish_step n (some r) s = some (record s {
  held = remove n s.held;
  waiting = s.waiting + 1;
  wait_group = s.wait_group - 1;
  done = r ∷ s.done;
})

-- The deferred `Done`, and the worker gone until its `recover` starts another.
unfoldable pub panic_step : ℕ → Option Request → State → Option State
panic_step n none s = none
panic_step n (some r) s = some (record s {
  held = remove n s.held;
  restarting = s.restarting + 1;
  wait_group = s.wait_group - 1;
  done = r ∷ s.done;
})

unfoldable pub restart_step : ℕ → State → Option State
restart_step zero s = none
restart_step (suc n) s = some (record s { restarting = n; waiting = s.waiting + 1 })

-- `wg.Wait()` behind the loop.
unfoldable pub return_step : List Request → State → Option State
return_step (r ∷ rest) s = none
return_step [] s =
    if s.wait_group == 0 && not s.returned then some (record s { returned = true }) else none

unfoldable pub step : Action → State → Option State
step send s = send_step s.unsent s
step take s = take_step s.worker_ch s.waiting s
step restart s = restart_step s.restarting s
step return s = return_step s.unsent s
step (finish n) s = finish_step n (get_elem? s.held n) s
step (panic n) s = panic_step n (get_elem? s.held n) s

unfoldable pub run : List Action → State → Option State
run [] s = some s
run (a ∷ rest) s = elim (step a s) [ none ↦ none | some t ↦ run rest t ]
