-- ===== src/Tests/Scrapes.antt =====
-- Runs for pkg/collector/collect.go.
use windows_exporter.Base.{
  All, ℕ, ◌≡◌, ◌⊎◌, refl, true, false, List, [], ◌∷◌, ◌++◌, none, some, str_eq, codes,
}
use windows_exporter.Errors.{Error, no_data, new_error, cause_beq}
use windows_exporter.Scrape.{
  pending, success, failed, StatusCode, returned, Scrape, running, closed, waiting, exited, sending,
  timed_out, done, metric, duration, produce, finish, close_buf, expire, take, check, send,
  receive_error, join, see_deadline, report_timeout, Action, start, step, run, metrics_of,
  status_of, is_benign,
}
use windows_exporter.Scrape.Delivery.{metrics_of-run}
use windows_exporter.Scrape.Outcome.{caller-run, metrics_of-run_in_time}
use windows_exporter.Scrape.Progress.{IsOthers, run-returns, returned_code}

-- A collector that sends one metric and then fails, within its time.
abbrev failing : List Action
failing = produce ∷ take ∷ check ∷ send ∷ finish ∷ close_buf ∷ take ∷ receive_error ∷ join ∷ []

abbrev err : Error
err = new_error (codes "refused")

abbrev has_failed : Scrape ℕ
has_failed = record {
  unsent = [];
  ending = returned (some err);
  worker = closed;
  buf_ch = [];
  buf_closed = true;
  err_ch = none;
  expired = false;
  timeout = false;
  forwarder = exited;
  num_metrics = 1;
  caller = done failed;
  out = metric 7 ∷ duration ∷ [];
  out_closed = false;
}

run-failing : run failing (start (7 ∷ []) (returned (some err))) ≡ some has_failed
unfolding run step start status_of is_benign cause_beq
run-failing = refl

metrics_of-run_in_time_example :
    (metrics_of has_failed.out ≡ 7 ∷ []) × (failed ≡ status_of (some err))
metrics_of-run_in_time_example =
    metrics_of-run_in_time (7 ∷ []) (returned (some err)) failing has_failed failed run-failing refl
      refl

-- A collector that hangs behind its first metric: the caller gives up.
abbrev late : List Action
late = produce ∷ take ∷ check ∷ send ∷ produce ∷ take ∷ check ∷ expire ∷ see_deadline ∷ []

abbrev has_timed_out : Scrape ℕ
has_timed_out = record {
  unsent = 9 ∷ [];
  ending = returned none;
  worker = running;
  buf_ch = [];
  buf_closed = false;
  err_ch = none;
  expired = true;
  timeout = true;
  forwarder = sending 8;
  num_metrics = 1;
  caller = timed_out;
  out = metric 7 ∷ [];
  out_closed = false;
}

run-late : run late (start (7 ∷ 8 ∷ 9 ∷ []) (returned none)) ≡ some has_timed_out
unfolding run step start
run-late = refl

metrics_of-run_example : (rest : List ℕ) × (metrics_of has_timed_out.out ++ rest ≡ 7 ∷ 8 ∷ 9 ∷ [])
metrics_of-run_example = metrics_of-run (7 ∷ 8 ∷ 9 ∷ []) (returned none) late has_timed_out run-late

abbrev has_returned : Scrape ℕ
has_returned = record has_timed_out {
  forwarder = waiting;
  num_metrics = 2;
  caller = done pending;
  out = metric 7 ∷ metric 8 ∷ duration ∷ [];
}

late_return :
    run (late ++ send ∷ report_timeout ∷ []) (start (7 ∷ 8 ∷ 9 ∷ []) (returned none))
    ≡ some has_returned
unfolding run step start
late_return = refl

caller-run_example :
    ((pending ≡ pending) × (has_returned.expired ≡ true)) ⊎ (pending ≡ status_of none)
caller-run_example =
    caller-run (7 ∷ 8 ∷ 9 ∷ []) (returned none) (late ++ send ∷ report_timeout ∷ []) has_returned
      pending late_return refl

run-returns_example :
    (acts : List Action) × All IsOthers acts
    × (code : StatusCode) × (returned_code (run acts has_timed_out) ≡ some code)
run-returns_example = run-returns has_timed_out

-- An error that stands for no data counts as success.
benign : status_of (some (no_data ∷ [])) ≡ success
unfolding status_of is_benign cause_beq
benign = refl
