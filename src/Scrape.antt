-- ===== src/Scrape.antt =====
-- `collectCollector` of pkg/collector/collect.go: one collector's scrape, with its goroutines as a
-- transition system. The goroutine that runs the collector fills `bufCh` and `errCh`, the forwarder
-- moves metrics from `bufCh` to the registry's channel, the caller selects between `errCh` and the
-- deadline. `step a s` is what action `a` does, and `none` where it has to wait; a schedule is a list
-- of actions. `M` is the type of metrics.
pub mod All
pub mod Delivery
pub mod Outcome
pub mod Progress
use windows_exporter.Base.{
  ℕ, suc, ◌+◌, ◌<◌, ◌≡◌, Bool, true, false, not, ◌||◌, List, [], ◌∷◌, ◌++◌, Option, none, some,
  arith, length, ltb, if◌then◌else◌, subst, Option-cases, inl, inr,
}
use windows_exporter.Errors.{Cause, pdh_error, no_data, ept_s_not_registered, Error, is, new_error}
use windows_exporter.Collection.{no_data_code}

-- collectorStatusCode
pub data StatusCode : Type 0 where
  pending success failed : StatusCode

-- How `collector.Collect` ends.
pub data Ending : Type 0 where
  returned : Option Error → Ending
  panicked : Error → Ending

-- The goroutine of the collector: sends metrics, has sent its error, has closed `bufCh`.
pub data Worker : Type 0 where
  running reported closed : Worker

-- The forwarder: at its `select`, between the receive and the test of `timeout`, at `ch <- m`, gone.
pub data Forwarder (M : Type 0) : Type 0 where
  waiting exited : Forwarder M
  received sending : M → Forwarder M

-- The caller: at its `select`, at `wg.Wait()`, past `timeout.Store(true)`, returned.
pub data Caller : Type 0 where
  selecting timed_out : Caller
  joining : Option Error → Caller
  done : StatusCode → Caller

-- What arrives at the registry's channel.
pub data Sent (M : Type 0) : Type 0 where
  metric : M → Sent M
  duration : Sent M

pub record Scrape (M : Type 0) : Type 0 where
  -- what the collector has still to send, and how it then ends
  pub unsent : List M
  pub ending : Ending
  pub worker : Worker
  pub buf_ch : List M
  pub buf_closed : Bool
  pub err_ch : Option (Option Error)
  -- the deadline of `ctx` has passed
  pub expired : Bool
  pub timeout : Bool
  pub forwarder : Forwarder M
  pub num_metrics : ℕ
  pub caller : Caller
  -- the registry's channel: what it got, and whether the registry has closed it
  pub out : List (Sent M)
  pub out_closed : Bool

pub data Action : Type 0 where
  -- the collector
  produce finish close_buf : Action
  -- the clock
  expire : Action
  -- the forwarder
  take quit check send : Action
  -- the caller
  receive_error join see_deadline report_timeout : Action
  -- the goroutine that drains `bufCh`, and the registry after the return
  drain close_out : Action

abbrev pub buffer_size : ℕ
buffer_size = 1000

-- What `errCh` gets: a panic is recovered and becomes an error.
abbrev pub result : Ending → Option Error
result (returned err) = err
result (panicked err) = some err

unfoldable pub is_benign : Error → Bool
is_benign err = is err (pdh_error no_data_code) || (is err no_data || is err ept_s_not_registered)

-- The code behind the `select`.
unfoldable pub status_of : Option Error → StatusCode
status_of none = success
status_of (some err) = if not (is_benign err) then failed else success

abbrev pub is_done : Caller → Bool
is_done (done code) = true
is_done _ = false

module _ {M : Type 0} where
  -- `ctx.Done()`: the deadline, or the deferred `cancel()` of the return.
  abbrev pub ctx_done : Scrape M → Bool
  ctx_done s = s.expired || is_done s.caller

  unfoldable pub start : List M → Ending → Scrape M
  start metrics ending = record {
    unsent = metrics;
    ending = ending;
    worker = running;
    buf_ch = [];
    buf_closed = false;
    err_ch = none;
    expired = false;
    timeout = false;
    forwarder = waiting;
    num_metrics = 0;
    caller = selecting;
    out = [];
    out_closed = false;
  }

  produce_step : Worker → List M → Scrape M → Option (Scrape M)
  produce_step running (m ∷ rest) s =
      if ltb (length s.buf_ch) buffer_size
      then some (record s { unsent = rest; buf_ch = s.buf_ch ++ m ∷ [] })
      else none
  produce_step _ _ s = none

  finish_step : Worker → List M → Option (Option Error) → Scrape M → Option (Scrape M)
  finish_step running [] none s =
      some (record s { worker = reported; err_ch = some (result s.ending) })
  finish_step _ _ _ s = none

  close_step : Worker → Scrape M → Option (Scrape M)
  close_step reported s = some (record s { worker = closed; buf_closed = true })
  close_step _ s = none

  -- The receive from `bufCh` in the forwarder's `select`.
  take_step : Forwarder M → List M → Scrape M → Option (Scrape M)
  take_step waiting (m ∷ rest) s = some (record s { forwarder = received m; buf_ch = rest })
  take_step waiting [] s = if s.buf_closed then some (record s { forwarder = exited }) else none
  take_step _ _ s = none

  -- `case <-ctx.Done()` in the forwarder's `select`.
  quit_step : Forwarder M → Scrape M → Option (Scrape M)
  quit_step waiting s = if ctx_done s then some (record s { forwarder = exited }) else none
  quit_step _ s = none

  check_step : Forwarder M → Scrape M → Option (Scrape M)
  check_step (received m) s =
      some
        (if s.timeout then record s { forwarder = waiting } else record s { forwarder = sending m })
  check_step _ s = none

  -- A send on the closed channel panics, which ends the forwarder.
  send_step : Forwarder M → Scrape M → Option (Scrape M)
  send_step (sending m) s = some (
      if s.out_closed then record s { forwarder = exited } else record s {
        forwarder = waiting;
        out = s.out ++ metric m ∷ [];
        num_metrics = s.num_metrics + 1;
      })
  send_step _ s = none

  receive_step : Caller → Option (Option Error) → Scrape M → Option (Scrape M)
  receive_step selecting (some err) s = some (record s { caller = joining err; err_ch = none })
  receive_step _ _ s = none

  join_step : Caller → Forwarder M → Scrape M → Option (Scrape M)
  join_step (joining err) exited s =
      some (record s { caller = done (status_of err); out = s.out ++ duration ∷ [] })
  join_step _ _ s = none

  deadline_step : Caller → Scrape M → Option (Scrape M)
  deadline_step selecting s =
      if s.expired then some (record s { caller = timed_out; timeout = true }) else none
  deadline_step _ s = none

  report_step : Caller → Scrape M → Option (Scrape M)
  report_step timed_out s = some (record s { caller = done pending; out = s.out ++ duration ∷ [] })
  report_step _ s = none

  drain_step : Caller → List M → Scrape M → Option (Scrape M)
  drain_step (done pending) (m ∷ rest) s = some (record s { buf_ch = rest })
  drain_step _ _ s = none

  unfoldable pub step : Action → Scrape M → Option (Scrape M)
  unfolding produce_step finish_step close_step take_step quit_step check_step send_step
      receive_step join_step deadline_step report_step drain_step
  step produce s = produce_step s.worker s.unsent s
  step finish s = finish_step s.worker s.unsent s.err_ch s
  step close_buf s = close_step s.worker s
  step expire s = some (record s { expired = true })
  step take s = take_step s.forwarder s.buf_ch s
  step quit s = quit_step s.forwarder s
  step check s = check_step s.forwarder s
  step send s = send_step s.forwarder s
  step receive_error s = receive_step s.caller s.err_ch s
  step join s = join_step s.caller s.forwarder s
  step see_deadline s = deadline_step s.caller s
  step report_timeout s = report_step s.caller s
  step drain s = drain_step s.caller s.buf_ch s
  step close_out s = if is_done s.caller then some (record s { out_closed = true }) else none

  -- A schedule, action by action; `none` if one of them cannot be taken.
  unfoldable pub run : List Action → Scrape M → Option (Scrape M)
  run [] s = some s
  run (a ∷ rest) s = elim (step a s) [ none ↦ none | some t ↦ run rest t ]

  -- The metrics that arrived at the registry.
  abbrev pub metrics_of : List (Sent M) → List M
  metrics_of [] = []
  metrics_of (metric m ∷ rest) = m ∷ metrics_of rest
  metrics_of (duration ∷ rest) = metrics_of rest

  -- A property that every action keeps holds after every schedule.
  pub run_induction :
      (P : Scrape M → Type 0)
      → ((a : Action) (s t : Scrape M) → P s → step a s ≡ some t → P t)
      → (acts : List Action) (s t : Scrape M) → P s
      → run acts s ≡ some t
      → P t
  unfolding run
  run_induction P keep [] s t p h = let e : s ≡ t = cc in subst P e p
  run_induction P keep (a ∷ rest) s t p h = elim (Option-cases (step a s)) [
    | inl e ↦ absurd (cc (rw (e, run) at h))
    | inr (u, e) ↦ run_induction P keep rest u t (keep a s u p e) (rw (e, run) at h)
  ]
