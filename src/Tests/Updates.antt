-- ===== src/Tests/Updates.antt =====
-- Runs for the collector of updates.
use windows_exporter.Base.{ℕ, ◌≡◌, refl, true, List, [], ◌∷◌, Option, none, some, codes, All}
use windows_exporter.Errors.{Error, Result, ok, err, new_error}
use windows_exporter.Update.{
  WindowsUpdate, Metric, query_duration, last_scrape, pending, published, item_metrics,
  fetch_updates, State, fetching, ended, build, after_calls, co_failure, close, Action, fetched,
  timer, done, closes, fetched_step, timer_step, done_step, step, run, collect, err_no_updates,
}
use windows_exporter.Update.Loop.{
  last_fetched, or_no_updates, collect-run-build, IsBusy, run-IsBusy,
}
use windows_exporter.Update.Fetch.{
  pending_updates, publications, read_updates, dated, pending-fetch_updates,
}

abbrev unreadable : Error
unreadable = new_error (codes "get Title")

abbrev update : Option ℕ → WindowsUpdate
update time = record {
  identity = codes "id";
  revision = codes "1";
  category = codes "Drivers";
  severity = [];
  title = codes "title";
  last_published = time;
}

abbrev items : List (Result WindowsUpdate)
items = ok (update (some 7)) ∷ err unreadable ∷ ok (update none) ∷ []

abbrev metrics : List Metric
metrics =
    query_duration
    ∷ pending (update (some 7))
    ∷ published (codes "id") (codes "1") 7
    ∷ pending (update none)
    ∷ last_scrape
    ∷ []

fetched_items : fetch_updates none items ≡ ok metrics
unfolding fetch_updates item_metrics
fetched_items = refl

pending-fetch_updates_example :
    (pending_updates metrics ≡ read_updates items)
    × (publications metrics ≡ dated (read_updates items))
pending-fetch_updates_example = pending-fetch_updates items metrics fetched_items

-- A search, the timer, a failed search, a call of `Close`, and a search.
abbrev actions : List Action
actions =
    fetched (ok metrics) ∷ timer ∷ fetched (err unreadable) ∷ closes ∷ fetched (ok []) ∷ done ∷ []

abbrev last : State
last = record { phase = ended; metrics_buf = some []; cancelled = true }

ran : run actions (build none (none ∷ [])).0 ≡ some last
unfolding run build after_calls co_failure step fetched_step timer_step done_step close
ran = refl

collect-run-build_example : collect last ≡ or_no_updates (last_fetched (err err_no_updates) actions)
collect-run-build_example = collect-run-build none (none ∷ []) actions last ran

abbrev failing : List Action
failing =
    fetched (err unreadable) ∷ closes ∷ fetched (err unreadable) ∷ fetched (err unreadable) ∷ []

abbrev busy : State
busy = record { phase = fetching; metrics_buf = none; cancelled = true }

ran_busy : run failing (build none (none ∷ [])).0 ≡ some busy
unfolding run build after_calls co_failure step fetched_step timer_step done_step close
ran_busy = refl

built : (build none (none ∷ [])).1 ≡ none
unfolding build after_calls co_failure
built = refl

run-IsBusy_example : (busy.phase ≡ fetching) × All IsBusy failing
run-IsBusy_example =
    run-IsBusy none (none ∷ []) failing busy built ran_busy (tt, (tt, (tt, (tt, tt))))
