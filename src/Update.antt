-- ===== src/Update.antt =====
-- internal/collector/update/update.go: the goroutine that searches for updates and `Collect`, which
-- reads what it has found. What the Windows Update API answers is given. A metric stands for the
-- constant metric that is made from it, with the times left out.
pub mod Loop
pub mod Fetch
use windows_exporter.Base.{
  ℕ, ◌≡◌, Bool, true, false, not, ◌&&◌, ◌||◌, List, [], ◌∷◌, ◌++◌, Option, none, some, arith, ◌==◌,
  nat_eq, nat_beq, Str, codes, if◌then◌else◌,
}
use windows_exporter.Errors.{Error, Result, ok, err, new_error}

pub record WindowsUpdate : Type 0 where
  pub identity : Str
  pub revision : Str
  pub category : Str
  pub severity : Str
  pub title : Str
  -- none for the zero time
  pub last_published : Option ℕ

pub data Metric : Type 0 where
  query_duration last_scrape : Metric
  pending : WindowsUpdate → Metric
  published : Str → Str → ℕ → Metric

abbrev pub published_metric : WindowsUpdate → Option ℕ → List Metric
published_metric u none = []
published_metric u (some time) = published u.identity u.revision time ∷ []

-- The loop over the items of a search, each of which may fail to be read.
unfoldable pub item_metrics : List (Result WindowsUpdate) → List Metric
item_metrics [] = []
item_metrics (err e ∷ items) = item_metrics items
item_metrics (ok u ∷ items) =
    (pending u ∷ published_metric u u.last_published) ++ item_metrics items

-- The answers of `Search`, of the property `Updates` and of its `Count`, and of the items up to
-- that count.
unfoldable pub fetch_updates : Option Error → List (Result WindowsUpdate) → Result (List Metric)
fetch_updates (some e) items = err e
fetch_updates none items = ok (query_duration ∷ item_metrics items ++ last_scrape ∷ [])

-- An error of CoInitializeEx, which may hold a code of OLE.
pub data CoError : Type 0 where
  ole_error : ℕ → Error → CoError
  other_error : Error → CoError

-- S_OK and S_FALSE are no failures.
unfoldable pub co_failure : Option CoError → Option Error
co_failure none = none
co_failure (some (other_error e)) = none
co_failure (some (ole_error code e)) = if code == 0 || code == 1 then none else some e

abbrev pub first_error : List (Option Error) → Option Error
first_error [] = none
first_error (none ∷ calls) = first_error calls
first_error (some e ∷ calls) = some e

-- Where the goroutine is.
pub data Phase : Type 0 where
  fetching waiting ended : Phase

pub record State : Type 0 where
  pub phase : Phase
  pub metrics_buf : Option (List Metric)
  pub cancelled : Bool

-- `Build`: the calls before the loop, of which the first error ends the goroutine.
unfoldable pub after_calls : Option Error → State × Option Error
after_calls none = (record { phase = fetching; metrics_buf = none; cancelled = false }, none)
after_calls (some e) = (record { phase = ended; metrics_buf = none; cancelled = false }, some e)

unfoldable pub build : Option CoError → List (Option Error) → State × Option Error
build co calls = after_calls (first_error (co_failure co ∷ calls))

unfoldable pub close : State → State
close s = record s { cancelled = true }

-- A fetch that ends, the timer, the end of the context as the goroutine sees it, and a call of
-- `Close`.
pub data Action : Type 0 where
  fetched : Result (List Metric) → Action
  timer done closes : Action

unfoldable pub fetched_step : Phase → Result (List Metric) → State → Option State
fetched_step fetching (ok metrics) s =
    some (record s { metrics_buf = some metrics; phase = waiting })
fetched_step fetching (err e) s = some (record s { metrics_buf = none })
fetched_step _ r s = none

unfoldable pub timer_step : Phase → State → Option State
timer_step waiting s = some (record s { phase = fetching })
timer_step _ s = none

unfoldable pub done_step : Phase → State → Option State
done_step waiting s = if s.cancelled then some (record s { phase = ended }) else none
done_step _ s = none

unfoldable pub step : Action → State → Option State
step (fetched r) s = fetched_step s.phase r s
step timer s = timer_step s.phase s
step done s = done_step s.phase s
step closes s = some (close s)

unfoldable pub run : List Action → State → Option State
run [] s = some s
run (a ∷ actions) s = elim (step a s) [ none ↦ none | some t ↦ run actions t ]

abbrev pub err_no_updates : Error
err_no_updates = new_error (codes "pending gather update metrics")

-- `Collect` without the lock, which the assignments to the buffer hold as well.
unfoldable pub collect : State → Result (List Metric)
collect s = elim s.metrics_buf [ none ↦ err err_no_updates | some metrics ↦ ok metrics ]
