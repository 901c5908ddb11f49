-- ===== src/Scrape/Outcome.antt =====
-- The status that `collectCollector` returns, and when it has passed every metric on.
use windows_exporter.Base.{
  ◌≡◌, refl, sym, ◌∙◌, true, false, List, [], ◌∷◌, none, some, arith, append-nil, inr, ◌⊎◌,
}
use windows_exporter.Scrape.{
  StatusCode, pending, Ending, reported, closed, exited, selecting, timed_out, joining, done,
  Scrape, Action, produce, finish, close_buf, expire, quit, receive_error, join, result, status_of,
  start, step, run, metrics_of, run_induction,
}
use windows_exporter.Scrape.Delivery.{
  Joined, Delivery, Delivery-step, Delivery-start, line, status-ne-pending,
}

module _ {M : Type 0} where
  -- What the caller knows of the collector.
  pub record Outcome (ending : Ending) (s : Scrape M) : Type 0 where
    pub same_ending : s.ending ≡ ending
    pub error_sent : (s.err_ch ≡ none) ⊎ (s.err_ch ≡ some (result ending))
    pub caller_knows :
        (s.caller ≡ selecting)
        ⊎ (s.caller ≡ timed_out)
        ⊎ (s.caller ≡ joining (result ending))
        ⊎ (s.caller ≡ done (status_of (result ending)))
        ⊎ (s.caller ≡ done pending)
    pub deadline : (s.caller ≡ done pending) ⊎ (s.caller ≡ timed_out) → s.expired ≡ true
    pub deadline_passed : s.timeout ≡ true → s.expired ≡ true
    -- the collector's goroutine sends nothing after its error, and closes the channel last
    pub sent_all : (s.worker ≡ reported) ⊎ (s.worker ≡ closed) → s.unsent ≡ []
    pub closed_last : s.buf_closed ≡ true → s.worker ≡ closed
    -- why the forwarder has gone
    pub gone : s.forwarder ≡ exited → (s.expired ≡ true) ⊎ ((s.buf_closed ≡ true) × (s.buf_ch ≡ []))

  Outcome-step :
      (ending : Ending) (a : Action) (s t : Scrape M)
      → Joined s
      → Outcome ending s
      → step a s ≡ some t
      → Outcome ending t
  unfolding step
  Outcome-step ending produce s t j o h = ground (arith, status-ne-pending (result ending))
  Outcome-step ending _ s t j o h = ground (arith, status-ne-pending (result ending))

  Outcome-start : (metrics : List M) (ending : Ending) → Outcome ending (start metrics ending)
  unfolding start
  Outcome-start metrics ending = ground arith

  Outcome-run :
      (metrics : List M) (ending : Ending) (acts : List Action) (t : Scrape M)
      → run acts (start metrics ending) ≡ some t
      → Delivery metrics t × Outcome ending t
  Outcome-run metrics ending acts t h =
      run_induction (λ u. Delivery metrics u × Outcome ending u)
        (λ a u v p e.
          (Delivery-step metrics a u v p.0 e, Outcome-step ending a u v p.0.joined p.1 e))
        acts (start metrics ending) t (Delivery-start metrics ending, Outcome-start metrics ending)
        h

  -- A scrape returns `pending` only after its deadline, and any other code is that of the error with
  -- which the collector ended, where a panic counts as an error.
  pub caller-run :
      (metrics : List M) (ending : Ending) (acts : List Action) (t : Scrape M) (code : StatusCode)
      → run acts (start metrics ending) ≡ some t
      → t.caller ≡ done code
      → ((code ≡ pending) × (t.expired ≡ true)) ⊎ (code ≡ status_of (result ending))
  caller-run metrics ending acts t code h c =
      let (_, o) = Outcome-run metrics ending acts t h in ground arith

  closed_empty :
      {ending : Ending} (t : Scrape M)
      → Outcome ending t
      → t.forwarder ≡ exited
      → t.expired ≡ false
      → (t.buf_closed ≡ true) × (t.buf_ch ≡ [])
  closed_empty t o f e = ground (arith, o.gone f)

  line_empty :
      (t : Scrape M)
      → t.forwarder ≡ exited
      → t.buf_ch ≡ []
      → t.unsent ≡ []
      → line t ≡ metrics_of t.out
  line_empty t f b u = ground (arith, append-nil (metrics_of t.out))

  -- A scrape that returns before its deadline has passed on every metric that the collector sent,
  -- in order, and returns the code of the error with which the collector ended.
  pub metrics_of-run_in_time :
      (metrics : List M) (ending : Ending) (acts : List Action) (t : Scrape M) (code : StatusCode)
      → run acts (start metrics ending) ≡ some t
      → t.caller ≡ done code
      → t.expired ≡ false
      → (metrics_of t.out ≡ metrics) × (code ≡ status_of (result ending))
  metrics_of-run_in_time metrics ending acts t code h c e =
      let (d, o) = Outcome-run metrics ending acts t h in
      let in_time : t.timeout ≡ false = ground (arith, o.deadline_passed) in
      let j = d.joined in
      let gone : t.forwarder ≡ exited = ground arith in
      let (closed_buf, empty) = closed_empty t o gone e in
      (
        sym (line_empty t gone empty (o.sent_all (inr (o.closed_last closed_buf))))
            ∙ d.whole in_time,
        ground arith,
      )

  -- When the deadline passes between the collector's end and the forwarder's next receive, the scrape
  -- can return the collector's own code, `success` if it had no error, and have passed on nothing.
  metrics_lost_at_deadline :
      (m : M) (ending : Ending)
      → (acts : List Action) × (t : Scrape M) × (run acts (start (m ∷ []) ending) ≡ some t)
        × (t.caller ≡ done (status_of (result ending)))
        × (metrics_of t.out ≡ [])
  unfolding run step start
  metrics_lost_at_deadline m ending = (
    produce ∷ finish ∷ close_buf ∷ expire ∷ quit ∷ receive_error ∷ join ∷ [],
    _,
    refl,
    refl,
    refl,
  )
