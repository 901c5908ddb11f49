-- ===== src/Scrape/Delivery.antt =====
-- What the registry gets of the metrics that a collector sends.
use windows_exporter.Base.{
  ◌+◌, ◌≤◌, ◌≡◌, refl, ap, ◌∙◌, true, false, List, [], ◌∷◌, ◌++◌, Option, some, arith, length,
  append-nil, append_assoc, Bool-cases, inl, inr, ◌⊎◌, ◌≢◌, length-append,
}
use native.Mathlib.Nat.{le_refl, le_trans}
use windows_exporter.Errors.{Error}
use windows_exporter.Scrape.{
  pending, Ending, Worker, running, Forwarder, waiting, exited, received, sending, Caller,
  timed_out, joining, done, Sent, metric, duration, Scrape, Action, produce, take, quit, send, join,
  report_timeout, drain, status_of, is_done, start, step, run, metrics_of, run_induction,
  produce_step, send_step, join_step,
}

-- No error, and no lack of one, is reported as a timeout.
pub status-ne-pending : (err : Option Error) → status_of err ≢ pending
unfolding status_of
status-ne-pending err = ground arith

module _ {M : Type 0} where
  -- What the forwarder holds.
  abbrev pub held : Forwarder M → List M
  held (received m) = m ∷ []
  held (sending m) = m ∷ []
  held _ = []

  metrics_of-append :
      (xs ys : List (Sent M)) → metrics_of (xs ++ ys) ≡ metrics_of xs ++ metrics_of ys
  metrics_of-append [] ys = refl
  metrics_of-append (metric m ∷ xs) ys = ap (λ r. m ∷ r) (metrics_of-append xs ys)
  metrics_of-append (duration ∷ xs) ys = metrics_of-append xs ys

  -- All metrics, wherever they are: in the registry, with the forwarder, in `bufCh`, or not yet sent.
  abbrev pub line : Scrape M → List M
  line s = metrics_of s.out ++ (held s.forwarder ++ (s.buf_ch ++ s.unsent))

  -- A caller that returned without the timeout has waited for the forwarder.
  pub record Joined (s : Scrape M) : Type 0 where
    pub after_join : is_done s.caller ≡ true → s.timeout ≡ false → s.forwarder ≡ exited
    pub at_deadline : s.caller ≡ timed_out → s.timeout ≡ true
    pub at_pending : s.caller ≡ done pending → s.timeout ≡ true
    pub after_return : s.out_closed ≡ true → is_done s.caller ≡ true

  Joined-join :
      (c : Caller) (f : Forwarder M) (s t : Scrape M)
      → s.caller ≡ c
      → s.forwarder ≡ f
      → Joined s
      → join_step c f s ≡ some t
      → Joined t
  unfolding join_step
  Joined-join (joining err) exited s t u v j h = ground (arith, status-ne-pending err)
  Joined-join _ _ s t u v j h = ground arith

  Joined-step : (a : Action) (s t : Scrape M) → Joined s → step a s ≡ some t → Joined t
  unfolding step
  Joined-step produce s t j h = ground arith
  Joined-step join s t j h = Joined-join s.caller s.forwarder s t refl refl j h
  Joined-step _ s t j h = ground arith

  produce-line :
      (w : Worker) (unsent : List M) (s t : Scrape M)
      → s.unsent ≡ unsent
      → produce_step w unsent s ≡ some t
      → (s.timeout ≡ t.timeout) × (line t ≡ line s)
  unfolding produce_step
  produce-line running (m ∷ rest) s t u h = ground (arith, append_assoc s.buf_ch (m ∷ []) rest)
  produce-line _ _ s t u h = ground arith

  send-line :
      (f : Forwarder M) (s t : Scrape M)
      → s.forwarder ≡ f
      → s.out_closed ≡ false
      → send_step f s ≡ some t
      → (s.timeout ≡ t.timeout) × (line t ≡ line s)
  unfolding send_step
  send-line (sending m) s t u o h = ground (
    arith,
    metrics_of-append s.out (metric m ∷ []),
    append_assoc (metrics_of s.out) (m ∷ []) (s.buf_ch ++ s.unsent),
  )
  send-line _ s t u o h = ground arith

  send_open :
      (s t : Scrape M) → Joined s → step send s ≡ some t → t.timeout ≡ false → s.out_closed ≡ false
  unfolding step
  send_open s t j h f = ground arith

  line-step :
      (a : Action) (s t : Scrape M)
      → Joined s
      → step a s ≡ some t
      → t.timeout ≡ false
      → (s.timeout ≡ false) × (line t ≡ line s)
  unfolding step
  line-step produce s t j h f = ground (arith, produce-line s.worker s.unsent s t refl h)
  line-step send s t j h f = ground (arith, send-line s.forwarder s t refl (send_open s t j h f) h)
  line-step take s t j h f = ground arith
  line-step drain s t j h f = ground arith
  line-step quit s t j h f = ground arith
  line-step join s t j h f =
      ground (arith, metrics_of-append s.out (duration ∷ []), append-nil (metrics_of s.out))
  line-step report_timeout s t j h f =
      ground (arith, metrics_of-append s.out (duration ∷ []), append-nil (metrics_of s.out))
  line-step _ s t j h f = ground arith

  -- What the registry has, and what the forwarder is about to send to it.
  abbrev pub on_way : Forwarder M → List M
  on_way (sending m) = m ∷ []
  on_way _ = []

  abbrev pub ahead : Scrape M → List M
  ahead s = metrics_of s.out ++ on_way s.forwarder

  send-ahead :
      (f : Forwarder M) (s t : Scrape M)
      → s.forwarder ≡ f
      → send_step f s ≡ some t
      → (ahead t ≡ ahead s) ⊎ (ahead t ++ on_way s.forwarder ≡ ahead s)
  unfolding send_step
  send-ahead (sending m) s t u h = ground (
    arith,
    metrics_of-append s.out (metric m ∷ []),
    append-nil (metrics_of s.out),
    append-nil (metrics_of s.out ++ m ∷ []),
  )
  send-ahead _ s t u h = ground arith

  -- Once the timeout is set no metric joins what is ahead.
  ahead-step :
      (a : Action) (s t : Scrape M)
      → s.timeout ≡ true
      → step a s ≡ some t
      → (ahead t ≡ ahead s) ⊎ (ahead t ++ on_way s.forwarder ≡ ahead s)
  unfolding step
  ahead-step send s t f h = send-ahead s.forwarder s t refl h
  ahead-step join s t f h =
      ground (arith, metrics_of-append s.out (duration ∷ []), append-nil (metrics_of s.out))
  ahead-step report_timeout s t f h =
      ground (arith, metrics_of-append s.out (duration ∷ []), append-nil (metrics_of s.out))
  ahead-step _ s t f h = ground arith

  -- Up to the timeout nothing is lost; after it what is ahead begins the collector's metrics.
  pub record Delivery (metrics : List M) (s : Scrape M) : Type 0 where
    pub joined : Joined s
    pub whole : s.timeout ≡ false → line s ≡ metrics
    pub begins : s.timeout ≡ true → (rest : List M) × (ahead s ++ rest ≡ metrics)

  -- What is in line behind what is ahead.
  abbrev behind : Forwarder M → List M → List M
  behind (received m) later = m ∷ later
  behind _ later = later

  ahead-behind :
      (f : Forwarder M) (sent later : List M)
      → (sent ++ on_way f) ++ behind f later ≡ sent ++ (held f ++ later)
  ahead-behind waiting sent later = rw append-nil
  ahead-behind exited sent later = rw append-nil
  ahead-behind (received m) sent later = rw append-nil
  ahead-behind (sending m) sent later = append_assoc sent (m ∷ []) later

  -- The step that sets the timeout changes neither what is ahead nor the line.
  set_timeout :
      (a : Action) (s t : Scrape M)
      → s.timeout ≡ false
      → t.timeout ≡ true
      → step a s ≡ some t
      → (t.out ≡ s.out)
        × (t.forwarder ≡ s.forwarder)
        × (t.buf_ch ≡ s.buf_ch)
        × (t.unsent ≡ s.unsent)
  unfolding step
  set_timeout produce s t f g h = ground arith
  set_timeout _ s t f g h = ground arith

  begins-step :
      (metrics : List M) (a : Action) (s t : Scrape M)
      → Delivery metrics s
      → step a s ≡ some t
      → t.timeout ≡ true
      → (rest : List M) × (ahead t ++ rest ≡ metrics)
  begins-step metrics a s t d h g = elim (Bool-cases s.timeout) [
    | inl late ↦
        let (rest, e) = d.begins late in
        elim (ahead-step a s t late h) [
          | inl same ↦ (rest, rw same e)
          | inr less ↦ (on_way s.forwarder ++ rest, rw (← append_assoc, less) e)
        ]
    | inr early ↦ (
      behind s.forwarder (s.buf_ch ++ s.unsent),
      let (o, f, b, u) = set_timeout a s t early g h in
          rw (o, f)
            (ahead-behind s.forwarder (metrics_of s.out) (s.buf_ch ++ s.unsent) ∙ d.whole early),
    )
  ]

  pub Delivery-step :
      (metrics : List M) (a : Action) (s t : Scrape M)
      → Delivery metrics s
      → step a s ≡ some t
      → Delivery metrics t
  Delivery-step metrics a s t d h = record {
    joined = Joined-step a s t d.joined h;
    whole = λ f. let (g, e) = line-step a s t d.joined h f in e ∙ d.whole g;
    begins = begins-step metrics a s t d h;
  }

  pub Delivery-start :
      (metrics : List M) (ending : Ending) → Delivery metrics (start metrics ending)
  unfolding start
  Delivery-start metrics ending = record {
    joined = ground arith;
    whole = λ f. refl;
    begins = λ f. absurd (cc f);
  }

  pub Delivery-run :
      (metrics : List M) (ending : Ending) (acts : List Action) (t : Scrape M)
      → run acts (start metrics ending) ≡ some t
      → Delivery metrics t
  Delivery-run metrics ending acts t h =
      run_induction (Delivery metrics) (Delivery-step metrics) acts (start metrics ending) t
        (Delivery-start metrics ending) h

  Delivery-prefix :
      (metrics : List M) (t : Scrape M)
      → Delivery metrics t
      → (rest : List M) × (metrics_of t.out ++ rest ≡ metrics)
  Delivery-prefix metrics t d = elim (Bool-cases t.timeout) [
    | inl late ↦
        let (rest, e) = d.begins late in (on_way t.forwarder ++ rest, rw (← append_assoc) e)
    | inr early ↦ (held t.forwarder ++ (t.buf_ch ++ t.unsent), d.whole early)
  ]

  -- At every moment of every schedule, also after a timeout or a panic, the registry has got a
  -- beginning of the collector's metrics: in their order, none twice and none left out between.
  pub metrics_of-run :
      (metrics : List M) (ending : Ending) (acts : List Action) (t : Scrape M)
      → run acts (start metrics ending) ≡ some t
      → (rest : List M) × (metrics_of t.out ++ rest ≡ metrics)
  metrics_of-run metrics ending acts t h =
      Delivery-prefix metrics t (Delivery-run metrics ending acts t h)

  length-ahead-step :
      (a : Action) (s t : Scrape M)
      → s.timeout ≡ true
      → step a s ≡ some t
      → length (ahead t) ≤ length (ahead s)
  length-ahead-step a s t f h = elim (ahead-step a s t f h) [
    | inl same ↦ rw same (le_refl _)
    | inr less ↦ omega (arith, ap length less, length-append (ahead t) (on_way s.forwarder))
  ]

  stays_late :
      (a : Action) (s t : Scrape M) → s.timeout ≡ true → step a s ≡ some t → t.timeout ≡ true
  unfolding step
  stays_late produce s t f h = ground arith
  stays_late _ s t f h = ground arith

  length-on_way : (f : Forwarder M) → length (on_way f) ≤ 1
  length-on_way (sending m) = omega arith
  length-on_way waiting = omega arith
  length-on_way exited = omega arith
  length-on_way (received m) = omega arith

  -- Once the caller has stored the timeout, at most one more metric reaches the registry, whatever
  -- the schedule: the one that the forwarder was about to send.
  at_most_one_late :
      (acts : List Action) (s t : Scrape M)
      → s.timeout ≡ true
      → run acts s ≡ some t
      → length (metrics_of t.out) ≤ length (metrics_of s.out) + 1
  at_most_one_late acts s t f h =
      let (_, bound) =
        run_induction (λ u. (u.timeout ≡ true) × (length (ahead u) ≤ length (ahead s)))
          (λ a u v p e. (stays_late a u v p.0 e, le_trans (length-ahead-step a u v p.0 e) p.1)) acts
          s t (f, le_refl _) h in
      omega (
        arith,
        bound,
        length-on_way s.forwarder,
        length-append (metrics_of t.out) (on_way t.forwarder),
        length-append (metrics_of s.out) (on_way s.forwarder),
      )
