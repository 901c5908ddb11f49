-- ===== src/Scrape/Progress.antt =====
-- `collectCollector` never hangs, whatever its goroutines and the registry have done so far.
use windows_exporter.Base.{
  ◌≡◌, refl, All, Bool, true, false, List, [], ◌∷◌, ◌++◌, Option, none, some, arith,
}
use windows_exporter.Scrape.{
  StatusCode, pending, Forwarder, waiting, exited, received, sending, Caller, selecting, timed_out,
  joining, done, Scrape, Action, expire, quit, check, send, join, see_deadline, report_timeout,
  step, run, status_of, produce, finish, close_buf,
}

-- Whose action it is: the collector's goroutine has the first three.
abbrev pub IsOthers : Action → Type 0
IsOthers produce = ⊥
IsOthers finish = ⊥
IsOthers close_buf = ⊥
IsOthers _ = Unit

module _ {M : Type 0} where
  -- What the caller has returned.
  abbrev pub returned_code : Option (Scrape M) → Option StatusCode
  returned_code none = none
  returned_code (some t) = elim t.caller [ done code ↦ some code | _ ↦ none ]

  -- What the forwarder still does before it sees that `ctx` is done.
  abbrev leave : Forwarder M → Bool → Bool → List Action
  leave waiting late shut = quit ∷ []
  leave exited late shut = []
  leave (received m) true shut = check ∷ quit ∷ []
  leave (received m) false true = check ∷ send ∷ []
  leave (received m) false false = check ∷ send ∷ quit ∷ []
  leave (sending m) late true = send ∷ []
  leave (sending m) late false = send ∷ quit ∷ []

  abbrev pub way_out : Caller → Forwarder M → Bool → Bool → List Action
  way_out selecting f late shut = expire ∷ see_deadline ∷ report_timeout ∷ []
  way_out timed_out f late shut = report_timeout ∷ []
  way_out (joining err) f late shut = expire ∷ leave f late shut ++ join ∷ []
  way_out (done code) f late shut = []

  returns :
      (c : Caller) (f : Forwarder M) (late shut : Bool) (s : Scrape M)
      → s.caller ≡ c
      → s.forwarder ≡ f
      → s.timeout ≡ late
      → s.out_closed ≡ shut
      → (code : StatusCode) × (returned_code (run (way_out c f late shut) s) ≡ some code)
  unfolding step run
  returns selecting f late shut s a b d e = (pending, ground arith)
  returns timed_out f late shut s a b d e = (pending, ground arith)
  returns (joining err) waiting late shut s a b d e = (status_of err, ground arith)
  returns (joining err) exited late shut s a b d e = (status_of err, ground arith)
  returns (joining err) (received m) true shut s a b d e = (status_of err, ground arith)
  returns (joining err) (received m) false true s a b d e = (status_of err, ground arith)
  returns (joining err) (received m) false false s a b d e = (status_of err, ground arith)
  returns (joining err) (sending m) late true s a b d e = (status_of err, ground arith)
  returns (joining err) (sending m) late false s a b d e = (status_of err, ground arith)
  returns (done code) f late shut s a b d e = (code, ground arith)

  way_out-IsOthers :
      (c : Caller) (f : Forwarder M) (late shut : Bool) → All IsOthers (way_out c f late shut)
  way_out-IsOthers selecting f late shut = (tt, (tt, (tt, tt)))
  way_out-IsOthers timed_out f late shut = (tt, tt)
  way_out-IsOthers (joining err) waiting late shut = (tt, (tt, (tt, tt)))
  way_out-IsOthers (joining err) exited late shut = (tt, (tt, tt))
  way_out-IsOthers (joining err) (received m) true shut = (tt, (tt, (tt, (tt, tt))))
  way_out-IsOthers (joining err) (received m) false true = (tt, (tt, (tt, (tt, tt))))
  way_out-IsOthers (joining err) (received m) false false = (tt, (tt, (tt, (tt, (tt, tt)))))
  way_out-IsOthers (joining err) (sending m) late true = (tt, (tt, (tt, tt)))
  way_out-IsOthers (joining err) (sending m) late false = (tt, (tt, (tt, (tt, tt))))
  way_out-IsOthers (done code) f late shut = tt

  -- In every state, reachable or not, some schedule without an action of the collector's goroutine
  -- makes the caller return: a collector that never ends cannot keep it.
  pub run-returns :
      (s : Scrape M)
      → (acts : List Action) × All IsOthers acts
        × (code : StatusCode) × (returned_code (run acts s) ≡ some code)
  run-returns s =
      let (code, e) = returns s.caller s.forwarder s.timeout s.out_closed s refl refl refl refl in
      (
        way_out s.caller s.forwarder s.timeout s.out_closed,
        way_out-IsOthers s.caller s.forwarder s.timeout s.out_closed,
        code,
        e,
      )
