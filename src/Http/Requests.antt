-- ===== src/Http/Requests.antt =====
-- What a request is answered with.
use windows_exporter.Base.{
  ℕ, ◌≡◌, refl, ap, subst, ◌∙◌, Bool, true, false, not, List, [], ◌∷◌, Option, none, some, arith,
  ◌==◌, Str, str_eq, eq_iff, contains, Map, lookup, if◌then◌else◌, Bool-cases, Option-cases, inl,
  inr,
}
use mathlib.Core.Option
use windows_exporter.Errors.{Error}
use windows_exporter.Collection.{
  Store, Collection, content, enable, clone, with_collectors, new_handler,
}
use windows_exporter.Collection.Selection.{AllKnown}
use windows_exporter.Collection.Requests.{
  derived, lookup-with_collectors, with_collectors-unknown, AllKnown-enable,
}
use windows_exporter.Scrape.{StatusCode}
use windows_exporter.Scrape.All.{collector_success, success_value, value_of, value_of-collect_all}
use windows_exporter.Http.{
  Floats, Request, Options, RegistryHandler, Response, bad_request, served, get_scrape_timeout,
  after_new_handler, serve_http, statuses, collect_handler,
}

-- The collectors that a request asks for.
abbrev pub asks_for : List Str → Str → Bool
asks_for [] k = true
asks_for (name ∷ names) k = contains (name ∷ names) k

module _ {ℓ} {C : Type ℓ} where
  lookup-statuses :
      (code : Str → C → StatusCode) (m : Map Str C) (k : Str)
      → lookup k (statuses code m) ≡ Option.map (code k) (lookup k m)
  unfolding lookup statuses
  lookup-statuses code [] k = refl
  lookup-statuses code ((n, c) ∷ m) k = elim (Bool-cases (n == k)) [
    | inl e ↦ let same : n ≡ k = (eq_iff n k).0 e in rw e (ap (λ j. some (code j c)) same)
    | inr e ↦ simp (e, lookup-statuses code m k)
  ]

  map-shown :
      (code : C → StatusCode) (asked : Bool) (o : Option C)
      → Option.map success_value (Option.map code (if asked then o else none))
        ≡ (if asked then Option.map (λ x. success_value (code x)) o else none)
  map-shown code true none = refl
  map-shown code true (some x) = refl
  map-shown code false o = refl

module _ {ℓ κ} {F : Type ℓ} {C : Type κ} (floats : Floats F) where
  -- The answer to a request: a registry over the collectors that it asks for, each as the exporter has it,
  -- and no other, with the longest scrape that its header asks for; a bad request is one for an unknown collector.
  pub record Serves (options : Options F) (r : Request) (s t : Store C) (c : Collection)
      (h : RegistryHandler) : Type κ where
    pub known : AllKnown r.collect_names (content s c)
    pub max_scrape_duration : h.max_scrape_duration ≡ get_scrape_timeout floats options r
    pub exporter_metrics : h.exporter_metrics ≡ not options.disable_exporter_metrics
    pub collectors :
        (k : Str)
        → lookup k (content t h.collection)
          ≡ (if asks_for r.collect_names k then lookup k (content s c) else none)

  pub record Refuses (r : Request) (s : Store C) (c : Collection) : Type κ where
    pub unknown : ¬ AllKnown r.collect_names (content s c)

  abbrev pub Answers : Options F → Request → Store C → Collection → Store C × Response → Type κ
  Answers options r s c (t, bad_request e) = Refuses r s c
  Answers options r s c (t, served h) = Serves options r s t c h

  Answers-served :
      (options : Options F) (r : Request) (s : Store C) (c d : Collection)
      (p : Store C × (Option Collection × Option Error))
      → p.1 ≡ (some d, none)
      → AllKnown r.collect_names (content s c)
      → ((k : Str)
          → lookup k (content p.0 d)
            ≡ (if asks_for r.collect_names k then lookup k (content s c) else none))
      → Answers options r s c (
        p.0,
        after_new_handler floats none options.disable_exporter_metrics
            (get_scrape_timeout floats options r)
            p.1,
      )
  unfolding after_new_handler
  Answers-served options r s c d (t, made) h known same = rw h (record {
    known = known;
    max_scrape_duration = refl;
    exporter_metrics = ground arith;
    collectors = same;
  })

  Answers-refused :
      (options : Options F) (r : Request) (s : Store C) (c : Collection) (e : Error)
      (p : Store C × (Option Collection × Option Error))
      → p.1 ≡ (none, some e)
      → ¬ AllKnown r.collect_names (content s c)
      → Answers options r s c (
        p.0,
        after_new_handler floats none options.disable_exporter_metrics
            (get_scrape_timeout floats options r)
            p.1,
      )
  unfolding after_new_handler
  Answers-refused options r s c e (t, made) h unknown = rw h (record { unknown = unknown })

  Answers-names :
      (options : Options F) (c : Collection) (header : Str) (names : List Str) (s : Store C)
      → let r : Request = record { timeout_header = header; collect_names = names } in
        Answers options r s c (serve_http floats options none c r s)
  unfolding serve_http new_handler
  Answers-names options c header [] s =
      Answers-served options (record { timeout_header = header; collect_names = [] }) s c c
        (s, (some c, none)) refl tt (λ k. refl)
  Answers-names options c header (name ∷ names) s =
      let r : Request = record { timeout_header = header; collect_names = name ∷ names } in
      elim (Option-cases (enable (derived c s) (name ∷ names) (clone c.collectors s).0).1) [
        | inl e ↦
            let known = AllKnown-enable c (name ∷ names) s e in
            let (found, same) = lookup-with_collectors c (name ∷ names) s known in
            Answers-served options r s c (derived c s) (with_collectors c (name ∷ names) s) found
              known same
        | inr (err, e) ↦
            let (lost, unknown) = with_collectors-unknown c (name ∷ names) s err e in
            Answers-refused options r s c err (with_collectors c (name ∷ names) s) lost unknown
      ]

  -- A request is refused only if it names an unknown collector. Any other is answered by a registry over the
  -- collectors that it names, each as the exporter has it, and no other, or over all of the exporter's if it
  -- names none, with the longest scrape that its header asks for, and the exporter's own metrics unless they
  -- are disabled. Registering the collection succeeds.
  pub Answers-serve_http :
      (options : Options F) (c : Collection) (r : Request) (s : Store C)
      → Answers options r s c (serve_http floats options none c r s)
  Answers-serve_http options c r s = Answers-names options c r.timeout_header r.collect_names s

  -- The scrape behind a request that is answered shows a success value for the collectors that the request
  -- asks for and the exporter has, 1 if the collector's own scrape succeeds and else 0, and for no other name.
  pub value_of-collect_handler :
      (options : Options F) (c : Collection) (r : Request) (s t : Store C) (h : RegistryHandler)
      (code : Str → C → StatusCode) (seconds : ℕ) (k : Str)
      → serve_http floats options none c r s ≡ (t, served h)
      → value_of collector_success k (collect_handler code seconds h t) ≡ (
          if asks_for r.collect_names k
          then Option.map (λ x. success_value (code k x)) (lookup k (content s c))
          else none)
  unfolding collect_handler
  value_of-collect_handler options c r s t h code seconds k e =
      let answer = subst (Answers options r s c) e (Answers-serve_http options c r s) in
      let shown = (value_of-collect_all (statuses code (content t h.collection)) seconds k).0 in
      shown
      ∙ ap (Option.map success_value) (
          lookup-statuses code (content t h.collection) k
          ∙ ap (Option.map (code k)) (answer.collectors k))
      ∙ map-shown (code k) (asks_for r.collect_names k) (lookup k (content s c))
