-- ===== src/Textfile/Files/Scraped.antt =====
-- What `scrapeFile` lets pass.
use windows_exporter.Base.{
  ◌≡◌, ◌↔◌, refl, sym, ap, ◌∙◌, true, false, List, [], ◌∷◌, ◌++◌, Option, none, some, arith, Str,
  str_eq, codes, All,
}
use windows_exporter.Errors.{Result, ok, err}
use windows_exporter.Textfile.{Metric, MetricFamily}
use windows_exporter.Textfile.Duplicates.{entries, repeated, duplicate_metric_entry-repeated}
use windows_exporter.Textfile.Files.{
  Encoding, unknown, utf8, other_encoding, Content, check_bom, has_timestamp, check_families,
  check_parsed, scrape_file, reject_duplicates, prepend, fill_help,
}

-- Without a BOM, or with that of UTF-8.
abbrev pub IsPlain : Encoding → Type 0
IsPlain unknown = Unit
IsPlain utf8 = Unit
IsPlain (other_encoding text) = ⊥

abbrev pub or_text : Str → Option Str → Str
or_text text none = text
or_text text (some other) = other

check_bom-IsPlain : (e : Encoding) → (check_bom e ≡ none) ↔ IsPlain e
unfolding check_bom
check_bom-IsPlain unknown = (λ h. tt, λ h. refl)
check_bom-IsPlain utf8 = (λ h. tt, λ h. refl)
check_bom-IsPlain (other_encoding text) = (λ h. cc, λ h. absurd h)

module _ {V : Type 0} where
  -- No metric has a time of its own.
  abbrev pub IsUnstamped : MetricFamily V → Type 0
  IsUnstamped f = All (λ (m : Metric V). m.timestamp ≡ none) f.metrics

  -- The families with a help text that names the file where they have none.
  abbrev pub with_help : Str → List (MetricFamily V) → List (MetricFamily V)
  with_help path [] = []
  with_help path (f ∷ rest) =
      record f { help = some (or_text (codes "Metric read from " ++ path) f.help) }
      ∷ with_help path rest

  has_timestamp-All :
      (ms : List (Metric V))
      → (has_timestamp ms ≡ false) ↔ All (λ (m : Metric V). m.timestamp ≡ none) ms
  unfolding has_timestamp
  has_timestamp-All [] = (λ h. tt, λ h. refl)
  has_timestamp-All (m ∷ ms) = ground (arith, has_timestamp-All ms)

  fill_help-text :
      (path : Str) (f : MetricFamily V) (o : Option Str)
      → f.help ≡ o
      → fill_help path f
        ≡ record f { help = some (or_text (codes "Metric read from " ++ path) f.help) }
  unfolding fill_help
  fill_help-text path f none e = rw e refl
  fill_help-text path f (some text) e = rw e refl

  check_families-unstamped :
      (path : Str) (parsed : List (MetricFamily V))
      → All IsUnstamped parsed
      → check_families path parsed ≡ ok (with_help path parsed)
  unfolding check_families prepend
  check_families-unstamped path [] h = refl
  check_families-unstamped path (f ∷ rest) h =
      rw
        (
          (has_timestamp-All f.metrics).1 h.0,
          fill_help-text path f f.help refl,
          check_families-unstamped path rest h.1,
        )
        refl

  IsUnstamped-check_families :
      (path : Str) (parsed families : List (MetricFamily V))
      → check_families path parsed ≡ ok families
      → All IsUnstamped parsed
  unfolding check_families prepend
  IsUnstamped-check_families path [] families h = tt
  IsUnstamped-check_families path (f ∷ rest) families h =
      go (has_timestamp f.metrics) refl (check_families path rest) refl
        (λ later. IsUnstamped-check_families path rest later)
    where
      go :
          (b : _)
          → has_timestamp f.metrics ≡ b
          → (r : Result (List (MetricFamily V))) → check_families path rest ≡ r
          → ((later : List (MetricFamily V))
              → check_families path rest ≡ ok later
              → All IsUnstamped rest)
          → All IsUnstamped (f ∷ rest)
      go true e r d k = cc (h, e)
      go false e (err x) d k = cc (h, e, d)
      go false e (ok later) d k = ((has_timestamp-All f.metrics).0 e, k later d)

  reject_duplicates-ok :
      (r : Result (List (MetricFamily V))) (families : List (MetricFamily V))
      → (reject_duplicates r ≡ ok families)
        ↔ ((r ≡ ok families) × (repeated (entries families) ≡ false))
  unfolding reject_duplicates
  reject_duplicates-ok (err e) families = (λ h. cc, λ h. cc (h.0))
  reject_duplicates-ok (ok fs) families =
      ground (arith, duplicate_metric_entry-repeated fs, duplicate_metric_entry-repeated families)

  -- What a file that is accepted is: it could be opened, has no foreign BOM, and could be parsed into
  -- these families.
  abbrev pub IsAccepted : Str → Content V → List (MetricFamily V) → List (MetricFamily V) → Type 0
  IsAccepted path content parsed families =
      (content.opened ≡ none)
      × IsPlain content.encoding
      × (content.parsed ≡ ok parsed)
      × All IsUnstamped parsed
      × (families ≡ with_help path parsed)
      × (repeated (entries families) ≡ false)

  accepted :
      (path : Str) (content : Content V) (families : List (MetricFamily V))
      → scrape_file path content ≡ ok families
      → (parsed : List (MetricFamily V)) × IsAccepted path content parsed families
  unfolding scrape_file check_parsed
  accepted path content families h =
      let (parsed, p, r, o, b) : (parsed : List (MetricFamily V)) × (content.parsed ≡ ok parsed)
          × (reject_duplicates (check_families path parsed) ≡ ok families)
          × (content.opened ≡ none)
          × (check_bom content.encoding ≡ none) =
        ground arith in
      let (c, d) = (reject_duplicates-ok (check_families path parsed) families).0 r in
      let u = IsUnstamped-check_families path parsed families c in
      let same : ok families ≡ ok (with_help path parsed) =
        sym c ∙ check_families-unstamped path parsed u in
      (parsed, (o, (check_bom-IsPlain content.encoding).0 b, p, u, cc, d))

  -- `scrapeFile` answers with families exactly where the file could be opened, has no BOM but that of
  -- UTF-8, and could be parsed into families of which no metric has a timestamp; they are those of the
  -- parser, in order, with a help text that names the file where they had none, and none of them has a
  -- metric with the labels of the metric before it of its name.
  pub scrape_file-ok :
      (path : Str) (content : Content V) (families : List (MetricFamily V))
      → (scrape_file path content ≡ ok families)
        ↔ ((parsed : List (MetricFamily V)) × IsAccepted path content parsed families)
  unfolding scrape_file check_parsed
  scrape_file-ok path content families = (
    accepted path content families,
    λ (parsed, (o, e, p, u, s, d)).
        rw
          (
            scrape_file,
            o,
            (check_bom-IsPlain content.encoding).1 e,
            check_parsed,
            p,
            check_families-unstamped path parsed u,
          )
          ((reject_duplicates-ok (ok (with_help path parsed)) families).1 (ap ok (sym s), d)),
  )
