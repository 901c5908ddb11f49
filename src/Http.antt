-- ===== src/Http.antt =====
-- internal/httphandler/httphandler.go: a request for the metrics, from its header and its `collect[]` parameters
-- to the registry that answers it, and the collection behind it up to what `collectAll` of
-- pkg/collector/collect.go sends. Floating-point numbers and the registry of Prometheus are given.
pub mod Requests
use windows_exporter.Base.{
  ℕ, ◌≡◌, Bool, true, false, not, List, [], ◌∷◌, Option, none, some, arith, ◌==◌, Str, str_eq, Map,
  if◌then◌else◌,
}
use windows_exporter.Errors.{Error}
use windows_exporter.Perflib.Bytes.{ℤ}
use windows_exporter.Collection.{Store, Collection, content, new_handler}
use windows_exporter.Scrape.{StatusCode}
use windows_exporter.Scrape.All.{Gauge, collect_all}

-- float64 and what the code does with it: `strconv.ParseFloat` with the value that it returns beside an
-- error, the difference, and `time.Duration(x * 1e9)`.
pub record Floats {ℓ} (F : Type ℓ) : Type ℓ where
  pub zero_seconds : F
  pub ten_seconds : F
  pub is_zero : F → Bool
  pub parse_float : Str → F × Option Error
  pub minus : F → F → F
  pub nanoseconds : F → ℤ

-- What the handler reads of a request: the header X-Prometheus-Scrape-Timeout-Seconds, empty if it is not
-- there, and the values of `collect[]`.
pub record Request : Type 0 where
  pub timeout_header : Str
  pub collect_names : List Str

-- `Options`
pub record Options {ℓ} (F : Type ℓ) : Type ℓ where
  pub disable_exporter_metrics : Bool
  pub timeout_margin : F

-- A registry with the collection that it collects from and the longest scrape, and whether the exporter's
-- own metrics are gathered too.
pub record RegistryHandler : Type 0 where
  pub collection : Collection
  pub max_scrape_duration : ℤ
  pub exporter_metrics : Bool

pub data Response : Type 0 where
  bad_request : Error → Response
  served : RegistryHandler → Response

module _ {ℓ} {F : Type ℓ} (floats : Floats F) where
  unfoldable pub get_scrape_timeout : Options F → Request → ℤ
  get_scrape_timeout options r =
      let parsed =
        if r.timeout_header == []
        then floats.zero_seconds
        else (floats.parse_float r.timeout_header).0 in
      let seconds = if floats.is_zero parsed then floats.ten_seconds else parsed in
      floats.nanoseconds (floats.minus seconds options.timeout_margin)

  -- The part of `handlerFactory` behind `NewHandler`; `register` is what `Register` returns.
  after_new_handler : Option Error → Bool → ℤ → Option Collection × Option Error → Response
  after_new_handler register disabled limit (collection, some e) = bad_request e
  after_new_handler register disabled limit (none, none) = bad_request []
  after_new_handler (some e) disabled limit (some c, none) = bad_request e
  after_new_handler none disabled limit (some c, none) =
      served
        (record { collection = c; max_scrape_duration = limit; exporter_metrics = not disabled })

  -- `ServeHTTP` and `handlerFactory`, which works on the store of the collectors' maps.
  unfoldable pub serve_http {κ} :
      {C : Type κ} → Options F → Option Error → Collection → Request → Store C → Store C × Response
  unfolding after_new_handler
  serve_http options register c r s =
      let (t, made) = new_handler c r.collect_names s in
      (
        t,
        after_new_handler register options.disable_exporter_metrics (get_scrape_timeout options r)
            made,
      )

-- The status codes of the collectors of a map, each from its own scrape, here in the order of the map.
unfoldable pub statuses {ℓ} : {C : Type ℓ} → (Str → C → StatusCode) → Map Str C → Map Str StatusCode
statuses code [] = []
statuses code ((name, c) ∷ m) = (name, code name c) ∷ statuses code m

-- `Collect` of handler.go: what the registry gets of a collection besides the collectors' own metrics.
unfoldable pub collect_handler {ℓ} :
    {C : Type ℓ} → (Str → C → StatusCode) → ℕ → RegistryHandler → Store C → List Gauge
collect_handler code seconds h s = collect_all (statuses code (content s h.collection)) seconds
