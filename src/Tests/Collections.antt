-- ===== src/Tests/Collections.antt =====
-- Runs for pkg/collector/collection.go and handler.go. A collector is a number.
use windows_exporter.Base.{
  ℕ, ◌≡◌, refl, List, [], ◌∷◌, Option, none, some, arith, ◌==◌, nat_eq, Str, str_eq, codes, Map,
  if◌then◌else◌, ◌↔◌,
}
use windows_exporter.Errors.{Error, pdh_error, cause_beq}
use windows_exporter.Collection.{
  Store, Collection, content, build_collectors, build_errors, no_data_code, is_tolerated,
}
use windows_exporter.Collection.Requests.{content-serve_requests, serve_requests}
use windows_exporter.Collection.Startup.{AllStart, build_collectors-AllStart}

abbrev cpu : Str
cpu = codes "cpu"

abbrev os : Str
os = codes "os"

abbrev three : Map Str ℕ
three = (cpu, 1) ∷ (codes "net", 2) ∷ (os, 3) ∷ []

abbrev store : Store ℕ
store = record { maps = λ r. three; next = 1 }

abbrev no_error : Option Error
no_error = none

abbrev exporter : Collection
exporter = record { collectors = 0; start_time = 100 }

abbrev requests : List (List Str)
requests = (cpu ∷ []) ∷ [] ∷ (codes "nothing" ∷ []) ∷ []

content-serve_requests_example : content (serve_requests exporter requests store) exporter ≡ three
content-serve_requests_example = content-serve_requests exporter requests store (omega arith)

abbrev no_data_of_net : ℕ → Option Error
no_data_of_net c = if c == 2 then some (pdh_error no_data_code ∷ []) else none

build_collectors-AllStart_example :
    (build_collectors no_data_of_net no_error three ≡ [])
    ↔ ((no_error ≡ none) × AllStart no_data_of_net three)
build_collectors-AllStart_example = build_collectors-AllStart no_data_of_net none three

starts : build_collectors no_data_of_net none three ≡ []
unfolding build_collectors build_errors is_tolerated cause_beq
starts = refl
