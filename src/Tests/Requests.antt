-- ===== src/Tests/Requests.antt =====
-- Runs for internal/httphandler/httphandler.go. A collector and a number of seconds are numbers.
use windows_exporter.Base.{
  ℕ, ◌-◌, ◌*◌, if◌then◌else◌, ◌≡◌, refl, true, false, [], ◌∷◌, none, some, ◌==◌, nat_eq, Str,
  str_eq, codes, Map, lookup, has_key, delete_where,
}
use windows_exporter.Perflib.Bytes.{pos}
use windows_exporter.Collection.{
  Store, Collection, enable, with_collectors, new_handler, unknown_name,
}
use windows_exporter.Scrape.{StatusCode, success}
use windows_exporter.Scrape.All.{collector_success, value_of}
use windows_exporter.Http.{
  Floats, Request, Options, RegistryHandler, served, serve_http, get_scrape_timeout,
  collect_handler,
}
use windows_exporter.Http.Requests.{Answers, Answers-serve_http, value_of-collect_handler}

-- Whole seconds, and one text that is a number.
abbrev whole : Floats ℕ
whole = record {
  zero_seconds = 0;
  ten_seconds = 10;
  is_zero = λ n. n == 0;
  parse_float = λ s. if s == codes "5" then (5, none) else (0, some []);
  minus = λ a b. a - b;
  nanoseconds = λ n. pos (n * 1000000000);
}

abbrev options : Options ℕ
options = record { disable_exporter_metrics = false; timeout_margin = 1 }

abbrev three : Map Str ℕ
three = (codes "cpu", 1) ∷ (codes "net", 2) ∷ (codes "os", 3) ∷ []

abbrev store : Store ℕ
store = record { maps = λ r. three; next = 1 }

abbrev exporter : Collection
exporter = record { collectors = 0; start_time = 100 }

abbrev request : Request
request = record { timeout_header = codes "5"; collect_names = codes "cpu" ∷ [] }

Answers-serve_http_example :
    Answers whole options request store exporter
      (serve_http whole options none exporter request store)
Answers-serve_http_example = Answers-serve_http whole options exporter request store

abbrev handler : RegistryHandler
handler = record {
  collection = record { collectors = 1; start_time = 100 };
  max_scrape_duration = pos 4000000000;
  exporter_metrics = true;
}

abbrev after : Store ℕ
after = (serve_http whole options none exporter request store).0

is_served : serve_http whole options none exporter request store ≡ (after, served handler)
unfolding serve_http get_scrape_timeout new_handler with_collectors enable unknown_name has_key
    delete_where lookup
is_served = refl

abbrev succeeds : Str → ℕ → StatusCode
succeeds name n = success

value_of-collect_handler_example :
    value_of collector_success (codes "cpu") (collect_handler succeeds 1 handler after) ≡ some 1
unfolding lookup
value_of-collect_handler_example =
    value_of-collect_handler whole options exporter request store after handler succeeds 1
      (codes "cpu") is_served
