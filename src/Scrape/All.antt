-- ===== src/Scrape/All.antt =====
-- `collectAll` of pkg/collector/collect.go: what it sends when every collector has ended. Values are
-- the numbers that the code writes as floats; `statuses` stands in the order in which the collectors
-- ended.
use windows_exporter.Base.{
  ℕ, ◌≡◌, refl, Bool, true, false, ◌&&◌, List, [], ◌∷◌, Option, none, some, arith, ◌==◌, Str,
  str_eq, Map, lookup, if◌then◌else◌,
}
use mathlib.Core.Option
use windows_exporter.Scrape.{StatusCode, pending, success}

-- The descriptions that `New` of collection.go makes.
pub data Desc : Type 0 where
  collector_success collector_timeout scrape_duration : Desc

abbrev pub desc_beq : Desc → Desc → Bool
desc_beq collector_success collector_success = true
desc_beq collector_timeout collector_timeout = true
desc_beq scrape_duration scrape_duration = true
desc_beq _ _ = false

pub record Gauge : Type 0 where
  pub desc : Desc
  pub value : ℕ
  pub label : Option Str

abbrev pub success_value : StatusCode → ℕ
success_value success = 1
success_value _ = 0

abbrev pub timeout_value : StatusCode → ℕ
timeout_value pending = 1
timeout_value _ = 0

unfoldable pub collect_all : Map Str StatusCode → ℕ → List Gauge
collect_all [] seconds = record { desc = scrape_duration; value = seconds; label = none } ∷ []
collect_all ((name, code) ∷ statuses) seconds =
    record { desc = collector_success; value = success_value code; label = some name }
    ∷ record { desc = collector_timeout; value = timeout_value code; label = some name }
    ∷ collect_all statuses seconds

abbrev labelled : Option Str → Str → Bool
labelled none name = false
labelled (some label) name = label == name

-- The value that a scrape shows for a description and a collector.
pub value_of : Desc → Str → List Gauge → Option ℕ
value_of desc name [] = none
value_of desc name (g ∷ rest) =
    if desc_beq g.desc desc && labelled g.label name then some g.value else value_of desc name rest

-- For each collector that ran, and no other, a scrape shows a success value, 1 if its code is
-- `success` and else 0, and a timeout value, 1 if its code is `pending` and else 0.
pub value_of-collect_all :
    (statuses : Map Str StatusCode) (seconds : ℕ) (name : Str)
    → (value_of collector_success name (collect_all statuses seconds)
        ≡ Option.map success_value (lookup name statuses))
      × (value_of collector_timeout name (collect_all statuses seconds)
          ≡ Option.map timeout_value (lookup name statuses))
unfolding value_of collect_all lookup
value_of-collect_all [] seconds name = (refl, refl)
value_of-collect_all ((n, code) ∷ statuses) seconds name =
    ground (arith, value_of-collect_all statuses seconds name)
