-- ===== src/Tests/Cpus.antt =====
-- Runs for the collector of the processors.
use windows_exporter.Base.{
  ℕ, ◌+◌, ◌%◌, ◌^◌, ◌≡◌, refl, List, [], ◌∷◌, Option, none, some, arith, Str, codes, str_eq,
}
use windows_exporter.Errors.{Error, new_error}
use windows_exporter.Counter.{Floats, IsExact, sum}
use windows_exporter.Cpu.{CoreData, collect_core, new_collector, after}
use windows_exporter.Cpu.Totals.{rtc-collect_core}

-- A float that is exact.
abbrev exact : Floats ℕ
exact = record { of_nat = λ n. n; plus = λ a b. a + b; to_uint32 = λ n. n % 2 ^ 32 }

abbrev exact-IsExact : IsExact exact
exact-IsExact = record { plus_exact = λ a b h. refl; to_uint32_exact = λ n h. omega arith }

abbrev core : Str → ℕ → CoreData ℕ
core name reading = record { name = name; utility_rate = reading; performance = 0 }

-- Two scrapes of two cores, and a failed one between them.
abbrev scrapes : List (Option Error × List (CoreData ℕ))
scrapes =
    (none, core (codes "0,0") 4294967290 ∷ core (codes "0,1") 7 ∷ [])
    ∷ (some (new_error (codes "pdh")), [])
    ∷ (none, core (codes "0,1") 9 ∷ core (codes "0,0") 4294967295 ∷ [])
    ∷ []

-- The count of the first core wraps around.
rtc-collect_core_example :
    (collect_core exact (core (codes "0,0") 9) (after exact scrapes new_collector)).1.rtc
    ≡ sum (5 ∷ 10 ∷ [])
rtc-collect_core_example =
    rtc-collect_core exact 4294967290 (5 ∷ 10 ∷ []) scrapes (core (codes "0,0") 9) exact-IsExact
      (omega arith, (omega arith, tt)) (omega arith) refl
