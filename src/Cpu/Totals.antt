-- ===== src/Cpu/Totals.antt =====
-- The value that is sent for a core is what its count has grown by since the first scrape that
-- showed it.
use windows_exporter.Base.{
  ℕ, ◌+◌, ◌%◌, ◌≡◌, refl, ap, sym, ◌∙◌, List, [], ◌∷◌, ◌++◌, Option, none, some, arith, ◌<◌, ◌^◌,
  ◌==◌, nat_eq, Str, str_eq, lookup, lookup-insert, eq_iff, if◌then◌else◌, Bool-cases, inl, inr,
}
use windows_exporter.Errors.{Error}
use windows_exporter.Counter.{
  Counter, Floats, IsExact, two_32, new_counter, add_value, value, add_readings, sum, AllBelow,
  value-add_readings,
}
use windows_exporter.Cpu.{
  CoreData, Collector, next_counter, collect_core, collect_cores, collect, new_collector, after,
}

module _ {F : Type 0} (floats : Floats F) where
  -- The readings of a core, in the order of the rows.
  abbrev pub readings : Str → List (CoreData F) → List F
  readings core [] = []
  readings core (row ∷ rows) =
      let later = readings core rows in if row.name == core then row.utility_rate ∷ later else later

  -- The rows of the scrapes that did not fail.
  abbrev pub all_rows : List (Option Error × List (CoreData F)) → List (CoreData F)
  all_rows [] = []
  all_rows ((some e, rows) ∷ scrapes) = all_rows scrapes
  all_rows ((none, rows) ∷ scrapes) = rows ++ all_rows scrapes

  abbrev count_readings : List F → Option (Counter F) → Option (Counter F)
  count_readings [] c = c
  count_readings (r ∷ rs) c = count_readings rs (some (next_counter floats c r))

  abbrev rtc : Str → Collector F → Option (Counter F)
  rtc core c = lookup core c.processor_rtc_values

  rtc-collect_cores :
      (core : Str) (rows : List (CoreData F)) (c : Collector F)
      → rtc core (collect_cores floats rows c).0 ≡ count_readings (readings core rows) (rtc core c)
  unfolding collect_cores collect_core
  rtc-collect_cores core [] c = refl
  rtc-collect_cores core (row ∷ rows) c =
      rtc-collect_cores core rows (collect_core floats row c).0
      ∙ elim (Bool-cases (row.name == core)) [
        | inl e ↦
            rw
              (
                lookup-insert row.name core
                    (next_counter floats (lookup row.name c.processor_rtc_values) row.utility_rate)
                    c.processor_rtc_values,
                e,
              )
              (ap
                (λ k.
                  count_readings (readings core rows)
                    (some (next_counter floats (lookup k c.processor_rtc_values) row.utility_rate)))
                ((eq_iff row.name core).0 e))
        | inr e ↦
            rw
              (
                lookup-insert row.name core
                    (next_counter floats (lookup row.name c.processor_rtc_values) row.utility_rate)
                    c.processor_rtc_values,
                e,
              )
              refl
      ]

  readings-append :
      (core : Str) (xs ys : List (CoreData F))
      → readings core (xs ++ ys) ≡ readings core xs ++ readings core ys
  readings-append core [] ys = refl
  readings-append core (x ∷ xs) ys = elim (Bool-cases (x.name == core)) [
    | inl e ↦ rw e (ap (λ l. x.utility_rate ∷ l) (readings-append core xs ys))
    | inr e ↦ rw e (readings-append core xs ys)
  ]

  count_readings-append :
      (rs ss : List F) (o : Option (Counter F))
      → count_readings (rs ++ ss) o ≡ count_readings ss (count_readings rs o)
  count_readings-append [] ss o = refl
  count_readings-append (r ∷ rs) ss o = count_readings-append rs ss (some (next_counter floats o r))

  rtc-after :
      (core : Str) (scrapes : List (Option Error × List (CoreData F))) (c : Collector F)
      → rtc core (after floats scrapes c)
        ≡ count_readings (readings core (all_rows scrapes)) (rtc core c)
  unfolding after collect
  rtc-after core [] c = refl
  rtc-after core ((some e, rows) ∷ scrapes) c = rtc-after core scrapes c
  rtc-after core ((none, rows) ∷ scrapes) c =
      rtc-after core scrapes (collect_cores floats rows c).0
      ∙ ap (count_readings (readings core (all_rows scrapes))) (rtc-collect_cores core rows c)
      ∙ sym (
          count_readings-append (readings core rows) (readings core (all_rows scrapes))
            (rtc core c))
      ∙ ap (λ l. count_readings l (rtc core c)) (sym (readings-append core rows (all_rows scrapes)))

  -- A count that has grown by `steps`.
  abbrev pub counts : ℕ → List ℕ → List F
  counts count [] = []
  counts count (step ∷ steps) =
      floats.of_nat ((count + step) % two_32) ∷ counts (count + step) steps

  count_readings-counts :
      (count : ℕ) (steps : List ℕ) (c : Counter F)
      → IsExact floats
      → count_readings (counts count steps) (some c) ≡ some (add_readings floats count steps c)
  unfolding next_counter
  count_readings-counts count [] c x = refl
  count_readings-counts count (step ∷ steps) c x =
      ap (λ n. count_readings (counts (count + step) steps) (some (add_value floats c n)))
        (x.to_uint32_exact ((count + step) % two_32) (omega arith))
      ∙ count_readings-counts (count + step) steps (add_value floats c ((count + step) % two_32)) x

  abbrev value_or : Option (Counter F) → F
  value_or none = floats.of_nat 0
  value_or (some c) = value floats c

  -- The row of a core, behind any scrapes of which some may fail, is sent with what the count of the
  -- core has grown by since its first row, whatever the rows of other cores are and however often the
  -- 32 bits wrap around, if the readings are the count cut to 32 bits, the count grows by less than
  -- 2^32 between two rows and by less than 2^53 in all, and float64 is exact there.
  pub rtc-collect_core :
      (first : ℕ) (steps : List ℕ) (scrapes : List (Option Error × List (CoreData F)))
      (row : CoreData F)
      → IsExact floats
      → AllBelow steps
      → sum steps < 2 ^ 53
      → readings row.name (all_rows scrapes) ++ row.utility_rate ∷ []
        ≡ floats.of_nat (first % two_32) ∷ counts first steps
      → (collect_core floats row (after floats scrapes new_collector)).1.rtc
        ≡ floats.of_nat (sum steps)
  unfolding collect_core new_collector lookup next_counter
  rtc-collect_core first steps scrapes row x h b e =
      let c = after floats scrapes new_collector in
      let behind : rtc row.name c ≡ count_readings (readings row.name (all_rows scrapes)) none =
        rtc-after row.name scrapes new_collector in
      ap (λ o. value_or (some (next_counter floats o row.utility_rate))) behind
      ∙ ap value_or (
          sym (
            count_readings-append (readings row.name (all_rows scrapes)) (row.utility_rate ∷ [])
              none)
          ∙ ap (λ l. count_readings l none) e
          ∙ ap (λ n. count_readings (counts first steps) (some (new_counter floats n)))
              (x.to_uint32_exact (first % two_32) (omega arith))
          ∙ count_readings-counts first steps (new_counter floats (first % two_32)) x)
      ∙ value-add_readings floats first steps x h b
