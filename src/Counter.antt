-- ===== src/Counter.antt =====
-- internal/utils/counter.go: a total kept from readings of a 32-bit counter. The total is a float64:
-- its arithmetic is given, and exact only where `IsExact` says so.
use windows_exporter.Base.{ℕ, ◌+◌, ◌-◌, ◌%◌, ◌^◌, ◌<◌, ◌≡◌, refl, ap, List, [], ◌∷◌, arith, ◌∙◌}

abbrev pub two_32 : ℕ
two_32 = 2 ^ 32

-- Go's float64: the values of natural numbers, the sum, and the conversion to uint32.
pub record Floats (F : Type 0) : Type 0 where
  pub of_nat : ℕ → F
  pub plus : F → F → F
  pub to_uint32 : F → ℕ

-- IEEE 754 has the integers below 2^53 and their sums, and the conversion is that of the language for
-- what fits; about other values nothing is said.
pub record IsExact {F : Type 0} (floats : Floats F) : Type 0 where
  pub plus_exact :
      (a b : ℕ)
      → a + b < 2 ^ 53
      → floats.plus (floats.of_nat a) (floats.of_nat b) ≡ floats.of_nat (a + b)
  pub to_uint32_exact : (n : ℕ) → n < two_32 → floats.to_uint32 (floats.of_nat n) ≡ n

pub record Counter (F : Type 0) : Type 0 where
  pub last_value : ℕ
  pub total_value : F

abbrev pub sum : List ℕ → ℕ
sum [] = 0
sum (step ∷ steps) = step + sum steps

abbrev pub AllBelow : List ℕ → Type 0
AllBelow [] = Unit
AllBelow (step ∷ steps) = (step < two_32) × AllBelow steps

difference :
    (count step : ℕ)
    → step < two_32
    → ((count + step) % two_32 + two_32 - count % two_32) % two_32 ≡ step
difference count step h = omega arith

module _ {F : Type 0} (floats : Floats F) where
  unfoldable pub new_counter : ℕ → Counter F
  new_counter last_value = record { last_value = last_value; total_value = floats.of_nat 0 }

  -- `value - c.lastValue` on uint32.
  unfoldable pub add_value : Counter F → ℕ → Counter F
  add_value c value = record {
    total_value =
        floats.plus c.total_value (floats.of_nat ((value + two_32 - c.last_value) % two_32));
    last_value = value;
  }

  unfoldable pub value : Counter F → F
  value c = c.total_value

  -- The readings of a count that has grown by `steps`, each cut to 32 bits.
  abbrev pub add_readings : ℕ → List ℕ → Counter F → Counter F
  add_readings count [] c = c
  add_readings count (step ∷ steps) c =
      add_readings (count + step) steps (add_value c ((count + step) % two_32))

  value-add_readings_from :
      (count total : ℕ) (steps : List ℕ) (c : Counter F)
      → IsExact floats
      → AllBelow steps
      → c.last_value ≡ count % two_32
      → c.total_value ≡ floats.of_nat total
      → total + sum steps < 2 ^ 53
      → value (add_readings count steps c) ≡ floats.of_nat (total + sum steps)
  unfolding value add_value
  value-add_readings_from count total [] c x h e t b = t ∙ ap floats.of_nat (omega arith)
  value-add_readings_from count total (step ∷ steps) c x h e t b =
      let grown : floats.plus c.total_value
            (floats.of_nat (((count + step) % two_32 + two_32 - c.last_value) % two_32))
          ≡ floats.of_nat (total + step) =
        rw (t, e, difference count step h.0) (x.plus_exact total step (omega arith)) in
      value-add_readings_from (count + step) (total + step) steps
        (add_value c ((count + step) % two_32)) x h.1 refl grown (omega arith)
      ∙ ap floats.of_nat (omega arith)

  -- However often the counter wraps around, the value is what the count has grown by since the first
  -- reading, as long as it grows by less than 2^32 between two readings and by less than 2^53 in all.
  pub value-add_readings :
      (count : ℕ) (steps : List ℕ)
      → IsExact floats
      → AllBelow steps
      → sum steps < 2 ^ 53
      → value (add_readings count steps (new_counter (count % two_32))) ≡ floats.of_nat (sum steps)
  unfolding new_counter
  value-add_readings count steps x h b =
      value-add_readings_from count 0 steps (new_counter (count % two_32)) x h refl refl
        (omega arith)
      ∙ ap floats.of_nat (omega arith)
