-- ===== src/SubCollectors/Mssql/Rows.antt =====
-- The instances of a server and what `collect` reports for each.
use windows_exporter.Base.{
  ℕ, ◌≡◌, ◌↔◌, ◌⊎◌, inl, inr, refl, ap, Bool, true, false, [], ◌∷◌, ◌++◌, Option, none, some, arith,
  ◌==◌, nat_eq, Str, str_eq, codes, Map, lookup, All, if◌then◌else◌, Bool-cases,
}
use mathlib.Core.Option
use mathlib.Core.List.{append_cancel_left, append_cancel_right}
use windows_exporter.Errors.{Error}
use windows_exporter.SubCollectors.Mssql.{
  MssqlInstance, mssql_get_perf_object_name, is_failure, collect_instances,
}

abbrev first_byte : Str → ℕ
first_byte [] = 0
first_byte (c ∷ s) = c

abbrev prefix : Bool → Str → Str
prefix is_first name = if is_first then codes "SQLServer:" else codes "MSSQL$" ++ name ++ codes ":"

prefix-same :
    (f g : Bool) (a b : Str)
    → prefix f a ≡ prefix g b
    → ((f ≡ true) × (g ≡ true)) ⊎ ((f ≡ false) × (g ≡ false) × (a ≡ b))
prefix-same true true a b h = inl (refl, refl)
prefix-same true false a b h = let e : Path ℕ b'S' b'M' = ap first_byte h in absurd (omega arith)
prefix-same false true a b h = let e : Path ℕ b'M' b'S' = ap first_byte h in absurd (omega arith)
prefix-same false false a b h = inr (
  refl,
  refl,
  append_cancel_right a b (codes ":")
      (append_cancel_left (codes "MSSQL$") (a ++ codes ":") (b ++ codes ":") h),
)

-- Two instances have the same performance object for a sub-collector only if both are the default
-- instance, or neither is and they have the same name.
mssql_get_perf_object_name-same :
    (a b : MssqlInstance) (collector : Str)
    → mssql_get_perf_object_name a collector ≡ mssql_get_perf_object_name b collector
    → ((a.is_first_instance ≡ true) × (b.is_first_instance ≡ true))
      ⊎ ((a.is_first_instance ≡ false) × (b.is_first_instance ≡ false) × (a.name ≡ b.name))
unfolding mssql_get_perf_object_name
mssql_get_perf_object_name-same a b collector h =
    prefix-same a.is_first_instance b.is_first_instance a.name b.name (
      append_cancel_right (prefix a.is_first_instance a.name) (prefix b.is_first_instance b.name)
        collector h)

All-errors :
    (collector : Str) (answers : Map Str (Option Error))
    → ((collect_instances collector answers).1 ≡ []) ↔ All (λ row. is_failure row.1 ≡ false) answers
unfolding collect_instances is_failure
All-errors collector [] = ground arith
All-errors collector ((n, none) ∷ rest) = ground (arith, All-errors collector rest)
All-errors collector ((n, some e) ∷ rest) = elim (Bool-cases (is_failure (some e))) [
  | inl f ↦ rw f (ground arith)
  | inr f ↦ rw f (ground (arith, All-errors collector rest))
]

lookup-sent :
    (collector : Str) (answers : Map Str (Option Error)) (name : Str)
    → (collector == []) ≡ false
    → lookup name (collect_instances collector answers).0
      ≡ Option.map (λ answer. if is_failure answer then 0 else 1) (lookup name answers)
unfolding collect_instances lookup
lookup-sent collector [] name h = refl
lookup-sent collector ((n, answer) ∷ rest) name h = rw h (elim (Bool-cases (n == name)) [
  | inl e ↦ rw e refl
  | inr e ↦ rw e (lookup-sent collector rest name h)
])

-- A sub-collector returns no error exactly when every instance answers without one or that it has
-- no data, and where it has a name it reports for each instance whether that is so.
pub sent-collect_instances :
    (collector : Str) (answers : Map Str (Option Error))
    → let r = collect_instances collector answers in
      ((r.1 ≡ []) ↔ All (λ row. is_failure row.1 ≡ false) answers)
      × ((collector == []) ≡ false
          → (name : Str)
          → lookup name r.0
            ≡ Option.map (λ answer. if is_failure answer then 0 else 1) (lookup name answers))
sent-collect_instances collector answers =
    (All-errors collector answers, λ h name. lookup-sent collector answers name h)
