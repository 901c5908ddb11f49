-- ===== src/Collection/Startup.antt =====
-- When `Build` of pkg/collector/collection.go lets the exporter start.
use windows_exporter.Base.{
  ◌≡◌, refl, true, not, List, [], ◌∷◌, Option, none, some, arith, Str, select, Map, All, ◌↔◌,
  Option-cases, inl, inr,
}
use windows_exporter.Errors.{Error}
use windows_exporter.Collection.{is_tolerated, build_errors, build_collectors}

module _ {ℓ} {C : Type ℓ} (build : C → Option Error) where
  -- The collector builds, or fails with an error that the start tolerates.
  abbrev pub Starts : Option Error → Type 0
  Starts none = Unit
  Starts (some err) = is_tolerated err ≡ true

  abbrev pub AllStart : Map Str C → Type 0
  AllStart m = All (λ entry. Starts (build entry.1)) m

  abbrev pub remaining : Map Str C → List Error
  remaining m = select (λ err. not (is_tolerated err)) (build_errors build m)

  AllStart-remaining : (m : Map Str C) → remaining m ≡ [] → AllStart m
  unfolding build_errors
  AllStart-remaining [] h = tt
  AllStart-remaining ((name, c) ∷ m) h = elim (Option-cases (build c)) [
    | inl e ↦ (rw e tt, AllStart-remaining m (ground arith))
    | inr (err, e) ↦ (rw e (ground arith), AllStart-remaining m (ground arith))
  ]

  remaining-AllStart : (m : Map Str C) → AllStart m → remaining m ≡ []
  unfolding build_errors
  remaining-AllStart [] h = refl
  remaining-AllStart ((name, c) ∷ m) h = ground (arith, remaining-AllStart m h.1)

  -- `Build` returns the nil error exactly when the MI session opens and each collector builds or
  -- fails with a tolerated error. In whatever order the goroutines end.
  pub build_collectors-AllStart :
      (init_mi : Option Error) (m : Map Str C)
      → (build_collectors build init_mi m ≡ []) ↔ ((init_mi ≡ none) × AllStart m)
  unfolding build_collectors
  build_collectors-AllStart none m =
      (λ h. (refl, AllStart-remaining m h), λ h. remaining-AllStart m h.1)
  build_collectors-AllStart (some err) m = (λ h. ground arith, λ h. ground arith)
