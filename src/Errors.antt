-- ===== src/Errors.antt =====
-- Go's `error` values, as `errors.Is` sees them: internal/pdh/error.go, internal/types/errors.go and the
-- sentinels of other packages that pkg/collector compares with. An error is the chain of the values
-- that it wraps, outermost first; `fmt.Errorf("… %w", err)` keeps the chain, and message texts, which
-- no code compares, are left out.
use windows_exporter.Base.{
  ℕ, ◌≡◌, ◌↔◌, Bool, true, false, List, [], ◌∷◌, arith, Eq, nat_beq, contains, Str, str_beq,
  str_beq_iff,
}

pub data Cause : Type 0 where
  -- *pdh.Error with its code, mi.MIResult with its code
  pdh_error mi_result : ℕ → Cause
  -- types.ErrNoData, windows.EPT_S_NOT_REGISTERED, registry.ErrNotExist
  no_data ept_s_not_registered registry_not_exist : Cause
  -- pdh.ErrPerformanceCounterNotInitialized, mi.ErrNotInitialized
  counter_not_initialized mi_not_initialized : Cause
  -- errors.New(text), and errors of other packages
  other : Str → Cause

-- Two `*pdh.Error` match if their codes are equal (`Error.Is`); other values match themselves.
unfoldable pub cause_beq : Cause → Cause → Bool
cause_beq (pdh_error a) (pdh_error b) = nat_beq a b
cause_beq (mi_result a) (mi_result b) = nat_beq a b
cause_beq no_data no_data = true
cause_beq ept_s_not_registered ept_s_not_registered = true
cause_beq registry_not_exist registry_not_exist = true
cause_beq counter_not_initialized counter_not_initialized = true
cause_beq mi_not_initialized mi_not_initialized = true
cause_beq (other s) (other t) = str_beq s t
cause_beq _ _ = false

pub cause_beq_iff : (a b : Cause) → (cause_beq a b ≡ true) ↔ (a ≡ b)
unfolding cause_beq
cause_beq_iff (other s) (other t) = ground (arith, str_beq_iff s t)
cause_beq_iff (pdh_error a) (pdh_error b) = ground arith
cause_beq_iff _ _ = ground arith

instance abbrev pub cause_eq : Eq Cause
cause_eq = record { equals = cause_beq; equals_iff = cause_beq_iff }

abbrev pub Error : Type 0
Error = List Cause

-- errors.Is(err, target)
abbrev pub is : Error → Cause → Bool
is err target = contains err target

-- errors.New(text)
abbrev pub new_error : Str → Error
new_error text = other text ∷ []

-- What a call returns: a value, or an error.
pub data Result {ℓ} (A : Type ℓ) : Type ℓ where
  ok : A → Result A
  err : Error → Result A

-- The rest of a function behind `if err != nil { return err }`.
infixl 5 ◌>>=◌
abbrev pub ◌>>=◌ {ℓ κ} : {A : Type ℓ} {B : Type κ} → Result A → (A → Result B) → Result B
ok a >>= f = f a
err e >>= f = err e
