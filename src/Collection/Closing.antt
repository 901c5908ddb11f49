-- ===== src/Collection/Closing.antt =====
-- `initMI` and `Close` of pkg/collector/collection.go, with `GetApplication` and the `Close` methods of internal/mi on a
-- session and an application that can be nil. What the calls of MI answer is given.
use windows_exporter.Base.{
  ◌≡◌, refl, true, List, [], ◌∷◌, ◌++◌, Option, none, some, Str, Map, All, if◌then◌else◌, ◌↔◌,
  Bool-cases, Option-cases, inl, inr,
}
use windows_exporter.Errors.{Error, is, mi_not_initialized, cause_beq}

-- The answers of the calls of `initMI`, in their order.
pub record InitCalls : Type 0 where
  pub application : Option Error
  pub destination_options : Option Error
  pub locale : Option Error
  pub timeout : Option Error
  pub session : Option Error

abbrev pub first_error : List (Option Error) → Option Error
first_error [] = none
first_error (some e ∷ rest) = some e
first_error (none ∷ rest) = first_error rest

unfoldable pub init_mi : InitCalls → Option Error
init_mi i =
    first_error (i.application ∷ i.destination_options ∷ i.locale ∷ i.timeout ∷ i.session ∷ [])

-- The answers of the calls on a session that is not nil, and on the application that it gives.
pub record Session : Type 0 where
  pub get_application : Option Error
  pub close_session : Option Error
  pub close_application : Option Error

abbrev pub not_initialized : Option Error
not_initialized = some (mi_not_initialized ∷ [])

-- Methods on nil return ErrNotInitialized.
unfoldable pub get_application : Option Session → Option Error
get_application none = not_initialized
get_application (some s) = s.get_application

unfoldable pub close_session : Option Session → Option Error
close_session none = not_initialized
close_session (some s) = s.close_session

-- The application is nil where `GetApplication` has failed.
unfoldable pub close_application : Option Session → Option Error
close_application none = not_initialized
close_application (some s) = elim s.get_application [
  | none ↦ s.close_application
  | some e ↦ not_initialized
]

abbrev pub unless_not_initialized : Option Error → List Error
unless_not_initialized none = []
unless_not_initialized (some e) = if is e mi_not_initialized then [] else e ∷ []

abbrev pub errors_of : Option Error → List Error
errors_of none = []
errors_of (some e) = e ∷ []

module _ {ℓ} {C : Type ℓ} (close : C → Option Error) where
  unfoldable pub close_errors : Map Str C → List Error
  close_errors [] = []
  close_errors ((name, c) ∷ m) = errors_of (close c) ++ close_errors m

  -- The errors that `Close` joins.
  unfoldable pub close_collection : Option Session → Map Str C → List Error
  close_collection session m =
      close_errors m
      ++ (unless_not_initialized (get_application session)
          ++ (unless_not_initialized (close_session session)
              ++ unless_not_initialized (close_application session)))

-- No error but ErrNotInitialized.
abbrev pub Quiet : Option Error → Type 0
Quiet none = Unit
Quiet (some e) = is e mi_not_initialized ≡ true

-- A session that closes; where it gives no application, none is closed.
abbrev pub Closes : Option Session → Type 0
Closes none = Unit
Closes (some s) =
    Quiet s.get_application
    × Quiet s.close_session
    × (s.get_application ≡ none → Quiet s.close_application)

append-empty {ℓ} : {A : Type ℓ} (xs ys : List A) → (xs ++ ys ≡ []) ↔ ((xs ≡ []) × (ys ≡ []))
append-empty [] ys = (λ h. (refl, h), λ h. h.1)
append-empty (x ∷ xs) ys = (λ h. cc, λ h. cc (h.0))

unless_not_initialized-Quiet : (o : Option Error) → (unless_not_initialized o ≡ []) ↔ Quiet o
unless_not_initialized-Quiet none = (λ h. tt, λ h. refl)
unless_not_initialized-Quiet (some e) = elim (Bool-cases (is e mi_not_initialized)) [
  | inl g ↦ rw g (λ h. refl, λ h. refl)
  | inr g ↦ rw g (λ h. cc, λ h. cc)
]

not_initialized-Quiet : Quiet not_initialized
unfolding cause_beq
not_initialized-Quiet = refl

-- `Close` of an application that may be missing.
close_application-Quiet :
    (s : Session)
    → Quiet (close_application (some s)) ↔ (s.get_application ≡ none → Quiet s.close_application)
unfolding close_application
close_application-Quiet s = elim (Option-cases s.get_application) [
  | inl g ↦ rw (g, close_application) (λ q h. q, λ q. q refl)
  | inr (e, g) ↦ rw (g, close_application) (λ q h. absurd (cc), λ q. not_initialized-Quiet)
]

-- What the calls of MI add to the errors.
abbrev mi_errors : Option Session → List Error
mi_errors session =
    unless_not_initialized (get_application session)
    ++ (unless_not_initialized (close_session session)
        ++ unless_not_initialized (close_application session))

mi_errors-Closes : (session : Option Session) → (mi_errors session ≡ []) ↔ Closes session
unfolding get_application close_session
mi_errors-Closes none = (λ h. tt, λ h. unfold cause_beq close_application in refl)
mi_errors-Closes (some s) =
    let got = unless_not_initialized s.get_application in
    let closed = unless_not_initialized s.close_session in
    let ended = unless_not_initialized (close_application (some s)) in
    (
      λ h.
          let (a, b) = (append-empty got (closed ++ ended)).0 h in
          let (c, d) = (append-empty closed ended).0 b in
          (
            (unless_not_initialized-Quiet s.get_application).0 a,
            (unless_not_initialized-Quiet s.close_session).0 c,
            (close_application-Quiet s).0
                ((unless_not_initialized-Quiet (close_application (some s))).0 d),
          ),
      λ q. (append-empty got (closed ++ ended)).1 (
        (unless_not_initialized-Quiet s.get_application).1 q.0,
        (append-empty closed ended).1 (
          (unless_not_initialized-Quiet s.close_session).1 q.1,
          (unless_not_initialized-Quiet (close_application (some s))).1
              ((close_application-Quiet s).1 q.2),
        ),
      ),
    )

module _ {ℓ} {C : Type ℓ} (close : C → Option Error) where
  abbrev pub AllClose : Map Str C → Type 0
  AllClose m = All (λ entry. close entry.1 ≡ none) m

  close_errors-AllClose : (m : Map Str C) → (close_errors close m ≡ []) ↔ AllClose m
  unfolding close_errors
  close_errors-AllClose [] = (λ h. tt, λ h. refl)
  close_errors-AllClose ((name, c) ∷ m) = elim (Option-cases (close c)) [
    | inl g ↦
        rw (g, close_errors)
          (λ h. (refl, (close_errors-AllClose m).0 h), λ q. (close_errors-AllClose m).1 q.1)
    | inr (e, g) ↦ rw (g, close_errors) (λ h. cc, λ q. cc (q.0))
  ]

  -- `Close` returns no error exactly when every collector closes without one and, if there is a session, asking it
  -- for its application, closing it, and closing the application that it gives return no error but the one
  -- for what is not initialized. So a collection whose session was never opened can be closed.
  close_collection-AllClose :
      (session : Option Session) (m : Map Str C)
      → (close_collection close session m ≡ []) ↔ (AllClose m × Closes session)
  unfolding close_collection
  close_collection-AllClose session m =
      let split = append-empty (close_errors close m) (mi_errors session) in
      (
        λ h.
            let (a, b) = split.0 h in
            ((close_errors-AllClose m).0 a, (mi_errors-Closes session).0 b),
        λ q. split.1 ((close_errors-AllClose m).1 q.0, (mi_errors-Closes session).1 q.1),
      )
