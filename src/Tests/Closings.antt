-- ===== src/Tests/Closings.antt =====
-- Runs for the end of a collection. A collector is a number.
use windows_exporter.Base.{ℕ, ◌≡◌, refl, [], ◌∷◌, Option, none, some, Map, Str, codes, nat_eq}
use windows_exporter.Errors.{Error, new_error, cause_beq}
use windows_exporter.Collection.Closing.{
  Session, not_initialized, close_collection, close_errors, get_application, close_session,
  close_application, InitCalls, init_mi,
}

abbrev two : Map Str ℕ
two = (codes "cpu", 1) ∷ (codes "net", 2) ∷ []

abbrev closes : ℕ → Option Error
closes n = none

abbrev session : Session
session = record {
  get_application = not_initialized;
  close_session = none;
  close_application = some [];
}

-- The application that the session does not give is not closed.
no_errors : close_collection closes (some session) two ≡ []
unfolding close_collection close_errors get_application close_session close_application cause_beq
no_errors = refl

abbrev init_calls : InitCalls
init_calls = record {
  application = none;
  destination_options = none;
  locale = some (new_error (codes "locale"));
  timeout = some [];
  session = none;
}

-- The first error ends `initMI`.
locale_error : init_mi init_calls ≡ some (new_error (codes "locale"))
unfolding init_mi
locale_error = refl
