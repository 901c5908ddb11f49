-- ===== src/Startup.antt =====
-- cmd/windows_exporter/main.go: `run`, from the flags that have been parsed to the exit code, and
-- `expandEnabledCollectors`. What parsing, the logger, the calls of Windows, the collectors' `Build` and the
-- HTTP server answer is given.
pub mod Expand
pub mod Served
use windows_exporter.Base.{
  ℕ, zero, suc, ◌+◌, ◌-◌, ◌≡◌, Bool, true, false, not, ◌&&◌, ◌||◌, List, [], ◌∷◌, ◌++◌, Option,
  none, some, arith, ◌==◌, nat_eq, nat_beq, Str, str_eq, codes, length, cut_prefix, Map, lookup,
  if◌then◌else◌,
}
use windows_exporter.Errors.{Error}
use windows_exporter.Collection.{Store, Collection, content, enable, disable, build_collectors}

abbrev pub default_collectors : Str
default_collectors = codes "cpu,memory,logical_disk,physical_disk,net,os,service,system"

abbrev pub defaults_place : Str
defaults_place = codes "[defaults]"

unfoldable pub has_prefix : Str → Str → Bool
has_prefix s p = elim (cut_prefix s p) [ none ↦ false | some rest ↦ true ]

-- strings.ReplaceAll for a text that is not empty; the first argument counts the bytes of an occurrence that
-- are still to be passed over.
unfoldable pub replace_all : ℕ → Str → Str → Str → Str
replace_all skip old new [] = []
replace_all (suc skip) old new (c ∷ s) = replace_all skip old new s
replace_all zero old new (c ∷ s) =
    let found = new ++ replace_all (length old - 1) old new s in
    let other = c ∷ replace_all zero old new s in if has_prefix (c ∷ s) old then found else other

abbrev pub cons_first : ℕ → List Str → List Str
cons_first c [] = (c ∷ []) ∷ []
cons_first c (s ∷ parts) = (c ∷ s) ∷ parts

-- strings.Split at commas
unfoldable pub split : Str → List Str
split [] = [] ∷ []
split (c ∷ s) = let rest = split s in if nat_beq c b',' then [] ∷ rest else cons_first c rest

-- slices.Compact
unfoldable pub compact : List Str → List Str
compact [] = []
compact (s ∷ []) = s ∷ []
compact (s ∷ t ∷ rest) = let later = compact (t ∷ rest) in if s == t then later else s ∷ later

unfoldable pub expand_enabled_collectors : Str → List Str
expand_enabled_collectors enabled =
    compact (split (replace_all zero defaults_place default_collectors enabled))

abbrev pub normal_priority_class : ℕ
normal_priority_class = 0x20

-- The values of `priorityStringToInt`.
unfoldable pub priority_class : Str → Option ℕ
priority_class priority =
    if priority == codes "realtime"
    then some 0x100
    else if priority == codes "high"
    then some 0x80
    else if priority == codes "abovenormal"
    then some 0x8000
    else if priority == codes "normal"
    then some normal_priority_class
    else if priority == codes "belownormal"
    then some 0x4000
    else if priority == codes "low"
    then some 0x40
    else none

-- What OpenProcess, SetPriorityClass and CloseHandle answer.
pub record PriorityCalls : Type 0 where
  pub open_process : Option Error
  pub set_priority_class : ℕ → Option Error
  pub close_handle : Option Error

-- The first error of two calls one after the other.
abbrev pub or_error : Option Error → Option Error → Option Error
or_error (some e) later = some e
or_error none later = later

unfoldable pub set_priority_windows : PriorityCalls → Str → Option Error
set_priority_windows calls priority = elim (priority_class priority) [
  | none ↦ none
  | some class ↦
      if class == normal_priority_class
      then none
      else or_error calls.open_process
          (or_error (calls.set_priority_class class) calls.close_handle)
]

-- The values of the flags that `run` reads after parsing.
pub record Flags : Type 0 where
  pub enabled_collectors : Str
  pub disabled_collectors : Str
  pub process_priority : Str

-- How the server ends: by a signal, by the service manager, by an error, or closed.
pub data ServerEnd : Type 0 where
  killed stopped closed : ServerEnd
  failed : Error → ServerEnd

pub data Exit : Type 0 where
  -- before the server has started
  refused : Exit
  -- a panic
  crashed : Exit
  served : ServerEnd → Exit

-- `return 1` or `return 0`; a panic returns nothing.
unfoldable pub exit_code : Exit → Option ℕ
exit_code refused = some 1
exit_code crashed = none
exit_code (served (failed e)) = some 1
exit_code (served _) = some 0

module _ {ℓ} {C : Type ℓ} (build : C → Option Error) where
  after_build : List Error → ServerEnd → Store C → Store C × Exit
  after_build [] end s = (s, served end)
  after_build (e ∷ errs) end s = (s, refused)

  -- The part of `run` behind `Enable`.
  after_enabled :
      Option Error → ServerEnd → Flags → Collection → Store C × Option Error → Store C × Exit
  unfolding after_build
  after_enabled init_mi end flags c (s, some e) = (s, refused)
  after_enabled init_mi end flags c (s, none) =
      let t =
        if flags.disabled_collectors == []
        then s
        else disable c (compact (split flags.disabled_collectors)) s in
      after_build (build_collectors build init_mi (content t c)) end t

  -- `run`, with the results of `config.Parse` and `log.New`, and what `initMI` returns. The
  -- logger is nil beside an error, and its method panics.
  unfoldable pub run :
      Option Error
      → Option Error
      → PriorityCalls
      → Option Error
      → ServerEnd
      → Flags
      → Collection
      → Store C
      → Store C × Exit
  unfolding after_enabled
  run (some e) log calls init_mi end flags c s = (s, refused)
  run none (some e) calls init_mi end flags c s = (s, crashed)
  run none none calls init_mi end flags c s =
      elim (set_priority_windows calls flags.process_priority) [
        | some e ↦ (s, refused)
        | none ↦
            after_enabled init_mi end flags c
              (enable c (expand_enabled_collectors flags.enabled_collectors) s)
      ]
