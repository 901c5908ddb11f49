-- ===== src/Startup/Served.antt =====
-- What the exporter serves once `run` has started it, and when it does not start.
use windows_exporter.Base.{
  ◌≡◌, refl, ap, ◌∙◌, not, ◌&&◌, List, [], ◌∷◌, Option, none, some, arith, ◌==◌, Str, str_eq,
  contains, lookup, if◌then◌else◌, Bool-cases, Option-cases, inl, inr,
}
use windows_exporter.Errors.{Error}
use windows_exporter.Collection.{Store, Collection, content, enable, disable, build_collectors}
use windows_exporter.Collection.Selection.{AllKnown, enable-AllKnown, lookup-enable, lookup-disable}
use windows_exporter.Collection.Startup.{AllStart, build_collectors-AllStart}
use windows_exporter.Startup.{
  split, compact, expand_enabled_collectors, PriorityCalls, set_priority_windows, Flags, ServerEnd,
  served, after_build, after_enabled, run,
}
use windows_exporter.Startup.Expand.{contains-compact}

abbrev pub disabled_names : Flags → List Str
disabled_names flags =
    if flags.disabled_collectors == [] then [] else split flags.disabled_collectors

module _ {ℓ} {C : Type ℓ} (build : C → Option Error) where
  -- The collectors that are enabled and not disabled, each as the exporter has it.
  abbrev pub Serves : Flags → Collection → Store C → Store C → Type ℓ
  Serves flags c s t =
      (k : Str)
      → lookup k (content t c) ≡ (
          if contains (expand_enabled_collectors flags.enabled_collectors) k
            && not (contains (disabled_names flags) k)
          then lookup k (content s c)
          else none)

  -- What holds of a start that is not refused.
  pub record Started (init_mi : Option Error) (flags : Flags) (c : Collection) (s t : Store C)
      : Type ℓ where
    pub all_known : AllKnown (expand_enabled_collectors flags.enabled_collectors) (content s c)
    pub serves : Serves flags c s t
    pub mi_ready : init_mi ≡ none
    pub all_start : AllStart build (content t c)

  after_build-served :
      (errs : List Error) (end e : ServerEnd) (s t : Store C)
      → after_build build errs end s ≡ (t, served e)
      → (errs ≡ []) × (s ≡ t)
  unfolding after_build
  after_build-served [] end e s t h = ground arith
  after_build-served (x ∷ errs) end e s t h = cc

  -- `Disable` behind the test of the flag.
  abbrev disabled : Flags → Collection → Store C → Store C
  disabled flags c s =
      if flags.disabled_collectors == []
      then s
      else disable c (compact (split flags.disabled_collectors)) s

  lookup-disabled :
      (flags : Flags) (c : Collection) (s : Store C) (k : Str)
      → lookup k (content (disabled flags c s) c)
        ≡ (if contains (disabled_names flags) k then none else lookup k (content s c))
  lookup-disabled flags c s k = elim (Bool-cases (flags.disabled_collectors == [])) [
    | inl e ↦ rw e
    | inr e ↦ rw e (
        lookup-disable c (compact (split flags.disabled_collectors)) s k
        ∙ ap (λ b. if b then none else lookup k (content s c))
            (contains-compact (split flags.disabled_collectors) k))
  ]

  after_enabled-Started :
      (init_mi : Option Error) (end e : ServerEnd) (flags : Flags) (c : Collection) (s t : Store C)
      (enabled : Store C × Option Error)
      → enable c (expand_enabled_collectors flags.enabled_collectors) s ≡ enabled
      → after_enabled build init_mi end flags c enabled ≡ (t, served e)
      → Started init_mi flags c s t
  unfolding after_enabled
  after_enabled-Started init_mi end e flags c s t (u, some err) g h = cc
  after_enabled-Started init_mi end e flags c s t (u, none) g h =
      let names = expand_enabled_collectors flags.enabled_collectors in
      let (built, same) =
        after_build-served (build_collectors build init_mi (content (disabled flags c u) c)) end e
          (disabled flags c u) t h in
      let ready =
        (build_collectors-AllStart build init_mi (content (disabled flags c u) c)).0 built in
      let no_error : (enable c names s).1 ≡ none = ap (λ (p : Store C × Option Error). p.1) g in
      record {
        all_known = (enable-AllKnown c names s).0 no_error;
        serves = λ k. rw (← same) (
            lookup-disabled flags c u k
            ∙ ground (
              arith,
              lookup-enable c names s no_error k,
              ap (λ (p : Store C × Option Error). p.0) g,
            ));
        mi_ready = ready.0;
        all_start = rw (← same) ready.1;
      }

  -- An exporter that starts to serve has known names only in its flag of enabled collectors. It serves
  -- the collectors that this flag names, less those that the flag of disabled collectors names, each as
  -- it was made and no other; the MI session is open, and each of them has been built or has failed
  -- with a tolerated error.
  pub run-Started :
      (parse log : Option Error) (calls : PriorityCalls) (init_mi : Option Error)
      (end e : ServerEnd) (flags : Flags) (c : Collection) (s t : Store C)
      → run build parse log calls init_mi end flags c s ≡ (t, served e)
      → Started init_mi flags c s t
  unfolding run
  run-Started (some x) log calls init_mi end e flags c s t h = cc
  run-Started none (some x) calls init_mi end e flags c s t h = cc
  run-Started none none calls init_mi end e flags c s t h =
      elim (Option-cases (set_priority_windows calls flags.process_priority)) [
        | inl g ↦ after_enabled-Started init_mi end e flags c s t _ refl (rw (g, run) at h)
        | inr (x, g) ↦ absurd (cc (rw (g, run) at h))
      ]
