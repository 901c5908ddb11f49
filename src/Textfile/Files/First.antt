-- ===== src/Textfile/Files/First.antt =====
-- Of the files of one name only the first counts.
use windows_exporter.Base.{
  ℕ, ◌≡◌, refl, ◌∙◌, List, [], ◌∷◌, ◌++◌, Option, none, some, arith, Str, str_eq, eq_iff,
  if◌then◌else◌, Bool-cases, inl, inr, Map, lookup, lookup-insert, has_key,
}
use windows_exporter.Errors.{Result, ok, err}
use windows_exporter.Textfile.{MetricFamily}
use windows_exporter.Textfile.Files.{
  scrape_file, Visit, walk_error, entry, Collected, scrape_entry, is_prom, walk, walk_all, nothing,
}

-- What a name has already, or else what the files give it.
abbrev first_time : Str → Map Str ℕ → Map Str ℕ → Option ℕ
first_time name old new = elim (lookup name old) [ some t ↦ some t | none ↦ lookup name new ]

lookup-append : (name : Str) (xs ys : Map Str ℕ) → lookup name (xs ++ ys) ≡ first_time name xs ys
unfolding lookup
lookup-append name [] ys = refl
lookup-append name ((n, t) ∷ xs) ys = ground (arith, lookup-append name xs ys)

first_time-append :
    (name : Str) (old first later : Map Str ℕ) (mid : Map Str ℕ)
    → lookup name mid ≡ first_time name old first
    → first_time name mid later ≡ first_time name old (first ++ later)
first_time-append name old first later mid h = ground (arith, lookup-append name first later)

-- The files that are read without an error, by name, with their times, in the order of the walk.
module _ {V : Type 0} where
  abbrev pub good_file : Result (List (MetricFamily V)) → Result (Str × ℕ) → Option (Str × ℕ)
  good_file (ok families) (ok stat) = some stat
  good_file _ _ = none

  pub good_files : List (Visit V) → Map Str ℕ
  good_files [] = []
  good_files (walk_error e ∷ rest) = []
  good_files (entry path name is_dir content stat ∷ rest) =
      let later = good_files rest in
      if is_prom name is_dir
      then (elim (good_file (scrape_file path content) stat) [
        | none ↦ later
        | some file ↦ file ∷ later
      ])
      else later

  pub all_good_files : List (Str × List (Visit V)) → Map Str ℕ
  all_good_files [] = []
  all_good_files ((directory, visits) ∷ rest) = good_files visits ++ all_good_files rest

  entry-first_time :
      (name : Str) (scraped : Result (List (MetricFamily V))) (stat : Result (Str × ℕ))
      (c : Collected V) (rest : Map Str ℕ)
      → first_time name (scrape_entry scraped stat c).mtimes rest
        ≡ first_time name c.mtimes
            (elim (good_file scraped stat) [ none ↦ rest | some file ↦ file ∷ rest ])
  unfolding scrape_entry has_key lookup
  entry-first_time name (err e) stat c rest = refl
  entry-first_time name (ok families) (err e) c rest = refl
  entry-first_time name (ok families) (ok (n, t)) c rest =
      ground (arith, lookup-insert n name t c.mtimes, eq_iff n name)

  walk-first_time :
      (name directory : Str) (visits : List (Visit V)) (c : Collected V)
      → lookup name (walk directory visits c).mtimes ≡ first_time name c.mtimes (good_files visits)
  unfolding walk good_files
  walk-first_time name directory [] c = unfold lookup in ground arith
  walk-first_time name directory (walk_error e ∷ rest) c = unfold lookup in ground arith
  walk-first_time name directory (entry path file is_dir content stat ∷ rest) c =
      elim (Bool-cases (is_prom file is_dir)) [
        | inl h ↦
            rw (h, walk, good_files)
              (walk-first_time name directory rest (scrape_entry (scrape_file path content) stat c)
                ∙ entry-first_time name (scrape_file path content) stat c (good_files rest))
        | inr h ↦ rw (h, walk, good_files) (walk-first_time name directory rest c)
      ]

  walk_all-first_time :
      (name : Str) (directories : List (Str × List (Visit V))) (c : Collected V)
      → lookup name (walk_all directories c).mtimes
        ≡ first_time name c.mtimes (all_good_files directories)
  unfolding walk_all all_good_files
  walk_all-first_time name [] c = unfold lookup in ground arith
  walk_all-first_time name ((directory, visits) ∷ rest) c =
      walk_all-first_time name rest (walk directory visits c)
      ∙ first_time-append name c.mtimes (good_files visits) (all_good_files rest) _
          (walk-first_time name directory visits c)

  -- Over all directories, a file name has the time of the first file of that name that is read without
  -- an error before an error ends the walk of its directory. Other names have none.
  pub lookup-walk_all :
      (name : Str) (directories : List (Str × List (Visit V)))
      → lookup name (walk_all directories nothing).mtimes ≡ lookup name (all_good_files directories)
  lookup-walk_all name directories =
      walk_all-first_time name directories nothing ∙ unfold lookup in refl
