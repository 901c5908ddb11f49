-- ===== src/Textfile/Files.antt =====
-- `scrapeFile`, `Collect` and `exportMTimes` of textfile.go. What the file system, the BOM reader and
-- the text parser answer is given with each file.
pub mod First
pub mod Scraped
use windows_exporter.Base.{
  ℕ, suc, ◌+◌, ◌/◌, ◌≤◌, ◌≡◌, refl, ap, ◌∙◌, sym, Bool, true, false, not, ◌&&◌, ◌||◌, List, [], ◌∷◌,
  ◌++◌, map, Option, none, some, arith, ◌==◌, Str, str_eq, eq_iff, eq_refl, length, length-append,
  if◌then◌else◌, Bool-cases, inl, inr, codes, has_suffix, Map, lookup, insert, lookup-insert,
  has_key, Distinct, Distinct-insert, keys, append-nil, append_assoc,
}
use windows_exporter.Errors.{Error, Result, ok, err, new_error}
use windows_exporter.Textfile.{Metric, MetricFamily}
use windows_exporter.Textfile.Duplicates.{duplicate_metric_entry}
use windows_exporter.Textfile.Labels.{Series, convert_metric_family}

-- utfbom.Encoding, as far as `checkBOM` tells encodings apart.
pub data Encoding : Type 0 where
  unknown utf8 : Encoding
  other_encoding : Str → Encoding

-- What a file gives: opened or not, its encoding, and what the parser makes of its text.
pub record Content (V : Type 0) : Type 0 where
  pub opened : Option Error
  pub encoding : Encoding
  pub parsed : Result (List (MetricFamily V))

unfoldable pub check_bom : Encoding → Option Error
check_bom unknown = none
check_bom utf8 = none
check_bom (other_encoding text) = some (new_error text)

abbrev pub is_some {ℓ} : {A : Type ℓ} → Option A → Bool
is_some none = false
is_some (some a) = true

unfoldable pub is_prom : Str → Bool → Bool
is_prom name is_dir = not is_dir && has_suffix name (codes ".prom")

-- One call of the function that `filepath.WalkDir` makes: with an error, or with an entry, the
-- content of its file and what `os.Stat` answers (the base name and the time of the last change).
pub data Visit (V : Type 0) : Type 0 where
  walk_error : Error → Visit V
  entry : Str → Str → Bool → Content V → Result (Str × ℕ) → Visit V

pub record Collected (V : Type 0) : Type 0 where
  pub mtimes : Map Str ℕ
  pub families : List (MetricFamily V)
  pub errs : List Error

module _ {V : Type 0} where
  unfoldable pub has_timestamp : List (Metric V) → Bool
  has_timestamp [] = false
  has_timestamp (m ∷ rest) = is_some m.timestamp || has_timestamp rest

  -- The loop over the parsed families: a timestamp ends it, and a missing help text is filled in.
  fill_help : Str → MetricFamily V → MetricFamily V
  fill_help path family = record family {
    help = elim family.help [
      | some help ↦ some help
      | none ↦ some (codes "Metric read from " ++ path)
    ];
  }

  prepend : MetricFamily V → Result (List (MetricFamily V)) → Result (List (MetricFamily V))
  prepend family (err e) = err e
  prepend family (ok families) = ok (family ∷ families)

  unfoldable pub check_families : Str → List (MetricFamily V) → Result (List (MetricFamily V))
  unfolding fill_help prepend
  check_families path [] = ok []
  check_families path (family ∷ rest) =
      let later = check_families path rest in
      if has_timestamp family.metrics
      then err (new_error (codes "textfile contains unsupported client-side timestamps"))
      else prepend (fill_help path family) later

  -- Behind the loop: duplicates in a single file make the file an error.
  reject_duplicates : Result (List (MetricFamily V)) → Result (List (MetricFamily V))
  reject_duplicates (err e) = err e
  reject_duplicates (ok families) =
      if duplicate_metric_entry families
      then err (new_error (codes "duplicate metrics detected"))
      else ok families

  check_parsed : Str → Result (List (MetricFamily V)) → Result (List (MetricFamily V))
  unfolding reject_duplicates
  check_parsed path (err e) = err e
  check_parsed path (ok families) = reject_duplicates (check_families path families)

  unfoldable pub scrape_file : Str → Content V → Result (List (MetricFamily V))
  unfolding check_parsed
  scrape_file path content = elim content.opened [
    | some e ↦ err e
    | none ↦ elim (check_bom content.encoding) [
      | some e ↦ err e
      | none ↦ check_parsed path content.parsed
    ]
  ]

  add_file : List (MetricFamily V) → Result (Str × ℕ) → Collected V → Collected V
  add_file families (err e) c = record c { errs = c.errs ++ e ∷ [] }
  add_file families (ok (name, mtime)) c =
      if has_key name c.mtimes
      then record c { errs = c.errs ++ new_error (codes "duplicate filename detected") ∷ [] }
      else record c { mtimes = insert name mtime c.mtimes; families = c.families ++ families }

  scrape_entry : Result (List (MetricFamily V)) → Result (Str × ℕ) → Collected V → Collected V
  unfolding add_file
  scrape_entry (err e) stat c = record c { errs = c.errs ++ e ∷ [] }
  scrape_entry (ok families) stat c = add_file families stat c

  -- The walk through one directory; an error ends it, and is kept unless the directory's name is empty.
  unfoldable pub walk : Str → List (Visit V) → Collected V → Collected V
  unfolding scrape_entry
  walk directory [] c = c
  walk directory (walk_error e ∷ rest) c =
      if directory == [] then c else record c { errs = c.errs ++ e ∷ [] }
  walk directory (entry path name is_dir content stat ∷ rest) c =
      walk directory rest
        (if is_prom name is_dir then scrape_entry (scrape_file path content) stat c else c)

  unfoldable pub walk_all : List (Str × List (Visit V)) → Collected V → Collected V
  walk_all [] c = c
  walk_all ((directory, visits) ∷ rest) c = walk_all rest (walk directory visits c)

  abbrev pub nothing : Collected V
  nothing = record { mtimes = []; families = []; errs = [] }

  unfoldable pub convert_all : List (MetricFamily V) → List (Series V)
  convert_all [] = []
  convert_all (family ∷ rest) = convert_metric_family family ++ convert_all rest

unfoldable pub export_each : List Str → Map Str ℕ → List (Str × ℕ)
export_each [] mtimes = []
export_each (filename ∷ rest) mtimes =
    (
      filename,
      elim (lookup filename mtimes) [ none ↦ 0 | some nanoseconds ↦ nanoseconds / 1000000000 ],
    )
    ∷ export_each rest mtimes

-- `exportMTimes`: the files by `sort.Strings`, each with its time in whole seconds (`UnixNano() / 1e9`).
unfoldable pub export_mtimes : (List Str → List Str) → Map Str ℕ → List (Str × ℕ)
export_mtimes sort_strings mtimes = export_each (sort_strings (keys mtimes)) mtimes

-- `Collect`: the times, the series, and the errors that are joined.
pub record Output (V : Type 0) : Type 0 where
  pub mtimes : List (Str × ℕ)
  pub series : List (Series V)
  pub errs : List Error

unfoldable pub collect :
    {V : Type 0} → (List Str → List Str) → List (Str × List (Visit V)) → Output V
collect sort_strings directories =
    let c = walk_all directories nothing in
    record {
      mtimes = export_mtimes sort_strings c.mtimes;
      series = if duplicate_metric_entry c.families then [] else convert_all c.families;
      errs = c.errs;
    }
