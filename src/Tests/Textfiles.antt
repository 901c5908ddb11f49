-- ===== src/Tests/Textfiles.antt =====
-- Runs for internal/collector/textfile/textfile.go. Values are numbers.
use windows_exporter.Base.{
  ℕ, ◌↔◌, ◌≡◌, refl, false, List, [], ◌∷◌, none, some, Str, str_eq, codes, lookup, insert,
}
use windows_exporter.Errors.{ok, new_error}
use windows_exporter.Textfile.{Metric, MetricFamily, gauge}
use windows_exporter.Textfile.Duplicates.{
  duplicate_metric_entry, find_duplicate, entries, metric_entries, repeated, label_map, deep_equal,
  all_in, duplicate_metric_entry-repeated,
}
use windows_exporter.Textfile.Files.{
  utf8, Content, Visit, entry, walk_error, scrape_file, check_bom, check_families, has_timestamp,
  walk_all, nothing,
}
use windows_exporter.Textfile.Files.First.{all_good_files, lookup-walk_all}
use windows_exporter.Textfile.Files.Scraped.{IsAccepted, scrape_file-ok}

abbrev metric_of : List (Str × Str) → ℕ → Metric ℕ
metric_of labels v = record {
  labels = labels;
  timestamp = none;
  counter_value = 0;
  gauge_value = v;
  untyped_value = 0;
  summary_value = 0;
  histogram_value = 0;
}

abbrev on_a : Metric ℕ
on_a = metric_of ((codes "disk", codes "a") ∷ []) 1

abbrev on_b : Metric ℕ
on_b = metric_of ((codes "disk", codes "b") ∷ []) 2

abbrev family : MetricFamily ℕ
family = record {
  name = codes "used";
  help = some (codes "Bytes");
  type = gauge;
  metrics = on_a ∷ on_b ∷ on_a ∷ [];
}

duplicate_metric_entry-repeated_example :
    duplicate_metric_entry (family ∷ []) ≡ repeated (entries (family ∷ []))
duplicate_metric_entry-repeated_example = duplicate_metric_entry-repeated (family ∷ [])

abbrev good : Content ℕ
good = record { opened = none; encoding = utf8; parsed = ok (family ∷ []) }

scrape_file-ok_example :
    (scrape_file (codes "a.prom") good ≡ ok (family ∷ []))
    ↔ ((parsed : List (MetricFamily ℕ)) × IsAccepted (codes "a.prom") good parsed (family ∷ []))
scrape_file-ok_example = scrape_file-ok (codes "a.prom") good (family ∷ [])

-- The file is accepted.
accepted : scrape_file (codes "a.prom") good ≡ ok (family ∷ [])
unfolding scrape_file check_bom check_families has_timestamp duplicate_metric_entry find_duplicate
    entries metric_entries label_map deep_equal all_in insert lookup
accepted = refl

abbrev visits : List (Visit ℕ)
visits =
    entry (codes "a.prom") (codes "a.prom") false good (ok (codes "a.prom", 5))
    ∷ entry (codes "sub/a.prom") (codes "a.prom") false good (ok (codes "a.prom", 6))
    ∷ walk_error (new_error (codes "gone"))
    ∷ []

lookup-walk_all_example :
    lookup (codes "a.prom") (walk_all ((codes "dir", visits) ∷ []) nothing).mtimes
    ≡ lookup (codes "a.prom") (all_good_files ((codes "dir", visits) ∷ []))
lookup-walk_all_example = lookup-walk_all (codes "a.prom") ((codes "dir", visits) ∷ [])
