-- ===== src/RowCollectors/Calls.antt =====
-- Tests of the lists of a collector, and short forms for the lists.
use windows_exporter.Base.{
  Bool, true, false, not, ◌&&◌, ◌||◌, List, [], ◌∷◌, none, some, ◌==◌, nat_eq, Str, str_eq, String,
  codes, length, map,
}
use windows_exporter.Pdh.{gauge_value, counter_value}
use windows_exporter.RowCollectors.{
  Desc, field, Label, row_name, text, Emission, Shape, every_row, RowCollector, find_desc,
}

abbrev pub desc : String → String → List String → Desc
desc variable name labels = record {
  variable = codes variable;
  name = codes name;
  labels = map codes labels;
}

abbrev pub counter : String → String → List Label → Emission
counter variable x labels = record {
  variable = codes variable;
  value_type = counter_value;
  value = field (codes x);
  labels = labels;
}

abbrev pub gauge : String → String → List Label → Emission
gauge variable x labels = record {
  variable = codes variable;
  value_type = gauge_value;
  value = field (codes x);
  labels = labels;
}

-- A constant label.
abbrev pub txt : String → Label
txt s = text (codes s)

abbrev pub every {ℓ} : {A : Type ℓ} → List A → (A → Bool) → Bool
every [] p = true
every (x ∷ xs) p = p x && every xs p

-- The description is there and has as many labels as the call.
abbrev pub fits : List Desc → Emission → Bool
fits ds e = elim (find_desc e.variable ds) [
  | none ↦ false
  | some d ↦ length d.labels == length e.labels
]

abbrev pub name_of : List Desc → Emission → Str
name_of ds e = elim (find_desc e.variable ds) [ none ↦ [] | some d ↦ d.name ]

-- Two labels differ for the same row; or for rows of different names.
abbrev pub texts_differ : Label → Label → Bool
texts_differ (text s) (text t) = not (s == t)
texts_differ _ _ = false

abbrev pub rows_differ : Label → Label → Bool
rows_differ row_name row_name = true
rows_differ l m = texts_differ l m

abbrev pub apart : (Label → Label → Bool) → List Label → List Label → Bool
apart differ (l ∷ ls) (m ∷ ms) = differ l m || apart differ ls ms
apart differ _ _ = false

abbrev pub separate : (Label → Label → Bool) → List Desc → Emission → Emission → Bool
separate differ ds e f = not (name_of ds e == name_of ds f) || apart differ e.labels f.labels

abbrev pub pairwise : List Desc → List Emission → Bool
pairwise ds [] = true
pairwise ds (e ∷ es) = every es (separate texts_differ ds e) && pairwise ds es

abbrev pub across_rows : List Desc → List Emission → Bool
across_rows ds es = every es (λ e. every es (separate rows_differ ds e))

abbrev pub is_every_row : Shape → Bool
is_every_row every_row = true
is_every_row _ = false

-- Each call fits its description, and no two of a scrape give the same metric with the same labels.
unfoldable pub is_sound : RowCollector → Bool
is_sound c =
    every c.emissions (fits c.descriptions)
    && (pairwise c.descriptions c.emissions
        && (not (is_every_row c.shape) || across_rows c.descriptions c.emissions))
