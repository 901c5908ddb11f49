-- ===== src/RowCollectors/Distinct.antt =====
-- A collection sends no two metrics of the same name and labels, and does not panic.
use windows_exporter.Base.{
  ◌≡◌, refl, Bool, true, false, ◌&&◌, List, [], ◌∷◌, ◌++◌, none, some, arith, ◌==◌, nat_eq, Str,
  str_eq, length, All, All-append, if◌then◌else◌, Bool-cases, Option-cases, inl, inr,
}
use windows_exporter.RowCollectors.{
  Desc, Label, row_name, instance_name, text, Emission, find_desc, Row, Arith, Metric, value_of,
  label_of, label_values, emit, emit_all, emit_rows,
}
use windows_exporter.RowCollectors.Calls.{
  every, fits, name_of, texts_differ, rows_differ, apart, separate, pairwise, across_rows,
}

abbrev pub equal_labels : List Str → List Str → Bool
equal_labels [] [] = true
equal_labels (s ∷ ss) (t ∷ ts) = s == t && equal_labels ss ts
equal_labels _ _ = false

abbrev pub same_series : {F : Type 0} → Metric F → Metric F → Bool
same_series m n = m.name == n.name && equal_labels m.labels n.labels

-- No two metrics of a list are the same series.
abbrev pub Unclashing : {F : Type 0} → List (Metric F) → Type 0
Unclashing [] = Unit
Unclashing (m ∷ ms) = All (λ n. same_series m n ≡ false) ms × Unclashing ms

-- The rows have different names.
abbrev pub DistinctNames : {F : Type 0} → List (Row F) → Type 0
DistinctNames [] = Unit
DistinctNames (r ∷ rows) = All (λ s. (r.name == s.name) ≡ false) rows × DistinctNames rows

if-true : {A : Type 0} (b : Bool) (x y : A) → b ≡ true → (if b then x else y) ≡ x
if-true b x y h = rw h refl

pub All-every :
    {A : Type 0} (p : A → Bool) (xs : List A) → every xs p ≡ true → All (λ x. p x ≡ true) xs
All-every p [] h = tt
All-every p (x ∷ xs) h = (ground arith, All-every p xs (ground arith))

module _ {F : Type 0} (num : Arith F) (inst : Str) where
  abbrev pub metric_of : List Desc → Row F → Emission → Metric F
  metric_of ds row e = record {
    name = name_of ds e;
    labels = label_values num inst row e.labels;
    value_type = e.value_type;
    value = value_of num inst row e.value;
  }

  abbrev pub row_metrics : List Desc → Row F → List Emission → List (Metric F)
  row_metrics ds row [] = []
  row_metrics ds row (e ∷ es) = metric_of ds row e ∷ row_metrics ds row es

  abbrev pub rows_metrics : List Desc → List Emission → List (Row F) → List (Metric F)
  rows_metrics ds es [] = []
  rows_metrics ds es (row ∷ rows) = row_metrics ds row es ++ rows_metrics ds es rows

  emit-fits :
      (ds : List Desc) (row : Row F) (e : Emission)
      → fits ds e ≡ true
      → emit num inst ds row e ≡ some (metric_of ds row e)
  unfolding emit
  emit-fits ds row e h = elim (Option-cases (find_desc e.variable ds)) [
    | inl n ↦ absurd (cc (rw (n, fits) at h))
    | inr (d, f) ↦
        let k : (length d.labels == length e.labels) ≡ true = rw (f, fits) at h in
        rw (f, emit, name_of) (if-true (length d.labels == length e.labels) _ none k)
  ]

  pub emit_all-fits :
      (ds : List Desc) (row : Row F) (es : List Emission)
      → All (λ e. fits ds e ≡ true) es
      → emit_all num inst ds row es ≡ some (row_metrics ds row es)
  unfolding emit_all
  emit_all-fits ds row [] h = refl
  emit_all-fits ds row (e ∷ es) h = rw (emit-fits ds row e h.0, emit_all-fits ds row es h.1) refl

  pub emit_rows-fits :
      (ds : List Desc) (es : List Emission) (rows : List (Row F))
      → All (λ e. fits ds e ≡ true) es
      → emit_rows num inst ds es rows ≡ some (rows_metrics ds es rows)
  unfolding emit_rows
  emit_rows-fits ds es [] h = refl
  emit_rows-fits ds es (row ∷ rows) h =
      rw (emit_all-fits ds row es h, emit_rows-fits ds es rows h) refl

  -- A test of labels that holds only of labels with different values for two rows.
  abbrev Tells : (Label → Label → Bool) → Row F → Row F → Type 0
  Tells differ r s =
      (l m : Label) → differ l m ≡ true → (label_of num inst r l == label_of num inst s m) ≡ false

  Tells-texts_differ : (r s : Row F) → Tells texts_differ r s
  Tells-texts_differ r s (text a) (text b) h = ground arith
  Tells-texts_differ r s row_name m h = cc
  Tells-texts_differ r s instance_name m h = cc
  Tells-texts_differ r s (text a) row_name h = cc
  Tells-texts_differ r s (text a) instance_name h = cc

  Tells-rows_differ : (r s : Row F) → (r.name == s.name) ≡ false → Tells rows_differ r s
  Tells-rows_differ r s d row_name row_name h = d
  Tells-rows_differ r s d row_name instance_name h = cc
  Tells-rows_differ r s d row_name (text b) h = cc
  Tells-rows_differ r s d instance_name m h = cc
  Tells-rows_differ r s d (text a) m h = Tells-texts_differ r s (text a) m h

  equal_labels-apart :
      (differ : Label → Label → Bool) (r s : Row F) (ls ms : List Label)
      → Tells differ r s
      → apart differ ls ms ≡ true
      → equal_labels (label_values num inst r ls) (label_values num inst s ms) ≡ false
  equal_labels-apart differ r s [] ms t h = cc
  equal_labels-apart differ r s (l ∷ ls) [] t h = cc
  equal_labels-apart differ r s (l ∷ ls) (m ∷ ms) t h = elim (Bool-cases (differ l m)) [
    | inl e ↦ rw (t l m e) refl
    | inr e ↦ ground (arith, equal_labels-apart differ r s ls ms t)
  ]

  same_series-separate :
      (differ : Label → Label → Bool) (ds : List Desc) (r s : Row F) (e f : Emission)
      → Tells differ r s
      → separate differ ds e f ≡ true
      → same_series (metric_of ds r e) (metric_of ds s f) ≡ false
  same_series-separate differ ds r s e f t h =
      ground (arith, equal_labels-apart differ r s e.labels f.labels t)

  All-row_metrics :
      (differ : Label → Label → Bool) (ds : List Desc) (r s : Row F) (e : Emission)
      (es : List Emission)
      → Tells differ r s
      → every es (separate differ ds e) ≡ true
      → All (λ n. same_series (metric_of ds r e) n ≡ false) (row_metrics ds s es)
  All-row_metrics differ ds r s e [] t h = tt
  All-row_metrics differ ds r s e (f ∷ es) t h = (
    same_series-separate differ ds r s e f t (ground arith),
    All-row_metrics differ ds r s e es t (ground arith),
  )

  pub Unclashing-row_metrics :
      (ds : List Desc) (r : Row F) (es : List Emission)
      → pairwise ds es ≡ true
      → Unclashing (row_metrics ds r es)
  Unclashing-row_metrics ds r [] h = tt
  Unclashing-row_metrics ds r (e ∷ es) h = (
    All-row_metrics texts_differ ds r r e es (Tells-texts_differ r r) (ground arith),
    Unclashing-row_metrics ds r es (ground arith),
  )

  Unclashing-append :
      (ms ns : List (Metric F))
      → Unclashing ms
      → Unclashing ns
      → All (λ m. All (λ n. same_series m n ≡ false) ns) ms
      → Unclashing (ms ++ ns)
  Unclashing-append [] ns u v h = v
  Unclashing-append (m ∷ ms) ns u v h =
      (All-append (λ n. same_series m n ≡ false) ms ns u.0 h.0, Unclashing-append ms ns u.1 v h.1)

  All-rows_metrics :
      (ds : List Desc) (es : List Emission) (r : Row F) (e : Emission) (rows : List (Row F))
      → All (λ s. (r.name == s.name) ≡ false) rows
      → every es (separate rows_differ ds e) ≡ true
      → All (λ n. same_series (metric_of ds r e) n ≡ false) (rows_metrics ds es rows)
  All-rows_metrics ds es r e [] d h = tt
  All-rows_metrics ds es r e (s ∷ rows) d h =
      All-append (λ n. same_series (metric_of ds r e) n ≡ false) (row_metrics ds s es)
        (rows_metrics ds es rows)
        (All-row_metrics rows_differ ds r s e es (Tells-rows_differ r s d.0) h)
        (All-rows_metrics ds es r e rows d.1 h)

  All-across :
      (ds : List Desc) (es todo : List Emission) (r : Row F) (rows : List (Row F))
      → All (λ s. (r.name == s.name) ≡ false) rows
      → All (λ e. every es (separate rows_differ ds e) ≡ true) todo
      → All
          (λ m. All (λ n. same_series m n ≡ false) (rows_metrics ds es rows))
          (row_metrics ds r todo)
  All-across ds es [] r rows d h = tt
  All-across ds es (e ∷ todo) r rows d h =
      (All-rows_metrics ds es r e rows d h.0, All-across ds es todo r rows d h.1)

  pub Unclashing-rows_metrics :
      (ds : List Desc) (es : List Emission) (rows : List (Row F))
      → pairwise ds es ≡ true
      → across_rows ds es ≡ true
      → DistinctNames rows
      → Unclashing (rows_metrics ds es rows)
  Unclashing-rows_metrics ds es [] h k d = tt
  Unclashing-rows_metrics ds es (r ∷ rows) h k d =
      Unclashing-append (row_metrics ds r es) (rows_metrics ds es rows)
        (Unclashing-row_metrics ds r es h) (Unclashing-rows_metrics ds es rows h k d.1)
        (All-across ds es es r rows d.0
          (All-every (λ e. every es (separate rows_differ ds e)) es k))
