-- ===== src/RowCollectors/Accepted.antt =====
-- What a collection of one of the collectors gives.
use windows_exporter.Base.{
  ℕ, zero, suc, ◌≤◌, ◌≡◌, subst, true, not, ◌||◌, List, [], ◌∷◌, Option, none, some, arith, nat_eq,
  Str, str_eq, length, get_elem?, All,
}
use windows_exporter.Errors.{Error}
use mathlib.Core.Option.{some_inj}
use windows_exporter.RowCollectors.{
  Desc, Emission, Shape, every_row, first_checked, first_row, RowCollector, Row, Arith, Outcome,
  sent, fails, panics, collect_shape, collect,
}
use windows_exporter.RowCollectors.Calls.{
  every, fits, pairwise, across_rows, is_every_row, is_sound,
}
use windows_exporter.RowCollectors.Tables.{row_collectors, every-row_collectors}
use windows_exporter.RowCollectors.Distinct.{
  Unclashing, DistinctNames, All-every, emit_all-fits, emit_rows-fits, Unclashing-row_metrics,
  Unclashing-rows_metrics,
}

-- The collection sends metrics of different series, or returns an error.
abbrev pub Accepted : {F : Type 0} → Outcome F → Type 0
Accepted (sent ms) = Unclashing ms
Accepted (fails e) = Unit
Accepted panics = ⊥

module _ {F : Type 0} (num : Arith F) (inst : Str) where
  Accepted-collect_shape :
      (shape : Shape) (ds : List Desc) (es : List Emission) (rows : List (Row F))
      → All (λ e. fits ds e ≡ true) es
      → pairwise ds es ≡ true
      → (not (is_every_row shape) || across_rows ds es) ≡ true
      → DistinctNames rows
      → 1 ≤ length rows
      → Accepted (collect_shape num inst shape ds es rows)
  unfolding collect_shape
  Accepted-collect_shape every_row ds es rows f p a d k =
      rw (emit_rows-fits num inst ds es rows f) (Unclashing-rows_metrics num inst ds es rows p a d)
  Accepted-collect_shape first_checked ds es [] f p a d k = tt
  Accepted-collect_shape first_checked ds es (r ∷ rows) f p a d k =
      rw (emit_all-fits num inst ds r es f) (Unclashing-row_metrics num inst ds r es p)
  Accepted-collect_shape first_row ds es [] f p a d k = absurd (omega arith)
  Accepted-collect_shape first_row ds es (r ∷ rows) f p a d k =
      rw (emit_all-fits num inst ds r es f) (Unclashing-row_metrics num inst ds r es p)

  Accepted-sound :
      (c : RowCollector) (answer : Option Error) (rows : List (Row F))
      → is_sound c ≡ true
      → DistinctNames rows
      → 1 ≤ length rows
      → Accepted (collect num inst c answer rows)
  unfolding collect is_sound
  Accepted-sound c (some e) rows h d k = tt
  Accepted-sound c none rows h d k =
      Accepted-collect_shape c.shape c.descriptions c.emissions rows
        (All-every (fits c.descriptions) c.emissions (ground arith)) (ground arith) (ground arith) d
        k

every-get_elem? :
    (cs : List RowCollector) (i : ℕ) (c : RowCollector)
    → every cs is_sound ≡ true
    → get_elem? cs i ≡ some c
    → is_sound c ≡ true
every-get_elem? [] i c h e = cc
every-get_elem? (b ∷ cs) zero c h e = subst (λ x. is_sound x ≡ true) (some_inj.0 e) (ground arith)
every-get_elem? (b ∷ cs) (suc i) c h e = every-get_elem? cs i c (ground arith) e

-- For each of the collectors of the table: from rows of different names, of which there is one at
-- least, a collection sends no two metrics of the same name and labels, and it does not panic for a
-- description that is not there or has another number of labels.
pub Accepted-collect :
    {F : Type 0}
    → (num : Arith F) (inst : Str) (i : ℕ) (c : RowCollector) (answer : Option Error)
      (rows : List (Row F))
    → get_elem? row_collectors i ≡ some c
    → DistinctNames rows
    → 1 ≤ length rows
    → Accepted (collect num inst c answer rows)
Accepted-collect num inst i c answer rows e d k =
    Accepted-sound num inst c answer rows
      (every-get_elem? row_collectors i c every-row_collectors e) d k
