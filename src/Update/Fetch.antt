-- ===== src/Update/Fetch.antt =====
-- The metrics that a search for updates gives.
use windows_exporter.Base.{
  ℕ, ◌≡◌, refl, ap, sym, ◌∙◌, List, [], ◌∷◌, ◌++◌, append-nil, Option, none, some, Str,
  Option-cases, inl, inr,
}
use windows_exporter.Errors.{Result, ok, err}
use windows_exporter.Update.{
  WindowsUpdate, Metric, query_duration, last_scrape, pending, published, published_metric,
  item_metrics, fetch_updates,
}

-- The updates that could be read.
abbrev pub read_updates : List (Result WindowsUpdate) → List WindowsUpdate
read_updates [] = []
read_updates (ok u ∷ items) = u ∷ read_updates items
read_updates (err e ∷ items) = read_updates items

abbrev pub pending_updates : List Metric → List WindowsUpdate
pending_updates [] = []
pending_updates (pending u ∷ metrics) = u ∷ pending_updates metrics
pending_updates (_ ∷ metrics) = pending_updates metrics

abbrev pub publications : List Metric → List (Str × Str × ℕ)
publications [] = []
publications (published id revision time ∷ metrics) = (id, revision, time) ∷ publications metrics
publications (_ ∷ metrics) = publications metrics

abbrev pub dated : List WindowsUpdate → List (Str × Str × ℕ)
dated [] = []
dated (u ∷ updates) =
    let later = dated updates in
    elim u.last_published [ none ↦ later | some time ↦ (u.identity, u.revision, time) ∷ later ]

pending_updates-published_metric :
    (u : WindowsUpdate) (o : Option ℕ) (xs l : List Metric)
    → pending_updates ((published_metric u o ++ xs) ++ l) ≡ pending_updates (xs ++ l)
pending_updates-published_metric u none xs l = refl
pending_updates-published_metric u (some time) xs l = refl

pending_updates-items :
    (items : List (Result WindowsUpdate)) (l : List Metric)
    → pending_updates (item_metrics items ++ l) ≡ read_updates items ++ pending_updates l
unfolding item_metrics
pending_updates-items [] l = refl
pending_updates-items (err e ∷ items) l = pending_updates-items items l
pending_updates-items (ok u ∷ items) l =
    ap (λ us. u ∷ us)
      (pending_updates-published_metric u u.last_published (item_metrics items) l
        ∙ pending_updates-items items l)

publications-items :
    (items : List (Result WindowsUpdate)) (l : List Metric)
    → publications (item_metrics items ++ l) ≡ dated (read_updates items) ++ publications l
unfolding item_metrics
publications-items [] l = refl
publications-items (err e ∷ items) l = publications-items items l
publications-items (ok u ∷ items) l = elim (Option-cases u.last_published) [
  | inl e ↦ rw e (publications-items items l)
  | inr (time, e) ↦
      rw e (ap (λ us. (u.identity, u.revision, time) ∷ us) (publications-items items l))
]

abbrev metrics_of : Result (List Metric) → List Metric
metrics_of (ok m) = m
metrics_of (err e) = []

-- A search that succeeds gives one pending update for each item that could be read, in order, and a
-- time for those of them that have one; a failure to read one item loses no other.
pub pending-fetch_updates :
    (items : List (Result WindowsUpdate)) (metrics : List Metric)
    → fetch_updates none items ≡ ok metrics
    → (pending_updates metrics ≡ read_updates items)
      × (publications metrics ≡ dated (read_updates items))
unfolding fetch_updates
pending-fetch_updates items metrics h =
    let e : query_duration ∷ item_metrics items ++ last_scrape ∷ [] ≡ metrics = ap metrics_of h in
    (
      ap pending_updates (sym e)
          ∙ pending_updates-items items (last_scrape ∷ [])
          ∙ append-nil (read_updates items),
      ap publications (sym e)
          ∙ publications-items items (last_scrape ∷ [])
          ∙ append-nil (dated (read_updates items)),
    )
