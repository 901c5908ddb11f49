-- ===== src/PerformanceCounter/Collect/Statuses.antt =====
-- The successes of a collection.
use windows_exporter.Base.{
  ℕ, ◌≡◌, ◌↔◌, refl, ap, false, Bool, List, [], ◌∷◌, arith, nat_eq, Str, All, Bool-cases, inl, inr,
  Map,
}
use windows_exporter.PerformanceCounter.{Calls}
use windows_exporter.PerformanceCounter.Collect.{
  Collected, Sent, Task, collect_object, add_collected, collect, is_empty,
}

abbrev IsSuccess : Str × ℕ → Type 0
IsSuccess status = status.1 ≡ 1

abbrev names_of : List Task → List Str
names_of [] = []
names_of (task ∷ tasks) = task.object.name ∷ names_of tasks

abbrev status_names : List (Str × ℕ) → List Str
status_names [] = []
status_names ((name, success) ∷ statuses) = name ∷ status_names statuses

-- A success value for each of the names, and no error exactly when all are 1.
abbrev AreStatuses : List Str → Sent → Type 0
AreStatuses names sent =
    (status_names sent.statuses ≡ names) × ((sent.errs ≡ []) ↔ All IsSuccess sent.statuses)

AreStatuses-add_collected :
    (name : Str) (names : List Str) (c : Collected) (rest : Sent)
    → (rest.panicked ≡ false → AreStatuses names rest)
    → (add_collected name c rest).panicked ≡ false
    → AreStatuses (name ∷ names) (add_collected name c rest)
unfolding add_collected
AreStatuses-add_collected name names c rest h p = elim (Bool-cases c.panicked) [
  | inl e ↦ absurd (cc (rw (e, add_collected) at p))
  | inr e ↦
      let (named, all) = h (rw (e, add_collected) at p) in
      elim (Bool-cases (is_empty c.errs)) [
        | inl f ↦
            rw (e, f, add_collected)
              (ap (λ l. name ∷ l) named, (λ k. (refl, all.0 k), λ k. all.1 k.1))
        | inr f ↦
            rw (e, f, add_collected)
              (ap (λ l. name ∷ l) named, (λ k. cc, λ k. absurd (omega (arith, k.0))))
      ]
]

-- Unless a call panics, `Collect` sends a success value for each object that `Build` has kept, in
-- order, and it returns no error exactly when all of them are 1.
AreStatuses-collect :
    (accepts : Str → Map Str Str → Bool) (calls : Calls) (tasks : List Task)
    → (collect accepts calls tasks).panicked ≡ false
    → AreStatuses (names_of tasks) (collect accepts calls tasks)
unfolding collect
AreStatuses-collect accepts calls [] p = (refl, ground arith)
AreStatuses-collect accepts calls (task ∷ tasks) p =
    AreStatuses-add_collected task.object.name (names_of tasks)
      (collect_object accepts calls task.object task.counters task.answer)
      (collect accepts calls tasks) (AreStatuses-collect accepts calls tasks) p
