-- ===== src/Collection/Selection.antt =====
-- What `Enable` and `Disable` of pkg/collector/collection.go leave in a collection.
use windows_exporter.Base.{
  ◌≡◌, refl, true, not, List, [], ◌∷◌, none, some, arith, Str, str_eq, contains, Map, lookup,
  has_key, lookup-delete_where, if◌then◌else◌, All, ◌↔◌, Option-cases, inl, inr,
}
use windows_exporter.Errors.{Error}
use windows_exporter.Collection.{Store, Collection, content, unknown_name, enable, disable}

module _ {ℓ} {C : Type ℓ} where
  -- Every name stands for a collector.
  abbrev pub AllKnown : List Str → Map Str C → Type 0
  AllKnown names m = All (λ name. has_key name m ≡ true) names

  AllKnown-unknown_name :
      (names : List Str) (m : Map Str C) → unknown_name names m ≡ none → AllKnown names m
  unfolding unknown_name
  AllKnown-unknown_name [] m h = tt
  AllKnown-unknown_name (name ∷ names) m h =
      (ground arith, AllKnown-unknown_name names m (ground arith))

  unknown_name-AllKnown :
      (names : List Str) (m : Map Str C) → AllKnown names m → unknown_name names m ≡ none
  unfolding unknown_name
  unknown_name-AllKnown [] m h = refl
  unknown_name-AllKnown (name ∷ names) m h = rw h.0 (unknown_name-AllKnown names m h.1)

  -- `Enable` succeeds exactly when every name stands for a collector.
  pub enable-AllKnown :
      (c : Collection) (names : List Str) (s : Store C)
      → ((enable c names s).1 ≡ none) ↔ AllKnown names (content s c)
  unfolding enable
  enable-AllKnown c names s = elim (Option-cases (unknown_name names (content s c))) [
    | inl e ↦ (λ h. AllKnown-unknown_name names (content s c) e, λ h. rw (e, enable))
    | inr (n, e) ↦ (
      λ h. absurd (ground arith),
      λ h. absurd (cc (e, unknown_name-AllKnown names (content s c) h)),
    )
  ]

  -- After a success the collection holds the collectors that are named, each as it was, and no other.
  pub lookup-enable :
      (c : Collection) (names : List Str) (s : Store C)
      → (enable c names s).1 ≡ none
      → (k : Str)
      → lookup k (content (enable c names s).0 c)
        ≡ (if contains names k then lookup k (content s c) else none)
  unfolding enable
  lookup-enable c names s h k =
      ground (arith, lookup-delete_where (λ j. not (contains names j)) k (content s c))

  -- A name that no collector has leaves every map as it was.
  enable_error_unchanged :
      (c : Collection) (names : List Str) (s : Store C) {err : Error}
      → (enable c names s).1 ≡ some err
      → (enable c names s).0 ≡ s
  unfolding enable
  enable_error_unchanged c names s h = ground arith

  -- `Disable` removes the collectors that are named, whether they are there or not, and no other.
  pub lookup-disable :
      (c : Collection) (names : List Str) (s : Store C) (k : Str)
      → lookup k (content (disable c names s) c)
        ≡ (if contains names k then none else lookup k (content s c))
  unfolding disable
  lookup-disable c names s k =
      ground (arith, lookup-delete_where (λ j. contains names j) k (content s c))
