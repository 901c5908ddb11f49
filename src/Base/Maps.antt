-- ===== src/Base/Maps.antt =====
-- Go maps as association lists. The list's order stands for the order that an iteration takes, which
-- Go leaves open: a theorem over every list covers every order.
use mathlib.Core.Path.{◌≡◌, refl, ◌∙◌}
use mathlib.Core.Bool.{Bool, true, false, ◌||◌}
use mathlib.Core.List.{List, [], ◌∷◌}
use mathlib.Core.Option.{Option, none, some}
use native.Mathlib.Omega.{arith}
use mathlib.Core.Logic.{inl, inr}
use windows_exporter.Base.Tests.{Eq, ◌==◌, eq_iff, if◌then◌else◌, Bool-cases}
use windows_exporter.Base.Lists.{contains}

abbrev pub Map {ℓ κ} : Type ℓ → Type κ → Type (ℓ ⊔ κ)
Map K V = List (K × V)

module _ {ℓ κ} {K : Type ℓ} {V : Type κ} ⦃e : Eq K⦄ where
  -- v, ok := m[k]
  unfoldable pub lookup : K → Map K V → Option V
  lookup k [] = none
  lookup k ((key, value) ∷ rest) = if key == k then some value else lookup k rest

  -- delete(m, k) for the keys that a test picks, in one pass over the map
  unfoldable pub delete_where : (K → Bool) → Map K V → Map K V
  delete_where p [] = []
  delete_where p ((j, v) ∷ m) = let rest = delete_where p m in if p j then rest else (j, v) ∷ rest

  unfoldable pub keys : Map K V → List K
  keys [] = []
  keys ((j, v) ∷ m) = j ∷ keys m

  -- m[k] = v
  unfoldable pub insert : K → V → Map K V → Map K V
  insert k value [] = (k, value) ∷ []
  insert k value ((key, old) ∷ rest) =
      if key == k then (k, value) ∷ rest else (key, old) ∷ insert k value rest

  unfoldable pub has_key : K → Map K V → Bool
  unfolding lookup
  has_key k m = elim (lookup k m) [ none ↦ false | some v ↦ true ]

  pub lookup-insert :
      (written sought : K) (value : V) (m : Map K V)
      → lookup sought (insert written value m)
        ≡ (if written == sought then some value else lookup sought m)
  unfolding lookup insert
  lookup-insert written sought value [] = refl
  lookup-insert written sought value ((key, old) ∷ rest) = ground (
    arith,
    lookup-insert written sought value rest,
    eq_iff written sought,
    eq_iff key written,
    eq_iff key sought,
  )

  pub lookup-delete_where :
      (p : K → Bool) (k : K) (m : Map K V)
      → lookup k (delete_where p m) ≡ (if p k then none else lookup k m)
  unfolding lookup delete_where
  lookup-delete_where p k [] = ground arith
  lookup-delete_where p k ((j, v) ∷ m) = ground (arith, eq_iff j k, lookup-delete_where p k m)

  pub contains-keys : (k : K) (m : Map K V) → contains (keys m) k ≡ has_key k m
  unfolding keys has_key lookup
  contains-keys k [] = refl
  contains-keys k ((j, v) ∷ m) = ground (arith, contains-keys k m)

  pub has_key-insert :
      (k j : K) (v : V) (m : Map K V) → has_key j (insert k v m) ≡ (k == j || has_key j m)
  unfolding has_key
  has_key-insert k j v m = ground (arith, lookup-insert k j v m)

  -- No key stands twice: what every Go map satisfies.
  abbrev pub Distinct : Map K V → Type 0
  Distinct [] = Unit
  Distinct ((k, v) ∷ m) = (has_key k m ≡ false) × Distinct m

  pub Distinct-insert : (k : K) (v : V) (m : Map K V) → Distinct m → Distinct (insert k v m)
  unfolding insert
  Distinct-insert k v [] d = (unfold has_key lookup in refl, tt)
  Distinct-insert k v ((j, w) ∷ m) d = elim (Bool-cases (j == k)) [
    | inl h ↦ rw h (ground (arith, eq_iff j k), d.1)
    | inr h ↦
        rw h (
          has_key-insert k j v m ∙ ground (arith, eq_iff j k, eq_iff k j),
          Distinct-insert k v m d.1,
        )
  ]
