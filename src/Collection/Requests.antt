-- ===== src/Collection/Requests.antt =====
-- Requests with `collect[]` parameters (`NewHandler`, `WithCollectors`) work on a copy of the map.
use windows_exporter.Base.{
  ℕ, ◌≤◌, ◌<◌, ◌≡◌, refl, ap, subst, ◌∙◌, List, [], ◌∷◌, Option, none, some, arith, Str, str_eq,
  contains, lookup, if◌then◌else◌,
}
use windows_exporter.Errors.{Error}
use windows_exporter.Collection.{
  Store, Collection, content, enable, clone, with_collectors, new_handler, after_enable,
}
use windows_exporter.Collection.Selection.{AllKnown, lookup-enable, enable-AllKnown}

module _ {ℓ} {C : Type ℓ} where
  -- The maps made so far are left as they were, and none is given up.
  pub record Extends (s t : Store C) : Type ℓ where
    pub kept : (r : ℕ) → r < s.next → t.maps r ≡ s.maps r
    pub grows : s.next ≤ t.next

  pub Extends-refl : (s : Store C) → Extends s s
  Extends-refl s = record { kept = λ r h. refl; grows = omega arith }

  pub Extends-trans : {s t u : Store C} → Extends s t → Extends t u → Extends s u
  Extends-trans {s} {t} {u} a b = record {
    kept = λ r h. b.kept r (omega (arith, a.grows)) ∙ a.kept r h;
    grows = omega (arith, a.grows, b.grows);
  }

  with_collectors-Extends :
      (c : Collection) (names : List Str) (s : Store C) → Extends s (with_collectors c names s).0
  unfolding with_collectors enable
  with_collectors-Extends c names s = record { kept = λ r h. ground arith; grows = ground arith }

  new_handler-Extends :
      (c : Collection) (names : List Str) (s : Store C) → Extends s (new_handler c names s).0
  unfolding new_handler
  new_handler-Extends c [] s = Extends-refl s
  new_handler-Extends c (name ∷ names) s = with_collectors-Extends c (name ∷ names) s

  -- Requests one after the other, each with the names that it asks for.
  abbrev pub serve_requests : Collection → List (List Str) → Store C → Store C
  serve_requests c [] s = s
  serve_requests c (names ∷ rest) s = serve_requests c rest (new_handler c names s).0

  serve_requests-Extends :
      (c : Collection) (requests : List (List Str)) (s : Store C)
      → Extends s (serve_requests c requests s)
  serve_requests-Extends c [] s = Extends-refl s
  serve_requests-Extends c (names ∷ rest) s =
      Extends-trans (new_handler-Extends c names s)
        (serve_requests-Extends c rest (new_handler c names s).0)

  -- Whatever collectors the requests ask for, known or unknown, the exporter's own collection
  -- holds the same collectors afterwards.
  pub content-serve_requests :
      (c : Collection) (requests : List (List Str)) (s : Store C)
      → c.collectors < s.next
      → content (serve_requests c requests s) c ≡ content s c
  content-serve_requests c requests s h = (serve_requests-Extends c requests s).kept c.collectors h

  -- The collection that `WithCollectors` returns, on the map that it makes.
  abbrev pub derived : Collection → Store C → Collection
  derived c s = record c { collectors = s.next }

  after_enable-none :
      (c : Collection) (p : Store C × Option Error)
      → p.1 ≡ none
      → after_enable c p ≡ (p.0, (some c, none))
  unfolding after_enable
  after_enable-none c (t, none) h = refl
  after_enable-none c (t, some err) h = cc

  content-clone :
      (c : Collection) (s : Store C) → content (clone c.collectors s).0 (derived c s) ≡ content s c
  unfolding clone
  content-clone c s = ground arith

  enable-derived :
      (c : Collection) (names : List Str) (s : Store C)
      → AllKnown names (content s c)
      → (enable (derived c s) names (clone c.collectors s).0).1 ≡ none
  enable-derived c names s known =
      (enable-AllKnown (derived c s) names (clone c.collectors s).0).1
        (rw (content-clone c s) known)

  with_collectors_eq :
      (c : Collection) (names : List Str) (s : Store C)
      → AllKnown names (content s c)
      → with_collectors c names s
        ≡ ((enable (derived c s) names (clone c.collectors s).0).0, (some (derived c s), none))
  unfolding with_collectors clone
  with_collectors_eq c names s known =
      after_enable-none (derived c s) _ (enable-derived c names s known)

  -- A request for known collectors is served by a collection with those collectors of the
  -- exporter, each as it was, and no other.
  pub lookup-with_collectors :
      (c : Collection) (names : List Str) (s : Store C)
      → AllKnown names (content s c)
      → ((with_collectors c names s).1 ≡ (some (derived c s), none))
        × ((k : Str)
            → lookup k (content (with_collectors c names s).0 (derived c s))
              ≡ (if contains names k then lookup k (content s c) else none))
  lookup-with_collectors c names s known = rw (with_collectors_eq c names s known) (
    refl,
    λ k. rw (← content-clone c s) (
        lookup-enable (derived c s) names (clone c.collectors s).0 (enable-derived c names s known)
          k),
  )

  after_enable-some :
      (c : Collection) (p : Store C × Option Error) (e : Error)
      → p.1 ≡ some e
      → after_enable c p ≡ (p.0, (none, some e))
  unfolding after_enable
  after_enable-some c (t, none) e h = cc
  after_enable-some c (t, some x) e h = cc

  -- A request for an unknown collector gets no collection.
  pub with_collectors-unknown :
      (c : Collection) (names : List Str) (s : Store C) (e : Error)
      → (enable (derived c s) names (clone c.collectors s).0).1 ≡ some e
      → ((with_collectors c names s).1 ≡ (none, some e)) × ¬ AllKnown names (content s c)
  unfolding with_collectors clone
  with_collectors-unknown c names s e h = (
    ap (λ (p : Store C × (Option Collection × Option Error)). p.1)
        (after_enable-some (derived c s) _ e h),
    λ known. cc (h, enable-derived c names s known),
  )

  pub AllKnown-enable :
      (c : Collection) (names : List Str) (s : Store C)
      → (enable (derived c s) names (clone c.collectors s).0).1 ≡ none
      → AllKnown names (content s c)
  AllKnown-enable c names s h =
      subst (AllKnown names) (content-clone c s)
        ((enable-AllKnown (derived c s) names (clone c.collectors s).0).0 h)
