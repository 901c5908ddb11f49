-- ===== src/Iis.antt =====
-- `deduplicateIISNames` of internal/collector/iis/iis.go. The loop ranges over the slice that the caller
-- passed, whose array it changes, while the variable `counterValues` is cut: the state is the array and the
-- length of the variable's slice. `name` is `GetName`, `blank` the zero value of an element.
use windows_exporter.Base.{
  ℕ, zero, suc, ◌+◌, ◌-◌, ◌<◌, ◌≡◌, refl, ap, sym, ◌∙◌, append-nil, append_assoc, true, false, List,
  [], ◌∷◌, ◌++◌, Option, none, some, arith, ◌==◌, nat_eq, nat_beq, Str, str_eq, Map, lookup, insert,
  length, length-append, get_elem?, if◌then◌else◌, All,
}
use native.Mathlib.Nat.{add-zero, zero-add}

-- strings.Split(name, "#")[0]
unfoldable pub before_hash : Str → Str
before_hash [] = []
before_hash (c ∷ s) = let rest = before_hash s in if nat_beq c b'#' then [] else c ∷ rest

module _ {A : Type 0} (name : A → Str) (blank : A) where
  -- The array, the length of `counterValues`, and `indexes`.
  pub record State : Type 0 where
    pub array : List A
    pub count : ℕ
    pub indexes : Map Str ℕ

  -- What the caller's slice holds afterwards.
  pub data Outcome : Type 0 where
    values : List A → Outcome
    panics : Outcome

  -- `slices.Delete(counterValues, 0, 1)`: the elements move down, and the last one of the slice is cleared.
  delete_first : ℕ → List A → List A
  delete_first zero array = array
  delete_first (suc count) [] = []
  delete_first (suc zero) (x ∷ array) = blank ∷ array
  delete_first (suc (suc count)) (x ∷ []) = blank ∷ []
  delete_first (suc (suc count)) (x ∷ y ∷ array) = y ∷ delete_first (suc count) (y ∷ array)

  set_first : A → List A → List A
  set_first value [] = []
  set_first value (x ∷ array) = value ∷ array

  -- The branch of a name that `indexes` lacks. `originalIndex` is 0, and a delete from `index` to 1
  -- panics where `index` is past 1.
  replace_first : ℕ → A → State → Option State
  unfolding delete_first set_first
  replace_first index value s = if s.count == 0 then none else elim index [
    | zero ↦
        some
          (record s { array = delete_first s.count (set_first value s.array); count = s.count - 1 })
    | suc zero ↦ some (record s { array = set_first value s.array })
    | suc (suc i) ↦ none
  ]

  -- The body of the loop.
  unfoldable pub visit : ℕ → A → State → Option State
  unfolding replace_first
  visit index value s =
      if before_hash (name value) == name value
      then some s
      else elim (lookup (before_hash (name value)) s.indexes) [
        | none ↦ replace_first index value s
        | some original ↦
            some (record s { indexes = insert (before_hash (name value)) index s.indexes })
      ]

  -- The rounds from `index` on.
  unfoldable pub visit_all : ℕ → ℕ → State → Outcome
  visit_all zero index s = values s.array
  visit_all (suc rounds) index s = elim (get_elem? s.array index) [
    | none ↦ panics
    | some value ↦ elim (visit index value s) [
      | none ↦ panics
      | some t ↦ visit_all rounds (suc index) t
    ]
  ]

  unfoldable pub deduplicate_iis_names : (List A → List A) → List A → Outcome
  deduplicate_iis_names sort counter_values =
      let sorted = sort counter_values in
      visit_all (length sorted) 0 (record { array = sorted; count = length sorted; indexes = [] })

  -- A name without a hash.
  abbrev pub IsPlain : A → Type 0
  IsPlain x = (before_hash (name x) == name x) ≡ true

  get_elem?-middle :
      (before : List A) (x : A) (after : List A)
      → get_elem? (before ++ x ∷ after) (length before) ≡ some x
  get_elem?-middle [] x after = refl
  get_elem?-middle (b ∷ before) x after = get_elem?-middle before x after

  visit_all-step :
      (rounds index : ℕ) (x : A) (s : State)
      → get_elem? s.array index ≡ some x
      → IsPlain x
      → visit_all (suc rounds) index s ≡ visit_all rounds (suc index) s
  unfolding visit_all visit
  visit_all-step rounds index x s e p = rw (e, visit_all) (rw (p, visit))

  -- Plain names are passed over.
  visit_all-plain :
      (before todo after : List A) (rounds index : ℕ) (s : State)
      → All IsPlain todo
      → s.array ≡ before ++ (todo ++ after)
      → index ≡ length before
      → visit_all (length todo + rounds) index s ≡ visit_all rounds (index + length todo) s
  visit_all-plain before [] after rounds index s p e i = rw (zero-add, add-zero)
  visit_all-plain before (x ∷ todo) after rounds index s p e i =
      let here : get_elem? s.array index ≡ some x =
        rw (e, i) (get_elem?-middle before x (todo ++ after)) in
      ap (λ n. visit_all n index s) (omega arith)
      ∙ visit_all-step (length todo + rounds) index x s here p.0
      ∙ visit_all-plain (before ++ x ∷ []) todo after rounds (suc index) s p.1
          (e ∙ sym (append_assoc before (x ∷ []) (todo ++ after)))
          (omega (arith, length-append before (x ∷ [])))
      ∙ ap (λ n. visit_all rounds n s) (omega arith)

  -- Names without a hash are left as they are, in the order of the sort.
  deduplicate_iis_names-plain :
      (sort : List A → List A) (counter_values : List A)
      → All IsPlain (sort counter_values)
      → deduplicate_iis_names sort counter_values ≡ values (sort counter_values)
  unfolding deduplicate_iis_names
  deduplicate_iis_names-plain sort counter_values p =
      let sorted = sort counter_values in
      let s : State = record { array = sorted; count = length sorted; indexes = [] } in
      ap (λ n. visit_all n 0 s) (omega arith)
      ∙ visit_all-plain [] sorted [] 0 0 s p (sym (append-nil sorted)) refl
      ∙ unfold visit_all in refl

  visit_all-panics :
      (rounds index : ℕ) (x : A) (s : State)
      → get_elem? s.array index ≡ some x
      → (before_hash (name x) == name x) ≡ false
      → s.indexes ≡ []
      → 1 < index
      → visit_all (suc rounds) index s ≡ panics
  unfolding visit_all visit replace_first lookup
  visit_all-panics rounds zero x s e h m lt = absurd (omega arith)
  visit_all-panics rounds (suc zero) x s e h m lt = absurd (omega arith)
  visit_all-panics rounds (suc (suc i)) x s e h m lt = ground arith

  -- Where two or more names without a hash come first in the order of the sort, and then one with a
  -- hash, as in the example of the comment, the function panics.
  pub deduplicate_iis_names-panics :
      (sort : List A → List A) (counter_values plain : List A) (x : A) (after : List A)
      → sort counter_values ≡ plain ++ x ∷ after
      → All IsPlain plain
      → 1 < length plain
      → (before_hash (name x) == name x) ≡ false
      → deduplicate_iis_names sort counter_values ≡ panics
  unfolding deduplicate_iis_names
  deduplicate_iis_names-panics sort counter_values plain x after e p lt h =
      let sorted = plain ++ x ∷ after in
      let s : State = record { array = sorted; count = length sorted; indexes = [] } in
      rw e (
        ap (λ n. visit_all n 0 s) (length-append plain (x ∷ after))
        ∙ visit_all-plain [] plain (x ∷ after) (suc (length after)) 0 s p refl refl
        ∙ visit_all-panics (length after) (0 + length plain) x s
            (rw zero-add (get_elem?-middle plain x after)) h refl (omega arith))
