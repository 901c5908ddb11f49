-- ===== src/Perflib/Parse/Filter.antt =====
-- The query for one object by its name, against the query for all.
use windows_exporter.Base.{
  ℕ, zero, suc, ◌≡◌, ◌≢◌, refl, false, List, [], ◌∷◌, arith, ◌==◌, Str, str_eq, eq_iff,
  if◌then◌else◌, subst,
}
use windows_exporter.Perflib.Bytes.{Res, ok, fails, panics, bind-ok}
use windows_exporter.Perflib.RawTypes.{
  PerfObjectType, object_type, binary_read, object_type_size, data_block, data_block_size,
}
use windows_exporter.Perflib.Parse.{
  PerfObject, parse_object, parse_objects, objects_round, query_performance_data,
}

-- The first object of that name, as a list of at most one.
pub first_named : Str → List PerfObject → List PerfObject
first_named counter_name [] = []
first_named counter_name (o ∷ rest) =
    if o.name == counter_name then o ∷ [] else first_named counter_name rest

round-all :
    (name : Str) (parsed : Res PerfObject) (later : Res (List PerfObject))
    (objects : List PerfObject)
    → objects_round [] name parsed later ≡ ok objects
    → (o : PerfObject) × (rest : List PerfObject) × (parsed ≡ ok o)
      × (later ≡ ok rest)
      × (objects ≡ o ∷ rest)
unfolding objects_round
round-all name (ok o) (ok rest) objects h = (o, rest, refl, refl, cc)
round-all name (ok o) fails objects h = cc
round-all name (ok o) panics objects h = cc
round-all name fails later objects h = cc
round-all name panics later objects h = cc

round-named :
    (counter_name : Str) (o : PerfObject) (parsed : Res PerfObject) (later : Res (List PerfObject))
    (rest : List PerfObject)
    → (counter_name == []) ≡ false
    → parsed ≡ ok o
    → later ≡ ok (first_named counter_name rest)
    → objects_round counter_name o.name parsed later ≡ ok (first_named counter_name (o ∷ rest))
unfolding objects_round first_named
round-named counter_name o parsed later rest c p l = ground arith

module _ (lookup_string : ℕ → Str) (utf16_to_string : List ℕ → Str) (spare : List ℕ) where
  name-parse_object :
      (b : List ℕ) (at : ℕ) (obj : PerfObjectType) (o : PerfObject)
      → parse_object lookup_string utf16_to_string spare b at obj ≡ ok o
      → o.name ≡ lookup_string obj.object_name_title_index
  unfolding parse_object
  name-parse_object b at obj o h = ground arith

  parse_objects-first_named :
      (counter_name : Str) (b : List ℕ) (n at : ℕ) (objects : List PerfObject)
      → (counter_name == []) ≡ false
      → parse_objects lookup_string utf16_to_string spare [] b at n ≡ ok objects
      → parse_objects lookup_string utf16_to_string spare counter_name b at n
        ≡ ok (first_named counter_name objects)
  unfolding parse_objects
  parse_objects-first_named counter_name b zero at objects c h =
      let e : [] ≡ objects = cc in
      subst (λ l. ok [] ≡ ok (first_named counter_name l)) e (unfold first_named in refl)
  parse_objects-first_named counter_name b (suc n) at objects c h =
      let (obj, r, h') = bind-ok (binary_read b at object_type_size object_type) _ h in
      let (o, rest, p, l, e) = round-all _ _ _ objects h' in
      rw (r, e, ← name-parse_object b at obj o p)
        (round-named counter_name o _ _ rest c p
          (parse_objects-first_named counter_name b n _ rest c l))

  -- Where the query for all objects succeeds, the query for a name gives the first object of that
  -- name, the same in every part, and gives none exactly where no object has the name.
  pub query_performance_data-first_named :
      (counter_name : Str) (buffer : List ℕ) (objects : List PerfObject)
      → counter_name ≢ []
      → query_performance_data lookup_string utf16_to_string spare [] buffer ≡ ok objects
      → query_performance_data lookup_string utf16_to_string spare counter_name buffer
        ≡ ok (first_named counter_name objects)
  unfolding query_performance_data
  query_performance_data-first_named counter_name buffer objects c h =
      let (header, r, h') = bind-ok (binary_read buffer 0 data_block_size data_block) _ h in
      rw r (
        ground (
          arith,
          h',
          eq_iff counter_name [],
          parse_objects-first_named counter_name buffer header.num_object_types header.header_length
              objects,
        ))
