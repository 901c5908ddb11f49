-- ===== src/Perflib/Names/Fuel.antt =====
-- The loop that reads the table of names ends at the end of its input.
use windows_exporter.Base.{
  ℕ, zero, suc, ◌≤◌, ◌<◌, ◌≡◌, refl, sym, List, [], ◌∷◌, some, arith, nat_eq, Str, length,
  Option-cases, inl, inr,
}
use windows_exporter.Perflib.Names.{read_utf16_string, Tables, add_entry, read_entry, fill_tables}

-- What is left behind a string is shorter.
length-read_utf16_string :
    (b0 b1 : ℕ) (input units rest : List ℕ)
    → read_utf16_string b0 b1 input ≡ some (units, rest)
    → length rest < length input
unfolding read_utf16_string
length-read_utf16_string b0 b1 [] units rest h = cc
length-read_utf16_string b0 b1 (c ∷ []) units rest h = ground arith
length-read_utf16_string b0 b1 (c ∷ d ∷ input) units rest h =
    elim (Option-cases (read_utf16_string c d input)) [
      | inl e ↦ ground arith
      | inr (r, e) ↦ ground (arith, length-read_utf16_string c d input r.0 r.1 e)
    ]

module _ (utf16_to_string : List ℕ → Str) where
  length-read_entry :
      (input index desc rest : List ℕ)
      → read_entry utf16_to_string input ≡ some (index, desc, rest)
      → length rest < length input
  unfolding read_entry
  length-read_entry input index desc rest h = elim (Option-cases (read_utf16_string 0 0 input)) [
    | inl e ↦ ground arith
    | inr (r, e) ↦ elim (Option-cases (read_utf16_string 0 0 r.1)) [
      | inl g ↦ ground arith
      | inr (q, g) ↦ ground (
        arith,
        length-read_utf16_string 0 0 input r.0 r.1 e,
        length-read_utf16_string 0 0 r.1 q.0 q.1 g,
      )
    ]
  ]

  fill_tables_empty :
      (fuel : ℕ) (input : List ℕ) (t : Tables)
      → length input ≤ 0
      → fill_tables utf16_to_string fuel input t ≡ t
  unfolding fill_tables read_entry read_utf16_string
  fill_tables_empty zero input t p = refl
  fill_tables_empty (suc fuel) [] t p = refl
  fill_tables_empty (suc fuel) (c ∷ input) t p = absurd (omega arith)

  -- As many rounds as the input has bytes are enough: more of them read nothing more.
  fill_tables_enough :
      (fuel more : ℕ) (input : List ℕ) (t : Tables)
      → length input ≤ fuel
      → length input ≤ more
      → fill_tables utf16_to_string fuel input t ≡ fill_tables utf16_to_string more input t
  unfolding fill_tables
  fill_tables_enough zero more input t p q = sym (fill_tables_empty more input t p)
  fill_tables_enough (suc fuel) zero input t p q = fill_tables_empty (suc fuel) input t q
  fill_tables_enough (suc fuel) (suc more) input t p q =
      elim (Option-cases (read_entry utf16_to_string input)) [
        | inl e ↦ rw (e, fill_tables)
        | inr (r, e) ↦
            rw (e, fill_tables)
              (let shorter = length-read_entry input r.0 r.1 r.2 e in
                fill_tables_enough fuel more r.2 (add_entry utf16_to_string r.0 r.1 t)
                  (omega (arith, shorter)) (omega (arith, shorter)))
      ]
