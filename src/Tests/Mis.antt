-- ===== src/Tests/Mis.antt =====
-- Runs for internal/mi.
use windows_exporter.Base.{
  ℕ, ◌≡◌, ◌+◌, ◌^◌, Bool, refl, true, false, [], ◌∷◌, List, ◌==◌, nat_eq, Str, str_eq, codes,
  if◌then◌else◌, All,
}
use windows_exporter.Errors.{ok}
use windows_exporter.Mi.{
  text, unsigned, Field, text_value, uint_value, Instance, Answer, instance_of, session,
  type_string, unmarshal, zero_row, done, fill_row, read_field, write, set_text, set_uint,
}
use windows_exporter.Mi.Rows.{unmarshal_fresh, IsCompleteAnswer, IsStale, unmarshal-fresh}

abbrev title : Field
title = record { mi_tag = codes "Name"; kind = text }

abbrev job : Field
job = record { mi_tag = codes "Job"; kind = unsigned 32 }

abbrev fields : List Field
fields = title ∷ job ∷ []

-- The text at an address.
abbrev at : ℕ → Str
at n = if n == 64 then codes "first" else codes "second"

-- The name at an address, and a job.
abbrev row_of : ℕ → ℕ → Instance
row_of address n = record {
  element_count = ok 2;
  get_element = λ tag.
      if tag == codes "Name"
      then ok (record { value = address; value_type = type_string })
      else ok (record { value = n; value_type = 5 });
  more_results = true;
}

abbrev answers : List Answer
answers = instance_of (row_of 64 7) ∷ instance_of (row_of 96 (2 ^ 32 + 8)) ∷ []

two_rows :
    unmarshal session at fields answers (zero_row fields) []
    ≡ done (
        (text_value (codes "first") ∷ uint_value 7 ∷ [])
        ∷ (text_value (codes "second") ∷ uint_value 8 ∷ [])
        ∷ [])
unfolding unmarshal fill_row read_field write set_text set_uint
two_rows = refl

answers-IsComplete : All (IsCompleteAnswer session fields) answers
answers-IsComplete = ((λ h. refl, (λ h. refl, tt)), ((λ h. refl, (λ h. refl, tt)), tt))

unmarshal-fresh_example :
    unmarshal session at fields answers (zero_row fields) []
    ≡ unmarshal_fresh session at fields answers []
unmarshal-fresh_example = unmarshal-fresh session at fields answers answers-IsComplete

-- One element, a string at the address, and whether another instance follows.
abbrev one_string : ℕ → Bool → Instance
one_string address more = record {
  element_count = ok 1;
  get_element = λ tag. ok (record { value = address; value_type = type_string });
  more_results = more;
}

abbrev stale : IsStale title (one_string 64 true) (one_string 0 false) 63
stale = record {
  is_text = refl;
  has_tag = refl;
  first_string = refl;
  then_null = refl;
  first_some = refl;
  second_some = refl;
  follows = refl;
  ends = refl;
}
