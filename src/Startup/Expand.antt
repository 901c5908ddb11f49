-- ===== src/Startup/Expand.antt =====
-- Which names `expandEnabledCollectors` gives.
use windows_exporter.Base.{
  ℕ, zero, ◌≡◌, refl, ap, sym, ◌∙◌, Bool, false, List, [], ◌∷◌, ◌++◌, map, append-nil, arith, ◌==◌,
  nat_beq, Str, str_eq, eq_iff, codes, join, contains, contains-append, any, All,
}
use windows_exporter.Startup.{
  default_collectors, defaults_place, has_prefix, replace_all, cons_first, split, compact,
  expand_enabled_collectors,
}

-- A part of the flag: the placeholder, or the name of a collector.
pub data Part : Type 0 where
  defaults : Part
  collector : Str → Part

abbrev pub text_of : Part → Str
text_of defaults = defaults_place
text_of (collector name) = name

abbrev pub default_names : List Str
default_names =
    codes "cpu"
    ∷ codes "memory"
    ∷ codes "logical_disk"
    ∷ codes "physical_disk"
    ∷ codes "net"
    ∷ codes "os"
    ∷ codes "service"
    ∷ codes "system"
    ∷ []

abbrev pub stands_for : Str → Part → Bool
stands_for k defaults = contains default_names k
stands_for k (collector name) = name == k

-- A name has no comma and no bracket.
abbrev pub IsName : Str → Type 0
IsName = All (λ c. (nat_beq c b',' ≡ false) × (nat_beq c b'[' ≡ false))

abbrev pub IsPart : Part → Type 0
IsPart defaults = Unit
IsPart (collector name) = IsName name

pub contains-compact : (l : List Str) (k : Str) → contains (compact l) k ≡ contains l k
unfolding compact
contains-compact [] k = refl
contains-compact (s ∷ []) k = refl
contains-compact (s ∷ t ∷ l) k = ground (arith, contains-compact (t ∷ l) k, eq_iff s t)

abbrev expanded : Part → Str
expanded defaults = default_collectors
expanded (collector name) = name

abbrev names_of : Part → List Str
names_of defaults = default_names
names_of (collector name) = name ∷ []

abbrev replaced : Str → Str
replaced s = replace_all zero defaults_place default_collectors s

has_prefix-place :
    (c : ℕ) (s : Str) → nat_beq c b'[' ≡ false → has_prefix (c ∷ s) defaults_place ≡ false
unfolding has_prefix
has_prefix-place c s h = rw (h, has_prefix)

replace_all-name : (name rest : Str) → IsName name → replaced (name ++ rest) ≡ name ++ replaced rest
unfolding replace_all
replace_all-name [] rest h = refl
replace_all-name (c ∷ name) rest h =
    rw (has_prefix-place c (name ++ rest) h.0.1, replace_all)
      (ap (λ s. c ∷ s) (replace_all-name name rest h.1))

replace_all-part :
    (p : Part) (rest : Str) → IsPart p → replaced (text_of p ++ rest) ≡ expanded p ++ replaced rest
replace_all-part defaults rest h = unfold replace_all has_prefix in refl
replace_all-part (collector name) rest h = replace_all-name name rest h

comma : (s : Str) → replaced (b',' ∷ s) ≡ b',' ∷ replaced s
unfolding replace_all has_prefix
comma s = refl

split-name : (name rest : Str) → IsName name → split (name ++ b',' ∷ rest) ≡ name ∷ split rest
unfolding split
split-name [] rest h = refl
split-name (c ∷ name) rest h = rw (h.0.0) (ap (cons_first c) (split-name name rest h.1))

split_name : (name : Str) → IsName name → split name ≡ name ∷ []
unfolding split
split_name [] h = refl
split_name (c ∷ name) h = rw (h.0.0) (ap (cons_first c) (split_name name h.1))

split-part :
    (p : Part) (rest : Str)
    → IsPart p
    → split (expanded p ++ b',' ∷ rest) ≡ names_of p ++ split rest
split-part defaults rest h = unfold split in refl
split-part (collector name) rest h = split-name name rest h

split_part : (p : Part) → IsPart p → split (expanded p) ≡ names_of p
split_part defaults h = unfold split in refl
split_part (collector name) h = split_name name h

contains-names_of : (p : Part) (k : Str) → contains (names_of p) k ≡ stands_for k p
contains-names_of defaults k = refl
contains-names_of (collector name) k = ground arith

contains-split :
    (p : Part) (parts : List Part) (k : Str)
    → All IsPart (p ∷ parts)
    → contains (split (replaced (join (map text_of (p ∷ parts)) (codes ",")))) k
      ≡ any (p ∷ parts) (stands_for k)
contains-split p [] k h =
    let e : replaced (text_of p) ≡ expanded p =
      ap replaced (sym (append-nil (text_of p)))
      ∙ replace_all-part p [] h.0
      ∙ unfold replace_all in append-nil (expanded p) in
    rw (e, split_part p h.0) (contains-names_of p k ∙ ground arith)
contains-split p (q ∷ parts) k h =
    let rest = join (map text_of (q ∷ parts)) (codes ",") in
    rw (
      replace_all-part p (b',' ∷ rest) h.0,
      comma rest,
      split-part p (replaced rest) h.0,
      contains-append (names_of p) (split (replaced rest)) k,
      contains-split q parts k h.1,
      contains-names_of p k,
    )

-- A flag that lists names and the placeholder `[defaults]`, separated by commas, enables those names, and
-- with the placeholder the collectors that are enabled by default, and no others.
pub contains-expand_enabled_collectors :
    (p : Part) (parts : List Part) (k : Str)
    → All IsPart (p ∷ parts)
    → contains (expand_enabled_collectors (join (map text_of (p ∷ parts)) (codes ","))) k
      ≡ any (p ∷ parts) (stands_for k)
unfolding expand_enabled_collectors
contains-expand_enabled_collectors p parts k h =
    contains-compact (split (replaced (join (map text_of (p ∷ parts)) (codes ",")))) k
    ∙ contains-split p parts k h
