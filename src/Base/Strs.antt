-- ===== src/Base/Strs.antt =====
-- Go strings: sequences of bytes.
use Prim.Native.Nat.{ℕ, ◌-◌}
use Prim.Native.Char.{code}
use Prim.Native.String.{String}
use mathlib.Core.Path.{◌≡◌, refl}
use mathlib.Core.Logic.{◌↔◌}
use mathlib.Core.Bool.{Bool, true, false, ◌&&◌}
use mathlib.Core.List.{List, [], ◌∷◌, ◌++◌}
use mathlib.Core.Option.{Option, none, some}
use native.Mathlib.Omega.{arith}
use windows_exporter.Base.Tests.{Eq, nat_eq, nat_beq, if◌then◌else◌, leb}
use windows_exporter.Base.Lists.{length, drop}

abbrev pub Str : Type 0
Str = List ℕ

-- The bytes of an ASCII literal.
abbrev pub codes : String → Str
codes String.[] = []
codes (String.◌∷◌ c s) = code c ∷ codes s

abbrev pub str_beq : Str → Str → Bool
str_beq [] [] = true
str_beq [] (y ∷ ys) = false
str_beq (x ∷ xs) [] = false
str_beq (x ∷ xs) (y ∷ ys) = nat_beq x y && str_beq xs ys

pub str_beq_iff : (s t : Str) → (str_beq s t ≡ true) ↔ (s ≡ t)
str_beq_iff [] [] = ground arith
str_beq_iff [] (y ∷ ys) = ground arith
str_beq_iff (x ∷ xs) [] = ground arith
str_beq_iff (x ∷ xs) (y ∷ ys) = ground (arith, str_beq_iff xs ys)

instance abbrev pub str_eq : Eq Str
str_eq = record { equals = str_beq; equals_iff = str_beq_iff }

-- strings.CutPrefix: what follows the prefix, if it is there.
abbrev pub cut_prefix : Str → Str → Option Str
cut_prefix s [] = some s
cut_prefix [] (c ∷ p) = none
cut_prefix (a ∷ s) (c ∷ p) = if nat_beq a c then cut_prefix s p else none

-- strings.HasSuffix
unfoldable pub has_suffix : Str → Str → Bool
has_suffix s p = leb (length p) (length s) && str_beq (drop (length s - length p) s) p

pub cut_prefix-append : (p s : Str) → cut_prefix (p ++ s) p ≡ some s
cut_prefix-append [] s = refl
cut_prefix-append (c ∷ p) s = ground (arith, cut_prefix-append p s)

-- strings.Join with a separator.
abbrev pub join : List Str → Str → Str
join [] sep = []
join (s ∷ []) sep = s
join (s ∷ t ∷ r) sep = s ++ (sep ++ join (t ∷ r) sep)
