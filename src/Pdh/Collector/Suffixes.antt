-- ===== src/Pdh/Collector/Suffixes.antt =====
-- The suffix of a tag for a second value.
use windows_exporter.Base.{
  ℕ, zero, suc, ◌-◌, ◌≡◌, refl, ap, sym, ◌∙◌, Bool, true, false, List, [], ◌∷◌, ◌++◌, arith, nat_eq,
  Str, str_eq, length, length-append, take, drop, has_suffix, str_beq_iff,
}
use windows_exporter.Pdh.Collector.Counters.{trim_suffix}

module _ {ℓ} {A : Type ℓ} where
  take-append : (xs ys : List A) (n : ℕ) → n ≡ length xs → take n (xs ++ ys) ≡ xs
  take-append [] ys zero h = refl
  take-append [] ys (suc n) h = absurd (omega (arith, h))
  take-append (x ∷ xs) ys zero h = absurd (omega (arith, h))
  take-append (x ∷ xs) ys (suc n) h = ap (λ l. x ∷ l) (take-append xs ys n (omega (arith, h)))

  drop-append : (xs ys : List A) (n : ℕ) → n ≡ length xs → drop n (xs ++ ys) ≡ ys
  drop-append [] ys zero h = refl
  drop-append [] ys (suc n) h = absurd (omega (arith, h))
  drop-append (x ∷ xs) ys zero h = absurd (omega (arith, h))
  drop-append (x ∷ xs) ys (suc n) h = drop-append xs ys n (omega (arith, h))

  take-drop : (n : ℕ) (xs : List A) → take n xs ++ drop n xs ≡ xs
  take-drop zero xs = refl
  take-drop (suc n) [] = refl
  take-drop (suc n) (x ∷ xs) = ap (λ l. x ∷ l) (take-drop n xs)

pub bool_ext : (a b : Bool) → (a ≡ true → b ≡ true) → (b ≡ true → a ≡ true) → a ≡ b
bool_ext true b f g = sym (f refl)
bool_ext false true f g = g refl
bool_ext false false f g = refl

pub has_suffix-append : (s p : Str) → has_suffix (s ++ p) p ≡ true
unfolding has_suffix
has_suffix-append s p =
    let n : length (s ++ p) - length p ≡ length s = omega (arith, length-append s p) in
    let e = drop-append s p (length (s ++ p) - length p) n in
    ground (arith, length-append s p, e, str_beq_iff p p)

pub trim_suffix-append : (s p : Str) → trim_suffix (s ++ p) p ≡ s
trim_suffix-append s p =
    rw (has_suffix-append s p)
      (take-append s p (length (s ++ p) - length p) (omega (arith, length-append s p)))

pub append-trim_suffix : (s p : Str) → has_suffix s p ≡ true → trim_suffix s p ++ p ≡ s
unfolding has_suffix
append-trim_suffix s p h =
    let n = length s - length p in
    let e : drop n s ≡ p = ground (arith, str_beq_iff (drop n s) p) in
    rw h (ap (λ l. take n s ++ l) (sym e) ∙ take-drop n s)
