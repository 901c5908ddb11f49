-- ===== src/Perflib/Bytes.antt =====
-- What the parser reads of its buffer: little-endian numbers at an offset (`binary.Read` with
-- `binary.LittleEndian`, `bo.Uint32`, `bo.Uint64`), and two's complement. Bytes are numbers below 256.
use native.Mathlib.Nat.{pow-suc}
use windows_exporter.Base.{
  ℕ, zero, suc, ◌+◌, ◌-◌, ◌*◌, ◌/◌, ◌%◌, ◌^◌, ◌<◌, ◌≡◌, refl, ap, List, [], ◌∷◌, ◌++◌, Option, none,
  some, arith, ltb, leb, if◌then◌else◌, length, take, drop,
}

-- A Go call: a value, a returned error, or a panic.
pub data Res {ℓ} (A : Type ℓ) : Type ℓ where
  ok : A → Res A
  fails : Res A
  panics : Res A

infixl 5 ◌>>=◌
abbrev pub ◌>>=◌ {ℓ κ} : {A : Type ℓ} {B : Type κ} → Res A → (A → Res B) → Res B
ok a >>= f = f a
fails >>= f = fails
panics >>= f = panics

-- What a bind that returns a value has passed through.
pub bind-ok {ℓ κ} :
    {A : Type ℓ} {B : Type κ} (m : Res A) (f : A → Res B) {b : B}
    → (m >>= f) ≡ ok b
    → (a : A) × (m ≡ ok a) × (f a ≡ ok b)
bind-ok (ok a) f h = (a, refl, h)
bind-ok fails f h = cc
bind-ok panics f h = cc

-- int64 and int32 values.
pub data ℤ : Type 0 where
  pos : ℕ → ℤ
  negsuc : ℕ → ℤ

unfoldable pub to_signed : ℕ → ℕ → ℤ
to_signed half n = if ltb n half then pos n else negsuc (half + half - n - 1)

abbrev pub half32 : ℕ
half32 = 2 ^ 31

abbrev pub half64 : ℕ
half64 = 2 ^ 63

unfoldable pub le : List ℕ → ℕ
le [] = 0
le (c ∷ cs) = c + 256 * le cs

-- The bytes of a number, lowest first.
pub encode : ℕ → ℕ → List ℕ
encode zero n = []
encode (suc k) n = (n % 256) ∷ encode k (n / 256)

-- The bytes [at, at + n), if the buffer has them.
unfoldable pub bytes_at : List ℕ → ℕ → ℕ → Option (List ℕ)
bytes_at b at n = if leb (at + n) (length b) then some (take n (drop at b)) else none

-- A field of a structure that has been read.
unfoldable pub u32 : List ℕ → ℕ → ℕ
u32 s at = le (take 4 (drop at s))

unfoldable pub i32 : List ℕ → ℕ → ℤ
i32 s at = to_signed half32 (u32 s at)

unfoldable pub i64 : List ℕ → ℕ → ℤ
i64 s at = to_signed half64 (le (take 8 (drop at s)))

pub length-encode : (k n : ℕ) → length (encode k n) ≡ k
unfolding encode
length-encode zero n = refl
length-encode (suc k) n = ap suc (length-encode k (n / 256))

-- Reading back what was written.
pub le-encode : (k n : ℕ) → n < 256 ^ k → le (encode k n) ≡ n
unfolding le encode
le-encode zero n h = omega arith
le-encode (suc k) n h =
    let bound : n / 256 < 256 ^ k = omega (arith, rw pow-suc at h) in
    omega (arith, le-encode k (n / 256) bound)

pub drop-append : (xs ys : List ℕ) → drop (length xs) (xs ++ ys) ≡ ys
drop-append [] ys = refl
drop-append (x ∷ xs) ys = drop-append xs ys

pub take-append : (xs ys : List ℕ) → take (length xs) (xs ++ ys) ≡ xs
take-append [] ys = refl
take-append (x ∷ xs) ys = ap (λ r. x ∷ r) (take-append xs ys)
