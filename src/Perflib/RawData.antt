-- ===== src/Perflib/RawData.antt =====
-- `queryRawData` of internal/pdh/registry/perflib.go: the size of the buffer, and the calls of
-- `RegQueryValueEx` until one of them fits. `reply i n` is what the i-th call answers for a buffer
-- of n bytes.
use native.Mathlib.Nat.{pow-suc}
use windows_exporter.Base.{
  ◌-◌, ◌%◌, ◌≢◌, ℕ, zero, suc, ◌+◌, ◌*◌, ◌^◌, ◌≤◌, ◌<◌, ◌≡◌, List, [], ◌∷◌, Option, none, some,
  arith, ◌==◌, nat_eq, Str, str_eq, codes, if◌then◌else◌, ltb, length,
}
use windows_exporter.Errors.{Error}

-- `uint32` wraps.
abbrev pub two_32 : ℕ
two_32 = 2 ^ 32

pub data Reply : Type 0 where
  -- the bytes that were written, bufLen of them
  data_written : List ℕ → Reply
  more_data busy : Reply
  failure : Error → Reply

pub data Raw : Type 0 where
  buffer : List ℕ → Raw
  error : Error → Raw

-- `bufLenGlobal` and `bufLenCostly`.
pub record Sizes : Type 0 where
  pub global : ℕ
  pub costly : ℕ

abbrev pub initial_sizes : Sizes
initial_sizes = record { global = 400000; costly = 2000000 }

unfoldable pub words : Str → ℕ
words [] = 1
words (c ∷ rest) = let n = words rest in if c == b' ' then suc n else n

-- The first size; it depends on the query.
unfoldable pub first_size : Sizes → Str → ℕ
first_size sizes query =
    if query == codes "Global"
    then sizes.global
    else if query == codes "Costly"
    then sizes.costly
    else 150000 * words query % two_32

-- The `for` loop, from call `i` on, with a buffer of `n` bytes: the size doubles on ERROR_MORE_DATA and
-- stays on ERROR_BUSY. `none` if the fuel ends first.
unfoldable pub query_loop : (ℕ → ℕ → Reply) → ℕ → ℕ → ℕ → Option Raw
query_loop reply zero i n = none
query_loop reply (suc fuel) i n = elim (reply i (n % two_32)) [
  | data_written bytes ↦ some (buffer bytes)
  | failure err ↦ some (error err)
  | more_data ↦ query_loop reply fuel (suc i) (n * 2)
  | busy ↦ query_loop reply fuel (suc i) n
]

-- Behind the loop: the sizes grow to what was needed.
unfoldable pub grow : Str → ℕ → Sizes → Sizes
grow query buf_len sizes =
    if query == codes "Global"
    then (if ltb sizes.global buf_len then record sizes { global = buf_len } else sizes)
    else if query == codes "Costly"
    then (if ltb sizes.costly buf_len then record sizes { costly = buf_len } else sizes)
    else sizes

after_loop : Str → Sizes → Option Raw → Option Raw × Sizes
after_loop query sizes (some (buffer bytes)) =
    (some (buffer bytes), grow query (length bytes) sizes)
after_loop query sizes r = (r, sizes)

unfoldable pub query_raw_data : (ℕ → ℕ → Reply) → ℕ → Str → Sizes → Option Raw × Sizes
unfolding after_loop
query_raw_data reply fuel query sizes =
    after_loop query sizes (query_loop reply fuel 0 (first_size sizes query))

-- The registry answers ERROR_MORE_DATA only to a buffer of fewer than `needed` bytes, and ERROR_BUSY
-- not from call `quiet` on.
pub record Answers (reply : ℕ → ℕ → Reply) (needed quiet : ℕ) : Type 0 where
  pub more : (i n : ℕ) → reply i n ≡ more_data → n < needed
  pub settles : (i n : ℕ) → quiet ≤ i → ¬ (reply i n ≡ busy)

-- The rounds still to come are the calls that may be busy and the doublings until `needed`.
query_loop-ne-none :
    (reply : ℕ → ℕ → Reply) (needed quiet : ℕ)
    → Answers reply needed quiet
    → needed * 2 ≤ two_32
    → (fuel i n d : ℕ) → n < two_32
    → needed ≤ n * 2 ^ d
    → quiet - i + d < fuel
    → query_loop reply fuel i n ≢ none
unfolding query_loop
query_loop-ne-none reply needed quiet a w zero i n d p q f = absurd (omega arith)
query_loop-ne-none reply needed quiet a w (suc fuel) i n zero p q f = ground (
  arith,
  a.more i (n % two_32),
  a.settles i (n % two_32),
  query_loop-ne-none reply needed quiet a w fuel (suc i) n zero p q,
)
query_loop-ne-none reply needed quiet a w (suc fuel) i n (suc d) p q f = ground (
  arith,
  a.more i (n % two_32),
  a.settles i (n % two_32),
  query_loop-ne-none reply needed quiet a w fuel (suc i) n (suc d) p q,
  query_loop-ne-none reply needed quiet a w fuel (suc i) (n * 2) d,
  q',
)
  where
    q' : needed ≤ n * 2 * 2 ^ d
    q' = let e : needed ≤ n * (2 ^ d * 2) = rw pow-suc at q in omega (arith, e)

-- The loop ends. Where a buffer of `needed` bytes, at most 2^31, is enough for the registry, and it is
-- busy for no more than `quiet` calls, `quiet + d + 1` calls answer the query: by then `d` doublings
-- have made the first buffer large enough.
pub query_raw_data-ends :
    (reply : ℕ → ℕ → Reply) (needed quiet d : ℕ) (query : Str) (sizes : Sizes)
    → Answers reply needed quiet
    → needed * 2 ≤ two_32
    → first_size sizes query < two_32
    → needed ≤ first_size sizes query * 2 ^ d
    → (query_raw_data reply (quiet + d + 1) query sizes).0 ≢ none
unfolding query_raw_data
query_raw_data-ends reply needed quiet d query sizes a w p q = ground (
  arith,
  query_loop-ne-none reply needed quiet a w (quiet + d + 1) 0 (first_size sizes query) d p q
      (omega arith),
)

-- The sizes never shrink.
grow-sizes :
    (reply : ℕ → ℕ → Reply) (fuel : ℕ) (query : Str) (sizes : Sizes)
    → let after = (query_raw_data reply fuel query sizes).1 in
      (sizes.global ≤ after.global) × (sizes.costly ≤ after.costly)
unfolding query_raw_data grow
grow-sizes reply fuel query sizes = ground arith
