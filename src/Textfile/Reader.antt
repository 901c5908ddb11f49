-- ===== src/Textfile/Reader.antt =====
-- `carriageReturnFilteringReader` of textfile.go, over a reader that answers each call with a chunk.
use windows_exporter.Base.{
  ℕ, ◌≡◌, refl, ap, sym, ◌∙◌, append_assoc, Bool, not, List, [], ◌∷◌, ◌++◌, Option, none, some,
  arith, nat_eq, nat_beq, select, select-append, concat, if◌then◌else◌, take, length,
}
use mathlib.Core.Option
use windows_exporter.Errors.{Error}

-- The error of a `Read`: nil, `io.EOF`, another.
pub data ReadError : Type 0 where
  no_error eof : ReadError
  failure : Error → ReadError

abbrev pub is_cr : ℕ → Bool
is_cr c = nat_beq c b'\r'

-- The loop over `buf[:n]`, which moves the bytes that stay to the front of `p`.
unfoldable pub filter_bytes : List ℕ → List ℕ
filter_bytes [] = []
filter_bytes (c ∷ rest) = let kept = filter_bytes rest in if not (is_cr c) then c ∷ kept else kept

-- One `Read` into a buffer that holds `p`: the first `n` bytes of the buffer then, and the error. On an
-- error other than `io.EOF` the buffer is left as it was.
unfoldable pub read : List ℕ → List ℕ → ReadError → List ℕ × ReadError
read p chunk (failure err) = (take (length chunk) p, failure err)
read p chunk err = (filter_bytes chunk, err)

-- A caller that reads on until `io.EOF`; `none` on an error.
unfoldable pub read_all : List ℕ → List (List ℕ × ReadError) → Option (List ℕ)
read_all p [] = some []
read_all p ((chunk, failure err) ∷ rest) = none
read_all p ((chunk, eof) ∷ rest) = some (read p chunk eof).0
read_all p ((chunk, no_error) ∷ rest) =
    Option.map (λ tail. (read p chunk no_error).0 ++ tail) (read_all p rest)

filter_bytes-select : (l : List ℕ) → filter_bytes l ≡ select (λ c. not (is_cr c)) l
unfolding filter_bytes
filter_bytes-select [] = refl
filter_bytes-select (c ∷ l) = ground (arith, filter_bytes-select l)

-- Chunks that end with `io.EOF` behind the last.
abbrev pub whole : List (List ℕ) → List ℕ → List (List ℕ × ReadError)
whole [] last = (last, eof) ∷ []
whole (chunk ∷ chunks) last = (chunk, no_error) ∷ whole chunks last

-- However the reader below cuts a file into chunks, what is read is the file without its carriage
-- returns: nothing else is lost, and the order stays.
read_all-whole :
    (p : List ℕ) (chunks : List (List ℕ)) (last : List ℕ)
    → read_all p (whole chunks last) ≡ some (select (λ c. not (is_cr c)) (concat chunks ++ last))
unfolding read_all read
read_all-whole p [] last = rw filter_bytes-select
read_all-whole p (chunk ∷ chunks) last =
    rw (read_all-whole p chunks last, filter_bytes-select)
      (ap some (
        sym (select-append (λ c. not (is_cr c)) chunk (concat chunks ++ last))
        ∙ ap (select (λ c. not (is_cr c))) (sym (append_assoc chunk (concat chunks) last))))
