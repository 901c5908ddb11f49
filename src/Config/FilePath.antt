-- ===== src/Config/FilePath.antt =====
-- `ParseConfigFile` of internal/config/config.go.
use native.Mathlib.Nat.{add-zero, zero-add}
use windows_exporter.Base.{
  ◌∙◌, ap, sym, append-nil, ℕ, suc, ◌+◌, ◌<◌, ◌≡◌, refl, true, false, List, [], ◌∷◌, ◌++◌, none,
  some, arith, Str, str_eq, codes, cut_prefix, has_suffix, if◌then◌else◌, length, leb, All,
  get_elem?, length-append,
}

abbrev pub long_prefix : Str
long_prefix = codes "--config.file="

abbrev pub short_prefix : Str
short_prefix = codes "-config.file="

abbrev pub flag_suffix : Str
flag_suffix = codes "-config.file"

-- `os.Args[i+1]`, which is read only in range.
abbrev pub os_arg : List Str → ℕ → Str
os_arg os_args i = elim (get_elem? os_args i) [ none ↦ [] | some s ↦ s ]

-- The loop, at index `i`; `os_args` is the variable `os.Args`, which `args` need not be.
unfoldable pub scan_args : List Str → ℕ → List Str → Str
scan_args os_args i [] = []
scan_args os_args i (cli_flag ∷ args) =
    let rest = scan_args os_args (suc i) args in
    elim (cut_prefix cli_flag long_prefix) [
      | some config_file ↦ config_file
      | none ↦ elim (cut_prefix cli_flag short_prefix) [
        | some config_file ↦ config_file
        | none ↦
            if has_suffix cli_flag flag_suffix
            then (if leb (length os_args) (suc i) then [] else os_arg os_args (suc i))
            else rest
      ]
    ]

unfoldable pub parse_config_file : List Str → List Str → Str
parse_config_file os_args args = scan_args os_args 0 args

-- An argument that is no form of the flag.
pub record IsOther (s : Str) : Type 0 where
  pub not_long : cut_prefix s long_prefix ≡ none
  pub not_short : cut_prefix s short_prefix ≡ none
  pub not_flag : has_suffix s flag_suffix ≡ false

scan_args-skip :
    (os_args : List Str) (i : ℕ) (before after : List Str)
    → All IsOther before
    → scan_args os_args i (before ++ after) ≡ scan_args os_args (i + length before) after
unfolding scan_args
scan_args-skip os_args i [] after h = rw add-zero
scan_args-skip os_args i (s ∷ before) after h =
    ground (arith, scan_args-skip os_args (suc i) before after h.1)

get_elem?-append :
    (before : List Str) (s : Str) (after : List Str)
    → get_elem? (before ++ s ∷ after) (length before) ≡ some s
get_elem?-append [] s after = refl
get_elem?-append (b ∷ before) s after = get_elem?-append before s after

scan_args-long :
    (os_args : List Str) (i : ℕ) (config_file : Str) (after : List Str)
    → scan_args os_args i ((long_prefix ++ config_file) ∷ after) ≡ config_file
unfolding scan_args
scan_args-long os_args i config_file after = refl

scan_args-short :
    (os_args : List Str) (i : ℕ) (config_file : Str) (after : List Str)
    → scan_args os_args i ((short_prefix ++ config_file) ∷ after) ≡ config_file
unfolding scan_args
scan_args-short os_args i config_file after = refl

-- Behind arguments that are no form of the flag, `--config.file=FILE` and `-config.file=FILE` give FILE,
-- whatever follows.
parse_config_file-assigned :
    (os_args before after : List Str) (config_file : Str)
    → All IsOther before
    → (parse_config_file os_args (before ++ (long_prefix ++ config_file) ∷ after) ≡ config_file)
      × (parse_config_file os_args (before ++ (short_prefix ++ config_file) ∷ after) ≡ config_file)
unfolding parse_config_file
parse_config_file-assigned os_args before after config_file h = (
  scan_args-skip os_args 0 before _ h ∙ scan_args-long os_args _ config_file after,
  scan_args-skip os_args 0 before _ h ∙ scan_args-short os_args _ config_file after,
)

-- Without any form of the flag there is no configuration file.
parse_config_file-absent :
    (os_args args : List Str) → All IsOther args → parse_config_file os_args args ≡ []
unfolding parse_config_file scan_args
parse_config_file-absent os_args args h =
    ap (λ l. scan_args os_args 0 l) (sym (append-nil args)) ∙ scan_args-skip os_args 0 args [] h

-- An argument that ends in the flag's name and assigns nothing: the form with the file apart.
pub record IsBare (s : Str) : Type 0 where
  pub not_long : cut_prefix s long_prefix ≡ none
  pub not_short : cut_prefix s short_prefix ≡ none
  pub flag : has_suffix s flag_suffix ≡ true

scan_args-bare :
    (os_args : List Str) (i : ℕ) (cli_flag : Str) (after : List Str)
    → IsBare cli_flag
    → get_elem? os_args (suc i) ≡ some cli_flag
    → suc i < length os_args
    → scan_args os_args i (cli_flag ∷ after) ≡ cli_flag
unfolding scan_args
scan_args-bare os_args i cli_flag after b e h = ground arith

-- `run` passes `os.Args[1:]`, and the loop reads `os.Args` at its own index plus one. So for
-- `--config.file FILE` the result is the flag itself, `--config.file`, and never FILE.
pub parse_config_file-separated :
    (program : Str) (before : List Str) (cli_flag config_file : Str) (after : List Str)
    → All IsOther before
    → IsBare cli_flag
    → let args = before ++ cli_flag ∷ config_file ∷ after in
      parse_config_file (program ∷ args) args ≡ cli_flag
unfolding parse_config_file
parse_config_file-separated program before cli_flag config_file after h b =
    scan_args-skip _ 0 before _ h
    ∙ scan_args-bare (program ∷ before ++ cli_flag ∷ config_file ∷ after) (0 + length before)
        cli_flag _ b (rw zero-add (get_elem?-append before cli_flag (config_file ∷ after)))
        (omega (arith, length-append before (cli_flag ∷ config_file ∷ after)))
