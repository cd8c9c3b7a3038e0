-- ===== src/Sbx/Args.antt =====
-- internal/sbx/args.go: the sandbox-exec command line.
pub mod Outcome
pub mod Grammar
use buckle.Base.{
  ℕ, ◌+◌, ◌/◌, ◌%◌, Bool, not, ◌||◌, List, [], ◌∷◌, ◌++◌, Bytes, codes, ◌==◌, ltb, if◌then◌else◌,
  ◌≡◌, refl, bytes_beq, nat_eq, bytes_eq, cut, none, some,
}

pub data ProfileSource : Type 0 where
  inline file named unknown : ProfileSource

pub record ProfileSpec : Type 0 where
  pub source : ProfileSource
  pub inline_text : Bytes
  pub file_path : Bytes
  pub name : Bytes
  pub params : List (Bytes × Bytes)
  pub extra : List Bytes
  pub command : List Bytes
  pub err : Bytes

-- `string(c)` of a byte: the UTF-8 encoding of the code point `c`.
unfoldable pub rune_bytes : ℕ → Bytes
rune_bytes c = if ltb c 128 then c ∷ [] else (192 + c / 64) ∷ (128 + c % 64) ∷ []

-- `strings.Cut(val, "=")` without the flag: all of `val` is the key where there is no "=".
unfoldable pub cut_eq : Bytes → Bytes × Bytes
unfolding cut
cut_eq val = elim (cut b'=' val) [ none ↦ (val, []) | some kv ↦ kv ]

abbrev pub takes_value : ℕ → Bool
takes_value c = c == b'D' || c == b'e' || c == b'f' || c == b'n' || c == b'p' || c == b't'

-- `(s *ProfileSpec) apply`
unfoldable pub apply : ProfileSpec → ℕ → Bytes → ProfileSpec
unfolding rune_bytes cut_eq
apply s opt val =
    if opt == b'D'
    then record s { params = s.params ++ cut_eq val ∷ [] }
    else if opt == b'f'
    then record s { source = file; file_path = val }
    else if opt == b'n'
    then record s { source = named; name = val }
    else if opt == b'p'
    then record s { source = inline; inline_text = val }
    else record s { extra = s.extra ++ (b'-' ∷ rune_bytes opt) ∷ val ∷ [] }

-- How one argument of the option loop ends.
pub data Scan : Type 0 where
  -- the argument is used up
  next : ProfileSpec → Scan
  -- an option at its end takes the next argument as its value
  wants : ProfileSpec → ℕ → Scan
  -- `--`: the command begins behind it
  dashes : Scan
  -- not an option: the command begins here
  stop : Scan

-- The inner loop, over the bytes of one argument behind its "-".
unfoldable pub scan_flags : ProfileSpec → Bytes → Scan
unfolding apply
scan_flags s [] = next s
scan_flags s (c ∷ []) =
    if takes_value c
    then wants s c
    else next (record s { extra = s.extra ++ (b'-' ∷ rune_bytes c) ∷ [] })
scan_flags s (c ∷ d ∷ cs) =
    if takes_value c
    then next (apply s c (d ∷ cs))
    else scan_flags (record s { extra = s.extra ++ (b'-' ∷ rune_bytes c) ∷ [] }) (d ∷ cs)

unfoldable pub scan_arg : ProfileSpec → Bytes → Scan
unfolding scan_flags
scan_arg s [] = stop
scan_arg s (c ∷ []) = stop
scan_arg s (c ∷ d ∷ cs) =
    if c ∷ d ∷ cs == codes "--"
    then dashes
    else if not (c == b'-')
    then stop
    else scan_flags s (d ∷ cs)

-- What follows the option loop.
unfoldable pub finish : ProfileSpec → List Bytes → ProfileSpec
finish s command = check_source s.source (record s { command = command })
  where
    check_source : ProfileSource → ProfileSpec → ProfileSpec
    check_source unknown t = record t { err = codes "no profile option" }
    check_source _ t = t

abbrev pub missing_value : ProfileSpec → ℕ → ProfileSpec
missing_value s c = record s {
  source = unknown;
  err = codes "option -" ++ (rune_bytes c ++ codes " requires a value");
}

-- The option loop over the arguments that are left.
unfoldable pub scan_args : ProfileSpec → List Bytes → ProfileSpec
unfolding scan_arg finish
scan_args s [] = finish s []
scan_args s (arg ∷ []) = elim (scan_arg s arg) [
  | next t ↦ finish t []
  | wants t c ↦ missing_value t c
  | dashes ↦ finish s []
  | stop ↦ finish s (arg ∷ [])
]
scan_args s (arg ∷ val ∷ rest) = elim (scan_arg s arg) [
  | next t ↦ scan_args t (val ∷ rest)
  | wants t c ↦ scan_args (apply t c val) rest
  | dashes ↦ finish s (val ∷ rest)
  | stop ↦ finish s (arg ∷ val ∷ rest)
]

abbrev pub empty_spec : ProfileSpec
empty_spec = record {
  source = unknown;
  inline_text = [];
  file_path = [];
  name = [];
  params = [];
  extra = [];
  command = [];
  err = [];
}

-- `ParseArgs`: the first argument is sandbox-exec itself.
unfoldable pub parse_args : List Bytes → ProfileSpec
unfolding scan_args
parse_args [] = scan_args empty_spec []
parse_args (program ∷ args) = scan_args empty_spec args

example_attached :
    parse_args
      (codes "x" ∷ codes "-dpabc" ∷ codes "-D" ∷ codes "k=v" ∷ codes "ls" ∷ codes "-p" ∷ [])
    ≡ record {
      source = inline;
      inline_text = codes "abc";
      file_path = [];
      name = [];
      params = (codes "k", codes "v") ∷ [];
      extra = codes "-d" ∷ [];
      command = codes "ls" ∷ codes "-p" ∷ [];
      err = [];
    }
unfolding parse_args bytes_beq
example_attached = refl
