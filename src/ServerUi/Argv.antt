-- ===== src/ServerUi/Argv.antt =====
-- The command lines on the pages of internal/server/ui.go. json.Unmarshal into strings is a
-- parameter.
pub mod Shell
use buckle.Base.{
  has_suffix, ℕ, zero, suc, ◌-◌, ◌<◌, Bool, true, false, not, ◌&&◌, ◌||◌, Bytes, codes, List, [],
  ◌∷◌, ◌++◌, Option, none, some, ◌==◌, nat_eq, bytes_eq, bytes_beq, if◌then◌else◌, ltb, leb,
  is_empty, length, take, drop, get_elem?, or_else, has_prefix, map,
}
use buckle.Base.Number.{decimal}
use buckle.Sbx.Tag.{is_alnum}
use buckle.Sbx.Args.{parse_args}
use buckle.Correlate.Events.{sandbox_exec_path}

-- A byte of `safeArg`.
abbrev pub is_safe : ℕ → Bool
is_safe c =
    is_alnum c
    || (c == b'_' || c == b'@' || c == b'%' || c == b'+' || c == b'=' || c == b':')
    || (c == b',' || c == b'.' || c == b'/' || c == b'-')

abbrev pub all_safe : Bytes → Bool
all_safe [] = true
all_safe (c ∷ cs) = is_safe c && all_safe cs

-- `safeArg.MatchString`
abbrev pub matches_safe : Bytes → Bool
matches_safe a = not (is_empty a) && all_safe a

-- `strings.ReplaceAll(a, "'", "'\''")`
unfoldable pub escape_quotes : Bytes → Bytes
escape_quotes [] = []
escape_quotes (c ∷ cs) =
    if c == 39 then 39 ∷ 92 ∷ 39 ∷ 39 ∷ escape_quotes cs else c ∷ escape_quotes cs

-- `quoteArg`
unfoldable pub quote_arg : Bytes → Bytes
unfolding escape_quotes
quote_arg a = if matches_safe a then a else 39 ∷ (escape_quotes a ++ 39 ∷ [])

-- `strings.Join(q, " ")`
unfoldable pub join_space : List Bytes → Bytes
join_space [] = []
join_space (q ∷ []) = q
join_space (q ∷ r ∷ qs) = q ++ 32 ∷ join_space (r ∷ qs)

-- The line of a decoded argv, and the JSON itself where it is none.
abbrev pub line_of : Bytes → Option (List Bytes) → Bytes
line_of js none = js
line_of js (some args) = join_space (map (λ a. quote_arg a) args)

-- `argv`
unfoldable pub argv : (Bytes → Option (List Bytes)) → Bytes → Bytes
unfolding quote_arg join_space
argv strings js = line_of js (strings js)

abbrev pub arg_limit : ℕ
arg_limit = 1024

abbrev pub arg_head : ℕ
arg_head = 200

pub record ArgsView : Type 0 where
  pub text : Bytes
  pub full : Bytes

-- Whether an argument holds the inline profile.
unfoldable pub holds_profile : Bytes → Bytes → Bool
unfolding has_suffix
holds_profile inline a =
    not (is_empty inline) && has_suffix a inline && (a == inline || has_prefix a (codes "-"))

-- `utf8.RuneStart`
abbrev pub rune_start : ℕ → Bool
rune_start b = ltb b 0x80 || leb 0xc0 b

-- the loop over `cut`
unfoldable pub cut_at : Bytes → ℕ → ℕ
cut_at a zero = zero
cut_at a (suc cut) =
    let less = cut_at a cut in
    if rune_start (or_else (get_elem? a (suc cut)) 0) then suc cut else less

abbrev opt_part : Bytes → Bytes
opt_part [] = []
opt_part (c ∷ cs) = quote_arg (c ∷ cs)

abbrev ellipsis : Bytes
ellipsis = 0xe2 ∷ 0x80 ∷ 0xa6 ∷ []

-- one argument in the loop of `newArgsView`, and whether it is elided
unfoldable pub view_arg : Bytes → Bytes → Bytes × Bool
unfolding holds_profile cut_at quote_arg decimal
view_arg inline a =
    if holds_profile inline a
    then (
      opt_part (take (length a - length inline) a)
          ++ (codes "<inline profile, "
              ++ (decimal (length inline) ++ codes " bytes: see Profile text>")),
      true,
    )
    else if ltb arg_limit (length a)
    then (let cut = cut_at a arg_head in
        (
          quote_arg (take cut a)
              ++ (ellipsis ++ (codes "<" ++ (decimal (length a - cut) ++ codes " more bytes>"))),
          true,
        ))
    else (quote_arg a, false)

abbrev pub texts : List (Bytes × Bool) → List Bytes
texts [] = []
texts ((q, e) ∷ qs) = q ∷ texts qs

abbrev pub any_elided : List (Bytes × Bool) → Bool
any_elided [] = false
any_elided ((q, e) ∷ qs) = e || any_elided qs

-- the profile on the command line of sandbox-exec
unfoldable pub inline_in : Bytes → List Bytes → Bytes
unfolding parse_args
inline_in path args = if path == sandbox_exec_path then (parse_args args).inline_text else []

abbrev pub view_of : Bytes → Bytes → Bytes → Option (List Bytes) → ArgsView
view_of path js whole none = record { text = js; full = [] }
view_of path js whole (some args) =
    let views = map (λ a. view_arg (inline_in path args) a) args in
    record { text = join_space (texts views); full = if any_elided views then whole else [] }

-- `newArgsView`
unfoldable pub new_args_view : (Bytes → Option (List Bytes)) → Bytes → Bytes → ArgsView
unfolding view_arg argv join_space inline_in
new_args_view strings path js = view_of path js (argv strings js) (strings js)
