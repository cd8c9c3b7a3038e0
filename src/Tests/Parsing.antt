-- ===== src/Tests/Parsing.antt =====
-- Runs of the model of command lines, tags and the environment at fixed inputs, with theorems applied to them.
use buckle.Base.{
  All, ◌==◌, true, false, List, [], ◌∷◌, ◌++◌, Option, none, some, ◌≡◌, ◌≢◌, ◌↔◌, refl, Bytes,
  codes, if◌then◌else◌, nat_eq, bytes_eq, pair_eq,
}
use buckle.Base.Map
use buckle.Sbx.Args.{unknown, parse_args, unknown, finish, takes_value, empty_spec}
use buckle.Sbx.Args.Outcome.{parse_args-Explains}
use buckle.Sbx.Args.Grammar.{
  Word, detached, attached, IsWord, spell_all, note_all, at_dashes, parse_args-spell_all,
  parse_args-missing_value,
}
use buckle.Sbx.Tag.{Tag, find_tag}
use buckle.Sbx.Tag.Leftmost.{IsTag, LeftmostAt, tag_of, find_tag-LeftmostAt}
use buckle.Detect.Env.{pick_env, env_names, contains_name, getenv, lookup-pick_env}

-- Command lines.
parse_args-Explains_example :
    ((parse_args (codes "sandbox-exec" ∷ codes "ls" ∷ [])).source ≡ unknown)
    ↔ ((parse_args (codes "sandbox-exec" ∷ codes "ls" ∷ [])).err ≢ [])
parse_args-Explains_example = parse_args-Explains (codes "sandbox-exec" ∷ codes "ls" ∷ [])

abbrev words : List Word
words = detached (codes "d") b'p' (codes "(version 1)") ∷ attached [] b'D' (codes "A=1") ∷ []

words-IsWord : All IsWord words
words-IsWord = (((refl, tt), refl), ((tt, refl, (λ e. cc)), tt))

parse_args-spell_all_example :
    parse_args (codes "sandbox-exec" ∷ (spell_all words ++ codes "--" ∷ codes "ls" ∷ []))
    ≡ finish (note_all empty_spec words) (codes "ls" ∷ [])
parse_args-spell_all_example =
    parse_args-spell_all (codes "sandbox-exec") words words-IsWord (at_dashes (codes "ls" ∷ []))

d_IsFlags : takes_value b'd' ≡ false
d_IsFlags = refl

f_takes_value : takes_value b'f' ≡ true
f_takes_value = refl

parse_args-missing_value_example :
    let spec = parse_args (codes "sandbox-exec" ∷ (spell_all words ++ codes "-df" ∷ [])) in
    (spec.source ≡ unknown) × (spec.err ≡ codes "option -f requires a value") × (spec.command ≡ [])
parse_args-missing_value_example =
    parse_args-missing_value (codes "sandbox-exec") words (codes "d") b'f' words-IsWord
      (d_IsFlags, tt) f_takes_value

-- A decoder for a single payload.
abbrev decode_one : Bytes → Option Bytes
decode_one b = if b == codes "bHM=" then some (codes "ls") else none

abbrev message : Bytes
message = codes "deny CMD64_bHM=_END__a1_SBX"

abbrev found_tag : Tag
found_tag = record {
  raw = codes "CMD64_bHM=_END__a1_SBX";
  command_b64 = codes "bHM=";
  command = codes "ls";
  suffix = codes "_a1_SBX";
}

find_tag-LeftmostAt_example : (find_tag decode_one message ≡ some found_tag) ↔ (
    (payload : Bytes) × (random : Bytes) × (found_tag ≡ tag_of decode_one payload random)
    × LeftmostAt message payload random)
find_tag-LeftmostAt_example = find_tag-LeftmostAt decode_one message found_tag

payload-IsTag : IsTag (codes "bHM=") (codes "a1")
payload-IsTag = record {
  payload_ok = (refl, (refl, (refl, (refl, tt))));
  random_ok = (refl, (refl, tt));
  random_ne_nil = λ e. cc;
}

abbrev env : List Bytes
env = codes "HOME=/" ∷ codes "CURSOR_REQUEST_ID=r1" ∷ codes "CURSOR_REQUEST_ID=r2" ∷ []

lookup-pick_env_example : Map.lookup (codes "CURSOR_REQUEST_ID") (pick_env env) ≡ (
    if contains_name env_names (codes "CURSOR_REQUEST_ID")
    then getenv (codes "CURSOR_REQUEST_ID") env
    else none)
lookup-pick_env_example = lookup-pick_env env (codes "CURSOR_REQUEST_ID")
