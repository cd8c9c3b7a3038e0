-- ===== src/Sbx/Tag.antt =====
-- internal/sbx/tag.go. The regular expression
-- `CMD64_([A-Za-z0-9+/=]*)_END_(_[A-Za-z0-9]+_SBX)` never needs to back up: no class holds the "_"
-- that must follow it, so each class takes its longest run.
pub mod Leftmost
use buckle.Base.{
  ℕ, Bool, ◌&&◌, ◌||◌, List, [], ◌∷◌, ◌++◌, Option, none, some, ◌≡◌, ◌≢◌, refl, ap, sym, ◌∙◌, arith,
  Bytes, codes, ◌==◌, nat_eq, leb, if◌then◌else◌, All, is_empty, true, strip_prefix, span,
  strip_prefix_sound, strip_prefix-append, span_sound, span-append, append_assoc, subst, ◌↔◌,
  Option-cases, inl, inr,
}
use mathlib.Core.Option.{none-ne-some}
use buckle.Base.Chain.{◌>>=◌, of->>=}

-- `Tag`, but for the decoded payload, which depends on base64.
pub record Tag : Type 0 where
  pub raw : Bytes
  pub command_b64 : Bytes
  pub command : Bytes
  pub suffix : Bytes

abbrev pub is_alnum : ℕ → Bool
is_alnum c = (leb b'A' c && leb c b'Z') || (leb b'a' c && leb c b'z') || (leb b'0' c && leb c b'9')

abbrev pub is_base64 : ℕ → Bool
is_base64 c = is_alnum c || c == b'+' || c == b'/' || c == b'='

-- The two captures of a match that begins at the start of the text: the payload, and the random
-- part of the suffix.
abbrev nonempty : Bytes × Bytes → Option (Bytes × Bytes)
nonempty ([], rest) = none
nonempty (c ∷ cs, rest) = some (c ∷ cs, rest)

unfoldable pub match_at : Bytes → Option (Bytes × Bytes)
unfolding strip_prefix span
match_at text = do
  payload_on ← strip_prefix (codes "CMD64_") text
  let run = span is_base64 payload_on
  random_on ← strip_prefix (codes "_END__") run.1
  random ← nonempty (span is_alnum random_on)
  rest ← strip_prefix (codes "_SBX") random.1
  some (run.0, random.0)

-- `tagRE.FindStringSubmatch`: the leftmost match.
unfoldable pub find_match : Bytes → Option (Bytes × Bytes)
unfolding match_at
find_match [] = match_at []
find_match (c ∷ cs) =
    let later = find_match cs in elim (match_at (c ∷ cs)) [ none ↦ later | some m ↦ some m ]

abbrev pub suffix_of : Bytes → Bytes
suffix_of random = b'_' ∷ (random ++ codes "_SBX")

abbrev pub raw_of : Bytes → Bytes → Bytes
raw_of payload random = codes "CMD64_" ++ (payload ++ (codes "_END_" ++ suffix_of random))

abbrev pub or_empty : Option Bytes → Bytes
or_empty none = []
or_empty (some b) = b

-- `FindTag`; base64 decoding is the standard library's and stays a parameter.
unfoldable pub find_tag : (Bytes → Option Bytes) → Bytes → Option Tag
unfolding find_match
find_tag decode text = do
  m ← find_match text
  some (record {
    raw = raw_of m.0 m.1;
    command_b64 = m.0;
    command = or_empty (decode m.0);
    suffix = suffix_of m.1;
  })
