-- ===== src/Sbx/Tag/Leftmost.antt =====
-- `FindTag` returns the leftmost tag, whole, and misses none.
use buckle.Base.{
  ℕ, [], ◌∷◌, ◌++◌, Option, none, some, ◌≡◌, ◌≢◌, refl, ap, sym, ◌∙◌, arith, Bytes, codes, nat_eq,
  All, true, strip_prefix, span, strip_prefix_sound, span_sound, span-append, append_assoc, subst,
  ◌↔◌, Option-cases, inl, inr,
}
use mathlib.Core.Option.{none-ne-some}
use buckle.Base.Chain.{of->>=}
use buckle.Sbx.Tag.{
  Tag, is_alnum, is_base64, nonempty, match_at, find_match, suffix_of, raw_of, or_empty, find_tag,
}

-- A payload and a random part that the expression accepts.
pub record IsTag (payload random : Bytes) : Type 0 where
  pub payload_ok : All (λ c. is_base64 c ≡ true) payload
  pub random_ok : All (λ c. is_alnum c ≡ true) random
  pub random_ne_nil : random ≢ []

nonempty-append :
    (random rest : Bytes) → random ≢ [] → nonempty (random, rest) ≡ some (random, rest)
nonempty-append [] rest h = absurd (h refl)
nonempty-append (c ∷ cs) rest h = refl

match_at-raw_of :
    (payload random post : Bytes)
    → IsTag payload random
    → match_at (raw_of payload random ++ post) ≡ some (payload, random)
unfolding match_at
match_at-raw_of payload random post h = rw (
  append_assoc payload (codes "_END_" ++ suffix_of random) post,
  append_assoc random (codes "_SBX") post,
  span-append is_base64 payload b'_' (codes "END__" ++ (random ++ (codes "_SBX" ++ post)))
      h.payload_ok refl,
  span-append is_alnum random b'_' (codes "SBX" ++ post) h.random_ok refl,
  nonempty-append random (codes "_SBX" ++ post) h.random_ne_nil,
)

nonempty_sound :
    (p : Bytes × Bytes) {q : Bytes × Bytes} → nonempty p ≡ some q → (p ≡ q) × (q.0 ≢ [])
nonempty_sound ([], rest) h = cc
nonempty_sound (c ∷ cs, rest) h = (ground arith, λ e. ground arith)

-- The pieces that the steps of `match_at` found make up the text.
IsTag-of_pieces :
    (text p q post : Bytes) (r : Bytes × Bytes)
    → text ≡ codes "CMD64_" ++ p
    → (span is_base64 p).1 ≡ codes "_END__" ++ q
    → span is_alnum q ≡ r
    → r.0 ≢ []
    → r.1 ≡ codes "_SBX" ++ post
    → IsTag (span is_base64 p).0 r.0 × ((x : Bytes) × (text ≡ raw_of (span is_base64 p).0 r.0 ++ x))
IsTag-of_pieces text p q post (random, rest) e1 e2 e3 ne e4 = (
  record {
    payload_ok = (span_sound is_base64 p).1;
    random_ok =
        subst (λ (s : Bytes × Bytes). All (λ c. is_alnum c ≡ true) s.0) e3
          (span_sound is_alnum q).1;
    random_ne_nil = ne;
  },
  (post, whole),
)
  where
    payload : Bytes
    payload = (span is_base64 p).0

    q_is : q ≡ random ++ (codes "_SBX" ++ post)
    q_is = (span_sound is_alnum q).0 ∙ cc

    p_is : p ≡ payload ++ (codes "_END__" ++ (random ++ (codes "_SBX" ++ post)))
    p_is = (span_sound is_base64 p).0 ∙ ap (◌++◌ payload) (e2 ∙ ap (◌++◌ (codes "_END__")) q_is)

    whole : text ≡ raw_of payload random ++ post
    whole =
        e1
        ∙ ap (◌++◌ (codes "CMD64_")) p_is
        ∙ rw (
          append_assoc payload (codes "_END_" ++ suffix_of random) post,
          append_assoc random (codes "_SBX") post,
        )

some-inj {ℓ} : {A : Type ℓ} {a b : A} → some a ≡ some b → a ≡ b
some-inj h = cc

-- A match begins with a tag's text.
pub match_at_sound :
    (text payload random : Bytes)
    → match_at text ≡ some (payload, random)
    → IsTag payload random × ((post : Bytes) × (text ≡ raw_of payload random ++ post))
unfolding match_at
match_at_sound text payload random h = of->>= (strip_prefix (codes "CMD64_") text) _ h λ p e1 h1.
    of->>= (strip_prefix (codes "_END__") (span is_base64 p).1) _ h1 λ q e2 h2.
      of->>= (nonempty (span is_alnum q)) _ h2 λ r e3 h3.
        of->>= (strip_prefix (codes "_SBX") r.1) _ h3 λ post e4 h4.
          let (same, ne) = nonempty_sound _ e3 in
          let e : ((span is_base64 p).0, r.0) ≡ (payload, random) = some-inj h4 in
          subst
            (λ (m : Bytes × Bytes). IsTag m.0 m.1 × ((x : Bytes) × (text ≡ raw_of m.0 m.1 ++ x))) e
            (IsTag-of_pieces text p q post r (strip_prefix_sound (codes "CMD64_") text e1)
              (strip_prefix_sound (codes "_END__") _ e2) same ne
              (strip_prefix_sound (codes "_SBX") _ e4))

-- No match begins inside `pre`, where `rest` follows it.
abbrev pub Skips : Bytes → Bytes → Type 0
Skips [] rest = Unit {0}
Skips (c ∷ pre) rest = (match_at (c ∷ (pre ++ rest)) ≡ none) × Skips pre rest

-- Where a text's leftmost match stands.
pub record LeftmostAt (text payload random : Bytes) : Type 0 where
  pub pre : Bytes
  pub post : Bytes
  pub splits : text ≡ pre ++ (raw_of payload random ++ post)
  pub accepted : IsTag payload random
  pub skips : Skips pre (raw_of payload random ++ post)

LeftmostAt-here :
    (text payload random : Bytes)
    → match_at text ≡ some (payload, random)
    → LeftmostAt text payload random
LeftmostAt-here text payload random h =
    let (ok, (post, e)) = match_at_sound text payload random h in
    record { pre = []; post = post; splits = e; accepted = ok; skips = tt }

LeftmostAt-later :
    (c : ℕ) {cs payload random : Bytes}
    → match_at (c ∷ cs) ≡ none
    → LeftmostAt cs payload random
    → LeftmostAt (c ∷ cs) payload random
LeftmostAt-later c {cs} h l = record {
  pre = c ∷ l.pre;
  post = l.post;
  splits = ap (◌∷◌ c) l.splits;
  accepted = l.accepted;
  skips = (ap (λ t. match_at (c ∷ t)) (sym l.splits) ∙ h, l.skips);
}

pub find_match_sound :
    (text payload random : Bytes)
    → find_match text ≡ some (payload, random)
    → LeftmostAt text payload random
unfolding find_match
find_match_sound [] payload random h = LeftmostAt-here [] payload random h
find_match_sound (c ∷ cs) payload random h = elim (Option-cases (match_at (c ∷ cs))) [
  | inl e ↦ LeftmostAt-later c e (find_match_sound cs payload random (rw (e, find_match) at h))
  | inr (m, e) ↦ LeftmostAt-here (c ∷ cs) payload random (e ∙ rw (e, find_match) at h)
]

find_match-Skips :
    (pre rest : Bytes) {m : Bytes × Bytes}
    → Skips pre rest
    → match_at rest ≡ some m
    → find_match (pre ++ rest) ≡ some m
unfolding find_match
find_match-Skips [] [] s h = h
find_match-Skips [] (c ∷ cs) s h = rw (h, find_match)
find_match-Skips (c ∷ pre) rest s h = rw (s.0, find_match) (find_match-Skips pre rest s.1 h)

pub find_match-LeftmostAt :
    {text payload random : Bytes}
    → LeftmostAt text payload random
    → find_match text ≡ some (payload, random)
find_match-LeftmostAt {text} {payload} {random} l =
    rw (l.splits)
      (find_match-Skips l.pre _ l.skips (match_at-raw_of payload random l.post l.accepted))

find_match-none : (pre rest : Bytes) → find_match (pre ++ rest) ≡ none → match_at rest ≡ none
unfolding find_match
find_match-none [] [] h = h
find_match-none [] (c ∷ cs) h = ground arith
find_match-none (c ∷ pre) rest h = find_match-none pre rest (ground arith)

abbrev pub tag_of : (Bytes → Option Bytes) → Bytes → Bytes → Tag
tag_of decode payload random = record {
  raw = raw_of payload random;
  command_b64 = payload;
  command = or_empty (decode payload);
  suffix = suffix_of random;
}

-- `find_tag` returns a tag exactly when the text holds it and no tag begins further left. The
-- command is the decoded payload, or empty where the payload is no base64.
pub find_tag-LeftmostAt :
    (decode : Bytes → Option Bytes) (text : Bytes) (t : Tag)
    → (find_tag decode text ≡ some t) ↔ (
        (payload : Bytes) × (random : Bytes) × (t ≡ tag_of decode payload random)
        × LeftmostAt text payload random)
unfolding find_tag
find_tag-LeftmostAt decode text t = (
  (λ h.
      of->>= (find_match text) _ h
        λ m e k. (m.0, m.1, sym (some-inj k), find_match_sound text m.0 m.1 e)),
  (λ (payload, random, e, l). rw (find_match-LeftmostAt l) (ap some (sym e))),
)

-- Where `find_tag` finds nothing, no part of the text is a tag.
pub find_tag-none :
    (decode : Bytes → Option Bytes) (pre payload random post : Bytes)
    → IsTag payload random
    → find_tag decode (pre ++ (raw_of payload random ++ post)) ≢ none
unfolding find_tag
find_tag-none decode pre payload random post ok h = absurd (
    none-ne-some _ (
      sym (find_match-none pre (raw_of payload random ++ post) nothing)
      ∙ match_at-raw_of payload random post ok))
  where
    nothing : find_match (pre ++ (raw_of payload random ++ post)) ≡ none
    nothing = ground arith
