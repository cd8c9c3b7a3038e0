-- ===== src/ULog/Line/Spelling.antt =====
-- Lines spelled from their parts, against the expression of internal/ulog/denial.go.
use buckle.Base.{
  ℕ, Bool, true, false, ◌||◌, Bytes, codes, [], ◌∷◌, ◌++◌, Option, none, some, ◌==◌, nat_eq,
  or_else, strip_prefix, strip_prefix-append, strip_prefix_sound, span, span-append, span_sound,
  All, All-imp, drop, ◌≡◌, refl, sym, ap, subst, ◌∙◌, arith, contains, has_prefix, is_some,
  Option-cases, inl, inr, is_empty,
}
use buckle.Base.Chain.{◌>>=◌, of->>=}
use buckle.Base.Number.{is_digit}
use mathlib.Core.Bool.{true≢false}
use buckle.ULog.Line.{Tail, Match, nonempty, match_tail, match_name, match_duplicate, match_line}
use buckle.ULog.Line.Tails.{
  Digits, SpelledTail, behind_number, match_tail-spell, nonempty_run, spell, spell_front,
  spell_tail,
}

abbrev NoTail : Bytes → Type 0
NoTail text = (match_tail text ≡ none) × (match_name text ≡ none)

prefix-contains : (t p : Bytes) → has_prefix t p ≡ true → contains t p ≡ true
unfolding contains
prefix-contains [] p h = h
prefix-contains (c ∷ t) p h = ground (arith, h)

contains-append : (a p b : Bytes) → contains (a ++ (p ++ b)) p ≡ true
unfolding contains
contains-append [] p b = prefix-contains (p ++ b) p (ap (λ o. is_some o) (strip_prefix-append p b))
contains-append (c ∷ a) p b = ground (arith, contains-append a p b)

nonempty-inv : (r q : Bytes × Bytes) → nonempty r ≡ some q → r ≡ q
nonempty-inv ([], b) q h = cc
nonempty-inv (c ∷ cs, b) q h = cc

match_tail-contains :
    (text : Bytes) (t : Tail) → match_tail text ≡ some t → contains text (codes ") deny(") ≡ true
unfolding match_tail
match_tail-contains text t h = of->>= (strip_prefix (codes "(") text) _ h λ pid_on e h.
    of->>= (nonempty (span is_digit pid_on)) _ h λ pid f h.
      of->>= (strip_prefix (codes ") deny(") pid.1) _ h λ n_on g h.
        let whole : text ≡ codes "(" ++ (pid.0 ++ (codes ") deny(" ++ n_on)) =
          strip_prefix_sound (codes "(") text e
          ∙ ap (λ x. codes "(" ++ x)
              ((span_sound is_digit pid_on).0
                ∙ ap (λ (r : Bytes × Bytes). r.0 ++ r.1) (nonempty-inv _ pid f)
                ∙ ap (λ x. pid.0 ++ x) (strip_prefix_sound (codes ") deny(") pid.1 g)) in
        subst (λ x. contains x (codes ") deny(") ≡ true) (sym whole)
          (contains-append (codes "(" ++ pid.0) (codes ") deny(") n_on)

or_false : (a b : Bool) → (a || b) ≡ false → b ≡ false
or_false a b h = ground arith

-- Texts without the mark hold no denial.
contains-NoTail : (text : Bytes) → contains text (codes ") deny(") ≡ false → NoTail text
unfolding match_name contains match_tail
contains-NoTail [] h = (refl, refl)
contains-NoTail (c ∷ cs) h =
    let k = contains-NoTail cs (or_false (has_prefix (c ∷ cs) (codes ") deny(")) _ h) in
    (
      elim (Option-cases (match_tail (c ∷ cs))) [
        | inl e ↦ e
        | inr (t, e) ↦ absurd (true≢false (sym (match_tail-contains (c ∷ cs) t e) ∙ h))
      ],
      rw (k.0, k.1) refl,
    )

NoTail-cons : (c : ℕ) (cs : Bytes) → (40 == c) ≡ false → NoTail cs → NoTail (c ∷ cs)
unfolding match_name match_tail strip_prefix
NoTail-cons c cs h k = (rw h refl, rw (k.0, k.1) refl)

NoTail-append : (a cs : Bytes) → All (λ c. (40 == c) ≡ false) a → NoTail cs → NoTail (a ++ cs)
NoTail-append [] cs h k = k
NoTail-append (c ∷ a) cs h k = NoTail-cons c (a ++ cs) h.0 (NoTail-append a cs h.1 k)

digit_no_paren : (c : ℕ) → is_digit c ≡ true → (40 == c) ≡ false
digit_no_paren c h = ground arith

not_prefix : (text p : Bytes) → contains text p ≡ false → strip_prefix p text ≡ none
not_prefix text p h = elim (Option-cases (strip_prefix p text)) [
  | inl e ↦ e
  | inr (rest, e) ↦ absurd (true≢false (sym (prefix-contains text p (ap (λ o. is_some o) e)) ∙ h))
]

match_tail_mismatch :
    (n text : Bytes)
    → Digits n
    → strip_prefix (codes ") deny(") (41 ∷ text) ≡ none
    → match_tail (codes "(" ++ (n ++ 41 ∷ text)) ≡ none
unfolding match_tail strip_prefix
match_tail_mismatch n text d e =
    rw (span-append is_digit n 41 text d.1 refl, nonempty_run n (41 ∷ text) d.0, e) refl

-- Behind the opening parenthesis of a spelled denial there is no other denial.
NoTail-number : (t : Tail) → SpelledTail t → NoTail (codes "(" ++ (t.deny_n ++ behind_number t))
unfolding match_name
NoTail-number t h =
    let k =
      NoTail-append t.deny_n (behind_number t)
        (All-imp _ _ digit_no_paren t.deny_n h.number_digits.1) (contains-NoTail _ h.no_later) in
    (
      match_tail_mismatch t.deny_n (drop 1 (behind_number t)) h.number_digits
          (not_prefix (behind_number t) (codes ") deny(") h.no_later),
      rw (k.0, k.1) refl,
    )

match_name-spell_tail : (t : Tail) → SpelledTail t → match_name (spell_tail t) ≡ none
unfolding match_name
match_name-spell_tail t h =
    let k =
      NoTail-append t.pid (codes ") deny" ++ (codes "(" ++ (t.deny_n ++ behind_number t)))
        (All-imp _ _ digit_no_paren t.pid h.pid_digits.1)
        (NoTail-append (codes ") deny") (codes "(" ++ (t.deny_n ++ behind_number t))
          (refl, (refl, (refl, (refl, (refl, (refl, tt)))))) (NoTail-number t h)) in
    rw (k.0, k.1) refl

match_name-spell :
    (name : Bytes) (t : Tail)
    → is_empty name ≡ false
    → SpelledTail t
    → match_name (name ++ spell_tail t) ≡ some (name, t)
unfolding match_name
match_name-spell [] t e h = cc
match_name-spell (c ∷ []) t e h = rw (match_tail-spell t h, match_name-spell_tail t h) refl
match_name-spell (c ∷ d ∷ ds) t e h = rw (match_name, match_name-spell (d ∷ ds) t refl h) refl

match_duplicate-spell :
    (plural : Bool) (d : ℕ) (ds text : Bytes)
    → All (λ c. is_digit c ≡ true) (d ∷ ds)
    → match_duplicate (spell_front plural (d ∷ ds) text) ≡ some (d ∷ ds, text)
unfolding match_duplicate strip_prefix
match_duplicate-spell true d ds text h =
    rw (span-append is_digit (d ∷ ds) 32 (codes "duplicate reports for " ++ text) h refl) refl
match_duplicate-spell false d ds text h =
    rw (span-append is_digit (d ∷ ds) 32 (codes "duplicate report for " ++ text) h refl) refl

spell_front-read :
    (plural : Bool) (duplicate text : Bytes)
    → All (λ c. is_digit c ≡ true) duplicate
    → or_else
        (match_duplicate (spell_front plural duplicate (codes "Sandbox: " ++ text)))
        ([], spell_front plural duplicate (codes "Sandbox: " ++ text))
      ≡ (duplicate, codes "Sandbox: " ++ text)
unfolding match_duplicate span
spell_front-read plural [] text h = refl
spell_front-read plural (d ∷ ds) text h =
    ap (λ o. or_else o ([], spell_front plural (d ∷ ds) (codes "Sandbox: " ++ text)))
      (match_duplicate-spell plural d ds (codes "Sandbox: " ++ text) h)

-- A line's parts; the count of duplicates may be missing.
pub record Spelled (m : Match) : Type 0 where
  pub duplicate_digits : All (λ c. is_digit c ≡ true) m.duplicate
  pub name_given : is_empty m.name ≡ false
  pub tail_spelled : SpelledTail m.tail

match_front : Bytes × Bytes → Option Match
match_front (duplicate, text) = do
  name_on ← strip_prefix (codes "Sandbox: ") text
  found ← match_name name_on
  some (record { duplicate = duplicate; name = found.0; tail = found.1 })

match_front-spell :
    (m : Match)
    → Spelled m
    → match_front (m.duplicate, codes "Sandbox: " ++ (m.name ++ spell_tail m.tail)) ≡ some m
unfolding match_front strip_prefix
match_front-spell m h = rw (match_name-spell m.name m.tail h.name_given h.tail_spelled) refl

-- The expression reads a spelled line back.
pub match_line-spell :
    (plural : Bool) (m : Match) → Spelled m → match_line (spell plural m) ≡ some m
unfolding match_line match_front
match_line-spell plural m h =
    ap match_front
      (spell_front-read plural m.duplicate (m.name ++ spell_tail m.tail) h.duplicate_digits)
    ∙ match_front-spell m h
