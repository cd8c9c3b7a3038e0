-- ===== src/ULog/Line/Tails.antt =====
-- How the denial behind a name is spelled, and what the expression of internal/ulog/denial.go reads there.
use buckle.Base.{
  ℕ, Bool, true, false, Bytes, codes, [], ◌∷◌, ◌++◌, some, nat_eq, strip_prefix, span, span-append,
  All, ◌≡◌, refl, sym, ap, subst, arith, contains, append-nil, is_empty,
}
use buckle.Base.Number.{is_digit}
use buckle.ULog.Line.{
  Tail, Match, is_visible, in_line, nonempty, behind_newline, match_end, match_tail,
}

-- An optional part with what stands in front of it.
abbrev pub part : ℕ → Bytes → Bytes
part c [] = []
part c (b ∷ bs) = c ∷ b ∷ bs

abbrev pub behind_number : Tail → Bytes
behind_number t = codes ") " ++ (t.operation ++ (part 32 t.target ++ part 10 t.message))

abbrev pub spell_tail : Tail → Bytes
spell_tail t = codes "(" ++ (t.pid ++ (codes ") deny(" ++ (t.deny_n ++ behind_number t)))

abbrev plural_s : Bool → Bytes
plural_s true = codes "s"
plural_s false = []

abbrev pub spell_front : Bool → Bytes → Bytes → Bytes
spell_front plural [] text = text
spell_front plural (d ∷ ds) text =
    (d ∷ ds) ++ (codes " duplicate report" ++ (plural_s plural ++ (codes " for " ++ text)))

-- The log line of a match; `plural` chooses between `report` and `reports`.
abbrev pub spell : Bool → Match → Bytes
spell plural m = spell_front plural m.duplicate (codes "Sandbox: " ++ (m.name ++ spell_tail m.tail))

abbrev pub Digits : Bytes → Type 0
Digits d = (is_empty d ≡ false) × All (λ c. is_digit c ≡ true) d

-- The parts that a line can hold, none of which looks like a later denial.
pub record SpelledTail (t : Tail) : Type 0 where
  pub pid_digits : Digits t.pid
  pub number_digits : Digits t.deny_n
  pub operation_given : is_empty t.operation ≡ false
  pub operation_visible : All (λ c. is_visible c ≡ true) t.operation
  pub target_in_line : All (λ c. in_line c ≡ true) t.target
  pub no_later : contains (behind_number t) (codes ") deny(") ≡ false

-- A run of passing bytes is the span at the end of a text.
span_whole : (p : ℕ → Bool) (a : Bytes) → All (λ b. p b ≡ true) a → span p a ≡ (a, [])
unfolding span
span_whole p [] h = refl
span_whole p (b ∷ a) h = ground (arith, span_whole p a h.1)

pub nonempty_run : (a b : Bytes) → is_empty a ≡ false → nonempty (a, b) ≡ some (a, b)
nonempty_run [] b h = cc
nonempty_run (c ∷ cs) b h = refl

match_end-parts :
    (target message : Bytes)
    → All (λ c. in_line c ≡ true) target
    → match_end (part 32 target ++ part 10 message) ≡ some (target, message)
unfolding match_end
match_end-parts [] [] h = refl
match_end-parts [] (c ∷ cs) h = refl
match_end-parts (b ∷ bs) [] h =
    let e : span in_line ((b ∷ bs) ++ []) ≡ (b ∷ bs, []) =
      subst (λ x. span in_line x ≡ (b ∷ bs, [])) (sym (append-nil (b ∷ bs)))
        (span_whole in_line (b ∷ bs) h) in
    ap (λ (r : Bytes × Bytes). some (r.0, behind_newline r.1)) e
match_end-parts (b ∷ bs) (c ∷ cs) h =
    ap (λ (r : Bytes × Bytes). some (r.0, behind_newline r.1))
      (span-append in_line (b ∷ bs) 10 (c ∷ cs) h refl)

operation_ends :
    (a target message : Bytes)
    → All (λ c. is_visible c ≡ true) a
    → span is_visible (a ++ (part 32 target ++ part 10 message))
      ≡ (a, part 32 target ++ part 10 message)
operation_ends a [] [] h = rw append-nil (span_whole is_visible a h)
operation_ends a [] (c ∷ cs) h = span-append is_visible a 10 (c ∷ cs) h refl
operation_ends a (b ∷ bs) message h = span-append is_visible a 32 _ h refl

-- What is spelled behind a name is matched as it is.
pub match_tail-spell : (t : Tail) → SpelledTail t → match_tail (spell_tail t) ≡ some t
unfolding match_tail strip_prefix
match_tail-spell t h =
    rw
      (
        span-append is_digit t.pid 41 (codes " deny(" ++ (t.deny_n ++ behind_number t))
            h.pid_digits.1 refl,
        nonempty_run t.pid (codes ") deny(" ++ (t.deny_n ++ behind_number t)) h.pid_digits.0,
        span-append is_digit t.deny_n 41
            (codes " " ++ (t.operation ++ (part 32 t.target ++ part 10 t.message)))
            h.number_digits.1 refl,
        nonempty_run t.deny_n (behind_number t) h.number_digits.0,
        operation_ends t.operation t.target t.message h.operation_visible,
        nonempty_run t.operation (part 32 t.target ++ part 10 t.message) h.operation_given,
        match_end-parts t.target t.message h.target_in_line,
      )
      refl

-- No denial is matched at the text or at any text behind.
