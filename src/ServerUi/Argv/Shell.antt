-- ===== src/ServerUi/Argv/Shell.antt =====
-- A POSIX shell reads back the command lines that `argv` of internal/server/ui.go writes.
use buckle.Base.{
  ℕ, Bool, true, false, ◌&&◌, Bytes, List, [], ◌∷◌, ◌++◌, Option, none, some, ◌==◌, nat_eq,
  if◌then◌else◌, ◌≡◌, refl, sym, ap, ◌∙◌, arith, map, append_assoc, append-nil, Bool-cases, ◌||◌,
  ◌⊎◌, ltb, length, bytes_eq, inl, inr,
}
use mathlib.Core.Bool.{true≢false}
use buckle.ServerUi.Argv.{
  is_safe, all_safe, escape_quotes, quote_arg, join_space, argv, view_arg, holds_profile, arg_limit,
  any_elided, texts, new_args_view, view_of, line_of, inline_in,
}

-- Where a shell stands in a line.
pub data Mode : Type 0 where
  between word quoted escaped : Mode

abbrev pub cons_word : Bytes → Option (List Bytes) → Option (List Bytes)
cons_word w none = none
cons_word w (some ws) = some (w ∷ ws)

-- The words of a line behind the bytes `acc` of the word that has begun. It takes no byte outside
-- quotes that a shell might give a meaning; `none` is a line that does not end.
unfoldable pub words : Mode → Bytes → Bytes → Option (List Bytes)
words between acc [] = some []
words word acc [] = some (acc ∷ [])
words quoted acc [] = none
words escaped acc [] = none
words quoted acc (c ∷ cs) = if c == 39 then words word acc cs else words quoted (acc ++ c ∷ []) cs
words escaped acc (c ∷ cs) = words word (acc ++ c ∷ []) cs
words between acc (c ∷ cs) =
    if c == 32
    then words between [] cs
    else if c == 39
    then words quoted [] cs
    else if c == 92
    then words escaped [] cs
    else if is_safe c
    then words word (c ∷ []) cs
    else none
words word acc (c ∷ cs) =
    if c == 32
    then cons_word acc (words between [] cs)
    else if c == 39
    then words quoted acc cs
    else if c == 92
    then words escaped acc cs
    else if is_safe c
    then words word (acc ++ c ∷ []) cs
    else none

plain_byte :
    (c : ℕ) → is_safe c ≡ true → ((c == 32) ≡ false) × ((c == 39) ≡ false) × ((c == 92) ≡ false)
plain_byte c h = ground (arith, h)

or_parts : (a b : Bool) → (a || b) ≡ false → (a ≡ false) × (b ≡ false)
or_parts a b h = ground arith

and_parts : (a b : Bool) → (a && b) ≡ true → (a ≡ true) × (b ≡ true)
and_parts a b h = ground arith

-- A byte is appended to a word.
snoc-words :
    (acc : Bytes) (c : ℕ) (a text : Bytes)
    → words word ((acc ++ c ∷ []) ++ a) text ≡ words word (acc ++ c ∷ a) text
snoc-words acc c a text = ap (λ x. words word x text) (append_assoc acc (c ∷ []) a)

words-safe :
    (a acc text : Bytes)
    → all_safe a ≡ true
    → words word acc (a ++ text) ≡ words word (acc ++ a) text
unfolding words
words-safe [] acc text h = rw append-nil refl
words-safe (c ∷ a) acc text h =
    let (s, rest) = and_parts (is_safe c) (all_safe a) h in
    let (x, y, z) = plain_byte c s in
    rw (x, y, z, s) (words-safe a (acc ++ c ∷ []) text rest ∙ snoc-words acc c a text)

words-escape_quotes :
    (a acc text : Bytes)
    → words quoted acc (escape_quotes a ++ 39 ∷ text) ≡ words word (acc ++ a) text
unfolding words escape_quotes
words-escape_quotes [] acc text = rw append-nil refl
words-escape_quotes (c ∷ a) acc text = elim (Bool-cases (c == 39)) [
  | inl e ↦
      let is_quote : 39 ≡ c = ground (arith, e) in
      rw e (
        words-escape_quotes a (acc ++ 39 ∷ []) text
        ∙ snoc-words acc 39 a text
        ∙ ap (λ x. words word (acc ++ x ∷ a) text) is_quote)
  | inr e ↦ rw e (rw e (words-escape_quotes a (acc ++ c ∷ []) text ∙ snoc-words acc c a text))
]

words-quoted :
    (a text : Bytes)
    → words between [] ((39 ∷ (escape_quotes a ++ 39 ∷ [])) ++ text) ≡ words word a text
unfolding words
words-quoted a text =
    ap (λ x. words quoted [] x) (append_assoc (escape_quotes a) (39 ∷ []) text)
    ∙ words-escape_quotes a [] text

words-quote_arg : (a text : Bytes) → words between [] (quote_arg a ++ text) ≡ words word a text
unfolding words quote_arg
words-quote_arg [] text = words-quoted [] text
words-quote_arg (c ∷ cs) text = elim (Bool-cases (is_safe c && all_safe cs)) [
  | inl e ↦
      let (s, rest) = and_parts (is_safe c) (all_safe cs) e in
      let (x, y, z) = plain_byte c s in rw e (rw (x, y, z, s) (words-safe cs (c ∷ []) text rest))
  | inr e ↦ rw e (words-quoted (c ∷ cs) text)
]

words-join_space :
    (args : List Bytes) → words between [] (join_space (map (λ a. quote_arg a) args)) ≡ some args
unfolding words join_space
words-join_space [] = refl
words-join_space (a ∷ []) =
    ap (λ x. words between [] x) (sym (append-nil (quote_arg a))) ∙ words-quote_arg a []
words-join_space (a ∷ b ∷ args) =
    words-quote_arg a (32 ∷ join_space (map (λ a. quote_arg a) (b ∷ args)))
    ∙ ap (cons_word a) (words-join_space (b ∷ args))

-- A shell splits the command line that `argv` shows for a stored argv into the arguments.
pub words-argv :
    (strings : Bytes → Option (List Bytes)) (js : Bytes) (args : List Bytes)
    → strings js ≡ some args
    → words between [] (argv strings js) ≡ some args
unfolding argv
words-argv strings js args h = rw (argv, h) (words-join_space args)

unelided_arg :
    (inline a : Bytes) → (view_arg inline a).1 ≡ false → (view_arg inline a).0 ≡ quote_arg a
unfolding view_arg
unelided_arg inline a h = elim (Bool-cases (holds_profile inline a)) [
  | inl e ↦ absurd (true≢false (rw e at h))
  | inr e ↦ elim (Bool-cases (ltb arg_limit (length a))) [
    | inl f ↦ absurd (true≢false (rw (e, f) at h))
    | inr f ↦ rw (e, f) refl
  ]
]

unelided_texts :
    (inline : Bytes) (args : List Bytes)
    → any_elided (map (λ a. view_arg inline a) args) ≡ false
    → texts (map (λ a. view_arg inline a) args) ≡ map (λ a. quote_arg a) args
unelided_texts inline [] h = refl
unelided_texts inline (a ∷ args) h =
    let (here, rest) =
      or_parts (view_arg inline a).1 (any_elided (map (λ a. view_arg inline a) args)) h in
    rw (unelided_arg inline a here, unelided_texts inline args rest) refl

view_of-whole :
    (path js : Bytes) (o : Option (List Bytes))
    → ((view_of path js (line_of js o) o).full ≡ line_of js o)
      ⊎ ((view_of path js (line_of js o) o).text ≡ line_of js o)
view_of-whole path js none = inr refl
view_of-whole path js (some args) =
    elim (Bool-cases (any_elided (map (λ a. view_arg (inline_in path args) a) args))) [
      | inl e ↦ inl (rw e refl)
      | inr e ↦ inr (ap (λ x. join_space x) (unelided_texts (inline_in path args) args e))
    ]

-- Where the timeline elides part of a command line, it has the whole beside it; else its text is
-- the whole.
pub new_args_view-whole :
    (strings : Bytes → Option (List Bytes)) (path js : Bytes)
    → ((new_args_view strings path js).full ≡ argv strings js)
      ⊎ ((new_args_view strings path js).text ≡ argv strings js)
unfolding new_args_view argv
new_args_view-whole strings path js = view_of-whole path js (strings js)
