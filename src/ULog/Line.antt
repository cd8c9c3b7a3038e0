-- ===== src/ULog/Line.antt =====
-- The regular expression `denialRE` of internal/ulog/denial.go. Its name is greedy, so of all places
-- where the rest can match, the last counts; no other part of it ever backs up.
pub mod Tails
pub mod Spelling
use buckle.Base.{
  ℕ, Bool, true, false, not, ◌&&◌, ◌||◌, Bytes, codes, List, [], ◌∷◌, ◌++◌, Option, none, some,
  ◌==◌, nat_eq, if◌then◌else◌, or_else, strip_prefix, span,
}
use buckle.Base.Chain.{◌>>=◌}
use buckle.Base.Number.{is_digit}

-- The captures from the parenthesis behind the name on.
pub record Tail : Type 0 where
  pub pid : Bytes
  pub deny_n : Bytes
  pub operation : Bytes
  pub target : Bytes
  pub message : Bytes

pub record Match : Type 0 where
  pub duplicate : Bytes
  pub name : Bytes
  pub tail : Tail

-- `\S`
abbrev pub is_visible : ℕ → Bool
is_visible c = not (c == 9 || c == 10 || c == 12 || c == 13 || c == 32)

abbrev pub in_line : ℕ → Bool
in_line c = not (c == 10)

-- A class under `+`.
abbrev pub nonempty : Bytes × Bytes → Option (Bytes × Bytes)
nonempty ([], rest) = none
nonempty (c ∷ cs, rest) = some (c ∷ cs, rest)

abbrev pub behind_newline : Bytes → Bytes
behind_newline [] = []
behind_newline (c ∷ cs) = cs

-- `(?: ([^\n]*))?(?:\n(.*))?$`
unfoldable pub match_end : Bytes → Option (Bytes × Bytes)
unfolding span
match_end [] = some ([], [])
match_end (c ∷ cs) =
    if c == 32
    then some ((span in_line cs).0, behind_newline (span in_line cs).1)
    else if c == 10
    then some ([], cs)
    else none

-- `\((\d+)\) deny\((\d+)\) (\S+)` and the end
unfoldable pub match_tail : Bytes → Option Tail
unfolding strip_prefix span match_end
match_tail text = do
  pid_on ← strip_prefix (codes "(") text
  pid ← nonempty (span is_digit pid_on)
  n_on ← strip_prefix (codes ") deny(") pid.1
  n ← nonempty (span is_digit n_on)
  operation_on ← strip_prefix (codes ") ") n.1
  operation ← nonempty (span is_visible operation_on)
  rest ← match_end operation.1
  some (record {
    pid = pid.0;
    deny_n = n.0;
    operation = operation.0;
    target = rest.0;
    message = rest.1;
  })

abbrev pub name_of_one : ℕ → Option Tail → Option (Bytes × Tail)
name_of_one c none = none
name_of_one c (some t) = some (c ∷ [], t)

abbrev pub longer_name : ℕ → Option Tail → Option (Bytes × Tail) → Option (Bytes × Tail)
longer_name c here (some (name, t)) = some (c ∷ name, t)
longer_name c here none = name_of_one c here

-- `(.+)` and the rest
unfoldable pub match_name : Bytes → Option (Bytes × Tail)
unfolding match_tail
match_name [] = none
match_name (c ∷ cs) = longer_name c (match_tail cs) (match_name cs)

-- `(\d+) duplicate reports? for `
unfoldable pub match_duplicate : Bytes → Option (Bytes × Bytes)
unfolding strip_prefix span
match_duplicate text = do
  digits ← nonempty (span is_digit text)
  report ← strip_prefix (codes " duplicate report") digits.1
  rest ← strip_prefix (codes " for ") (or_else (strip_prefix (codes "s") report) report)
  some (digits.0, rest)

-- `denialRE.FindStringSubmatch`
unfoldable pub match_line : Bytes → Option Match
unfolding match_duplicate match_name
match_line text = do
  let front = or_else (match_duplicate text) ([], text)
  name_on ← strip_prefix (codes "Sandbox: ") front.1
  found ← match_name name_on
  some (record { duplicate = front.0; name = found.0; tail = found.1 })
