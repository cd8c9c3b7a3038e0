-- ===== src/ULog/Parse.antt =====
-- `Parse` of internal/ulog/denial.go. json.Unmarshal into `rawLine` and time.Parse with the layout
-- of the log are parameters.
use buckle.Base.{ℕ, Bool, false, Bytes, [], ◌∷◌, Option, none, some, ◌==◌, nat_eq, if◌then◌else◌}
use buckle.Base.Int.{ℤ, pos}
use buckle.Base.Number.{parse_int}
use buckle.Base.Space.{trim_space}
use buckle.ULog.{Denial}
use buckle.ULog.Line.{Match, match_line}

pub record RawLine : Type 0 where
  pub event_message : Option Bytes
  pub timestamp : Bytes
  pub mach_timestamp : ℕ

-- A result, ErrSkip, or an error: of json.Unmarshal or of the timestamp.
pub data Parsed {ℓ} (A : Type ℓ) : Type ℓ where
  skip unparseable bad_timestamp : Parsed A
  ok : A → Parsed A

infixl 5 ◌>>=◌
abbrev ◌>>=◌ {ℓ κ} : {A : Type ℓ} {B : Type κ} → Parsed A → (A → Parsed B) → Parsed B
skip >>= f = skip
unparseable >>= f = unparseable
bad_timestamp >>= f = bad_timestamp
ok a >>= f = f a

abbrev expect {ℓ} : {A : Type ℓ} → Option A → Parsed A → Parsed A
expect none e = e
expect (some a) e = ok a

abbrev natural : Option ℤ → Option ℕ
natural (some (pos n)) = some n
natural _ = none

-- `strconv.Atoi` on a run of digits
unfoldable pub atoi : Bytes → Option ℕ
unfolding parse_int
atoi digits = natural (parse_int digits)

-- a count that is 0 where the line has none
unfoldable pub duplicate_of : Bytes → Option ℕ
unfolding atoi
duplicate_of [] = some 0
duplicate_of (c ∷ cs) = atoi (c ∷ cs)

abbrev pub starts_object : Bytes → Bool
starts_object [] = false
starts_object (c ∷ cs) = c == b'{'

abbrev match_in : Option Bytes → Option Match
match_in none = none
match_in (some text) = match_line text

-- `Parse` behind its match
unfoldable pub denial_of : RawLine → Match → ℕ → Parsed Denial
unfolding atoi duplicate_of trim_space
denial_of r m time = do
  let t = m.tail
  pid ← expect (atoi t.pid) skip
  deny_n ← expect (atoi t.deny_n) skip
  duplicate ← expect (duplicate_of m.duplicate) skip
  ok (record {
    time = time;
    mach_time = r.mach_timestamp;
    name = m.name;
    pid = pid;
    deny_n = deny_n;
    operation = t.operation;
    target = t.target;
    message = trim_space t.message;
    duplicate = duplicate;
  })

module _ (as_line : Bytes → Option RawLine) (as_time : Bytes → Option ℕ) where
  -- `Parse` behind the test for an object
  unfoldable pub parse_object : Bytes → Parsed Denial
  unfolding match_line denial_of
  parse_object line = do
    r ← expect (as_line line) unparseable
    m ← expect (match_in r.event_message) skip
    time ← expect (as_time r.timestamp) bad_timestamp
    denial_of r m time

  -- `Parse`
  unfoldable pub parse : Bytes → Parsed Denial
  unfolding trim_space parse_object
  parse line =
      let trimmed = trim_space line in if starts_object trimmed then parse_object trimmed else skip
