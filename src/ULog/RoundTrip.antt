-- ===== src/ULog/RoundTrip.antt =====
-- `Parse` of internal/ulog/denial.go on the lines that the kernel writes.
use buckle.Base.{ℕ, Bool, true, Bytes, Option, some, ◌≡◌, refl}
use buckle.Base.Space.{trim_space}
use buckle.ULog.Line.{Match}
use buckle.ULog.Line.Spelling.{Spelled, match_line-spell}
use buckle.ULog.Line.Tails.{spell}
use buckle.ULog.Parse.{
  RawLine, ok, atoi, duplicate_of, starts_object, denial_of, parse_object, parse,
}

-- The numbers of a line, as far as they are 64-bit integers.
pub record Numbers (m : Match) (pid deny_n duplicate : ℕ) : Type 0 where
  pub pid_is : atoi m.tail.pid ≡ some pid
  pub deny_n_is : atoi m.tail.deny_n ≡ some deny_n
  pub duplicate_is : duplicate_of m.duplicate ≡ some duplicate

module _ (as_line : Bytes → Option RawLine) (as_time : Bytes → Option ℕ) where
  -- A JSON line whose message spells a denial is parsed to that denial, when its time can be read,
  -- its numbers fit 64 bits, its name is not empty, and no text behind its first number looks like
  -- a second denial.
  pub parse-spell :
      (line : Bytes) (r : RawLine) (plural : Bool) (m : Match) (time pid deny_n duplicate : ℕ)
      → starts_object (trim_space line) ≡ true
      → as_line (trim_space line) ≡ some r
      → r.event_message ≡ some (spell plural m)
      → as_time r.timestamp ≡ some time
      → Spelled m
      → Numbers m pid deny_n duplicate
      → parse as_line as_time line
        ≡ ok (record {
          time = time;
          mach_time = r.mach_timestamp;
          name = m.name;
          pid = pid;
          deny_n = deny_n;
          operation = m.tail.operation;
          target = m.tail.target;
          message = trim_space m.tail.message;
          duplicate = duplicate;
        })
  unfolding parse parse_object denial_of
  parse-spell line r plural m time pid deny_n duplicate o l e t h n =
      rw (o, l, e, match_line-spell plural m h, t, n.pid_is, n.deny_n_is, n.duplicate_is) refl
