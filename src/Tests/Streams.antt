-- ===== src/Tests/Streams.antt =====
-- Runs of the parsers of the two streams and of the watch loop, with theorems applied to them.
use buckle.Base.{
  Unique, ℕ, ◌+◌, true, false, Bytes, codes, List, [], ◌∷◌, Option, none, some, ◌≡◌, ◌≢◌, refl,
  arith, ◌||◌, strip_prefix, bytes_beq, bytes_eq, nat_eq, contains,
}
use buckle.Base.Int.{pos}
use buckle.Base.Map
use buckle.Base.Number
use buckle.Base.Space.{trim_space}
use buckle.Exec.{ok}
use buckle.EsLog.Parse.{Unmarshal, RawMsg, RawProc, RawExec, drift}
use buckle.EsLog.Parse as EsParse
use buckle.EsLog.Parse.Fields.{
  OneOf, known_fields, parse-known_fields, without_env, reading, parse-env_ignored,
}
use buckle.ULog.Line.{Match}
use buckle.ULog.Line.Spelling.{Spelled}
use buckle.ULog.Line.Tails.{spell}
use buckle.ULog.Parse.{RawLine}
use buckle.ULog.Parse as UParse
use buckle.ULog.RoundTrip.{Numbers, parse-spell}
use buckle.Watch.{
  Exit, Input, es_line, es_end, log_line, log_end, ticked, cancelled, timed_out, Handlers, Watcher,
  stopped, loop, pass, select, watching,
}
use buckle.Watch
use buckle.Watch.Drained.{AskedStop, loop-stopped}
use buckle.Watch.Ends.{loop_ends}
use buckle.Watch.Once.{loop-Unique}
use buckle.Watch.Tail.{write_all, last, concat, write_all-last}

-- An exec line whose process has no token.
abbrev no_token : RawProc
no_token = record {
  audit_token = none;
  parent_audit_token = none;
  ppid = 1;
  is_platform_binary = false;
  signing_id = none;
  team_id = none;
  cdhash = [];
  executable = some (some (codes "/bin/ls"));
  start_time = [];
}

abbrev exec_msg : RawMsg
exec_msg = record {
  schema_version = pos 1;
  time = some (codes "t");
  seq = 4;
  process = codes "p";
  event = (codes "exec", codes "x") ∷ [];
}

abbrev exec_body : RawExec
exec_body = record { target = codes "p"; args = some []; cwd = none; env = codes "e" }

abbrev pub tokenless : Unmarshal
tokenless = record {
  as_msg = λ b. some exec_msg;
  as_proc = λ b. some no_token;
  as_exec = λ b. some exec_body;
  as_fork = λ b. none;
  as_exit = λ b. none;
  as_strings = λ b. none;
  as_time = λ b. some 9;
}

tokenless_drifts : EsParse.parse tokenless (codes "x") ≡ drift (codes "process.audit_token")
unfolding EsParse.parse Map.lookup bytes_beq
tokenless_drifts = refl

parse-known_fields_example : OneOf (codes "process.audit_token") known_fields
parse-known_fields_example =
    parse-known_fields tokenless (codes "x") (codes "process.audit_token") tokenless_drifts

-- The same with a token.
abbrev pub with_token : Unmarshal
with_token = record tokenless {
  as_proc = λ b.
      some (record no_token { audit_token = some (record { pid = some 41; pidversion = some 2 }) });
}

abbrev some_env : Bytes → Option (List Bytes)
some_env b = some (codes "TERM=xterm" ∷ [])

parse-env_ignored_example :
    without_env (EsParse.parse with_token (codes "x"))
    ≡ without_env (EsParse.parse (reading with_token some_env) (codes "x"))
parse-env_ignored_example = parse-env_ignored with_token some_env (codes "x")

-- 2 duplicate reports for Sandbox: my (app)(41) deny(1) file-read-data /etc/passwd
abbrev denial : Match
denial = record {
  duplicate = codes "2";
  name = codes "my (app)";
  tail = record {
    pid = codes "41";
    deny_n = codes "1";
    operation = codes "file-read-data";
    target = codes "/etc/passwd";
    message = codes "tag";
  };
}

denial-Spelled : Spelled denial
unfolding contains strip_prefix
denial-Spelled = record {
  duplicate_digits = (refl, tt);
  name_given = refl;
  tail_spelled = record {
    pid_digits = ground arith;
    number_digits = ground arith;
    operation_given = refl;
    operation_visible = ground arith;
    target_in_line = ground arith;
    no_later = refl;
  };
}

abbrev pub raw_line : RawLine
raw_line = record {
  event_message = some (spell true denial);
  timestamp = codes "now";
  mach_timestamp = 77;
}

denial-Numbers : Numbers denial 41 1 2
unfolding UParse.atoi UParse.duplicate_of Number.parse_int
denial-Numbers = record { pid_is = refl; deny_n_is = refl; duplicate_is = refl }

object_line : UParse.starts_object (trim_space (codes " {}")) ≡ true
unfolding trim_space
object_line = refl

parse-spell_example :
    UParse.parse (λ b. some raw_line) (λ b. some 5) (codes " {}")
    ≡ UParse.ok (record {
      time = 5;
      mach_time = 77;
      name = codes "my (app)";
      pid = 41;
      deny_n = 1;
      operation = codes "file-read-data";
      target = codes "/etc/passwd";
      message = trim_space (codes "tag");
      duplicate = 2;
    })
parse-spell_example =
    parse-spell (λ b. some raw_line) (λ b. some 5) (codes " {}") raw_line true denial 5 41 1 2
      object_line refl refl refl denial-Spelled denial-Numbers

-- A correlator that counts its calls.
abbrev counting : Handlers ℕ
counting = record {
  on_event = λ ev n. (ok tt, n + 1);
  on_denial = λ d now n. (ok tt, n + 1);
  on_tick = λ now n. (ok tt, n + 1);
  warnings_of = λ n. [];
}

abbrev pub quiet : Exit
quiet = record { scan_err = none; wait_err = none; stderr = [] }

-- Two lines that drift, a cancel, and the end of both outputs.
abbrev inputs : List Input
inputs =
    es_line (codes "x")
    ∷ es_line (codes "x")
    ∷ ticked 3
    ∷ cancelled
    ∷ es_end false quiet
    ∷ log_line (codes " {}") 9
    ∷ log_end false quiet
    ∷ []

abbrev watched : Option Watch.Outcome × Watcher ℕ
watched = loop counting tokenless (λ b. some raw_line) (λ b. some 5) (λ s. true) inputs (watching 0)

watched_stops : watched ≡ (some stopped, watched.1)
unfolding loop pass watching EsParse.parse UParse.parse Map.lookup bytes_beq
watched_stops = refl

loop-stopped_example :
    (stopped ≡ stopped) × ((watched.1.es_open || watched.1.log_open) ≡ false) × AskedStop inputs
loop-stopped_example =
    loop-stopped counting tokenless (λ b. some raw_line) (λ b. some 5) (λ s. true) inputs 0 stopped
      watched.1 watched_stops refl

loop_ends_example :
    (loop counting tokenless (λ b. some raw_line) (λ b. some 5) (λ s. true) inputs (watching 0)).0
    ≢ none
loop_ends_example =
    loop_ends counting tokenless (λ b. some raw_line) (λ b. some 5) (λ s. true) inputs (watching 0)
      (ground arith) (ground arith) refl refl

loop-Unique_example :
    Unique
      (loop counting tokenless
        (λ b. some raw_line)
        (λ b. some 5)
        (λ s. true)
        inputs
        (watching 0)).1.logged
loop-Unique_example =
    loop-Unique counting tokenless (λ b. some raw_line) (λ b. some 5) (λ s. true) inputs 0

write_all-last_example :
    (write_all (codes "one" ∷ codes "two" ∷ []) (record { buf = []; max = 4 })).buf
    ≡ last 4 (concat (codes "one" ∷ codes "two" ∷ []))
write_all-last_example = write_all-last (codes "one" ∷ codes "two" ∷ []) 4
