-- ===== src/Tests/Correlator.antt =====
-- Runs of the model of the correlator at fixed inputs, with theorems applied to them.
use buckle.Base.{
  is_some, length, min, ◌<◌, All, ◌==◌, ◌+◌, ℕ, Bool, true, false, List, [], ◌∷◌, ◌++◌, Option,
  none, some, ◌≡◌, ◌≢◌, ◌↔◌, refl, Bytes, codes, inl, inr, arith, if◌then◌else◌, nat_eq, bytes_eq,
  pair_eq, bytes_beq,
}
use buckle.Base.Int.{pos}
use buckle.Base.Map
use buckle.Exec.{Exec, ok, err}
use buckle.EsLog.{Proc, Event, exec, exit}
use buckle.ULog
use buckle.Sbx.Tag.{find_tag}
use buckle.Correlate.Sink.{Sink}
use buckle.Correlate.State.{State, Deps, new, zero_proc, pids_images}
use buckle.Correlate.Events.{handle_es}
use buckle.Correlate.Denials.{handle_denial}
use buckle.Correlate.Images.{resolve, reverse_onto}
use buckle.Watch.{Input, es_line, log_line, ticked, cancelled, es_end, log_end}
use buckle.Correlate.ProfileFile.{Files, read_profile_file}
use buckle.Correlate.ProfileFile.Refuses.{Reads, read_profile_file-Reads}
use buckle.Watch.Run.{Options, Database, World, run, defaults}
use buckle.Watch.Run.Closed.{Leaves, run-Leaves}
use buckle.Tests.Streams.{with_token, raw_line, quiet}
use buckle.Correlate.Newest.{FirstRunning, resolve-FirstRunning}

-- A sink that numbers its rows.
abbrev number : Exec ℕ ℕ
number n = (ok n, n + 1)

abbrev ignore : Exec ℕ (Unit {0})
ignore n = (ok tt, n)

abbrev numbering : Sink ℕ
numbering = record {
  ensure_session = λ kind key t. number;
  insert_run = λ r. number;
  set_run_session = λ r s tag detail. ignore;
  end_run = λ r t status. ignore;
  insert_process = λ p. number;
  end_process = λ p t reason status. ignore;
  insert_denial = λ d. number;
  add_denial_count = λ d n. ignore;
  insert_orphan = λ o. number;
  add_orphan_count = λ o n. ignore;
}

abbrev pub no_files : Deps
no_files = record {
  read_file = λ p. err (codes "no such file");
  entitlements = none;
  join_path = λ dir p. dir ++ b'/' ∷ p;
  decode = λ b. none;
}

abbrev shell : Proc
shell = record zero_proc { token = (41, 1); path = codes "/bin/zsh"; start_time = 1_000_000 }

abbrev sandboxed : Proc
sandboxed = record zero_proc {
  token = (41, 2);
  path = codes "/usr/bin/sandbox-exec";
  start_time = 1_000_000;
}

abbrev pub start_event : Event
start_event = record {
  kind = exec;
  time = 20_000_000;
  process = shell;
  target = sandboxed;
  args = codes "sandbox-exec" ∷ codes "-p" ∷ codes "(version 1)" ∷ codes "ls" ∷ [];
  cwd = codes "/tmp";
  env = [];
  exit_status = 0;
  seq = 1;
  schema_version = pos 1;
}

abbrev end_event : Event
end_event = record start_event { kind = exit; time = 90_000_000; process = sandboxed }

abbrev idle : State ℕ
idle = new (record { watch_id = 1; buffer = 5 }) 10

abbrev running : State ℕ
running = (handle_es numbering no_files start_event idle).1

abbrev pub refused_read : ULog.Denial
refused_read = record {
  time = 30_000_000;
  mach_time = 0;
  name = codes "ls";
  pid = 41;
  deny_n = 1;
  operation = codes "file-read-data";
  target = codes "/etc/passwd";
  message = [];
  duplicate = 0;
}

abbrev waiting : State ℕ
waiting = (handle_denial numbering no_files refused_read 40_000_000 running).1

-- The exec'd image is the second that the correlator registers.
resolve-running : resolve running 41 30_000_000 ≡ some 1
unfolding handle_es resolve Map.lookup Map.insert bytes_beq buckle.Detect.run_loop find_tag
    buckle.Base.contains
resolve-running = refl

resolve-FirstRunning_example :
    (resolve running 41 30_000_000 ≡ some 1)
    ↔ FirstRunning running 30_000_000 (reverse_onto [] (pids_images running 41)) 1
resolve-FirstRunning_example = resolve-FirstRunning running 41 30_000_000 1

-- An exec, a denial, a tick, a cancel, and the end of both outputs.
abbrev a_watch : List Input
a_watch =
    es_line (codes "x")
    ∷ log_line (codes "{}") 40_000_000
    ∷ ticked 50_000_000
    ∷ cancelled
    ∷ es_end false quiet
    ∷ log_end false quiet
    ∷ []

-- A database of one number, and a run in which all goes well.
abbrev numbered : Database ℕ
numbered = record {
  prune_old = λ now. ignore;
  begin = λ now version buffer. number;
  finish = λ id end reason. ignore;
}

abbrev in_order : World
in_order = record {
  open_error = none;
  close_error = none;
  es_error = none;
  log_error = none;
  exits = λ s. true;
  start = 10_000_000;
  end = 90_000_000;
}

abbrev unset : Options
unset = record {
  buffer = pos 0;
  eslogger_path = [];
  eslogger_args = none;
  log_path = [];
  log_args = none;
  os_version = codes "15.5";
}

run-Leaves_example : Leaves numbered in_order a_watch (defaults unset) 7 (
    run numbered numbering no_files
      (λ s. 41 ∷ [])
      (λ w. [])
      with_token
      (λ b. some raw_line)
      (λ b. some 5)
      in_order
      unset
      a_watch
      7)
run-Leaves_example =
    run-Leaves numbered numbering no_files (λ s. 41 ∷ []) (λ w. []) with_token (λ b. some raw_line)
      (λ b. some 5) in_order unset a_watch 7

-- A link to a small profile.
abbrev disk : Files
disk = record {
  eval_symlinks = λ p. ok (codes "/private" ++ p);
  open_file = λ p. ok (record {
    stat = ok (record { is_regular = true; type_name = []; size = pos 11 });
    read = λ n. ok (codes "(version 1)");
  });
}

disk-read : read_profile_file disk (codes "/tmp/a.sb") ≡ ok (codes "(version 1)")
unfolding read_profile_file bytes_beq buckle.Base.strip_prefix
disk-read = refl

read_profile_file-Reads_example : Reads disk (codes "/tmp/a.sb") (codes "(version 1)")
read_profile_file-Reads_example =
    read_profile_file-Reads disk (codes "/tmp/a.sb") (codes "(version 1)") disk-read
