-- ===== src/Tests/Commands.antt =====
-- Command lines at fixed inputs, with theorems applied to them.
use buckle.Base.{
  ℕ, suc, true, false, Bytes, codes, List, [], ◌∷◌, ◌++◌, none, some, bytes_beq, ◌≡◌, refl, ap,
}
use buckle.Base.Int.{pos}
use buckle.Exec.{ok, err, Exec}
use buckle.Report.{write_records}
use buckle.Report.Query.{
  Answered, Filter, runs_query, sessions_query, denials_query, aggregate_query,
}
use buckle.Report.Query.Marks.{IsFilled}
use buckle.Report.Query.Filled.{ResultFilled, queries-Filled}
use buckle.Command.{opened, missing, QueryFlags, Owner, Host, Outside, lift}
use buckle.Command.Owners.{sudo_owner}
use buckle.Command.Commands.{cmd_watch, with_answer, read_only}
use buckle.Command.Queries.{open_store, parse_flags}
use buckle.Command.Dispatch.{run}
use buckle.Command.Untouched.{run-Untouched}
use buckle.Command.Formats.{IsWritten, parse_flags-IsWritten}
use buckle.Command.Defaults.{same_database}

-- What is printed as errors, and how many databases have been opened.
abbrev World : Type 0
World = Bytes × ℕ

abbrev first_or : Bytes → List Bytes → Bytes
first_or b [] = b
first_or b (c ∷ cs) = c

-- Flags whose one value, a format, is the first argument; none is left over.
abbrev query_of : List Bytes → QueryFlags
query_of args = record {
  db = [];
  format = first_or (codes "json") args;
  since = [];
  until = [];
  session = [];
  command = [];
  has_denials = false;
}

abbrev under_sudo : Host
under_sudo = record {
  effective_uid = 0;
  sudo_user = codes "ann";
  look_up_user =
      λ n. ok (record { uid = codes "501"; gid = codes "20"; home = codes "/Users/ann" });
  user_home = ok (codes "/var/root");
  atoi = λ b. ok (pos 501);
  path_for_home = λ h. h ++ codes "/buckle.db";
  server_path_for_home = λ h. h ++ codes "/server.db";
}

abbrev nothing : {A : Type 0} → A → Exec World A
nothing a w = (ok a, w)

abbrev counted : {A : Type 0} → A → World → A × World
counted a w = (a, (w.0, suc w.1))

abbrev no_rows : Answered
no_rows = record { columns = ok []; rows = []; last = none }

abbrev shell : Outside World (Unit {0})
shell = record {
  host = under_sudo;
  print_out = λ b w. w;
  print_err = λ b w. (w.0 ++ b, w.1);
  parse_watch = λ args w.
      (some (ok (record { values = record { buffer = pos 5; db = [] }; rest = args })), w);
  parse_migrate = λ args w. (some (ok (record { values = []; rest = args })), w);
  parse_serve = λ args w. (
    some (
        ok (record {
          values = record { addr = codes "here"; db = []; refresh = pos 9 };
          rest = args;
        })),
    w,
  );
  parse_ship = λ args w. (none, w);
  parse_query =
      λ name filters args w. (some (ok (record { values = query_of args; rest = [] })), w);
  parse_report = λ args w. (
    some (
        ok (record {
          values = record { query = query_of args; by = codes "operation"; top = pos 50 };
          rest = [];
        })),
    w,
  );
  quoted = λ b. b;
  split_commas = λ b. b ∷ [];
  now = pos 0;
  ago = λ t d. t;
  parse_time = λ b. none;
  parse_duration = λ b. none;
  duration_text = λ d. [];
  watch_run = λ path o buffer. nothing tt;
  migrate = λ path. counted missing;
  open_read_only = λ path. counted (opened tt);
  close = λ s w. w;
  db_instance = λ s. nothing [];
  host_identity = nothing ([], []);
  trim_slashes = λ b. b;
  ship_run = λ s h i b d. nothing tt;
  dir_of = λ b. b;
  dir_missing = λ b w. false;
  mkdir_all = λ b. nothing tt;
  chown = λ b o w. (opened tt, w);
  open_server = λ b w. (ok tt, (w.0, suc w.1));
  split_host = λ b. err (codes "missing port");
  is_loopback = λ b. true;
  serve = λ s a r. nothing tt;
  db = λ s q args. nothing no_rows;
  format_time = λ n. [];
  run_detail = λ s id. nothing [];
  write_object = λ f r. nothing tt;
  output = record {
    marshal = λ v. ok [];
    marshal_key = λ k. ok k;
    marshal_indent = λ recs. ok [];
    write = λ b. nothing tt;
    csv_line = λ l. nothing tt;
    csv_flush = nothing tt;
    quoted = λ b. b;
  };
}

-- A query writes no error; an unknown format ends in the status 2 before a database is opened.
query_runs : run shell [] (codes "query" ∷ codes "runs" ∷ []) ([], 0) ≡ (0, ([], 1))
unfolding run bytes_beq
query_runs = refl

query_format :
    run shell [] (codes "query" ∷ codes "runs" ∷ codes "xml" ∷ []) ([], 0)
    ≡ (2, (codes "buckle: unknown format xml\n\n", 0))
unfolding run bytes_beq
query_format = refl

-- `serve` rejects its address once the database is open.
serve_addr :
    run shell [] (codes "serve" ∷ []) ([], 0) ≡ (2, (codes "buckle: --addr: missing port\n\n", 1))
unfolding run bytes_beq
serve_addr = refl

run-Untouched_example :
    (run shell [] (codes "query" ∷ codes "runs" ∷ codes "xml" ∷ []) ([], 0)).1.1 ≡ 0
unfolding bytes_beq
run-Untouched_example =
    run-Untouched shell (λ w. w.1) (λ b w. refl) (λ args w. refl) (λ args w. refl) (λ args w. refl)
      (λ name filters args w. refl) [] (codes "query") (codes "runs" ∷ codes "xml" ∷ []) ([], 0)
      refl (ap (λ x. x.0) query_format)

abbrev ann : Owner
ann = record { uid = pos 501; gid = pos 501; home = codes "/Users/ann"; name = codes "ann" }

same_database_example :
    (path : Bytes) × ((cmd_watch shell [] ([], 0) ≡ lift (shell.watch_run path ann (pos 5)) ([], 0))
      × (open_store shell (query_of []) ([], 0)
          ≡ with_answer shell (shell.open_read_only path) (read_only shell path) ([], 0)))
unfolding sudo_owner bytes_beq
same_database_example =
    same_database shell [] (record { buffer = pos 5; db = [] }) (query_of []) ([], 0) ([], 0)
      ([], 0) ann refl refl refl refl

-- The runs of one command.
abbrev make_runs : Filter
make_runs = record {
  since = some (pos 7);
  until = none;
  session = [];
  command = codes "make";
  has_denials = true;
}

abbrev by_target : List Bytes
by_target = codes "target" ∷ []

queries-Filled_example :
    IsFilled (runs_query make_runs)
    × (IsFilled (sessions_query make_runs)
        × (IsFilled (denials_query (pos 4))
            × ResultFilled (aggregate_query (λ b. b) make_runs by_target (pos 0))))
queries-Filled_example = queries-Filled make_runs (pos 4) (pos 0) (λ b. b) by_target

parse_flags-IsWritten_example :
    IsWritten shell.output [] [] (write_records shell.output (codes "csv") [] [])
unfolding parse_flags bytes_beq
parse_flags-IsWritten_example =
    parse_flags-IsWritten shell (codes "query runs") true (codes "csv" ∷ [])
      (query_of (codes "csv" ∷ [])) ([], 0) [] [] refl
