-- ===== src/Command/Queries.antt =====
-- `buckle query` and `buckle report` of cmd/buckle/main.go.
use buckle.Base.{
  Bool, true, false, ◌||◌, Bytes, codes, List, [], ◌∷◌, ◌++◌, Option, none, some, if◌then◌else◌,
  ◌==◌, nat_eq, bytes_eq, is_empty,
}
use buckle.Base.Int.{ℤ}
use buckle.Base.Number.{parse_int}
use buckle.Exec.{Result, ok, err, Exec}
use buckle.Report.{write_records, valid_format}
use buckle.Report.Query.{Filter, Table, runs, sessions, denials, aggregate}
use buckle.Command.{
  usage_error, Answer, done, stop, Act, pure, fail, lift, finally, run_on, ◌>>=◌, ◌>>◌, QueryFlags,
  ReportFlags, Outside,
}
use buckle.Command.Owners.{invoking_home}
use buckle.Command.Commands.{parsed, home_path, with_answer, read_only}

abbrev lower_bound_note : Bytes
lower_bound_note =
    codes "denial counts are lower bounds: the kernel drops many denial log lines, "
    ++ codes "mostly from non-platform binaries"

module _ {W S : Type 0} (out : Outside W S) where
  abbrev moment : Bytes → Option ℤ → Option ℤ → Result (Option ℤ)
  moment s (some t) d = ok (some t)
  moment s none none = err (out.quoted s ++ codes " is neither an RFC 3339 time nor a duration")
  moment s none (some d) = ok (some (out.ago out.now d))

  -- `parseWhen`
  unfoldable pub parse_when : Bytes → Result (Option ℤ)
  parse_when s = if is_empty s then ok none else moment s (out.parse_time s) (out.parse_duration s)

  abbrev with_times : QueryFlags → Result (Option ℤ) → Result (Option ℤ) → Answer Filter
  with_times q (err e) u = stop (usage_error (codes "--since: " ++ e))
  with_times q (ok s) (err e) = stop (usage_error (codes "--until: " ++ e))
  with_times q (ok s) (ok u) = done (record {
    since = s;
    until = u;
    session = q.session;
    command = q.command;
    has_denials = q.has_denials;
  })

  -- `filter`
  unfoldable pub filter : QueryFlags → Act W Filter
  unfolding parse_when
  filter q w = (with_times q (parse_when q.since) (parse_when q.until), w)

  abbrev pub checked : {V : Type 0} → Bytes → V → List Bytes → Act W V
  checked format v (a ∷ rest) = fail (usage_error (codes "unexpected argument " ++ out.quoted a))
  checked format v [] =
      if valid_format format
      then pure v
      else fail (usage_error (codes "unknown format " ++ out.quoted format))

  -- `parse` of the flags of `query` and of those of `report`
  unfoldable pub parse_flags : Bytes → Bool → List Bytes → Act W QueryFlags
  unfolding valid_format ◌>>=◌
  parse_flags name filters args =
      parsed (out.parse_query name filters args) >>= λ p. checked p.values.format p.values p.rest

  unfoldable pub parse_report_flags : List Bytes → Act W ReportFlags
  unfolding valid_format ◌>>=◌
  parse_report_flags args =
      parsed (out.parse_report args) >>= λ p. checked p.values.query.format p.values p.rest

  -- the method `open`
  unfoldable pub open_store : QueryFlags → Act W S
  unfolding invoking_home with_answer ◌>>=◌
  open_store q = home_path out q.db out.host.path_for_home (invoking_home out.host) >>= λ path.
      with_answer out (out.open_read_only path) (read_only out path)

  abbrev write_table : Bytes → Table → Act W (Unit {0})
  write_table format t = lift (write_records out.output format t.columns t.records)

  abbrev list_of : Bytes → S → Filter → Exec W Table
  list_of what s f =
      if what == codes "sessions"
      then sessions (out.db s) out.format_time f
      else runs (out.db s) out.format_time f

  -- `query sessions` and `query runs`
  unfoldable pub query_list : Bytes → List Bytes → Act W (Unit {0})
  unfolding parse_flags filter open_store sessions runs write_records ◌>>=◌
  query_list what args = parse_flags (codes "query " ++ what) true args >>= λ q. filter q >>= λ f.
      open_store q >>= λ s. finally (lift (list_of what s f) >>= write_table q.format) (out.close s)

  abbrev run_denials : QueryFlags → ℤ → S → Act W (Unit {0})
  run_denials q id s = lift (denials (out.db s) out.format_time id) >>= λ t.
      run_on (
        out.print_err
          (codes "buckle: CSV run detail lists denials only; " ++ lower_bound_note ++ codes "\n"))
      >> write_table q.format t

  abbrev run_object : QueryFlags → ℤ → S → Act W (Unit {0})
  run_object q id s = lift (out.run_detail s id) >>= λ r. lift (out.write_object q.format r)

  abbrev pub query_id : Bytes → List Bytes → Option ℤ → Act W (Unit {0})
  query_id given args none = fail (usage_error (codes "invalid run id " ++ out.quoted given))
  query_id given args (some id) = parse_flags (codes "query run") false args >>= λ q.
      open_store q >>= λ s.
      finally (if q.format == codes "csv" then run_denials q id s else run_object q id s)
        (out.close s)

  -- `query run`
  unfoldable pub query_run : List Bytes → Act W (Unit {0})
  unfolding parse_int parse_flags open_store denials write_records ◌>>=◌
  query_run [] = fail (usage_error (codes "query run needs a run id"))
  query_run (given ∷ args) = query_id given args (parse_int given)

  -- `cmdQuery`
  unfoldable pub cmd_query : List Bytes → Act W (Unit {0})
  unfolding query_list query_run
  cmd_query [] = fail (usage_error (codes "query needs sessions, runs or run <id>"))
  cmd_query (what ∷ args) =
      if what == codes "sessions" || what == codes "runs"
      then query_list what args
      else if what == codes "run"
      then query_run args
      else fail (usage_error (codes "unknown query " ++ out.quoted what))

  abbrev usage_of : {A : Type 0} → Result A → Answer A
  usage_of (ok a) = done a
  usage_of (err e) = stop (usage_error e)

  -- every error of `Aggregate` becomes a `usageError`
  abbrev aggregated : ReportFlags → Filter → S → Act W Table
  aggregated r f s w =
      let (t, v) =
        aggregate (out.db s) out.format_time out.quoted f (out.split_commas r.by) r.top w in
      (usage_of t, v)

  abbrev report_open : ReportFlags → Filter → S → Act W (Unit {0})
  report_open r f s = aggregated r f s >>= λ t.
      run_on (out.print_err (codes "buckle: " ++ lower_bound_note ++ codes "\n"))
      >> write_table r.query.format t

  abbrev report_denials : List Bytes → Act W (Unit {0})
  report_denials args = parse_report_flags args >>= λ r.
      filter r.query >>= λ f. open_store r.query >>= λ s. finally (report_open r f s) (out.close s)

  -- `cmdReport`
  unfoldable pub cmd_report : List Bytes → Act W (Unit {0})
  unfolding parse_report_flags filter open_store aggregate write_records ◌>>=◌
  cmd_report [] = fail (usage_error (codes "report needs denials"))
  cmd_report (what ∷ args) =
      if what == codes "denials"
      then report_denials args
      else fail (usage_error (codes "report needs denials"))
