-- ===== src/Report/Query.antt =====
-- internal/report/query.go: the statements of the reports and their arguments. A time is the number
-- that UnixNano gives for it; the database that answers a statement is an argument.
pub mod Marks
pub mod Filled
use buckle.Base.{
  ℕ, suc, Bool, true, false, Bytes, codes, List, [], ◌∷◌, ◌++◌, Option, none, some, is_empty,
  bytes_eq, if◌then◌else◌, ◌||◌, ◌==◌,
}
use buckle.Base.Int.{ℤ, pos, ltb_ℤ}
use buckle.Exec.{Result, ok, err, Exec, pure, lift, ◌>>=◌}
use buckle.Report.Statements.{
  command_sql, runs_head, runs_tail, sessions_head, sessions_counted, sessions_from, sessions_tail,
  aggregate_head,
}
use buckle.Report.{Any, text, int, Field, Scanned, scan_records}

pub record Filter : Type 0 where
  pub since : Option ℤ
  pub until : Option ℤ
  pub session : Bytes
  pub command : Bytes
  pub has_denials : Bool

-- A condition with the arguments of its placeholders.
pub record Cond : Type 0 where
  pub sql : Bytes
  pub args : List Any

abbrev at_time : Bytes → Option ℤ → List Cond
at_time sql none = []
at_time sql (some t) = record { sql = sql; args = int t ∷ [] } ∷ []

-- what `runWhere` appends, in its order
unfoldable pub conditions : Filter → Bytes → List Cond
conditions f time_col =
    at_time (time_col ++ codes " >= ?") f.since
    ++ (at_time (time_col ++ codes " < ?") f.until
        ++ ((if is_empty f.session
              then []
              else record { sql = codes "s.key = ?"; args = text f.session ∷ [] } ∷ [])
            ++ ((if is_empty f.command
                  then []
                  else record { sql = command_sql; args = text f.command ∷ text f.command ∷ [] }
                    ∷ [])
                ++ (if f.has_denials
                    then record {
                      sql = codes "EXISTS (SELECT 1 FROM denials d WHERE d.run_id = r.id)";
                      args = [];
                    }
                      ∷ []
                    else []))))

-- `strings.Join`
unfoldable pub join : Bytes → List Bytes → Bytes
join sep [] = []
join sep (b ∷ []) = b
join sep (b ∷ c ∷ bs) = b ++ (sep ++ join sep (c ∷ bs))

unfoldable pub sqls : List Cond → List Bytes
sqls [] = []
sqls (c ∷ cs) = c.sql ∷ sqls cs

unfoldable pub args_of : List Cond → List Any
args_of [] = []
args_of (c ∷ cs) = c.args ++ args_of cs

abbrev where_of : List Cond → Cond
where_of [] = record { sql = []; args = [] }
where_of (c ∷ cs) = record {
  sql = codes " WHERE " ++ join (codes " AND ") (sqls (c ∷ cs));
  args = args_of (c ∷ cs);
}

-- `runWhere`
unfoldable pub run_where : Filter → Bytes → Cond
unfolding conditions join sqls args_of
run_where f time_col = where_of (conditions f time_col)

-- The statement of `Runs` with its arguments.
unfoldable pub runs_query : Filter → Cond
unfolding run_where
runs_query f =
    let w = run_where f (codes "r.started_at") in
    record { sql = runs_head ++ (w.sql ++ runs_tail); args = w.args }

-- the runs of a session that match
abbrev match_of : Bytes → Bytes
match_of where_sql =
    codes "SELECT r.id FROM runs r LEFT JOIN sessions s ON s.id = r.session_id"
    ++ (where_sql
        ++ (if is_empty where_sql
            then codes " WHERE r.session_id = sess.id"
            else codes " AND r.session_id = sess.id"))

-- The statement of `Sessions` with its arguments.
unfoldable pub sessions_query : Filter → Cond
unfolding run_where
sessions_query f =
    let w = run_where f (codes "r.started_at") in
    let m = match_of w.sql in
    record {
      sql =
          sessions_head
          ++ (m ++ (sessions_counted ++ (m ++ (sessions_from ++ (m ++ sessions_tail)))));
      args = (w.args ++ w.args) ++ w.args;
    }

unfoldable pub denials_query : ℤ → Cond
denials_query run_id = record {
  sql =
      codes
        "SELECT d.id, d.time, d.process_name, d.pid, p.pidversion, p.id AS process_id, p.path,\n"
      ++ codes "\t\tp.is_platform_binary, d.operation, d.target, d.message, d.count\n"
      ++ codes "\t\tFROM denials d JOIN processes p ON p.id = d.process_id\n"
      ++ codes "\t\tWHERE d.run_id = ? ORDER BY d.time, d.id";
  args = int run_id ∷ [];
}

abbrev and_column : Bytes → Result (List Bytes) → Result (List Bytes)
and_column c (err e) = err e
and_column c (ok cs) = ok (c ∷ cs)

-- the loop of `Aggregate` over what it groups by
unfoldable pub group_columns : (Bytes → Bytes) → List Bytes → Result (List Bytes)
group_columns quoted [] = ok []
group_columns quoted (b ∷ bs) =
    let rest = group_columns quoted bs in
    if b == codes "operation" || b == codes "target"
    then and_column (codes "d." ++ b) rest
    else err (codes "cannot group by " ++ quoted b ++ codes " (want operation and/or target)")

abbrev default_by : List Bytes → List Bytes
default_by [] = codes "operation" ∷ codes "target" ∷ []
default_by (b ∷ bs) = b ∷ bs

abbrev top_of : ℤ → ℤ
top_of n = if ltb_ℤ (pos 0) n then n else pos 50

-- The statement of `Aggregate` for the columns of the groups.
unfoldable pub aggregate_sql : Filter → Bytes → ℤ → Cond
unfolding run_where
aggregate_sql f group top =
    let w = run_where (record f { has_denials = false }) (codes "d.time") in
    record {
      sql =
          codes "SELECT "
          ++ (group
              ++ (aggregate_head
                  ++ (w.sql
                      ++ (codes "\n\t\tGROUP BY "
                          ++ (group
                              ++ (codes " ORDER BY total_count DESC, "
                                  ++ (group ++ codes " LIMIT ?")))))));
      args = w.args ++ int (top_of top) ∷ [];
    }

abbrev grouped : Filter → ℤ → Result (List Bytes) → Result Cond
grouped f top (err e) = err e
grouped f top (ok cols) = ok (aggregate_sql f (join (codes ", ") cols) top)

unfoldable pub aggregate_query : (Bytes → Bytes) → Filter → List Bytes → ℤ → Result Cond
unfolding group_columns join aggregate_sql
aggregate_query quoted f by top = grouped f top (group_columns quoted (default_by by))

-- What the database answers: `Columns`, `Scan` for each row, and `rows.Err`.
pub record Answered : Type 0 where
  pub columns : Result (List Bytes)
  pub rows : List (Result (List Any))
  pub last : Option Bytes

pub record Table : Type 0 where
  pub records : List (List Field)
  pub columns : List Bytes

abbrev table_of : Scanned → Result Table
table_of s = elim s.error [
  | some e ↦ err e
  | none ↦ ok (record { records = s.records; columns = s.keys })
]

module _ {W : Type 0} (db : Bytes → List Any → Exec W Answered) (format_time : ℤ → Bytes) where
  -- `query`, as its callers take it: what they are given beside an error they drop
  unfoldable pub query : Cond → Exec W Table
  unfolding ◌>>=◌ scan_records
  query c =
      db c.sql c.args >>= λ a. lift (table_of (scan_records format_time a.columns a.rows a.last))

  -- `Runs`
  unfoldable pub runs : Filter → Exec W Table
  unfolding runs_query query
  runs f = query (runs_query f)

  -- `Sessions`
  unfoldable pub sessions : Filter → Exec W Table
  unfolding sessions_query query
  sessions f = query (sessions_query f)

  -- `Denials`
  unfoldable pub denials : ℤ → Exec W Table
  unfolding denials_query query
  denials run_id = query (denials_query run_id)

  -- `Aggregate`
  unfoldable pub aggregate : (Bytes → Bytes) → Filter → List Bytes → ℤ → Exec W Table
  unfolding aggregate_query query ◌>>=◌
  aggregate quoted f by top = lift (aggregate_query quoted f by top) >>= query
