-- ===== src/Store.antt =====
-- internal/store/write.go: the statements that write the endpoint database. A table is a map from
-- row ids, and a text that is stored as NULL is the empty one. A statement that fails in the
-- database itself is not modelled; the revision that each written row gets stands in
-- Store/Revisions. `sha` is the profile's hash in hex.
pub mod Revisions
pub mod Schema
pub mod Counts
pub mod Tallied
pub mod Sessions
pub mod Prune
pub mod Changes
use buckle.Base.{
  or_else, ℕ, zero, suc, ◌+◌, min, max, Bool, true, false, ◌&&◌, Bytes, List, [], ◌∷◌, ◌++◌, Option,
  none, some, is_some, if◌then◌else◌, ◌==◌, nat_eq, bytes_eq, is_empty,
}
use buckle.Base.Map
use buckle.Base.Map.{Map}
use buckle.Exec.{Exec, Result, ok}
use buckle.Detect.Env.{sort_names}
use buckle.Rows
use buckle.Rows.{Status, running, EndReason}
use buckle.Correlate.Sink.{Sink}

pub record SessionRow : Type 0 where
  pub kind : Bytes
  pub key : Bytes
  pub first_seen : ℕ
  pub last_seen : ℕ

pub record RunRow : Type 0 where
  pub written : Rows.Run
  pub profile_hash : Option Bytes
  pub session_id : Option ℕ
  pub tag : Bytes
  pub tag_command : Bytes
  pub ended_at : Option ℕ
  pub status : Status

pub record ProcessRow : Type 0 where
  pub written : Rows.Process
  pub ended_at : Option ℕ
  pub end_reason : Option EndReason
  pub exit_status : Option ℕ

pub record WatchRow : Type 0 where
  pub started_at : ℕ
  pub os_version : Bytes
  pub buffer : ℕ
  pub ended_at : Option ℕ
  pub end_reason : Bytes

pub record Tables : Type 0 where
  pub watches : Map ℕ WatchRow
  pub sessions : Map ℕ SessionRow
  pub profiles : Map Bytes Bytes
  pub runs : Map ℕ RunRow
  pub run_env : List (ℕ × (Bytes × Bytes))
  pub processes : Map ℕ ProcessRow
  pub denials : Map ℕ Rows.Denial
  pub orphans : Map ℕ Rows.Orphan

module _ {R : Type 0} where
  -- SQLite's next row id
  unfoldable pub next_id : Map ℕ R → ℕ
  next_id [] = 1
  next_id ((i, r) ∷ m) = max (suc i) (next_id m)

  -- `UPDATE … WHERE id = ?`
  unfoldable pub update : ℕ → (R → R) → Map ℕ R → Map ℕ R
  update id f [] = []
  update id f ((i, r) ∷ m) = if i == id then (i, f r) ∷ m else (i, r) ∷ update id f m

  -- `INSERT` of a row with a new id
  unfoldable pub add : R → Map ℕ R → Map ℕ R
  unfolding next_id
  add r m = m ++ (next_id m, r) ∷ []

-- `BeginWatch`
unfoldable pub begin_watch : ℕ → Bytes → ℕ → Exec Tables ℕ
unfolding add
begin_watch start os buffer s = (
  ok (next_id s.watches),
  record s {
    watches =
        add
          (record {
            started_at = start;
            os_version = os;
            buffer = buffer;
            ended_at = none;
            end_reason = [];
          })
          s.watches;
  },
)

-- `EndWatch`
unfoldable pub end_watch : ℕ → ℕ → Bytes → Exec Tables (Unit {0})
unfolding update
end_watch id t reason s = (
  ok tt,
  record s {
    watches = update id (λ w. record w { ended_at = some t; end_reason = reason }) s.watches;
  },
)

-- the row of a kind and key, which are unique together
unfoldable pub find_session : Bytes → Bytes → Map ℕ SessionRow → Option ℕ
find_session kind key [] = none
find_session kind key ((i, r) ∷ m) =
    if r.kind == kind && r.key == key then some i else find_session kind key m

abbrev pub new_session : Bytes → Bytes → ℕ → SessionRow
new_session kind key t = record { kind = kind; key = key; first_seen = t; last_seen = t }

-- `ON CONFLICT … DO UPDATE`
abbrev pub touch : ℕ → SessionRow → SessionRow
touch t r = record r { last_seen = max r.last_seen t; first_seen = min r.first_seen t }

unfoldable pub upsert_session :
    Bytes → Bytes → ℕ → Option ℕ → Map ℕ SessionRow → ℕ × Map ℕ SessionRow
unfolding add update
upsert_session kind key t none m = (next_id m, add (new_session kind key t) m)
upsert_session kind key t (some i) m = (i, update i (touch t) m)

-- `EnsureSession`
unfoldable pub ensure_session : Bytes → Bytes → ℕ → Exec Tables ℕ
unfolding find_session upsert_session
ensure_session kind key t s =
    let (id, m) = upsert_session kind key t (find_session kind key s.sessions) s.sessions in
    (ok id, record s { sessions = m })

-- `INSERT OR IGNORE INTO profiles`
unfoldable pub add_profile : (Bytes → Bytes) → Bytes → Map Bytes Bytes → Map Bytes Bytes
add_profile sha text m =
    if is_empty text
    then m
    else if is_some (Map.lookup (sha text) m)
    then m
    else m ++ (sha text, text) ∷ []

abbrev env_keys : Map Bytes Bytes → List Bytes
env_keys [] = []
env_keys ((k, v) ∷ env) = k ∷ env_keys env

-- the loop over the sorted names
unfoldable pub run_env_rows : ℕ → Map Bytes Bytes → List Bytes → List (ℕ × (Bytes × Bytes))
run_env_rows id env [] = []
run_env_rows id env (k ∷ ks) = (id, (k, or_else (Map.lookup k env) [])) ∷ run_env_rows id env ks

-- `InsertRun`
unfoldable pub insert_run : (Bytes → Bytes) → Rows.Run → Exec Tables ℕ
unfolding add_profile add run_env_rows
insert_run sha r s =
    let id = next_id s.runs in
    (
      ok id,
      record s {
        profiles = add_profile sha r.profile_text s.profiles;
        runs =
            add
              (record {
                written = r;
                profile_hash = if is_empty r.profile_text then none else some (sha r.profile_text);
                session_id = r.session_id;
                tag = r.tag;
                tag_command = r.tag_command;
                ended_at = none;
                status = running;
              })
              s.runs;
        run_env = s.run_env ++ run_env_rows id r.env (sort_names (env_keys r.env));
      },
    )

-- the `WHERE session_id IS NULL` of `SetRunSession`
abbrev pub attach : ℕ → Bytes → Bytes → RunRow → RunRow
attach session tag detail r =
    if is_some r.session_id
    then r
    else record r { session_id = some session; tag = tag; tag_command = detail }

-- `SetRunSession`
unfoldable pub set_run_session : ℕ → ℕ → Bytes → Bytes → Exec Tables (Unit {0})
unfolding update
set_run_session run session tag detail s =
    (ok tt, record s { runs = update run (attach session tag detail) s.runs })

-- `EndRun`
unfoldable pub end_run : ℕ → Option ℕ → Status → Exec Tables (Unit {0})
unfolding update
end_run run t status s =
    (ok tt, record s { runs = update run (λ r. record r { ended_at = t; status = status }) s.runs })

-- `InsertProcess`
unfoldable pub insert_process : Rows.Process → Exec Tables ℕ
unfolding add
insert_process p s = (
  ok (next_id s.processes),
  record s {
    processes =
        add (record { written = p; ended_at = none; end_reason = none; exit_status = none })
          s.processes;
  },
)

-- `EndProcess`
unfoldable pub end_process : ℕ → Option ℕ → EndReason → Option ℕ → Exec Tables (Unit {0})
unfolding update
end_process id t reason status s = (
  ok tt,
  record s {
    processes =
        update id (λ p. record p { ended_at = t; end_reason = some reason; exit_status = status })
          s.processes;
  },
)

-- `InsertDenial` and `AddDenialCount`
unfoldable pub insert_denial : Rows.Denial → Exec Tables ℕ
unfolding add
insert_denial d s = (ok (next_id s.denials), record s { denials = add d s.denials })

unfoldable pub add_denial_count : ℕ → ℕ → Exec Tables (Unit {0})
unfolding update
add_denial_count id n s =
    (ok tt, record s { denials = update id (λ d. record d { count = d.count + n }) s.denials })

-- `InsertOrphan` and `AddOrphanCount`
unfoldable pub insert_orphan : Rows.Orphan → Exec Tables ℕ
unfolding add
insert_orphan o s = (ok (next_id s.orphans), record s { orphans = add o s.orphans })

unfoldable pub add_orphan_count : ℕ → ℕ → Exec Tables (Unit {0})
unfolding update
add_orphan_count id n s =
    (ok tt, record s { orphans = update id (λ o. record o { count = o.count + n }) s.orphans })

-- The database as the correlator's sink.
abbrev pub store_sink : (Bytes → Bytes) → Sink Tables
store_sink sha = record {
  ensure_session = ensure_session;
  insert_run = insert_run sha;
  set_run_session = set_run_session;
  end_run = end_run;
  insert_process = insert_process;
  end_process = end_process;
  insert_denial = insert_denial;
  add_denial_count = add_denial_count;
  insert_orphan = insert_orphan;
  add_orphan_count = add_orphan_count;
}
