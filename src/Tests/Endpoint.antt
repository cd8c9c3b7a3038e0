-- ===== src/Tests/Endpoint.antt =====
-- Runs of the model of the endpoint database, shipping and the pages at fixed inputs, with theorems applied to them.
use buckle.Base.{
  none, is_some, bytes_beq, false, length, min, ◌<◌, ◌==◌, ◌+◌, ◌*◌, ◌/◌, ℕ, true, List, [], ◌∷◌,
  ◌++◌, some, ◌≡◌, ◌≢◌, ◌↔◌, refl, Bytes, codes, arith, if◌then◌else◌, nat_eq, bytes_eq, pair_eq,
}
use mathlib.Core.List.{Perm}
use buckle.Base.Int.{ℤ, pos}
use buckle.Base.Map
use buckle.Exec.{◌>>=◌}
use buckle.Wire.{Value, int, str, Batch}
use buckle.Wire
use buckle.Ship.{Reply, answered, Options, newer, sync_loop, unfinished, max_backoff}
use buckle.Ship.Enough.{sync_loop_ends}
use buckle.Ship.Backoff.{doubled, fail_again, fail_again-doubled}
use buckle.Rows
use buckle.Rows.{RunKind, Status}
use buckle.Sbx.Args.{ProfileSource}
use buckle.Store.{
  Tables, RunRow, SessionRow, next_id, insert_denial, add_denial_count, ensure_session,
}
use buckle.Store.Counts.{total, counted, total-insert_denial}
use buckle.Store.Sessions.{ensure_all, ensure_session_again}
use buckle.Store.Prune.{prune}
use buckle.Store.Prune.Referenced.{Among, KeepsSession, KeepsProfile, prune-referenced}
use buckle.Store.Changes
use buckle.Store.Changes.{given, Ascending, changes_since-Ascending}
use buckle.ServerUi.{Durations, second, Tells, span, span-Tells}
use buckle.Tests.Server.{profile, batch}

-- A server that is one revision behind each time.
abbrev slow_server : Batch → ℕ → Reply × ℕ
slow_server b n = (answered 200 (some (pos n)), n + 1)

abbrev shipping : Options
shipping = record { host = batch.host; db_instance = batch.db_instance; interval = 10 }

one_newer : length (newer (pos 0) (profile ∷ [])) < 2
unfolding newer
one_newer = ground arith

sync_loop_ends_example :
    (sync_loop slow_server shipping (profile ∷ []) 2 (pos 0) 0 5).0 ≢ unfinished
sync_loop_ends_example = sync_loop_ends slow_server shipping (profile ∷ []) 2 (pos 0) 0 5 one_newer

fail_again-doubled_example :
    fail_again 180_000_000_000 2 (record { wait = 180_000_000_000; failing = false })
    ≡ some (record { wait = min (doubled 1 180_000_000_000) max_backoff; failing = true })
fail_again-doubled_example = fail_again-doubled 180_000_000_000 180_000_000_000 0

-- The endpoint database.
abbrev pub no_tables : Tables
no_tables = record {
  watches = [];
  sessions = [];
  profiles = [];
  runs = [];
  run_env = [];
  processes = [];
  denials = [];
  orphans = [];
}

abbrev read_denial : Rows.Denial
read_denial = record {
  run_id = 1;
  process_id = 1;
  time = 30_000_000;
  process_name = codes "ls";
  pid = 41;
  operation = codes "file-read-data";
  target = codes "/etc/passwd";
  message = [];
  count = 1;
}

abbrev one_denial : Tables
one_denial = record no_tables { denials = (7, read_denial) ∷ [] }

total-insert_denial_example :
    let t = ((insert_denial read_denial >>= λ id. add_denial_count id 3) one_denial).1 in
    (t.denials ≡ one_denial.denials ++ (next_id one_denial.denials, counted 3 read_denial) ∷ [])
    × (total t.denials ≡ total one_denial.denials + (1 + 3))
total-insert_denial_example = total-insert_denial read_denial 3 one_denial

abbrev other_calls : List (Bytes × (Bytes × ℕ))
other_calls = (codes "cursor", (codes "unknown", 8)) ∷ []

ensure_session_again_example :
    (ensure_session (codes "claude-code") (codes "_a1_SBX") 9 (
      ensure_all other_calls
        (ensure_session (codes "claude-code") (codes "_a1_SBX") 5 no_tables).1)).0
    ≡ (ensure_session (codes "claude-code") (codes "_a1_SBX") 5 no_tables).0
ensure_session_again_example =
    ensure_session_again (codes "claude-code") (codes "_a1_SBX") 5 9 other_calls no_tables

-- A run of session `id` that began at `start`.
abbrev run_of : ℕ → ℕ → RunRow
run_of id start = record {
  written = record {
    watch_id = 1;
    kind = RunKind.sandbox_exec;
    parent_run_id = none;
    session_id = some id;
    tag = [];
    tag_command = [];
    started_at = start;
    started_before_watch = false;
    profile_source = ProfileSource.unknown;
    profile_text = [];
    profile_path = [];
    profile_name = [];
    profile_error = [];
    params = [];
    extra = [];
    command = [];
    cwd = [];
    env = [];
  };
  profile_hash = none;
  session_id = some id;
  tag = [];
  tag_command = [];
  ended_at = none;
  status = Status.running;
}

-- Two sessions, the first with a young run and the second with an old one.
abbrev two_sessions : Tables
two_sessions =
    record (ensure_all other_calls
      (ensure_session (codes "claude-code") (codes "_a1_SBX") 5 no_tables).1) {
        runs = (3, run_of 1 95) ∷ (4, run_of 2 20) ∷ [];
      }

first_session_stays : is_some (Map.lookup 1 (prune 100 10 two_sessions).sessions) ≡ true
unfolding prune ensure_session Map.lookup Map.insert bytes_beq
first_session_stays = refl

second_session_goes : is_some (Map.lookup 2 (prune 100 10 two_sessions).sessions) ≡ false
unfolding prune ensure_session Map.lookup Map.insert bytes_beq
second_session_goes = refl

-- The session that the second call finds, as it stands.
abbrev first_session : SessionRow
first_session = record {
  kind = codes "claude-code";
  key = codes "_a1_SBX";
  first_seen = 5;
  last_seen = 5;
}

prune-referenced_example :
    ((Map.lookup 1 (prune 100 10 two_sessions).sessions ≡ some first_session) ↔ (
      (Map.lookup 1 two_sessions.sessions ≡ some first_session)
      × Among (KeepsSession 100 10 1) two_sessions.runs))
    × ((Map.lookup (codes "ab") (prune 100 10 two_sessions).profiles ≡ some (codes "text")) ↔ (
        (Map.lookup (codes "ab") two_sessions.profiles ≡ some (codes "text"))
        × Among (KeepsProfile 100 10 (codes "ab")) two_sessions.runs))
prune-referenced_example =
    prune-referenced 100 10 two_sessions 1 (codes "ab") first_session (codes "text")

-- Statements that find one profile, of revision 5.
abbrev one_change : Bytes → ℤ → ℕ → List (List Value)
one_change t c limit =
    if t == codes "profiles" then (str (codes "ab") ∷ str [] ∷ int (pos 5) ∷ []) ∷ [] else []

changes_since-Ascending_example :
    (left : List Wire.Row) × (length (Changes.changes_since one_change (pos 3) 1)
      ≡ min 1 (length (given one_change (pos 3) 1)))
    × Perm (Changes.changes_since one_change (pos 3) 1 ++ left) (given one_change (pos 3) 1)
    × Ascending (Changes.changes_since one_change (pos 3) 1 ++ left)
changes_since-Ascending_example = changes_since-Ascending one_change (pos 3) 1

-- The methods of a duration that are exact.
abbrev exact : Durations
exact = record {
  int_hours = λ d. d / (3600 * second);
  int_minutes = λ d. d / (60 * second);
  int_seconds = λ d. d / second;
}

span-Tells_example : Tells (span exact (some 1) (some 61_000_000_001)) 61_000_000_000
span-Tells_example =
    span-Tells exact (λ d h. refl) (λ d h. refl) (λ d h. refl) 1 61_000_000_001 (ground arith)
      (ground arith) (ground arith)
