-- ===== src/Tests/Pages.antt =====
-- Pages and migrations at fixed inputs, with theorems applied to them.
use buckle.Base.{
  ℕ, true, false, Bytes, codes, List, [], ◌∷◌, ◌++◌, Option, none, some, ◌≡◌, ◌⊎◌, refl, ◌<◌, arith,
  map, bytes_eq, bytes_beq, nat_eq, pair_eq, ◌≤◌,
}
use buckle.Base.Int.{pos}
use buckle.Base.Map
use mathlib.Core.List.{Perm}
use buckle.ServerUi.Argv.{argv, new_args_view}
use buckle.ServerUi.Argv.Shell.{words, between, words-argv, new_args_view-whole}
use buckle.ServerUi.Timeline.{Process, Denial, timeline, all_process_entries, denial_entry}
use buckle.ServerUi.Timeline.Sorted.{ByTime, timeline-InOrder}
use buckle.Store.Revisions.{Statement, inserts, updates, deletes, execute_all, upgrade_v2, Stamped}
use buckle.Store.Revisions.Upgraded.{upgraded-Stamped}
use buckle.Store.Revisions.Since.{Touched, execute_all-old}
use buckle.Store.Schema.{Db, System, ok, migrate, upgraded}
use buckle.Store.Schema.Migrated.{migrate_twice}

abbrev command : List Bytes
command = codes "sh" ∷ codes "-c" ∷ codes "echo 'a b'" ∷ []

abbrev decoded : Bytes → Option (List Bytes)
decoded js = some command

words-argv_example : words between [] (argv decoded (codes "[]")) ≡ some command
words-argv_example = words-argv decoded (codes "[]") command refl

new_args_view-whole_example :
    ((new_args_view decoded (codes "/bin/sh") (codes "[]")).full ≡ argv decoded (codes "[]"))
    ⊎ ((new_args_view decoded (codes "/bin/sh") (codes "[]")).text ≡ argv decoded (codes "[]"))
new_args_view-whole_example = new_args_view-whole decoded (codes "/bin/sh") (codes "[]")

abbrev shell : Process
shell = record {
  id = pos 1;
  pid = pos 41;
  pidversion = none;
  parent_process_id = none;
  exec_prev_process_id = none;
  path = codes "/bin/sh";
  args_json = codes "[]";
  is_platform = none;
  signing_id = [];
  team_id = [];
  started_at = some (pos 10);
  ended_at = some (pos 30);
  end_reason = codes "exit";
  exit_status = some (pos 1);
}

abbrev read_denied : Denial
read_denied = record {
  id = pos 1;
  process_id = pos 1;
  time = pos 20;
  process_name = codes "sh";
  pid = pos 41;
  operation = codes "file-read-data";
  target = codes "/etc/passwd";
  message = [];
  count = 2;
  is_platform = none;
}

timeline-InOrder_example :
    ByTime (timeline decoded (shell ∷ []) (read_denied ∷ []))
    × Perm
        (timeline decoded (shell ∷ []) (read_denied ∷ []))
        (all_process_entries decoded (shell ∷ []) ++ map (λ d. denial_entry d) (read_denied ∷ []))
timeline-InOrder_example = timeline-InOrder decoded (shell ∷ []) (read_denied ∷ [])

-- Two tables of an old database.
abbrev old_tables : List (Bytes × List ℕ)
old_tables = (codes "runs", 1 ∷ 4 ∷ []) ∷ (codes "denials", 2 ∷ []) ∷ []

abbrev later : List Statement
later = inserts (codes "runs", 5) ∷ updates (codes "runs", 1) ∷ deletes (codes "denials", 2) ∷ []

upgraded-Stamped_example : Stamped (execute_all later (upgrade_v2 0 old_tables))
upgraded-Stamped_example = upgraded-Stamped old_tables later (ground arith)

untouched : Map.lookup (codes "runs", 4) (execute_all later (upgrade_v2 0 old_tables)).revs ≡ some 4
unfolding execute_all upgrade_v2 Map.lookup Map.insert bytes_beq
untouched = refl

execute_all-old_example :
    (4 ≤ (upgrade_v2 0 old_tables).counter
      → Map.lookup (codes "runs", 4) (upgrade_v2 0 old_tables).revs ≡ some 4)
    × (Touched (codes "runs", 4) later → (upgrade_v2 0 old_tables).counter < 4)
execute_all-old_example =
    execute_all-old later (codes "runs", 4) (upgrade_v2 0 old_tables) 4 untouched

abbrev version_1 : Db
version_1 = record {
  user_version = pos 1;
  rows = old_tables;
  revs = record { counter = 0; revs = [] };
  has_run_env = false;
  db_instance = none;
  wal = false;
  indexed = false;
}

abbrev healthy : System
healthy = record {
  random = codes "0123456789abcdef";
  tx_fails = false;
  mode = codes "wal";
  index_fails = false;
}

version_1_migrates :
    migrate healthy true version_1
    ≡ (ok true, record (upgraded healthy.random version_1) { wal = true; indexed = true })
unfolding migrate bytes_beq
version_1_migrates = refl

migrate_twice_example :
    (true ≡ true → (true ≡ true) ⊎ (pos 1 ≡ pos 0))
    × (true ≡ false
        → ((upgraded healthy.random version_1).rows ≡ old_tables)
          × ((upgraded healthy.random version_1).revs ≡ version_1.revs))
    × (migrate healthy false
          (record (upgraded healthy.random version_1) { wal = true; indexed = true })
        ≡ (ok false, record (upgraded healthy.random version_1) { wal = true; indexed = true }))
migrate_twice_example =
    migrate_twice healthy true true version_1
      (record (upgraded healthy.random version_1) { wal = true; indexed = true }) healthy false
      version_1_migrates refl refl
