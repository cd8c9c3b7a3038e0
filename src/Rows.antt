-- ===== src/Rows.antt =====
-- internal/store/write.go: the new rows that the correlator hands to its sink. The columns that
-- hold one of a few words are types with a constructor for each.
use buckle.Base.{ℕ, Bool, Bytes, List, Option}
use buckle.Base.Map.{Map}
use buckle.Sbx.Args.{ProfileSource}

pub data RunKind : Type 0 where
  sandbox_exec sandbox_init adopted : RunKind

pub data Status : Type 0 where
  running exited watch_stopped : Status

pub data EndReason : Type 0 where
  by_exit by_exec by_watch_stopped : EndReason

pub record Run : Type 0 where
  pub watch_id : ℕ
  pub kind : RunKind
  pub parent_run_id : Option ℕ
  pub session_id : Option ℕ
  pub tag : Bytes
  pub tag_command : Bytes
  pub started_at : ℕ
  pub started_before_watch : Bool
  pub profile_source : ProfileSource
  pub profile_text : Bytes
  pub profile_path : Bytes
  pub profile_name : Bytes
  pub profile_error : Bytes
  pub params : List (Bytes × Bytes)
  pub extra : List Bytes
  pub command : List Bytes
  pub cwd : Bytes
  pub env : Map Bytes Bytes

pub record Process : Type 0 where
  pub run_id : ℕ
  pub pid : ℕ
  pub pidversion : Option ℕ
  pub parent_process_id : Option ℕ
  pub exec_prev_process_id : Option ℕ
  pub ppid : ℕ
  pub path : Bytes
  pub args : List Bytes
  pub is_platform : Option Bool
  pub signing_id : Bytes
  pub team_id : Bytes
  pub cdhash : Bytes
  pub started_at : Option ℕ

pub record Denial : Type 0 where
  pub run_id : ℕ
  pub process_id : ℕ
  pub time : ℕ
  pub process_name : Bytes
  pub pid : ℕ
  pub operation : Bytes
  pub target : Bytes
  pub message : Bytes
  pub count : ℕ

pub record Orphan : Type 0 where
  pub watch_id : ℕ
  pub time : ℕ
  pub process_name : Bytes
  pub pid : ℕ
  pub operation : Bytes
  pub target : Bytes
  pub message : Bytes
  pub count : ℕ
  pub last_path : Bytes
  pub last_pidversion : Option ℕ
