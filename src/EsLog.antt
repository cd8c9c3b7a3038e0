-- ===== src/EsLog.antt =====
-- internal/eslog/event.go: the types of the events. Times are nanoseconds since Go's zero time.
pub mod Parse
use buckle.Base.{ℕ, Bool, Bytes, List}
use buckle.Base.Int.{ℤ}

abbrev pub Token : Type 0
Token = ℕ × ℕ

pub record Proc : Type 0 where
  pub token : Token
  pub parent : Token
  pub ppid : ℕ
  pub path : Bytes
  pub is_platform : Bool
  pub signing_id : Bytes
  pub team_id : Bytes
  pub cdhash : Bytes
  pub start_time : ℕ

pub data Kind : Type 0 where
  exec fork exit other : Kind

pub record Event : Type 0 where
  pub kind : Kind
  pub time : ℕ
  pub seq : ℕ
  pub process : Proc
  pub target : Proc
  pub args : List Bytes
  pub cwd : Bytes
  pub env : List Bytes
  pub exit_status : ℕ
  pub schema_version : ℤ
