-- ===== src/ULog.antt =====
-- internal/ulog/denial.go: the denial that a log line carries.
pub mod Line
pub mod Parse
pub mod RoundTrip
use buckle.Base.{ℕ, Bytes}

pub record Denial : Type 0 where
  pub time : ℕ
  pub mach_time : ℕ
  pub name : Bytes
  pub pid : ℕ
  pub deny_n : ℕ
  pub operation : Bytes
  pub target : Bytes
  pub message : Bytes
  pub duplicate : ℕ
