-- ===== src/Correlate/Sink.antt =====
-- The `Sink` interface of internal/correlate/correlator.go: where rows go. `D` is its own state.
use buckle.Base.{ℕ, Bytes, Option}
use buckle.Exec.{Exec}
use buckle.Rows.{Run, Process, Denial, Orphan, Status, EndReason}

pub record Sink (D : Type 0) : Type 0 where
  pub ensure_session : Bytes → Bytes → ℕ → Exec D ℕ
  pub insert_run : Run → Exec D ℕ
  pub set_run_session : ℕ → ℕ → Bytes → Bytes → Exec D (Unit {0})
  pub end_run : ℕ → Option ℕ → Status → Exec D (Unit {0})
  pub insert_process : Process → Exec D ℕ
  pub end_process : ℕ → Option ℕ → EndReason → Option ℕ → Exec D (Unit {0})
  pub insert_denial : Denial → Exec D ℕ
  pub add_denial_count : ℕ → ℕ → Exec D (Unit {0})
  pub insert_orphan : Orphan → Exec D ℕ
  pub add_orphan_count : ℕ → ℕ → Exec D (Unit {0})
