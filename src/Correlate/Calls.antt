-- ===== src/Correlate/Calls.antt =====
-- What the watch loop asks of the correlator of internal/correlate/correlator.go, call by call.
use buckle.Base.{ℕ, List}
use buckle.Exec.{Exec}
use buckle.EsLog.{Event}
use buckle.ULog.{Denial}
use buckle.Correlate.Sink.{Sink}
use buckle.Correlate.State.{State, Deps}
use buckle.Correlate.Events.{handle_es}
use buckle.Correlate.Denials.{handle_denial}
use buckle.Correlate.Ticks.{tick, shutdown}

-- A call of the correlator. A round comes with the order in which it visits the pids.
pub data Call : Type 0 where
  event : Event → Call
  line : Denial → ℕ → Call
  round : List ℕ → ℕ → Call
  stopping : List ℕ → Call

module _ {D : Type 0} (sink : Sink D) (deps : Deps) where
  abbrev pub feed : Call → Exec (State D) (Unit {0})
  feed (event ev) = handle_es sink deps ev
  feed (line d now) = handle_denial sink deps d now
  feed (round order now) = tick sink deps order now
  feed (stopping order) = shutdown sink deps order
