-- ===== src/Correlate/Keeps/Always.antt =====
-- Whatever internal/correlate/correlator.go is called with, it undoes nothing.
use buckle.Base.{List}
use buckle.Exec.{for_each}
use buckle.Exec.Frame.{Relates, Relates-for_each}
use buckle.Correlate.Sink.{Sink}
use buckle.Correlate.State.{State, Deps}
use buckle.Correlate.Calls.{Call, event, line, round, stopping, feed}
use buckle.Correlate.Keeps.{Keeps, Keeps-IsPreorder}
use buckle.Correlate.Keeps.Handlers.{handle_es-Keeps}
use buckle.Correlate.Keeps.Attributions.{handle_denial-Keeps}
use buckle.Correlate.Keeps.Rounds.{tick-Keeps, shutdown-Keeps}

module _ {D : Type 0} (sink : Sink D) (deps : Deps) where
  feed-Keeps : (c : Call) → Relates Keeps (feed sink deps c)
  feed-Keeps (event ev) = record { at = handle_es-Keeps sink deps ev }
  feed-Keeps (line d now) = record { at = handle_denial-Keeps sink deps d now }
  feed-Keeps (round order now) = record { at = tick-Keeps sink deps order now }
  feed-Keeps (stopping order) = record { at = shutdown-Keeps sink deps order }

  -- Whatever events, lines, rounds and shutdowns come, in whatever order and even when one fails, every
  -- image that is known keeps its process, its start, its parent and its predecessor, its run if it
  -- has one and its end if it has one; every run keeps its row and its kind, its session if it has
  -- one, stays ended if it has ended, and its last end does not fall; nor does the watermark.
  pub calls-Keeps : (cs : List Call) (s : State D) → Keeps s (for_each cs (feed sink deps) s).1
  calls-Keeps cs s = (Relates-for_each Keeps-IsPreorder cs (feed sink deps) feed-Keeps).at s
