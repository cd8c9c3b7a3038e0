-- ===== src/Watch/Attached.antt =====
-- `buckle watch` with its correlator: the loop of internal/watch/watch.go on the methods of
-- internal/correlate/correlator.go. The order in which Tick ranges over its map, and the texts of
-- the correlator's warnings, are parameters.
use buckle.Base.{ℕ, Bytes, List, map, bytes_eq}
use buckle.Correlate.Sink.{Sink}
use buckle.Correlate.State.{State, Deps, Warning}
use buckle.Correlate.Events.{handle_es}
use buckle.Correlate.Denials.{handle_denial}
use buckle.Correlate.Ticks.{tick}
use buckle.Watch.{Handlers}

module _ {D : Type 0} (sink : Sink D) (deps : Deps) (order : State D → List ℕ)
    (text : Warning → Bytes) where
  -- The correlator as the loop calls it.
  unfoldable pub correlator : Handlers (State D)
  correlator = record {
    on_event = handle_es sink deps;
    on_denial = handle_denial sink deps;
    on_tick = λ now s. tick sink deps (order s) now s;
    warnings_of = λ s. map text s.warnings;
  }
