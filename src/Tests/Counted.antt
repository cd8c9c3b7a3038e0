-- ===== src/Tests/Counted.antt =====
-- A run of the correlator on the tables, with the theorems on whole runs applied to it.
use buckle.Base.{ℕ, ◌+◌, ◌≤◌, true, List, [], ◌∷◌, ◌≡◌, refl, is_some, bytes_beq, nat_eq}
use buckle.Base.Map
use buckle.Exec.{ok, for_each}
use buckle.Sbx.Tag.{find_tag}
use buckle.Store.{Tables, store_sink}
use buckle.Store.Counts.{total}
use buckle.Correlate.Ledger.{Ledger}
use buckle.Store.Tallied.{tables_ledger}
use buckle.Correlate.State.{State, new}
use buckle.Correlate.Calls.{Call, event, line, round, stopping, feed}
use buckle.Correlate.Keeps.{Keeps}
use buckle.Correlate.Keeps.Always.{calls-Keeps}
use buckle.Correlate.Ledger.Waiting.{waiting}
use buckle.Correlate.Ledger.Conserved.{all_brought, SeenFirst, calls-conserve}
use buckle.Tests.Correlator.{start_event, refused_read, no_files}
use buckle.Tests.Endpoint.{no_tables}

-- An exec, a denial that waits, four repetitions of it, a round that is too early, and the end.
abbrev calls : List Call
calls =
    event start_event
    ∷ line refused_read 40_000_000
    ∷ line (record refused_read { duplicate = 4 }) 41_000_000
    ∷ round (41 ∷ []) 41_000_000
    ∷ stopping (41 ∷ [])
    ∷ []

abbrev begun : State Tables
begun = new (record { watch_id = 1; buffer = 5_000_000_000 }) no_tables

abbrev finished : State Tables
finished = (for_each calls (feed (store_sink (λ b. b)) no_files) begun).1

calls_succeed : for_each calls (feed (store_sink (λ b. b)) no_files) begun ≡ (ok tt, finished)
unfolding for_each buckle.Correlate.Events.handle_es buckle.Correlate.Denials.handle_denial
    buckle.Correlate.Ticks.tick buckle.Correlate.Ticks.shutdown Map.lookup Map.insert Map.delete
    bytes_beq buckle.Detect.run_loop find_tag buckle.Base.contains buckle.Store.insert_run
    buckle.Store.insert_process buckle.Store.insert_denial buckle.Detect.denial
    buckle.Store.end_process buckle.Store.end_run
calls_succeed = refl

-- All five are rows of the database.
five_counted : total finished.db.denials ≡ 5
unfolding for_each buckle.Correlate.Events.handle_es buckle.Correlate.Denials.handle_denial
    buckle.Correlate.Ticks.tick buckle.Correlate.Ticks.shutdown Map.lookup Map.insert Map.delete
    bytes_beq buckle.Detect.run_loop find_tag buckle.Base.contains buckle.Store.insert_run
    buckle.Store.insert_process buckle.Store.insert_denial buckle.Detect.denial
    buckle.Store.end_process buckle.Store.end_run
five_counted = refl

abbrev ledger : Ledger (store_sink (λ b. b))
ledger = tables_ledger (λ b. b)

calls-conserve_example :
    (ledger.tally.counted finished.db + waiting finished.pending_by_pid
      ≤ ledger.tally.counted no_tables + all_brought calls)
    × (SeenFirst (store_sink (λ b. b)) no_files calls begun
        → ledger.tally.counted finished.db + waiting finished.pending_by_pid
          ≡ ledger.tally.counted no_tables + all_brought calls)
calls-conserve_example =
    calls-conserve (store_sink (λ b. b)) no_files (tables_ledger (λ b. b))
      (record { watch_id = 1; buffer = 5_000_000_000 }) no_tables calls tt finished calls_succeed

calls-Keeps_example : Keeps begun (for_each calls (feed (store_sink (λ b. b)) no_files) begun).1
calls-Keeps_example = calls-Keeps (store_sink (λ b. b)) no_files calls begun
