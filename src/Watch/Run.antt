-- ===== src/Watch/Run.antt =====
-- `Run` of internal/watch/watch.go around its loop. The files, the start of the sources and the
-- clock are arguments; ownership of files and the lines that are logged are left out.
pub mod Closed
use buckle.Base.{
  ℕ, Bool, true, false, Bytes, codes, List, [], ◌∷◌, ◌++◌, Option, none, some, if◌then◌else◌,
  or_else,
}
use buckle.Base.Int.{ℤ, pos, ltb_ℤ}
use buckle.Exec.{Result, ok, err, Exec}
use buckle.EsLog.Parse.{Unmarshal}
use buckle.ULog.Parse.{RawLine}
use buckle.Store.{Tables, begin_watch, end_watch}
use buckle.Store.Prune.{prune}
use buckle.Correlate.Sink.{Sink}
use buckle.Correlate.State.{State, Deps, Warning, new}
use buckle.Correlate.Ticks.{shutdown}
use buckle.Watch.{Source, Input, Watcher, Outcome, loop, watching}
use buckle.Watch.Attached.{correlator}

-- `Options`, as far as `defaults` fills them; `none` is nil.
pub record Options : Type 0 where
  pub buffer : ℤ
  pub eslogger_path : Bytes
  pub eslogger_args : Option (List Bytes)
  pub log_path : Bytes
  pub log_args : Option (List Bytes)
  pub os_version : Bytes

abbrev pub default_eslogger_args : List Bytes
default_eslogger_args = codes "exec" ∷ codes "fork" ∷ codes "exit" ∷ []

abbrev pub default_log_args : List Bytes
default_log_args =
    codes "stream"
    ∷ codes "--predicate"
    ∷ codes "sender == \"Sandbox\""
    ∷ codes "--style"
    ∷ codes "ndjson"
    ∷ []

abbrev text_or : Bytes → Bytes → Bytes
text_or [] d = d
text_or (c ∷ cs) d = c ∷ cs

abbrev list_or : Option (List Bytes) → List Bytes → Option (List Bytes)
list_or none d = some d
list_or (some l) d = some l

-- `defaults`
unfoldable pub defaults : Options → Options
defaults o = record {
  buffer = if ltb_ℤ (pos 0) o.buffer then o.buffer else pos 5_000_000_000;
  eslogger_path = text_or o.eslogger_path (codes "/usr/bin/eslogger");
  eslogger_args = list_or o.eslogger_args default_eslogger_args;
  log_path = text_or o.log_path (codes "/usr/bin/log");
  log_args = list_or o.log_args default_log_args;
  os_version = o.os_version;
}

abbrev pub natural : ℤ → ℕ
natural (pos n) = n
natural _ = 0

-- `Retention`
abbrev pub retention : ℕ
retention = 2_592_000_000_000_000

-- What `Run` asks of the database.
pub record Database (D : Type 0) : Type 0 where
  pub prune_old : ℕ → Exec D (Unit {0})
  pub begin : ℕ → Bytes → ℕ → Exec D ℕ
  pub finish : ℕ → ℕ → Bytes → Exec D (Unit {0})

-- The tables of the store.
unfoldable pub tables : Database Tables
unfolding begin_watch end_watch prune
tables = record {
  prune_old = λ now s. (ok tt, prune now retention s);
  begin = begin_watch;
  finish = end_watch;
}

-- What goes wrong outside, the sources whose process ends, and the times that `o.Now` gives.
pub record World : Type 0 where
  pub open_error : Option Bytes
  pub close_error : Option Bytes
  pub es_error : Option Bytes
  pub log_error : Option Bytes
  pub exits : Source → Bool
  pub start : ℕ
  pub end : ℕ

-- How `Run` stands: it returned, or waits for more inputs or for a process to end.
pub data Finished (D : Type 0) : Type 0 where
  returned : Option Bytes → D → Finished D
  waiting : D → Finished D

-- `loopErr == nil` keeps the first error
abbrev pub first_error : Option Bytes → Result (Unit {0}) → Option Bytes
first_error (some e) r = some e
first_error none (ok u) = none
first_error none (err e) = some e

-- the deferred Close
abbrev pub closing : Option Bytes → Option Bytes → Option Bytes
closing (some e) close = some e
closing none close = close

module _ {D : Type 0} (base : Database D) where
  -- a source that does not start
  unfoldable pub not_started : World → ℕ → Bytes → Bytes → D → Finished D
  not_started w id reason e d =
      returned (closing (some e) w.close_error) (base.finish id w.end reason d).1

module _ {D : Type 0} (base : Database D) (sink : Sink D) (deps : Deps) (order : State D → List ℕ)
    (text : Warning → Bytes) (json : Unmarshal) (as_line : Bytes → Option RawLine)
    (as_time : Bytes → Option ℕ) where
  -- behind the loop
  unfoldable pub stop_watch : World → ℕ → Outcome → State D → Finished D
  unfolding shutdown
  stop_watch w id o c =
      let (r, c') = shutdown sink deps (order c) c in
      let (q, d) = base.finish id w.end o.reason c'.db in
      returned (closing (first_error (first_error o.error r) q) w.close_error) d

  abbrev pub behind_loop : World → ℕ → Option Outcome × Watcher (State D) → Finished D
  behind_loop w id (none, v) = waiting v.corr.db
  behind_loop w id (some o, v) = stop_watch w id o v.corr

  abbrev pub watch : World → Options → List Input → ℕ → D → Finished D
  watch w o is id d = behind_loop w id (
      loop (correlator sink deps order text) json as_line as_time w.exits is
        (watching (new (record { watch_id = id; buffer = natural o.buffer }) d)))

  -- from the start of the sources
  unfoldable pub watched :
      Option Bytes → Option Bytes → World → Options → List Input → ℕ → D → Finished D
  unfolding loop not_started stop_watch
  watched (some e) l w o is id d = not_started base w id (codes "failed to start eslogger") e d
  watched none (some e) w o is id d = not_started base w id (codes "failed to start log stream") e d
  watched none none w o is id d = watch w o is id d

  abbrev pub begun : World → Options → List Input → Result ℕ × D → Finished D
  begun w o is (err e, d) = returned (closing (some e) w.close_error) d
  begun w o is (ok id, d) = watched w.es_error w.log_error w o is id d

  abbrev pub pruned : World → Options → List Input → Result (Unit {0}) × D → Finished D
  pruned w o is (err e, d) = returned (closing (some (codes "prune: " ++ e)) w.close_error) d
  pruned w o is (ok u, d) = begun w o is (base.begin w.start o.os_version (natural o.buffer) d)

  abbrev pub opened : Option Bytes → World → Options → List Input → D → Finished D
  opened (some e) w o is d = returned (some e) d
  opened none w o is d = pruned w o is (base.prune_old w.start d)

  -- `Run`
  unfoldable pub run : World → Options → List Input → D → Finished D
  unfolding defaults watched
  run w o is d = opened w.open_error w (defaults o) is d
