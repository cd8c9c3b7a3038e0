-- ===== src/Watch/Run/Closed.antt =====
-- How `Run` of internal/watch/watch.go leaves the database.
use buckle.Base.{◌++◌, ℕ, Bytes, codes, List, Option, none, some, ◌≡◌, refl, ap}
use buckle.Exec.{Result, ok, err}
use buckle.EsLog.Parse.{Unmarshal}
use buckle.ULog.Parse.{RawLine}
use buckle.Correlate.Sink.{Sink}
use buckle.Correlate.State.{State, Deps, Warning, new}
use buckle.Watch.{Input, Watcher, Outcome, loop, watching}
use buckle.Watch.Attached.{correlator}
use buckle.Watch.Drained.{AskedStop, loop-stopped}
use buckle.Watch.Run.{
  Options, Database, World, Finished, returned, waiting, defaults, first_error, closing,
  not_started, stop_watch, behind_loop, watched, begun, pruned, opened, run, natural,
}

module _ {D : Type 0} (base : Database D) (w : World) (is : List Input) (o : Options)
    (from : D) where
  -- Why a watch never began: the error, and the database that is left.
  pub data Refused : Bytes → D → Type 0 where
    not_open : {e : Bytes} → w.open_error ≡ some e → Refused e from
    not_pruned :
        {e : Bytes} {d : D}
        → base.prune_old w.start from ≡ (err e, d)
        → Refused (codes "prune: " ++ e) d
    not_begun :
        {e : Bytes} {d d' : D} {u : Unit {0}}
        → base.prune_old w.start from ≡ (ok u, d)
        → base.begin w.start o.os_version (natural o.buffer) d ≡ (err e, d')
        → Refused e d'

  -- The watch `id` began.
  pub record Begun (id : ℕ) : Type 0 where
    pub clean : D
    pub first : D
    pub clean_is : (base.prune_old w.start from).1 ≡ clean
    pub first_is : base.begin w.start o.os_version (natural o.buffer) clean ≡ (ok id, first)

  -- The last statement ends the watch `id`.
  pub record Closes (id : ℕ) (last : D) : Type 0 where
    pub begun_as : Begun id
    pub reason : Bytes
    pub before : D
    pub last_is : last ≡ (base.finish id w.end reason before).1

  -- What no error means behind a watch that began: it was cancelled, and its end and the database
  -- went well.
  pub record Clean {id : ℕ} {last : D} (c : Closes id last) : Type 0 where
    pub asked : AskedStop is
    pub end_went_well : (base.finish id w.end c.reason c.before).0 ≡ ok tt
    pub close_went_well : w.close_error ≡ none

  -- How `Run` may stand.
  pub data Leaves : Finished D → Type 0 where
    early : {e : Bytes} {d : D} → Refused e d → Leaves (returned (some e) d)
    closed :
        {e : Option Bytes} {id : ℕ} {d : D} (c : Closes id d)
        → (e ≡ none → Clean c)
        → Leaves (returned e d)
    open_still : (d : D) → Leaves (waiting d)

  abbrev closes :
      {id : ℕ} → Begun id → (reason : Bytes) (d : D) → Closes id (base.finish id w.end reason d).1
  closes b reason d = record { begun_as = b; reason = reason; before = d; last_is = refl }

  closing-none : (e c : Option Bytes) → closing e c ≡ none → e ≡ none
  closing-none none c h = refl
  closing-none (some e) c h = h

  first_error-none : (e : Option Bytes) (r : Result (Unit {0})) → first_error e r ≡ none → e ≡ none
  first_error-none none r h = refl
  first_error-none (some e) r h = h

  closing-close : (e c : Option Bytes) → closing e c ≡ none → c ≡ none
  closing-close none c h = h
  closing-close (some e) c h = cc

  first_error-ok : (e : Option Bytes) (r : Result (Unit {0})) → first_error e r ≡ none → r ≡ ok tt
  first_error-ok none (ok u) h = refl
  first_error-ok none (err e) h = cc
  first_error-ok (some e) r h = cc

  not_started-Leaves :
      {id : ℕ} → Begun id → (reason e : Bytes) (d : D) → Leaves (not_started base w id reason e d)
  unfolding not_started
  not_started-Leaves b reason e d = closed (closes b reason d) (λ h. cc)

  module _ (sink : Sink D) (deps : Deps) (order : State D → List ℕ) (text : Warning → Bytes)
      (json : Unmarshal) (as_line : Bytes → Option RawLine) (as_time : Bytes → Option ℕ) where
    stop_watch-Leaves :
        {id : ℕ}
        → Begun id
        → (out : Outcome) (c : State D) → (out.error ≡ none → AskedStop is)
        → Leaves (stop_watch base sink deps order text json as_line as_time w id out c)
    unfolding stop_watch
    stop_watch-Leaves b out c h = closed (closes b out.reason _) λ q. record {
      asked =
          h (first_error-none out.error _ (first_error-none _ _ (closing-none _ w.close_error q)));
      end_went_well = first_error-ok _ _ (closing-none _ w.close_error q);
      close_went_well = closing-close _ w.close_error q;
    }

    behind_loop-Leaves :
        {id : ℕ}
        → Begun id
        → (done : Option Outcome × Watcher (State D))
        → ((out : Outcome) → done.0 ≡ some out → out.error ≡ none → AskedStop is)
        → Leaves (behind_loop base sink deps order text json as_line as_time w id done)
    behind_loop-Leaves b (none, v) h = open_still v.corr.db
    behind_loop-Leaves b (some out, v) h = stop_watch-Leaves b out v.corr (h out refl)

    -- The loop as `Run` starts it.
    abbrev looped : ℕ → D → Option Outcome × Watcher (State D)
    looped id d =
        loop (correlator sink deps order text) json as_line as_time w.exits is
          (watching (new (record { watch_id = id; buffer = natural o.buffer }) d))

    looped-AskedStop :
        (id : ℕ) (d : D) (out : Outcome)
        → (looped id d).0 ≡ some out
        → out.error ≡ none
        → AskedStop is
    looped-AskedStop id d out e n =
        (loop-stopped (correlator sink deps order text) json as_line as_time w.exits is _ out
          (looped id d).1 (ap (λ (x : Option Outcome). (x, (looped id d).1)) e) n).2

    watched-Leaves :
        (es log : Option Bytes) {id : ℕ}
        → Begun id
        → (d : D)
        → Leaves (watched base sink deps order text json as_line as_time es log w o is id d)
    unfolding watched
    watched-Leaves (some e) log b d = not_started-Leaves b (codes "failed to start eslogger") e d
    watched-Leaves none (some e) b d = not_started-Leaves b (codes "failed to start log stream") e d
    watched-Leaves none none {id} b d = behind_loop-Leaves b (looped id d) (looped-AskedStop id d)

    begun-Leaves :
        (clean : D) (u : Unit {0})
        → base.prune_old w.start from ≡ (ok u, clean)
        → (r : Result ℕ × D) → base.begin w.start o.os_version (natural o.buffer) clean ≡ r
        → Leaves (begun base sink deps order text json as_line as_time w o is r)
    begun-Leaves clean u p (err e, d) q = early (not_begun p q)
    begun-Leaves clean u p (ok id, d) q =
        watched-Leaves w.es_error w.log_error
          (record {
            clean = clean;
            first = d;
            clean_is = ap (λ (x : Result (Unit {0}) × D). x.1) p;
            first_is = q;
          })
          d

    pruned-Leaves :
        (r : Result (Unit {0}) × D)
        → base.prune_old w.start from ≡ r
        → Leaves (pruned base sink deps order text json as_line as_time w o is r)
    pruned-Leaves (err e, d) p = early (not_pruned p)
    pruned-Leaves (ok u, d) p = begun-Leaves d u p _ refl

    opened-Leaves :
        (e : Option Bytes)
        → w.open_error ≡ e
        → Leaves (opened base sink deps order text json as_line as_time e w o is from)
    opened-Leaves (some e) p = early (not_open p)
    opened-Leaves none p = pruned-Leaves _ refl

-- `Run` returns with an error and the database as it was left when the store could not be opened,
-- pruned or told of the watch; or it waits for more inputs, or for a process to end; or its watch began with an id, its last
-- change of the database is the EndWatch of that id, and if it returns no error then the context
-- was cancelled, or seen to be so when an output ended, and EndWatch and Close gave no error.
pub run-Leaves :
    {D : Type 0} (base : Database D) (sink : Sink D) (deps : Deps) (order : State D → List ℕ)
    (text : Warning → Bytes) (json : Unmarshal) (as_line : Bytes → Option RawLine)
    (as_time : Bytes → Option ℕ) (w : World) (o : Options) (is : List Input) (d : D)
    → Leaves base w is (defaults o) d (run base sink deps order text json as_line as_time w o is d)
unfolding run
run-Leaves base sink deps order text json as_line as_time w o is d =
    opened-Leaves base w is (defaults o) d sink deps order text json as_line as_time w.open_error
      refl
