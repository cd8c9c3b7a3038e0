-- ===== src/Correlate/Keeps/Rounds.antt =====
-- `Tick` and `Shutdown` of internal/correlate/correlator.go undo nothing.
use buckle.Base.{
  ℕ, ◌+◌, ◌*◌, Bool, true, false, ◌&&◌, List, [], ◌∷◌, ◌++◌, Option, none, some, refl, arith,
  if◌then◌else◌, leb, nat_eq, bytes_eq, pair_eq, length,
}
use buckle.Base.Map
use buckle.Exec.{Result, ok, err, pure, modify, ◌>>◌}
use buckle.Exec.Frame.{
  Relates, Relates-pure, Relates-bind, Relates-gets, Relates-if, Relates-for_each,
}
use buckle.Rows.{watch_stopped, by_watch_stopped}
use buckle.Correlate.Sink.{Sink}
use buckle.Correlate.State.{
  State, Deps, Pending, eslogger_behind, image, run_at, pendings, lag_cap_factor,
}
use buckle.Correlate.Keeps.{Keeps, Keeps-IsPreorder, Keeps-elsewhere, elsewhere-Keeps, call-Keeps}
use buckle.Correlate.Images.{member_of, resolve, caught_up}
use buckle.Correlate.Finalize.{finalize}
use buckle.Correlate.Ticks.{
  overwritten, set_pending, evict, attribute_or_keep, tick_one, tick_list, tick_pid, tick,
  shutdown_pid, stop_live, stop_run, shutdown, range,
}
use buckle.Correlate.Keeps.Joins.{drop_live-Keeps, end_mark-Keeps}
use buckle.Correlate.Keeps.Attributions.{attribute-Keeps}
use buckle.Correlate.Keeps.Finalizing.{finalize-Keeps}

module _ {D : Type 0} where
  set_pending-Keeps : (pid : ℕ) (ps : List Pending) (s : State D) → Keeps s (set_pending pid ps s)
  unfolding set_pending
  set_pending-Keeps pid [] s = Keeps-elsewhere s _ refl refl (ground arith)
  set_pending-Keeps pid (p ∷ ps) s = Keeps-elsewhere s _ refl refl (ground arith)

  evict-Keeps : (now : ℕ) → Relates Keeps (modify (evict {D = D} now))
  unfolding evict
  evict-Keeps now = elsewhere-Keeps _ (λ s. refl) (λ s. refl) (λ s. ground arith)

module _ {D : Type 0} (sink : Sink D) (deps : Deps) where
  attribute_or_keep-Keeps :
      (p : Pending) (o : Option ℕ) → Relates Keeps (attribute_or_keep sink deps p o)
  unfolding attribute_or_keep
  attribute_or_keep-Keeps p none = Relates-pure Keeps-IsPreorder true
  attribute_or_keep-Keeps p (some a) =
      Relates-bind Keeps-IsPreorder _ _ (attribute-Keeps sink deps p a)
        λ u. Relates-pure Keeps-IsPreorder false

  finalize_then-Keeps :
      (p : Pending) (b : Bool) → Relates Keeps (finalize sink deps p b >> pure false)
  finalize_then-Keeps p b =
      Relates-bind Keeps-IsPreorder _ _ (finalize-Keeps sink deps p b)
        λ u. Relates-pure Keeps-IsPreorder false

  tick_one-Keeps : (now : ℕ) (p : Pending) → Relates Keeps (tick_one sink deps now p)
  unfolding tick_one
  tick_one-Keeps now p =
      Relates-bind Keeps-IsPreorder _ _ (Relates-gets Keeps-IsPreorder (λ s. caught_up s p.d.time))
        λ caught.
          Relates-bind Keeps-IsPreorder _ _ (Relates-gets Keeps-IsPreorder (λ s. s.cfg.buffer))
            λ buffer.
              Relates-if Keeps-IsPreorder (caught && leb (p.arrived + buffer) now) _ _
                (finalize_then-Keeps p true)
                (Relates-if Keeps-IsPreorder (leb (p.arrived + lag_cap_factor * buffer) now) _ _
                  (Relates-bind Keeps-IsPreorder _ _
                    (elsewhere-Keeps
                      (λ s. record s { warnings = s.warnings ++ eslogger_behind ∷ [] }) (λ s. refl)
                      (λ s. refl) (λ s. ground arith))
                    λ u. finalize_then-Keeps p false)
                  (Relates-bind Keeps-IsPreorder _ _
                    (Relates-gets Keeps-IsPreorder (λ s. resolve s p.d.pid p.d.time))
                    λ found.
                      Relates-bind Keeps-IsPreorder _ _
                        (Relates-gets Keeps-IsPreorder (λ s. member_of s found))
                        λ member.
                          attribute_or_keep-Keeps p (if caught && member then found else none)))

  after_one-Keeps :
      (pid now : ℕ) (list kept : List Pending) (p : Pending) (ps : List Pending)
      → ((next : List Pending) → Relates Keeps (tick_list sink deps pid now list next ps))
      → (r : Result Bool) (t : State D)
      → Keeps t (
          (elim r as (λ x. Result (Unit {0}) × State D) [
            | ok keep ↦
                tick_list sink deps pid now list (if keep then kept ++ p ∷ [] else kept) ps t
            | err e ↦ (err e, set_pending pid (overwritten kept list) t)
          ]).1)
  after_one-Keeps pid now list kept p ps h (ok keep) t = (h _).at t
  after_one-Keeps pid now list kept p ps h (err e) t =
      set_pending-Keeps pid (overwritten kept list) t

  tick_list-Keeps :
      (pid now : ℕ) (list kept ps : List Pending)
      → Relates Keeps (tick_list sink deps pid now list kept ps)
  unfolding tick_list
  tick_list-Keeps pid now list kept [] = record { at = λ s. set_pending-Keeps pid kept s }
  tick_list-Keeps pid now list kept (p ∷ ps) = record {
    at = λ s.
        let (r, t) = tick_one sink deps now p s in
        Keeps-IsPreorder.rel_trans s t _ ((tick_one-Keeps now p).at s) (
          after_one-Keeps pid now list kept p ps (λ next. tick_list-Keeps pid now list next ps) r
            t);
  }

  -- Whether it fails or not, a tick undoes nothing of what the correlator knows of images, runs and
  -- time, in whatever order it visits the pids.
  pub tick-Keeps : (order : List ℕ) (now : ℕ) (s : State D) → Keeps s (tick sink deps order now s).1
  unfolding tick tick_pid
  tick-Keeps order now s =
      (Relates-bind Keeps-IsPreorder _ _
          (Relates-for_each Keeps-IsPreorder order (tick_pid sink deps now) λ pid.
            Relates-bind Keeps-IsPreorder _ _ (Relates-gets Keeps-IsPreorder (λ s. pendings s pid))
              λ list. tick_list-Keeps pid now list [] list)
          λ u. evict-Keeps now).at
        s

  shutdown_pid-Keeps : (pid : ℕ) → Relates Keeps (shutdown_pid sink deps pid)
  unfolding shutdown_pid
  shutdown_pid-Keeps pid =
      Relates-bind Keeps-IsPreorder _ _ (Relates-gets Keeps-IsPreorder (λ s. pendings s pid))
        λ list.
          Relates-bind Keeps-IsPreorder _ _
            (Relates-for_each Keeps-IsPreorder list (λ p. finalize sink deps p true)
              (λ p. finalize-Keeps sink deps p true))
            λ u.
              elsewhere-Keeps (λ s. record s { pending_by_pid = Map.delete pid s.pending_by_pid })
                (λ s. refl) (λ s. refl) (λ s. ground arith)

  stop_live-Keeps : (r a : ℕ) → Relates Keeps (stop_live sink deps r a)
  unfolding stop_live
  stop_live-Keeps r a =
      Relates-bind Keeps-IsPreorder _ _ (Relates-gets Keeps-IsPreorder (λ s. image s a)) λ img.
        Relates-bind Keeps-IsPreorder _ _
          (call-Keeps (sink.end_process img.row_id none by_watch_stopped none))
          λ u. drop_live-Keeps a r

  stop_run-Keeps : (r : ℕ) → Relates Keeps (stop_run sink deps r)
  unfolding stop_run
  stop_run-Keeps r =
      Relates-bind Keeps-IsPreorder _ _ (Relates-gets Keeps-IsPreorder (λ s. run_at s r)) λ run.
        Relates-bind Keeps-IsPreorder _ _
          (Relates-for_each Keeps-IsPreorder run.live (stop_live sink deps r) (stop_live-Keeps r))
          λ u. Relates-if Keeps-IsPreorder run.ended _ _ (Relates-pure Keeps-IsPreorder tt) (
            Relates-bind Keeps-IsPreorder _ _ (end_mark-Keeps r)
              λ u'. call-Keeps (sink.end_run run.id none watch_stopped))

  -- Whether it fails or not, a shutdown undoes nothing of what the correlator knows of images, runs
  -- and time.
  pub shutdown-Keeps : (order : List ℕ) (s : State D) → Keeps s (shutdown sink deps order s).1
  unfolding shutdown
  shutdown-Keeps order s =
      (Relates-bind Keeps-IsPreorder _ _
          (Relates-for_each Keeps-IsPreorder order (shutdown_pid sink deps) shutdown_pid-Keeps)
          λ u.
            Relates-bind Keeps-IsPreorder _ _ (Relates-gets Keeps-IsPreorder (λ s. length s.runs))
              λ count.
                Relates-for_each Keeps-IsPreorder (range 0 count) (stop_run sink deps)
                  stop_run-Keeps).at
        s
