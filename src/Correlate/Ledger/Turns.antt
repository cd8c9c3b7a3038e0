-- ===== src/Correlate/Ledger/Turns.antt =====
-- `Tick` and `Shutdown` of internal/correlate/correlator.go are rounds.
use buckle.Base.{
  ℕ, ◌*◌, ltb, Bool, true, false, List, [], ◌∷◌, none, some, ◌≡◌, refl, sym, ap, ◌∙◌, subst,
  if◌then◌else◌, nat_eq, bytes_eq, pair_eq, length,
}
use buckle.Base.Map
use buckle.Base.Map.{Map}
use buckle.Exec.{Exec, modify, ◌>>=◌, for_each}
use buckle.Exec.Frame.{
  IsPreorder, Relates, Relates-pure, Relates-bind, Relates-gets, Relates-if, Relates-for_each,
}
use buckle.Exec.Outcome.{Ends, Ends-Relates, Ends-bind, Ends-for_each}
use buckle.Correlate.Sink.{Sink}
use buckle.Correlate.State.{
  State, Deps, DenialKey, StoredDenial, pendings, image, run_at, min_retention,
}
use buckle.Rows.{by_watch_stopped, watch_stopped}
use buckle.Correlate.Images.{drop_live}
use buckle.Correlate.Finalize.{finalize}
use buckle.Correlate.Ledger.Calm.{put_run-Step, end_process-Step}
use buckle.Correlate.Ticks.{
  set_pending, evict, tick_pid, tick, shutdown_pid, shutdown, stop_live, stop_run, range,
  forget_stored, forget_old, stored_at, is_old, all_images,
}
use buckle.Correlate.Ledger.{Ledger, Step, Step-IsPreorder, call-Step}
use buckle.Correlate.Ledger.Waiting.{pids, list_at}
use buckle.Correlate.Ledger.Rounds.{Listed, tick_list-Ends, finalize_all-Ends}
use buckle.Correlate.Ledger.Balance.{
  Rounds, Rounds-IsPreorder, set_pending-is, replaced-Round, calm-Rounds,
}

module _ {D : Type 0} (sink : Sink D) (deps : Deps) (l : Ledger sink) where
  Listed-Rounds :
      (pid : ℕ) (s t : State D)
      → Listed sink deps l pid [] (list_at pid s.pending_by_pid) s t
      → Rounds l.tally s t
  Listed-Rounds pid s t c =
      subst (Rounds l.tally s) (sym (c.set_is ∙ set_pending-is l.tally pid c.extra c.before)) (
        replaced-Round l.tally pid c.gained c.lost c.extra s c.before c.step c.split c.stays
          λ seen. c.none_lost (seen.seen_at pid))

  tick_pid-Ends : (now pid : ℕ) → Ends (λ s u t. Rounds l.tally s t) (tick_pid sink deps now pid)
  unfolding tick_pid pendings ◌>>=◌
  tick_pid-Ends now pid = record {
    at = λ s t u e. Listed-Rounds pid s t (
        (tick_list-Ends sink deps l pid now (list_at pid s.pending_by_pid) []
            (list_at pid s.pending_by_pid)).at
          s t u e);
  }

  abbrev order : IsPreorder (Step {D = D} l.tally 0 0)
  order = Step-IsPreorder l.tally

  delete-Ends :
      (pid : ℕ)
      → Ends
          (λ s u t. t ≡ set_pending pid [] s)
          (modify (λ (s : State D). record s { pending_by_pid = Map.delete pid s.pending_by_pid }))
  unfolding set_pending modify
  delete-Ends pid = record { at = λ s t u e. sym (ap (λ x. x.1) e) }

  shutdown_pid-Ends : (pid : ℕ) → Ends (λ s u t. Rounds l.tally s t) (shutdown_pid sink deps pid)
  unfolding shutdown_pid pendings ◌>>=◌
  shutdown_pid-Ends pid = record {
    at = λ s t u e.
        let list = list_at pid s.pending_by_pid in
        Listed-Rounds pid s t (
          (Ends-bind (λ s u t. Listed sink deps l pid [] list s (set_pending pid [] t))
              (λ u s v t. t ≡ set_pending pid [] s) (λ s u t. Listed sink deps l pid [] list s t)
              (for_each list (λ p. finalize sink deps p true))
              (λ u. modify (λ s. record s { pending_by_pid = Map.delete pid s.pending_by_pid }))
              (finalize_all-Ends sink deps l pid list) (λ u. delete-Ends pid)
              (λ s t v a b f g. subst (Listed sink deps l pid [] list s) (sym g) f)).at
            s t u e);
  }

  stop_live-Step : (r a : ℕ) → Relates (Step l.tally 0 0) (stop_live sink deps r a)
  unfolding stop_live
  stop_live-Step r a = Relates-bind order _ _ (Relates-gets order (λ s. image s a)) λ img.
      Relates-bind order _ _ (end_process-Step sink l img.row_id none by_watch_stopped none)
        λ u. put_run-Step l.tally r (drop_live a)

  stop_run-Step : (r : ℕ) → Relates (Step l.tally 0 0) (stop_run sink deps r)
  unfolding stop_run
  stop_run-Step r = Relates-bind order _ _ (Relates-gets order (λ s. run_at s r)) λ run.
      Relates-bind order _ _
        (Relates-for_each order run.live (stop_live sink deps r) (stop_live-Step r))
        λ u. Relates-if order run.ended _ _ (Relates-pure order tt) (
          Relates-bind order _ _ (put_run-Step l.tally r (λ x. record x { ended = true })) λ u'.
            call-Step l.tally (sink.end_run run.id none watch_stopped)
              (l.end_run_adds run.id none watch_stopped))

  calm-Ends {ℓ} :
      {A : Type ℓ} {m : Exec (State D) A}
      → Relates (Step l.tally 0 0) m
      → Ends (λ s a t. Rounds l.tally s t) m
  calm-Ends h = record { at = λ s t a e. calm-Rounds l.tally s t ((Ends-Relates h).at s t a e) }

  -- A shutdown.
  pub shutdown-Ends :
      (order : List ℕ) → Ends (λ s u t. Rounds l.tally s t) (shutdown sink deps order)
  unfolding shutdown
  shutdown-Ends pids =
      Ends-bind (λ s u t. Rounds l.tally s t) (λ u s v t. Rounds l.tally s t)
        (λ s u t. Rounds l.tally s t) _ _
        (Ends-for_each (Rounds l.tally) (Rounds-IsPreorder l.tally) pids (shutdown_pid sink deps)
          shutdown_pid-Ends)
        (λ u. calm-Ends (
          Relates-bind order _ _ (Relates-gets order (λ s. length s.runs))
            λ count. Relates-for_each order (range 0 count) (stop_run sink deps) stop_run-Step))
        λ s t v a b f g. (Rounds-IsPreorder l.tally).rel_trans s t v f g

  -- The rows that an eviction keeps were there.
  if_some :
      (b : Bool) (less m : Map DenialKey StoredDenial) (key : DenialKey) (sd : StoredDenial)
      → (Map.lookup key less ≡ some sd → Map.lookup key m ≡ some sd)
      → Map.lookup key (if b then less else m) ≡ some sd
      → Map.lookup key m ≡ some sd
  if_some true less m key sd f h = f h
  if_some false less m key sd f h = h

  forget_stored-some :
      (a : ℕ) (ks : List DenialKey) (m : Map DenialKey StoredDenial) (key : DenialKey)
      (sd : StoredDenial)
      → Map.lookup key (forget_stored a ks m) ≡ some sd
      → Map.lookup key m ≡ some sd
  unfolding forget_stored
  forget_stored-some a [] m key sd h = h
  forget_stored-some a (k ∷ ks) m key sd h =
      if_some (stored_at (Map.lookup k m) a) (Map.delete k m) m key sd
        (λ e. Map.lookup-delete-some k key sd m e) (forget_stored-some a ks _ key sd h)

  forget_old-some :
      (s : State D) (retention now : ℕ) (imgs : List ℕ) (m : Map DenialKey StoredDenial)
      (key : DenialKey) (sd : StoredDenial)
      → Map.lookup key (forget_old s retention now imgs m) ≡ some sd
      → Map.lookup key m ≡ some sd
  unfolding forget_old
  forget_old-some s retention now [] m key sd h = h
  forget_old-some s retention now (a ∷ l) m key sd h =
      if_some (is_old (image s a) retention now) (forget_stored a (image s a).denial_keys m) m key
        sd (λ e. forget_stored-some a (image s a).denial_keys m key sd e)
        (forget_old-some s retention now l _ key sd h)

  evict-Step : (now : ℕ) → Relates (Step {D = D} l.tally 0 0) (modify (evict now))
  unfolding evict modify
  evict-Step now = record {
    at = λ s. record {
      waiting_same = refl;
      last_shrinks = λ key ref h. h;
      adds = refl;
      stays_known = λ k. record {
        stored_there = λ key sd h. k.stored_there key sd (
            forget_old-some s
              (if ltb min_retention (3 * s.cfg.buffer) then 3 * s.cfg.buffer else min_retention) now
              (all_images s.by_pid) s.last_stored key sd h);
        orphans_there = k.orphans_there;
      };
      stays_seen = λ pid h. h;
    };
  }

  -- A tick.
  pub tick-Ends :
      (order : List ℕ) (now : ℕ) → Ends (λ s u t. Rounds l.tally s t) (tick sink deps order now)
  unfolding tick
  tick-Ends pids now =
      Ends-bind (λ s u t. Rounds l.tally s t) (λ u s v t. Rounds l.tally s t)
        (λ s u t. Rounds l.tally s t) _ _
        (Ends-for_each (Rounds l.tally) (Rounds-IsPreorder l.tally) pids (tick_pid sink deps now)
          (tick_pid-Ends now))
        (λ u. calm-Ends (evict-Step now))
        λ s t v a b f g. (Rounds-IsPreorder l.tally).rel_trans s t v f g
