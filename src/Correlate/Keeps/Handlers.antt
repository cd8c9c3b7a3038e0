-- ===== src/Correlate/Keeps/Handlers.antt =====
-- `HandleES` of internal/correlate/correlator.go undoes nothing.
use buckle.Base.{[], ◌∷◌, ◌++◌, refl, arith, nat_eq, bytes_eq, pair_eq}
use buckle.Base.Kept.{Kept-refl, Kept-append}
use buckle.Exec.Frame.{Relates, Relates-pure, Relates-bind, Relates-gets}
use buckle.EsLog.{Event}
use buckle.Correlate.Sink.{Sink}
use buckle.Correlate.State.{State, Deps, RunState}
use buckle.Correlate.Keeps.{
  SameImage, SameRun, SameImage-refl, SameRun-refl, Keeps, Keeps-IsPreorder, modify-Keeps,
  elsewhere-Keeps, call-Keeps,
}
use buckle.Correlate.Frames.{Steps, handle_es-Relates}
use buckle.Correlate.Keeps.Joins.{
  maybe_end_run-Keeps, register-Keeps, mark_seen-Keeps, join-Keeps, end_image-Keeps,
}
use buckle.Correlate.Events.{add_run, handle_es}

module _ {D : Type 0} where
  append_run-Keeps : (r : RunState) (s : State D) → Keeps s (record s { runs = s.runs ++ r ∷ [] })
  append_run-Keeps r s = record {
    images_stay = Kept-refl SameImage SameImage-refl s.images;
    runs_stay = Kept-append SameRun SameRun-refl s.runs (r ∷ []);
    watermark_grows = ground arith;
  }

  pub add_run-Keeps : (r : RunState) → Relates Keeps (add_run {D = D} r)
  unfolding add_run
  add_run-Keeps r = Relates-bind Keeps-IsPreorder _ _ (Relates-gets Keeps-IsPreorder _) λ a.
      Relates-bind Keeps-IsPreorder _ _ (modify-Keeps _ (append_run-Keeps r))
        λ u. Relates-pure Keeps-IsPreorder a

module _ {D : Type 0} (sink : Sink D) where
  pub Keeps-Steps : Steps sink Keeps
  Keeps-Steps = record {
    order = Keeps-IsPreorder;
    register_step = register-Keeps;
    seen_step = mark_seen-Keeps;
    join_step = join-Keeps sink;
    end_step = end_image-Keeps sink;
    end_run_step = maybe_end_run-Keeps sink;
    add_run_step = add_run-Keeps;
    session_step = λ kind key t. call-Keeps (sink.ensure_session kind key t);
    insert_step = λ row. call-Keeps (sink.insert_run row);
    watermark_step = λ t. elsewhere-Keeps _ (λ s. refl) (λ s. refl) (λ s. ground arith);
    adopted_step = λ key r. elsewhere-Keeps _ (λ s. refl) (λ s. refl) (λ s. ground arith);
    cache_step = λ key b. elsewhere-Keeps _ (λ s. refl) (λ s. refl) (λ s. ground arith);
    failed_step = λ key path e. elsewhere-Keeps _ (λ s. refl) (λ s. refl) (λ s. ground arith);
  }

module _ {D : Type 0} (sink : Sink D) (deps : Deps) where
  -- Whether it fails or not, an event leaves every image that is known with its process, its start,
  -- its parent and its predecessor, with its run if it has one, and with its end if it has one;
  -- it leaves every run with its row and its kind, with its session if it has one, ended if it has
  -- ended, and with no earlier last end; and the watermark does not fall.
  pub handle_es-Keeps : (ev : Event) (s : State D) → Keeps s (handle_es sink deps ev s).1
  handle_es-Keeps ev s = (handle_es-Relates sink deps (Keeps-Steps sink) ev).at s
