-- ===== src/Correlate/Ledger/Calm.antt =====
-- What internal/correlate/correlator.go does to images and runs counts no denial and moves none.
use buckle.Base.{
  ℕ, Bool, true, false, not, ◌||◌, List, [], ◌∷◌, ◌++◌, Option, none, some, refl, arith, or_else,
  if◌then◌else◌, is_some, is_empty, nat_eq, bytes_eq, pair_eq,
}
use buckle.Base.Map
use buckle.Exec.{modify}
use buckle.Exec.Frame.{IsPreorder, Relates, Relates-pure, Relates-bind, Relates-gets, Relates-if}
use buckle.EsLog.{Proc}
use buckle.Rows.{EndReason, by_exit, exited}
use buckle.Correlate.Sink.{Sink}
use buckle.Correlate.State.{
  State, DenialKey, Image, RunState, image, run_at, put_image, put_run, call,
}
use buckle.Correlate.Images.{
  index_image, register, delete_all, forget_orphans, mark_seen, add_live, drop_live, is_adopted,
  note_end, process_row, join_end, join, maybe_end_run, leave_run, end_image,
}
use buckle.Correlate.Events.{add_run}
use buckle.Correlate.Frames.{Steps, Relates-option}
use buckle.Correlate.Ledger.{
  Tally, Ledger, Step, Step-refl, Step-trans, Step-IsPreorder, Step-elsewhere, elsewhere-Step,
  call-Step,
}

module _ {D : Type 0} (tally : Tally D) where
  put_image-Step : (a : ℕ) (f : Image → Image) → Relates (Step tally 0 0) (modify (put_image a f))
  unfolding put_image
  put_image-Step a f =
      elsewhere-Step tally (put_image a f) (λ s. refl) (λ s. refl) (λ s. refl) (λ s. refl)
        (λ s. refl) (λ s. refl)

  pub put_run-Step :
      (r : ℕ) (f : RunState → RunState) → Relates (Step tally 0 0) (modify (put_run r f))
  unfolding put_run
  put_run-Step r f =
      elsewhere-Step tally (put_run r f) (λ s. refl) (λ s. refl) (λ s. refl) (λ s. refl) (λ s. refl)
        (λ s. refl)

  register-Step : (img : Image) → Relates (Step tally 0 0) (register img)
  unfolding register index_image
  register-Step img =
      Relates-bind (Step-IsPreorder tally) _ _ (Relates-gets (Step-IsPreorder tally) _) λ a.
        Relates-bind (Step-IsPreorder tally) _ _
          (elsewhere-Step tally (λ s. index_image a (record s { images = s.images ++ img ∷ [] }))
            (λ s. refl) (λ s. refl) (λ s. refl) (λ s. refl) (λ s. refl) (λ s. refl))
          λ u. Relates-pure (Step-IsPreorder tally) a

  add_run-Step : (r : RunState) → Relates (Step tally 0 0) (add_run r)
  unfolding add_run
  add_run-Step r =
      Relates-bind (Step-IsPreorder tally) _ _ (Relates-gets (Step-IsPreorder tally) _) λ a.
        Relates-bind (Step-IsPreorder tally) _ _
          (elsewhere-Step tally (λ s. record s { runs = s.runs ++ r ∷ [] }) (λ s. refl) (λ s. refl)
            (λ s. refl) (λ s. refl) (λ s. refl) (λ s. refl))
          λ u. Relates-pure (Step-IsPreorder tally) a

  -- An orphan that is forgotten is not counted again.
  forget-Step :
      (key : DenialKey) (s : State D)
      → Step tally 0 0 s (record s { last_orphan = Map.delete key s.last_orphan })
  forget-Step key s = record {
    waiting_same = refl;
    last_shrinks = λ k ref h. h;
    adds = refl;
    stays_known = λ h. record {
      stored_there = h.stored_there;
      orphans_there =
          λ k id e. h.orphans_there k id (ground (arith, Map.lookup-delete key k s.last_orphan, e));
    };
    stays_seen = λ pid h. h;
  }

  delete_all-Step : (ks : List DenialKey) (s : State D) → Step tally 0 0 s (delete_all ks s)
  unfolding delete_all
  delete_all-Step [] s = Step-refl tally s
  delete_all-Step (k ∷ ks) s =
      Step-trans tally 0 0 0 0 s _ _ (forget-Step k s) (delete_all-Step ks _)

  forget_orphans-Step : (pid : ℕ) (s : State D) → Step tally 0 0 s (forget_orphans pid s)
  unfolding forget_orphans
  forget_orphans-Step pid s =
      Step-trans tally 0 0 0 0 s _ _ (delete_all-Step (or_else (Map.lookup pid s.orphan_keys) []) s)
        (Step-elsewhere tally _ _ refl refl refl refl refl refl)

  if-Step :
      (b : Bool) (f : State D → State D) (s : State D)
      → Step tally 0 0 s (f s)
      → Step tally 0 0 s (if b then f s else s)
  if-Step true f s h = h
  if-Step false f s h = Step-refl tally s

  -- A process that is noted, and no other is forgotten.
  note_seen-Step :
      (p : Proc) (s : State D)
      → Step tally 0 0 s (record s {
        seen = Map.insert p.token.0 (record { path = p.path; pidversion = p.token.1 }) s.seen;
      })
  note_seen-Step p s = record {
    waiting_same = refl;
    last_shrinks = λ k ref h. h;
    adds = refl;
    stays_known = λ h. record { stored_there = h.stored_there; orphans_there = h.orphans_there };
    stays_seen = λ pid h.
        rw
          (Map.lookup-insert p.token.0 pid (record { path = p.path; pidversion = p.token.1 })
            s.seen)
          (ground (arith, h));
  }

  mark_seen-Step : (p : Proc) → Relates (Step tally 0 0) (mark_seen p)
  unfolding mark_seen modify
  mark_seen-Step p = record {
    at = λ s.
        Step-trans tally 0 0 0 0 s _ _
          (if-Step _ (forget_orphans p.token.0) s (forget_orphans-Step p.token.0 s))
          (note_seen-Step p _);
  }

module _ {D : Type 0} (sink : Sink D) (l : Ledger sink) where
  abbrev order : IsPreorder (Step {D = D} l.tally 0 0)
  order = Step-IsPreorder l.tally

  pub end_process-Step :
      (id : ℕ) (t : Option ℕ) (reason : EndReason) (status : Option ℕ)
      → Relates (Step l.tally 0 0) (call (sink.end_process id t reason status))
  end_process-Step id t reason status =
      call-Step l.tally (sink.end_process id t reason status)
        (l.end_process_adds id t reason status)

  join_end-Step : (a r id : ℕ) (img : Image) → Relates (Step l.tally 0 0) (join_end sink a r id img)
  unfolding join_end
  join_end-Step a r id img =
      Relates-option _ _ (put_run-Step l.tally r (add_live a))
        (λ t.
          Relates-bind order _ _
            (end_process-Step id (some t) (or_else img.end_reason by_exit) img.exit_status)
            λ u. put_run-Step l.tally r (note_end t))
        img.ended_at

  join-Step : (a r : ℕ) → Relates (Step l.tally 0 0) (join sink a r)
  unfolding join
  join-Step a r = Relates-bind order _ _ (Relates-gets order (λ s. image s a)) λ img.
      Relates-if order (is_some img.run) _ _ (Relates-pure order tt) (
        Relates-bind order _ _ (put_image-Step l.tally a (λ i. record i { run = some r })) λ u.
          Relates-bind order _ _ (Relates-gets order (λ s. process_row s a r)) λ row.
            Relates-bind order _ _
              (call-Step l.tally (sink.insert_process row) (l.process_adds row))
              λ id.
                Relates-bind order _ _ (put_image-Step l.tally a (λ i. record i { row_id = id }))
                  λ u'. join_end-Step a r id img)

  maybe_end_run-Step : (r : ℕ) → Relates (Step l.tally 0 0) (maybe_end_run sink r)
  unfolding maybe_end_run
  maybe_end_run-Step r = Relates-bind order _ _ (Relates-gets order (λ s. run_at s r)) λ run.
      Relates-if order (run.ended || is_adopted run.kind || not (is_empty run.live)) _ _
        (Relates-pure order tt)
        (Relates-bind order _ _ (put_run-Step l.tally r (λ x. record x { ended = true })) λ u.
          call-Step l.tally (sink.end_run run.id (some run.last_end) exited)
            (l.end_run_adds run.id (some run.last_end) exited))

  leave_run-Step :
      (a t : ℕ) (reason : EndReason) (status : Option ℕ) (img : Image) (o : Option ℕ)
      → Relates (Step l.tally 0 0) (leave_run sink a t reason status img o)
  unfolding leave_run
  leave_run-Step a t reason status img none = Relates-pure order tt
  leave_run-Step a t reason status img (some r) =
      Relates-bind order _ _ (end_process-Step img.row_id (some t) reason status) λ u.
        Relates-bind order _ _ (put_run-Step l.tally r (drop_live a)) λ u'.
          Relates-bind order _ _ (put_run-Step l.tally r (note_end t)) λ u''. maybe_end_run-Step r

  end_image-Step :
      (a t : ℕ) (reason : EndReason) (status : Option ℕ)
      → Relates (Step l.tally 0 0) (end_image sink a t reason status)
  unfolding end_image
  end_image-Step a t reason status =
      Relates-bind order _ _ (Relates-gets order (λ s. image s a)) λ img.
        Relates-if order (is_some img.ended_at) _ _ (Relates-pure order tt) (
          Relates-bind order _ _
            (put_image-Step l.tally a
              (λ i. record i { ended_at = some t; end_reason = some reason; exit_status = status }))
            λ u. leave_run-Step a t reason status img img.run)

  pub Step-Steps : Steps sink (Step l.tally 0 0)
  Step-Steps = record {
    order = order;
    register_step = register-Step l.tally;
    seen_step = mark_seen-Step l.tally;
    join_step = join-Step;
    end_step = end_image-Step;
    end_run_step = maybe_end_run-Step;
    add_run_step = add_run-Step l.tally;
    session_step = λ kind key t.
        call-Step l.tally (sink.ensure_session kind key t) (l.session_adds kind key t);
    insert_step = λ row. call-Step l.tally (sink.insert_run row) (l.run_adds row);
    watermark_step = λ t.
        elsewhere-Step l.tally _ (λ s. refl) (λ s. refl) (λ s. refl) (λ s. refl) (λ s. refl)
          (λ s. refl);
    adopted_step = λ key r.
        elsewhere-Step l.tally _ (λ s. refl) (λ s. refl) (λ s. refl) (λ s. refl) (λ s. refl)
          (λ s. refl);
    cache_step = λ key b.
        elsewhere-Step l.tally _ (λ s. refl) (λ s. refl) (λ s. refl) (λ s. refl) (λ s. refl)
          (λ s. refl);
    failed_step = λ key path e.
        elsewhere-Step l.tally _ (λ s. refl) (λ s. refl) (λ s. refl) (λ s. refl) (λ s. refl)
          (λ s. refl);
  }
