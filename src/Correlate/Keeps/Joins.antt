-- ===== src/Correlate/Keeps/Joins.antt =====
-- `register`, `join`, `maybeEndRun` and `endImage` of internal/correlate/correlator.go undo nothing.
use buckle.Base.{
  nat_eq, ℕ, Bool, true, false, List, [], ◌∷◌, ◌++◌, Option, none, some, ◌≡◌, refl, arith,
  Option-cases, inl, inr, or_else, if◌then◌else◌,
}
use buckle.Base.Map
use buckle.Base.Kept.{Kept-refl, Kept-append}
use buckle.Exec.{pure, gets, modify, ◌>>=◌, ◌>>◌}
use buckle.Exec.Frame.{Relates, Relates-pure, Relates-bind, Relates-gets}
use buckle.Rows.{EndReason, by_exit, exited}
use buckle.EsLog.{Proc}
use buckle.Correlate.Sink.{Sink}
use buckle.Correlate.State.{
  State, DenialKey, Image, RunState, image, run_at, put_image, put_run, call, zero_image,
}
use buckle.Correlate.Images.{
  index_image, register, image_for, delete_all, forget_orphans, mark_seen, add_live, drop_live,
  note_end, process_row, join_end, join, maybe_end_run, leave_run, end_image,
}
use buckle.Correlate.Keeps.{
  SameImage, SameRun, SameImage-refl, SameRun-refl, Keeps, Keeps-IsPreorder, Keeps-elsewhere,
  put_image-Keeps, put_run-Keeps, modify-Keeps, call-Keeps, Option-Keeps,
}

module _ {D : Type 0} where
  append_image-Keeps :
      (a : ℕ) (img : Image) (s : State D)
      → Keeps s (index_image a (record s { images = s.images ++ img ∷ [] }))
  unfolding index_image
  append_image-Keeps a img s = record {
    images_stay = Kept-append SameImage SameImage-refl s.images (img ∷ []);
    runs_stay = Kept-refl SameRun SameRun-refl s.runs;
    watermark_grows = ground arith;
  }

  pub register-Keeps : (img : Image) → Relates Keeps (register {D = D} img)
  unfolding register
  register-Keeps img = Relates-bind Keeps-IsPreorder _ _ (Relates-gets Keeps-IsPreorder _) λ a.
      Relates-bind Keeps-IsPreorder _ _ (modify-Keeps _ (append_image-Keeps a img))
        λ u. Relates-pure Keeps-IsPreorder a

  pub image_for-Keeps : (p : Proc) → Relates Keeps (image_for {D = D} p)
  unfolding image_for
  image_for-Keeps p = Relates-bind Keeps-IsPreorder _ _ (Relates-gets Keeps-IsPreorder _) λ known.
      Option-Keeps _ _ (register-Keeps (record zero_image { proc = p; start = p.start_time }))
        (λ a. Relates-pure Keeps-IsPreorder a) known

  pub add_live-Keeps : (a r : ℕ) → Relates Keeps (modify (put_run {D = D} r (add_live a)))
  unfolding add_live
  add_live-Keeps a r = modify-Keeps _ λ s. put_run-Keeps r _ s (record {
    id_same = refl;
    kind_same = refl;
    session_stays = λ h. h;
    stays_ended = λ h. h;
    last_end_grows = ground arith;
  })

  pub drop_live-Keeps : (a r : ℕ) → Relates Keeps (modify (put_run {D = D} r (drop_live a)))
  unfolding drop_live
  drop_live-Keeps a r = modify-Keeps _ λ s. put_run-Keeps r _ s (record {
    id_same = refl;
    kind_same = refl;
    session_stays = λ h. h;
    stays_ended = λ h. h;
    last_end_grows = ground arith;
  })

  pub note_end-Keeps : (t r : ℕ) → Relates Keeps (modify (put_run {D = D} r (note_end t)))
  unfolding note_end
  note_end-Keeps t r = modify-Keeps _ λ s. put_run-Keeps r _ s (record {
    id_same = refl;
    kind_same = refl;
    session_stays = λ h. h;
    stays_ended = λ h. h;
    last_end_grows = ground arith;
  })

  pub end_mark-Keeps :
      (r : ℕ) → Relates Keeps (modify (put_run {D = D} r (λ x. record x { ended = true })))
  end_mark-Keeps r = modify-Keeps _ λ s. put_run-Keeps r _ s (record {
    id_same = refl;
    kind_same = refl;
    session_stays = λ h. h;
    stays_ended = λ h. refl;
    last_end_grows = ground arith;
  })

  row_id-Keeps :
      (a id : ℕ) → Relates Keeps (modify (put_image {D = D} a (λ i. record i { row_id = id })))
  row_id-Keeps a id = modify-Keeps _ λ s. put_image-Keeps a _ s (record {
    proc_same = refl;
    start_same = refl;
    links_same = (refl, refl);
    run_stays = λ r h. h;
    end_stays = λ t h. (h, refl, refl);
  })

  delete_all-Keeps : (ks : List DenialKey) (s : State D) → Keeps s (delete_all ks s)
  unfolding delete_all
  delete_all-Keeps [] s = Keeps-IsPreorder.rel_refl s
  delete_all-Keeps (k ∷ ks) s =
      Keeps-IsPreorder.rel_trans s _ _ (Keeps-elsewhere s _ refl refl (ground arith))
        (delete_all-Keeps ks _)

  forget_orphans-Keeps : (pid : ℕ) (s : State D) → Keeps s (forget_orphans pid s)
  unfolding forget_orphans
  forget_orphans-Keeps pid s =
      Keeps-IsPreorder.rel_trans s _ _
        (delete_all-Keeps (or_else (Map.lookup pid s.orphan_keys) []) s)
        (Keeps-elsewhere _ _ refl refl (ground arith))

  pub if-Keeps :
      (b : Bool) (f : State D → State D) (s : State D)
      → Keeps s (f s)
      → Keeps s (if b then f s else s)
  if-Keeps true f s h = h
  if-Keeps false f s h = Keeps-IsPreorder.rel_refl s

  pub mark_seen-Keeps : (p : Proc) → Relates Keeps (mark_seen {D = D} p)
  unfolding mark_seen
  mark_seen-Keeps p = modify-Keeps _ λ s.
      Keeps-IsPreorder.rel_trans s _ _
        (if-Keeps _ (forget_orphans p.token.0) s (forget_orphans-Keeps p.token.0 s))
        (Keeps-elsewhere _ _ refl refl (ground arith))

module _ {D : Type 0} (sink : Sink D) where
  join_end-Keeps : (a r id : ℕ) (img : Image) → Relates Keeps (join_end sink a r id img)
  unfolding join_end
  join_end-Keeps a r id img =
      Option-Keeps _ _ (add_live-Keeps a r)
        (λ t.
          Relates-bind Keeps-IsPreorder _ _
            (call-Keeps
              (sink.end_process id (some t) (or_else img.end_reason by_exit) img.exit_status))
            λ u. note_end-Keeps t r)
        img.ended_at

  -- A second run is never given to an image.
  join_mark-Keeps :
      (a r : ℕ) (s : State D)
      → (image s a).run ≡ none
      → Keeps s (put_image a (λ i. record i { run = some r }) s)
  join_mark-Keeps a r s e = put_image-Keeps a _ s (record {
    proc_same = refl;
    start_same = refl;
    links_same = (refl, refl);
    run_stays = λ q h. ground (arith, e, h);
    end_stays = λ t h. (h, refl, refl);
  })

  join_rest-Keeps :
      (a r : ℕ) (img : Image)
      → Relates Keeps (do
        row ← gets (λ (s : State D). process_row s a r)
        id ← call (sink.insert_process row)
        modify (put_image a (λ i. record i { row_id = id }))
        join_end sink a r id img)
  join_rest-Keeps a r img =
      Relates-bind Keeps-IsPreorder _ _ (Relates-gets Keeps-IsPreorder (λ s. process_row s a r))
        λ row.
          Relates-bind Keeps-IsPreorder _ _ (call-Keeps (sink.insert_process row)) λ id.
            Relates-bind Keeps-IsPreorder _ _ (row_id-Keeps a id) λ u. join_end-Keeps a r id img

  pub join-Keeps : (a r : ℕ) → Relates Keeps (join sink a r)
  unfolding join
  join-Keeps a r = record {
    at = λ s. elim (Option-cases (image s a).run) [
      | inl e ↦ rw e (
          Keeps-IsPreorder.rel_trans s _ _ (join_mark-Keeps a r s e)
            ((join_rest-Keeps a r (image s a)).at _))
      | inr (q, e) ↦ rw e (Keeps-IsPreorder.rel_refl s)
    ];
  }

  end_run-Keeps :
      (r : ℕ) (run : RunState) (b : Bool)
      → Relates Keeps (
          if b then pure {S = State D} tt else do
            modify (put_run r (λ x. record x { ended = true }))
            call (sink.end_run run.id (some run.last_end) exited))
  end_run-Keeps r run true = Relates-pure Keeps-IsPreorder tt
  end_run-Keeps r run false =
      Relates-bind Keeps-IsPreorder _ _ (end_mark-Keeps r)
        λ u. call-Keeps (sink.end_run run.id (some run.last_end) exited)

  pub maybe_end_run-Keeps : (r : ℕ) → Relates Keeps (maybe_end_run sink r)
  unfolding maybe_end_run
  maybe_end_run-Keeps r = record { at = λ s. (end_run-Keeps r (run_at s r) _).at s }

  -- An end is never written over.
  end_mark_image-Keeps :
      (a t : ℕ) (reason : EndReason) (status : Option ℕ) (s : State D)
      → (image s a).ended_at ≡ none
      → Keeps s (
          put_image a
            (λ i. record i { ended_at = some t; end_reason = some reason; exit_status = status })
            s)
  end_mark_image-Keeps a t reason status s e = put_image-Keeps a _ s (record {
    proc_same = refl;
    start_same = refl;
    links_same = (refl, refl);
    run_stays = λ q h. h;
    end_stays = λ q h. ground (arith, e, h);
  })

  leave_run-Keeps :
      (a t : ℕ) (reason : EndReason) (status : Option ℕ) (img : Image) (o : Option ℕ)
      → Relates Keeps (leave_run sink a t reason status img o)
  unfolding leave_run
  leave_run-Keeps a t reason status img none = Relates-pure Keeps-IsPreorder tt
  leave_run-Keeps a t reason status img (some r) =
      Relates-bind Keeps-IsPreorder _ _
        (call-Keeps (sink.end_process img.row_id (some t) reason status))
        λ u.
          Relates-bind Keeps-IsPreorder _ _ (drop_live-Keeps a r) λ u'.
            Relates-bind Keeps-IsPreorder _ _ (note_end-Keeps t r) λ u''. maybe_end_run-Keeps r

  pub end_image-Keeps :
      (a t : ℕ) (reason : EndReason) (status : Option ℕ)
      → Relates Keeps (end_image sink a t reason status)
  unfolding end_image
  end_image-Keeps a t reason status = record {
    at = λ s. elim (Option-cases (image s a).ended_at) [
      | inl e ↦ rw e (
          Keeps-IsPreorder.rel_trans s _ _ (end_mark_image-Keeps a t reason status s e)
            ((leave_run-Keeps a t reason status (image s a) (image s a).run).at _))
      | inr (q, e) ↦ rw e (Keeps-IsPreorder.rel_refl s)
    ];
  }
