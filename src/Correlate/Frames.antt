-- ===== src/Correlate/Frames.antt =====
-- What internal/correlate does to images, runs and sessions is built of a few steps: a relation that
-- each of these keeps is kept by the handlers of events, by adoption and by candidate runs.
use buckle.Base.{
  ℕ, Bool, false, not, List, [], ◌∷◌, ◌++◌, Option, none, some, if◌then◌else◌, ltb, nat_eq,
  bytes_eq, pair_eq, Bytes, length, is_some, ◌==◌,
}
use buckle.Base.Map
use buckle.Base.Map.{Map}
use buckle.Exec.{Result, ok, err, Exec, modify}
use buckle.Exec.Frame.{
  IsPreorder, Relates, Relates-pure, Relates-bind, Relates-gets, Relates-if, Relates-for_each,
}
use buckle.ULog.{Denial}
use buckle.Rows
use buckle.Rows.{EndReason, by_exit, by_exec}
use buckle.EsLog.{Event, Kind, Proc, fork, exec, exit, other}
use buckle.Detect
use buckle.Detect.{Match, Detector}
use buckle.Correlate.Sink.{Sink}
use buckle.Correlate.State.{
  State, Deps, RunState, Image, entitlement_failed, image, zero_image, call,
}
use buckle.Correlate.Images.{
  reverse_onto, register, image_for, mark_seen, join, maybe_end_run, end_image,
}
use buckle.Correlate.Denials.{eligible, root_path, last_or}
use buckle.Correlate.Events.{
  run_row, forked, execed, claim_of, started, add_run, claim_row, start_sandbox_exec_run,
  handle_fork, join_exec, handle_exec, handle_exit, dispatch, handle_es, sandbox_exec_path,
}
use buckle.Correlate.Finalize.{
  adopted_key, cache_key, new_adopted, note_entitled, new_root, join_path, adopted_row, adopted_run,
  init_run, candidate_row, adopt, app_sandboxed, root_run, candidate_run,
}

-- The steps, for a relation `R`.
pub record Steps {D : Type 0} (sink : Sink D) (R : State D → State D → Type 0) : Type 0 where
  pub order : IsPreorder R
  pub register_step : (img : Image) → Relates R (register img)
  pub seen_step : (p : Proc) → Relates R (mark_seen p)
  pub join_step : (a r : ℕ) → Relates R (join sink a r)
  pub end_step :
      (a t : ℕ) (reason : EndReason) (status : Option ℕ)
      → Relates R (end_image sink a t reason status)
  pub end_run_step : (r : ℕ) → Relates R (maybe_end_run sink r)
  pub add_run_step : (r : RunState) → Relates R (add_run r)
  pub session_step : (kind key : Bytes) (t : ℕ) → Relates R (call (sink.ensure_session kind key t))
  pub insert_step : (row : Rows.Run) → Relates R (call (sink.insert_run row))
  pub watermark_step :
      (t : ℕ)
      → Relates R
          (modify (λ s. record s { watermark = if ltb s.watermark t then t else s.watermark }))
  pub adopted_step :
      (key : Bytes) (r : ℕ)
      → Relates R (modify (λ s. record s { adopted = Map.insert key r s.adopted }))
  pub cache_step :
      (key : Bytes) (b : Bool)
      → Relates R (modify (λ s. record s { ent_cache = Map.insert key b s.ent_cache }))
  pub failed_step :
      (key path e : Bytes)
      → Relates R (
          modify (λ s. record s {
            ent_cache = Map.insert key false s.ent_cache;
            warnings = s.warnings ++ entitlement_failed path e ∷ [];
          }))

pub Relates-option {ℓ κ} :
    {D : Type 0} {A : Type ℓ} {B : Type κ} {R : State D → State D → Type 0}
    → (n : Exec (State D) B) (f : A → Exec (State D) B) → Relates R n
    → ((a : A) → Relates R (f a))
    → (o : Option A) → Relates R (elim o [ none ↦ n | some a ↦ f a ])
Relates-option n f hn hf none = hn
Relates-option n f hn hf (some a) = hf a

module _ {D : Type 0} (sink : Sink D) (deps : Deps) {R : State D → State D → Type 0}
    (o : Steps sink R) where
  image_for-Relates : (p : Proc) → Relates R (image_for {D = D} p)
  unfolding image_for
  image_for-Relates p = Relates-bind o.order _ _ (Relates-gets o.order _) λ known.
      Relates-option _ _ (o.register_step (record zero_image { proc = p; start = p.start_time }))
        (λ a. Relates-pure o.order a) known

  claim_row-Relates :
      (row : Rows.Run) (t : ℕ) (claim : Option (Detector × Match))
      → Relates R (claim_row sink deps row t claim)
  unfolding claim_row
  claim_row-Relates row t none = Relates-pure o.order row
  claim_row-Relates row t (some (det, m)) =
      Relates-bind o.order _ _ (o.session_step (Detect.kind det) m.key t)
        λ sid. Relates-pure o.order _

  start_sandbox_exec_run-Relates :
      (ev : Event) (parent : Option ℕ) → Relates R (start_sandbox_exec_run sink deps ev parent)
  unfolding start_sandbox_exec_run
  start_sandbox_exec_run-Relates ev parent =
      Relates-bind o.order _ _ (Relates-gets o.order (λ s. run_row sink deps s ev parent)) λ row.
        Relates-bind o.order _ _ (claim_row-Relates row ev.time (claim_of deps row ev)) λ claimed.
          Relates-bind o.order _ _ (o.insert_step claimed)
            λ id. o.add_run_step (started id (claim_of deps row ev))

  join_exec-Relates :
      (ev : Event) (img : ℕ) (run : Option ℕ) → Relates R (join_exec sink deps ev img run)
  unfolding join_exec
  join_exec-Relates ev img run =
      Relates-if o.order (ev.target.path == sandbox_exec_path) _ _
        (Relates-bind o.order _ _ (start_sandbox_exec_run-Relates ev run) (λ r. o.join_step img r))
        (Relates-option _ _ (Relates-pure o.order tt) (λ r. o.join_step img r) run)

  handle_exec-Relates : (ev : Event) → Relates R (handle_exec sink deps ev)
  unfolding handle_exec
  handle_exec-Relates ev = Relates-bind o.order _ _ (image_for-Relates ev.process) λ actor.
      Relates-bind o.order _ _ (o.seen_step ev.process) λ u.
        Relates-bind o.order _ _ (o.seen_step ev.target) λ u'.
          Relates-bind o.order _ _
            (Relates-gets o.order (λ s. is_some (Map.lookup ev.target.token s.by_token)))
            λ dup. Relates-if o.order dup _ _ (Relates-pure o.order tt) (
              Relates-bind o.order _ _ (Relates-gets o.order (λ s. image s actor)) λ was.
                Relates-bind o.order _ _ (o.register_step (execed ev was actor)) λ img.
                  Relates-bind o.order _ _ (join_exec-Relates ev img was.run)
                    λ u''. o.end_step actor ev.time by_exec none)

  handle_fork-Relates : (ev : Event) → Relates R (handle_fork sink deps ev)
  unfolding handle_fork
  handle_fork-Relates ev = Relates-bind o.order _ _ (image_for-Relates ev.process) λ parent.
      Relates-bind o.order _ _ (o.seen_step ev.process) λ u.
        Relates-bind o.order _ _ (o.seen_step ev.target) λ u'.
          Relates-bind o.order _ _
            (Relates-gets o.order (λ s. is_some (Map.lookup ev.target.token s.by_token)))
            λ dup. Relates-if o.order dup _ _ (Relates-pure o.order tt) (
              Relates-bind o.order _ _ (Relates-gets o.order (λ s. image s parent)) λ img.
                Relates-bind o.order _ _ (o.register_step (forked ev img parent)) λ child.
                  Relates-option _ _ (Relates-pure o.order tt) (λ r. o.join_step child r) img.run)

  handle_exit-Relates : (ev : Event) → Relates R (handle_exit sink deps ev)
  unfolding handle_exit
  handle_exit-Relates ev =
      Relates-bind o.order _ _ (Relates-gets o.order (λ s. Map.lookup ev.process.token s.by_token))
        λ known.
          Relates-option _ _ (Relates-pure o.order tt)
            (λ a. o.end_step a ev.time by_exit (some ev.exit_status)) known

  dispatch-Relates : (k : Kind) (ev : Event) → Relates R (dispatch sink deps k ev)
  unfolding dispatch
  dispatch-Relates fork ev = handle_fork-Relates ev
  dispatch-Relates exec ev = handle_exec-Relates ev
  dispatch-Relates exit ev = handle_exit-Relates ev
  dispatch-Relates other ev = Relates-pure o.order tt

  pub handle_es-Relates : (ev : Event) → Relates R (handle_es sink deps ev)
  unfolding handle_es
  handle_es-Relates ev =
      Relates-bind o.order _ _ (o.watermark_step ev.time) λ u. dispatch-Relates ev.kind ev

  new_adopted-Relates :
      (det : Detector) (m : Match) (d : Denial) (key : Bytes)
      → Relates R (new_adopted sink deps det m d key)
  unfolding new_adopted
  new_adopted-Relates det m d key =
      Relates-bind o.order _ _ (o.session_step (Detect.kind det) m.key d.time) λ sid.
        Relates-bind o.order _ _ (Relates-gets o.order (λ s. adopted_row s sid m d)) λ row.
          Relates-bind o.order _ _ (o.insert_step row) λ id.
            Relates-bind o.order _ _ (o.add_run_step (adopted_run id))
              λ r. Relates-bind o.order _ _ (o.adopted_step key r) λ u. Relates-pure o.order r

  pub adopt-Relates :
      (det : Detector) (m : Match) (d : Denial) → Relates R (adopt sink deps det m d)
  unfolding adopt
  adopt-Relates det m d =
      Relates-bind o.order _ _
        (Relates-gets o.order (λ s. Map.lookup (adopted_key det m) s.adopted))
        λ known.
          Relates-option _ _ (new_adopted-Relates det m d (adopted_key det m))
            (λ r. Relates-pure o.order r) known

  entitled-Relates :
      (key : Bytes) (img : Image) (o : Result Bool)
      → Relates R (note_entitled {D = D} sink deps key img o)
  unfolding note_entitled
  entitled-Relates key img (ok b) =
      Relates-bind o.order _ _ (o.cache_step key b) λ u. Relates-pure o.order b
  entitled-Relates key img (err e) =
      Relates-bind o.order _ _ (o.failed_step key img.proc.path e) λ u. Relates-pure o.order false

  app_sandboxed-Relates :
      (check : Bytes → Bytes → Result Bool) (img : Image)
      → Relates R (app_sandboxed {D = D} sink deps check img)
  unfolding app_sandboxed
  app_sandboxed-Relates check img =
      Relates-bind o.order _ _ (Relates-gets o.order (λ s. Map.lookup (cache_key img) s.ent_cache))
        λ known.
          Relates-option _ _
            (entitled-Relates (cache_key img) img (check img.proc.path img.proc.cdhash))
            (λ b. Relates-pure o.order b) known

  new_root-Relates :
      (check : Bytes → Bytes → Result Bool) (img : Image) → Relates R (new_root sink deps check img)
  unfolding new_root
  new_root-Relates check img = Relates-bind o.order _ _ (app_sandboxed-Relates check img) λ app.
      Relates-if o.order app _ _ (Relates-pure o.order none) (
        Relates-bind o.order _ _ (Relates-gets o.order (λ s. candidate_row s img)) λ row.
          Relates-bind o.order _ _ (o.insert_step row) λ id.
            Relates-bind o.order _ _ (o.add_run_step (init_run id))
              λ r. Relates-pure o.order (some r))

  root_run-Relates :
      (check : Bytes → Bytes → Result Bool) (root : ℕ) → Relates R (root_run sink deps check root)
  unfolding root_run
  root_run-Relates check root =
      Relates-bind o.order _ _ (Relates-gets o.order (λ s. image s root)) λ img.
        Relates-option _ _ (new_root-Relates check img) (λ r. Relates-pure o.order (some r)) img.run

  join_path-Relates : (path : List ℕ) (o : Option ℕ) → Relates R (join_path sink deps path o)
  unfolding join_path
  join_path-Relates path none = Relates-pure o.order none
  join_path-Relates path (some r) =
      Relates-bind o.order _ _
        (Relates-for_each o.order (reverse_onto [] path) (λ b. join sink b r)
          (λ b. o.join_step b r))
        λ u. Relates-bind o.order _ _ (o.end_run_step r) λ u'. Relates-pure o.order (some r)

  pub candidate_run-Relates :
      (check : Bytes → Bytes → Result Bool) (a : ℕ) → Relates R (candidate_run sink deps check a)
  unfolding candidate_run
  candidate_run-Relates check a =
      Relates-bind o.order _ _ (Relates-gets o.order (λ s. eligible (length s.images) s a)) λ fits.
        Relates-if o.order (not fits) _ _ (Relates-pure o.order none) (
          Relates-bind o.order _ _ (Relates-gets o.order (λ s. root_path (length s.images) s a))
            λ path.
              Relates-bind o.order _ _ (root_run-Relates check (last_or a path))
                λ found. join_path-Relates path found)
