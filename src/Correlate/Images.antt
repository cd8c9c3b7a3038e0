-- ===== src/Correlate/Images.antt =====
-- The images and runs of internal/correlate/correlator.go: who is tracked, and what ends a run.
use buckle.Base.{
  or_else, ℕ, zero, suc, ◌+◌, Bool, true, false, not, ◌||◌, List, [], ◌∷◌, ◌++◌, Option, none, some,
  length, if◌then◌else◌, ltb, ◌==◌, nat_eq, bytes_eq, pair_eq, filter, is_empty, is_some,
}
use buckle.Base.Map
use buckle.Exec.{Exec, pure, gets, modify, ◌>>=◌, ◌>>◌}
use buckle.EsLog.{Proc}
use buckle.Rows.{adopted, by_exit, by_exec, EndReason, exited, RunKind}
use buckle.Rows
use buckle.Correlate.Sink.{Sink}
use buckle.Correlate.State.{
  State, Image, SeenInfo, RunState, DenialKey, zero_image, image, run_at, pids_images, put_image,
  put_run, call, time_slack,
}

-- A pointer comparison with a pointer that may be nil.
abbrev pub points_to : Option ℕ → ℕ → Bool
points_to none a = false
points_to (some b) a = b == a

abbrev pub is_adopted : RunKind → Bool
is_adopted adopted = true
is_adopted _ = false

abbrev pub get_last? {ℓ} : {A : Type ℓ} → List A → Option A
get_last? [] = none
get_last? (a ∷ []) = some a
get_last? (a ∷ b ∷ l) = get_last? (b ∷ l)

abbrev pub reverse_onto {ℓ} : {A : Type ℓ} → List A → List A → List A
reverse_onto acc [] = acc
reverse_onto acc (a ∷ l) = reverse_onto (a ∷ acc) l

-- `r.live[img] = struct{}{}` and `delete(r.live, img)`
unfoldable pub add_live : ℕ → RunState → RunState
add_live a r = record r { live = a ∷ filter (λ b. not (b == a)) r.live }

unfoldable pub drop_live : ℕ → RunState → RunState
drop_live a r = record r { live = filter (λ b. not (b == a)) r.live }

-- `if t.After(r.lastEnd) { r.lastEnd = t }`
unfoldable pub note_end : ℕ → RunState → RunState
note_end t r = record r { last_end = if ltb r.last_end t then t else r.last_end }

-- the test of `markSeen`
abbrev version_changed : Option SeenInfo → ℕ → Bool
version_changed none version = false
version_changed (some i) version = not (i.pidversion == version)

module _ {D : Type 0} where
  -- `sort.SliceStable` by start time: what equals an image's start stays behind it.
  unfoldable pub insert_by_start : State D → ℕ → List ℕ → List ℕ
  unfolding image
  insert_by_start s a [] = a ∷ []
  insert_by_start s a (b ∷ bs) =
      let rest = insert_by_start s a bs in
      if ltb (image s b).start (image s a).start then b ∷ rest else a ∷ b ∷ bs

  unfoldable pub sort_by_start : State D → List ℕ → List ℕ
  unfolding insert_by_start
  sort_by_start s [] = []
  sort_by_start s (a ∷ l) = insert_by_start s a (sort_by_start s l)

  -- `register`, of the image that stands at `a` already
  unfoldable pub index_image : ℕ → State D → State D
  unfolding pids_images sort_by_start
  index_image a s =
      let img = image s a in
      let pid = img.proc.token.0 in
      record s {
        by_token = if img.no_token then s.by_token else Map.insert img.proc.token a s.by_token;
        by_pid = Map.insert pid (sort_by_start s (pids_images s pid ++ a ∷ [])) s.by_pid;
      }

  -- `img := &image{…}; c.register(img)`: the pointer is the next index.
  unfoldable pub register : Image → Exec (State D) ℕ
  unfolding ◌>>=◌ index_image
  register img = do
    a ← gets (λ s. length s.images)
    modify (λ s. index_image a (record s { images = s.images ++ img ∷ [] }))
    pure a

  -- `imageFor`
  unfoldable pub image_for : Proc → Exec (State D) ℕ
  unfolding ◌>>=◌ register
  image_for p = do
    known ← gets (λ s. Map.lookup p.token s.by_token)
    elim known [
      | some a ↦ pure a
      | none ↦ register (record zero_image { proc = p; start = p.start_time })
    ]

  unfoldable pub delete_all : List DenialKey → State D → State D
  delete_all [] s = s
  delete_all (k ∷ ks) s = delete_all ks (record s { last_orphan = Map.delete k s.last_orphan })

  -- the `if` of `markSeen`
  unfoldable pub forget_orphans : ℕ → State D → State D
  unfolding delete_all
  forget_orphans pid s =
      let t = delete_all (or_else (Map.lookup pid s.orphan_keys) []) s in
      record t { orphan_keys = Map.delete pid s.orphan_keys }

  -- `markSeen`
  unfoldable pub mark_seen : Proc → Exec (State D) (Unit {0})
  unfolding modify forget_orphans
  mark_seen p = modify λ s.
      let (pid, version) = p.token in
      let changed = version_changed (Map.lookup pid s.seen) version in
      let t = if changed then forget_orphans pid s else s in
      record t { seen = Map.insert pid (record { path = p.path; pidversion = version }) t.seen }

  -- the loop of `isCurrent`, along `prev`; each image is younger than its `prev`, so as many rounds
  -- as there are images are enough
  unfoldable pub reaches : ℕ → State D → ℕ → ℕ → Bool
  unfolding image
  reaches zero s cur a = false
  reaches (suc fuel) s cur a =
      let rest : Bool = elim (image s cur).prev [ none ↦ false | some b ↦ reaches fuel s b a ] in
      if cur == a then true else rest

  -- `isCurrent`
  unfoldable pub is_current : State D → ℕ → Bool
  unfolding reaches pids_images
  is_current s a = elim (get_last? (pids_images s (image s a).proc.token.0)) [
    | none ↦ false
    | some cur ↦ reaches (length s.images) s cur a
  ]

  -- The loop of `resolve`, over the pid's images from the newest.
  unfoldable pub resolve_loop : State D → ℕ → List ℕ → Option ℕ
  unfolding image
  resolve_loop s t [] = none
  resolve_loop s t (a ∷ l) =
      let rest = resolve_loop s t l in
      if ltb (t + time_slack) (image s a).start then rest else elim (image s a).ended_at [
        | none ↦ some a
        | some e ↦ if ltb (e + time_slack) t then none else some a
      ]

  -- `resolve`
  unfoldable pub resolve : State D → ℕ → ℕ → Option ℕ
  unfolding resolve_loop pids_images
  resolve s pid t = resolve_loop s t (reverse_onto [] (pids_images s pid))

  -- `img != nil && img.run != nil`
  abbrev pub member_of : State D → Option ℕ → Bool
  member_of s none = false
  member_of s (some a) = is_some (image s a).run

  -- `caughtUp`
  unfoldable pub caught_up : State D → ℕ → Bool
  caught_up s t = ltb (t + time_slack) s.watermark

  -- the row of an image that has one in the run `r`
  unfoldable pub row_in_run : State D → ℕ → Option ℕ → Option ℕ
  unfolding image
  row_in_run s r none = none
  row_in_run s r (some b) = if points_to (image s b).run r then some (image s b).row_id else none

  -- the process row of `join`
  unfoldable pub process_row : State D → ℕ → ℕ → Rows.Process
  unfolding run_at row_in_run
  process_row s a r =
      let img = image s a in
      record {
        run_id = (run_at s r).id;
        pid = img.proc.token.0;
        pidversion = if img.no_token then none else some img.proc.token.1;
        parent_process_id = row_in_run s r img.parent;
        exec_prev_process_id = row_in_run s r img.prev;
        ppid = img.proc.ppid;
        path = img.proc.path;
        args = img.args;
        is_platform = if img.no_token then none else some img.proc.is_platform;
        signing_id = img.proc.signing_id;
        team_id = img.proc.team_id;
        cdhash = img.proc.cdhash;
        started_at = if img.start == 0 then none else some img.start;
      }

module _ {D : Type 0} (sink : Sink D) where
  -- the end of `join`, for an image that has ended already
  unfoldable pub join_end : ℕ → ℕ → ℕ → Image → Exec (State D) (Unit {0})
  unfolding ◌>>=◌ call put_run add_live note_end
  join_end a r id img = elim img.ended_at [
    | none ↦ modify (put_run r (add_live a))
    | some t ↦ do
      call (sink.end_process id (some t) (or_else img.end_reason by_exit) img.exit_status)
      modify (put_run r (note_end t))
  ]

  -- `join`
  unfoldable pub join : ℕ → ℕ → Exec (State D) (Unit {0})
  unfolding join_end put_image process_row
  join a r = do
    img ← gets (λ s. image s a)
    if is_some img.run then pure tt else do
      modify (put_image a (λ i. record i { run = some r }))
      row ← gets (λ s. process_row s a r)
      id ← call (sink.insert_process row)
      modify (put_image a (λ i. record i { row_id = id }))
      join_end a r id img

  -- `maybeEndRun`
  unfoldable pub maybe_end_run : ℕ → Exec (State D) (Unit {0})
  unfolding ◌>>=◌ call put_run
  maybe_end_run r = do
    run ← gets (λ s. run_at s r)
    if run.ended || is_adopted run.kind || not (is_empty run.live) then pure tt else do
      modify (put_run r (λ x. record x { ended = true }))
      call (sink.end_run run.id (some run.last_end) exited)

  -- the end of `endImage`, by the image's run
  unfoldable pub leave_run :
      ℕ → ℕ → EndReason → Option ℕ → Image → Option ℕ → Exec (State D) (Unit {0})
  unfolding maybe_end_run drop_live note_end
  leave_run a t reason status img none = pure tt
  leave_run a t reason status img (some r) = do
    call (sink.end_process img.row_id (some t) reason status)
    modify (put_run r (drop_live a))
    modify (put_run r (note_end t))
    maybe_end_run r

  -- `endImage`
  unfoldable pub end_image : ℕ → ℕ → EndReason → Option ℕ → Exec (State D) (Unit {0})
  unfolding leave_run put_image
  end_image a t reason status = do
    img ← gets (λ s. image s a)
    if is_some img.ended_at then pure tt else do
      modify (
          put_image a
            (λ i. record i { ended_at = some t; end_reason = some reason; exit_status = status }))
      leave_run a t reason status img img.run
