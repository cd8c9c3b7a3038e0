-- ===== src/Correlate/Denials.antt =====
-- `HandleDenial` and `finalize` of internal/correlate/correlator.go, and candidate.go.
use buckle.Base.{
  ℕ, zero, suc, ◌+◌, Bool, true, false, not, ◌&&◌, ◌||◌, codes, List, [], ◌∷◌, ◌++◌, Option, none,
  some, if◌then◌else◌, ltb, ◌==◌, nat_eq, bytes_eq, pair_eq,
}
use buckle.Base.Map
use buckle.Exec.{Exec, ok, pure, raise, gets, modify, ◌>>=◌, ◌>>◌}
use buckle.ULog.{Denial}
use buckle.Detect
use buckle.Detect.{Match, Detector}
use buckle.Rows.{sandbox_init, adopted}
use buckle.Rows
use buckle.Correlate.Sink.{Sink}
use buckle.Correlate.State.{
  State, Pending, StoredDenial, DenialKey, Deps, key_of, image, run_at, pendings, put_image,
  put_run, call,
}
use buckle.Correlate.Images.{member_of, points_to, resolve, caught_up, is_current}

-- `p.count += n` on the pending denial that a pointer leads to.
unfoldable pub bump : ℕ → ℕ → List Pending → List Pending
bump ref n [] = []
bump ref n (p ∷ ps) =
    if p.ref == ref then record p { count = p.count + n } ∷ ps else p ∷ bump ref n ps

-- `lastStored[key]` is of another image, or missing.
abbrev pub stored_elsewhere : Option StoredDenial → ℕ → Bool
stored_elsewhere none a = true
stored_elsewhere (some sd) a = not (sd.img == a)

abbrev pub at_least_one : ℕ → ℕ
at_least_one n = if ltb n 1 then 1 else n

abbrev pub arriving : Denial → ℕ → ℕ → ℕ → Pending
arriving d count now ref = record { ref = ref; d = d; count = at_least_one count; arrived = now }

unfoldable pub last_or : ℕ → List ℕ → ℕ
last_or a [] = a
last_or a (b ∷ l) = last_or b l

module _ {D : Type 0} where
  -- `if c.lastPending[key] == p { delete(c.lastPending, key) }`
  unfoldable pub forget_pending : Pending → State D → State D
  forget_pending p s =
      let key = key_of p.d in
      if points_to (Map.lookup key s.last_pending) p.ref
      then record s { last_pending = Map.delete key s.last_pending }
      else s

  -- the two writes of `attribute` after the insert
  unfoldable pub note_stored : DenialKey → ℕ → ℕ → State D → State D
  unfolding put_image
  note_stored key id a s =
      let t =
        if stored_elsewhere (Map.lookup key s.last_stored) a
        then put_image a (λ i. record i { denial_keys = i.denial_keys ++ key ∷ [] }) s
        else s in
      record t { last_stored = Map.insert key (record { id = id; img = a }) t.last_stored }

  -- `eligible`, along `parent`; each image is younger than its parent, so as many rounds as there
  -- are images are enough
  unfoldable pub eligible : ℕ → State D → ℕ → Bool
  unfolding image
  eligible zero s a = false
  eligible (suc fuel) s a =
      let img = image s a in
      let up : Bool = elim img.parent [
        | none ↦ false
        | some b ↦ if img.proc.path == (image s b).proc.path then eligible fuel s b else false
      ] in
      if img.no_token || img.proc.is_platform then false else if img.exec_seen then true else up

  -- The images from `a` up to the root, which was seen to exec.
  unfoldable pub root_path : ℕ → State D → ℕ → List ℕ
  unfolding image
  root_path zero s a = a ∷ []
  root_path (suc fuel) s a =
      let up : List ℕ = elim (image s a).parent [ none ↦ [] | some b ↦ root_path fuel s b ] in
      if (image s a).exec_seen then a ∷ [] else a ∷ up

  -- the message row of a denial
  unfoldable pub denial_row : State D → Pending → ℕ → ℕ → Rows.Denial
  unfolding image run_at
  denial_row s p a r = record {
    run_id = (run_at s r).id;
    process_id = (image s a).row_id;
    time = p.d.time;
    process_name = p.d.name;
    pid = p.d.pid;
    operation = p.d.operation;
    target = p.d.target;
    message = p.d.message;
    count = p.count;
  }

  -- the stored denial of a key, while its image is current
  unfoldable pub stored_row_of : State D → DenialKey → Option ℕ
  unfolding is_current
  stored_row_of s key = elim (Map.lookup key s.last_stored) [
    | none ↦ none
    | some sd ↦ if is_current s sd.img then some sd.id else none
  ]

  -- `p.count += d.Duplicate`
  unfoldable pub bump_waiting : Denial → ℕ → State D → State D
  unfolding pendings bump
  bump_waiting d ref s = record s {
    pending_by_pid = Map.insert d.pid (bump ref d.duplicate (pendings s d.pid)) s.pending_by_pid;
  }

module _ {D : Type 0} (sink : Sink D) (deps : Deps) where
  -- the end of `attribute`: a run without a session may get one from the denial
  unfoldable pub attach_session : ℕ → Denial → Option (Detector × Match) → Exec (State D) (Unit {0})
  unfolding ◌>>=◌ call put_run
  attach_session r d none = pure tt
  attach_session r d (some (det, m)) = do
    sid ← call (sink.ensure_session (Detect.kind det) m.key d.time)
    run ← gets (λ s. run_at s r)
    call (sink.set_run_session run.id sid m.raw m.detail)
    modify (put_run r (λ x. record x { has_session = true }))

  unfoldable pub attribute_to : Pending → ℕ → ℕ → Exec (State D) (Unit {0})
  unfolding denial_row note_stored forget_pending attach_session
  attribute_to p a r = do
    row ← gets (λ s. denial_row s p a r)
    id ← call (sink.insert_denial row)
    modify (note_stored (key_of p.d) id a)
    modify (forget_pending p)
    run ← gets (λ s. run_at s r)
    if run.has_session
        then pure tt
        else attach_session r p.d (Detect.denial deps.decode p.d.message)

  -- `attribute`. It reads `img.run`, which every caller has found set: Go would panic otherwise.
  unfoldable pub attribute : Pending → ℕ → Exec (State D) (Unit {0})
  unfolding attribute_to
  attribute p a = do
    img ← gets (λ s. image s a)
    elim img.run [ none ↦ raise (codes "nil pointer dereference") | some r ↦ attribute_to p a r ]

  -- the image that a denial belongs to now, if it is in a run
  unfoldable pub resolve_member : Denial → Exec (State D) (Option ℕ × Bool)
  unfolding resolve
  resolve_member d s = let found = resolve s d.pid d.time in (ok (found, (member_of s found)), s)

  -- `c.pendingByPID[d.PID] = append(…); c.lastPending[key] = p`
  unfoldable pub add_pending : Pending → State D → State D
  unfolding pendings
  add_pending p s = record s {
    pending_by_pid = Map.insert p.d.pid (pendings s p.d.pid ++ p ∷ []) s.pending_by_pid;
    last_pending = Map.insert (key_of p.d) p.ref s.last_pending;
  }

  -- `HandleDenial` from the point where the line starts a denial of its own
  unfoldable pub new_denial : Denial → ℕ → ℕ → Exec (State D) (Unit {0})
  unfolding ◌>>=◌ caught_up resolve_member attribute add_pending
  new_denial d count now = do
    ref ← gets (λ s. s.next_ref)
    modify (λ s. record s { next_ref = s.next_ref + 1 })
    let p = arriving d count now ref
    caught ← gets (λ s. caught_up s d.time)
    (found, member) ← resolve_member d
    elim (if caught && member then found else none) [
      | some a ↦ attribute p a
      | none ↦ modify (add_pending p)
    ]

  -- `HandleDenial` on a duplicate-report line whose denial no longer waits
  unfoldable pub stored_repeat : Denial → ℕ → Option ℕ → Option ℕ → Exec (State D) (Unit {0})
  unfolding call new_denial
  stored_repeat d now (some id) orphan = call (sink.add_denial_count id d.duplicate)
  stored_repeat d now none (some id) = call (sink.add_orphan_count id d.duplicate)
  stored_repeat d now none none = new_denial d d.duplicate now

  -- `HandleDenial` on a duplicate-report line
  unfoldable pub repeat_denial : Denial → ℕ → Exec (State D) (Unit {0})
  unfolding ◌>>=◌ stored_row_of bump_waiting stored_repeat
  repeat_denial d now = do
    waiting ← gets (λ s. Map.lookup (key_of d) s.last_pending)
    stored ← gets (λ s. stored_row_of s (key_of d))
    orphan ← gets (λ s. Map.lookup (key_of d) s.last_orphan)
    elim waiting [
      | some ref ↦ modify (bump_waiting d ref)
      | none ↦ stored_repeat d now stored orphan
    ]

  -- `HandleDenial`
  unfoldable pub handle_denial : Denial → ℕ → Exec (State D) (Unit {0})
  unfolding repeat_denial
  handle_denial d now = if ltb 0 d.duplicate then repeat_denial d now else new_denial d d.deny_n now
