-- ===== src/Correlate/Finalize.antt =====
-- `finalize` of internal/correlate/correlator.go: attribution, adoption, candidate, orphan or drop.
use buckle.Base.{
  List, or_else, ℕ, Bool, true, false, not, Bytes, codes, [], ◌∷◌, ◌++◌, Option, none, some, length,
  if◌then◌else◌, nat_eq, bytes_eq, pair_eq, is_empty, is_some,
}
use buckle.Base.Map
use buckle.Base.Map.{Map}
use buckle.Exec.{Exec, Result, ok, err, pure, gets, modify, ◌>>=◌, ◌>>◌, for_each}
use buckle.ULog.{Denial}
use buckle.Sbx.Args.{unknown}
use buckle.Detect
use buckle.Detect.{Match, Detector}
use buckle.Rows.{sandbox_init, adopted, by_watch_stopped, watch_stopped}
use buckle.Rows
use buckle.Correlate.Sink.{Sink}
use buckle.Correlate.State.{
  RunState, State, Image, Pending, DenialKey, SeenInfo, Deps, entitlement_failed, zero_proc,
  zero_image, key_of, image, call,
}
use buckle.Correlate.Images.{member_of, register, join, maybe_end_run, resolve, reverse_onto}
use buckle.Correlate.Events.{add_run}
use buckle.Correlate.Denials.{forget_pending, eligible, root_path, last_or, attribute}

abbrev pub adopted_run : ℕ → RunState
adopted_run id = record {
  id = id;
  kind = adopted;
  live = [];
  last_end = 0;
  has_session = true;
  ended = false;
}

abbrev pub init_run : ℕ → RunState
init_run id = record {
  id = id;
  kind = sandbox_init;
  live = [];
  last_end = 0;
  has_session = false;
  ended = false;
}

-- the image that stands for a process whose events were never seen
abbrev pub unseen_image : ℕ → Image
unseen_image pid = record zero_image {
  proc = record zero_proc { token = (pid, 0) };
  no_token = true;
}

abbrev pub adopted_key : Detector → Match → Bytes
adopted_key det m = Detect.kind det ++ 0 ∷ m.raw

abbrev pub cache_key : Image → Bytes
cache_key root =
    if is_empty root.proc.cdhash then codes "path:" ++ root.proc.path else root.proc.cdhash

module _ {D : Type 0} where
  -- the row of `adopt`
  unfoldable pub adopted_row : State D → ℕ → Match → Denial → Rows.Run
  adopted_row s sid m d = record {
    watch_id = s.cfg.watch_id;
    kind = adopted;
    parent_run_id = none;
    session_id = some sid;
    tag = m.raw;
    tag_command = m.detail;
    started_at = d.time;
    started_before_watch = true;
    profile_source = unknown;
    profile_text = [];
    profile_path = [];
    profile_name = [];
    profile_error = [];
    params = [];
    extra = [];
    command = [];
    cwd = [];
    env = [];
  }

  -- the row of `candidateRun`
  unfoldable pub candidate_row : State D → Image → Rows.Run
  candidate_row s root = record {
    watch_id = s.cfg.watch_id;
    kind = sandbox_init;
    parent_run_id = none;
    session_id = none;
    tag = [];
    tag_command = [];
    started_at = root.start;
    started_before_watch = false;
    profile_source = unknown;
    profile_text = [];
    profile_path = [];
    profile_name = [];
    profile_error = [];
    params = [];
    extra = [];
    command = root.args;
    cwd = root.cwd;
    env = [];
  }

  unfoldable pub orphan_row : State D → Pending → SeenInfo → Rows.Orphan
  orphan_row s p i = record {
    watch_id = s.cfg.watch_id;
    time = p.d.time;
    process_name = p.d.name;
    pid = p.d.pid;
    operation = p.d.operation;
    target = p.d.target;
    message = p.d.message;
    count = p.count;
    last_path = i.path;
    last_pidversion = some i.pidversion;
  }

  -- the last writes of `finalize`
  unfoldable pub note_orphan : DenialKey → ℕ → State D → State D
  note_orphan key id s =
      let known = is_some (Map.lookup key s.last_orphan) in
      let pid = key.0 in
      record s {
        orphan_keys =
            if known
            then s.orphan_keys
            else Map.insert pid (or_else (Map.lookup pid s.orphan_keys) [] ++ key ∷ [])
                s.orphan_keys;
        last_orphan = Map.insert key id s.last_orphan;
      }

module _ {D : Type 0} (sink : Sink D) (deps : Deps) where
  -- `adopt` of a tag that is new
  unfoldable pub new_adopted : Detector → Match → Denial → Bytes → Exec (State D) ℕ
  unfolding ◌>>=◌ call add_run adopted_row
  new_adopted det m d key = do
    sid ← call (sink.ensure_session (Detect.kind det) m.key d.time)
    row ← gets (λ s. adopted_row s sid m d)
    id ← call (sink.insert_run row)
    r ← add_run (adopted_run id)
    modify (λ s. record s { adopted = Map.insert key r s.adopted })
    pure r

  -- `adopt`
  unfoldable pub adopt : Detector → Match → Denial → Exec (State D) ℕ
  unfolding new_adopted
  adopt det m d = do
    known ← gets (λ s. Map.lookup (adopted_key det m) s.adopted)
    elim known [ some r ↦ pure r | none ↦ new_adopted det m d (adopted_key det m) ]

  -- a check's result goes into the cache; a failed check counts as "not app-sandboxed"
  unfoldable pub note_entitled : Bytes → Image → Result Bool → Exec (State D) Bool
  unfolding ◌>>=◌
  note_entitled key root (ok b) = do
    modify (λ s. record s { ent_cache = Map.insert key b s.ent_cache })
    pure b
  note_entitled key root (err e) = do
    modify (λ s. record s {
      ent_cache = Map.insert key false s.ent_cache;
      warnings = s.warnings ++ entitlement_failed root.proc.path e ∷ [];
    })
    pure false

  -- the cached entitlement check of `candidateRun`
  unfoldable pub app_sandboxed : (Bytes → Bytes → Result Bool) → Image → Exec (State D) Bool
  unfolding note_entitled
  app_sandboxed check root = do
    known ← gets (λ s. Map.lookup (cache_key root) s.ent_cache)
    elim known [
      | some b ↦ pure b
      | none ↦ note_entitled (cache_key root) root (check root.proc.path root.proc.cdhash)
    ]

  -- the new run of a root in `candidateRun`; `none` if it is app-sandboxed
  unfoldable pub new_root : (Bytes → Bytes → Result Bool) → Image → Exec (State D) (Option ℕ)
  unfolding call app_sandboxed candidate_row add_run
  new_root check img = do
    app ← app_sandboxed check img
    if app then pure none else do
      row ← gets (λ s. candidate_row s img)
      id ← call (sink.insert_run row)
      r ← add_run (init_run id)
      pure (some r)

  -- the run of the root in `candidateRun`, a new one if the root has none
  unfoldable pub root_run : (Bytes → Bytes → Result Bool) → ℕ → Exec (State D) (Option ℕ)
  unfolding new_root
  root_run check root = do
    img ← gets (λ s. image s root)
    elim img.run [ some r ↦ pure (some r) | none ↦ new_root check img ]

  -- the end of `candidateRun`: the whole path joins the run, root first
  unfoldable pub join_path : List ℕ → Option ℕ → Exec (State D) (Option ℕ)
  unfolding for_each join maybe_end_run
  join_path path none = pure none
  join_path path (some r) = do
    for_each (reverse_onto [] path) (λ b. join sink b r)
    maybe_end_run sink r
    pure (some r)

  -- `candidateRun`
  unfoldable pub candidate_run : (Bytes → Bytes → Result Bool) → ℕ → Exec (State D) (Option ℕ)
  unfolding eligible root_path last_or root_run join_path
  candidate_run check a = do
    fits ← gets (λ s. eligible (length s.images) s a)
    if not fits then pure none else do
      path ← gets (λ s. root_path (length s.images) s a)
      found ← root_run check (last_or a path)
      join_path path found

  -- the orphan branch of `finalize`, or nothing where the pid was never seen
  unfoldable pub orphan_or_drop : Pending → Option SeenInfo → Exec (State D) (Unit {0})
  unfolding ◌>>=◌ call orphan_row note_orphan
  orphan_or_drop p none = pure tt
  orphan_or_drop p (some i) = do
    row ← gets (λ s. orphan_row s p i)
    id ← call (sink.insert_orphan row)
    modify (note_orphan (key_of p.d) id)

  unfoldable pub drop_or_orphan : Pending → Exec (State D) (Unit {0})
  unfolding orphan_or_drop
  drop_or_orphan p = do info ← gets (λ s. Map.lookup p.d.pid s.seen); orphan_or_drop p info

  -- the adoption branch of `finalize`
  unfoldable pub finalize_adopted :
      Pending → Option ℕ → Detector × Match → Exec (State D) (Unit {0})
  unfolding ◌>>=◌ adopt register join attribute
  finalize_adopted p found (det, m) = do
    r ← adopt det m p.d
    a ← elim found [ some a ↦ pure a | none ↦ register (unseen_image p.d.pid) ]
    join sink a r
    attribute sink deps p a

  -- the candidate branch of `finalize`
  unfoldable pub finalize_candidate :
      Pending → ℕ → (Bytes → Bytes → Result Bool) → Exec (State D) (Unit {0})
  unfolding ◌>>=◌ candidate_run attribute drop_or_orphan
  finalize_candidate p a check = do
    r ← candidate_run check a
    elim r [ some r' ↦ attribute sink deps p a | none ↦ drop_or_orphan p ]

  -- the classification in `finalize` of a denial that no run claims: by the claim of a detector,
  -- the image that it resolves to, and the entitlement check
  unfoldable pub classified :
      Pending
      → Option ℕ
      → Option (Detector × Match)
      → Option (Bytes → Bytes → Result Bool)
      → Exec (State D) (Unit {0})
  unfolding finalize_adopted finalize_candidate
  classified p found (some claim) ents = finalize_adopted p found claim
  classified p none none ents = drop_or_orphan p
  classified p (some a) none none = drop_or_orphan p
  classified p (some a) none (some check) = finalize_candidate p a check

  unfoldable pub finalize_unclaimed : Pending → Bool → Option ℕ → Exec (State D) (Unit {0})
  unfolding classified
  finalize_unclaimed p classify found =
      if not classify
      then drop_or_orphan p
      else classified p found (Detect.denial deps.decode p.d.message) deps.entitlements

  -- `finalize`
  unfoldable pub finalize : Pending → Bool → Exec (State D) (Unit {0})
  unfolding forget_pending resolve finalize_unclaimed
  finalize p classify = do
    modify (forget_pending p)
    found ← gets (λ s. resolve s p.d.pid p.d.time)
    member ← gets (λ s. member_of s found)
    elim (if member then found else none) [
      | some a ↦ attribute sink deps p a
      | none ↦ finalize_unclaimed p classify found
    ]
