-- ===== src/Correlate/Events.antt =====
-- `HandleES` of internal/correlate/correlator.go and the handlers below it.
use buckle.Base.{
  ℕ, Bool, true, false, not, ◌&&◌, Bytes, codes, [], ◌∷◌, ◌++◌, Option, none, some, length,
  if◌then◌else◌, ltb, ◌==◌, nat_eq, bytes_eq, pair_eq, is_empty, is_some,
}
use buckle.Base.Map
use buckle.Exec.{Exec, ok, err, pure, gets, modify, ◌>>=◌, ◌>>◌}
use buckle.EsLog.{Event, Kind, exec, fork, exit, other}
use buckle.Sbx.Args.{ProfileSpec, ProfileSource, inline, file, named, unknown, parse_args}
use buckle.Detect
use buckle.Detect.{Match, Detector}
use buckle.Detect.Env.{pick_env}
use buckle.Rows.{sandbox_exec, by_exec, by_exit}
use buckle.Rows
use buckle.Correlate.Sink.{Sink}
use buckle.Correlate.State.{Image, State, RunState, Deps, zero_image, image, run_at, call}
use buckle.Correlate.Images.{register, image_for, mark_seen, join, end_image}

abbrev pub sandbox_exec_path : Bytes
sandbox_exec_path = codes "/usr/bin/sandbox-exec"

-- `filepath.IsAbs`
abbrev is_abs : Bytes → Bool
is_abs [] = false
is_abs (c ∷ cs) = c == b'/'

-- What the `switch spec.Source` stores: the profile's text, path, name and error.
pub record Profile : Type 0 where
  pub text : Bytes
  pub path : Bytes
  pub name : Bytes
  pub error : Bytes

unfoldable pub read_profile : Deps → Bytes → Bytes → Profile
read_profile deps p error = elim (deps.read_file p) [
  | ok text ↦ record { text = text; path = p; name = []; error = error }
  | err e ↦ record { text = []; path = p; name = []; error = codes "read profile: " ++ e }
]

-- the child image of a fork, and the new image of an exec
abbrev pub forked : Event → Image → ℕ → Image
forked ev img parent = record zero_image {
  proc = ev.target;
  args = img.args;
  cwd = img.cwd;
  parent = some parent;
  start = ev.time;
}

abbrev pub execed : Event → Image → ℕ → Image
execed ev was actor = record zero_image {
  proc = ev.target;
  args = ev.args;
  cwd = ev.cwd;
  exec_seen = true;
  parent = was.parent;
  prev = some actor;
  start = ev.time;
}

-- `detect.FindRun`, on what a run starts with
abbrev pub claim_of : Deps → Rows.Run → Event → Option (Detector × Match)
claim_of deps row ev =
    Detect.run deps.decode
      (record { profile_text = row.profile_text; argv = ev.args; env = row.env })

abbrev pub started : ℕ → Option (Detector × Match) → RunState
started id claim = record {
  id = id;
  kind = sandbox_exec;
  live = [];
  last_end = 0;
  has_session = is_some claim;
  ended = false;
}

unfoldable pub profile_of : Deps → ProfileSource → ProfileSpec → Bytes → Profile
unfolding read_profile
profile_of deps inline spec cwd = record {
  text = spec.inline_text;
  path = [];
  name = [];
  error = spec.err;
}
profile_of deps file spec cwd =
    read_profile deps
      (if not (is_abs spec.file_path) && not (is_empty cwd)
        then deps.join_path cwd spec.file_path
        else spec.file_path)
      spec.err
profile_of deps named spec cwd = record { text = []; path = []; name = spec.name; error = spec.err }
profile_of deps unknown spec cwd = record { text = []; path = []; name = []; error = spec.err }

module _ {D : Type 0} where
  -- `r := &run{…}; c.runs = append(c.runs, r)`
  unfoldable pub add_run : RunState → Exec (State D) ℕ
  unfolding ◌>>=◌
  add_run r = do
    a ← gets (λ s. length s.runs)
    modify (λ s. record s { runs = s.runs ++ r ∷ [] })
    pure a

module _ {D : Type 0} (sink : Sink D) (deps : Deps) where
  -- The run's row but for its session.
  unfoldable pub run_row : State D → Event → Option ℕ → Rows.Run
  unfolding profile_of run_at parse_args pick_env
  run_row s ev parent =
      let spec = parse_args ev.args in
      let profile = profile_of deps spec.source spec ev.cwd in
      record {
        watch_id = s.cfg.watch_id;
        kind = sandbox_exec;
        parent_run_id = elim parent [ none ↦ none | some r ↦ some (run_at s r).id ];
        session_id = none;
        tag = [];
        tag_command = [];
        started_at = ev.time;
        started_before_watch = false;
        profile_source = spec.source;
        profile_text = profile.text;
        profile_path = profile.path;
        profile_name = profile.name;
        profile_error = profile.error;
        params = spec.params;
        extra = spec.extra;
        command = spec.command;
        cwd = ev.cwd;
        env = pick_env ev.env;
      }

  -- the session of a run that a detector claims
  unfoldable pub claim_row : Rows.Run → ℕ → Option (Detector × Match) → Exec (State D) Rows.Run
  unfolding ◌>>=◌ call
  claim_row row t none = pure row
  claim_row row t (some (det, m)) = do
    sid ← call (sink.ensure_session (Detect.kind det) m.key t)
    pure (record row { session_id = some sid; tag = m.raw; tag_command = m.detail })

  -- `startSandboxExecRun`
  unfoldable pub start_sandbox_exec_run : Event → Option ℕ → Exec (State D) ℕ
  unfolding claim_row add_run run_row
  start_sandbox_exec_run ev parent = do
    row ← gets (λ s. run_row s ev parent)
    let claim = claim_of deps row ev
    claimed ← claim_row row ev.time claim
    id ← call (sink.insert_run claimed)
    add_run (started id claim)

  -- `handleFork`
  unfoldable pub handle_fork : Event → Exec (State D) (Unit {0})
  unfolding ◌>>=◌ image_for mark_seen register join
  handle_fork ev = do
    parent ← image_for ev.process
    mark_seen ev.process
    mark_seen ev.target
    dup ← gets (λ s. is_some (Map.lookup ev.target.token s.by_token))
    if dup then pure tt else do
      img ← gets (λ s. image s parent)
      child ← register (forked ev img parent)
      elim img.run [ none ↦ pure tt | some r ↦ join sink child r ]

  -- the `switch` of `handleExec`
  unfoldable pub join_exec : Event → ℕ → Option ℕ → Exec (State D) (Unit {0})
  unfolding ◌>>=◌ start_sandbox_exec_run join
  join_exec ev img actor_run =
      if ev.target.path == sandbox_exec_path
      then (do r ← start_sandbox_exec_run ev actor_run; join sink img r)
      else elim actor_run [ none ↦ pure tt | some r ↦ join sink img r ]

  -- `handleExec`
  unfoldable pub handle_exec : Event → Exec (State D) (Unit {0})
  unfolding image_for mark_seen register join_exec end_image
  handle_exec ev = do
    actor ← image_for ev.process
    mark_seen ev.process
    mark_seen ev.target
    dup ← gets (λ s. is_some (Map.lookup ev.target.token s.by_token))
    if dup then pure tt else do
      was ← gets (λ s. image s actor)
      img ← register (execed ev was actor)
      join_exec ev img was.run
      end_image sink actor ev.time by_exec none

  -- `handleExit`
  unfoldable pub handle_exit : Event → Exec (State D) (Unit {0})
  unfolding ◌>>=◌ end_image
  handle_exit ev = do
    known ← gets (λ s. Map.lookup ev.process.token s.by_token)
    elim known [ none ↦ pure tt | some a ↦ end_image sink a ev.time by_exit (some ev.exit_status) ]

  unfoldable pub dispatch : Kind → Event → Exec (State D) (Unit {0})
  unfolding handle_fork handle_exec handle_exit
  dispatch fork ev = handle_fork ev
  dispatch exec ev = handle_exec ev
  dispatch exit ev = handle_exit ev
  dispatch other ev = pure tt

  -- `HandleES`
  unfoldable pub handle_es : Event → Exec (State D) (Unit {0})
  unfolding ◌>>=◌ dispatch
  handle_es ev = do
    modify (λ s. record s { watermark = if ltb s.watermark ev.time then ev.time else s.watermark })
    dispatch ev.kind ev
