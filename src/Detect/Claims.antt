-- ===== src/Detect/Claims.antt =====
-- Which detector claims a run or a denial.
use buckle.Base.{
  ◌≡◌, refl, [], Option, none, some, Bytes, codes, arith, contains, is_empty, if◌then◌else◌,
  bytes_eq, bytes_beq,
}
use buckle.Detect.{
  RunStart, Detector, claude, cursor, kind, cursor_fingerprint, cursor_unknown_key, get_env,
  run_loop, run, denial, by_kind, by_kind_loop,
}
use buckle.Sbx.Tag.{find_tag}

module _ (decode : Bytes → Option Bytes) where
  -- What `run` answers, in all cases: a profile with a tag is Claude's, whatever else it holds; one
  -- with the fingerprint and no tag is Cursor's, under the conversation id or "unknown", and with
  -- no raw tag; every other run is unclaimed.
  pub run_lem :
      (rs : RunStart)
      → let id = get_env (codes "CURSOR_CONVERSATION_ID") rs.env in
        run decode rs ≡ (elim (find_tag decode rs.profile_text) [
          | some t ↦ some (claude, record { key = t.suffix; detail = t.command; raw = t.raw })
          | none ↦
              if contains rs.profile_text cursor_fingerprint
              then some (
                cursor,
                record {
                  key = if is_empty id then cursor_unknown_key else id;
                  detail = get_env (codes "CURSOR_REQUEST_ID") rs.env;
                  raw = [];
                },
              )
              else none
        ])
  unfolding run_loop
  run_lem rs = ground arith

  -- A denial is recognised exactly when its message holds a tag, and always as Claude's.
  pub denial_lem :
      (message : Bytes)
      → denial decode message ≡ (
          if is_empty message then none else elim (find_tag decode message) [
            | some t ↦ some (claude, record { key = t.suffix; detail = t.command; raw = t.raw })
            | none ↦ none
          ])
  unfolding denial
  denial_lem message = ground arith

-- A detector is found by its own stored kind.
pub by_kind-kind : (d : Detector) → by_kind (kind d) ≡ some d
unfolding by_kind_loop bytes_beq
by_kind-kind claude = refl
by_kind-kind cursor = refl
