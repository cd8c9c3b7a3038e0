-- ===== src/Detect.antt =====
-- internal/detect: which agent launched a run. The detectors are the constructors of a type, and
-- their methods are by clauses. Base64 decoding is a parameter, the standard library's.
pub mod Env
pub mod Claims
use buckle.Base.{
  ℕ, Bool, true, false, not, ◌&&◌, List, [], ◌∷◌, ◌++◌, Option, none, some, Bytes, codes, ◌==◌,
  bytes_eq, contains, if◌then◌else◌, is_empty, cut,
}
use buckle.Base.Chain.{◌>>=◌}
use buckle.Base.Map
use buckle.Base.Map.{Map}
use buckle.Sbx.Tag.{Tag, find_tag}

pub record RunStart : Type 0 where
  pub profile_text : Bytes
  pub argv : List Bytes
  pub env : Map Bytes Bytes

pub record Match : Type 0 where
  pub key : Bytes
  pub detail : Bytes
  pub raw : Bytes

pub data Detector : Type 0 where
  claude cursor : Detector

-- `Kind()`, the stored value
abbrev pub kind : Detector → Bytes
kind claude = codes "claude-code"
kind cursor = codes "cursor"

-- `DisplayName()`
abbrev pub display_name : Detector → Bytes
display_name claude = codes "Claude Code"
display_name cursor = codes "Cursor"

-- `DetailLabel()`
abbrev pub detail_label : Detector → Bytes
detail_label claude = codes "Claude tool use"
detail_label cursor = codes "Cursor request"

-- `EnvVars()`
abbrev pub env_vars : Detector → List Bytes
env_vars claude = []
env_vars cursor =
    codes "CURSOR_AGENT"
    ∷ codes "CURSOR_CONVERSATION_ID"
    ∷ codes "CURSOR_REQUEST_ID"
    ∷ codes "CURSOR_SANDBOX"
    ∷ []

abbrev pub cursor_fingerprint : Bytes
cursor_fingerprint = codes "; Added on top of Chrome profile"

abbrev pub cursor_unknown_key : Bytes
cursor_unknown_key = codes "unknown"

-- `m[k]` of a Go map of strings: "" where the key is missing.
abbrev or_empty : Option Bytes → Bytes
or_empty none = []
or_empty (some v) = v

abbrev pub get_env : Bytes → Map Bytes Bytes → Bytes
get_env k env = or_empty (Map.lookup k env)

-- `All`, in match order
abbrev pub all_detectors : List Detector
all_detectors = claude ∷ cursor ∷ []

module _ (decode : Bytes → Option Bytes) where
  -- `Claude.DetectDenial`
  unfoldable pub claude_denial : Bytes → Option Match
  claude_denial text = do
    tag ← find_tag decode text
    some (record { key = tag.suffix; detail = tag.command; raw = tag.raw })

  -- `Cursor.DetectRun`
  unfoldable pub cursor_run : RunStart → Option Match
  cursor_run rs =
      if not (contains rs.profile_text cursor_fingerprint)
      then none
      else (let key = get_env (codes "CURSOR_CONVERSATION_ID") rs.env in
          some (record {
            key = if is_empty key then cursor_unknown_key else key;
            detail = get_env (codes "CURSOR_REQUEST_ID") rs.env;
            raw = [];
          }))

  -- `DetectRun`
  unfoldable pub detect_run : Detector → RunStart → Option Match
  unfolding claude_denial cursor_run
  detect_run claude rs = claude_denial rs.profile_text
  detect_run cursor rs = cursor_run rs

  -- `DetectDenial`, of the detectors that have it: the type assertion to `DenialDetector`.
  unfoldable pub detect_denial : Detector → Option (Bytes → Option Match)
  unfolding claude_denial
  detect_denial claude = some claude_denial
  detect_denial cursor = none

  -- the loop of `Run`
  unfoldable pub run_loop : List Detector → RunStart → Option (Detector × Match)
  unfolding detect_run
  run_loop [] rs = none
  run_loop (d ∷ ds) rs =
      let rest = run_loop ds rs in elim (detect_run d rs) [ none ↦ rest | some m ↦ some (d, m) ]

  -- `Run`
  abbrev pub run : RunStart → Option (Detector × Match)
  run = run_loop all_detectors

  -- the loop of `Denial`
  unfoldable pub denial_loop : List Detector → Bytes → Option (Detector × Match)
  unfolding detect_denial
  denial_loop [] message = none
  denial_loop (d ∷ ds) message =
      let rest = denial_loop ds message in
      elim (detect_denial d) [
        | none ↦ rest
        | some detect ↦ elim (detect message) [ none ↦ rest | some m ↦ some (d, m) ]
      ]

  -- `Denial`
  unfoldable pub denial : Bytes → Option (Detector × Match)
  unfolding denial_loop
  denial message = if is_empty message then none else denial_loop all_detectors message

-- `ByKind`
unfoldable pub by_kind_loop : List Detector → Bytes → Option Detector
by_kind_loop [] k = none
by_kind_loop (d ∷ ds) k = if kind d == k then some d else by_kind_loop ds k

abbrev pub by_kind : Bytes → Option Detector
by_kind = by_kind_loop all_detectors
