-- ===== src/EsLog/Parse.antt =====
-- `Parse` of internal/eslog/event.go. json.Unmarshal into each of the source's types and the
-- RFC 3339 times of time.Parse are parameters; a pointer is an Option, a json.RawMessage its bytes.
-- The JSON integers of a token are natural numbers here.
pub mod Fields
use buckle.Base.{
  ℕ, Bool, true, false, ◌||◌, Bytes, codes, List, [], ◌∷◌, ◌++◌, Option, none, some, ◌==◌, bytes_eq,
  bytes_beq, is_empty, if◌then◌else◌, or_else, ◌≡◌, refl,
}
use buckle.Base.Int.{ℤ}
use buckle.Base.Map
use buckle.Base.Map.{Map}
use buckle.EsLog.{Token, Proc, Kind, exec, fork, exit, other, Event}

pub record RawToken : Type 0 where
  pub pid : Option ℕ
  pub pidversion : Option ℕ

pub record RawProc : Type 0 where
  pub audit_token : Option RawToken
  pub parent_audit_token : Option RawToken
  pub ppid : ℕ
  pub is_platform_binary : Bool
  pub signing_id : Option Bytes
  pub team_id : Option Bytes
  pub cdhash : Bytes
  pub executable : Option (Option Bytes)
  pub start_time : Bytes

pub record RawMsg : Type 0 where
  pub schema_version : ℤ
  pub time : Option Bytes
  pub seq : ℕ
  pub process : Bytes
  pub event : Map Bytes Bytes

pub record RawExec : Type 0 where
  pub target : Bytes
  pub args : Option (List Bytes)
  pub cwd : Option Bytes
  pub env : Bytes

-- The standard library's part, a type of the source at a time; `none` is an error.
pub record Unmarshal : Type 0 where
  pub as_msg : Bytes → Option RawMsg
  pub as_proc : Bytes → Option RawProc
  pub as_exec : Bytes → Option RawExec
  pub as_fork : Bytes → Option Bytes
  pub as_exit : Bytes → Option ℕ
  pub as_strings : Bytes → Option (List Bytes)
  pub as_time : Bytes → Option ℕ

-- A result, or an error: of json.Unmarshal, ErrSkip, or a DriftError with its field.
pub data Parsed {ℓ} (A : Type ℓ) : Type ℓ where
  unparseable : Parsed A
  skip : Parsed A
  drift : Bytes → Parsed A
  ok : A → Parsed A

infixl 5 ◌>>=◌
abbrev pub ◌>>=◌ {ℓ κ} : {A : Type ℓ} {B : Type κ} → Parsed A → (A → Parsed B) → Parsed B
unparseable >>= f = unparseable
skip >>= f = skip
drift field >>= f = drift field
ok a >>= f = f a

abbrev pub expect {ℓ} : {A : Type ℓ} → Option A → Parsed A → Parsed A
expect none e = e
expect (some a) e = ok a

-- `Kind.String`
unfoldable pub kind_name : Kind → Bytes
kind_name exec = codes "exec"
kind_name fork = codes "fork"
kind_name exit = codes "exit"
kind_name other = codes "Kind(0)"

-- the loop over the kinds
unfoldable pub pick_kind : Map Bytes Bytes → List Kind → Option (Kind × Bytes)
unfolding kind_name
pick_kind event [] = none
pick_kind event (k ∷ ks) =
    let rest = pick_kind event ks in
    elim (Map.lookup (kind_name k) event) [ none ↦ rest | some body ↦ some (k, body) ]

-- both halves of a token, or nothing
abbrev both : Option ℕ → Option ℕ → Option Token
both (some p) (some v) = some (p, v)
both _ _ = none

abbrev pub token_in : Option RawToken → Option Token
token_in none = none
token_in (some t) = both t.pid t.pidversion

abbrev pub path_in : Option (Option Bytes) → Option Bytes
path_in none = none
path_in (some p) = p

abbrev proc_of : RawProc → Token → Bytes → (Bytes → Option ℕ) → Proc
proc_of r token path as_time = record {
  token = token;
  parent = or_else (token_in r.parent_audit_token) (0, 0);
  ppid = r.ppid;
  path = path;
  is_platform = r.is_platform_binary;
  signing_id = or_else r.signing_id [];
  team_id = or_else r.team_id [];
  cdhash = r.cdhash;
  start_time = if is_empty r.start_time then 0 else or_else (as_time r.start_time) 0;
}

-- the path, which may be missing where it is not needed
abbrev pub path_or_drift : Bytes → Bool → Option Bytes → Parsed Bytes
path_or_drift field need_path (some p) = ok p
path_or_drift field true none = drift (field ++ codes ".executable.path")
path_or_drift field false none = ok []

-- an image without a path takes that of its parent
abbrev path_or : Proc → Bytes → Proc
path_or p path = if is_empty p.path then record p { path = path } else p

abbrev event_of : Kind → RawMsg → ℕ → Proc → Proc → Event
event_of kind m time process target = record {
  kind = kind;
  time = time;
  seq = m.seq;
  process = process;
  target = target;
  args = [];
  cwd = [];
  env = [];
  exit_status = 0;
  schema_version = m.schema_version;
}

abbrev zero_proc : Proc
zero_proc = record {
  token = (0, 0);
  parent = (0, 0);
  ppid = 0;
  path = [];
  is_platform = false;
  signing_id = [];
  team_id = [];
  cdhash = [];
  start_time = 0;
}

abbrev pub time_in : (Bytes → Option ℕ) → Option Bytes → Option ℕ
time_in as_time none = none
time_in as_time (some t) = as_time t

module _ (json : Unmarshal) where
  -- `decodeProc`
  unfoldable pub decode_proc : Bytes → Bytes → Bool → Parsed Proc
  unfolding bytes_beq
  decode_proc b field need_path = if is_empty b || b == codes "null" then drift field else do
    r ← expect (json.as_proc b) (drift field)
    token ← expect (token_in r.audit_token) (drift (field ++ codes ".audit_token"))
    path ← path_or_drift field need_path (path_in r.executable)
    ok (proc_of r token path json.as_time)

  abbrev pub env_of : Bytes → List Bytes
  env_of env = if is_empty env then [] else or_else (json.as_strings env) []

  -- the cases of the `switch` of `Parse`
  unfoldable pub parse_exec : Bytes → Event → Parsed Event
  unfolding decode_proc
  parse_exec body ev = do
    x ← expect (json.as_exec body) (drift (codes "event.exec"))
    target ← decode_proc x.target (codes "event.exec.target") true
    args ← expect x.args (drift (codes "event.exec.args"))
    ok (record ev { target = target; args = args; cwd = or_else x.cwd []; env = env_of x.env })

  unfoldable pub parse_fork : Bytes → Event → Parsed Event
  unfolding decode_proc
  parse_fork body ev = do
    child ← expect (json.as_fork body) (drift (codes "event.fork"))
    target ← decode_proc child (codes "event.fork.child") false
    ok (record ev { target = path_or target ev.process.path })

  unfoldable pub parse_exit : Bytes → Event → Parsed Event
  parse_exit body ev = do
    status ← expect (json.as_exit body) (drift (codes "event.exit.stat"))
    ok (record ev { exit_status = status })

  unfoldable pub parse_body : Kind → Bytes → Event → Parsed Event
  unfolding parse_exec parse_fork parse_exit
  parse_body exec body ev = parse_exec body ev
  parse_body fork body ev = parse_fork body ev
  parse_body exit body ev = parse_exit body ev
  parse_body other body ev = ok ev

  -- `Parse`
  unfoldable pub parse : Bytes → Parsed Event
  unfolding pick_kind decode_proc parse_body
  parse line = do
    m ← expect (json.as_msg line) unparseable
    picked ← expect (pick_kind m.event (exec ∷ fork ∷ exit ∷ [])) skip
    time ← expect (time_in json.as_time m.time) (drift (codes "time"))
    process ← decode_proc m.process (codes "process") true
    parse_body picked.0 picked.1 (event_of picked.0 m time process zero_proc)
