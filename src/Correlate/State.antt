-- ===== src/Correlate/State.antt =====
-- The types of internal/correlate/correlator.go. Images and runs are objects that others point to:
-- they live in the lists `images` and `runs`, and a pointer is an index. A pending denial is
-- pointed to by `last_pending` alone, and lives in the list of its pid with its own `ref`.
use buckle.Base.{
  or_else, ℕ, Bool, false, Bytes, List, [], Option, none, get_elem?, set, nat_eq, bytes_eq, pair_eq,
}
use buckle.Base.Map
use buckle.Base.Map.{Map}
use buckle.Exec.{Exec, Result}
use buckle.EsLog.{Token, Proc}
use buckle.ULog.{Denial}
use buckle.Rows.{RunKind, EndReason, sandbox_exec}

abbrev pub DenialKey : Type 0
DenialKey = ℕ × (Bytes × Bytes)

-- One process image.
pub record Image : Type 0 where
  pub proc : Proc
  pub args : List Bytes
  pub cwd : Bytes
  pub exec_seen : Bool
  pub no_token : Bool
  pub parent : Option ℕ
  pub prev : Option ℕ
  pub start : ℕ
  pub ended_at : Option ℕ
  pub end_reason : Option EndReason
  pub exit_status : Option ℕ
  pub run : Option ℕ
  pub row_id : ℕ
  pub denial_keys : List DenialKey

-- `run`
pub record RunState : Type 0 where
  pub id : ℕ
  pub kind : RunKind
  pub live : List ℕ
  pub last_end : ℕ
  pub has_session : Bool
  pub ended : Bool

-- `pending`
pub record Pending : Type 0 where
  pub ref : ℕ
  pub d : Denial
  pub count : ℕ
  pub arrived : ℕ

pub record SeenInfo : Type 0 where
  pub path : Bytes
  pub pidversion : ℕ

pub record StoredDenial : Type 0 where
  pub id : ℕ
  pub img : ℕ

-- What `Deps.Warn` is called with.
pub data Warning : Type 0 where
  eslogger_behind : Warning
  entitlement_failed : Bytes → Bytes → Warning

pub record Config : Type 0 where
  pub watch_id : ℕ
  pub buffer : ℕ

-- `Deps`, with the standard library's `filepath.Join` and base64 decoding beside them.
pub record Deps : Type 0 where
  pub read_file : Bytes → Result Bytes
  pub entitlements : Option (Bytes → Bytes → Result Bool)
  pub join_path : Bytes → Bytes → Bytes
  pub decode : Bytes → Option Bytes

-- `Correlator`
pub record State (D : Type 0) : Type 0 where
  pub cfg : Config
  pub images : List Image
  pub runs : List RunState
  pub next_ref : ℕ
  pub watermark : ℕ
  pub by_token : Map Token ℕ
  pub by_pid : Map ℕ (List ℕ)
  pub seen : Map ℕ SeenInfo
  pub adopted : Map Bytes ℕ
  pub pending_by_pid : Map ℕ (List Pending)
  pub last_pending : Map DenialKey ℕ
  pub last_stored : Map DenialKey StoredDenial
  pub last_orphan : Map DenialKey ℕ
  pub orphan_keys : Map ℕ (List DenialKey)
  pub ent_cache : Map Bytes Bool
  pub warnings : List Warning
  pub db : D

abbrev pub time_slack : ℕ
time_slack = 5_000_000

abbrev pub min_retention : ℕ
min_retention = 30_000_000_000

abbrev pub lag_cap_factor : ℕ
lag_cap_factor = 10

abbrev pub zero_proc : Proc
zero_proc = record {
  token = (0, 0);
  parent = (0, 0);
  ppid = 0;
  path = [];
  is_platform = false;
  signing_id = [];
  team_id = [];
  cdhash = [];
  start_time = 0;
}

-- The zero value of `image`, which no pointer of a reachable state leads to.
abbrev pub zero_image : Image
zero_image = record {
  proc = zero_proc;
  args = [];
  cwd = [];
  exec_seen = false;
  no_token = false;
  parent = none;
  prev = none;
  start = 0;
  ended_at = none;
  end_reason = none;
  exit_status = none;
  run = none;
  row_id = 0;
  denial_keys = [];
}

abbrev pub zero_run : RunState
zero_run = record {
  id = 0;
  kind = sandbox_exec;
  live = [];
  last_end = 0;
  has_session = false;
  ended = false;
}

abbrev pub key_of : Denial → DenialKey
key_of d = (d.pid, (d.operation, d.target))

module _ {D : Type 0} where
  -- Reads through a pointer.
  unfoldable pub image : State D → ℕ → Image
  image s a = or_else (get_elem? s.images a) zero_image

  unfoldable pub run_at : State D → ℕ → RunState
  run_at s r = or_else (get_elem? s.runs r) zero_run

  unfoldable pub pids_images : State D → ℕ → List ℕ
  pids_images s pid = or_else (Map.lookup pid s.by_pid) []

  unfoldable pub pendings : State D → ℕ → List Pending
  pendings s pid = or_else (Map.lookup pid s.pending_by_pid) []

  -- Writes through a pointer.
  unfoldable pub put_image : ℕ → (Image → Image) → State D → State D
  unfolding image
  put_image a f s = record s { images = set s.images a (f (image s a)) }

  unfoldable pub put_run : ℕ → (RunState → RunState) → State D → State D
  unfolding run_at
  put_run r f s = record s { runs = set s.runs r (f (run_at s r)) }

  -- A call of the sink.
  abbrev move_db {ℓ} : {A : Type ℓ} → State D → Result A × D → Result A × State D
  move_db s (r, db') = (r, record s { db = db' })

  unfoldable pub call {ℓ} : {A : Type ℓ} → Exec D A → Exec (State D) A
  call m s = move_db s (m s.db)

-- `New`
abbrev pub new : {D : Type 0} → Config → D → State D
new cfg db = record {
  cfg = cfg;
  images = [];
  runs = [];
  next_ref = 0;
  watermark = 0;
  by_token = [];
  by_pid = [];
  seen = [];
  adopted = [];
  pending_by_pid = [];
  last_pending = [];
  last_stored = [];
  last_orphan = [];
  orphan_keys = [];
  ent_cache = [];
  warnings = [];
  db = db;
}
