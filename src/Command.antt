-- ===== src/Command.antt =====
-- cmd/buckle/main.go: the command line. What a command calls outside of this file and of the report's
-- statements is an argument, the package `flag` with a field for each flag set.
pub mod Owners
pub mod Commands
pub mod Queries
pub mod Dispatch
pub mod Usage
pub mod Untouched
pub mod Defaults
pub mod Formats
use buckle.Base.{ℕ, Bool, Bytes, List, Option}
use buckle.Base.Int.{ℤ}
use buckle.Exec.{Result, ok, err, Exec}
use buckle.Report.{Any, Field, Output}
use buckle.Report.Query.{Answered}

-- An error of a command: a `usageError`, `flag.ErrHelp` or another.
pub data Failure : Type 0 where
  usage_error : Bytes → Failure
  help_asked : Failure
  other : Bytes → Failure

pub data Answer (A : Type 0) : Type 0 where
  done : A → Answer A
  stop : Failure → Answer A

abbrev pub answer_of : {A : Type 0} → Result A → Answer A
answer_of (ok a) = done a
answer_of (err e) = stop (other e)

-- An action on the world `W`.
abbrev pub Act : Type 0 → Type 0 → Type 0
Act W A = W → Answer A × W

module _ {W A : Type 0} where
  unfoldable pub pure : A → Act W A
  pure a w = (done a, w)

  unfoldable pub fail : Failure → Act W A
  fail f w = (stop f, w)

  -- what cannot fail with a `usageError`, which is a type of this package
  unfoldable pub lift : Exec W A → Act W A
  lift m w = let (r, v) = m w in (answer_of r, v)

  unfoldable pub lift_result : Result A → Act W A
  lift_result r w = (answer_of r, w)

  -- `defer`
  unfoldable pub finally : Act W A → (W → W) → Act W A
  finally m f w = let (r, v) = m w in (r, f v)

unfoldable pub run_on : {W : Type 0} → (W → W) → Act W (Unit {0})
run_on f w = (done tt, f w)

module _ {W A B : Type 0} where
  abbrev pub after : Answer A → (A → Act W B) → Act W B
  after (done a) f w = f a w
  after (stop x) f w = (stop x, w)

  infixl 5 ◌>>=◌
  unfoldable pub ◌>>=◌ : Act W A → (A → Act W B) → Act W B
  unfolding pure fail lift lift_result finally run_on
  ◌>>=◌ m f w = let (r, v) = m w in after r f v

module _ {W B : Type 0} where
  infixl 5 ◌>>◌
  abbrev pub ◌>>◌ : Act W (Unit {0}) → Act W B → Act W B
  m >> n = m >>= λ _. n

-- The flags of each command.
pub record WatchFlags : Type 0 where
  pub buffer : ℤ
  pub db : Bytes

pub record ServeFlags : Type 0 where
  pub addr : Bytes
  pub db : Bytes
  pub refresh : ℤ

pub record ShipFlags : Type 0 where
  pub server : Bytes
  pub interval : ℤ
  pub db : Bytes

-- `queryFlags`
pub record QueryFlags : Type 0 where
  pub db : Bytes
  pub format : Bytes
  pub since : Bytes
  pub until : Bytes
  pub session : Bytes
  pub command : Bytes
  pub has_denials : Bool

pub record ReportFlags : Type 0 where
  pub query : QueryFlags
  pub by : Bytes
  pub top : ℤ

-- What `Parse` of a flag set leaves: the values, and the arguments behind the flags.
pub record Parsed (V : Type 0) : Type 0 where
  pub values : V
  pub rest : List Bytes

-- What opening a database answers; `missing` is `os.ErrNotExist`.
pub data Opened (A : Type 0) : Type 0 where
  opened : A → Opened A
  missing : Opened A
  broken : Bytes → Opened A

-- A user as `os/user` knows one.
pub record User : Type 0 where
  pub uid : Bytes
  pub gid : Bytes
  pub home : Bytes

-- `watch.Owner`
pub record Owner : Type 0 where
  pub uid : ℤ
  pub gid : ℤ
  pub home : Bytes
  pub name : Bytes

-- The process that runs the command: `os.Geteuid`, the environment's SUDO_USER, `user.Lookup`,
-- `os.UserHomeDir`, `strconv.Atoi`, and `PathForHome` of the two databases.
pub record Host : Type 0 where
  pub effective_uid : ℕ
  pub sudo_user : Bytes
  pub look_up_user : Bytes → Result User
  pub user_home : Result Bytes
  pub atoi : Bytes → Result ℤ
  pub path_for_home : Bytes → Bytes
  pub server_path_for_home : Bytes → Bytes

-- What the commands call. `S` is an open database.
pub record Outside (W S : Type 0) : Type 0 where
  pub host : Host
  pub print_out : Bytes → W → W
  pub print_err : Bytes → W → W
  pub parse_watch : List Bytes → W → Option (Result (Parsed WatchFlags)) × W
  pub parse_migrate : List Bytes → W → Option (Result (Parsed Bytes)) × W
  pub parse_serve : List Bytes → W → Option (Result (Parsed ServeFlags)) × W
  pub parse_ship : List Bytes → W → Option (Result (Parsed ShipFlags)) × W
  pub parse_query : Bytes → Bool → List Bytes → W → Option (Result (Parsed QueryFlags)) × W
  pub parse_report : List Bytes → W → Option (Result (Parsed ReportFlags)) × W
  pub quoted : Bytes → Bytes
  pub split_commas : Bytes → List Bytes
  pub now : ℤ
  pub ago : ℤ → ℤ → ℤ
  pub parse_time : Bytes → Option ℤ
  pub parse_duration : Bytes → Option ℤ
  pub duration_text : ℤ → Bytes
  pub watch_run : Bytes → Owner → ℤ → Exec W (Unit {0})
  pub migrate : Bytes → W → Opened (Bytes × Bool) × W
  pub open_read_only : Bytes → W → Opened S × W
  pub close : S → W → W
  pub db_instance : S → Exec W Bytes
  pub host_identity : Exec W (Bytes × Bytes)
  pub trim_slashes : Bytes → Bytes
  pub ship_run : S → Bytes × Bytes → Bytes → Bytes → ℤ → Exec W (Unit {0})
  pub dir_of : Bytes → Bytes
  pub dir_missing : Bytes → W → Bool
  pub mkdir_all : Bytes → Exec W (Unit {0})
  pub chown : Bytes → Owner → W → Opened (Unit {0}) × W
  pub open_server : Bytes → Exec W S
  pub split_host : Bytes → Result Bytes
  pub is_loopback : Bytes → Bool
  pub serve : S → Bytes → ℤ → Exec W (Unit {0})
  pub db : S → Bytes → List Any → Exec W Answered
  pub format_time : ℤ → Bytes
  pub run_detail : S → ℤ → Exec W (List Field)
  pub write_object : Bytes → List Field → Exec W (Unit {0})
  pub output : Output W
