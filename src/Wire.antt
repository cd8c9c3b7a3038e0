-- ===== src/Wire.antt =====
-- internal/wire/wire.go: the rows that `buckle ship` sends. JSON decoding is the standard library's;
-- `Row` and `Batch` are what it yields.
use buckle.Base.{
  ℕ, Bool, true, false, Bytes, codes, List, [], ◌∷◌, ◌||◌, Option, none, some, ◌==◌, nat_eq,
  bytes_eq, bytes_beq, bytes_beq_iff, ◌≡◌, ◌↔◌, arith, if◌then◌else◌, Eq, map,
}
use buckle.Base.Int.{ℤ, pos, int_eq, int_beq, int_beq_iff}
use buckle.Base.Map.{Map}

-- `SchemaVersion` and `MaxRows`
abbrev pub schema_version_3 : ℤ
schema_version_3 = pos 3

abbrev pub max_rows : ℕ
max_rows = 1000

-- `Columns`, in the order of `Tables`
abbrev pub columns : List (Bytes × List Bytes)
columns =
    (
      codes "watches",
      map codes (
          "id" ∷ "started_at" ∷ "ended_at" ∷ "end_reason" ∷ "os_version" ∷ "buffer_ns" ∷ "rev"
          ∷ []),
    )
    ∷ (
      codes "sessions",
      map codes ("id" ∷ "kind" ∷ "key" ∷ "first_seen" ∷ "last_seen" ∷ "rev" ∷ []),
    )
    ∷ (codes "profiles", map codes ("hash" ∷ "text" ∷ "rev" ∷ []))
    ∷ (
      codes "runs",
      map codes (
          "id" ∷ "watch_id" ∷ "kind" ∷ "parent_run_id" ∷ "session_id" ∷ "tag" ∷ "tag_command"
          ∷ "started_at" ∷ "ended_at" ∷ "status" ∷ "started_before_watch" ∷ "profile_source"
          ∷ "profile_hash" ∷ "profile_path" ∷ "profile_name" ∷ "profile_error" ∷ "params_json"
          ∷ "extra_json" ∷ "command_json" ∷ "cwd" ∷ "rev" ∷ []),
    )
    ∷ (codes "run_env", map codes ("id" ∷ "run_id" ∷ "name" ∷ "value" ∷ "rev" ∷ []))
    ∷ (
      codes "processes",
      map codes (
          "id" ∷ "run_id" ∷ "pid" ∷ "pidversion" ∷ "parent_process_id" ∷ "exec_prev_process_id"
          ∷ "ppid" ∷ "path" ∷ "args_json" ∷ "is_platform_binary" ∷ "signing_id" ∷ "team_id"
          ∷ "cdhash" ∷ "started_at" ∷ "ended_at" ∷ "end_reason" ∷ "exit_status" ∷ "rev" ∷ []),
    )
    ∷ (
      codes "denials",
      map codes (
          "id" ∷ "run_id" ∷ "process_id" ∷ "time" ∷ "process_name" ∷ "pid" ∷ "operation" ∷ "target"
          ∷ "message" ∷ "count" ∷ "rev" ∷ []),
    )
    ∷ (
      codes "orphans",
      map codes (
          "id" ∷ "watch_id" ∷ "time" ∷ "process_name" ∷ "pid" ∷ "operation" ∷ "target" ∷ "message"
          ∷ "count" ∷ "last_path" ∷ "last_pidversion" ∷ "rev" ∷ []),
    )
    ∷ []

-- `Columns[t]`
unfoldable pub columns_in : List (Bytes × List Bytes) → Bytes → Option (List Bytes)
columns_in [] t = none
columns_in ((name, cols) ∷ rest) t = if name == t then some cols else columns_in rest t

unfoldable pub columns_of : Bytes → Option (List Bytes)
unfolding columns_in
columns_of = columns_in columns

-- `References[c]`
unfoldable pub is_reference : Bytes → Bool
is_reference c =
    c == codes "parent_run_id"
    || c == codes "session_id"
    || c == codes "parent_process_id"
    || c == codes "exec_prev_process_id"
    || c == codes "profile_hash"

-- `Key`
unfoldable pub key_column : Bytes → Bytes
key_column t = if t == codes "profiles" then codes "hash" else codes "id"

-- A decoded JSON value: `int` for integral numbers, `float` with its text for the others, and
-- `compound` for arrays and objects.
pub data Value : Type 0 where
  null : Value
  str : Bytes → Value
  int : ℤ → Value
  float : Bytes → Value
  bool : Bool → Value
  compound : Value

unfoldable pub bool_beq : Bool → Bool → Bool
bool_beq true b = b
bool_beq false true = false
bool_beq false false = true

unfoldable pub value_beq : Value → Value → Bool
unfolding bool_beq
value_beq null null = true
value_beq (str a) (str b) = bytes_beq a b
value_beq (int a) (int b) = int_beq a b
value_beq (float a) (float b) = bytes_beq a b
value_beq (bool a) (bool b) = bool_beq a b
value_beq compound compound = true
value_beq _ _ = false

pub value_beq_iff : (a b : Value) → (value_beq a b ≡ true) ↔ (a ≡ b)
unfolding value_beq
value_beq_iff null b = ground arith
value_beq_iff (str a) (str b) = ground (arith, bytes_beq_iff a b)
value_beq_iff (int a) (int b) = ground (arith, int_beq_iff a b)
value_beq_iff (float a) (float b) = ground (arith, bytes_beq_iff a b)
value_beq_iff _ _ = ground arith

instance abbrev pub value_eq : Eq Value
value_eq = record { beq = value_beq; beq_iff = value_beq_iff }

-- `Row`
pub record Row : Type 0 where
  pub table : Bytes
  pub row_rev : ℤ
  pub values : Map Bytes Value

pub record Host : Type 0 where
  pub uuid : Bytes
  pub host_name : Bytes

-- `Batch`
pub record Batch : Type 0 where
  pub host : Host
  pub db_instance : Bytes
  pub schema_version : ℤ
  pub rows : List Row
