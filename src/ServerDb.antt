-- ===== src/ServerDb.antt =====
-- internal/serverdb/ingest.go: what the server does with a batch. SQLite executes the upserts; its
-- comparison `>` of two stored values is the parameter `gt`. A statement that fails in the database
-- itself rolls the whole batch back and is not modelled.
pub mod Mirror
pub mod Resend
use buckle.Base.{
  ℕ, Bool, true, false, not, ◌||◌, Bytes, codes, List, [], ◌∷◌, Option, none, some, ◌==◌, bytes_eq,
  pair_eq, bytes_beq, if◌then◌else◌, Eq, ltb, length, is_empty, is_some,
}
use buckle.Base.Int.{ℤ, pos, max_ℤ, int_eq}
use buckle.Base.Map
use buckle.Base.Map.{Map}
use buckle.Wire.{
  Value, null, str, int, float, bool, compound, value_eq, Row, Host, Batch, columns_of, key_column,
  is_reference, schema_version_3, max_rows,
}

-- The reasons of a `ValidationError`.
pub data Refusal : Type 0 where
  unknown_table unsupported_value unknown_column null_key rev_mismatch : Refusal
  missing_column : Bytes → Refusal

pub data Failure : Type 0 where
  bad_schema_version missing_identity too_many_rows : Failure
  bad_row : ℕ → Refusal → Failure

abbrev pub value_or_null : Option Value → Value
value_or_null none = null
value_or_null (some v) = v

-- `r.Data[c]`
abbrev pub get : Map Bytes Value → Bytes → Value
get m c = value_or_null (Map.lookup c m)

unfoldable pub missing : Map Bytes Value → List Bytes → Option Refusal
missing m [] = none
missing m (c ∷ cs) = if is_some (Map.lookup c m) then missing m cs else some (missing_column c)

unfoldable pub has_name : List Bytes → Bytes → Bool
has_name [] c = false
has_name (n ∷ ns) c = n == c || has_name ns c

abbrev is_scalar : Value → Bool
is_scalar compound = false
is_scalar _ = true

-- the loop over `r.Data`, in the order of the map
unfoldable pub bad_entry : List Bytes → Map Bytes Value → Option Refusal
unfolding has_name
bad_entry cols [] = none
bad_entry cols ((c, v) ∷ m) =
    if not (has_name cols c)
    then some unknown_column
    else if not (is_scalar v)
    then some unsupported_value
    else bad_entry cols m

-- `rev, _ := v.(int64)`
abbrev pub int_or_zero : Value → ℤ
int_or_zero (int n) = n
int_or_zero _ = pos 0

abbrev first_of_two : Option Refusal → Option Refusal → Option Refusal
first_of_two (some r) o = some r
first_of_two none o = o

-- the checks of `validateRow` behind the table's; `none` accepts
unfoldable pub validate_columns : Row → List Bytes → Option Refusal
unfolding missing bad_entry
validate_columns r cols = first_of_two (missing r.values cols) (
    first_of_two (bad_entry cols r.values) (
      if get r.values (key_column r.table) == null
      then some null_key
      else if not (int_or_zero (get r.values (codes "rev")) == r.row_rev)
      then some rev_mismatch
      else none))

-- `validateRow`
unfoldable pub validate_row : Row → Option Refusal
unfolding validate_columns columns_of
validate_row r = elim (columns_of r.table) [
  | none ↦ some unknown_table
  | some cols ↦ validate_columns r cols
]

-- the loop over the batch's rows; `i` counts them
unfoldable pub validate_rows : ℕ → List Row → Option Failure
validate_rows i [] = none
validate_rows i (r ∷ rs) =
    let rest = validate_rows (ℕ.suc i) rs in
    elim (validate_row r) [ none ↦ rest | some e ↦ some (bad_row i e) ]

-- A mirrored row: its value in each column.
abbrev pub Stored : Type 0
Stored = Bytes → Value

-- A database's key in `sync_state`: its host and instance.
abbrev pub SyncKey : Type 0
SyncKey = Bytes × Bytes

instance unfoldable pub sync_key_eq : Eq SyncKey
sync_key_eq = pair_eq

-- A row's primary key: its table, host, database instance, and local key.
abbrev pub RowKey : Type 0
RowKey = Bytes × (Bytes × (Bytes × Value))

instance unfoldable pub row_key_eq : Eq RowKey
row_key_eq = pair_eq

pub record HostRow : Type 0 where
  pub name : Bytes
  pub first_seen : ℕ
  pub last_report_at : ℕ

pub record SyncRow : Type 0 where
  pub rev : ℤ
  pub updated_at : ℕ

pub record Db : Type 0 where
  pub mirror : Map RowKey Stored
  pub hosts : Map Bytes HostRow
  pub sync_state : Map SyncKey SyncRow

abbrev pub bool_to_int : Value → Value
bool_to_int (bool true) = int (pos 1)
bool_to_int (bool false) = int (pos 0)
bool_to_int v = v

-- the arguments of the upsert, by column
unfoldable pub row_values : Row → Stored
row_values r c = bool_to_int (get r.values c)

abbrev pub coalesce : Value → Value → Value
coalesce null v = v
coalesce u v = u

-- the `SET` list of the upsert: the key stays, references keep their value where the new one is
-- null, and all else is overwritten
unfoldable pub merge : Bytes → Stored → Stored → Stored
unfolding is_reference
merge key new old c =
    if c == key then old c else if is_reference c then coalesce (new c) (old c) else new c

unfoldable pub row_key : Bytes → Bytes → Row → RowKey
unfolding row_values key_column
row_key host inst r = (r.table, (host, (inst, row_values r (key_column r.table))))

abbrev pub rev_column : Bytes
rev_column = codes "rev"

module _ (gt : Value → Value → Bool) where
  -- one row's upsert
  unfoldable pub upsert : Bytes → Bytes → Row → Map RowKey Stored → Map RowKey Stored
  unfolding row_key merge
  upsert host inst r m =
      let k = row_key host inst r in
      elim (Map.lookup ⦃e = row_key_eq⦄ k m) [
        | none ↦ Map.insert ⦃e = row_key_eq⦄ k (row_values r) m
        | some old ↦
            if gt (row_values r rev_column) (old rev_column)
            then Map.insert ⦃e = row_key_eq⦄ k (merge (key_column r.table) (row_values r) old) m
            else m
      ]

  unfoldable pub upsert_all : Bytes → Bytes → List Row → Map RowKey Stored → Map RowKey Stored
  unfolding upsert
  upsert_all host inst [] m = m
  upsert_all host inst (r ∷ rs) m = upsert_all host inst rs (upsert host inst r m)

-- `maxRev` behind the loop
unfoldable pub max_rev : ℤ → List Row → ℤ
max_rev acc [] = acc
max_rev acc (r ∷ rs) = max_rev (max_ℤ acc r.row_rev) rs

unfoldable pub touch_host : Host → ℕ → Map Bytes HostRow → Map Bytes HostRow
touch_host h now m =
    Map.insert h.uuid
      (elim (Map.lookup h.uuid m) [
        | none ↦ record { name = h.host_name; first_seen = now; last_report_at = now }
        | some old ↦ record old { name = h.host_name; last_report_at = now }
      ])
      m

unfoldable pub advance : ℤ → ℕ → Option SyncRow → SyncRow
advance rev now none = record { rev = rev; updated_at = now }
advance rev now (some old) = record { rev = max_ℤ old.rev rev; updated_at = now }

-- the checks of `Apply` before its transaction
unfoldable pub refuse : Batch → Option Failure
unfolding validate_rows
refuse b =
    if not (b.schema_version == schema_version_3)
    then some bad_schema_version
    else if is_empty b.host.uuid || is_empty b.db_instance
    then some missing_identity
    else if ltb max_rows (length b.rows)
    then some too_many_rows
    else validate_rows 0 b.rows

pub data Outcome : Type 0 where
  refused : Failure → Outcome
  applied : ℤ → Db → Outcome

-- the sync row that the transaction of `Apply` leaves for the batch's database
unfoldable pub new_sync : Batch → ℕ → Db → SyncRow
unfolding max_rev advance
new_sync b now db =
    advance (max_rev (pos 0) b.rows) now
      (Map.lookup ⦃e = sync_key_eq⦄ (b.host.uuid, b.db_instance) db.sync_state)

-- the database behind the transaction
unfoldable pub committed : (Value → Value → Bool) → Batch → ℕ → Db → Db
unfolding upsert_all touch_host new_sync
committed gt b now db = record {
  mirror = upsert_all gt b.host.uuid b.db_instance b.rows db.mirror;
  hosts = touch_host b.host now db.hosts;
  sync_state =
      Map.insert ⦃e = sync_key_eq⦄ (b.host.uuid, b.db_instance) (new_sync b now db) db.sync_state;
}

-- the transaction of `Apply`: the cursor that it reads back is that of the row it has just written
unfoldable pub commit : (Value → Value → Bool) → Batch → ℕ → Db → Outcome
unfolding committed
commit gt b now db = applied (new_sync b now db).rev (committed gt b now db)

-- `Apply`
unfoldable pub apply : (Value → Value → Bool) → Batch → ℕ → Db → Outcome
unfolding refuse commit
apply gt b now db = elim (refuse b) [ some e ↦ refused e | none ↦ commit gt b now db ]

abbrev pub rev_or_zero : Option SyncRow → ℤ
rev_or_zero none = pos 0
rev_or_zero (some row) = row.rev

-- `Cursor`
unfoldable pub cursor : Db → Bytes → Bytes → ℤ
cursor db host inst = rev_or_zero (Map.lookup ⦃e = sync_key_eq⦄ (host, inst) db.sync_state)
