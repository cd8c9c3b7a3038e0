-- ===== src/Store/Schema.antt =====
-- internal/store/schema.go: opening and migrating the endpoint database. Of a database file only
-- what these functions ask for is modelled: its version, its rows by rowid, its revisions and its
-- instance id. What the system answers (whether statements fail, the journal mode, the files) is
-- an argument.
pub mod Migrated
use buckle.Base.{
  ℕ, ◌+◌, ◌*◌, ◌/◌, ◌%◌, Bool, true, false, not, ◌&&◌, ◌||◌, Bytes, codes, List, [], ◌∷◌, ◌++◌,
  Option, none, some, if◌then◌else◌, contains, ◌==◌, bytes_eq, bytes_beq, map, take, drop,
}
use buckle.Base.Int.{ℤ, pos, ltb_ℤ, int_eq}
use buckle.Store.Revisions.{Revs, upgrade_v2}

-- `SchemaVersion`
abbrev pub schema_version : ℤ
schema_version = pos 3

-- `v2Tables`
abbrev pub v2_tables : List Bytes
v2_tables =
    map codes
      ("watches" ∷ "sessions" ∷ "profiles" ∷ "runs" ∷ "processes" ∷ "denials" ∷ "orphans" ∷ [])

pub record Db : Type 0 where
  pub user_version : ℤ
  pub rows : List (Bytes × List ℕ)
  pub revs : Revs
  pub has_run_env : Bool
  pub db_instance : Option Bytes
  pub wal : Bool
  pub indexed : Bool

pub data MigrateError : Type 0 where
  newer_schema : ℤ → MigrateError
  unknown_schema needs_migration needs_sudo : MigrateError
  statement_failed bad_path no_file : MigrateError
  journal_mode : Bytes → MigrateError

pub data Result {ℓ} (A : Type ℓ) : Type ℓ where
  ok : A → Result A
  err : MigrateError → Result A

-- `newUUID` from sixteen random bytes: the version and the variant
abbrev version_byte : ℕ → ℕ
version_byte b = b % 16 + 64

abbrev variant_byte : ℕ → ℕ
variant_byte b = b % 64 + 128

unfoldable pub stamp_uuid : Bytes → Bytes
stamp_uuid b =
    take 6 b
    ++ (map (λ x. version_byte x) (take 1 (drop 6 b))
        ++ (take 1 (drop 7 b) ++ (map (λ x. variant_byte x) (take 1 (drop 8 b)) ++ drop 9 b)))

abbrev hex_digit : ℕ → ℕ
hex_digit d = if ltb_ℤ (pos d) (pos 10) then b'0' + d else 87 + d

unfoldable pub hex : Bytes → Bytes
hex [] = []
hex (b ∷ bs) = hex_digit (b / 16) ∷ hex_digit (b % 16) ∷ hex bs

unfoldable pub new_uuid : Bytes → Bytes
unfolding stamp_uuid hex
new_uuid random =
    let b = stamp_uuid random in
    hex (take 4 b)
    ++ (b'-'
        ∷ (hex (take 2 (drop 4 b))
            ++ (b'-'
                ∷ (hex (take 2 (drop 6 b))
                    ++ (b'-' ∷ (hex (take 2 (drop 8 b)) ++ (b'-' ∷ hex (drop 10 b))))))))

-- the schema of version 1, whose tables are empty
unfoldable pub create_v1 : Db → Db
create_v1 db = record db { rows = map (λ t. (t, [])) v2_tables }

-- `upgradeV2`
unfoldable pub upgrade_to_v2 : Bytes → Db → Db
unfolding new_uuid upgrade_v2
upgrade_to_v2 random db = record db {
  db_instance = some (new_uuid random);
  revs = upgrade_v2 0 db.rows;
}

-- `upgradeV3`
unfoldable pub upgrade_to_v3 : Db → Db
upgrade_to_v3 db = record db { has_run_env = true }

-- the transaction of `migrate`
unfoldable pub upgraded : Bytes → Db → Db
unfolding create_v1 upgrade_to_v2 upgrade_to_v3
upgraded random db =
    let v = db.user_version in
    let created = if v == pos 0 then create_v1 db else db in
    let tracked = if ltb_ℤ v (pos 2) then upgrade_to_v2 random created else created in
    record (upgrade_to_v3 tracked) { user_version = schema_version }

-- What the system does with a migration: the random bytes, whether the transaction fails, and the
-- mode that `PRAGMA journal_mode=WAL` answers.
pub record System : Type 0 where
  pub random : Bytes
  pub tx_fails : Bool
  pub mode : Bytes
  pub index_fails : Bool

-- `migrate` behind its `switch`
unfoldable pub enable_wal : System → Bool → Db → Result Bool × Db
enable_wal sys changed db =
    if not (sys.mode == codes "wal")
    then (err (journal_mode sys.mode), db)
    else if sys.index_fails
    then (err statement_failed, record db { wal = true })
    else (ok changed, record db { wal = true; indexed = true })

-- What the `switch` of `migrate` decides.
pub data Plan : Type 0 where
  keeps upgrades : Plan
  refuses : MigrateError → Plan

unfoldable pub plan : Bool → ℤ → Plan
plan allow_old v =
    if v == schema_version
    then keeps
    else if ltb_ℤ schema_version v
    then refuses (newer_schema v)
    else if ltb_ℤ v (pos 0)
    then refuses unknown_schema
    else if ltb_ℤ (pos 0) v && not allow_old
    then refuses needs_migration
    else upgrades

unfoldable pub follow : System → Plan → Db → Result Bool × Db
unfolding upgraded enable_wal
follow sys keeps db = enable_wal sys false db
follow sys upgrades db =
    if sys.tx_fails
    then (err statement_failed, db)
    else enable_wal sys true (upgraded sys.random db)
follow sys (refuses e) db = (err e, db)

-- `migrate`
unfoldable pub migrate : System → Bool → Db → Result Bool × Db
unfolding plan follow
migrate sys allow_old db = follow sys (plan allow_old db.user_version) db

-- `openWritable` and `Open`
unfoldable pub open_db : System → Bytes → Db → Result (Unit {0}) × Db
unfolding migrate contains
open_db sys path db =
    if contains path (codes "?")
    then (err bad_path, db)
    else (let (r, db') = migrate sys false db in
        (elim r [ ok changed ↦ ok tt | err e ↦ err e ], db'))

-- `DBInstance`
abbrev instance_of : Option Bytes → Result Bytes
instance_of none = err statement_failed
instance_of (some i) = ok i

abbrev with_instance : Bool → Result Bytes → Result (Bytes × Bool)
with_instance changed (ok i) = ok (i, changed)
with_instance changed (err e) = err e

abbrev report_migration : Result Bool × Db → Result (Bytes × Bool) × Db
report_migration (err e, db) = (err e, db)
report_migration (ok changed, db) = (with_instance changed (instance_of db.db_instance), db)

-- `Migrate`, on a path that exists or not
unfoldable pub migrate_file : System → Bool → Bytes → Db → Result (Bytes × Bool) × Db
unfolding migrate contains
migrate_file sys exists_file path db =
    if not exists_file
    then (err no_file, db)
    else if contains path (codes "?")
    then (err bad_path, db)
    else report_migration (migrate sys true db)

-- What `OpenReadOnly` asks of the system: whether the file is there, whether the caller is root,
-- and whether it may write the `-shm` file, where there is one.
pub record Files : Type 0 where
  pub exists_db : Bool
  pub is_root : Bool
  pub shm_writable : Bool

-- `OpenReadOnly`
unfoldable pub open_read_only : Files → Bytes → Db → Result (Unit {0})
unfolding contains
open_read_only files path db =
    if contains path (codes "?")
    then err bad_path
    else if not files.exists_db
    then err no_file
    else if not files.is_root && not files.shm_writable
    then err needs_sudo
    else if db.user_version == schema_version
    then ok tt
    else if ltb_ℤ (pos 0) db.user_version && ltb_ℤ db.user_version schema_version
    then err needs_migration
    else err (newer_schema db.user_version)
