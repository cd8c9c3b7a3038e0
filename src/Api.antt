-- ===== src/Api.antt =====
-- internal/server/api.go with the `Decode` of internal/wire/wire.go: what the server answers to a
-- request. JSON decoding behind the limit on the body is the parameter `read`, as is the test
-- whether a number's text is a float64. A database that fails, and rolls back, is an argument.
pub mod Answers
use buckle.Base.{
  ℕ, Bool, true, false, ◌||◌, Bytes, List, [], ◌∷◌, Option, none, some, if◌then◌else◌, is_empty,
}
use buckle.Base.Int.{ℤ}
use buckle.Base.Map.{Map}
use buckle.Base.Number.{parse_int}
use buckle.Base.Chain.{◌>>=◌}
use buckle.Wire.{Value, Row, Host, Batch}
use buckle.ServerDb.{Db, Failure, bad_schema_version, Outcome, refused, applied, apply}
use buckle.ServerDb

-- A JSON value under `UseNumber`.
pub data RawValue : Type 0 where
  null : RawValue
  str : Bytes → RawValue
  number : Bytes → RawValue
  bool : Bool → RawValue
  compound : RawValue

pub record RawRow : Type 0 where
  pub table : Bytes
  pub row_rev : ℤ
  pub raw_values : Map Bytes RawValue

pub record RawBatch : Type 0 where
  pub host : Host
  pub db_instance : Bytes
  pub schema_version : ℤ
  pub raw_rows : List RawRow

-- What `dec.Decode` makes of a body that `http.MaxBytesReader` limits.
pub data Read : Type 0 where
  over_limit : Read
  no_json : Read
  read_as : RawBatch → Read

pub data Decoded : Type 0 where
  too_large : Decoded
  malformed : Decoded
  decoded : Batch → Decoded

-- The response's body: a CursorResponse, an IngestResponse, or the cause of an ErrorResponse.
pub data Problem : Type 0 where
  missing_query body_too_large malformed_batch wrong_version internal : Problem
  invalid : Failure → Problem

pub data Body : Type 0 where
  rev_is : ℤ → Body
  cursor_is : ℤ → Body
  error_is : Problem → Body

pub record Response : Type 0 where
  pub status : ℕ
  pub body : Body

unfoldable pub write_json : ℕ → Body → Response
write_json status body = record { status = status; body = body }

unfoldable pub write_error : ℕ → Problem → Response
unfolding write_json
write_error status p = write_json status (error_is p)

module _ (is_float : Bytes → Bool) where
  -- one value in the loops of `Decode`
  unfoldable pub decode_value : RawValue → Option Value
  unfolding parse_int
  decode_value RawValue.null = some Value.null
  decode_value (RawValue.str t) = some (Value.str t)
  decode_value (RawValue.bool b) = some (Value.bool b)
  decode_value RawValue.compound = some Value.compound
  decode_value (RawValue.number t) = elim (parse_int t) [
    | some n ↦ some (Value.int n)
    | none ↦ if is_float t then some (Value.float t) else none
  ]

  unfoldable pub decode_values : Map Bytes RawValue → Option (Map Bytes Value)
  unfolding decode_value
  decode_values [] = some []
  decode_values ((k, v) ∷ m) = do w ← decode_value v; rest ← decode_values m; some ((k, w) ∷ rest)

  unfoldable pub decode_rows : List RawRow → Option (List Row)
  unfolding decode_values
  decode_rows [] = some []
  decode_rows (r ∷ rs) = do
    values ← decode_values r.raw_values
    rest ← decode_rows rs
    some (record { table = r.table; row_rev = r.row_rev; values = values } ∷ rest)

  abbrev with_rows : RawBatch → Option (List Row) → Decoded
  with_rows b none = malformed
  with_rows b (some rows) = decoded (record {
    host = b.host;
    db_instance = b.db_instance;
    schema_version = b.schema_version;
    rows = rows;
  })

  -- `Decode`
  unfoldable pub decode : Read → Decoded
  unfolding decode_rows
  decode over_limit = too_large
  decode no_json = malformed
  decode (read_as b) = with_rows b (decode_rows b.raw_rows)

-- `cursor`: `failing` is an error of the database
unfoldable pub cursor : Bytes → Bytes → Bool → Db → Response
unfolding write_error ServerDb.cursor
cursor host inst failing db =
    if is_empty host || is_empty inst
    then write_error 400 missing_query
    else if failing
    then write_error 500 internal
    else write_json 200 (rev_is (ServerDb.cursor db host inst))

-- the `switch` of `ingest` on the result of `Apply`
unfoldable pub answer : Outcome → Bool → Db → Response × Db
unfolding write_error
answer (refused bad_schema_version) failing db = (write_error 409 wrong_version, db)
answer (refused f) failing db = (write_error 400 (invalid f), db)
answer (applied cur db') failing db =
    if failing then (write_error 500 internal, db) else (write_json 200 (cursor_is cur), db')

module _ (gt : Value → Value → Bool) (is_float : Bytes → Bool) where
  abbrev pub ingest_decoded : Decoded → ℕ → Bool → Db → Response × Db
  ingest_decoded too_large now failing db = (write_error 413 body_too_large, db)
  ingest_decoded malformed now failing db = (write_error 400 malformed_batch, db)
  ingest_decoded (decoded b) now failing db = answer (apply gt b now db) failing db

  -- `ingest`
  unfoldable pub ingest : Read → ℕ → Bool → Db → Response × Db
  unfolding decode write_error answer apply
  ingest body now failing db = ingest_decoded (decode is_float body) now failing db
