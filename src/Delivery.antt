-- ===== src/Delivery.antt =====
-- internal/ship/ship.go against internal/server/api.go: the server of the model behind the client's
-- HTTP connection. The connection, json.Marshal and the reading of the body are the parameter
-- `carry`.
pub mod Pages
pub mod Mirrored
pub mod Complete
use buckle.Base.{ℕ, Bool, true, false, Bytes, List, Option, none, some}
use buckle.Base.Int.{ℤ, pos}
use buckle.Wire.{Value, Row, Batch}
use buckle.ServerDb.{Db}
use buckle.Ship.{Reply, answered, Options}
use buckle.Api.{Read, Response, Body, rev_is, cursor_is, ingest, cursor}

-- `json.Unmarshal(body, out)`: a field that the body lacks stays 0
unfoldable pub ingest_cursor : Body → ℤ
ingest_cursor (cursor_is n) = n
ingest_cursor _ = pos 0

unfoldable pub cursor_rev : Body → ℤ
cursor_rev (rev_is n) = n
cursor_rev _ = pos 0

-- The server between two requests: its database, and the time of the next request.
pub record Server : Type 0 where
  pub db : Db
  pub clock : ℕ

module _ (gt : Value → Value → Bool) (is_float : Bytes → Bool) (carry : Batch → Read)
    (later : ℕ → ℕ) where
  -- The POST of `syncOnce` to a server whose database works.
  unfoldable pub post : Batch → Server → Reply × Server
  unfolding ingest ingest_cursor
  post b s =
      let (r, db') = ingest gt is_float (carry b) s.clock false s.db in
      (answered r.status (some (ingest_cursor r.body)), record { db = db'; clock = later s.clock })

-- The GET of `syncOnce`.
unfoldable pub ask : (ℕ → ℕ) → Options → Server → Reply × Server
unfolding cursor cursor_rev
ask later o s =
    let r = cursor o.host.uuid o.db_instance false s.db in
    (answered r.status (some (cursor_rev r.body)), record s { clock = later s.clock })
