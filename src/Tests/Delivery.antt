-- ===== src/Tests/Delivery.antt =====
-- A sync against the model of the server, and answers of its API, with theorems applied to them.
use buckle.Base.{
  ◌+◌, Bool, false, Bytes, List, [], ◌∷◌, ◌≡◌, refl, codes, arith, nat_eq, bytes_eq, pair_eq,
  bytes_beq, Bool-cases, inl, inr,
}
use buckle.Base.Int.{pos, ltb_ℤ}
use buckle.Base.Map
use buckle.Wire.{Batch}
use buckle.Wire
use buckle.ServerDb.{validate_row}
use buckle.ServerDb
use buckle.Ship.{Options, changes_since, batch_of, sync_once}
use buckle.Api.{Read, read_as, RawBatch, decoded, decode, decode_rows, ingest}
use buckle.Api
use buckle.Delivery.{Server, post, ask}
use buckle.Delivery.Complete.{Sound, Truthful, Delivers, sync_once-Delivers}
use buckle.Api.Answers.{Stores, ingest-Stores}
use buckle.Tests.Server.{greater, profile, batch, empty_db}

abbrev shipping : Options
shipping = record { host = batch.host; db_instance = batch.db_instance; interval = 10 }

abbrev no_floats : Bytes → Bool
no_floats t = false

abbrev one_row : List Wire.Row
one_row = profile ∷ []

-- How the rows of this feed look as JSON.
abbrev raw_row : Wire.Row → Api.RawRow
raw_row r = record {
  table = codes "profiles";
  row_rev = pos 5;
  raw_values =
      (codes "hash", Api.RawValue.str (codes "ab"))
      ∷ (codes "text", Api.RawValue.str (codes "(version 1)"))
      ∷ (codes "rev", Api.RawValue.number (codes "5"))
      ∷ [];
}

abbrev raw_rows : List Wire.Row → List Api.RawRow
raw_rows [] = []
raw_rows (r ∷ rs) = raw_row r ∷ raw_rows rs

abbrev sent : Batch → Read
sent b = read_as (record {
  host = b.host;
  db_instance = b.db_instance;
  schema_version = b.schema_version;
  raw_rows = raw_rows b.rows;
})

arrives_empty : decode no_floats (sent (batch_of shipping [])) ≡ decoded (batch_of shipping [])
unfolding decode batch_of
arrives_empty = refl

arrives_one :
    decode no_floats (sent (batch_of shipping one_row)) ≡ decoded (batch_of shipping one_row)
unfolding decode batch_of
arrives_one = refl

one_row-Sound : Sound no_floats sent shipping one_row
unfolding changes_since validate_row bytes_beq Map.lookup Wire.value_beq ServerDb.row_values
    Wire.key_column
one_row-Sound = record {
  arrives = λ c. elim (Bool-cases (ltb_ℤ c (pos 5))) [
    | inl e ↦ rw (changes_since, e) arrives_one
    | inr e ↦ rw (changes_since, e) arrives_empty
  ];
  has_uuid = refl;
  has_instance = refl;
  rising = ground arith;
  accepted = (refl, tt);
  announced = (refl, tt);
}

abbrev fresh : Server
fresh = record { db = empty_db; clock = 7 }

fresh-Truthful :
    Truthful greater
      (λ a b. refl)
      no_floats
      sent
      (λ t. t + 1)
      shipping
      one_row
      one_row-Sound
      empty_db
      (ServerDb.cursor empty_db (codes "h1") (codes "d1"))
unfolding ServerDb.cursor Map.lookup
fresh-Truthful = record {
  cursor_here = refl;
  none_newer = λ t k old e. ground (
    arith,
    Map.lookup-nil ServerDb.Stored ⦃e = ServerDb.row_key_eq⦄ (t, (codes "h1", (codes "d1", k))),
    e,
  );
  up_to = (λ e. ground arith, tt);
}

sync_once-Delivers_example :
    Delivers greater
      (λ a b. refl)
      no_floats
      sent
      (λ t. t + 1)
      shipping
      one_row
      one_row-Sound
      (sync_once
        (post greater no_floats sent (λ t. t + 1))
        shipping
        one_row
        2
        (ask (λ t. t + 1) shipping)
        fresh)
sync_once-Delivers_example =
    sync_once-Delivers greater (λ a b. refl) no_floats sent (λ t. t + 1) shipping one_row
      one_row-Sound 2 fresh (ground arith) fresh-Truthful

ingest-Stores_example :
    Stores greater no_floats
      (batch_of shipping one_row)
      7
      false
      empty_db
      (ingest greater no_floats (sent (batch_of shipping one_row)) 7 false empty_db)
ingest-Stores_example =
    ingest-Stores greater no_floats (sent (batch_of shipping one_row)) (batch_of shipping one_row) 7
      false empty_db arrives_one
