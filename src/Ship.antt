-- ===== src/Ship.antt =====
-- internal/ship/ship.go: sending the changed rows. The HTTP client with the server behind it is the
-- parameter `post`, an action on the server's state; `feed` is the rows that Store.ChangesSince
-- reads, lowest revision first.
pub mod Backoff
pub mod Enough
use buckle.Base.{
  ℕ, zero, suc, ◌+◌, ◌*◌, min, Bool, true, false, not, ◌&&◌, Bytes, List, [], ◌∷◌, Option, none,
  some, if◌then◌else◌, ltb, leb, nat_eq, ◌==◌, length, take, is_empty, filter, or_else,
}
use buckle.Base.Int.{ℤ, pos, ltb_ℤ}
use buckle.Wire.{Row, Host, Batch, schema_version_3, max_rows}

-- What a request brings back: no answer, or a status with the revision in a body that decodes.
pub data Reply : Type 0 where
  no_answer : Reply
  answered : ℕ → Option ℤ → Reply

-- The result of `do`.
pub data Checked : Type 0 where
  good : ℤ → Checked
  refused : ℕ → Checked
  failed : Checked

-- `do`
unfoldable pub check_reply : Reply → Checked
check_reply no_answer = failed
check_reply (answered code body) =
    if leb 400 code && ltb code 500
    then refused code
    else if not (code == 200)
    then failed
    else elim body [ none ↦ failed | some n ↦ good n ]

-- How `syncOnce` ends: with the number of rows sent; a `RejectedError` has its status. `unfinished`
-- is no end of the source: the fuel ran out.
pub data Attempt : Type 0 where
  finished : ℕ → Attempt
  rejected : ℕ → ℕ → Attempt
  broken : ℕ → Attempt
  unfinished : Attempt

pub record Options : Type 0 where
  pub host : Host
  pub db_instance : Bytes
  pub interval : ℕ

-- `Store.ChangesSince` on the rows in the order of their revisions
unfoldable pub newer : ℤ → List Row → List Row
newer c feed = filter (λ r. ltb_ℤ c r.row_rev) feed

unfoldable pub changes_since : List Row → ℤ → ℕ → List Row
unfolding newer
changes_since feed c limit = take limit (newer c feed)

unfoldable pub batch_of : Options → List Row → Batch
batch_of o rows = record {
  host = o.host;
  db_instance = o.db_instance;
  schema_version = schema_version_3;
  rows = rows;
}

-- `rows[len(rows)-1].Rev`, behind the revision of a first row
abbrev pub last_rev : ℤ → List Row → ℤ
last_rev n [] = n
last_rev n (r ∷ rs) = last_rev r.row_rev rs

-- `len(rows) > 0 && ir.Cursor < rows[len(rows)-1].Rev`
unfoldable pub fell_behind : ℤ → List Row → Bool
fell_behind c [] = false
fell_behind c (r ∷ rs) = ltb_ℤ c (last_rev r.row_rev rs)

module _ {S : Type 0} (post : Batch → S → Reply × S) (o : Options) (feed : List Row) where
  -- What the loop of `syncOnce` does with the answer to a batch: it ends, or goes on by `more` from
  -- the server's cursor.
  unfoldable pub settle : List Row → ℕ → Checked → (ℤ → ℕ → S → Attempt × S) → S → Attempt × S
  unfolding fell_behind
  settle rows total (refused code) more s = (rejected total code, s)
  settle rows total failed more s = (broken total, s)
  settle rows total (good c) more s =
      if fell_behind c rows
      then (rejected (total + length rows) 200, s)
      else if ltb (length rows) max_rows
      then (finished (total + length rows), s)
      else more c (total + length rows) s

  -- the loop of `syncOnce`
  unfoldable pub sync_loop : ℕ → ℤ → ℕ → S → Attempt × S
  unfolding changes_since batch_of check_reply settle
  sync_loop zero c total s = (unfinished, s)
  sync_loop (suc fuel) c total s =
      let rows = changes_since feed c max_rows in
      let (reply, t) = post (batch_of o rows) s in
      settle rows total (check_reply reply) (sync_loop fuel) t

  -- `syncOnce`: `ask` reads the server's cursor
  unfoldable pub sync_once : ℕ → (S → Reply × S) → S → Attempt × S
  unfolding sync_loop
  sync_once fuel ask s =
      let (reply, t) = ask s in
      elim (check_reply reply) [
        | refused code ↦ (rejected 0 code, t)
        | failed ↦ (broken 0, t)
        | good c ↦ sync_loop fuel c 0 t
      ]

abbrev pub max_backoff : ℕ
max_backoff = 120_000_000_000

-- the variables of `Run`
pub record Waiting : Type 0 where
  pub wait : ℕ
  pub failing : Bool

-- the `switch` of `Run`; `none` returns
unfoldable pub after_attempt : ℕ → Attempt → Waiting → Option Waiting
after_attempt interval (rejected n code) w = none
after_attempt interval (broken n) w =
    some (record {
      wait = if w.failing then min (w.wait * 2) max_backoff else interval;
      failing = true;
    })
after_attempt interval _ w = some (record { wait = interval; failing = false })
