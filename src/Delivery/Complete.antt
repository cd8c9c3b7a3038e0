-- ===== src/Delivery/Complete.antt =====
-- `syncOnce` in internal/ship/ship.go mirrors every row on a server that works.
use buckle.Base.{
  ℕ, zero, suc, ◌+◌, ◌<◌, true, false, Bytes, List, none, some, ◌≡◌, refl, ap, ◌∙◌, subst, arith,
  All, All-take, All-imp, length, ltb, Bool, Bool-cases, inl, inr, is_empty, length-take-le,
}
use buckle.Base.Int.{ℤ, pos, negsuc, ltb_ℤ, max_ℤ}
use buckle.Wire.{Value, Row, Batch, max_rows}
use buckle.ServerDb.{
  Db, applied, refuse, validate_row, max_rev, new_sync, committed, commit, apply, cursor,
}
use buckle.ServerDb.Mirror.{HasRev, OrdersIntegers}
use buckle.Delivery.Mirrored.{
  Mirrored, Below, upsert_all-stays, upsert_all-Mirrored, upsert_all-Below,
}
use buckle.ServerDb.Resend.{max_rev-max, cursor-committed, new_sync-max}
use buckle.Ship.Enough.{page_shrinks}
use buckle.Ship.{
  Attempt, finished, answered, good, check_reply, Options, newer, changes_since, batch_of, settle,
  sync_loop, sync_once,
}
use buckle.Api.{Read, decoded, decode, ingest, ingest_decoded, answer, write_json}
use buckle.Api
use buckle.Delivery.{Server, post, ask, ingest_cursor, cursor_rev}
use buckle.Delivery.Pages.{
  newer-Above, Above-take, Above, length-newer-le, not_behind, page_covers, All-newer, All-split,
  validate_rows-All, short_page,
}

-- What `syncOnce` relies on: the batches of its feed arrive as they were sent, the feed is in the
-- order of unique revisions, and each of its rows is one that the server accepts.
pub record Sound (is_float : Bytes → Bool) (carry : Batch → Read) (o : Options) (feed : List Row)
    : Type 0 where
  pub arrives :
      (c : ℤ)
      → decode is_float (carry (batch_of o (changes_since feed c max_rows)))
        ≡ decoded (batch_of o (changes_since feed c max_rows))
  pub has_uuid : is_empty o.host.uuid ≡ false
  pub has_instance : is_empty o.db_instance ≡ false
  pub rising : Above (pos 0) feed
  pub accepted : All (λ r. validate_row r ≡ none) feed
  pub announced : All HasRev feed

not_below : (c y : ℤ) → y ≡ max_ℤ (pos 0) y → max_ℤ c y ≡ max_ℤ (max_ℤ c y) (pos 0)
not_below (pos a) (pos b) e = ground arith
not_below (negsuc a) (pos b) e = ground arith
not_below (pos a) (negsuc b) e = ground arith
not_below (negsuc a) (negsuc b) e = ground arith

module _ (gt : Value → Value → Bool) (ints : OrdersIntegers gt) (is_float : Bytes → Bool)
    (carry : Batch → Read) (later : ℕ → ℕ) (o : Options) (feed : List Row)
    (sound : Sound is_float carry o feed) where
  abbrev pub Mirrors : Db → Row → Type 0
  Mirrors db r = Mirrored o.host.uuid o.db_instance r db.mirror

  -- A server whose cursor promises no row that it lacks, and that has no row from behind it.
  pub record Truthful (db : Db) (c : ℤ) : Type 0 where
    pub cursor_here : cursor db o.host.uuid o.db_instance ≡ c
    pub none_newer : Below o.host.uuid o.db_instance (max_ℤ c (pos 0)) db.mirror
    pub up_to : All (λ r. ltb_ℤ c r.row_rev ≡ false → Mirrors db r) feed

  abbrev page : ℤ → List Row
  page c = changes_since feed c max_rows

  page-All : (P : Row → Type 0) (c : ℤ) → All P feed → All P (page c)
  unfolding changes_since
  page-All P c h = All-take P max_rows (newer c feed) (All-newer P c feed h)

  page-refuse : (c : ℤ) → refuse (batch_of o (page c)) ≡ none
  unfolding refuse batch_of changes_since
  page-refuse c =
      let valid =
        validate_rows-All 0 (page c) (page-All (λ r. validate_row r ≡ none) c sound.accepted) in
      rw (sound.has_uuid, sound.has_instance)
        (ground (arith, length-take-le max_rows (newer c feed), valid))

  -- The cursor that the server answers with.
  abbrev next_cursor : ℤ → ℤ
  next_cursor c = max_ℤ c (max_rev (pos 0) (page c))

  -- What the server holds behind a page.
  abbrev stored_page : ℤ → ℕ → Db → Db
  stored_page c now db = committed gt (batch_of o (page c)) now db

  post-applied :
      (b : Batch) (s : Server) (c : ℤ) (db' : Db)
      → decode is_float (carry b) ≡ decoded b
      → apply gt b s.clock s.db ≡ applied c db'
      → post gt is_float carry later b s
        ≡ (answered 200 (some c), record { db = db'; clock = later s.clock })
  unfolding post ingest answer write_json ingest_cursor
  post-applied b s c db' h e = rw (h, ingest_decoded, e) refl

  new_sync-page :
      (c : ℤ) (now : ℕ) (db : Db)
      → cursor db o.host.uuid o.db_instance ≡ c
      → (new_sync (batch_of o (page c)) now db).rev ≡ next_cursor c
  unfolding batch_of
  new_sync-page c now db h =
      new_sync-max (batch_of o (page c)) now db ∙ ap (λ n. max_ℤ n (max_rev (pos 0) (page c))) h

  apply-page :
      (c : ℤ) (now : ℕ) (db : Db)
      → cursor db o.host.uuid o.db_instance ≡ c
      → apply gt (batch_of o (page c)) now db ≡ applied (next_cursor c) (stored_page c now db)
  unfolding apply commit
  apply-page c now db h =
      rw (apply, page-refuse c)
        (ap (λ n. applied n (stored_page c now db)) (new_sync-page c now db h))

  -- Behind the cursor, and not below 0, the revisions of a page rise.
  page-Above : (c : ℤ) → Above (max_ℤ c (pos 0)) (page c)
  unfolding changes_since
  page-Above c =
      Above-take max_rows (max_ℤ c (pos 0)) (newer c feed)
        (newer-Above (pos 0) (max_ℤ c (pos 0)) c feed (ground arith) sound.rising)

  mirrored_page :
      (c : ℤ) (now : ℕ) (db : Db)
      → Below o.host.uuid o.db_instance (max_ℤ c (pos 0)) db.mirror
      → All (Mirrors (stored_page c now db)) (page c)
  unfolding committed batch_of
  mirrored_page c now db b =
      upsert_all-Mirrored gt ints o.host.uuid o.db_instance (page c) (max_ℤ c (pos 0)) db.mirror
        (page-All HasRev c sound.announced) (page-Above c) b

  stays_mirrored :
      (c : ℤ) (now : ℕ) (db : Db) (r : Row)
      → Below o.host.uuid o.db_instance (max_ℤ c (pos 0)) db.mirror
      → Mirrors db r
      → Mirrors (stored_page c now db) r
  unfolding committed batch_of
  stays_mirrored c now db r b k =
      upsert_all-stays gt ints o.host.uuid o.db_instance (page c) r (max_ℤ c (pos 0)) db.mirror
        (page-All HasRev c sound.announced) (page-Above c) b k

  page-Below :
      (c : ℤ) (now : ℕ) (db : Db)
      → Below o.host.uuid o.db_instance (max_ℤ c (pos 0)) db.mirror
      → Below o.host.uuid o.db_instance
          (max_ℤ (next_cursor c) (pos 0))
          (stored_page c now db).mirror
  unfolding committed batch_of
  page-Below c now db b =
      let d : max_rev (max_ℤ c (pos 0)) (page c) ≡ max_ℤ (next_cursor c) (pos 0) =
        max_rev-max (page c) c (pos 0)
        ∙ not_below c (max_rev (pos 0) (page c)) (max_rev-max (page c) (pos 0) (pos 0)) in
      subst (λ x. Below o.host.uuid o.db_instance x (stored_page c now db).mirror) d
        (upsert_all-Below gt ints o.host.uuid o.db_instance (page c) (max_ℤ c (pos 0)) db.mirror
          (page-All HasRev c sound.announced) (page-Above c) b)

  Truthful-stored_page :
      (c : ℤ) (now : ℕ) (db : Db) → Truthful db c → Truthful (stored_page c now db) (next_cursor c)
  unfolding committed batch_of changes_since
  Truthful-stored_page c now db h =
      let after = stored_page c now db in
      record {
        cursor_here =
            cursor-committed gt (batch_of o (page c)) now db ∙ new_sync-page c now db h.cursor_here;
        none_newer = page-Below c now db h.none_newer;
        up_to =
            subst (λ d. All (λ r. ltb_ℤ d r.row_rev ≡ false → Mirrors after r) feed)
              (max_rev-max (page c) c (pos 0))
              (page_covers (Mirrors after) max_rows c feed sound.rising
                (All-imp _ _ (λ r f e. stays_mirrored c now db r h.none_newer (f e)) feed h.up_to)
                (mirrored_page c now db h.none_newer));
      }

  -- What `syncOnce` is to reach: it finishes, and the server mirrors the whole feed.
  pub record Delivers (out : Attempt × Server) : Type 0 where
    pub sent : ℕ
    pub ends : out.0 ≡ finished sent
    pub mirrored : All (Mirrors out.1.db) feed

  last_page :
      (c : ℤ) (now : ℕ) (db : Db)
      → Truthful db c
      → ltb (length (page c)) max_rows ≡ true
      → All (Mirrors (stored_page c now db)) feed
  unfolding changes_since
  last_page c now db h short =
      All-split (Mirrors (stored_page c now db)) c feed
        (All-imp _ _ (λ r f e. stays_mirrored c now db r h.none_newer (f e)) feed h.up_to)
        (subst (All (Mirrors (stored_page c now db))) (short_page max_rows (newer c feed) short)
          (mirrored_page c now db h.none_newer))

  abbrev sends : ℕ → ℤ → ℕ → Server → Attempt × Server
  sends = sync_loop (post gt is_float carry later) o feed

  settle-Delivers :
      (c : ℤ) (total : ℕ) (s : Server) (more : ℤ → ℕ → Server → Attempt × Server)
      → Truthful s.db c
      → (ltb (length (page c)) max_rows ≡ false
          → (n : ℕ) (t : Server) → Truthful t.db (next_cursor c)
          → Delivers (more (next_cursor c) n t))
      → Delivers (
          settle
            (post gt is_float carry later)
            o
            feed
            (page c)
            total
            (good (next_cursor c))
            more
            (record { db = stored_page c s.clock s.db; clock = later s.clock }))
  unfolding settle
  settle-Delivers c total s more h k =
      let t : Server = record { db = stored_page c s.clock s.db; clock = later s.clock } in
      elim (Bool-cases (ltb (length (page c)) max_rows)) [
        | inl e ↦
            rw (not_behind c (page c), e)
              (record {
                sent = total + length (page c);
                ends = refl;
                mirrored = last_page c s.clock s.db h e;
              })
        | inr e ↦
            rw (not_behind c (page c), e)
              (k e (total + length (page c)) t (Truthful-stored_page c s.clock s.db h))
      ]

  sync_loop-Delivers :
      (fuel : ℕ) (c : ℤ) (total : ℕ) (s : Server)
      → length (newer c feed) < fuel
      → Truthful s.db c
      → Delivers (sends fuel c total s)
  unfolding sync_loop check_reply
  sync_loop-Delivers zero c total s h v = ground arith
  sync_loop-Delivers (suc fuel) c total s h v =
      rw
        (post-applied (batch_of o (page c)) s _ _ (sound.arrives c)
          (apply-page c s.clock s.db v.cursor_here))
        (settle-Delivers c total s (sends fuel) v λ full n t w.
          sync_loop-Delivers fuel (next_cursor c) n t
            (let p = page_shrinks c (next_cursor c) feed (not_behind c (page c)) full in
              ground arith)
            w)

  check-ask :
      (s : Server)
      → ask later o s ≡ (
        answered 200 (some (cursor s.db o.host.uuid o.db_instance)),
        record s { clock = later s.clock },
      )
  unfolding ask Api.cursor write_json cursor_rev
  check-ask s = rw (sound.has_uuid, sound.has_instance) refl

  sync_once_good :
      (fuel : ℕ) (s : Server)
      → sync_once (post gt is_float carry later) o feed fuel (ask later o) s
        ≡ sends fuel (cursor s.db o.host.uuid o.db_instance) 0 (record s { clock = later s.clock })
  unfolding sync_once check_reply
  sync_once_good fuel s = rw (sync_once, check-ask s) (rw (check-ask s) refl)

  -- A sync against a server that works finishes, and then the server holds a copy of every row of the
  -- feed under its table, database and key, each column with the row's value (a reference that the
  -- row leaves null may be kept), or a later revision of it. This is when the feed's rows are
  -- acceptable, arrive as sent and rise in revision, the server's cursor promises no row it lacks,
  -- it holds no row of the database with a revision above its cursor, and its `>` orders integers;
  -- the fuel is one more than the feed's rows.
  pub sync_once-Delivers :
      (fuel : ℕ) (s : Server)
      → length feed < fuel
      → Truthful s.db (cursor s.db o.host.uuid o.db_instance)
      → Delivers (sync_once (post gt is_float carry later) o feed fuel (ask later o) s)
  unfolding sync_once check_reply
  sync_once-Delivers fuel s h v =
      let c = cursor s.db o.host.uuid o.db_instance in
      rw (sync_once_good fuel s) (
        sync_loop-Delivers fuel c 0 (record s { clock = later s.clock })
          (let n = length-newer-le c feed in ground arith)
          (record { cursor_here = v.cursor_here; none_newer = v.none_newer; up_to = v.up_to }))
