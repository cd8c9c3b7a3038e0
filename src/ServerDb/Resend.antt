-- ===== src/ServerDb/Resend.antt =====
-- Batches: the cursor, and what sending a batch again does.
use buckle.Base.{
  ℕ, Bool, Bytes, List, [], ◌∷◌, Option, none, some, ◌≡◌, refl, sym, ap, ◌∙◌, arith, All,
  Option-cases, inl, inr, beq_self,
}
use buckle.Base.Int.{ℤ, pos, max_ℤ, max_ℤ_assoc}
use buckle.Base.Map
use buckle.Base.Map.{Map}
use buckle.Wire.{Value, Row, Batch}
use buckle.ServerDb.{
  Db, Stored, RowKey, SyncKey, SyncRow, sync_key_eq, upsert, upsert_all, max_rev, refuse, new_sync,
  committed, commit, apply, cursor, applied, advance, rev_or_zero,
}
use buckle.ServerDb.Mirror.{
  HasRev, HasIntRevs, OrdersIntegers, Settled, upsert-Settled, Settled-upsert_self,
  upsert-HasIntRevs, Settled-upsert,
}

module _ (gt : Value → Value → Bool) (ints : OrdersIntegers gt) (host inst : Bytes) where
  pub upsert_all-HasIntRevs :
      (rs : List Row) (m : Map RowKey Stored)
      → All HasRev rs
      → HasIntRevs m
      → HasIntRevs (upsert_all gt host inst rs m)
  unfolding upsert_all
  upsert_all-HasIntRevs [] m hs v = v
  upsert_all-HasIntRevs (r ∷ rs) m hs v =
      upsert_all-HasIntRevs rs (upsert gt host inst r m) hs.1
        (upsert-HasIntRevs gt ints host inst r m hs.0 v)

  pub Settled-upsert_all :
      (rs : List Row) (r : Row) (m : Map RowKey Stored)
      → All HasRev rs
      → HasRev r
      → HasIntRevs m
      → Settled gt host inst r m
      → Settled gt host inst r (upsert_all gt host inst rs m)
  unfolding upsert_all
  Settled-upsert_all [] r m hs h v s = s
  Settled-upsert_all (r' ∷ rs) r m hs h v s =
      Settled-upsert_all rs r (upsert gt host inst r' m) hs.1 h
        (upsert-HasIntRevs gt ints host inst r' m hs.0 v)
        (Settled-upsert gt ints host inst r r' m h hs.0 v s)

  pub upsert_all-settles :
      (rs : List Row) (m : Map RowKey Stored)
      → All HasRev rs
      → HasIntRevs m
      → All (λ r. Settled gt host inst r (upsert_all gt host inst rs m)) rs
  unfolding upsert_all
  upsert_all-settles [] m hs v = tt
  upsert_all-settles (r ∷ rs) m hs v =
      let v' = upsert-HasIntRevs gt ints host inst r m hs.0 v in
      (
        Settled-upsert_all rs r (upsert gt host inst r m) hs.1 hs.0 v'
            (Settled-upsert_self gt ints host inst r m hs.0),
        upsert_all-settles rs (upsert gt host inst r m) hs.1 v',
      )

  upsert_all-Settled :
      (rs : List Row) (m : Map RowKey Stored)
      → All (λ r. Settled gt host inst r m) rs
      → upsert_all gt host inst rs m ≡ m
  unfolding upsert_all
  upsert_all-Settled [] m s = refl
  upsert_all-Settled (r ∷ rs) m s =
      rw (upsert-Settled gt host inst r m s.0) (upsert_all-Settled rs m s.1)

  pub upsert_all_twice :
      (rs : List Row) (m : Map RowKey Stored)
      → All HasRev rs
      → HasIntRevs m
      → upsert_all gt host inst rs (upsert_all gt host inst rs m) ≡ upsert_all gt host inst rs m
  upsert_all_twice rs m hs v = upsert_all-Settled rs _ (upsert_all-settles rs m hs v)

pub max_rev-max : (rs : List Row) (a b : ℤ) → max_rev (max_ℤ a b) rs ≡ max_ℤ a (max_rev b rs)
unfolding max_rev
max_rev-max [] a b = refl
max_rev-max (r ∷ rs) a b = rw (max_ℤ_assoc a b r.row_rev) (max_rev-max rs a (max_ℤ b r.row_rev))

-- What `apply` returned was committed.
pub record Committed (gt : Value → Value → Bool) (b : Batch) (now : ℕ) (db : Db) (c : ℤ) (db' : Db)
    : Type 0 where
  accepted : refuse b ≡ none
  cursor_is : c ≡ (new_sync b now db).rev
  db_is : db' ≡ committed gt b now db

apply-Committed :
    (gt : Value → Value → Bool) (b : Batch) (now : ℕ) (db db' : Db) (c : ℤ)
    → apply gt b now db ≡ applied c db'
    → Committed gt b now db c db'
unfolding apply commit
apply-Committed gt b now db db' c h = elim (Option-cases (refuse b)) [
  | inl e ↦ record { accepted = e; cursor_is = ground arith; db_is = ground arith }
  | inr (f, e) ↦ ground arith
]

pub cursor-committed :
    (gt : Value → Value → Bool) (b : Batch) (now : ℕ) (db : Db)
    → cursor (committed gt b now db) b.host.uuid b.db_instance ≡ (new_sync b now db).rev
unfolding committed cursor
cursor-committed gt b now db =
    let k : SyncKey = (b.host.uuid, b.db_instance) in
    ground (
      arith,
      Map.lookup-insert ⦃e = sync_key_eq⦄ k k (new_sync b now db) db.sync_state,
      beq_self ⦃e = sync_key_eq⦄ k,
    )

advance-max :
    (rev : ℤ) (now : ℕ) (o : Option SyncRow)
    → rev ≡ max_ℤ (pos 0) rev
    → (advance rev now o).rev ≡ max_ℤ (rev_or_zero o) rev
unfolding advance
advance-max rev now none h = h
advance-max rev now (some row) h = refl

pub new_sync-max :
    (b : Batch) (now : ℕ) (db : Db)
    → (new_sync b now db).rev ≡ max_ℤ (cursor db b.host.uuid b.db_instance) (max_rev (pos 0) b.rows)
unfolding new_sync cursor
new_sync-max b now db =
    advance-max (max_rev (pos 0) b.rows) now _ (max_rev-max b.rows (pos 0) (pos 0))

max_ℤ_absorb : (a b : ℤ) → max_ℤ (max_ℤ a b) b ≡ max_ℤ a b
max_ℤ_absorb a b = ground arith

module _ (gt : Value → Value → Bool) (b : Batch) (now : ℕ) (db db' : Db) (c : ℤ) where
  -- An accepted batch returns the cursor that is read from then on, and it is the larger of the
  -- cursor before and the highest revision in the batch.
  pub cursor-apply :
      apply gt b now db ≡ applied c db'
      → (cursor db' b.host.uuid b.db_instance ≡ c)
        × (c ≡ max_ℤ (cursor db b.host.uuid b.db_instance) (max_rev (pos 0) b.rows))
  cursor-apply h =
      let a = apply-Committed gt b now db db' c h in
      (
        rw (a.db_is) (cursor-committed gt b now db) ∙ sym a.cursor_is,
        a.cursor_is ∙ new_sync-max b now db,
      )

  -- Sending an accepted batch again is accepted, returns the same cursor, and leaves every
  -- mirrored row as it is, when the rows carry their revisions as integers, as do the stored rows,
  -- and the database's `>` orders integers.
  pub apply_twice :
      (later : ℕ)
      → OrdersIntegers gt
      → All HasRev b.rows
      → HasIntRevs db.mirror
      → apply gt b now db ≡ applied c db'
      → (db'' : Db) × (apply gt b later db' ≡ applied c db'') × (db''.mirror ≡ db'.mirror)
  unfolding apply commit committed
  apply_twice later ints hs v h =
      let a = apply-Committed gt b now db db' c h in
      let both = cursor-apply h in
      (
        committed gt b later db',
        rw (a.accepted, apply)
            (ap (λ n. applied n (committed gt b later db'))
              (new_sync-max b later db'
                ∙ ap (λ n. max_ℤ n (max_rev (pos 0) b.rows)) (both.0 ∙ both.1)
                ∙ max_ℤ_absorb (cursor db b.host.uuid b.db_instance) (max_rev (pos 0) b.rows)
                ∙ sym both.1)),
        rw (a.db_is) (upsert_all_twice gt ints b.host.uuid b.db_instance b.rows db.mirror hs v),
      )
