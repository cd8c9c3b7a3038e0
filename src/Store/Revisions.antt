-- ===== src/Store/Revisions.antt =====
-- The revisions of internal/store/schema.go: what the triggers give to changed rows, and what
-- `upgradeV2` gives to the rows of an older database. A row is known by its table and rowid.
pub mod Upgraded
pub mod Since
use buckle.Base.{
  ℕ, zero, suc, ◌+◌, ◌≤◌, ◌<◌, max, Bool, true, false, Bytes, List, [], ◌∷◌, ◌++◌, Option, none,
  some, if◌then◌else◌, is_some, ◌≡◌, ◌≢◌, refl, sym, arith, All, All-imp, All-append, ◌==◌, nat_eq,
  bytes_eq, pair_eq, Bool-cases, inl, inr,
}
use buckle.Base.Map
use buckle.Base.Map.{Map}

abbrev pub RowId : Type 0
RowId = Bytes × ℕ

-- `rev_counter`, and the `rev` of every row.
pub record Revs : Type 0 where
  pub counter : ℕ
  pub revs : Map RowId ℕ

pub data Statement : Type 0 where
  inserts updates deletes : RowId → Statement

-- the body of both triggers
unfoldable pub stamp : RowId → Revs → Revs
unfolding Map.insert
stamp k db = record { counter = db.counter + 1; revs = Map.insert k (db.counter + 1) db.revs }

-- A statement of the store with its triggers. An update changes other columns than `rev`, so the
-- guard of the second trigger holds; one of a missing row changes nothing.
unfoldable pub execute : Statement → Revs → Revs
unfolding stamp Map.lookup Map.delete
execute (inserts k) db = stamp k db
execute (updates k) db = if is_some (Map.lookup k db.revs) then stamp k db else db
execute (deletes k) db = record db { revs = Map.delete k db.revs }

unfoldable pub execute_all : List Statement → Revs → Revs
unfolding execute
execute_all [] db = db
execute_all (s ∷ ss) db = execute_all ss (execute s db)

-- `max(rowid)`, 0 for an empty table
unfoldable pub max_rowid : List ℕ → ℕ
max_rowid [] = 0
max_rowid (r ∷ rs) = max r (max_rowid rs)

-- `UPDATE t SET rev = rowid + ?`
unfoldable pub backfill : Bytes → ℕ → List ℕ → Map RowId ℕ
backfill t offset [] = []
backfill t offset (r ∷ rs) = ((t, r), r + offset) ∷ backfill t offset rs

-- the loop of `upgradeV2` over its tables, and the counter that it leaves
unfoldable pub upgrade_v2 : ℕ → List (Bytes × List ℕ) → Revs
unfolding max_rowid backfill
upgrade_v2 offset [] = record { counter = offset; revs = [] }
upgrade_v2 offset ((t, rows) ∷ tables) =
    let rest = upgrade_v2 (offset + max_rowid rows) tables in
    record rest { revs = backfill t offset rows ++ rest.revs }

abbrev pub Entries : Type 0
Entries = List (RowId × ℕ)

-- No two rows share a revision, and none is above the counter.
abbrev pub Distinct : Entries → Type 0
Distinct [] = Unit
Distinct (e ∷ es) = All (λ f. e.1 ≢ f.1) es × Distinct es

pub record Stamped (db : Revs) : Type 0 where
  pub bounded : All (λ e. e.1 ≤ db.counter) db.revs
  pub distinct : Distinct db.revs

module _ (P : RowId × ℕ → Type 0) where
  All-insert : (k : RowId) (v : ℕ) (m : Entries) → P (k, v) → All P m → All P (Map.insert k v m)
  unfolding Map.insert
  All-insert k v [] p h = (p, tt)
  All-insert k v ((j, w) ∷ m) p h = elim (Bool-cases (j == k)) [
    | inl e ↦ rw e (p, h.1)
    | inr e ↦ rw e (h.0, All-insert k v m p h.1)
  ]

  All-delete : (k : RowId) (m : Entries) → All P m → All P (Map.delete k m)
  unfolding Map.delete
  All-delete k [] h = tt
  All-delete k ((j, w) ∷ m) h = elim (Bool-cases (j == k)) [
    | inl e ↦ rw e (All-delete k m h.1)
    | inr e ↦ rw e (h.0, All-delete k m h.1)
  ]

Distinct-insert :
    (k : RowId) (v : ℕ) (m : Entries)
    → All (λ e. e.1 < v) m
    → Distinct m
    → Distinct (Map.insert k v m)
unfolding Map.insert
Distinct-insert k v [] b d = (tt, tt)
Distinct-insert k v ((j, w) ∷ m) b d = elim (Bool-cases (j == k)) [
  | inl e ↦ rw e (All-imp _ _ (λ f q p. ground arith) m b.1, d.1)
  | inr e ↦
      rw e (All-insert (λ f. w ≢ f.1) k v m (λ p. ground arith) d.0, Distinct-insert k v m b.1 d.1)
]

Distinct-delete : (k : RowId) (m : Entries) → Distinct m → Distinct (Map.delete k m)
unfolding Map.delete
Distinct-delete k [] d = tt
Distinct-delete k ((j, w) ∷ m) d = elim (Bool-cases (j == k)) [
  | inl e ↦ rw e (Distinct-delete k m d.1)
  | inr e ↦ rw e (All-delete (λ f. w ≢ f.1) k m d.0, Distinct-delete k m d.1)
]

stamp-Stamped : (k : RowId) (db : Revs) → Stamped db → Stamped (stamp k db)
unfolding stamp
stamp-Stamped k db h = record {
  bounded =
      All-insert (λ e. e.1 ≤ db.counter + 1) k (db.counter + 1) db.revs (ground arith)
        (All-imp _ _ (λ e q. ground arith) db.revs h.bounded);
  distinct =
      Distinct-insert k (db.counter + 1) db.revs
        (All-imp _ _ (λ e q. ground arith) db.revs h.bounded) h.distinct;
}

execute-Stamped : (s : Statement) (db : Revs) → Stamped db → Stamped (execute s db)
unfolding execute
execute-Stamped (inserts k) db h = stamp-Stamped k db h
execute-Stamped (updates k) db h = elim (Bool-cases (is_some (Map.lookup k db.revs))) [
  | inl e ↦ rw e (stamp-Stamped k db h)
  | inr e ↦ rw e h
]
execute-Stamped (deletes k) db h = record {
  bounded = All-delete (λ e. e.1 ≤ db.counter) k db.revs h.bounded;
  distinct = Distinct-delete k db.revs h.distinct;
}

pub execute_all-Stamped :
    (ss : List Statement) (db : Revs) → Stamped db → Stamped (execute_all ss db)
unfolding execute_all
execute_all-Stamped [] db h = h
execute_all-Stamped (s ∷ ss) db h = execute_all-Stamped ss (execute s db) (execute-Stamped s db h)
