-- ===== src/Store/Revisions/Since.antt =====
-- What a revision says of the changes since, in internal/store/schema.go.
use buckle.Base.{
  ℕ, ◌+◌, ◌≤◌, ◌<◌, ◌⊎◌, ltb, beq_self, subst, Bool, true, false, List, [], ◌∷◌, none, some, ◌≡◌,
  sym, ap, ◌∙◌, arith, if◌then◌else◌, is_some, Bool-cases, inl, inr, ◌==◌, bytes_eq, nat_eq,
  pair_eq,
}
use mathlib.Core.Option.{none-ne-some}
use mathlib.Core.Bool.{true≢false}
use buckle.Base.Map
use buckle.Store.Revisions.{
  RowId, Revs, Statement, inserts, updates, deletes, stamp, execute, execute_all,
}

execute-counter : (s : Statement) (db : Revs) → db.counter ≤ (execute s db).counter
unfolding execute stamp
execute-counter (inserts k) db = omega arith
execute-counter (updates k) db = elim (Bool-cases (is_some (Map.lookup k db.revs))) [
  | inl e ↦ rw e (omega arith)
  | inr e ↦ rw e (omega arith)
]
execute-counter (deletes k) db = omega arith

too_new : (c r : ℕ) → r ≤ c → some (c + 1) ≡ some r → ⊥
too_new c r h e = ground (arith, e)

lookup-stamp :
    (j k : RowId) (db : Revs) (b : Bool)
    → (j == k) ≡ b
    → Map.lookup k (stamp j db).revs ≡ (if b then some (db.counter + 1) else Map.lookup k db.revs)
unfolding stamp
lookup-stamp j k db b e =
    Map.lookup-insert j k (db.counter + 1) db.revs
    ∙ ap (λ (c : Bool). if c then some (db.counter + 1) else Map.lookup k db.revs) e

stamp-old :
    (j k : RowId) (db : Revs) (r : ℕ)
    → Map.lookup k (stamp j db).revs ≡ some r
    → r ≤ db.counter
    → Map.lookup k db.revs ≡ some r
unfolding stamp
stamp-old j k db r h le = elim (Bool-cases (j == k)) [
  | inl e ↦ absurd (too_new db.counter r le (sym (lookup-stamp j k db true e) ∙ h))
  | inr e ↦ sym (lookup-stamp j k db false e) ∙ h
]

lookup-deleted :
    (j k : RowId) (db : Revs) (b : Bool)
    → (j == k) ≡ b
    → Map.lookup k (Map.delete j db.revs) ≡ (if b then none else Map.lookup k db.revs)
lookup-deleted j k db b e =
    Map.lookup-delete j k db.revs ∙ ap (λ (c : Bool). if c then none else Map.lookup k db.revs) e

execute-old :
    (s : Statement) (k : RowId) (db : Revs) (r : ℕ)
    → Map.lookup k (execute s db).revs ≡ some r
    → r ≤ db.counter
    → Map.lookup k db.revs ≡ some r
unfolding execute
execute-old (inserts j) k db r h le = stamp-old j k db r h le
execute-old (updates j) k db r h le = elim (Bool-cases (is_some (Map.lookup j db.revs))) [
  | inl e ↦ stamp-old j k db r (rw e at h) le
  | inr e ↦ rw e at h
]
execute-old (deletes j) k db r h le = elim (Bool-cases (j == k)) [
  | inl e ↦ absurd (none-ne-some _ (sym (lookup-deleted j k db true e) ∙ h))
  | inr e ↦ sym (lookup-deleted j k db false e) ∙ h
]

execute_all-before :
    (ss : List Statement) (k : RowId) (db : Revs) (r : ℕ)
    → Map.lookup k (execute_all ss db).revs ≡ some r
    → r ≤ db.counter
    → Map.lookup k db.revs ≡ some r
unfolding execute_all
execute_all-before [] k db r h le = h
execute_all-before (s ∷ ss) k db r h le =
    execute-old s k db r
      (execute_all-before ss k (execute s db) r h (omega (arith, le, execute-counter s db))) le

-- Some statement inserts the row or updates it.
abbrev pub Touched : RowId → List Statement → Type 0
Touched k [] = ⊥
Touched k (inserts j ∷ ss) = (j ≡ k) ⊎ Touched k ss
Touched k (updates j ∷ ss) = (j ≡ k) ⊎ Touched k ss
Touched k (deletes j ∷ ss) = Touched k ss

-- The row's own statement, whatever comes behind it.
touch-new :
    (ss : List Statement) (k : RowId) (db : Revs) (r : ℕ)
    → Map.lookup k (execute_all ss (stamp k db)).revs ≡ some r
    → db.counter < r
unfolding stamp
touch-new ss k db r h = elim (Bool-cases (ltb db.counter r)) [
  | inl e ↦ ground (arith, e)
  | inr e ↦
      let old = execute_all-before ss k (stamp k db) r h (ground (arith, e)) in
      absurd (
        too_new db.counter r (ground (arith, e))
          (sym (lookup-stamp k k db true (beq_self k)) ∙ old))
]

update-new :
    (ss : List Statement) (k : RowId) (db : Revs) (r : ℕ)
    → Map.lookup k (execute_all ss (execute (updates k) db)).revs ≡ some r
    → db.counter < r
unfolding execute
update-new ss k db r h = elim (Bool-cases (is_some (Map.lookup k db.revs))) [
  | inl e ↦ touch-new ss k db r (rw e at h)
  | inr e ↦ elim (Bool-cases (ltb db.counter r)) [
    | inl f ↦ ground (arith, f)
    | inr f ↦
        let old = execute_all-before ss k db r (rw e at h) (ground (arith, f)) in
        absurd (true≢false (sym (ap (λ o. is_some o) old) ∙ e))
  ]
]

execute_all-new :
    (ss : List Statement) (k : RowId) (db : Revs) (r : ℕ)
    → Map.lookup k (execute_all ss db).revs ≡ some r
    → Touched k ss
    → db.counter < r
unfolding execute_all
execute_all-new [] k db r h t = elim t [ ]
execute_all-new (inserts j ∷ ss) k db r h (inl e) =
    touch-new ss j db r
      (subst (λ x. Map.lookup x (execute_all ss (execute (inserts j) db)).revs ≡ some r) (sym e) h)
execute_all-new (updates j ∷ ss) k db r h (inl e) =
    update-new ss j db r
      (subst (λ x. Map.lookup x (execute_all ss (execute (updates j) db)).revs ≡ some r) (sym e) h)
execute_all-new (inserts j ∷ ss) k db r h (inr t) =
    let p = execute-counter (inserts j) db in
    let q = execute_all-new ss k (execute (inserts j) db) r h t in omega (arith, p, q)
execute_all-new (updates j ∷ ss) k db r h (inr t) =
    let p = execute-counter (updates j) db in
    let q = execute_all-new ss k (execute (updates j) db) r h t in omega (arith, p, q)
execute_all-new (deletes j ∷ ss) k db r h t =
    let p = execute-counter (deletes j) db in
    let q = execute_all-new ss k (execute (deletes j) db) r h t in omega (arith, p, q)

-- What the revision of a row says after any statements: when it is not above what the counter was,
-- the row has had it since then, and when one of the statements inserted or updated the row, it is
-- above.
pub execute_all-old :
    (ss : List Statement) (k : RowId) (db : Revs) (r : ℕ)
    → Map.lookup k (execute_all ss db).revs ≡ some r
    → (r ≤ db.counter → Map.lookup k db.revs ≡ some r) × (Touched k ss → db.counter < r)
execute_all-old ss k db r h = (execute_all-before ss k db r h, execute_all-new ss k db r h)
