-- ===== src/Store/Revisions/Upgraded.antt =====
-- The revisions of an upgraded database, in internal/store/schema.go.
use buckle.Base.{ℕ, ◌+◌, ◌≤◌, ◌<◌, Bytes, List, [], ◌∷◌, ◌++◌, ◌≢◌, arith, All, All-imp, All-append}
use buckle.Store.Revisions.{
  RowId, Statement, execute_all, max_rowid, backfill, upgrade_v2, Entries, Distinct, Stamped,
  execute_all-Stamped,
}

-- The rowids of a table: positive, and each once.
abbrev pub RowIds : List ℕ → Type 0
RowIds [] = Unit
RowIds (r ∷ rs) = (0 < r) × All (λ s. r ≢ s) rs × RowIds rs

abbrev Above : ℕ → RowId × ℕ → Type 0
Above n e = n < e.1

abbrev UpTo : ℕ → RowId × ℕ → Type 0
UpTo n e = e.1 ≤ n

module _ (t : Bytes) (offset : ℕ) where
  backfill-Above : (rows : List ℕ) → RowIds rows → All (Above offset) (backfill t offset rows)
  unfolding backfill
  backfill-Above [] h = tt
  backfill-Above (r ∷ rs) h = (ground (arith, h), backfill-Above rs h.2)

  backfill-UpTo :
      (n : ℕ) (rows : List ℕ) → offset + max_rowid rows ≤ n → All (UpTo n) (backfill t offset rows)
  unfolding backfill max_rowid
  backfill-UpTo n [] h = tt
  backfill-UpTo n (r ∷ rs) h = (ground (arith, h), backfill-UpTo n rs (ground (arith, h)))

  backfill-apart :
      (r : ℕ) (rows : List ℕ)
      → All (λ s. r ≢ s) rows
      → All (λ e. r + offset ≢ e.1) (backfill t offset rows)
  unfolding backfill
  backfill-apart r [] h = tt
  backfill-apart r (s ∷ rs) h = (λ e. h.0 (ground (arith, e)), backfill-apart r rs h.1)

  backfill-Distinct : (rows : List ℕ) → RowIds rows → Distinct (backfill t offset rows)
  unfolding backfill
  backfill-Distinct [] h = tt
  backfill-Distinct (r ∷ rs) h = (backfill-apart r rs h.1, backfill-Distinct rs h.2)

Distinct-append :
    (n : ℕ) (es fs : Entries)
    → Distinct es
    → Distinct fs
    → All (UpTo n) es
    → All (Above n) fs
    → Distinct (es ++ fs)
Distinct-append n [] fs d c u a = c
Distinct-append n (e ∷ es) fs d c u a = (
  All-append (λ f. e.1 ≢ f.1) es fs d.0 (All-imp _ _ (λ f k p. ground (arith, u.0, p)) fs a),
  Distinct-append n es fs d.1 c u.1 a,
)

-- The tables of a database, each with its rowids.
abbrev pub WellNumbered : List (Bytes × List ℕ) → Type 0
WellNumbered [] = Unit
WellNumbered ((t, rows) ∷ tables) = RowIds rows × WellNumbered tables

upgrade_v2-counter :
    (offset : ℕ) (tables : List (Bytes × List ℕ)) → offset ≤ (upgrade_v2 offset tables).counter
unfolding upgrade_v2
upgrade_v2-counter offset [] = omega arith
upgrade_v2-counter offset ((t, rows) ∷ tables) =
    omega (arith, upgrade_v2-counter (offset + max_rowid rows) tables)

upgrade_v2-Above :
    (offset : ℕ) (tables : List (Bytes × List ℕ))
    → WellNumbered tables
    → All (Above offset) (upgrade_v2 offset tables).revs
unfolding upgrade_v2
upgrade_v2-Above offset [] h = tt
upgrade_v2-Above offset ((t, rows) ∷ tables) h =
    All-append (Above offset) (backfill t offset rows) _ (backfill-Above t offset rows h.0) (
      All-imp (Above (offset + max_rowid rows)) (Above offset) (λ e k. omega (arith, k)) _
        (upgrade_v2-Above (offset + max_rowid rows) tables h.1))

upgrade_v2-Stamped :
    (offset : ℕ) (tables : List (Bytes × List ℕ))
    → WellNumbered tables
    → Stamped (upgrade_v2 offset tables)
unfolding upgrade_v2
upgrade_v2-Stamped offset [] h = record { bounded = tt; distinct = tt }
upgrade_v2-Stamped offset ((t, rows) ∷ tables) h =
    let later = offset + max_rowid rows in
    let rest = upgrade_v2-Stamped later tables h.1 in
    record {
      bounded =
          All-append (UpTo (upgrade_v2 later tables).counter) (backfill t offset rows) _
            (backfill-UpTo t offset _ rows (upgrade_v2-counter later tables)) rest.bounded;
      distinct =
          Distinct-append later (backfill t offset rows) _ (backfill-Distinct t offset rows h.0)
            rest.distinct (backfill-UpTo t offset later rows (omega arith))
            (upgrade_v2-Above later tables h.1);
    }

-- After an upgrade from version 1, and whatever statements follow, no two rows share a revision and
-- none is above the counter, when the rowids of each table are positive and distinct.
pub upgraded-Stamped :
    (tables : List (Bytes × List ℕ)) (ss : List Statement)
    → WellNumbered tables
    → Stamped (execute_all ss (upgrade_v2 0 tables))
upgraded-Stamped tables ss h = execute_all-Stamped ss _ (upgrade_v2-Stamped 0 tables h)
