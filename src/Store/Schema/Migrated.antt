-- ===== src/Store/Schema/Migrated.antt =====
-- What `migrate` of internal/store/schema.go leaves behind.
use buckle.Base.{
  Bool, true, false, Bytes, ◌≡◌, ◌⊎◌, refl, sym, ap, ◌∙◌, arith, codes, bytes_eq, bytes_beq,
  Bool-cases, inl, inr,
}
use mathlib.Core.Bool.{true≢false}
use buckle.Base.Int.{ℤ, pos, int_eq, int_beq_iff}
use buckle.Store.Schema.{
  Db, System, Result, ok, err, MigrateError, schema_version, upgraded, enable_wal, migrate, Plan,
  keeps, upgrades, refuses, plan, follow, statement_failed,
}

abbrev ready : Db → Db
ready db = record db { wal = true; indexed = true }

enable_wal-ok :
    (sys : System) (changed b : Bool) (db db' : Db)
    → enable_wal sys changed db ≡ (ok b, db')
    → (b ≡ changed) × (db' ≡ ready db)
unfolding enable_wal
enable_wal-ok sys changed b db db' h = ground (arith, h)

upgraded-version : (random : Bytes) (db : Db) → (upgraded random db).user_version ≡ schema_version
unfolding upgraded
upgraded-version random db = refl

-- The states that a migration that succeeds can leave.
abbrev Reached : Bool → Bytes → Db → Bool → Db → Type 0
Reached allow_old random db b db' =
    ((b ≡ false) × (db.user_version ≡ schema_version) × (db' ≡ ready db))
    ⊎ ((b ≡ true)
        × ((allow_old ≡ true) ⊎ (db.user_version ≡ pos 0))
        × (db' ≡ ready (upgraded random db)))

plan-keeps : (allow_old : Bool) (v : ℤ) → plan allow_old v ≡ keeps → v ≡ schema_version
unfolding plan
plan-keeps allow_old v h = ground (arith, h, int_beq_iff v schema_version)

plan-upgrades :
    (allow_old : Bool) (v : ℤ) → plan allow_old v ≡ upgrades → (allow_old ≡ true) ⊎ (v ≡ pos 0)
unfolding plan
plan-upgrades true v h = inl refl
plan-upgrades false v h = inr (ground (arith, h, int_beq_iff v schema_version))

err_not_ok :
    (e : MigrateError) (b : Bool) (db db' : Db)
    → ¬ (◌≡◌ {A = Result Bool × Db} (err e, db) (ok b, db'))
err_not_ok e b db db' h = cc

follow-Reached :
    (sys : System) (allow_old b : Bool) (p : Plan) (db db' : Db)
    → plan allow_old db.user_version ≡ p
    → follow sys p db ≡ (ok b, db')
    → Reached allow_old sys.random db b db'
unfolding follow
follow-Reached sys allow_old b keeps db db' q h =
    let (x, y) = enable_wal-ok sys false b db db' h in inl (x, plan-keeps allow_old _ q, y)
follow-Reached sys allow_old b upgrades db db' q h = elim (Bool-cases sys.tx_fails) [
  | inl e ↦ absurd (err_not_ok statement_failed b db db' (rw e at h))
  | inr e ↦
      let (x, y) = enable_wal-ok sys true b (upgraded sys.random db) db' (rw e at h) in
      inr (x, plan-upgrades allow_old _ q, y)
]
follow-Reached sys allow_old b (refuses e) db db' q h = absurd (err_not_ok e b db db' h)

-- What is at the version, with its journal and indexes, is left as it is.
migrate-ready :
    (sys : System) (allow_old : Bool) (db : Db)
    → db.user_version ≡ schema_version
    → sys.mode ≡ codes "wal"
    → sys.index_fails ≡ false
    → migrate sys allow_old (ready db) ≡ (ok false, ready db)
unfolding migrate plan follow enable_wal bytes_beq
migrate-ready sys allow_old db v m i = rw (v, m, i) refl

Reached-version :
    (allow_old b : Bool) (random : Bytes) (db db' : Db)
    → Reached allow_old random db b db'
    → (base : Db) × (db' ≡ ready base) × (base.user_version ≡ schema_version)
Reached-version allow_old b random db db' (inl (x, v, y)) = (db, y, v)
Reached-version allow_old b random db db' (inr (x, o, y)) =
    (upgraded random db, y, upgraded-version random db)

module _ (sys : System) (allow_old b : Bool) (db db' : Db) where
  -- A migration that succeeds reports a change only for a new database or where older ones are
  -- allowed, and otherwise leaves rows and revisions alone; a second one, where the journal and the
  -- indexes work, succeeds and changes nothing.
  pub migrate_twice :
      (sys' : System) (allow_old' : Bool)
      → migrate sys allow_old db ≡ (ok b, db')
      → sys'.mode ≡ codes "wal"
      → sys'.index_fails ≡ false
      → (b ≡ true → (allow_old ≡ true) ⊎ (db.user_version ≡ pos 0))
        × (b ≡ false → (db'.rows ≡ db.rows) × (db'.revs ≡ db.revs))
        × (migrate sys' allow_old' db' ≡ (ok false, db'))
  unfolding migrate
  migrate_twice sys' allow_old' h m i =
      let r = follow-Reached sys allow_old b (plan allow_old db.user_version) db db' refl h in
      let (base, y, v) = Reached-version allow_old b sys.random db db' r in
      (changed r, unchanged r, rw y (migrate-ready sys' allow_old' base v m i))
    where
      changed :
          Reached allow_old sys.random db b db'
          → b ≡ true
          → (allow_old ≡ true) ⊎ (db.user_version ≡ pos 0)
      changed (inl (x, v, y)) q = absurd (true≢false (sym q ∙ x))
      changed (inr (x, o, y)) q = o

      unchanged :
          Reached allow_old sys.random db b db'
          → b ≡ false
          → (db'.rows ≡ db.rows) × (db'.revs ≡ db.revs)
      unchanged (inl (x, v, y)) q = (ap (λ d. d.rows) y, ap (λ d. d.revs) y)
      unchanged (inr (x, o, y)) q = absurd (true≢false (sym x ∙ q))
