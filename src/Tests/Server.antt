-- ===== src/Tests/Server.antt =====
-- Runs of the model of the server at fixed inputs, with theorems applied to them.
use buckle.Base.{
  Bool, false, [], ◌∷◌, none, ◌≡◌, refl, codes, arith, nat_eq, bytes_eq, pair_eq, bytes_beq,
}
use buckle.Base.Int.{pos, ltb_ℤ, max_ℤ}
use buckle.Base.Map
use buckle.Wire.{Value, int, str, Batch}
use buckle.Wire
use buckle.ServerDb.{
  Db, Outcome, applied, committed, commit, refuse, upsert_all, validate_columns, validate_row,
  validate_rows, missing, bad_entry, has_name, cursor, max_rev,
}
use buckle.ServerDb
use buckle.ServerDb.Resend.{apply_twice, cursor-apply}

-- The comparison of the database, on integers; it is not asked for other values here.
abbrev pub greater : Value → Value → Bool
greater (int a) (int b) = ltb_ℤ b a
greater _ _ = false

abbrev pub profile : Wire.Row
profile = record {
  table = codes "profiles";
  row_rev = pos 5;
  values =
      (codes "hash", str (codes "ab"))
      ∷ (codes "text", str (codes "(version 1)"))
      ∷ (codes "rev", int (pos 5))
      ∷ [];
}

abbrev pub batch : Batch
batch = record {
  host = record { uuid = codes "h1"; host_name = codes "mac" };
  db_instance = codes "d1";
  schema_version = pos 3;
  rows = profile ∷ [];
}

abbrev pub empty_db : Db
empty_db = record { mirror = []; hosts = []; sync_state = [] }

applied_batch :
    ServerDb.apply greater batch 7 empty_db ≡ applied (pos 5) (committed greater batch 7 empty_db)
unfolding ServerDb.apply validate_row bytes_beq Map.lookup Wire.value_beq
applied_batch = refl

cursor-apply_example :
    (cursor (committed greater batch 7 empty_db) (codes "h1") (codes "d1") ≡ pos 5)
    × (pos 5 ≡ max_ℤ (cursor empty_db (codes "h1") (codes "d1")) (max_rev (pos 0) (profile ∷ [])))
cursor-apply_example =
    cursor-apply greater batch 7 empty_db (committed greater batch 7 empty_db) (pos 5) applied_batch

profile_rev : ServerDb.row_values profile ServerDb.rev_column ≡ int (pos 5)
unfolding ServerDb.row_values bytes_beq Map.lookup
profile_rev = refl

apply_twice_example :
    (db'' : Db) × (ServerDb.apply greater batch 9 (committed greater batch 7 empty_db)
      ≡ applied (pos 5) db'')
    × (db''.mirror ≡ (committed greater batch 7 empty_db).mirror)
apply_twice_example =
    apply_twice greater batch 7 empty_db (committed greater batch 7 empty_db) (pos 5) 9
      (λ a b. refl) (profile_rev, tt)
      (λ k old e. ground (arith, Map.lookup-nil ServerDb.Stored ⦃e = ServerDb.row_key_eq⦄ k, e))
      applied_batch

-- A row of revision 0 passes the checks with a text in its `rev` column.
abbrev text_rev : Wire.Row
text_rev = record {
  table = codes "profiles";
  row_rev = pos 0;
  values =
      (codes "hash", str (codes "ab"))
      ∷ (codes "text", str (codes "(version 1)"))
      ∷ (codes "rev", str (codes "x"))
      ∷ [];
}

text_rev_passes : validate_row text_rev ≡ none
unfolding validate_row bytes_beq Map.lookup Wire.value_beq Wire.key_column
text_rev_passes = refl
