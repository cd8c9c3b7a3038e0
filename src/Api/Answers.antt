-- ===== src/Api/Answers.antt =====
-- The statuses of `ingest` in internal/server/api.go.
use buckle.Base.{ℕ, Bool, true, false, Bytes, none, some, ◌≡◌, ◌≢◌, refl, inl, inr, Option-cases}
use buckle.Base.Int.{ℤ}
use buckle.Wire.{Value, Batch}
use buckle.ServerDb.{Db, Failure, refused, applied, apply, refuse, commit, bad_schema_version}
use buckle.Api.{
  Read, decoded, decode, Response, cursor_is, answer, ingest, ingest_decoded, write_error,
  write_json,
}

-- The answer to a decoded batch that is not stored: the status of its cause, and no change.
abbrev pub Refused : ℕ → Db → Response × Db → Type 0
Refused code db (r, db') = (r.status ≡ code) × (db' ≡ db)

module _ (gt : Value → Value → Bool) (is_float : Bytes → Bool) where
  -- What `ingest` may do with a decoded batch.
  pub data Stores (b : Batch) (now : ℕ) (failing : Bool) (db : Db) (out : Response × Db)
      : Type 0 where
    conflict : refuse b ≡ some bad_schema_version → Refused 409 db out → Stores b now failing db out
    invalid_batch :
        (f : Failure)
        → refuse b ≡ some f
        → f ≢ bad_schema_version
        → Refused 400 db out
        → Stores b now failing db out
    db_fails : refuse b ≡ none → failing ≡ true → Refused 500 db out → Stores b now failing db out
    stored :
        (c : ℤ) (db' : Db)
        → failing ≡ false
        → apply gt b now db ≡ applied c db'
        → out ≡ (record { status = 200; body = cursor_is c }, db')
        → Stores b now failing db out

  answer-refused :
      (b : Batch) (now : ℕ) (failing : Bool) (db : Db) (f : Failure)
      → refuse b ≡ some f
      → Stores b now failing db (answer (refused f) failing db)
  unfolding answer write_error write_json
  answer-refused b now failing db bad_schema_version e = conflict e (refl, refl)
  answer-refused b now failing db Failure.missing_identity e =
      invalid_batch Failure.missing_identity e (λ q. cc) (refl, refl)
  answer-refused b now failing db Failure.too_many_rows e =
      invalid_batch Failure.too_many_rows e (λ q. cc) (refl, refl)
  answer-refused b now failing db (Failure.bad_row i r) e =
      invalid_batch (Failure.bad_row i r) e (λ q. cc) (refl, refl)

  answer-applied :
      (b : Batch) (now : ℕ) (failing : Bool) (db db' : Db) (c : ℤ)
      → refuse b ≡ none
      → apply gt b now db ≡ applied c db'
      → Stores b now failing db (answer (applied c db') failing db)
  unfolding answer write_error write_json
  answer-applied b now true db db' c r e = db_fails r refl (refl, refl)
  answer-applied b now false db db' c r e = stored c db' refl e refl

  -- A decoded batch is answered by 409 for another schema version, 400 for any other flaw, 500 when
  -- the database fails, and only then by 200 with what Apply returns; each but 200 changes nothing.
  pub ingest-Stores :
      (body : Read) (b : Batch) (now : ℕ) (failing : Bool) (db : Db)
      → decode is_float body ≡ decoded b
      → Stores b now failing db (ingest gt is_float body now failing db)
  unfolding ingest apply commit
  ingest-Stores body b now failing db h = elim (Option-cases (refuse b)) [
    | inl e ↦
        rw (h, ingest_decoded, apply, e)
          (answer-applied b now failing db _ _ e (rw (apply, e) refl))
    | inr (f, e) ↦ rw (h, ingest_decoded, apply, e) (answer-refused b now failing db f e)
  ]
