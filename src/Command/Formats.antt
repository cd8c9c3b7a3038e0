-- ===== src/Command/Formats.antt =====
-- The formats that cmd/buckle/main.go accepts, and those that internal/report/format.go writes.
use buckle.Base.{
  Bool, true, false, Bytes, codes, List, [], ◌∷◌, if◌then◌else◌, ◌==◌, ◌||◌, bytes_eq, ◌≡◌, refl,
  subst, ap, ◌⊎◌, inl, inr, arith,
}
use buckle.Exec
use buckle.Exec.{Result, ok, err, Exec, for_each}
use buckle.Report.{Field, Output, write_line, write_json, write_csv, write_records, valid_format}
use buckle.Command.{
  Answer, done, stop, fail, pure, after, ◌>>=◌, Failure, QueryFlags, Parsed, Outside,
}
use buckle.Command.Commands.{parse_answer}
use buckle.Command.Queries.{checked, parse_flags}

module _ {W : Type 0} (out : Output W) (columns : List Bytes) (recs : List (List Field)) where
  -- One of the three ways to write a table.
  abbrev pub IsWritten : Exec W (Unit {0}) → Type 0
  IsWritten m =
      (m ≡ (Exec.◌>>=◌ (Exec.lift (out.marshal_indent recs)) (write_line out)))
      ⊎ ((m ≡ for_each recs (write_json out)) ⊎ (m ≡ write_csv out columns recs))

  three :
      (j l c : Bool) (a b d n : Exec W (Unit {0}))
      → (j || l || c) ≡ true
      → ((if j then a else if l then b else if c then d else n) ≡ a)
        ⊎ (((if j then a else if l then b else if c then d else n) ≡ b)
            ⊎ ((if j then a else if l then b else if c then d else n) ≡ d))
  three true l c a b d n h = inl refl
  three false true c a b d n h = inr (inl refl)
  three false false true a b d n h = inr (inr refl)
  three false false false a b d n h = ground arith

  write_records-valid :
      (format : Bytes)
      → valid_format format ≡ true
      → IsWritten (write_records out format columns recs)
  unfolding write_records valid_format
  write_records-valid format h =
      three (format == codes "json") (format == codes "jsonl") (format == codes "csv") _ _ _ _ h

abbrev value_of : QueryFlags → Answer QueryFlags → QueryFlags
value_of p (done q) = q
value_of p (stop f) = p

abbrev is_done : {A : Type 0} → Answer A → Bool
is_done (done a) = true
is_done (stop f) = false

module _ {W S : Type 0} (out : Outside W S) where
  accepted :
      (b : Bool) (f : Failure) (p q : QueryFlags) (w : W)
      → ((if b then pure p else fail f) w).0 ≡ done q
      → (b ≡ true) × (p ≡ q)
  unfolding fail pure
  accepted true f p q w e = (refl, ap (value_of p) e)
  accepted false f p q w e = let k = ap is_done e in ground arith

  checked-valid :
      (p q : QueryFlags) (rest : List Bytes) (w : W)
      → (checked out p.format p rest w).0 ≡ done q
      → valid_format q.format ≡ true
  unfolding fail
  checked-valid p q (a ∷ rest) w e = let k = ap is_done e in ground arith
  checked-valid p q [] w e =
      let (h, k) = accepted (valid_format p.format) _ p q w e in
      subst (λ x. valid_format x.format ≡ true) k h

  after-valid :
      (r : Answer (Parsed QueryFlags)) (q : QueryFlags) (w : W)
      → (after r (λ p. checked out p.values.format p.values p.rest) w).0 ≡ done q
      → valid_format q.format ≡ true
  after-valid (done p) q w e = checked-valid p.values q p.rest w e
  after-valid (stop f) q w e = let k = ap is_done e in ground arith

  -- Where the flags of a query are accepted, its table is written as JSON, as JSONL or as CSV:
  -- `WriteRecords` does not meet a format that it does not know.
  pub parse_flags-IsWritten :
      (name : Bytes) (filters : Bool) (args : List Bytes) (q : QueryFlags) (w : W)
      (columns : List Bytes) (recs : List (List Field))
      → (parse_flags out name filters args w).0 ≡ done q
      → IsWritten out.output columns recs (write_records out.output q.format columns recs)
  unfolding parse_flags ◌>>=◌
  parse_flags-IsWritten name filters args q w columns recs e =
      write_records-valid out.output columns recs q.format (
        after-valid (parse_answer (out.parse_query name filters args w).0) q
          (out.parse_query name filters args w).1 e)
