-- ===== src/Report/Cells.antt =====
-- What internal/report/format.go writes of the rows that it scans.
use buckle.Base.{
  Bytes, codes, Option, List, [], ◌∷◌, ◌≡◌, ◌≢◌, refl, ap, ◌∙◌, arith, map, All, Unique, length,
  bytes_eq, bytes_beq, bytes_beq_iff, beq_self, ◌==◌, Bool-cases, inl, inr,
}
use buckle.Base.Int.{ℤ}
use buckle.Exec.{ok, Exec, for_each, ◌>>◌}
use buckle.Report.{
  Any, Field, Output, get, csv_value, csv_row, write_csv, write_records, key_of, convert, scan_row,
  scan_rows, scan_records,
}

module _ {W : Type 0} (out : Output W) (format_time : ℤ → Bytes) where
  -- The cells of a row, each by its own column.
  abbrev pub cells : List Bytes → List Any → List Bytes
  cells (c ∷ cs) (v ∷ vs) = csv_value out.marshal (convert format_time c v) ∷ cells cs vs
  cells _ _ = []

  -- A field before the others hides none of theirs.
  csv_row_behind :
      (f : Field) (fs : List Field) (ks : List Bytes)
      → All (λ k. f.key ≢ k) ks
      → csv_row out ks (f ∷ fs) ≡ csv_row out ks fs
  unfolding csv_row get
  csv_row_behind f fs [] h = refl
  csv_row_behind f fs (k ∷ ks) h = elim (Bool-cases (f.key == k)) [
    | inl e ↦ elim (h.0 ((bytes_beq_iff f.key k).0 e)) [ ]
    | inr e ↦
        rw e (
          ap (λ (l : List Bytes). csv_value out.marshal (get fs k) ∷ l)
            (csv_row_behind f fs ks h.1))
  ]

  csv_row-scan :
      (cs : List Bytes) (vs : List Any)
      → Unique (map key_of cs)
      → length vs ≡ length cs
      → csv_row out (map key_of cs) (scan_row format_time cs vs) ≡ cells cs vs
  unfolding csv_row scan_row get
  csv_row-scan [] vs u h = refl
  csv_row-scan (c ∷ cs) [] u h = ground (arith, h)
  csv_row-scan (c ∷ cs) (v ∷ vs) u h = rw (beq_self (key_of c)) (
      ap (λ (l : List Bytes). csv_value out.marshal (convert format_time c v) ∷ l)
        (csv_row_behind _ (scan_row format_time cs vs) (map key_of cs) u.0
          ∙ csv_row-scan cs vs u.1 (omega (arith, h))))

  module _ (cs : List Bytes) (distinct : Unique (map key_of cs)) where
    abbrev FillsColumns : List Any → Type 0
    FillsColumns r = length r ≡ length cs

    for_each-cells :
        (rs : List (List Any))
        → All FillsColumns rs
        → for_each
            (map (scan_row format_time cs) rs)
            (λ r. out.csv_line (csv_row out (map key_of cs) r))
          ≡ for_each rs (λ r. out.csv_line (cells cs r))
    unfolding for_each
    for_each-cells [] h = refl
    for_each-cells (r ∷ rs) h = rw (csv_row-scan cs r distinct h.0, for_each-cells rs h.1) refl

    scan_rows-map :
        (rs : List (List Any))
        → scan_rows format_time cs (map ok rs) ≡ ok (map (scan_row format_time cs) rs)
    unfolding scan_rows
    scan_rows-map [] = refl
    scan_rows-map (r ∷ rs) = rw (scan_rows-map rs) refl

    -- With format csv, the records and keys that `scanRecords` returns for rows are written as the line
    -- of the keys and a line for each row, in order, whose cells are the row's values, each converted
    -- by its own column, if the keys differ and the rows have a value for each column.
    pub write_records-cells :
        (rs : List (List Any)) (last : Option Bytes)
        → All FillsColumns rs
        → write_records out
            (codes "csv")
            (scan_records format_time (ok cs) (map ok rs) last).keys
            (scan_records format_time (ok cs) (map ok rs) last).records
          ≡ (out.csv_line (map key_of cs)
              >> (for_each rs (λ r. out.csv_line (cells cs r)) >> out.csv_flush))
    unfolding write_records write_csv bytes_beq scan_records
    write_records-cells rs last h = rw (scan_rows-map rs) (
        ap (λ (x : Exec W (Unit {0})). out.csv_line (map key_of cs) >> (x >> out.csv_flush))
          (for_each-cells rs h))
