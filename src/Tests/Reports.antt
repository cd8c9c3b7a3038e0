-- ===== src/Tests/Reports.antt =====
-- Reports at fixed inputs, with theorems applied to them.
use buckle.Base.{
  ℕ, Bytes, codes, List, [], ◌∷◌, ◌++◌, none, ◌≡◌, refl, bytes_beq, map, Unique, arith,
}
use buckle.Base.Int.{ℤ, pos}
use buckle.Base.Number.{decimal_int}
use buckle.Exec.{ok, for_each, ◌>>◌}
use buckle.Report.{Any, nil, text, int, Output, write_records, scan_records, key_of}
use buckle.Report.Cells.{cells, write_records-cells}

-- An output that keeps the lines of CSV.
abbrev kept_lines : Output (List (List Bytes))
kept_lines = record {
  marshal = λ v. ok [];
  marshal_key = λ k. ok k;
  marshal_indent = λ recs. ok [];
  write = λ b w. (ok tt, w);
  csv_line = λ l w. (ok tt, w ++ l ∷ []);
  csv_flush = λ w. (ok tt, w);
  quoted = λ b. b;
}

abbrev seconds : ℤ → Bytes
seconds n = codes "t" ++ decimal_int n

abbrev columns : List Bytes
columns = codes "id" ∷ codes "args_json" ∷ codes "time" ∷ codes "is_platform_binary" ∷ []

abbrev rows : List (List Any)
rows =
    (int (pos 7) ∷ text (codes "[]") ∷ int (pos 5) ∷ int (pos 1) ∷ [])
    ∷ (int (pos 8) ∷ nil ∷ nil ∷ int (pos 0) ∷ [])
    ∷ []

-- The line of the keys, and one for each row.
write_records_lines :
    write_records kept_lines
      (codes "csv")
      (scan_records seconds (ok columns) (map ok rows) none).keys
      (scan_records seconds (ok columns) (map ok rows) none).records
      []
    ≡ (
      ok tt,
      (codes "id" ∷ codes "args" ∷ codes "time" ∷ codes "is_platform_binary" ∷ [])
          ∷ (codes "7" ∷ codes "[]" ∷ codes "t5" ∷ codes "true" ∷ [])
          ∷ (codes "8" ∷ [] ∷ [] ∷ codes "false" ∷ [])
          ∷ [],
    )
unfolding write_records scan_records bytes_beq decimal_int
write_records_lines = refl

columns-Unique : Unique (map key_of columns)
unfolding buckle.Base.trim_suffix bytes_beq
columns-Unique = ground arith

write_records-cells_example :
    write_records kept_lines
      (codes "csv")
      (scan_records seconds (ok columns) (map ok rows) none).keys
      (scan_records seconds (ok columns) (map ok rows) none).records
    ≡ (kept_lines.csv_line (map key_of columns)
        >> (for_each rows (λ r. kept_lines.csv_line (cells kept_lines seconds columns r))
            >> kept_lines.csv_flush))
write_records-cells_example =
    write_records-cells kept_lines seconds columns columns-Unique rows none (refl, (refl, tt))
