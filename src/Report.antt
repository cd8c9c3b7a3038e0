-- ===== src/Report.antt =====
-- internal/report/format.go: rows of the database as records, and records as text. JSON, CSV, times
-- and the output are arguments.
pub mod Cells
pub mod Statements
pub mod Query
use buckle.Base.{
  ℕ, Bool, true, false, not, ◌||◌, Bytes, codes, List, [], ◌∷◌, ◌++◌, Option, none, some, map,
  bytes_eq, nat_eq, ◌==◌, if◌then◌else◌, has_suffix, trim_suffix,
}
use buckle.Base.Int.{ℤ, pos, negsuc}
use buckle.Base.Number.{decimal_int}
use buckle.Exec.{Result, ok, err, Exec, pure, raise, lift, for_each, ◌>>=◌, ◌>>◌}

-- What a value of type `any` holds; a float as `FormatFloat` prints it.
pub data Any : Type 0 where
  nil : Any
  text : Bytes → Any
  blob : Bytes → Any
  int : ℤ → Any
  float : Bytes → Any
  flag : Bool → Any
  raw : Bytes → Any

-- `Field`; a record is a list of fields.
pub record Field : Type 0 where
  pub key : Bytes
  pub value : Any

-- `Get`
unfoldable pub get : List Field → Bytes → Any
get [] key = nil
get (f ∷ fs) key = if f.key == key then f.value else get fs key

-- What the program calls: JSON of a value and of a key, the indented JSON of a list of records, CSV,
-- the format of times, and the output.
pub record Output (W : Type 0) : Type 0 where
  pub marshal : Any → Result Bytes
  pub marshal_key : Bytes → Result Bytes
  pub marshal_indent : List (List Field) → Result Bytes
  pub write : Bytes → Exec W (Unit {0})
  pub csv_line : List Bytes → Exec W (Unit {0})
  pub csv_flush : Exec W (Unit {0})
  pub quoted : Bytes → Bytes

abbrev bytes_of : Result Bytes → Bytes
bytes_of (ok b) = b
bytes_of (err e) = []

abbrev bool_text : Bool → Bytes
bool_text true = codes "true"
bool_text false = codes "false"

-- `csvValue`
unfoldable pub csv_value : (Any → Result Bytes) → Any → Bytes
csv_value marshal nil = []
csv_value marshal (text b) = b
csv_value marshal (int n) = decimal_int n
csv_value marshal (float b) = b
csv_value marshal (flag b) = bool_text b
csv_value marshal (raw b) = b
csv_value marshal (blob b) = bytes_of (marshal (blob b))

module _ {W : Type 0} (out : Output W) where
  -- the loop of `MarshalJSON`, with what goes before each field
  unfoldable pub marshal_fields : Bytes → List Field → Result Bytes
  marshal_fields before [] = ok []
  marshal_fields before (f ∷ fs) =
      let rest = marshal_fields (codes ",") fs in
      elim (out.marshal_key f.key) [
        | err e ↦ err e
        | ok k ↦ elim (out.marshal f.value) [
          | err e ↦ err e
          | ok v ↦ elim rest [ err e ↦ err e | ok b ↦ ok (before ++ k ++ codes ":" ++ v ++ b) ]
        ]
      ]

  abbrev in_braces : Result Bytes → Result Bytes
  in_braces (err e) = err e
  in_braces (ok b) = ok (codes "{" ++ b ++ codes "}")

  -- `MarshalJSON`
  unfoldable pub marshal_json : List Field → Result Bytes
  unfolding marshal_fields
  marshal_json fs = in_braces (marshal_fields [] fs)

  abbrev pub write_line : Bytes → Exec W (Unit {0})
  write_line b = out.write (b ++ codes "\n")

  -- a line of JSONL
  unfoldable pub write_json : List Field → Exec W (Unit {0})
  unfolding marshal_json ◌>>=◌
  write_json r = lift (marshal_json r) >>= write_line

  -- a row of CSV
  unfoldable pub csv_row : List Bytes → List Field → List Bytes
  unfolding get csv_value
  csv_row columns r = map (λ c. csv_value out.marshal (get r c)) columns

  unfoldable pub write_csv : List Bytes → List (List Field) → Exec W (Unit {0})
  unfolding csv_row for_each ◌>>=◌
  write_csv columns recs =
      out.csv_line columns
      >> (for_each recs (λ r. out.csv_line (csv_row columns r)) >> out.csv_flush)

  -- `WriteRecords`
  unfoldable pub write_records : Bytes → List Bytes → List (List Field) → Exec W (Unit {0})
  unfolding write_json write_csv for_each ◌>>=◌
  write_records format columns recs =
      if format == codes "json"
      then lift (out.marshal_indent recs) >>= write_line
      else if format == codes "jsonl"
      then for_each recs write_json
      else if format == codes "csv"
      then write_csv columns recs
      else raise (codes "unknown format " ++ out.quoted format)

-- What `scanRecords` returns.
pub record Scanned : Type 0 where
  pub records : List (List Field)
  pub keys : List Bytes
  pub error : Option Bytes

abbrev failed : Bytes → Scanned
failed e = record { records = []; keys = []; error = some e }

-- `ValidFormat`
unfoldable pub valid_format : Bytes → Bool
valid_format f = f == codes "json" || f == codes "jsonl" || f == codes "csv"

-- `timeColumns`
abbrev pub is_time_column : Bytes → Bool
is_time_column c =
    c == codes "started_at"
    || c == codes "ended_at"
    || c == codes "first_seen"
    || c == codes "last_seen"
    || c == codes "time"

-- `boolColumns`
abbrev pub is_bool_column : Bytes → Bool
is_bool_column c = c == codes "started_before_watch" || c == codes "is_platform_binary"

abbrev string_of : Any → Any
string_of (blob b) = text b
string_of v = v

abbrev raw_of : Any → Any
raw_of (text b) = raw b
raw_of v = v

abbrev time_of : (ℤ → Bytes) → Any → Any
time_of format_time (int n) = text (format_time n)
time_of format_time v = v

abbrev is_zero : ℤ → Bool
is_zero (pos n) = n == 0
is_zero (negsuc n) = false

abbrev flag_of : Any → Any
flag_of (int n) = flag (not (is_zero n))
flag_of v = v

-- the key of a column
abbrev pub key_of : Bytes → Bytes
key_of c = trim_suffix c (codes "_json")

module _ (format_time : ℤ → Bytes) where
  -- a value of a column
  unfoldable pub convert : Bytes → Any → Any
  unfolding has_suffix
  convert c v =
      if has_suffix c (codes "_json")
      then raw_of (string_of v)
      else if is_time_column c
      then time_of format_time (string_of v)
      else if is_bool_column c
      then flag_of (string_of v)
      else string_of v

  -- a row, with as many values as there are columns
  unfoldable pub scan_row : List Bytes → List Any → List Field
  unfolding convert trim_suffix
  scan_row (c ∷ cs) (v ∷ vs) = record { key = key_of c; value = convert c v } ∷ scan_row cs vs
  scan_row _ _ = []

  abbrev and_row : List Field → Result (List (List Field)) → Result (List (List Field))
  and_row r (err e) = err e
  and_row r (ok rs) = ok (r ∷ rs)

  -- the loop over the rows; `err` is what `Scan` answers
  unfoldable pub scan_rows : List Bytes → List (Result (List Any)) → Result (List (List Field))
  unfolding scan_row
  scan_rows columns [] = ok []
  scan_rows columns (err e ∷ rows) = err e
  scan_rows columns (ok r ∷ rows) = and_row (scan_row columns r) (scan_rows columns rows)

  abbrev scanned : List Bytes → Option Bytes → Result (List (List Field)) → Scanned
  scanned columns last (err e) = failed e
  scanned columns last (ok recs) = record {
    records = recs;
    keys = map key_of columns;
    error = last;
  }

  -- `scanRecords`, with the answers of `Columns`, of `Scan` for each row, and of `rows.Err`
  unfoldable pub scan_records :
      Result (List Bytes) → List (Result (List Any)) → Option Bytes → Scanned
  unfolding scan_rows
  scan_records (err e) rows last = failed e
  scan_records (ok columns) rows last = scanned columns last (scan_rows columns rows)
