-- ===== src/Store/Changes.antt =====
-- internal/store/changes.go: the rows that changed since a cursor. `query` is the statement on one
-- table, with the values of each row in the order of the columns; a statement that fails is not
-- modelled. `sort.Slice` may leave rows of one revision in any order: here they keep theirs.
use buckle.Base.{
  subst, zero, suc, ◌+◌, ℕ, min, false, Bytes, List, [], ◌∷◌, ◌++◌, ◌≡◌, refl, ap, sym, ◌∙◌, arith,
  if◌then◌else◌, Bool-cases, inl, inr, map, codes, length, take, drop,
}
use mathlib.Core.List.{Perm, flat_map, zip}
use mathlib.Core.List.Perm
use buckle.Base.Int.{ℤ, ltb_ℤ}
use buckle.Base.Map.{Map}
use buckle.Wire.{Value, Row, columns}
use buckle.ServerDb.{get, int_or_zero}

-- `data[c] = v` for each column
unfoldable pub data_of : List Bytes → List Value → Map Bytes Value
data_of (c ∷ cs) (v ∷ vs) = (c, v) ∷ data_of cs vs
data_of _ _ = []

-- `wire.Row{…}`
unfoldable pub row_of : Bytes → List Bytes → List Value → Row
unfolding data_of
row_of t cols vals =
    let d = data_of cols vals in
    record { table = t; row_rev = int_or_zero (get d (codes "rev")); values = d }

unfoldable pub rows_of : Bytes → List Bytes → List (List Value) → List Row
unfolding row_of
rows_of t cols [] = []
rows_of t cols (vals ∷ rest) = row_of t cols vals ∷ rows_of t cols rest

unfoldable pub insert_by_rev : Row → List Row → List Row
insert_by_rev r [] = r ∷ []
insert_by_rev r (x ∷ xs) =
    let rest = insert_by_rev r xs in if ltb_ℤ x.row_rev r.row_rev then x ∷ rest else r ∷ x ∷ xs

unfoldable pub sort_by_rev : List Row → List Row
unfolding insert_by_rev
sort_by_rev [] = []
sort_by_rev (r ∷ rs) = insert_by_rev r (sort_by_rev rs)

module _ (query : Bytes → ℤ → ℕ → List (List Value)) where
  -- the loop over the tables
  unfoldable pub collect : List (Bytes × List Bytes) → ℤ → ℕ → List Row
  unfolding rows_of
  collect [] c limit = []
  collect ((t, cols) ∷ ts) c limit = rows_of t cols (query t c limit) ++ collect ts c limit

  -- `ChangesSince`
  unfoldable pub changes_since : ℤ → ℕ → List Row
  unfolding collect sort_by_rev
  changes_since c limit = take limit (sort_by_rev (collect columns c limit))

-- No row has a lower revision than the one before.
abbrev pub Ascending : List Row → Type 0
Ascending [] = Unit
Ascending (r ∷ []) = Unit
Ascending (r ∷ x ∷ xs) = (ltb_ℤ x.row_rev r.row_rev ≡ false) × Ascending (x ∷ xs)

insert_by_rev-Ascending : (r : Row) (xs : List Row) → Ascending xs → Ascending (insert_by_rev r xs)
unfolding insert_by_rev
insert_by_rev-Ascending r [] h = tt
insert_by_rev-Ascending r (x ∷ []) h = ground arith
insert_by_rev-Ascending r (x ∷ y ∷ ys) h =
    let rest = insert_by_rev-Ascending r (y ∷ ys) h.1 in ground arith

sort_by_rev-Ascending : (rs : List Row) → Ascending (sort_by_rev rs)
unfolding sort_by_rev
sort_by_rev-Ascending [] = tt
sort_by_rev-Ascending (r ∷ rs) =
    insert_by_rev-Ascending r (sort_by_rev rs) (sort_by_rev-Ascending rs)

insert_by_rev-perm : (r : Row) (xs : List Row) → Perm (insert_by_rev r xs) (r ∷ xs)
unfolding insert_by_rev
insert_by_rev-perm r [] = Perm.refl _
insert_by_rev-perm r (x ∷ xs) = elim (Bool-cases (ltb_ℤ x.row_rev r.row_rev)) [
  | inl q ↦ rw q (Perm.trans (Perm.cons x (insert_by_rev-perm r xs)) (Perm.swap r x xs))
  | inr q ↦ rw q (Perm.refl _)
]

sort_by_rev-perm : (rs : List Row) → Perm (sort_by_rev rs) rs
unfolding sort_by_rev
sort_by_rev-perm [] = Perm.refl []
sort_by_rev-perm (r ∷ rs) =
    Perm.trans (insert_by_rev-perm r (sort_by_rev rs)) (Perm.cons r (sort_by_rev-perm rs))

length-insert_by_rev : (r : Row) (xs : List Row) → length (insert_by_rev r xs) ≡ 1 + length xs
unfolding insert_by_rev
length-insert_by_rev r [] = refl
length-insert_by_rev r (x ∷ xs) = ground (arith, length-insert_by_rev r xs)

length-sort_by_rev : (rs : List Row) → length (sort_by_rev rs) ≡ length rs
unfolding sort_by_rev
length-sort_by_rev [] = refl
length-sort_by_rev (r ∷ rs) =
    ground (arith, length-insert_by_rev r (sort_by_rev rs), length-sort_by_rev rs)

length-take : (n : ℕ) (rs : List Row) → length (take n rs) ≡ min n (length rs)
length-take zero rs = ground arith
length-take (suc n) [] = ground arith
length-take (suc n) (r ∷ rs) = ground (arith, length-take n rs)

take-drop : (n : ℕ) (rs : List Row) → take n rs ++ drop n rs ≡ rs
take-drop zero rs = refl
take-drop (suc n) [] = refl
take-drop (suc n) (r ∷ rs) = ap (λ l. r ∷ l) (take-drop n rs)

-- The row of a table with a value for each of its columns.
abbrev pub row_with : Bytes → List Bytes → List Value → Row
row_with t cols vals = record {
  table = t;
  row_rev = int_or_zero (get (zip cols vals) (codes "rev"));
  values = zip cols vals;
}

-- What the statements give, for the tables of the wire protocol one by one.
abbrev pub given : (Bytes → ℤ → ℕ → List (List Value)) → ℤ → ℕ → List Row
given query c limit =
    flat_map (λ table. map (row_with table.0 table.1) (query table.0 c limit)) columns

data_of-zip : (cols : List Bytes) (vals : List Value) → data_of cols vals ≡ zip cols vals
unfolding data_of zip
data_of-zip [] vals = refl
data_of-zip (c ∷ cs) [] = refl
data_of-zip (c ∷ cs) (v ∷ vs) = ap (λ l. (c, v) ∷ l) (data_of-zip cs vs)

rows_of-map :
    (t : Bytes) (cols : List Bytes) (rows : List (List Value))
    → rows_of t cols rows ≡ map (row_with t cols) rows
unfolding rows_of row_of
rows_of-map t cols [] = refl
rows_of-map t cols (vals ∷ rest) = rw (data_of-zip cols vals, rows_of-map t cols rest) refl

collect-flat_map :
    (query : Bytes → ℤ → ℕ → List (List Value)) (ts : List (Bytes × List Bytes)) (c : ℤ) (limit : ℕ)
    → collect query ts c limit
      ≡ flat_map (λ table. map (row_with table.0 table.1) (query table.0 c limit)) ts
unfolding collect flat_map
collect-flat_map query [] c limit = refl
collect-flat_map query ((t, cols) ∷ ts) c limit =
    rw (rows_of-map t cols (query t c limit), collect-flat_map query ts c limit) refl

-- The page has as many rows as the tables gave, up to the limit. With the rows that it leaves out
-- behind it, it holds each row that a table gave, with a value for each column, once, and no row has
-- a lower revision than the one before.
pub changes_since-Ascending :
    (query : Bytes → ℤ → ℕ → List (List Value)) (c : ℤ) (limit : ℕ)
    → (left : List Row) × (length (changes_since query c limit)
        ≡ min limit (length (given query c limit)))
      × Perm (changes_since query c limit ++ left) (given query c limit)
      × Ascending (changes_since query c limit ++ left)
unfolding changes_since
changes_since-Ascending query c limit =
    let all = collect query columns c limit in
    let e : all ≡ given query c limit = collect-flat_map query columns c limit in
    (
      drop limit (sort_by_rev all),
      length-take limit (sort_by_rev all)
          ∙ ap (λ n. min limit n) (length-sort_by_rev all ∙ ap (λ l. length l) e),
      subst (λ l. Perm l (given query c limit)) (sym (take-drop limit (sort_by_rev all)))
          (subst (λ l. Perm (sort_by_rev all) l) e (sort_by_rev-perm all)),
      subst Ascending (sym (take-drop limit (sort_by_rev all))) (sort_by_rev-Ascending all),
    )
