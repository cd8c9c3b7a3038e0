-- ===== src/Report/Query/Filled.antt =====
-- The statements of internal/report/query.go have an argument for each placeholder.
use buckle.Base.{
  ℕ, ◌+◌, Bool, true, false, Bytes, codes, List, [], ◌∷◌, ◌++◌, length, length-append,
  if◌then◌else◌, ◌==◌, ◌||◌, nat_eq, bytes_eq, bytes_beq_iff, Bool-cases, inl, inr, ◌≡◌, refl, sym,
  ap, subst, ◌∙◌, arith,
}
use buckle.Base.Int.{ℤ}
use buckle.Exec.{Result, ok, err}
use buckle.Report.{int}
use buckle.Report.Query.{
  Filter, Cond, join, run_where, runs_tail, runs_query, match_of, sessions_tail, sessions_query,
  denials_query, group_columns, and_column, default_by, grouped, top_of, aggregate_sql,
  aggregate_query,
}
use buckle.Report.Statements.{
  runs_head, runs_tail, sessions_head, sessions_counted, sessions_from, sessions_tail,
  aggregate_head,
}
use buckle.Report.Query.Marks.{marks, marks-append, IsFilled, run_where-IsFilled}

-- Text without a question mark in front of a statement.
marks-front : (a b : Bytes) → marks a ≡ 0 → marks (a ++ b) ≡ marks b
marks-front a b h = let p = marks-append a b in ground arith

marks-around : (a b c : Bytes) → marks a ≡ 0 → marks c ≡ 0 → marks (a ++ (b ++ c)) ≡ marks b
marks-around a b c h k = let p = marks-append a (b ++ c) in let q = marks-append b c in ground arith

pub runs_query-IsFilled : (f : Filter) → IsFilled (runs_query f)
unfolding runs_query marks
runs_query-IsFilled f =
    marks-around runs_head (run_where f (codes "r.started_at")).sql runs_tail refl refl
    ∙ run_where-IsFilled f (codes "r.started_at") refl

match_of-marks : (sql : Bytes) → marks (match_of sql) ≡ marks sql
unfolding marks
match_of-marks [] = refl
match_of-marks (c ∷ sql) =
    marks-append (c ∷ sql) (codes " AND r.session_id = sess.id") ∙ omega arith

marks-piece : (a b c : Bytes) → marks a ≡ 0 → marks (a ++ (b ++ c)) ≡ marks b + marks c
marks-piece a b c h = marks-front a (b ++ c) h ∙ marks-append b c

marks-thrice :
    (a b c d m : Bytes)
    → marks a ≡ 0
    → marks b ≡ 0
    → marks c ≡ 0
    → marks d ≡ 0
    → marks (a ++ (m ++ (b ++ (m ++ (c ++ (m ++ d)))))) ≡ marks m + marks m + marks m
marks-thrice a b c d m ha hb hc hd =
    let p = marks-piece a m (b ++ (m ++ (c ++ (m ++ d)))) ha in
    let q = marks-piece b m (c ++ (m ++ d)) hb in let r = marks-piece c m d hc in ground arith

pub sessions_query-IsFilled : (f : Filter) → IsFilled (sessions_query f)
unfolding sessions_query marks
sessions_query-IsFilled f =
    let w = run_where f (codes "r.started_at") in
    let p =
      marks-thrice sessions_head sessions_counted sessions_from sessions_tail (match_of w.sql) refl
        refl refl refl in
    let h = match_of-marks w.sql in
    let k = run_where-IsFilled f (codes "r.started_at") refl in
    let u = length-append (w.args ++ w.args) w.args in
    let v = length-append w.args w.args in
    p ∙ ap (λ n. n + n + n) (h ∙ k) ∙ sym (u ∙ ap (λ n. n + length w.args) v)

-- The columns of a grouping have no question mark.
abbrev ArePlain : List Bytes → Type 0
ArePlain [] = Unit {0}
ArePlain (c ∷ cs) = (marks c ≡ 0) × ArePlain cs

abbrev ResultPlain : Result (List Bytes) → Type 0
ResultPlain (err e) = Unit {0}
ResultPlain (ok cs) = ArePlain cs

marks-plain_join : (cs : List Bytes) → ArePlain cs → marks (join (codes ", ") cs) ≡ 0
unfolding join marks
marks-plain_join [] h = refl
marks-plain_join (c ∷ []) (h, _) = h
marks-plain_join (c ∷ d ∷ cs) (h, hs) =
    let p = marks-append c (codes ", " ++ join (codes ", ") (d ∷ cs)) in
    let k = marks-plain_join (d ∷ cs) hs in p ∙ ground arith

and_column-Plain :
    (c : Bytes) (r : Result (List Bytes))
    → marks c ≡ 0
    → ResultPlain r
    → ResultPlain (and_column c r)
and_column-Plain c (err e) h k = tt
and_column-Plain c (ok cs) h k = (h, k)

IsGroup-marks :
    (b : Bytes)
    → (b == codes "operation" || b == codes "target") ≡ true
    → marks (codes "d." ++ b) ≡ 0
unfolding marks
IsGroup-marks b e = elim (Bool-cases (b == codes "operation")) [
  | inl p ↦ ap marks ((bytes_beq_iff b _).0 p)
  | inr p ↦ ap marks ((bytes_beq_iff b _).0 (subst (λ x. (x || b == codes "target") ≡ true) p e))
]

ResultPlain-if :
    (b : Bool) (r s : Result (List Bytes))
    → (b ≡ true → ResultPlain r)
    → ResultPlain s
    → ResultPlain (if b then r else s)
ResultPlain-if true r s h k = h refl
ResultPlain-if false r s h k = k

group_columns-Plain :
    (quoted : Bytes → Bytes) (by : List Bytes) → ResultPlain (group_columns quoted by)
unfolding group_columns
group_columns-Plain quoted [] = tt
group_columns-Plain quoted (b ∷ bs) =
    let rest = group_columns-Plain quoted bs in
    ResultPlain-if _ _ _ (λ e. and_column-Plain _ _ (IsGroup-marks b e) rest) tt

-- The pieces of the statement of `Aggregate` add up.
aggregated :
    {b c d : ℕ} (g w n : ℕ) → g ≡ 0 → w ≡ n → b ≡ w + c → c ≡ g + d → d ≡ g + 1 → g + b ≡ n + 1
aggregated g w n h k p q r = omega arith

aggregate_sql-IsFilled :
    (f : Filter) (group : Bytes) (top : ℤ) → marks group ≡ 0 → IsFilled (aggregate_sql f group top)
unfolding aggregate_sql marks
aggregate_sql-IsFilled f group top h =
    let g = record f { has_denials = false } in
    let w = run_where g (codes "d.time") in
    let k = run_where-IsFilled g (codes "d.time") refl in
    let p =
      marks-piece (codes "SELECT ") group
        (aggregate_head
          ++ (w.sql
              ++ (codes "\n\t\tGROUP BY "
                  ++ (group
                      ++ (codes " ORDER BY total_count DESC, " ++ (group ++ codes " LIMIT ?"))))))
        refl in
    let q =
      marks-piece aggregate_head w.sql
        (codes "\n\t\tGROUP BY "
          ++ (group ++ (codes " ORDER BY total_count DESC, " ++ (group ++ codes " LIMIT ?"))))
        refl in
    let r =
      marks-piece (codes "\n\t\tGROUP BY ") group
        (codes " ORDER BY total_count DESC, " ++ (group ++ codes " LIMIT ?")) refl in
    let s = marks-piece (codes " ORDER BY total_count DESC, ") group (codes " LIMIT ?") refl in
    let u = length-append w.args (int (top_of top) ∷ []) in p ∙ aggregated _ _ _ h k q r s ∙ sym u

abbrev pub ResultFilled : Result Cond → Type 0
ResultFilled (err e) = Unit {0}
ResultFilled (ok c) = IsFilled c

grouped-Filled :
    (f : Filter) (top : ℤ) (r : Result (List Bytes))
    → ResultPlain r
    → ResultFilled (grouped f top r)
grouped-Filled f top (err e) h = tt
grouped-Filled f top (ok cols) h = aggregate_sql-IsFilled f _ top (marks-plain_join cols h)

-- Each statement of `Runs`, of `Sessions`, of `Denials` and, where it groups by `operation` and
-- `target` only, of `Aggregate` has as many arguments as placeholders, whatever the filter.
pub queries-Filled :
    (f : Filter) (run_id top : ℤ) (quoted : Bytes → Bytes) (by : List Bytes)
    → IsFilled (runs_query f)
      × (IsFilled (sessions_query f)
          × (IsFilled (denials_query run_id) × ResultFilled (aggregate_query quoted f by top)))
unfolding denials_query aggregate_query marks
queries-Filled f run_id top quoted by = (
  runs_query-IsFilled f,
  (
    sessions_query-IsFilled f,
    (refl, grouped-Filled f top _ (group_columns-Plain quoted (default_by by))),
  ),
)
