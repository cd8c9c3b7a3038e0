-- ===== src/Report/Query/Marks.antt =====
-- The statements of internal/report/query.go and the placeholders in them.
use buckle.Base.{
  ℕ, suc, ◌+◌, Bool, true, false, Bytes, codes, List, [], ◌∷◌, ◌++◌, Option, none, some, is_empty,
  length, length-append, if◌then◌else◌, ◌==◌, nat_eq, bytes_eq, ◌≡◌, refl, ap, ◌∙◌, arith,
}
use buckle.Base.Int.{ℤ}
use buckle.Report.Query.{
  Filter, Cond, conditions, join, sqls, args_of, where_of, at_time, run_where,
}

-- The question marks of a statement.
unfoldable pub marks : Bytes → ℕ
marks [] = 0
marks (c ∷ cs) = let n = marks cs in if c == b'?' then suc n else n

pub marks-append : (a b : Bytes) → marks (a ++ b) ≡ marks a + marks b
unfolding marks
marks-append [] b = omega arith
marks-append (c ∷ a) b = let h = marks-append a b in ground arith

-- Each placeholder of a condition has one argument.
abbrev pub IsFilled : Cond → Type 0
IsFilled c = marks c.sql ≡ length c.args

abbrev AllFilled : List Cond → Type 0
AllFilled [] = Unit {0}
AllFilled (c ∷ cs) = IsFilled c × AllFilled cs

AllFilled-append : (a b : List Cond) → AllFilled a → AllFilled b → AllFilled (a ++ b)
AllFilled-append [] b ha hb = hb
AllFilled-append (c ∷ a) b (h, ha) hb = (h, AllFilled-append a b ha hb)

AllFilled-if :
    (b : Bool) (cs ds : List Cond) → AllFilled cs → AllFilled ds → AllFilled (if b then cs else ds)
AllFilled-if true cs ds h k = h
AllFilled-if false cs ds h k = k

at_time-AllFilled : (sql : Bytes) (t : Option ℤ) → marks sql ≡ 1 → AllFilled (at_time sql t)
at_time-AllFilled sql none h = tt
at_time-AllFilled sql (some t) h = (h, tt)

conditions-AllFilled : (f : Filter) (col : Bytes) → marks col ≡ 0 → AllFilled (conditions f col)
unfolding conditions marks
conditions-AllFilled f col h =
    AllFilled-append _ _ (at_time-AllFilled _ f.since (marks-append col _ ∙ ap (λ n. n + 1) h)) (
      AllFilled-append _ _ (at_time-AllFilled _ f.until (marks-append col _ ∙ ap (λ n. n + 1) h)) (
        AllFilled-append _ _ (AllFilled-if (is_empty f.session) _ _ tt (refl, tt)) (
          AllFilled-append _ _ (AllFilled-if (is_empty f.command) _ _ tt (refl, tt))
            (AllFilled-if f.has_denials _ _ (refl, tt) tt))))

marks-join :
    (cs : List Cond) → AllFilled cs → marks (join (codes " AND ") (sqls cs)) ≡ length (args_of cs)
unfolding join sqls args_of marks
marks-join [] h = refl
marks-join (c ∷ []) (h, _) = let p = length-append c.args [] in ground arith
marks-join (c ∷ d ∷ cs) (h, hs) =
    let p = marks-append c.sql (codes " AND " ++ join (codes " AND ") (sqls (d ∷ cs))) in
    let q = marks-append (codes " AND ") (join (codes " AND ") (sqls (d ∷ cs))) in
    let r = length-append c.args (args_of (d ∷ cs)) in
    let k = marks-join (d ∷ cs) hs in ground arith

where_of-IsFilled : (cs : List Cond) → AllFilled cs → IsFilled (where_of cs)
unfolding marks
where_of-IsFilled [] k = refl
where_of-IsFilled (c ∷ cs) k = marks-join (c ∷ cs) k

pub run_where-IsFilled : (f : Filter) (col : Bytes) → marks col ≡ 0 → IsFilled (run_where f col)
unfolding run_where
run_where-IsFilled f col h = where_of-IsFilled (conditions f col) (conditions-AllFilled f col h)
