-- ===== src/Store/Tallied.antt =====
-- The tables of internal/store/write.go count denials as the correlator relies on.
use buckle.Base.{
  ℕ, ◌+◌, true, [], ◌∷◌, is_some, ◌≡◌, refl, ap, ◌∙◌, subst, arith, if◌then◌else◌, nat_eq, beq_self,
  Bytes,
}
use buckle.Base.Map
use buckle.Base.Map.{Map}
use buckle.Exec.{Result, ok, err}
use buckle.Rows
use buckle.Store.{
  Tables, next_id, add, store_sink, insert_denial, add_denial_count, ensure_session, insert_run,
  set_run_session, end_run, insert_process, end_process, insert_orphan, add_orphan_count,
}
use buckle.Store.Counts.{
  sum_of, total, counted, sum_of-append, sum_of-update, has-update, has-append,
}
use buckle.Correlate.Ledger.{Tally, Adds, Ledger}

-- Both tables' counts, and the ids of their rows.
abbrev pub tables_tally : Tally Tables
tables_tally = record {
  counted = λ s. total s.denials + sum_of (λ (o : Rows.Orphan). o.count) s.orphans;
  has_denial = λ id s. is_some (Map.lookup id s.denials);
  has_orphan = λ id s. is_some (Map.lookup id s.orphans);
}

elsewhere-Adds :
    (s t : Tables) → t.denials ≡ s.denials → t.orphans ≡ s.orphans → Adds tables_tally 0 s t
elsewhere-Adds s t d o = record {
  more = omega (arith, ap total d, ap (sum_of (λ (r : Rows.Orphan). r.count)) o);
  denials_stay = λ id h. ap (λ m. is_some (Map.lookup id m)) d ∙ h;
  orphans_stay = λ id h. ap (λ m. is_some (Map.lookup id m)) o ∙ h;
}

module _ {R : Type 0} where
  has-add : (r : R) (m : Map ℕ R) → is_some (Map.lookup (next_id m) (add r m)) ≡ true
  unfolding add Map.lookup
  has-add r m =
      has-append (next_id m) m ((next_id m, r) ∷ []) ∙ ground (arith, beq_self (next_id m))

  stays-add :
      (id : ℕ) (r : R) (m : Map ℕ R)
      → is_some (Map.lookup id m) ≡ true
      → is_some (Map.lookup id (add r m)) ≡ true
  unfolding add
  stays-add id r m h = has-append id m ((next_id m, r) ∷ []) ∙ ground (arith, h)

  sum_of-add : (f : R → ℕ) (r : R) (m : Map ℕ R) → sum_of f (add r m) ≡ sum_of f m + f r
  unfolding add
  sum_of-add f r m = sum_of-append f m ((next_id m, r) ∷ []) ∙ omega arith

abbrev id_of : Result ℕ → ℕ
id_of (ok id) = id
id_of (err e) = 0

insert_denial-Adds :
    (row : Rows.Denial) (d e : Tables) (id : ℕ)
    → insert_denial row d ≡ (ok id, e)
    → Adds tables_tally row.count d e × (is_some (Map.lookup id e.denials) ≡ true)
unfolding insert_denial
insert_denial-Adds row d e id q =
    subst
      (λ x.
        Adds tables_tally row.count d x.1 × (is_some (Map.lookup (id_of x.0) x.1.denials) ≡ true))
      q
      (
        record {
          more = omega (arith, sum_of-add (λ (r : Rows.Denial). r.count) row d.denials);
          denials_stay = λ j h. stays-add j row d.denials h;
          orphans_stay = λ j h. h;
        },
        has-add row d.denials,
      )

insert_orphan-Adds :
    (row : Rows.Orphan) (d e : Tables) (id : ℕ)
    → insert_orphan row d ≡ (ok id, e)
    → Adds tables_tally row.count d e × (is_some (Map.lookup id e.orphans) ≡ true)
unfolding insert_orphan
insert_orphan-Adds row d e id q =
    subst
      (λ x.
        Adds tables_tally row.count d x.1 × (is_some (Map.lookup (id_of x.0) x.1.orphans) ≡ true))
      q
      (
        record {
          more = omega (arith, sum_of-add (λ (r : Rows.Orphan). r.count) row d.orphans);
          denials_stay = λ j h. h;
          orphans_stay = λ j h. stays-add j row d.orphans h;
        },
        has-add row d.orphans,
      )

add_denial_count-Adds :
    (id n : ℕ) (d e : Tables) (u : Unit {0})
    → is_some (Map.lookup id d.denials) ≡ true
    → add_denial_count id n d ≡ (ok u, e)
    → Adds tables_tally n d e
unfolding add_denial_count
add_denial_count-Adds id n d e u h q =
    let g : Rows.Denial → Rows.Denial = counted n in
    subst (Adds tables_tally n d) (ap (λ x. x.1) q) (record {
      more = omega (
        arith,
        sum_of-update (λ (r : Rows.Denial). r.count) g id n d.denials (λ r. refl)
            ∙ ap (λ b. total d.denials + (if b then n else 0)) h,
      );
      denials_stay = λ j p. has-update id j g d.denials ∙ p;
      orphans_stay = λ j p. p;
    })

add_orphan_count-Adds :
    (id n : ℕ) (d e : Tables) (u : Unit {0})
    → is_some (Map.lookup id d.orphans) ≡ true
    → add_orphan_count id n d ≡ (ok u, e)
    → Adds tables_tally n d e
unfolding add_orphan_count
add_orphan_count-Adds id n d e u h q =
    let g : Rows.Orphan → Rows.Orphan = λ (o : Rows.Orphan). record o { count = o.count + n } in
    subst (Adds tables_tally n d) (ap (λ x. x.1) q) (record {
      more = omega (
        arith,
        sum_of-update (λ (r : Rows.Orphan). r.count) g id n d.orphans (λ r. refl)
            ∙ ap (λ b. sum_of (λ (r : Rows.Orphan). r.count) d.orphans + (if b then n else 0)) h,
      );
      denials_stay = λ j p. p;
      orphans_stay = λ j p. has-update id j g d.orphans ∙ p;
    })

pub tables_ledger : (sha : Bytes → Bytes) → Ledger (store_sink sha)
unfolding ensure_session insert_run set_run_session end_run insert_process end_process
tables_ledger sha = record {
  tally = tables_tally;
  session_adds = λ kind key t d. elsewhere-Adds d _ refl refl;
  run_adds = λ row d. elsewhere-Adds d _ refl refl;
  set_session_adds = λ run sid tag detail d. elsewhere-Adds d _ refl refl;
  end_run_adds = λ run t status d. elsewhere-Adds d _ refl refl;
  process_adds = λ row d. elsewhere-Adds d _ refl refl;
  end_process_adds = λ id t reason status d. elsewhere-Adds d _ refl refl;
  denial_adds = insert_denial-Adds;
  orphan_adds = insert_orphan-Adds;
  denial_again_adds = add_denial_count-Adds;
  orphan_again_adds = add_orphan_count-Adds;
}
