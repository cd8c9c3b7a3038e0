-- ===== src/Correlate/Ledger/Settles.antt =====
-- `attribute` and `finalize` of internal/correlate/correlator.go count what waited.
use buckle.Base.{
  ℕ, true, Option, none, some, ◌≡◌, refl, ap, subst, if◌then◌else◌, nat_eq, bytes_eq, pair_eq,
  codes,
}
use buckle.Exec.{ok, Exec, pure, raise, modify, gets, ◌>>=◌, ◌>>◌}
use buckle.Exec.Frame.{IsPreorder, Relates, Relates-pure, Relates-bind, Relates-gets, Relates-if}
use buckle.Exec.Outcome.{Ends, Ends-Relates, Ends-bind}
use buckle.ULog.{Denial}
use buckle.Detect
use buckle.Detect.{Match, Detector}
use buckle.Correlate.Sink.{Sink}
use buckle.Correlate.State.{State, Deps, Pending, image, run_at, call, key_of}
use buckle.Correlate.Denials.{
  forget_pending, note_stored, denial_row, attach_session, attribute_to, attribute,
}
use buckle.Correlate.Ledger.{
  Adds, Ledger, Step, then_calm, Step-trans, Step-IsPreorder, db-Step, call-Step,
}
use buckle.Correlate.Ledger.Calm.{put_run-Step}
use buckle.Correlate.Ledger.Forgets.{Counts, Forgotten, forget_pending-Step, note_stored-Step}

module _ {D : Type 0} (sink : Sink D) (deps : Deps) (l : Ledger sink) where
  abbrev order : IsPreorder (Step {D = D} l.tally 0 0)
  order = Step-IsPreorder l.tally

  attach_session-Step :
      (r : ℕ) (d : Denial) (claim : Option (Detector × Match))
      → Relates (Step l.tally 0 0) (attach_session sink deps r d claim)
  unfolding attach_session
  attach_session-Step r d none = Relates-pure order tt
  attach_session-Step r d (some (det, m)) =
      Relates-bind order _ _
        (call-Step l.tally (sink.ensure_session (Detect.kind det) m.key d.time)
          (l.session_adds (Detect.kind det) m.key d.time))
        λ sid. Relates-bind order _ _ (Relates-gets order (λ s. run_at s r)) λ run.
          Relates-bind order _ _
            (call-Step l.tally (sink.set_run_session run.id sid m.raw m.detail)
              (l.set_session_adds run.id sid m.raw m.detail))
            λ u. put_run-Step l.tally r (λ x. record x { has_session = true })

  -- A call that adds `n`.
  pub call-Ends {ℓ} :
      {A : Type ℓ} (n : ℕ) (Before : D → Type 0) (After : A → D → Type 0) (m : Exec D A)
      → ((d e : D) (a : A) → Before d → m d ≡ (ok a, e) → Adds l.tally n d e × After a e)
      → Ends (λ s a t. Before s.db → Step l.tally n 0 s t × After a t.db) (call m)
  unfolding call
  call-Ends n Before After m h = record {
    at = λ s t a e b.
        let q = h s.db (m s.db).1 a b (ap (λ r. (r, (m s.db).1)) (ap (λ x. x.0) e)) in
        subst (λ x. Step l.tally n 0 s x × After a x.db) (ap (λ x. x.1) e)
          (db-Step l.tally n s (m s.db).1 q.0, q.1);
  }

  -- `attribute` behind the insert
  abbrev behind_insert : Pending → ℕ → ℕ → ℕ → Exec (State D) (Unit {0})
  behind_insert p a r id = do
    modify (note_stored (key_of p.d) id a)
    modify (forget_pending p)
    run ← gets (λ s. run_at s r)
    if run.has_session
        then pure tt
        else attach_session sink deps r p.d (Detect.denial deps.decode p.d.message)

  session_part-Step :
      (p : Pending) (r : ℕ)
      → Relates (Step l.tally 0 0) (
          gets (λ (s : State D). run_at s r) >>= λ run.
          if run.has_session
          then pure tt
          else attach_session sink deps r p.d (Detect.denial deps.decode p.d.message))
  session_part-Step p r = Relates-bind order _ _ (Relates-gets order (λ s. run_at s r)) λ run.
      Relates-if order run.has_session _ _ (Relates-pure order tt)
        (attach_session-Step r p.d (Detect.denial deps.decode p.d.message))

  behind_insert-Ends :
      (p : Pending) (a r id : ℕ)
      → Ends
          (λ s u t. l.tally.has_denial id s.db ≡ true → Step l.tally 0 0 s t × Forgotten p t)
          (behind_insert p a r id)
  unfolding ◌>>=◌
  behind_insert-Ends p a r id = record {
    at = λ s t u e h.
        let stored = note_stored-Step l.tally (key_of p.d) id a s h in
        let (forgot, gone) = forget_pending-Step l.tally p (note_stored (key_of p.d) id a s) in
        let rest = (Ends-Relates (session_part-Step p r)).at _ t u e in
        (
          Step-trans l.tally 0 0 0 0 s _ t stored (Step-trans l.tally 0 0 0 0 _ _ t forgot rest),
          λ q. gone (rest.last_shrinks (key_of p.d) p.ref q),
        );
  }

  attribute_to-Ends :
      (p : Pending) (a r : ℕ)
      → Ends (λ s u t. Step l.tally p.count 0 s t × Forgotten p t) (attribute_to sink deps p a r)
  unfolding attribute_to ◌>>=◌
  attribute_to-Ends p a r = record {
    at = λ s t u e.
        (Ends-bind
            (λ s id t. Unit {0} → Step l.tally p.count 0 s t × (l.tally.has_denial id t.db ≡ true))
            (λ id s u t. l.tally.has_denial id s.db ≡ true → Step l.tally 0 0 s t × Forgotten p t)
            (λ s u t. Step l.tally p.count 0 s t × Forgotten p t)
            (call (sink.insert_denial (denial_row s p a r))) (behind_insert p a r)
            (call-Ends p.count (λ d. Unit) (λ id d. l.tally.has_denial id d ≡ true)
              (sink.insert_denial (denial_row s p a r))
              (λ d e id b q. l.denial_adds (denial_row s p a r) d e id q))
            (behind_insert-Ends p a r)
            λ s t v id u f g.
              let (one, there) = f tt in
              let (two, gone) = g there in (then_calm l.tally p.count 0 s t v one two, gone)).at
          s t u e;
  }

  -- `attribute` counts the pending and forgets it.
  pub attribute-Ends :
      (p : Pending) (a : ℕ)
      → Ends (λ s u t. Step l.tally p.count 0 s t × Forgotten p t) (attribute sink deps p a)
  unfolding attribute ◌>>=◌ raise
  attribute-Ends p a = record { at = λ s t u e. from_run s t u (image s a).run e }
    where
      from_run :
          (s t : State D) (u : Unit {0}) (o : Option ℕ)
          → (elim o as (λ x. Exec (State D) (Unit {0})) [
            | none ↦ raise (codes "nil pointer dereference")
            | some r ↦ attribute_to sink deps p a r
          ])
              s
            ≡ (ok u, t)
          → Step l.tally p.count 0 s t × Forgotten p t
      from_run s t u none e = cc
      from_run s t u (some r) e = (attribute_to-Ends p a r).at s t u e

  pub attribute-Counts :
      (p : Pending) (a : ℕ) → Ends (λ s u t. Counts l.tally p s t) (attribute sink deps p a)
  attribute-Counts p a = record {
    at = λ s t u e. record {
      lost = 0;
      step = ((attribute-Ends p a).at s t u e).0;
      none_lost = λ h. refl;
    };
  }
