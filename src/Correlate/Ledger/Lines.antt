-- ===== src/Correlate/Ledger/Lines.antt =====
-- `HandleDenial` of internal/correlate/correlator.go counts a line's denials, or lets them wait.

use buckle.Base.{
  ℕ, ◌+◌, ltb, Bool, true, false, Option, none, some, ◌≡◌, refl, ap, subst, arith, if◌then◌else◌,
  nat_eq, bytes_eq, pair_eq, Bool-cases, inl, inr,
}
use buckle.Base.Map
use buckle.Base.Map.{Map}
use buckle.Exec.{ok, Exec, modify, ◌>>=◌}
use buckle.Exec.Frame.{Relates}
use buckle.Exec.Outcome.{Ends}
use buckle.ULog.{Denial}
use buckle.Correlate.Sink.{Sink}
use buckle.Correlate.State.{State, Deps, DenialKey, StoredDenial, Pending, key_of}
use buckle.Correlate.Images.{is_current}
use buckle.Correlate.Denials.{
  at_least_one, arriving, stored_row_of, bump_waiting, attribute, resolve_member, add_pending,
  new_denial, stored_repeat, repeat_denial, handle_denial,
}
use buckle.Correlate.Ledger.{Ledger, Step, elsewhere-Step}
use buckle.Correlate.Ledger.Settles.{attribute-Ends, call-Ends}
use buckle.Correlate.Ledger.Waiting.{Sound}
use buckle.Correlate.Ledger.Arrivals.{
  Arrives, add_pending-Arrives, bump_waiting-Arrives, calm_Arrives, line_count, step-Arrives,
}

module _ {D : Type 0} (sink : Sink D) (deps : Deps) (l : Ledger sink) where
  place-Ends :
      (p : Pending) (o : Option ℕ)
      → Ends
          (λ s u t. Arrives l.tally p.count p.d.pid s t)
          (elim o as (λ x. Exec (State D) (Unit {0})) [
            | some a ↦ attribute sink deps p a
            | none ↦ modify (add_pending sink deps p)
          ])
  unfolding modify
  place-Ends p none = record {
    at = λ s t u e.
        subst (Arrives l.tally p.count p.d.pid s) (ap (λ x. x.1) e)
          (add_pending-Arrives l.tally sink deps p s);
  }
  place-Ends p (some a) = record {
    at = λ s t u e.
        step-Arrives l.tally p.count p.d.pid s t ((attribute-Ends sink deps l p a).at s t u e).0;
  }

  number-Step :
      Relates (Step {D = D} l.tally 0 0) (modify (λ s. record s { next_ref = s.next_ref + 1 }))
  number-Step =
      elsewhere-Step l.tally (λ s. record s { next_ref = s.next_ref + 1 }) (λ s. refl) (λ s. refl)
        (λ s. refl) (λ s. refl) (λ s. refl) (λ s. refl)

  -- A line that starts a denial of its own.
  new_denial-Ends :
      (d : Denial) (count now : ℕ)
      → Ends
          (λ s u t. Arrives l.tally (at_least_one count) d.pid s t)
          (new_denial sink deps d count now)
  unfolding new_denial ◌>>=◌ resolve_member modify
  new_denial-Ends d count now = record {
    at = λ s t u e.
        let v = record s { next_ref = s.next_ref + 1 } in
        calm_Arrives l.tally (at_least_one count) d.pid s v t (number-Step.at s)
          ((place-Ends (arriving d count now s.next_ref) _).at v t u e);
  }

  counted_again-Ends :
      (d : Denial) (now : ℕ) (stored orphan : Option ℕ)
      → Ends
          (λ s u t.
            ltb 0 d.duplicate ≡ true
            → ((id : ℕ) → stored ≡ some id → l.tally.has_denial id s.db ≡ true)
            → ((id : ℕ) → orphan ≡ some id → l.tally.has_orphan id s.db ≡ true)
            → Arrives l.tally d.duplicate d.pid s t)
          (stored_repeat sink deps d now stored orphan)
  unfolding stored_repeat
  counted_again-Ends d now (some id) orphan = record {
    at = λ s t u e pos there there'.
        step-Arrives l.tally d.duplicate d.pid s t
          ((call-Ends sink deps l d.duplicate (λ x. l.tally.has_denial id x ≡ true) (λ u x. Unit)
              (sink.add_denial_count id d.duplicate)
              (λ x y u b q. (l.denial_again_adds id d.duplicate x y u b q, tt))).at
            s t u e (there id refl)).0;
  }
  counted_again-Ends d now none (some id) = record {
    at = λ s t u e pos there there'.
        step-Arrives l.tally d.duplicate d.pid s t
          ((call-Ends sink deps l d.duplicate (λ x. l.tally.has_orphan id x ≡ true) (λ u x. Unit)
              (sink.add_orphan_count id d.duplicate)
              (λ x y u b q. (l.orphan_again_adds id d.duplicate x y u b q, tt))).at
            s t u e (there' id refl)).0;
  }
  counted_again-Ends d now none none = record {
    at = λ s t u e pos there there'.
        subst (λ n. Arrives l.tally n d.pid s t) (ground (arith, pos))
          ((new_denial-Ends d d.duplicate now).at s t u e);
  }

  some_if : (b : Bool) (x y : ℕ) → ◌≡◌ {A = Option ℕ} (if b then some x else none) (some y) → x ≡ y
  some_if true x y h = cc
  some_if false x y h = cc

  -- The row that is counted again is there.
  stored_row-there :
      (s : State D) (key : DenialKey) (id : ℕ)
      → Sound l.tally s
      → stored_row_of s key ≡ some id
      → l.tally.has_denial id s.db ≡ true
  unfolding stored_row_of
  stored_row-there s key id h e = from_row (Map.lookup key s.last_stored) refl e
    where
      from_row :
          (o : Option StoredDenial)
          → Map.lookup key s.last_stored ≡ o
          → (elim o as (λ x. Option ℕ) [
            | none ↦ none
            | some sd ↦ if is_current s sd.img then some sd.id else none
          ])
            ≡ some id
          → l.tally.has_denial id s.db ≡ true
      from_row none q f = cc
      from_row (some sd) q f =
          subst (λ x. l.tally.has_denial x s.db ≡ true) (some_if (is_current s sd.img) sd.id id f)
            (h.known.stored_there key sd q)

  repeat-Ends :
      (d : Denial) (now : ℕ) (s t : State D) (u : Unit {0}) (waits : Option ℕ)
      → Map.lookup (key_of d) s.last_pending ≡ waits
      → ltb 0 d.duplicate ≡ true
      → (elim waits as (λ x. Exec (State D) (Unit {0})) [
        | some ref ↦ modify (bump_waiting d ref)
        | none ↦
            stored_repeat sink deps d now
              (stored_row_of s (key_of d))
              (Map.lookup (key_of d) s.last_orphan)
      ])
          s
        ≡ (ok u, t)
      → Arrives l.tally d.duplicate d.pid s t
  unfolding modify
  repeat-Ends d now s t u (some ref) q pos e =
      subst (Arrives l.tally d.duplicate d.pid s) (ap (λ x. x.1) e)
        (bump_waiting-Arrives l.tally d ref s q)
  repeat-Ends d now s t u none q pos e = λ h.
      (counted_again-Ends d now _ _).at s t u e pos (λ id r. stored_row-there s (key_of d) id h r)
        (λ id r. h.known.orphans_there (key_of d) id r) h

  -- A line whose handling succeeds adds the denials that it stands for to what is counted and what
  -- waits, and takes none away.
  pub handle_denial-Ends :
      (d : Denial) (now : ℕ)
      → Ends (λ s u t. Arrives l.tally (line_count d) d.pid s t) (handle_denial sink deps d now)
  unfolding handle_denial repeat_denial ◌>>=◌
  handle_denial-Ends d now = elim (Bool-cases (ltb 0 d.duplicate)) [
    | inl e ↦ rw e (record { at = λ s t u q. repeat-Ends d now s t u _ refl e q })
    | inr e ↦ rw e (new_denial-Ends d d.deny_n now)
  ]
