-- ===== src/Correlate/Ledger/Finals.antt =====
-- `finalize` of internal/correlate/correlator.go counts a pending or loses it.
use buckle.Base.{
  ℕ, Bool, true, false, not, Option, none, some, ◌≡◌, refl, sym, ap, ◌∙◌, subst, if◌then◌else◌,
  is_some, nat_eq, bytes_eq, pair_eq, Bytes,
}
use mathlib.Core.Bool.{false≢true}
use buckle.Base.Map
use buckle.Exec.{Result, ok, Exec, pure, modify, ◌>>=◌}
use buckle.Exec.Frame.{IsPreorder, Relates, Relates-pure}
use buckle.Exec.Outcome.{Ends, Ends-Relates, Ends-bind}
use buckle.Detect
use buckle.Detect.{Match, Detector}
use buckle.Correlate.Sink.{Sink}
use buckle.Correlate.State.{State, Deps, DenialKey, Pending, SeenInfo, call, key_of}
use buckle.Correlate.Images.{member_of, resolve}
use buckle.Correlate.Denials.{forget_pending}
use buckle.Correlate.Finalize.{
  unseen_image, orphan_row, note_orphan, orphan_or_drop, drop_or_orphan, classified,
  finalize_adopted, finalize_candidate, finalize_unclaimed, finalize,
}
use buckle.Correlate.Frames.{Relates-option, adopt-Relates, candidate_run-Relates}
use buckle.Correlate.Ledger.{Ledger, Step, then_calm, calm_then, Step-IsPreorder}
use buckle.Correlate.Ledger.Calm.{Step-Steps}
use buckle.Correlate.Ledger.Settles.{call-Ends, attribute-Counts}
use buckle.Correlate.Ledger.Forgets.{Counts, Forgotten, forget_pending-Step, note_orphan-Step}

module _ {D : Type 0} (sink : Sink D) (deps : Deps) (l : Ledger sink) where
  abbrev order : IsPreorder (Step {D = D} l.tally 0 0)
  order = Step-IsPreorder l.tally

  -- After steps that count nothing.
  calm-Counts {ℓ} :
      {A : Type ℓ} (p : Pending) (m : Exec (State D) A) (f : A → Exec (State D) (Unit {0}))
      → Relates (Step l.tally 0 0) m
      → ((a : A) → Ends (λ s u t. Counts l.tally p s t) (f a))
      → Ends (λ s u t. Counts l.tally p s t) (m >>= f)
  calm-Counts p m f hm hf =
      Ends-bind (λ s a t. Step l.tally 0 0 s t) (λ a s u t. Counts l.tally p s t)
        (λ s u t. Counts l.tally p s t) m f (Ends-Relates hm) hf
        λ s t v a u one two. record {
          lost = two.lost;
          step = calm_then l.tally p.count two.lost s t v one two.step;
          none_lost = λ h. two.none_lost (one.stays_seen p.d.pid h);
        }

  note_orphan-Ends :
      (key : DenialKey) (id : ℕ)
      → Ends
          (λ s u t. l.tally.has_orphan id s.db ≡ true → Step l.tally 0 0 s t)
          (modify (note_orphan {D = D} key id))
  unfolding modify
  note_orphan-Ends key id = record {
    at = λ s t u e h.
        subst (Step l.tally 0 0 s) (ap (λ x. x.1) e) (note_orphan-Step l.tally key id s h);
  }

  -- A pid that was seen gives an orphan; what waits for another is lost.
  orphan-Ends :
      (p : Pending) (i : SeenInfo)
      → Ends (λ s u t. Step l.tally p.count 0 s t) (orphan_or_drop sink deps p (some i))
  unfolding orphan_or_drop ◌>>=◌
  orphan-Ends p i = record {
    at = λ s t u e.
        (Ends-bind
            (λ s id t. Unit {0} → Step l.tally p.count 0 s t × (l.tally.has_orphan id t.db ≡ true))
            (λ id s u t. l.tally.has_orphan id s.db ≡ true → Step l.tally 0 0 s t)
            (λ s u t. Step l.tally p.count 0 s t) (call (sink.insert_orphan (orphan_row s p i)))
            (λ id. modify (note_orphan (key_of p.d) id))
            (call-Ends sink deps l p.count (λ d. Unit) (λ id d. l.tally.has_orphan id d ≡ true)
              (sink.insert_orphan (orphan_row s p i))
              (λ d e id b q. l.orphan_adds (orphan_row s p i) d e id q))
            (λ id. note_orphan-Ends (key_of p.d) id)
            λ s t v id u f g. then_calm l.tally p.count 0 s t v (f tt).0 (g (f tt).1)).at
          s t u e;
  }

  dropped-Step : (p : Pending) (s : State D) → Step l.tally p.count p.count s s
  dropped-Step p s = record {
    waiting_same = refl;
    last_shrinks = λ k ref e. e;
    adds = refl;
    stays_known = λ k. k;
    stays_seen = λ pid e. e;
  }

  drop_or_orphan-Counts :
      (p : Pending) → Ends (λ s u t. Counts l.tally p s t) (drop_or_orphan sink deps p)
  unfolding drop_or_orphan orphan_or_drop ◌>>=◌ pure
  drop_or_orphan-Counts p = record {
    at = λ s t u e. from_seen s t u (Map.lookup p.d.pid s.seen) refl e;
  }
    where
      from_seen :
          (s t : State D) (u : Unit {0}) (o : Option SeenInfo)
          → Map.lookup p.d.pid s.seen ≡ o
          → orphan_or_drop sink deps p o s ≡ (ok u, t)
          → Counts l.tally p s t
      from_seen s t u (some i) q e = record {
        lost = 0;
        step = (orphan-Ends p i).at s t u e;
        none_lost = λ h. refl;
      }
      from_seen s t u none q e = record {
        lost = p.count;
        step = subst (Step l.tally p.count p.count s) (ap (λ x. x.1) e) (dropped-Step p s);
        none_lost = λ h. elim (false≢true (sym (ap is_some q) ∙ h)) [ ];
      }

  finalize_adopted-Counts :
      (p : Pending) (found : Option ℕ) (claim : Detector × Match)
      → Ends (λ s u t. Counts l.tally p s t) (finalize_adopted sink deps p found claim)
  unfolding finalize_adopted
  finalize_adopted-Counts p found (det, m) =
      let steps = Step-Steps sink l in
      calm-Counts p _ _ (adopt-Relates sink deps steps det m p.d) λ r.
        calm-Counts p _ _
          (Relates-option _ _ (steps.register_step (unseen_image p.d.pid))
            (λ a. Relates-pure order a) found)
          λ a. calm-Counts p _ _ (steps.join_step a r) λ u. attribute-Counts sink deps l p a

  option-Counts :
      (p : Pending) (n : Exec (State D) (Unit {0})) (f : ℕ → Exec (State D) (Unit {0}))
      → Ends (λ s u t. Counts l.tally p s t) n
      → ((a : ℕ) → Ends (λ s u t. Counts l.tally p s t) (f a))
      → (o : Option ℕ) → Ends (λ s u t. Counts l.tally p s t) (elim o [ none ↦ n | some a ↦ f a ])
  option-Counts p n f hn hf none = hn
  option-Counts p n f hn hf (some a) = hf a

  finalize_candidate-Counts :
      (p : Pending) (a : ℕ) (check : Bytes → Bytes → Result Bool)
      → Ends (λ s u t. Counts l.tally p s t) (finalize_candidate sink deps p a check)
  unfolding finalize_candidate
  finalize_candidate-Counts p a check =
      calm-Counts p _ _ (candidate_run-Relates sink deps (Step-Steps sink l) check a) λ r.
        option-Counts p _ _ (drop_or_orphan-Counts p) (λ r'. attribute-Counts sink deps l p a) r

  classified-Counts :
      (p : Pending) (found : Option ℕ) (claim : Option (Detector × Match))
      (ents : Option (Bytes → Bytes → Result Bool))
      → Ends (λ s u t. Counts l.tally p s t) (classified sink deps p found claim ents)
  unfolding classified
  classified-Counts p found (some claim) ents = finalize_adopted-Counts p found claim
  classified-Counts p none none ents = drop_or_orphan-Counts p
  classified-Counts p (some a) none none = drop_or_orphan-Counts p
  classified-Counts p (some a) none (some check) = finalize_candidate-Counts p a check

  if-Counts :
      (p : Pending) (b : Bool) (m n : Exec (State D) (Unit {0}))
      → Ends (λ s u t. Counts l.tally p s t) m
      → Ends (λ s u t. Counts l.tally p s t) n
      → Ends (λ s u t. Counts l.tally p s t) (if b then m else n)
  if-Counts p true m n hm hn = hm
  if-Counts p false m n hm hn = hn

  unclaimed-Counts :
      (p : Pending) (classify : Bool) (found : Option ℕ)
      → Ends (λ s u t. Counts l.tally p s t) (finalize_unclaimed sink deps p classify found)
  unfolding finalize_unclaimed
  unclaimed-Counts p classify found =
      if-Counts p (not classify) _ _ (drop_or_orphan-Counts p)
        (classified-Counts p found (Detect.denial deps.decode p.d.message) deps.entitlements)

  -- `finalize` counts the pending or loses it, and forgets it.
  pub finalize-Ends :
      (p : Pending) (classify : Bool)
      → Ends (λ s u t. Counts l.tally p s t × Forgotten p t) (finalize sink deps p classify)
  unfolding finalize ◌>>=◌
  finalize-Ends p classify = record {
    at = λ s t u e.
        let v = forget_pending p s in
        let (forgot, gone) = forget_pending-Step l.tally p s in
        let found = resolve v p.d.pid p.d.time in
        let rest =
          (option-Counts p _ _ (unclaimed-Counts p classify found)
              (λ a. attribute-Counts sink deps l p a)
              (if member_of v found then found else none)).at
            v t u e in
        (
          record {
            lost = rest.lost;
            step = calm_then l.tally p.count rest.lost s v t forgot rest.step;
            none_lost = λ h. rest.none_lost (forgot.stays_seen p.d.pid h);
          },
          λ q. gone (rest.step.last_shrinks (key_of p.d) p.ref q),
        );
  }
