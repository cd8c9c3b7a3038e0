-- ===== src/Correlate/Ledger/Arrivals.antt =====
-- What a line that arrives does to the denials that internal/correlate/correlator.go waits with.

use buckle.Base.{
  ℕ, ◌+◌, ltb, true, List, [], ◌∷◌, ◌++◌, some, ◌≡◌, ◌≢◌, sym, ap, ◌∙◌, subst, arith, if◌then◌else◌,
  is_some, nat_eq, bytes_eq, pair_eq, ◌==◌, Bool-cases, inl, inr, All, All-append,
}
use buckle.Base.Map
use buckle.Base.Map.{Map}
use buckle.ULog.{Denial}
use buckle.Correlate.Sink.{Sink}
use buckle.Correlate.State.{State, Deps, DenialKey, Pending, pendings, key_of}
use buckle.Correlate.Denials.{bump, at_least_one, bump_waiting, add_pending}
use buckle.Correlate.Ledger.{Tally, Step}
use buckle.Correlate.Ledger.Waiting.{
  weight, list_at, weight-append, waiting-insert, insert-Unique, Waits, Waits-left, Waits-right,
  weight-bump, bump-Waits, Sound, AllSeen, Moves, list_at-insert, at_pid,
}
use buckle.Correlate.Ledger.Balance.{step-Moves, step-AllSeen}

-- The denials that a line stands for.
abbrev pub line_count : Denial → ℕ
line_count d = if ltb 0 d.duplicate then d.duplicate else at_least_one d.deny_n

-- `n` denials of a process come to a sound state.
pub record Gains {D : Type 0} (tally : Tally D) (n pid : ℕ) (s t : State D) : Type 0 where
  pub moves : Moves tally n 0 s t
  pub all_seen : AllSeen s → is_some (Map.lookup pid s.seen) ≡ true → AllSeen t

module _ {D : Type 0} (tally : Tally D) where
  abbrev pub Arrives : ℕ → ℕ → State D → State D → Type 0
  Arrives n pid s t = Sound tally s → Gains tally n pid s t

  pub step-Arrives : (n pid : ℕ) (s t : State D) → Step tally n 0 s t → Arrives n pid s t
  step-Arrives n pid s t c h = record {
    moves = step-Moves tally n 0 s t c h;
    all_seen = λ a e. step-AllSeen tally n 0 s t c a;
  }

  pub calm_Arrives :
      (n pid : ℕ) (s t u : State D) → Step tally 0 0 s t → Arrives n pid t u → Arrives n pid s u
  calm_Arrives n pid s t u c f h =
      let a = step-Moves tally 0 0 s t c h in
      let g = f a.sound in
      record {
        moves = record {
          total = omega (arith, a.total, g.moves.total);
          sound = g.moves.sound;
          stays_seen = λ k e. g.moves.stays_seen k (a.stays_seen k e);
        };
        all_seen = λ seen e. g.all_seen (step-AllSeen tally 0 0 s t c seen) (c.stays_seen pid e);
      }

  -- The list of a pid is written anew, and the pointers with it.
  relisted-Arrives :
      (n pid : ℕ) (new : List Pending) (last : Map DenialKey ℕ) (s : State D)
      → (Sound tally s → weight new ≡ weight (list_at pid s.pending_by_pid) + n)
      → (Sound tally s
          → (key : DenialKey) (ref : ℕ) → Map.lookup key last ≡ some ref
          → (pid ≡ key.0 → Waits ref key new)
            × (pid ≢ key.0 → Waits ref key (list_at key.0 s.pending_by_pid)))
      → (AllSeen s
          → is_some (Map.lookup pid s.seen) ≡ true
          → All (λ (p : Pending). is_some (Map.lookup p.d.pid s.seen) ≡ true) new)
      → Arrives n pid s
          (record s { pending_by_pid = Map.insert pid new s.pending_by_pid; last_pending = last })
  relisted-Arrives n pid new last s w leads all h = record {
    moves = record {
      total = omega (arith, w h, waiting-insert pid new s.pending_by_pid);
      sound = record {
        one_list = insert-Unique pid new s.pending_by_pid h.one_list;
        leads = λ key ref e.
            subst (Waits ref key) (sym (list_at-insert pid key.0 new s.pending_by_pid)) (
              at_pid (Waits ref key) pid key.0 new (list_at key.0 s.pending_by_pid)
                (leads h key ref e).0 (leads h key ref e).1);
        known = record {
          stored_there = h.known.stored_there;
          orphans_there = h.known.orphans_there;
        };
      };
      stays_seen = λ k e. e;
    };
    all_seen = λ seen e. record {
      seen_at = λ k.
          subst (All (λ (p : Pending). is_some (Map.lookup p.d.pid s.seen) ≡ true))
            (sym (list_at-insert pid k new s.pending_by_pid))
            (at_pid (All (λ (p : Pending). is_some (Map.lookup p.d.pid s.seen) ≡ true)) pid k new
              (list_at k s.pending_by_pid) (λ q. all seen e) (λ q. seen.seen_at k));
    };
  }

  pub add_pending-Arrives :
      (sink : Sink D) (deps : Deps) (p : Pending) (s : State D)
      → Arrives p.count p.d.pid s (add_pending sink deps p s)
  unfolding add_pending pendings
  add_pending-Arrives sink deps p s =
      let list = list_at p.d.pid s.pending_by_pid in
      relisted-Arrives p.count p.d.pid (list ++ p ∷ [])
        (Map.insert (key_of p.d) p.ref s.last_pending) s
        (λ h. weight-append list (p ∷ []) ∙ omega arith)
        (λ h key ref e. elim (Map.lookup-insert-some (key_of p.d) key p.ref ref s.last_pending e) [
          | inl q ↦ (
            λ r. Waits-right ref key list (p ∷ []) (inl (q.1, q.0)),
            λ r. elim (r (ap (λ k. k.0) q.0)) [ ],
          )
          | inr q ↦ (
            λ r. Waits-left ref key list (p ∷ []) (
                subst (λ k. Waits ref key (list_at k s.pending_by_pid)) (sym r)
                  (h.leads key ref q)),
            λ r. h.leads key ref q,
          )
        ])
        (λ seen e. All-append _ list (p ∷ []) (seen.seen_at p.d.pid) (e, tt))

  bump-All :
      (P : Denial → Type 0) (ref n : ℕ) (list : List Pending)
      → All (λ (p : Pending). P p.d) list
      → All (λ (p : Pending). P p.d) (bump ref n list)
  unfolding bump
  bump-All P ref n [] h = tt
  bump-All P ref n (p ∷ list) h = elim (Bool-cases (p.ref == ref)) [
    | inl e ↦ rw e h
    | inr e ↦ rw e (h.0, bump-All P ref n list h.1)
  ]

  pub bump_waiting-Arrives :
      (d : Denial) (ref : ℕ) (s : State D)
      → Map.lookup (key_of d) s.last_pending ≡ some ref
      → Arrives d.duplicate d.pid s (bump_waiting d ref s)
  unfolding bump_waiting pendings
  bump_waiting-Arrives d ref s found =
      let list = list_at d.pid s.pending_by_pid in
      relisted-Arrives d.duplicate d.pid (bump ref d.duplicate list) s.last_pending s
        (λ h. weight-bump ref d.duplicate (key_of d) list (h.leads (key_of d) ref found))
        (λ h key r e. (
          λ q.
              bump-Waits r ref d.duplicate key list
                (subst (λ k. Waits r key (list_at k s.pending_by_pid)) (sym q) (h.leads key r e)),
          λ q. h.leads key r e,
        ))
        (λ seen e.
          bump-All (λ x. is_some (Map.lookup x.pid s.seen) ≡ true) ref d.duplicate list
            (seen.seen_at d.pid))
