-- ===== src/Correlate/Ledger/Balance.antt =====
-- Rounds of internal/correlate/correlator.go lose and double no denial.
use buckle.Base.{
  ℕ, ◌+◌, true, List, [], ◌∷◌, some, ◌≡◌, refl, sym, ap, ◌∙◌, subst, arith, is_some, nat_eq,
  bytes_eq, pair_eq, All, All-imp, Unique,
}
use buckle.Base.Map
use buckle.Base.Map.{Map}
use buckle.Exec.Frame.{IsPreorder}
use buckle.Correlate.State.{State, DenialKey, Pending}
use buckle.Correlate.Ticks.{set_pending}
use buckle.Correlate.Ledger.{Tally, Step}
use buckle.Correlate.Ledger.Waiting.{
  weight, waiting, pids, list_at, Waits, Sound, AllSeen, Moves, put_list, waiting-put_list,
  put_list-Unique, list_at-put_list, at_pid,
}

-- In a sound state no denial comes and some may go: none if the process of each was seen.
pub record Round {D : Type 0} (tally : Tally D) (s t : State D) : Type 0 where
  pub lost : ℕ
  pub moves : Moves tally 0 lost s t
  pub none_lost : AllSeen s → (lost ≡ 0) × AllSeen t

module _ {D : Type 0} (tally : Tally D) where
  abbrev pub Rounds : State D → State D → Type 0
  Rounds s t = Sound tally s → Round tally s t

  pub Rounds-IsPreorder : IsPreorder Rounds
  Rounds-IsPreorder = record {
    rel_refl = λ s h. record {
      lost = 0;
      moves = record { total = refl; sound = h; stays_seen = λ pid e. e };
      none_lost = λ a. (refl, a);
    };
    rel_trans = λ s t u f g h.
        let a = f h in
        let b = g a.moves.sound in
        record {
          lost = a.lost + b.lost;
          moves = record {
            total = omega (arith, a.moves.total, b.moves.total);
            sound = b.moves.sound;
            stays_seen = λ pid e. b.moves.stays_seen pid (a.moves.stays_seen pid e);
          };
          none_lost = λ seen.
              let (x, seen') = a.none_lost seen in
              let (y, seen'') = b.none_lost seen' in (omega (arith, x, y), seen'');
        };
  }

  pub set_pending-is :
      (pid : ℕ) (l : List Pending) (s : State D)
      → set_pending pid l s ≡ record s { pending_by_pid = put_list pid l s.pending_by_pid }
  unfolding set_pending
  set_pending-is pid [] s = refl
  set_pending-is pid (p ∷ ps) s = refl

  -- A list is replaced by what a step leaves of it.
  pub replaced-Round :
      (pid gained lost : ℕ) (extra : List Pending) (s v : State D)
      → Step tally gained lost s v
      → gained + weight extra ≡ weight (list_at pid s.pending_by_pid)
      → ((key : DenialKey) (ref : ℕ)
          → Map.lookup key v.last_pending ≡ some ref
          → Waits ref key (list_at pid s.pending_by_pid)
          → Waits ref key extra)
      → (AllSeen s
          → (lost ≡ 0) × All (λ (p : Pending). is_some (Map.lookup p.d.pid v.seen) ≡ true) extra)
      → Rounds s (record v { pending_by_pid = put_list pid extra v.pending_by_pid })
  replaced-Round pid gained lost extra s v c split stays none_lost h =
      let m = s.pending_by_pid in
      let list_is = λ (k : ℕ). sym (
        ap (λ x. list_at k (put_list pid extra x)) c.waiting_same
        ∙ list_at-put_list pid k extra m) in
      let known = c.stays_known h.known in
      record {
        lost = lost;
        moves = record {
          total = omega (
            arith,
            ap (λ x. waiting (put_list pid extra x)) c.waiting_same,
            waiting-put_list pid extra m h.one_list,
            split,
            c.adds,
          );
          sound = record {
            one_list =
                subst (λ x. Unique (pids (put_list pid extra x))) (sym c.waiting_same)
                  (put_list-Unique pid extra m h.one_list);
            leads = λ key ref e. subst (Waits ref key) (list_is key.0) (
                at_pid (Waits ref key) pid key.0 extra (list_at key.0 m)
                  (λ q. stays key ref e (
                    subst (λ k. Waits ref key (list_at k m)) (sym q)
                      (h.leads key ref (c.last_shrinks key ref e))))
                  (λ q. h.leads key ref (c.last_shrinks key ref e)));
            known = record {
              stored_there = known.stored_there;
              orphans_there = known.orphans_there;
            };
          };
          stays_seen = c.stays_seen;
        };
        none_lost = λ seen.
            let (no_loss, all) = none_lost seen in
            (
              no_loss,
              record {
                seen_at = λ k.
                    subst (All (λ (p : Pending). is_some (Map.lookup p.d.pid v.seen) ≡ true))
                      (list_is k)
                      (at_pid (All (λ (p : Pending). is_some (Map.lookup p.d.pid v.seen) ≡ true))
                        pid k extra (list_at k m) (λ q. all)
                        (λ q.
                          All-imp _ _ (λ p. c.stays_seen p.d.pid) (list_at k m) (seen.seen_at k)));
              },
            );
      }

  pub step-Moves :
      (n lost : ℕ) (s t : State D) → Step tally n lost s t → Sound tally s → Moves tally n lost s t
  step-Moves n lost s t c h = record {
    total = omega (arith, ap waiting c.waiting_same, c.adds);
    sound = record {
      one_list = subst (λ m. Unique (pids m)) (sym c.waiting_same) h.one_list;
      leads = λ key ref e.
          subst (λ m. Waits ref key (list_at key.0 m)) (sym c.waiting_same)
            (h.leads key ref (c.last_shrinks key ref e));
      known = c.stays_known h.known;
    };
    stays_seen = c.stays_seen;
  }

  pub step-AllSeen : (n lost : ℕ) (s t : State D) → Step tally n lost s t → AllSeen s → AllSeen t
  step-AllSeen n lost s t c a = record {
    seen_at = λ k.
        All-imp _ _ (λ p. c.stays_seen p.d.pid) (list_at k t.pending_by_pid)
          (subst
            (λ m. All (λ (p : Pending). is_some (Map.lookup p.d.pid s.seen) ≡ true) (list_at k m))
            (sym c.waiting_same) (a.seen_at k));
  }

  -- A step that counts nothing.
  pub calm-Rounds : (s t : State D) → Step tally 0 0 s t → Rounds s t
  calm-Rounds s t c h = record {
    lost = 0;
    moves = step-Moves 0 0 s t c h;
    none_lost = λ a. (refl, step-AllSeen 0 0 s t c a);
  }
